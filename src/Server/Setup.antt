-- ===== src/Server/Setup.antt =====
-- The descriptors that `run_server` of src/server.cpp opens before its event loop, with
-- `set_non_blocking` and `update_event`.
pub mod Balanced
use redis_lite_cpp.Common.{ℕ, Bool, true, false, Option, none, some, if◌then◌else◌}
use redis_lite_cpp.Server.Loop.{update}

-- Which descriptors the process holds.
abbrev pub Held : Type 0
Held = ℕ → Bool

abbrev pub close : ℕ → Held → Held
close fd held = update fd false held

abbrev pub hold : ℕ → Held → Held
hold fd held = update fd true held

-- What `fcntl` gives: the flags, and whether they could be set.
pub record Fcntl : Type 0 where
  pub flags : Option ℕ
  pub sets : Bool

unfoldable pub set_non_blocking : Fcntl → Bool
set_non_blocking fcntl = elim fcntl.flags [ none ↦ false | some flags ↦ fcntl.sets ]

-- What `kevent` gives for a change: no error, ENOENT, or another error.
pub data Changed : Type 0 where
  changed no_entry refused_change : Changed

-- The flag is that of a removal.
unfoldable pub update_event : Bool → Changed → Bool
update_event deletes changed = true
update_event deletes no_entry = deletes
update_event deletes refused_change = false

-- The results of the calls before the loop.
pub record Calls : Type 0 where
  pub socket : Option ℕ
  pub reuses : Bool
  pub fcntl : Fcntl
  pub binds : Bool
  pub listens : Bool
  pub kqueue : Option ℕ
  pub registers : Changed

-- `return 1`, or the listening socket and the queue; with the descriptors held.
pub data Opened : Type 0 where
  refused : Held → Opened
  opened : (listen_fd kq : ℕ) → Held → Opened

abbrev pub with_queue : Changed → ℕ → Option ℕ → Held → Opened
with_queue registers listen_fd none held = refused (close listen_fd held)
with_queue registers listen_fd (some kq) held =
    if update_event false registers
    then opened listen_fd kq (hold kq held)
    else refused (close listen_fd (close kq (hold kq held)))

abbrev pub with_socket : Calls → Option ℕ → Held → Opened
with_socket calls none held = refused held
with_socket calls (some listen_fd) before =
    let held = hold listen_fd before in
    if calls.reuses
    then if set_non_blocking calls.fcntl
      then if calls.binds
        then if calls.listens
          then with_queue calls.registers listen_fd calls.kqueue held
          else refused (close listen_fd held)
        else refused (close listen_fd held)
      else refused (close listen_fd held)
    else refused (close listen_fd held)

unfoldable pub open_listener : Calls → Held → Opened
open_listener calls held = with_socket calls calls.socket held
