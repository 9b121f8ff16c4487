-- ===== src/Server/Setup/Balanced.antt =====
-- The descriptors that the set-up of src/server.cpp opens and closes.
use redis_lite_cpp.Common.{
  ℕ, true, false, Option, none, some, ◌≡◌, refl, sym, ap, ◌∙◌, ◌==◌, if◌then◌else◌,
}
use redis_lite_cpp.Server.Setup.{
  Held, close, hold, set_non_blocking, Changed, update_event, Calls, Opened, refused, opened,
  with_queue, with_socket, open_listener,
}
use redis_lite_cpp.Server.Events.Lawful.{at_same, either}

-- `socket` and `kqueue` give descriptors that are not in use.
pub record OpensFresh (calls : Calls) (before : Held) : Type 0 where
  pub fresh_socket : (listen_fd : ℕ) → calls.socket ≡ some listen_fd → before listen_fd ≡ false
  pub fresh_queue :
      (listen_fd kq : ℕ)
      → calls.socket ≡ some listen_fd
      → calls.kqueue ≡ some kq
      → hold listen_fd before kq ≡ false

-- A refusal leaves the descriptors as they were, and a success adds two new ones.
abbrev pub Balances : Held → Opened → Type 0
Balances before (refused held) = (fd : ℕ) → held fd ≡ before fd
Balances before (opened listen_fd kq held) =
    (before listen_fd ≡ false)
    × (hold listen_fd before kq ≡ false)
    × (held ≡ hold kq (hold listen_fd before))

pub closed_again :
    (fd : ℕ) (held : Held)
    → held fd ≡ false
    → (other : ℕ) → close fd (hold fd held) other ≡ held other
closed_again fd held h other =
    at_same (λ same. (if same then false else if same then true else held other) ≡ held other) other
      fd (λ e. sym (ap held e ∙ h)) (λ e. refl)

pub closed_both :
    (listen_fd kq : ℕ) (before : Held)
    → before listen_fd ≡ false
    → hold listen_fd before kq ≡ false
    → (fd : ℕ) → close listen_fd (close kq (hold kq (hold listen_fd before))) fd ≡ before fd
closed_both listen_fd kq before h k fd =
    ap (λ b. if fd == listen_fd then false else b) (closed_again kq (hold listen_fd before) k fd)
    ∙ closed_again listen_fd before h fd

with_queue-Balances :
    (registers : Changed) (listen_fd : ℕ) (queue : Option ℕ) (before : Held)
    → before listen_fd ≡ false
    → ((kq : ℕ) → queue ≡ some kq → hold listen_fd before kq ≡ false)
    → Balances before (with_queue registers listen_fd queue (hold listen_fd before))
with_queue-Balances registers listen_fd none before h k = closed_again listen_fd before h
with_queue-Balances registers listen_fd (some kq) before h k =
    either (Balances before) (update_event false registers) _ _ (λ _. (h, k kq refl, refl))
      (λ _. closed_both listen_fd kq before h (k kq refl))

with_socket-Balances :
    (calls : Calls) (socket : Option ℕ) (before : Held)
    → ((listen_fd : ℕ) → socket ≡ some listen_fd → before listen_fd ≡ false)
    → ((listen_fd kq : ℕ)
        → socket ≡ some listen_fd
        → calls.kqueue ≡ some kq
        → hold listen_fd before kq ≡ false)
    → Balances before (with_socket calls socket before)
with_socket-Balances calls none before h k = λ fd. refl
with_socket-Balances calls (some listen_fd) before h k =
    let again = closed_again listen_fd before (h listen_fd refl) in
    either (Balances before) calls.reuses _ _
      (λ _.
        either (Balances before) (set_non_blocking calls.fcntl) _ _
          (λ _.
            either (Balances before) calls.binds _ _
              (λ _.
                either (Balances before) calls.listens _ _
                  (λ _.
                    with_queue-Balances calls.registers listen_fd calls.kqueue before
                      (h listen_fd refl) (λ kq e. k listen_fd kq refl e))
                  (λ _. again))
              (λ _. again))
          (λ _. again))
      (λ _. again)

pub open_listener-Balances :
    (calls : Calls) (before : Held)
    → OpensFresh calls before
    → Balances before (open_listener calls before)
unfolding open_listener
open_listener-Balances calls before fresh =
    with_socket-Balances calls calls.socket before fresh.fresh_socket fresh.fresh_queue
