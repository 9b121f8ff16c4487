-- ===== src/Replay/Durable.antt =====
-- A command of src/commands.cpp on a server's store, and what `replay_log` of src/persistence.cpp does
-- on a copy of that store with the record that the command leaves.
pub mod Mirrors
pub mod Reads
pub mod Writes
pub mod Tables
pub mod Deadlines
pub mod Run
use redis_lite_cpp.Common.{
  ℕ, ◌+◌, ◌^◌, ◌≤◌, ◌<◌, [], ◌∷◌, List, map, Option, none, some, true, ◌≡◌, refl, sym, ap, ◌∙◌,
  subst, ◌⊎◌, inl, inr, pos, All, long_long_max,
}
use redis_lite_cpp.Text.{Bytes}
use redis_lite_cpp.Dict.{find, has_key}
use redis_lite_cpp.Store.{
  Value, Store, Kind, expire_if_due, set_deadline, write_typed, emplaced, read_typed, typed, Found,
}
use redis_lite_cpp.Store.Valid.{IsValid}
use redis_lite_cpp.Store.Twins.{Twins, IsAhead, expire_if_due-IsAhead}
use redis_lite_cpp.Log.{log_command, log_expire}
use redis_lite_cpp.Resp.Value.{RespValue, to_elements, make_bulk_string}
use redis_lite_cpp.Commands.Base.{Db, Times, Command, to_upper}
use redis_lite_cpp.Commands.Execute.Names.{texts_of-make_bulk_string}
use redis_lite_cpp.Commands.Execute.{
  also, texts_of, handler, dispatch, execute_words, execute_command,
}
use redis_lite_cpp.Replay.Read.RoundTrip.{Fits}
use redis_lite_cpp.Replay.Records.{Record, logged, IsRecord}
use redis_lite_cpp.Replay.Loop.{as_request, execute_unlogged}

-- The replay takes place at one instant.
abbrev pub instant : ℕ → ℕ → Times
instant t u = record { now = t; later = t; unix = u }

-- The server at one command, and the copy at the instant of the replay. No deadline passes.
pub record Setting : Type 0 where
  pub times : Times
  pub db : Db
  pub t : ℕ
  pub u : ℕ
  pub copy : Store
  pub early : times.unix ≤ 2 ^ 62
  pub now_ahead : IsAhead times.now db.store
  pub later_ahead : IsAhead times.later db.store
  pub valid : IsValid db.store
  pub twins : Twins t db.store copy

-- What the command makes of the server, `x`: nothing but the log's being kept and the stores' being
-- twins still; or a record with which the copy becomes a twin; or a deadline.
pub data Outcome (e : Setting) (x : Db) : Type 0 where
  quiet : x.log ≡ e.db.log → Twins e.t x.store e.copy → Outcome e x
  wrote :
      (verb key : Bytes) (arguments : List Bytes)
      → IsRecord (logged verb key arguments)
      → x.log ≡ log_command e.db.log verb (key ∷ arguments)
      → Twins e.t x.store (execute_unlogged (instant e.t e.u) e.copy (verb ∷ key ∷ arguments))
      → Outcome e x
  deadline_set :
      (key : Bytes) (seconds deadline : ℕ)
      → IsRecord (Record.dated key (e.times.unix + seconds))
      → x.log ≡ log_expire e.db.log key e.times.unix (pos seconds)
      → has_key key e.db.store.values ≡ true
      → x.store ≡ set_deadline key deadline e.db.store
      → Outcome e x

abbrev pub Follows : Command → Type 0
Follows command =
    (e : Setting) (arguments : List Bytes)
    → All Fits arguments
    → Outcome e (command e.times e.db arguments).1

-- The verb of a record names the command.
abbrev pub Names : Bytes → Command → Type 0
Names verb command = handler (to_upper verb) ≡ some command

-- The replay of a record runs the command that its verb names.
pub execute_unlogged-Names :
    (times : Times) (store : Store) (verb : Bytes) (arguments : List Bytes) {command : Command}
    → Names verb command
    → execute_unlogged times store (verb ∷ arguments)
      ≡ (command times (record { store = store; log = none }) arguments).1.store
unfolding execute_unlogged execute_command
execute_unlogged-Names times store verb arguments h =
    let db : Db = record { store = store; log = none } in
    ap (λ o. (execute_words times db (also (some verb) o)).1.store)
      (texts_of-make_bulk_string arguments)
    ∙ ap (λ o. (dispatch verb o times db arguments).1.store) h

pub still : (e : Setting) (key : Bytes) → expire_if_due e.times.now key e.db.store ≡ e.db.store
still e key = expire_if_due-IsAhead e.times.now key e.db.store e.now_ahead

-- A command that only reads.
pub idle : (e : Setting) (key : Bytes) → Twins e.t (expire_if_due e.times.now key e.db.store) e.copy
idle e key = subst (λ s. Twins e.t s e.copy) (sym (still e key)) e.twins

-- A command that works on the value under its key, `o`.
module _ (command : Command) (key : Bytes) (arguments : List Bytes)
    (at : Db → Option Value → RespValue × Db) where
  abbrev pub IsStill : Type 0
  IsStill =
      (times : Times) (db : Db) (o : Option Value)
      → IsAhead times.now db.store
      → find key db.store.values ≡ o
      → command times db (key ∷ arguments) ≡ at db o

  -- Nothing happened, or the record was logged and the stores are twins afterwards.
  abbrev pub Changes : Setting → Bytes → Option Value → Type 0
  Changes e verb o =
      (((at e.db o).1.log ≡ e.db.log) × Twins e.t (at e.db o).1.store e.copy)
      ⊎ (((at e.db o).1.log ≡ log_command e.db.log verb (key ∷ arguments))
          × Twins e.t (at e.db o).1.store (at (record { store = e.copy; log = none }) o).1.store)

  copied :
      (e : Setting) (verb : Bytes) (o : Option Value)
      → IsStill
      → Names verb command
      → find key e.db.store.values ≡ o
      → execute_unlogged (instant e.t e.u) e.copy (verb ∷ key ∷ arguments)
        ≡ (at (record { store = e.copy; log = none }) o).1.store
  copied e verb o is_still names h =
      execute_unlogged-Names (instant e.t e.u) e.copy verb (key ∷ arguments) names
      ∙ ap (λ r. r.1.store)
          (is_still (instant e.t e.u) (record { store = e.copy; log = none }) o e.twins.ahead
            (ap (find key) e.twins.values ∙ h))

  pub at-Outcome :
      (e : Setting) (verb : Bytes) (o : Option Value)
      → IsStill
      → Names verb command
      → IsRecord (logged verb key arguments)
      → find key e.db.store.values ≡ o
      → Changes e verb o
      → Outcome e (command e.times e.db (key ∷ arguments)).1
  at-Outcome e verb o is_still names whole h changes =
      subst (Outcome e) (ap (λ r. r.1) (sym (is_still e.times e.db o e.now_ahead h)))
        (elim changes [
          | inl (same, twins) ↦ quiet same twins
          | inr (written, twins) ↦
              wrote verb key arguments whole written (
                subst (Twins e.t (at e.db o).1.store) (sym (copied e verb o is_still names h))
                  twins)
        ])
