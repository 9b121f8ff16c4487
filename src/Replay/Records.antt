-- ===== src/Replay/Records.antt =====
-- The log as a sequence of records, each written by `log_command` or `log_expire` of
-- src/persistence.cpp, and what `replay_log` makes of it.
pub mod Replayed
pub mod Torn
pub mod Logged
pub mod Writes
pub mod Deadlines
pub mod Restart
use redis_lite_cpp.Common.{
  ℕ, suc, ◌≤◌, [], ◌∷◌, ◌++◌, List, some, ◌≡◌, pos, length, All, long_long_max,
}
use redis_lite_cpp.Text.{Bytes}
use redis_lite_cpp.Log.{record_text, expire_text}
use redis_lite_cpp.Store.{Store}
use redis_lite_cpp.Commands.Base.{Times}
use redis_lite_cpp.Replay.Read.{Entry, command, expiry, arguments_for}
use redis_lite_cpp.Replay.Read.RoundTrip.{Fits}
use redis_lite_cpp.Replay.Loop.{apply_entry}

-- A command with its key and the arguments behind it, or a key with its deadline.
pub data Record : Type 0 where
  logged : Bytes → Bytes → List Bytes → Record
  dated : Bytes → ℕ → Record

abbrev pub text_of : Record → Bytes
text_of (logged verb key arguments) = record_text verb (key ∷ arguments)
text_of (dated key deadline) = expire_text key (pos deadline)

abbrev pub log_text : List Record → Bytes
log_text [] = []
log_text (record' ∷ records) = text_of record' ++ log_text records

abbrev pub entry_of : Record → Entry
entry_of (logged verb key arguments) = command (verb ∷ key ∷ arguments)
entry_of (dated key deadline) = expiry key (pos deadline)

-- The verb has the number of arguments that `kRecordShapes` says, and numbers fit `long long`.
abbrev pub IsRecord : Record → Type 0
IsRecord (logged verb key arguments) =
    (arguments_for verb ≡ some (suc (length arguments))) × All Fits (key ∷ arguments)
IsRecord (dated key deadline) = Fits key × (deadline ≤ long_long_max)

-- The records applied one after another, the first as record `n + 1`.
abbrev pub apply_records : (ℕ → Times) → ℕ → Store → List Record → Store
apply_records clock n store [] = store
apply_records clock n store (record' ∷ records) =
    apply_records clock (suc n) (apply_entry (clock (suc n)) store (entry_of record')) records
