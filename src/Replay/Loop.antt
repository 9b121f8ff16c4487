-- ===== src/Replay/Loop.antt =====
-- The loop of `replay_log` in src/persistence.cpp, and what it does with each record.
pub mod Loads
use redis_lite_cpp.Common.{
  ℕ, zero, suc, [], ◌∷◌, ◌++◌, List, map, Option, none, some, if◌then◌else◌, pos, ◌-ℤ◌, ltb_ℤ,
  length,
}
use redis_lite_cpp.Text.{Bytes, codes}
use redis_lite_cpp.Decimal.{to_string}
use redis_lite_cpp.Resp.Value.{RespValue, to_elements, make_bulk_string, make_array}
use redis_lite_cpp.Store.{Store, empty_store}
use redis_lite_cpp.Commands.Base.{Times}
use redis_lite_cpp.Commands.Execute.{execute_command}
use redis_lite_cpp.Replay.Read.{got, bad, Entry, command, expiry, read_word, read_entry}

unfoldable pub as_request : List Bytes → RespValue
as_request words = make_array (to_elements (map make_bulk_string words))

-- `execute_command` with a null log.
unfoldable pub execute_unlogged : Times → Store → List Bytes → Store
unfolding as_request
execute_unlogged times store words =
    (execute_command times (record { store = store; log = none }) (as_request words)).1.store

-- A deadline that has passed is a DEL; else the key gets the seconds that remain.
unfoldable pub apply_entry : Times → Store → Entry → Store
unfolding execute_unlogged
apply_entry times store (command words) = execute_unlogged times store words
apply_entry times store (expiry key deadline) =
    let remaining = deadline -ℤ pos times.unix in
    if ltb_ℤ (pos 0) remaining
    then execute_unlogged times store (codes "EXPIRE" ∷ key ∷ to_string remaining ∷ [])
    else execute_unlogged times store (codes "DEL" ∷ key ∷ [])

-- `out_of_fuel` has no counterpart in the program.
pub data Replayed : Type 0 where
  loaded : Store → Replayed
  failed : Bytes → Replayed
  out_of_fuel : Replayed

unfoldable pub record_error : ℕ → Bytes → Bytes
record_error n detail =
    codes "malformed persistence record #" ++ (to_string (pos n) ++ (codes ": " ++ detail))

-- The rounds from record `n + 1` on; `clock` gives the readings while each record is executed.
unfoldable pub replay_loop : (ℕ → Times) → ℕ → ℕ → Store → Bytes → Replayed
unfolding record_error
replay_loop clock zero n store s = out_of_fuel
replay_loop clock (suc fuel) n store s = elim (read_word s) [
  | none ↦ loaded store
  | some (verb, rest) ↦ elim (read_entry verb rest) [
    | bad detail ↦ failed (record_error (suc n) detail)
    | got entry rest' ↦
        replay_loop clock fuel (suc n) (apply_entry (clock (suc n)) store entry) rest'
  ]
]

-- Every record takes a byte, so the length of the file is enough fuel.
unfoldable pub replay : (ℕ → Times) → Bytes → Replayed
unfolding replay_loop
replay clock s = replay_loop clock (suc (length s)) 0 empty_store s

-- The result, the store and the error: a store is replaced only by a whole log.
abbrev pub kept_store : Store → Replayed → Store
kept_store store (loaded s) = s
kept_store store (failed error) = store
kept_store store out_of_fuel = store

abbrev outcome : Replayed → Option Bytes
outcome (loaded s) = none
outcome (failed error) = some error
outcome out_of_fuel = some []

-- What the stream finds at the log's path: no file that it can open, a file whose size it cannot
-- tell, or the file's content.
pub data File : Type 0 where
  absent : File
  unsized : (path : Bytes) → File
  holding : Bytes → File

-- The second component is the error, and none is `true`.
unfoldable pub replay_log : (ℕ → Times) → File → Store → Store × Option Bytes
unfolding replay
replay_log clock absent store = (store, none)
replay_log clock (unsized path) store =
    (store, some (codes "cannot determine the size of " ++ path))
replay_log clock (holding content) store =
    let result = replay clock content in (kept_store store result, outcome result)
