-- ===== src/Tests/Records.antt =====
-- A log of src/persistence.cpp.
use redis_lite_cpp.Server.Serve.{serve}
use redis_lite_cpp.Server.Serve.Pipelined.{stream, replies, serve-stream}
use redis_lite_cpp.Replay.Records.Torn.{replay-torn}
use redis_lite_cpp.Replay.Records.{text_of}
use redis_lite_cpp.Replay.Loop.{failed, record_error}
use redis_lite_cpp.Log.{record_text}
use redis_lite_cpp.Decimal.{to_string, digit_text}
use redis_lite_cpp.Common.{◌≢◌, ◌++◌}
use redis_lite_cpp.Text.{Bytes}
use redis_lite_cpp.Common.{some, pos, none, ℕ, [], ◌∷◌, List, ◌≡◌, refl, arith, All}
use redis_lite_cpp.Text.{codes, bytes_eq}
use redis_lite_cpp.Store.{empty_store, Store, list_value}
use redis_lite_cpp.Dict.{find}
use redis_lite_cpp.Commands.Base.{Times}
use redis_lite_cpp.Resp.Value.{RespValue}
use redis_lite_cpp.Resp.Wire.{IsWire}
use redis_lite_cpp.Resp.Parse.{max_depth}
use redis_lite_cpp.Replay.Loop.{as_request}
use redis_lite_cpp.Replay.Records.Restart.{execute_all, execute_all-reloads}
use redis_lite_cpp.Replay.Read.{arguments_for, command, expiry}
use redis_lite_cpp.Replay.Loop.{loaded, replay, apply_entry}
use redis_lite_cpp.Replay.Loop.Loads.{Loads, replay-Loads}
use redis_lite_cpp.Replay.Revived.{apply_entry-revives}
use redis_lite_cpp.Replay.Records.{Record, logged, dated, log_text, IsRecord, apply_records}
use redis_lite_cpp.Replay.Records.Replayed.{replay-log_text}

abbrev clock : ℕ → Times
clock n = record { now = n; later = n; unix = 1_700_000_000 }

abbrev two_records : List Record
two_records =
    logged (codes "HSET") (codes "k") (codes "f" ∷ codes "a\nb" ∷ [])
    ∷ dated (codes "k") 1_700_000_060
    ∷ []

two_records-IsRecord : All IsRecord two_records
unfolding arguments_for bytes_eq
two_records-IsRecord =
    ((refl, (omega arith, (omega arith, (omega arith, tt)))), ((omega arith, omega arith), tt))

replay-log_text_example :
    replay clock (log_text two_records) ≡ loaded (apply_records clock 0 empty_store two_records)
replay-log_text_example = replay-log_text clock two_records two_records-IsRecord

cut_in_two :
    codes "HSET 1 k 1 f 3 a" ++ codes "\nb\n"
    ≡ text_of (logged (codes "HSET") (codes "k") (codes "f" ∷ codes "a\nb" ∷ []))
unfolding record_text to_string digit_text
cut_in_two = refl

not_empty : {c : ℕ} {s : List ℕ} → (c ∷ s) ≢ []
not_empty e = cc

-- The record is cut inside of its last argument.
replay-torn_example :
    (detail : Bytes) × (replay clock (log_text two_records ++ codes "HSET 1 k 1 f 3 a")
      ≡ failed (record_error 3 detail))
replay-torn_example =
    replay-torn clock two_records
      (logged (codes "HSET") (codes "k") (codes "f" ∷ codes "a\nb" ∷ [])) (codes "HSET 1 k 1 f 3 a")
      (codes "\nb\n") two_records-IsRecord two_records-IsRecord.0 cut_in_two not_empty not_empty

-- A file that is no log.
replay-Loads_example : Loads (replay clock (codes "SET 1 k 9 v\n"))
replay-Loads_example = replay-Loads clock (codes "SET 1 k 9 v\n")

abbrev old_list : Store
old_list = record { values = (codes "k", list_value (codes "a" ∷ [])) ∷ []; expirations = [] }

apply_entry-revives_example :
    (find
        (codes "k")
        (apply_entry
          (clock 2)
          (apply_entry (clock 1) old_list (expiry (codes "k") (pos 1_600_000_000)))
          (command (codes "RPUSH" ∷ codes "k" ∷ codes "b" ∷ []))).values
      ≡ some (list_value (codes "b" ∷ [])))
    × (find
          (codes "k")
          (apply_entry
            (clock 2)
            (apply_entry (clock 1) old_list (expiry (codes "k") (pos 1_600_000_000)))
            (command (codes "RPUSH" ∷ codes "k" ∷ codes "b" ∷ []))).expirations
        ≡ none)
apply_entry-revives_example =
    apply_entry-revives (clock 1) (clock 2) old_list (codes "k") (codes "b") 1_600_000_000
      (omega arith)

abbrev a_push : RespValue
a_push = as_request (codes "lpush" ∷ codes "k" ∷ codes "a\n" ∷ [])

a_push-IsWire : IsWire max_depth a_push
unfolding as_request
a_push-IsWire = (
  refl,
  refl,
  omega arith,
  ((omega arith, refl, refl), ((omega arith, refl, refl), ((omega arith, refl, refl), tt))),
)

-- The log of one push.
execute_all-reloads_example :
    (records : List Record) × ((execute_all clock 0
        (record { store = empty_store; log = some [] })
        (a_push ∷ [])).log
      ≡ some (log_text records))
    × (replay clock (log_text records) ≡ loaded (apply_records clock 0 empty_store records))
execute_all-reloads_example =
    execute_all-reloads clock clock empty_store (a_push ∷ []) (λ m. omega arith) (a_push-IsWire, tt)

-- Two pushes, and the first bytes of a third request.
serve-stream_example :
    serve clock 0
      (record { store = empty_store; log = none })
      (stream (a_push ∷ a_push ∷ []) ++ codes "*3\r")
      []
    ≡ serve clock 2
        (execute_all clock 0 (record { store = empty_store; log = none }) (a_push ∷ a_push ∷ []))
        (codes "*3\r")
        (replies clock 0 (record { store = empty_store; log = none }) (a_push ∷ a_push ∷ []))
serve-stream_example =
    serve-stream clock 0 (record { store = empty_store; log = none }) (a_push ∷ a_push ∷ [])
      (codes "*3\r") [] (a_push-IsWire, (a_push-IsWire, tt))
