-- ===== src/Replay/Durable/Run.antt =====
-- The restart of a server, for a whole run of commands of src/commands.cpp.
use redis_lite_cpp.Common.{ℕ, suc, [], ◌∷◌, List, some, ◌≡◌, refl, All}
use redis_lite_cpp.Text.{Bytes}
use redis_lite_cpp.Dict.{find}
use redis_lite_cpp.Store.{Store, empty_store}
use redis_lite_cpp.Store.Valid.{IsValid, empty_store-IsValid}
use redis_lite_cpp.Store.Twins.{Twins}
use redis_lite_cpp.Resp.Value.{RespValue}
use redis_lite_cpp.Resp.Wire.{IsWire}
use redis_lite_cpp.Resp.Parse.{max_depth}
use redis_lite_cpp.Commands.Base.{Db, Times}
use redis_lite_cpp.Commands.Execute.{execute_command}
use redis_lite_cpp.Commands.Execute.Effects.{execute-IsValid}
use redis_lite_cpp.Replay.Loop.{loaded, replay}
use redis_lite_cpp.Replay.Records.{log_text}
use redis_lite_cpp.Replay.Records.Replayed.{replay-log_text}
use redis_lite_cpp.Replay.Records.Restart.{execute_all}
use redis_lite_cpp.Replay.Durable.{Setting, instant}
use redis_lite_cpp.Replay.Durable.Mirrors.{
  execute-Outcome, IsInTime, AllInTime, copy_of, Mirrors, Outcome-Mirrors,
}

step-Mirrors :
    (times : Times) (t u : ℕ) (db : Db) (request : RespValue)
    → IsWire max_depth request
    → IsInTime times t u db (execute_command times db request).1
    → IsValid db.store
    → Mirrors t u db
    → Mirrors t u (execute_command times db request).1
step-Mirrors times t u db request wire intime valid (records, whole, same, twins) =
    Outcome-Mirrors e _ records whole same refl intime (execute-Outcome e request wire)
  where
    e : Setting
    e = record {
      times = times;
      db = db;
      t = t;
      u = u;
      copy = copy_of t u records;
      early = intime.early;
      now_ahead = intime.now_ahead;
      later_ahead = intime.later_ahead;
      valid = valid;
      twins = twins;
    }

execute_all-Mirrors :
    (clock : ℕ → Times) (t u n : ℕ) (db : Db) (requests : List RespValue)
    → All (IsWire max_depth) requests
    → AllInTime clock t u n db requests
    → IsValid db.store
    → Mirrors t u db
    → Mirrors t u (execute_all clock n db requests)
execute_all-Mirrors clock t u n db [] wire intime valid mirrors = mirrors
execute_all-Mirrors clock t u n db (request ∷ requests) wire intime valid mirrors =
    execute_all-Mirrors clock t u (suc n) _ requests wire.1 intime.1
      (execute-IsValid (clock n) db request valid)
      (step-Mirrors (clock n) t u db request wire.0 intime.0 valid mirrors)

abbrev pub fresh : Db
fresh = record { store = empty_store; log = some [] }

fresh-Twins : (t : ℕ) → Twins t empty_store empty_store
unfolding find
fresh-Twins t = record { values = refl; dated = λ k. refl; ahead = λ k d e. cc }

-- A restart loses nothing: after any requests that RESP can carry, from an empty store with an empty
-- log, at readings at which no deadline has passed and Unix times up to 2^62, the replay of the log at an instant before every
-- deadline that was logged, by no more than the clock can hold, loads a store with the same values,
-- in the same order, and with deadlines at the same keys, all of them ahead of that instant.
pub execute_all-restarts :
    (clock : ℕ → Times) (t u : ℕ) (requests : List RespValue)
    → All (IsWire max_depth) requests
    → AllInTime clock t u 0 fresh requests
    → (content : Bytes) × (copy : Store) × ((execute_all clock 0 fresh requests).log ≡ some content)
      × (replay (λ n. instant t u) content ≡ loaded copy)
      × Twins t (execute_all clock 0 fresh requests).store copy
execute_all-restarts clock t u requests wire intime =
    let (records, whole, same, twins) =
      execute_all-Mirrors clock t u 0 fresh requests wire intime empty_store-IsValid
        ([], tt, refl, fresh-Twins t) in
    (
      log_text records,
      copy_of t u records,
      same,
      replay-log_text (λ n. instant t u) records whole,
      twins,
    )
