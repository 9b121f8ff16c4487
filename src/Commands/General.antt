-- ===== src/Commands/General.antt =====
-- PING, DEL, EXPIRE and TTL of `execute_command` in src/commands.cpp.
pub mod Effects
pub mod Deadlines
pub mod Meets
use redis_lite_cpp.Common.{
  ℕ, zero, suc, ◌+◌, ◌-◌, ◌*◌, ◌/◌, ◌^◌, [], ◌∷◌, List, Bool, true, false, Option, none, some, ◌≡◌,
  refl, leb, ltb, if◌then◌else◌, ℤ, pos, negsuc, negated, pos_part, ltb_ℤ, long_long_max,
}
use redis_lite_cpp.Text.{Bytes, codes}
use redis_lite_cpp.Decimal.{to_integer}
use redis_lite_cpp.Dict.{find, put, has_key}
use redis_lite_cpp.Store.{Store, expire_if_due, remove_key, set_deadline}
use redis_lite_cpp.Log.{Log, log_command, log_expire}
use redis_lite_cpp.Resp.Value.{RespValue, make_simple_string, make_integer}
use redis_lite_cpp.Commands.Base.{Db, Times, Command, wrong_arity, not_an_integer, flag}

unfoldable pub ping : Command
ping times db [] = (make_simple_string (codes "PONG"), db)
ping times db _ = (wrong_arity (codes "ping"), db)

unfoldable pub del : Command
del times db (key ∷ []) =
    let store = expire_if_due times.now key db.store in
    let existed = has_key key store.values in
    (
      make_integer (flag existed),
      record {
        store = remove_key key store;
        log = if existed then log_command db.log (codes "DEL") (key ∷ []) else db.log;
      },
    )
del times db _ = (wrong_arity (codes "del"), db)

abbrev pub ticks_per_second : ℕ
ticks_per_second = 1_000_000_000

-- The whole seconds from `now` to the largest time point of the clock.
abbrev pub max_seconds : ℕ → ℕ
max_seconds now = (long_long_max - now) / ticks_per_second

-- EXPIRE behind its lazy expiration, for `seconds` that the clock can hold.
unfoldable pub expire_key : Times → Log → Bytes → ℤ → Store → RespValue × Db
expire_key times log key seconds store =
    if has_key key store.values
    then if ltb_ℤ (pos 0) seconds
      then (
        make_integer (pos 1),
        record {
          store = set_deadline key (times.now + pos_part seconds * ticks_per_second) store;
          log = log_expire log key times.unix seconds;
        },
      )
      else (
        make_integer (pos 1),
        record { store = remove_key key store; log = log_command log (codes "DEL") (key ∷ []) },
      )
    else (make_integer (pos 0), record { store = store; log = log })

unfoldable pub expire_at : Times → Db → Bytes → Option ℤ → RespValue × Db
unfolding expire_key
expire_at times db key none = (not_an_integer, db)
expire_at times db key (some seconds) =
    if ltb_ℤ (pos (max_seconds times.now)) seconds
    then (not_an_integer, db)
    else expire_key times db.log key seconds (expire_if_due times.later key db.store)

unfoldable pub expire : Command
unfolding expire_at
expire times db (key ∷ seconds ∷ []) = expire_at times db key (to_integer seconds)
expire times db _ = (wrong_arity (codes "expire"), db)

-- `std::chrono::ceil<seconds>(deadline - now)`, for a deadline on either side of the reading.
unfoldable pub ceil_seconds : ℕ → ℕ → ℤ
ceil_seconds deadline now =
    if leb now deadline
    then pos ((deadline - now + (ticks_per_second - 1)) / ticks_per_second)
    else negated ((now - deadline) / ticks_per_second)

ttl_of : Times → Bytes → Store → ℤ
unfolding ceil_seconds
ttl_of times key store =
    if has_key key store.values
    then elim (find key store.expirations) [
      | none ↦ negsuc 0
      | some deadline ↦ ceil_seconds deadline times.later
    ]
    else negsuc 1

unfoldable pub ttl : Command
unfolding ttl_of
ttl times db (key ∷ []) =
    let store = expire_if_due times.now key db.store in
    (make_integer (ttl_of times key store), record db { store = store })
ttl times db _ = (wrong_arity (codes "ttl"), db)
