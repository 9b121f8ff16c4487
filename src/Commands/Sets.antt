-- ===== src/Commands/Sets.antt =====
-- SADD, SREM, SISMEMBER, SCARD and SMEMBERS of `execute_command` in src/commands.cpp.
pub mod Effects
pub mod Meets
use redis_lite_cpp.Common.{
  [], ◌∷◌, List, map, Bool, true, false, not, Option, none, some, if◌then◌else◌, pos, length,
}
use redis_lite_cpp.Text.{Bytes, codes}
use redis_lite_cpp.Dict.{member, insert, remove}
use redis_lite_cpp.Store.{
  Store, Found, missing, mismatch, found, set_value, set_kind, read_typed, write_typed, store_value,
  drop_if_empty,
}
use redis_lite_cpp.Log.{log_command}
use redis_lite_cpp.Resp.Value.{
  RespValue, nil, to_elements, make_integer, make_bulk_string, make_array,
}
use redis_lite_cpp.Commands.Base.{Db, Times, Command, wrong_arity, wrong_type, flag}

unfoldable pub sadd_into : Db → Bytes → Bytes → Store → Option (List Bytes) → RespValue × Db
sadd_into db key item store none = (wrong_type, record db { store = store })
sadd_into db key item store (some members) =
    let added = not (member item members) in
    (
      make_integer (flag added),
      record {
        store = store_value key (set_value (insert item members)) store;
        log = if added then log_command db.log (codes "SADD") (key ∷ item ∷ []) else db.log;
      },
    )

unfoldable pub sadd : Command
unfolding sadd_into
sadd times db (key ∷ item ∷ []) =
    let (store, members) = write_typed set_kind times.now key db.store in
    sadd_into db key item store members
sadd times db _ = (wrong_arity (codes "sadd"), db)

unfoldable pub srem_from : Db → Bytes → Bytes → Store → Found (List Bytes) → RespValue × Db
srem_from db key item store missing = (make_integer (pos 0), record db { store = store })
srem_from db key item store mismatch = (wrong_type, record db { store = store })
srem_from db key item store (found members) =
    if member item members
    then (
      make_integer (pos 1),
      record {
        store = drop_if_empty key (store_value key (set_value (remove item members)) store);
        log = log_command db.log (codes "SREM") (key ∷ item ∷ []);
      },
    )
    else (make_integer (pos 0), record db { store = store })

unfoldable pub srem : Command
unfolding srem_from
srem times db (key ∷ item ∷ []) =
    let (store, members) = read_typed set_kind times.now key db.store in
    srem_from db key item store members
srem times db _ = (wrong_arity (codes "srem"), db)

abbrev sismember_reply : Bytes → Found (List Bytes) → RespValue
sismember_reply item missing = make_integer (pos 0)
sismember_reply item mismatch = wrong_type
sismember_reply item (found members) = make_integer (flag (member item members))

unfoldable pub sismember : Command
sismember times db (key ∷ item ∷ []) =
    let (store, members) = read_typed set_kind times.now key db.store in
    (sismember_reply item members, record db { store = store })
sismember times db _ = (wrong_arity (codes "sismember"), db)

abbrev scard_reply : Found (List Bytes) → RespValue
scard_reply missing = make_integer (pos 0)
scard_reply mismatch = wrong_type
scard_reply (found members) = make_integer (pos (length members))

unfoldable pub scard : Command
scard times db (key ∷ []) =
    let (store, members) = read_typed set_kind times.now key db.store in
    (scard_reply members, record db { store = store })
scard times db _ = (wrong_arity (codes "scard"), db)

abbrev smembers_reply : Found (List Bytes) → RespValue
smembers_reply missing = make_array nil
smembers_reply mismatch = wrong_type
smembers_reply (found members) = make_array (to_elements (map make_bulk_string members))

unfoldable pub smembers : Command
smembers times db (key ∷ []) =
    let (store, members) = read_typed set_kind times.now key db.store in
    (smembers_reply members, record db { store = store })
smembers times db _ = (wrong_arity (codes "smembers"), db)
