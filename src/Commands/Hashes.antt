-- ===== src/Commands/Hashes.antt =====
-- HSET, HGET, HDEL, HEXISTS and HLEN of `execute_command` in src/commands.cpp.
pub mod Effects
pub mod Meets
use redis_lite_cpp.Common.{
  [], ◌∷◌, Bool, true, false, not, Option, none, some, if◌then◌else◌, pos, length,
}
use redis_lite_cpp.Text.{Bytes, codes}
use redis_lite_cpp.Dict.{Dict, find, put, erase, has_key}
use redis_lite_cpp.Store.{
  Store, Found, missing, mismatch, found, hash_value, hash_kind, read_typed, write_typed,
  store_value, drop_if_empty,
}
use redis_lite_cpp.Log.{log_command}
use redis_lite_cpp.Resp.Value.{RespValue, make_integer, make_bulk_string, make_null_bulk_string}
use redis_lite_cpp.Commands.Base.{Db, Times, Command, wrong_arity, wrong_type, flag}

unfoldable pub hset_into : Db → Bytes → Bytes → Bytes → Store → Option (Dict Bytes) → RespValue × Db
hset_into db key field value store none = (wrong_type, record db { store = store })
hset_into db key field value store (some hash) = (
  make_integer (flag (not (has_key field hash))),
  record {
    store = store_value key (hash_value (put field value hash)) store;
    log = log_command db.log (codes "HSET") (key ∷ field ∷ value ∷ []);
  },
)

unfoldable pub hset : Command
unfolding hset_into
hset times db (key ∷ field ∷ value ∷ []) =
    let (store, hash) = write_typed hash_kind times.now key db.store in
    hset_into db key field value store hash
hset times db _ = (wrong_arity (codes "hset"), db)

abbrev field_reply : Option Bytes → RespValue
field_reply none = make_null_bulk_string
field_reply (some value) = make_bulk_string value

abbrev hget_reply : Bytes → Found (Dict Bytes) → RespValue
hget_reply field missing = make_null_bulk_string
hget_reply field mismatch = wrong_type
hget_reply field (found hash) = field_reply (find field hash)

unfoldable pub hget : Command
hget times db (key ∷ field ∷ []) =
    let (store, hash) = read_typed hash_kind times.now key db.store in
    (hget_reply field hash, record db { store = store })
hget times db _ = (wrong_arity (codes "hget"), db)

unfoldable pub hdel_from : Db → Bytes → Bytes → Store → Found (Dict Bytes) → RespValue × Db
hdel_from db key field store missing = (make_integer (pos 0), record db { store = store })
hdel_from db key field store mismatch = (wrong_type, record db { store = store })
hdel_from db key field store (found hash) =
    if has_key field hash
    then (
      make_integer (pos 1),
      record {
        store = drop_if_empty key (store_value key (hash_value (erase field hash)) store);
        log = log_command db.log (codes "HDEL") (key ∷ field ∷ []);
      },
    )
    else (make_integer (pos 0), record db { store = store })

unfoldable pub hdel : Command
unfolding hdel_from
hdel times db (key ∷ field ∷ []) =
    let (store, hash) = read_typed hash_kind times.now key db.store in
    hdel_from db key field store hash
hdel times db _ = (wrong_arity (codes "hdel"), db)

abbrev hexists_reply : Bytes → Found (Dict Bytes) → RespValue
hexists_reply field missing = make_integer (pos 0)
hexists_reply field mismatch = wrong_type
hexists_reply field (found hash) = make_integer (flag (has_key field hash))

unfoldable pub hexists : Command
hexists times db (key ∷ field ∷ []) =
    let (store, hash) = read_typed hash_kind times.now key db.store in
    (hexists_reply field hash, record db { store = store })
hexists times db _ = (wrong_arity (codes "hexists"), db)

abbrev hlen_reply : Found (Dict Bytes) → RespValue
hlen_reply missing = make_integer (pos 0)
hlen_reply mismatch = wrong_type
hlen_reply (found hash) = make_integer (pos (length hash))

unfoldable pub hlen : Command
hlen times db (key ∷ []) =
    let (store, hash) = read_typed hash_kind times.now key db.store in
    (hlen_reply hash, record db { store = store })
hlen times db _ = (wrong_arity (codes "hlen"), db)
