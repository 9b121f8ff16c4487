-- ===== src/Commands/Strings.antt =====
-- SET and GET of `execute_command` in src/commands.cpp.
pub mod Effects
pub mod Meets
use redis_lite_cpp.Common.{[], ◌∷◌}
use redis_lite_cpp.Text.{Bytes, codes}
use redis_lite_cpp.Dict.{put, erase}
use redis_lite_cpp.Store.{
  Store, Found, missing, mismatch, found, string_value, string_kind, read_typed, replace_value,
}
use redis_lite_cpp.Log.{log_command}
use redis_lite_cpp.Resp.Value.{
  RespValue, make_simple_string, make_bulk_string, make_null_bulk_string,
}
use redis_lite_cpp.Commands.Base.{Db, Times, Command, wrong_arity, wrong_type}

unfoldable pub set : Command
set times db (key ∷ value ∷ []) = (
  make_simple_string (codes "OK"),
  record {
    store = replace_value key value db.store;
    log = log_command db.log (codes "SET") (key ∷ value ∷ []);
  },
)
set times db _ = (wrong_arity (codes "set"), db)

abbrev get_reply : Found Bytes → RespValue
get_reply missing = make_null_bulk_string
get_reply mismatch = wrong_type
get_reply (found value) = make_bulk_string value

unfoldable pub get : Command
get times db (key ∷ []) =
    let (store, value) = read_typed string_kind times.now key db.store in
    (get_reply value, record db { store = store })
get times db _ = (wrong_arity (codes "get"), db)
