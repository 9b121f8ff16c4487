-- ===== src/Commands/Execute/Effects.antt =====
-- What `execute_command` of src/commands.cpp does to the store, for every request.
use redis_lite_cpp.Common.{[], ◌∷◌, List, Option, none, some, ◌≡◌, refl, ◌≢◌}
use redis_lite_cpp.Text.{Bytes}
use redis_lite_cpp.Dict.{find}
use redis_lite_cpp.Resp.Value.{RespValue}
use redis_lite_cpp.Store.Valid.{IsValid}
use redis_lite_cpp.Store.Effect.{Effect, untouched, Effect-IsValid, Effect-SameElsewhere}
use redis_lite_cpp.Commands.Base.{Db, Times, Command, to_upper, HasEffect, key_of}
use redis_lite_cpp.Commands.General.Effects.{
  ping-HasEffect, del-HasEffect, expire-HasEffect, ttl-HasEffect,
}
use redis_lite_cpp.Commands.Strings.Effects.{set-HasEffect, get-HasEffect}
use redis_lite_cpp.Commands.Lists.Effects.{
  push-HasEffect, pop-HasEffect, llen-HasEffect, lrange-HasEffect,
}
use redis_lite_cpp.Commands.Hashes.Effects.{
  hset-HasEffect, hget-HasEffect, hdel-HasEffect, hexists-HasEffect, hlen-HasEffect,
}
use redis_lite_cpp.Commands.Sets.Effects.{
  sadd-HasEffect, srem-HasEffect, sismember-HasEffect, scard-HasEffect, smembers-HasEffect,
}
use redis_lite_cpp.Commands.Execute.{words_of, handler, dispatch, execute_words, execute_command}
use redis_lite_cpp.Commands.Execute.Each.{Each, Handles, unhandled, handled, handler-Handles}

effects : Each HasEffect
effects = record {
  on_ping = ping-HasEffect;
  on_del = del-HasEffect;
  on_expire = expire-HasEffect;
  on_ttl = ttl-HasEffect;
  on_set = set-HasEffect;
  on_get = get-HasEffect;
  on_push = λ name _. push-HasEffect name;
  on_pop = λ name _. pop-HasEffect name;
  on_llen = llen-HasEffect;
  on_lrange = lrange-HasEffect;
  on_hset = hset-HasEffect;
  on_hget = hget-HasEffect;
  on_hdel = hdel-HasEffect;
  on_hexists = hexists-HasEffect;
  on_hlen = hlen-HasEffect;
  on_sadd = sadd-HasEffect;
  on_srem = srem-HasEffect;
  on_sismember = sismember-HasEffect;
  on_scard = scard-HasEffect;
  on_smembers = smembers-HasEffect;
}

-- The key of a request: the argument behind the command's name.
abbrev pub key_of_words : Option (List Bytes) → Bytes
key_of_words none = []
key_of_words (some []) = []
key_of_words (some (word ∷ arguments)) = key_of arguments

dispatch-Effect :
    (word : Bytes) (o : Option Command) (times : Times) (db : Db) (arguments : List Bytes)
    → Handles HasEffect o
    → Effect (key_of arguments) db.store (dispatch word o times db arguments).1.store
dispatch-Effect word none times db arguments unhandled = untouched refl
dispatch-Effect word (some command) times db arguments (handled h) = h times db arguments

execute_words-Effect :
    (times : Times) (db : Db) (o : Option (List Bytes))
    → Effect (key_of_words o) db.store (execute_words times db o).1.store
execute_words-Effect times db none = untouched refl
execute_words-Effect times db (some []) = untouched refl
execute_words-Effect times db (some (word ∷ arguments)) =
    dispatch-Effect word (handler (to_upper word)) times db arguments
      (handler-Handles effects (to_upper word))

pub execute-Effect :
    (times : Times) (db : Db) (request : RespValue)
    → Effect (key_of_words (words_of request)) db.store (execute_command times db request).1.store
unfolding execute_command
execute-Effect times db request = execute_words-Effect times db (words_of request)

-- Every request, whatever its name, arguments and clock readings, keeps the store valid: a deadline
-- stands only at a key with a value, no stored list, hash or set is empty, and the fields of a hash
-- and the members of a set are distinct.
pub execute-IsValid :
    (times : Times) (db : Db) (request : RespValue)
    → IsValid db.store
    → IsValid (execute_command times db request).1.store
execute-IsValid times db request = Effect-IsValid (execute-Effect times db request)

-- Every request leaves the value and the deadline of each key but the one that it names as its first
-- argument; a request without arguments is taken to name the empty key.
pub execute-SameElsewhere :
    (times : Times) (db : Db) (request : RespValue) (k : Bytes)
    → key_of_words (words_of request) ≢ k
    → (find k (execute_command times db request).1.store.values ≡ find k db.store.values)
      × (find k (execute_command times db request).1.store.expirations
          ≡ find k db.store.expirations)
execute-SameElsewhere times db request = Effect-SameElsewhere (execute-Effect times db request)
