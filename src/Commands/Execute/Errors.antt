-- ===== src/Commands/Execute/Errors.antt =====
-- The errors of `execute_command` in src/commands.cpp.
use redis_lite_cpp.Common.{[], ◌∷◌, List, Option, none, some, refl}
use redis_lite_cpp.Text.{Bytes}
use redis_lite_cpp.Resp.Value.{RespValue}
use redis_lite_cpp.Commands.Base.{Db, Times, Command, to_upper, key_of}
use redis_lite_cpp.Commands.Execute.{words_of, handler, dispatch, execute_words, execute_command}
use redis_lite_cpp.Commands.Execute.Each.{Each, Handles, unhandled, handled, handler-Handles}
use redis_lite_cpp.Commands.Execute.Effects.{key_of_words}
use redis_lite_cpp.Commands.Execute.Spares.{
  IsError, Spared, Guarded, Spares, ping-Spares, del-Spares, set-Spares, ttl-Spares, get-Spares,
  llen-Spares, hget-Spares, hexists-Spares, hlen-Spares, sismember-Spares, scard-Spares,
  smembers-Spares, push-Spares, hset-Spares, sadd-Spares, pop-Spares, hdel-Spares, srem-Spares,
  lrange-Spares, expire-Spares, kept,
}

spares : Each Spares
spares = record {
  on_ping = ping-Spares;
  on_del = del-Spares;
  on_expire = expire-Spares;
  on_ttl = ttl-Spares;
  on_set = set-Spares;
  on_get = get-Spares;
  on_llen = llen-Spares;
  on_lrange = lrange-Spares;
  on_hset = hset-Spares;
  on_hget = hget-Spares;
  on_hdel = hdel-Spares;
  on_hexists = hexists-Spares;
  on_hlen = hlen-Spares;
  on_sadd = sadd-Spares;
  on_srem = srem-Spares;
  on_sismember = sismember-Spares;
  on_scard = scard-Spares;
  on_smembers = smembers-Spares;
  on_push = λ name h. push-Spares name;
  on_pop = λ name h. pop-Spares name;
}

dispatch-Guarded :
    (word : Bytes) (times : Times) (db : Db) (arguments : List Bytes) (o : Option Command)
    → Handles Spares o
    → Guarded times.now (key_of arguments) db (dispatch word o times db arguments)
dispatch-Guarded word times db arguments none unhandled = λ h. kept refl
dispatch-Guarded word times db arguments (some command) (handled spared) = spared times db arguments

execute_words-Guarded :
    (times : Times) (db : Db) (o : Option (List Bytes))
    → Guarded times.now (key_of_words o) db (execute_words times db o)
execute_words-Guarded times db none = λ h. kept refl
execute_words-Guarded times db (some []) = λ h. kept refl
execute_words-Guarded times db (some (word ∷ arguments)) =
    dispatch-Guarded word times db arguments (handler (to_upper word))
      (handler-Handles spares (to_upper word))

-- A request that is answered by an error has changed nothing and logged nothing, whatever the error:
-- a request that is no array of bulk strings, a name that is not known, a count of arguments, a
-- number or a type that does not fit. The one exception is the key that it names first: where that
-- key's deadline had passed at the command's reading of the clock, it may have been removed.
pub execute-Spared :
    (times : Times) (db : Db) (request : RespValue)
    → IsError (execute_command times db request).0
    → Spared times.now (key_of_words (words_of request)) db (execute_command times db request).1
unfolding execute_command
execute-Spared times db request = execute_words-Guarded times db (words_of request)
