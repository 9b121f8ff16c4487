-- ===== src/Commands/Execute.antt =====
-- `execute_command` of src/commands.cpp: the validation of the request and the choice by name.
pub mod Carried
pub mod Spares
pub mod Each
pub mod Effects
pub mod Meets
pub mod Kinds
pub mod Unknown
pub mod Replies
pub mod Errors
pub mod Names
use redis_lite_cpp.Common.{
  [], ◌∷◌, ◌++◌, List, Bool, true, false, Option, none, some, ◌||◌, ◌≡◌, refl, if◌then◌else◌,
}
use redis_lite_cpp.Text.{Bytes, codes, bytes_eq}
use redis_lite_cpp.Resp.Value.{
  RespType, simple_string, error, integer, bulk_string, array, RespValue, Elements, resp, nil, cons,
  make_error,
}
use redis_lite_cpp.Commands.Base.{Db, Times, Command, to_upper}
use redis_lite_cpp.Commands.General.{ping, del, expire, ttl}
use redis_lite_cpp.Commands.Strings.{set, get}
use redis_lite_cpp.Commands.Lists.{push, pop, llen, lrange}
use redis_lite_cpp.Commands.Hashes.{hset, hget, hdel, hexists, hlen}
use redis_lite_cpp.Commands.Sets.{sadd, srem, sismember, scard, smembers}

abbrev pub bad_request : RespValue
bad_request = make_error (codes "ERR expected a non-empty array of bulk strings")

-- The text of an element that is a bulk string and not null.
abbrev pub bulk_text : RespValue → Option Bytes
bulk_text (resp bulk_string text n vs false) = some text
bulk_text _ = none

abbrev pub also : Option Bytes → Option (List Bytes) → Option (List Bytes)
also (some word) (some words) = some (word ∷ words)
also _ _ = none

-- The loop that checks every element, with the texts that the commands then read.
abbrev pub texts_of : Elements → Option (List Bytes)
texts_of nil = some []
texts_of (cons value values) = also (bulk_text value) (texts_of values)

abbrev pub words_of : RespValue → Option (List Bytes)
words_of (resp array text n vs false) = texts_of vs
words_of _ = none

abbrev pub unknown_command : Bytes → RespValue
unknown_command name = make_error (codes "ERR unknown command '" ++ (name ++ codes "'"))

-- `if (name == …)`, with the block that runs the command.
unfoldable pub choose : Bool → Command → Option Command → Option Command
choose test command rest = if test then some command else rest

-- The blocks of `execute_command` in order, for a `name` in upper case.
unfoldable pub handler : Bytes → Option Command
handler name = choose (bytes_eq name (codes "PING")) ping (
    choose (bytes_eq name (codes "DEL")) del (
      choose (bytes_eq name (codes "EXPIRE")) expire (
        choose (bytes_eq name (codes "TTL")) ttl (
          choose (bytes_eq name (codes "SET")) set (
            choose (bytes_eq name (codes "GET")) get (
              choose (bytes_eq name (codes "LPUSH") || bytes_eq name (codes "RPUSH")) (push name) (
                choose (bytes_eq name (codes "LPOP") || bytes_eq name (codes "RPOP")) (pop name) (
                  choose (bytes_eq name (codes "LLEN")) llen (
                    choose (bytes_eq name (codes "LRANGE")) lrange (
                      choose (bytes_eq name (codes "HSET")) hset (
                        choose (bytes_eq name (codes "HGET")) hget (
                          choose (bytes_eq name (codes "HDEL")) hdel (
                            choose (bytes_eq name (codes "HEXISTS")) hexists (
                              choose (bytes_eq name (codes "HLEN")) hlen (
                                choose (bytes_eq name (codes "SADD")) sadd (
                                  choose (bytes_eq name (codes "SREM")) srem (
                                    choose (bytes_eq name (codes "SISMEMBER")) sismember (
                                      choose (bytes_eq name (codes "SCARD")) scard (
                                        choose (bytes_eq name (codes "SMEMBERS")) smembers
                                          none)))))))))))))))))))

abbrev pub dispatch : Bytes → Option Command → Command
dispatch word none times db arguments = (unknown_command word, db)
dispatch word (some command) times db arguments = command times db arguments

abbrev pub execute_words : Times → Db → Option (List Bytes) → RespValue × Db
execute_words times db none = (bad_request, db)
execute_words times db (some []) = (bad_request, db)
execute_words times db (some (word ∷ arguments)) =
    dispatch word (handler (to_upper word)) times db arguments

unfoldable pub execute_command : Times → Db → RespValue → RespValue × Db
unfolding handler choose
execute_command times db request = execute_words times db (words_of request)
