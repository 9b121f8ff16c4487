-- ===== src/Commands/Execute/Meets.antt =====
-- The commands of `execute_command` in src/commands.cpp against the abstract commands.
use redis_lite_cpp.Common.{[], ◌∷◌, List, some, ◌≡◌, refl, sym, subst, map, ℤ, true, false}
use redis_lite_cpp.Text.{Bytes, codes, bytes_eq}
use redis_lite_cpp.Decimal.{to_integer}
use redis_lite_cpp.Store.Valid.{IsValid}
use redis_lite_cpp.Resp.Value.{to_elements, make_bulk_string, make_array}
use redis_lite_cpp.Commands.Base.{Db, Times, Command, to_upper}
use redis_lite_cpp.Commands.Spec.{
  Spec, Meets, del_spec, get_spec, hdel_spec, hexists_spec, hget_spec, hlen_spec, hset_spec,
  llen_spec, lpop_spec, lrange_spec, push_spec, rpop_spec, sadd_spec, scard_spec, set_spec,
  sismember_spec, smembers_spec, srem_spec,
}
use redis_lite_cpp.Commands.General.{del}
use redis_lite_cpp.Commands.General.Meets.{del-Meets}
use redis_lite_cpp.Commands.Strings.{set, get}
use redis_lite_cpp.Commands.Strings.Meets.{set-Meets, get-Meets}
use redis_lite_cpp.Commands.Lists.{push, pop, llen, lrange}
use redis_lite_cpp.Commands.Lists.Meets.{
  push-Meets, lpop-Meets, rpop-Meets, llen-Meets, lrange-Meets,
}
use redis_lite_cpp.Commands.Hashes.{hset, hget, hdel, hexists, hlen}
use redis_lite_cpp.Commands.Hashes.Meets.{
  hset-Meets, hget-Meets, hdel-Meets, hexists-Meets, hlen-Meets,
}
use redis_lite_cpp.Commands.Sets.{sadd, srem, sismember, scard, smembers}
use redis_lite_cpp.Commands.Sets.Meets.{
  sadd-Meets, srem-Meets, sismember-Meets, scard-Meets, smembers-Meets,
}
use redis_lite_cpp.Commands.Execute.{choose, handler, execute_command}
use redis_lite_cpp.Commands.Execute.Names.{execute-named}

-- A name in upper case with arguments: the key it works on, and the abstract command.
pub data Describes : Bytes → List Bytes → Bytes → Spec → Type 0 where
  on_del : (key : Bytes) → Describes (codes "DEL") (key ∷ []) key del_spec
  on_set_string :
      (key value : Bytes) → Describes (codes "SET") (key ∷ value ∷ []) key (set_spec value)
  on_get : (key : Bytes) → Describes (codes "GET") (key ∷ []) key get_spec
  on_lpush :
      (key item : Bytes) → Describes (codes "LPUSH") (key ∷ item ∷ []) key (push_spec true item)
  on_rpush :
      (key item : Bytes) → Describes (codes "RPUSH") (key ∷ item ∷ []) key (push_spec false item)
  on_lpop : (key : Bytes) → Describes (codes "LPOP") (key ∷ []) key lpop_spec
  on_rpop : (key : Bytes) → Describes (codes "RPOP") (key ∷ []) key rpop_spec
  on_llen : (key : Bytes) → Describes (codes "LLEN") (key ∷ []) key llen_spec
  on_hset :
      (key field value : Bytes)
      → Describes (codes "HSET") (key ∷ field ∷ value ∷ []) key (hset_spec field value)
  on_hget : (key field : Bytes) → Describes (codes "HGET") (key ∷ field ∷ []) key (hget_spec field)
  on_hdel : (key field : Bytes) → Describes (codes "HDEL") (key ∷ field ∷ []) key (hdel_spec field)
  on_hexists :
      (key field : Bytes) → Describes (codes "HEXISTS") (key ∷ field ∷ []) key (hexists_spec field)
  on_hlen : (key : Bytes) → Describes (codes "HLEN") (key ∷ []) key hlen_spec
  on_sadd : (key item : Bytes) → Describes (codes "SADD") (key ∷ item ∷ []) key (sadd_spec item)
  on_srem : (key item : Bytes) → Describes (codes "SREM") (key ∷ item ∷ []) key (srem_spec item)
  on_sismember :
      (key item : Bytes) → Describes (codes "SISMEMBER") (key ∷ item ∷ []) key (sismember_spec item)
  on_scard : (key : Bytes) → Describes (codes "SCARD") (key ∷ []) key scard_spec
  on_smembers : (key : Bytes) → Describes (codes "SMEMBERS") (key ∷ []) key smembers_spec
  on_lrange :
      (key start_text stop_text : Bytes) (start stop : ℤ)
      → to_integer start_text ≡ some start
      → to_integer stop_text ≡ some stop
      → Describes (codes "LRANGE") (key ∷ start_text ∷ stop_text ∷ []) key (lrange_spec start stop)

executed :
    (times : Times) (db : Db) (word name : Bytes) (arguments : List Bytes) (command : Command)
    (key : Bytes) (spec : Spec)
    → to_upper word ≡ name
    → handler name ≡ some command
    → Meets times db key (command times db arguments) spec
    → Meets times db key
        (execute_command times db
          (make_array (to_elements (map make_bulk_string (word ∷ arguments)))))
        spec
executed times db word name arguments command key spec e h =
    subst (λ result. Meets times db key result spec)
      (sym (execute-named times db word name arguments command e h))

-- Every command on one key meets its specification through `execute_command`: when the name, in
-- either case, and the arguments are those of an abstract command, a valid store gives the reply and
-- leaves the value under the key that the abstract command gives for the value the key has at the
-- first reading of the clock.
pub execute-Meets :
    {name key : Bytes} {arguments : List Bytes} {spec : Spec} (times : Times) (db : Db)
    (word : Bytes)
    → IsValid db.store
    → to_upper word ≡ name
    → Describes name arguments key spec
    → Meets times db key
        (execute_command times db
          (make_array (to_elements (map make_bulk_string (word ∷ arguments)))))
        spec
unfolding handler choose bytes_eq
execute-Meets times db word valid e (on_del key) =
    executed times db word _ _ del _ del_spec e refl (del-Meets times db key)
execute-Meets times db word valid e (on_set_string key value) =
    executed times db word _ _ set _ (set_spec value) e refl (set-Meets times db key value)
execute-Meets times db word valid e (on_get key) =
    executed times db word _ _ get _ get_spec e refl (get-Meets times db key)
execute-Meets times db word valid e (on_lpush key item) =
    executed times db word _ _ (push (codes "LPUSH")) _ (push_spec true item) e refl
      (push-Meets (codes "LPUSH") times db key item)
execute-Meets times db word valid e (on_rpush key item) =
    executed times db word _ _ (push (codes "RPUSH")) _ (push_spec false item) e refl
      (push-Meets (codes "RPUSH") times db key item)
execute-Meets times db word valid e (on_lpop key) =
    executed times db word _ _ (pop (codes "LPOP")) _ lpop_spec e refl
      (lpop-Meets times db key valid)
execute-Meets times db word valid e (on_rpop key) =
    executed times db word _ _ (pop (codes "RPOP")) _ rpop_spec e refl
      (rpop-Meets times db key valid)
execute-Meets times db word valid e (on_llen key) =
    executed times db word _ _ llen _ llen_spec e refl (llen-Meets times db key valid)
execute-Meets times db word valid e (on_hset key field value) =
    executed times db word _ _ hset _ (hset_spec field value) e refl
      (hset-Meets times db key field value)
execute-Meets times db word valid e (on_hget key field) =
    executed times db word _ _ hget _ (hget_spec field) e refl (hget-Meets times db key field valid)
execute-Meets times db word valid e (on_hdel key field) =
    executed times db word _ _ hdel _ (hdel_spec field) e refl (hdel-Meets times db key field valid)
execute-Meets times db word valid e (on_hexists key field) =
    executed times db word _ _ hexists _ (hexists_spec field) e refl
      (hexists-Meets times db key field valid)
execute-Meets times db word valid e (on_hlen key) =
    executed times db word _ _ hlen _ hlen_spec e refl (hlen-Meets times db key valid)
execute-Meets times db word valid e (on_sadd key item) =
    executed times db word _ _ sadd _ (sadd_spec item) e refl (sadd-Meets times db key item)
execute-Meets times db word valid e (on_srem key item) =
    executed times db word _ _ srem _ (srem_spec item) e refl (srem-Meets times db key item valid)
execute-Meets times db word valid e (on_sismember key item) =
    executed times db word _ _ sismember _ (sismember_spec item) e refl
      (sismember-Meets times db key item valid)
execute-Meets times db word valid e (on_scard key) =
    executed times db word _ _ scard _ scard_spec e refl (scard-Meets times db key valid)
execute-Meets times db word valid e (on_smembers key) =
    executed times db word _ _ smembers _ smembers_spec e refl (smembers-Meets times db key valid)
execute-Meets times db word valid e (on_lrange key start_text stop_text start stop from to) =
    executed times db word _ _ lrange _ (lrange_spec start stop) e refl
      (lrange-Meets times db key start_text stop_text start stop valid from to)
