-- ===== src/Replay/Records/Writes.antt =====
-- The commands of src/commands.cpp that write, and what they append to the log.
use redis_lite_cpp.Common.{
  [], ◌∷◌, List, Bool, true, false, ◌||◌, Option, none, some, ◌≡◌, refl, inl, All, if◌then◌else◌,
}
use redis_lite_cpp.Text.{Bytes, codes, bytes_eq, one_of_two}
use redis_lite_cpp.Dict.{Dict, has_key, member}
use redis_lite_cpp.Store.{Store, Found, missing, mismatch, found}
use redis_lite_cpp.Log.{Log}
use redis_lite_cpp.Resp.Value.{RespValue}
use redis_lite_cpp.Commands.Base.{Db}
use redis_lite_cpp.Commands.Lists.{push, push_into, pop, pop_from}
use redis_lite_cpp.Commands.Hashes.{hset, hset_into, hdel, hdel_from}
use redis_lite_cpp.Commands.Sets.{sadd, sadd_into, srem, srem_from}
use redis_lite_cpp.Replay.Read.{arguments_for}
use redis_lite_cpp.Replay.Read.RoundTrip.{Fits}
use redis_lite_cpp.Replay.Records.{logged, IsRecord}
use redis_lite_cpp.Replay.Records.Logged.{Logs, HasLogs, log_command-Logs, if-Logs}

lpush_arguments : arguments_for (codes "LPUSH") ≡ some 2
unfolding arguments_for bytes_eq
lpush_arguments = refl

rpush_arguments : arguments_for (codes "RPUSH") ≡ some 2
unfolding arguments_for bytes_eq
rpush_arguments = refl

lpop_arguments : arguments_for (codes "LPOP") ≡ some 1
unfolding arguments_for bytes_eq
lpop_arguments = refl

rpop_arguments : arguments_for (codes "RPOP") ≡ some 1
unfolding arguments_for bytes_eq
rpop_arguments = refl

pub hset_arguments : arguments_for (codes "HSET") ≡ some 3
unfolding arguments_for bytes_eq
hset_arguments = refl

pub hdel_arguments : arguments_for (codes "HDEL") ≡ some 2
unfolding arguments_for bytes_eq
hdel_arguments = refl

pub sadd_arguments : arguments_for (codes "SADD") ≡ some 2
unfolding arguments_for bytes_eq
sadd_arguments = refl

pub srem_arguments : arguments_for (codes "SREM") ≡ some 2
unfolding arguments_for bytes_eq
srem_arguments = refl

pub push_arguments :
    (name : Bytes)
    → (bytes_eq name (codes "LPUSH") || bytes_eq name (codes "RPUSH")) ≡ true
    → arguments_for name ≡ some 2
push_arguments name test =
    one_of_two (λ v. arguments_for v ≡ some 2) name (codes "LPUSH") (codes "RPUSH") test
      lpush_arguments rpush_arguments

pub pop_arguments :
    (name : Bytes)
    → (bytes_eq name (codes "LPOP") || bytes_eq name (codes "RPOP")) ≡ true
    → arguments_for name ≡ some 1
pop_arguments name test =
    one_of_two (λ v. arguments_for v ≡ some 1) name (codes "LPOP") (codes "RPOP") test
      lpop_arguments rpop_arguments

push_into-Logs :
    (name : Bytes) (db : Db) (key item : Bytes) (store : Store) (o : Option (List Bytes))
    → IsRecord (logged name key (item ∷ []))
    → Logs db.log (push_into name db key item store o).1.log
unfolding push_into
push_into-Logs name db key item store none h = inl refl
push_into-Logs name db key item store (some xs) h = log_command-Logs db.log name key (item ∷ []) h

pub push-HasLogs :
    (name : Bytes)
    → (bytes_eq name (codes "LPUSH") || bytes_eq name (codes "RPUSH")) ≡ true
    → HasLogs (push name)
unfolding push
push-HasLogs name test times db [] h fits = inl refl
push-HasLogs name test times db (a ∷ []) h fits = inl refl
push-HasLogs name test times db (key ∷ item ∷ []) h fits =
    push_into-Logs name db key item _ _ (push_arguments name test, fits)
push-HasLogs name test times db (a ∷ b ∷ c ∷ l) h fits = inl refl

pop_from-Logs :
    (name : Bytes) (db : Db) (key : Bytes) (store : Store) (o : Found (List Bytes))
    → IsRecord (logged name key [])
    → Logs db.log (pop_from name db key store o).1.log
unfolding pop_from
pop_from-Logs name db key store missing h = inl refl
pop_from-Logs name db key store mismatch h = inl refl
pop_from-Logs name db key store (found []) h = inl refl
pop_from-Logs name db key store (found (x ∷ xs)) h = log_command-Logs db.log name key [] h

pub pop-HasLogs :
    (name : Bytes)
    → (bytes_eq name (codes "LPOP") || bytes_eq name (codes "RPOP")) ≡ true
    → HasLogs (pop name)
unfolding pop
pop-HasLogs name test times db [] h fits = inl refl
pop-HasLogs name test times db (key ∷ []) h fits =
    pop_from-Logs name db key _ _ (pop_arguments name test, fits)
pop-HasLogs name test times db (a ∷ b ∷ l) h fits = inl refl

-- The log of either result.
pub result-Logs :
    {log : Log} (b : Bool) (x y : RespValue × Db)
    → (b ≡ true → Logs log x.1.log)
    → (b ≡ false → Logs log y.1.log)
    → Logs log (if b then x else y).1.log
result-Logs true x y h k = h refl
result-Logs false x y h k = k refl

hset_into-Logs :
    (db : Db) (key field value : Bytes) (store : Store) (o : Option (Dict Bytes))
    → All Fits (key ∷ field ∷ value ∷ [])
    → Logs db.log (hset_into db key field value store o).1.log
unfolding hset_into
hset_into-Logs db key field value store none fits = inl refl
hset_into-Logs db key field value store (some hash) fits =
    log_command-Logs db.log (codes "HSET") key (field ∷ value ∷ []) (hset_arguments, fits)

pub hset-HasLogs : HasLogs hset
unfolding hset
hset-HasLogs times db [] h fits = inl refl
hset-HasLogs times db (a ∷ []) h fits = inl refl
hset-HasLogs times db (a ∷ b ∷ []) h fits = inl refl
hset-HasLogs times db (key ∷ field ∷ value ∷ []) h fits = hset_into-Logs db key field value _ _ fits
hset-HasLogs times db (a ∷ b ∷ c ∷ d ∷ l) h fits = inl refl

hdel_from-Logs :
    (db : Db) (key field : Bytes) (store : Store) (o : Found (Dict Bytes))
    → All Fits (key ∷ field ∷ [])
    → Logs db.log (hdel_from db key field store o).1.log
unfolding hdel_from
hdel_from-Logs db key field store missing fits = inl refl
hdel_from-Logs db key field store mismatch fits = inl refl
hdel_from-Logs db key field store (found hash) fits =
    result-Logs (has_key field hash) _ _
      (λ _. log_command-Logs db.log (codes "HDEL") key (field ∷ []) (hdel_arguments, fits))
      (λ _. inl refl)

pub hdel-HasLogs : HasLogs hdel
unfolding hdel
hdel-HasLogs times db [] h fits = inl refl
hdel-HasLogs times db (a ∷ []) h fits = inl refl
hdel-HasLogs times db (key ∷ field ∷ []) h fits = hdel_from-Logs db key field _ _ fits
hdel-HasLogs times db (a ∷ b ∷ c ∷ l) h fits = inl refl

sadd_into-Logs :
    (db : Db) (key item : Bytes) (store : Store) (o : Option (List Bytes))
    → All Fits (key ∷ item ∷ [])
    → Logs db.log (sadd_into db key item store o).1.log
unfolding sadd_into
sadd_into-Logs db key item store none fits = inl refl
sadd_into-Logs db key item store (some members) fits =
    if-Logs db.log _ _ _
      (log_command-Logs db.log (codes "SADD") key (item ∷ []) (sadd_arguments, fits)) (inl refl)

pub sadd-HasLogs : HasLogs sadd
unfolding sadd
sadd-HasLogs times db [] h fits = inl refl
sadd-HasLogs times db (a ∷ []) h fits = inl refl
sadd-HasLogs times db (key ∷ item ∷ []) h fits = sadd_into-Logs db key item _ _ fits
sadd-HasLogs times db (a ∷ b ∷ c ∷ l) h fits = inl refl

srem_from-Logs :
    (db : Db) (key item : Bytes) (store : Store) (o : Found (List Bytes))
    → All Fits (key ∷ item ∷ [])
    → Logs db.log (srem_from db key item store o).1.log
unfolding srem_from
srem_from-Logs db key item store missing fits = inl refl
srem_from-Logs db key item store mismatch fits = inl refl
srem_from-Logs db key item store (found members) fits =
    result-Logs (member item members) _ _
      (λ _. log_command-Logs db.log (codes "SREM") key (item ∷ []) (srem_arguments, fits))
      (λ _. inl refl)

pub srem-HasLogs : HasLogs srem
unfolding srem
srem-HasLogs times db [] h fits = inl refl
srem-HasLogs times db (a ∷ []) h fits = inl refl
srem-HasLogs times db (key ∷ item ∷ []) h fits = srem_from-Logs db key item _ _ fits
srem-HasLogs times db (a ∷ b ∷ c ∷ l) h fits = inl refl
