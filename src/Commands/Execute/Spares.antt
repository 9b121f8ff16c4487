-- ===== src/Commands/Execute/Spares.antt =====
-- Every handler of src/commands.cpp, where its reply is an error.
use redis_lite_cpp.Common.{
  ℕ, [], ◌∷◌, List, Bool, true, false, Option, none, some, ◌≡◌, refl, ℤ, pos, ltb_ℤ, if◌then◌else◌,
  ◌≤◌, ltb, arith,
}
use redis_lite_cpp.Text.{Bytes}
use redis_lite_cpp.Decimal.{to_integer}
use redis_lite_cpp.Dict.{find, has_key, member}
use redis_lite_cpp.Store.{
  expire_if_due, remove_key, read_typed, found, list_kind, hash_kind, set_kind,
}
use redis_lite_cpp.Store.Typed.{
  read_cases, write_cases, list_kind-IsLawful, hash_kind-IsLawful, set_kind-IsLawful,
}
use redis_lite_cpp.Resp.Value.{error, simple_string, integer, bulk_string, array, RespValue, resp}
use redis_lite_cpp.Commands.Base.{Db, Times, Command, key_of}
use redis_lite_cpp.Commands.General.{ping, del, max_seconds, expire_key, expire_at, expire, ttl}
use redis_lite_cpp.Commands.Strings.{set, get}
use redis_lite_cpp.Commands.Lists.{push_into, push, pop_from, pop, llen, range_from, lrange}
use redis_lite_cpp.Commands.Hashes.{hset_into, hset, hget, hdel_from, hdel, hexists, hlen}
use redis_lite_cpp.Commands.Sets.{sadd_into, sadd, srem_from, srem, sismember, scard, smembers}

abbrev pub IsError : RespValue → Type 0
IsError (resp error text n vs null) = Unit
IsError (resp simple_string text n vs null) = ⊥
IsError (resp integer text n vs null) = ⊥
IsError (resp bulk_string text n vs null) = ⊥
IsError (resp array text n vs null) = ⊥

-- The store and the log are as they were, or the key had a deadline that had passed at the reading
-- `now`, and the key is gone.
pub data Spared (now : ℕ) (key : Bytes) (before after : Db) : Type 0 where
  kept : after ≡ before → Spared now key before after
  expired :
      (deadline : ℕ)
      → find key before.store.expirations ≡ some deadline
      → deadline ≤ now
      → after ≡ record before { store = remove_key key before.store }
      → Spared now key before after

passed : (now deadline : ℕ) → ltb now deadline ≡ false → deadline ≤ now
passed now deadline h = ground arith

-- The lazy expiration does no more than that.
expiring :
    (now : ℕ) (key : Bytes) (db : Db)
    → Spared now key db (record db { store = expire_if_due now key db.store })
unfolding expire_if_due
expiring now key db = at (find key db.store.expirations) refl
  where
    due :
        (deadline : ℕ)
        → find key db.store.expirations ≡ some deadline
        → (b : Bool) → ltb now deadline ≡ b
        → Spared now key db (record db { store = if b then db.store else remove_key key db.store })
    due deadline e true h = kept refl
    due deadline e false h = expired deadline e (passed now deadline h) refl

    at :
        (o : Option ℕ)
        → find key db.store.expirations ≡ o
        → Spared now key db (record db {
          store = elim o [
            | none ↦ db.store
            | some deadline ↦ if ltb now deadline then db.store else remove_key key db.store
          ];
        })
    at none e = kept refl
    at (some deadline) e = due deadline e (ltb now deadline) refl

-- Where the reply is an error, nothing else has happened.
abbrev pub Guarded : ℕ → Bytes → Db → RespValue × Db → Type 0
Guarded now key db result = IsError result.0 → Spared now key db result.1

abbrev pub Spares : Command → Type 0
Spares command =
    (times : Times) (db : Db) (arguments : List Bytes)
    → Guarded times.now (key_of arguments) db (command times db arguments)

if-Guarded :
    (now : ℕ) (key : Bytes) (db : Db) (b : Bool) (x y : RespValue × Db)
    → Guarded now key db x
    → Guarded now key db y
    → Guarded now key db (if b then x else y)
if-Guarded now key db true x y h k = h
if-Guarded now key db false x y h k = k

pub ping-Spares : Spares ping
unfolding ping
ping-Spares times db [] = λ h. absurd h
ping-Spares times db (a ∷ rest) = λ h. kept refl

pub del-Spares : Spares del
unfolding del
del-Spares times db [] = λ h. kept refl
del-Spares times db (a ∷ []) = λ h. absurd h
del-Spares times db (a ∷ b ∷ rest) = λ h. kept refl

pub set-Spares : Spares set
unfolding set
set-Spares times db [] = λ h. kept refl
set-Spares times db (a ∷ []) = λ h. kept refl
set-Spares times db (a ∷ b ∷ []) = λ h. absurd h
set-Spares times db (a ∷ b ∷ c ∷ rest) = λ h. kept refl

pub ttl-Spares : Spares ttl
unfolding ttl
ttl-Spares times db [] = λ h. kept refl
ttl-Spares times db (a ∷ []) = λ h. expiring times.now a db
ttl-Spares times db (a ∷ b ∷ rest) = λ h. kept refl

pub get-Spares : Spares get
unfolding get read_typed
get-Spares times db [] = λ h. kept refl
get-Spares times db (a ∷ []) = λ h. expiring times.now a db
get-Spares times db (a ∷ b ∷ rest) = λ h. kept refl

pub llen-Spares : Spares llen
unfolding llen read_typed
llen-Spares times db [] = λ h. kept refl
llen-Spares times db (a ∷ []) = λ h. expiring times.now a db
llen-Spares times db (a ∷ b ∷ rest) = λ h. kept refl

pub hget-Spares : Spares hget
unfolding hget read_typed
hget-Spares times db [] = λ h. kept refl
hget-Spares times db (a ∷ []) = λ h. kept refl
hget-Spares times db (a ∷ b ∷ []) = λ h. expiring times.now a db
hget-Spares times db (a ∷ b ∷ c ∷ rest) = λ h. kept refl

pub hexists-Spares : Spares hexists
unfolding hexists read_typed
hexists-Spares times db [] = λ h. kept refl
hexists-Spares times db (a ∷ []) = λ h. kept refl
hexists-Spares times db (a ∷ b ∷ []) = λ h. expiring times.now a db
hexists-Spares times db (a ∷ b ∷ c ∷ rest) = λ h. kept refl

pub hlen-Spares : Spares hlen
unfolding hlen read_typed
hlen-Spares times db [] = λ h. kept refl
hlen-Spares times db (a ∷ []) = λ h. expiring times.now a db
hlen-Spares times db (a ∷ b ∷ rest) = λ h. kept refl

pub sismember-Spares : Spares sismember
unfolding sismember read_typed
sismember-Spares times db [] = λ h. kept refl
sismember-Spares times db (a ∷ []) = λ h. kept refl
sismember-Spares times db (a ∷ b ∷ []) = λ h. expiring times.now a db
sismember-Spares times db (a ∷ b ∷ c ∷ rest) = λ h. kept refl

pub scard-Spares : Spares scard
unfolding scard read_typed
scard-Spares times db [] = λ h. kept refl
scard-Spares times db (a ∷ []) = λ h. expiring times.now a db
scard-Spares times db (a ∷ b ∷ rest) = λ h. kept refl

pub smembers-Spares : Spares smembers
unfolding smembers read_typed
smembers-Spares times db [] = λ h. kept refl
smembers-Spares times db (a ∷ []) = λ h. expiring times.now a db
smembers-Spares times db (a ∷ b ∷ rest) = λ h. kept refl

pub push-Spares : (name : Bytes) → Spares (push name)
unfolding push push_into
push-Spares name times db [] = λ h. kept refl
push-Spares name times db (a ∷ []) = λ h. kept refl
push-Spares name times db (a ∷ b ∷ []) =
    write_cases list_kind list_kind-IsLawful times.now a db.store
      (λ r. Guarded times.now a db (push_into name db a b r.0 r.1))
      (λ v e g h. expiring times.now a db) (λ x u same stands h. absurd h)
push-Spares name times db (a ∷ b ∷ c ∷ rest) = λ h. kept refl

pub hset-Spares : Spares hset
unfolding hset hset_into
hset-Spares times db [] = λ h. kept refl
hset-Spares times db (a ∷ []) = λ h. kept refl
hset-Spares times db (a ∷ b ∷ []) = λ h. kept refl
hset-Spares times db (a ∷ b ∷ c ∷ []) =
    write_cases hash_kind hash_kind-IsLawful times.now a db.store
      (λ r. Guarded times.now a db (hset_into db a b c r.0 r.1))
      (λ v e g h. expiring times.now a db) (λ x u same stands h. absurd h)
hset-Spares times db (a ∷ b ∷ c ∷ d ∷ rest) = λ h. kept refl

pub sadd-Spares : Spares sadd
unfolding sadd sadd_into
sadd-Spares times db [] = λ h. kept refl
sadd-Spares times db (a ∷ []) = λ h. kept refl
sadd-Spares times db (a ∷ b ∷ []) =
    write_cases set_kind set_kind-IsLawful times.now a db.store
      (λ r. Guarded times.now a db (sadd_into db a b r.0 r.1)) (λ v e g h. expiring times.now a db)
      (λ x u same stands h. absurd h)
sadd-Spares times db (a ∷ b ∷ c ∷ rest) = λ h. kept refl

pop_found :
    (name : Bytes) (times : Times) (db : Db) (key : Bytes) (xs : List Bytes)
    → Guarded times.now key db
        (pop_from name db key (expire_if_due times.now key db.store) (found xs))
unfolding pop_from
pop_found name times db key [] = λ h. absurd h
pop_found name times db key (x ∷ xs) = λ h. absurd h

pub pop-Spares : (name : Bytes) → Spares (pop name)
unfolding pop pop_from
pop-Spares name times db [] = λ h. kept refl
pop-Spares name times db (a ∷ []) =
    read_cases list_kind list_kind-IsLawful times.now a db.store
      (λ r. Guarded times.now a db (pop_from name db a r.0 r.1)) (λ e h. absurd h)
      (λ v e g h. expiring times.now a db) (λ xs e. pop_found name times db a xs)
pop-Spares name times db (a ∷ b ∷ rest) = λ h. kept refl

pub hdel-Spares : Spares hdel
unfolding hdel hdel_from
hdel-Spares times db [] = λ h. kept refl
hdel-Spares times db (a ∷ []) = λ h. kept refl
hdel-Spares times db (a ∷ b ∷ []) =
    read_cases hash_kind hash_kind-IsLawful times.now a db.store
      (λ r. Guarded times.now a db (hdel_from db a b r.0 r.1)) (λ e h. absurd h)
      (λ v e g h. expiring times.now a db)
      (λ x e. if-Guarded times.now a db (has_key b x) _ _ (λ h. absurd h) (λ h. absurd h))
hdel-Spares times db (a ∷ b ∷ c ∷ rest) = λ h. kept refl

pub srem-Spares : Spares srem
unfolding srem srem_from
srem-Spares times db [] = λ h. kept refl
srem-Spares times db (a ∷ []) = λ h. kept refl
srem-Spares times db (a ∷ b ∷ []) =
    read_cases set_kind set_kind-IsLawful times.now a db.store
      (λ r. Guarded times.now a db (srem_from db a b r.0 r.1)) (λ e h. absurd h)
      (λ v e g h. expiring times.now a db)
      (λ x e. if-Guarded times.now a db (member b x) _ _ (λ h. absurd h) (λ h. absurd h))
srem-Spares times db (a ∷ b ∷ c ∷ rest) = λ h. kept refl

range_from-Guarded :
    (times : Times) (db : Db) (key : Bytes) (start stop : Option ℤ)
    → Guarded times.now key db (range_from times db key start stop)
unfolding range_from read_typed
range_from-Guarded times db key none stop = λ h. kept refl
range_from-Guarded times db key (some start) none = λ h. kept refl
range_from-Guarded times db key (some start) (some stop) = λ h. expiring times.now key db

pub lrange-Spares : Spares lrange
unfolding lrange
lrange-Spares times db [] = λ h. kept refl
lrange-Spares times db (a ∷ []) = λ h. kept refl
lrange-Spares times db (a ∷ b ∷ []) = λ h. kept refl
lrange-Spares times db (a ∷ b ∷ c ∷ []) =
    range_from-Guarded times db a (to_integer b) (to_integer c)
lrange-Spares times db (a ∷ b ∷ c ∷ d ∷ rest) = λ h. kept refl

expire_key-Guarded :
    (times : Times) (db : Db) (key : Bytes) (seconds : ℤ)
    → Guarded times.now key db
        (expire_key times db.log key seconds (expire_if_due times.later key db.store))
unfolding expire_key
expire_key-Guarded times db key seconds =
    if-Guarded times.now key db (has_key key (expire_if_due times.later key db.store).values) _ _
      (if-Guarded times.now key db (ltb_ℤ (pos 0) seconds) _ _ (λ h. absurd h) (λ h. absurd h))
      (λ h. absurd h)

expire_at-Guarded :
    (times : Times) (db : Db) (key : Bytes) (o : Option ℤ)
    → Guarded times.now key db (expire_at times db key o)
unfolding expire_at
expire_at-Guarded times db key none = λ h. kept refl
expire_at-Guarded times db key (some seconds) =
    if-Guarded times.now key db (ltb_ℤ (pos (max_seconds times.now)) seconds) _ _ (λ h. kept refl)
      (expire_key-Guarded times db key seconds)

pub expire-Spares : Spares expire
unfolding expire
expire-Spares times db [] = λ h. kept refl
expire-Spares times db (a ∷ []) = λ h. kept refl
expire-Spares times db (a ∷ b ∷ []) = expire_at-Guarded times db a (to_integer b)
expire-Spares times db (a ∷ b ∷ c ∷ rest) = λ h. kept refl
