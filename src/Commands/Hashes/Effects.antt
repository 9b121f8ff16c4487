-- ===== src/Commands/Hashes/Effects.antt =====
-- What the hash commands of src/commands.cpp do to the store.
use redis_lite_cpp.Common.{ℕ, [], ◌∷◌, false, none, some, ◌≡◌, refl, inl, inr, arith, ◌⊎◌}
use redis_lite_cpp.Text.{Bytes}
use redis_lite_cpp.Dict.{Dict, find, put, erase, has_key}
use redis_lite_cpp.Dict.Laws.{IsDistinct, put-IsDistinct, erase-IsDistinct}
use redis_lite_cpp.Store.{hash_value, Store, expire_if_due, is_empty, read_typed, hash_kind}
use redis_lite_cpp.Store.Valid.{IsValid, expire_if_due-IsValid}
use redis_lite_cpp.Store.Typed.{read_cases, write_cases, hash_kind-IsLawful}
use redis_lite_cpp.Store.Effect.{Effect, untouched, expired, written, reduced}
use redis_lite_cpp.Commands.Base.{HasEffect, if-Effect}
use redis_lite_cpp.Commands.Hashes.{hset_into, hset, hget, hdel_from, hdel, hexists, hlen}

put-not_empty :
    (field value : Bytes) (hash : Dict Bytes) → is_empty (hash_value (put field value hash)) ≡ false
unfolding put
put-not_empty field value [] = refl
put-not_empty field value ((j, w) ∷ hash) = ground arith

-- The hash that a `write_typed` gives has distinct keys.
hash-IsDistinct :
    (now : ℕ) (key : Bytes) (s : Store) (hash : Dict Bytes)
    → (find key (expire_if_due now key s).values ≡ none) × (hash ≡ [])
      ⊎ (find key (expire_if_due now key s).values ≡ some (hash_value hash))
    → IsValid s
    → IsDistinct hash
hash-IsDistinct now key s hash (inl (e, empty)) valid = rw empty tt
hash-IsDistinct now key s hash (inr e) valid =
    ((expire_if_due-IsValid now key s valid).stored key (hash_value hash) e).1

pub hset-HasEffect : HasEffect hset
unfolding hset hset_into
hset-HasEffect times db [] = untouched refl
hset-HasEffect times db (key ∷ []) = untouched refl
hset-HasEffect times db (key ∷ field ∷ []) = untouched refl
hset-HasEffect times db (key ∷ field ∷ value ∷ []) =
    write_cases hash_kind hash_kind-IsLawful times.now key db.store
      (λ r. Effect key db.store (hset_into db key field value r.0 r.1).1.store)
      (λ v e g. expired times.now refl)
      (λ hash u same stands.
        written times.now (hash_value (put field value hash))
          (λ valid. (
            put-not_empty field value hash,
            put-IsDistinct field value hash
                (hash-IsDistinct times.now key db.store hash stands valid),
          ))
          (same _))
hset-HasEffect times db (key ∷ field ∷ value ∷ a ∷ rest) = untouched refl

pub hget-HasEffect : HasEffect hget
unfolding hget read_typed
hget-HasEffect times db [] = untouched refl
hget-HasEffect times db (key ∷ []) = untouched refl
hget-HasEffect times db (key ∷ field ∷ []) = expired times.now refl
hget-HasEffect times db (key ∷ field ∷ a ∷ rest) = untouched refl

pub hdel-HasEffect : HasEffect hdel
unfolding hdel hdel_from
hdel-HasEffect times db [] = untouched refl
hdel-HasEffect times db (key ∷ []) = untouched refl
hdel-HasEffect times db (key ∷ field ∷ []) =
    read_cases hash_kind hash_kind-IsLawful times.now key db.store
      (λ r. Effect key db.store (hdel_from db key field r.0 r.1).1.store)
      (λ e. expired times.now refl) (λ v e g. expired times.now refl)
      (λ hash e.
        if-Effect key db.store (has_key field hash) _ _
          (λ _.
            reduced times.now (hash_value (erase field hash))
              (λ valid.
                erase-IsDistinct field hash
                  (hash-IsDistinct times.now key db.store hash (inr e) valid))
              refl)
          (expired times.now refl))
hdel-HasEffect times db (key ∷ field ∷ a ∷ rest) = untouched refl

pub hexists-HasEffect : HasEffect hexists
unfolding hexists read_typed
hexists-HasEffect times db [] = untouched refl
hexists-HasEffect times db (key ∷ []) = untouched refl
hexists-HasEffect times db (key ∷ field ∷ []) = expired times.now refl
hexists-HasEffect times db (key ∷ field ∷ a ∷ rest) = untouched refl

pub hlen-HasEffect : HasEffect hlen
unfolding hlen read_typed
hlen-HasEffect times db [] = untouched refl
hlen-HasEffect times db (key ∷ []) = expired times.now refl
hlen-HasEffect times db (key ∷ a ∷ rest) = untouched refl
