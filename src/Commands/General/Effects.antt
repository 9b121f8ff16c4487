-- ===== src/Commands/General/Effects.antt =====
-- What PING, DEL, EXPIRE and TTL of src/commands.cpp do to the store.
use redis_lite_cpp.Common.{[], ◌∷◌, Option, none, some, refl, ℤ, pos, ltb_ℤ}
use redis_lite_cpp.Text.{Bytes}
use redis_lite_cpp.Dict.{has_key}
use redis_lite_cpp.Store.{expire_if_due}
use redis_lite_cpp.Store.Effect.{Effect, untouched, expired, removed, dated}
use redis_lite_cpp.Commands.Base.{Times, Db, HasEffect, if-Effect}
use redis_lite_cpp.Decimal.{to_integer}
use redis_lite_cpp.Commands.General.{ping, del, max_seconds, expire_key, expire_at, expire, ttl}

pub ping-HasEffect : HasEffect ping
unfolding ping
ping-HasEffect times db [] = untouched refl
ping-HasEffect times db (a ∷ rest) = untouched refl

pub del-HasEffect : HasEffect del
unfolding del
del-HasEffect times db [] = untouched refl
del-HasEffect times db (key ∷ []) = removed times.now refl
del-HasEffect times db (key ∷ a ∷ rest) = untouched refl

pub ttl-HasEffect : HasEffect ttl
unfolding ttl
ttl-HasEffect times db [] = untouched refl
ttl-HasEffect times db (key ∷ []) = expired times.now refl
ttl-HasEffect times db (key ∷ a ∷ rest) = untouched refl

expire_key-Effect :
    (times : Times) (db : Db) (key : Bytes) (seconds : ℤ)
    → Effect key db.store
        (expire_key times db.log key seconds (expire_if_due times.later key db.store)).1.store
unfolding expire_key
expire_key-Effect times db key seconds =
    if-Effect key db.store (has_key key (expire_if_due times.later key db.store).values) _ _
      (λ held.
        if-Effect key db.store (ltb_ℤ (pos 0) seconds) _ _ (λ _. dated times.later _ held refl)
          (removed times.later refl))
      (expired times.later refl)

expire_at-Effect :
    (times : Times) (db : Db) (key : Bytes) (o : Option ℤ)
    → Effect key db.store (expire_at times db key o).1.store
unfolding expire_at
expire_at-Effect times db key none = untouched refl
expire_at-Effect times db key (some seconds) =
    if-Effect key db.store (ltb_ℤ (pos (max_seconds times.now)) seconds) _ _ (λ _. untouched refl)
      (expire_key-Effect times db key seconds)

pub expire-HasEffect : HasEffect expire
unfolding expire
expire-HasEffect times db [] = untouched refl
expire-HasEffect times db (key ∷ []) = untouched refl
expire-HasEffect times db (key ∷ seconds ∷ []) = expire_at-Effect times db key (to_integer seconds)
expire-HasEffect times db (key ∷ seconds ∷ a ∷ rest) = untouched refl
