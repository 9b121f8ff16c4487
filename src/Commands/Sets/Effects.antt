-- ===== src/Commands/Sets/Effects.antt =====
-- What the set commands of src/commands.cpp do to the store.
use redis_lite_cpp.Common.{ℕ, [], ◌∷◌, List, false, none, some, ◌≡◌, refl, inl, inr, arith, ◌⊎◌}
use redis_lite_cpp.Text.{Bytes}
use redis_lite_cpp.Dict.{find, member, insert, remove}
use redis_lite_cpp.Dict.Members.{IsSetOf, insert-IsSetOf, remove-IsSetOf}
use redis_lite_cpp.Store.{set_value, Store, expire_if_due, is_empty, read_typed, set_kind}
use redis_lite_cpp.Store.Valid.{IsValid, expire_if_due-IsValid}
use redis_lite_cpp.Store.Typed.{read_cases, write_cases, set_kind-IsLawful}
use redis_lite_cpp.Store.Effect.{Effect, untouched, expired, written, reduced}
use redis_lite_cpp.Commands.Base.{HasEffect, if-Effect}
use redis_lite_cpp.Commands.Sets.{sadd_into, sadd, srem_from, srem, sismember, scard, smembers}

insert-not_empty :
    (item : Bytes) (members : List Bytes) → is_empty (set_value (insert item members)) ≡ false
unfolding insert
insert-not_empty item [] = refl
insert-not_empty item (x ∷ members) = ground arith

-- The set that a `write_typed` gives has distinct members.
members-IsSetOf :
    (now : ℕ) (key : Bytes) (s : Store) (members : List Bytes)
    → (find key (expire_if_due now key s).values ≡ none) × (members ≡ [])
      ⊎ (find key (expire_if_due now key s).values ≡ some (set_value members))
    → IsValid s
    → IsSetOf members
members-IsSetOf now key s members (inl (e, empty)) valid = rw empty tt
members-IsSetOf now key s members (inr e) valid =
    ((expire_if_due-IsValid now key s valid).stored key (set_value members) e).1

pub sadd-HasEffect : HasEffect sadd
unfolding sadd sadd_into
sadd-HasEffect times db [] = untouched refl
sadd-HasEffect times db (key ∷ []) = untouched refl
sadd-HasEffect times db (key ∷ item ∷ []) =
    write_cases set_kind set_kind-IsLawful times.now key db.store
      (λ r. Effect key db.store (sadd_into db key item r.0 r.1).1.store)
      (λ v e g. expired times.now refl)
      (λ members u same stands.
        written times.now (set_value (insert item members))
          (λ valid. (
            insert-not_empty item members,
            insert-IsSetOf item members
                (members-IsSetOf times.now key db.store members stands valid),
          ))
          (same _))
sadd-HasEffect times db (key ∷ item ∷ a ∷ rest) = untouched refl

pub srem-HasEffect : HasEffect srem
unfolding srem srem_from
srem-HasEffect times db [] = untouched refl
srem-HasEffect times db (key ∷ []) = untouched refl
srem-HasEffect times db (key ∷ item ∷ []) =
    read_cases set_kind set_kind-IsLawful times.now key db.store
      (λ r. Effect key db.store (srem_from db key item r.0 r.1).1.store)
      (λ e. expired times.now refl) (λ v e g. expired times.now refl)
      (λ members e.
        if-Effect key db.store (member item members) _ _
          (λ _.
            reduced times.now (set_value (remove item members))
              (λ valid.
                remove-IsSetOf item members
                  (members-IsSetOf times.now key db.store members (inr e) valid))
              refl)
          (expired times.now refl))
srem-HasEffect times db (key ∷ item ∷ a ∷ rest) = untouched refl

pub sismember-HasEffect : HasEffect sismember
unfolding sismember read_typed
sismember-HasEffect times db [] = untouched refl
sismember-HasEffect times db (key ∷ []) = untouched refl
sismember-HasEffect times db (key ∷ item ∷ []) = expired times.now refl
sismember-HasEffect times db (key ∷ item ∷ a ∷ rest) = untouched refl

pub scard-HasEffect : HasEffect scard
unfolding scard read_typed
scard-HasEffect times db [] = untouched refl
scard-HasEffect times db (key ∷ []) = expired times.now refl
scard-HasEffect times db (key ∷ a ∷ rest) = untouched refl

pub smembers-HasEffect : HasEffect smembers
unfolding smembers read_typed
smembers-HasEffect times db [] = untouched refl
smembers-HasEffect times db (key ∷ []) = expired times.now refl
smembers-HasEffect times db (key ∷ a ∷ rest) = untouched refl
