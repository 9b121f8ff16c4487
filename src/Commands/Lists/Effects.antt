-- ===== src/Commands/Lists/Effects.antt =====
-- What the list commands of src/commands.cpp do to the store.
use redis_lite_cpp.Common.{[], ◌∷◌, List, Bool, true, false, Option, none, some, ◌≡◌, refl, ℤ}
use redis_lite_cpp.Text.{Bytes, codes, bytes_eq}
use redis_lite_cpp.Store.{list_value, expire_if_due, is_empty, read_typed, list_kind, found}
use redis_lite_cpp.Store.Typed.{read_cases, write_cases, list_kind-IsLawful}
use redis_lite_cpp.Store.Effect.{Effect, untouched, expired, written, reduced}
use redis_lite_cpp.Commands.Base.{Times, Db, HasEffect}
use redis_lite_cpp.Decimal.{to_integer}
use redis_lite_cpp.Commands.Lists.{
  push_into, pushed, push, pop_from, popped, pop, llen, range_from, lrange,
}

pushed-not_empty :
    (left : Bool) (item : Bytes) (xs : List Bytes)
    → is_empty (list_value (pushed left item xs)) ≡ false
pushed-not_empty true item xs = refl
pushed-not_empty false item [] = refl
pushed-not_empty false item (x ∷ xs) = refl

pub push-HasEffect : (name : Bytes) → HasEffect (push name)
unfolding push push_into
push-HasEffect name times db [] = untouched refl
push-HasEffect name times db (key ∷ []) = untouched refl
push-HasEffect name times db (key ∷ item ∷ []) =
    write_cases list_kind list_kind-IsLawful times.now key db.store
      (λ r. Effect key db.store (push_into name db key item r.0 r.1).1.store)
      (λ v e g. expired times.now refl)
      (λ xs u same stands.
        written times.now (list_value (pushed (bytes_eq name (codes "LPUSH")) item xs))
          (λ valid. (pushed-not_empty _ item xs, tt)) (same _))
push-HasEffect name times db (key ∷ item ∷ a ∷ rest) = untouched refl

pub pop-HasEffect : (name : Bytes) → HasEffect (pop name)
unfolding pop pop_from
pop-HasEffect name times db [] = untouched refl
pop-HasEffect name times db (key ∷ []) =
    read_cases list_kind list_kind-IsLawful times.now key db.store
      (λ r. Effect key db.store (pop_from name db key r.0 r.1).1.store)
      (λ e. expired times.now refl) (λ v e g. expired times.now refl) (λ xs e. popped_case xs)
  where
    popped_case :
        (xs : List Bytes)
        → Effect key db.store
            (pop_from name db key (expire_if_due times.now key db.store) (found xs)).1.store
    popped_case [] = expired times.now refl
    popped_case (x ∷ xs) =
        reduced times.now (list_value (popped (bytes_eq name (codes "LPOP")) x xs).1) (λ valid. tt)
          refl
pop-HasEffect name times db (key ∷ a ∷ rest) = untouched refl

pub llen-HasEffect : HasEffect llen
unfolding llen read_typed
llen-HasEffect times db [] = untouched refl
llen-HasEffect times db (key ∷ []) = expired times.now refl
llen-HasEffect times db (key ∷ a ∷ rest) = untouched refl

range_from-Effect :
    (times : Times) (db : Db) (key : Bytes) (start stop : Option ℤ)
    → Effect key db.store (range_from times db key start stop).1.store
unfolding range_from read_typed
range_from-Effect times db key none stop = untouched refl
range_from-Effect times db key (some start) none = untouched refl
range_from-Effect times db key (some start) (some stop) = expired times.now refl

pub lrange-HasEffect : HasEffect lrange
unfolding lrange
lrange-HasEffect times db [] = untouched refl
lrange-HasEffect times db (key ∷ []) = untouched refl
lrange-HasEffect times db (key ∷ start ∷ []) = untouched refl
lrange-HasEffect times db (key ∷ start ∷ stop ∷ []) =
    range_from-Effect times db key (to_integer start) (to_integer stop)
lrange-HasEffect times db (key ∷ start ∷ stop ∷ a ∷ rest) = untouched refl
