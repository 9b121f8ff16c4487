-- ===== src/Commands/Sets/Meets.antt =====
-- The set commands of src/commands.cpp against their specifications.
use redis_lite_cpp.Common.{
  [], ◌∷◌, List, Bool, true, false, not, Bool-cases, Option, none, some, ◌≡◌, refl, ap, sym, ◌∙◌,
  arith, inl, inr, pos, if◌then◌else◌,
}
use redis_lite_cpp.Text.{Bytes}
use redis_lite_cpp.Dict.{find, member, insert, remove}
use redis_lite_cpp.Store.{
  Value, set_value, Store, set_kind, typed, read_typed, emplaced, write_typed, is_empty,
  expire_if_due, found,
}
use redis_lite_cpp.Store.Valid.{IsValid, find-store_value, expire_if_due-IsValid}
use redis_lite_cpp.Store.View.{view, kept, find-drop_if_empty}
use redis_lite_cpp.Resp.Value.{make_integer}
use redis_lite_cpp.Commands.Base.{Db, Times, flag}
use redis_lite_cpp.Dict.Members.{remove_not_member}
use redis_lite_cpp.Commands.Spec.{
  Leaves, Meets, of_set, sadd_spec, srem_spec, sismember_spec, scard_spec, smembers_spec,
}
use redis_lite_cpp.Commands.Sets.{
  sadd_into, sadd, srem_from, srem, sismember_reply, sismember, scard_reply, scard, smembers_reply,
  smembers,
}

live_set_value :
    (s : List Bytes) (o : Option Value)
    → o ≡ some (set_value s)
    → is_empty (set_value s) ≡ false
    → o ≡ of_set s
live_set_value [] o e whole = cc
live_set_value (x ∷ xs) o e whole = e

kept-of_set : (s : List Bytes) → kept (set_value s) ≡ of_set s
kept-of_set [] = refl
kept-of_set (x ∷ xs) = refl

insert-of_set :
    (item : Bytes) (s : List Bytes) → some (set_value (insert item s)) ≡ of_set (insert item s)
unfolding insert
insert-of_set item [] = refl
insert-of_set item (j ∷ s) = ground arith

added_eq : (b : Bool) → make_integer (flag (not b)) ≡ make_integer (if b then pos 0 else pos 1)
added_eq true = refl
added_eq false = refl

flag_eq : (b : Bool) → make_integer (flag b) ≡ make_integer (if b then pos 1 else pos 0)
flag_eq true = refl
flag_eq false = refl

sadd_into-Leaves :
    (db : Db) (key item : Bytes) (live : Store) (o : Option Value)
    → find key live.values ≡ o
    → Leaves key
        (sadd_into db key item (emplaced set_kind key live o).0 (emplaced set_kind key live o).1)
        (sadd_spec item o)
unfolding sadd_into
sadd_into-Leaves db key item live none e =
    (added_eq (member item []), find-store_value key _ _ ∙ insert-of_set item [])
sadd_into-Leaves db key item live (some (set_value s)) e =
    (added_eq (member item s), find-store_value key _ live ∙ insert-of_set item s)
sadd_into-Leaves db key item live (some v) e = (refl, e)

-- SADD inserts the member into the live set, a missing key as an empty set, and replies 1 for a
-- new member and 0 for one that was there; another type gives the wrong-type error and keeps
-- the value.
pub sadd-Meets :
    (times : Times) (db : Db) (key item : Bytes)
    → Meets times db key (sadd times db (key ∷ item ∷ [])) (sadd_spec item)
unfolding sadd write_typed view
sadd-Meets times db key item =
    sadd_into-Leaves db key item (expire_if_due times.now key db.store)
      (find key (expire_if_due times.now key db.store).values) refl

sismember-Leaves :
    (db : Db) (key item : Bytes) (live : Store) (o : Option Value)
    → find key live.values ≡ o
    → ((v : Value) → o ≡ some v → is_empty v ≡ false)
    → Leaves key
        (sismember_reply item (typed set_kind o), record db { store = live })
        (sismember_spec item o)
unfolding member
sismember-Leaves db key item live none e whole = (refl, e)
sismember-Leaves db key item live (some (set_value x)) e whole =
    (flag_eq (member item x), live_set_value x _ e (whole _ refl))
sismember-Leaves db key item live (some v) e whole = (refl, e)

-- SISMEMBER on a valid store replies 1 for a member of the live set and 0 otherwise, or the
-- wrong-type error, and leaves the live value.
pub sismember-Meets :
    (times : Times) (db : Db) (key item : Bytes)
    → IsValid db.store
    → Meets times db key (sismember times db (key ∷ item ∷ [])) (sismember_spec item)
unfolding sismember read_typed view
sismember-Meets times db key item valid =
    sismember-Leaves db key item (expire_if_due times.now key db.store)
      (find key (expire_if_due times.now key db.store).values) refl
      (λ v e. ((expire_if_due-IsValid times.now key db.store valid).stored key v e).0)

scard-Leaves :
    (db : Db) (key : Bytes) (live : Store) (o : Option Value)
    → find key live.values ≡ o
    → ((v : Value) → o ≡ some v → is_empty v ≡ false)
    → Leaves key (scard_reply (typed set_kind o), record db { store = live }) (scard_spec o)
scard-Leaves db key live none e whole = (refl, e)
scard-Leaves db key live (some (set_value x)) e whole = (refl, live_set_value x _ e (whole _ refl))
scard-Leaves db key live (some v) e whole = (refl, e)

-- SCARD on a valid store replies the number of members of the live set, 0 for a missing key, or
-- the wrong-type error, and leaves the live value.
pub scard-Meets :
    (times : Times) (db : Db) (key : Bytes)
    → IsValid db.store
    → Meets times db key (scard times db (key ∷ [])) scard_spec
unfolding scard read_typed view
scard-Meets times db key valid =
    scard-Leaves db key (expire_if_due times.now key db.store)
      (find key (expire_if_due times.now key db.store).values) refl
      (λ v e. ((expire_if_due-IsValid times.now key db.store valid).stored key v e).0)

smembers-Leaves :
    (db : Db) (key : Bytes) (live : Store) (o : Option Value)
    → find key live.values ≡ o
    → ((v : Value) → o ≡ some v → is_empty v ≡ false)
    → Leaves key (smembers_reply (typed set_kind o), record db { store = live }) (smembers_spec o)
smembers-Leaves db key live none e whole = (refl, e)
smembers-Leaves db key live (some (set_value x)) e whole =
    (refl, live_set_value x _ e (whole _ refl))
smembers-Leaves db key live (some v) e whole = (refl, e)

-- SMEMBERS on a valid store replies the members of the live set, none for a missing key, or the
-- wrong-type error, and leaves the live value.
pub smembers-Meets :
    (times : Times) (db : Db) (key : Bytes)
    → IsValid db.store
    → Meets times db key (smembers times db (key ∷ [])) smembers_spec
unfolding smembers read_typed view
smembers-Meets times db key valid =
    smembers-Leaves db key (expire_if_due times.now key db.store)
      (find key (expire_if_due times.now key db.store).values) refl
      (λ v e. ((expire_if_due-IsValid times.now key db.store valid).stored key v e).0)

srem_found-Leaves :
    (db : Db) (key item : Bytes) (live : Store) (s : List Bytes)
    → find key live.values ≡ some (set_value s)
    → is_empty (set_value s) ≡ false
    → Leaves key (srem_from db key item live (found s)) (srem_spec item (some (set_value s)))
unfolding srem_from
srem_found-Leaves db key item live s e whole = elim (Bool-cases (member item s)) [
  | inl there ↦
      rw there (
        refl,
        find-drop_if_empty key (set_value (remove item s)) live ∙ kept-of_set (remove item s),
      )
  | inr absent ↦
      rw absent
        (refl, live_set_value s _ e whole ∙ ap of_set (sym (remove_not_member item s absent)))
]

srem_from-Leaves :
    (db : Db) (key item : Bytes) (live : Store) (o : Option Value)
    → find key live.values ≡ o
    → ((v : Value) → o ≡ some v → is_empty v ≡ false)
    → Leaves key (srem_from db key item live (typed set_kind o)) (srem_spec item o)
srem_from-Leaves db key item live none e whole = unfold srem_from member remove in (refl, e)
srem_from-Leaves db key item live (some (set_value s)) e whole =
    srem_found-Leaves db key item live s e (whole _ refl)
srem_from-Leaves db key item live (some v) e whole = unfold srem_from in (refl, e)

-- SREM on a valid store removes the member from the live set and replies 1, or 0 where there is
-- none; a key whose last member was removed is missing, and another type gives the wrong-type
-- error and keeps the value.
pub srem-Meets :
    (times : Times) (db : Db) (key item : Bytes)
    → IsValid db.store
    → Meets times db key (srem times db (key ∷ item ∷ [])) (srem_spec item)
unfolding srem read_typed view
srem-Meets times db key item valid =
    srem_from-Leaves db key item (expire_if_due times.now key db.store)
      (find key (expire_if_due times.now key db.store).values) refl
      (λ v e. ((expire_if_due-IsValid times.now key db.store valid).stored key v e).0)
