-- ===== src/Commands/Hashes/Meets.antt =====
-- The hash commands of src/commands.cpp against their specifications.
use redis_lite_cpp.Common.{
  [], ◌∷◌, Bool, true, false, not, Bool-cases, Option, none, some, ◌≡◌, refl, ap, sym, ◌∙◌, arith,
  inl, inr, pos, if◌then◌else◌,
}
use redis_lite_cpp.Text.{Bytes}
use redis_lite_cpp.Dict.{Dict, find, put, erase, has_key}
use redis_lite_cpp.Dict.Laws.{erase-none, none_of_has_key}
use redis_lite_cpp.Store.{
  Value, hash_value, Store, hash_kind, typed, read_typed, emplaced, write_typed, is_empty,
  expire_if_due, found,
}
use redis_lite_cpp.Store.Valid.{IsValid, find-store_value, expire_if_due-IsValid}
use redis_lite_cpp.Store.View.{view, kept, find-drop_if_empty}
use redis_lite_cpp.Resp.Value.{make_integer}
use redis_lite_cpp.Commands.Base.{Db, Times, flag}
use redis_lite_cpp.Commands.Spec.{
  Leaves, Meets, of_hash, bulk_or_null, hset_spec, hget_spec, hdel_spec, hexists_spec, hlen_spec,
}
use redis_lite_cpp.Commands.Hashes.{
  hset_into, hset, field_reply, hget_reply, hget, hdel_from, hdel, hexists_reply, hexists,
  hlen_reply, hlen,
}

live_hash_value :
    (h : Dict Bytes) (o : Option Value)
    → o ≡ some (hash_value h)
    → is_empty (hash_value h) ≡ false
    → o ≡ of_hash h
live_hash_value [] o e whole = cc
live_hash_value (x ∷ xs) o e whole = e

kept-of_hash : (h : Dict Bytes) → kept (hash_value h) ≡ of_hash h
kept-of_hash [] = refl
kept-of_hash (x ∷ xs) = refl

put-of_hash :
    (field value : Bytes) (h : Dict Bytes)
    → some (hash_value (put field value h)) ≡ of_hash (put field value h)
unfolding put
put-of_hash field value [] = refl
put-of_hash field value ((j, w) ∷ h) = ground arith

hset_reply_eq : (b : Bool) → make_integer (flag (not b)) ≡ make_integer (if b then pos 0 else pos 1)
hset_reply_eq true = refl
hset_reply_eq false = refl

flag_eq : (b : Bool) → make_integer (flag b) ≡ make_integer (if b then pos 1 else pos 0)
flag_eq true = refl
flag_eq false = refl

hset_into-Leaves :
    (db : Db) (key field value : Bytes) (live : Store) (o : Option Value)
    → find key live.values ≡ o
    → Leaves key
        (hset_into db key field value
          (emplaced hash_kind key live o).0
          (emplaced hash_kind key live o).1)
        (hset_spec field value o)
unfolding hset_into
hset_into-Leaves db key field value live none e =
    (hset_reply_eq (has_key field []), find-store_value key _ _ ∙ put-of_hash field value [])
hset_into-Leaves db key field value live (some (hash_value h)) e =
    (hset_reply_eq (has_key field h), find-store_value key _ live ∙ put-of_hash field value h)
hset_into-Leaves db key field value live (some v) e = (refl, e)

-- HSET writes the field of the live hash, a missing key as an empty hash, and replies 1 for a
-- new field and 0 for one that was there; another type gives the wrong-type error and keeps the
-- value.
pub hset-Meets :
    (times : Times) (db : Db) (key field value : Bytes)
    → Meets times db key (hset times db (key ∷ field ∷ value ∷ [])) (hset_spec field value)
unfolding hset write_typed view
hset-Meets times db key field value =
    hset_into-Leaves db key field value (expire_if_due times.now key db.store)
      (find key (expire_if_due times.now key db.store).values) refl

field_reply_eq : (o : Option Bytes) → field_reply o ≡ bulk_or_null o
field_reply_eq none = refl
field_reply_eq (some s) = refl

hget-Leaves :
    (db : Db) (key field : Bytes) (live : Store) (o : Option Value)
    → find key live.values ≡ o
    → ((v : Value) → o ≡ some v → is_empty v ≡ false)
    → Leaves key
        (hget_reply field (typed hash_kind o), record db { store = live })
        (hget_spec field o)
unfolding find
hget-Leaves db key field live none e whole = (refl, e)
hget-Leaves db key field live (some (hash_value x)) e whole =
    (field_reply_eq (find field x), live_hash_value x _ e (whole _ refl))
hget-Leaves db key field live (some v) e whole = (refl, e)

-- HGET on a valid store replies the field's value in the live hash, null for a missing field or
-- key, or the wrong-type error, and leaves the live value.
pub hget-Meets :
    (times : Times) (db : Db) (key field : Bytes)
    → IsValid db.store
    → Meets times db key (hget times db (key ∷ field ∷ [])) (hget_spec field)
unfolding hget read_typed view
hget-Meets times db key field valid =
    hget-Leaves db key field (expire_if_due times.now key db.store)
      (find key (expire_if_due times.now key db.store).values) refl
      (λ v e. ((expire_if_due-IsValid times.now key db.store valid).stored key v e).0)

hexists-Leaves :
    (db : Db) (key field : Bytes) (live : Store) (o : Option Value)
    → find key live.values ≡ o
    → ((v : Value) → o ≡ some v → is_empty v ≡ false)
    → Leaves key
        (hexists_reply field (typed hash_kind o), record db { store = live })
        (hexists_spec field o)
unfolding find
hexists-Leaves db key field live none e whole = (refl, e)
hexists-Leaves db key field live (some (hash_value x)) e whole =
    (flag_eq (has_key field x), live_hash_value x _ e (whole _ refl))
hexists-Leaves db key field live (some v) e whole = (refl, e)

-- HEXISTS on a valid store replies 1 for a field of the live hash and 0 otherwise, or the
-- wrong-type error, and leaves the live value.
pub hexists-Meets :
    (times : Times) (db : Db) (key field : Bytes)
    → IsValid db.store
    → Meets times db key (hexists times db (key ∷ field ∷ [])) (hexists_spec field)
unfolding hexists read_typed view
hexists-Meets times db key field valid =
    hexists-Leaves db key field (expire_if_due times.now key db.store)
      (find key (expire_if_due times.now key db.store).values) refl
      (λ v e. ((expire_if_due-IsValid times.now key db.store valid).stored key v e).0)

hlen-Leaves :
    (db : Db) (key : Bytes) (live : Store) (o : Option Value)
    → find key live.values ≡ o
    → ((v : Value) → o ≡ some v → is_empty v ≡ false)
    → Leaves key (hlen_reply (typed hash_kind o), record db { store = live }) (hlen_spec o)
hlen-Leaves db key live none e whole = (refl, e)
hlen-Leaves db key live (some (hash_value x)) e whole = (refl, live_hash_value x _ e (whole _ refl))
hlen-Leaves db key live (some v) e whole = (refl, e)

-- HLEN on a valid store replies the number of fields of the live hash, 0 for a missing key, or
-- the wrong-type error, and leaves the live value.
pub hlen-Meets :
    (times : Times) (db : Db) (key : Bytes)
    → IsValid db.store
    → Meets times db key (hlen times db (key ∷ [])) hlen_spec
unfolding hlen read_typed view
hlen-Meets times db key valid =
    hlen-Leaves db key (expire_if_due times.now key db.store)
      (find key (expire_if_due times.now key db.store).values) refl
      (λ v e. ((expire_if_due-IsValid times.now key db.store valid).stored key v e).0)

hdel_found-Leaves :
    (db : Db) (key field : Bytes) (live : Store) (h : Dict Bytes)
    → find key live.values ≡ some (hash_value h)
    → is_empty (hash_value h) ≡ false
    → Leaves key (hdel_from db key field live (found h)) (hdel_spec field (some (hash_value h)))
unfolding hdel_from
hdel_found-Leaves db key field live h e whole = elim (Bool-cases (has_key field h)) [
  | inl there ↦ rw there (
    refl,
    find-drop_if_empty key (hash_value (erase field h)) live ∙ kept-of_hash (erase field h),
  )
  | inr absent ↦ rw absent (
    refl,
    live_hash_value h _ e whole
        ∙ ap of_hash (sym (erase-none field h (none_of_has_key field h absent))),
  )
]

hdel_from-Leaves :
    (db : Db) (key field : Bytes) (live : Store) (o : Option Value)
    → find key live.values ≡ o
    → ((v : Value) → o ≡ some v → is_empty v ≡ false)
    → Leaves key (hdel_from db key field live (typed hash_kind o)) (hdel_spec field o)
hdel_from-Leaves db key field live none e whole = unfold hdel_from find erase in (refl, e)
hdel_from-Leaves db key field live (some (hash_value h)) e whole =
    hdel_found-Leaves db key field live h e (whole _ refl)
hdel_from-Leaves db key field live (some v) e whole = unfold hdel_from in (refl, e)

-- HDEL on a valid store erases the field from the live hash and replies 1, or 0 where there is
-- none; a key whose last field was erased is missing, and another type gives the wrong-type
-- error and keeps the value.
pub hdel-Meets :
    (times : Times) (db : Db) (key field : Bytes)
    → IsValid db.store
    → Meets times db key (hdel times db (key ∷ field ∷ [])) (hdel_spec field)
unfolding hdel read_typed view
hdel-Meets times db key field valid =
    hdel_from-Leaves db key field (expire_if_due times.now key db.store)
      (find key (expire_if_due times.now key db.store).values) refl
      (λ v e. ((expire_if_due-IsValid times.now key db.store valid).stored key v e).0)
