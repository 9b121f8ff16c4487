-- ===== src/Commands/Execute/Kinds.antt =====
-- The type of the value under a key, over the commands of `execute_command` in src/commands.cpp.
use redis_lite_cpp.Common.{
  ◌++◌, [], ◌∷◌, List, Option, none, some, ◌≡◌, ◌≢◌, refl, sym, subst, map, true, false,
}
use redis_lite_cpp.Text.{Bytes, codes}
use redis_lite_cpp.Dict.{Dict, find, put, erase, insert, remove}
use redis_lite_cpp.Store.{Value, string_value, list_value, hash_value, set_value}
use redis_lite_cpp.Store.View.{view}
use redis_lite_cpp.Store.Valid.{IsValid}
use redis_lite_cpp.Resp.Value.{to_elements, make_bulk_string, make_array}
use redis_lite_cpp.Commands.Base.{Db, Times, to_upper}
use mathlib.Core.List.{reverse}
use redis_lite_cpp.Commands.Spec.{
  get_spec, hdel_spec, hexists_spec, hget_spec, hlen_spec, hset_spec, llen_spec, lpop_spec,
  lrange_spec, push_spec, rpop_spec, sadd_spec, scard_spec, sismember_spec, smembers_spec,
  srem_spec, Spec, of_list, of_hash, of_set, first_of_list, last_of_reverse,
}
use redis_lite_cpp.Commands.Execute.{execute_command}
use redis_lite_cpp.Commands.Execute.Meets.{
  Describes, on_del, on_set_string, on_get, on_lpush, on_rpush, on_lpop, on_rpop, on_llen,
  on_lrange, on_hset, on_hget, on_hdel, on_hexists, on_hlen, on_sadd, on_srem, on_sismember,
  on_scard, on_smembers, execute-Meets,
}

-- Where both are values, they are of one type.
abbrev pub SameKind : Option Value → Option Value → Type 0
SameKind none after = Unit
SameKind (some value) none = Unit
SameKind (some (string_value s)) (some (string_value s')) = Unit
SameKind (some (list_value xs)) (some (list_value xs')) = Unit
SameKind (some (hash_value h)) (some (hash_value h')) = Unit
SameKind (some (set_value xs)) (some (set_value xs')) = Unit
SameKind (some value) (some after) = ⊥

same : (o : Option Value) → SameKind o o
same none = tt
same (some (string_value s)) = tt
same (some (list_value xs)) = tt
same (some (hash_value h)) = tt
same (some (set_value xs)) = tt

gone : (o : Option Value) → SameKind o none
gone none = tt
gone (some value) = tt

as_list : (xs ys : List Bytes) → SameKind (some (list_value xs)) (of_list ys)
as_list xs [] = tt
as_list xs (y ∷ ys) = tt

as_hash : (h k : Dict Bytes) → SameKind (some (hash_value h)) (of_hash k)
as_hash h [] = tt
as_hash h (e ∷ k) = tt

as_set : (xs ys : List Bytes) → SameKind (some (set_value xs)) (of_set ys)
as_set xs [] = tt
as_set xs (y ∷ ys) = tt

by_kind :
    (spec : Spec)
    → ((s : Bytes) → SameKind (some (string_value s)) (spec (some (string_value s))).1)
    → ((xs : List Bytes) → SameKind (some (list_value xs)) (spec (some (list_value xs))).1)
    → ((h : Dict Bytes) → SameKind (some (hash_value h)) (spec (some (hash_value h))).1)
    → ((xs : List Bytes) → SameKind (some (set_value xs)) (spec (some (set_value xs))).1)
    → (o : Option Value) → SameKind o (spec o).1
by_kind spec a b c d none = tt
by_kind spec a b c d (some (string_value s)) = a s
by_kind spec a b c d (some (list_value xs)) = b xs
by_kind spec a b c d (some (hash_value h)) = c h
by_kind spec a b c d (some (set_value xs)) = d xs

first-SameKind : (xs : List Bytes) → SameKind (some (list_value xs)) (first_of_list xs).1
first-SameKind [] = tt
first-SameKind (x ∷ xs) = as_list (x ∷ xs) xs

last-SameKind : (xs ys : List Bytes) → SameKind (some (list_value xs)) (last_of_reverse ys).1
last-SameKind xs [] = tt
last-SameKind xs (y ∷ ys) = as_list xs _

spec-SameKind :
    {name key : Bytes} {arguments : List Bytes} {spec : Spec}
    → Describes name arguments key spec
    → name ≢ codes "SET"
    → (o : Option Value) → SameKind o (spec o).1
spec-SameKind (on_del key) other = gone
spec-SameKind (on_set_string key value) other = absurd (other refl)
spec-SameKind (on_get key) other = by_kind get_spec (λ s. tt) (λ xs. tt) (λ h. tt) (λ xs. tt)
spec-SameKind (on_lpush key item) other =
    by_kind (push_spec true item) (λ s. tt) (λ xs. as_list xs (item ∷ xs)) (λ h. tt) (λ xs. tt)
spec-SameKind (on_rpush key item) other =
    by_kind (push_spec false item) (λ s. tt) (λ xs. as_list xs (xs ++ item ∷ [])) (λ h. tt)
      (λ xs. tt)
spec-SameKind (on_lpop key) other =
    by_kind lpop_spec (λ s. tt) (λ xs. first-SameKind xs) (λ h. tt) (λ xs. tt)
spec-SameKind (on_rpop key) other =
    by_kind rpop_spec (λ s. tt) (λ xs. last-SameKind xs (reverse xs)) (λ h. tt) (λ xs. tt)
spec-SameKind (on_llen key) other =
    by_kind llen_spec (λ s. tt) (λ xs. as_list xs xs) (λ h. tt) (λ xs. tt)
spec-SameKind (on_lrange key start_text stop_text start stop from to) other =
    by_kind (lrange_spec start stop) (λ s. tt) (λ xs. as_list xs xs) (λ h. tt) (λ xs. tt)
spec-SameKind (on_hset key field value) other =
    by_kind (hset_spec field value) (λ s. tt) (λ xs. tt) (λ h. as_hash h (put field value h))
      (λ xs. tt)
spec-SameKind (on_hget key field) other =
    by_kind (hget_spec field) (λ s. tt) (λ xs. tt) (λ h. as_hash h h) (λ xs. tt)
spec-SameKind (on_hdel key field) other =
    by_kind (hdel_spec field) (λ s. tt) (λ xs. tt) (λ h. as_hash h (erase field h)) (λ xs. tt)
spec-SameKind (on_hexists key field) other =
    by_kind (hexists_spec field) (λ s. tt) (λ xs. tt) (λ h. as_hash h h) (λ xs. tt)
spec-SameKind (on_hlen key) other =
    by_kind hlen_spec (λ s. tt) (λ xs. tt) (λ h. as_hash h h) (λ xs. tt)
spec-SameKind (on_sadd key item) other =
    by_kind (sadd_spec item) (λ s. tt) (λ xs. tt) (λ h. tt) (λ xs. as_set xs (insert item xs))
spec-SameKind (on_srem key item) other =
    by_kind (srem_spec item) (λ s. tt) (λ xs. tt) (λ h. tt) (λ xs. as_set xs (remove item xs))
spec-SameKind (on_sismember key item) other =
    by_kind (sismember_spec item) (λ s. tt) (λ xs. tt) (λ h. tt) (λ xs. as_set xs xs)
spec-SameKind (on_scard key) other =
    by_kind scard_spec (λ s. tt) (λ xs. tt) (λ h. tt) (λ xs. as_set xs xs)
spec-SameKind (on_smembers key) other =
    by_kind smembers_spec (λ s. tt) (λ xs. tt) (λ h. tt) (λ xs. as_set xs xs)

-- A key keeps its type: a command on it other than SET, whose name, in either case, and arguments are
-- those of an abstract command, on a valid store, leaves no value under the key or one of the type
-- that the key's value has at the first reading of the clock, if it has one then.
pub execute-SameKind :
    {name key : Bytes} {arguments : List Bytes} {spec : Spec} (times : Times) (db : Db)
    (word : Bytes)
    → IsValid db.store
    → to_upper word ≡ name
    → Describes name arguments key spec
    → name ≢ codes "SET"
    → SameKind (view times.now key db.store) (
        find key
          (execute_command times db
            (make_array (to_elements (map make_bulk_string (word ∷ arguments))))).1.store.values)
execute-SameKind {key} times db word valid e described other =
    subst (SameKind (view times.now key db.store))
      (sym (execute-Meets times db word valid e described).1)
      (spec-SameKind described other (view times.now key db.store))
