-- ===== src/Commands/Lists/Meets.antt =====
-- The list commands of src/commands.cpp against their specifications.
use redis_lite_cpp.Common.{
  ℕ, zero, suc, [], ◌∷◌, ◌++◌, List, map, Bool, true, false, Option, none, some, ◌≡◌, refl, ap, sym,
  ◌∙◌, arith, ℤ, pos, length, length-append, take, drop, ◌-◌, if◌then◌else◌,
}
use mathlib.Core.Bool.{false≢true}
use mathlib.Core.List.{reverse, reverse-cons, reverse-reverse}
use redis_lite_cpp.Text.{Bytes, codes, bytes_eq, bytes_eq_refl}
use redis_lite_cpp.Decimal.{to_integer}
use redis_lite_cpp.Dict.{find}
use redis_lite_cpp.Store.{
  Value, list_value, Store, list_kind, typed, read_typed, emplaced, write_typed, is_empty,
  expire_if_due,
}
use redis_lite_cpp.Store.Valid.{IsValid, find-store_value, expire_if_due-IsValid}
use redis_lite_cpp.Store.View.{view, kept, find-drop_if_empty}
use redis_lite_cpp.Resp.Value.{make_integer, make_bulk_string, make_array, to_elements}
use redis_lite_cpp.Commands.Base.{Db, Times}
use redis_lite_cpp.Commands.Spec.{
  Leaves, Meets, of_list, push_spec, lpop_spec, rpop_spec, llen_spec, lrange_spec, slice, lower,
  upper,
}
use redis_lite_cpp.Commands.Lists.{
  push_into, pushed, push, pop_back, pop_from, pop, llen_reply, llen, range_reply, lrange_reply,
  range_from, lrange,
}
use redis_lite_cpp.Commands.Lists.Range.{range_of-slice}

of_list-append :
    (xs : List Bytes) (x : Bytes) → some (list_value (xs ++ x ∷ [])) ≡ of_list (xs ++ x ∷ [])
of_list-append [] x = refl
of_list-append (y ∷ xs) x = refl

length_snoc : (xs : List Bytes) (x : Bytes) → length (xs ++ x ∷ []) ≡ suc (length xs)
length_snoc xs x = omega (arith, length-append xs (x ∷ []))

pushed_lem :
    (left : Bool) (item : Bytes) (xs : List Bytes)
    → (length (pushed left item xs) ≡ suc (length xs))
      × (some (list_value (pushed left item xs))
          ≡ of_list (if left then item ∷ xs else xs ++ item ∷ []))
pushed_lem true item xs = (refl, refl)
pushed_lem false item xs = (length_snoc xs item, of_list-append xs item)

-- A push into what `write_typed` gives, for the value `o` that is live under the key.
push_into-Leaves :
    (name : Bytes) (db : Db) (key item : Bytes) (live : Store) (o : Option Value)
    → find key live.values ≡ o
    → Leaves key
        (push_into name db key item
          (emplaced list_kind key live o).0
          (emplaced list_kind key live o).1)
        (push_spec (bytes_eq name (codes "LPUSH")) item o)
unfolding push_into
push_into-Leaves name db key item live none e =
    let same = pushed_lem (bytes_eq name (codes "LPUSH")) item [] in
    (ap (λ n. make_integer (pos n)) same.0, find-store_value key _ _ ∙ same.1)
push_into-Leaves name db key item live (some (list_value xs)) e =
    let same = pushed_lem (bytes_eq name (codes "LPUSH")) item xs in
    (ap (λ n. make_integer (pos n)) same.0, find-store_value key _ live ∙ same.1)
push_into-Leaves name db key item live (some v) e = (refl, e)

-- LPUSH and RPUSH with a key and an item reply and leave what the abstract push does on the
-- value that is live at the clock reading: the new length, with the item in front for LPUSH and
-- behind for RPUSH, a missing key as an empty list, and the wrong-type error with the value
-- kept where it is not a list.
pub push-Meets :
    (name : Bytes) (times : Times) (db : Db) (key item : Bytes)
    → Meets times db key
        (push name times db (key ∷ item ∷ []))
        (push_spec (bytes_eq name (codes "LPUSH")) item)
unfolding push write_typed view
push-Meets name times db key item =
    push_into-Leaves name db key item _ (find key (expire_if_due times.now key db.store).values)
      refl

kept-of_list : (xs : List Bytes) → kept (list_value xs) ≡ of_list xs
kept-of_list [] = refl
kept-of_list (x ∷ xs) = refl

pop_from-Leaves :
    (name : Bytes) (db : Db) (key : Bytes) (live : Store) (o : Option Value)
    → find key live.values ≡ o
    → ((v : Value) → o ≡ some v → is_empty v ≡ false)
    → bytes_eq name (codes "LPOP") ≡ true
    → Leaves key (pop_from name db key live (typed list_kind o)) (lpop_spec o)
unfolding pop_from
pop_from-Leaves name db key live none e whole left = (refl, e)
pop_from-Leaves name db key live (some (list_value [])) e whole left =
    absurd (false≢true (sym (whole _ refl)))
pop_from-Leaves name db key live (some (list_value (x ∷ xs))) e whole left =
    rw left (refl, find-drop_if_empty key (list_value xs) live ∙ kept-of_list xs)
pop_from-Leaves name db key live (some v) e whole left = (refl, e)

-- LPOP on a valid store replies the first item of the live list and leaves the others, a key
-- whose last item was taken is missing, a missing key gives the null reply, and another type
-- gives the wrong-type error and keeps the value.
pub lpop-Meets :
    (times : Times) (db : Db) (key : Bytes)
    → IsValid db.store
    → Meets times db key (pop (codes "LPOP") times db (key ∷ [])) lpop_spec
unfolding pop read_typed view
lpop-Meets times db key valid =
    pop_from-Leaves (codes "LPOP") db key _ (find key (expire_if_due times.now key db.store).values)
      refl (λ v e. ((expire_if_due-IsValid times.now key db.store valid).stored key v e).0)
      (bytes_eq_refl (codes "LPOP"))

reverse-pop_back :
    (x : Bytes) (xs : List Bytes) → reverse (x ∷ xs) ≡ (pop_back x xs).0 ∷ reverse (pop_back x xs).1
unfolding pop_back
reverse-pop_back x [] = refl
reverse-pop_back x (y ∷ xs) =
    let (item, rest) = pop_back y xs in
    reverse-cons x (y ∷ xs)
    ∙ ap (λ l. l ++ x ∷ []) (reverse-pop_back y xs)
    ∙ ap (λ l. item ∷ l) (sym (reverse-cons x rest))

rpop_from-Leaves :
    (name : Bytes) (db : Db) (key : Bytes) (live : Store) (o : Option Value)
    → find key live.values ≡ o
    → ((v : Value) → o ≡ some v → is_empty v ≡ false)
    → bytes_eq name (codes "LPOP") ≡ false
    → Leaves key (pop_from name db key live (typed list_kind o)) (rpop_spec o)
unfolding pop_from
rpop_from-Leaves name db key live none e whole left = (refl, e)
rpop_from-Leaves name db key live (some (list_value [])) e whole left =
    absurd (false≢true (sym (whole _ refl)))
rpop_from-Leaves name db key live (some (list_value (x ∷ xs))) e whole left =
    let (item, rest) = pop_back x xs in
    rw (left, reverse-pop_back x xs, reverse-reverse)
      (refl, find-drop_if_empty key (list_value rest) live ∙ kept-of_list rest)
rpop_from-Leaves name db key live (some v) e whole left = (refl, e)

-- RPOP on a valid store replies the first item of the reversed live list and leaves the others,
-- reversed back, a key whose last item was taken is missing, a missing key gives the null
-- reply, and another type gives the wrong-type error and keeps the value.
pub rpop-Meets :
    (times : Times) (db : Db) (key : Bytes)
    → IsValid db.store
    → Meets times db key (pop (codes "RPOP") times db (key ∷ [])) rpop_spec
unfolding pop read_typed view bytes_eq
rpop-Meets times db key valid =
    rpop_from-Leaves (codes "RPOP") db key _
      (find key (expire_if_due times.now key db.store).values) refl
      (λ v e. ((expire_if_due-IsValid times.now key db.store valid).stored key v e).0) refl

live_list :
    (xs : List Bytes) (o : Option Value)
    → o ≡ some (list_value xs)
    → is_empty (list_value xs) ≡ false
    → o ≡ of_list xs
live_list [] o e whole = cc
live_list (x ∷ xs) o e whole = e

llen-Leaves :
    (db : Db) (key : Bytes) (live : Store) (o : Option Value)
    → find key live.values ≡ o
    → ((v : Value) → o ≡ some v → is_empty v ≡ false)
    → Leaves key (llen_reply (typed list_kind o), record db { store = live }) (llen_spec o)
llen-Leaves db key live none e whole = (refl, e)
llen-Leaves db key live (some (list_value xs)) e whole = (refl, live_list xs _ e (whole _ refl))
llen-Leaves db key live (some v) e whole = (refl, e)

-- LLEN on a valid store replies the length of the live list, 0 for a missing key, or the wrong-
-- type error, and leaves the live value.
pub llen-Meets :
    (times : Times) (db : Db) (key : Bytes)
    → IsValid db.store
    → Meets times db key (llen times db (key ∷ [])) llen_spec
unfolding llen read_typed view
llen-Meets times db key valid =
    llen-Leaves db key (expire_if_due times.now key db.store)
      (find key (expire_if_due times.now key db.store).values) refl
      (λ v e. ((expire_if_due-IsValid times.now key db.store valid).stored key v e).0)

take-drop-nil : (n k : ℕ) → ◌≡◌ {A = List Bytes} (take n (drop k [])) []
take-drop-nil zero zero = refl
take-drop-nil zero (suc k) = refl
take-drop-nil (suc n) zero = refl
take-drop-nil (suc n) (suc k) = refl

slice-nil : (start stop : ℤ) → slice [] start stop ≡ []
slice-nil start stop = take-drop-nil (upper 0 stop - lower 0 start) (lower 0 start)

lrange-Leaves :
    (db : Db) (key : Bytes) (live : Store) (start stop : ℤ) (o : Option Value)
    → find key live.values ≡ o
    → ((v : Value) → o ≡ some v → is_empty v ≡ false)
    → Leaves key
        (lrange_reply start stop (typed list_kind o), record db { store = live })
        (lrange_spec start stop o)
lrange-Leaves db key live start stop none e whole =
    (ap (λ l. make_array (to_elements (map make_bulk_string l))) (sym (slice-nil start stop)), e)
lrange-Leaves db key live start stop (some (list_value xs)) e whole =
    (ap range_reply (range_of-slice xs start stop), live_list xs _ e (whole _ refl))
lrange-Leaves db key live start stop (some v) e whole = (refl, e)

-- LRANGE on a valid store, with a start and a stop that read as integers, replies the slice of
-- the live list between them, where a negative index counts from the end and both are cut to
-- the list, or the wrong-type error, and leaves the live value.
pub lrange-Meets :
    (times : Times) (db : Db) (key start_text stop_text : Bytes) (start stop : ℤ)
    → IsValid db.store
    → to_integer start_text ≡ some start
    → to_integer stop_text ≡ some stop
    → Meets times db key
        (lrange times db (key ∷ start_text ∷ stop_text ∷ []))
        (lrange_spec start stop)
unfolding lrange range_from read_typed view
lrange-Meets times db key start_text stop_text start stop valid h k =
    rw (h, k)
      (lrange-Leaves db key (expire_if_due times.now key db.store) start stop
        (find key (expire_if_due times.now key db.store).values) refl
        (λ v e. ((expire_if_due-IsValid times.now key db.store valid).stored key v e).0))
