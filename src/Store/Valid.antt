-- ===== src/Store/Valid.antt =====
-- The invariant of the store of src/commands.hpp, and the helpers of src/commands.cpp that keep it.
use redis_lite_cpp.Common.{
  ℕ, Bool, true, false, none, some, ◌≡◌, refl, subst, inl, inr, arith, if◌then◌else◌, Bool-cases,
  leb, ◌⊎◌, ap,
}
use redis_lite_cpp.Text.{Bytes, bytes_eq, bytes_eq_refl}
use redis_lite_cpp.Dict.{find, put, erase, has_key}
use redis_lite_cpp.Dict.Laws.{find-put, find-erase, erase-put, IsDistinct}
use redis_lite_cpp.Dict.Members.{IsSetOf}
use redis_lite_cpp.Store.{
  Value, hash_value, set_value, Store, empty_store, expire_if_due, remove_key, store_value,
  is_empty, drop_if_empty,
}

-- The keys of a hash and the members of a set are distinct.
abbrev pub IsShaped : Value → Type 0
IsShaped (hash_value h) = IsDistinct h
IsShaped (set_value s) = IsSetOf s
IsShaped _ = Unit

-- A stored list, hash or set is not empty.
abbrev pub IsStored : Value → Type 0
IsStored v = (is_empty v ≡ false) × IsShaped v

-- Only keys that hold a value expire, and what is stored is whole.
pub record IsValid (s : Store) : Type 0 where
  pub held : (k : Bytes) (t : ℕ) → find k s.expirations ≡ some t → has_key k s.values ≡ true
  pub stored : (k : Bytes) (v : Value) → find k s.values ≡ some v → IsStored v

pub empty_store-IsValid : IsValid empty_store
unfolding find
empty_store-IsValid = record { held = λ k t h. cc; stored = λ k v h. cc }

pub remove_key-IsValid : (key : Bytes) (s : Store) → IsValid s → IsValid (remove_key key s)
unfolding remove_key
remove_key-IsValid key s valid = record {
  held = λ k t h.
      ground (arith, find-erase key k s.expirations, find-erase key k s.values, valid.held k t);
  stored = λ k v h. valid.stored k v (ground (arith, find-erase key k s.values));
}

-- The deadline of the key has passed.
unfoldable pub is_due : ℕ → Bytes → Store → Bool
is_due now key s = elim (find key s.expirations) [ none ↦ false | some t ↦ leb t now ]

pub expire_if_due_lem :
    (now : ℕ) (key : Bytes) (s : Store)
    → expire_if_due now key s ≡ (if is_due now key s then remove_key key s else s)
unfolding expire_if_due is_due
expire_if_due_lem now key s = ground arith

if-IsValid : (b : Bool) (s u : Store) → IsValid s → IsValid u → IsValid (if b then s else u)
if-IsValid true s u hs hu = hs
if-IsValid false s u hs hu = hu

pub expire_if_due-IsValid :
    (now : ℕ) (key : Bytes) (s : Store) → IsValid s → IsValid (expire_if_due now key s)
expire_if_due-IsValid now key s valid =
    rw (expire_if_due_lem now key s)
      (if-IsValid (is_due now key s) _ _ (remove_key-IsValid key s valid) valid)

pub store_value-IsValid :
    (key : Bytes) (v : Value) (s : Store) → IsStored v → IsValid s → IsValid (store_value key v s)
unfolding store_value
store_value-IsValid key v s whole valid = record {
  held = λ k t h. ground (arith, find-put key k v s.values, valid.held k t);
  stored = λ k w h. at k w h (Bool-cases (bytes_eq key k));
}
  where
    at :
        (k : Bytes) (w : Value)
        → find k (put key v s.values) ≡ some w
        → (bytes_eq key k ≡ true) ⊎ (bytes_eq key k ≡ false)
        → IsStored w
    at k w h (inl same) = subst IsStored (ground (arith, find-put key k v s.values)) whole
    at k w h (inr other) = valid.stored k w (ground (arith, find-put key k v s.values))

pub remove_key-store_value :
    (key : Bytes) (v : Value) (s : Store) → remove_key key (store_value key v s) ≡ remove_key key s
unfolding remove_key store_value
remove_key-store_value key v s =
    ap {B = Store} (λ d. record { values = d; expirations = erase key s.expirations })
      (erase-put key v s.values)

pub find-store_value :
    (key : Bytes) (v : Value) (s : Store) → find key (store_value key v s).values ≡ some v
unfolding store_value
find-store_value key v s = ground (arith, find-put key key v s.values, bytes_eq_refl key)

drop_if_empty-some :
    (key : Bytes) (s : Store) {v : Value}
    → find key s.values ≡ some v
    → drop_if_empty key s ≡ (if is_empty v then remove_key key s else s)
unfolding drop_if_empty
drop_if_empty-some key s h = rw (h, drop_if_empty)

-- A value that is left empty by a write goes with its key and its deadline.
pub drop_if_empty-store_value :
    (key : Bytes) (v : Value) (s : Store)
    → drop_if_empty key (store_value key v s)
      ≡ (if is_empty v then remove_key key s else store_value key v s)
drop_if_empty-store_value key v s = rw (
  drop_if_empty-some key (store_value key v s) (find-store_value key v s),
  remove_key-store_value key v s,
)

pub drop_if_empty-IsValid :
    (key : Bytes) (v : Value) (s : Store)
    → IsShaped v
    → IsValid s
    → IsValid (drop_if_empty key (store_value key v s))
drop_if_empty-IsValid key v s shaped valid =
    rw (drop_if_empty-store_value key v s) (at (is_empty v) refl)
  where
    at : (b : Bool) → is_empty v ≡ b → IsValid (if b then remove_key key s else store_value key v s)
    at true e = remove_key-IsValid key s valid
    at false e = store_value-IsValid key v s (e, shaped) valid
