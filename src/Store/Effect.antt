-- ===== src/Store/Effect.antt =====
-- What a command of src/commands.cpp may do to the store: everything goes through one key.
use redis_lite_cpp.Common.{
  ℕ, Bool, true, false, ◌≡◌, refl, sym, subst, inl, inr, arith, if◌then◌else◌, ◌≢◌, ◌∙◌, Bool-cases,
}
use redis_lite_cpp.Text.{Bytes, bytes_eq, bytes_eq_iff}
use redis_lite_cpp.Dict.{find, erase, has_key}
use redis_lite_cpp.Dict.Laws.{find-put, find-erase}
use redis_lite_cpp.Store.{
  Value, string_value, Store, expire_if_due, remove_key, store_value, is_empty, drop_if_empty,
  set_deadline, replace_value,
}
use redis_lite_cpp.Store.Valid.{
  IsShaped, IsStored, IsValid, remove_key-IsValid, expire_if_due-IsValid, store_value-IsValid,
  drop_if_empty-IsValid, is_due, expire_if_due_lem, drop_if_empty-store_value,
}

-- `u` is what a command with the key `key` may make of `s`.
pub data Effect (key : Bytes) (s u : Store) : Type 0 where
  untouched : u ≡ s → Effect key s u
  expired : (now : ℕ) → u ≡ expire_if_due now key s → Effect key s u
  written :
      (now : ℕ) (v : Value)
      → (IsValid s → IsStored v)
      → u ≡ store_value key v (expire_if_due now key s)
      → Effect key s u
  reduced :
      (now : ℕ) (v : Value)
      → (IsValid s → IsShaped v)
      → u ≡ drop_if_empty key (store_value key v (expire_if_due now key s))
      → Effect key s u
  removed : (now : ℕ) → u ≡ remove_key key (expire_if_due now key s) → Effect key s u
  dated :
      (now t : ℕ)
      → has_key key (expire_if_due now key s).values ≡ true
      → u ≡ set_deadline key t (expire_if_due now key s)
      → Effect key s u
  replaced : (value : Bytes) → u ≡ replace_value key value s → Effect key s u

set_deadline-IsValid :
    (key : Bytes) (t : ℕ) (s : Store)
    → has_key key s.values ≡ true
    → IsValid s
    → IsValid (set_deadline key t s)
unfolding set_deadline
set_deadline-IsValid key t s held valid = record {
  held =
      λ k x h. ground (arith, find-put key k t s.expirations, valid.held k x, bytes_eq_iff key k);
  stored = valid.stored;
}

without_deadline : Bytes → Store → Store
without_deadline key s = record s { expirations = erase key s.expirations }

without_deadline-IsValid : (key : Bytes) (s : Store) → IsValid s → IsValid (without_deadline key s)
unfolding without_deadline
without_deadline-IsValid key s valid = record {
  held = λ k t h. valid.held k t (ground (arith, find-erase key k s.expirations));
  stored = valid.stored;
}

replace_value-IsValid :
    (key value : Bytes) (s : Store) → IsValid s → IsValid (replace_value key value s)
unfolding replace_value store_value without_deadline
replace_value-IsValid key value s valid =
    store_value-IsValid key (string_value value) (without_deadline key s) (refl, tt)
      (without_deadline-IsValid key s valid)

pub Effect-IsValid : {key : Bytes} {s u : Store} → Effect key s u → IsValid s → IsValid u
Effect-IsValid {s = s} (untouched e) valid = subst IsValid (sym e) valid
Effect-IsValid {key} {s} (expired now e) valid =
    subst IsValid (sym e) (expire_if_due-IsValid now key s valid)
Effect-IsValid {key} {s} (written now v whole e) valid =
    subst IsValid (sym e)
      (store_value-IsValid key v _ (whole valid) (expire_if_due-IsValid now key s valid))
Effect-IsValid {key} {s} (reduced now v shaped e) valid =
    subst IsValid (sym e)
      (drop_if_empty-IsValid key v _ (shaped valid) (expire_if_due-IsValid now key s valid))
Effect-IsValid {key} {s} (removed now e) valid =
    subst IsValid (sym e) (remove_key-IsValid key _ (expire_if_due-IsValid now key s valid))
Effect-IsValid {key} {s} (dated now t held e) valid =
    subst IsValid (sym e)
      (set_deadline-IsValid key t _ held (expire_if_due-IsValid now key s valid))
Effect-IsValid {key} {s} (replaced value e) valid =
    subst IsValid (sym e) (replace_value-IsValid key value s valid)

-- `s` and `u` agree at every key but `key`.
abbrev pub SameElsewhere : Bytes → Store → Store → Type 0
SameElsewhere key s u =
    (k : Bytes)
    → key ≢ k
    → (find k u.values ≡ find k s.values) × (find k u.expirations ≡ find k s.expirations)

SameElsewhere-trans :
    (key : Bytes) (s u w : Store)
    → SameElsewhere key s u
    → SameElsewhere key u w
    → SameElsewhere key s w
SameElsewhere-trans key s u w h h' k ne = ((h' k ne).0 ∙ (h k ne).0, (h' k ne).1 ∙ (h k ne).1)

ne→false : (key k : Bytes) → key ≢ k → bytes_eq key k ≡ false
ne→false key k ne = elim (Bool-cases (bytes_eq key k)) [
  | inl e ↦ absurd (ne ((bytes_eq_iff key k).0 e))
  | inr e ↦ e
]

module _ (key : Bytes) (s : Store) where
  remove_key-SameElsewhere : SameElsewhere key s (remove_key key s)
  unfolding remove_key
  remove_key-SameElsewhere k ne = (
    ground (arith, find-erase key k s.values, ne→false key k ne),
    ground (arith, find-erase key k s.expirations, ne→false key k ne),
  )

  store_value-SameElsewhere : (v : Value) → SameElsewhere key s (store_value key v s)
  unfolding store_value
  store_value-SameElsewhere v k ne =
      (ground (arith, find-put key k v s.values, ne→false key k ne), refl)

  set_deadline-SameElsewhere : (t : ℕ) → SameElsewhere key s (set_deadline key t s)
  unfolding set_deadline
  set_deadline-SameElsewhere t k ne =
      (refl, ground (arith, find-put key k t s.expirations, ne→false key k ne))

  replace_value-SameElsewhere : (value : Bytes) → SameElsewhere key s (replace_value key value s)
  unfolding replace_value
  replace_value-SameElsewhere value k ne = (
    ground (arith, find-put key k (string_value value) s.values, ne→false key k ne),
    ground (arith, find-erase key k s.expirations, ne→false key k ne),
  )

  if-SameElsewhere :
      (b : Bool) (u w : Store)
      → SameElsewhere key s u
      → SameElsewhere key s w
      → SameElsewhere key s (if b then u else w)
  if-SameElsewhere true u w hu hw = hu
  if-SameElsewhere false u w hu hw = hw

module _ (key : Bytes) (s : Store) where
  expire_if_due-SameElsewhere : (now : ℕ) → SameElsewhere key s (expire_if_due now key s)
  expire_if_due-SameElsewhere now = rw (expire_if_due_lem now key s) (
      if-SameElsewhere key s (is_due now key s) _ _ (remove_key-SameElsewhere key s)
        (λ k ne. (refl, refl)))

  drop_if_empty-SameElsewhere :
      (v : Value) → SameElsewhere key s (drop_if_empty key (store_value key v s))
  drop_if_empty-SameElsewhere v = rw (drop_if_empty-store_value key v s) (
      if-SameElsewhere key s (is_empty v) _ _ (remove_key-SameElsewhere key s)
        (store_value-SameElsewhere key s v))

  behind_expiry :
      (now : ℕ) {u w : Store}
      → u ≡ w
      → SameElsewhere key (expire_if_due now key s) w
      → SameElsewhere key s u
  behind_expiry now {u} {w} e h =
      rw e (SameElsewhere-trans key s _ w (expire_if_due-SameElsewhere now) h)

-- An effect through a key leaves the values and the deadlines of all other keys.
pub Effect-SameElsewhere : {key : Bytes} {s u : Store} → Effect key s u → SameElsewhere key s u
Effect-SameElsewhere (untouched e) = rw e (λ k ne. (refl, refl))
Effect-SameElsewhere {key} {s} (expired now e) = rw e (expire_if_due-SameElsewhere key s now)
Effect-SameElsewhere {key} {s} (written now v whole e) =
    behind_expiry key s now e (store_value-SameElsewhere key _ v)
Effect-SameElsewhere {key} {s} (reduced now v shaped e) =
    behind_expiry key s now e (drop_if_empty-SameElsewhere key _ v)
Effect-SameElsewhere {key} {s} (removed now e) =
    behind_expiry key s now e (remove_key-SameElsewhere key _)
Effect-SameElsewhere {key} {s} (dated now t held e) =
    behind_expiry key s now e (set_deadline-SameElsewhere key _ t)
Effect-SameElsewhere {key} {s} (replaced value e) = rw e (replace_value-SameElsewhere key s value)
