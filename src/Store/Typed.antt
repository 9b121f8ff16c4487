-- ===== src/Store/Typed.antt =====
-- The cases of `read_typed` and `write_typed` of src/commands.cpp.
use redis_lite_cpp.Common.{ℕ, List, Option, none, some, ◌≡◌, refl, ap, ◌⊎◌, inl, inr, arith}
use redis_lite_cpp.Text.{Bytes}
use redis_lite_cpp.Dict.{Dict, find}
use redis_lite_cpp.Dict.Laws.{put-put}
use redis_lite_cpp.Store.{
  Value, string_value, list_value, hash_value, set_value, Store, Kind, string_kind, list_kind,
  hash_kind, set_kind, expire_if_due, store_value, Found, missing, mismatch, found, typed,
  read_typed, emplaced, write_typed,
}

-- `std::get_if<T>` gives the value only where the alternative is `T`.
pub record IsLawful {A : Type 0} (kind : Kind A) : Type 0 where
  pub of_get_if : (v : Value) (a : A) → kind.get_if v ≡ some a → v ≡ kind.wrap a
  pub of_initial : kind.get_if (kind.wrap kind.initial) ≡ some kind.initial

pub string_kind-IsLawful : IsLawful string_kind
string_kind-IsLawful = record { of_get_if = go; of_initial = refl }
  where
    go : (v : Value) (a : Bytes) → string_kind.get_if v ≡ some a → v ≡ string_value a
    go (string_value s) a h = ground arith
    go (list_value s) a h = cc
    go (hash_value s) a h = cc
    go (set_value s) a h = cc

pub list_kind-IsLawful : IsLawful list_kind
list_kind-IsLawful = record { of_get_if = go; of_initial = refl }
  where
    go : (v : Value) (a : List Bytes) → list_kind.get_if v ≡ some a → v ≡ list_value a
    go (list_value s) a h = ground arith
    go (string_value s) a h = cc
    go (hash_value s) a h = cc
    go (set_value s) a h = cc

pub hash_kind-IsLawful : IsLawful hash_kind
hash_kind-IsLawful = record { of_get_if = go; of_initial = refl }
  where
    go : (v : Value) (a : Dict Bytes) → hash_kind.get_if v ≡ some a → v ≡ hash_value a
    go (hash_value s) a h = ground arith
    go (string_value s) a h = cc
    go (list_value s) a h = cc
    go (set_value s) a h = cc

pub set_kind-IsLawful : IsLawful set_kind
set_kind-IsLawful = record { of_get_if = go; of_initial = refl }
  where
    go : (v : Value) (a : List Bytes) → set_kind.get_if v ≡ some a → v ≡ set_value a
    go (set_value s) a h = ground arith
    go (string_value s) a h = cc
    go (list_value s) a h = cc
    go (hash_value s) a h = cc

pub store_value-store_value :
    (key : Bytes) (v w : Value) (s : Store)
    → store_value key w (store_value key v s) ≡ store_value key w s
unfolding store_value
store_value-store_value key v w s =
    ap {B = Store} (λ d. record { values = d; expirations = s.expirations })
      (put-put key v w s.values)

module _ {A : Type 0} (kind : Kind A) (lawful : IsLawful kind) (now : ℕ) (key : Bytes)
    (s : Store) where
  abbrev live : Store
  live = expire_if_due now key s

  -- What follows a `read_typed` has the key missing, of another type, or with the typed value.
  pub read_cases {κ} :
      (P : Store × Found A → Type κ)
      → (find key live.values ≡ none → P (live, missing))
      → ((v : Value) → find key live.values ≡ some v → kind.get_if v ≡ none → P (live, mismatch))
      → ((a : A) → find key live.values ≡ some (kind.wrap a) → P (live, found a))
      → P (read_typed kind now key s)
  unfolding read_typed
  read_cases P on_missing on_mismatch on_found = at_value (find key live.values) refl
    where
      at_typed :
          (v : Value) (o : Option A)
          → find key live.values ≡ some v
          → kind.get_if v ≡ o
          → P (live, elim o [ none ↦ mismatch | some a ↦ found a ])
      at_typed v none e g = on_mismatch v e g
      at_typed v (some a) e g = on_found a (rw (← lawful.of_get_if v a g) e)

      at_value : (o : Option Value) → find key live.values ≡ o → P (live, typed kind o)
      at_value none e = on_missing e
      at_value (some v) e = at_typed v (kind.get_if v) e refl

  -- What follows a `write_typed` has a null pointer, or a value that stands under the key or is new.
  -- A write through the pointer is then a write to the store with the expired key gone.
  pub write_cases {κ} :
      (P : Store × Option A → Type κ)
      → ((v : Value) → find key live.values ≡ some v → kind.get_if v ≡ none → P (live, none))
      → ((a : A) (u : Store)
          → ((w : Value) → store_value key w u ≡ store_value key w live)
          → (find key live.values ≡ none) × (a ≡ kind.initial)
            ⊎ (find key live.values ≡ some (kind.wrap a))
          → P (u, some a))
      → P (write_typed kind now key s)
  unfolding write_typed
  write_cases P on_null on_value = at_value (find key live.values) refl
    where
      at_typed :
          (v : Value) (o : Option A)
          → find key live.values ≡ some v
          → kind.get_if v ≡ o
          → P (live, o)
      at_typed v none e g = on_null v e g
      at_typed v (some a) e g = on_value a live (λ w. refl) (inr (rw (← lawful.of_get_if v a g) e))

      at_value : (o : Option Value) → find key live.values ≡ o → P (emplaced kind key live o)
      at_value none e =
          on_value kind.initial _ (λ w. store_value-store_value key (kind.wrap kind.initial) w live)
            (inl (e, refl))
      at_value (some v) e = at_typed v (kind.get_if v) e refl
