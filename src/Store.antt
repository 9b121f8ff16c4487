-- ===== src/Store.antt =====
-- `Value` and `Store` of src/commands.hpp, and the helpers of src/commands.cpp that read and write
-- a key. The variant's alternatives are reached by `Kind`, as `std::get_if<T>` reaches them.
pub mod Effect
pub mod Typed
pub mod Valid
pub mod View
pub mod Twins
use redis_lite_cpp.Common.{
  ℕ, [], ◌∷◌, List, Bool, true, false, Option, none, some, ltb, if◌then◌else◌,
}
use redis_lite_cpp.Text.{Bytes}
use redis_lite_cpp.Dict.{Dict, find, put, erase}

pub data Value : Type 0 where
  string_value : Bytes → Value
  list_value : List Bytes → Value
  hash_value : Dict Bytes → Value
  set_value : List Bytes → Value

-- Deadlines are ticks of the steady clock, in nanoseconds.
pub record Store : Type 0 where
  pub values : Dict Value
  pub expirations : Dict ℕ

abbrev pub empty_store : Store
empty_store = record { values = []; expirations = [] }

-- The alternative that a template argument `T` picks: `std::get_if<T>`, a `T` as a value, `T{}`.
pub record Kind (A : Type 0) : Type 0 where
  pub get_if : Value → Option A
  pub wrap : A → Value
  pub initial : A

abbrev pub get_string : Value → Option Bytes
get_string (string_value s) = some s
get_string _ = none

abbrev pub get_list : Value → Option (List Bytes)
get_list (list_value xs) = some xs
get_list _ = none

abbrev pub get_hash : Value → Option (Dict Bytes)
get_hash (hash_value h) = some h
get_hash _ = none

abbrev pub get_set : Value → Option (List Bytes)
get_set (set_value s) = some s
get_set _ = none

abbrev pub string_kind : Kind Bytes
string_kind = record { get_if = get_string; wrap = string_value; initial = [] }

abbrev pub list_kind : Kind (List Bytes)
list_kind = record { get_if = get_list; wrap = list_value; initial = [] }

abbrev pub hash_kind : Kind (Dict Bytes)
hash_kind = record { get_if = get_hash; wrap = hash_value; initial = [] }

abbrev pub set_kind : Kind (List Bytes)
set_kind = record { get_if = get_set; wrap = set_value; initial = [] }

unfoldable pub remove_key : Bytes → Store → Store
remove_key key store = record {
  values = erase key store.values;
  expirations = erase key store.expirations;
}

-- Lazy expiration at the clock reading `now`.
unfoldable pub expire_if_due : ℕ → Bytes → Store → Store
unfolding remove_key
expire_if_due now key store = elim (find key store.expirations) [
  | none ↦ store
  | some deadline ↦ if ltb now deadline then store else remove_key key store
]

-- `values[key] = value`, which is also a write through a pointer to the value.
unfoldable pub store_value : Bytes → Value → Store → Store
store_value key value store = record store { values = put key value store.values }

-- `store.expirations[key] = deadline`
unfoldable pub set_deadline : Bytes → ℕ → Store → Store
set_deadline key deadline store = record store { expirations = put key deadline store.expirations }

-- SET writes a string and clears the deadline.
unfoldable pub replace_value : Bytes → Bytes → Store → Store
replace_value key value store = record {
  values = put key (string_value value) store.values;
  expirations = erase key store.expirations;
}

-- A null pointer with and without `mismatch`, or the typed value.
pub data Found (A : Type 0) : Type 0 where
  missing mismatch : Found A
  found : A → Found A

module _ {A : Type 0} (kind : Kind A) where
  abbrev pub typed : Option Value → Found A
  typed none = missing
  typed (some value) = elim (kind.get_if value) [ none ↦ mismatch | some a ↦ found a ]

  unfoldable pub read_typed : ℕ → Bytes → Store → Store × Found A
  read_typed now key store =
      let store' = expire_if_due now key store in (store', typed (find key store'.values))

  abbrev pub emplaced : Bytes → Store → Option Value → Store × Option A
  emplaced key store none = (store_value key (kind.wrap kind.initial) store, some kind.initial)
  emplaced key store (some value) = (store, kind.get_if value)

  -- The pointer is null where the key holds another type.
  unfoldable pub write_typed : ℕ → Bytes → Store → Store × Option A
  write_typed now key store =
      let store' = expire_if_due now key store in emplaced key store' (find key store'.values)

-- The tests of `drop_if_empty`; a string is never dropped.
abbrev pub is_empty : Value → Bool
is_empty (list_value []) = true
is_empty (hash_value []) = true
is_empty (set_value []) = true
is_empty _ = false

unfoldable pub drop_if_empty : Bytes → Store → Store
unfolding remove_key
drop_if_empty key store = elim (find key store.values) [
  | none ↦ store
  | some value ↦ if is_empty value then remove_key key store else store
]
