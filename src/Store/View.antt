-- ===== src/Store/View.antt =====
-- What is found under a key after each helper of src/commands.cpp.
use redis_lite_cpp.Common.{ℕ, Bool, true, false, Option, none, some, ◌≡◌, arith, if◌then◌else◌}
use redis_lite_cpp.Text.{Bytes, bytes_eq_refl}
use redis_lite_cpp.Dict.{find}
use redis_lite_cpp.Dict.Laws.{find-erase}
use redis_lite_cpp.Store.{
  Value, Store, expire_if_due, remove_key, store_value, is_empty, drop_if_empty,
}
use redis_lite_cpp.Store.Valid.{
  IsValid, IsStored, find-store_value, drop_if_empty-store_value, expire_if_due-IsValid,
}

-- The value that a client sees under the key at the clock reading `now`.
unfoldable pub view : ℕ → Bytes → Store → Option Value
view now key s = find key (expire_if_due now key s).values

pub find-remove_key : (key : Bytes) (s : Store) → find key (remove_key key s).values ≡ none
unfolding remove_key
find-remove_key key s = ground (arith, find-erase key key s.values, bytes_eq_refl key)

pub deadline-remove_key : (key : Bytes) (s : Store) → find key (remove_key key s).expirations ≡ none
unfolding remove_key
deadline-remove_key key s = ground (arith, find-erase key key s.expirations, bytes_eq_refl key)

-- A value that was written and dropped if empty.
abbrev pub kept : Value → Option Value
kept v = if is_empty v then none else some v

pub find-drop_if_empty :
    (key : Bytes) (v : Value) (s : Store)
    → find key (drop_if_empty key (store_value key v s)).values ≡ kept v
find-drop_if_empty key v s = rw (drop_if_empty-store_value key v s) (at (is_empty v))
  where
    at :
        (b : Bool)
        → find key (if b then remove_key key s else store_value key v s).values
          ≡ (if b then none else some v)
    at true = find-remove_key key s
    at false = find-store_value key v s

pub view-IsStored :
    (now : ℕ) (key : Bytes) (s : Store) (v : Value)
    → IsValid s
    → view now key s ≡ some v
    → IsStored v
unfolding view
view-IsStored now key s v valid e = (expire_if_due-IsValid now key s valid).stored key v e
