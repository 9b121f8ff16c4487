-- ===== src/Commands/Spec.antt =====
-- The abstract commands: a key has a value or none, an expired key has none, and an empty list, hash
-- or set is a missing key. The commands of src/commands.cpp are compared with these.
use redis_lite_cpp.Common.{
  ℕ, suc, ◌-◌, [], ◌∷◌, ◌++◌, List, map, Bool, Option, none, some, ◌≡◌, ℤ, pos, negsuc, length,
  take, drop, if◌then◌else◌, leb,
}
use mathlib.Core.List.{reverse}
use redis_lite_cpp.Text.{Bytes, codes}
use redis_lite_cpp.Dict.{Dict, find, put, erase, has_key, is_some, member, insert, remove}
use redis_lite_cpp.Store.{Value, string_value, list_value, hash_value, set_value}
use redis_lite_cpp.Store.View.{view}
use redis_lite_cpp.Resp.Value.{
  RespValue, make_integer, make_simple_string, make_bulk_string, make_null_bulk_string, make_array,
  to_elements,
}
use redis_lite_cpp.Commands.Base.{Db, Times, wrong_type}

-- The reply and the new value for the value under the key.
abbrev pub Spec : Type 0
Spec = Option Value → RespValue × Option Value

-- The result replies the reply, and leaves the value under the key.
abbrev pub Leaves : Bytes → RespValue × Db → RespValue × Option Value → Type 0
Leaves key result (reply, value) = (result.0 ≡ reply) × (find key result.1.store.values ≡ value)

-- The result is what the specification says for the value that is live at the first clock reading.
abbrev pub Meets : Times → Db → Bytes → RespValue × Db → Spec → Type 0
Meets times db key result spec = Leaves key result (spec (view times.now key db.store))

-- A list, as the value under a key, and back.
abbrev pub of_list : List Bytes → Option Value
of_list [] = none
of_list (x ∷ xs) = some (list_value (x ∷ xs))

abbrev pub of_hash : Dict Bytes → Option Value
of_hash [] = none
of_hash (e ∷ es) = some (hash_value (e ∷ es))

abbrev pub of_set : List Bytes → Option Value
of_set [] = none
of_set (x ∷ xs) = some (set_value (x ∷ xs))

abbrev pub on_string : (Option Bytes → RespValue × Option Value) → Spec
on_string f none = f none
on_string f (some (string_value s)) = f (some s)
on_string f (some v) = (wrong_type, some v)

abbrev pub on_list : (List Bytes → RespValue × Option Value) → Spec
on_list f none = f []
on_list f (some (list_value xs)) = f xs
on_list f (some v) = (wrong_type, some v)

abbrev pub on_hash : (Dict Bytes → RespValue × Option Value) → Spec
on_hash f none = f []
on_hash f (some (hash_value h)) = f h
on_hash f (some v) = (wrong_type, some v)

abbrev pub on_set : (List Bytes → RespValue × Option Value) → Spec
on_set f none = f []
on_set f (some (set_value xs)) = f xs
on_set f (some v) = (wrong_type, some v)

abbrev pub bulk_or_null : Option Bytes → RespValue
bulk_or_null none = make_null_bulk_string
bulk_or_null (some s) = make_bulk_string s

-- DEL leaves nothing, whatever the type.
abbrev pub del_spec : Spec
del_spec o = (make_integer (if is_some o then pos 1 else pos 0), none)

abbrev pub get_spec : Spec
get_spec = on_string λ s. (bulk_or_null s, elim s [ none ↦ none | some t ↦ some (string_value t) ])

abbrev pub set_spec : Bytes → Spec
set_spec value o = (make_simple_string (codes "OK"), some (string_value value))

-- LPUSH is the push on the left, RPUSH the one on the right.
abbrev pub push_spec : Bool → Bytes → Spec
push_spec left item = on_list λ xs.
    (make_integer (pos (suc (length xs))), of_list (if left then item ∷ xs else xs ++ item ∷ []))

abbrev pub first_of_list : List Bytes → RespValue × Option Value
first_of_list [] = (make_null_bulk_string, none)
first_of_list (x ∷ xs) = (make_bulk_string x, of_list xs)

abbrev pub lpop_spec : Spec
lpop_spec = on_list first_of_list

abbrev pub last_of_reverse : List Bytes → RespValue × Option Value
last_of_reverse [] = (make_null_bulk_string, none)
last_of_reverse (x ∷ xs) = (make_bulk_string x, of_list (reverse xs))

abbrev pub rpop_spec : Spec
rpop_spec = on_list λ xs. last_of_reverse (reverse xs)

-- The first index and the one behind the last, for a list of `n` elements: a negative index counts
-- from the end, and both are cut to the list.
abbrev pub lower : ℕ → ℤ → ℕ
lower n (pos k) = k
lower n (negsuc k) = n - suc k

abbrev pub upper : ℕ → ℤ → ℕ
upper n (pos k) = if leb n k then n else suc k
upper n (negsuc k) = n - k

abbrev pub slice : List Bytes → ℤ → ℤ → List Bytes
slice xs start stop =
    take (upper (length xs) stop - lower (length xs) start) (drop (lower (length xs) start) xs)

abbrev pub lrange_spec : ℤ → ℤ → Spec
lrange_spec start stop =
    on_list
      λ xs. (make_array (to_elements (map make_bulk_string (slice xs start stop))), of_list xs)

abbrev pub llen_spec : Spec
llen_spec = on_list λ xs. (make_integer (pos (length xs)), of_list xs)

abbrev pub hset_spec : Bytes → Bytes → Spec
hset_spec field value =
    on_hash
      λ h. (make_integer (if has_key field h then pos 0 else pos 1), of_hash (put field value h))

abbrev pub hget_spec : Bytes → Spec
hget_spec field = on_hash λ h. (bulk_or_null (find field h), of_hash h)

abbrev pub hdel_spec : Bytes → Spec
hdel_spec field =
    on_hash λ h. (make_integer (if has_key field h then pos 1 else pos 0), of_hash (erase field h))

abbrev pub hexists_spec : Bytes → Spec
hexists_spec field =
    on_hash λ h. (make_integer (if has_key field h then pos 1 else pos 0), of_hash h)

abbrev pub hlen_spec : Spec
hlen_spec = on_hash λ h. (make_integer (pos (length h)), of_hash h)

abbrev pub sadd_spec : Bytes → Spec
sadd_spec item =
    on_set λ xs. (make_integer (if member item xs then pos 0 else pos 1), of_set (insert item xs))

abbrev pub srem_spec : Bytes → Spec
srem_spec item =
    on_set λ xs. (make_integer (if member item xs then pos 1 else pos 0), of_set (remove item xs))

abbrev pub sismember_spec : Bytes → Spec
sismember_spec item =
    on_set λ xs. (make_integer (if member item xs then pos 1 else pos 0), of_set xs)

abbrev pub scard_spec : Spec
scard_spec = on_set λ xs. (make_integer (pos (length xs)), of_set xs)

abbrev pub smembers_spec : Spec
smembers_spec = on_set λ xs. (make_array (to_elements (map make_bulk_string xs)), of_set xs)
