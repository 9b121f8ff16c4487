-- ===== src/Commands/Lists.antt =====
-- LPUSH, RPUSH, LPOP, RPOP, LLEN and LRANGE of `execute_command` in src/commands.cpp.
pub mod Effects
pub mod Range
pub mod Meets
use redis_lite_cpp.Common.{
  ℕ, zero, suc, ◌+◌, [], ◌∷◌, ◌++◌, List, Bool, true, false, Option, none, some, if◌then◌else◌, ℤ,
  pos, negsuc, pos_part, ltb_ℤ, ◌+ℤ◌, ◌-ℤ◌, length, get_elem?,
}
use redis_lite_cpp.Text.{Bytes, codes, bytes_eq}
use redis_lite_cpp.Decimal.{to_integer}
use redis_lite_cpp.Store.{
  Store, Found, missing, mismatch, found, list_value, list_kind, read_typed, write_typed,
  store_value, drop_if_empty,
}
use redis_lite_cpp.Log.{log_command}
use redis_lite_cpp.Resp.Value.{
  RespValue, Elements, nil, cons, make_integer, make_bulk_string, make_null_bulk_string, make_array,
}
use redis_lite_cpp.Commands.Base.{
  Db, Times, Command, wrong_arity, wrong_type, not_an_integer, absolute_index,
}

abbrev pub pushed : Bool → Bytes → List Bytes → List Bytes
pushed true item xs = item ∷ xs
pushed false item xs = xs ++ item ∷ []

unfoldable pub push_into : Bytes → Db → Bytes → Bytes → Store → Option (List Bytes) → RespValue × Db
push_into name db key item store none = (wrong_type, record db { store = store })
push_into name db key item store (some xs) =
    let ys = pushed (bytes_eq name (codes "LPUSH")) item xs in
    (
      make_integer (pos (length ys)),
      record {
        store = store_value key (list_value ys) store;
        log = log_command db.log name (key ∷ item ∷ []);
      },
    )

unfoldable pub push : Bytes → Command
unfolding push_into
push name times db (key ∷ item ∷ []) =
    let (store, list) = write_typed list_kind times.now key db.store in
    push_into name db key item store list
push name times db _ =
    (wrong_arity (if bytes_eq name (codes "LPUSH") then codes "lpush" else codes "rpush"), db)

-- The last element, and the list without it.
unfoldable pub pop_back : Bytes → List Bytes → Bytes × List Bytes
pop_back x [] = (x, [])
pop_back x (y ∷ xs) = let (last, rest) = pop_back y xs in (last, x ∷ rest)

unfoldable pub popped : Bool → Bytes → List Bytes → Bytes × List Bytes
unfolding pop_back
popped true x xs = (x, xs)
popped false x xs = pop_back x xs

unfoldable pub pop_from : Bytes → Db → Bytes → Store → Found (List Bytes) → RespValue × Db
unfolding popped
pop_from name db key store missing = (make_null_bulk_string, record db { store = store })
pop_from name db key store mismatch = (wrong_type, record db { store = store })
pop_from name db key store (found []) = (make_null_bulk_string, record db { store = store })
pop_from name db key store (found (x ∷ xs)) =
    let (item, rest) = popped (bytes_eq name (codes "LPOP")) x xs in
    (
      make_bulk_string item,
      record {
        store = drop_if_empty key (store_value key (list_value rest) store);
        log = log_command db.log name (key ∷ []);
      },
    )

unfoldable pub pop : Bytes → Command
unfolding pop_from
pop name times db (key ∷ []) =
    let (store, list) = read_typed list_kind times.now key db.store in
    pop_from name db key store list
pop name times db _ =
    (wrong_arity (if bytes_eq name (codes "LPOP") then codes "lpop" else codes "rpop"), db)

abbrev llen_reply : Found (List Bytes) → RespValue
llen_reply missing = make_integer (pos 0)
llen_reply mismatch = wrong_type
llen_reply (found xs) = make_integer (pos (length xs))

unfoldable pub llen : Command
llen times db (key ∷ []) =
    let (store, list) = read_typed list_kind times.now key db.store in
    (llen_reply list, record db { store = store })
llen times db _ = (wrong_arity (codes "llen"), db)

unfoldable pub max_ℤ : ℤ → ℤ → ℤ
max_ℤ a b = if ltb_ℤ a b then b else a

unfoldable pub min_ℤ : ℤ → ℤ → ℤ
min_ℤ a b = if ltb_ℤ b a then b else a

-- `for (i = start; i <= stop; ++i)` in the rounds that are left; `none` is an index out of range.
unfoldable pub range_loop : List Bytes → ℕ → ℕ → Option Elements
range_loop xs i zero = some nil
range_loop xs i (suc rounds) = elim (get_elem? xs i) [
  | none ↦ none
  | some x ↦ elim (range_loop xs (suc i) rounds) [
    | none ↦ none
    | some vs ↦ some (cons (make_bulk_string x) vs)
  ]
]

-- The rounds of a loop from `start` up to `stop`.
unfoldable pub rounds_to : ℤ → ℤ → ℕ
rounds_to start stop = pos_part (stop -ℤ start +ℤ pos 1)

unfoldable pub range_of : List Bytes → ℤ → ℤ → Option Elements
unfolding range_loop absolute_index max_ℤ min_ℤ rounds_to
range_of xs start stop =
    let size = pos (length xs) in
    let first = max_ℤ (pos 0) (absolute_index start size) in
    let last = min_ℤ (size -ℤ pos 1) (absolute_index stop size) in
    range_loop xs (pos_part first) (rounds_to first last)

-- `none` is an index out of range, which `range_of` never gives.
abbrev range_reply : Option Elements → RespValue
range_reply none = make_null_bulk_string
range_reply (some vs) = make_array vs

abbrev lrange_reply : ℤ → ℤ → Found (List Bytes) → RespValue
lrange_reply start stop missing = make_array nil
lrange_reply start stop mismatch = wrong_type
lrange_reply start stop (found xs) = range_reply (range_of xs start stop)

unfoldable pub range_from : Times → Db → Bytes → Option ℤ → Option ℤ → RespValue × Db
unfolding range_of
range_from times db key (some start) (some stop) =
    let (store, list) = read_typed list_kind times.now key db.store in
    (lrange_reply start stop list, record db { store = store })
range_from times db key _ _ = (not_an_integer, db)

unfoldable pub lrange : Command
unfolding range_from
lrange times db (key ∷ start ∷ stop ∷ []) =
    range_from times db key (to_integer start) (to_integer stop)
lrange times db _ = (wrong_arity (codes "lrange"), db)
