-- ===== src/Commands/Execute/Replies.antt =====
-- The replies of `execute_command` in src/commands.cpp on the wire.
use redis_lite_cpp.Common.{
  ◌-◌, ◌<◌, [], ◌∷◌, ◌++◌, List, Option, none, some, ◌≡◌, refl, sym, subst, map, true, false, ℤ,
  length, take, drop, All, long_long_max, length-take, length-drop, arith,
}
use mathlib.Core.List.{reverse}
use redis_lite_cpp.Text.{Bytes, codes}
use redis_lite_cpp.Dict.{Dict, is_some}
use redis_lite_cpp.Store.{Value, string_value, list_value, hash_value, set_value}
use redis_lite_cpp.Store.View.{view}
use redis_lite_cpp.Store.Valid.{IsValid}
use redis_lite_cpp.Resp.Value.{to_elements, make_simple_string, make_bulk_string, make_array}
use redis_lite_cpp.Resp.Serialize.{serialize}
use redis_lite_cpp.Resp.Wire.{IsWire}
use redis_lite_cpp.Resp.Parse.{max_depth}
use redis_lite_cpp.Resp.Entry.{parse, ok}
use redis_lite_cpp.Resp.Entry.RoundTrip.{parse-serialize}
use redis_lite_cpp.Commands.Base.{Db, Times, to_upper}
use redis_lite_cpp.Commands.Spec.{
  Spec, slice, lower, upper, get_spec, push_spec, lpop_spec, rpop_spec, llen_spec, lrange_spec,
  hset_spec, hget_spec, hdel_spec, hexists_spec, hlen_spec, sadd_spec, srem_spec, sismember_spec,
  scard_spec, smembers_spec,
}
use redis_lite_cpp.Commands.Execute.{execute_command}
use redis_lite_cpp.Commands.Execute.Meets.{
  Describes, on_del, on_set_string, on_get, on_lpush, on_rpush, on_lpop, on_rpop, on_llen,
  on_lrange, on_hset, on_hget, on_hdel, on_hexists, on_hlen, on_sadd, on_srem, on_sismember,
  on_scard, on_smembers, execute-Meets,
}
use redis_lite_cpp.Commands.Execute.Carried.{
  Short, FitsWire, IsCarried, count-IsCarried, flag-IsCarried, not_flag-IsCarried, bulk-IsCarried,
  null-IsCarried, wrong_type-IsCarried, array-IsCarried, All-take, All-drop, All-reverse, found_in,
  first-IsCarried, last-IsCarried,
}

abbrev FitsOption : Option Value → Type 0
FitsOption none = Unit
FitsOption (some value) = FitsWire value

by_value :
    (spec : Spec)
    → IsCarried (spec none).0
    → ((s : Bytes) → Short s → IsCarried (spec (some (string_value s))).0)
    → ((xs : List Bytes)
        → length xs < long_long_max
        → All Short xs
        → IsCarried (spec (some (list_value xs))).0)
    → ((h : Dict Bytes)
        → length h < long_long_max
        → All (λ e. Short e.1) h
        → IsCarried (spec (some (hash_value h))).0)
    → ((xs : List Bytes)
        → length xs < long_long_max
        → All Short xs
        → IsCarried (spec (some (set_value xs))).0)
    → (o : Option Value) → FitsOption o
    → IsCarried (spec o).0
by_value spec n a b c d none fits = n
by_value spec n a b c d (some (string_value s)) fits = a s fits
by_value spec n a b c d (some (list_value xs)) fits = b xs fits.0 fits.1
by_value spec n a b c d (some (hash_value h)) fits = c h fits.0 fits.1
by_value spec n a b c d (some (set_value xs)) fits = d xs fits.0 fits.1

ok-IsCarried : IsCarried (make_simple_string (codes "OK"))
unfolding IsCarried
ok-IsCarried = (ground arith, refl, refl, refl)

fits_option :
    (o : Option Value) → ((value : Value) → o ≡ some value → FitsWire value) → FitsOption o
fits_option none h = tt
fits_option (some value) h = h value refl

slice-IsCarried :
    (start stop : ℤ) (xs : List Bytes)
    → length xs < long_long_max
    → All Short xs
    → IsCarried (make_array (to_elements (map make_bulk_string (slice xs start stop))))
slice-IsCarried start stop xs fits short =
    let first = lower (length xs) start in
    let count = upper (length xs) stop - first in
    array-IsCarried (take count (drop first xs))
      (omega (arith, length-take count (drop first xs), length-drop first xs))
      (All-take count (drop first xs) (All-drop first xs short))

spec-IsCarried :
    {name key : Bytes} {arguments : List Bytes} {spec : Spec}
    → Describes name arguments key spec
    → (o : Option Value) → FitsOption o
    → IsCarried (spec o).0
spec-IsCarried (on_del key) = λ o fits. flag-IsCarried (is_some o)
spec-IsCarried (on_set_string key value) = λ o fits. ok-IsCarried
spec-IsCarried (on_get key) =
    by_value get_spec null-IsCarried bulk-IsCarried (λ xs fits short. wrong_type-IsCarried)
      (λ h fits short. wrong_type-IsCarried) (λ xs fits short. wrong_type-IsCarried)
spec-IsCarried (on_lpush key item) =
    by_value (push_spec true item) (count-IsCarried 1 (omega arith)) (λ s k. wrong_type-IsCarried)
      (λ xs fits short. count-IsCarried _ (omega (arith, fits)))
      (λ h fits short. wrong_type-IsCarried) (λ xs fits short. wrong_type-IsCarried)
spec-IsCarried (on_rpush key item) =
    by_value (push_spec false item) (count-IsCarried 1 (omega arith)) (λ s k. wrong_type-IsCarried)
      (λ xs fits short. count-IsCarried _ (omega (arith, fits)))
      (λ h fits short. wrong_type-IsCarried) (λ xs fits short. wrong_type-IsCarried)
spec-IsCarried (on_lpop key) =
    by_value lpop_spec (null-IsCarried) (λ s k. wrong_type-IsCarried)
      (λ xs fits short. first-IsCarried xs short) (λ h fits short. wrong_type-IsCarried)
      (λ xs fits short. wrong_type-IsCarried)
spec-IsCarried (on_rpop key) =
    by_value rpop_spec (last-IsCarried (reverse []) tt) (λ s k. wrong_type-IsCarried)
      (λ xs fits short. last-IsCarried (reverse xs) (All-reverse xs short))
      (λ h fits short. wrong_type-IsCarried) (λ xs fits short. wrong_type-IsCarried)
spec-IsCarried (on_llen key) =
    by_value llen_spec (count-IsCarried 0 (omega arith)) (λ s k. wrong_type-IsCarried)
      (λ xs fits short. count-IsCarried _ (omega (arith, fits)))
      (λ h fits short. wrong_type-IsCarried) (λ xs fits short. wrong_type-IsCarried)
spec-IsCarried (on_hset key field value) =
    by_value (hset_spec field value) (not_flag-IsCarried _) (λ s k. wrong_type-IsCarried)
      (λ xs fits short. wrong_type-IsCarried) (λ h fits short. not_flag-IsCarried _)
      (λ xs fits short. wrong_type-IsCarried)
spec-IsCarried (on_hget key field) =
    by_value (hget_spec field) (found_in field [] tt) (λ s k. wrong_type-IsCarried)
      (λ xs fits short. wrong_type-IsCarried) (λ h fits short. found_in field h short)
      (λ xs fits short. wrong_type-IsCarried)
spec-IsCarried (on_hdel key field) =
    by_value (hdel_spec field) (flag-IsCarried _) (λ s k. wrong_type-IsCarried)
      (λ xs fits short. wrong_type-IsCarried) (λ h fits short. flag-IsCarried _)
      (λ xs fits short. wrong_type-IsCarried)
spec-IsCarried (on_hexists key field) =
    by_value (hexists_spec field) (flag-IsCarried _) (λ s k. wrong_type-IsCarried)
      (λ xs fits short. wrong_type-IsCarried) (λ h fits short. flag-IsCarried _)
      (λ xs fits short. wrong_type-IsCarried)
spec-IsCarried (on_hlen key) =
    by_value hlen_spec (count-IsCarried 0 (omega arith)) (λ s k. wrong_type-IsCarried)
      (λ xs fits short. wrong_type-IsCarried)
      (λ h fits short. count-IsCarried _ (omega (arith, fits)))
      (λ xs fits short. wrong_type-IsCarried)
spec-IsCarried (on_sadd key item) =
    by_value (sadd_spec item) (not_flag-IsCarried _) (λ s k. wrong_type-IsCarried)
      (λ xs fits short. wrong_type-IsCarried) (λ h fits short. wrong_type-IsCarried)
      (λ xs fits short. not_flag-IsCarried _)
spec-IsCarried (on_srem key item) =
    by_value (srem_spec item) (flag-IsCarried _) (λ s k. wrong_type-IsCarried)
      (λ xs fits short. wrong_type-IsCarried) (λ h fits short. wrong_type-IsCarried)
      (λ xs fits short. flag-IsCarried _)
spec-IsCarried (on_sismember key item) =
    by_value (sismember_spec item) (flag-IsCarried _) (λ s k. wrong_type-IsCarried)
      (λ xs fits short. wrong_type-IsCarried) (λ h fits short. wrong_type-IsCarried)
      (λ xs fits short. flag-IsCarried _)
spec-IsCarried (on_scard key) =
    by_value scard_spec (count-IsCarried 0 (omega arith)) (λ s k. wrong_type-IsCarried)
      (λ xs fits short. wrong_type-IsCarried) (λ h fits short. wrong_type-IsCarried)
      (λ xs fits short. count-IsCarried _ (omega (arith, fits)))
spec-IsCarried (on_smembers key) =
    by_value smembers_spec (array-IsCarried [] (omega arith) tt) (λ s k. wrong_type-IsCarried)
      (λ xs fits short. wrong_type-IsCarried) (λ h fits short. wrong_type-IsCarried)
      (λ xs fits short. array-IsCarried xs (omega (arith, fits)) short)
spec-IsCarried (on_lrange key start_text stop_text start stop from to) =
    by_value (lrange_spec start stop) (slice-IsCarried start stop [] (omega arith) tt)
      (λ s k. wrong_type-IsCarried) (λ xs fits short. slice-IsCarried start stop xs fits short)
      (λ h fits short. wrong_type-IsCarried) (λ xs fits short. wrong_type-IsCarried)

-- A client reads each reply whole: a command on a key, whose name, in either case, and arguments are
-- those of an abstract command, on a valid store in which the lengths and the count of the key's value
-- fit `long long`, has a reply whose bytes, with any bytes behind them, are parsed back as this reply,
-- and exactly its own bytes are consumed.
pub reply-parsed :
    {name key : Bytes} {arguments : List Bytes} {spec : Spec} (times : Times) (db : Db)
    (word rest : Bytes)
    → IsValid db.store
    → to_upper word ≡ name
    → Describes name arguments key spec
    → ((value : Value) → view times.now key db.store ≡ some value → FitsWire value)
    → parse (
        serialize
          (execute_command times db
            (make_array (to_elements (map make_bulk_string (word ∷ arguments))))).0
        ++ rest)
      ≡ ok
          (execute_command times db
            (make_array (to_elements (map make_bulk_string (word ∷ arguments))))).0
          (length (
            serialize
              (execute_command times db
                (make_array (to_elements (map make_bulk_string (word ∷ arguments))))).0))
unfolding IsCarried
reply-parsed {key} times db word rest valid e described small = parse-serialize _ rest (
    subst (IsWire max_depth) (sym (execute-Meets times db word valid e described).0) (
      spec-IsCarried described (view times.now key db.store)
        (fits_option (view times.now key db.store) small)))
