-- ===== src/Commands/Execute/Carried.antt =====
-- The parts of the replies of src/commands.cpp that RESP can carry.
use redis_lite_cpp.Common.{
  ℕ, zero, suc, ◌≤◌, ◌<◌, [], ◌∷◌, List, some, ◌≡◌, refl, sym, subst, map, Bool, true, false,
  if◌then◌else◌, ap, pos, length, take, drop, All, All-append, long_long_max, arith,
}
use mathlib.Core.List.{reverse}
use mathlib.Core.List.{reverse-cons}
use redis_lite_cpp.Text.{Bytes, bytes_eq}
use redis_lite_cpp.Dict.{Dict, find}
use redis_lite_cpp.Store.{Value, string_value, list_value, hash_value, set_value}
use redis_lite_cpp.Resp.Value.{
  RespValue, to_elements, size, AllElements, make_integer, make_bulk_string, make_null_bulk_string,
  make_array,
}
use redis_lite_cpp.Resp.Wire.{IsWire}
use redis_lite_cpp.Resp.Parse.{max_depth}
use redis_lite_cpp.Commands.Base.{wrong_type}
use redis_lite_cpp.Commands.Spec.{bulk_or_null, first_of_list, last_of_reverse}

abbrev pub Short : Bytes → Type 0
Short text = length text ≤ long_long_max

-- Every length and count in the value fits `long long`.
abbrev pub FitsWire : Value → Type 0
FitsWire (string_value s) = length s ≤ long_long_max
FitsWire (list_value xs) = (length xs < long_long_max) × All (λ x. length x ≤ long_long_max) xs
FitsWire (hash_value h) = (length h < long_long_max) × All (λ e. length e.1 ≤ long_long_max) h
FitsWire (set_value xs) = (length xs < long_long_max) × All (λ x. length x ≤ long_long_max) xs

unfoldable pub IsCarried : RespValue → Type 0
IsCarried = IsWire max_depth

pub count-IsCarried : (n : ℕ) → n ≤ long_long_max → IsCarried (make_integer (pos n))
unfolding IsCarried
count-IsCarried n h = ((h, omega arith), refl, refl, refl)

pub flag-IsCarried : (b : Bool) → IsCarried (make_integer (if b then pos 1 else pos 0))
flag-IsCarried true = count-IsCarried 1 (omega arith)
flag-IsCarried false = count-IsCarried 0 (omega arith)

pub not_flag-IsCarried : (b : Bool) → IsCarried (make_integer (if b then pos 0 else pos 1))
not_flag-IsCarried true = count-IsCarried 0 (omega arith)
not_flag-IsCarried false = count-IsCarried 1 (omega arith)

pub bulk-IsCarried : (text : Bytes) → Short text → IsCarried (make_bulk_string text)
unfolding IsCarried
bulk-IsCarried text h = (h, refl, refl)

pub null-IsCarried : IsCarried make_null_bulk_string
unfolding IsCarried
null-IsCarried = (refl, refl, refl)

pub wrong_type-IsCarried : IsCarried wrong_type
unfolding IsCarried
wrong_type-IsCarried = (ground arith, refl, refl, refl)

size-bulk : (xs : List Bytes) → size (to_elements (map make_bulk_string xs)) ≡ length xs
size-bulk [] = refl
size-bulk (x ∷ xs) = ap (λ n. suc n) (size-bulk xs)

elements-bulk :
    (levels : ℕ) (xs : List Bytes)
    → All Short xs
    → AllElements (IsWire (suc levels)) (to_elements (map make_bulk_string xs))
elements-bulk levels [] h = tt
elements-bulk levels (x ∷ xs) h = ((h.0, refl, refl), elements-bulk levels xs h.1)

pub array-IsCarried :
    (xs : List Bytes)
    → length xs ≤ long_long_max
    → All Short xs
    → IsCarried (make_array (to_elements (map make_bulk_string xs)))
unfolding IsCarried
array-IsCarried xs h hs =
    (refl, refl, subst (λ n. n ≤ long_long_max) (sym (size-bulk xs)) h, elements-bulk 126 xs hs)

pub All-take : (n : ℕ) (xs : List Bytes) → All Short xs → All Short (take n xs)
All-take zero xs h = tt
All-take (suc n) [] h = tt
All-take (suc n) (x ∷ xs) h = (h.0, All-take n xs h.1)

pub All-drop : (n : ℕ) (xs : List Bytes) → All Short xs → All Short (drop n xs)
All-drop zero xs h = h
All-drop (suc n) [] h = tt
All-drop (suc n) (x ∷ xs) h = All-drop n xs h.1

pub All-reverse : (xs : List Bytes) → All Short xs → All Short (reverse xs)
All-reverse [] h = tt
All-reverse (x ∷ xs) h =
    subst (All Short) (sym (reverse-cons x xs))
      (All-append Short (reverse xs) (x ∷ []) (All-reverse xs h.1) (h.0, tt))

pub found_in :
    (field : Bytes) (h : Dict Bytes)
    → All (λ e. Short e.1) h
    → IsCarried (bulk_or_null (find field h))
unfolding find
found_in field [] fits = null-IsCarried
found_in field ((name, value) ∷ h) fits = go (bytes_eq name field) (found_in field h fits.1)
  where
    go :
        (b : Bool)
        → IsCarried (bulk_or_null (find field h))
        → IsCarried (bulk_or_null (if b then some value else find field h))
    go true later = bulk-IsCarried value fits.0
    go false later = later

pub first-IsCarried : (xs : List Bytes) → All Short xs → IsCarried (first_of_list xs).0
first-IsCarried [] h = null-IsCarried
first-IsCarried (x ∷ xs) h = bulk-IsCarried x h.0

pub last-IsCarried : (xs : List Bytes) → All Short xs → IsCarried (last_of_reverse xs).0
last-IsCarried [] h = null-IsCarried
last-IsCarried (x ∷ xs) h = bulk-IsCarried x h.0
