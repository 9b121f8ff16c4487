-- ===== src/Resp/Value.antt =====
-- `RespType`, `RespValue` and the small constructors of src/resp.hpp and src/resp.cpp.
use redis_lite_cpp.Common.{ℕ, suc, Bool, true, false, List, [], ◌∷◌, ◌≡◌, refl, ap, ℤ, pos, length}
use redis_lite_cpp.Text.{Bytes}

pub data RespType : Type 0 where
  simple_string error integer bulk_string array : RespType

-- A value has the five members of the struct, in its order: `type`, `string`, `integer`,
-- `elements`, `is_null`. `Elements` is `std::vector<RespValue>`.
mutual
  pub data RespValue : Type 0 where
    resp : RespType → Bytes → ℤ → Elements → Bool → RespValue

  pub data Elements : Type 0 where
    nil : Elements
    cons : RespValue → Elements → Elements

abbrev pub size : Elements → ℕ
size nil = 0
size (cons v vs) = suc (size vs)

abbrev pub to_elements : List RespValue → Elements
to_elements [] = nil
to_elements (v ∷ vs) = cons v (to_elements vs)

pub size-to_elements : (vs : List RespValue) → size (to_elements vs) ≡ length vs
size-to_elements [] = refl
size-to_elements (v ∷ vs) = ap suc (size-to_elements vs)

abbrev pub AllElements {κ} : (RespValue → Type κ) → Elements → Type κ
AllElements P nil = Unit
AllElements P (cons v vs) = P v × AllElements P vs

abbrev pub make_simple_string : Bytes → RespValue
make_simple_string text = resp simple_string text (pos 0) nil false

abbrev pub make_error : Bytes → RespValue
make_error text = resp error text (pos 0) nil false

abbrev pub make_integer : ℤ → RespValue
make_integer number = resp integer [] number nil false

abbrev pub make_bulk_string : Bytes → RespValue
make_bulk_string text = resp bulk_string text (pos 0) nil false

abbrev pub make_null_bulk_string : RespValue
make_null_bulk_string = resp bulk_string [] (pos 0) nil true

abbrev pub make_array : Elements → RespValue
make_array elements = resp array [] (pos 0) elements false

-- What a parse of `*-1` gives; the program has no constructor for it.
abbrev pub null_array : RespValue
null_array = resp array [] (pos 0) nil true
