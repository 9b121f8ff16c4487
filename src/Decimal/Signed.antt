-- ===== src/Decimal/Signed.antt =====
-- `long long` in decimal: `std::to_string`, `std::from_chars`, and the program's `to_integer`.
use mathlib.Core.Option.{some_inj}
use redis_lite_cpp.Common.{
  subst, sym, ◌*◌, ◌+◌, ◌-◌, length, ℕ, zero, suc, ◌^◌, ◌≤◌, [], ◌∷◌, ◌++◌, append-nil, Bool, true,
  false, Option, none, some, ◌≡◌, refl, arith, leb, ◌==◌, if◌then◌else◌, ℤ, pos, negsuc, negated,
  IsLongLong, long_long_max,
}
use redis_lite_cpp.Text.{Bytes, codes}
use redis_lite_cpp.Decimal.Digits.{
  scan-length, IsLine, digit_text, digit_text-All, leads_digit, leads_digit-digit_text, scan,
  is_digit, scan-digit_text,
}

unfoldable pub to_string : ℤ → Bytes
to_string (pos n) = digit_text n
to_string (negsuc n) = b'-' ∷ digit_text (suc n)

-- A magnitude behind its sign, refused when `long long` cannot hold it.
unfoldable pub in_range : Bool → ℕ → Option ℤ
in_range true n = if leb n (2 ^ 63) then some (negated n) else none
in_range false n = if leb n long_long_max then some (pos n) else none

unfoldable pub in_range_at : Bool → ℕ × Bytes → Option (ℤ × Bytes)
unfolding in_range
in_range_at minus (n, rest) = elim (in_range minus n) [ none ↦ none | some z ↦ some (z, rest) ]

-- One or more digits, read as far as they go, and what follows them.
unfoldable pub signed : Bool → Bytes → Option (ℤ × Bytes)
unfolding in_range_at
signed minus s = if leads_digit s then in_range_at minus (scan s 0) else none

-- `none` is an error code, for no number at the front or one that is out of range.
unfoldable pub from_chars : Bytes → Option (ℤ × Bytes)
from_chars [] = none
from_chars (c ∷ s) = if c == b'-' then signed true s else signed false (c ∷ s)

-- The number must fill the text: `result.ptr == text.data() + text.size()`.
abbrev pub whole : Option (ℤ × Bytes) → Option ℤ
whole none = none
whole (some (z, [])) = some z
whole (some (z, c ∷ s)) = none

unfoldable pub to_integer : Bytes → Option ℤ
unfolding from_chars signed scan leads_digit
to_integer text = whole (from_chars text)

in_range_at-some :
    (minus : Bool) (n : ℕ) (rest : Bytes) {z : ℤ}
    → in_range minus n ≡ some z
    → in_range_at minus (n, rest) ≡ some (z, rest)
unfolding in_range_at
in_range_at-some minus n rest h = ground arith

in_range_sound : (minus : Bool) (n : ℕ) {z : ℤ} → in_range minus n ≡ some z → IsLongLong z
unfolding in_range
in_range_sound true zero h = ground arith
in_range_sound true (suc n) h = ground arith
in_range_sound false n h = ground arith

in_range_pos : (n : ℕ) → n ≤ long_long_max → in_range false n ≡ some (pos n)
unfolding in_range
in_range_pos n h = ground arith

in_range_negsuc : (n : ℕ) → suc n ≤ 2 ^ 63 → in_range true (suc n) ≡ some (negsuc n)
unfolding in_range
in_range_negsuc n h = ground arith

pub signed-digit_text :
    (minus : Bool) (n : ℕ) (rest : Bytes)
    → leads_digit rest ≡ false
    → signed minus (digit_text n ++ rest) ≡ in_range_at minus (n, rest)
unfolding signed
signed-digit_text minus n rest h = rw (leads_digit-digit_text n rest, scan-digit_text n rest h)

digit-ne : (s : Bytes) (c : ℕ) → leads_digit (c ∷ s) ≡ true → (c == b'-') ≡ false
unfolding leads_digit
digit-ne s c h = ground arith

pub from_chars-digits : (s : Bytes) → leads_digit s ≡ true → from_chars s ≡ signed false s
unfolding from_chars
from_chars-digits [] h = unfold leads_digit in cc
from_chars-digits (c ∷ s) h = rw (digit-ne s c h)

-- A printed number is read back, with what follows it.
pub from_chars-to_string :
    (z : ℤ) (rest : Bytes)
    → IsLongLong z
    → leads_digit rest ≡ false
    → from_chars (to_string z ++ rest) ≡ some (z, rest)
unfolding to_string
from_chars-to_string (pos n) rest range h =
    rw (from_chars-digits _ (leads_digit-digit_text n rest), signed-digit_text false n rest h)
      (in_range_at-some false n rest (in_range_pos n range.0))
from_chars-to_string (negsuc n) rest range h =
    unfold from_chars in
    rw (signed-digit_text true (suc n) rest h)
      (in_range_at-some true (suc n) rest (in_range_negsuc n range.1))

-- The decimal text of every integer of `long long` is read back as that integer.
pub to_integer-to_string : (z : ℤ) → IsLongLong z → to_integer (to_string z) ≡ some z
unfolding to_integer
to_integer-to_string z range =
    let read = from_chars-to_string z [] range refl in rw (rw append-nil at read)

pub signed_sound :
    (minus : Bool) (s : Bytes) {rest : Bytes} {z : ℤ}
    → signed minus s ≡ some (z, rest)
    → IsLongLong z
unfolding signed in_range_at
signed_sound minus s {rest} {z} h = ground (arith, in_range_sound minus (scan s 0).0 {z = z})

-- Reading a number leaves no more bytes than there were.
pub signed-length :
    (minus : Bool) (s : Bytes) {rest : Bytes} {z : ℤ}
    → signed minus s ≡ some (z, rest)
    → length rest ≤ length s
unfolding signed in_range_at
signed-length minus s {rest} {z} h = ground (arith, scan-length s 0)

whole-some : (o : Option (ℤ × Bytes)) {z : ℤ} → whole o ≡ some z → o ≡ some (z, [])
whole-some none h = cc
whole-some (some (z, [])) h = ground arith
whole-some (some (z, c ∷ s)) h = cc

from_chars_sound : (s : Bytes) {rest : Bytes} {z : ℤ} → from_chars s ≡ some (z, rest) → IsLongLong z
unfolding from_chars
from_chars_sound [] h = cc
from_chars_sound (c ∷ s) {rest} {z} h = ground (
  arith,
  signed_sound true s {rest = rest} {z = z},
  signed_sound false (c ∷ s) {rest = rest} {z = z},
)

-- What is read is in the range of `long long`.
pub to_integer-IsLongLong : (s : Bytes) (z : ℤ) → to_integer s ≡ some z → IsLongLong z
unfolding to_integer
to_integer-IsLongLong s z h = from_chars_sound s (whole-some (from_chars s) h)

pub to_string-IsLine : (z : ℤ) → IsLine (to_string z)
unfolding to_string
to_string-IsLine (pos n) = digit_text-All _ n (λ d h. (omega arith, omega arith))
to_string-IsLine (negsuc n) =
    ((omega arith, omega arith), digit_text-All _ (suc n) (λ d h. (omega arith, omega arith)))

limits :
    (to_integer (codes "-9223372036854775808") ≡ some (negsuc long_long_max))
    × (to_integer (codes "9223372036854775808") ≡ none)
    × (to_integer (codes "-0") ≡ some (pos 0))
    × (to_integer (codes "+1") ≡ none)
    × (to_integer (codes "12x") ≡ none)
unfolding to_integer
limits = (refl, refl, refl, refl, refl)

-- More bytes behind a number change nothing, unless they stand right behind its last digit.
abbrev pub Firm : {A : Type 0} → Bytes → Option (A × Bytes) → Option (A × Bytes) → Type 0
Firm more none o = Unit
Firm more (some (a, [])) o = Unit
Firm more (some (a, c ∷ rest)) o = o ≡ some (a, (c ∷ rest) ++ more)

scan-Firm :
    (s : Bytes) (n : ℕ) (more : Bytes) → Firm more (some (scan s n)) (some (scan (s ++ more) n))
unfolding scan
scan-Firm [] n more = tt
scan-Firm (c ∷ s) n more = go (is_digit c) _ _ (scan-Firm s (n * 10 + (c - b'0')) more)
  where
    go :
        (b : Bool) (x y : ℕ × Bytes)
        → Firm more (some x) (some y)
        → Firm more
            (some (if b then x else (n, c ∷ s)))
            (some (if b then y else (n, c ∷ (s ++ more))))
    go true x y h = h
    go false x y h = refl

in_range_at-Firm :
    (minus : Bool) (more : Bytes) (x y : ℕ × Bytes)
    → Firm more (some x) (some y)
    → Firm more (in_range_at minus x) (in_range_at minus y)
unfolding in_range_at
in_range_at-Firm minus more (n, []) y h = go (in_range minus n)
  where
    go :
        (o : Option ℤ)
        → Firm more (elim o [ none ↦ none | some z ↦ some (z, []) ]) (in_range_at minus y)
    go none = tt
    go (some z) = tt
in_range_at-Firm minus more (n, c ∷ rest) y h =
    subst (λ p. Firm more (in_range_at minus (n, c ∷ rest)) (in_range_at minus p))
      (sym (some_inj.0 h)) (go (in_range minus n))
  where
    go :
        (o : Option ℤ)
        → Firm more
            (elim o [ none ↦ none | some z ↦ some (z, c ∷ rest) ])
            (elim o [ none ↦ none | some z ↦ some (z, (c ∷ rest) ++ more) ])
    go none = tt
    go (some z) = refl

pub signed-Firm :
    (minus : Bool) (s more : Bytes) → Firm more (signed minus s) (signed minus (s ++ more))
unfolding signed leads_digit
signed-Firm minus [] more = tt
signed-Firm minus (c ∷ s) more = go (is_digit c) _ _ (
    in_range_at-Firm minus more (scan (c ∷ s) 0) (scan (c ∷ (s ++ more)) 0)
      (scan-Firm (c ∷ s) 0 more))
  where
    go :
        (b : Bool) (x y : Option (ℤ × Bytes))
        → Firm more x y
        → Firm more (if b then x else none) (if b then y else none)
    go true x y h = h
    go false x y h = tt
