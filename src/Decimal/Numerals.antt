-- ===== src/Decimal/Numerals.antt =====
-- Which texts the `to_integer` of src/resp.cpp and src/commands.cpp reads, and as which number.
use redis_lite_cpp.Common.{
  ◌⊎◌, ◌*◌, ◌^◌, ◌-◌, ◌<◌, ◌≤◌, ◌↔◌, All, length, ℕ, zero, suc, ◌+◌, [], ◌∷◌, Bool, true, false,
  Option, none, some, ◌≡◌, refl, arith, if◌then◌else◌, ℤ, pos, negated, IsLongLong, inl, inr, ap,
  sym, ◌∙◌, Bool-cases, ◌==◌,
}
use redis_lite_cpp.Text.{Bytes}
use redis_lite_cpp.Decimal.Digits.{scan, is_digit, leads_digit}
use redis_lite_cpp.Decimal.Signed.{signed, in_range, in_range_at, from_chars, whole, to_integer}

abbrev pub IsDigit : ℕ → Type 0
IsDigit c = (48 ≤ c) × (c ≤ 57)

-- The value of digits by their place: the last one counts once, the one before it ten times.
abbrev pub place_value : Bytes → ℕ
place_value [] = 0
place_value (c ∷ s) = (c - 48) * 10 ^ length s + place_value s

-- One or more digits and nothing else, with their value behind the sign in the range of `long long`.
abbrev pub IsDigits : Bool → Bytes → ℤ → Type 0
IsDigits minus s z =
    (0 < length s)
    × All IsDigit s
    × (z ≡ (if minus then negated (place_value s) else pos (place_value s)))
    × IsLongLong z

-- The whole text is a number in decimal: digits, or a minus sign and digits.
abbrev pub IsNumber : Bytes → ℤ → Type 0
IsNumber [] z = ⊥
IsNumber (c ∷ s) z = IsDigits false (c ∷ s) z ⊎ ((c ≡ 45) × IsDigits true s z)

shift : (n d p v : ℕ) → (n * 10 + d) * p + v ≡ n * (10 * p) + (d * p + v)
shift n d p v = grind arith

scan-IsDigit :
    (s : Bytes) (n : ℕ) → All IsDigit s → scan s n ≡ (n * 10 ^ length s + place_value s, [])
unfolding scan is_digit
scan-IsDigit [] n h = ground arith
scan-IsDigit (c ∷ s) n h = ground (
  arith,
  scan-IsDigit s (n * 10 + (c - 48)) h.1,
  shift n (c - 48) (10 ^ length s) (place_value s),
)

scan-All : (s : Bytes) → All IsDigit s → scan s 0 ≡ (place_value s, [])
scan-All s h = ground (arith, scan-IsDigit s 0 h)

scan-whole : (s : Bytes) (n m : ℕ) → scan s n ≡ (m, []) → All IsDigit s
unfolding scan is_digit
scan-whole [] n m h = tt
scan-whole (c ∷ s) n m h = (ground arith, scan-whole s (n * 10 + (c - 48)) m (ground arith))

in_range_iff :
    (minus : Bool) (n : ℕ) (z : ℤ)
    → (in_range minus n ≡ some z) ↔ ((z ≡ (if minus then negated n else pos n)) × IsLongLong z)
unfolding in_range
in_range_iff true zero z = (λ h. ground arith, λ h. ground arith)
in_range_iff true (suc n) z = (λ h. ground arith, λ h. ground arith)
in_range_iff false n z = (λ h. ground arith, λ h. ground arith)

in_range_at_iff :
    (minus : Bool) (p : ℕ × Bytes) (z : ℤ)
    → (in_range_at minus p ≡ some (z, [])) ↔ ((p.1 ≡ []) × (in_range minus p.0 ≡ some z))
unfolding in_range_at
in_range_at_iff minus (n, rest) z = (λ h. ground arith, λ h. ground arith)

leads_digit-All : (s : Bytes) → 0 < length s → All IsDigit s → leads_digit s ≡ true
unfolding leads_digit is_digit
leads_digit-All [] h all = ground arith
leads_digit-All (c ∷ s) h all = ground arith

leads_digit-length : (s : Bytes) → leads_digit s ≡ true → 0 < length s
unfolding leads_digit
leads_digit-length [] h = ground arith
leads_digit-length (c ∷ s) h = omega arith

led :
    (b : Bool) (o : Option (ℤ × Bytes)) {r : ℤ × Bytes}
    → (if b then o else none) ≡ some r
    → (b ≡ true) × (o ≡ some r)
led true o h = (refl, h)
led false o h = absurd (ground arith)

signed_iff :
    (minus : Bool) (s : Bytes) (z : ℤ) → (signed minus s ≡ some (z, [])) ↔ IsDigits minus s z
unfolding signed
signed_iff minus s z = (to, from)
  where
    to : signed minus s ≡ some (z, []) → IsDigits minus s z
    to h =
        let (first, rest) = led (leads_digit s) (in_range_at minus (scan s 0)) h in
        let (ended, ranged) = (in_range_at_iff minus (scan s 0) z).0 rest in
        let all = scan-whole s 0 (scan s 0).0 (ap (λ t. ((scan s 0).0, t)) ended) in
        let value = ap (λ p. p.0) (scan-All s all) in
        let (same, range) =
          (in_range_iff minus (place_value s) z).0 (ap (in_range minus) (sym value) ∙ ranged) in
        (leads_digit-length s first, all, same, range)

    from : IsDigits minus s z → signed minus s ≡ some (z, [])
    from (some_digit, all, same, range) =
        rw (leads_digit-All s some_digit all, scan-All s all)
          ((in_range_at_iff minus (place_value s, []) z).1
            (refl, (in_range_iff minus (place_value s) z).1 (same, range)))

whole_iff : (o : Option (ℤ × Bytes)) (z : ℤ) → (whole o ≡ some z) ↔ (o ≡ some (z, []))
whole_iff none z = (λ h. ground arith, λ h. ground arith)
whole_iff (some (y, [])) z = (λ h. ground arith, λ h. ground arith)
whole_iff (some (y, c ∷ s)) z = (λ h. ground arith, λ h. ground arith)

from_chars_iff : (s : Bytes) (z : ℤ) → (from_chars s ≡ some (z, [])) ↔ IsNumber s z
unfolding from_chars
from_chars_iff [] z = (λ h. ground arith, λ h. ground arith)
from_chars_iff (c ∷ s) z = elim (Bool-cases (c == b'-')) [
  | inl minus ↦ rw (minus) (
    λ h. inr (ground arith, (signed_iff true s z).0 h),
    λ h. elim h [ inl plain ↦ absurd (ground arith) | inr after ↦ (signed_iff true s z).1 after.1 ],
  )
  | inr plain ↦ rw (plain) (
    λ h. inl ((signed_iff false (c ∷ s) z).0 h),
    λ h. elim h [
      | inl digits ↦ (signed_iff false (c ∷ s) z).1 digits
      | inr after ↦ absurd (ground arith)
    ],
  )
]

-- A text is read as the number z exactly where the whole of it is z in decimal: one or more digits,
-- or a minus sign and one or more digits, with nothing in front of them or behind them, whose value
-- by place, behind the sign, is z and is in the range of `long long`.
pub to_integer_iff : (text : Bytes) (z : ℤ) → (to_integer text ≡ some z) ↔ IsNumber text z
unfolding to_integer
to_integer_iff text z =
    let (ends, begins) = whole_iff (from_chars text) z in
    let (reads, writes) = from_chars_iff text z in (λ h. reads (ends h), λ h. begins (writes h))
