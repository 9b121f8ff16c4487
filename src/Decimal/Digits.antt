-- ===== src/Decimal/Digits.antt =====
-- Decimal digits of a natural number, printed and read.
use redis_lite_cpp.Common.{
  ◌≤◌, length, ℕ, zero, suc, ◌+◌, ◌-◌, ◌*◌, ◌/◌, ◌%◌, ◌<◌, [], ◌∷◌, ◌++◌, Bool, true, false, ◌&&◌,
  ◌≡◌, refl, ◌≢◌, inl, inr, arith, ltb, leb, if◌then◌else◌, Bool-cases, All, ltb→lt,
}
use redis_lite_cpp.Text.{Bytes, codes}

unfoldable pub is_digit : ℕ → Bool
is_digit c = leb b'0' c && leb c b'9'

-- A line's bytes: no CR and no LF.
abbrev pub IsLine : Bytes → Type 0
IsLine = All (λ c. (c ≢ 13) × (c ≢ 10))

-- The digits of `n` before `out`, last digit first; each round takes a unit of fuel.
digits : ℕ → ℕ → Bytes → Bytes
digits zero n out = out
digits (suc fuel) n out = elim (ltb n 10) [
  | true ↦ (b'0' + n) ∷ out
  | false ↦ digits fuel (n / 10) ((b'0' + n % 10) ∷ out)
]

unfoldable pub digit_text : ℕ → Bytes
unfolding digits
digit_text n = digits (suc n) n []

unfoldable pub leads_digit : Bytes → Bool
unfolding is_digit
leads_digit [] = false
leads_digit (c ∷ s) = is_digit c

-- The longest run of digits at the front, read after the value `n`, and what follows it.
unfoldable pub scan : Bytes → ℕ → ℕ × Bytes
unfolding is_digit
scan [] n = (n, [])
scan (c ∷ s) n = let rest = scan s (n * 10 + (c - b'0')) in if is_digit c then rest else (n, c ∷ s)

pub scan-length : (s : Bytes) (n : ℕ) → length (scan s n).1 ≤ length s
unfolding scan
scan-length [] n = omega arith
scan-length (c ∷ s) n = ground (arith, scan-length s (n * 10 + (c - b'0')))

scan_stop : (s : Bytes) (n : ℕ) → leads_digit s ≡ false → scan s n ≡ (n, s)
unfolding scan leads_digit
scan_stop [] n h = refl
scan_stop (c ∷ s) n h = ground arith

scan_digit : (d : ℕ) (s : Bytes) (n : ℕ) → d < 10 → scan ((b'0' + d) ∷ s) n ≡ scan s (n * 10 + d)
unfolding scan
scan_digit d s n h = ground arith

scan-digits : (fuel n : ℕ) (out : Bytes) → n < fuel → scan (digits fuel n out) 0 ≡ scan out n
unfolding digits
scan-digits zero n out h = elim h [ ]
scan-digits (suc fuel) n out h = elim (Bool-cases (ltb n 10)) [
  | inl small ↦ ground (arith, scan_digit n out 0)
  | inr big ↦
      ground
        (arith, scan-digits fuel (n / 10) ((b'0' + n % 10) ∷ out), scan_digit (n % 10) out (n / 10))
]

digits-append :
    (fuel n : ℕ) (out rest : Bytes) → digits fuel n (out ++ rest) ≡ digits fuel n out ++ rest
unfolding digits
digits-append zero n out rest = refl
digits-append (suc fuel) n out rest =
    ground (arith, digits-append fuel (n / 10) ((b'0' + n % 10) ∷ out) rest)

-- Reading a printed number gives the number and what follows it.
pub scan-digit_text :
    (n : ℕ) (rest : Bytes) → leads_digit rest ≡ false → scan (digit_text n ++ rest) 0 ≡ (n, rest)
unfolding digit_text
scan-digit_text n rest h =
    let whole = digits-append (suc n) n [] rest in
    let read = scan-digits (suc n) n rest (omega arith) in
    ground (arith, whole, read, scan_stop rest n h)

digits-All :
    (P : ℕ → Type 0) (fuel n : ℕ) (out : Bytes)
    → ((d : ℕ) → d < 10 → P (b'0' + d))
    → All P out
    → All P (digits fuel n out)
unfolding digits
digits-All P zero n out all h = h
digits-All P (suc fuel) n out all h = elim (Bool-cases (ltb n 10)) [
  | inl small ↦ rw (small, digits) (all n (ltb→lt n 10 small), h)
  | inr big ↦ rw (big, digits) (digits-All P fuel (n / 10) _ all (all (n % 10) (omega arith), h))
]

-- A printed number is one or more digits.
pub digit_text-All :
    (P : ℕ → Type 0) (n : ℕ) → ((d : ℕ) → d < 10 → P (b'0' + d)) → All P (digit_text n)
unfolding digit_text
digit_text-All P n all = digits-All P (suc n) n [] all tt

leads_digit-digits :
    (fuel n : ℕ) (out : Bytes) → leads_digit out ≡ true → leads_digit (digits fuel n out) ≡ true
unfolding digits leads_digit
leads_digit-digits zero n out h = h
leads_digit-digits (suc fuel) n out h =
    ground (arith, leads_digit-digits fuel (n / 10) ((b'0' + n % 10) ∷ out))

pub leads_digit-digit_text : (n : ℕ) (rest : Bytes) → leads_digit (digit_text n ++ rest) ≡ true
unfolding digit_text digits leads_digit
leads_digit-digit_text n rest =
    ground (
      arith,
      digits-append (suc n) n [] rest,
      leads_digit-digits n (n / 10) ((b'0' + n % 10) ∷ rest),
    )

hundred_twenty : digit_text 120 ≡ codes "120"
unfolding digit_text
hundred_twenty = refl
