-- ===== src/Resp/Parse/Sound.antt =====
-- What the parser of src/resp.cpp accepts: it consumes at least a byte, and gives a value that RESP
-- can carry.
use redis_lite_cpp.Common.{
  ℕ, zero, suc, ◌+◌, ◌≤◌, ◌<◌, [], ◌∷◌, Bool, true, false, ◌||◌, ◌&&◌, Option, none, some, ◌≡◌,
  refl, inl, inr, arith, ltb, ◌==◌, if◌then◌else◌, Bool-cases, Option-cases, length, take, drop,
  length-take, length-drop, ℤ, pos, negsuc, IsLongLong, long_long_max,
}
use redis_lite_cpp.Text.{Bytes}
use redis_lite_cpp.Decimal.{IsLine, to_integer, to_integer-IsLongLong}
use redis_lite_cpp.Resp.Value.{RespValue, size, AllElements}
use redis_lite_cpp.Resp.Wire.{IsWire}
use redis_lite_cpp.Resp.Parser.{Parsed, ok, incomplete, malformed, Parser, bind, or_malformed}
use redis_lite_cpp.Resp.Parse.{
  contains, find_crlf, read_line, checked_line, bulk_body, finish_bulk, parse_bulk_at, parse_bulk,
  parse_integer, parse_elements, parse_array_at, parse_array, parse_line, parse_value, is_prefix,
}

-- `Q` holds of the value and of the cursor behind it, if there are any.
abbrev pub Ensures {ℓ κ} : {A : Type ℓ} → (A → Bytes → Type κ) → Parsed A → Type κ
Ensures Q (ok a rest) = Q a rest
Ensures Q incomplete = Unit
Ensures Q (malformed error) = Unit

bind-Ensures {ℓ κ ℓ' κ'} :
    {A : Type ℓ} {B : Type ℓ'} (Q : A → Bytes → Type κ) (R : B → Bytes → Type κ') (r : Parsed A)
    (f : A → Parser B)
    → Ensures Q r
    → ((a : A) (rest : Bytes) → Q a rest → Ensures R (f a rest))
    → Ensures R (bind r f)
bind-Ensures Q R (ok a rest) f h k = k a rest h
bind-Ensures Q R incomplete f h k = tt
bind-Ensures Q R (malformed error) f h k = tt

or_malformed-Ensures {ℓ κ κ'} :
    {A : Type ℓ} {B : Type κ} (R : B → Bytes → Type κ') (o : Option A) (error : Bytes)
    (f : A → Parser B) (s : Bytes)
    → ((a : A) → o ≡ some a → Ensures R (f a s))
    → Ensures R (or_malformed o error f s)
or_malformed-Ensures R none error f s k = tt
or_malformed-Ensures R (some a) error f s k = k a refl

if-Ensures {ℓ κ} :
    {A : Type ℓ} (R : A → Bytes → Type κ) (b : Bool) (p q : Parser A) (s : Bytes)
    → Ensures R (p s)
    → Ensures R (q s)
    → Ensures R ((if b then p else q) s)
if-Ensures R true p q s hp hq = hp
if-Ensures R false p q s hp hq = hq

IsLine-contains : (line : Bytes) → (contains 13 line || contains 10 line) ≡ false → IsLine line
unfolding contains
IsLine-contains [] h = tt
IsLine-contains (c ∷ line) h = (ground arith, IsLine-contains line (ground arith))

find_crlf-lt : (s line rest : Bytes) → find_crlf s ≡ some (line, rest) → length rest + 2 ≤ length s
unfolding find_crlf
find_crlf-lt [] line rest h = cc
find_crlf-lt (c ∷ []) line rest h = ground arith
find_crlf-lt (c ∷ d ∷ s) line rest h = elim (Option-cases (find_crlf (d ∷ s))) [
  | inl e ↦ ground arith
  | inr ((l, r), e) ↦ ground (arith, find_crlf-lt (d ∷ s) l r e)
]

checked_line-Ensures :
    (s : Bytes) (o : Option (Bytes × Bytes))
    → find_crlf s ≡ o
    → Ensures (λ line rest. IsLine line × (length rest < length s)) (checked_line o)
unfolding checked_line
checked_line-Ensures s none e = tt
checked_line-Ensures s (some (line, rest)) e =
    elim (Bool-cases (contains 13 line || contains 10 line)) [
      | inl bad ↦ rw (bad, Ensures) tt
      | inr good ↦
          rw (good, Ensures) (IsLine-contains line good, omega (arith, find_crlf-lt s line rest e))
    ]

-- A line that was read has no CR and no LF, and at least the CRLF was consumed.
read_line-Ensures :
    (s : Bytes) → Ensures (λ line rest. IsLine line × (length rest < length s)) (read_line s)
unfolding read_line
read_line-Ensures s = checked_line-Ensures s (find_crlf s) refl

abbrev Accepts : ℕ → Bytes → RespValue → Bytes → Type 0
Accepts levels s v rest = IsWire levels v × (length rest ≤ length s)

module _ (levels : ℕ) where
  finish_bulk-Ensures :
      (text s : Bytes) (n : ℕ)
      → length text ≤ long_long_max
      → length s ≤ n
      → Ensures (λ v rest. IsWire (suc levels) v × (length rest ≤ n)) (finish_bulk text s)
  unfolding finish_bulk
  finish_bulk-Ensures text [] n fits h = tt
  finish_bulk-Ensures text (a ∷ []) n fits h = tt
  finish_bulk-Ensures text (a ∷ b ∷ s) n fits h = elim (Bool-cases ((a == 13) && (b == 10))) [
    | inl e ↦ rw (e, Ensures) ((fits, refl, refl), omega arith)
    | inr e ↦ rw (e, Ensures) tt
  ]

  bulk_body-Ensures :
      (n : ℕ) (s : Bytes) → n ≤ long_long_max → Ensures (Accepts (suc levels) s) (bulk_body n s)
  unfolding bulk_body
  bulk_body-Ensures n s fits = elim (Bool-cases (ltb (length s) (n + 2))) [
    | inl short ↦ rw (short, Ensures) tt
    | inr full ↦
        rw (full, Ensures)
          (finish_bulk-Ensures (take n s) (drop n s) (length s) (omega (arith, length-take n s))
            (omega (arith, length-drop n s)))
  ]

  parse_bulk_at-Ensures :
      (z : ℤ) (s : Bytes) → IsLongLong z → Ensures (Accepts (suc levels) s) (parse_bulk_at z s)
  unfolding parse_bulk_at
  parse_bulk_at-Ensures (pos n) s range = bulk_body-Ensures n s range.0
  parse_bulk_at-Ensures (negsuc zero) s range = ((refl, refl, refl), omega arith)
  parse_bulk_at-Ensures (negsuc (suc n)) s range = tt

  module _ (p : Parser RespValue) (sound : (s : Bytes) → Ensures (Accepts levels s) (p s)) where
    parse_elements-Ensures :
        (count : ℕ) (s : Bytes)
        → Ensures
            (λ vs rest.
              AllElements (IsWire levels) vs × (size vs ≡ count) × (length rest ≤ length s))
            (parse_elements p count s)
    unfolding parse_elements
    parse_elements-Ensures zero s = (tt, refl, omega arith)
    parse_elements-Ensures (suc count) s =
        bind-Ensures (Accepts levels s) _ (p s) _ (sound s) λ v s' h.
          bind-Ensures
            (λ vs rest.
              AllElements (IsWire levels) vs × (size vs ≡ count) × (length rest ≤ length s'))
            _ (parse_elements p count s') _ (parse_elements-Ensures count s')
            λ vs rest k. ((h.0, k.0), omega arith, omega arith)

    parse_array_at-Ensures :
        (z : ℤ) (s : Bytes) → IsLongLong z → Ensures (Accepts (suc levels) s) (parse_array_at p z s)
    unfolding parse_array_at
    parse_array_at-Ensures (pos n) s range =
        bind-Ensures
          (λ vs rest. AllElements (IsWire levels) vs × (size vs ≡ n) × (length rest ≤ length s)) _
          (parse_elements p n s) _ (parse_elements-Ensures n s)
          λ vs rest h. ((refl, refl, omega arith, h.0), h.2)
    parse_array_at-Ensures (negsuc zero) s range = ((refl, refl, refl), omega arith)
    parse_array_at-Ensures (negsuc (suc n)) s range = tt

    parse_line-Ensures :
        (prefix : ℕ) (line s : Bytes)
        → IsLine line
        → Ensures (Accepts (suc levels) s) (parse_line p prefix line s)
    unfolding parse_line parse_integer parse_bulk parse_array
    parse_line-Ensures prefix line s clean =
        if-Ensures _ (prefix == b'+') _ _ s ((clean, refl, refl, refl), omega arith)
          (if-Ensures _ (prefix == b'-') _ _ s ((clean, refl, refl, refl), omega arith)
            (if-Ensures _ (prefix == b':') _ _ s
              (or_malformed-Ensures _ (to_integer line) _ _ s
                λ z e. ((to_integer-IsLongLong line z e, refl, refl, refl), omega arith))
              (if-Ensures _ (prefix == b'$') _ _ s
                (or_malformed-Ensures _ (to_integer line) _ _ s
                  λ z e. parse_bulk_at-Ensures z s (to_integer-IsLongLong line z e))
                (or_malformed-Ensures _ (to_integer line) _ _ s
                  λ z e. parse_array_at-Ensures z s (to_integer-IsLongLong line z e)))))

weaken :
    (levels n m : ℕ) (r : Parsed RespValue)
    → n < m
    → Ensures (λ v rest. IsWire levels v × (length rest ≤ n)) r
    → Ensures (λ v rest. IsWire levels v × (length rest < m)) r
weaken levels n m (ok v rest) lt h = (h.0, omega arith)
weaken levels n m incomplete lt h = tt
weaken levels n m (malformed error) lt h = tt

weaken_le :
    (levels : ℕ) (s : Bytes) (r : Parsed RespValue)
    → Ensures (λ v rest. IsWire levels v × (length rest < length s)) r
    → Ensures (Accepts levels s) r
weaken_le levels s (ok v rest) h = (h.0, omega arith)
weaken_le levels s incomplete h = tt
weaken_le levels s (malformed error) h = tt

-- A value that was parsed can be carried, and its parser consumed input.
pub parse_value-Ensures :
    (levels : ℕ) (s : Bytes)
    → Ensures (λ v rest. IsWire levels v × (length rest < length s)) (parse_value levels s)
unfolding parse_value
parse_value-Ensures zero s = tt
parse_value-Ensures (suc levels) [] = tt
parse_value-Ensures (suc levels) (prefix ∷ s) =
    if-Ensures _ (is_prefix prefix) _ _ s
      (bind-Ensures (λ line rest. IsLine line × (length rest < length s)) _ (read_line s) _
        (read_line-Ensures s)
        λ line rest h.
          weaken (suc levels) (length rest) (suc (length s))
            (parse_line (parse_value levels) prefix line rest) (omega arith)
            (parse_line-Ensures levels (parse_value levels)
              (λ t. weaken_le levels t (parse_value levels t) (parse_value-Ensures levels t)) prefix
              line rest h.0))
      tt
