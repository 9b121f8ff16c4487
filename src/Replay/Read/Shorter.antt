-- ===== src/Replay/Read/Shorter.antt =====
-- What `replay_log` of src/persistence.cpp reads, it takes from the stream.
use redis_lite_cpp.Common.{
  ℕ, zero, suc, ◌+◌, ◌-◌, ◌≤◌, ◌<◌, [], ◌∷◌, Bool, true, false, Option, none, some, ◌≡◌, refl,
  arith, ltb, if◌then◌else◌, ℤ, pos, negsuc, length, length-drop, take, drop, ◌==◌,
}
use redis_lite_cpp.Text.{Bytes, codes, bytes_eq}
use redis_lite_cpp.Decimal.{signed, signed-length}
use redis_lite_cpp.Replay.Read.{
  skip_space, take_word, non_empty, read_word, read_number, signed_number, Read, Reader, unfinished,
  got, bad, and_then, or_bad, expect, read_field, field_at, field_of_length, read_arguments,
  arguments_for, read_expiry, read_words, read_entry, read_number_or,
}

-- What is left is no longer than `n`.
abbrev pub Shorter {ℓ} : {A : Type ℓ} → ℕ → Read A → Type 0
Shorter n (got a rest) = length rest ≤ n
Shorter n (bad detail) = Unit

and_then-Shorter :
    {A B : Type 0} (n : ℕ) (r : Read A) (f : A → Bytes → Read B)
    → Shorter n r
    → ((a : A) (rest : Bytes) → length rest ≤ n → Shorter n (f a rest))
    → Shorter n (and_then r f)
and_then-Shorter n (got a rest) f h k = k a rest h
and_then-Shorter n (bad detail) f h k = tt

expect-Shorter : (c : ℕ) (detail s : Bytes) (n : ℕ) → length s ≤ n → Shorter n (expect c detail s)
unfolding expect
expect-Shorter c detail [] n h = tt
expect-Shorter c detail (d ∷ s) n h = ground arith

-- The rest of an optional result is no longer than `n`.
abbrev ShorterOption {ℓ} : {A : Type ℓ} → ℕ → Option (A × Bytes) → Type 0
ShorterOption n none = Unit
ShorterOption n (some (a, rest)) = length rest ≤ n

skip_space-length : (s : Bytes) → length (skip_space s) ≤ length s
unfolding skip_space
skip_space-length [] = omega arith
skip_space-length (c ∷ s) = ground (arith, skip_space-length s)

take_word-length : (s : Bytes) → length (take_word s).0 + length (take_word s).1 ≡ length s
unfolding take_word
take_word-length [] = refl
take_word-length (c ∷ s) = ground (arith, take_word-length s)

if-Shorter :
    {A : Type 0} (n : ℕ) (b : Bool) (x y : Reader A) (s : Bytes)
    → Shorter n (x s)
    → Shorter n (y s)
    → Shorter n ((if b then x else y) s)
if-Shorter n true x y s h k = h
if-Shorter n false x y s h k = k

if-ShorterOption :
    {A : Type 0} (n : ℕ) (b : Bool) (x y : Option (A × Bytes))
    → ShorterOption n x
    → ShorterOption n y
    → ShorterOption n (if b then x else y)
if-ShorterOption n true x y h k = h
if-ShorterOption n false x y h k = k

field_of_length-Shorter :
    (k : ℕ) (detail s : Bytes) (n : ℕ) → length s ≤ n → Shorter n (field_of_length k detail s)
unfolding field_of_length
field_of_length-Shorter k detail s n h = go (ltb (length s) k)
  where
    go : (b : Bool) → Shorter n (if b then bad detail else got (take k s) (drop k s))
    go true = tt
    go false = omega (arith, length-drop k s)

signed-Shorter :
    (minus : Bool) (s : Bytes) (n : ℕ) → length s ≤ n → ShorterOption n (signed minus s)
signed-Shorter minus s n h = go (signed minus s) refl
  where
    go : (o : Option (ℤ × Bytes)) → signed minus s ≡ o → ShorterOption n o
    go none e = tt
    go (some (z, rest)) e = omega (arith, signed-length minus s e)

signed_number-Shorter : (s : Bytes) (n : ℕ) → length s ≤ n → ShorterOption n (signed_number s)
signed_number-Shorter [] n h = tt
signed_number-Shorter (c ∷ s) n h =
    if-ShorterOption n (c == b'-') _ _ (signed-Shorter true s n (omega arith)) (
      if-ShorterOption n (c == b'+') _ _ (signed-Shorter false s n (omega arith))
        (signed-Shorter false (c ∷ s) n h))

or_bad-Shorter :
    {A : Type 0} (detail : Bytes) (n : ℕ) (o : Option (A × Bytes))
    → ShorterOption n o
    → Shorter n (or_bad detail o)
or_bad-Shorter detail n none h = tt
or_bad-Shorter detail n (some (a, rest)) h = h

read_number-Shorter : (s : Bytes) (n : ℕ) → length s ≤ n → ShorterOption n (read_number s)
unfolding read_number
read_number-Shorter s n h =
    signed_number-Shorter (skip_space s) n (omega (arith, skip_space-length s))

field_at-Shorter :
    (detail : Bytes) (z : ℤ) (s : Bytes) (n : ℕ) → length s ≤ n → Shorter n (field_at detail z s)
unfolding field_at field_of_length
field_at-Shorter detail (negsuc k) s n h = tt
field_at-Shorter detail (pos k) s n h =
    and_then-Shorter n (expect b' ' detail s) (λ _. field_of_length k detail)
      (expect-Shorter b' ' detail s n h) (λ _ rest le. field_of_length-Shorter k detail rest n le)

read_field-Shorter : (detail s : Bytes) (n : ℕ) → length s ≤ n → Shorter n (read_field detail s)
unfolding read_field
read_field-Shorter detail s n h =
    and_then-Shorter n _ (field_at detail)
      (or_bad-Shorter detail n (read_number s) (read_number-Shorter s n h))
      (λ z rest le. field_at-Shorter detail z rest n le)

read_arguments-Shorter :
    (i rounds : ℕ) (s : Bytes) (n : ℕ) → length s ≤ n → Shorter n (read_arguments i rounds s)
unfolding read_arguments
read_arguments-Shorter i zero s n h = h
read_arguments-Shorter i (suc rounds) s n h =
    and_then-Shorter n _ _
      (and_then-Shorter n _ _ (expect-Shorter b' ' _ s n h)
        (λ _ rest le. read_field-Shorter _ rest n le))
      (λ argument rest le.
        and_then-Shorter n _ _ (read_arguments-Shorter (suc i) rounds rest n le)
          (λ arguments rest' le'. le'))

read_expiry-Shorter : (key s : Bytes) (n : ℕ) → length s ≤ n → Shorter n (read_expiry key s)
unfolding read_expiry read_number_or
read_expiry-Shorter key s n h = and_then-Shorter n _ _ (expect-Shorter b' ' _ s n h) (λ _ rest le.
    and_then-Shorter n _ _ (or_bad-Shorter _ n _ (read_number-Shorter rest n le))
      (λ deadline rest' le'.
        and_then-Shorter n _ _ (expect-Shorter 10 _ rest' n le') (λ _ rest'' le''. le'')))

read_words-Shorter :
    (verb key : Bytes) (o : Option ℕ) (s : Bytes) (n : ℕ)
    → length s ≤ n
    → Shorter n (read_words verb key o s)
unfolding read_words
read_words-Shorter verb key none s n h = tt
read_words-Shorter verb key (some expected) s n h =
    and_then-Shorter n _ _ (read_arguments-Shorter 1 (expected - 1) s n h) (λ arguments rest le.
      and_then-Shorter n _ _ (expect-Shorter 10 unfinished rest n le) (λ _ rest' le'. le'))

-- A record that was read leaves no more bytes than there were.
pub read_entry-Shorter : (verb s : Bytes) → Shorter (length s) (read_entry verb s)
unfolding read_entry
read_entry-Shorter verb s =
    and_then-Shorter (length s) _ _ (expect-Shorter b' ' _ s (length s) (omega arith)) (λ _ rest le.
      and_then-Shorter (length s) _ _ (read_field-Shorter _ rest (length s) le) (λ key rest' le'.
        if-Shorter (length s) (bytes_eq verb (codes "EXPIRE")) (read_expiry key)
          (read_words verb key (arguments_for verb)) rest'
          (read_expiry-Shorter key rest' (length s) le')
          (read_words-Shorter verb key (arguments_for verb) rest' (length s) le')))

non_empty-length :
    (word rest : Bytes) {verb rest' : Bytes}
    → non_empty (word, rest) ≡ some (verb, rest')
    → length rest' < length word + length rest
unfolding non_empty
non_empty-length [] rest h = cc
non_empty-length (c ∷ word) rest h = ground arith

-- A verb takes a byte at least.
pub read_word-length :
    (s : Bytes) {verb rest : Bytes} → read_word s ≡ some (verb, rest) → length rest < length s
unfolding read_word
read_word-length s h =
    let (word, rest) = take_word (skip_space s) in
    omega
      (arith, non_empty-length word rest h, take_word-length (skip_space s), skip_space-length s)
