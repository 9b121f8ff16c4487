-- ===== src/Replay/Read/Steady.antt =====
-- A record of the log of src/persistence.cpp that has been read is read in the same way when more
-- bytes stand behind it.
use redis_lite_cpp.Common.{
  ℕ, zero, suc, ◌-◌, ◌≤◌, [], ◌∷◌, ◌++◌, Bool, true, false, Option, none, some, ◌≡◌, refl, sym, ap,
  subst, arith, ltb, if◌then◌else◌, ℤ, pos, negsuc, length, length-append, le→ltb, take, drop, ◌==◌,
  Bool-cases, inl, inr,
}
use mathlib.Core.Option.{some_inj}
use redis_lite_cpp.Text.{Bytes, codes, bytes_eq}
use redis_lite_cpp.Decimal.{Firm, signed-Firm}
use redis_lite_cpp.Replay.Read.{
  is_space, skip_space, read_number, signed_number, Read, Reader, unfinished, got, bad, and_then,
  or_bad, expect, read_field, field_at, field_of_length, read_arguments, arguments_for, read_expiry,
  read_words, read_entry, read_number_or,
}

module _ (more : Bytes) where
  -- What was read is read again, and more is left.
  abbrev pub Steady : {A : Type 0} → Read A → Read A → Type 0
  Steady (got a rest) r = r ≡ got a (rest ++ more)
  Steady (bad detail) r = Unit

  and_then-Steady :
      {A B : Type 0} (r r' : Read A) (f : A → Reader B)
      → Steady r r'
      → ((a : A) (rest : Bytes) → Steady (f a rest) (f a (rest ++ more)))
      → Steady (and_then r f) (and_then r' f)
  and_then-Steady (bad detail) r' f h k = tt
  and_then-Steady (got a rest) r' f h k =
      subst (λ r. Steady (f a rest) (and_then r f)) (sym h) (k a rest)

  abbrev IsBad : {A : Type 0} → Read A → Type 0
  IsBad (got a rest) = ⊥
  IsBad (bad detail) = Unit

  of_bad : {A : Type 0} (r r' : Read A) → IsBad r → Steady r r'
  of_bad (got a rest) r' h = absurd h
  of_bad (bad detail) r' h = tt

  -- A number, with a reader behind it that does not accept the end of the file.
  number-Steady :
      {B : Type 0} (detail : Bytes) (o o' : Option (ℤ × Bytes)) (f : ℤ → Reader B)
      → Firm more o o'
      → ((z : ℤ) (rest : Bytes) → Steady (f z rest) (f z (rest ++ more)))
      → ((z : ℤ) → IsBad (f z []))
      → Steady (and_then (or_bad detail o) f) (and_then (or_bad detail o') f)
  number-Steady detail none o' f h k ends = tt
  number-Steady detail (some (z, [])) o' f h k ends = of_bad (f z []) _ (ends z)
  number-Steady detail (some (z, c ∷ rest)) o' f h k ends =
      subst (λ o. Steady (f z (c ∷ rest)) (and_then (or_bad detail o) f)) (sym h) (k z (c ∷ rest))

  expect-Steady :
      (c : ℕ) (detail s : Bytes) → Steady (expect c detail s) (expect c detail (s ++ more))
  unfolding expect
  expect-Steady c detail [] = tt
  expect-Steady c detail (d ∷ s) = go (d == c)
    where
      go :
          (b : Bool)
          → Steady
              (if b then got tt s else bad detail)
              (if b then got tt (s ++ more) else bad detail)
      go true = refl
      go false = tt

  take-more : (n : ℕ) (s : Bytes) → n ≤ length s → take n (s ++ more) ≡ take n s
  take-more zero s h = refl
  take-more (suc n) [] h = absurd (omega arith)
  take-more (suc n) (c ∷ s) h = ap (λ t. c ∷ t) (take-more n s (omega arith))

  drop-more : (n : ℕ) (s : Bytes) → n ≤ length s → drop n (s ++ more) ≡ drop n s ++ more
  drop-more zero s h = refl
  drop-more (suc n) [] h = absurd (omega arith)
  drop-more (suc n) (c ∷ s) h = drop-more n s (omega arith)

  field_of_length-Steady :
      (n : ℕ) (detail s : Bytes)
      → Steady (field_of_length n detail s) (field_of_length n detail (s ++ more))
  unfolding field_of_length
  field_of_length-Steady n detail s = elim (Bool-cases (ltb (length s) n)) [
    | inl e ↦ rw e tt
    | inr e ↦
        let enough : n ≤ length s = ground arith in
        rw (
          e,
          le→ltb (length (s ++ more)) n (omega (arith, length-append s more)),
          take-more n s enough,
          drop-more n s enough,
        )
  ]

  skip_space-Firm :
      (s : Bytes) → Firm more (some (tt, skip_space s)) (some (tt, skip_space (s ++ more)))
  unfolding skip_space
  skip_space-Firm [] = tt
  skip_space-Firm (c ∷ s) = go (is_space c) _ _ (skip_space-Firm s)
    where
      go :
          (b : Bool) (x y : Bytes)
          → Firm {A = Unit {0}} more (some (tt, x)) (some (tt, y))
          → Firm {A = Unit {0}} more
              (some (tt, if b then x else c ∷ s))
              (some (tt, if b then y else c ∷ (s ++ more)))
      go true x y h = h
      go false x y h = refl

  if-Firm :
      {A : Type 0} (b : Bool) (x x' y y' : Option (A × Bytes))
      → Firm more x x'
      → Firm more y y'
      → Firm more (if b then x else y) (if b then x' else y')
  if-Firm true x x' y y' h k = h
  if-Firm false x x' y y' h k = k

  signed_number-Firm :
      (c : ℕ) (s : Bytes) → Firm more (signed_number (c ∷ s)) (signed_number (c ∷ (s ++ more)))
  signed_number-Firm c s =
      if-Firm (c == b'-') _ _ _ _ (signed-Firm true s more)
        (if-Firm (c == b'+') _ _ _ _ (signed-Firm false s more) (signed-Firm false (c ∷ s) more))

  read_number-Firm : (s : Bytes) → Firm more (read_number s) (read_number (s ++ more))
  unfolding read_number
  read_number-Firm s = go (skip_space s) (skip_space (s ++ more)) (skip_space-Firm s)
    where
      go :
          (x y : Bytes)
          → Firm {A = Unit {0}} more (some (tt, x)) (some (tt, y))
          → Firm more (signed_number x) (signed_number y)
      go [] y h = tt
      go (c ∷ x) y h =
          subst (λ p. Firm more (signed_number (c ∷ x)) (signed_number p.1)) (sym (some_inj.0 h))
            (signed_number-Firm c x)

  field_at-Steady :
      (detail : Bytes) (z : ℤ) (s : Bytes)
      → Steady (field_at detail z s) (field_at detail z (s ++ more))
  unfolding field_at
  field_at-Steady detail (negsuc n) s = tt
  field_at-Steady detail (pos n) s =
      and_then-Steady _ _ _ (expect-Steady b' ' detail s)
        (λ u rest. field_of_length-Steady n detail rest)

  field_at-IsBad : (detail : Bytes) (z : ℤ) → IsBad (field_at detail z [])
  unfolding field_at expect
  field_at-IsBad detail (negsuc n) = tt
  field_at-IsBad detail (pos n) = tt

  read_field-Steady :
      (detail s : Bytes) → Steady (read_field detail s) (read_field detail (s ++ more))
  unfolding read_field
  read_field-Steady detail s =
      number-Steady detail _ _ (field_at detail) (read_number-Firm s) (field_at-Steady detail)
        (field_at-IsBad detail)

  read_arguments-Steady :
      (i rounds : ℕ) (s : Bytes)
      → Steady (read_arguments i rounds s) (read_arguments i rounds (s ++ more))
  unfolding read_arguments
  read_arguments-Steady i zero s = refl
  read_arguments-Steady i (suc rounds) s =
      and_then-Steady _ _ _
        (and_then-Steady _ _ _ (expect-Steady b' ' _ s) (λ u rest. read_field-Steady _ rest))
        (λ argument rest.
          and_then-Steady _ _ _ (read_arguments-Steady (suc i) rounds rest)
            (λ arguments rest. refl))

  read_expiry-Steady : (key s : Bytes) → Steady (read_expiry key s) (read_expiry key (s ++ more))
  unfolding read_expiry read_number_or expect
  read_expiry-Steady key s = and_then-Steady _ _ _ (expect-Steady b' ' _ s) (λ u rest.
      number-Steady (codes "bad deadline") _ _ _ (read_number-Firm rest)
        (λ deadline rest'.
          and_then-Steady _ _ _ (expect-Steady 10 unfinished rest') (λ u rest. refl))
        (λ deadline. tt))

  read_words-Steady :
      (verb key : Bytes) (expected : Option ℕ) (s : Bytes)
      → Steady (read_words verb key expected s) (read_words verb key expected (s ++ more))
  unfolding read_words
  read_words-Steady verb key none s = tt
  read_words-Steady verb key (some expected) s =
      and_then-Steady _ _ _ (read_arguments-Steady 1 (expected - 1) s) (λ arguments rest.
        and_then-Steady _ _ _ (expect-Steady 10 unfinished rest) (λ u rest. refl))

  if-Steady :
      {A : Type 0} (b : Bool) (x y : Reader A) (s : Bytes)
      → Steady (x s) (x (s ++ more))
      → Steady (y s) (y (s ++ more))
      → Steady ((if b then x else y) s) ((if b then x else y) (s ++ more))
  if-Steady true x y s h k = h
  if-Steady false x y s h k = k

  pub read_entry-Steady :
      (verb s : Bytes) → Steady (read_entry verb s) (read_entry verb (s ++ more))
  unfolding read_entry
  read_entry-Steady verb s = and_then-Steady _ _ _ (expect-Steady b' ' _ s) (λ u rest.
      and_then-Steady _ _ _ (read_field-Steady _ rest) (λ key rest'.
        if-Steady (bytes_eq verb (codes "EXPIRE")) (read_expiry key)
          (read_words verb key (arguments_for verb)) rest' (read_expiry-Steady key rest')
          (read_words-Steady verb key (arguments_for verb) rest')))
