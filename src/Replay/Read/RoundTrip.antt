-- ===== src/Replay/Read/RoundTrip.antt =====
-- What `log_command` and `log_expire` of src/persistence.cpp write, `replay_log` reads back.
use redis_lite_cpp.Common.{
  ap, drop, ℕ, suc, ◌-◌, ◌≤◌, [], ◌∷◌, ◌++◌, append_assoc, List, true, false, some, ◌≡◌, refl, sym,
  ◌∙◌, arith, ◌==◌, le→ltb, pos, length, length-append, take-append, drop-append, All,
  long_long_max, ◌≢◌, Bool-cases, subst, inl, inr,
}
use redis_lite_cpp.Text.{Bytes, codes, bytes_eq, bytes_eq_iff}
use redis_lite_cpp.Decimal.{
  signed, to_string, from_chars-to_string, from_chars-digits, leads_digit, leads_digit-digit_text,
}
use redis_lite_cpp.Log.{field_text, arguments_text, expire_text}
use redis_lite_cpp.Replay.Read.{
  is_space, take_word, read_word, read_number, got, expect, read_field, field_of_length,
  read_arguments, arguments_for, command, expiry, read_expiry, read_words, read_entry,
  read_number_or,
}

-- A text with no white space.
abbrev pub IsWord : Bytes → Type 0
IsWord = All (λ c. is_space c ≡ false)

take_word-IsWord :
    (word rest : Bytes) → IsWord word → take_word (word ++ (32 ∷ rest)) ≡ (word, 32 ∷ rest)
unfolding take_word
take_word-IsWord [] rest h = refl
take_word-IsWord (c ∷ word) rest h = rw (h.0, take_word-IsWord word rest h.1)

-- A word behind which a space stands is read whole.
pub read_word-IsWord :
    (c : ℕ) (word rest : Bytes)
    → IsWord (c ∷ word)
    → read_word (c ∷ (word ++ (32 ∷ rest))) ≡ some (c ∷ word, 32 ∷ rest)
unfolding read_word
read_word-IsWord c word rest h = rw (h.0, take_word-IsWord word rest h.1, h.0)

digit_not_space :
    (c : ℕ) (s : Bytes)
    → leads_digit (c ∷ s) ≡ true
    → (is_space c ≡ false) × ((c == b'-') ≡ false) × ((c == b'+') ≡ false)
unfolding leads_digit is_space
digit_not_space c s h = (ground arith, ground arith, ground arith)

read_number-digits : (s : Bytes) → leads_digit s ≡ true → read_number s ≡ signed false s
unfolding read_number
read_number-digits [] h = unfold leads_digit in cc
read_number-digits (c ∷ s) h =
    let (solid, minus, plus) = digit_not_space c s h in rw (solid, minus, plus)

pub read_number-pos :
    (n : ℕ) (rest : Bytes)
    → n ≤ long_long_max
    → leads_digit rest ≡ false
    → read_number (to_string (pos n) ++ rest) ≡ some (pos n, rest)
unfolding to_string
read_number-pos n rest fits h =
    read_number-digits _ (leads_digit-digit_text n rest)
    ∙ sym (from_chars-digits _ (leads_digit-digit_text n rest))
    ∙ from_chars-to_string (pos n) rest (fits, omega arith) h

field_of_length-append :
    (detail text rest : Bytes) → field_of_length (length text) detail (text ++ rest) ≡ got text rest
unfolding field_of_length
field_of_length-append detail text rest =
    rw (le→ltb (length (text ++ rest)) (length text) (omega (arith, length-append text rest)))
      (rw (take-append text rest, drop-append text rest))

-- A field that was written is read back, with what follows it.
pub read_field-field_text :
    (detail text rest : Bytes)
    → length text ≤ long_long_max
    → read_field detail (field_text text ++ rest) ≡ got text rest
unfolding read_field field_text leads_digit
read_field-field_text detail text rest fits =
    rw (append_assoc, read_number-pos (length text) (b' ' ∷ (text ++ rest)) fits refl)
      (field_of_length-append detail text rest)

-- A length that a `long long` can hold.
abbrev pub Fits : Bytes → Type 0
Fits text = length text ≤ long_long_max

read_arguments-arguments_text :
    (i : ℕ) (arguments : List Bytes) (rest : Bytes)
    → All Fits arguments
    → read_arguments i (length arguments) (arguments_text arguments ++ rest) ≡ got arguments rest
unfolding read_arguments arguments_text expect
read_arguments-arguments_text i [] rest h = refl
read_arguments-arguments_text i (x ∷ xs) rest h = rw (
  append_assoc,
  read_field-field_text (codes "bad argument " ++ to_string (pos (suc i))) x
      (arguments_text xs ++ rest) h.0,
  read_arguments-arguments_text (suc i) xs rest h.1,
)

read_words-arguments_text :
    (verb key : Bytes) (arguments : List Bytes) (rest : Bytes)
    → All Fits arguments
    → read_words verb key (some (suc (length arguments))) (arguments_text arguments ++ (10 ∷ rest))
      ≡ got (command (verb ∷ key ∷ arguments)) rest
unfolding read_words expect
read_words-arguments_text verb key arguments rest h =
    let before : suc (length arguments) - 1 ≡ length arguments = omega arith in
    rw (before, read_arguments-arguments_text 1 arguments (10 ∷ rest) h)

no_expire : {n : ℕ} → arguments_for (codes "EXPIRE") ≢ some n
unfolding arguments_for bytes_eq
no_expire h = cc

not_expire :
    (verb : Bytes) {n : ℕ} → arguments_for verb ≡ some n → bytes_eq verb (codes "EXPIRE") ≡ false
unfolding arguments_for bytes_eq
not_expire verb {n} h = elim (Bool-cases (bytes_eq verb (codes "EXPIRE"))) [
  | inl e ↦ absurd (no_expire (subst (λ v. arguments_for v ≡ some n) ((bytes_eq_iff verb _).0 e) h))
  | inr e ↦ e
]

pub read_entry-command :
    (verb key : Bytes) (arguments : List Bytes) (rest : Bytes)
    → arguments_for verb ≡ some (suc (length arguments))
    → All Fits (key ∷ arguments)
    → read_entry verb (arguments_text (key ∷ arguments) ++ (10 ∷ rest))
      ≡ got (command (verb ∷ key ∷ arguments)) rest
unfolding read_entry arguments_text expect
read_entry-command verb key arguments rest shape h =
    rw
      (
        append_assoc,
        read_field-field_text (codes "bad key field") key (arguments_text arguments ++ (10 ∷ rest))
            h.0,
        not_expire verb shape,
        shape,
      )
      (read_words-arguments_text verb key arguments rest h.1)

pub read_entry-expiry :
    (key rest : Bytes) (deadline : ℕ)
    → Fits key
    → deadline ≤ long_long_max
    → read_entry
        (codes "EXPIRE")
        (b' ' ∷ (field_text key ++ (b' ' ∷ (to_string (pos deadline) ++ (10 ∷ rest)))))
      ≡ got (expiry key (pos deadline)) rest
unfolding read_entry read_expiry read_number_or expect bytes_eq
read_entry-expiry key rest deadline h k = rw (
  read_field-field_text (codes "bad key field") key
      (b' ' ∷ (to_string (pos deadline) ++ (10 ∷ rest))) h,
  read_number-pos deadline (10 ∷ rest) k (unfold leads_digit in refl),
)

entry-deadline :
    {key key' : Bytes} {d d' : ℕ} {rest rest' : Bytes}
    → got (expiry key (pos d)) rest ≡ got (expiry key' (pos d')) rest'
    → d ≡ d'
entry-deadline e = ground arith

-- Two records of a deadline with the same text have the same deadline.
pub expire_text-deadline :
    (key key' : Bytes) (d d' : ℕ)
    → Fits key
    → Fits key'
    → d ≤ long_long_max
    → d' ≤ long_long_max
    → expire_text key (pos d) ≡ expire_text key' (pos d')
    → d ≡ d'
unfolding expire_text
expire_text-deadline key key' d d' h h' k k' e = entry-deadline (
    sym (read_entry-expiry key [] d h k)
    ∙ ap (λ s. read_entry (codes "EXPIRE") (drop 6 s)) e
    ∙ read_entry-expiry key' [] d' h' k')
