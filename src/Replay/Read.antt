-- ===== src/Replay/Read.antt =====
-- One record of the log, as `replay_log` and `read_field` of src/persistence.cpp read it. The stream is
-- the bytes of the file that are not yet read, so `limit - here` is their number.
pub mod RoundTrip
pub mod Shorter
pub mod Steady
use redis_lite_cpp.Common.{
  ℕ, zero, suc, ◌+◌, ◌-◌, [], ◌∷◌, ◌++◌, List, map, Bool, true, false, ◌||◌, ◌&&◌, Option, none,
  some, ◌≡◌, refl, leb, ltb, ◌==◌, if◌then◌else◌, ℤ, pos, negsuc, length, take, drop,
}
use redis_lite_cpp.Text.{Bytes, codes, bytes_eq}
use redis_lite_cpp.Decimal.{signed, to_string}

-- The white space that `>>` skips.
unfoldable pub is_space : ℕ → Bool
is_space c = (c == 32) || (leb 9 c && leb c 13)

unfoldable pub skip_space : Bytes → Bytes
unfolding is_space
skip_space [] = []
skip_space (c ∷ s) = let rest = skip_space s in if is_space c then rest else c ∷ s

-- The bytes up to white space or the end, and what follows.
unfoldable pub take_word : Bytes → Bytes × Bytes
unfolding is_space
take_word [] = ([], [])
take_word (c ∷ s) =
    let (word, rest) = take_word s in if is_space c then ([], c ∷ s) else (c ∷ word, rest)

non_empty : Bytes × Bytes → Option (Bytes × Bytes)
non_empty ([], rest) = none
non_empty (c ∷ word, rest) = some (c ∷ word, rest)

-- `in >> verb`
unfoldable pub read_word : Bytes → Option (Bytes × Bytes)
unfolding skip_space take_word non_empty
read_word s = non_empty (take_word (skip_space s))

-- A number behind an optional sign.
abbrev pub signed_number : Bytes → Option (ℤ × Bytes)
signed_number [] = none
signed_number (c ∷ s) =
    if c == b'-' then signed true s else if c == b'+' then signed false s else signed false (c ∷ s)

-- `in >> number` for a `long long`
unfoldable pub read_number : Bytes → Option (ℤ × Bytes)
unfolding skip_space
read_number s = signed_number (skip_space s)

-- What was read and the rest, or the detail of the error.
pub data Read {ℓ} (A : Type ℓ) : Type ℓ where
  got : A → Bytes → Read A
  bad : Bytes → Read A

abbrev pub Reader {ℓ} : Type ℓ → Type ℓ
Reader A = Bytes → Read A

module _ {ℓ κ} {A : Type ℓ} {B : Type κ} where
  abbrev pub and_then : Read A → (A → Reader B) → Read B
  and_then (got a rest) f = f a rest
  and_then (bad detail) f = bad detail

  infixl 5 ◌>>=◌
  abbrev pub ◌>>=◌ : Reader A → (A → Reader B) → Reader B
  r >>= f = λ s. and_then (r s) f

  infixl 5 ◌>>◌
  abbrev pub ◌>>◌ : Reader A → Reader B → Reader B
  r >> k = r >>= λ _. k

-- `in.get() != c` is an error.
unfoldable pub expect : ℕ → Bytes → Reader (Unit {0})
expect c detail [] = bad detail
expect c detail (d ∷ s) = if d == c then got tt s else bad detail

abbrev pub or_bad {ℓ} : {A : Type ℓ} → Bytes → Option (A × Bytes) → Read A
or_bad detail none = bad detail
or_bad detail (some (a, rest)) = got a rest

field_of_length : ℕ → Bytes → Reader Bytes
field_of_length n detail s = if ltb (length s) n then bad detail else got (take n s) (drop n s)

field_at : Bytes → ℤ → Reader Bytes
unfolding field_of_length
field_at detail (negsuc n) s = bad detail
field_at detail (pos n) s = (expect b' ' detail >> field_of_length n detail) s

-- `read_field`, with the detail that its callers give to its failure.
unfoldable pub read_field : Bytes → Reader Bytes
unfolding read_number field_at expect
read_field detail s = and_then (or_bad detail (read_number s)) (field_at detail)

-- `kRecordShapes` and `arguments_for`; `none` is -1.
abbrev pub shapes : List (Bytes × ℕ)
shapes =
    (codes "SET", 2)
    ∷ (codes "DEL", 1)
    ∷ (codes "LPUSH", 2)
    ∷ (codes "RPUSH", 2)
    ∷ (codes "LPOP", 1)
    ∷ (codes "RPOP", 1)
    ∷ (codes "HSET", 3)
    ∷ (codes "HDEL", 2)
    ∷ (codes "SADD", 2)
    ∷ (codes "SREM", 2)
    ∷ []

unfoldable pub find_shape : Bytes → List (Bytes × ℕ) → Option ℕ
find_shape verb [] = none
find_shape verb ((name, arguments) ∷ rest) =
    if bytes_eq verb name then some arguments else find_shape verb rest

unfoldable pub arguments_for : Bytes → Option ℕ
unfolding find_shape
arguments_for verb = find_shape verb shapes

-- The loop over the arguments behind the key: the one at `i` is number `i + 1`.
unfoldable pub read_arguments : ℕ → ℕ → Reader (List Bytes)
read_arguments i zero s = got [] s
read_arguments i (suc rounds) s =
    and_then
      (and_then
        (expect b' ' (codes "expected a space before argument " ++ to_string (pos (suc i))) s)
        λ _. read_field (codes "bad argument " ++ to_string (pos (suc i))))
      λ argument rest.
        and_then (read_arguments (suc i) rounds rest) λ arguments. got (argument ∷ arguments)

-- A record: words to execute, or a key with its deadline in Unix seconds.
pub data Entry : Type 0 where
  command : List Bytes → Entry
  expiry : Bytes → ℤ → Entry

abbrev pub unfinished : Bytes
unfinished = codes "record does not end with a newline"

read_number_or : Bytes → Reader ℤ
read_number_or detail s = or_bad detail (read_number s)

read_expiry : Bytes → Reader Entry
unfolding read_number_or
read_expiry key = do
  expect b' ' (codes "expected a space before the deadline")
  deadline ← read_number_or (codes "bad deadline")
  expect 10 unfinished
  got (expiry key deadline)

read_words : Bytes → Bytes → Option ℕ → Reader Entry
unfolding read_arguments
read_words verb key none s = bad (codes "unknown record type '" ++ (verb ++ codes "'"))
read_words verb key (some expected) s =
    (do
      arguments ← read_arguments 1 (expected - 1)
      expect 10 unfinished
      got (command (verb ∷ key ∷ arguments)))
      s

-- A record behind its verb.
unfoldable pub read_entry : Bytes → Reader Entry
unfolding read_field read_expiry read_words arguments_for
read_entry verb = do
  expect b' ' (codes "expected a space after " ++ verb)
  key ← read_field (codes "bad key field")
  if bytes_eq verb (codes "EXPIRE")
      then read_expiry key
      else read_words verb key (arguments_for verb)
