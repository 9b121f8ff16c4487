-- ===== src/Resp/Parse/Streaming.antt =====
-- More input never changes a parse of src/resp.cpp that was complete or malformed: the statuses of
-- `ParseStatus` mean what their comments say, so a buffer may be parsed as it fills.
use redis_lite_cpp.Common.{
  ℕ, zero, suc, ◌+◌, ◌≤◌, [], ◌∷◌, ◌++◌, Bool, true, false, ◌&&◌, ◌||◌, Option, none, some, ◌≡◌,
  refl, sym, ap, inl, inr, arith, ltb, ◌==◌, if◌then◌else◌, Bool-cases, length, length-append, take,
  drop, take-append_le, drop-append_le, ℤ, pos, negsuc, subst, le→ltb, Option-cases, ltb→le,
  length-drop,
}
use redis_lite_cpp.Text.{Bytes}
use redis_lite_cpp.Decimal.{to_integer}
use redis_lite_cpp.Resp.Value.{RespValue}
use redis_lite_cpp.Resp.Parser.{Parsed, ok, incomplete, malformed, Parser, bind, or_malformed}
use redis_lite_cpp.Resp.Parse.{
  stray, contains, put_front, find_crlf, leads_lf, read_line, checked_line, bulk_body, finish_bulk,
  parse_bulk_at, parse_bulk, parse_integer, parse_elements, parse_array_at, parse_array, parse_line,
  parse_value, is_prefix,
}

-- `r'` is what `r` becomes when `more` is put behind the input.
abbrev pub Grows {ℓ} : {A : Type ℓ} → Bytes → Parsed A → Parsed A → Type ℓ
Grows more (ok a rest) r' = r' ≡ ok a (rest ++ more)
Grows more incomplete r' = Unit
Grows more (malformed error) r' = r' ≡ malformed error

abbrev pub IsStable {ℓ} : {A : Type ℓ} → Parser A → Type ℓ
IsStable p = (s more : Bytes) → Grows more (p s) (p (s ++ more))

bind-Grows {ℓ κ} :
    {A : Type ℓ} {B : Type κ} (r r' : Parsed A) (f : A → Parser B) (more : Bytes)
    → Grows more r r'
    → ((a : A) → IsStable (f a))
    → Grows more (bind r f) (bind r' f)
bind-Grows (ok a rest) r' f more h st =
    subst (λ x. Grows more (f a rest) (bind x f)) (sym h) (st a rest more)
bind-Grows incomplete r' f more h st = tt
bind-Grows (malformed error) r' f more h st = ap (λ x. bind x f) h

if-IsStable {ℓ} :
    {A : Type ℓ} (b : Bool) (p q : Parser A)
    → IsStable p
    → IsStable q
    → IsStable (λ s. (if b then p else q) s)
if-IsStable true p q hp hq = hp
if-IsStable false p q hp hq = hq

find_crlf_step :
    (c : ℕ) (s : Bytes)
    → find_crlf (c ∷ s)
      ≡ (if (c == 13) && leads_lf s then some ([], drop 1 s) else put_front c (find_crlf s))
unfolding find_crlf
find_crlf_step c s = refl

find_crlf-append :
    (s more line rest : Bytes)
    → find_crlf s ≡ some (line, rest)
    → find_crlf (s ++ more) ≡ some (line, rest ++ more)
unfolding leads_lf
find_crlf-append [] more line rest h = unfold find_crlf in cc
find_crlf-append (c ∷ []) more line rest h = unfold find_crlf in ground arith
find_crlf-append (c ∷ d ∷ s) more line rest h = elim (Option-cases (find_crlf (d ∷ s))) [
  | inl e ↦ ground (arith, find_crlf_step c (d ∷ s), find_crlf_step c (d ∷ (s ++ more)))
  | inr ((l, r), e) ↦ ground (
    arith,
    find_crlf_step c (d ∷ s),
    find_crlf_step c (d ∷ (s ++ more)),
    find_crlf-append (d ∷ s) more l r e,
  )
]

checked_line-Grows :
    (line rest more : Bytes)
    → Grows more (checked_line (some (line, rest))) (checked_line (some (line, rest ++ more)))
unfolding checked_line
checked_line-Grows line rest more =
    elim (contains 13 line || contains 10 line)
      as (λ b.
        Grows more (if b then malformed stray else ok line rest)
          (if b then malformed stray else ok line (rest ++ more))) [ true ↦ refl | false ↦ refl ]

read_line-IsStable : IsStable read_line
unfolding read_line
read_line-IsStable s more = go (find_crlf s) refl
  where
    go :
        (o : Option (Bytes × Bytes))
        → find_crlf s ≡ o
        → Grows more (checked_line o) (checked_line (find_crlf (s ++ more)))
    go none e = tt
    go (some (line, rest)) e =
        rw (find_crlf-append s more line rest e) (checked_line-Grows line rest more)

finish_bulk-Grows :
    (text t more : Bytes)
    → 2 ≤ length t
    → Grows more (finish_bulk text t) (finish_bulk text (t ++ more))
unfolding finish_bulk
finish_bulk-Grows text [] more h = absurd (omega arith)
finish_bulk-Grows text (a ∷ []) more h = absurd (omega arith)
finish_bulk-Grows text (a ∷ b ∷ t) more h = elim (Bool-cases ((a == 13) && (b == 10))) [
  | inl e ↦ rw (e, Grows)
  | inr e ↦ rw (e, Grows)
]

pub bulk_body_full :
    (n : ℕ) (s : Bytes) → n + 2 ≤ length s → bulk_body n s ≡ finish_bulk (take n s) (drop n s)
unfolding bulk_body
bulk_body_full n s h = rw (le→ltb (length s) (n + 2) h)

bulk_body-IsStable : (n : ℕ) → IsStable (bulk_body n)
bulk_body-IsStable n s more = elim (Bool-cases (ltb (length s) (n + 2))) [
  | inl short ↦ unfold bulk_body in rw (short, Grows) tt
  | inr full ↦
      let fits = ltb→le (length s) (n + 2) full in
      rw
        (
          bulk_body_full n s fits,
          bulk_body_full n (s ++ more) (omega (arith, length-append s more)),
          take-append_le n s more (omega arith),
          drop-append_le n s more (omega arith),
        )
        (finish_bulk-Grows (take n s) (drop n s) more (omega (arith, length-drop n s)))
]

or_malformed-IsStable {ℓ κ} :
    {A : Type ℓ} {B : Type κ} (o : Option A) (error : Bytes) (f : A → Parser B)
    → ((a : A) → IsStable (f a))
    → IsStable (or_malformed o error f)
or_malformed-IsStable none error f st s more = refl
or_malformed-IsStable (some a) error f st s more = st a s more

parse_bulk_at-IsStable : (z : ℤ) → IsStable (parse_bulk_at z)
unfolding parse_bulk_at
parse_bulk_at-IsStable (pos n) = bulk_body-IsStable n
parse_bulk_at-IsStable (negsuc zero) = λ s more. refl
parse_bulk_at-IsStable (negsuc (suc n)) = λ s more. refl

module _ (p : Parser RespValue) (stable : IsStable p) where
  parse_elements-IsStable : (count : ℕ) → IsStable (parse_elements p count)
  unfolding parse_elements
  parse_elements-IsStable zero s more = refl
  parse_elements-IsStable (suc count) s more =
      bind-Grows (p s) (p (s ++ more)) _ more (stable s more) λ value s' more'.
        bind-Grows (parse_elements p count s') (parse_elements p count (s' ++ more')) _ more'
          (parse_elements-IsStable count s' more') λ values t u. refl

  parse_array_at-IsStable : (z : ℤ) → IsStable (parse_array_at p z)
  unfolding parse_array_at
  parse_array_at-IsStable (pos n) s more =
      bind-Grows (parse_elements p n s) (parse_elements p n (s ++ more)) _ more
        (parse_elements-IsStable n s more) λ values t u. refl
  parse_array_at-IsStable (negsuc zero) s more = refl
  parse_array_at-IsStable (negsuc (suc n)) s more = refl

  parse_line-IsStable : (prefix : ℕ) (line : Bytes) → IsStable (parse_line p prefix line)
  unfolding parse_line parse_integer parse_bulk parse_array
  parse_line-IsStable prefix line =
      if-IsStable (prefix == b'+') _ _ (λ s more. refl)
        (if-IsStable (prefix == b'-') _ _ (λ s more. refl)
          (if-IsStable (prefix == b':') _ _
            (or_malformed-IsStable (to_integer line) _ _ λ z s more. refl)
            (if-IsStable (prefix == b'$') _ _
              (or_malformed-IsStable (to_integer line) _ _ parse_bulk_at-IsStable)
              (or_malformed-IsStable (to_integer line) _ _ parse_array_at-IsStable))))

pub parse_value-IsStable : (levels : ℕ) → IsStable (parse_value levels)
unfolding parse_value
parse_value-IsStable zero s more = refl
parse_value-IsStable (suc levels) [] more = tt
parse_value-IsStable (suc levels) (prefix ∷ s) more =
    if-IsStable (is_prefix prefix) _ _
      (λ t u.
        bind-Grows (read_line t) (read_line (t ++ u)) _ u (read_line-IsStable t u)
          (parse_line-IsStable (parse_value levels) (parse_value-IsStable levels) prefix))
      (λ t u. refl) s more
