-- ===== src/Resp/Parse/RoundTrip.antt =====
-- What `serialize` of src/resp.cpp writes, `parse_value` reads back.
use redis_lite_cpp.Common.{
  ℕ, zero, suc, ◌≤◌, [], ◌∷◌, ◌++◌, append_assoc, true, false, some, ◌≡◌, refl, sym, ◌∙◌, arith,
  length, length-append, take-append, drop-append, ℤ, pos, IsLongLong, long_long_max,
}
use redis_lite_cpp.Text.{Bytes, codes}
use redis_lite_cpp.Decimal.{IsLine, to_integer, to_string, to_integer-to_string, to_string-IsLine}
use redis_lite_cpp.Resp.Value.{
  simple_string, error, integer, bulk_string, array, RespValue, Elements, resp, nil, cons, size,
  AllElements, make_integer, make_bulk_string, make_null_bulk_string, make_array, null_array,
}
use redis_lite_cpp.Resp.Serialize.{crlf, size_text, serialize, serialize_elements}
use redis_lite_cpp.Resp.Wire.{IsWire}
use redis_lite_cpp.Resp.Parser.{ok, Parser}
use redis_lite_cpp.Resp.Parse.{
  contains, find_crlf, read_line, finish_bulk, parse_bulk_at, parse_bulk, parse_integer,
  parse_elements, parse_array_at, parse_array, parse_line, parse_value, is_prefix,
}
use redis_lite_cpp.Resp.Parse.Streaming.{bulk_body_full}

contains-IsLine :
    (line : Bytes) → IsLine line → (contains 13 line ≡ false) × (contains 10 line ≡ false)
unfolding contains
contains-IsLine [] h = (refl, refl)
contains-IsLine (c ∷ line) h = ground (arith, contains-IsLine line)

find_crlf-IsLine :
    (line rest : Bytes) → IsLine line → find_crlf (line ++ (crlf ++ rest)) ≡ some (line, rest)
unfolding find_crlf
find_crlf-IsLine [] rest h = refl
find_crlf-IsLine (c ∷ line) rest h = ground (arith, find_crlf-IsLine line rest)

pub read_line-IsLine :
    (line rest : Bytes) → IsLine line → read_line (line ++ (crlf ++ rest)) ≡ ok line rest
unfolding read_line
read_line-IsLine line rest h =
    let clean = contains-IsLine line h in rw (find_crlf-IsLine line rest h) (rw (clean.0, clean.1))

-- One type byte, a line, and what stands behind it.
parse_value-line :
    (levels prefix : ℕ) (line rest : Bytes)
    → is_prefix prefix ≡ true
    → IsLine line
    → parse_value (suc levels) (prefix ∷ (line ++ (crlf ++ rest)))
      ≡ parse_line (parse_value levels) prefix line rest
unfolding parse_value
parse_value-line levels prefix line rest known clean = rw (known, read_line-IsLine line rest clean)

parse_integer-to_string :
    (z : ℤ) (rest : Bytes)
    → IsLongLong z
    → parse_integer (to_string z) rest ≡ ok (make_integer z) rest
unfolding parse_integer
parse_integer-to_string z rest range = rw (to_integer-to_string z range)

size-IsLongLong : (n : ℕ) → n ≤ long_long_max → IsLongLong (pos n)
size-IsLongLong n h = (h, omega arith)

parse_bulk-size_text :
    (s rest : Bytes)
    → length s ≤ long_long_max
    → parse_bulk (size_text (length s)) (s ++ (crlf ++ rest)) ≡ ok (make_bulk_string s) rest
unfolding parse_bulk parse_bulk_at
parse_bulk-size_text s rest fits =
    rw (to_integer-to_string (pos (length s)) (size-IsLongLong (length s) fits)) (
      rw
        (bulk_body_full (length s) (s ++ (crlf ++ rest))
          (omega (arith, length-append s (crlf ++ rest))))
        (rw (take-append s (crlf ++ rest), drop-append s (crlf ++ rest))
          (unfold finish_bulk in refl)))

serialize_elements-cons :
    (v : RespValue) (vs : Elements)
    → serialize_elements (cons v vs) ≡ serialize v ++ serialize_elements vs
unfolding serialize
serialize_elements-cons v vs = refl

-- `p` reads back every value of at most `levels` levels.
abbrev ReadsBack : ℕ → Parser RespValue → Type 0
ReadsBack levels p =
    (v : RespValue) (rest : Bytes) → IsWire levels v → p (serialize v ++ rest) ≡ ok v rest

module _ (levels : ℕ) (p : Parser RespValue) (reads : ReadsBack levels p) where
  parse_elements_step :
      (n : ℕ) {s s' rest : Bytes} {v : RespValue} {vs : Elements}
      → p s ≡ ok v s'
      → parse_elements p n s' ≡ ok vs rest
      → parse_elements p (suc n) s ≡ ok (cons v vs) rest
  unfolding parse_elements
  parse_elements_step n h k = rw (h, k)

  parse_elements-serialize :
      (vs : Elements) (rest : Bytes)
      → AllElements (IsWire levels) vs
      → parse_elements p (size vs) (serialize_elements vs ++ rest) ≡ ok vs rest
  parse_elements-serialize nil rest h = unfold parse_elements serialize in refl
  parse_elements-serialize (cons v vs) rest h =
      rw (serialize_elements-cons v vs, append_assoc)
        (parse_elements_step (size vs) (reads v (serialize_elements vs ++ rest) h.0)
          (parse_elements-serialize vs rest h.1))

  parse_array-serialize :
      (vs : Elements) (rest : Bytes)
      → size vs ≤ long_long_max
      → AllElements (IsWire levels) vs
      → parse_array p (size_text (size vs)) (serialize_elements vs ++ rest)
        ≡ ok (make_array vs) rest
  unfolding parse_array parse_array_at
  parse_array-serialize vs rest fits h =
      rw (to_integer-to_string (pos (size vs)) (size-IsLongLong (size vs) fits))
        (rw (parse_elements-serialize vs rest h))

parse_bulk_null : (rest : Bytes) → parse_bulk (codes "-1") rest ≡ ok make_null_bulk_string rest
unfolding parse_bulk to_integer
parse_bulk_null rest = refl

parse_array_null :
    (p : Parser RespValue) (rest : Bytes) → parse_array p (codes "-1") rest ≡ ok null_array rest
unfolding parse_array to_integer
parse_array_null p rest = refl

-- With enough levels, the parser reads a serialised value off the front of any input.
pub parse_value-serialize : (levels : ℕ) → ReadsBack levels (parse_value levels)
unfolding serialize parse_line
parse_value-serialize zero v rest h = absurd h
parse_value-serialize (suc levels) (resp simple_string s n vs b) rest h =
    rw append_assoc (parse_value-line levels b'+' s rest refl h.0 ∙ cc (sym h.1, sym h.2, sym h.3))
parse_value-serialize (suc levels) (resp error s n vs b) rest h =
    rw append_assoc (parse_value-line levels b'-' s rest refl h.0 ∙ cc (sym h.1, sym h.2, sym h.3))
parse_value-serialize (suc levels) (resp integer s n vs b) rest h = rw append_assoc (
    parse_value-line levels b':' (to_string n) rest refl (to_string-IsLine n)
    ∙ parse_integer-to_string n rest h.0
    ∙ cc (sym h.1, sym h.2, sym h.3))
parse_value-serialize (suc levels) (resp bulk_string s n vs true) rest h =
    parse_value-line levels b'$' (codes "-1") rest refl (omega arith)
    ∙ parse_bulk_null rest
    ∙ cc (sym h.0, sym h.1, sym h.2)
parse_value-serialize (suc levels) (resp bulk_string s n vs false) rest h = simp append_assoc (
    parse_value-line levels b'$' (size_text (length s)) (s ++ (crlf ++ rest)) refl
      (to_string-IsLine (pos (length s)))
    ∙ parse_bulk-size_text s rest h.0
    ∙ cc (sym h.1, sym h.2))
parse_value-serialize (suc levels) (resp array s n vs true) rest h =
    parse_value-line levels b'*' (codes "-1") rest refl (omega arith)
    ∙ parse_array_null (parse_value levels) rest
    ∙ cc (sym h.0, sym h.1, sym h.2)
parse_value-serialize (suc levels) (resp array s n vs false) rest h = simp append_assoc (
    parse_value-line levels b'*' (size_text (size vs)) (serialize_elements vs ++ rest) refl
      (to_string-IsLine (pos (size vs)))
    ∙ parse_array-serialize levels (parse_value levels) (parse_value-serialize levels) vs rest h.2
        h.3
    ∙ cc (sym h.0, sym h.1))
