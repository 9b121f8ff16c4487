-- ===== src/Resp/Parse.antt =====
-- `read_line`, `parse_value` and `parse` of src/resp.cpp.
pub mod RoundTrip
pub mod Depth
pub mod Streaming
pub mod Sound
use redis_lite_cpp.Common.{
  ℕ, zero, suc, ◌+◌, ◌-◌, ◌<◌, [], ◌∷◌, ◌++◌, Bool, true, false, ◌&&◌, ◌||◌, Option, none, some,
  ◌≡◌, refl, ltb, ◌==◌, if◌then◌else◌, length, take, drop, ℤ, pos, negsuc,
}
use redis_lite_cpp.Text.{Bytes, codes}
use redis_lite_cpp.Decimal.{to_integer}
use redis_lite_cpp.Resp.Value.{
  RespValue, Elements, resp, simple_string, error, integer, bulk_string, array, nil, cons,
  make_simple_string, make_error, make_integer, make_bulk_string, make_null_bulk_string, make_array,
  null_array,
}
use redis_lite_cpp.Resp.Parser.{
  Parsed, ok, incomplete, malformed, Parser, pure, fail, ◌>>=◌, bind, or_malformed,
}

-- `line.find(c) != npos`.
unfoldable pub contains : ℕ → Bytes → Bool
contains c [] = false
contains c (d ∷ s) = (d == c) || contains c s

unfoldable pub leads_lf : Bytes → Bool
leads_lf [] = false
leads_lf (c ∷ s) = c == 10

abbrev put_front : ℕ → Option (Bytes × Bytes) → Option (Bytes × Bytes)
put_front c none = none
put_front c (some (line, rest)) = some (c ∷ line, rest)

-- The bytes before the first CRLF and those behind it.
unfoldable pub find_crlf : Bytes → Option (Bytes × Bytes)
unfolding leads_lf
find_crlf [] = none
find_crlf (c ∷ s) =
    if (c == 13) && leads_lf s then some ([], drop 1 s) else put_front c (find_crlf s)

abbrev pub stray : Bytes
stray = codes "line contains a stray CR or LF"

checked_line : Option (Bytes × Bytes) → Parsed Bytes
unfolding contains
checked_line none = incomplete
checked_line (some (line, rest)) =
    if contains 13 line || contains 10 line then malformed stray else ok line rest

unfoldable pub read_line : Parser Bytes
unfolding find_crlf checked_line
read_line cursor = checked_line (find_crlf cursor)

-- The parts of the `switch` in `parse_value`, one for each type byte, behind the line.
unfoldable pub parse_integer : Bytes → Parser RespValue
parse_integer line =
    or_malformed (to_integer line) (codes "integer is not a valid number")
      λ number. pure (make_integer number)

-- Behind the bytes of a bulk string stands CRLF.
pub finish_bulk : Bytes → Parser RespValue
finish_bulk text (a ∷ b ∷ rest) =
    if (a == 13) && (b == 10)
    then ok (make_bulk_string text) rest
    else malformed (codes "bulk string is not terminated by CRLF")
finish_bulk text _ = incomplete

-- The bytes of a bulk string, and the CRLF behind them.
pub bulk_body : ℕ → Parser RespValue
unfolding finish_bulk
bulk_body n cursor =
    if ltb (length cursor) (n + 2) then incomplete else finish_bulk (take n cursor) (drop n cursor)

parse_bulk_at : ℤ → Parser RespValue
unfolding bulk_body
parse_bulk_at (pos n) = bulk_body n
parse_bulk_at (negsuc zero) = pure make_null_bulk_string
parse_bulk_at (negsuc (suc n)) = fail (codes "negative bulk string length")

unfoldable pub parse_bulk : Bytes → Parser RespValue
unfolding parse_bulk_at
parse_bulk line =
    or_malformed (to_integer line) (codes "bulk string length is not a valid number") parse_bulk_at

-- The loop over the elements of an array, with the parser of one element.
unfoldable pub parse_elements : Parser RespValue → ℕ → Parser Elements
parse_elements p zero cursor = ok nil cursor
parse_elements p (suc count) cursor =
    bind (p cursor)
      λ value rest. bind (parse_elements p count rest) λ values. pure (cons value values)

parse_array_at : Parser RespValue → ℤ → Parser RespValue
unfolding parse_elements
parse_array_at p (pos n) = parse_elements p n >>= λ values. pure (make_array values)
parse_array_at p (negsuc zero) = pure null_array
parse_array_at p (negsuc (suc n)) = fail (codes "negative array length")

unfoldable pub parse_array : Parser RespValue → Bytes → Parser RespValue
unfolding parse_array_at
parse_array p line =
    or_malformed (to_integer line) (codes "array length is not a valid number") (parse_array_at p)

-- The bytes that a line follows.
abbrev is_prefix : ℕ → Bool
is_prefix c = (c == b'+') || (c == b'-') || (c == b':') || (c == b'$') || (c == b'*')

-- The `switch (prefix)`.
unfoldable pub parse_line : Parser RespValue → ℕ → Bytes → Parser RespValue
unfolding parse_integer parse_bulk parse_array
parse_line p prefix line =
    if prefix == b'+'
    then pure (make_simple_string line)
    else if prefix == b'-'
    then pure (make_error line)
    else if prefix == b':'
    then parse_integer line
    else if prefix == b'$'
    then parse_bulk line
    else parse_array p line

abbrev pub max_depth : ℕ
max_depth = 128

-- The depth counts down: `levels` is `max_depth + 1 - depth`, so no level is left exactly when
-- `depth > max_depth`.
unfoldable pub parse_value : ℕ → Parser RespValue
unfolding parse_line read_line
parse_value zero cursor = malformed (codes "nesting is deeper than 128 levels")
parse_value (suc levels) [] = incomplete
parse_value (suc levels) (prefix ∷ cursor) =
    (if is_prefix prefix
        then read_line >>= parse_line (parse_value levels) prefix
        else fail (codes "unknown RESP type byte"))
      cursor
