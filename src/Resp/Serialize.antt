-- ===== src/Resp/Serialize.antt =====
-- `serialize` of src/resp.cpp.
use redis_lite_cpp.Common.{ℕ, true, false, [], ◌∷◌, ◌++◌, ◌≡◌, refl, pos, length}
use redis_lite_cpp.Text.{Bytes, codes}
use redis_lite_cpp.Decimal.{to_string, digit_text}
use redis_lite_cpp.Resp.Value.{
  RespValue, Elements, resp, simple_string, error, integer, bulk_string, array, nil, cons, size,
  make_array, make_bulk_string, make_null_bulk_string,
}

abbrev pub crlf : Bytes
crlf = 13 ∷ 10 ∷ []

-- `std::to_string` of a size.
abbrev pub size_text : ℕ → Bytes
size_text n = to_string (pos n)

unfoldable mutual
  pub serialize : RespValue → Bytes
  serialize (resp simple_string string number elements is_null) = b'+' ∷ (string ++ crlf)
  serialize (resp error string number elements is_null) = b'-' ∷ (string ++ crlf)
  serialize (resp integer string number elements is_null) = b':' ∷ (to_string number ++ crlf)
  serialize (resp bulk_string string number elements true) = codes "$-1" ++ crlf
  serialize (resp bulk_string string number elements false) =
      b'$' ∷ (size_text (length string) ++ (crlf ++ (string ++ crlf)))
  serialize (resp array string number elements true) = codes "*-1" ++ crlf
  serialize (resp array string number elements false) =
      b'*' ∷ (size_text (size elements) ++ (crlf ++ serialize_elements elements))

  -- The loop over `value.elements`.
  pub serialize_elements : Elements → Bytes
  serialize_elements nil = []
  serialize_elements (cons value values) = serialize value ++ serialize_elements values

a_request :
    serialize (make_array (cons (make_bulk_string (codes "GET")) (cons make_null_bulk_string nil)))
    ≡ codes "*2\r\n$3\r\nGET\r\n$-1\r\n"
unfolding serialize to_string digit_text
a_request = refl
