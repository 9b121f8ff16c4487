-- ===== src/Tests/Wire.antt =====
-- Values and bytes of src/resp.cpp.
use redis_lite_cpp.Common.{◌++◌, ◌≡◌, refl, pos, negsuc, length, arith, some, ◌≤◌, ◌<◌}
use redis_lite_cpp.Text.{Bytes, codes}
use redis_lite_cpp.Decimal.Numerals.{IsNumber, to_integer_iff}
use redis_lite_cpp.Common.{◌↔◌}
use redis_lite_cpp.Decimal.{to_integer, to_string, digit_text}
use redis_lite_cpp.Resp.Value.{RespValue, nil, cons, make_integer, make_bulk_string, make_array}
use redis_lite_cpp.Resp.Serialize.{serialize}
use redis_lite_cpp.Resp.Wire.{IsWire}
use redis_lite_cpp.Resp.Parse.{max_depth, stray}
use redis_lite_cpp.Resp.Parse.Depth.{too_deep, nest}
use redis_lite_cpp.Resp.Entry.{ok, incomplete, malformed, parse}
use redis_lite_cpp.Resp.Entry.RoundTrip.{parse-serialize, parse_sound, parse_short}
use redis_lite_cpp.Resp.Entry.Streaming.{parse-append}
use redis_lite_cpp.Resp.Entry.Depth.{parse-nest}

abbrev request : RespValue
request =
    make_array (cons (make_bulk_string (codes "TTL")) (cons (make_bulk_string (codes "a\r\n")) nil))

abbrev reply : RespValue
reply = make_integer (negsuc 1)

-- What stands on the wire: the array, its size, and the two bulk strings with theirs.
request-IsWire : IsWire max_depth request
request-IsWire =
    (refl, refl, omega arith, ((omega arith, refl, refl), ((omega arith, refl, refl), tt)))

reply-IsWire : IsWire max_depth reply
reply-IsWire = ((omega arith, omega arith), refl, refl, refl)

parse-serialize_example :
    parse (serialize request ++ codes "*1\r\n") ≡ ok request (length (serialize request))
parse-serialize_example = parse-serialize request (codes "*1\r\n") request-IsWire

abbrev stray_line : Bytes
stray_line = codes "+a\rb\r\n"

stray_line-malformed : parse stray_line ≡ malformed stray
unfolding parse
stray_line-malformed = refl

-- The malformed input stays malformed when a request follows.
parse-append_example : parse (stray_line ++ serialize request) ≡ parse stray_line
parse-append_example = parse-append stray_line (serialize request) λ e. cc (stray_line-malformed, e)

abbrev half : Bytes
half = codes "*2\r\n$3\r\nTT"

abbrev other_half : Bytes
other_half = codes "L\r\n$3\r\na\r\n\r\n"

halves : half ++ other_half ≡ serialize request
unfolding serialize to_string digit_text
halves = refl

parse_short_example : parse half ≡ incomplete
parse_short_example = parse_short request half other_half request-IsWire halves λ e. cc

abbrev padded : Bytes
padded = codes ":007\r\n"

padded_parsed : parse padded ≡ ok (make_integer (pos 7)) 6
unfolding parse to_integer
padded_parsed = refl

parse_sound_example : IsWire max_depth (make_integer (pos 7)) × (0 < 6) × (6 ≤ 6)
parse_sound_example = parse_sound padded (make_integer (pos 7)) 6 padded_parsed

parse-nest_example : parse (nest 200 half) ≡ malformed too_deep
parse-nest_example = parse-nest 200 half (omega arith)

to_integer_iff_example :
    (to_integer (codes "-120") ≡ some (negsuc 119)) ↔ IsNumber (codes "-120") (negsuc 119)
to_integer_iff_example = to_integer_iff (codes "-120") (negsuc 119)
