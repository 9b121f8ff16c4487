-- ===== src/Resp/Entry/Streaming.antt =====
-- `parse` of src/resp.cpp on input that arrives in pieces.
use redis_lite_cpp.Common.{◌++◌, ◌≡◌, refl, ap, ◌≢◌, arith, length, length-append}
use redis_lite_cpp.Text.{Bytes}
use redis_lite_cpp.Resp.Value.{RespValue}
use redis_lite_cpp.Resp.Parser.{Parsed}
use redis_lite_cpp.Resp.Parse.{max_depth, parse_value}
use redis_lite_cpp.Resp.Parse.Streaming.{Grows, parse_value-IsStable}
use redis_lite_cpp.Resp.Entry.{ParseResult, incomplete, parse_result, parse}

parse_result-append :
    (s more : Bytes) (r r' : Parsed RespValue)
    → Grows more r r'
    → parse_result (length s) r ≢ incomplete
    → parse_result (length (s ++ more)) r' ≡ parse_result (length s) r
unfolding parse_result
parse_result-append s more (Parsed.ok value rest) r' h ne =
    rw h (ap (ParseResult.ok value) (omega (arith, length-append s more, length-append rest more)))
parse_result-append s more Parsed.incomplete r' h ne = absurd (ne refl)
parse_result-append s more (Parsed.malformed error) r' h ne = rw h

-- Bytes that follow the input never change a result that is not `Incomplete`: a complete value
-- stays the same value with the same length, and a malformed input stays malformed with the same
-- error.
pub parse-append : (s more : Bytes) → parse s ≢ incomplete → parse (s ++ more) ≡ parse s
unfolding parse
parse-append s more =
    parse_result-append s more (parse_value max_depth s) (parse_value max_depth (s ++ more))
      (parse_value-IsStable max_depth s more)
