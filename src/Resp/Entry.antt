-- ===== src/Resp/Entry.antt =====
-- `ParseResult` and `parse` of src/resp.hpp and src/resp.cpp.
pub mod RoundTrip
pub mod Depth
pub mod Streaming
use redis_lite_cpp.Common.{ℕ, ◌-◌, length}
use redis_lite_cpp.Text.{Bytes}
use redis_lite_cpp.Resp.Value.{RespValue}
use redis_lite_cpp.Resp.Parser.{Parsed}
use redis_lite_cpp.Resp.Parse.{max_depth, parse_value}

-- `parse`: the value and the number of bytes that it takes, if the status is `Ok`.
pub data ParseResult : Type 0 where
  ok : RespValue → ℕ → ParseResult
  incomplete : ParseResult
  malformed : Bytes → ParseResult

parse_result : ℕ → Parsed RespValue → ParseResult
parse_result whole (Parsed.ok value rest) = ok value (whole - length rest)
parse_result whole Parsed.incomplete = incomplete
parse_result whole (Parsed.malformed error) = malformed error

unfoldable pub parse : Bytes → ParseResult
unfolding parse_value parse_result
parse input = parse_result (length input) (parse_value max_depth input)
