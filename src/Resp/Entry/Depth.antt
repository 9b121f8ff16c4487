-- ===== src/Resp/Entry/Depth.antt =====
-- The nesting limit of `parse` in src/resp.cpp.
use redis_lite_cpp.Common.{ℕ, ◌+◌, ◌-◌, ◌≤◌, ◌≡◌, ap, ◌∙◌, arith}
use redis_lite_cpp.Text.{Bytes}
use redis_lite_cpp.Resp.Parse.{max_depth}
use redis_lite_cpp.Resp.Parse.Depth.{too_deep, nest, nest-nest, parse_value-nest}
use redis_lite_cpp.Resp.Entry.{malformed, parse_result, parse}

-- An input that opens 128 or more nested arrays of one element is malformed, whatever follows.
pub parse-nest : (n : ℕ) (rest : Bytes) → max_depth ≤ n → parse (nest n rest) ≡ malformed too_deep
unfolding parse parse_result
parse-nest n rest h =
    let total : max_depth + (n - max_depth) ≡ n = omega arith in
    let split = nest-nest max_depth (n - max_depth) rest ∙ ap (λ k. nest k rest) total in
    rw (← split, parse_value-nest max_depth (nest (n - max_depth) rest))
