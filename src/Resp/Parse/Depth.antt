-- ===== src/Resp/Parse/Depth.antt =====
-- The nesting limit of `parse_value` in src/resp.cpp.
use redis_lite_cpp.Common.{ℕ, zero, suc, ◌+◌, ◌∙◌, ◌++◌, ◌≡◌, refl, ap, arith}
use redis_lite_cpp.Text.{Bytes, codes}
use redis_lite_cpp.Decimal.{to_integer}
use redis_lite_cpp.Resp.Parser.{malformed}
use redis_lite_cpp.Resp.Parse.{parse_value}

abbrev pub too_deep : Bytes
too_deep = codes "nesting is deeper than 128 levels"

-- The heads of `n` arrays of one element, each inside the one before.
unfoldable pub nest : ℕ → Bytes → Bytes
nest zero rest = rest
nest (suc n) rest = codes "*1\r\n" ++ nest n rest

-- `levels` nested heads leave no level for what stands inside them, whatever that is.
pub parse_value-nest :
    (levels : ℕ) (rest : Bytes) → parse_value levels (nest levels rest) ≡ malformed too_deep
unfolding parse_value nest to_integer
parse_value-nest zero rest = refl
parse_value-nest (suc levels) rest = rw (parse_value-nest levels rest)

suc_add : (n m : ℕ) → suc (n + m) ≡ suc n + m
suc_add n m = omega arith

pub nest-nest : (n m : ℕ) (rest : Bytes) → nest n (nest m rest) ≡ nest (n + m) rest
unfolding nest
nest-nest zero m rest = ap (λ k. nest k rest) (omega arith)
nest-nest (suc n) m rest =
    ap (λ s. codes "*1\r\n" ++ s) (nest-nest n m rest) ∙ ap (λ k. nest k rest) (suc_add n m)
