-- ===== src/Resp/Wire.antt =====
-- The values of src/resp.hpp that RESP can carry.
use redis_lite_cpp.Common.{
  ℕ, zero, suc, ◌≤◌, [], true, false, ◌≡◌, pos, length, IsLongLong, long_long_max,
}
use redis_lite_cpp.Decimal.{IsLine}
use redis_lite_cpp.Resp.Value.{
  RespValue, resp, simple_string, error, integer, bulk_string, array, nil, size, AllElements,
}

-- A value of at most `levels` nested levels whose members hold what its type uses and defaults
-- elsewhere, whose lines have no CR and no LF, and whose sizes fit `long long`.
abbrev pub IsWire : ℕ → RespValue → Type 0
IsWire zero v = ⊥
IsWire (suc levels) (resp simple_string s n vs b) =
    IsLine s × (n ≡ pos 0) × (vs ≡ nil) × (b ≡ false)
IsWire (suc levels) (resp error s n vs b) = IsLine s × (n ≡ pos 0) × (vs ≡ nil) × (b ≡ false)
IsWire (suc levels) (resp integer s n vs b) = IsLongLong n × (s ≡ []) × (vs ≡ nil) × (b ≡ false)
IsWire (suc levels) (resp bulk_string s n vs true) = (s ≡ []) × (n ≡ pos 0) × (vs ≡ nil)
IsWire (suc levels) (resp bulk_string s n vs false) =
    (length s ≤ long_long_max) × (n ≡ pos 0) × (vs ≡ nil)
IsWire (suc levels) (resp array s n vs true) = (s ≡ []) × (n ≡ pos 0) × (vs ≡ nil)
IsWire (suc levels) (resp array s n vs false) =
    (s ≡ []) × (n ≡ pos 0) × (size vs ≤ long_long_max) × AllElements (IsWire levels) vs
