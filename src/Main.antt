-- ===== src/Main.antt =====
-- The arguments of src/main.cpp.
use redis_lite_cpp.Common.{
  ℕ, ◌≤◌, [], ◌∷◌, append-nil, ◌&&◌, sym, Option, none, some, ◌≡◌, refl, ap, ◌∙◌, arith, leb,
  if◌then◌else◌, ℤ, pos, List,
}
use redis_lite_cpp.Text.{Bytes, codes}
use redis_lite_cpp.Decimal.{to_string, leads_digit}
use redis_lite_cpp.Replay.Read.{read_number}
use redis_lite_cpp.Replay.Read.RoundTrip.{read_number-pos}

-- The number that `std::strtol` reads must end the text and be a port. A number that `long` cannot
-- hold, which `strtol` replaces by the nearest one that it can, is no port either.
unfoldable pub in_ports : Option (ℤ × Bytes) → Option ℕ
in_ports (some (pos n, [])) = if leb 1 n && leb n 65535 then some n else none
in_ports _ = none

abbrev pub parse_port : Bytes → Option ℕ
parse_port text = in_ports (read_number text)

-- The log's path and the port, or none for the usage message.
abbrev pub arguments_of : List Bytes → Option (Bytes × ℕ)
arguments_of [] = some (codes "redis-lite.aof", 6379)
arguments_of (path ∷ []) = some (path, 6379)
arguments_of (path ∷ text ∷ rest) = elim (parse_port text) [ none ↦ none | some n ↦ some (path, n) ]

in_ports-pos : (n : ℕ) → 1 ≤ n → n ≤ 65535 → in_ports (some (pos n, [])) ≡ some n
unfolding in_ports
in_ports-pos n h k = ground arith

-- The decimal text of each number from 1 to 65535 is accepted as that number.
pub parse_port-to_string : (n : ℕ) → 1 ≤ n → n ≤ 65535 → parse_port (to_string (pos n)) ≡ some n
unfolding leads_digit
parse_port-to_string n h k =
    ap (λ s. in_ports (read_number s)) (sym (append-nil (to_string (pos n))))
    ∙ ap in_ports (read_number-pos n [] (omega arith) refl)
    ∙ in_ports-pos n h k
