-- ===== src/Resp/Entry/RoundTrip.antt =====
-- `parse` against `serialize` of src/resp.cpp.
use redis_lite_cpp.Common.{
  ℕ, ◌≤◌, ◌<◌, [], ◌∷◌, ◌++◌, append-nil, ◌≡◌, refl, ap, subst, sym, ◌∙◌, ◌≢◌, arith, length,
  length-append,
}
use redis_lite_cpp.Text.{Bytes}
use redis_lite_cpp.Resp.Value.{RespValue}
use redis_lite_cpp.Resp.Serialize.{serialize}
use redis_lite_cpp.Resp.Wire.{IsWire}
use redis_lite_cpp.Resp.Parser.{Parsed}
use redis_lite_cpp.Resp.Parse.{max_depth, parse_value}
use redis_lite_cpp.Resp.Parse.RoundTrip.{parse_value-serialize}
use redis_lite_cpp.Resp.Parse.Sound.{Ensures, parse_value-Ensures}
use redis_lite_cpp.Resp.Entry.{ParseResult, ok, incomplete, malformed, parse_result, parse}
use redis_lite_cpp.Resp.Entry.Streaming.{parse-append}

-- A serialised value that RESP can carry is parsed back from the front of any input, and exactly
-- its own bytes are consumed.
pub parse-serialize :
    (v : RespValue) (rest : Bytes)
    → IsWire max_depth v
    → parse (serialize v ++ rest) ≡ ok v (length (serialize v))
unfolding parse parse_result
parse-serialize v rest h =
    rw (parse_value-serialize max_depth v rest h)
      (ap (ok v) (omega (arith, length-append (serialize v) rest)))

parse_result_sound :
    (s : Bytes) (r : Parsed RespValue) (v : RespValue) (n : ℕ)
    → Ensures (λ w rest. IsWire max_depth w × (length rest < length s)) r
    → parse_result (length s) r ≡ ok v n
    → IsWire max_depth v × (0 < n) × (n ≤ length s)
unfolding parse_result
parse_result_sound s (Parsed.ok w rest) v n h e =
    (subst (IsWire max_depth) (cc e) h.0, ground arith, ground arith)
parse_result_sound s Parsed.incomplete v n h e = cc
parse_result_sound s (Parsed.malformed error) v n h e = cc

-- A value that was parsed can be carried by RESP, and it took at least one byte and no more than
-- there are.
pub parse_sound :
    (s : Bytes) (v : RespValue) (n : ℕ)
    → parse s ≡ ok v n
    → IsWire max_depth v × (0 < n) × (n ≤ length s)
unfolding parse
parse_sound s v n =
    parse_result_sound s (parse_value max_depth s) v n (parse_value-Ensures max_depth s)

-- A value that was parsed, serialised again, is parsed to the same value.
pub parse-serialize-parse :
    (s : Bytes) (v : RespValue) (n : ℕ) (rest : Bytes)
    → parse s ≡ ok v n
    → parse (serialize v ++ rest) ≡ ok v (length (serialize v))
parse-serialize-parse s v n rest h = parse-serialize v rest (parse_sound s v n h).0

length_pos : (t : Bytes) → t ≢ [] → 0 < length t
length_pos [] h = absurd (h refl)
length_pos (c ∷ t) h = omega arith

consumed_eq : {v w : RespValue} {n m : ℕ} → ParseResult.ok v n ≡ ok w m → n ≡ m
consumed_eq h = ground arith

-- On bytes that stop short of a serialised value, the result is `Incomplete`.
pub parse_short :
    (v : RespValue) (s t : Bytes)
    → IsWire max_depth v
    → s ++ t ≡ serialize v
    → t ≢ []
    → parse s ≡ incomplete
parse_short v s t wire whole more = go (parse s) refl
  where
    full : parse (s ++ t) ≡ ok v (length (serialize v))
    full = rw whole (rw append-nil at (parse-serialize v [] wire))

    go : (r : ParseResult) → parse s ≡ r → r ≡ incomplete
    go (ok w n) e =
        let same = parse-append s t (λ i. cc (e, i)) in
        let n_eq = consumed_eq (sym e ∙ sym same ∙ full) in
        absurd (
          omega (
            arith,
            n_eq,
            (parse_sound s w n e).2,
            length_pos t more,
            length-append s t,
            ap length whole,
          ))
    go incomplete e = refl
    go (malformed error) e = cc (parse-append s t (λ i. cc (e, i)), full, e)

-- Values that RESP can carry are serialised to different bytes if they differ.
pub serialize-injective :
    (v w : RespValue) → IsWire max_depth v → IsWire max_depth w → serialize v ≡ serialize w → v ≡ w
serialize-injective v w hv hw e =
    ground (arith, parse-serialize v [] hv, parse-serialize w [] hw, ap (λ s. parse (s ++ [])) e)
