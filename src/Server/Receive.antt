-- ===== src/Server/Receive.antt =====
-- The first loop of `handle_readable` in src/server.cpp, which receives until there is no more.
use redis_lite_cpp.Common.{
  ℕ, ◌+◌, ◌≤◌, ◌*◌, [], ◌∷◌, ◌++◌, append_assoc, append-nil, List, Bool, true, false, ◌≡◌, sym,
  arith, length, length-append, ltb, if◌then◌else◌, Bool-cases, inl, inr, ltb→le, subst, ◌∙◌, ◌≢◌,
}
use redis_lite_cpp.Text.{Bytes}

abbrev pub max_request_bytes : ℕ
max_request_bytes = 16 * 1024 * 1024

-- What `recv` gives: bytes, 0, or an error with EINTR, with EAGAIN or EWOULDBLOCK, or with another.
pub data Received : Type 0 where
  bytes : Bytes → Received
  finished interrupted would_block failed : Received

-- How the loop ends: the two returns, or the buffer with `peer_finished`.
pub data Receipt : Type 0 where
  too_large broken : Receipt
  buffered : Bytes → Bool → Receipt

-- Behind the last result there is nothing more to read for now.
unfoldable pub receive : List Received → Bytes → Receipt
receive [] buffer = buffered buffer false
receive (bytes chunk ∷ results) buffer =
    let rest = receive results (buffer ++ chunk) in
    if ltb max_request_bytes (length buffer + length chunk) then too_large else rest
receive (finished ∷ results) buffer = buffered buffer true
receive (interrupted ∷ results) buffer = receive results buffer
receive (would_block ∷ results) buffer = buffered buffer false
receive (failed ∷ results) buffer = broken

-- The bytes that arrive before the loop stops for another reason than the limit.
abbrev pub arriving : List Received → Bytes
arriving [] = []
arriving (bytes chunk ∷ results) = chunk ++ arriving results
arriving (interrupted ∷ results) = arriving results
arriving (finished ∷ results) = []
arriving (would_block ∷ results) = []
arriving (failed ∷ results) = []

same_buffer : {a b : Bytes} {x y : Bool} → buffered a x ≡ buffered b y → a ≡ b
same_buffer e = ground arith

ended :
    (buffer after : Bytes) (x y : Bool)
    → length buffer ≤ max_request_bytes
    → buffered buffer x ≡ buffered after y
    → (after ≡ buffer ++ []) × (length after ≤ max_request_bytes)
ended buffer after x y h e =
    let same = same_buffer e in
    (sym same ∙ sym (append-nil buffer), subst (λ b. length b ≤ max_request_bytes) same h)

large_not_buffered : {b : Bytes} {x : Bool} → too_large ≢ buffered b x
large_not_buffered e = cc

-- A buffer that the loop leaves, from one that keeps the limit, holds what was in it and behind
-- that what arrived, and keeps the limit of 16 MiB.
pub receive-buffered :
    (results : List Received) (buffer after : Bytes) (done : Bool)
    → length buffer ≤ max_request_bytes
    → receive results buffer ≡ buffered after done
    → (after ≡ buffer ++ arriving results) × (length after ≤ max_request_bytes)
unfolding receive
receive-buffered [] buffer after done h e = ended buffer after false done h e
receive-buffered (bytes chunk ∷ results) buffer after done h e =
    elim (Bool-cases (ltb max_request_bytes (length buffer + length chunk))) [
      | inl over ↦ absurd (large_not_buffered (sym (rw over) ∙ e))
      | inr fits ↦
          let (whole, kept) =
            receive-buffered results (buffer ++ chunk) after done
              (omega (
                arith,
                length-append buffer chunk,
                ltb→le max_request_bytes (length buffer + length chunk) fits,
              ))
              (sym (rw fits) ∙ e) in
          (whole ∙ append_assoc buffer chunk (arriving results), kept)
    ]
receive-buffered (finished ∷ results) buffer after done h e = ended buffer after true done h e
receive-buffered (interrupted ∷ results) buffer after done h e =
    receive-buffered results buffer after done h e
receive-buffered (would_block ∷ results) buffer after done h e = ended buffer after false done h e
receive-buffered (failed ∷ results) buffer after done h e = cc
