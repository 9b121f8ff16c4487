-- ===== src/Server/Readable/Drains.antt =====
-- A client of src/server.cpp that takes what it is sent.
use redis_lite_cpp.Common.{
  ℕ, zero, suc, ◌≤◌, [], ◌∷◌, ◌++◌, List, true, false, none, some, ◌≡◌, refl, ap, ◌∙◌, arith,
  length, length-drop, All, take, drop, if◌then◌else◌,
}
use redis_lite_cpp.Text.{Bytes}
use redis_lite_cpp.Server.Send.{
  Sent, sent, interrupted, would_block, failed, Attempt, try_send, take-drop,
}
use redis_lite_cpp.Server.Readable.{Client, write_to, on_writable}

-- `send` takes a byte or more, or is interrupted.
abbrev pub IsProgress : Sent → Type 0
IsProgress (sent zero) = ⊥
IsProgress (sent (suc n)) = Unit
IsProgress interrupted = Unit
IsProgress would_block = ⊥
IsProgress failed = ⊥

-- How often it takes bytes.
abbrev pub takes : List Sent → ℕ
takes [] = 0
takes (sent n ∷ results) = suc (takes results)
takes (interrupted ∷ results) = takes results
takes (would_block ∷ results) = takes results
takes (failed ∷ results) = takes results

try_send-drains :
    (results : List Sent) (owed : Bytes)
    → All IsProgress results
    → length owed ≤ takes results
    → try_send results owed ≡ record { succeeds = true; pending = []; taken = owed; asks = false }
unfolding try_send
try_send-drains [] [] h enough = refl
try_send-drains (result ∷ results) [] h enough = refl
try_send-drains [] (c ∷ s) h enough = absurd (omega arith)
try_send-drains (sent zero ∷ results) (c ∷ s) h enough = absurd h.0
try_send-drains (sent (suc n) ∷ results) (c ∷ s) h enough =
    ap (λ (attempt : Attempt). record attempt { taken = (c ∷ take n s) ++ attempt.taken })
      (try_send-drains results (drop n s) h.1 (omega (arith, length-drop n s)))
    ∙ ap (λ t. record { succeeds = true; pending = []; taken = c ∷ t; asks = false })
        (take-drop n s)
try_send-drains (interrupted ∷ results) (c ∷ s) h enough =
    try_send-drains results (c ∷ s) h.1 enough
try_send-drains (would_block ∷ results) (c ∷ s) h enough = absurd h.0
try_send-drains (failed ∷ results) (c ∷ s) h enough = absurd h.0

-- A client that reads is served to the end: where `send` takes a byte or more each time, or is
-- interrupted, and does so often enough for the bytes that are owed, one turn of writing sends all of
-- them; a client that has half-closed is then closed, and any other is no longer watched.
pub on_writable-drains :
    (results : List Sent) (client : Client)
    → All IsProgress results
    → length client.output ≤ takes results
    → on_writable results client ≡ (
      client.output,
      if client.closing then none else some (record client { output = []; watched = false }),
    )
unfolding on_writable write_to
on_writable-drains results client h enough =
    ap (λ (attempt : Attempt). (attempt.taken, write_to client attempt))
      (try_send-drains results client.output h enough)
