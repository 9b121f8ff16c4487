-- ===== src/Server/Send.antt =====
-- `try_send` of src/server.cpp.
use redis_lite_cpp.Common.{
  ℕ, zero, suc, [], ◌∷◌, ◌++◌, append_assoc, List, Bool, true, false, ◌≡◌, refl, ap, ◌∙◌, take,
  drop, ◌⊎◌, inl, inr,
}
use redis_lite_cpp.Text.{Bytes}

-- What `send` gives: how many bytes it took, or an error with EINTR, with EAGAIN or EWOULDBLOCK, or
-- with another.
pub data Sent : Type 0 where
  sent : ℕ → Sent
  interrupted would_block failed : Sent

-- What `try_send` returns, the bytes that are still pending, those that were sent, and whether it
-- asked to be woken when there is room again.
pub record Attempt : Type 0 where
  pub succeeds : Bool
  pub pending : Bytes
  pub taken : Bytes
  pub asks : Bool

-- Behind the last result the kernel's buffer is full.
unfoldable pub try_send : List Sent → Bytes → Attempt
try_send [] [] = record { succeeds = true; pending = []; taken = []; asks = false }
try_send (result ∷ results) [] = record { succeeds = true; pending = []; taken = []; asks = false }
try_send [] (c ∷ s) = record { succeeds = true; pending = c ∷ s; taken = []; asks = true }
try_send (sent zero ∷ results) (c ∷ s) = record {
  succeeds = false;
  pending = c ∷ s;
  taken = [];
  asks = false;
}
try_send (sent (suc n) ∷ results) (c ∷ s) =
    let rest = try_send results (drop n s) in record rest { taken = (c ∷ take n s) ++ rest.taken }
try_send (interrupted ∷ results) (c ∷ s) = try_send results (c ∷ s)
try_send (would_block ∷ results) (c ∷ s) = record {
  succeeds = true;
  pending = c ∷ s;
  taken = [];
  asks = true;
}
try_send (failed ∷ results) (c ∷ s) = record {
  succeeds = false;
  pending = c ∷ s;
  taken = [];
  asks = false;
}

pub take-drop : (n : ℕ) (s : Bytes) → take n s ++ drop n s ≡ s
take-drop zero s = refl
take-drop (suc n) [] = refl
take-drop (suc n) (c ∷ s) = ap (λ t. c ∷ t) (take-drop n s)

-- Nothing is lost, repeated or put in another order: what was sent and behind it what is pending are
-- the bytes that were owed. After a success with bytes left, the client will be woken.
pub try_send-Delivers :
    (results : List Sent) (owed : Bytes)
    → ((try_send results owed).taken ++ (try_send results owed).pending ≡ owed)
      × (((try_send results owed).succeeds ≡ false)
          ⊎ (((try_send results owed).pending ≡ []) ⊎ ((try_send results owed).asks ≡ true)))
unfolding try_send
try_send-Delivers [] [] = (refl, inr (inl refl))
try_send-Delivers (result ∷ results) [] = (refl, inr (inl refl))
try_send-Delivers [] (c ∷ s) = (refl, inr (inr refl))
try_send-Delivers (sent zero ∷ results) (c ∷ s) = (refl, inl refl)
try_send-Delivers (sent (suc n) ∷ results) (c ∷ s) =
    let (same, woken) = try_send-Delivers results (drop n s) in
    (
      ap (λ t. c ∷ t) (append_assoc (take n s) _ _ ∙ ap (λ t. take n s ++ t) same ∙ take-drop n s),
      woken,
    )
try_send-Delivers (interrupted ∷ results) (c ∷ s) = try_send-Delivers results (c ∷ s)
try_send-Delivers (would_block ∷ results) (c ∷ s) = (refl, inr (inr refl))
try_send-Delivers (failed ∷ results) (c ∷ s) = (refl, inl refl)
