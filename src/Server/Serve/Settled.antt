-- ===== src/Server/Serve/Settled.antt =====
-- The second loop of `handle_readable` in src/server.cpp ends, and takes every whole request.
use redis_lite_cpp.Common.{
  ℕ, zero, suc, ◌≤◌, ◌<◌, ◌≡◌, refl, sym, subst, arith, length, length-drop, drop,
}
use redis_lite_cpp.Text.{Bytes}
use redis_lite_cpp.Resp.Entry.{ParseResult, ok, incomplete, malformed, parse}
use redis_lite_cpp.Resp.Entry.RoundTrip.{parse_sound}
use redis_lite_cpp.Commands.Base.{Db, Times}
use redis_lite_cpp.Store.Valid.{IsValid}
use redis_lite_cpp.Commands.Execute.Effects.{execute-IsValid}
use redis_lite_cpp.Server.Serve.{Served, waiting, out_of_sync, out_of_fuel, serve_loop, serve}
use redis_lite_cpp.Server.Serve.Chunks.{serve_loop-incomplete, serve_loop-malformed, serve_loop-ok}

-- The loop ended in one of its own ways with a valid store, no whole request waits, and what waits
-- is no longer than `limit`.
abbrev pub Settled : ℕ → Served → Type 0
Settled limit (waiting n db buffer output) =
    IsValid db.store × (parse buffer ≡ incomplete) × (length buffer ≤ limit)
Settled limit (out_of_sync n db output) = IsValid db.store
Settled limit out_of_fuel = ⊥

serve_loop-Settled :
    (clock : ℕ → Times) (limit fuel n : ℕ) (db : Db) (buffer output : Bytes)
    → length buffer < fuel
    → length buffer ≤ limit
    → IsValid db.store
    → Settled limit (serve_loop clock fuel n db buffer output)
serve_loop-Settled clock limit zero n db buffer output h small valid = absurd (omega arith)
serve_loop-Settled clock limit (suc fuel) n db buffer output h small valid =
    go
      (λ m db' b o shorter valid'.
        serve_loop-Settled clock limit fuel m db' b o (omega arith) (omega arith) valid')
      (parse buffer) refl
  where
    go :
        ((m : ℕ) (db' : Db) (b o : Bytes)
          → length b < length buffer
          → IsValid db'.store
          → Settled limit (serve_loop clock fuel m db' b o))
        → (r : ParseResult) → parse buffer ≡ r
        → Settled limit (serve_loop clock (suc fuel) n db buffer output)
    go rest incomplete e =
        subst (Settled limit) (sym (serve_loop-incomplete clock fuel n db buffer output e))
          (valid, e, small)
    go rest (malformed error) e =
        subst (Settled limit) (sym (serve_loop-malformed clock fuel n db buffer output e)) valid
    go rest (ok value consumed) e =
        let (wire, some_read, all_there) = parse_sound buffer value consumed e in
        subst (Settled limit) (sym (serve_loop-ok clock fuel n db buffer output e)) (
          rest (suc n) _ (drop consumed buffer) _ (omega (arith, length-drop consumed buffer))
            (execute-IsValid (clock n) db value valid))

-- From a valid store the loop ends by itself, however many bytes there are, with a valid store; when
-- it waits for more bytes, those that wait are an incomplete request, and no more than there were.
pub serve-Settled :
    (clock : ℕ → Times) (n : ℕ) (db : Db) (buffer output : Bytes)
    → IsValid db.store
    → Settled (length buffer) (serve clock n db buffer output)
unfolding serve
serve-Settled clock n db buffer output valid =
    serve_loop-Settled clock (length buffer) (suc (length buffer)) n db buffer output (omega arith)
      (omega arith) valid
