-- ===== src/Server/Serve/Chunks.antt =====
-- The requests of src/server.cpp do not depend on how their bytes arrive.
use redis_lite_cpp.Common.{
  ℕ, zero, suc, ◌<◌, [], ◌∷◌, ◌++◌, append_assoc, append-nil, List, ◌≡◌, refl, sym, ap, ◌∙◌, arith,
  length, length-append, length-drop, drop, drop-append_le,
}
use redis_lite_cpp.Text.{Bytes}
use redis_lite_cpp.Resp.Value.{RespValue}
use redis_lite_cpp.Resp.Serialize.{serialize}
use redis_lite_cpp.Resp.Entry.{ParseResult, ok, incomplete, malformed, parse}
use redis_lite_cpp.Resp.Entry.Streaming.{parse-append}
use redis_lite_cpp.Resp.Entry.RoundTrip.{parse_sound}
use redis_lite_cpp.Commands.Base.{Db, Times}
use redis_lite_cpp.Commands.Execute.{execute_command}
use redis_lite_cpp.Server.Serve.{
  Served, waiting, out_of_sync, out_of_fuel, protocol_error, serve_loop, serve,
}

-- More bytes come to a connection: they stand behind those that wait.
abbrev pub and_serve : (ℕ → Times) → Bytes → Served → Served
and_serve clock more (waiting n db buffer output) = serve clock n db (buffer ++ more) output
and_serve clock more (out_of_sync n db output) = out_of_sync n db output
and_serve clock more out_of_fuel = out_of_fuel

module _ (clock : ℕ → Times) (fuel n : ℕ) (db : Db) (buffer output : Bytes) where
  pub serve_loop-incomplete :
      parse buffer ≡ incomplete
      → serve_loop clock (suc fuel) n db buffer output ≡ waiting n db buffer output
  unfolding serve_loop
  serve_loop-incomplete h = rw (serve_loop, h)

  pub serve_loop-malformed :
      {error : Bytes}
      → parse buffer ≡ malformed error
      → serve_loop clock (suc fuel) n db buffer output
        ≡ out_of_sync n db (output ++ protocol_error error)
  unfolding serve_loop
  serve_loop-malformed h = rw (serve_loop, h)

  pub serve_loop-ok :
      {value : RespValue} {consumed : ℕ}
      → parse buffer ≡ ok value consumed
      → serve_loop clock (suc fuel) n db buffer output
        ≡ serve_loop clock fuel
            (suc n)
            (execute_command (clock n) db value).1
            (drop consumed buffer)
            (output ++ serialize (execute_command (clock n) db value).0)
  unfolding serve_loop
  serve_loop-ok h = rw (serve_loop, h)

-- Fuel beyond the length of the buffer is enough, and more makes no difference.
pub serve_loop-enough :
    (clock : ℕ → Times) (fuel fuel' n : ℕ) (db : Db) (buffer output : Bytes)
    → length buffer < fuel
    → length buffer < fuel'
    → serve_loop clock fuel n db buffer output ≡ serve_loop clock fuel' n db buffer output
serve_loop-enough clock zero fuel' n db buffer output h h' = absurd (omega arith)
serve_loop-enough clock (suc fuel) zero n db buffer output h h' = absurd (omega arith)
serve_loop-enough clock (suc fuel) (suc fuel') n db buffer output h h' =
    go
      (λ m db' b o shorter.
        serve_loop-enough clock fuel fuel' m db' b o (omega arith) (omega arith))
      (parse buffer) refl
  where
    go :
        ((m : ℕ) (db' : Db) (b o : Bytes)
          → length b < length buffer
          → serve_loop clock fuel m db' b o ≡ serve_loop clock fuel' m db' b o)
        → (r : ParseResult) → parse buffer ≡ r
        → serve_loop clock (suc fuel) n db buffer output
          ≡ serve_loop clock (suc fuel') n db buffer output
    go rest incomplete e =
        serve_loop-incomplete clock fuel n db buffer output e
        ∙ sym (serve_loop-incomplete clock fuel' n db buffer output e)
    go rest (malformed error) e =
        serve_loop-malformed clock fuel n db buffer output e
        ∙ sym (serve_loop-malformed clock fuel' n db buffer output e)
    go rest (ok value consumed) e =
        let (wire, some_read, all_there) = parse_sound buffer value consumed e in
        serve_loop-ok clock fuel n db buffer output e
        ∙ rest (suc n) _ (drop consumed buffer) _ (omega (arith, length-drop consumed buffer))
        ∙ sym (serve_loop-ok clock fuel' n db buffer output e)

pub serve_lem :
    (clock : ℕ → Times) (n : ℕ) (db : Db) (buffer output : Bytes)
    → serve clock n db buffer output ≡ serve_loop clock (suc (length buffer)) n db buffer output
unfolding serve
serve_lem clock n db buffer output = refl

serve_loop-append :
    (clock : ℕ → Times) (fuel n : ℕ) (db : Db) (buffer more output : Bytes)
    → length (buffer ++ more) < fuel
    → serve_loop clock fuel n db (buffer ++ more) output
      ≡ and_serve clock more (serve_loop clock fuel n db buffer output)
serve_loop-append clock zero n db buffer more output h = absurd (omega arith)
serve_loop-append clock (suc fuel) n db buffer more output h =
    go
      (λ m db' b o shorter.
        serve_loop-append clock fuel m db' b more o
          (omega (arith, length-append buffer more, length-append b more)))
      (parse buffer) refl
  where
    go :
        ((m : ℕ) (db' : Db) (b o : Bytes)
          → length b < length buffer
          → serve_loop clock fuel m db' (b ++ more) o
            ≡ and_serve clock more (serve_loop clock fuel m db' b o))
        → (r : ParseResult) → parse buffer ≡ r
        → serve_loop clock (suc fuel) n db (buffer ++ more) output
          ≡ and_serve clock more (serve_loop clock (suc fuel) n db buffer output)
    go rest incomplete e =
        serve_loop-enough clock (suc fuel) (suc (length (buffer ++ more))) n db (buffer ++ more)
          output h (omega arith)
        ∙ sym (serve_lem clock n db (buffer ++ more) output)
        ∙ sym (ap (and_serve clock more) (serve_loop-incomplete clock fuel n db buffer output e))
    go rest (malformed error) e =
        serve_loop-malformed clock fuel n db (buffer ++ more) output
          (parse-append buffer more (λ i. cc (i, e)) ∙ e)
        ∙ sym (ap (and_serve clock more) (serve_loop-malformed clock fuel n db buffer output e))
    go rest (ok value consumed) e =
        let (wire, some_read, all_there) = parse_sound buffer value consumed e in
        serve_loop-ok clock fuel n db (buffer ++ more) output
          (parse-append buffer more (λ i. cc (i, e)) ∙ e)
        ∙ ap
            (λ b.
              serve_loop clock fuel (suc n) (execute_command (clock n) db value).1 b
                (output ++ serialize (execute_command (clock n) db value).0))
            (drop-append_le consumed buffer more all_there)
        ∙ rest (suc n) _ (drop consumed buffer) _ (omega (arith, length-drop consumed buffer))
        ∙ sym (ap (and_serve clock more) (serve_loop-ok clock fuel n db buffer output e))

-- Bytes that come in two reads are served as the same bytes that come in one: the same commands are
-- executed in the same order, each with the clock readings of its turn, with the same output, store,
-- log, bytes that still wait, and protocol error.
pub serve-append :
    (clock : ℕ → Times) (n : ℕ) (db : Db) (buffer more output : Bytes)
    → serve clock n db (buffer ++ more) output
      ≡ and_serve clock more (serve clock n db buffer output)
unfolding serve
serve-append clock n db buffer more output =
    serve_loop-append clock (suc (length (buffer ++ more))) n db buffer more output (omega arith)
    ∙ ap (and_serve clock more) (
        serve_loop-enough clock (suc (length (buffer ++ more))) (suc (length buffer)) n db buffer
          output (omega (arith, length-append buffer more)) (omega arith))

-- The reads one after another, each behind what the one before left.
abbrev pub serve_reads : (ℕ → Times) → List Bytes → Served → Served
serve_reads clock [] served = served
serve_reads clock (chunk ∷ chunks) served = serve_reads clock chunks (and_serve clock chunk served)

abbrev pub joined : List Bytes → Bytes
joined [] = []
joined (chunk ∷ chunks) = chunk ++ joined chunks

-- However a client's bytes are split into reads, serving each read behind what the one before left
-- has the outcome of one read of all of them: the same commands, each at the clock readings of its
-- turn, and the same output, store, log, bytes that wait, and protocol error.
pub serve-joined :
    (clock : ℕ → Times) (n : ℕ) (db : Db) (buffer output : Bytes) (chunks : List Bytes)
    → serve_reads clock chunks (serve clock n db buffer output)
      ≡ serve clock n db (buffer ++ joined chunks) output
serve-joined clock n db buffer output [] =
    ap (λ b. serve clock n db b output) (sym (append-nil buffer))
serve-joined clock n db buffer output (chunk ∷ chunks) =
    ap (serve_reads clock chunks) (sym (serve-append clock n db buffer chunk output))
    ∙ serve-joined clock n db (buffer ++ chunk) output chunks
    ∙ ap (λ b. serve clock n db b output) (append_assoc buffer chunk (joined chunks))
