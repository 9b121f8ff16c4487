-- ===== src/Server/Serve/Pipelined.antt =====
-- Requests that a client of src/server.cpp sends one behind the other, without waiting for replies.
use redis_lite_cpp.Common.{
  ℕ, suc, ◌+◌, [], ◌∷◌, ◌++◌, append_assoc, append-nil, List, ◌≡◌, sym, ap, ◌∙◌, arith, length,
  length-append, drop-append, All,
}
use redis_lite_cpp.Text.{Bytes}
use redis_lite_cpp.Resp.Value.{RespValue}
use redis_lite_cpp.Resp.Serialize.{serialize}
use redis_lite_cpp.Resp.Wire.{IsWire}
use redis_lite_cpp.Resp.Parse.{max_depth}
use redis_lite_cpp.Resp.Entry.RoundTrip.{parse-serialize, parse_sound}
use redis_lite_cpp.Commands.Base.{Db, Times}
use redis_lite_cpp.Commands.Execute.{execute_command}
use redis_lite_cpp.Replay.Records.Restart.{execute_all}
use redis_lite_cpp.Server.Serve.{serve_loop, serve}
use redis_lite_cpp.Server.Serve.Chunks.{serve_loop-ok, serve_loop-enough, serve_lem}

abbrev pub stream : List RespValue → Bytes
stream [] = []
stream (request ∷ requests) = serialize request ++ stream requests

-- The replies one behind the other, the first at the reading `n`.
abbrev pub replies : (ℕ → Times) → ℕ → Db → List RespValue → Bytes
replies clock n db [] = []
replies clock n db (request ∷ requests) =
    serialize (execute_command (clock n) db request).0
    ++ replies clock (suc n) (execute_command (clock n) db request).1 requests

serve-serialize :
    (clock : ℕ → Times) (n : ℕ) (db : Db) (request : RespValue) (rest output : Bytes)
    → IsWire max_depth request
    → serve clock n db (serialize request ++ rest) output
      ≡ serve clock
          (suc n)
          (execute_command (clock n) db request).1
          rest
          (output ++ serialize (execute_command (clock n) db request).0)
serve-serialize clock n db request rest output wire =
    let read = parse-serialize request rest wire in
    let (_, some_read, all_there) = parse_sound _ request (length (serialize request)) read in
    let text = serialize request ++ rest in
    let result = execute_command (clock n) db request in
    serve_lem clock n db text output
    ∙ serve_loop-ok clock (length text) n db text output read
    ∙ ap (λ b. serve_loop clock (length text) (suc n) result.1 b (output ++ serialize result.0))
        (drop-append (serialize request) rest)
    ∙ serve_loop-enough clock (length text) (suc (length rest)) (suc n) result.1 rest
        (output ++ serialize result.0) (omega (arith, length-append (serialize request) rest))
        (omega arith)
    ∙ sym (serve_lem clock (suc n) result.1 rest (output ++ serialize result.0))

-- The bytes of requests that RESP can carry, one behind the other, are served as these requests:
-- each is executed once and in order, its reply stands in the output behind those of the requests
-- before it, and the loop goes on with what stands behind the requests.
pub serve-stream :
    (clock : ℕ → Times) (n : ℕ) (db : Db) (requests : List RespValue) (rest output : Bytes)
    → All (IsWire max_depth) requests
    → serve clock n db (stream requests ++ rest) output
      ≡ serve clock
          (n + length requests)
          (execute_all clock n db requests)
          rest
          (output ++ replies clock n db requests)
serve-stream clock n db [] rest output wire =
    let same : n ≡ n + 0 = omega arith in
    ap (λ m. serve clock m db rest output) same
    ∙ ap (serve clock (n + 0) db rest) (sym (append-nil output))
serve-stream clock n db (request ∷ requests) rest output wire =
    let result = execute_command (clock n) db request in
    let output' = output ++ serialize result.0 in
    let count : suc n + length requests ≡ n + suc (length requests) = omega arith in
    ap (λ b. serve clock n db b output) (append_assoc (serialize request) (stream requests) rest)
    ∙ serve-serialize clock n db request (stream requests ++ rest) output wire.0
    ∙ serve-stream clock (suc n) result.1 requests rest output' wire.1
    ∙ ap
        (λ m.
          serve clock m (execute_all clock (suc n) result.1 requests) rest
            (output' ++ replies clock (suc n) result.1 requests))
        count
    ∙ ap
        (serve clock (n + suc (length requests)) (execute_all clock (suc n) result.1 requests) rest)
        (append_assoc output (serialize result.0) (replies clock (suc n) result.1 requests))
