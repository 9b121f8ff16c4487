-- ===== src/Server/Serve.antt =====
-- The second loop of `handle_readable` in src/server.cpp, which executes the requests in the buffer.
pub mod Chunks
pub mod Pipelined
pub mod Settled
use redis_lite_cpp.Common.{ℕ, zero, suc, ◌+◌, [], ◌∷◌, ◌++◌, ◌≡◌, refl, length, drop}
use redis_lite_cpp.Text.{Bytes, codes}
use redis_lite_cpp.Resp.Value.{RespValue, make_error}
use redis_lite_cpp.Resp.Serialize.{serialize}
use redis_lite_cpp.Resp.Entry.{ParseResult, ok, incomplete, malformed, parse}
use redis_lite_cpp.Commands.Base.{Db, Times}
use redis_lite_cpp.Commands.Execute.{execute_command}

abbrev pub protocol_error : Bytes → Bytes
protocol_error detail = serialize (make_error (codes "ERR Protocol error: " ++ detail))

-- How the loop ends, with the number of commands executed and the output: with the bytes that wait
-- for more, or out of sync. `out_of_fuel` has no counterpart in the program.
pub data Served : Type 0 where
  waiting : ℕ → Db → Bytes → Bytes → Served
  out_of_sync : ℕ → Db → Bytes → Served
  out_of_fuel : Served

-- `clock` gives the readings while command `n` is executed.
unfoldable pub serve_loop : (ℕ → Times) → ℕ → ℕ → Db → Bytes → Bytes → Served
serve_loop clock zero n db buffer output = out_of_fuel
serve_loop clock (suc fuel) n db buffer output = elim (parse buffer) [
  | incomplete ↦ waiting n db buffer output
  | malformed error ↦ out_of_sync n db (output ++ protocol_error error)
  | ok value consumed ↦
      let (reply, db') = execute_command (clock n) db value in
      serve_loop clock fuel (suc n) db' (drop consumed buffer) (output ++ serialize reply)
]

-- Every request takes a byte, so the length of the buffer is enough fuel.
unfoldable pub serve : (ℕ → Times) → ℕ → Db → Bytes → Bytes → Served
unfolding serve_loop
serve clock n db buffer output = serve_loop clock (suc (length buffer)) n db buffer output
