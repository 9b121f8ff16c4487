-- ===== src/Server/Readable.antt =====
-- What the event loop of src/server.cpp does with a client that is readable or writable:
-- `handle_readable`, `try_send`, and what `run_server` makes of their results.
pub mod Drains
use redis_lite_cpp.Common.{
  ℕ, [], ◌∷◌, ◌++◌, List, Bool, true, false, Option, none, some, pos, if◌then◌else◌, ◌||◌,
}
use redis_lite_cpp.Text.{Bytes, codes}
use redis_lite_cpp.Decimal.{to_string}
use redis_lite_cpp.Commands.Base.{Db, Times}
use redis_lite_cpp.Server.Receive.{
  Received, Receipt, too_large, broken, buffered, receive, max_request_bytes,
}
use redis_lite_cpp.Server.Serve.{Served, waiting, out_of_sync, out_of_fuel, protocol_error, serve}
use redis_lite_cpp.Server.Send.{Sent, Attempt, try_send}

-- `client_input`, `client_output` and `closing` at one client, and whether its writability is
-- watched.
pub record Client : Type 0 where
  pub input : Bytes
  pub output : Bytes
  pub closing : Bool
  pub watched : Bool

pub data AfterRead : Type 0 where
  keep_open close_when_sent close_now : AfterRead

-- The number of commands executed, the store and the log, the bytes sent, and the client, or none
-- where `close_client` was called.
pub record Turn : Type 0 where
  pub executed : ℕ
  pub db : Db
  pub taken : Bytes
  pub client : Option Client

abbrev pub is_nil : Bytes → Bool
is_nil [] = true
is_nil (c ∷ s) = false

-- The client after an attempt to send.
abbrev pub after_attempt : Client → Attempt → Client
after_attempt client attempt = record client {
  output = attempt.pending;
  watched = client.watched || attempt.asks;
}

-- `run_server` on the result of `handle_readable`.
unfoldable pub settle : AfterRead → Client → Option Client
settle keep_open client = some client
settle close_when_sent client =
    if is_nil client.output then none else some (record client { closing = true })
settle close_now client = none

-- The last lines of `handle_readable`.
abbrev pub after_read : Bool → Attempt → AfterRead
after_read done attempt =
    if attempt.succeeds then if done then close_when_sent else keep_open else close_now

-- A protocol error is sent as far as that goes, and the client is closed.
abbrev pub refuse : List Sent → ℕ → Db → Bytes → Turn
refuse sends n db output = record {
  executed = n;
  db = db;
  taken = (try_send sends output).taken;
  client = none;
}

-- The end of `handle_readable` on what its second loop gives; the loop never runs out of fuel.
unfoldable pub answer : List Sent → Bool → ℕ → Db → Client → Served → Turn
unfolding settle
answer sends done n db client (waiting m db' input output) =
    let attempt = try_send sends output in
    record {
      executed = m;
      db = db';
      taken = attempt.taken;
      client =
          settle (after_read done attempt)
            (after_attempt (record client { input = input }) attempt);
    }
answer sends done n db client (out_of_sync m db' output) = refuse sends m db' output
answer sends done n db client out_of_fuel = record {
  executed = n;
  db = db;
  taken = [];
  client = none;
}

abbrev pub too_large_error : Bytes
too_large_error =
    protocol_error
      (codes "request larger than " ++ (to_string (pos max_request_bytes) ++ codes " bytes"))

unfoldable pub read_from : (ℕ → Times) → List Sent → ℕ → Db → Client → Receipt → Turn
unfolding answer
read_from clock sends n db client too_large = refuse sends n db (client.output ++ too_large_error)
read_from clock sends n db client broken = record {
  executed = n;
  db = db;
  taken = [];
  client = none;
}
read_from clock sends n db client (buffered input done) =
    answer sends done n db client (serve clock n db input client.output)

-- The event loop on a client with something to read.
unfoldable pub on_readable : (ℕ → Times) → List Received → List Sent → ℕ → Db → Client → Turn
unfolding read_from
on_readable clock results sends n db client =
    read_from clock sends n db client (receive results client.input)

unfoldable pub write_to : Client → Attempt → Option Client
write_to client attempt =
    if attempt.succeeds
    then if is_nil attempt.pending
      then if client.closing then none else some (record client { output = []; watched = false })
      else some (after_attempt client attempt)
    else none

-- The event loop on a client with room to write.
unfoldable pub on_writable : List Sent → Client → Bytes × Option Client
unfolding write_to
on_writable sends client =
    let attempt = try_send sends client.output in (attempt.taken, write_to client attempt)
