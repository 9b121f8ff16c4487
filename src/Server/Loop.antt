-- ===== src/Server/Loop.antt =====
-- The event loop of `run_server` in src/server.cpp as a step relation.
pub mod Sound
use redis_lite_cpp.Common.{
  ℕ, [], List, Bool, true, false, Option, none, some, ◌≡◌, refl, sym, ◌∙◌, subst, inl, inr, ◌⊎◌,
  arith, if◌then◌else◌, ◌==◌, ◌||◌, Bool-cases, length, ◌≤◌,
}
use mathlib.Core.Bool.{true≢false}
use redis_lite_cpp.Text.{Bytes}
use redis_lite_cpp.Store.Valid.{IsValid}
use redis_lite_cpp.Commands.Base.{Db, Times}
use redis_lite_cpp.Server.Receive.{
  max_request_bytes, receive-buffered, Received, Receipt, too_large, broken, buffered, receive,
}
use redis_lite_cpp.Server.Serve.{Served, waiting, out_of_sync, out_of_fuel}
use redis_lite_cpp.Server.Serve.Settled.{Settled, serve-Settled}
use redis_lite_cpp.Server.Send.{Sent, try_send, try_send-Delivers}
use redis_lite_cpp.Server.Readable.{
  Client, AfterRead, keep_open, close_when_sent, close_now, settle, after_attempt, after_read, Turn,
  is_nil, answer, read_from, on_readable, write_to, on_writable,
}

-- The commands executed, the store and the log, and the client at each descriptor.
pub record Server : Type 0 where
  pub executed : ℕ
  pub db : Db
  pub clients : ℕ → Option Client

abbrev pub update {ℓ} : {A : Type ℓ} → ℕ → A → (ℕ → A) → ℕ → A
update fd value table other = if other == fd then value else table other

-- `accept_clients` for one connection: nothing is buffered.
abbrev pub new_client : Client
new_client = record { input = []; output = []; closing = false; watched = false }

-- One event of the loop, at a descriptor that is registered.
pub data Step (clock : ℕ → Times) (server : Server) : Server → Type 0 where
  accepted :
      (fd : ℕ)
      → server.clients fd ≡ none
      → Step clock server (record server { clients = update fd (some new_client) server.clients })
  error_event :
      (fd : ℕ) → Step clock server (record server { clients = update fd none server.clients })
  readable :
      (fd : ℕ) (client : Client) (results : List Received) (sends : List Sent)
      → server.clients fd ≡ some client
      → Step clock server (record {
        executed = (on_readable clock results sends server.executed server.db client).executed;
        db = (on_readable clock results sends server.executed server.db client).db;
        clients =
            update fd
              (on_readable clock results sends server.executed server.db client).client
              server.clients;
      })
  writable :
      (fd : ℕ) (client : Client) (sends : List Sent)
      → server.clients fd ≡ some client
      → Step clock server
          (record server { clients = update fd (on_writable sends client).1 server.clients })

-- A run of the loop.
pub data Run (clock : ℕ → Times) (server : Server) : Server → Type 0 where
  here : Run clock server server
  then_step :
      {before after : Server}
      → Run clock server before
      → Step clock before after
      → Run clock server after
