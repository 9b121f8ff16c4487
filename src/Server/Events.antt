-- ===== src/Server/Events.antt =====
-- One event of the loop of `run_server` in src/server.cpp, on the tables that it keeps:
-- `close_client`, `accept_clients`, and the branches on the event's flags and filter.
pub mod Refined
pub mod Lawful
pub mod Owned
pub mod Tables
pub mod Refines
use redis_lite_cpp.Common.{
  ℕ, [], ◌∷◌, List, Bool, true, false, Option, none, some, if◌then◌else◌, ◌==◌, ◌||◌,
}
use redis_lite_cpp.Text.{Bytes}
use redis_lite_cpp.Commands.Base.{Db, Times}
use redis_lite_cpp.Server.Receive.{Received}
use redis_lite_cpp.Server.Send.{Sent, Attempt, try_send}
use redis_lite_cpp.Server.Readable.{Client, Turn, is_nil, on_readable}
use redis_lite_cpp.Server.Loop.{update}
use redis_lite_cpp.Server.Setup.{Held, close, hold, Fcntl, set_non_blocking, Changed, update_event}

-- `client_input`, `client_output`, `closing` and `g_running`, the commands executed, the store and
-- the log, the descriptors held, and those whose writability is watched.
pub record Loop : Type 0 where
  pub executed : ℕ
  pub db : Db
  pub input : ℕ → Option Bytes
  pub output : ℕ → Option Bytes
  pub closing : ℕ → Bool
  pub running : Bool
  pub held : Held
  pub watched : ℕ → Bool

-- `table[fd]`: the empty string where there is no entry.
abbrev pub bytes_at : Option Bytes → Bytes
bytes_at none = []
bytes_at (some bytes) = bytes

-- The kernel forgets the filters of a descriptor that is closed.
unfoldable pub close_client : ℕ → Loop → Loop
close_client fd loop = record loop {
  input = update fd none loop.input;
  output = update fd none loop.output;
  closing = update fd false loop.closing;
  held = close fd loop.held;
  watched = update fd false loop.watched;
}

-- What `accept` gives: a connection, with the results of the calls that make it ready, or an error
-- with EAGAIN or EWOULDBLOCK, with EINTR, or with another.
pub data Accepted : Type 0 where
  connection : (fd : ℕ) → Fcntl → Changed → Accepted
  no_more interrupted_accept failed_accept : Accepted

abbrev pub connected : ℕ → Loop → Loop
connected fd loop = record loop {
  input = update fd (some []) loop.input;
  output = update fd (some []) loop.output;
  held = hold fd loop.held;
}

-- The body of the loop for one connection; both failures close the descriptor just accepted.
unfoldable pub accept_one : ℕ → Fcntl → Changed → Loop → Loop
accept_one fd fcntl registers loop =
    if set_non_blocking fcntl
    then if update_event false registers
      then connected fd loop
      else record loop { held = close fd (hold fd loop.held) }
    else record loop { held = close fd (hold fd loop.held) }

-- Behind the last result no connection waits.
unfoldable pub accept_clients : List Accepted → Loop → Loop
accept_clients [] loop = loop
accept_clients (connection fd fcntl registers ∷ results) loop =
    accept_clients results (accept_one fd fcntl registers loop)
accept_clients (no_more ∷ results) loop = loop
accept_clients (interrupted_accept ∷ results) loop = accept_clients results loop
accept_clients (failed_accept ∷ results) loop = loop

-- The tables' entries for one client.
abbrev pub client_at : ℕ → Loop → Client
client_at fd loop = record {
  input = bytes_at (loop.input fd);
  output = bytes_at (loop.output fd);
  closing = loop.closing fd;
  watched = loop.watched fd;
}

abbrev pub keep_client : ℕ → Option Client → Loop → Loop
keep_client fd none loop = close_client fd loop
keep_client fd (some client) loop = record loop {
  input = update fd (some client.input) loop.input;
  output = update fd (some client.output) loop.output;
  closing = update fd client.closing loop.closing;
  watched = update fd client.watched loop.watched;
}

-- The branch for EVFILT_READ.
unfoldable pub read_client : (ℕ → Times) → ℕ → List Received → List Sent → Loop → Loop
read_client clock fd results sends loop =
    let turn = on_readable clock results sends loop.executed loop.db (client_at fd loop) in
    keep_client fd turn.client (record loop { executed = turn.executed; db = turn.db })

abbrev pub drained : ℕ → Loop → Loop
drained fd loop = record loop {
  output = update fd (some []) loop.output;
  watched = update fd false loop.watched;
}

abbrev pub attempted : ℕ → Attempt → Loop → Loop
attempted fd attempt loop = record loop {
  output = update fd (some attempt.pending) loop.output;
  watched = update fd (loop.watched fd || attempt.asks) loop.watched;
}

abbrev pub after_write : ℕ → Attempt → Loop → Loop
after_write fd attempt loop =
    if attempt.succeeds
    then if is_nil attempt.pending
      then if loop.closing fd then close_client fd (drained fd loop) else drained fd loop
      else attempted fd attempt loop
    else close_client fd loop

-- The branch for EVFILT_WRITE; it does not look at `client_input`.
unfoldable pub write_client : ℕ → List Sent → Loop → Loop
write_client fd sends loop = after_write fd (try_send sends (bytes_at (loop.output fd))) loop

pub data Filter : Type 0 where
  readable_filter writable_filter other_filter : Filter

-- What `kevent` says of a descriptor, and what the calls give that the loop then makes.
pub record Event : Type 0 where
  pub fd : ℕ
  pub error : Bool
  pub filter : Filter
  pub accepts : List Accepted
  pub received : List Received
  pub sends : List Sent

abbrev pub by_filter : (ℕ → Times) → Event → Filter → Loop → Loop
by_filter clock event readable_filter loop =
    read_client clock event.fd event.received event.sends loop
by_filter clock event writable_filter loop = write_client event.fd event.sends loop
by_filter clock event other_filter loop = loop

-- The body of the loop over the events that are ready.
unfoldable pub handle_event : (ℕ → Times) → ℕ → Event → Loop → Loop
handle_event clock listen_fd event loop =
    if event.error
    then if event.fd == listen_fd
      then record loop { running = false }
      else close_client event.fd loop
    else if event.fd == listen_fd
    then accept_clients event.accepts loop
    else by_filter clock event event.filter loop

unfoldable pub handle_events : (ℕ → Times) → ℕ → List Event → Loop → Loop
handle_events clock listen_fd [] loop = loop
handle_events clock listen_fd (event ∷ events) loop =
    handle_events clock listen_fd events (handle_event clock listen_fd event loop)
