-- ===== src/Server/Rounds.antt =====
-- `run_server` of src/server.cpp from its start to its return: the set-up, the event loop with the
-- signals that stop it, and the shutdown.
pub mod Stops
pub mod Runs
use redis_lite_cpp.Common.{ℕ, [], ◌∷◌, List, Bool, true, false, Option, none, some, if◌then◌else◌}
use redis_lite_cpp.Text.{Bytes}
use redis_lite_cpp.Commands.Base.{Times, Db}
use redis_lite_cpp.Server.Loop.{Server}
use redis_lite_cpp.Replay.Loop.{File}
use redis_lite_cpp.Server.Start.{start}
use redis_lite_cpp.Server.Setup.{Held, close, Calls, Opened, refused, opened, open_listener}
use redis_lite_cpp.Server.Events.{Loop, Event, handle_events}

-- What `kevent` gives for a wait: the events that are ready, EINTR, or another error.
pub data Wait : Type 0 where
  ready : List Event → Wait
  interrupted_wait failed_wait : Wait

-- A turn of `while (g_running)`: whether SIGINT or SIGTERM arrives before the condition is read, and
-- the wait.
pub record Round : Type 0 where
  pub signalled : Bool
  pub wait : Wait

-- The loop has ended, or the rounds have run out before.
pub data Ended : Type 0 where
  stopped : Loop → Ended
  still_running : Loop → Ended

abbrev pub after_signal : Bool → Loop → Loop
after_signal signalled loop = record loop { running = if signalled then false else loop.running }

abbrev pub on_wait : (ℕ → Times) → ℕ → Wait → Loop → Loop
on_wait clock listen_fd (ready events) loop = handle_events clock listen_fd events loop
on_wait clock listen_fd interrupted_wait loop = loop
on_wait clock listen_fd failed_wait loop = loop

-- `break` where the wait fails.
abbrev pub unless_failed : Wait → Loop → Ended → Ended
unless_failed failed_wait loop rest = stopped loop
unless_failed interrupted_wait loop rest = rest
unless_failed (ready events) loop rest = rest

unfoldable pub event_loop : (ℕ → Times) → ℕ → List Round → Loop → Ended
event_loop clock listen_fd [] loop = if loop.running then still_running loop else stopped loop
event_loop clock listen_fd (round ∷ rounds) loop =
    let loop' = after_signal round.signalled loop in
    let rest = event_loop clock listen_fd rounds (on_wait clock listen_fd round.wait loop') in
    if loop'.running then unless_failed round.wait loop' rest else stopped loop'

-- Every client in `client_input` is closed, then the queue and the listening socket.
unfoldable pub shut_down : ℕ → ℕ → Loop → Held
shut_down listen_fd kq loop =
    close listen_fd
      (close kq λ fd. elim (loop.input fd) [ none ↦ loop.held fd | some bytes ↦ false ])

abbrev pub new_loop : Server → Held → Loop
new_loop server held = record {
  executed = server.executed;
  db = server.db;
  input = λ fd. none;
  output = λ fd. none;
  closing = λ fd. false;
  running = true;
  held = held;
  watched = λ fd. false;
}

-- The exit code with the descriptors held at the return, or none while the loop has more to do.
abbrev pub returned : ℕ → ℕ → Ended → Option (ℕ × Held)
returned listen_fd kq (stopped loop) = some (0, shut_down listen_fd kq loop)
returned listen_fd kq (still_running loop) = none

abbrev pub serve_on : (ℕ → Times) → List Round → Server → Opened → Option (ℕ × Held)
serve_on clock rounds server (refused held) = some (1, held)
serve_on clock rounds server (opened listen_fd kq held) =
    returned listen_fd kq (event_loop clock listen_fd rounds (new_loop server held))

abbrev pub run_started : (ℕ → Times) → Calls → List Round → Held → Option Server → Option (ℕ × Held)
run_started clock calls rounds held none = some (1, held)
run_started clock calls rounds held (some server) =
    serve_on clock rounds server (open_listener calls held)

-- `opens` says whether the log can be opened for appending.
unfoldable pub run_server :
    (ℕ → Times)
    → (ℕ → Times)
    → File
    → (opens : Bool) → Calls
    → List Round
    → Held
    → Option (ℕ × Held)
run_server clock clock' file opens calls rounds held =
    run_started clock' calls rounds held (start clock file opens)
