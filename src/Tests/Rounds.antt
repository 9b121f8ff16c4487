-- ===== src/Tests/Rounds.antt =====
-- A run of src/server.cpp in which a client connects and hangs up, events about it come too late,
-- and SIGINT stops the server.
use redis_lite_cpp.Common.{
  ℕ, [], ◌∷◌, List, Bool, true, false, none, some, ◌≡◌, refl, subst, ltb, ◌∙◌,
}
use mathlib.Core.Option.{some_inj}
use redis_lite_cpp.Store.{empty_store}
use redis_lite_cpp.Commands.Base.{Times}
use redis_lite_cpp.Server.Receive.{finished, failed, broken, receive}
use redis_lite_cpp.Server.Loop.{Server, Run}
use redis_lite_cpp.Server.Start.{start}
use redis_lite_cpp.Replay.Loop.{replay_log, absent}
use redis_lite_cpp.Log.{open_log}
use redis_lite_cpp.Server.Setup.{
  Held, hold, Fcntl, changed, Calls, Opened, refused, opened, open_listener, set_non_blocking,
  update_event,
}
use redis_lite_cpp.Server.Events.{
  Event, connection, no_more, readable_filter, writable_filter, handle_event, handle_events,
  accept_clients, accept_one,
}
use redis_lite_cpp.Server.Events.Tables.{server_of}
use redis_lite_cpp.Server.Rounds.{Round, ready, interrupted_wait, event_loop, run_server, new_loop}
use redis_lite_cpp.Server.Rounds.Stops.{AreLawfulRounds, Restores, run_server-Restores}
use redis_lite_cpp.Server.Rounds.Runs.{loop_of, event_loop-Run}

abbrev clock : ℕ → Times
clock n = record { now = n; later = n; unix = 1_700_000_000 }

abbrev fcntl : Fcntl
fcntl = record { flags = some 2; sets = true }

abbrev calls : Calls
calls = record {
  socket = some 3;
  reuses = true;
  fcntl = fcntl;
  binds = true;
  listens = true;
  kqueue = some 4;
  registers = changed;
}

-- The standard streams.
abbrev before : Held
before fd = ltb fd 3

abbrev connects : Event
connects = record {
  fd = 3;
  error = false;
  filter = readable_filter;
  accepts = connection 5 fcntl changed ∷ no_more ∷ [];
  received = failed ∷ [];
  sends = [];
}

abbrev hangs_up : Event
hangs_up = record {
  fd = 5;
  error = false;
  filter = readable_filter;
  accepts = [];
  received = finished ∷ [];
  sends = [];
}

abbrev has_room : Event
has_room = record {
  fd = 5;
  error = false;
  filter = writable_filter;
  accepts = [];
  received = failed ∷ [];
  sends = [];
}

abbrev rounds : List Round
rounds =
    record { signalled = false; wait = ready (connects ∷ []) }
    ∷ record { signalled = false; wait = ready (hangs_up ∷ has_room ∷ []) }
    ∷ record { signalled = true; wait = interrupted_wait }
    ∷ []

abbrev held : Held
held = hold 4 (hold 3 before)

hung_up : (b : Bool) → b ≡ true → b ≡ false → receive (finished ∷ []) [] ≡ broken
hung_up b e f = cc

failed-broken : receive (failed ∷ []) [] ≡ broken
unfolding receive
failed-broken = refl

held-IsLawful : (server : Server) → AreLawfulRounds held clock 3 rounds (new_loop server held)
unfolding accept_clients accept_one set_non_blocking update_event handle_event handle_events
held-IsLawful server = (
  (record { at_client = λ e. cc; fresh = (refl, tt); stale = λ e. failed-broken }, tt),
  (
    (
      record { at_client = λ e. refl; fresh = tt; stale = λ e. hung_up true refl e },
      (record { at_client = λ e. refl; fresh = tt; stale = λ e. failed-broken }, tt),
    ),
    (tt, tt),
  ),
)

abbrev LawfulAt : Server → Opened → Type 0
LawfulAt server (refused held') = Unit
LawfulAt server (opened listen_fd kq held') =
    AreLawfulRounds held' clock listen_fd rounds (new_loop server held')

calls-opened : opened 3 4 held ≡ open_listener calls before
unfolding open_listener set_non_blocking update_event
calls-opened = refl

fresh_at : (fd fd' : ℕ) → before fd ≡ false → some fd ≡ some fd' → before fd' ≡ false
fresh_at fd fd' h e = cc

fresh_queue_at :
    (listen_fd kq l k : ℕ)
    → hold listen_fd before kq ≡ false
    → some listen_fd ≡ some l
    → some kq ≡ some k
    → hold l before k ≡ false
fresh_queue_at listen_fd kq l k h e f =
    subst (λ n. hold n before k ≡ false) (some_inj.0 e)
      (subst (λ n. hold listen_fd before n ≡ false) (some_inj.0 f) h)

run_server-Restores_example :
    Restores before (run_server clock clock absent true calls rounds before)
run_server-Restores_example =
    run_server-Restores clock clock absent true calls rounds before
      (record {
        fresh_socket = λ fd e. fresh_at 3 fd refl e;
        fresh_queue = λ l k e f. fresh_queue_at 3 4 l k refl e f;
      })
      refl (λ server l k h s e. subst (LawfulAt server) (calls-opened ∙ e) (held-IsLawful server))

abbrev alone : Server
alone = record {
  executed = 0;
  db = record { store = empty_store; log = some [] };
  clients = λ fd. none;
}

alone-start : start clock absent true ≡ some alone
unfolding start replay_log open_log
alone-start = refl

-- After the three rounds.
event_loop-Run_example :
    Run clock alone (server_of (loop_of (event_loop clock 3 rounds (new_loop alone held))))
event_loop-Run_example =
    event_loop-Run clock clock absent true alone held 3 rounds alone-start (held-IsLawful alone)
