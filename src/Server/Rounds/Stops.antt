-- ===== src/Server/Rounds/Stops.antt =====
-- The return of `run_server` of src/server.cpp, and the descriptors held at it.
use redis_lite_cpp.Common.{
  ℕ, [], ◌∷◌, List, Bool, true, false, Option, none, some, ◌≡◌, refl, sym, ap, ◌∙◌, subst, ◌==◌,
  if◌then◌else◌, ◌||◌,
}
use redis_lite_cpp.Text.{Bytes}
use redis_lite_cpp.Commands.Base.{Times}
use redis_lite_cpp.Server.Loop.{Server}
use redis_lite_cpp.Replay.Loop.{File}
use redis_lite_cpp.Server.Start.{start}
use redis_lite_cpp.Server.Setup.{Held, close, hold, Calls, Opened, refused, opened, open_listener}
use redis_lite_cpp.Server.Events.{Loop}
use redis_lite_cpp.Server.Events.Owned.{handle_events-IsOwned}
use redis_lite_cpp.Server.Events.Lawful.{OwnedAt, IsOwned, AreLawful, either}
use redis_lite_cpp.Server.Rounds.{
  Wait, ready, interrupted_wait, failed_wait, Round, Ended, stopped, still_running, after_signal,
  on_wait, unless_failed, event_loop, shut_down, new_loop, returned, serve_on, run_started,
  run_server,
}
use redis_lite_cpp.Server.Setup.Balanced.{OpensFresh, Balances, closed_both, open_listener-Balances}

abbrev pub IsLawfulWait : Held → (ℕ → Times) → ℕ → Wait → Loop → Type 0
IsLawfulWait own clock listen_fd (ready events) loop = AreLawful own clock listen_fd events loop
IsLawfulWait own clock listen_fd interrupted_wait loop = Unit
IsLawfulWait own clock listen_fd failed_wait loop = Unit

-- The kernel's promises for every event of the rounds.
abbrev pub AreLawfulRounds : Held → (ℕ → Times) → ℕ → List Round → Loop → Type 0
AreLawfulRounds own clock listen_fd [] loop = Unit
AreLawfulRounds own clock listen_fd (round ∷ rounds) loop =
    let loop' = after_signal round.signalled loop in
    IsLawfulWait own clock listen_fd round.wait loop'
    × AreLawfulRounds own clock listen_fd rounds (on_wait clock listen_fd round.wait loop')

abbrev pub any_signalled : List Round → Bool
any_signalled [] = false
any_signalled (round ∷ rounds) = round.signalled || any_signalled rounds

pub on_wait-IsOwned :
    (own : Held) (clock : ℕ → Times) (listen_fd : ℕ) (wait : Wait) (loop : Loop)
    → IsLawfulWait own clock listen_fd wait loop
    → IsOwned own loop
    → IsOwned own (on_wait clock listen_fd wait loop)
on_wait-IsOwned own clock listen_fd (ready events) loop lawful owned =
    handle_events-IsOwned own clock listen_fd events loop lawful owned
on_wait-IsOwned own clock listen_fd interrupted_wait loop lawful owned = owned
on_wait-IsOwned own clock listen_fd failed_wait loop lawful owned = owned

-- The loop has ended, with every descriptor accounted for.
abbrev StopsOwned : Held → Ended → Type 0
StopsOwned own (stopped loop) = IsOwned own loop
StopsOwned own (still_running loop) = ⊥

unless_failed-StopsOwned :
    (own : Held) (wait : Wait) (loop : Loop) (rest : Ended)
    → IsOwned own loop
    → StopsOwned own rest
    → StopsOwned own (unless_failed wait loop rest)
unless_failed-StopsOwned own (ready events) loop rest owned h = h
unless_failed-StopsOwned own interrupted_wait loop rest owned h = h
unless_failed-StopsOwned own failed_wait loop rest owned h = owned

-- A round that was signalled ends the loop.
event_loop_round-StopsOwned :
    (own : Held) (wait : Wait) (signalled : Bool) (loop : Loop) (rest : Ended) (later : Bool)
    → (signalled || later) ≡ true
    → IsOwned own loop
    → (later ≡ true → StopsOwned own rest)
    → StopsOwned own (
        if (after_signal signalled loop).running
        then unless_failed wait (after_signal signalled loop) rest
        else stopped (after_signal signalled loop))
event_loop_round-StopsOwned own wait true loop rest later any owned h = owned
event_loop_round-StopsOwned own wait false loop rest later any owned h =
    either (StopsOwned own) loop.running _ _
      (λ _. unless_failed-StopsOwned own wait loop rest owned (h any)) (λ _. owned)

event_loop-StopsOwned :
    (own : Held) (clock : ℕ → Times) (listen_fd : ℕ) (rounds : List Round) (loop : Loop)
    → any_signalled rounds ≡ true
    → AreLawfulRounds own clock listen_fd rounds loop
    → IsOwned own loop
    → StopsOwned own (event_loop clock listen_fd rounds loop)
unfolding event_loop
event_loop-StopsOwned own clock listen_fd [] loop any lawful owned = cc
event_loop-StopsOwned own clock listen_fd (round ∷ rounds) loop any lawful owned =
    event_loop_round-StopsOwned own round.wait round.signalled loop _ (any_signalled rounds) any
      owned
      (λ e.
        event_loop-StopsOwned own clock listen_fd rounds _ e lawful.1
          (on_wait-IsOwned own clock listen_fd round.wait _ lawful.0 owned))

none_held :
    (a b c : Bool)
    → (if b then true else if a then true else c) ≡ false
    → (if a then false else if b then false else false) ≡ c
none_held true true c h = cc
none_held true false c h = cc
none_held false true c h = cc
none_held false false c h = sym h

at_shut_down :
    (before : Held) (listen_fd kq fd : ℕ) (entry : Option Bytes) (held : Bool)
    → before listen_fd ≡ false
    → hold listen_fd before kq ≡ false
    → OwnedAt (hold kq (hold listen_fd before) fd) entry held
    → close listen_fd (close kq λ fd. elim entry [ none ↦ held | some bytes ↦ false ]) fd
      ≡ before fd
at_shut_down before listen_fd kq fd none held h k owned =
    ap (λ b. if fd == listen_fd then false else if fd == kq then false else b) owned
    ∙ closed_both listen_fd kq before h k fd
at_shut_down before listen_fd kq fd (some bytes) held h k owned =
    none_held (fd == listen_fd) (fd == kq) (before fd) owned.1

shut_down_lem :
    (before : Held) (listen_fd kq : ℕ) (loop : Loop)
    → before listen_fd ≡ false
    → hold listen_fd before kq ≡ false
    → IsOwned (hold kq (hold listen_fd before)) loop
    → (fd : ℕ) → shut_down listen_fd kq loop fd ≡ before fd
unfolding shut_down
shut_down_lem before listen_fd kq loop h k owned fd =
    at_shut_down before listen_fd kq fd (loop.input fd) (loop.held fd) h k (owned fd)

-- The server returns, with the descriptors that were held before.
abbrev pub Restores : Held → Option (ℕ × Held) → Type 0
Restores before none = ⊥
Restores before (some (code, held)) = (fd : ℕ) → held fd ≡ before fd

returned-Restores :
    (before : Held) (listen_fd kq : ℕ) (ended : Ended)
    → before listen_fd ≡ false
    → hold listen_fd before kq ≡ false
    → StopsOwned (hold kq (hold listen_fd before)) ended
    → Restores before (returned listen_fd kq ended)
returned-Restores before listen_fd kq (stopped loop) h k owned =
    shut_down_lem before listen_fd kq loop h k owned
returned-Restores before listen_fd kq (still_running loop) h k owned = absurd owned

serve_on-Restores :
    (clock : ℕ → Times) (rounds : List Round) (server : Server) (before : Held) (o : Opened)
    → any_signalled rounds ≡ true
    → Balances before o
    → ((listen_fd kq : ℕ) (held : Held)
        → o ≡ opened listen_fd kq held
        → AreLawfulRounds held clock listen_fd rounds (new_loop server held))
    → Restores before (serve_on clock rounds server o)
serve_on-Restores clock rounds server before (refused held) any balances lawful = balances
serve_on-Restores clock rounds server before (opened listen_fd kq held) any (h, k, e) lawful =
    returned-Restores before listen_fd kq _ h k (
      subst (λ own. StopsOwned own (event_loop clock listen_fd rounds (new_loop server held))) e
        (event_loop-StopsOwned held clock listen_fd rounds _ any (lawful listen_fd kq held refl)
          (λ fd. refl)))

run_started-Restores :
    (clock : ℕ → Times) (calls : Calls) (rounds : List Round) (before : Held) (o : Option Server)
    → OpensFresh calls before
    → any_signalled rounds ≡ true
    → ((server : Server) (listen_fd kq : ℕ) (held : Held)
        → o ≡ some server
        → open_listener calls before ≡ opened listen_fd kq held
        → AreLawfulRounds held clock listen_fd rounds (new_loop server held))
    → Restores before (run_started clock calls rounds before o)
run_started-Restores clock calls rounds before none fresh any lawful = λ fd. refl
run_started-Restores clock calls rounds before (some server) fresh any lawful =
    serve_on-Restores clock rounds server before _ any (open_listener-Balances calls before fresh)
      (λ listen_fd kq held e. lawful server listen_fd kq held refl e)

-- The server stops when it is told to, and leaks no descriptor: for any file, any results of the
-- calls before the loop and any rounds of events of which one finds SIGINT or SIGTERM
-- raised, where the kernel opens and accepts only descriptors that are not in use, reports events
-- only of the listening socket and of clients, and fails `recv` at a closed descriptor,
-- `run_server` returns, and the descriptors held at its return are those held at its call.
pub run_server-Restores :
    (clock clock' : ℕ → Times) (file : File) (opens : Bool) (calls : Calls) (rounds : List Round)
    (before : Held)
    → OpensFresh calls before
    → any_signalled rounds ≡ true
    → ((server : Server) (listen_fd kq : ℕ) (held : Held)
        → start clock file opens ≡ some server
        → open_listener calls before ≡ opened listen_fd kq held
        → AreLawfulRounds held clock' listen_fd rounds (new_loop server held))
    → Restores before (run_server clock clock' file opens calls rounds before)
unfolding run_server
run_server-Restores clock clock' file opens calls rounds before fresh any lawful =
    run_started-Restores clock' calls rounds before (start clock file opens) fresh any lawful
