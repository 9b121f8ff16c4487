-- ===== src/Server/Rounds/Runs.antt =====
-- The event loop of src/server.cpp from the start of `run_server`, against the step relation.
use redis_lite_cpp.Common.{Bool, ℕ, [], ◌∷◌, List, Option, none, some, ◌≡◌, refl, subst}
use mathlib.Core.Option.{some_inj}
use redis_lite_cpp.Text.{Bytes}
use redis_lite_cpp.Store.{Store}
use redis_lite_cpp.Commands.Base.{Times}
use redis_lite_cpp.Server.Loop.{Server, Run, here}
use redis_lite_cpp.Server.Start.{start, started, with_log}
use redis_lite_cpp.Replay.Loop.{File}
use redis_lite_cpp.Server.Setup.{Held}
use redis_lite_cpp.Server.Events.{Loop}
use redis_lite_cpp.Server.Events.Lawful.{IsOwned, either}
use redis_lite_cpp.Server.Events.Tables.{server_of, IsTidy}
use redis_lite_cpp.Server.Events.Refines.{handle_events-Refined}
use redis_lite_cpp.Server.Events.Refined.{Refined, Refined-trans}
use redis_lite_cpp.Server.Rounds.{
  Wait, ready, interrupted_wait, failed_wait, Round, Ended, stopped, still_running, after_signal,
  on_wait, unless_failed, event_loop, new_loop,
}
use redis_lite_cpp.Server.Rounds.Stops.{IsLawfulWait, AreLawfulRounds, on_wait-IsOwned}

-- The state at the end of the rounds.
abbrev pub loop_of : Ended → Loop
loop_of (stopped loop) = loop
loop_of (still_running loop) = loop

module _ (own : Held) (clock : ℕ → Times) (listen_fd : ℕ) where
  on_wait-Refined :
      (wait : Wait) (loop : Loop)
      → IsLawfulWait own clock listen_fd wait loop
      → IsOwned own loop
      → IsTidy loop
      → Refined clock loop (on_wait clock listen_fd wait loop)
  on_wait-Refined (ready events) loop lawful owned tidy =
      handle_events-Refined own clock listen_fd events loop lawful owned tidy
  on_wait-Refined interrupted_wait loop lawful owned tidy = (tidy, λ start run. run)
  on_wait-Refined failed_wait loop lawful owned tidy = (tidy, λ start run. run)

  unless_failed-Refined :
      (wait : Wait) (before loop : Loop) (rest : Ended)
      → Refined clock before loop
      → Refined clock before (loop_of rest)
      → Refined clock before (loop_of (unless_failed wait loop rest))
  unless_failed-Refined (ready events) before loop rest h k = k
  unless_failed-Refined interrupted_wait before loop rest h k = k
  unless_failed-Refined failed_wait before loop rest h k = h

  event_loop-Refined :
      (rounds : List Round) (loop : Loop)
      → AreLawfulRounds own clock listen_fd rounds loop
      → IsOwned own loop
      → IsTidy loop
      → Refined clock loop (loop_of (event_loop clock listen_fd rounds loop))
  unfolding event_loop
  event_loop-Refined [] loop lawful owned tidy =
      either (λ ended. Refined clock loop (loop_of ended)) loop.running (still_running loop)
        (stopped loop) (λ _. (tidy, λ start run. run)) (λ _. (tidy, λ start run. run))
  event_loop-Refined (round ∷ rounds) loop lawful owned tidy =
      let loop' = after_signal round.signalled loop in
      let next = on_wait clock listen_fd round.wait loop' in
      let rest = event_loop clock listen_fd rounds next in
      let first : Refined clock loop next = on_wait-Refined round.wait loop' lawful.0 owned tidy in
      let whole : Refined clock loop (loop_of rest) =
        Refined-trans clock loop next (loop_of rest) first (
          event_loop-Refined rounds next lawful.1
            (on_wait-IsOwned own clock listen_fd round.wait loop' lawful.0 owned) first.0) in
      either (λ ended. Refined clock loop (loop_of ended)) loop'.running
        (unless_failed round.wait loop' rest) (stopped loop')
        (λ _. unless_failed-Refined round.wait loop loop' rest (tidy, λ start run. run) whole)
        (λ _. (tidy, λ start run. run))

logged_alone :
    (store : Store) (o : Option Bytes) (held : Held) (server : Server)
    → with_log store o ≡ some server
    → server ≡ server_of (new_loop server held)
logged_alone store none held server e = cc
logged_alone store (some content) held server e =
    subst (λ s. s ≡ server_of (new_loop s held)) (some_inj.0 e) refl

started_alone :
    (file : File) (opens : Bool) (r : Store × Option Bytes) (held : Held) (server : Server)
    → started file opens r ≡ some server
    → server ≡ server_of (new_loop server held)
started_alone file opens (store, some error) held server e = cc
started_alone file opens (store, none) held server e = logged_alone store _ held server e

-- The loop on its tables takes the steps of the relation: from a start on any file, at any signals
-- and any rounds of events, where the kernel accepts only descriptors that are not in use, reports
-- events only of the listening socket and of clients, and fails `recv` at a closed descriptor, the
-- state after the rounds, with its tables read as one of clients, is reached by a run of the steps,
-- also where an event is about a client that was closed earlier among the same events.
pub event_loop-Run :
    (clock clock' : ℕ → Times) (file : File) (opens : Bool) (server : Server) (held : Held)
    (listen_fd : ℕ) (rounds : List Round)
    → start clock file opens ≡ some server
    → AreLawfulRounds held clock' listen_fd rounds (new_loop server held)
    → Run clock' server
        (server_of (loop_of (event_loop clock' listen_fd rounds (new_loop server held))))
unfolding start
event_loop-Run clock clock' file opens server held listen_fd rounds e lawful =
    (event_loop-Refined held clock' listen_fd rounds (new_loop server held) lawful (λ fd. refl)
        (λ fd. (refl, refl, refl))).1
      server (subst (Run clock' server) (started_alone file opens _ held server e) here)
