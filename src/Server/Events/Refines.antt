-- ===== src/Server/Events/Refines.antt =====
-- The event loop of src/server.cpp on its tables, against the step relation on clients.
use redis_lite_cpp.Common.{ℕ, [], ◌∷◌, List, false, none, ◌≡◌, refl, ◌∙◌, subst, ◌==◌}
use redis_lite_cpp.Commands.Base.{Times}
use redis_lite_cpp.Server.Receive.{receive, broken}
use redis_lite_cpp.Server.Setup.{Held}
use redis_lite_cpp.Server.Events.{
  Loop, close_client, Accepted, connection, no_more, interrupted_accept, failed_accept, accept_one,
  accept_clients, Filter, readable_filter, writable_filter, other_filter, Event, by_filter,
  handle_event, handle_events,
}
use redis_lite_cpp.Server.Events.Owned.{entry_of_unheld, handle_event-IsOwned, accept_one-IsOwned}
use redis_lite_cpp.Server.Events.Lawful.{IsOwned, OwnedAt, AreFresh, IsLawful, AreLawful, either}
use redis_lite_cpp.Server.Events.Tables.{IsTidy}
use redis_lite_cpp.Server.Events.Refined.{
  Refined, close_client-Refined, Refined-trans, read_client-Refined, write_client-Refined,
  accept_one-Refined,
}

module _ (own : Held) (clock : ℕ → Times) where
  no_entry : (fd : ℕ) (loop : Loop) → loop.held fd ≡ false → IsOwned own loop → loop.input fd ≡ none
  no_entry fd loop h owned =
      entry_of_unheld own (own fd) (loop.input fd) (loop.held fd) h (owned fd)

  accept_clients-Refined :
      (results : List Accepted) (loop : Loop)
      → AreFresh results loop
      → IsOwned own loop
      → IsTidy loop
      → Refined clock loop (accept_clients results loop)
  unfolding accept_clients
  accept_clients-Refined [] loop fresh owned tidy = (tidy, λ start run. run)
  accept_clients-Refined (connection fd fcntl registers ∷ results) loop fresh owned tidy =
      let first =
        accept_one-Refined clock fd fcntl registers loop (no_entry fd loop fresh.0 owned) tidy in
      Refined-trans clock loop (accept_one fd fcntl registers loop)
        (accept_clients results (accept_one fd fcntl registers loop)) first
        (accept_clients-Refined results _ fresh.1
          (accept_one-IsOwned own fd fcntl registers loop fresh.0 owned) first.0)
  accept_clients-Refined (no_more ∷ results) loop fresh owned tidy = (tidy, λ start run. run)
  accept_clients-Refined (interrupted_accept ∷ results) loop fresh owned tidy =
      accept_clients-Refined results loop fresh owned tidy
  accept_clients-Refined (failed_accept ∷ results) loop fresh owned tidy = (tidy, λ start run. run)

  unheld :
      (fd : ℕ) (loop : Loop)
      → own fd ≡ false
      → IsOwned own loop
      → loop.input fd ≡ none
      → loop.held fd ≡ false
  unheld fd loop h owned e = subst (λ entry. OwnedAt (own fd) entry (loop.held fd)) e (owned fd) ∙ h

  by_filter-Refined :
      (event : Event) (filter : Filter) (loop : Loop)
      → own event.fd ≡ false
      → (loop.held event.fd ≡ false → receive event.received [] ≡ broken)
      → IsOwned own loop
      → IsTidy loop
      → Refined clock loop (by_filter clock event filter loop)
  by_filter-Refined event readable_filter loop free stale owned tidy =
      read_client-Refined clock event.fd event.received event.sends loop _ refl
        (λ e. stale (unheld event.fd loop free owned e)) tidy
  by_filter-Refined event writable_filter loop free stale owned tidy =
      write_client-Refined clock event.fd event.sends loop _ refl tidy
  by_filter-Refined event other_filter loop free stale owned tidy = (tidy, λ start run. run)

  handle_event-Refined :
      (listen_fd : ℕ) (event : Event) (loop : Loop)
      → IsLawful own listen_fd event loop
      → IsOwned own loop
      → IsTidy loop
      → Refined clock loop (handle_event clock listen_fd event loop)
  unfolding handle_event
  handle_event-Refined listen_fd event loop lawful owned tidy =
      let Good = Refined clock loop in
      let at_listener = event.fd == listen_fd in
      either Good event.error _ _
        (λ _.
          either Good at_listener (record loop { running = false }) (close_client event.fd loop)
            (λ _. (tidy, λ start run. run)) (λ e. close_client-Refined clock event.fd loop tidy))
        (λ _.
          either Good at_listener (accept_clients event.accepts loop)
            (by_filter clock event event.filter loop)
            (λ _. accept_clients-Refined event.accepts loop lawful.fresh owned tidy)
            (λ e.
              by_filter-Refined event event.filter loop (lawful.at_client e) lawful.stale owned
                tidy))

  pub handle_events-Refined :
      (listen_fd : ℕ) (events : List Event) (loop : Loop)
      → AreLawful own clock listen_fd events loop
      → IsOwned own loop
      → IsTidy loop
      → Refined clock loop (handle_events clock listen_fd events loop)
  unfolding handle_events
  handle_events-Refined listen_fd [] loop lawful owned tidy = (tidy, λ start run. run)
  handle_events-Refined listen_fd (event ∷ events) loop lawful owned tidy =
      let first = handle_event-Refined listen_fd event loop lawful.0 owned tidy in
      Refined-trans clock loop (handle_event clock listen_fd event loop)
        (handle_events clock listen_fd events (handle_event clock listen_fd event loop)) first
        (handle_events-Refined listen_fd events _ lawful.1
          (handle_event-IsOwned own clock listen_fd event loop lawful.0 owned) first.0)
