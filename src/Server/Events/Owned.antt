-- ===== src/Server/Events/Owned.antt =====
-- Which descriptors the server of src/server.cpp holds during its event loop.
use redis_lite_cpp.Common.{
  ℕ, [], ◌∷◌, List, Bool, true, false, Option, none, some, ◌≡◌, refl, sym, ap, ◌∙◌, subst, ◌==◌,
  if◌then◌else◌, Bool-cases, inl, inr, ◌⊎◌,
}
use mathlib.Core.Bool.{true≢false}
use redis_lite_cpp.Text.{Bytes}
use redis_lite_cpp.Commands.Base.{Times, Db}
use redis_lite_cpp.Server.Receive.{receive, broken, Received}
use redis_lite_cpp.Server.Send.{Sent, try_send}
use redis_lite_cpp.Server.Readable.{Client, is_nil, on_readable, read_from}
use redis_lite_cpp.Server.Loop.{update}
use redis_lite_cpp.Server.Setup.{Held, close, hold, Fcntl, set_non_blocking, Changed, update_event}
use redis_lite_cpp.Server.Events.{
  Loop, bytes_at, close_client, Accepted, connection, no_more, interrupted_accept, failed_accept,
  connected, accept_one, accept_clients, client_at, keep_client, read_client, drained, attempted,
  write_client, Filter, readable_filter, writable_filter, other_filter, Event, by_filter,
  handle_event, handle_events,
}
use redis_lite_cpp.Server.Events.Lawful.{
  OwnedAt, IsOwned, AreFresh, IsLawful, AreLawful, at_same, either,
}

module _ (own : Held) where
  update-OwnedAt :
      (fd : ℕ) (entry : Option Bytes) (b : Bool) (input : ℕ → Option Bytes) (held : Held)
      → OwnedAt (own fd) entry b
      → ((other : ℕ) → OwnedAt (own other) (input other) (held other))
      → (other : ℕ) → OwnedAt (own other) (update fd entry input other) (update fd b held other)
  update-OwnedAt fd entry b input held h hs other =
      at_same
        (λ same.
          OwnedAt (own other) (if same then entry else input other)
            (if same then b else held other))
        other fd (λ e. subst (λ n. OwnedAt (own n) entry b) (sym e) h) (λ e. hs other)

  close_client-IsOwned :
      (fd : ℕ) (loop : Loop)
      → own fd ≡ false
      → IsOwned own loop
      → IsOwned own (close_client fd loop)
  unfolding close_client
  close_client-IsOwned fd loop h = update-OwnedAt fd none false loop.input loop.held (sym h)

  -- A descriptor that was not held is opened and closed.
  reopened :
      (fd : ℕ) (held : Held)
      → held fd ≡ false
      → (other : ℕ) → close fd (hold fd held) other ≡ held other
  reopened fd held h other =
      at_same (λ same. (if same then false else if same then true else held other) ≡ held other)
        other fd (λ e. sym (ap held e ∙ h)) (λ e. refl)

  pub fresh-own :
      (mine : Bool) (entry : Option Bytes) (held : Bool)
      → held ≡ false
      → OwnedAt mine entry held
      → mine ≡ false
  fresh-own mine none held h e = sym e ∙ h
  fresh-own mine (some bytes) held h e = e.1

  pub accept_one-IsOwned :
      (fd : ℕ) (fcntl : Fcntl) (registers : Changed) (loop : Loop)
      → loop.held fd ≡ false
      → IsOwned own loop
      → IsOwned own (accept_one fd fcntl registers loop)
  unfolding accept_one
  accept_one-IsOwned fd fcntl registers loop h owned =
      let failed : Loop = record loop { held = close fd (hold fd loop.held) } in
      let failed-IsOwned : IsOwned own failed = λ other.
        subst (OwnedAt (own other) (loop.input other)) (sym (reopened fd loop.held h other))
          (owned other) in
      either (IsOwned own) (set_non_blocking fcntl) _ failed
        (λ _.
          either (IsOwned own) (update_event false registers) (connected fd loop) failed
            (λ _.
              update-OwnedAt fd (some []) true loop.input loop.held
                (refl, fresh-own (own fd) (loop.input fd) (loop.held fd) h (owned fd)) owned)
            (λ _. failed-IsOwned))
        (λ _. failed-IsOwned)

  accept_clients-IsOwned :
      (results : List Accepted) (loop : Loop)
      → AreFresh results loop
      → IsOwned own loop
      → IsOwned own (accept_clients results loop)
  unfolding accept_clients
  accept_clients-IsOwned [] loop fresh owned = owned
  accept_clients-IsOwned (connection fd fcntl registers ∷ results) loop fresh owned =
      accept_clients-IsOwned results _ fresh.1
        (accept_one-IsOwned fd fcntl registers loop fresh.0 owned)
  accept_clients-IsOwned (no_more ∷ results) loop fresh owned = owned
  accept_clients-IsOwned (interrupted_accept ∷ results) loop fresh owned =
      accept_clients-IsOwned results loop fresh owned
  accept_clients-IsOwned (failed_accept ∷ results) loop fresh owned = owned

  -- The entry of a client that is there may change.
  entry-OwnedAt :
      (fd : ℕ) (bytes : Bytes) (loop : Loop)
      → OwnedAt (own fd) (some bytes) (loop.held fd)
      → IsOwned own loop
      → (other : ℕ)
      → OwnedAt (own other) (update fd (some bytes) loop.input other) (loop.held other)
  entry-OwnedAt fd bytes loop h owned other =
      at_same
        (λ same.
          OwnedAt (own other) (if same then some bytes else loop.input other) (loop.held other))
        other fd (λ e. subst (λ n. OwnedAt (own n) (some bytes) (loop.held n)) (sym e) h)
        (λ e. owned other)

  keep_client-IsOwned :
      (fd : ℕ) (client : Option Client) (loop : Loop)
      → own fd ≡ false
      → (client ≡ none) ⊎ (loop.held fd ≡ true)
      → IsOwned own loop
      → IsOwned own (keep_client fd client loop)
  keep_client-IsOwned fd none loop free h owned = close_client-IsOwned fd loop free owned
  keep_client-IsOwned fd (some client) loop free (inl e) owned = cc
  keep_client-IsOwned fd (some client) loop free (inr h) owned =
      entry-OwnedAt fd client.input loop (h, free) owned

  pub entry_of_unheld :
      (mine : Bool) (entry : Option Bytes) (held : Bool)
      → held ≡ false
      → OwnedAt mine entry held
      → entry ≡ none
  entry_of_unheld mine none held h e = refl
  entry_of_unheld mine (some bytes) held h e = absurd (true≢false (sym e.0 ∙ h))

  -- A client whose `recv` fails is closed.
  broken-closes :
      (clock : ℕ → Times) (results : List Received) (sends : List Sent) (n : ℕ) (db : Db)
      (client : Client)
      → receive results client.input ≡ broken
      → (on_readable clock results sends n db client).client ≡ none
  unfolding on_readable read_from
  broken-closes clock results sends n db client e =
      ap (λ r. (read_from clock sends n db client r).client) e

  read_client-IsOwned :
      (clock : ℕ → Times) (fd : ℕ) (results : List Received) (sends : List Sent) (loop : Loop)
      → own fd ≡ false
      → (loop.held fd ≡ false → receive results [] ≡ broken)
      → IsOwned own loop
      → IsOwned own (read_client clock fd results sends loop)
  unfolding read_client
  read_client-IsOwned clock fd results sends loop free stale owned =
      keep_client-IsOwned fd _ _ free
        (elim (Bool-cases (loop.held fd)) [
          | inl e ↦ inr e
          | inr e ↦ inl (
              broken-closes clock results sends loop.executed loop.db (client_at fd loop) (
                ap (λ entry. receive results (bytes_at entry))
                  (entry_of_unheld (own fd) (loop.input fd) (loop.held fd) e (owned fd))
                ∙ stale e))
        ])
        owned

  write_client-IsOwned :
      (fd : ℕ) (sends : List Sent) (loop : Loop)
      → own fd ≡ false
      → IsOwned own loop
      → IsOwned own (write_client fd sends loop)
  unfolding write_client
  write_client-IsOwned fd sends loop free owned =
      let attempt = try_send sends (bytes_at (loop.output fd)) in
      either (IsOwned own) attempt.succeeds _ (close_client fd loop)
        (λ _.
          either (IsOwned own) (is_nil attempt.pending) _ (attempted fd attempt loop)
            (λ _.
              either (IsOwned own) (loop.closing fd) (close_client fd (drained fd loop))
                (drained fd loop) (λ _. close_client-IsOwned fd (drained fd loop) free owned)
                (λ _. owned))
            (λ _. owned))
        (λ _. close_client-IsOwned fd loop free owned)

  by_filter-IsOwned :
      (clock : ℕ → Times) (event : Event) (filter : Filter) (loop : Loop)
      → own event.fd ≡ false
      → (loop.held event.fd ≡ false → receive event.received [] ≡ broken)
      → IsOwned own loop
      → IsOwned own (by_filter clock event filter loop)
  by_filter-IsOwned clock event readable_filter loop free stale owned =
      read_client-IsOwned clock event.fd event.received event.sends loop free stale owned
  by_filter-IsOwned clock event writable_filter loop free stale owned =
      write_client-IsOwned event.fd event.sends loop free owned
  by_filter-IsOwned clock event other_filter loop free stale owned = owned

  pub handle_event-IsOwned :
      (clock : ℕ → Times) (listen_fd : ℕ) (event : Event) (loop : Loop)
      → IsLawful own listen_fd event loop
      → IsOwned own loop
      → IsOwned own (handle_event clock listen_fd event loop)
  unfolding handle_event
  handle_event-IsOwned clock listen_fd event loop lawful owned =
      let at_listener = event.fd == listen_fd in
      let accepted = accept_clients event.accepts loop in
      either (IsOwned own) event.error _ _
        (λ _.
          either (IsOwned own) at_listener (record loop { running = false })
            (close_client event.fd loop) (λ _. owned)
            (λ e. close_client-IsOwned event.fd loop (lawful.at_client e) owned))
        (λ _.
          either (IsOwned own) at_listener accepted (by_filter clock event event.filter loop)
            (λ _. accept_clients-IsOwned event.accepts loop lawful.fresh owned)
            (λ e.
              by_filter-IsOwned clock event event.filter loop (lawful.at_client e) lawful.stale
                owned))

  pub handle_events-IsOwned :
      (clock : ℕ → Times) (listen_fd : ℕ) (events : List Event) (loop : Loop)
      → AreLawful own clock listen_fd events loop
      → IsOwned own loop
      → IsOwned own (handle_events clock listen_fd events loop)
  unfolding handle_events
  handle_events-IsOwned clock listen_fd [] loop lawful owned = owned
  handle_events-IsOwned clock listen_fd (event ∷ events) loop lawful owned =
      handle_events-IsOwned clock listen_fd events _ lawful.1
        (handle_event-IsOwned clock listen_fd event loop lawful.0 owned)
