-- ===== src/Server/Events/Lawful.antt =====
-- What the kernel promises of the events in src/server.cpp, and which descriptors are accounted for.
use redis_lite_cpp.Common.{
  ℕ, [], ◌∷◌, List, Bool, true, false, Option, none, some, ◌≡◌, refl, ◌==◌, arith, if◌then◌else◌,
}
use redis_lite_cpp.Text.{Bytes}
use redis_lite_cpp.Commands.Base.{Times}
use redis_lite_cpp.Server.Receive.{receive, broken}
use redis_lite_cpp.Server.Setup.{Held}
use redis_lite_cpp.Server.Events.{
  Loop, Accepted, connection, no_more, interrupted_accept, failed_accept, accept_one, Event,
  handle_event,
}

-- A descriptor with an entry in `client_input` is held and is not the server's own; any other is held
-- just if it is its own.
abbrev pub OwnedAt : Bool → Option Bytes → Bool → Type 0
OwnedAt own none held = held ≡ own
OwnedAt own (some bytes) held = (held ≡ true) × (own ≡ false)

abbrev pub IsOwned : Held → Loop → Type 0
IsOwned own loop = (fd : ℕ) → OwnedAt (own fd) (loop.input fd) (loop.held fd)

-- `accept` gives a descriptor that is not in use.
abbrev pub AreFresh : List Accepted → Loop → Type 0
AreFresh [] loop = Unit
AreFresh (connection fd fcntl registers ∷ results) loop =
    (loop.held fd ≡ false) × AreFresh results (accept_one fd fcntl registers loop)
AreFresh (no_more ∷ results) loop = Unit
AreFresh (interrupted_accept ∷ results) loop = AreFresh results loop
AreFresh (failed_accept ∷ results) loop = Unit

-- What the kernel promises of an event: it is at the listening socket or at a descriptor that is not
-- the server's own, `accept` gives fresh descriptors, and `recv` fails at a descriptor that is not
-- held, as it does when a client was closed earlier among the same events.
pub record IsLawful (own : Held) (listen_fd : ℕ) (event : Event) (loop : Loop) : Type 0 where
  pub at_client : (event.fd == listen_fd) ≡ false → own event.fd ≡ false
  pub fresh : AreFresh event.accepts loop
  pub stale : loop.held event.fd ≡ false → receive event.received [] ≡ broken

abbrev pub AreLawful : Held → (ℕ → Times) → ℕ → List Event → Loop → Type 0
AreLawful own clock listen_fd [] loop = Unit
AreLawful own clock listen_fd (event ∷ events) loop =
    IsLawful own listen_fd event loop
    × AreLawful own clock listen_fd events (handle_event clock listen_fd event loop)

-- A test of equality of descriptors, with what it means in each case.
pub at_same :
    (P : Bool → Type 0) (other fd : ℕ)
    → (other ≡ fd → P true)
    → ((other == fd) ≡ false → P false)
    → P (other == fd)
at_same P other fd h k = go (other == fd) refl
  where
    go : (b : Bool) → (other == fd) ≡ b → P b
    go true e = h (ground (arith, e))
    go false e = k e

pub either {ℓ} :
    {A : Type ℓ} (P : A → Type 0) (b : Bool) (x y : A)
    → (b ≡ true → P x)
    → (b ≡ false → P y)
    → P (if b then x else y)
either P true x y h k = h refl
either P false x y h k = k refl
