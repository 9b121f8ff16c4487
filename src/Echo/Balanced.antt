-- ===== src/Echo/Balanced.antt =====
-- The ends of the experiments' two programs.
use redis_lite_cpp.Common.{
  ℕ, [], ◌∷◌, false, Option, none, some, ◌≡◌, refl, sym, ap, ◌∙◌, subst, ◌==◌, if◌then◌else◌, take,
  ◌⊎◌, inl, inr,
}
use redis_lite_cpp.Text.{Bytes}
use redis_lite_cpp.Server.Setup.{Held, close, hold}
use redis_lite_cpp.Server.Events.Lawful.{either}
use redis_lite_cpp.Server.Setup.Balanced.{closed_again}
use redis_lite_cpp.Echo.{
  EchoCalls, Echoed, on_sent, on_received, serve_client, listen_on, echo_server, ClientCalls,
  Printed, on_reply, send_message, connect_on, message_of, echo_client,
}

-- The descriptors of `socket` and `accept` were not in use.
pub record AreFresh (calls : EchoCalls) (before : Held) : Type 0 where
  pub fresh_socket : (server_fd : ℕ) → calls.socket ≡ some server_fd → before server_fd ≡ false
  pub fresh_client :
      (server_fd client_fd : ℕ)
      → calls.socket ≡ some server_fd
      → calls.accepts ≡ some client_fd
      → hold server_fd before client_fd ≡ false

-- The code of a success comes with no bytes received, or with as many of them as `send` took, from
-- the first on; a failure has sent nothing.
abbrev pub EchoesIn : EchoCalls → Echoed → Type 0
EchoesIn calls ran =
    ((ran.code ≡ 1) × (ran.taken ≡ []))
    ⊎ ((ran.code ≡ 0)
        × (bytes : Bytes) × (calls.received ≡ some bytes)
        × ((bytes ≡ []) × (ran.taken ≡ [])
            ⊎ ((n : ℕ) × (calls.sent ≡ some n) × (ran.taken ≡ take n bytes))))

abbrev pub IsBalanced : EchoCalls → Held → Echoed → Type 0
IsBalanced calls before ran = ((fd : ℕ) → ran.held fd ≡ before fd) × EchoesIn calls ran

closed_two :
    (a b : ℕ) (before : Held)
    → before a ≡ false
    → hold a before b ≡ false
    → (fd : ℕ) → close a (close b (hold b (hold a before))) fd ≡ before fd
closed_two a b before h k fd =
    ap (λ held. if fd == a then false else held) (closed_again b (hold a before) k fd)
    ∙ closed_again a before h fd

on_received-IsBalanced :
    (calls : EchoCalls) (received : Option Bytes) (sent : Option ℕ) (client_fd server_fd : ℕ)
    (before : Held)
    → before server_fd ≡ false
    → hold server_fd before client_fd ≡ false
    → calls.received ≡ received
    → calls.sent ≡ sent
    → IsBalanced calls before
        (on_received calls received client_fd server_fd (hold client_fd (hold server_fd before)))
on_received-IsBalanced calls none sent c s before h k e f =
    (closed_two s c before h k, inl (refl, refl))
on_received-IsBalanced calls (some []) sent c s before h k e f =
    (closed_two s c before h k, inr (refl, [], e, inl (refl, refl)))
on_received-IsBalanced calls (some (b ∷ bytes)) none c s before h k e f =
    subst (λ sent. IsBalanced calls before (on_sent sent c s (b ∷ bytes) (hold c (hold s before))))
      (sym f) (closed_two s c before h k, inl (refl, refl))
on_received-IsBalanced calls (some (b ∷ bytes)) (some n) c s before h k e f =
    subst (λ sent. IsBalanced calls before (on_sent sent c s (b ∷ bytes) (hold c (hold s before))))
      (sym f) (closed_two s c before h k, inr (refl, b ∷ bytes, e, inr (n, f, refl)))

serve_client-IsBalanced :
    (calls : EchoCalls) (accepts : Option ℕ) (server_fd : ℕ) (before : Held)
    → before server_fd ≡ false
    → ((client_fd : ℕ) → accepts ≡ some client_fd → hold server_fd before client_fd ≡ false)
    → IsBalanced calls before (serve_client calls accepts server_fd (hold server_fd before))
serve_client-IsBalanced calls none s before h k = (closed_again s before h, inl (refl, refl))
serve_client-IsBalanced calls (some c) s before h k =
    on_received-IsBalanced calls calls.received calls.sent c s before h (k c refl) refl refl

listen_on-IsBalanced :
    (calls : EchoCalls) (socket : Option ℕ) (before : Held)
    → ((server_fd : ℕ) → socket ≡ some server_fd → before server_fd ≡ false)
    → ((server_fd client_fd : ℕ)
        → socket ≡ some server_fd
        → calls.accepts ≡ some client_fd
        → hold server_fd before client_fd ≡ false)
    → IsBalanced calls before (listen_on calls socket before)
listen_on-IsBalanced calls none before h k = (λ fd. refl, inl (refl, refl))
listen_on-IsBalanced calls (some s) before h k =
    let Good = IsBalanced calls before in
    let again = closed_again s before (h s refl) in
    either Good calls.reuses _ _
      (λ _.
        either Good calls.binds _ _
          (λ _.
            either Good calls.listens _ _
              (λ _.
                serve_client-IsBalanced calls calls.accepts s before (h s refl)
                  (λ c e. k s c refl e))
              (λ _. (again, inl (refl, refl))))
          (λ _. (again, inl (refl, refl))))
      (λ _. (again, inl (refl, refl)))

-- Whichever call fails, where the kernel opens only descriptors that are not in use: the echo server
-- ends with the descriptors that were held before; where it returns 1 it has sent nothing, and where
-- it returns 0 it received nothing, or `send`, called once, took the first of the bytes received.
pub echo_server-IsBalanced :
    (calls : EchoCalls) (before : Held)
    → AreFresh calls before
    → IsBalanced calls before (echo_server calls before)
unfolding echo_server
echo_server-IsBalanced calls before fresh =
    listen_on-IsBalanced calls calls.socket before fresh.fresh_socket fresh.fresh_client

-- The client's descriptors, and the reply that it prints just if it returns 0.
abbrev pub Prints : ClientCalls → Held → Printed → Type 0
Prints calls before ran =
    ((fd : ℕ) → ran.held fd ≡ before fd)
    × (((ran.code ≡ 1) × (ran.reply ≡ none))
        ⊎ ((ran.code ≡ 0)
            × (reply : Bytes) × (calls.received ≡ some reply)
            × (ran.reply ≡ some reply)))

on_reply-Prints :
    (calls : ClientCalls) (received : Option Bytes) (taken : Bytes) (fd : ℕ) (before : Held)
    → before fd ≡ false
    → calls.received ≡ received
    → Prints calls before (on_reply received taken fd (hold fd before))
on_reply-Prints calls none taken fd before h e = (closed_again fd before h, inl (refl, refl))
on_reply-Prints calls (some reply) taken fd before h e =
    (closed_again fd before h, inr (refl, reply, e, refl))

send_message-Prints :
    (calls : ClientCalls) (message : Bytes) (sent : Option ℕ) (fd : ℕ) (before : Held)
    → before fd ≡ false
    → Prints calls before (send_message calls message sent fd (hold fd before))
send_message-Prints calls message none fd before h = (closed_again fd before h, inl (refl, refl))
send_message-Prints calls message (some n) fd before h =
    on_reply-Prints calls calls.received (take n message) fd before h refl

connect_on-Prints :
    (calls : ClientCalls) (message : Bytes) (socket : Option ℕ) (before : Held)
    → ((fd : ℕ) → socket ≡ some fd → before fd ≡ false)
    → Prints calls before (connect_on calls message socket before)
connect_on-Prints calls message none before h = (λ fd. refl, inl (refl, refl))
connect_on-Prints calls message (some fd) before h =
    either (Prints calls before) calls.connects _ _
      (λ _. send_message-Prints calls message calls.sent fd before (h fd refl))
      (λ _. (closed_again fd before (h fd refl), inl (refl, refl)))

-- Whichever call fails, where `socket` gives a descriptor that is not in use: the client ends with the
-- descriptors that were held before, and prints what `recv` gave just where it returns 0.
pub echo_client-Prints :
    (calls : ClientCalls) (argument : Option Bytes) (before : Held)
    → ((fd : ℕ) → calls.socket ≡ some fd → before fd ≡ false)
    → Prints calls before (echo_client calls argument before)
unfolding echo_client
echo_client-Prints calls argument before h =
    connect_on-Prints calls (message_of argument) calls.socket before h
