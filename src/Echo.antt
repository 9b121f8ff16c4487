-- ===== src/Echo.antt =====
-- experiments/tcp_echo_server.cpp and experiments/tcp_echo_client.cpp: one connection, one message
-- and its echo. The results of the calls are given.
pub mod Balanced
use redis_lite_cpp.Common.{
  ℕ, [], ◌∷◌, List, Bool, true, false, Option, none, some, if◌then◌else◌, take,
}
use redis_lite_cpp.Text.{Bytes, codes}
use redis_lite_cpp.Server.Setup.{Held, close, hold}

-- The results of the server's calls, in the order in which it makes them; none is an error.
pub record EchoCalls : Type 0 where
  pub socket : Option ℕ
  pub reuses : Bool
  pub binds : Bool
  pub listens : Bool
  pub accepts : Option ℕ
  pub received : Option Bytes
  pub sent : Option ℕ

-- The exit code, the bytes that `send` took, and the descriptors held at the end.
pub record Echoed : Type 0 where
  pub code : ℕ
  pub taken : Bytes
  pub held : Held

abbrev echo_failed : Held → Echoed
echo_failed held = record { code = 1; taken = []; held = held }

abbrev close_both : ℕ → ℕ → Held → Held
close_both client_fd server_fd held = close server_fd (close client_fd held)

-- `send` is called once: what it does not take is not sent again.
abbrev pub on_sent : Option ℕ → ℕ → ℕ → Bytes → Held → Echoed
on_sent none client_fd server_fd bytes held = echo_failed (close_both client_fd server_fd held)
on_sent (some sent) client_fd server_fd bytes held = record {
  code = 0;
  taken = take sent bytes;
  held = close_both client_fd server_fd held;
}

abbrev pub on_received : EchoCalls → Option Bytes → ℕ → ℕ → Held → Echoed
on_received calls none client_fd server_fd held = echo_failed (close_both client_fd server_fd held)
on_received calls (some []) client_fd server_fd held = record {
  code = 0;
  taken = [];
  held = close_both client_fd server_fd held;
}
on_received calls (some (c ∷ bytes)) client_fd server_fd held =
    on_sent calls.sent client_fd server_fd (c ∷ bytes) held

abbrev pub serve_client : EchoCalls → Option ℕ → ℕ → Held → Echoed
serve_client calls none server_fd held = echo_failed (close server_fd held)
serve_client calls (some client_fd) server_fd held =
    on_received calls calls.received client_fd server_fd (hold client_fd held)

abbrev pub listen_on : EchoCalls → Option ℕ → Held → Echoed
listen_on calls none held = echo_failed held
listen_on calls (some server_fd) before =
    let held = hold server_fd before in
    if calls.reuses
    then if calls.binds
      then if calls.listens
        then serve_client calls calls.accepts server_fd held
        else echo_failed (close server_fd held)
      else echo_failed (close server_fd held)
    else echo_failed (close server_fd held)

unfoldable pub echo_server : EchoCalls → Held → Echoed
echo_server calls held = listen_on calls calls.socket held

-- The results of the client's calls.
pub record ClientCalls : Type 0 where
  pub socket : Option ℕ
  pub connects : Bool
  pub sent : Option ℕ
  pub received : Option Bytes

-- The exit code, the bytes that `send` took, the reply that is printed, and the descriptors held.
pub record Printed : Type 0 where
  pub code : ℕ
  pub taken : Bytes
  pub reply : Option Bytes
  pub held : Held

abbrev pub on_reply : Option Bytes → Bytes → ℕ → Held → Printed
on_reply none taken fd held = record { code = 1; taken = taken; reply = none; held = close fd held }
on_reply (some reply) taken fd held = record {
  code = 0;
  taken = taken;
  reply = some reply;
  held = close fd held;
}

abbrev pub send_message : ClientCalls → Bytes → Option ℕ → ℕ → Held → Printed
send_message calls message none fd held = record {
  code = 1;
  taken = [];
  reply = none;
  held = close fd held;
}
send_message calls message (some sent) fd held = on_reply calls.received (take sent message) fd held

abbrev pub connect_on : ClientCalls → Bytes → Option ℕ → Held → Printed
connect_on calls message none held = record { code = 1; taken = []; reply = none; held = held }
connect_on calls message (some fd) before =
    let held = hold fd before in
    if calls.connects
    then send_message calls message calls.sent fd held
    else record { code = 1; taken = []; reply = none; held = close fd held }

-- The message is the first argument, or "hello".
abbrev pub message_of : Option Bytes → Bytes
message_of none = codes "hello"
message_of (some argument) = argument

unfoldable pub echo_client : ClientCalls → Option Bytes → Held → Printed
echo_client calls argument held = connect_on calls (message_of argument) calls.socket held
