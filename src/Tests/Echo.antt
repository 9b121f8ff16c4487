-- ===== src/Tests/Echo.antt =====
-- A run of experiments/tcp_echo_server.cpp in which `send` takes two bytes of five, and a run of
-- experiments/tcp_echo_client.cpp.
use redis_lite_cpp.Common.{ℕ, true, false, none, some, ◌≡◌, refl, subst, ltb}
use mathlib.Core.Option.{some_inj}
use redis_lite_cpp.Text.{codes}
use redis_lite_cpp.Server.Setup.{Held, hold}
use redis_lite_cpp.Echo.{EchoCalls, ClientCalls, echo_server, echo_client}
use redis_lite_cpp.Echo.Balanced.{IsBalanced, Prints, echo_server-IsBalanced, echo_client-Prints}

abbrev before : Held
before fd = ltb fd 3

abbrev calls : EchoCalls
calls = record {
  socket = some 3;
  reuses = true;
  binds = true;
  listens = true;
  accepts = some 4;
  received = some (codes "hello");
  sent = some 2;
}

-- What holds of a descriptor holds of the one that is returned.
carried : (P : ℕ → Type 0) {fd fd' : ℕ} → P fd → some fd ≡ some fd' → P fd'
carried P h e = subst P (some_inj.0 e) h

echo_server-IsBalanced_example : IsBalanced calls before (echo_server calls before)
echo_server-IsBalanced_example = echo_server-IsBalanced calls before (record {
  fresh_socket = λ fd e. carried (λ n. before n ≡ false) refl e;
  fresh_client = λ s c e f.
      carried (λ n. hold n before c ≡ false) (carried (λ n. hold 3 before n ≡ false) refl f) e;
})

abbrev client_calls : ClientCalls
client_calls = record {
  socket = some 3;
  connects = true;
  sent = some 5;
  received = some (codes "he");
}

echo_client-Prints_example : Prints client_calls before (echo_client client_calls none before)
echo_client-Prints_example =
    echo_client-Prints client_calls none before λ fd e. carried (λ n. before n ≡ false) refl e
