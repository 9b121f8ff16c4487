-- ===== src/Tests/Clients.antt =====
-- A client of src/server.cpp that connects and sends a request in two parts, and an argument of
-- src/main.cpp.
use redis_lite_cpp.Common.{
  ℕ, [], ◌∷◌, ◌++◌, List, true, false, none, some, ◌≡◌, refl, arith, length, ◌≤◌, ◌⊎◌, pos,
}
use redis_lite_cpp.Text.{Bytes, codes}
use redis_lite_cpp.Store.{empty_store}
use redis_lite_cpp.Store.Valid.{empty_store-IsValid}
use redis_lite_cpp.Commands.Base.{Db, Times}
use redis_lite_cpp.Server.Receive.{
  Received, bytes, interrupted, would_block, buffered, receive, arriving, max_request_bytes,
  receive-buffered,
}
use redis_lite_cpp.Server.Serve.{serve}
use redis_lite_cpp.Server.Readable.{on_writable}
use redis_lite_cpp.Server.Readable.Drains.{on_writable-drains}
use redis_lite_cpp.Server.Serve.Chunks.{serve_reads, joined, serve-joined}
use redis_lite_cpp.Server.Serve.Settled.{Settled, serve-Settled}
use redis_lite_cpp.Server.Send.{Sent, sent, try_send, try_send-Delivers}
use redis_lite_cpp.Server.Readable.{on_readable}
use redis_lite_cpp.Server.Loop.{Server, here, then_step, accepted, readable, new_client, update}
use redis_lite_cpp.Server.Loop.Sound.{IsSound}
use redis_lite_cpp.Server.Start.{start, start-IsSound}
use redis_lite_cpp.Replay.Loop.{replay_log, absent}
use redis_lite_cpp.Log.{open_log}
use redis_lite_cpp.Decimal.{to_string}
use redis_lite_cpp.Main.{parse_port, parse_port-to_string}

abbrev clock : ℕ → Times
clock n = record { now = n; later = n; unix = 1_700_000_000 }

abbrev fresh : Db
fresh = record { store = empty_store; log = some [] }

abbrev front : Bytes
front = codes "*3\r\n$3\r\nSET\r\n$1\r\nk\r\n$2"

abbrev back : Bytes
back = codes "\r\nv\n\r\n*1\r\n$4\r\nPING\r\n"

-- A request whose bytes come in two reads, the second with another request behind it.
serve-joined_example :
    serve_reads clock (front ∷ back ∷ []) (serve clock 0 fresh [] [])
    ≡ serve clock 0 fresh ([] ++ joined (front ∷ back ∷ [])) []
serve-joined_example = serve-joined clock 0 fresh [] [] (front ∷ back ∷ [])

serve-Settled_example : Settled (length front) (serve clock 0 fresh front [])
serve-Settled_example = serve-Settled clock 0 fresh front [] empty_store-IsValid

abbrev arrivals : List Received
arrivals = bytes front ∷ interrupted ∷ bytes back ∷ would_block ∷ []

received : receive arrivals [] ≡ buffered (front ++ back) false
unfolding receive
received = refl

receive-buffered_example :
    (front ++ back ≡ [] ++ arriving arrivals) × (length (front ++ back) ≤ max_request_bytes)
receive-buffered_example = receive-buffered arrivals [] (front ++ back) false (omega arith) received

-- The kernel takes three bytes, is interrupted, and then has no room.
abbrev sends : List Sent
sends = sent 3 ∷ Sent.interrupted ∷ Sent.would_block ∷ []

try_send-Delivers_example :
    ((try_send sends back).taken ++ (try_send sends back).pending ≡ back)
    × (((try_send sends back).succeeds ≡ false)
        ⊎ (((try_send sends back).pending ≡ []) ⊎ ((try_send sends back).asks ≡ true)))
try_send-Delivers_example = try_send-Delivers sends back

abbrev idle : Server
idle = record { executed = 0; db = fresh; clients = λ fd. none }

idle-start : start clock absent true ≡ some idle
unfolding start replay_log open_log
idle-start = refl

abbrev connected_server : Server
connected_server = record idle { clients = update 7 (some new_client) idle.clients }

abbrev answered : Server
answered =
    let turn = on_readable clock arrivals sends 0 fresh new_client in
    record {
      executed = turn.executed;
      db = turn.db;
      clients = update 7 turn.client connected_server.clients;
    }

start-IsSound_example : IsSound answered
start-IsSound_example =
    start-IsSound clock clock absent true idle answered idle-start
      (then_step (then_step here (accepted 7 refl)) (readable 7 new_client arrivals sends refl))

parse_port-to_string_example : parse_port (to_string (pos 6380)) ≡ some 6380
parse_port-to_string_example = parse_port-to_string 6380 (omega arith) (omega arith)

-- A client that has half-closed, and takes its reply in pieces.
on_writable-drains_example :
    on_writable
      (sent 2 ∷ Sent.interrupted ∷ sent 1 ∷ sent 9 ∷ [])
      (record { input = []; output = codes ":1\n"; closing = true; watched = true })
    ≡ (codes ":1\n", none)
on_writable-drains_example =
    on_writable-drains (sent 2 ∷ Sent.interrupted ∷ sent 1 ∷ sent 9 ∷ [])
      (record { input = []; output = codes ":1\n"; closing = true; watched = true })
      (tt, (tt, (tt, (tt, tt)))) (omega arith)
