-- ===== src/Lib.antt =====
-- A verification library for redis-lite, an in-memory key-value server that speaks RESP, keeps
-- strings, lists, hashes and sets, expires keys, and appends the commands that write to a log.
--
-- The program's parts. A client's bytes go through `parse` (src/resp.cpp) into a `RespValue`, which
-- `execute_command` (src/commands.cpp) runs on the `Store`; its reply goes back through `serialize`.
-- A command that writes appends a record to the log, and `replay_log` (src/persistence.cpp) executes
-- the records on an empty store when the server starts. src/server.cpp receives the bytes of each
-- client, serves the requests in its buffer, and sends what it owes; src/main.cpp reads the port.
--
-- Which file models which part:
--   Common: shared names, Boolean tests, lists measured by native numbers, integers.
--   Text, Decimal: `std::string`, and the language's decimal conversions of `long long`.
--     Decimal/Numerals says which texts are numbers.
--   Resp: src/resp.hpp and src/resp.cpp. Resp/Value is `RespValue` with all its members and the
--     `make_…` functions, Resp/Serialize is `serialize`, Resp/Parse is `read_line` and `parse_value`,
--     and Resp/Entry is `parse` with its `ParseResult`. Resp/Wire says which values RESP can carry.
--   Dict, Store: `std::unordered_map`, `std::unordered_set`, `Value` and `Store` of
--     src/commands.hpp, and the helpers of src/commands.cpp that read and write a key. Store/Valid
--     holds the invariant, and Store/View the value that a client sees.
--   Commands: one definition for each block of `execute_command`. Commands/Spec holds the abstract
--     commands on the value that is live; Commands/Execute the validation and the choice by name, and
--     what holds of every request.
--   Log: `log_command` and `log_expire` of src/persistence.cpp. Replay: `replay_log`, where
--     Replay/Records is the log as a sequence of records, and Replay/Durable compares a store with
--     the one that a replay of its log loads (Store/Twins).
--   Server: src/server.cpp. Server/Receive and Server/Serve are the two loops of `handle_readable`,
--     Server/Send is `try_send`, Server/Readable composes them as `handle_readable` and `run_server`
--     do for one client, Server/Loop is the event loop as a step relation on all clients, and
--     Server/Start is the replay at the start of `run_server`. Server/Setup is its set-up, with the
--     descriptors that it holds; Server/Events is the body of its loop on the three tables, with
--     `accept_clients` and `close_client`; and Server/Rounds is `run_server` from its start to its
--     return. Server/Events/Tables reads the tables as one of clients, for the comparison with the
--     step relation, and Server/Events/Lawful says what the kernel promises of the events. The
--     results of the calls are given, those of `recv` and `send` as lists, in the order of the calls.
--     SIGINT and SIGTERM are a flag of each round of the loop.
--   Main: the arguments of src/main.cpp.
--   Echo: experiments/tcp_echo_server.cpp and experiments/tcp_echo_client.cpp.
--   Tests: concrete inputs.
--
-- How the state corresponds. The parser's cursor is the unread rest of the input, so `pos` is the
-- length of the input less that of the cursor, and `parse` computes `consumed` in this way. A map
-- is an association list, and the order in which an unordered container is walked, which the
-- language leaves open, is the order of the list. The tables of src/server.cpp, which are walked
-- only to close every client, are functions of the descriptor, as is the set of descriptors held,
-- which leaves out those of the log's streams (the `std::ofstream` of `run_server` and the
-- `std::ifstream` of `replay_log`), since the destructors of the streams close them. A
-- clock reading is a number of nanoseconds of the steady clock; a command is given the readings
-- that it takes in order (`Times`: the first, the second, and the Unix seconds that `unix_now`
-- returns). The log is the content of the file, and none stands for the null pointer that
-- `replay_log` passes. `std::toupper` is that of the "C" locale.
--
-- Bounds and fuel. `parse_value` counts its levels down from 128, so it has none left exactly when
-- the code's depth is over `kMaxDepth`. The loop of `replay_log` has one round more of fuel than the
-- file has bytes, and every record takes a byte; the loop over the requests in a buffer has one round
-- more than the buffer has bytes, and every request takes a byte. A `long long` that is parsed is
-- checked against its range, and integers that the code computes are not bounded in the model.
--
-- The rounds of the event loop are those of a list, since the loop is to run until it is stopped: a
-- list with a signal in it is shown to be enough for a return.
--
-- Not modelled: the messages on the console, a change of filters with kqueue that fails for a client
-- that is already served, a write to the log that fails, memory that runs out, and the benchmarks,
-- tests and demos. The overflow of `deadline - unix_now()` on a log with a deadline near the least
-- `long long` is not modelled either.
pub mod Common
pub mod Text
pub mod Decimal
pub mod Resp
pub mod Dict
pub mod Store
pub mod Log
pub mod Commands
pub mod Replay
pub mod Server
pub mod Main
pub mod Echo
pub mod Tests
