-- ===== src/Server/Start.antt =====
-- The start of `run_server` in src/server.cpp, and what every run from it keeps.
use redis_lite_cpp.Common.{Bool, ℕ, [], Option, none, some, ◌≡◌, subst}
use mathlib.Core.Option.{some_inj}
use redis_lite_cpp.Text.{Bytes}
use redis_lite_cpp.Store.{Store, empty_store}
use redis_lite_cpp.Store.Valid.{IsValid, empty_store-IsValid}
use redis_lite_cpp.Commands.Base.{Times}
use redis_lite_cpp.Replay.Loop.{
  Replayed, loaded, failed, out_of_fuel, kept_store, replay, replay_log, File, absent, unsized,
  holding,
}
use redis_lite_cpp.Replay.Loop.Loads.{Loads, replay-Loads}
use redis_lite_cpp.Log.{open_log}
use redis_lite_cpp.Server.Loop.{Server, Run}
use redis_lite_cpp.Server.Loop.Sound.{IsSound, Run-IsSound}

abbrev content_of : File → Bytes
content_of absent = []
content_of (unsized path) = []
content_of (holding content) = content

abbrev pub with_log : Store → Option Bytes → Option Server
with_log store none = none
with_log store (some content) = some (record {
  executed = 0;
  db = record { store = store; log = some content };
  clients = λ fd. none;
})

-- The server with the store that was loaded, or none where the log is refused or cannot be opened
-- for appending.
abbrev pub started : File → Bool → Store × Option Bytes → Option Server
started file opens (store, some error) = none
started file opens (store, none) = with_log store (open_log opens (content_of file))

unfoldable pub start : (ℕ → Times) → File → Bool → Option Server
start clock file opens = started file opens (replay_log clock file empty_store)

with_log-IsSound :
    (store : Store) (o : Option Bytes) {server : Server}
    → IsValid store
    → with_log store o ≡ some server
    → IsSound server
with_log-IsSound store none valid e = cc
with_log-IsSound store (some content) valid e =
    subst IsSound (some_inj.0 e) (record { valid = valid; served = λ fd. tt })

started-IsSound :
    (file : File) (opens : Bool) (r : Store × Option Bytes) {server : Server}
    → IsValid r.0
    → started file opens r ≡ some server
    → IsSound server
started-IsSound file opens (store, some error) valid e = cc
started-IsSound file opens (store, none) valid e =
    with_log-IsSound store (open_log opens (content_of file)) valid e

replay_log-IsValid :
    (clock : ℕ → Times) (file : File) → IsValid (replay_log clock file empty_store).0
unfolding replay_log
replay_log-IsValid clock absent = empty_store-IsValid
replay_log-IsValid clock (unsized path) = empty_store-IsValid
replay_log-IsValid clock (holding content) = go (replay clock content) (replay-Loads clock content)
  where
    go : (r : Replayed) → Loads r → IsValid (kept_store empty_store r)
    go (loaded s) h = h
    go (failed error) h = empty_store-IsValid
    go out_of_fuel h = absurd h

-- A server that started from any file, at any clock readings, is sound after any run of its event
-- loop, whatever the events and the results of `recv` and `send`: its store is valid, every client's
-- buffer is within 16 MiB, and a client that is owed bytes has its writability watched.
pub start-IsSound :
    (clock clock' : ℕ → Times) (file : File) (opens : Bool) (before after : Server)
    → start clock file opens ≡ some before
    → Run clock' before after
    → IsSound after
unfolding start
start-IsSound clock clock' file opens before after e run =
    Run-IsSound run (started-IsSound file opens _ (replay_log-IsValid clock file) e)
