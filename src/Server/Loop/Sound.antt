-- ===== src/Server/Loop/Sound.antt =====
-- The invariant of the event loop of src/server.cpp.
use redis_lite_cpp.Common.{
  ℕ, [], List, Bool, true, false, Option, none, some, ◌≡◌, refl, sym, ◌∙◌, subst, inl, inr, ◌⊎◌,
  arith, if◌then◌else◌, ◌==◌, ◌||◌, Bool-cases, length, ◌≤◌,
}
use mathlib.Core.Bool.{true≢false}
use redis_lite_cpp.Text.{Bytes}
use redis_lite_cpp.Store.Valid.{IsValid}
use redis_lite_cpp.Commands.Base.{Db, Times}
use redis_lite_cpp.Server.Receive.{
  max_request_bytes, receive-buffered, Received, Receipt, too_large, broken, buffered, receive,
}
use redis_lite_cpp.Server.Serve.{Served, waiting, out_of_sync, out_of_fuel}
use redis_lite_cpp.Server.Serve.Settled.{Settled, serve-Settled}
use redis_lite_cpp.Server.Send.{Sent, try_send, try_send-Delivers}
use redis_lite_cpp.Server.Readable.{
  Client, AfterRead, keep_open, close_when_sent, close_now, settle, after_attempt, after_read, Turn,
  is_nil, answer, read_from, on_readable, write_to, on_writable,
}
use redis_lite_cpp.Server.Loop.{
  Server, update, new_client, Step, accepted, error_event, readable, writable, Run, here, then_step,
}

-- Bytes that are owed are waited for, since the client's writability is watched, and the buffer
-- keeps the limit.
pub record IsServed (client : Client) : Type 0 where
  pub woken : (client.output ≡ []) ⊎ (client.watched ≡ true)
  pub bounded : length client.input ≤ max_request_bytes

abbrev pub IsServedAt : Option Client → Type 0
IsServedAt none = Unit
IsServedAt (some client) = IsServed client

pub record IsSound (server : Server) : Type 0 where
  pub valid : IsValid server.db.store
  pub served : (fd : ℕ) → IsServedAt (server.clients fd)

if-IsServedAt :
    (b : Bool) (x y : Option Client)
    → (b ≡ true → IsServedAt x)
    → (b ≡ false → IsServedAt y)
    → IsServedAt (if b then x else y)
if-IsServedAt true x y h k = h refl
if-IsServedAt false x y h k = k refl

update-IsServedAt :
    (fd : ℕ) (client : Option Client) (clients : ℕ → Option Client)
    → IsServedAt client
    → ((other : ℕ) → IsServedAt (clients other))
    → (other : ℕ) → IsServedAt (update fd client clients other)
update-IsServedAt fd client clients h hs other =
    if-IsServedAt (other == fd) client (clients other) (λ e. h) (λ e. hs other)

or_true : (a b : Bool) → b ≡ true → (a || b) ≡ true
or_true true b h = refl
or_true false b h = h

-- A client after an attempt that succeeded.
after_attempt-IsServed :
    (client : Client) (sends : List Sent) (owed : Bytes)
    → length client.input ≤ max_request_bytes
    → (try_send sends owed).succeeds ≡ true
    → IsServed (after_attempt client (try_send sends owed))
after_attempt-IsServed client sends owed small h = record {
  woken = elim (try_send-Delivers sends owed).1 [
    | inl fails ↦ absurd (true≢false (sym h ∙ fails))
    | inr (inl empty) ↦ inl empty
    | inr (inr asks) ↦ inr (or_true client.watched _ asks)
  ];
  bounded = small;
}

settle-IsServedAt :
    (after : AfterRead) (client : Client)
    → (after ≡ close_now) ⊎ IsServed client
    → IsServedAt (settle after client)
unfolding settle
settle-IsServedAt keep_open client (inl e) = cc
settle-IsServedAt keep_open client (inr h) = h
settle-IsServedAt close_when_sent client (inl e) = cc
settle-IsServedAt close_when_sent client (inr h) =
    if-IsServedAt (is_nil client.output) none (some (record client { closing = true })) (λ e. tt)
      (λ e. record { woken = h.woken; bounded = h.bounded })
settle-IsServedAt close_now client h = tt

after_read-IsServed :
    (done : Bool) (client : Client) (sends : List Sent) (owed : Bytes)
    → length client.input ≤ max_request_bytes
    → (after_read done (try_send sends owed) ≡ close_now)
      ⊎ IsServed (after_attempt client (try_send sends owed))
after_read-IsServed done client sends owed small =
    elim (Bool-cases (try_send sends owed).succeeds) [
      | inl e ↦ inr (after_attempt-IsServed client sends owed small e)
      | inr e ↦ inl (rw e)
    ]

-- A turn leaves a valid store, and the client closed or served.
abbrev IsSoundTurn : Turn → Type 0
IsSoundTurn turn = IsValid turn.db.store × IsServedAt turn.client

answer-IsSoundTurn :
    (sends : List Sent) (done : Bool) (n : ℕ) (db : Db) (client : Client) (served : Served)
    → Settled max_request_bytes served
    → IsSoundTurn (answer sends done n db client served)
unfolding answer
answer-IsSoundTurn sends done n db client (waiting m db' input output) h = (
  h.0,
  settle-IsServedAt _ _
      (after_read-IsServed done (record client { input = input }) sends output h.2),
)
answer-IsSoundTurn sends done n db client (out_of_sync m db' output) h = (h, tt)
answer-IsSoundTurn sends done n db client out_of_fuel h = absurd h

widen :
    (limit : ℕ) (served : Served)
    → limit ≤ max_request_bytes
    → Settled limit served
    → Settled max_request_bytes served
widen limit (waiting n db buffer output) le h = (h.0, h.1, omega (arith, h.2))
widen limit (out_of_sync n db output) le h = h
widen limit out_of_fuel le h = h

read_from-IsSoundTurn :
    (clock : ℕ → Times) (results : List Received) (sends : List Sent) (n : ℕ) (db : Db)
    (client : Client) (receipt : Receipt)
    → receive results client.input ≡ receipt
    → IsValid db.store
    → length client.input ≤ max_request_bytes
    → IsSoundTurn (read_from clock sends n db client receipt)
unfolding read_from
read_from-IsSoundTurn clock results sends n db client too_large e valid small = (valid, tt)
read_from-IsSoundTurn clock results sends n db client broken e valid small = (valid, tt)
read_from-IsSoundTurn clock results sends n db client (buffered input done) e valid small =
    answer-IsSoundTurn sends done n db client _ (
      widen (length input) _ (receive-buffered results client.input input done small e).1
        (serve-Settled clock n db input client.output valid))

write_to-IsServedAt :
    (client : Client) (sends : List Sent)
    → IsServed client
    → IsServedAt (write_to client (try_send sends client.output))
unfolding write_to
write_to-IsServedAt client sends h =
    let attempt = try_send sends client.output in
    let idle = record client { output = []; watched = false } in
    let drained = if client.closing then none else some idle in
    let waits = some (after_attempt client attempt) in
    if-IsServedAt attempt.succeeds (if is_nil attempt.pending then drained else waits) none
      (λ e.
        if-IsServedAt (is_nil attempt.pending) drained waits
          (λ _.
            if-IsServedAt client.closing none (some idle) (λ _. tt)
              (λ _. record { woken = inl refl; bounded = h.bounded }))
          (λ _. after_attempt-IsServed client sends client.output h.bounded e))
      (λ e. tt)

Step-IsSound :
    {clock : ℕ → Times} {before after : Server}
    → Step clock before after
    → IsSound before
    → IsSound after
unfolding on_readable on_writable
Step-IsSound {before = s} (accepted fd free) sound = record {
  valid = sound.valid;
  served =
      update-IsServedAt fd (some new_client) s.clients
        (record { woken = inl refl; bounded = omega arith }) sound.served;
}
Step-IsSound {before = s} (error_event fd) sound = record {
  valid = sound.valid;
  served = update-IsServedAt fd none s.clients tt sound.served;
}
Step-IsSound {clock} {before = s} (readable fd client results sends at) sound =
    let client_served = subst IsServedAt at (sound.served fd) in
    let turn =
      read_from-IsSoundTurn clock results sends s.executed s.db client _ refl sound.valid
        client_served.bounded in
    record { valid = turn.0; served = update-IsServedAt fd _ s.clients turn.1 sound.served }
Step-IsSound {before = s} (writable fd client sends at) sound = record {
  valid = sound.valid;
  served =
      update-IsServedAt fd _ s.clients
        (write_to-IsServedAt client sends (subst IsServedAt at (sound.served fd))) sound.served;
}

-- Whatever the events, the results of `recv` and `send` and the clock readings: a run of the loop
-- from a sound state keeps the store valid, keeps every client's buffer within 16 MiB, and never
-- leaves a client with bytes owed to it whose writability is not watched.
pub Run-IsSound :
    {clock : ℕ → Times} {before after : Server}
    → Run clock before after
    → IsSound before
    → IsSound after
Run-IsSound here sound = sound
Run-IsSound (then_step run step) sound = Step-IsSound step (Run-IsSound run sound)
