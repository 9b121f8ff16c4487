-- ===== src/Server/Events/Refined.antt =====
-- One client's event in src/server.cpp, on the tables and in the step relation.
use redis_lite_cpp.Common.{
  ℕ, [], ◌∷◌, List, true, false, Option, none, some, ◌≡◌, refl, sym, ap, ◌∙◌, subst, if◌then◌else◌,
}
use redis_lite_cpp.Text.{Bytes}
use redis_lite_cpp.Commands.Base.{Db, Times}
use redis_lite_cpp.Server.Receive.{Received, receive, broken}
use redis_lite_cpp.Server.Send.{Sent, Attempt, try_send}
use redis_lite_cpp.Server.Readable.{
  Client, Turn, is_nil, read_from, on_readable, write_to, on_writable,
}
use redis_lite_cpp.Server.Loop.{
  Server, update, new_client, Run, then_step, accepted, error_event, readable, writable,
}
use redis_lite_cpp.Server.Setup.{close, hold, Fcntl, set_non_blocking, Changed, update_event}
use redis_lite_cpp.Server.Events.{
  Loop, bytes_at, close_client, connected, accept_one, client_at, keep_client, read_client, drained,
  attempted, after_write, write_client,
}
use redis_lite_cpp.Server.Events.Lawful.{at_same, either}
use redis_lite_cpp.Server.Events.Tables.{
  as_client, clients_of, server_of, TidyAt, IsTidy, Updates, close_client-Updates,
  keep_client-Updates, connected-Updates, after_write-Updates,
}

-- Every run that leads to the first state leads on to the second.
abbrev pub Leads : (ℕ → Times) → Server → Server → Type 0
Leads clock s s' = (start : Server) → Run clock start s → Run clock start s'

-- The second state is tidy, and runs of the step relation lead to it from the first.
abbrev pub Refined : (ℕ → Times) → Loop → Loop → Type 0
Refined clock loop loop' = IsTidy loop' × Leads clock (server_of loop) (server_of loop')

as_server :
    (loop : Loop) (n : ℕ) (db : Db) (clients : ℕ → Option Client)
    → loop.executed ≡ n
    → loop.db ≡ db
    → ((fd : ℕ) → clients_of loop fd ≡ clients fd)
    → record { executed = n; db = db; clients = clients } ≡ server_of loop
as_server loop n db clients e d h =
    λ i. record { executed = sym e i; db = sym d i; clients = λ fd. sym (h fd) i }

same-Refined :
    (clock : ℕ → Times) (loop loop' : Loop)
    → IsTidy loop'
    → loop'.executed ≡ loop.executed
    → loop'.db ≡ loop.db
    → ((fd : ℕ) → clients_of loop' fd ≡ clients_of loop fd)
    → Refined clock loop loop'
same-Refined clock loop loop' tidy e d h = (
  tidy,
  λ start run.
      subst (Run clock start) (as_server loop' loop.executed loop.db (clients_of loop) e d h) run,
)

update-Refined :
    (clock : ℕ → Times) (fd : ℕ) (client : Option Client) (loop loop' : Loop) (n : ℕ) (db : Db)
    → Updates fd client loop loop'
    → loop'.executed ≡ n
    → loop'.db ≡ db
    → Leads clock
        (server_of loop)
        (record { executed = n; db = db; clients = update fd client (clients_of loop) })
    → Refined clock loop loop'
update-Refined clock fd client loop loop' n db (tidy, h) e d leads =
    (tidy, λ start run. subst (Run clock start) (as_server loop' n db _ e d h) (leads start run))

pub close_client-Refined :
    (clock : ℕ → Times) (fd : ℕ) (loop : Loop)
    → IsTidy loop
    → Refined clock loop (close_client fd loop)
unfolding close_client
close_client-Refined clock fd loop tidy =
    update-Refined clock fd none loop (close_client fd loop) loop.executed loop.db
      (close_client-Updates fd loop tidy) refl refl (λ start run. then_step run (error_event fd))

pub Refined-trans :
    (clock : ℕ → Times) (a b c : Loop) → Refined clock a b → Refined clock b c → Refined clock a c
Refined-trans clock a b c (tidy, h) (tidy', h') = (tidy', λ start run. h' start (h start run))

kept_counts :
    (fd : ℕ) (client : Option Client) (loop : Loop)
    → ((keep_client fd client loop).executed ≡ loop.executed)
      × ((keep_client fd client loop).db ≡ loop.db)
unfolding close_client
kept_counts fd none loop = (refl, refl)
kept_counts fd (some client) loop = (refl, refl)

broken_turn :
    (clock : ℕ → Times) (results : List Received) (sends : List Sent) (n : ℕ) (db : Db)
    (client : Client)
    → receive results client.input ≡ broken
    → on_readable clock results sends n db client
      ≡ record { executed = n; db = db; taken = []; client = none }
unfolding on_readable read_from
broken_turn clock results sends n db client e = ap (read_from clock sends n db client) e

pub read_client-Refined :
    (clock : ℕ → Times) (fd : ℕ) (results : List Received) (sends : List Sent) (loop : Loop)
    (entry : Option Bytes)
    → loop.input fd ≡ entry
    → (loop.input fd ≡ none → receive results [] ≡ broken)
    → IsTidy loop
    → Refined clock loop (read_client clock fd results sends loop)
unfolding read_client
read_client-Refined clock fd results sends loop (some bytes) there stale tidy =
    let client : Client = client_at fd loop in
    let turn = on_readable clock results sends loop.executed loop.db client in
    let served : Loop = record loop { executed = turn.executed; db = turn.db } in
    update-Refined clock fd turn.client loop (keep_client fd turn.client served) turn.executed
      turn.db (keep_client-Updates fd turn.client served tidy) (kept_counts fd turn.client served).0
      (kept_counts fd turn.client served).1
      (λ start run. then_step run (
        readable fd client results sends (
          ap (λ entry. as_client entry (loop.output fd) (loop.closing fd) (loop.watched fd)) there
          ∙ ap (λ entry. some (record client { input = bytes_at entry })) (sym there))))
read_client-Refined clock fd results sends loop none there stale tidy =
    subst
      (λ (turn : Turn).
        Refined clock loop
          (keep_client fd turn.client (record loop { executed = turn.executed; db = turn.db })))
      (sym (
        broken_turn clock results sends loop.executed loop.db (client_at fd loop)
          (ap (λ entry. receive results (bytes_at entry)) there ∙ stale there)))
      (close_client-Refined clock fd loop tidy)

empty_send :
    (sends : List Sent)
    → (try_send sends [] ≡ record { succeeds = true; pending = []; taken = []; asks = false })
unfolding try_send
empty_send [] = refl
empty_send (result ∷ results) = refl

written_counts :
    (fd : ℕ) (attempt : Attempt) (loop : Loop)
    → ((after_write fd attempt loop).executed ≡ loop.executed)
      × ((after_write fd attempt loop).db ≡ loop.db)
unfolding close_client
written_counts fd attempt loop =
    let Same : Loop → Type 0 = λ loop'. (loop'.executed ≡ loop.executed) × (loop'.db ≡ loop.db) in
    either Same attempt.succeeds _ (close_client fd loop)
      (λ _.
        either Same (is_nil attempt.pending) _ (attempted fd attempt loop)
          (λ _.
            either Same (loop.closing fd) (close_client fd (drained fd loop)) (drained fd loop)
              (λ _. (refl, refl)) (λ _. (refl, refl)))
          (λ _. (refl, refl)))
      (λ _. (refl, refl))

-- A stale event: the descriptor is no client's any more.
drained-Refined :
    (clock : ℕ → Times) (fd : ℕ) (loop : Loop)
    → loop.input fd ≡ none
    → loop.closing fd ≡ false
    → IsTidy loop
    → Refined clock loop (drained fd loop)
drained-Refined clock fd loop there unclosed tidy =
    same-Refined clock loop (drained fd loop)
      (λ other.
        at_same
          (λ same.
            TidyAt (loop.input other) (if same then some [] else loop.output other)
              (loop.closing other) (if same then false else loop.watched other))
          other fd
          (λ e.
            subst (λ entry. TidyAt entry (some []) (loop.closing other) false)
              (sym (ap loop.input e ∙ there)) (refl, ap loop.closing e ∙ unclosed, refl))
          (λ e. tidy other))
      refl refl
      (λ other.
        at_same
          (λ same.
            as_client (loop.input other) (if same then some [] else loop.output other)
              (loop.closing other) (if same then false else loop.watched other)
            ≡ clients_of loop other)
          other fd
          (λ e.
            ap (λ entry. as_client entry (some []) (loop.closing other) false)
              (ap loop.input e ∙ there)
            ∙ ap
                (λ entry.
                  as_client entry (loop.output other) (loop.closing other) (loop.watched other))
                (sym (ap loop.input e ∙ there)))
          (λ e. refl))

pub write_client-Refined :
    (clock : ℕ → Times) (fd : ℕ) (sends : List Sent) (loop : Loop) (entry : Option Bytes)
    → loop.input fd ≡ entry
    → IsTidy loop
    → Refined clock loop (write_client fd sends loop)
unfolding write_client on_writable
write_client-Refined clock fd sends loop (some bytes) there tidy =
    let attempt = try_send sends (bytes_at (loop.output fd)) in
    let client : Client = record {
      input = bytes;
      output = bytes_at (loop.output fd);
      closing = loop.closing fd;
      watched = loop.watched fd;
    } in
    update-Refined clock fd (write_to client attempt) loop (after_write fd attempt loop)
      loop.executed loop.db (after_write-Updates fd bytes attempt loop there tidy)
      (written_counts fd attempt loop).0 (written_counts fd attempt loop).1
      (λ start run. then_step run (
        writable fd client sends (
          ap (λ entry. as_client entry (loop.output fd) (loop.closing fd) (loop.watched fd))
            there)))
write_client-Refined clock fd sends loop none there tidy =
    let (owed, unclosed, _) =
      subst (λ entry. TidyAt entry (loop.output fd) (loop.closing fd) (loop.watched fd)) there
        (tidy fd) in
    subst (λ attempt. Refined clock loop (after_write fd attempt loop))
      (sym (ap (try_send sends) owed ∙ empty_send sends))
      (subst
        (λ b. Refined clock loop (if b then close_client fd (drained fd loop) else drained fd loop))
        (sym unclosed) (drained-Refined clock fd loop there unclosed tidy))

pub accept_one-Refined :
    (clock : ℕ → Times) (fd : ℕ) (fcntl : Fcntl) (registers : Changed) (loop : Loop)
    → loop.input fd ≡ none
    → IsTidy loop
    → Refined clock loop (accept_one fd fcntl registers loop)
unfolding accept_one
accept_one-Refined clock fd fcntl registers loop free tidy =
    let failed : Loop = record loop { held = close fd (hold fd loop.held) } in
    let same : Refined clock loop failed = (tidy, λ start run. run) in
    either (Refined clock loop) (set_non_blocking fcntl) _ failed
      (λ _.
        either (Refined clock loop) (update_event false registers) (connected fd loop) failed
          (λ _.
            update-Refined clock fd (some new_client) loop (connected fd loop) loop.executed loop.db
              (connected-Updates fd loop free tidy) refl refl
              (λ start run. then_step run (
                accepted fd (
                  ap (λ entry. as_client entry (loop.output fd) (loop.closing fd) (loop.watched fd))
                    free))))
          (λ _. same))
      (λ _. same)
