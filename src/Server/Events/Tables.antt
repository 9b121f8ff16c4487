-- ===== src/Server/Events/Tables.antt =====
-- The event loop of src/server.cpp on its tables, seen as a table of clients.
use redis_lite_cpp.Common.{
  ℕ, [], Bool, true, false, Option, none, some, ◌≡◌, refl, sym, ap, ◌∙◌, subst, if◌then◌else◌, ◌||◌,
}
use redis_lite_cpp.Text.{Bytes}
use redis_lite_cpp.Server.Send.{Attempt}
use redis_lite_cpp.Server.Readable.{Client, is_nil, write_to}
use redis_lite_cpp.Server.Loop.{Server, update, new_client}
use redis_lite_cpp.Server.Events.{
  Loop, bytes_at, close_client, connected, keep_client, drained, attempted, after_write,
}
use redis_lite_cpp.Server.Events.Lawful.{at_same}

-- The client that the tables' entries make; there is one where `client_input` has an entry.
abbrev pub as_client : Option Bytes → Option Bytes → Bool → Bool → Option Client
as_client none output closing watched = none
as_client (some bytes) output closing watched =
    some (record { input = bytes; output = bytes_at output; closing = closing; watched = watched })

abbrev pub clients_of : Loop → ℕ → Option Client
clients_of loop fd = as_client (loop.input fd) (loop.output fd) (loop.closing fd) (loop.watched fd)

abbrev pub server_of : Loop → Server
server_of loop = record { executed = loop.executed; db = loop.db; clients = clients_of loop }

-- Nothing is left in the other tables for a descriptor that is not a client's.
abbrev pub TidyAt : Option Bytes → Option Bytes → Bool → Bool → Type 0
TidyAt none output closing watched = (bytes_at output ≡ []) × (closing ≡ false) × (watched ≡ false)
TidyAt (some bytes) output closing watched = Unit

abbrev pub IsTidy : Loop → Type 0
IsTidy loop = (fd : ℕ) → TidyAt (loop.input fd) (loop.output fd) (loop.closing fd) (loop.watched fd)

-- The clients are the same but for one.
abbrev pub Updates : ℕ → Option Client → Loop → Loop → Type 0
Updates fd client loop loop' =
    IsTidy loop' × ((other : ℕ) → clients_of loop' other ≡ update fd client (clients_of loop) other)

pub close_client-Updates :
    (fd : ℕ) (loop : Loop) → IsTidy loop → Updates fd none loop (close_client fd loop)
unfolding close_client
close_client-Updates fd loop tidy = (
  λ other.
      at_same
        (λ same.
          TidyAt (if same then none else loop.input other)
            (if same then none else loop.output other) (if same then false else loop.closing other)
            (if same then false else loop.watched other))
        other fd (λ e. (refl, refl, refl)) (λ e. tidy other),
  λ other.
      at_same
        (λ same.
          as_client (if same then none else loop.input other)
            (if same then none else loop.output other) (if same then false else loop.closing other)
            (if same then false else loop.watched other)
          ≡ (if same then none else clients_of loop other))
        other fd (λ e. refl) (λ e. refl),
)

pub keep_client-Updates :
    (fd : ℕ) (client : Option Client) (loop : Loop)
    → IsTidy loop
    → Updates fd client loop (keep_client fd client loop)
keep_client-Updates fd none loop tidy = close_client-Updates fd loop tidy
keep_client-Updates fd (some client) loop tidy = (
  λ other.
      at_same
        (λ same.
          TidyAt (if same then some client.input else loop.input other)
            (if same then some client.output else loop.output other)
            (if same then client.closing else loop.closing other)
            (if same then client.watched else loop.watched other))
        other fd (λ e. tt) (λ e. tidy other),
  λ other.
      at_same
        (λ same.
          as_client (if same then some client.input else loop.input other)
            (if same then some client.output else loop.output other)
            (if same then client.closing else loop.closing other)
            (if same then client.watched else loop.watched other)
          ≡ (if same then some client else clients_of loop other))
        other fd (λ e. refl) (λ e. refl),
)

pub connected-Updates :
    (fd : ℕ) (loop : Loop)
    → loop.input fd ≡ none
    → IsTidy loop
    → Updates fd (some new_client) loop (connected fd loop)
connected-Updates fd loop free tidy =
    let (_, unclosed, unwatched) =
      subst (λ entry. TidyAt entry (loop.output fd) (loop.closing fd) (loop.watched fd)) free
        (tidy fd) in
    (
      λ other.
          at_same
            (λ same.
              TidyAt (if same then some [] else loop.input other)
                (if same then some [] else loop.output other) (loop.closing other)
                (loop.watched other))
            other fd (λ e. tt) (λ e. tidy other),
      λ other.
          at_same
            (λ same.
              as_client (if same then some [] else loop.input other)
                (if same then some [] else loop.output other) (loop.closing other)
                (loop.watched other)
              ≡ (if same then some new_client else clients_of loop other))
            other fd
            (λ e.
              ap (λ closing. as_client (some []) (some []) closing (loop.watched other))
                (ap loop.closing e ∙ unclosed)
              ∙ ap (λ watched. as_client (some []) (some []) false watched)
                  (ap loop.watched e ∙ unwatched))
            (λ e. refl),
    )

Updates-trans :
    (fd : ℕ) (client client' : Option Client) (a b c : Loop)
    → Updates fd client a b
    → Updates fd client' b c
    → Updates fd client' a c
Updates-trans fd client client' a b c (tidy, h) (tidy', h') = (
  tidy',
  λ other.
      h' other
      ∙ at_same
          (λ same.
            (if same then client' else clients_of b other)
            ≡ (if same then client' else clients_of a other))
          other fd (λ e. refl)
          (λ e. h other ∙ ap (λ same. if same then client else clients_of a other) e),
)

-- The table of bytes owed and the watch are set for a client that is there.
sent_on-Updates :
    (fd : ℕ) (bytes pending : Bytes) (watch : Bool) (loop : Loop)
    → loop.input fd ≡ some bytes
    → IsTidy loop
    → Updates fd
        (some
          (record { input = bytes; output = pending; closing = loop.closing fd; watched = watch }))
        loop
        (record loop {
          output = update fd (some pending) loop.output;
          watched = update fd watch loop.watched;
        })
sent_on-Updates fd bytes pending watch loop there tidy = (
  λ other.
      at_same
        (λ same.
          TidyAt (loop.input other) (if same then some pending else loop.output other)
            (loop.closing other) (if same then watch else loop.watched other))
        other fd
        (λ e.
          subst (λ entry. TidyAt entry (some pending) (loop.closing other) watch)
            (sym (ap loop.input e ∙ there)) tt)
        (λ e. tidy other),
  λ other.
      at_same
        (λ same.
          as_client (loop.input other) (if same then some pending else loop.output other)
            (loop.closing other) (if same then watch else loop.watched other)
          ≡ (if same
              then some (record {
                input = bytes;
                output = pending;
                closing = loop.closing fd;
                watched = watch;
              })
              else clients_of loop other))
        other fd
        (λ e.
          ap (λ entry. as_client entry (some pending) (loop.closing other) watch)
            (ap loop.input e ∙ there)
          ∙ ap (λ closing. as_client (some bytes) (some pending) closing watch) (ap loop.closing e))
        (λ e. refl),
)

by_cases : (P : Bool → Type 0) (b : Bool) → P true → P false → P b
by_cases P true h k = h
by_cases P false h k = k

pub after_write-Updates :
    (fd : ℕ) (bytes : Bytes) (attempt : Attempt) (loop : Loop)
    → loop.input fd ≡ some bytes
    → IsTidy loop
    → Updates fd
        (write_to
          (record {
            input = bytes;
            output = bytes_at (loop.output fd);
            closing = loop.closing fd;
            watched = loop.watched fd;
          })
          attempt)
        loop
        (after_write fd attempt loop)
unfolding write_to
after_write-Updates fd bytes attempt loop there tidy =
    let client : Client = record {
      input = bytes;
      output = bytes_at (loop.output fd);
      closing = loop.closing fd;
      watched = loop.watched fd;
    } in
    let idle : Option Client = some (record client { output = []; watched = false }) in
    let waits : Option Client =
      some
        (record client { output = attempt.pending; watched = loop.watched fd || attempt.asks }) in
    let empties = drained fd loop in
    let drain : Updates fd idle loop empties = sent_on-Updates fd bytes [] false loop there tidy in
    by_cases
      (λ b.
        Updates fd
          (if b
            then if is_nil attempt.pending then if loop.closing fd then none else idle else waits
            else none)
          loop
          (if b
            then if is_nil attempt.pending
              then if loop.closing fd then close_client fd empties else empties
              else attempted fd attempt loop
            else close_client fd loop))
      attempt.succeeds
      (by_cases
        (λ b. Updates fd (if b then if loop.closing fd then none else idle else waits) loop (
          if b
          then if loop.closing fd then close_client fd empties else empties
          else attempted fd attempt loop))
        (is_nil attempt.pending)
        (by_cases
          (λ b.
            Updates fd (if b then none else idle) loop
              (if b then close_client fd empties else empties))
          (loop.closing fd)
          (Updates-trans fd idle none loop empties (close_client fd empties) drain
            (close_client-Updates fd empties drain.0))
          drain)
        (sent_on-Updates fd bytes attempt.pending (loop.watched fd || attempt.asks) loop there
          tidy))
      (close_client-Updates fd loop tidy)
