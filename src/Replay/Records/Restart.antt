-- ===== src/Replay/Records/Restart.antt =====
-- A server can be restarted from the log that it wrote: `execute_command` of src/commands.cpp against
-- `replay_log` of src/persistence.cpp.
use redis_lite_cpp.Common.{
  ℕ, zero, suc, ◌^◌, ◌≤◌, [], ◌∷◌, ◌++◌, append_assoc, append-nil, List, true, false, Option, none,
  some, ◌≡◌, refl, sym, ap, ◌∙◌, inl, inr, All,
}
use redis_lite_cpp.Text.{Bytes}
use redis_lite_cpp.Store.{Store, empty_store}
use redis_lite_cpp.Resp.Value.{
  RespValue, Elements, resp, nil, cons, simple_string, error, integer, bulk_string, array,
  AllElements,
}
use redis_lite_cpp.Resp.Wire.{IsWire}
use redis_lite_cpp.Resp.Parse.{max_depth}
use redis_lite_cpp.Log.{Log}
use redis_lite_cpp.Commands.Base.{Db, Times, Command, to_upper}
use redis_lite_cpp.Commands.Execute.{
  bulk_text, also, texts_of, words_of, handler, dispatch, execute_words, execute_command,
}
use redis_lite_cpp.Commands.Execute.Each.{Each, Handles, unhandled, handled, handler-Handles}
use redis_lite_cpp.Replay.Read.RoundTrip.{Fits}
use redis_lite_cpp.Replay.Loop.{loaded, replay}
use redis_lite_cpp.Replay.Records.{Record, text_of, log_text, IsRecord, apply_records}
use redis_lite_cpp.Replay.Records.Replayed.{replay-log_text}
use redis_lite_cpp.Replay.Records.Logged.{
  Logs, HasLogs, appended, ping-HasLogs, del-HasLogs, set-HasLogs, ttl-HasLogs, get-HasLogs,
  llen-HasLogs, hget-HasLogs, hexists-HasLogs, hlen-HasLogs, sismember-HasLogs, scard-HasLogs,
  smembers-HasLogs, lrange-HasLogs,
}
use redis_lite_cpp.Replay.Records.Writes.{
  push-HasLogs, pop-HasLogs, hset-HasLogs, hdel-HasLogs, sadd-HasLogs, srem-HasLogs,
}
use redis_lite_cpp.Replay.Records.Deadlines.{expire-HasLogs}

logs : Each HasLogs
logs = record {
  on_ping = ping-HasLogs;
  on_del = del-HasLogs;
  on_expire = expire-HasLogs;
  on_ttl = ttl-HasLogs;
  on_set = set-HasLogs;
  on_get = get-HasLogs;
  on_push = push-HasLogs;
  on_pop = pop-HasLogs;
  on_llen = llen-HasLogs;
  on_lrange = lrange-HasLogs;
  on_hset = hset-HasLogs;
  on_hget = hget-HasLogs;
  on_hdel = hdel-HasLogs;
  on_hexists = hexists-HasLogs;
  on_hlen = hlen-HasLogs;
  on_sadd = sadd-HasLogs;
  on_srem = srem-HasLogs;
  on_sismember = sismember-HasLogs;
  on_scard = scard-HasLogs;
  on_smembers = smembers-HasLogs;
}

abbrev pub WordsFit : Option (List Bytes) → Type 0
WordsFit none = Unit
WordsFit (some words) = All Fits words

abbrev TextFits : Option Bytes → Type 0
TextFits none = Unit
TextFits (some text) = Fits text

also-WordsFit :
    (o : Option Bytes) (p : Option (List Bytes)) → TextFits o → WordsFit p → WordsFit (also o p)
also-WordsFit none p h k = tt
also-WordsFit (some text) none h k = tt
also-WordsFit (some text) (some words) h k = (h, k)

bulk_text-TextFits : (levels : ℕ) (v : RespValue) → IsWire levels v → TextFits (bulk_text v)
bulk_text-TextFits zero v h = absurd h
bulk_text-TextFits (suc levels) (resp simple_string s n vs b) h = tt
bulk_text-TextFits (suc levels) (resp error s n vs b) h = tt
bulk_text-TextFits (suc levels) (resp integer s n vs b) h = tt
bulk_text-TextFits (suc levels) (resp bulk_string s n vs true) h = tt
bulk_text-TextFits (suc levels) (resp bulk_string s n vs false) h = h.0
bulk_text-TextFits (suc levels) (resp array s n vs b) h = tt

texts_of-WordsFit :
    (levels : ℕ) (vs : Elements) → AllElements (IsWire levels) vs → WordsFit (texts_of vs)
texts_of-WordsFit levels nil h = tt
texts_of-WordsFit levels (cons v vs) h =
    also-WordsFit (bulk_text v) (texts_of vs) (bulk_text-TextFits levels v h.0)
      (texts_of-WordsFit levels vs h.1)

pub words_of-WordsFit : (levels : ℕ) (v : RespValue) → IsWire levels v → WordsFit (words_of v)
words_of-WordsFit zero v h = absurd h
words_of-WordsFit (suc levels) (resp simple_string s n vs b) h = tt
words_of-WordsFit (suc levels) (resp error s n vs b) h = tt
words_of-WordsFit (suc levels) (resp integer s n vs b) h = tt
words_of-WordsFit (suc levels) (resp bulk_string s n vs b) h = tt
words_of-WordsFit (suc levels) (resp array s n vs true) h = tt
words_of-WordsFit (suc levels) (resp array s n vs false) h = texts_of-WordsFit levels vs h.3

dispatch-Logs :
    (word : Bytes) (o : Option Command) (times : Times) (db : Db) (arguments : List Bytes)
    → Handles HasLogs o
    → times.unix ≤ 2 ^ 62
    → All Fits arguments
    → Logs db.log (dispatch word o times db arguments).1.log
dispatch-Logs word none times db arguments unhandled small fits = inl refl
dispatch-Logs word (some command) times db arguments (handled h) small fits =
    h times db arguments small fits

execute_words-Logs :
    (times : Times) (db : Db) (o : Option (List Bytes))
    → times.unix ≤ 2 ^ 62
    → WordsFit o
    → Logs db.log (execute_words times db o).1.log
execute_words-Logs times db none small fits = inl refl
execute_words-Logs times db (some []) small fits = inl refl
execute_words-Logs times db (some (word ∷ arguments)) small fits =
    dispatch-Logs word (handler (to_upper word)) times db arguments
      (handler-Handles logs (to_upper word)) small fits.1

execute_command-Logs :
    (times : Times) (db : Db) (request : RespValue)
    → times.unix ≤ 2 ^ 62
    → IsWire max_depth request
    → Logs db.log (execute_command times db request).1.log
unfolding execute_command
execute_command-Logs times db request small wire =
    execute_words-Logs times db (words_of request) small (words_of-WordsFit max_depth request wire)

-- The log is the texts of records, one behind the other.
abbrev pub IsLog : Log → Type 0
IsLog log = (records : List Record) × All IsRecord records × (log ≡ some (log_text records))

pub log_text_snoc :
    (records : List Record) (r : Record)
    → log_text (records ++ r ∷ []) ≡ log_text records ++ text_of r
log_text_snoc [] r = append-nil (text_of r)
log_text_snoc (r' ∷ records) r =
    ap (λ t. text_of r' ++ t) (log_text_snoc records r)
    ∙ sym (append_assoc (text_of r') (log_text records) (text_of r))

pub All-snoc :
    (records : List Record) (r : Record)
    → All IsRecord records
    → IsRecord r
    → All IsRecord (records ++ r ∷ [])
All-snoc [] r h k = (k, tt)
All-snoc (r' ∷ records) r h k = (h.0, All-snoc records r h.1 k)

Logs-IsLog : (before after : Log) → IsLog before → Logs before after → IsLog after
Logs-IsLog before after (records, whole, e) (inl same) = (records, whole, same ∙ e)
Logs-IsLog before after (records, whole, e) (inr (r, h, grown)) = (
  records ++ r ∷ [],
  All-snoc records r whole h,
  grown ∙ ap (λ log. appended log (text_of r)) e ∙ ap some (sym (log_text_snoc records r)),
)

-- The requests one after another, the first at the reading `n`.
abbrev pub execute_all : (ℕ → Times) → ℕ → Db → List RespValue → Db
execute_all clock n db [] = db
execute_all clock n db (request ∷ requests) =
    execute_all clock (suc n) (execute_command (clock n) db request).1 requests

execute_all-IsLog :
    (clock : ℕ → Times) (n : ℕ) (db : Db) (requests : List RespValue)
    → ((m : ℕ) → (clock m).unix ≤ 2 ^ 62)
    → All (IsWire max_depth) requests
    → IsLog db.log
    → IsLog (execute_all clock n db requests).log
execute_all-IsLog clock n db [] small wire log = log
execute_all-IsLog clock n db (request ∷ requests) small wire log =
    execute_all-IsLog clock (suc n) _ requests small wire.1
      (Logs-IsLog db.log _ log (execute_command-Logs (clock n) db request (small n) wire.0))

-- A server that starts with an empty log can always be restarted from the log that it wrote: after
-- any requests that RESP can carry, at clock readings of less than 2^62 seconds, the replay of the
-- log loads, whatever the clock reads then, and its store is the outcome of the records in order.
pub execute_all-reloads :
    (clock clock' : ℕ → Times) (store : Store) (requests : List RespValue)
    → ((m : ℕ) → (clock m).unix ≤ 2 ^ 62)
    → All (IsWire max_depth) requests
    → (records : List Record) × ((execute_all clock 0
          (record { store = store; log = some [] })
          requests).log
        ≡ some (log_text records))
      × (replay clock' (log_text records) ≡ loaded (apply_records clock' 0 empty_store records))
execute_all-reloads clock clock' store requests small wire =
    let (records, whole, e) =
      execute_all-IsLog clock 0 (record { store = store; log = some [] }) requests small wire
        ([], tt, refl) in
    (records, e, replay-log_text clock' records whole)
