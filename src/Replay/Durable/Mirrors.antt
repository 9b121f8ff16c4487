-- ===== src/Replay/Durable/Mirrors.antt =====
-- A log of src/persistence.cpp whose records give a twin of the store.
use redis_lite_cpp.Common.{
  ℕ, suc, ◌+◌, ◌-◌, ◌*◌, ◌^◌, ◌≤◌, ◌<◌, [], ◌∷◌, ◌++◌, List, Option, none, some, ◌≡◌, refl, sym, ap,
  ◌∙◌, subst, All, arith, pos, true,
}
use redis_lite_cpp.Text.{Bytes}
use redis_lite_cpp.Dict.{has_key}
use redis_lite_cpp.Store.{Store, empty_store, set_deadline}
use redis_lite_cpp.Store.Twins.{Twins, IsAhead, set_deadline-Twins}
use redis_lite_cpp.Log.{Log, record_text, expire_text, log_command, log_expire}
use redis_lite_cpp.Resp.Value.{RespValue}
use redis_lite_cpp.Resp.Wire.{IsWire}
use redis_lite_cpp.Resp.Parse.{max_depth}
use redis_lite_cpp.Commands.Base.{Db, Times, Command, to_upper}
use redis_lite_cpp.Commands.General.{max_seconds, ticks_per_second}
use redis_lite_cpp.Commands.Execute.{words_of, handler, dispatch, execute_words, execute_command}
use redis_lite_cpp.Commands.Execute.Each.{Each, Handles, unhandled, handled, handler-Handles}
use redis_lite_cpp.Replay.Read.{command, expiry}
use redis_lite_cpp.Replay.Read.RoundTrip.{Fits}
use redis_lite_cpp.Replay.Loop.{execute_unlogged, apply_entry}
use redis_lite_cpp.Replay.Records.{
  Record, logged, dated, text_of, entry_of, log_text, IsRecord, apply_records,
}
use redis_lite_cpp.Replay.Records.Logged.{appended}
use redis_lite_cpp.Replay.Records.Deadlines.{sum_eq}
use redis_lite_cpp.Replay.Records.Restart.{WordsFit, words_of-WordsFit, log_text_snoc, All-snoc}
use redis_lite_cpp.Replay.Durable.{Setting, Outcome, quiet, wrote, deadline_set, Follows, instant}
use redis_lite_cpp.Replay.Durable.Reads.{
  ping-Follows, ttl-Follows, get-Follows, llen-Follows, lrange-Follows, hget-Follows,
  hexists-Follows, hlen-Follows, sismember-Follows, scard-Follows, smembers-Follows,
}
use redis_lite_cpp.Replay.Durable.Writes.{push-Follows, pop-Follows, del-Follows, set-Follows}
use redis_lite_cpp.Replay.Durable.Tables.{hset-Follows, hdel-Follows, sadd-Follows, srem-Follows}
use redis_lite_cpp.Replay.Durable.Deadlines.{expire-Follows, expiry_eq}

follows : Each Follows
follows = record {
  on_ping = ping-Follows;
  on_del = del-Follows;
  on_expire = expire-Follows;
  on_ttl = ttl-Follows;
  on_set = set-Follows;
  on_get = get-Follows;
  on_push = push-Follows;
  on_pop = pop-Follows;
  on_llen = llen-Follows;
  on_lrange = lrange-Follows;
  on_hset = hset-Follows;
  on_hget = hget-Follows;
  on_hdel = hdel-Follows;
  on_hexists = hexists-Follows;
  on_hlen = hlen-Follows;
  on_sadd = sadd-Follows;
  on_srem = srem-Follows;
  on_sismember = sismember-Follows;
  on_scard = scard-Follows;
  on_smembers = smembers-Follows;
}

dispatch-Outcome :
    (e : Setting) (word : Bytes) (o : Option Command) (arguments : List Bytes)
    → Handles Follows o
    → All Fits arguments
    → Outcome e (dispatch word o e.times e.db arguments).1
dispatch-Outcome e word none arguments unhandled fits = quiet refl e.twins
dispatch-Outcome e word (some run) arguments (handled h) fits = h e arguments fits

execute_words-Outcome :
    (e : Setting) (o : Option (List Bytes))
    → WordsFit o
    → Outcome e (execute_words e.times e.db o).1
execute_words-Outcome e none fits = quiet refl e.twins
execute_words-Outcome e (some []) fits = quiet refl e.twins
execute_words-Outcome e (some (word ∷ arguments)) fits =
    dispatch-Outcome e word (handler (to_upper word)) arguments
      (handler-Handles follows (to_upper word)) fits.1

pub execute-Outcome :
    (e : Setting) (request : RespValue)
    → IsWire max_depth request
    → Outcome e (execute_command e.times e.db request).1
unfolding execute_command
execute-Outcome e request wire =
    execute_words-Outcome e (words_of request) (words_of-WordsFit max_depth request wire)

-- No deadline has passed at the readings of a command, and a deadline that the command logs lies
-- ahead of the restart at Unix time `u`, by no more than the clock can hold at its reading `t`.
pub record IsInTime (times : Times) (t u : ℕ) (before after : Db) : Type 0 where
  pub early : times.unix ≤ 2 ^ 62
  pub now_ahead : IsAhead times.now before.store
  pub later_ahead : IsAhead times.later before.store
  pub deadlines :
      (key : Bytes) (deadline : ℕ)
      → IsRecord (dated key deadline)
      → after.log ≡ appended before.log (expire_text key (pos deadline))
      → (u < deadline) × (deadline - u ≤ max_seconds t)

-- The same for each command of a run.
abbrev pub AllInTime : (ℕ → Times) → ℕ → ℕ → ℕ → Db → List RespValue → Type 0
AllInTime clock t u n db [] = Unit
AllInTime clock t u n db (request ∷ requests) =
    IsInTime (clock n) t u db (execute_command (clock n) db request).1
    × AllInTime clock t u (suc n) (execute_command (clock n) db request).1 requests

abbrev pub copy_of : ℕ → ℕ → List Record → Store
copy_of t u records = apply_records (λ n. instant t u) 0 empty_store records

-- The log is the texts of records that give a twin of the store.
abbrev pub Mirrors : ℕ → ℕ → Db → Type 0
Mirrors t u db =
    (records : List Record) × All IsRecord records
    × (db.log ≡ some (log_text records))
    × Twins t db.store (copy_of t u records)

apply_records_snoc :
    (t u n : ℕ) (s : Store) (records : List Record) (r : Record)
    → apply_records (λ n. instant t u) n s (records ++ r ∷ [])
      ≡ apply_entry (instant t u) (apply_records (λ n. instant t u) n s records) (entry_of r)
apply_records_snoc t u n s [] r = refl
apply_records_snoc t u n s (r' ∷ records) r = apply_records_snoc t u (suc n) _ records r

mirror_record :
    (t u : ℕ) (before after : Db) (r : Record) (records : List Record)
    → All IsRecord records
    → before.log ≡ some (log_text records)
    → IsRecord r
    → after.log ≡ appended before.log (text_of r)
    → Twins t after.store (apply_entry (instant t u) (copy_of t u records) (entry_of r))
    → Mirrors t u after
mirror_record t u before after r records whole same is_record grown twins = (
  records ++ r ∷ [],
  All-snoc records r whole is_record,
  grown ∙ ap (λ log. appended log (text_of r)) same ∙ ap some (sym (log_text_snoc records r)),
  subst (Twins t after.store) (sym (apply_records_snoc t u 0 empty_store records r)) twins,
)

log_command-appended :
    (log : Log) (verb : Bytes) (arguments : List Bytes)
    → log_command log verb arguments ≡ appended log (record_text verb arguments)
unfolding log_command
log_command-appended none verb arguments = refl
log_command-appended (some written) verb arguments = refl

log_expire-appended :
    (log : Log) (key : Bytes) (unix seconds : ℕ)
    → log_expire log key unix (pos seconds) ≡ appended log (expire_text key (pos (unix + seconds)))
unfolding log_expire
log_expire-appended none key unix seconds = refl
log_expire-appended (some written) key unix seconds =
    ap (λ z. some (written ++ expire_text key z)) (sum_eq unix seconds)

apply_command :
    (times : Times) (s : Store) (words : List Bytes)
    → apply_entry times s (command words) ≡ execute_unlogged times s words
unfolding apply_entry
apply_command times s words = refl

deadline-Twins :
    (e : Setting) (key : Bytes) (before deadline : ℕ) (store : Store)
    → has_key key e.db.store.values ≡ true
    → store ≡ set_deadline key before e.db.store
    → e.u < deadline
    → deadline - e.u ≤ max_seconds e.t
    → Twins e.t store (apply_entry (instant e.t e.u) e.copy (expiry key (pos deadline)))
deadline-Twins e key before deadline store held same later fits =
    let after = e.t + (deadline - e.u) * ticks_per_second in
    subst (λ s. Twins e.t s (apply_entry (instant e.t e.u) e.copy (expiry key (pos deadline))))
      (sym same)
      (subst (Twins e.t (set_deadline key before e.db.store))
        (sym (
          expiry_eq e.t e.u key e.copy deadline e.twins.ahead
            (ap (has_key key) e.twins.values ∙ held) later fits))
        (set_deadline-Twins key e.twins before after (omega arith)))

pub Outcome-Mirrors :
    (e : Setting) (x : Db) (records : List Record)
    → All IsRecord records
    → e.db.log ≡ some (log_text records)
    → e.copy ≡ copy_of e.t e.u records
    → IsInTime e.times e.t e.u e.db x
    → Outcome e x
    → Mirrors e.t e.u x
Outcome-Mirrors e x records whole same copied intime (quiet kept twins) =
    (records, whole, kept ∙ same, subst (Twins e.t x.store) copied twins)
Outcome-Mirrors e x records whole same copied intime
      (wrote verb key arguments is_record written twins) =
    mirror_record e.t e.u e.db x (logged verb key arguments) records whole same is_record
      (written ∙ log_command-appended e.db.log verb (key ∷ arguments))
      (subst (Twins e.t x.store)
        (ap (λ s. execute_unlogged (instant e.t e.u) s (verb ∷ key ∷ arguments)) copied
          ∙ sym (apply_command (instant e.t e.u) _ (verb ∷ key ∷ arguments)))
        twins)
Outcome-Mirrors e x records whole same copied intime
      (deadline_set key seconds before is_record written held set) =
    let deadline = e.times.unix + seconds in
    let grown = written ∙ log_expire-appended e.db.log key e.times.unix seconds in
    let (later, fits) = intime.deadlines key deadline is_record grown in
    mirror_record e.t e.u e.db x (dated key deadline) records whole same is_record grown (
      subst (λ s. Twins e.t x.store (apply_entry (instant e.t e.u) s (expiry key (pos deadline))))
        copied (deadline-Twins e key before deadline x.store held set later fits))
