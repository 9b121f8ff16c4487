-- ===== src/Replay/Records/Deadlines.antt =====
-- EXPIRE of src/commands.cpp, and what it appends to the log.
use redis_lite_cpp.Common.{
  ℕ, ◌+◌, ◌^◌, ◌≤◌, [], ◌∷◌, ◌++◌, true, false, Option, none, some, ◌≡◌, refl, sym, ap, ◌∙◌, arith,
  inl, inr, ℤ, pos, negsuc, ◌+ℤ◌, ltb_ℤ, long_long_max,
}
use mathlib.Core.Bool.{true≢false}
use redis_lite_cpp.Text.{Bytes, codes, bytes_eq}
use redis_lite_cpp.Decimal.{to_integer}
use redis_lite_cpp.Dict.{has_key}
use redis_lite_cpp.Store.{Store}
use redis_lite_cpp.Log.{Log, log_expire, expire_text}
use redis_lite_cpp.Commands.Base.{Db, Times}
use redis_lite_cpp.Commands.General.{expire, expire_at, expire_key, max_seconds}
use redis_lite_cpp.Replay.Read.{arguments_for}
use redis_lite_cpp.Replay.Read.RoundTrip.{Fits}
use redis_lite_cpp.Replay.Records.{dated}
use redis_lite_cpp.Replay.Records.Logged.{Logs, HasLogs, log_command-Logs}
use redis_lite_cpp.Replay.Records.Writes.{result-Logs}

pub sum_eq : (a b : ℕ) → pos a +ℤ pos b ≡ pos (a + b)
sum_eq a b = ground arith

log_expire-Logs :
    (log : Log) (key : Bytes) (unix seconds : ℕ)
    → Fits key
    → unix + seconds ≤ long_long_max
    → Logs log (log_expire log key unix (pos seconds))
unfolding log_expire
log_expire-Logs none key unix seconds fits h = inl refl
log_expire-Logs (some written) key unix seconds fits h = inr (
  dated key (unix + seconds),
  (fits, h),
  ap (λ z. some (written ++ expire_text key z)) (sum_eq unix seconds),
)

-- The seconds that the steady clock can hold are few enough for the sum to be a `long long`.
pub soon :
    (unix now n : ℕ)
    → unix ≤ 2 ^ 62
    → ltb_ℤ (pos (max_seconds now)) (pos n) ≡ false
    → unix + n ≤ long_long_max
soon unix now n h small = ground arith

pub not_positive : (n : ℕ) → ltb_ℤ (pos 0) (negsuc n) ≡ false
not_positive n = ground arith

positive-Logs :
    (times : Times) (log : Log) (key : Bytes) (seconds : ℤ)
    → times.unix ≤ 2 ^ 62
    → Fits key
    → ltb_ℤ (pos 0) seconds ≡ true
    → ltb_ℤ (pos (max_seconds times.now)) seconds ≡ false
    → Logs log (log_expire log key times.unix seconds)
positive-Logs times log key (negsuc n) h fits e small = absurd (true≢false (sym e ∙ not_positive n))
positive-Logs times log key (pos n) h fits e small =
    log_expire-Logs log key times.unix n fits (soon times.unix times.now n h small)

expire_key-Logs :
    (times : Times) (log : Log) (key : Bytes) (seconds : ℤ) (store : Store)
    → times.unix ≤ 2 ^ 62
    → Fits key
    → ltb_ℤ (pos (max_seconds times.now)) seconds ≡ false
    → Logs log (expire_key times log key seconds store).1.log
unfolding expire_key arguments_for bytes_eq
expire_key-Logs times log key seconds store h fits small =
    result-Logs (has_key key store.values) _ _
      (λ _.
        result-Logs (ltb_ℤ (pos 0) seconds) _ _
          (λ e. positive-Logs times log key seconds h fits e small)
          (λ _. log_command-Logs log (codes "DEL") key [] (refl, (fits, tt))))
      (λ _. inl refl)

expire_at-Logs :
    (times : Times) (db : Db) (key : Bytes) (o : Option ℤ)
    → times.unix ≤ 2 ^ 62
    → Fits key
    → Logs db.log (expire_at times db key o).1.log
unfolding expire_at
expire_at-Logs times db key none h fits = inl refl
expire_at-Logs times db key (some seconds) h fits =
    result-Logs (ltb_ℤ (pos (max_seconds times.now)) seconds) _ _ (λ _. inl refl)
      (λ e. expire_key-Logs times db.log key seconds _ h fits e)

pub expire-HasLogs : HasLogs expire
unfolding expire
expire-HasLogs times db [] h fits = inl refl
expire-HasLogs times db (a ∷ []) h fits = inl refl
expire-HasLogs times db (key ∷ seconds ∷ []) h fits =
    expire_at-Logs times db key (to_integer seconds) h fits.0
expire-HasLogs times db (a ∷ b ∷ c ∷ l) h fits = inl refl
