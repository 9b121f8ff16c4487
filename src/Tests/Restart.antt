-- ===== src/Tests/Restart.antt =====
-- A run of src/commands.cpp with a deadline, and a restart half a minute later.
use redis_lite_cpp.Common.{
  ℕ, ◌<◌, ◌≤◌, ◌-◌, [], ◌∷◌, ◌++◌, none, some, ◌≡◌, refl, arith, pos, drop, sym, ◌∙◌, ◌≢◌, ap,
}
use mathlib.Core.Option.{some_inj}
use redis_lite_cpp.Text.{Bytes, codes, bytes_eq}
use redis_lite_cpp.Store.{Store, expire_if_due, replace_value}
use redis_lite_cpp.Store.Twins.{Twins, IsAhead}
use redis_lite_cpp.Log.{expire_text, log_command, log_expire, field_text}
use redis_lite_cpp.Decimal.{to_string, to_integer, digit_text}
use redis_lite_cpp.Resp.Value.{RespValue}
use redis_lite_cpp.Resp.Wire.{IsWire}
use redis_lite_cpp.Resp.Parse.{max_depth}
use redis_lite_cpp.Commands.Base.{Db, Times, to_upper}
use redis_lite_cpp.Commands.Execute.{execute_command}
use redis_lite_cpp.Replay.Loop.{as_request, loaded, replay}
use redis_lite_cpp.Replay.Records.{dated, IsRecord}
use redis_lite_cpp.Replay.Records.Logged.{appended}
use redis_lite_cpp.Commands.General.{max_seconds, expire}
use redis_lite_cpp.Commands.Strings.{set}
use redis_lite_cpp.Dict.{find, erase, put}
use redis_lite_cpp.Replay.Read.RoundTrip.{expire_text-deadline}
use redis_lite_cpp.Replay.Records.Restart.{execute_all}
use redis_lite_cpp.Replay.Durable.{instant}
use redis_lite_cpp.Replay.Durable.Run.{fresh, execute_all-restarts}
use redis_lite_cpp.Replay.Durable.Mirrors.{IsInTime}

abbrev clock : ℕ → Times
clock n = record { now = n; later = n; unix = 1_700_000_000 }

abbrev a_set : RespValue
a_set = as_request (codes "set" ∷ codes "k" ∷ codes "v" ∷ [])

abbrev an_expire : RespValue
an_expire = as_request (codes "EXPIRE" ∷ codes "k" ∷ codes "60" ∷ [])

abbrev after_set : Db
after_set = (execute_command (clock 0) fresh a_set).1

abbrev after_expire : Db
after_expire = (execute_command (clock 1) after_set an_expire).1

set_log : after_set.log ≡ some (codes "SET 1 k 1 v\n")
unfolding execute_command as_request bytes_eq to_upper set log_command to_string digit_text
set_log = refl

expire_log :
    after_expire.log ≡ some (codes "SET 1 k 1 v\n" ++ expire_text (codes "k") (pos 1_700_000_060))
unfolding execute_command as_request bytes_eq to_upper expire to_integer find expire_if_due set
    replace_value erase put log_expire log_command to_string digit_text expire_text field_text
expire_log = refl

first : Bytes → ℕ
first [] = 0
first (b ∷ text) = b

first_differs : (n : ℕ) → n ≡ 69 → n ≡ 83 → ⊥
first_differs n e f = omega arith

no_deadline :
    (key : Bytes) (d : ℕ) → some (codes "SET 1 k 1 v\n") ≢ some ([] ++ expire_text key (pos d))
unfolding expire_text first
no_deadline key d e = (first_differs 83 (ap first (some_inj.0 e)) refl)

set-IsInTime : IsInTime (clock 0) 9 1_700_000_030 fresh after_set
unfolding find
set-IsInTime = record {
  early = omega arith;
  now_ahead = λ k d h. cc;
  later_ahead = λ k d h. cc;
  deadlines = λ k d h e. absurd (no_deadline k d (sym set_log ∙ e));
}

-- What stands behind the record of SET.
the_deadline :
    (key : Bytes) (d : ℕ)
    → IsRecord (dated key d)
    → after_expire.log ≡ appended after_set.log (expire_text key (pos d))
    → 1_700_000_060 ≡ d
the_deadline key d h e =
    expire_text-deadline (codes "k") key 1_700_000_060 d (omega arith) h.0 (omega arith) h.1 (
      ap (drop 12) (
        some_inj.0
          (sym expire_log ∙ e ∙ ap (λ log. appended log (expire_text key (pos d))) set_log)))

in_a_minute :
    {d : ℕ} → 1_700_000_060 ≡ d → (1_700_000_030 < d) × (d - 1_700_000_030 ≤ max_seconds 9)
in_a_minute e = (omega arith, omega arith)

after_set-expirations : after_set.store.expirations ≡ []
unfolding execute_command as_request bytes_eq to_upper set replace_value erase put
after_set-expirations = refl

nothing_found : {a : ℕ} → some a ≡ none → ⊥
nothing_found e = cc

after_set-IsAhead : (t : ℕ) → IsAhead t after_set.store
unfolding find
after_set-IsAhead t k d h = absurd (nothing_found (sym h ∙ ap (find k) after_set-expirations))

expire-IsInTime : IsInTime (clock 1) 9 1_700_000_030 after_set after_expire
expire-IsInTime = record {
  early = omega arith;
  now_ahead = after_set-IsAhead 1;
  later_ahead = after_set-IsAhead 1;
  deadlines = λ k d h e. in_a_minute (the_deadline k d h e);
}

a_set-IsWire : IsWire max_depth a_set
unfolding as_request
a_set-IsWire = (
  refl,
  refl,
  omega arith,
  ((omega arith, refl, refl), ((omega arith, refl, refl), ((omega arith, refl, refl), tt))),
)

an_expire-IsWire : IsWire max_depth an_expire
unfolding as_request
an_expire-IsWire = (
  refl,
  refl,
  omega arith,
  ((omega arith, refl, refl), ((omega arith, refl, refl), ((omega arith, refl, refl), tt))),
)

execute_all-restarts_example :
    (content : Bytes) × (copy : Store) × ((execute_all clock 0 fresh (a_set ∷ an_expire ∷ [])).log
      ≡ some content)
    × (replay (λ n. instant 9 1_700_000_030) content ≡ loaded copy)
    × Twins 9 (execute_all clock 0 fresh (a_set ∷ an_expire ∷ [])).store copy
execute_all-restarts_example =
    execute_all-restarts clock 9 1_700_000_030 (a_set ∷ an_expire ∷ [])
      (a_set-IsWire, (an_expire-IsWire, tt)) (set-IsInTime, (expire-IsInTime, tt))
