-- ===== src/Replay/Durable/Deadlines.antt =====
-- EXPIRE of src/commands.cpp on a store and its copy, and the replay of its record.
use redis_lite_cpp.Common.{
  ℕ, ◌+◌, ◌-◌, ◌*◌, ◌≤◌, ◌<◌, [], ◌∷◌, Bool, true, false, Option, none, some, ◌≡◌, refl, sym, ap,
  ◌∙◌, subst, if◌then◌else◌, arith, ℤ, pos, negsuc, ltb_ℤ, ◌-ℤ◌,
}
use mathlib.Core.Bool.{true≢false}
use redis_lite_cpp.Text.{Bytes, codes, bytes_eq}
use redis_lite_cpp.Decimal.{to_integer, to_string, to_integer-to_string}
use redis_lite_cpp.Dict.{has_key}
use redis_lite_cpp.Store.{Store, remove_key, set_deadline}
use redis_lite_cpp.Store.Twins.{Twins, IsAhead, expire_if_due-IsAhead, remove_key-Twins}
use redis_lite_cpp.Resp.Value.{RespValue}
use redis_lite_cpp.Commands.Base.{Db, to_upper}
use redis_lite_cpp.Commands.General.{expire, expire_at, expire_key, max_seconds, ticks_per_second}
use redis_lite_cpp.Commands.General.Deadlines.{expire_dated_lem, ltb_ℤ-true, ltb_ℤ-false}
use redis_lite_cpp.Commands.Execute.{execute_command}
use redis_lite_cpp.Replay.Read.{expiry}
use redis_lite_cpp.Replay.Read.RoundTrip.{Fits}
use redis_lite_cpp.Replay.Records.Deadlines.{soon, not_positive}
use redis_lite_cpp.Replay.Loop.{execute_unlogged, apply_entry}
use redis_lite_cpp.Replay.Revived.{del_unlogged}
use redis_lite_cpp.Replay.Durable.Writes.{del_arguments}
use redis_lite_cpp.Replay.Durable.{
  Setting, Outcome, quiet, wrote, deadline_set, Follows, Names, instant, execute_unlogged-Names,
}

if-Outcome :
    (e : Setting) (b : Bool) (x y : RespValue × Db)
    → (b ≡ true → Outcome e x.1)
    → (b ≡ false → Outcome e y.1)
    → Outcome e (if b then x else y).1
if-Outcome e true x y h k = h refl
if-Outcome e false x y h k = k refl

removed :
    (e : Setting) (key : Bytes)
    → Twins e.t
        (remove_key key e.db.store)
        (execute_unlogged (instant e.t e.u) e.copy (codes "DEL" ∷ key ∷ []))
removed e key =
    subst (Twins e.t (remove_key key e.db.store))
      (sym (
        del_unlogged (instant e.t e.u) e.copy key
        ∙ ap (remove_key key) (expire_if_due-IsAhead e.t key e.copy e.twins.ahead)))
      (remove_key-Twins key e.twins)

expire_key-Outcome :
    (e : Setting) (key : Bytes) (seconds : ℤ)
    → Fits key
    → ltb_ℤ (pos (max_seconds e.times.now)) seconds ≡ false
    → Outcome e (expire_key e.times e.db.log key seconds e.db.store).1
unfolding expire_key
expire_key-Outcome e key (negsuc n) fits small =
    if-Outcome e (has_key key e.db.store.values) _ _
      (λ held.
        if-Outcome e (ltb_ℤ (pos 0) (negsuc n)) _ _
          (λ y. absurd (true≢false (sym y ∙ not_positive n)))
          (λ _. wrote (codes "DEL") key [] (del_arguments, (fits, tt)) refl (removed e key)))
      (λ _. quiet refl e.twins)
expire_key-Outcome e key (pos n) fits small =
    if-Outcome e (has_key key e.db.store.values) _ _
      (λ held.
        if-Outcome e (ltb_ℤ (pos 0) (pos n)) _ _
          (λ y.
            deadline_set key n (e.times.now + n * ticks_per_second)
              (fits, soon e.times.unix e.times.now n e.early small) refl held refl)
          (λ _. wrote (codes "DEL") key [] (del_arguments, (fits, tt)) refl (removed e key)))
      (λ _. quiet refl e.twins)

expire_at-Outcome :
    (e : Setting) (key : Bytes) (o : Option ℤ)
    → Fits key
    → Outcome e (expire_at e.times e.db key o).1
unfolding expire_at
expire_at-Outcome e key none fits = quiet refl e.twins
expire_at-Outcome e key (some seconds) fits =
    if-Outcome e (ltb_ℤ (pos (max_seconds e.times.now)) seconds) _ _ (λ _. quiet refl e.twins)
      (λ small.
        subst (λ s. Outcome e (expire_key e.times e.db.log key seconds s).1)
          (sym (expire_if_due-IsAhead e.times.later key e.db.store e.later_ahead))
          (expire_key-Outcome e key seconds fits small))

pub expire-Follows : Follows expire
unfolding expire
expire-Follows e [] fits = quiet refl e.twins
expire-Follows e (a ∷ []) fits = quiet refl e.twins
expire-Follows e (key ∷ seconds ∷ []) fits = expire_at-Outcome e key (to_integer seconds) fits.0
expire-Follows e (a ∷ b ∷ c ∷ l) fits = quiet refl e.twins

expire-Names : Names (codes "EXPIRE") expire
unfolding execute_command to_upper bytes_eq
expire-Names = refl

remaining : (deadline now : ℕ) → now < deadline → pos deadline -ℤ pos now ≡ pos (deadline - now)
remaining deadline now h = ground arith

-- The replay of a deadline that lies ahead, at a key that is there: the deadline is that many seconds
-- from the instant of the replay.
pub expiry_eq :
    (t u : ℕ) (key : Bytes) (copy : Store) (deadline : ℕ)
    → IsAhead t copy
    → has_key key copy.values ≡ true
    → u < deadline
    → deadline - u ≤ max_seconds t
    → apply_entry (instant t u) copy (expiry key (pos deadline))
      ≡ set_deadline key (t + (deadline - u) * ticks_per_second) copy
unfolding apply_entry
expiry_eq t u key copy deadline ahead held later fits =
    let n = deadline - u in
    let db : Db = record { store = copy; log = none } in
    ap
      (λ z.
        if ltb_ℤ (pos 0) z
        then execute_unlogged (instant t u) copy (codes "EXPIRE" ∷ key ∷ to_string z ∷ [])
        else execute_unlogged (instant t u) copy (codes "DEL" ∷ key ∷ []))
      (remaining deadline u later)
    ∙ ap
        (λ b.
          if b
          then execute_unlogged (instant t u) copy (codes "EXPIRE" ∷ key ∷ to_string (pos n) ∷ [])
          else execute_unlogged (instant t u) copy (codes "DEL" ∷ key ∷ []))
        (ltb_ℤ-true 0 n (omega arith))
    ∙ execute_unlogged-Names (instant t u) copy (codes "EXPIRE") (key ∷ to_string (pos n) ∷ [])
        expire-Names
    ∙ (expire_dated_lem (instant t u) db key (to_string (pos n)) (pos n)
        (to_integer-to_string (pos n) (omega arith, omega arith))
        (ltb_ℤ-false (max_seconds t) n fits)
        (ap (λ s. has_key key s.values) (expire_if_due-IsAhead t key copy ahead) ∙ held)
        (ltb_ℤ-true 0 n (omega arith))).1
    ∙ ap (set_deadline key (t + n * ticks_per_second)) (expire_if_due-IsAhead t key copy ahead)
