-- ===== src/Replay/Loop/Loads.antt =====
-- `replay_log` of src/persistence.cpp ends on every file, and loads a valid store or none.
use redis_lite_cpp.Common.{
  ℕ, zero, suc, ◌<◌, [], ◌∷◌, Option, none, some, ◌≡◌, refl, sym, subst, arith, pos, ltb_ℤ, ◌-ℤ◌,
  length, if◌then◌else◌, Bool, true, false, List,
}
use redis_lite_cpp.Text.{Bytes, codes}
use redis_lite_cpp.Decimal.{to_string}
use redis_lite_cpp.Store.{Store, empty_store}
use redis_lite_cpp.Store.Valid.{IsValid, empty_store-IsValid}
use redis_lite_cpp.Commands.Base.{Times}
use redis_lite_cpp.Commands.Execute.Effects.{execute-IsValid}
use redis_lite_cpp.Replay.Read.{Read, got, bad, Entry, command, expiry, read_word, read_entry}
use redis_lite_cpp.Replay.Read.Shorter.{Shorter, read_entry-Shorter, read_word-length}
use redis_lite_cpp.Replay.Loop.{
  as_request, execute_unlogged, apply_entry, Replayed, loaded, failed, out_of_fuel, record_error,
  replay_loop, replay,
}

execute_unlogged-IsValid :
    (times : Times) (store : Store) (words : List Bytes)
    → IsValid store
    → IsValid (execute_unlogged times store words)
unfolding execute_unlogged
execute_unlogged-IsValid times store words valid =
    execute-IsValid times (record { store = store; log = none }) (as_request words) valid

pub apply_entry-IsValid :
    (times : Times) (store : Store) (entry : Entry)
    → IsValid store
    → IsValid (apply_entry times store entry)
unfolding apply_entry
apply_entry-IsValid times store (command words) valid =
    execute_unlogged-IsValid times store words valid
apply_entry-IsValid times store (expiry key deadline) valid =
    at (ltb_ℤ (pos 0) (deadline -ℤ pos times.unix))
      (execute_unlogged-IsValid times store
        (codes "EXPIRE" ∷ key ∷ to_string (deadline -ℤ pos times.unix) ∷ []) valid)
      (execute_unlogged-IsValid times store (codes "DEL" ∷ key ∷ []) valid)
  where
    at : (b : Bool) {x y : Store} → IsValid x → IsValid y → IsValid (if b then x else y)
    at true h k = h
    at false h k = k

-- A valid store or an error.
abbrev pub Loads : Replayed → Type 0
Loads (loaded store) = IsValid store
Loads (failed error) = Unit
Loads out_of_fuel = ⊥

module _ (clock : ℕ → Times) (fuel n : ℕ) (store : Store) (s : Bytes) where
  replay_loop-end : read_word s ≡ none → replay_loop clock (suc fuel) n store s ≡ loaded store
  unfolding replay_loop
  replay_loop-end h = rw (replay_loop, h)

  pub replay_loop-bad :
      {verb rest detail : Bytes}
      → read_word s ≡ some (verb, rest)
      → read_entry verb rest ≡ bad detail
      → replay_loop clock (suc fuel) n store s ≡ failed (record_error (suc n) detail)
  unfolding replay_loop
  replay_loop-bad h k = rw (replay_loop, h, k)

  pub replay_loop-got :
      {verb rest rest' : Bytes} {entry : Entry}
      → read_word s ≡ some (verb, rest)
      → read_entry verb rest ≡ got entry rest'
      → replay_loop clock (suc fuel) n store s
        ≡ replay_loop clock fuel (suc n) (apply_entry (clock (suc n)) store entry) rest'
  unfolding replay_loop
  replay_loop-got h k = rw (replay_loop, h, k)

replay_loop-Loads :
    (clock : ℕ → Times) (fuel n : ℕ) (store : Store) (s : Bytes)
    → length s < fuel
    → IsValid store
    → Loads (replay_loop clock fuel n store s)
replay_loop-Loads clock zero n store s h valid = absurd (omega arith)
replay_loop-Loads clock (suc fuel) n store s h valid =
    go (λ m store' t shorter valid'. replay_loop-Loads clock fuel m store' t (omega arith) valid')
      (read_word s) refl
  where
    behind :
        ((m : ℕ) (store' : Store) (t : Bytes)
          → length t < length s
          → IsValid store'
          → Loads (replay_loop clock fuel m store' t))
        → (verb rest : Bytes) → read_word s ≡ some (verb, rest)
        → (r : Read Entry) → read_entry verb rest ≡ r
        → Loads (replay_loop clock (suc fuel) n store s)
    behind later verb rest word (got entry rest') e =
        let shorter = subst (Shorter (length rest)) e (read_entry-Shorter verb rest) in
        subst Loads (sym (replay_loop-got clock fuel n store s word e)) (
          later (suc n) _ rest' (omega (arith, shorter, read_word-length s word))
            (apply_entry-IsValid (clock (suc n)) store entry valid))
    behind later verb rest word (bad detail) e =
        subst Loads (sym (replay_loop-bad clock fuel n store s word e)) tt

    go :
        ((m : ℕ) (store' : Store) (t : Bytes)
          → length t < length s
          → IsValid store'
          → Loads (replay_loop clock fuel m store' t))
        → (o : Option (Bytes × Bytes)) → read_word s ≡ o
        → Loads (replay_loop clock (suc fuel) n store s)
    go later none e = subst Loads (sym (replay_loop-end clock fuel n store s e)) valid
    go later (some (verb, rest)) e = behind later verb rest e (read_entry verb rest) refl

-- Whatever the file holds, its replay ends, by an error or with a valid store.
pub replay-Loads : (clock : ℕ → Times) (s : Bytes) → Loads (replay clock s)
unfolding replay
replay-Loads clock s =
    replay_loop-Loads clock (suc (length s)) 0 empty_store s (omega arith) empty_store-IsValid
