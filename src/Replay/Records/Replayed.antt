-- ===== src/Replay/Records/Replayed.antt =====
-- `replay_log` of src/persistence.cpp executes the records of a log, each once and in order.
use redis_lite_cpp.Common.{
  ℕ, zero, suc, ◌≤◌, ◌<◌, [], ◌∷◌, ◌++◌, append_assoc, List, some, ◌≡◌, refl, arith, pos, length,
  length-append, All, Bool-cases, subst, inl, inr, sym, ap, ◌∙◌,
}
use redis_lite_cpp.Text.{Bytes, codes, bytes_eq, bytes_eq_iff}
use redis_lite_cpp.Decimal.{to_string}
use redis_lite_cpp.Log.{record_text, expire_text, field_text, arguments_text}
use redis_lite_cpp.Store.{Store, empty_store}
use redis_lite_cpp.Commands.Base.{Times}
use redis_lite_cpp.Replay.Read.{read_word, is_space, shapes, find_shape, arguments_for}
use redis_lite_cpp.Replay.Read.RoundTrip.{
  IsWord, read_word-IsWord, read_entry-command, read_entry-expiry,
}
use redis_lite_cpp.Replay.Loop.{apply_entry, loaded, replay_loop, replay}
use redis_lite_cpp.Replay.Loop.Loads.{replay_loop-got}
use redis_lite_cpp.Replay.Records.{
  Record, logged, dated, text_of, log_text, entry_of, IsRecord, apply_records,
}

-- A word that `>>` reads whole.
abbrev pub IsVerb : Bytes → Type 0
IsVerb [] = ⊥
IsVerb (c ∷ word) = IsWord (c ∷ word)

find_shape-All :
    (P : Bytes → Type 0) (verb : Bytes) (l : List (Bytes × ℕ)) {n : ℕ}
    → All (λ e. P e.0) l
    → find_shape verb l ≡ some n
    → P verb
unfolding find_shape
find_shape-All P verb [] h e = cc
find_shape-All P verb ((name, m) ∷ l) {n} h e = elim (Bool-cases (bytes_eq verb name)) [
  | inl same ↦ subst P (sym ((bytes_eq_iff verb name).0 same)) h.0
  | inr apart ↦ find_shape-All P verb l h.1 (sym (rw apart) ∙ e)
]

shapes-IsVerb : All (λ e. IsVerb e.0) shapes
unfolding is_space
shapes-IsVerb = ground arith

pub arguments_for-IsVerb : (verb : Bytes) {n : ℕ} → arguments_for verb ≡ some n → IsVerb verb
unfolding arguments_for
arguments_for-IsVerb verb h = find_shape-All IsVerb verb shapes shapes-IsVerb h

pub record_text-append :
    (verb : Bytes) (arguments : List Bytes) (rest : Bytes)
    → record_text verb arguments ++ rest ≡ verb ++ (arguments_text arguments ++ (10 ∷ rest))
unfolding record_text
record_text-append verb arguments rest = rw (append_assoc, append_assoc)

replay_loop-logged :
    (clock : ℕ → Times) (fuel n : ℕ) (store : Store) (verb key : Bytes) (arguments : List Bytes)
    (rest : Bytes)
    → IsVerb verb
    → IsRecord (logged verb key arguments)
    → replay_loop clock (suc fuel) n store (record_text verb (key ∷ arguments) ++ rest)
      ≡ replay_loop clock fuel
          (suc n)
          (apply_entry (clock (suc n)) store (entry_of (logged verb key arguments)))
          rest
unfolding arguments_text
replay_loop-logged clock fuel n store [] key arguments rest solid h = absurd solid
replay_loop-logged clock fuel n store (c ∷ word) key arguments rest solid h =
    ap (replay_loop clock (suc fuel) n store) (record_text-append (c ∷ word) (key ∷ arguments) rest)
    ∙ replay_loop-got clock fuel n store
        (c ∷ (word ++ (arguments_text (key ∷ arguments) ++ (10 ∷ rest))))
        (read_word-IsWord c word ((field_text key ++ arguments_text arguments) ++ (10 ∷ rest))
          solid)
        (read_entry-command (c ∷ word) key arguments rest h.0 h.1)

-- What stands behind the verb of a deadline and the space.
abbrev pub dated_tail : Bytes → ℕ → Bytes → Bytes
dated_tail key deadline rest = field_text key ++ (b' ' ∷ (to_string (pos deadline) ++ (10 ∷ rest)))

pub expire_text-append :
    (key : Bytes) (deadline : ℕ) (rest : Bytes)
    → expire_text key (pos deadline) ++ rest ≡ codes "EXPIRE" ++ (32 ∷ dated_tail key deadline rest)
unfolding expire_text
expire_text-append key deadline rest =
    ap (λ t. codes "EXPIRE " ++ t)
      (append_assoc (field_text key) (32 ∷ (to_string (pos deadline) ++ (10 ∷ []))) rest
        ∙ ap (λ t. field_text key ++ (32 ∷ t))
            (append_assoc (to_string (pos deadline)) (10 ∷ []) rest))

replay_loop-nil :
    (clock : ℕ → Times) (fuel n : ℕ) (store : Store)
    → replay_loop clock (suc fuel) n store [] ≡ loaded store
unfolding replay_loop read_word
replay_loop-nil clock fuel n store = refl

replay_loop-dated :
    (clock : ℕ → Times) (fuel n : ℕ) (store : Store) (key : Bytes) (deadline : ℕ) (rest : Bytes)
    → IsRecord (dated key deadline)
    → replay_loop clock (suc fuel) n store (expire_text key (pos deadline) ++ rest)
      ≡ replay_loop clock fuel
          (suc n)
          (apply_entry (clock (suc n)) store (entry_of (dated key deadline)))
          rest
unfolding is_space
replay_loop-dated clock fuel n store key deadline rest h =
    ap (replay_loop clock (suc fuel) n store) (expire_text-append key deadline rest)
    ∙ replay_loop-got clock fuel n store (codes "EXPIRE" ++ (32 ∷ dated_tail key deadline rest))
        (read_word-IsWord b'E' (codes "XPIRE") (dated_tail key deadline rest) (ground arith))
        (read_entry-expiry key rest deadline h.0 h.1)

pub text_of-append :
    (clock : ℕ → Times) (fuel n : ℕ) (store : Store) (record' : Record) (rest : Bytes)
    → IsRecord record'
    → replay_loop clock (suc fuel) n store (text_of record' ++ rest)
      ≡ replay_loop clock fuel (suc n) (apply_entry (clock (suc n)) store (entry_of record')) rest
text_of-append clock fuel n store (logged verb key arguments) rest h =
    replay_loop-logged clock fuel n store verb key arguments rest (arguments_for-IsVerb verb h.0) h
text_of-append clock fuel n store (dated key deadline) rest h =
    replay_loop-dated clock fuel n store key deadline rest h

replay_loop-log_text :
    (clock : ℕ → Times) (fuel n : ℕ) (store : Store) (records : List Record)
    → All IsRecord records
    → length records < fuel
    → replay_loop clock fuel n store (log_text records)
      ≡ loaded (apply_records clock n store records)
replay_loop-log_text clock zero n store records h enough = absurd (omega arith)
replay_loop-log_text clock (suc fuel) n store [] h enough = replay_loop-nil clock fuel n store
replay_loop-log_text clock (suc fuel) n store (record' ∷ records) h enough =
    text_of-append clock fuel n store record' (log_text records) h.0
    ∙ replay_loop-log_text clock fuel (suc n) _ records h.1 (omega arith)

text_of-length : (record' : Record) → 0 < length (text_of record')
unfolding record_text expire_text
text_of-length (logged verb key arguments) = omega (
  arith,
  length-append verb (arguments_text (key ∷ arguments) ++ (10 ∷ [])),
  length-append (arguments_text (key ∷ arguments)) (10 ∷ []),
)
text_of-length (dated key deadline) = omega arith

pub log_text-length : (records : List Record) → length records ≤ length (log_text records)
log_text-length [] = omega arith
log_text-length (record' ∷ records) = omega (
  arith,
  length-append (text_of record') (log_text records),
  text_of-length record',
  log_text-length records,
)

-- A log that holds the texts of records with the verbs, the argument counts and the number ranges
-- that the format has, one behind the other, is loaded whole: the store is the empty one to which
-- each record was applied once, in order, at the clock reading of its turn.
pub replay-log_text :
    (clock : ℕ → Times) (records : List Record)
    → All IsRecord records
    → replay clock (log_text records) ≡ loaded (apply_records clock 0 empty_store records)
unfolding replay
replay-log_text clock records h =
    replay_loop-log_text clock (suc (length (log_text records))) 0 empty_store records h
      (omega (arith, log_text-length records))
