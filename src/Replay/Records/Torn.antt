-- ===== src/Replay/Records/Torn.antt =====
-- `replay_log` of src/persistence.cpp on a log whose last record was not written whole.
use redis_lite_cpp.Common.{
  ℕ, zero, suc, ◌+◌, ◌<◌, [], ◌∷◌, ◌++◌, append_assoc, append-nil, List, some, false, ◌≡◌, ◌≢◌,
  refl, arith, length, length-append, All, subst, inl, inr, ◌⊎◌, sym, ap, ◌∙◌,
}
use redis_lite_cpp.Text.{Bytes, codes}
use redis_lite_cpp.Log.{record_text, field_text, arguments_text}
use redis_lite_cpp.Store.{Store, empty_store}
use redis_lite_cpp.Commands.Base.{Times}
use redis_lite_cpp.Replay.Read.{
  read_word, take_word, is_space, Read, got, bad, Entry, expect, read_entry,
}
use redis_lite_cpp.Replay.Read.RoundTrip.{IsWord, read_entry-command, read_entry-expiry}
use redis_lite_cpp.Replay.Read.Steady.{Steady, read_entry-Steady}
use redis_lite_cpp.Replay.Loop.{failed, record_error, replay_loop, replay, apply_entry}
use redis_lite_cpp.Replay.Loop.Loads.{replay_loop-bad}
use redis_lite_cpp.Replay.Records.{Record, logged, dated, text_of, log_text, entry_of, IsRecord}
use redis_lite_cpp.Replay.Records.Replayed.{
  IsVerb, arguments_for-IsVerb, record_text-append, expire_text-append, dated_tail, text_of-append,
  log_text-length,
}

-- A verb, and what stands behind it and a space, which is read to its end.
record IsWhole (text : Bytes) : Type 0 where
  first : ℕ
  word : Bytes
  tail : Bytes
  entry : Entry
  is_word : IsWord (first ∷ word)
  same : text ≡ (first ∷ word) ++ (32 ∷ tail)
  reads : read_entry (first ∷ word) (32 ∷ tail) ≡ got entry []

logged-IsWhole :
    (verb key : Bytes) (arguments : List Bytes)
    → IsVerb verb
    → IsRecord (logged verb key arguments)
    → IsWhole (record_text verb (key ∷ arguments))
unfolding arguments_text
logged-IsWhole [] key arguments solid h = absurd solid
logged-IsWhole (c ∷ verb) key arguments solid h = record {
  first = c;
  word = verb;
  tail = (field_text key ++ arguments_text arguments) ++ (10 ∷ []);
  entry = entry_of (logged (c ∷ verb) key arguments);
  is_word = solid;
  same = sym (append-nil _) ∙ record_text-append (c ∷ verb) (key ∷ arguments) [];
  reads = read_entry-command (c ∷ verb) key arguments [] h.0 h.1;
}

text_of-IsWhole : (r : Record) → IsRecord r → IsWhole (text_of r)
unfolding is_space
text_of-IsWhole (logged verb key arguments) h =
    logged-IsWhole verb key arguments (arguments_for-IsVerb verb h.0) h
text_of-IsWhole (dated key deadline) h = record {
  first = b'E';
  word = codes "XPIRE";
  tail = dated_tail key deadline [];
  entry = entry_of (dated key deadline);
  is_word = ground arith;
  same = sym (append-nil _) ∙ expire_text-append key deadline [];
  reads = read_entry-expiry key [] deadline h.0 h.1;
}

same_head : {a b : ℕ} {s t : Bytes} → a ∷ s ≡ b ∷ t → a ≡ b
same_head e = ground arith

same_tail : {a b : ℕ} {s t : Bytes} → a ∷ s ≡ b ∷ t → s ≡ t
same_tail e = ground arith

-- The first word of a part of the text: the part, or the whole verb.
take_word-cut :
    (word s rest tail : Bytes)
    → IsWord word
    → s ++ rest ≡ word ++ (32 ∷ tail)
    → (take_word s ≡ (s, []))
      ⊎ ((behind : Bytes) × (take_word s ≡ (word, 32 ∷ behind)) × (behind ++ rest ≡ tail))
unfolding take_word is_space
take_word-cut word [] rest tail h e = inl refl
take_word-cut [] (c ∷ s) rest tail h e =
    inr (s, subst (λ d. take_word (d ∷ s) ≡ ([], 32 ∷ s)) (sym (same_head e)) refl, same_tail e)
take_word-cut (d ∷ word) (c ∷ s) rest tail h e =
    let solid : is_space c ≡ false = subst (λ b. is_space b ≡ false) (sym (same_head e)) h.0 in
    elim (take_word-cut word s rest tail h.1 (same_tail e)) [
      | inl part ↦ inl (rw (solid, part))
      | inr (behind, whole, left) ↦ inr (behind, rw (solid, whole, same_head e), left)
    ]

read_word-solid :
    (c : ℕ) (s : Bytes) (first : ℕ) (word rest : Bytes)
    → is_space c ≡ false
    → take_word (c ∷ s) ≡ (first ∷ word, rest)
    → read_word (c ∷ s) ≡ some (first ∷ word, rest)
unfolding read_word
read_word-solid c s first word rest solid h = rw (solid, h)

nothing_behind : (s t : Bytes) → s ++ t ≡ [] → t ≡ []
nothing_behind [] t e = e
nothing_behind (c ∷ s) t e = cc

same_rest : {a b : Entry} {s t : Bytes} → got a s ≡ got b t → s ≡ t
same_rest e = ground arith

-- A reader that reads the whole text does not accept a part of it.
part_is_bad :
    (verb part rest : Bytes) (entry : Entry) (r : Read Entry)
    → read_entry verb part ≡ r
    → read_entry verb (part ++ rest) ≡ got entry []
    → rest ≢ []
    → (detail : Bytes) × (read_entry verb part ≡ bad detail)
part_is_bad verb part rest entry (bad detail) e whole more = (detail, e)
part_is_bad verb part rest entry (got a left) e whole more =
    let again =
      subst (λ r. Steady rest r (read_entry verb (part ++ rest))) e
        (read_entry-Steady rest verb part) in
    absurd (more (nothing_behind left rest (same_rest (sym again ∙ whole))))

ends_bad : (verb : Bytes) → (detail : Bytes) × (read_entry verb [] ≡ bad detail)
unfolding read_entry expect
ends_bad verb = (codes "expected a space after " ++ verb, refl)

-- The record that is cut is an error.
cut_record :
    (clock : ℕ → Times) (fuel n : ℕ) (store : Store) (c : ℕ) (s rest text : Bytes)
    → IsWhole text
    → (c ∷ s) ++ rest ≡ text
    → rest ≢ []
    → (detail : Bytes) × (replay_loop clock (suc fuel) n store (c ∷ s)
        ≡ failed (record_error (suc n) detail))
cut_record clock fuel n store c s rest text whole e more =
    let cut = e ∙ whole.same in
    let solid : is_space c ≡ false =
      subst (λ b. is_space b ≡ false) (sym (same_head cut)) whole.is_word.0 in
    elim (take_word-cut (whole.first ∷ whole.word) (c ∷ s) rest whole.tail whole.is_word cut) [
      | inl part ↦
          let (detail, ends) = ends_bad (c ∷ s) in
          (
            detail,
            replay_loop-bad clock fuel n store (c ∷ s) (read_word-solid c s c s [] solid part) ends,
          )
      | inr (behind, verb, left) ↦
          let (detail, ends) =
            part_is_bad (whole.first ∷ whole.word) (32 ∷ behind) rest whole.entry _ refl
              (ap (λ t. read_entry (whole.first ∷ whole.word) (32 ∷ t)) left ∙ whole.reads) more in
          (
            detail,
            replay_loop-bad clock fuel n store (c ∷ s)
                (read_word-solid c s whole.first whole.word (32 ∷ behind) solid verb) ends,
          )
    ]

cut_log :
    (clock : ℕ → Times) (fuel n : ℕ) (store : Store) (records : List Record) (r : Record) (c : ℕ)
    (s rest : Bytes)
    → All IsRecord records
    → IsRecord r
    → (c ∷ s) ++ rest ≡ text_of r
    → rest ≢ []
    → length records < fuel
    → (detail : Bytes) × (replay_loop clock fuel n store (log_text records ++ (c ∷ s))
        ≡ failed (record_error (suc (n + length records)) detail))
cut_log clock zero n store records r c s rest hs h e more enough = absurd (omega arith)
cut_log clock (suc fuel) n store [] r c s rest hs h e more enough =
    let (detail, ends) =
      cut_record clock fuel n store c s rest (text_of r) (text_of-IsWhole r h) e more in
    let here : suc n ≡ suc (n + 0) = omega arith in
    (detail, ends ∙ ap (λ m. failed (record_error m detail)) here)
cut_log clock (suc fuel) n store (first ∷ records) r c s rest hs h e more enough =
    let (detail, ends) =
      cut_log clock fuel (suc n) (apply_entry (clock (suc n)) store (entry_of first)) records r c s
        rest hs.1 h e more (omega arith) in
    let count : suc (suc n + length records) ≡ suc (n + suc (length records)) = omega arith in
    (
      detail,
      ap (replay_loop clock (suc fuel) n store)
            (append_assoc (text_of first) (log_text records) (c ∷ s))
          ∙ text_of-append clock fuel n store first (log_text records ++ (c ∷ s)) hs.0
          ∙ ends
          ∙ ap (λ m. failed (record_error m detail)) count,
    )

-- A log whose last record was not written whole is refused: where one byte or more of a record, but
-- not all of it, stands behind whole records, the replay fails with an error for the number of the
-- record that was cut, wherever the cut is, so that no part of a record is executed.
pub replay-torn :
    (clock : ℕ → Times) (records : List Record) (r : Record) (part rest : Bytes)
    → All IsRecord records
    → IsRecord r
    → part ++ rest ≡ text_of r
    → part ≢ []
    → rest ≢ []
    → (detail : Bytes) × (replay clock (log_text records ++ part)
        ≡ failed (record_error (suc (length records)) detail))
unfolding replay
replay-torn clock records r [] rest hs h e some_part more = absurd (some_part refl)
replay-torn clock records r (c ∷ s) rest hs h e some_part more =
    let (detail, ends) =
      cut_log clock (suc (length (log_text records ++ (c ∷ s)))) 0 empty_store records r c s rest hs
        h e more
        (omega (arith, length-append (log_text records) (c ∷ s), log_text-length records)) in
    let count : suc (0 + length records) ≡ suc (length records) = omega arith in
    (detail, ends ∙ ap (λ m. failed (record_error m detail)) count)
