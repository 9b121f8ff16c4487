-- ===== src/Store/Twins.antt =====
-- Two stores of src/commands.hpp that differ in the deadlines alone, as a server's store and the one
-- that is loaded from its log do.
use redis_lite_cpp.Common.{
  ℕ, ◌<◌, Bool, true, false, Option, none, some, ◌≡◌, refl, sym, ap, ◌∙◌, arith, if◌then◌else◌, ltb,
  lt→ltb,
}
use redis_lite_cpp.Text.{Bytes}
use redis_lite_cpp.Dict.{find, put, erase, is_some}
use redis_lite_cpp.Dict.Laws.{find-put, find-erase, erase-none, put_self}
use redis_lite_cpp.Store.{
  Value, string_value, Store, expire_if_due, remove_key, store_value, set_deadline, replace_value,
  is_empty, drop_if_empty,
}
use redis_lite_cpp.Store.Valid.{drop_if_empty-store_value}

-- `s'` has the values of `s`, and deadlines at the same keys, all of them later than `t`.
pub record Twins (t : ℕ) (s s' : Store) : Type 0 where
  pub values : s'.values ≡ s.values
  pub dated : (k : Bytes) → is_some (find k s'.expirations) ≡ is_some (find k s.expirations)
  pub ahead : (k : Bytes) (d : ℕ) → find k s'.expirations ≡ some d → t < d

-- Every deadline lies ahead of the reading.
abbrev pub IsAhead : ℕ → Store → Type 0
IsAhead now s = (k : Bytes) (d : ℕ) → find k s.expirations ≡ some d → now < d

pub expire_if_due-IsAhead :
    (now : ℕ) (key : Bytes) (s : Store) → IsAhead now s → expire_if_due now key s ≡ s
unfolding expire_if_due
expire_if_due-IsAhead now key s h = go (find key s.expirations) refl
  where
    go :
        (o : Option ℕ)
        → find key s.expirations ≡ o
        → elim (find key s.expirations) [
          | none ↦ s
          | some d ↦ if ltb now d then s else remove_key key s
        ]
          ≡ s
    go none e = rw e
    go (some d) e = rw (e, lt→ltb now d (h key d e))

pub store_value-Twins :
    {t : ℕ} {s s' : Store} (key : Bytes) (v : Value)
    → Twins t s s'
    → Twins t (store_value key v s) (store_value key v s')
unfolding store_value
store_value-Twins key v h = record {
  values = ap (put key v) h.values;
  dated = h.dated;
  ahead = h.ahead;
}

module _ {t : ℕ} {s s' : Store} (key : Bytes) (h : Twins t s s') where
  pub remove_key-Twins : Twins t (remove_key key s) (remove_key key s')
  unfolding remove_key
  remove_key-Twins = record {
    values = ap (erase key) h.values;
    dated = λ k.
        ground (arith, find-erase key k s.expirations, find-erase key k s'.expirations, h.dated k);
    ahead = λ k d e. h.ahead k d (ground (arith, find-erase key k s'.expirations));
  }

  pub dropped-Twins :
      (v : Value)
      → Twins t (drop_if_empty key (store_value key v s)) (drop_if_empty key (store_value key v s'))
  dropped-Twins v =
      rw (drop_if_empty-store_value key v s, drop_if_empty-store_value key v s') (at (is_empty v))
    where
      at :
          (b : Bool)
          → Twins t
              (if b then remove_key key s else store_value key v s)
              (if b then remove_key key s' else store_value key v s')
      at true = remove_key-Twins
      at false = store_value-Twins key v h

  pub replace_value-Twins :
      (value : Bytes) → Twins t (replace_value key value s) (replace_value key value s')
  unfolding replace_value
  replace_value-Twins value = record {
    values = ap (put key (string_value value)) h.values;
    dated = λ k.
        ground (arith, find-erase key k s.expirations, find-erase key k s'.expirations, h.dated k);
    ahead = λ k d e. h.ahead k d (ground (arith, find-erase key k s'.expirations));
  }

  pub set_deadline-Twins :
      (d d' : ℕ) → t < d' → Twins t (set_deadline key d s) (set_deadline key d' s')
  unfolding set_deadline
  set_deadline-Twins d d' later = record {
    values = h.values;
    dated = λ k.
        ground (arith, find-put key k d s.expirations, find-put key k d' s'.expirations, h.dated k);
    ahead = λ k x e. ground (arith, find-put key k d' s'.expirations, h.ahead k x);
  }

  -- A key with no value has no deadline either, so removing it changes neither.
  pub remove_key-missing :
      find key s.values ≡ none → find key s.expirations ≡ none → Twins t (remove_key key s) s'
  unfolding remove_key
  remove_key-missing e f = record {
    values = h.values ∙ sym (erase-none key s.values e);
    dated = λ k. h.dated k ∙ ap (λ d. is_some (find k d)) (sym (erase-none key s.expirations f));
    ahead = h.ahead;
  }

  pub store_value-same : (v : Value) → find key s.values ≡ some v → Twins t (store_value key v s) s'
  unfolding store_value
  store_value-same v e = record {
    values = h.values ∙ sym (put_self key v s.values e);
    dated = h.dated;
    ahead = h.ahead;
  }
