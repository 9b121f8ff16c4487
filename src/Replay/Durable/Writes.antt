-- ===== src/Replay/Durable/Writes.antt =====
-- The commands of src/commands.cpp that write, on a store and its copy.
use redis_lite_cpp.Common.{
  ℕ, [], ◌∷◌, true, ◌||◌, Option, none, some, ◌≡◌, refl, sym, ap, ◌∙◌, subst, inl, inr,
  if◌then◌else◌,
}
use redis_lite_cpp.Text.{Bytes, codes, bytes_eq, one_of_two}
use redis_lite_cpp.Dict.{find, is_some}
use redis_lite_cpp.Store.{
  Value, string_value, list_value, hash_value, set_value, Store, Kind, list_kind, typed, emplaced,
  read_typed, write_typed, Found, remove_key, replace_value,
}
use mathlib.Core.Bool.{true≢false}
use redis_lite_cpp.Store.Valid.{IsValid}
use redis_lite_cpp.Store.Twins.{
  Twins, IsAhead, expire_if_due-IsAhead, store_value-Twins, remove_key-Twins, dropped-Twins,
  replace_value-Twins, remove_key-missing,
}
use redis_lite_cpp.Log.{log_command}
use redis_lite_cpp.Resp.Value.{RespValue, make_integer}
use redis_lite_cpp.Commands.Base.{Db, to_upper, flag}
use redis_lite_cpp.Commands.General.{del}
use redis_lite_cpp.Commands.Strings.{set}
use redis_lite_cpp.Commands.Lists.{push, push_into, pop, pop_from}
use redis_lite_cpp.Commands.Execute.{execute_command}
use redis_lite_cpp.Replay.Read.{arguments_for}
use redis_lite_cpp.Replay.Records.Writes.{push_arguments, pop_arguments}
use redis_lite_cpp.Replay.Durable.{
  Setting, quiet, wrote, instant, execute_unlogged-Names, Follows, Names, IsStill, Changes,
  at-Outcome,
}

module _ {A : Type 0} (kind : Kind A) (now : ℕ) (key : Bytes) (s : Store) (o : Option Value)
    (ahead : IsAhead now s) (at : find key s.values ≡ o) where
  pub write_typed-IsAhead : write_typed kind now key s ≡ emplaced kind key s o
  unfolding write_typed
  write_typed-IsAhead =
      ap (λ l. emplaced kind key l (find key l.values)) (expire_if_due-IsAhead now key s ahead)
      ∙ ap (emplaced kind key s) at

  pub read_typed-IsAhead : read_typed kind now key s ≡ (s, typed kind o)
  unfolding read_typed
  read_typed-IsAhead =
      ap {B = Store × Found A} (λ l. (l, typed kind (find key l.values)))
        (expire_if_due-IsAhead now key s ahead)
      ∙ ap {B = Store × Found A} (λ v. (s, typed kind v)) at

lpush-Names : Names (codes "LPUSH") (push (codes "LPUSH"))
unfolding execute_command to_upper bytes_eq
lpush-Names = refl

rpush-Names : Names (codes "RPUSH") (push (codes "RPUSH"))
unfolding execute_command to_upper bytes_eq
rpush-Names = refl

module _ (name : Bytes)
    (test : (bytes_eq name (codes "LPUSH") || bytes_eq name (codes "RPUSH")) ≡ true) where
  abbrev push_at : Bytes → Bytes → Db → Option Value → RespValue × Db
  push_at key item db o =
      let (store, list) = emplaced list_kind key db.store o in push_into name db key item store list

  push-IsStill : (key item : Bytes) → IsStill (push name) key (item ∷ []) (push_at key item)
  unfolding push
  push-IsStill key item times db o ahead at =
      ap (λ w. push_into name db key item w.0 w.1)
        (write_typed-IsAhead list_kind times.now key db.store o ahead at)

  push-Changes :
      (key item : Bytes) (e : Setting) (o : Option Value)
      → find key e.db.store.values ≡ o
      → Changes (push name) key (item ∷ []) (push_at key item) e name o
  unfolding push_into
  push-Changes key item e none at =
      inr (refl, store_value-Twins key _ (store_value-Twins key _ e.twins))
  push-Changes key item e (some (string_value v)) at = inl (refl, e.twins)
  push-Changes key item e (some (list_value xs)) at = inr (refl, store_value-Twins key _ e.twins)
  push-Changes key item e (some (hash_value h)) at = inl (refl, e.twins)
  push-Changes key item e (some (set_value m)) at = inl (refl, e.twins)

  push-Names : Names name (push name)
  push-Names =
      one_of_two (λ v. Names v (push v)) name (codes "LPUSH") (codes "RPUSH") test lpush-Names
        rpush-Names

  pub push-Follows : Follows (push name)
  unfolding push
  push-Follows e [] fits = quiet refl e.twins
  push-Follows e (a ∷ []) fits = quiet refl e.twins
  push-Follows e (key ∷ item ∷ []) fits =
      at-Outcome (push name) key (item ∷ []) (push_at key item) e name _ (push-IsStill key item)
        push-Names (push_arguments name test, fits) refl (push-Changes key item e _ refl)
  push-Follows e (a ∷ b ∷ c ∷ l) fits = quiet refl e.twins

lpop-Names : Names (codes "LPOP") (pop (codes "LPOP"))
unfolding execute_command to_upper bytes_eq
lpop-Names = refl

rpop-Names : Names (codes "RPOP") (pop (codes "RPOP"))
unfolding execute_command to_upper bytes_eq
rpop-Names = refl

module _ (name : Bytes)
    (test : (bytes_eq name (codes "LPOP") || bytes_eq name (codes "RPOP")) ≡ true) where
  abbrev pop_at : Bytes → Db → Option Value → RespValue × Db
  pop_at key db o = pop_from name db key db.store (typed list_kind o)

  pop-IsStill : (key : Bytes) → IsStill (pop name) key [] (pop_at key)
  unfolding pop
  pop-IsStill key times db o ahead at =
      ap (λ r. pop_from name db key r.0 r.1)
        (read_typed-IsAhead list_kind times.now key db.store o ahead at)

  pop-Changes :
      (key : Bytes) (e : Setting) (o : Option Value)
      → Changes (pop name) key [] (pop_at key) e name o
  unfolding pop_from
  pop-Changes key e none = inl (refl, e.twins)
  pop-Changes key e (some (string_value v)) = inl (refl, e.twins)
  pop-Changes key e (some (list_value [])) = inl (refl, e.twins)
  pop-Changes key e (some (list_value (x ∷ xs))) = inr (refl, dropped-Twins key e.twins _)
  pop-Changes key e (some (hash_value h)) = inl (refl, e.twins)
  pop-Changes key e (some (set_value m)) = inl (refl, e.twins)

  pop-Names : Names name (pop name)
  pop-Names =
      one_of_two (λ v. Names v (pop v)) name (codes "LPOP") (codes "RPOP") test lpop-Names
        rpop-Names

  pub pop-Follows : Follows (pop name)
  unfolding pop
  pop-Follows e [] fits = quiet refl e.twins
  pop-Follows e (key ∷ []) fits =
      at-Outcome (pop name) key [] (pop_at key) e name _ (pop-IsStill key) pop-Names
        (pop_arguments name test, fits) refl (pop-Changes key e _)
  pop-Follows e (a ∷ b ∷ l) fits = quiet refl e.twins

del-Names : Names (codes "DEL") del
unfolding execute_command to_upper bytes_eq
del-Names = refl

pub del_arguments : arguments_for (codes "DEL") ≡ some 1
unfolding arguments_for bytes_eq
del_arguments = refl

abbrev del_at : Bytes → Db → Option Value → RespValue × Db
del_at key db o = (
  make_integer (flag (is_some o)),
  record {
    store = remove_key key db.store;
    log = if is_some o then log_command db.log (codes "DEL") (key ∷ []) else db.log;
  },
)

del-IsStill : (key : Bytes) → IsStill del key [] (del_at key)
unfolding del
del-IsStill key times db o ahead at =
    ap (λ l. del_at key (record db { store = l }) (find key l.values))
      (expire_if_due-IsAhead times.now key db.store ahead)
    ∙ ap (del_at key db) at

no_deadline :
    (key : Bytes) (s : Store) → IsValid s → find key s.values ≡ none → find key s.expirations ≡ none
no_deadline key s valid h = go (find key s.expirations) refl
  where
    go : (o : Option ℕ) → find key s.expirations ≡ o → find key s.expirations ≡ none
    go none e = e
    go (some d) e = absurd (true≢false (sym (valid.held key d e) ∙ ap is_some h))

del-Changes :
    (key : Bytes) (e : Setting) (o : Option Value)
    → find key e.db.store.values ≡ o
    → Changes del key [] (del_at key) e (codes "DEL") o
del-Changes key e none at =
    inl (refl, remove_key-missing key e.twins at (no_deadline key e.db.store e.valid at))
del-Changes key e (some v) at = inr (refl, remove_key-Twins key e.twins)

pub del-Follows : Follows del
unfolding del
del-Follows e [] fits = quiet refl e.twins
del-Follows e (key ∷ []) fits =
    at-Outcome del key [] (del_at key) e (codes "DEL") _ (del-IsStill key) del-Names
      (del_arguments, fits) refl (del-Changes key e _ refl)
del-Follows e (a ∷ b ∷ l) fits = quiet refl e.twins

set-Names : Names (codes "SET") set
unfolding execute_command to_upper bytes_eq
set-Names = refl

set_arguments : arguments_for (codes "SET") ≡ some 2
unfolding arguments_for bytes_eq
set_arguments = refl

pub set-Follows : Follows set
unfolding set
set-Follows e [] fits = quiet refl e.twins
set-Follows e (a ∷ []) fits = quiet refl e.twins
set-Follows e (key ∷ value ∷ []) fits =
    wrote (codes "SET") key (value ∷ []) (set_arguments, fits) refl
      (subst (Twins e.t (replace_value key value e.db.store))
        (sym (
          execute_unlogged-Names (instant e.t e.u) e.copy (codes "SET") (key ∷ value ∷ [])
            set-Names))
        (replace_value-Twins key e.twins value))
set-Follows e (a ∷ b ∷ c ∷ l) fits = quiet refl e.twins
