-- ===== src/Replay/Revived.antt =====
-- A key whose deadline passed while the server was down, in `replay_log` of src/persistence.cpp.
use redis_lite_cpp.Common.{
  ℕ, ◌≤◌, [], ◌∷◌, none, some, ◌≡◌, refl, ap, ◌∙◌, arith, pos, ltb_ℤ, ◌-ℤ◌, if◌then◌else◌, false,
}
use redis_lite_cpp.Text.{Bytes, codes, bytes_eq}
use redis_lite_cpp.Dict.{find}
use redis_lite_cpp.Decimal.{to_string}
use redis_lite_cpp.Store.{
  Value, Store, list_value, expire_if_due, remove_key, store_value, write_typed, emplaced,
  list_kind,
}
use redis_lite_cpp.Store.Valid.{find-store_value}
use redis_lite_cpp.Store.View.{find-remove_key, deadline-remove_key}
use redis_lite_cpp.Commands.Base.{Db, Times, to_upper}
use redis_lite_cpp.Commands.General.{del}
use redis_lite_cpp.Commands.Strings.Meets.{not_due}
use redis_lite_cpp.Commands.Lists.{push}
use redis_lite_cpp.Commands.Execute.{execute_command}
use redis_lite_cpp.Replay.Read.{command, expiry}
use redis_lite_cpp.Replay.Loop.{execute_unlogged, apply_entry}

pub del_unlogged :
    (times : Times) (store : Store) (key : Bytes)
    → execute_unlogged times store (codes "DEL" ∷ key ∷ [])
      ≡ remove_key key (expire_if_due times.now key store)
unfolding execute_unlogged execute_command to_upper bytes_eq del
del_unlogged times store key = refl

write_typed-missing :
    (now : ℕ) (key : Bytes) (live : Store)
    → find key live.expirations ≡ none
    → find key live.values ≡ none
    → write_typed list_kind now key live ≡ (store_value key (list_value []) live, some [])
unfolding write_typed
write_typed-missing now key live h k =
    ap (λ s. emplaced list_kind key s (find key s.values)) (not_due now key live h)
    ∙ ap (emplaced list_kind key live) k

push_unlogged :
    (times : Times) (store : Store) (key item : Bytes)
    → execute_unlogged times store (codes "RPUSH" ∷ key ∷ item ∷ [])
      ≡ (push
          (codes "RPUSH")
          times
          (record { store = store; log = none })
          (key ∷ item ∷ [])).1.store
unfolding execute_unlogged execute_command to_upper bytes_eq
push_unlogged times store key item = refl

push-missing :
    (times : Times) (db : Db) (key item : Bytes)
    → find key db.store.expirations ≡ none
    → find key db.store.values ≡ none
    → (push (codes "RPUSH") times db (key ∷ item ∷ [])).1.store
      ≡ store_value key (list_value (item ∷ [])) (store_value key (list_value []) db.store)
unfolding push bytes_eq
push-missing times db key item h k = rw (write_typed-missing times.now key db.store h k)

not_left : (deadline now : ℕ) → deadline ≤ now → ltb_ℤ (pos 0) (pos deadline -ℤ pos now) ≡ false
not_left deadline now h = ground arith

passed :
    (times : Times) (store : Store) (key : Bytes) (deadline : ℕ)
    → deadline ≤ times.unix
    → apply_entry times store (expiry key (pos deadline))
      ≡ remove_key key (expire_if_due times.now key store)
unfolding apply_entry
passed times store key deadline h =
    ap
      (λ b.
        if b
        then execute_unlogged times store
            (codes "EXPIRE" ∷ key ∷ to_string (pos deadline -ℤ pos times.unix) ∷ [])
        else execute_unlogged times store (codes "DEL" ∷ key ∷ []))
      (not_left deadline times.unix h)
    ∙ del_unlogged times store key

revived_store :
    (times times' : Times) (store : Store) (key item : Bytes) (deadline : ℕ)
    → deadline ≤ times.unix
    → apply_entry times'
        (apply_entry times store (expiry key (pos deadline)))
        (command (codes "RPUSH" ∷ key ∷ item ∷ []))
      ≡ store_value key
          (list_value (item ∷ []))
          (store_value key (list_value []) (remove_key key (expire_if_due times.now key store)))
unfolding apply_entry
revived_store times times' store key item deadline h =
    let removed = remove_key key (expire_if_due times.now key store) in
    ap (λ s. execute_unlogged times' s (codes "RPUSH" ∷ key ∷ item ∷ []))
      (passed times store key deadline h)
    ∙ push_unlogged times' removed key item
    ∙ push-missing times' (record { store = removed; log = none }) key item
        (deadline-remove_key key _) (find-remove_key key _)

deadline-store_value :
    (key : Bytes) (v : Value) (s : Store) → (store_value key v s).expirations ≡ s.expirations
unfolding store_value
deadline-store_value key v s = refl

-- In a replay, a deadline that has passed removes the key, and a push that the log holds behind it,
-- which the server had executed while the key was live, then makes the key again: its list has only
-- the pushed item, and it has no deadline.
pub apply_entry-revives :
    (times times' : Times) (store : Store) (key item : Bytes) (deadline : ℕ)
    → deadline ≤ times.unix
    → (find key
          (apply_entry times'
            (apply_entry times store (expiry key (pos deadline)))
            (command (codes "RPUSH" ∷ key ∷ item ∷ []))).values
        ≡ some (list_value (item ∷ [])))
      × (find key
            (apply_entry times'
              (apply_entry times store (expiry key (pos deadline)))
              (command (codes "RPUSH" ∷ key ∷ item ∷ []))).expirations
          ≡ none)
apply_entry-revives times times' store key item deadline h =
    let removed = remove_key key (expire_if_due times.now key store) in
    let same = revived_store times times' store key item deadline h in
    (
      ap (λ s. find key s.values) same ∙ find-store_value key (list_value (item ∷ [])) _,
      ap (λ s. find key s.expirations) same
          ∙ ap (find key) (
              deadline-store_value key _ (store_value key (list_value []) removed)
              ∙ deadline-store_value key _ removed)
          ∙ deadline-remove_key key _,
    )
