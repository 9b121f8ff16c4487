-- ===== src/Replay/Durable/Tables.antt =====
-- The commands of src/commands.cpp that write hashes and sets, on a store and its copy.
use redis_lite_cpp.Common.{[], ◌∷◌, List, Option, none, some, ◌≡◌, refl, ap, inl, inr, Bool-cases}
use redis_lite_cpp.Text.{Bytes, codes, bytes_eq}
use redis_lite_cpp.Dict.{Dict, find, has_key, member}
use redis_lite_cpp.Dict.Members.{insert-member}
use redis_lite_cpp.Store.{
  Value, string_value, list_value, hash_value, set_value, hash_kind, set_kind, typed, emplaced,
}
use redis_lite_cpp.Store.Twins.{store_value-Twins, dropped-Twins, store_value-same}
use redis_lite_cpp.Resp.Value.{RespValue}
use redis_lite_cpp.Commands.Base.{Db, to_upper}
use redis_lite_cpp.Commands.Hashes.{hset, hset_into, hdel, hdel_from}
use redis_lite_cpp.Commands.Sets.{sadd, sadd_into, srem, srem_from}
use redis_lite_cpp.Commands.Execute.{execute_command}
use redis_lite_cpp.Replay.Records.Writes.{
  hset_arguments, hdel_arguments, sadd_arguments, srem_arguments,
}
use redis_lite_cpp.Replay.Durable.Writes.{write_typed-IsAhead, read_typed-IsAhead}
use redis_lite_cpp.Replay.Durable.{Setting, quiet, Follows, Names, IsStill, Changes, at-Outcome}

hset-Names : Names (codes "HSET") hset
unfolding execute_command to_upper bytes_eq
hset-Names = refl

abbrev hset_at : Bytes → Bytes → Bytes → Db → Option Value → RespValue × Db
hset_at key field value db o =
    let (store, hash) = emplaced hash_kind key db.store o in hset_into db key field value store hash

hset-IsStill :
    (key field value : Bytes) → IsStill hset key (field ∷ value ∷ []) (hset_at key field value)
unfolding hset
hset-IsStill key field value times db o ahead at =
    ap (λ w. hset_into db key field value w.0 w.1)
      (write_typed-IsAhead hash_kind times.now key db.store o ahead at)

hset-Changes :
    (key field value : Bytes) (e : Setting) (o : Option Value)
    → find key e.db.store.values ≡ o
    → Changes hset key (field ∷ value ∷ []) (hset_at key field value) e (codes "HSET") o
unfolding hset_into
hset-Changes key field value e none at =
    inr (refl, store_value-Twins key _ (store_value-Twins key _ e.twins))
hset-Changes key field value e (some (hash_value h)) at =
    inr (refl, store_value-Twins key _ e.twins)
hset-Changes key field value e (some (string_value v)) at = inl (refl, e.twins)
hset-Changes key field value e (some (list_value v)) at = inl (refl, e.twins)
hset-Changes key field value e (some (set_value v)) at = inl (refl, e.twins)

pub hset-Follows : Follows hset
unfolding hset
hset-Follows e [] fits = quiet refl e.twins
hset-Follows e (a ∷ []) fits = quiet refl e.twins
hset-Follows e (a ∷ b ∷ []) fits = quiet refl e.twins
hset-Follows e (key ∷ field ∷ value ∷ []) fits =
    at-Outcome hset key (field ∷ value ∷ []) (hset_at key field value) e (codes "HSET") _
      (hset-IsStill key field value) hset-Names (hset_arguments, fits) refl
      (hset-Changes key field value e _ refl)
hset-Follows e (a ∷ b ∷ c ∷ d ∷ l) fits = quiet refl e.twins

hdel-Names : Names (codes "HDEL") hdel
unfolding execute_command to_upper bytes_eq
hdel-Names = refl

abbrev hdel_at : Bytes → Bytes → Db → Option Value → RespValue × Db
hdel_at key field db o = hdel_from db key field db.store (typed hash_kind o)

hdel-IsStill : (key field : Bytes) → IsStill hdel key (field ∷ []) (hdel_at key field)
unfolding hdel
hdel-IsStill key field times db o ahead at =
    ap (λ r. hdel_from db key field r.0 r.1)
      (read_typed-IsAhead hash_kind times.now key db.store o ahead at)

hdel_found :
    (key field : Bytes) (e : Setting) (h : Dict Bytes)
    → Changes hdel key (field ∷ []) (hdel_at key field) e (codes "HDEL") (some (hash_value h))
unfolding hdel_from
hdel_found key field e h = elim (Bool-cases (has_key field h)) [
  | inl y ↦ rw (hdel_from, y) (inr (refl, dropped-Twins key e.twins _))
  | inr y ↦ rw (hdel_from, y) (inl (refl, e.twins))
]

hdel-Changes :
    (key field : Bytes) (e : Setting) (o : Option Value)
    → find key e.db.store.values ≡ o
    → Changes hdel key (field ∷ []) (hdel_at key field) e (codes "HDEL") o
unfolding hdel_from
hdel-Changes key field e none at = inl (refl, e.twins)
hdel-Changes key field e (some (hash_value h)) at = hdel_found key field e h
hdel-Changes key field e (some (string_value v)) at = inl (refl, e.twins)
hdel-Changes key field e (some (list_value v)) at = inl (refl, e.twins)
hdel-Changes key field e (some (set_value v)) at = inl (refl, e.twins)

pub hdel-Follows : Follows hdel
unfolding hdel
hdel-Follows e [] fits = quiet refl e.twins
hdel-Follows e (a ∷ []) fits = quiet refl e.twins
hdel-Follows e (key ∷ field ∷ []) fits =
    at-Outcome hdel key (field ∷ []) (hdel_at key field) e (codes "HDEL") _ (hdel-IsStill key field)
      hdel-Names (hdel_arguments, fits) refl (hdel-Changes key field e _ refl)
hdel-Follows e (a ∷ b ∷ c ∷ l) fits = quiet refl e.twins

sadd-Names : Names (codes "SADD") sadd
unfolding execute_command to_upper bytes_eq
sadd-Names = refl

abbrev sadd_at : Bytes → Bytes → Db → Option Value → RespValue × Db
sadd_at key item db o =
    let (store, members) = emplaced set_kind key db.store o in sadd_into db key item store members

sadd-IsStill : (key item : Bytes) → IsStill sadd key (item ∷ []) (sadd_at key item)
unfolding sadd
sadd-IsStill key item times db o ahead at =
    ap (λ w. sadd_into db key item w.0 w.1)
      (write_typed-IsAhead set_kind times.now key db.store o ahead at)

sadd_found :
    (key item : Bytes) (e : Setting) (m : List Bytes)
    → find key e.db.store.values ≡ some (set_value m)
    → Changes sadd key (item ∷ []) (sadd_at key item) e (codes "SADD") (some (set_value m))
unfolding sadd_into
sadd_found key item e m at = elim (Bool-cases (member item m)) [
  | inl y ↦
      rw (sadd_into, y, insert-member item m y)
        (inl (refl, store_value-same key e.twins (set_value m) at))
  | inr y ↦ rw (sadd_into, y) (inr (refl, store_value-Twins key _ e.twins))
]

sadd-Changes :
    (key item : Bytes) (e : Setting) (o : Option Value)
    → find key e.db.store.values ≡ o
    → Changes sadd key (item ∷ []) (sadd_at key item) e (codes "SADD") o
unfolding sadd_into member
sadd-Changes key item e none at =
    inr (refl, store_value-Twins key _ (store_value-Twins key _ e.twins))
sadd-Changes key item e (some (set_value m)) at = sadd_found key item e m at
sadd-Changes key item e (some (string_value v)) at = inl (refl, e.twins)
sadd-Changes key item e (some (list_value v)) at = inl (refl, e.twins)
sadd-Changes key item e (some (hash_value v)) at = inl (refl, e.twins)

pub sadd-Follows : Follows sadd
unfolding sadd
sadd-Follows e [] fits = quiet refl e.twins
sadd-Follows e (a ∷ []) fits = quiet refl e.twins
sadd-Follows e (key ∷ item ∷ []) fits =
    at-Outcome sadd key (item ∷ []) (sadd_at key item) e (codes "SADD") _ (sadd-IsStill key item)
      sadd-Names (sadd_arguments, fits) refl (sadd-Changes key item e _ refl)
sadd-Follows e (a ∷ b ∷ c ∷ l) fits = quiet refl e.twins

srem-Names : Names (codes "SREM") srem
unfolding execute_command to_upper bytes_eq
srem-Names = refl

abbrev srem_at : Bytes → Bytes → Db → Option Value → RespValue × Db
srem_at key item db o = srem_from db key item db.store (typed set_kind o)

srem-IsStill : (key item : Bytes) → IsStill srem key (item ∷ []) (srem_at key item)
unfolding srem
srem-IsStill key item times db o ahead at =
    ap (λ r. srem_from db key item r.0 r.1)
      (read_typed-IsAhead set_kind times.now key db.store o ahead at)

srem_found :
    (key item : Bytes) (e : Setting) (h : List Bytes)
    → Changes srem key (item ∷ []) (srem_at key item) e (codes "SREM") (some (set_value h))
unfolding srem_from
srem_found key item e h = elim (Bool-cases (member item h)) [
  | inl y ↦ rw (srem_from, y) (inr (refl, dropped-Twins key e.twins _))
  | inr y ↦ rw (srem_from, y) (inl (refl, e.twins))
]

srem-Changes :
    (key item : Bytes) (e : Setting) (o : Option Value)
    → find key e.db.store.values ≡ o
    → Changes srem key (item ∷ []) (srem_at key item) e (codes "SREM") o
unfolding srem_from
srem-Changes key item e none at = inl (refl, e.twins)
srem-Changes key item e (some (set_value m)) at = srem_found key item e m
srem-Changes key item e (some (string_value v)) at = inl (refl, e.twins)
srem-Changes key item e (some (list_value v)) at = inl (refl, e.twins)
srem-Changes key item e (some (hash_value v)) at = inl (refl, e.twins)

pub srem-Follows : Follows srem
unfolding srem
srem-Follows e [] fits = quiet refl e.twins
srem-Follows e (a ∷ []) fits = quiet refl e.twins
srem-Follows e (key ∷ item ∷ []) fits =
    at-Outcome srem key (item ∷ []) (srem_at key item) e (codes "SREM") _ (srem-IsStill key item)
      srem-Names (srem_arguments, fits) refl (srem-Changes key item e _ refl)
srem-Follows e (a ∷ b ∷ c ∷ l) fits = quiet refl e.twins
