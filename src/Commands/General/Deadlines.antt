-- ===== src/Commands/General/Deadlines.antt =====
-- EXPIRE and TTL of src/commands.cpp: exact deadlines, no overflow, rounding up.
use redis_lite_cpp.Common.{
  ℕ, ◌+◌, ◌*◌, ◌≤◌, ◌<◌, [], ◌∷◌, true, false, none, some, ◌≡◌, refl, ◌∙◌, ap, arith, if◌then◌else◌,
  ltb, ℤ, pos, negsuc, pos_part, ltb_ℤ, long_long_max, Bool, Option, ◌&&◌, sym, Bool-cases, inl,
  inr,
}
use redis_lite_cpp.Text.{Bytes, bytes_eq_refl}
use redis_lite_cpp.Decimal.{to_integer}
use redis_lite_cpp.Dict.{find, has_key}
use redis_lite_cpp.Dict.Laws.{find-put, find-erase}
use redis_lite_cpp.Store.{Value, Store, expire_if_due, remove_key, set_deadline}
use redis_lite_cpp.Store.View.{view, find-remove_key, deadline-remove_key}
use redis_lite_cpp.Resp.Value.{make_integer}
use redis_lite_cpp.Commands.Base.{Db, Times}
use redis_lite_cpp.Commands.General.{
  ticks_per_second, max_seconds, expire_key, expire_at, expire, ceil_seconds, ttl_of, ttl,
}

pub ltb_ℤ-false : (a b : ℕ) → b ≤ a → ltb_ℤ (pos a) (pos b) ≡ false
ltb_ℤ-false a b h = ground arith

pub ltb_ℤ-true : (a b : ℕ) → a < b → ltb_ℤ (pos a) (pos b) ≡ true
ltb_ℤ-true a b h = ground arith

module _ (times : Times) (db : Db) (key text : Bytes) (seconds : ℤ)
    (number : to_integer text ≡ some seconds)
    (fits : ltb_ℤ (pos (max_seconds times.now)) seconds ≡ false)
    (live : has_key key (expire_if_due times.later key db.store).values ≡ true) where
  abbrev dated_store : Store
  dated_store =
      set_deadline key (times.now + pos_part seconds * ticks_per_second)
        (expire_if_due times.later key db.store)

  abbrev gone_store : Store
  gone_store = remove_key key (expire_if_due times.later key db.store)

  expire_key_dated :
      ltb_ℤ (pos 0) seconds ≡ true
      → ((expire_key times db.log key seconds (expire_if_due times.later key db.store)).0
          ≡ make_integer (pos 1))
        × ((expire_key times db.log key seconds (expire_if_due times.later key db.store)).1.store
            ≡ dated_store)
  unfolding expire_key
  expire_key_dated positive = rw (live, positive) (refl, refl)

  expire_key_gone :
      ltb_ℤ (pos 0) seconds ≡ false
      → ((expire_key times db.log key seconds (expire_if_due times.later key db.store)).0
          ≡ make_integer (pos 1))
        × ((expire_key times db.log key seconds (expire_if_due times.later key db.store)).1.store
            ≡ gone_store)
  unfolding expire_key
  expire_key_gone positive = rw (live, positive) (refl, refl)

  -- EXPIRE at a key that is live, with a number of seconds that the clock can hold.
  pub expire_dated_lem :
      ltb_ℤ (pos 0) seconds ≡ true
      → ((expire times db (key ∷ text ∷ [])).0 ≡ make_integer (pos 1))
        × ((expire times db (key ∷ text ∷ [])).1.store ≡ dated_store)
  unfolding expire expire_at
  expire_dated_lem positive = rw (number, expire_at, fits) (expire_key_dated positive)

  expire_gone_lem :
      ltb_ℤ (pos 0) seconds ≡ false
      → ((expire times db (key ∷ text ∷ [])).0 ≡ make_integer (pos 1))
        × ((expire times db (key ∷ text ∷ [])).1.store ≡ gone_store)
  unfolding expire expire_at
  expire_gone_lem positive = rw (number, expire_at, fits) (expire_key_gone positive)

view_dated :
    (t deadline : ℕ) (key : Bytes) (s : Store)
    → view t key (set_deadline key deadline s)
      ≡ (if ltb t deadline then find key s.values else none)
unfolding view set_deadline expire_if_due remove_key
view_dated t deadline key s =
    ground (
      arith,
      find-put key key deadline s.expirations,
      bytes_eq_refl key,
      find-erase key key s.values,
    )

-- The sum that EXPIRE computes fits `long long`.
pub deadline_fits :
    (now seconds : ℕ)
    → now ≤ long_long_max
    → seconds ≤ max_seconds now
    → now + seconds * ticks_per_second ≤ long_long_max
deadline_fits now seconds h k = omega arith

pub ceil_seconds-within :
    (now seconds elapsed : ℕ)
    → 0 < seconds
    → elapsed < ticks_per_second
    → ceil_seconds (now + seconds * ticks_per_second) (now + elapsed) ≡ pos seconds
unfolding ceil_seconds
ceil_seconds-within now seconds elapsed h k = ground arith

expire_dated :
    (t deadline : ℕ) (key : Bytes) (s : Store)
    → t < deadline
    → expire_if_due t key (set_deadline key deadline s) ≡ set_deadline key deadline s
unfolding set_deadline expire_if_due
expire_dated t deadline key s h =
    ground (arith, find-put key key deadline s.expirations, bytes_eq_refl key)

find-set_deadline :
    (key : Bytes) (deadline : ℕ) (s : Store)
    → find key (set_deadline key deadline s).expirations ≡ some deadline
unfolding set_deadline
find-set_deadline key deadline s =
    ground (arith, find-put key key deadline s.expirations, bytes_eq_refl key)

has_key-set_deadline :
    (key : Bytes) (deadline : ℕ) (s : Store)
    → has_key key (set_deadline key deadline s).values ≡ has_key key s.values
unfolding set_deadline
has_key-set_deadline key deadline s = refl

ttl_of_dated :
    (times : Times) (key : Bytes) (s : Store) (deadline : ℕ)
    → has_key key s.values ≡ true
    → find key s.expirations ≡ some deadline
    → ttl_of times key s ≡ ceil_seconds deadline times.later
unfolding ttl_of
ttl_of_dated times key s deadline held e = rw (held, e)

-- TTL at a key whose deadline lies ahead, with the store's values as EXPIRE left them.
ttl_dated :
    (times : Times) (db : Db) (key : Bytes) (deadline : ℕ) (s : Store)
    → db.store ≡ set_deadline key deadline s
    → has_key key s.values ≡ true
    → times.now < deadline
    → (ttl times db (key ∷ [])).0 ≡ make_integer (ceil_seconds deadline times.later)
unfolding ttl
ttl_dated times db key deadline s e held ahead = ap make_integer (
    ap (λ u. ttl_of times key (expire_if_due times.now key u)) e
    ∙ ap (ttl_of times key) (expire_dated times.now deadline key s ahead)
    ∙ ttl_of_dated times key _ deadline (has_key-set_deadline key deadline s ∙ held)
        (find-set_deadline key deadline s))

ttl_of_gone :
    (times : Times) (key : Bytes) (s : Store)
    → has_key key s.values ≡ false
    → ttl_of times key s ≡ negsuc 1
unfolding ttl_of
ttl_of_gone times key s missing = rw (missing) refl

expire_removed :
    (t : ℕ) (key : Bytes) (s : Store) → expire_if_due t key (remove_key key s) ≡ remove_key key s
unfolding expire_if_due
expire_removed t key s = rw (expire_if_due, deadline-remove_key key s) refl

has_key-remove_key : (key : Bytes) (s : Store) → has_key key (remove_key key s).values ≡ false
has_key-remove_key key s = rw (find-remove_key key s) refl

-- TTL at a key that is not there.
ttl_gone :
    (times : Times) (db : Db) (key : Bytes) (s : Store)
    → db.store ≡ remove_key key s
    → (ttl times db (key ∷ [])).0 ≡ make_integer (negsuc 1)
unfolding ttl
ttl_gone times db key s e = ap make_integer (
    ap (λ u. ttl_of times key (expire_if_due times.now key u)) e
    ∙ ap (ttl_of times key) (expire_removed times.now key s)
    ∙ ttl_of_gone times key (remove_key key s) (has_key-remove_key key s))

view_gone : (t : ℕ) (key : Bytes) (s : Store) → view t key (remove_key key s) ≡ none
unfolding view
view_gone t key s = rw (expire_removed t key s) (find-remove_key key s)

ltb_ℤ-0 : (z : ℤ) → ltb_ℤ (pos 0) z ≡ true → (pos (pos_part z) ≡ z) × (0 < pos_part z)
ltb_ℤ-0 (pos n) h = (refl, ground arith)
ltb_ℤ-0 (negsuc n) h = absurd (ground arith)

-- EXPIRE at a live key, for any number of seconds that the clock can hold, succeeds: it replies 1.
-- A TTL whose clock readings fall within the first second behind it replies exactly that number
-- where it is positive, and that the key is missing, -2, where it is zero or negative.
pub ttl-expire :
    (times times' : Times) (db : Db) (key text : Bytes) (seconds : ℤ) (elapsed elapsed' : ℕ)
    → to_integer text ≡ some seconds
    → ltb_ℤ (pos (max_seconds times.now)) seconds ≡ false
    → has_key key (expire_if_due times.later key db.store).values ≡ true
    → elapsed < ticks_per_second
    → elapsed' < ticks_per_second
    → times'.now ≡ times.now + elapsed
    → times'.later ≡ times.now + elapsed'
    → ((expire times db (key ∷ text ∷ [])).0 ≡ make_integer (pos 1))
      × ((ttl times' (expire times db (key ∷ text ∷ [])).1 (key ∷ [])).0
          ≡ make_integer (if ltb_ℤ (pos 0) seconds then seconds else negsuc 1))
ttl-expire times times' db key text seconds elapsed elapsed' number fits live h k e f =
    elim (Bool-cases (ltb_ℤ (pos 0) seconds)) [
      | inl positive ↦
          let (done, stored) =
            expire_dated_lem times db key text seconds number fits live positive in
          let (same, above) = ltb_ℤ-0 seconds positive in
          (
            done,
            ttl_dated times' (expire times db (key ∷ text ∷ [])).1 key
                  (times.now + pos_part seconds * ticks_per_second)
                  (expire_if_due times.later key db.store) stored live (omega arith)
                ∙ ap
                    (λ t.
                      make_integer
                        (ceil_seconds (times.now + pos_part seconds * ticks_per_second) t))
                    f
                ∙ ap make_integer
                    (ceil_seconds-within times.now (pos_part seconds) elapsed' above k ∙ same)
                ∙ ap (λ b. make_integer (if b then seconds else negsuc 1)) (sym positive),
          )
      | inr negative ↦
          let (done, stored) =
            expire_gone_lem times db key text seconds number fits live negative in
          (
            done,
            ttl_gone times' (expire times db (key ∷ text ∷ [])).1 key
                  (expire_if_due times.later key db.store) stored
                ∙ ap (λ b. make_integer (if b then seconds else negsuc 1)) (sym negative),
          )
    ]

-- EXPIRE at a live key, for any number of seconds that the clock can hold, succeeds: it replies 1.
-- Where the number is positive, the key is then seen with its value at every clock reading before
-- the deadline, that many seconds after the reading of EXPIRE, and as missing from the deadline on.
-- Where it is zero or negative, the key is seen as missing at every reading.
pub view-expire :
    (times : Times) (db : Db) (key text : Bytes) (seconds : ℤ) (t : ℕ)
    → to_integer text ≡ some seconds
    → ltb_ℤ (pos (max_seconds times.now)) seconds ≡ false
    → has_key key (expire_if_due times.later key db.store).values ≡ true
    → ((expire times db (key ∷ text ∷ [])).0 ≡ make_integer (pos 1))
      × (view t key (expire times db (key ∷ text ∷ [])).1.store ≡ (
          if ltb_ℤ (pos 0) seconds && ltb t (times.now + pos_part seconds * ticks_per_second)
          then view times.later key db.store
          else none))
unfolding view
view-expire times db key text seconds t number fits live =
    elim (Bool-cases (ltb_ℤ (pos 0) seconds)) [
      | inl positive ↦
          let (done, stored) =
            expire_dated_lem times db key text seconds number fits live positive in
          (
            done,
            ap (view t key) stored
                ∙ view_dated t (times.now + pos_part seconds * ticks_per_second) key
                    (expire_if_due times.later key db.store)
                ∙ ap (λ b. shown (b && ltb t (times.now + pos_part seconds * ticks_per_second)))
                    (sym positive),
          )
      | inr negative ↦
          let (done, stored) =
            expire_gone_lem times db key text seconds number fits live negative in
          (
            done,
            ap (view t key) stored
                ∙ view_gone t key (expire_if_due times.later key db.store)
                ∙ ap (λ b. shown (b && ltb t (times.now + pos_part seconds * ticks_per_second)))
                    (sym negative),
          )
    ]
  where
    shown : Bool → Option Value
    shown b = if b then view times.later key db.store else none
