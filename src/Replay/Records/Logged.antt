-- ===== src/Replay/Records/Logged.antt =====
-- What a command of src/commands.cpp appends to the log of src/persistence.cpp.
use redis_lite_cpp.Common.{
  ◌^◌, ◌≤◌, [], ◌∷◌, ◌++◌, List, Bool, true, false, Option, none, some, ◌≡◌, refl, ◌⊎◌, inl, inr, ℤ,
  All, if◌then◌else◌,
}
use redis_lite_cpp.Text.{Bytes, codes, bytes_eq}
use redis_lite_cpp.Decimal.{to_integer}
use redis_lite_cpp.Log.{Log, log_command}
use redis_lite_cpp.Commands.Base.{Db, Times, Command}
use redis_lite_cpp.Commands.General.{ping, del, ttl}
use redis_lite_cpp.Commands.Strings.{set, get}
use redis_lite_cpp.Commands.Lists.{llen, lrange, range_from}
use redis_lite_cpp.Commands.Hashes.{hget, hexists, hlen}
use redis_lite_cpp.Commands.Sets.{sismember, scard, smembers}
use redis_lite_cpp.Replay.Read.{arguments_for}
use redis_lite_cpp.Replay.Read.RoundTrip.{Fits}
use redis_lite_cpp.Replay.Records.{Record, logged, text_of, IsRecord}

abbrev pub appended : Log → Bytes → Log
appended none text = none
appended (some written) text = some (written ++ text)

-- The log is as it was, or one record was appended.
abbrev pub Logs : Log → Log → Type 0
Logs before after =
    (after ≡ before) ⊎ ((r : Record) × IsRecord r × (after ≡ appended before (text_of r)))

abbrev pub HasLogs : Command → Type 0
HasLogs command =
    (times : Times) (db : Db) (arguments : List Bytes)
    → times.unix ≤ 2 ^ 62
    → All Fits arguments
    → Logs db.log (command times db arguments).1.log

pub log_command-Logs :
    (log : Log) (verb key : Bytes) (arguments : List Bytes)
    → IsRecord (logged verb key arguments)
    → Logs log (log_command log verb (key ∷ arguments))
unfolding log_command
log_command-Logs none verb key arguments h = inl refl
log_command-Logs (some written) verb key arguments h = inr (logged verb key arguments, h, refl)

pub if-Logs :
    (log : Log) (b : Bool) (x y : Log) → Logs log x → Logs log y → Logs log (if b then x else y)
if-Logs log true x y h k = h
if-Logs log false x y h k = k

pub ping-HasLogs : HasLogs ping
unfolding ping
ping-HasLogs times db [] h fits = inl refl
ping-HasLogs times db (a ∷ l) h fits = inl refl

pub del-HasLogs : HasLogs del
unfolding del arguments_for bytes_eq
del-HasLogs times db [] h fits = inl refl
del-HasLogs times db (key ∷ []) h fits =
    if-Logs db.log _ _ _ (log_command-Logs db.log (codes "DEL") key [] (refl, fits)) (inl refl)
del-HasLogs times db (a ∷ b ∷ l) h fits = inl refl

pub set-HasLogs : HasLogs set
unfolding set arguments_for bytes_eq
set-HasLogs times db [] h fits = inl refl
set-HasLogs times db (a ∷ []) h fits = inl refl
set-HasLogs times db (key ∷ value ∷ []) h fits =
    log_command-Logs db.log (codes "SET") key (value ∷ []) (refl, fits)
set-HasLogs times db (a ∷ b ∷ c ∷ l) h fits = inl refl

pub ttl-HasLogs : HasLogs ttl
unfolding ttl
ttl-HasLogs times db [] h fits = inl refl
ttl-HasLogs times db (a ∷ []) h fits = inl refl
ttl-HasLogs times db (a ∷ b ∷ l) h fits = inl refl

pub get-HasLogs : HasLogs get
unfolding get
get-HasLogs times db [] h fits = inl refl
get-HasLogs times db (a ∷ []) h fits = inl refl
get-HasLogs times db (a ∷ b ∷ l) h fits = inl refl

pub llen-HasLogs : HasLogs llen
unfolding llen
llen-HasLogs times db [] h fits = inl refl
llen-HasLogs times db (a ∷ []) h fits = inl refl
llen-HasLogs times db (a ∷ b ∷ l) h fits = inl refl

pub hget-HasLogs : HasLogs hget
unfolding hget
hget-HasLogs times db [] h fits = inl refl
hget-HasLogs times db (a ∷ []) h fits = inl refl
hget-HasLogs times db (a ∷ b ∷ []) h fits = inl refl
hget-HasLogs times db (a ∷ b ∷ c ∷ l) h fits = inl refl

pub hexists-HasLogs : HasLogs hexists
unfolding hexists
hexists-HasLogs times db [] h fits = inl refl
hexists-HasLogs times db (a ∷ []) h fits = inl refl
hexists-HasLogs times db (a ∷ b ∷ []) h fits = inl refl
hexists-HasLogs times db (a ∷ b ∷ c ∷ l) h fits = inl refl

pub hlen-HasLogs : HasLogs hlen
unfolding hlen
hlen-HasLogs times db [] h fits = inl refl
hlen-HasLogs times db (a ∷ []) h fits = inl refl
hlen-HasLogs times db (a ∷ b ∷ l) h fits = inl refl

pub sismember-HasLogs : HasLogs sismember
unfolding sismember
sismember-HasLogs times db [] h fits = inl refl
sismember-HasLogs times db (a ∷ []) h fits = inl refl
sismember-HasLogs times db (a ∷ b ∷ []) h fits = inl refl
sismember-HasLogs times db (a ∷ b ∷ c ∷ l) h fits = inl refl

pub scard-HasLogs : HasLogs scard
unfolding scard
scard-HasLogs times db [] h fits = inl refl
scard-HasLogs times db (a ∷ []) h fits = inl refl
scard-HasLogs times db (a ∷ b ∷ l) h fits = inl refl

pub smembers-HasLogs : HasLogs smembers
unfolding smembers
smembers-HasLogs times db [] h fits = inl refl
smembers-HasLogs times db (a ∷ []) h fits = inl refl
smembers-HasLogs times db (a ∷ b ∷ l) h fits = inl refl

range_from-log :
    (times : Times) (db : Db) (key : Bytes) (start stop : Option ℤ)
    → (range_from times db key start stop).1.log ≡ db.log
unfolding range_from
range_from-log times db key none none = refl
range_from-log times db key none (some stop) = refl
range_from-log times db key (some start) none = refl
range_from-log times db key (some start) (some stop) = refl

pub lrange-HasLogs : HasLogs lrange
unfolding lrange
lrange-HasLogs times db [] h fits = inl refl
lrange-HasLogs times db (a ∷ []) h fits = inl refl
lrange-HasLogs times db (a ∷ b ∷ []) h fits = inl refl
lrange-HasLogs times db (key ∷ start ∷ stop ∷ []) h fits =
    inl (range_from-log times db key (to_integer start) (to_integer stop))
lrange-HasLogs times db (a ∷ b ∷ c ∷ d ∷ l) h fits = inl refl
