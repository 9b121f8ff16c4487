-- ===== src/Replay/Durable/Reads.antt =====
-- The commands of src/commands.cpp that only read.
use redis_lite_cpp.Common.{[], ◌∷◌, Option, none, some, ℤ, refl}
use redis_lite_cpp.Text.{Bytes}
use redis_lite_cpp.Decimal.{to_integer}
use redis_lite_cpp.Store.{read_typed}
use redis_lite_cpp.Commands.General.{ping, ttl}
use redis_lite_cpp.Commands.Strings.{get}
use redis_lite_cpp.Commands.Lists.{llen, lrange, range_from}
use redis_lite_cpp.Commands.Hashes.{hget, hexists, hlen}
use redis_lite_cpp.Commands.Sets.{sismember, scard, smembers}
use redis_lite_cpp.Replay.Durable.{Setting, Outcome, quiet, Follows, idle}

pub ping-Follows : Follows ping
unfolding ping
ping-Follows s [] fits = quiet refl s.twins
ping-Follows s (a ∷ l) fits = quiet refl s.twins

pub ttl-Follows : Follows ttl
unfolding ttl
ttl-Follows s [] fits = quiet refl s.twins
ttl-Follows s (a ∷ []) fits = quiet refl (idle s a)
ttl-Follows s (a ∷ b ∷ l) fits = quiet refl s.twins

pub get-Follows : Follows get
unfolding get read_typed
get-Follows s [] fits = quiet refl s.twins
get-Follows s (a ∷ []) fits = quiet refl (idle s a)
get-Follows s (a ∷ b ∷ l) fits = quiet refl s.twins

pub llen-Follows : Follows llen
unfolding llen read_typed
llen-Follows s [] fits = quiet refl s.twins
llen-Follows s (a ∷ []) fits = quiet refl (idle s a)
llen-Follows s (a ∷ b ∷ l) fits = quiet refl s.twins

pub hget-Follows : Follows hget
unfolding hget read_typed
hget-Follows s [] fits = quiet refl s.twins
hget-Follows s (a ∷ []) fits = quiet refl s.twins
hget-Follows s (a ∷ b ∷ []) fits = quiet refl (idle s a)
hget-Follows s (a ∷ b ∷ c ∷ l) fits = quiet refl s.twins

pub hexists-Follows : Follows hexists
unfolding hexists read_typed
hexists-Follows s [] fits = quiet refl s.twins
hexists-Follows s (a ∷ []) fits = quiet refl s.twins
hexists-Follows s (a ∷ b ∷ []) fits = quiet refl (idle s a)
hexists-Follows s (a ∷ b ∷ c ∷ l) fits = quiet refl s.twins

pub hlen-Follows : Follows hlen
unfolding hlen read_typed
hlen-Follows s [] fits = quiet refl s.twins
hlen-Follows s (a ∷ []) fits = quiet refl (idle s a)
hlen-Follows s (a ∷ b ∷ l) fits = quiet refl s.twins

pub sismember-Follows : Follows sismember
unfolding sismember read_typed
sismember-Follows s [] fits = quiet refl s.twins
sismember-Follows s (a ∷ []) fits = quiet refl s.twins
sismember-Follows s (a ∷ b ∷ []) fits = quiet refl (idle s a)
sismember-Follows s (a ∷ b ∷ c ∷ l) fits = quiet refl s.twins

pub scard-Follows : Follows scard
unfolding scard read_typed
scard-Follows s [] fits = quiet refl s.twins
scard-Follows s (a ∷ []) fits = quiet refl (idle s a)
scard-Follows s (a ∷ b ∷ l) fits = quiet refl s.twins

pub smembers-Follows : Follows smembers
unfolding smembers read_typed
smembers-Follows s [] fits = quiet refl s.twins
smembers-Follows s (a ∷ []) fits = quiet refl (idle s a)
smembers-Follows s (a ∷ b ∷ l) fits = quiet refl s.twins

range_from-Outcome :
    (s : Setting) (key : Bytes) (start stop : Option ℤ)
    → Outcome s (range_from s.times s.db key start stop).1
unfolding range_from read_typed
range_from-Outcome s key none none = quiet refl s.twins
range_from-Outcome s key none (some stop) = quiet refl s.twins
range_from-Outcome s key (some start) none = quiet refl s.twins
range_from-Outcome s key (some start) (some stop) = quiet refl (idle s key)

pub lrange-Follows : Follows lrange
unfolding lrange
lrange-Follows s [] fits = quiet refl s.twins
lrange-Follows s (a ∷ []) fits = quiet refl s.twins
lrange-Follows s (a ∷ b ∷ []) fits = quiet refl s.twins
lrange-Follows s (key ∷ start ∷ stop ∷ []) fits =
    range_from-Outcome s key (to_integer start) (to_integer stop)
lrange-Follows s (a ∷ b ∷ c ∷ d ∷ l) fits = quiet refl s.twins
