-- ===== src/Commands/Execute/Each.antt =====
-- Proofs about every handler that `execute_command` of src/commands.cpp chooses among.
use redis_lite_cpp.Common.{◌||◌, ◌≡◌, refl, Bool, true, false, Option, none, some}
use redis_lite_cpp.Text.{bytes_eq, Bytes, codes}
use redis_lite_cpp.Commands.Base.{Command}
use redis_lite_cpp.Commands.General.{ping, del, expire, ttl}
use redis_lite_cpp.Commands.Strings.{set, get}
use redis_lite_cpp.Commands.Lists.{push, pop, llen, lrange}
use redis_lite_cpp.Commands.Hashes.{hset, hget, hdel, hexists, hlen}
use redis_lite_cpp.Commands.Sets.{sadd, srem, sismember, scard, smembers}
use redis_lite_cpp.Commands.Execute.{choose, handler}

pub record Each (P : Command → Type 0) : Type 0 where
  pub on_ping : P ping
  pub on_del : P del
  pub on_expire : P expire
  pub on_ttl : P ttl
  pub on_set : P set
  pub on_get : P get
  pub on_push :
      (name : Bytes)
      → (bytes_eq name (codes "LPUSH") || bytes_eq name (codes "RPUSH")) ≡ true
      → P (push name)
  pub on_pop :
      (name : Bytes)
      → (bytes_eq name (codes "LPOP") || bytes_eq name (codes "RPOP")) ≡ true
      → P (pop name)
  pub on_llen : P llen
  pub on_lrange : P lrange
  pub on_hset : P hset
  pub on_hget : P hget
  pub on_hdel : P hdel
  pub on_hexists : P hexists
  pub on_hlen : P hlen
  pub on_sadd : P sadd
  pub on_srem : P srem
  pub on_sismember : P sismember
  pub on_scard : P scard
  pub on_smembers : P smembers

-- The property holds of the handler, if there is one.
pub data Handles (P : Command → Type 0) : Option Command → Type 0 where
  unhandled : Handles P none
  handled : {command : Command} → P command → Handles P (some command)

module _ {P : Command → Type 0} where
  or_else :
      (b : Bool) (command : Command) (y : Option Command)
      → (b ≡ true → P command)
      → Handles P y
      → Handles P (choose b command y)
  unfolding choose
  or_else true command y h hy = handled (h refl)
  or_else false command y h hy = hy

  -- What holds of each command holds of the handler of any name.
  pub handler-Handles : Each P → (name : Bytes) → Handles P (handler name)
  unfolding handler
  handler-Handles each name =
      or_else _ _ _ (λ _. each.on_ping)
        (or_else _ _ _ (λ _. each.on_del)
          (or_else _ _ _ (λ _. each.on_expire)
            (or_else _ _ _ (λ _. each.on_ttl)
              (or_else _ _ _ (λ _. each.on_set)
                (or_else _ _ _ (λ _. each.on_get)
                  (or_else _ _ _ (each.on_push name) (
                    or_else _ _ _ (each.on_pop name) (
                      or_else _ _ _ (λ _. each.on_llen)
                        (or_else _ _ _ (λ _. each.on_lrange)
                          (or_else _ _ _ (λ _. each.on_hset)
                            (or_else _ _ _ (λ _. each.on_hget)
                              (or_else _ _ _ (λ _. each.on_hdel)
                                (or_else _ _ _ (λ _. each.on_hexists)
                                  (or_else _ _ _ (λ _. each.on_hlen)
                                    (or_else _ _ _ (λ _. each.on_sadd)
                                      (or_else _ _ _ (λ _. each.on_srem)
                                        (or_else _ _ _ (λ _. each.on_sismember)
                                          (or_else _ _ _ (λ _. each.on_scard)
                                            (or_else _ _ _ (λ _. each.on_smembers)
                                              unhandled)))))))))))))))))))
