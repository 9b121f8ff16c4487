-- ===== src/Commands/Base.antt =====
-- What the commands of src/commands.cpp share: the state, the clock readings, the error replies.
use redis_lite_cpp.Common.{
  ℕ, ◌-◌, [], ◌∷◌, ◌++◌, List, map, Bool, true, false, ◌&&◌, ◌≡◌, refl, leb, if◌then◌else◌, ℤ, pos,
  ltb_ℤ, ◌+ℤ◌,
}
use redis_lite_cpp.Text.{Bytes, codes}
use redis_lite_cpp.Store.{Store}
use redis_lite_cpp.Store.Effect.{Effect}
use redis_lite_cpp.Log.{Log}
use redis_lite_cpp.Resp.Value.{RespValue, make_error}

-- The state that `execute_command` is given: the store and the log.
pub record Db : Type 0 where
  pub store : Store
  pub log : Log

-- What the clocks show while one command runs: the first and the second reading of the steady
-- clock, in nanoseconds, and the seconds of `unix_now`.
pub record Times : Type 0 where
  pub now : ℕ
  pub later : ℕ
  pub unix : ℕ

abbrev pub Command : Type 0
Command = Times → Db → List Bytes → RespValue × Db

-- `std::toupper` on a byte, in the "C" locale.
unfoldable pub upper_byte : ℕ → ℕ
upper_byte c = if leb b'a' c && leb c b'z' then c - 32 else c

unfoldable pub to_upper : Bytes → Bytes
unfolding upper_byte
to_upper text = map upper_byte text

abbrev pub wrong_arity : Bytes → RespValue
wrong_arity name =
    make_error (codes "ERR wrong number of arguments for '" ++ (name ++ codes "' command"))

abbrev pub wrong_type : RespValue
wrong_type = make_error (codes "WRONGTYPE Operation against a key holding the wrong kind of value")

abbrev pub not_an_integer : RespValue
not_an_integer = make_error (codes "ERR value is not an integer or out of range")

-- An index from the end is negative.
unfoldable pub absolute_index : ℤ → ℤ → ℤ
absolute_index index size = if ltb_ℤ index (pos 0) then index +ℤ size else index

abbrev pub flag : Bool → ℤ
flag true = pos 1
flag false = pos 0

-- The key that a command works on is its first argument.
abbrev pub key_of : List Bytes → Bytes
key_of [] = []
key_of (key ∷ arguments) = key

-- What the command may do to the store goes through its key.
abbrev pub HasEffect : Command → Type 0
HasEffect command =
    (times : Times) (db : Db) (arguments : List Bytes)
    → Effect (key_of arguments) db.store (command times db arguments).1.store

pub if-Effect :
    (key : Bytes) (s : Store) (b : Bool) (x y : RespValue × Db)
    → (b ≡ true → Effect key s x.1.store)
    → Effect key s y.1.store
    → Effect key s (if b then x else y).1.store
if-Effect key s true x y hx hy = hx refl
if-Effect key s false x y hx hy = hy
