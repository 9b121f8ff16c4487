-- ===== src/Resp/Parser.antt =====
-- The results of a parser that reads bytes from a cursor, and how they chain. The cursor is the
-- part of the input from `pos` on, so `pos` is the length of the input less that of the cursor.
use redis_lite_cpp.Common.{Option, none, some}
use redis_lite_cpp.Text.{Bytes}

-- `ParseStatus`, with what goes with it: the value and the cursor behind it, or the error.
pub data Parsed {ℓ} (A : Type ℓ) : Type ℓ where
  ok : A → Bytes → Parsed A
  incomplete : Parsed A
  malformed : Bytes → Parsed A

abbrev pub Parser {ℓ} : Type ℓ → Type ℓ
Parser A = Bytes → Parsed A

abbrev pub pure {ℓ} : {A : Type ℓ} → A → Parser A
pure a cursor = ok a cursor

abbrev pub fail {ℓ} : {A : Type ℓ} → Bytes → Parser A
fail error cursor = malformed error

module _ {ℓ κ} {A : Type ℓ} {B : Type κ} where
  abbrev pub bind : Parsed A → (A → Parser B) → Parsed B
  bind (ok a rest) f = f a rest
  bind incomplete f = incomplete
  bind (malformed error) f = malformed error

  infixl 5 ◌>>=◌
  abbrev pub ◌>>=◌ : Parser A → (A → Parser B) → Parser B
  p >>= f = λ cursor. bind (p cursor) f

  -- The rest runs on a number that was read, and `error` is the error where none was.
  abbrev pub or_malformed : Option A → Bytes → (A → Parser B) → Parser B
  or_malformed none error f cursor = malformed error
  or_malformed (some a) error f cursor = f a cursor
