-- ===== src/Log.antt =====
-- The append-only log of src/persistence.cpp, as `log_command` and `log_expire` write it. The log is
-- the content of the file, or `none` for a null pointer.
use redis_lite_cpp.Common.{
  ℕ, [], ◌∷◌, ◌++◌, List, Option, none, some, ℤ, pos, length, Bool, if◌then◌else◌, ◌+ℤ◌, ◌≡◌, refl,
}
use redis_lite_cpp.Text.{Bytes, codes}
use redis_lite_cpp.Decimal.{to_string, digit_text}

abbrev pub Log : Type 0
Log = Option Bytes

-- `append_number` and `append_field`; `write_field` writes the same bytes by stream insertions.
unfoldable pub field_text : Bytes → Bytes
field_text text = to_string (pos (length text)) ++ (b' ' ∷ text)

-- The loop over the arguments, each behind a space.
unfoldable pub arguments_text : List Bytes → Bytes
unfolding field_text
arguments_text [] = []
arguments_text (argument ∷ arguments) = b' ' ∷ (field_text argument ++ arguments_text arguments)

unfoldable pub record_text : Bytes → List Bytes → Bytes
unfolding arguments_text
record_text verb arguments = verb ++ (arguments_text arguments ++ (10 ∷ []))

unfoldable pub log_command : Log → Bytes → List Bytes → Log
unfolding record_text
log_command none verb arguments = none
log_command (some written) verb arguments = some (written ++ record_text verb arguments)

unfoldable pub expire_text : Bytes → ℤ → Bytes
unfolding field_text
expire_text key deadline =
    codes "EXPIRE " ++ (field_text key ++ (b' ' ∷ (to_string deadline ++ (10 ∷ []))))

-- The stream appends to what the file holds, where the file can be opened.
unfoldable pub open_log : Bool → Bytes → Option Bytes
open_log opens content = if opens then some content else none

-- `unix` is what `unix_now` returns.
unfoldable pub log_expire : Log → Bytes → ℕ → ℤ → Log
unfolding expire_text
log_expire none key unix seconds = none
log_expire (some written) key unix seconds = some (written ++ expire_text key (pos unix +ℤ seconds))

a_record :
    log_command (some []) (codes "HSET") (codes "k" ∷ codes "f" ∷ [] ∷ [])
    ≡ some (codes "HSET 1 k 1 f 0 \n")
unfolding log_command to_string digit_text
a_record = refl
