-- ===== src/Commands/Execute/Unknown.antt =====
-- The reply of `execute_command` in src/commands.cpp to a name that it does not know.
use redis_lite_cpp.Common.{
  [], ◌∷◌, ◌++◌, List, none, some, map, ◌≡◌, ◌↔◌, refl, ap, ◌∙◌, All-append, length, arith,
}
use redis_lite_cpp.Text.{Bytes, codes}
use redis_lite_cpp.Decimal.{IsLine}
use redis_lite_cpp.Resp.Value.{to_elements, make_bulk_string, make_array}
use redis_lite_cpp.Resp.Serialize.{serialize}
use redis_lite_cpp.Resp.Wire.{IsWire}
use redis_lite_cpp.Resp.Parse.{max_depth}
use redis_lite_cpp.Resp.Entry.{parse, ok}
use redis_lite_cpp.Resp.Entry.RoundTrip.{parse-serialize, parse_sound}
use redis_lite_cpp.Commands.Base.{Db, Times, to_upper}
use redis_lite_cpp.Commands.Execute.{
  also, handler, dispatch, execute_words, unknown_command, execute_command,
}
use redis_lite_cpp.Commands.Execute.Names.{texts_of-make_bulk_string}

reply-unknown :
    (times : Times) (db : Db) (word : Bytes) (arguments : List Bytes)
    → handler (to_upper word) ≡ none
    → (execute_command times db
        (make_array (to_elements (map make_bulk_string (word ∷ arguments))))).0
      ≡ unknown_command word
unfolding execute_command
reply-unknown times db word arguments h =
    ap (λ o. (execute_words times db (also (some word) o)).0) (texts_of-make_bulk_string arguments)
    ∙ ap (λ o. (dispatch word o times db arguments).0) h

All-front : (s t : Bytes) → IsLine (s ++ t) → IsLine s
All-front [] t h = tt
All-front (c ∷ s) t h = (h.0, All-front s t h.1)

All-behind : (s t : Bytes) → IsLine (s ++ t) → IsLine t
All-behind [] t h = h
All-behind (c ∷ s) t h = All-behind s t h.1

unknown_command-IsWire : (word : Bytes) → IsLine word → IsWire max_depth (unknown_command word)
unknown_command-IsWire word h = (
  All-append _ (codes "ERR unknown command '") (word ++ codes "'") (ground arith)
      (All-append _ word (codes "'") h (ground arith)),
  refl,
  refl,
  refl,
)

-- A name that is not known is answered by an error that holds the name as it was sent, and this reply,
-- with any bytes behind it, is parsed back as itself just if the name has no CR and no LF.
pub unknown-parsed :
    (times : Times) (db : Db) (word : Bytes) (arguments : List Bytes) (rest : Bytes)
    → handler (to_upper word) ≡ none
    → ((execute_command times db
          (make_array (to_elements (map make_bulk_string (word ∷ arguments))))).0
        ≡ unknown_command word)
      × ((parse (serialize (unknown_command word) ++ rest)
            ≡ ok (unknown_command word) (length (serialize (unknown_command word))))
          ↔ IsLine word)
unknown-parsed times db word arguments rest h = (
  reply-unknown times db word arguments h,
  (
    λ e. All-front word (codes "'") (
        All-behind (codes "ERR unknown command '") (word ++ codes "'")
          (parse_sound _ (unknown_command word) _ e).0.0),
    λ line. parse-serialize (unknown_command word) rest (unknown_command-IsWire word line),
  ),
)
