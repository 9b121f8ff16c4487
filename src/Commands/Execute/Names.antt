-- ===== src/Commands/Execute/Names.antt =====
-- The names of commands in `execute_command` of src/commands.cpp.
use redis_lite_cpp.Common.{
  [], ◌∷◌, map, List, Option, none, some, ◌≡◌, ◌≢◌, refl, ap, ◌∙◌, ℕ, ◌≤◌, ◌+◌, ◌⊎◌, Bool, true,
  false, subst, sym, arith,
}
use redis_lite_cpp.Text.{Bytes, codes, bytes_eq, bytes_eq_iff, one_of_two}
use redis_lite_cpp.Resp.Value.{Elements, to_elements, cons, make_bulk_string, make_array}
use redis_lite_cpp.Commands.Base.{Db, Times, Command, to_upper, upper_byte}
use redis_lite_cpp.Commands.Execute.{
  also, texts_of, choose, handler, dispatch, execute_words, execute_command,
}

dispatch_word :
    (word word' : Bytes) (o : Option Command) (times : Times) (db : Db) (arguments : List Bytes)
    → o ≢ none
    → dispatch word o times db arguments ≡ dispatch word' o times db arguments
dispatch_word word word' none times db arguments known = absurd (known refl)
dispatch_word word word' (some command) times db arguments known = refl

same_words :
    (word word' : Bytes) (times : Times) (db : Db) (o : Option (List Bytes))
    → to_upper word ≡ to_upper word'
    → handler (to_upper word) ≢ none
    → execute_words times db (also (some word) o) ≡ execute_words times db (also (some word') o)
same_words word word' times db none e known = refl
same_words word word' times db (some arguments) e known =
    dispatch_word word word' (handler (to_upper word)) times db arguments known
    ∙ ap (λ name. dispatch word' (handler name) times db arguments) e

-- A byte that may stand for `c` in a name: `c`, or the lower case of an upper-case letter of ASCII.
abbrev pub IsCaseOf : ℕ → ℕ → Type 0
IsCaseOf c d = (d ≡ c) ⊎ ((65 ≤ c) × (c ≤ 90) × (d ≡ c + 32))

-- The word is the name, byte by byte, with any of its letters in lower case.
abbrev pub Spells : Bytes → Bytes → Type 0
Spells [] [] = Unit
Spells (c ∷ name) (d ∷ word) = IsCaseOf c d × Spells name word
Spells _ _ = ⊥

upper_byte-IsCaseOf : (c d : ℕ) → IsCaseOf c d → upper_byte d ≡ upper_byte c
unfolding upper_byte
upper_byte-IsCaseOf c d h = ground arith

to_upper-Spells : (name word : Bytes) → Spells name word → to_upper word ≡ to_upper name
unfolding to_upper
to_upper-Spells [] [] h = refl
to_upper-Spells [] (d ∷ word) h = absurd h
to_upper-Spells (c ∷ name) [] h = absurd h
to_upper-Spells (c ∷ name) (d ∷ word) h =
    ap (λ x. x ∷ to_upper word) (upper_byte-IsCaseOf c d h.0)
    ∙ ap (λ rest. upper_byte c ∷ rest) (to_upper-Spells name word h.1)

abbrev IsUpper : Bytes → Type 0
IsUpper name = to_upper name ≡ name

chosen :
    (name : Bytes) (b : Bool) (command : Command) (o : Option Command)
    → (b ≡ true → IsUpper name)
    → (o ≢ none → IsUpper name)
    → choose b command o ≢ none
    → IsUpper name
unfolding choose
chosen name true command o h k known = h refl
chosen name false command o h k known = k known

tested : (name word : Bytes) → IsUpper word → bytes_eq name word ≡ true → IsUpper name
tested name word h e = subst IsUpper (sym ((bytes_eq_iff name word).0 e)) h

-- The names that are compared with are in upper case.
handler-IsUpper : (name : Bytes) → handler name ≢ none → IsUpper name
unfolding handler to_upper
handler-IsUpper name = chosen name _ _ _ (tested name (codes "PING") refl) (
    chosen name _ _ _ (tested name (codes "DEL") refl) (
      chosen name _ _ _ (tested name (codes "EXPIRE") refl) (
        chosen name _ _ _ (tested name (codes "TTL") refl) (
          chosen name _ _ _ (tested name (codes "SET") refl) (
            chosen name _ _ _ (tested name (codes "GET") refl) (
              chosen name _ _ _
                (λ e. one_of_two IsUpper name (codes "LPUSH") (codes "RPUSH") e refl refl)
                (chosen name _ _ _
                  (λ e. one_of_two IsUpper name (codes "LPOP") (codes "RPOP") e refl refl)
                  (chosen name _ _ _ (tested name (codes "LLEN") refl) (
                    chosen name _ _ _ (tested name (codes "LRANGE") refl) (
                      chosen name _ _ _ (tested name (codes "HSET") refl) (
                        chosen name _ _ _ (tested name (codes "HGET") refl) (
                          chosen name _ _ _ (tested name (codes "HDEL") refl) (
                            chosen name _ _ _ (tested name (codes "HEXISTS") refl) (
                              chosen name _ _ _ (tested name (codes "HLEN") refl) (
                                chosen name _ _ _ (tested name (codes "SADD") refl) (
                                  chosen name _ _ _ (tested name (codes "SREM") refl) (
                                    chosen name _ _ _ (tested name (codes "SISMEMBER") refl) (
                                      chosen name _ _ _ (tested name (codes "SCARD") refl) (
                                        chosen name _ _ _ (tested name (codes "SMEMBERS") refl)
                                          (λ known. absurd (known refl)))))))))))))))))))))

-- The name of a command that the server knows may be written with any of its letters in lower case:
-- a request whose name is such a spelling is executed as the request with the name itself, with the
-- same elements behind it, whether or not these are bulk strings: the reply is the same, and so are
-- the store and the log that are left.
pub execute_command-Spells :
    (name word : Bytes) (times : Times) (db : Db) (elements : Elements)
    → handler name ≢ none
    → Spells name word
    → execute_command times db (make_array (cons (make_bulk_string word) elements))
      ≡ execute_command times db (make_array (cons (make_bulk_string name) elements))
unfolding execute_command
execute_command-Spells name word times db elements known spelled =
    let same = to_upper-Spells name word spelled in
    let upper = handler-IsUpper name known in
    same_words word name times db (texts_of elements) same
      λ e. known (ap handler (sym upper ∙ sym same) ∙ e)

pub texts_of-make_bulk_string :
    (words : List Bytes) → texts_of (to_elements (map make_bulk_string words)) ≡ some words
texts_of-make_bulk_string [] = refl
texts_of-make_bulk_string (word ∷ words) = ap (also (some word)) (texts_of-make_bulk_string words)

-- The command that a list of bulk strings runs.
pub execute-named :
    (times : Times) (db : Db) (word name : Bytes) (arguments : List Bytes) (command : Command)
    → to_upper word ≡ name
    → handler name ≡ some command
    → execute_command times db (make_array (to_elements (map make_bulk_string (word ∷ arguments))))
      ≡ command times db arguments
unfolding execute_command
execute-named times db word name arguments command e h =
    ap (λ o. execute_words times db (also (some word) o)) (texts_of-make_bulk_string arguments)
    ∙ ap (λ o. dispatch word o times db arguments) (ap handler e ∙ h)
