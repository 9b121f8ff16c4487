-- ===== src/Tests/Keys.antt =====
-- Requests to `execute_command` of src/commands.cpp on a store with a list, a hash and a set.
use redis_lite_cpp.Common.{◌≢◌, inl, inr, [], ◌∷◌, true, none, some, ◌≡◌, refl, pos, negsuc, arith}
use redis_lite_cpp.Text.{Bytes, codes, bytes_eq}
use redis_lite_cpp.Decimal.{to_integer}
use redis_lite_cpp.Dict.{find, put, has_key}
use redis_lite_cpp.Store.{empty_store, expire_if_due, write_typed, store_value}
use redis_lite_cpp.Store.Valid.{IsValid, empty_store-IsValid}
use redis_lite_cpp.Store.View.{view}
use redis_lite_cpp.Resp.Value.{RespValue, make_integer, make_bulk_string}
use redis_lite_cpp.Replay.Loop.{as_request}
use redis_lite_cpp.Commands.Base.{Db, Times, to_upper}
use redis_lite_cpp.Commands.Spec.{Meets, lrange_spec}
use redis_lite_cpp.Commands.General.{expire, ttl}
use redis_lite_cpp.Commands.General.Deadlines.{ttl-expire, view-expire}
use redis_lite_cpp.Commands.Execute.{handler}
use redis_lite_cpp.Commands.Execute.Meets.{on_lrange, execute-Meets}
use redis_lite_cpp.Resp.Value.{to_elements}
use redis_lite_cpp.Common.{map}
use redis_lite_cpp.Commands.Execute.Meets.{on_lpush}
use redis_lite_cpp.Commands.Execute.Effects.{key_of_words}
use redis_lite_cpp.Commands.Execute.{words_of}
use redis_lite_cpp.Commands.Execute.Kinds.{SameKind, execute-SameKind}
use redis_lite_cpp.Commands.Execute.Errors.{execute-Spared}
use redis_lite_cpp.Commands.Execute.Spares.{IsError, Spared}
use redis_lite_cpp.Commands.Hashes.{hlen}
use redis_lite_cpp.Store.{read_typed}
use redis_lite_cpp.Commands.Execute.Meets.{on_lpop}
use redis_lite_cpp.Commands.Execute.Carried.{FitsWire}
use redis_lite_cpp.Commands.Execute.Replies.{reply-parsed}
use redis_lite_cpp.Store.{Value, list_value}
use redis_lite_cpp.Resp.Entry.{parse, ok}
use redis_lite_cpp.Resp.Serialize.{serialize}
use redis_lite_cpp.Common.{length, subst, ◌∙◌, ◌++◌}
use mathlib.Core.Option.{some_inj}
use redis_lite_cpp.Commands.Execute.{unknown_command}
use redis_lite_cpp.Commands.Execute.Unknown.{unknown-parsed}
use redis_lite_cpp.Common.{◌↔◌}
use redis_lite_cpp.Decimal.{IsLine}
use redis_lite_cpp.Commands.Execute.Names.{execute_command-Spells}
use redis_lite_cpp.Resp.Value.{Elements, cons, nil, make_array}
use redis_lite_cpp.Commands.Strings.{set, get}
use redis_lite_cpp.Commands.Strings.Meets.{get-set}
use redis_lite_cpp.Commands.Lists.{push}
use redis_lite_cpp.Commands.Execute.{execute_command}
use redis_lite_cpp.Commands.Execute.Effects.{execute-IsValid, execute-SameElsewhere}

abbrev early : Times
early = record { now = 5; later = 6; unix = 1_700_000_000 }

-- Half a second later.
abbrev soon : Times
soon = record { now = 500_000_005; later = 500_000_006; unix = 1_700_000_000 }

abbrev fresh : Db
fresh = record { store = empty_store; log = some [] }

abbrev key : Bytes
key = codes "k"

abbrev other : Bytes
other = codes "o"

abbrev rpush_a : RespValue
rpush_a = as_request (codes "rpush" ∷ key ∷ codes "a" ∷ [])

abbrev with_list : Db
with_list = (execute_command early fresh rpush_a).1

-- The store with a list is valid.
execute-IsValid_example : IsValid (execute_command early fresh rpush_a).1.store
execute-IsValid_example = execute-IsValid early fresh rpush_a empty_store-IsValid

with_list-IsValid : IsValid with_list.store
with_list-IsValid = execute-IsValid early fresh rpush_a empty_store-IsValid

abbrev hset_f : RespValue
hset_f = as_request (codes "HSET" ∷ key ∷ codes "f" ∷ codes "1" ∷ [])

abbrev with_hash : Db
with_hash = (execute_command early fresh hset_f).1

with_hash-IsValid : IsValid with_hash.store
with_hash-IsValid = execute-IsValid early fresh hset_f empty_store-IsValid

abbrev sadd_m : RespValue
sadd_m = as_request (codes "sAdd" ∷ key ∷ codes "m" ∷ [])

abbrev with_set : Db
with_set = (execute_command early fresh sadd_m).1

with_set-IsValid : IsValid with_set.store
with_set-IsValid = execute-IsValid early fresh sadd_m empty_store-IsValid

-- The list is left by a request for another key.
execute-SameElsewhere_example :
    (find key
        (execute_command soon with_list (as_request (codes "DEL" ∷ other ∷ []))).1.store.values
      ≡ find key with_list.store.values)
    × (find key
          (execute_command soon with_list
            (as_request (codes "DEL" ∷ other ∷ []))).1.store.expirations
        ≡ find key with_list.store.expirations)
unfolding as_request
execute-SameElsewhere_example =
    execute-SameElsewhere soon with_list (as_request (codes "DEL" ∷ other ∷ [])) key
      λ e. ground arith

minus_one : to_integer (codes "-1") ≡ some (negsuc 0)
unfolding to_integer
minus_one = refl

-- The range from 0 to the last element.
execute-Meets_example :
    Meets soon with_list key
      (execute_command soon with_list (
        make_array (
          to_elements (map make_bulk_string (codes "lrange" ∷ key ∷ codes "0" ∷ codes "-1" ∷ [])))))
      (lrange_spec (pos 0) (negsuc 0))
unfolding to_integer to_upper
execute-Meets_example =
    execute-Meets soon with_list (codes "lrange") with_list-IsValid refl
      (on_lrange key (codes "0") (codes "-1") (pos 0) (negsuc 0) refl minus_one)

get-set_example :
    (find key (set soon with_list (key ∷ codes "v" ∷ [])).1.store.expirations ≡ none)
    × ((get soon (set soon with_list (key ∷ codes "v" ∷ [])).1 (key ∷ [])).0
        ≡ make_bulk_string (codes "v"))
get-set_example = get-set soon soon with_list key (codes "v")

ten : to_integer (codes "10") ≡ some (pos 10)
unfolding to_integer
ten = refl

held : has_key key (expire_if_due early.later key with_list.store).values ≡ true
unfolding execute_command find expire_if_due as_request bytes_eq to_upper push write_typed
    store_value put
held = refl

ttl-expire_example :
    ((expire early with_list (key ∷ codes "10" ∷ [])).0 ≡ make_integer (pos 1))
    × ((ttl soon (expire early with_list (key ∷ codes "10" ∷ [])).1 (key ∷ [])).0
        ≡ make_integer (pos 10))
ttl-expire_example =
    ttl-expire early soon with_list key (codes "10") (pos 10) 500_000_000 500_000_001 ten refl held
      (omega arith) (omega arith) refl refl

-- A negative number of seconds.
view-expire_example :
    ((expire early with_list (key ∷ codes "-1" ∷ [])).0 ≡ make_integer (pos 1))
    × (view 10_000_000_005 key (expire early with_list (key ∷ codes "-1" ∷ [])).1.store ≡ none)
view-expire_example =
    view-expire early with_list key (codes "-1") (negsuc 0) 10_000_000_005 minus_one refl held

known : handler (codes "LLEN") ≢ none
unfolding execute_command bytes_eq
known e = cc

abbrev key_element : Elements
key_element = cons (make_bulk_string key) nil

-- The first letter is in lower case, the others in upper case.
execute_command-Spells_example :
    execute_command soon with_list (make_array (cons (make_bulk_string (codes "lLEN")) key_element))
    ≡ execute_command soon with_list
        (make_array (cons (make_bulk_string (codes "LLEN")) key_element))
execute_command-Spells_example =
    execute_command-Spells (codes "LLEN") (codes "lLEN") soon with_list key_element known
      (inr (omega arith, omega arith, refl), (inl refl, (inl refl, (inl refl, tt))))

wrong : IsError (execute_command soon with_list (as_request (codes "HLEN" ∷ key ∷ []))).0
unfolding execute_command as_request bytes_eq to_upper hlen read_typed find expire_if_due push
    write_typed store_value put
wrong = tt

execute-Spared_example :
    Spared soon.now
      (key_of_words (words_of (as_request (codes "HLEN" ∷ key ∷ []))))
      with_list
      (execute_command soon with_list (as_request (codes "HLEN" ∷ key ∷ []))).1
execute-Spared_example = execute-Spared soon with_list (as_request (codes "HLEN" ∷ key ∷ [])) wrong

not_set : codes "LPUSH" ≢ codes "SET"
not_set e = cc

execute-SameKind_example : SameKind (view soon.now key with_list.store) (
    find key
      (execute_command soon with_list (
        make_array (
          to_elements
            (map make_bulk_string (codes "lpush" ∷ key ∷ codes "b" ∷ []))))).1.store.values)
unfolding to_upper
execute-SameKind_example =
    execute-SameKind soon with_list (codes "lpush") with_list-IsValid refl
      (on_lpush key (codes "b")) not_set

live_list : some (list_value (codes "a" ∷ [])) ≡ view soon.now key with_list.store
unfolding execute_command find expire_if_due as_request bytes_eq to_upper push write_typed
    store_value put view
live_list = refl

list_fits : (value : Value) → view soon.now key with_list.store ≡ some value → FitsWire value
list_fits value e = subst FitsWire (some_inj.0 (live_list ∙ e)) (omega arith, (omega arith, tt))

-- The reply to LPOP, with another behind it.
reply-parsed_example :
    parse (
      serialize
        (execute_command soon with_list
          (make_array (to_elements (map make_bulk_string (codes "lpop" ∷ key ∷ []))))).0
      ++ codes ":1\r\n")
    ≡ ok
        (execute_command soon with_list
          (make_array (to_elements (map make_bulk_string (codes "lpop" ∷ key ∷ []))))).0
        (length (
          serialize
            (execute_command soon with_list
              (make_array (to_elements (map make_bulk_string (codes "lpop" ∷ key ∷ []))))).0))
unfolding to_upper
reply-parsed_example =
    reply-parsed soon with_list (codes "lpop") (codes ":1\r\n") with_list-IsValid refl (on_lpop key)
      list_fits

unheard : handler (to_upper (codes "FOO\n")) ≡ none
unfolding to_upper execute_command bytes_eq
unheard = refl

unknown-parsed_example :
    ((execute_command soon with_list
        (make_array (to_elements (map make_bulk_string (codes "FOO\n" ∷ []))))).0
      ≡ unknown_command (codes "FOO\n"))
    × ((parse (serialize (unknown_command (codes "FOO\n")) ++ [])
          ≡ ok
              (unknown_command (codes "FOO\n"))
              (length (serialize (unknown_command (codes "FOO\n")))))
        ↔ IsLine (codes "FOO\n"))
unknown-parsed_example = unknown-parsed soon with_list (codes "FOO\n") [] [] unheard
