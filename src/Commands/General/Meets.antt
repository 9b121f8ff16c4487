-- ===== src/Commands/General/Meets.antt =====
-- DEL of src/commands.cpp against its specification.
use redis_lite_cpp.Common.{[], ◌∷◌, Bool, true, false, ◌≡◌, refl, ap, pos, if◌then◌else◌}
use redis_lite_cpp.Text.{Bytes}
use redis_lite_cpp.Dict.{has_key}
use redis_lite_cpp.Store.{expire_if_due}
use redis_lite_cpp.Store.View.{view, find-remove_key}
use redis_lite_cpp.Resp.Value.{make_integer}
use redis_lite_cpp.Commands.Base.{Db, Times, flag}
use redis_lite_cpp.Commands.Spec.{Meets, del_spec}
use redis_lite_cpp.Commands.General.{del}

flag_eq : (b : Bool) → flag b ≡ (if b then pos 1 else pos 0)
flag_eq true = refl
flag_eq false = refl

-- DEL replies 1 where the key has a value that is live at the clock reading and 0 otherwise, and
-- afterwards the key is missing.
pub del-Meets :
    (times : Times) (db : Db) (key : Bytes) → Meets times db key (del times db (key ∷ [])) del_spec
unfolding del view
del-Meets times db key = (
  ap make_integer (flag_eq (has_key key (expire_if_due times.now key db.store).values)),
  find-remove_key key (expire_if_due times.now key db.store),
)
