-- ===== src/Commands/Strings/Meets.antt =====
-- SET and GET of src/commands.cpp, and deadlines.
use redis_lite_cpp.Common.{ℕ, [], ◌∷◌, Option, none, some, ◌≡◌, refl, ap, ◌∙◌, arith}
use redis_lite_cpp.Text.{Bytes, bytes_eq_refl}
use redis_lite_cpp.Dict.{find}
use redis_lite_cpp.Dict.Laws.{find-put, find-erase}
use redis_lite_cpp.Store.{
  Value, string_value, Store, string_kind, typed, read_typed, expire_if_due, replace_value,
}
use redis_lite_cpp.Store.View.{view}
use redis_lite_cpp.Resp.Value.{make_bulk_string}
use redis_lite_cpp.Commands.Base.{Db, Times}
use redis_lite_cpp.Commands.Spec.{Leaves, Meets, get_spec, set_spec}
use redis_lite_cpp.Commands.Strings.{set, get_reply, get}

get-Leaves :
    (db : Db) (key : Bytes) (live : Store) (o : Option Value)
    → find key live.values ≡ o
    → Leaves key (get_reply (typed string_kind o), record db { store = live }) (get_spec o)
get-Leaves db key live none e = (refl, e)
get-Leaves db key live (some (string_value s)) e = (refl, e)
get-Leaves db key live (some v) e = (refl, e)

-- GET replies the string that is live at the clock reading, null for a missing key, or the
-- wrong-type error, and leaves the live value.
pub get-Meets :
    (times : Times) (db : Db) (key : Bytes) → Meets times db key (get times db (key ∷ [])) get_spec
unfolding get read_typed view
get-Meets times db key =
    get-Leaves db key (expire_if_due times.now key db.store)
      (find key (expire_if_due times.now key db.store).values) refl

find-replace_value :
    (key value : Bytes) (s : Store)
    → (find key (replace_value key value s).values ≡ some (string_value value))
      × (find key (replace_value key value s).expirations ≡ none)
unfolding replace_value
find-replace_value key value s = (
  ground (arith, find-put key key (string_value value) s.values, bytes_eq_refl key),
  ground (arith, find-erase key key s.expirations, bytes_eq_refl key),
)

pub set-Meets :
    (times : Times) (db : Db) (key value : Bytes)
    → Meets times db key (set times db (key ∷ value ∷ [])) (set_spec value)
unfolding set
set-Meets times db key value = (refl, (find-replace_value key value db.store).0)

pub not_due :
    (now : ℕ) (key : Bytes) (s : Store)
    → find key s.expirations ≡ none
    → expire_if_due now key s ≡ s
unfolding expire_if_due
not_due now key s h = ground arith

view_undated :
    (now : ℕ) (key : Bytes) (s : Store)
    → find key s.expirations ≡ none
    → view now key s ≡ find key s.values
unfolding view
view_undated now key s h = ap (λ u. find key u.values) (not_due now key s h)

-- After SET, whatever the key held and whenever it is read, the key holds the string and has no
-- deadline, and GET replies the string.
pub get-set :
    (times times' : Times) (db : Db) (key value : Bytes)
    → (find key (set times db (key ∷ value ∷ [])).1.store.expirations ≡ none)
      × ((get times' (set times db (key ∷ value ∷ [])).1 (key ∷ [])).0 ≡ make_bulk_string value)
unfolding set
get-set times times' db key value =
    let (there, free) = find-replace_value key value db.store in
    (
      free,
      (get-Meets times' (set times db (key ∷ value ∷ [])).1 key).0
          ∙ ap (λ o. (get_spec o).0) (view_undated times'.now key _ free ∙ there),
    )
