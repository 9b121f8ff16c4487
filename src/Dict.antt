-- ===== src/Dict.antt =====
-- `std::unordered_map` with string keys, and `std::unordered_set` of strings, as src/commands.hpp
-- uses them. The order of entries, which the language leaves open, is that of a list here.
pub mod Laws
pub mod Members
use redis_lite_cpp.Common.{ℕ, [], ◌∷◌, List, Bool, true, false, Option, none, some, if◌then◌else◌}
use redis_lite_cpp.Text.{Bytes, bytes_eq}

abbrev pub Dict {ℓ} : Type ℓ → Type ℓ
Dict V = List (Bytes × V)

module _ {ℓ} {V : Type ℓ} where
  -- `find(key)`
  unfoldable pub find : Bytes → Dict V → Option V
  find k [] = none
  find k ((j, v) ∷ d) = if bytes_eq j k then some v else find k d

  -- `d[key] = value`
  unfoldable pub put : Bytes → V → Dict V → Dict V
  put k v [] = (k, v) ∷ []
  put k v ((j, w) ∷ d) = if bytes_eq j k then (k, v) ∷ d else (j, w) ∷ put k v d

  -- `erase(key)`
  unfoldable pub erase : Bytes → Dict V → Dict V
  erase k [] = []
  erase k ((j, v) ∷ d) = let rest = erase k d in if bytes_eq j k then rest else (j, v) ∷ rest

abbrev pub is_some {ℓ} : {A : Type ℓ} → Option A → Bool
is_some none = false
is_some (some a) = true

-- `count(key) > 0`
abbrev pub has_key {ℓ} : {V : Type ℓ} → Bytes → Dict V → Bool
has_key k d = is_some (find k d)

-- `count(member) > 0` of a set
unfoldable pub member : Bytes → List Bytes → Bool
member k [] = false
member k (j ∷ s) = if bytes_eq j k then true else member k s

-- `insert(member)`, which adds a member that is not there.
unfoldable pub insert : Bytes → List Bytes → List Bytes
insert k [] = k ∷ []
insert k (j ∷ s) = if bytes_eq j k then j ∷ s else j ∷ insert k s

-- `erase(member)`
unfoldable pub remove : Bytes → List Bytes → List Bytes
remove k [] = []
remove k (j ∷ s) = let rest = remove k s in if bytes_eq j k then rest else j ∷ rest
