-- ===== src/Commands/Strings/Effects.antt =====
-- What SET and GET of src/commands.cpp do to the store.
use redis_lite_cpp.Common.{[], ◌∷◌, refl}
use redis_lite_cpp.Store.{read_typed}
use redis_lite_cpp.Store.Effect.{untouched, expired, replaced}
use redis_lite_cpp.Commands.Base.{HasEffect}
use redis_lite_cpp.Commands.Strings.{set, get}

pub set-HasEffect : HasEffect set
unfolding set
set-HasEffect times db [] = untouched refl
set-HasEffect times db (key ∷ []) = untouched refl
set-HasEffect times db (key ∷ value ∷ []) = replaced value refl
set-HasEffect times db (key ∷ value ∷ a ∷ rest) = untouched refl

pub get-HasEffect : HasEffect get
unfolding get read_typed
get-HasEffect times db [] = untouched refl
get-HasEffect times db (key ∷ []) = expired times.now refl
get-HasEffect times db (key ∷ a ∷ rest) = untouched refl
