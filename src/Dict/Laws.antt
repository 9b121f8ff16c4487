-- ===== src/Dict/Laws.antt =====
-- What a lookup finds after each operation of a dictionary, and that its keys stay distinct.
use redis_lite_cpp.Common.{
  suc, [], ◌∷◌, false, none, some, ◌≡◌, refl, subst, inl, inr, arith, if◌then◌else◌, Bool-cases,
  length,
}
use redis_lite_cpp.Text.{Bytes, bytes_eq, bytes_eq_iff, bytes_eq_refl}
use redis_lite_cpp.Dict.{Dict, find, put, erase, has_key}

module _ {ℓ} {V : Type ℓ} where
  pub find-put :
      (k j : Bytes) (v : V) (d : Dict V)
      → find j (put k v d) ≡ (if bytes_eq k j then some v else find j d)
  unfolding find put
  find-put k j v [] = refl
  find-put k j v ((i, w) ∷ d) =
      ground (arith, bytes_eq_iff k j, bytes_eq_iff i k, bytes_eq_iff i j, find-put k j v d)

  pub find-erase :
      (k j : Bytes) (d : Dict V) → find j (erase k d) ≡ (if bytes_eq k j then none else find j d)
  unfolding find erase
  find-erase k j [] = ground arith
  find-erase k j ((i, w) ∷ d) =
      ground (arith, bytes_eq_iff k j, bytes_eq_iff i k, bytes_eq_iff i j, find-erase k j d)

  -- No key stands twice.
  abbrev pub IsDistinct : Dict V → Type 0
  IsDistinct [] = Unit
  IsDistinct ((k, v) ∷ d) = (has_key k d ≡ false) × IsDistinct d

  pub put-IsDistinct : (k : Bytes) (v : V) (d : Dict V) → IsDistinct d → IsDistinct (put k v d)
  unfolding put
  put-IsDistinct k v [] h = (unfold find in refl, tt)
  put-IsDistinct k v ((j, w) ∷ d) h = elim (Bool-cases (bytes_eq j k)) [
    | inl e ↦
        rw (e, IsDistinct) (subst (λ x. has_key x d ≡ false) ((bytes_eq_iff j k).0 e) h.0, h.1)
    | inr e ↦
        rw (e, IsDistinct)
          (
            ground (arith, find-put k j v d, bytes_eq_iff k j, bytes_eq_iff j k),
            put-IsDistinct k v d h.1,
          )
  ]

  pub erase-IsDistinct : (k : Bytes) (d : Dict V) → IsDistinct d → IsDistinct (erase k d)
  unfolding erase
  erase-IsDistinct k [] h = tt
  erase-IsDistinct k ((j, w) ∷ d) h = elim (Bool-cases (bytes_eq j k)) [
    | inl e ↦ rw (e, IsDistinct) (erase-IsDistinct k d h.1)
    | inr e ↦ rw (e, IsDistinct) (ground (arith, find-erase k j d), erase-IsDistinct k d h.1)
  ]

  pub length-put :
      (k : Bytes) (v : V) (d : Dict V)
      → length (put k v d) ≡ (if has_key k d then length d else suc (length d))
  unfolding put find
  length-put k v [] = refl
  length-put k v ((j, w) ∷ d) = ground (arith, length-put k v d)

  pub length-erase :
      (k : Bytes) (d : Dict V)
      → IsDistinct d
      → length d ≡ (if has_key k d then suc (length (erase k d)) else length (erase k d))
  unfolding erase find
  length-erase k [] h = refl
  length-erase k ((j, w) ∷ d) h = ground (arith, length-erase k d h.1, bytes_eq_iff j k)

  pub put_self : (k : Bytes) (v : V) (d : Dict V) → find k d ≡ some v → put k v d ≡ d
  unfolding find put
  put_self k v [] h = cc
  put_self k v ((j, w) ∷ d) h = ground (arith, put_self k v d, bytes_eq_iff j k)

  pub erase-none : (k : Bytes) (d : Dict V) → find k d ≡ none → erase k d ≡ d
  unfolding find erase
  erase-none k [] h = refl
  erase-none k ((j, w) ∷ d) h = ground (arith, erase-none k d)

  pub none_of_has_key : (k : Bytes) (d : Dict V) → has_key k d ≡ false → find k d ≡ none
  none_of_has_key k d h = ground arith

  pub put-put : (k : Bytes) (v w : V) (d : Dict V) → put k w (put k v d) ≡ put k w d
  unfolding put
  put-put k v w [] = ground (arith, bytes_eq_refl k)
  put-put k v w ((j, u) ∷ d) = ground (arith, bytes_eq_refl k, put-put k v w d)

  pub erase-put : (k : Bytes) (v : V) (d : Dict V) → erase k (put k v d) ≡ erase k d
  unfolding put erase
  erase-put k v [] = ground (arith, bytes_eq_refl k)
  erase-put k v ((j, u) ∷ d) = ground (arith, bytes_eq_refl k, erase-put k v d)

pub ruleset dict_laws = (find-put, find-erase)
