-- ===== src/Dict/Members.antt =====
-- The members of a set after each operation.
use redis_lite_cpp.Common.{
  suc, [], ◌∷◌, List, true, false, ◌≡◌, refl, inl, inr, arith, if◌then◌else◌, Bool-cases, length,
}
use redis_lite_cpp.Text.{Bytes, bytes_eq, bytes_eq_iff}
use redis_lite_cpp.Dict.{member, insert, remove}

pub member-insert :
    (k j : Bytes) (s : List Bytes)
    → member j (insert k s) ≡ (if bytes_eq k j then true else member j s)
unfolding member insert
member-insert k j [] = refl
member-insert k j (i ∷ s) =
    ground (arith, bytes_eq_iff k j, bytes_eq_iff i k, bytes_eq_iff i j, member-insert k j s)

pub member-remove :
    (k j : Bytes) (s : List Bytes)
    → member j (remove k s) ≡ (if bytes_eq k j then false else member j s)
unfolding member remove
member-remove k j [] = ground arith
member-remove k j (i ∷ s) =
    ground (arith, bytes_eq_iff k j, bytes_eq_iff i k, bytes_eq_iff i j, member-remove k j s)

-- No member stands twice.
abbrev pub IsSetOf : List Bytes → Type 0
IsSetOf [] = Unit
IsSetOf (k ∷ s) = (member k s ≡ false) × IsSetOf s

pub insert-IsSetOf : (k : Bytes) (s : List Bytes) → IsSetOf s → IsSetOf (insert k s)
unfolding insert
insert-IsSetOf k [] h = (unfold member in refl, tt)
insert-IsSetOf k (j ∷ s) h = elim (Bool-cases (bytes_eq j k)) [
  | inl e ↦ rw (e, IsSetOf) h
  | inr e ↦
      rw (e, IsSetOf)
        (
          ground (arith, member-insert k j s, bytes_eq_iff k j, bytes_eq_iff j k),
          insert-IsSetOf k s h.1,
        )
]

pub remove-IsSetOf : (k : Bytes) (s : List Bytes) → IsSetOf s → IsSetOf (remove k s)
unfolding remove
remove-IsSetOf k [] h = tt
remove-IsSetOf k (j ∷ s) h = elim (Bool-cases (bytes_eq j k)) [
  | inl e ↦ rw (e, IsSetOf) (remove-IsSetOf k s h.1)
  | inr e ↦ rw (e, IsSetOf) (ground (arith, member-remove k j s), remove-IsSetOf k s h.1)
]

pub length-insert :
    (k : Bytes) (s : List Bytes)
    → length (insert k s) ≡ (if member k s then length s else suc (length s))
unfolding insert member
length-insert k [] = refl
length-insert k (j ∷ s) = ground (arith, length-insert k s)

pub insert-member : (k : Bytes) (s : List Bytes) → member k s ≡ true → insert k s ≡ s
unfolding member insert
insert-member k [] h = cc
insert-member k (j ∷ s) h = ground (arith, insert-member k s)

pub remove_not_member : (k : Bytes) (s : List Bytes) → member k s ≡ false → remove k s ≡ s
unfolding member remove
remove_not_member k [] h = refl
remove_not_member k (j ∷ s) h = ground (arith, remove_not_member k s)
