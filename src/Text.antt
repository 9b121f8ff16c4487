-- ===== src/Text.antt =====
-- The bytes of `std::string` and `std::string_view`, and their comparison.
use Prim.Native.Char.{code}
use redis_lite_cpp.Common.{
  ◌||◌, subst, sym, ap, ◌∙◌, inl, inr, Bool-cases, ℕ, String, List, [], ◌∷◌, Bool, true, false,
  ◌&&◌, ◌≡◌, refl, ◌↔◌, arith, ◌==◌,
}

abbrev pub Bytes : Type 0
Bytes = List ℕ

-- The bytes of a literal; the program's literals are ASCII.
abbrev pub codes : String → Bytes
codes String.[] = []
codes (String.◌∷◌ c s) = code c ∷ codes s

-- `==` on strings.
unfoldable pub bytes_eq : Bytes → Bytes → Bool
bytes_eq [] [] = true
bytes_eq (a ∷ s) (b ∷ t) = (a == b) && bytes_eq s t
bytes_eq _ _ = false

pub bytes_eq_iff : (s t : Bytes) → (bytes_eq s t ≡ true) ↔ (s ≡ t)
unfolding bytes_eq
bytes_eq_iff [] [] = (λ _. refl, λ _. refl)
bytes_eq_iff [] (b ∷ t) = (λ h. cc, λ h. cc)
bytes_eq_iff (a ∷ s) [] = (λ h. cc, λ h. cc)
bytes_eq_iff (a ∷ s) (b ∷ t) =
    (λ h. ground (arith, bytes_eq_iff s t), λ h. ground (arith, bytes_eq_iff s t))

pub bytes_eq_refl : (s : Bytes) → bytes_eq s s ≡ true
bytes_eq_refl s = (bytes_eq_iff s s).1 refl

-- A text that passes one of two tests is one of two texts.
pub one_of_two {ℓ} :
    (P : Bytes → Type ℓ) (s a b : Bytes) → (bytes_eq s a || bytes_eq s b) ≡ true → P a → P b → P s
one_of_two P s a b h pa pb = elim (Bool-cases (bytes_eq s a)) [
  | inl e ↦ subst P (sym ((bytes_eq_iff s a).0 e)) pa
  | inr e ↦ subst P (sym ((bytes_eq_iff s b).0 (sym (ap (λ x. x || bytes_eq s b) e) ∙ h))) pb
]
