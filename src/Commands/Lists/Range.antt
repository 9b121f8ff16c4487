-- ===== src/Commands/Lists/Range.antt =====
-- The loop of LRANGE in src/commands.cpp reads a slice and never an index out of range.
use redis_lite_cpp.Common.{
  ℕ, zero, suc, ◌+◌, ◌-◌, ◌≤◌, ◌<◌, [], ◌∷◌, List, map, some, ◌≡◌, refl, ap, ◌∙◌, arith, inl, inr,
  ◌⊎◌, ℤ, pos, negsuc, pos_part, sub_ℕ, ◌-ℤ◌, length, take, drop, get_elem?,
}
use redis_lite_cpp.Text.{Bytes}
use redis_lite_cpp.Resp.Value.{Elements, cons, to_elements, make_bulk_string}
use redis_lite_cpp.Commands.Base.{absolute_index}
use redis_lite_cpp.Commands.Spec.{lower, upper, slice}
use redis_lite_cpp.Commands.Lists.{range_loop, range_of, rounds_to, max_ℤ, min_ℤ}

drop_step :
    (xs : List Bytes) (i : ℕ)
    → i < length xs
    → (x : Bytes) × (get_elem? xs i ≡ some x) × (drop i xs ≡ x ∷ drop (suc i) xs)
drop_step [] i h = elim h [ ]
drop_step (x ∷ xs) zero h = (x, refl, refl)
drop_step (x ∷ xs) (suc i) h = drop_step xs i (omega arith)

range_loop_step :
    (xs : List Bytes) (i rounds : ℕ) {x : Bytes} {vs : Elements}
    → get_elem? xs i ≡ some x
    → range_loop xs (suc i) rounds ≡ some vs
    → range_loop xs i (suc rounds) ≡ some (cons (make_bulk_string x) vs)
unfolding range_loop
range_loop_step xs i rounds h k = ground arith

range_loop-slice :
    (xs : List Bytes) (i rounds : ℕ)
    → (rounds ≡ 0) ⊎ (i + rounds ≤ length xs)
    → range_loop xs i rounds ≡ some (to_elements (map make_bulk_string (take rounds (drop i xs))))
range_loop-slice xs i zero h = unfold range_loop in refl
range_loop-slice xs i (suc rounds) (inl e) = absurd (omega arith)
range_loop-slice xs i (suc rounds) (inr h) =
    let (x, at, rest) = drop_step xs i (omega arith) in
    rw rest
      (range_loop_step xs i rounds at (range_loop-slice xs (suc i) rounds (inr (omega arith))))

abbrev first : ℕ → ℤ → ℤ
first n start = max_ℤ (pos 0) (absolute_index start (pos n))

abbrev last : ℕ → ℤ → ℤ
last n stop = min_ℤ (pos n -ℤ pos 1) (absolute_index stop (pos n))

first-lower : (n : ℕ) (start : ℤ) → first n start ≡ pos (lower n start)
unfolding absolute_index max_ℤ
first-lower n (pos k) = ground arith
first-lower n (negsuc k) = ground arith

last_pos : (n k : ℕ) → last n (pos k) ≡ sub_ℕ (upper n (pos k)) 1
unfolding absolute_index min_ℤ
last_pos n k = ground arith

last_negsuc : (n k : ℕ) → last n (negsuc k) ≡ sub_ℕ n (suc k)
unfolding absolute_index min_ℤ
last_negsuc n k = ground arith

rounds_sub : (i m j : ℕ) → rounds_to (pos i) (sub_ℕ m (suc j)) ≡ m - j - i
unfolding rounds_to
rounds_sub i m j = ground arith

rounds_eq : (n i : ℕ) (stop : ℤ) → rounds_to (pos i) (last n stop) ≡ upper n stop - i
rounds_eq n i (pos k) = rw (last_pos n k) (rounds_sub i (upper n (pos k)) 0 ∙ omega arith)
rounds_eq n i (negsuc k) = rw (last_negsuc n k) (rounds_sub i n k)

slice_fits :
    (n : ℕ) (start stop : ℤ)
    → (upper n stop - lower n start ≡ 0) ⊎ (lower n start + (upper n stop - lower n start) ≤ n)
slice_fits n start (pos k) = ground arith
slice_fits n start (negsuc k) = omega arith

range_of_lem :
    (xs : List Bytes) (start stop : ℤ)
    → range_of xs start stop
      ≡ range_loop xs
          (pos_part (first (length xs) start))
          (rounds_to (first (length xs) start) (last (length xs) stop))
unfolding range_of
range_of_lem xs start stop = refl

-- The elements that LRANGE replies are the slice of the list, each at an index that is in range.
pub range_of-slice :
    (xs : List Bytes) (start stop : ℤ)
    → range_of xs start stop ≡ some (to_elements (map make_bulk_string (slice xs start stop)))
range_of-slice xs start stop =
    range_of_lem xs start stop
    ∙ ap (λ z. range_loop xs (pos_part z) (rounds_to z (last (length xs) stop)))
        (first-lower (length xs) start)
    ∙ ap (range_loop xs (lower (length xs) start))
        (rounds_eq (length xs) (lower (length xs) start) stop)
    ∙ range_loop-slice xs (lower (length xs) start) _ (slice_fits (length xs) start stop)
