-- ===== src/Generation/Marks.antt =====
-- The loop that spends what a proportional share leaves over, of `distribute_marks` and of
-- `normalize_targets` in testpaper_backend/services/paper_generation.py, on lists of numbers.
pub mod Cycle
pub mod Balance
use test_paper_backend.Base.{
  ℕ, zero, suc, ◌+◌, ◌-◌, ◌%◌, Bool, true, false, List, [], ◌∷◌, length, ltb, leb, if◌then◌else◌,
}

abbrev pub sum : List ℕ → ℕ
sum [] = 0
sum (x ∷ xs) = x + sum xs

-- `xs[i]`, for an index that is in the list.
abbrev pub get : List ℕ → ℕ → ℕ
get [] i = 0
get (x ∷ xs) zero = x
get (x ∷ xs) (suc i) = get xs i

-- `xs[i] = f(xs[i])`
abbrev pub set : (ℕ → ℕ) → List ℕ → ℕ → List ℕ
set f [] i = []
set f (x ∷ xs) zero = f x ∷ xs
set f (x ∷ xs) (suc i) = x ∷ set f xs i

-- An integer: `pos n` is n, and `negsuc n` is -(n + 1).
pub data ℤ : Type 0 where
  pos negsuc : ℕ → ℤ

-- `a - b`
unfoldable pub difference : ℕ → ℕ → ℤ
difference a b = if leb b a then pos (a - b) else negsuc (b - suc a)

abbrev pub is_zero : ℤ → Bool
is_zero (pos zero) = true
is_zero _ = false

abbrev pub is_positive : ℤ → Bool
is_positive (pos (suc n)) = true
is_positive _ = false

abbrev pub increased : ℤ → ℤ
increased (pos n) = pos (suc n)
increased (negsuc zero) = pos 0
increased (negsuc (suc n)) = negsuc n

abbrev pub decreased : ℤ → ℤ
decreased (pos zero) = negsuc 0
decreased (pos (suc n)) = pos n
decreased (negsuc n) = negsuc (suc n)

-- One turn of the loop on the place `i`: it gives where something is left, and takes where too much is
-- spent and the place has more than the least.
unfoldable pub give_or_take : ℕ → ℕ → List ℕ × ℤ → List ℕ × ℤ
give_or_take least i (marks, remaining) =
    if is_positive remaining
    then (set suc marks i, decreased remaining)
    else if ltb least (get marks i)
    then (set (λ x. x - 1) marks i, increased remaining)
    else (marks, remaining)

-- `while remaining != 0 and ...`, for at most `fuel` turns, on the places of `ranked` in a circle.
unfoldable pub balance : ℕ → List ℕ → ℕ → ℕ → List ℕ × ℤ → List ℕ × ℤ
unfolding give_or_take
balance least ranked zero index state = state
balance least ranked (suc fuel) index state =
    let next =
      balance least ranked fuel (suc index)
        (give_or_take least (get ranked (index % length ranked)) state) in
    if is_zero state.1 then state else next
