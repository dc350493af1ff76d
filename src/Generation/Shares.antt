-- ===== src/Generation/Shares.antt =====
-- `distribute_marks` and `normalize_targets` of testpaper_backend/services/paper_generation.py, with the
-- functions of the built-in `float` that they call as parameters.
pub mod Ranked
pub mod Exact
use test_paper_backend.Base.{
  ℕ, zero, suc, ◌+◌, ◌-◌, ◌*◌, max, Bool, true, false, Option, none, some, List, [], ◌∷◌, map,
  length, ltb, ◌==◌, ◌||◌, if◌then◌else◌,
}
use test_paper_backend.Generation.Marks.{sum, ℤ, difference, is_positive, balance}

-- The arithmetic of `float` on a type `R`: `max(0.01, w)`, `sum(ws) or 1.0`, `max(1, n * w / t)`, `int(x)`
-- of a number that is one or more, and `a - int(a) < b - int(b)`.
pub record FloatOps (R : Type 0) : Type 0 where
  pub weight : R → R
  pub weight_total : List R → R
  pub raw_mark : ℕ → R → R → R
  pub int : R → ℕ
  pub less_fraction : R → R → Bool

module _ {A : Type 0} (before : A → A → Bool) where
  abbrev pub insert_sorted : A → List A → List A
  insert_sorted x [] = x ∷ []
  insert_sorted x (y ∷ ys) = if before y x then y ∷ insert_sorted x ys else x ∷ y ∷ ys

  -- `sorted(...)`: rows that compare equal keep their order.
  unfoldable pub sorted : List A → List A
  sorted [] = []
  sorted (x ∷ xs) = insert_sorted x (sorted xs)

-- `enumerate(xs)` from `i` on
abbrev pub enumerate : {A : Type 0} → ℕ → List A → List (ℕ × A)
enumerate i [] = []
enumerate i (x ∷ xs) = (i, x) ∷ enumerate (suc i) xs

-- The comparison of `sorted(..., key=..., reverse=...)`
abbrev pub ordered : {A : Type 0} → Bool → (A → A → Bool) → ℕ × A → ℕ × A → Bool
ordered false less (_, a) (_, b) = less a b
ordered true less (_, a) (_, b) = less b a

unfoldable pub places : {A : Type 0} → Bool → (A → A → Bool) → List A → List ℕ
unfolding sorted
places reverse less xs = map (λ p. p.0) (sorted (ordered reverse less) (enumerate 0 xs))

module _ {R : Type 0} (ops : FloatOps R) where
  unfoldable pub raw_marks : List R → ℕ → List R
  raw_marks scores total_marks =
      let weights = map ops.weight scores in
      map (λ w. ops.raw_mark total_marks w (ops.weight_total weights)) weights

  -- `max(1, int(value))` of each
  unfoldable pub first_marks : List R → List ℕ
  first_marks raws = map (λ r. max 1 (ops.int r)) raws

  unfoldable pub spread : List R → ℕ → List ℕ
  unfolding first_marks places difference balance
  spread raws total_marks =
      let marks = first_marks raws in
      let remaining = difference total_marks (sum marks) in
      let ranked = places (is_positive remaining) ops.less_fraction raws in
      (balance 1 ranked (max 1 (length ranked * max total_marks (sum marks))) 0
        (marks, remaining)).0

  -- `none` is the `ValueError`.
  unfoldable pub distribute_marks : List R → ℕ → Option (List ℕ)
  unfolding raw_marks spread
  distribute_marks [] total_marks = some []
  distribute_marks (score ∷ scores) total_marks =
      if ltb total_marks (length (score ∷ scores))
      then none
      else some (spread (raw_marks (score ∷ scores) total_marks) total_marks)

-- `{key: question_count if key == first_key else 0 ...}`
abbrev pub first_only : ℕ → List ℕ → List ℕ
first_only count [] = []
first_only count (x ∷ xs) = count ∷ map (λ _. 0) xs

-- The targets in the order of their keys. `rounded n v t` is `round(n * v / t)`, and `fuel` bounds the
-- turns of the loop.
unfoldable pub normalize_targets : (ℕ → ℕ → ℕ → ℕ) → ℕ → List ℕ → ℕ → List ℕ
unfolding places difference balance
normalize_targets rounded fuel [] question_count = []
normalize_targets rounded fuel (x ∷ xs) question_count =
    let targets = x ∷ xs in
    let normalized = map (λ v. rounded question_count v (sum targets)) targets in
    let gap = difference question_count (sum normalized) in
    if sum targets == question_count
    then targets
    else if sum targets == 0
    then first_only question_count targets
    else (balance 0 (places (is_positive gap) ltb targets) fuel 0 (normalized, gap)).0
