-- ===== src/Generation/Genes.antt =====
-- `crossover_individual` and `mutate_individual` of testpaper_backend/services/paper_generation.py, with
-- what `random.Random` draws as parameters. An individual is a list of question ids.
pub mod Distinct
pub mod Crossed
pub mod Search
pub mod Mutated
use test_paper_backend.Base.{
  ℕ, zero, suc, Bool, true, false, ◌&&◌, ◌||◌, not, Option, none, some, List, [], ◌∷◌, ◌++◌, length,
  take, any_by, leb, ◌==◌, if◌then◌else◌,
}

-- `x in xs`
abbrev pub member : ℕ → List ℕ → Bool
member x [] = false
member x (y ∷ ys) = x == y || member x ys

-- The loop over `chain(parent_b, candidate_ids)`
unfoldable pub fill : ℕ → List ℕ → List ℕ → List ℕ
fill question_count child [] = child
fill question_count child (x ∷ xs) =
    let next = fill question_count (if member x child then child else child ++ x ∷ []) xs in
    if leb question_count (length child) then child else next

-- `drawn` is `rng.randint(1, question_count - 1)`.
unfoldable pub pivot_of : ℕ → ℕ → ℕ
pivot_of question_count drawn = if leb question_count 1 then 1 else drawn

unfoldable pub crossover_individual : List ℕ → List ℕ → List ℕ → ℕ → ℕ → List ℕ
unfolding fill pivot_of
crossover_individual parent_a parent_b candidate_ids question_count drawn =
    fill question_count (take (pivot_of question_count drawn) parent_a) (parent_b ++ candidate_ids)

-- `selected_ids.remove(x)`
abbrev pub remove : ℕ → List ℕ → List ℕ
remove x [] = []
remove x (y ∷ ys) = if x == y then ys else y ∷ remove x ys

-- What the generator draws: whether the place `i` stays as it is, and the choices for it in order.
pub record Draws : Type 0 where
  pub stays : ℕ → Bool
  pub choice : ℕ → ℕ → ℕ

-- `while replacement_id == current_id or replacement_id in selected_ids`, from the draw `k` on; `none`
-- where none of `fuel` draws will do.
unfoldable pub replacement : (ℕ → ℕ) → ℕ → List ℕ → ℕ → ℕ → Option ℕ
replacement choice current selected k zero = none
replacement choice current selected k (suc fuel) =
    let rest = replacement choice current selected (suc k) fuel in
    if choice k == current || member (choice k) selected then rest else some (choice k)

abbrev pub with_head : ℕ → Option (List ℕ) → Option (List ℕ)
with_head x none = none
with_head x (some xs) = some (x ∷ xs)

abbrev replaced_place : List ℕ → Option ℕ → Option (ℕ × List ℕ)
replaced_place others none = none
replaced_place others (some new) = some (new, new ∷ others)

-- What stands at the place `i` after its turn of the loop, and the ids that are selected then.
unfoldable pub mutate_place : Draws → ℕ → List ℕ → List ℕ → ℕ → ℕ → Option (ℕ × List ℕ)
unfolding replacement
mutate_place draws fuel candidate_ids selected i current =
    if draws.stays i || leb (length candidate_ids) (length selected)
    then some (current, selected)
    else replaced_place (remove current selected)
        (replacement (draws.choice i) current (remove current selected) 0 fuel)

-- The loop over the places from `i` on.
unfoldable pub mutate_from : Draws → ℕ → List ℕ → List ℕ → ℕ → List ℕ → Option (List ℕ)
unfolding mutate_place
mutate_from draws fuel candidate_ids selected i [] = some []
mutate_from draws fuel candidate_ids selected i (current ∷ rest) =
    elim (mutate_place draws fuel candidate_ids selected i current) [
      | none ↦ none
      | some (new, now_selected) ↦
          with_head new (mutate_from draws fuel candidate_ids now_selected (suc i) rest)
    ]

unfoldable pub mutate_individual : Draws → ℕ → List ℕ → List ℕ → Option (List ℕ)
unfolding mutate_from
mutate_individual draws fuel individual [] = some individual
mutate_individual draws fuel individual (c ∷ cs) =
    mutate_from draws fuel (c ∷ cs) individual 0 individual
