-- ===== src/Generation/Targets.antt =====
-- `generation_type_counts` and `difficulty_targets_from_coefficient` of
-- testpaper_backend/services/paper_generation.py. A dict is the list of its keys with their values.
pub mod Counted
use test_paper_backend.Base.{
  ℕ, suc, ◌+◌, min, Bool, true, false, not, ◌&&◌, Option, List, [], ◌∷◌, map, length, filter_by,
  ◌==◌, if◌then◌else◌,
}
use test_paper_backend.Generation.Marks.{sum, set}
use test_paper_backend.Generation.Shares.{normalize_targets}

-- `QuestionTypeTarget`
pub record TypeTarget : Type 0 where
  pub question_type : ℕ
  pub count : ℕ

-- `counts[t] = counts.get(t, 0) + n`
abbrev pub add_count : ℕ → ℕ → List TypeTarget → List TypeTarget
add_count t n [] = record { question_type = t; count = n } ∷ []
add_count t n (c ∷ cs) =
    let rest = add_count t n cs in
    if c.question_type == t then record c { count = c.count + n } ∷ cs else c ∷ rest

abbrev add_counts : List TypeTarget → List TypeTarget → List TypeTarget
add_counts counts [] = counts
add_counts counts (t ∷ ts) = add_counts (add_count t.question_type t.count counts) ts

unfoldable pub generation_type_counts : List TypeTarget → List TypeTarget
generation_type_counts targets = add_counts [] targets

-- `min(requested_count, available)` of each type, with the number of candidates of a type.
unfoldable pub type_targets : (ℕ → ℕ) → List TypeTarget → List TypeTarget
unfolding generation_type_counts
type_targets available targets =
    map (λ (c : TypeTarget). record c { count = min c.count (available c.question_type) })
      (generation_type_counts targets)

-- The anchors in the order of the dict
pub data Difficulty : Type 0 where
  easy medium hard : Difficulty

abbrev pub place_of : Difficulty → ℕ
place_of easy = 0
place_of medium = 1
place_of hard = 2

-- The arithmetic of `float`: `max(0.0, 1.0 - abs(c - anchor) * 2)`, `not w`, `round(n * w)`, `round(n)`
-- for the weight 1.0, and the anchor that is nearest.
pub record WeightOps (R : Type 0) : Type 0 where
  pub weight : R → Difficulty → R
  pub is_nothing : R → Bool
  pub one : R
  pub round_target : ℕ → R → ℕ
  pub nearest : R → Difficulty

module _ {R : Type 0} (ops : WeightOps R) where
  unfoldable pub difficulty_weights : R → List R
  difficulty_weights coefficient =
      let e = ops.weight coefficient easy in
      let m = ops.weight coefficient medium in
      let h = ops.weight coefficient hard in
      if ops.is_nothing e && (ops.is_nothing m && ops.is_nothing h)
      then e ∷ ops.one ∷ h ∷ []
      else e ∷ m ∷ h ∷ []

  unfoldable pub raw_targets : R → ℕ → List ℕ
  unfolding difficulty_weights
  raw_targets coefficient question_count =
      let raw = map (ops.round_target question_count) (difficulty_weights coefficient) in
      if sum raw == 0
      then set (λ _. question_count) raw (place_of (ops.nearest coefficient))
      else raw

  unfoldable pub difficulty_targets_from_coefficient : (ℕ → ℕ → ℕ → ℕ) → ℕ → R → ℕ → List ℕ
  unfolding raw_targets normalize_targets
  difficulty_targets_from_coefficient rounded fuel coefficient question_count =
      normalize_targets rounded fuel (raw_targets coefficient question_count) question_count
