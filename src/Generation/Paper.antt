-- ===== src/Generation/Paper.antt =====
-- `generate_paper_with_genetic_algorithm` and `build_generation_result` of
-- testpaper_backend/services/paper_generation.py, from the candidates and the question count on.
pub mod Exact
use test_paper_backend.Base.{
  ℕ, Bool, ◌+◌, ◌*◌, min, max, Option, none, some, List, [], ◌∷◌, map, length, Result, ok, err, ltb,
  ◌==◌, if◌then◌else◌,
}
use test_paper_backend.Generation.Shares.{FloatOps, distribute_marks}
use test_paper_backend.Generation.Evolve.{ChildDraws, Evolution, elitism_count, evolve}

-- `populationSize`, `tournamentSize` and `generations` of `GeneticAlgorithmOptions`
abbrev pub options_population_size : ℕ
options_population_size = 80

abbrev pub tournament_size : ℕ
tournament_size = 3

abbrev pub options_generations : ℕ
options_generations = 120

unfoldable pub population_size_of : ℕ → ℕ
population_size_of candidates =
    min (max options_population_size (elitism_count + tournament_size)) (max 1 (candidates * 8))

-- The errors for too few candidates, for too few marks, and those that nothing expects.
pub data GenerationError : Type 0 where
  insufficient_questions too_few_marks unexpected : GenerationError

pub record Paper : Type 0 where
  pub questions : List ℕ
  pub marks : List ℕ
  pub generations_run : ℕ

module _ {W : Type 0} (ops : FloatOps W) (score_weight : ℕ → W) (total_marks : ℕ) where
  -- `build_generation_result`
  unfoldable pub build_result : List ℕ → ℕ → Result GenerationError Paper
  unfolding distribute_marks
  build_result questions run =
      elim (distribute_marks ops (map score_weight questions) total_marks) [
        | none ↦ err unexpected
        | some marks ↦ ok (record { questions = questions; marks = marks; generations_run = run })
      ]

  module _ {R : Type 0} (less : R → R → Bool) (score : List ℕ → R) (draws : ℕ → ℕ → ChildDraws)
      (fuel : ℕ) (candidate_ids : List ℕ) (question_count : ℕ) where
    -- `population[0]` is the best at the start.
    unfoldable pub evolved : List (List ℕ) → Option (Evolution R)
    unfolding evolve population_size_of
    evolved [] = none
    evolved (first ∷ others) =
        evolve less candidate_ids question_count (population_size_of (length candidate_ids)) fuel
          score draws options_generations 0
          (record {
            population = first ∷ others;
            best = first;
            best_score = none;
            without_improvement = 0;
            generations_run = 0;
          })

    -- `start` is the population that is drawn at first.
    unfoldable pub generate_paper : List (List ℕ) → Result GenerationError Paper
    unfolding build_result evolved
    generate_paper start =
        if ltb (length candidate_ids) question_count
        then err insufficient_questions
        else if ltb total_marks question_count
        then err too_few_marks
        else if length candidate_ids == question_count
        then build_result candidate_ids 0
        else elim (evolved start) [
          | none ↦ err unexpected
          | some e ↦ build_result e.best e.generations_run
        ]
