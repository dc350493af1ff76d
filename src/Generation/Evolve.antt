-- ===== src/Generation/Evolve.antt =====
-- The loop over the generations of `generate_paper_with_genetic_algorithm` in
-- testpaper_backend/services/paper_generation.py, with the scores of individuals and what
-- `random.Random` draws as parameters.
pub mod Best
pub mod Kept
pub mod Run
use test_paper_backend.Base.{
  ℕ, zero, suc, ◌+◌, ◌-◌, min, Bool, true, false, ◌&&◌, Option, none, some, List, [], ◌∷◌, ◌++◌,
  map, length, take, leb, if◌then◌else◌,
}
use test_paper_backend.Generation.Shares.{sorted}
use test_paper_backend.Generation.Genes.{Draws, crossover_individual, mutate_individual}

-- The constants of `GeneticAlgorithmOptions` and of the loop
abbrev pub elitism_count : ℕ
elitism_count = 4

abbrev pub patience : ℕ
patience = 30

abbrev pub least_generations : ℕ
least_generations = 50

-- What is drawn for a child: the places of the two tournaments among the ranked, whether the parents
-- cross, the pivot, and the draws of the mutation.
pub record ChildDraws : Type 0 where
  pub tournament_a : List ℕ
  pub tournament_b : List ℕ
  pub crosses : Bool
  pub pivot : ℕ
  pub mutation : Draws

-- The state of the loop: no best score stands for minus infinity.
pub record Evolution (R : Type 0) : Type 0 where
  pub population : List (List ℕ)
  pub best : List ℕ
  pub best_score : Option R
  pub without_improvement : ℕ
  pub generations_run : ℕ

module _ {R : Type 0} (less : R → R → Bool) where
  abbrev pub Scored : Type 0
  Scored = R × List ℕ

  -- `sorted(..., key=score, reverse=True)`
  unfoldable pub rank : (List ℕ → R) → List (List ℕ) → List Scored
  unfolding sorted
  rank score population = sorted (λ a b. less b.0 a.0) (map (λ x. (score x, x)) population)

  abbrev pub add_place : List Scored → ℕ → List Scored → List Scored
  add_place [] p rest = rest
  add_place (x ∷ xs) zero rest = x ∷ rest
  add_place (x ∷ xs) (suc p) rest = add_place xs p rest

  -- `rng.sample(ranked, n)`, by the places that are drawn.
  abbrev pub sample : List Scored → List ℕ → List Scored
  sample ranked [] = []
  sample ranked (p ∷ ps) = add_place ranked p (sample ranked ps)

  -- `max(tournament, key=score)`: the first one that no other exceeds.
  abbrev pub best_of : Scored → List Scored → Scored
  best_of top [] = top
  best_of top (x ∷ xs) = best_of (if less top.0 x.0 then x else top) xs

  -- `none` is the error of an empty tournament.
  abbrev pub winner : List Scored → Option (List ℕ)
  winner [] = none
  winner (x ∷ xs) = some (best_of x xs).1

  -- No score yet is `float("-inf")` in the code, which every score exceeds: scores are finite sums.
  abbrev pub improves : Option R → R → Bool
  improves none x = true
  improves (some y) x = less y x

  -- The best individual after a generation, whose first one of the ranked is given.
  unfoldable pub improved : Evolution R → Scored → Evolution R
  improved e top =
      if improves e.best_score top.0
      then record e {
        best = top.1;
        best_score = some top.0;
        without_improvement = 0;
        generations_run = suc e.generations_run;
      }
      else record e {
        without_improvement = suc e.without_improvement;
        generations_run = suc e.generations_run;
      }

  module _ (candidate_ids : List ℕ) (question_count population_size fuel : ℕ) where
    unfoldable pub child_of : ChildDraws → List ℕ → List ℕ → Option (List ℕ)
    unfolding crossover_individual mutate_individual
    child_of draws parent_a parent_b =
        mutate_individual draws.mutation fuel
          (if draws.crosses
            then crossover_individual parent_a parent_b candidate_ids question_count draws.pivot
            else parent_a)
          candidate_ids

    unfoldable pub next_child : ChildDraws → List Scored → Option (List ℕ)
    unfolding child_of
    next_child draws ranked = elim (winner (sample ranked draws.tournament_a)) [
      | none ↦ none
      | some a ↦ elim (winner (sample ranked draws.tournament_b)) [
        | none ↦ none
        | some b ↦ child_of draws a b
      ]
    ]

    -- `while len(next_population) < population_size`, with the children that are still missing.
    unfoldable pub children : (ℕ → ChildDraws) → List Scored → ℕ → Option (List (List ℕ))
    unfolding next_child
    children draws ranked zero = some []
    children draws ranked (suc n) = elim (next_child (draws n) ranked) [
      | none ↦ none
      | some c ↦ elim (children draws ranked n) [ none ↦ none | some cs ↦ some (c ∷ cs) ]
    ]

    -- The elite of the ranked, copied, and the children.
    unfoldable pub next_population : (ℕ → ChildDraws) → List Scored → Option (List (List ℕ))
    unfolding children
    next_population draws ranked =
        let elite = map (λ (x : Scored). x.1) (take elitism_count ranked) in
        elim (children draws ranked (population_size - length elite)) [
          | none ↦ none
          | some cs ↦ some (elite ++ cs)
        ]

    abbrev pub has_stalled : ℕ → Evolution R → Bool
    has_stalled generation e =
        leb patience e.without_improvement && leb least_generations generation

    -- The generations from `generation` on, of which `left` are left; `draws` is by generation and child.
    unfoldable pub evolve :
        (List ℕ → R) → (ℕ → ℕ → ChildDraws) → ℕ → ℕ → Evolution R → Option (Evolution R)
    unfolding rank improved next_population
    evolve score draws zero generation e = some e
    evolve score draws (suc left) generation e = elim (rank score e.population) [
      | [] ↦ none
      | top ∷ rest ↦ elim (has_stalled generation (improved e top)) [
        | true ↦ some (improved e top)
        | false ↦ elim (next_population (draws generation) (top ∷ rest)) [
          | none ↦ none
          | some population ↦
              evolve score draws left (suc generation)
                (record (improved e top) { population = population })
        ]
      ]
    ]
