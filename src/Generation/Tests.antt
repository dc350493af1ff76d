-- ===== src/Generation/Tests.antt =====
-- Marks, targets, children and mutations at concrete inputs, with a whole-number arithmetic for floats.
use test_paper_backend.Base.{
  ℕ, zero, suc, ◌*◌, ◌/◌, ◌≤◌, ◌<◌, max, ◌≡◌, refl, inl, inr, true, false, some, List, [], ◌∷◌,
  length, All, ◌==◌, arith, Bool-cases,
}
use test_paper_backend.Generation.Marks.{sum}
use test_paper_backend.Generation.Shares.{FloatOps, distribute_marks, normalize_targets}
use test_paper_backend.Generation.Shares.Exact.{distribute_marks-exact, normalize_targets-exact}
use test_paper_backend.Generation.Targets.{easy, WeightOps, TypeTarget, type_targets}
use test_paper_backend.Generation.Targets.Counted.{asked, Once, type_targets-asked}
use test_paper_backend.Generation.Genes.{member, Draws, crossover_individual, mutate_individual}
use test_paper_backend.Generation.Genes.Distinct.{Distinct, Individual}
use test_paper_backend.Generation.Genes.Crossed.{crossover_individual-Individual}
use test_paper_backend.Generation.Genes.Mutated.{mutate_individual-Individual}
use test_paper_backend.Generation.Evolve.{ChildDraws}
use test_paper_backend.Generation.Evolve.Kept.{FairDraws}
use test_paper_backend.Generation.Paper.{population_size_of, generate_paper}
use test_paper_backend.Generation.Paper.Exact.{Answered, generate_paper-Answered}
use test_paper_backend.Base.{ltb}

abbrev whole : FloatOps ℕ
whole = record {
  weight = λ w. max 1 w;
  weight_total = sum;
  raw_mark = λ n w t. max 1 (n * w / t);
  int = λ x. x;
  less_fraction = λ a b. false;
}

distribute_marks-exact_example :
    (marks : List ℕ) × (distribute_marks whole (3 ∷ 1 ∷ 3 ∷ []) 10 ≡ some marks)
    × (sum marks ≡ 10)
    × (length marks ≡ 3)
    × All (λ x. 1 ≤ x) marks
distribute_marks-exact_example =
    distribute_marks-exact whole (3 ∷ 1 ∷ 3 ∷ []) 10 (omega arith) (omega arith)

abbrev share : ℕ → ℕ → ℕ → ℕ
share n v t = n * v / t

normalize_targets-exact_example : sum (normalize_targets share 30 (1 ∷ 1 ∷ 1 ∷ []) 10) ≡ 10
normalize_targets-exact_example =
    normalize_targets-exact share 30 (1 ∷ 1 ∷ 1 ∷ []) 10 (omega arith) (omega arith)

abbrev quarters : WeightOps ℕ
quarters = record {
  weight = λ c d. c;
  is_nothing = λ w. w == 0;
  one = 4;
  round_target = λ n w. n * w / 4;
  nearest = λ c. easy;
}

abbrev wishes : List TypeTarget
wishes =
    record { question_type = 1; count = 2 }
    ∷ record { question_type = 2; count = 5 }
    ∷ record { question_type = 1; count = 3 }
    ∷ []

-- Four candidates of each type.
type_targets-asked_example :
    (asked 1 (type_targets (λ _. 4) wishes) ≡ 4) × Once (type_targets (λ _. 4) wishes)
type_targets-asked_example = type_targets-asked (λ _. 4) 1 wishes

abbrev candidates : List ℕ
candidates = 11 ∷ 12 ∷ 13 ∷ []

candidates-Distinct : Distinct candidates
candidates-Distinct = (refl, (refl, (refl, tt)))

abbrev parent : List ℕ
parent = 11 ∷ 12 ∷ []

parent-Individual : Individual 2 candidates parent
parent-Individual = record {
  size = refl;
  distinct = (refl, (refl, tt));
  within = (refl, (refl, tt));
}

crossover_individual-Individual_example :
    Individual 2 candidates (crossover_individual parent parent candidates 2 1)
crossover_individual-Individual_example =
    crossover_individual-Individual parent parent candidates 2 1 parent-Individual parent-Individual
      candidates-Distinct (omega arith)

abbrev pick : ℕ → ℕ
pick zero = 11
pick (suc zero) = 12
pick (suc (suc k)) = 13

abbrev draws : Draws
draws = record { stays = λ i. false; choice = λ i k. pick k }

picks_candidates : (i k : ℕ) → member (pick k) candidates ≡ true
picks_candidates i zero = refl
picks_candidates i (suc zero) = refl
picks_candidates i (suc (suc k)) = refl

picked : (i c : ℕ) → member c candidates ≡ true → (k : ℕ) × (k < 3) × (pick k ≡ c)
picked i c h = elim (Bool-cases (c == 11)) [
  | inl e ↦ (0, omega arith, ground (arith, e))
  | inr e ↦ elim (Bool-cases (c == 12)) [
    | inl f ↦ (1, omega arith, ground (arith, f))
    | inr f ↦ (2, omega arith, ground (arith, e, f, h))
  ]
]

mutate_individual-Individual_example :
    (mutated : List ℕ) × (mutate_individual draws 3 parent candidates ≡ some mutated)
    × Individual 2 candidates mutated
mutate_individual-Individual_example =
    mutate_individual-Individual draws 3 2 candidates parent parent-Individual candidates-Distinct
      picks_candidates picked

abbrev copies : ℕ → List (List ℕ)
copies zero = []
copies (suc n) = parent ∷ copies n

All-copies : (n : ℕ) → All (Individual 2 candidates) (copies n)
All-copies zero = tt
All-copies (suc n) = (parent-Individual, All-copies n)

abbrev child_draws : ChildDraws
child_draws = record {
  tournament_a = 0 ∷ 2 ∷ [];
  tournament_b = 1 ∷ [];
  crosses = true;
  pivot = 1;
  mutation = draws;
}

child_draws-FairDraws : FairDraws candidates (population_size_of 3) 3 child_draws
unfolding population_size_of
child_draws-FairDraws = record {
  first_a = (0, 2 ∷ [], refl, omega arith);
  first_b = (1, [], refl, omega arith);
  choices = picks_candidates;
  all_drawn = picked;
}

full_population : length (copies 24) ≡ population_size_of 3
unfolding population_size_of
full_population = refl

generate_paper-Answered_example :
    Answered candidates 2 10
      (generate_paper whole (λ i. i) 10 ltb sum (λ g i. child_draws) 3 candidates 2 (copies 24))
generate_paper-Answered_example =
    generate_paper-Answered whole (λ i. i) 10 ltb sum (λ g i. child_draws) 3 candidates 2
      (copies 24) (omega arith) (omega arith) (omega arith) candidates-Distinct
      (λ g i. child_draws-FairDraws) (All-copies 24) full_population
