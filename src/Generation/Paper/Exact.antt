-- ===== src/Generation/Paper/Exact.antt =====
-- A generated paper has what was asked for.
use test_paper_backend.Base.{
  ℕ, ◌<◌, ◌≤◌, ◌≡◌, refl, ◌∙◌, inl, inr, Bool, true, false, none, some, List, [], ◌∷◌, map, length,
  Result, ok, All, ge→ltb, ◌==◌, arith, Bool-cases,
}
use test_paper_backend.Generation.Marks.{sum}
use test_paper_backend.Generation.Shares.{FloatOps, distribute_marks}
use test_paper_backend.Generation.Shares.Ranked.{length-map}
use test_paper_backend.Generation.Shares.Exact.{distribute_marks-exact}
use test_paper_backend.Generation.Genes.Distinct.{Distinct, Individual, Within-refl}
use test_paper_backend.Generation.Evolve.{ChildDraws, Evolution}
use test_paper_backend.Generation.Evolve.Kept.{FairDraws}
use test_paper_backend.Generation.Evolve.Run.{Ends, run-Ends}
use test_paper_backend.Generation.Paper.{
  options_generations, population_size_of, GenerationError, Paper, build_result, evolved,
  generate_paper,
}

-- What a request for that many questions and marks is answered with.
pub record Answered (candidate_ids : List ℕ) (question_count total_marks : ℕ)
    (answer : Result GenerationError Paper) : Type 0 where
  pub paper : Paper
  pub returned : answer ≡ ok paper
  pub questions : Individual question_count candidate_ids paper.questions
  pub total : sum paper.marks ≡ total_marks
  pub each : length paper.marks ≡ question_count
  pub least : All (λ m. 1 ≤ m) paper.marks
  pub generations : paper.generations_run ≤ options_generations

module _ {W : Type 0} (ops : FloatOps W) (score_weight : ℕ → W) (total_marks : ℕ)
    (candidate_ids : List ℕ) (question_count : ℕ) (some_question : 0 < question_count)
    (enough_marks : question_count ≤ total_marks) where
  built :
      (ids : List ℕ) (run : ℕ) (marks : List ℕ)
      → distribute_marks ops (map score_weight ids) total_marks ≡ some marks
      → build_result ops score_weight total_marks ids run
        ≡ ok (record { questions = ids; marks = marks; generations_run = run })
  unfolding build_result
  built ids run marks given = ground (arith, given)

  build_result-Answered :
      (ids : List ℕ) (run : ℕ)
      → Individual question_count candidate_ids ids
      → run ≤ options_generations
      → Answered candidate_ids question_count total_marks
          (build_result ops score_weight total_marks ids run)
  unfolding build_result
  build_result-Answered ids run h bound =
      let scores = map score_weight ids in
      let size : length scores ≡ question_count = length-map score_weight ids ∙ h.size in
      let (marks, given, total, long, least) =
        distribute_marks-exact ops scores total_marks (omega (arith, size, some_question))
          (omega (arith, size, enough_marks)) in
      record {
        paper = record { questions = ids; marks = marks; generations_run = run };
        returned = built ids run marks given;
        questions = h;
        total = total;
        each = long ∙ size;
        least = least;
        generations = bound;
      }

  module _ {R : Type 0} (less : R → R → Bool) (score : List ℕ → R) (draws : ℕ → ℕ → ChildDraws)
      (fuel : ℕ) where
    evolved-Ends :
        (start : List (List ℕ))
        → Distinct candidate_ids
        → question_count ≤ length candidate_ids
        → ((g i : ℕ)
            → FairDraws candidate_ids (population_size_of (length candidate_ids)) fuel (draws g i))
        → 0 < population_size_of (length candidate_ids)
        → All (Individual question_count candidate_ids) start
        → length start ≡ population_size_of (length candidate_ids)
        → Ends less candidate_ids question_count
            (population_size_of (length candidate_ids))
            fuel
            score
            draws
            options_generations
            (evolved ops score_weight total_marks less score draws fuel candidate_ids question_count
              start)
    unfolding evolved
    evolved-Ends [] distinct enough fair some_place people size =
        absurd (omega (arith, some_place, size))
    evolved-Ends (first ∷ others) distinct enough fair some_place people size =
        run-Ends less candidate_ids question_count (population_size_of (length candidate_ids)) fuel
          score draws distinct enough fair some_place options_generations 0
          (record {
            population = first ∷ others;
            best = first;
            best_score = none;
            without_improvement = 0;
            generations_run = 0;
          })
          people size people.0

    some_population : 0 < population_size_of (length candidate_ids)
    unfolding population_size_of
    some_population = omega arith

    generate_paper-all :
        (start : List (List ℕ))
        → question_count ≤ length candidate_ids
        → (length candidate_ids == question_count) ≡ true
        → generate_paper ops score_weight total_marks less score draws fuel candidate_ids
            question_count start
          ≡ build_result ops score_weight total_marks candidate_ids 0
    unfolding generate_paper
    generate_paper-all start enough all =
        rw (ge→ltb (length candidate_ids) question_count enough)
          (rw (ge→ltb total_marks question_count enough_marks) (rw all refl))

    generate_paper-evolved :
        (start : List (List ℕ)) (e : Evolution R)
        → question_count ≤ length candidate_ids
        → (length candidate_ids == question_count) ≡ false
        → evolved ops score_weight total_marks less score draws fuel candidate_ids question_count
            start
          ≡ some e
        → generate_paper ops score_weight total_marks less score draws fuel candidate_ids
            question_count start
          ≡ build_result ops score_weight total_marks e.best e.generations_run
    unfolding generate_paper
    generate_paper-evolved start e enough more ended =
        rw (ge→ltb (length candidate_ids) question_count enough)
          (rw (ge→ltb total_marks question_count enough_marks) (rw more (ground (arith, ended))))

-- For one question or more, no fewer different candidates and marks than questions, a first population of
-- individuals and draws that are fair, the generation of a paper returns: a paper of exactly that many
-- different candidates, with one mark or more for each that add up to the total, after 120 generations at
-- most, whatever the scores of individuals.
pub generate_paper-Answered :
    {W : Type 0} (ops : FloatOps W) (score_weight : ℕ → W) (total_marks : ℕ) {R : Type 0}
    (less : R → R → Bool) (score : List ℕ → R) (draws : ℕ → ℕ → ChildDraws) (fuel : ℕ)
    (candidate_ids : List ℕ) (question_count : ℕ) (start : List (List ℕ))
    → 0 < question_count
    → question_count ≤ length candidate_ids
    → question_count ≤ total_marks
    → Distinct candidate_ids
    → ((g i : ℕ)
        → FairDraws candidate_ids (population_size_of (length candidate_ids)) fuel (draws g i))
    → All (Individual question_count candidate_ids) start
    → length start ≡ population_size_of (length candidate_ids)
    → Answered candidate_ids question_count total_marks (
        generate_paper ops score_weight total_marks less score draws fuel candidate_ids
          question_count start)
generate_paper-Answered ops score_weight total_marks less score draws fuel candidate_ids
      question_count start some_question enough enough_marks distinct fair people size =
    elim (Bool-cases (length candidate_ids == question_count)) [
      | inl all ↦
          rw
            (generate_paper-all ops score_weight total_marks candidate_ids question_count
              some_question enough_marks less score draws fuel start enough all)
            (build_result-Answered ops score_weight total_marks candidate_ids question_count
              some_question enough_marks candidate_ids 0
              (record {
                size = ground (arith, all);
                distinct = distinct;
                within = Within-refl candidate_ids;
              })
              (omega arith))
      | inr more ↦
          let (e, ended, best, bound) =
            evolved-Ends ops score_weight total_marks candidate_ids question_count some_question
              enough_marks less score draws fuel start distinct enough fair
              (some_population ops score_weight total_marks candidate_ids question_count
                some_question enough_marks less score draws fuel)
              people size in
          rw
            (generate_paper-evolved ops score_weight total_marks candidate_ids question_count
              some_question enough_marks less score draws fuel start e enough more ended)
            (build_result-Answered ops score_weight total_marks candidate_ids question_count
              some_question enough_marks e.best e.generations_run best bound)
    ]
