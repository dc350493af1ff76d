-- ===== src/Generation/Evolve/Run.antt =====
-- A run of `generate_paper_with_genetic_algorithm` in testpaper_backend/services/paper_generation.py ends
-- with an individual.
use test_paper_backend.Base.{
  ℕ, zero, suc, ◌+◌, ◌<◌, ◌≤◌, ◌≡◌, refl, sym, ap, ◌∙◌, subst, inl, inr, Bool, true, false, Option,
  some, List, [], ◌∷◌, length, All, arith, Bool-cases,
}
use test_paper_backend.Generation.Genes.Distinct.{Distinct, Individual}
use test_paper_backend.Generation.Evolve.{
  ChildDraws, Evolution, Scored, rank, improved, next_population, has_stalled, evolve,
}
use test_paper_backend.Generation.Evolve.Best.{All-rank, length-rank, improved-keeps}
use test_paper_backend.Generation.Evolve.Kept.{FairDraws, next_population-Good}

first_of : {A : Type 0} (xs : List A) → 0 < length xs → (x : A) × (rest : List A) × (xs ≡ x ∷ rest)
first_of [] h = absurd (omega (arith, h))
first_of (x ∷ xs) h = (x, xs, refl)

module _ {R : Type 0} (less : R → R → Bool) (candidate_ids : List ℕ)
    (question_count population_size fuel : ℕ) (score : List ℕ → R)
    (draws : ℕ → ℕ → ChildDraws) where
  abbrev pub run : ℕ → ℕ → Evolution R → Option (Evolution R)
  run left generation e =
      evolve less candidate_ids question_count population_size fuel score draws left generation e

  abbrev stalled : ℕ → Evolution R → Scored less → Bool
  stalled generation e top =
      has_stalled less candidate_ids question_count population_size fuel generation
        (improved less e top)

  run-stopped :
      (left generation : ℕ) (e : Evolution R) (top : Scored less) (rest : List (Scored less))
      → rank less score e.population ≡ top ∷ rest
      → stalled generation e top ≡ true
      → run (suc left) generation e ≡ some (improved less e top)
  unfolding evolve
  run-stopped left generation e top rest ranked stops = ground (arith, ranked, stops)

  run-continued :
      (left generation : ℕ) (e : Evolution R) (top : Scored less) (rest : List (Scored less))
      (ps : List (List ℕ))
      → rank less score e.population ≡ top ∷ rest
      → stalled generation e top ≡ false
      → next_population less candidate_ids question_count population_size fuel
          (draws generation)
          (top ∷ rest)
        ≡ some ps
      → run (suc left) generation e
        ≡ run left (suc generation) (record (improved less e top) { population = ps })
  unfolding evolve
  run-continued left generation e top rest ps ranked goes bred = ground (arith, ranked, goes, bred)

  generations-improved :
      (e : Evolution R) (top : Scored less)
      → (improved less e top).generations_run ≡ suc e.generations_run
  unfolding improved
  generations-improved e top = ground arith

  -- What a run ends with.
  abbrev pub Ends : ℕ → Option (Evolution R) → Type 0
  Ends most ran =
      (e : Evolution R) × (ran ≡ some e)
      × Individual question_count candidate_ids e.best
      × (e.generations_run ≤ most)

  pub run-Ends :
      Distinct candidate_ids
      → question_count ≤ length candidate_ids
      → ((g i : ℕ) → FairDraws candidate_ids population_size fuel (draws g i))
      → 0 < population_size
      → (left generation : ℕ) (e : Evolution R)
      → All (Individual question_count candidate_ids) e.population
      → length e.population ≡ population_size
      → Individual question_count candidate_ids e.best
      → Ends (e.generations_run + left) (run left generation e)
  unfolding evolve
  run-Ends distinct enough fair some_place zero generation e people size best =
      (e, refl, best, omega arith)
  run-Ends distinct enough fair some_place (suc left) generation e people size best =
      let P = Individual question_count candidate_ids in
      let sized : length (rank less score e.population) ≡ population_size =
        length-rank less P score e.population ∙ size in
      let good = All-rank less P score e.population people in
      let (top, rest, ranked) =
        first_of (rank less score e.population) (omega (arith, sized, some_place)) in
      let good_ranked = subst (λ (l : List (Scored less)). All (λ x. P x.1) l) ranked good in
      let better = improved-keeps less P e top best good_ranked.0 in
      let count = generations-improved e top in
      elim (Bool-cases (stalled generation e top)) [
        | inl stops ↦ (
          improved less e top,
          run-stopped left generation e top rest ranked stops,
          better,
          omega (arith, count),
        )
        | inr goes ↦
            let (ps, bred, people', size') =
              next_population-Good less candidate_ids question_count population_size fuel distinct
                enough (draws generation) (top ∷ rest) (fair generation)
                (sym (ap length ranked) ∙ sized) good_ranked in
            let (ended, same, fine, count') =
              run-Ends distinct enough fair some_place left (suc generation)
                (record (improved less e top) { population = ps }) people' size' better in
            (
              ended,
              run-continued left generation e top rest ps ranked goes bred ∙ same,
              fine,
              omega (arith, count, count'),
            )
      ]
