-- ===== src/Generation/Evolve/Kept.antt =====
-- The loop over the generations keeps a population of individuals, and so does the best of them.
use test_paper_backend.Base.{
  ℕ, zero, suc, ◌-◌, ◌<◌, ◌≤◌, ◌≡◌, refl, sym, ap, ◌∙◌, subst, inl, inr, Bool, true, some, List, [],
  ◌∷◌, ◌++◌, map, length, length-append, take, All, All-append, arith, Bool-cases,
}
use test_paper_backend.Generation.Genes.{member, crossover_individual}
use test_paper_backend.Generation.Genes.Distinct.{Distinct, Individual}
use test_paper_backend.Generation.Genes.Crossed.{crossover_individual-Individual}
use test_paper_backend.Generation.Genes.Mutated.{mutate_individual-Individual}
use test_paper_backend.Generation.Evolve.{
  ChildDraws, elitism_count, Scored, sample, winner, child_of, next_child, children,
  next_population,
}
use test_paper_backend.Generation.Evolve.Best.{All-elite, length-elite, Wins, sample-Wins}

-- What a run of the generator draws, where its tournaments draw a place of the population first and its
-- choices are candidates and go through all of them within `fuel` draws.
pub record FairDraws (candidate_ids : List ℕ) (population_size fuel : ℕ) (d : ChildDraws)
    : Type 0 where
  pub first_a : (p : ℕ) × (ps : List ℕ) × (d.tournament_a ≡ p ∷ ps) × (p < population_size)
  pub first_b : (p : ℕ) × (ps : List ℕ) × (d.tournament_b ≡ p ∷ ps) × (p < population_size)
  pub choices : (i k : ℕ) → member (d.mutation.choice i k) candidate_ids ≡ true
  pub all_drawn :
      (i c : ℕ) → member c candidate_ids ≡ true → (k : ℕ) × (k < fuel) × (d.mutation.choice i k ≡ c)

module _ {R : Type 0} (less : R → R → Bool) (candidate_ids : List ℕ)
    (question_count population_size fuel : ℕ) (distinct : Distinct candidate_ids)
    (enough : question_count ≤ length candidate_ids) where
  abbrev pub Good : List ℕ → Type 0
  Good = Individual question_count candidate_ids

  child_of-Good :
      (d : ChildDraws) (a b : List ℕ)
      → FairDraws candidate_ids population_size fuel d
      → Good a
      → Good b
      → (c : List ℕ) × (child_of less candidate_ids question_count population_size fuel d a b
          ≡ some c)
        × Good c
  unfolding child_of
  child_of-Good d a b fair ha hb = elim (Bool-cases d.crosses) [
    | inl e ↦ rw e (
        mutate_individual-Individual d.mutation fuel question_count candidate_ids
          (crossover_individual a b candidate_ids question_count d.pivot)
          (crossover_individual-Individual a b candidate_ids question_count d.pivot ha hb distinct
            enough)
          distinct fair.choices fair.all_drawn)
    | inr e ↦ rw e (
        mutate_individual-Individual d.mutation fuel question_count candidate_ids a ha distinct
          fair.choices fair.all_drawn)
  ]

  next_child-made :
      (d : ChildDraws) (ranked : List (Scored less)) {a b : List ℕ}
      → winner less (sample less ranked d.tournament_a) ≡ some a
      → winner less (sample less ranked d.tournament_b) ≡ some b
      → next_child less candidate_ids question_count population_size fuel d ranked
        ≡ child_of less candidate_ids question_count population_size fuel d a b
  unfolding next_child
  next_child-made d ranked won_a won_b = ground (arith, won_a, won_b)

  tournament-Wins :
      (places : List ℕ) (ranked : List (Scored less))
      → (p : ℕ) × (ps : List ℕ) × (places ≡ p ∷ ps) × (p < population_size)
      → length ranked ≡ population_size
      → All (λ x. Good x.1) ranked
      → Wins less Good ranked places
  tournament-Wins places ranked first size h =
      let (p, ps, drawn, below) = first in
      subst (λ l. Wins less Good ranked l) (sym drawn)
        (sample-Wins less Good ranked p ps (omega (arith, below, size)) h)

  next_child-Good :
      (d : ChildDraws) (ranked : List (Scored less))
      → FairDraws candidate_ids population_size fuel d
      → length ranked ≡ population_size
      → All (λ x. Good x.1) ranked
      → (c : List ℕ) × (next_child less candidate_ids question_count population_size fuel d ranked
          ≡ some c)
        × Good c
  unfolding next_child
  next_child-Good d ranked fair size h =
      let (a, won_a, ha) = tournament-Wins d.tournament_a ranked fair.first_a size h in
      let (b, won_b, hb) = tournament-Wins d.tournament_b ranked fair.first_b size h in
      let (c, made, hc) = child_of-Good d a b fair ha hb in
      (c, next_child-made d ranked won_a won_b ∙ made, hc)

  children-made :
      (draws : ℕ → ChildDraws) (ranked : List (Scored less)) (n : ℕ) {c : List ℕ}
      {cs : List (List ℕ)}
      → next_child less candidate_ids question_count population_size fuel (draws n) ranked ≡ some c
      → children less candidate_ids question_count population_size fuel draws ranked n ≡ some cs
      → children less candidate_ids question_count population_size fuel draws ranked (suc n)
        ≡ some (c ∷ cs)
  unfolding children
  children-made draws ranked n made rest = ground (arith, made, rest)

  next_population-made :
      (draws : ℕ → ChildDraws) (ranked : List (Scored less)) {cs : List (List ℕ)}
      → children less candidate_ids question_count population_size fuel draws ranked
          (population_size - length (map (λ (x : Scored less). x.1) (take elitism_count ranked)))
        ≡ some cs
      → next_population less candidate_ids question_count population_size fuel draws ranked
        ≡ some (map (λ (x : Scored less). x.1) (take elitism_count ranked) ++ cs)
  unfolding next_population
  next_population-made draws ranked made = ground (arith, made)

  -- The children of a ranked population, and the population that they make with its elite.
  children-Good :
      (draws : ℕ → ChildDraws) (ranked : List (Scored less)) (n : ℕ)
      → ((i : ℕ) → FairDraws candidate_ids population_size fuel (draws i))
      → length ranked ≡ population_size
      → All (λ x. Good x.1) ranked
      → (cs : List (List ℕ)) × (children less candidate_ids question_count population_size fuel
            draws ranked n
          ≡ some cs)
        × All Good cs
        × (length cs ≡ n)
  unfolding children
  children-Good draws ranked zero fair size h = ([], refl, tt, refl)
  children-Good draws ranked (suc n) fair size h =
      let (c, made, hc) = next_child-Good (draws n) ranked (fair n) size h in
      let (cs, rest, hcs, long) = children-Good draws ranked n fair size h in
      (c ∷ cs, children-made draws ranked n made rest, (hc, hcs), ap suc long)

  pub next_population-Good :
      (draws : ℕ → ChildDraws) (ranked : List (Scored less))
      → ((i : ℕ) → FairDraws candidate_ids population_size fuel (draws i))
      → length ranked ≡ population_size
      → All (λ x. Good x.1) ranked
      → (ps : List (List ℕ)) × (next_population less candidate_ids question_count population_size
            fuel draws ranked
          ≡ some ps)
        × All Good ps
        × (length ps ≡ population_size)
  unfolding next_population
  next_population-Good draws ranked fair size h =
      let elite = map (λ (x : Scored less). x.1) (take elitism_count ranked) in
      let (cs, made, hcs, long) =
        children-Good draws ranked (population_size - length elite) fair size h in
      (
        elite ++ cs,
        next_population-made draws ranked made,
        All-append Good elite cs (All-elite Good elitism_count ranked h) hcs,
        omega (arith, length-append elite cs, long, length-elite elitism_count ranked, size),
      )
