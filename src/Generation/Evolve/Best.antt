-- ===== src/Generation/Evolve/Best.antt =====
-- The ranking of a population, its tournaments and its best, in the loop over the generations of
-- testpaper_backend/services/paper_generation.py: what every individual of the population has, they keep.
use test_paper_backend.Base.{
  ℕ, zero, suc, ◌<◌, ◌≤◌, ◌≡◌, refl, ◌∙◌, inl, inr, Bool, true, false, some, List, [], ◌∷◌, map,
  length, take, All, if◌then◌else◌, arith, Bool-cases,
}
use test_paper_backend.Generation.Shares.Ranked.{length-map, length-sorted, All-sorted}
use test_paper_backend.Generation.Evolve.{
  Evolution, Scored, rank, add_place, sample, best_of, winner, improves, improved,
}

All-map_pair :
    {R : Type 0} (P : List ℕ → Type 0) (score : List ℕ → R) (xs : List (List ℕ))
    → All P xs
    → All (λ (x : R × List ℕ). P x.1) (map (λ x. (score x, x)) xs)
All-map_pair P score [] h = tt
All-map_pair P score (x ∷ xs) h = (h.0, All-map_pair P score xs h.1)

pub All-elite :
    {R : Type 0} (P : List ℕ → Type 0) (n : ℕ) (xs : List (R × List ℕ))
    → All (λ x. P x.1) xs
    → All P (map (λ x. x.1) (take n xs))
All-elite P zero xs h = tt
All-elite P (suc n) [] h = tt
All-elite P (suc n) (x ∷ xs) h = (h.0, All-elite P n xs h.1)

pub length-elite :
    {R : Type 0} (n : ℕ) (xs : List (R × List ℕ)) → length (map (λ x. x.1) (take n xs)) ≤ length xs
length-elite zero xs = omega arith
length-elite (suc n) [] = omega arith
length-elite (suc n) (x ∷ xs) = omega (arith, length-elite n xs)

module _ {R : Type 0} (less : R → R → Bool) (P : List ℕ → Type 0) where
  pub All-rank :
      (score : List ℕ → R) (population : List (List ℕ))
      → All P population
      → All (λ x. P x.1) (rank less score population)
  unfolding rank
  All-rank score population h =
      All-sorted (λ a b. less b.0 a.0) (λ x. P x.1) (map (λ x. (score x, x)) population)
        (All-map_pair P score population h)

  pub length-rank :
      (score : List ℕ → R) (population : List (List ℕ))
      → length (rank less score population) ≡ length population
  unfolding rank
  length-rank score population =
      length-sorted (λ a b. less b.0 a.0) (map (λ x. (score x, x)) population)
      ∙ length-map (λ x. (score x, x)) population

  All-add_place :
      (ranked : List (Scored less)) (p : ℕ) (rest : List (Scored less))
      → All (λ x. P x.1) ranked
      → All (λ x. P x.1) rest
      → All (λ x. P x.1) (add_place less ranked p rest)
  All-add_place [] p rest h i = i
  All-add_place (x ∷ xs) zero rest h i = (h.0, i)
  All-add_place (x ∷ xs) (suc p) rest h i = All-add_place xs p rest h.1 i

  All-sample :
      (ranked : List (Scored less)) (ps : List ℕ)
      → All (λ x. P x.1) ranked
      → All (λ x. P x.1) (sample less ranked ps)
  All-sample ranked [] h = tt
  All-sample ranked (p ∷ ps) h =
      All-add_place ranked p (sample less ranked ps) h (All-sample ranked ps h)

  one_of : (b : Bool) (x y : Scored less) → P x.1 → P y.1 → P (if b then x else y).1
  one_of true x y h i = h
  one_of false x y h i = i

  best_of-keeps :
      (top : Scored less) (xs : List (Scored less))
      → P top.1
      → All (λ x. P x.1) xs
      → P (best_of less top xs).1
  best_of-keeps top [] h i = h
  best_of-keeps top (x ∷ xs) h i =
      best_of-keeps (if less top.0 x.0 then x else top) xs (one_of (less top.0 x.0) x top i.0 h) i.1

  -- A tournament whose first place is in the list has a winner of the list.
  abbrev pub Wins : List (Scored less) → List ℕ → Type 0
  Wins ranked ps = (a : List ℕ) × (winner less (sample less ranked ps) ≡ some a) × P a

  winner_of :
      (ranked : List (Scored less)) (p : ℕ) (rest : List (Scored less))
      → p < length ranked
      → All (λ x. P x.1) ranked
      → All (λ x. P x.1) rest
      → (a : List ℕ) × (winner less (add_place less ranked p rest) ≡ some a) × P a
  winner_of [] p rest below h i = absurd (omega (arith, below))
  winner_of (x ∷ xs) zero rest below h i =
      ((best_of less x rest).1, refl, best_of-keeps x rest h.0 i)
  winner_of (x ∷ xs) (suc p) rest below h i = winner_of xs p rest (omega (arith, below)) h.1 i

  pub sample-Wins :
      (ranked : List (Scored less)) (p : ℕ) (ps : List ℕ)
      → p < length ranked
      → All (λ x. P x.1) ranked
      → Wins ranked (p ∷ ps)
  sample-Wins ranked p ps below h =
      winner_of ranked p (sample less ranked ps) below h (All-sample ranked ps h)

  -- The best of a generation is the best before, or of the ranked.
  pub improved-keeps :
      (e : Evolution R) (top : Scored less) → P e.best → P top.1 → P (improved less e top).best
  unfolding improved
  improved-keeps e top h i = elim (Bool-cases (improves less e.best_score top.0)) [
    | inl better ↦ rw better i
    | inr worse ↦ rw worse h
  ]
