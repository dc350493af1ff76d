-- ===== src/Generation/Shares/Exact.antt =====
-- The marks and the targets of testpaper_backend/services/paper_generation.py add up to what was asked
-- for, whatever the rounding of the shares.
use native.Mathlib.Nat.{mul-suc, mul-le-mul_left, mul-le-mul_right}
use test_paper_backend.Base.{
  ℕ, zero, suc, ◌-◌, ◌*◌, ◌<◌, ◌≤◌, max, ◌≡◌, refl, sym, ap, ◌∙◌, subst, inl, inr, Bool, some, List,
  [], ◌∷◌, map, length, All, ltb, leb, ◌==◌, arith, Bool-cases, leb→le, ge→ltb,
}
use test_paper_backend.Generation.Marks.{sum, pos, negsuc, difference, is_positive, balance}
use test_paper_backend.Generation.Marks.Cycle.{floor_sum}
use test_paper_backend.Generation.Marks.Balance.{
  Ranks, balance-given, balance-taken, balance-keeps, ahead, rounds,
}
use test_paper_backend.Generation.Shares.{
  FloatOps, places, raw_marks, first_marks, spread, distribute_marks, normalize_targets,
}
use test_paper_backend.Generation.Shares.Ranked.{length-map, length-places, places-Ranks}

rounds-mul :
    (least : ℕ) (ranked : List ℕ) (n : ℕ) (ranks : Ranks ranked n) (some_rank : 0 < length ranked)
    (k : ℕ)
    → rounds least ranked n ranks some_rank k ≡ length ranked * k
rounds-mul least ranked n ranks some_rank zero = omega arith
rounds-mul least ranked n ranks some_rank (suc k) =
    omega (arith, rounds-mul least ranked n ranks some_rank k, mul-suc (length ranked) k)

le_times : (n m : ℕ) → 0 < n → m ≤ n * m
le_times n m h = omega (arith, mul-le-mul_right {m = 1} {n = n} m (omega (arith, h)))

module _ (least : ℕ) (ranked marks : List ℕ) (total fuel : ℕ) (ranks : Ranks ranked (length marks))
    (some_rank : 0 < length ranked) where
  given :
      sum marks ≤ total
      → total ≤ fuel
      → sum (balance least ranked fuel 0 (marks, pos (total - sum marks))).0 ≡ total
  given under enough =
      let (spent, _) =
        balance-given least ranked (length marks) ranks some_rank fuel (total - sum marks) 0 marks
          refl (omega (arith, under, enough)) in
      omega (arith, spent, under)

  taken :
      total < sum marks
      → floor_sum least (length marks) ≤ total
      → length ranked * (sum marks - total) ≤ fuel
      → sum (balance least ranked fuel 0 (marks, negsuc (sum marks - suc total))).0 ≡ total
  taken over bound enough =
      let k = sum marks - suc total in
      let (d, near, there) =
        ahead least ranked (length marks) ranks some_rank 0 marks refl
          (omega (arith, over, bound)) in
      let gap : suc k ≡ sum marks - total = omega (arith, over) in
      (balance-taken least ranked (length marks) ranks some_rank fuel k d 0 total marks refl
        (omega (arith, over)) bound there near
        (omega (
          arith,
          near,
          enough,
          rounds-mul least ranked (length marks) ranks some_rank k,
          mul-suc (length ranked) k,
          ap (λ m. length ranked * m) gap,
        ))).0

  -- What is left or too much at the start is spent, within a round for each unit.
  balance-exact :
      floor_sum least (length marks) ≤ total
      → length ranked * max total (sum marks) ≤ fuel
      → sum (balance least ranked fuel 0 (marks, difference total (sum marks))).0 ≡ total
  unfolding difference
  balance-exact bound enough = elim (Bool-cases (leb (sum marks) total)) [
    | inl under ↦ rw under (
        given (leb→le (sum marks) total under)
          (omega (arith, enough, le_times (length ranked) (max total (sum marks)) some_rank)))
    | inr over ↦ rw over (
        taken (ground (arith, over)) bound (
          omega (
            arith,
            enough,
            mul-le-mul_left {m = sum marks - total} {n = max total (sum marks)} (length ranked)
                (omega arith),
          )))
  ]

All-first_marks :
    {R : Type 0} (ops : FloatOps R) (raws : List R) → All (λ x. 1 ≤ x) (first_marks ops raws)
unfolding first_marks
All-first_marks ops [] = tt
All-first_marks ops (r ∷ rs) = (omega arith, All-first_marks ops rs)

floor_one : (n : ℕ) → floor_sum 1 n ≡ n
floor_one zero = refl
floor_one (suc n) = omega (arith, floor_one n)

floor_zero : (n : ℕ) → floor_sum 0 n ≡ 0
floor_zero zero = refl
floor_zero (suc n) = omega (arith, floor_zero n)

module _ {R : Type 0} (ops : FloatOps R) (raws : List R) (total : ℕ)
    (some_raw : 0 < length raws) where
  length-first_marks : length (first_marks ops raws) ≡ length raws
  unfolding first_marks
  length-first_marks = length-map (λ r. max 1 (ops.int r)) raws

  spread-exact :
      length raws ≤ total
      → (sum (spread ops raws total) ≡ total)
        × (length (spread ops raws total) ≡ length raws)
        × All (λ x. 1 ≤ x) (spread ops raws total)
  unfolding spread
  spread-exact enough =
      let marks = first_marks ops raws in
      let reverse = is_positive (difference total (sum marks)) in
      let ranked = places reverse ops.less_fraction raws in
      let fuel = max 1 (length ranked * max total (sum marks)) in
      let ranks : Ranks ranked (length marks) =
        subst (λ m. Ranks ranked m) (sym length-first_marks)
          (places-Ranks reverse ops.less_fraction raws) in
      let some_rank : 0 < length ranked =
        subst (λ m. 0 < m) (sym (length-places reverse ops.less_fraction raws)) some_raw in
      let (least, same) =
        balance-keeps 1 ranked fuel 0 (marks, difference total (sum marks))
          (All-first_marks ops raws) in
      (
        balance-exact 1 ranked marks total fuel ranks some_rank
            (omega (arith, floor_one (length marks), length-first_marks, enough)) (omega arith),
        same ∙ length-first_marks,
        least,
      )

length-raw_marks :
    {R : Type 0} (ops : FloatOps R) (scores : List R) (total : ℕ)
    → length (raw_marks ops scores total) ≡ length scores
unfolding raw_marks
length-raw_marks ops scores total =
    length-map (λ w. ops.raw_mark total w (ops.weight_total (map ops.weight scores)))
      (map ops.weight scores)
    ∙ length-map ops.weight scores

-- For one question or more and a total of at least one mark for each, `distribute_marks` returns one
-- mark for each question, none below one, and they add up to the total, whatever the float arithmetic.
pub distribute_marks-exact :
    {R : Type 0} (ops : FloatOps R) (scores : List R) (total : ℕ)
    → 0 < length scores
    → length scores ≤ total
    → (marks : List ℕ) × (distribute_marks ops scores total ≡ some marks)
      × (sum marks ≡ total)
      × (length marks ≡ length scores)
      × All (λ x. 1 ≤ x) marks
unfolding distribute_marks
distribute_marks-exact ops [] total many enough = absurd (omega (arith, many))
distribute_marks-exact ops (score ∷ scores) total many enough =
    let raws = raw_marks ops (score ∷ scores) total in
    let same : length raws ≡ length (score ∷ scores) =
      length-raw_marks ops (score ∷ scores) total in
    let (exact, long, least) =
      spread-exact ops raws total (omega (arith, same, many)) (omega (arith, same, enough)) in
    (
      spread ops raws total,
      rw (ge→ltb total (length (score ∷ scores)) enough) refl,
      exact,
      long ∙ same,
      least,
    )

sum-zeros : (xs : List ℕ) → sum (map (λ _. 0) xs) ≡ 0
sum-zeros [] = refl
sum-zeros (x ∷ xs) = omega (arith, sum-zeros xs)

module _ (rounded : ℕ → ℕ → ℕ → ℕ) (fuel : ℕ) (targets : List ℕ) (question_count : ℕ) where
  abbrev pub shares : List ℕ
  shares = map (λ v. rounded question_count v (sum targets)) targets

  All-any : (xs : List ℕ) → All (λ x. 0 ≤ x) xs
  All-any [] = tt
  All-any (x ∷ xs) = (omega arith, All-any xs)

  shared :
      (reverse : Bool)
      → 0 < length targets
      → length targets * max question_count (sum shares) ≤ fuel
      → sum
          (balance 0
            (places reverse ltb targets)
            fuel
            0
            (shares, difference question_count (sum shares))).0
        ≡ question_count
  shared reverse some_target enough =
      let ranked = places reverse ltb targets in
      let same : length shares ≡ length targets =
        length-map (λ v. rounded question_count v (sum targets)) targets in
      let long : length ranked ≡ length targets = length-places reverse ltb targets in
      let ranks : Ranks ranked (length shares) =
        subst (λ m. Ranks ranked m) (sym same) (places-Ranks reverse ltb targets) in
      balance-exact 0 ranked shares question_count fuel ranks
        (subst (λ m. 0 < m) (sym long) some_target) (omega (arith, floor_zero (length shares)))
        (subst (λ m. m * max question_count (sum shares) ≤ fuel) (sym long) enough)

-- The targets of one key or more, normalised, add up to the question count, whatever the rounding of the
-- shares: that many turns of the loop are enough.
pub normalize_targets-exact :
    (rounded : ℕ → ℕ → ℕ → ℕ) (fuel : ℕ) (targets : List ℕ) (question_count : ℕ)
    → 0 < length targets
    → length targets * max question_count (sum (shares rounded fuel targets question_count)) ≤ fuel
    → sum (normalize_targets rounded fuel targets question_count) ≡ question_count
unfolding normalize_targets
normalize_targets-exact rounded fuel [] question_count some_target enough =
    absurd (omega (arith, some_target))
normalize_targets-exact rounded fuel (x ∷ xs) question_count some_target enough =
    elim (Bool-cases (sum (x ∷ xs) == question_count)) [
      | inl exact ↦ rw exact (ground (arith, exact))
      | inr other ↦ rw other (elim (Bool-cases (sum (x ∷ xs) == 0)) [
        | inl nothing ↦ rw nothing (omega (arith, sum-zeros xs))
        | inr something ↦ rw something (
            shared rounded fuel (x ∷ xs) question_count
              (is_positive
                (difference question_count (sum (shares rounded fuel (x ∷ xs) question_count))))
              some_target enough)
      ])
    ]
