-- ===== src/Generation/Targets/Counted.antt =====
-- The targets of the question types against what the request asks of each type, and the targets of the
-- difficulties against the question count and the shares of their weights.
use test_paper_backend.Base.{
  ap, min, ◌&&◌, ◌<◌, ◌≢◌, ◌⊎◌, ℕ, ◌+◌, ◌≡◌, refl, ◌∙◌, inl, inr, Bool, true, false, List, [], ◌∷◌,
  map, ◌==◌, if◌then◌else◌, arith, Bool-cases, subst,
}
use test_paper_backend.Generation.Marks.{sum}
use test_paper_backend.Generation.Targets.{
  TypeTarget, type_targets, Difficulty, easy, medium, hard, add_count, add_counts,
  generation_type_counts, WeightOps,
}

-- All that a list asks of a type.
abbrev pub asked : ℕ → List TypeTarget → ℕ
asked t [] = 0
asked t (c ∷ cs) = (if c.question_type == t then c.count else 0) + asked t cs

-- A type stands once at most.
abbrev pub has_type : ℕ → List TypeTarget → Bool
has_type t [] = false
has_type t (c ∷ cs) = if c.question_type == t then true else has_type t cs

abbrev pub Once : List TypeTarget → Type 0
Once [] = Unit
Once (c ∷ cs) = (has_type c.question_type cs ≡ false) × Once cs

asked-add_count :
    (t u n : ℕ) (counts : List TypeTarget)
    → asked t (add_count u n counts) ≡ asked t counts + (if u == t then n else 0)
asked-add_count t u n [] = omega arith
asked-add_count t u n (c ∷ cs) = ground (arith, asked-add_count t u n cs)

has_type-add_count :
    (t u n : ℕ) (counts : List TypeTarget)
    → (u == t) ≡ false
    → has_type t (add_count u n counts) ≡ has_type t counts
has_type-add_count t u n [] h = ground (arith, h)
has_type-add_count t u n (c ∷ cs) h = ground (arith, h, has_type-add_count t u n cs h)

Once-add_count : (u n : ℕ) (counts : List TypeTarget) → Once counts → Once (add_count u n counts)
Once-add_count u n [] h = (refl, tt)
Once-add_count u n (c ∷ cs) h = elim (Bool-cases (c.question_type == u)) [
  | inl e ↦ rw e h
  | inr e ↦ rw e (
    has_type-add_count c.question_type u n cs (differ c.question_type u e) ∙ h.0,
    Once-add_count u n cs h.1,
  )
]
  where
    differ : (a b : ℕ) → (a == b) ≡ false → (b == a) ≡ false
    differ a b h = ground arith

add_counts-asked :
    (t : ℕ) (counts targets : List TypeTarget)
    → Once counts
    → (asked t (add_counts counts targets) ≡ asked t counts + asked t targets)
      × Once (add_counts counts targets)
add_counts-asked t counts [] h = (omega arith, h)
add_counts-asked t counts (u ∷ us) h =
    let (total, once) =
      add_counts-asked t (add_count u.question_type u.count counts) us
        (Once-add_count u.question_type u.count counts h) in
    (omega (arith, total, asked-add_count t u.question_type u.count counts), once)

generation_type_counts-asked :
    (t : ℕ) (targets : List TypeTarget)
    → (asked t (generation_type_counts targets) ≡ asked t targets)
      × Once (generation_type_counts targets)
unfolding generation_type_counts
generation_type_counts-asked t targets =
    let (total, once) = add_counts-asked t [] targets tt in (omega (arith, total), once)

asked_none : (t : ℕ) (counts : List TypeTarget) → has_type t counts ≡ false → asked t counts ≡ 0
asked_none t [] h = refl
asked_none t (c ∷ cs) h = ground (arith, asked_none t cs)

module _ (available : ℕ → ℕ) where
  abbrev cut : TypeTarget → TypeTarget
  cut c = record c { count = min c.count (available c.question_type) }

  has_type-cut :
      (t : ℕ) (counts : List TypeTarget) → has_type t (map cut counts) ≡ has_type t counts
  has_type-cut t [] = refl
  has_type-cut t (c ∷ cs) = ground (arith, has_type-cut t cs)

  asked-cut :
      (t : ℕ) (counts : List TypeTarget)
      → Once counts
      → (asked t (map cut counts) ≡ min (asked t counts) (available t)) × Once (map cut counts)
  asked-cut t [] h = (omega arith, tt)
  asked-cut t (c ∷ cs) (alone, once) =
      let (rest, apart) = asked-cut t cs once in
      (
        elim (Bool-cases (c.question_type == t)) [
          | inr other ↦ ground (arith, other, rest)
          | inl same ↦
              let is_t : c.question_type ≡ t = ground (arith, same) in
              let no_more : has_type t cs ≡ false = subst (λ u. has_type u cs ≡ false) is_t alone in
              let none_cut : asked t (map cut cs) ≡ 0 =
                asked_none t (map cut cs) (has_type-cut t cs ∙ no_more) in
              ground (arith, same, is_t, asked_none t cs no_more, none_cut)
        ],
        (has_type-cut c.question_type cs ∙ alone, apart),
      )

-- The targets of the types have each type at most once, with all that the entries of the request ask of it
-- together, or the number of its candidates where there are fewer.
pub type_targets-asked :
    (available : ℕ → ℕ) (t : ℕ) (targets : List TypeTarget)
    → (asked t (type_targets available targets) ≡ min (asked t targets) (available t))
      × Once (type_targets available targets)
unfolding type_targets
type_targets-asked available t targets =
    let (total, once) = generation_type_counts-asked t targets in
    let (least, apart) = asked-cut available t (generation_type_counts targets) once in
    (least ∙ ap (λ n. min n (available t)) total, apart)

-- The whole count for one difficulty.
abbrev pub only : Difficulty → ℕ → List ℕ
only easy n = n ∷ 0 ∷ 0 ∷ []
only medium n = 0 ∷ n ∷ 0 ∷ []
only hard n = 0 ∷ 0 ∷ n ∷ []

module _ {R : Type 0} (ops : WeightOps R) (coefficient : R) (question_count : ℕ) where
  -- The rounded share of each difficulty; where none has a weight, the middle one has the weight 1.
  abbrev pub share_of : Difficulty → ℕ
  share_of easy = ops.round_target question_count (ops.weight coefficient easy)
  share_of medium = ops.round_target question_count (
      if ops.is_nothing (ops.weight coefficient easy)
        && (ops.is_nothing (ops.weight coefficient medium)
            && ops.is_nothing (ops.weight coefficient hard))
      then ops.one
      else ops.weight coefficient medium)
  share_of hard = ops.round_target question_count (ops.weight coefficient hard)

  abbrev pub three_shares : List ℕ
  three_shares = share_of easy ∷ share_of medium ∷ share_of hard ∷ []

  -- Targets of the three difficulties that add up to the question count: without any share the whole count is
  -- for the nearest difficulty, and shares that add up to it already are the targets.
  abbrev pub SharedOut : List ℕ → Type 0
  SharedOut targets =
      (sum targets ≡ question_count)
      × (((sum three_shares ≡ 0) × (targets ≡ only (ops.nearest coefficient) question_count))
          ⊎ (((sum three_shares ≡ question_count) × (targets ≡ three_shares))
              ⊎ ((0 < sum three_shares) × (sum three_shares ≢ question_count))))
