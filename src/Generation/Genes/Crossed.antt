-- ===== src/Generation/Genes/Crossed.antt =====
-- A child of two parents is an individual of the right length, of candidates, without repetition.
use test_paper_backend.Base.{
  ℕ, suc, ◌<◌, ◌≤◌, ◌≡◌, refl, subst, inl, inr, true, false, List, [], ◌∷◌, ◌++◌, length,
  length-append, take, leb, leb→le, if◌then◌else◌, arith, Bool-cases,
}
use test_paper_backend.Generation.Genes.{member, fill, pivot_of, crossover_individual}
use test_paper_backend.Generation.Genes.Distinct.{
  Distinct, Individual, Within-append, Within-refl, Within-take, Within-drop_first, length-take_le,
  Within, member-append, length-Within, Distinct-append_new, Distinct-take,
}

module _ (question_count : ℕ) where
  abbrev extended : ℕ → List ℕ → List ℕ
  extended x child = if member x child then child else child ++ x ∷ []

  extended-Distinct : (x : ℕ) (child : List ℕ) → Distinct child → Distinct (extended x child)
  extended-Distinct x child h = elim (Bool-cases (member x child)) [
    | inl e ↦ rw e h
    | inr e ↦ rw e (Distinct-append_new x child h e)
  ]

  fill-Distinct : (child ids : List ℕ) → Distinct child → Distinct (fill question_count child ids)
  unfolding fill
  fill-Distinct child [] h = h
  fill-Distinct child (x ∷ xs) h = elim (Bool-cases (leb question_count (length child))) [
    | inl e ↦ rw e h
    | inr e ↦ rw e (fill-Distinct (extended x child) xs (extended-Distinct x child h))
  ]

  member-extended :
      (x z : ℕ) (child : List ℕ) → member z child ≡ true → member z (extended x child) ≡ true
  member-extended x z child h = ground (arith, member-append z child (x ∷ []))

  member-extended_new : (x : ℕ) (child : List ℕ) → member x (extended x child) ≡ true
  member-extended_new x child = ground (arith, member-append x child (x ∷ []))

  -- What the child has, it keeps.
  fill-keeps :
      (z : ℕ) (child ids : List ℕ)
      → member z child ≡ true
      → member z (fill question_count child ids) ≡ true
  unfolding fill
  fill-keeps z child [] h = h
  fill-keeps z child (x ∷ xs) h = elim (Bool-cases (leb question_count (length child))) [
    | inl e ↦ rw e h
    | inr e ↦ rw e (fill-keeps z (extended x child) xs (member-extended x z child h))
  ]

  length-extended : (x : ℕ) (child : List ℕ) → length (extended x child) ≤ suc (length child)
  length-extended x child = ground (arith, length-append child (x ∷ []))

  fill-bound :
      (child ids : List ℕ)
      → length child ≤ question_count
      → length (fill question_count child ids) ≤ question_count
  unfolding fill
  fill-bound child [] h = h
  fill-bound child (x ∷ xs) h = elim (Bool-cases (leb question_count (length child))) [
    | inl e ↦ rw e h
    | inr e ↦ rw e (fill-bound (extended x child) xs (ground (arith, e, length-extended x child)))
  ]

  fill_next :
      (child : List ℕ) (x : ℕ) (xs : List ℕ)
      → leb question_count (length child) ≡ false
      → fill question_count child (x ∷ xs) ≡ fill question_count (extended x child) xs
  unfolding fill
  fill_next child x xs e = rw e refl

  -- A child that is still short has met every id.
  fill-short :
      (child ids : List ℕ)
      → length (fill question_count child ids) < question_count
      → Within ids (fill question_count child ids)
  unfolding fill
  fill-short child [] h = tt
  fill-short child (x ∷ xs) h = elim (Bool-cases (leb question_count (length child))) [
    | inl e ↦ absurd (ground (arith, e, h))
    | inr e ↦ rw e (
      fill-keeps x (extended x child) xs (member-extended_new x child),
      fill-short (extended x child) xs
          (subst (λ l. length l < question_count) (fill_next child x xs e) h),
    )
  ]

  extended-Within :
      (x : ℕ) (child zs : List ℕ)
      → member x zs ≡ true
      → Within child zs
      → Within (extended x child) zs
  extended-Within x child zs i h = elim (Bool-cases (member x child)) [
    | inl e ↦ rw e h
    | inr e ↦ rw e (Within-append child (x ∷ []) zs h (i, tt))
  ]

  fill-Within :
      (child ids zs : List ℕ)
      → Within child zs
      → Within ids zs
      → Within (fill question_count child ids) zs
  unfolding fill
  fill-Within child [] zs h i = h
  fill-Within child (x ∷ xs) zs h i = elim (Bool-cases (leb question_count (length child))) [
    | inl e ↦ rw e h
    | inr e ↦ rw e (fill-Within (extended x child) xs zs (extended-Within x child zs i.0 h) i.1)
  ]

  -- Where the last ids are enough different ones, the child is filled.
  length-fill :
      (child first last : List ℕ)
      → length child ≤ question_count
      → Distinct last
      → question_count ≤ length last
      → length (fill question_count child (first ++ last)) ≡ question_count
  length-fill child first last h distinct enough =
      elim (Bool-cases (leb question_count (length (fill question_count child (first ++ last))))) [
        | inl full ↦ omega (
          arith,
          fill-bound child (first ++ last) h,
          leb→le question_count (length (fill question_count child (first ++ last))) full,
        )
        | inr short ↦
            let less : length (fill question_count child (first ++ last)) < question_count =
              ground (arith, short) in
            absurd (
              omega (
                arith,
                less,
                enough,
                length-Within last (fill question_count child (first ++ last)) distinct (
                    Within-drop_first first last (fill question_count child (first ++ last))
                      (fill-short child (first ++ last) less)),
              ))
      ]

-- The child of two individuals is an individual, whatever pivot is drawn, where the candidates are
-- different and enough: it has exactly the question count of different candidates.
pub crossover_individual-Individual :
    (parent_a parent_b candidate_ids : List ℕ) (question_count drawn : ℕ)
    → Individual question_count candidate_ids parent_a
    → Individual question_count candidate_ids parent_b
    → Distinct candidate_ids
    → question_count ≤ length candidate_ids
    → Individual question_count candidate_ids
        (crossover_individual parent_a parent_b candidate_ids question_count drawn)
unfolding crossover_individual
crossover_individual-Individual parent_a parent_b candidate_ids question_count drawn a b distinct
      enough =
    let child = take (pivot_of question_count drawn) parent_a in
    record {
      size =
          length-fill question_count child parent_b candidate_ids
            (omega (arith, length-take_le (pivot_of question_count drawn) parent_a, a.size))
            distinct enough;
      distinct =
          fill-Distinct question_count child (parent_b ++ candidate_ids)
            (Distinct-take (pivot_of question_count drawn) parent_a a.distinct);
      within =
          fill-Within question_count child (parent_b ++ candidate_ids) candidate_ids
            (Within-take (pivot_of question_count drawn) parent_a candidate_ids a.within)
            (Within-append parent_b candidate_ids candidate_ids b.within
              (Within-refl candidate_ids));
    }
