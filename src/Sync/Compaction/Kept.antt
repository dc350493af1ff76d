-- ===== src/Sync/Compaction/Kept.antt =====
-- The rows that a compaction leaves, as readers of the change log select them.
use test_paper_backend.Base.{
  ℕ, zero, suc, ◌+◌, ◌≤◌, ◌<◌, ◌≡◌, sym, ◌∙◌, Bool, true, ◌&&◌, not, List, arith, ltb, leb,
  Bool-cases, inl, inr, filter_by, any_by, In, any_by-In, In-any_by, In-filter_by, In-filtered,
  filter_by-cong, filter_by-filter_by,
}
use test_paper_backend.Sync.Rows.{Change}
use test_paper_backend.Sync.Compaction.{in_scope, replaces, is_deletable, compacted}

-- The row of rank 1 of its entity among the changes up to `b`.
abbrev pub is_newest : ℕ → ℕ → ℕ → List Change → Change → Bool
is_newest owner scope b table c =
    in_scope owner scope c && leb c.sequence b && not (any_by (replaces b c) table)

unfoldable pub newest_changes : ℕ → ℕ → ℕ → List Change → List Change
newest_changes owner scope b table = filter_by (is_newest owner scope b table) table

module _ (owner scope boundary : ℕ) (table : List Change) where
  -- The changes that a pull from a cursor at or past the boundary finds, in the order of the log.
  pub compacted-after :
      (q : ℕ)
      → boundary ≤ q
      → filter_by (λ (c : Change). ltb q c.sequence) (compacted owner scope boundary table)
        ≡ filter_by (λ (c : Change). ltb q c.sequence) table
  unfolding compacted is_deletable
  compacted-after q h = filter_by-filter_by _ _ table (λ c i k. ground arith)

  -- A change that is replaced is replaced by one that is kept.
  replaced_by_kept :
      (n b : ℕ) (c r : Change)
      → boundary ≤ b
      → In r table
      → replaces b c r ≡ true
      → b < n + r.sequence
      → any_by (replaces b c) (compacted owner scope boundary table) ≡ true
  unfolding compacted
  replaced_by_kept zero b c r h i k less = absurd (ground arith)
  replaced_by_kept (suc n) b c r h i k less =
      elim (Bool-cases (is_deletable owner scope boundary table r)) [
        | inr kept ↦ any_by-In (replaces b c) r _ (In-filter_by _ r table i (rw kept)) k
        | inl gone ↦
            let (r', i', k') =
              In-any_by (replaces boundary r) table (unfold is_deletable in ground arith) in
            replaced_by_kept n b c r' h i' (ground arith) (ground arith)
      ]

  same_replacement :
      (b : ℕ) (c : Change)
      → boundary ≤ b
      → any_by (replaces b c) (compacted owner scope boundary table) ≡ any_by (replaces b c) table
  unfolding compacted
  same_replacement b c h = elim (Bool-cases (any_by (replaces b c) table)) [
    | inl found ↦
        let (r, i, k) = In-any_by (replaces b c) table found in
        replaced_by_kept (suc b) b c r h i k (omega arith) ∙ sym found
    | inr none_found ↦
        elim (Bool-cases (any_by (replaces b c) (compacted owner scope boundary table))) [
          | inr also ↦ also ∙ sym none_found
          | inl still ↦
              let (r, i, k) =
                In-any_by (replaces b c) (compacted owner scope boundary table) still in
              let (i', _) =
                In-filtered (λ (x : Change). not (is_deletable owner scope boundary table x)) r
                  table i in
              absurd (ground (arith, any_by-In (replaces b c) r table i' k))
        ]
  ]

  newest_kept :
      (b : ℕ) (c : Change)
      → boundary ≤ b
      → is_newest owner scope b table c ≡ true
      → not (is_deletable owner scope boundary table c) ≡ true
  unfolding is_deletable
  newest_kept b c h k = elim (Bool-cases (any_by (replaces boundary c) table)) [
    | inr none_found ↦ ground arith
    | inl found ↦
        let (r, i, l) = In-any_by (replaces boundary c) table found in
        absurd (ground (arith, any_by-In (replaces b c) r table i (ground arith)))
  ]

  -- The newest change of every entity at any boundary at or past this one, which a snapshot shows.
  pub compacted-newest :
      (b : ℕ)
      → boundary ≤ b
      → newest_changes owner scope b (compacted owner scope boundary table)
        ≡ newest_changes owner scope b table
  unfolding newest_changes
  compacted-newest b h =
      filter_by-cong (is_newest owner scope b (compacted owner scope boundary table))
        (is_newest owner scope b table) (compacted owner scope boundary table)
        (λ c i. ground (arith, same_replacement b c h))
      ∙ unfold compacted in filter_by-filter_by _ _ table (λ c i k. newest_kept b c h k)

  pub compacted-others :
      filter_by
        (λ (c : Change). not (in_scope owner scope c))
        (compacted owner scope boundary table)
      ≡ filter_by (λ (c : Change). not (in_scope owner scope c)) table
  unfolding compacted is_deletable
  compacted-others = filter_by-filter_by _ _ table (λ c i k. ground arith)
