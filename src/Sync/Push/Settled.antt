-- ===== src/Sync/Push/Settled.antt =====
-- When the gate on the dependencies of a mutation is open: `failed_dependencies` in `push_mutations`.
use test_paper_backend.Base.{
  ◌∙◌, true, ◌==◌, find_by, Option-cases, Result-cases, ℕ, ◌≡◌, ◌⊎◌, refl, ap, List, [], ◌∷◌, some,
  arith, ok, Bool-cases, inl, inr,
}
use test_paper_backend.Sync.Types.{
  OperationResult, OperationStatus, applied, noop, conflict, dependency_failed, rejected,
}
use test_paper_backend.Sync.Push.{Results, failed_dependencies, result_of, settled}

-- The last outcome of an operation in the turns before, whose newest stands first, is that it was
-- applied or had nothing to do.
abbrev pub Settled : Results → ℕ → Type 0
Settled done d =
    (k : ℕ) × (r : OperationResult) × (find_by (λ (x : ℕ × OperationResult). x.0 == d) done
      ≡ some (k, r))
    × ((r.status ≡ applied) ⊎ (r.status ≡ noop))

abbrev pub AllSettled : Results → List ℕ → Type 0
AllSettled done [] = Unit
AllSettled done (d ∷ ds) = Settled done d × AllSettled done ds

settled-applied : (x : OperationStatus) → settled x ≡ true → (x ≡ applied) ⊎ (x ≡ noop)
settled-applied applied h = inl refl
settled-applied noop h = inr refl
settled-applied conflict h = absurd (ground arith)
settled-applied dependency_failed h = absurd (ground arith)
settled-applied rejected h = absurd (ground arith)

result_of-find :
    (d : ℕ) (done : Results) {r : OperationResult}
    → result_of d done ≡ some r
    → (k : ℕ) × (find_by (λ (x : ℕ × OperationResult). x.0 == d) done ≡ some (k, r))
unfolding result_of
result_of-find d [] {r} h = absurd (ground arith)
result_of-find d ((k, x) ∷ done) {r} h = elim (Bool-cases (k == d)) [
  | inl e ↦ (k, ground (arith, e))
  | inr e ↦ let (k', f) = result_of-find d done (rw e at h) in (k', rw e f)
]

-- Without failed dependencies, all are settled.
pub failed_dependencies-AllSettled :
    (done : Results) (ids : List ℕ) → failed_dependencies done ids ≡ ok [] → AllSettled done ids
unfolding failed_dependencies
failed_dependencies-AllSettled done [] h = tt
failed_dependencies-AllSettled done (d ∷ ds) h = elim (Option-cases (result_of d done)) [
  | inl missing ↦ absurd (ground arith)
  | inr (r, found) ↦ elim (Result-cases (failed_dependencies done ds)) [
    | inr (f, e) ↦ absurd (ground arith)
    | inl (ids, e) ↦ elim (Bool-cases (settled r.status)) [
      | inr unmet ↦ absurd (ground arith)
      | inl done_well ↦
          let (k, f) = result_of-find d done found in
          let none_left : ids ≡ [] = ground arith in
          (
            (k, r, f, settled-applied r.status done_well),
            failed_dependencies-AllSettled done ds (e ∙ ap ok none_left),
          )
    ]
  ]
]
