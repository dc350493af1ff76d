-- ===== src/Sync/Push/Batches.antt =====
-- The loop of `push_mutations` and the batch rows.
use test_paper_backend.Base.{
  ◌∙◌, Result-cases, continue-keeps, ℕ, suc, ◌≡◌, List, [], ◌∷◌, Option, none, some, arith,
  Bool-cases, inl, inr,
}
use test_paper_backend.Sync.Types.{Mutation, OperationResult, same_kind, create}
use test_paper_backend.Sync.Rows.{Entity, Batch, Store}
use test_paper_backend.Sync.Tables.{find_entity}
use test_paper_backend.Sync.Conflicts.{create_conflict, conflict_result}
use test_paper_backend.Sync.Frame.{create_conflict-SameRest}
use test_paper_backend.Sync.Apply.Rest.{apply_mutation-SameRest}
use test_paper_backend.Sync.Push.{
  Batching, Results, keep_result, decide, failed_dependencies, attempt, recover_unused, push_one,
  push_all,
}

module _ (b : Batching) (n : ℕ) (m : Mutation) (bs : List Batch) where
  abbrev Keeps : Store → Type 0
  Keeps s = s.batches ≡ bs

  keep_result-Keeps : (r : OperationResult) (s : Store) → Keeps s → Keeps (keep_result b n m r s).1
  unfolding keep_result
  keep_result-Keeps r s h = ground arith

  decide-Keeps : (ids : List ℕ) (s : Store) → Keeps s → Keeps (decide b m ids s).1
  unfolding decide
  decide-Keeps [] s h = (apply_mutation-SameRest b.env b.user b.device m s).batches ∙ h
  decide-Keeps (_ ∷ _) s h = h

  attempt-Keeps : (done : Results) (s : Store) → Keeps s → Keeps (attempt b done n m s).1
  unfolding attempt
  attempt-Keeps done s h = elim (Result-cases (failed_dependencies done m.depends_on)) [
    | inl (ids, e) ↦
        rw (e, attempt)
          (continue-keeps Keeps (decide b m ids s) (keep_result b n m) (decide-Keeps ids s h)
            keep_result-Keeps)
    | inr (f, e) ↦ rw (e, attempt) h
  ]

  recover_unused-Keeps :
      (o : Option Entity) (s : Store) → Keeps s → Keeps (recover_unused b n m o s).1
  unfolding recover_unused
  recover_unused-Keeps none s h = keep_result-Keeps _ s h
  recover_unused-Keeps (some e) s h = elim (Bool-cases (same_kind m.kind create)) [
    | inl k ↦ rw k (
        continue-keeps Keeps (create_conflict b.env b.user b.device m e s) (keep_result b n m)
          ((create_conflict-SameRest b.env b.user b.device m e s).batches ∙ h) keep_result-Keeps)
    | inr k ↦ rw k (keep_result-Keeps (conflict_result m e none) s h)
  ]

  push_one-Keeps : (done : Results) (s : Store) → Keeps s → Keeps (push_one b done n m s).1
  unfolding push_one
  push_one-Keeps done s h = ground (
    arith,
    attempt-Keeps done s h,
    recover_unused-Keeps (find_entity b.user.id m.entity_type m.entity_id s) s h,
  )

pub push_all-Keeps :
    (b : Batching) (bs : List Batch) (done : Results) (n : ℕ) (ms : List Mutation) (s : Store)
    → s.batches ≡ bs
    → (push_all b done n ms s).1.batches ≡ bs
unfolding push_all
push_all-Keeps b bs done n [] s h = h
push_all-Keeps b bs done n (m ∷ ms) s h =
    continue-keeps (Keeps b n m bs) (push_one b done n m s) _ (push_one-Keeps b n m bs done s h)
      λ r s' h'.
        continue-keeps (Keeps b n m bs) (push_all b ((m.operation_id, r) ∷ done) (suc n) ms s') _
          (push_all-Keeps b bs ((m.operation_id, r) ∷ done) (suc n) ms s' h') (λ rs t k. k)
