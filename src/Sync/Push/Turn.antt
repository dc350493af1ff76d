-- ===== src/Sync/Push/Turn.antt =====
-- The turns of the loop over the mutations of a batch.
use test_paper_backend.Base.{
  ◌∙◌, subst, suc, sym, returned-value, returned-store, is_some, Result-cases, continue-ok, ℕ, ◌≡◌,
  ◌⊎◌, refl, ap, false, List, [], ◌∷◌, Option, none, some, arith, Result, ok, err, Bool-cases, inl,
  inr,
}
use test_paper_backend.Sync.Types.{
  Mutation, OperationResult, Failure, api, integrity, key_error, value_error, runtime_error,
  is_applied, same_kind, create, batch_invalid,
}
use test_paper_backend.Sync.Rows.{Entity, Store}
use test_paper_backend.Sync.Tables.{find_entity, find_result}
use test_paper_backend.Sync.Conflicts.{create_conflict, conflict_result}
use test_paper_backend.Sync.Frame.{
  SameContent, SameContent-refl, create_conflict-SameContent, create_conflict-unapplied,
}
use test_paper_backend.Sync.Apply.{applied_result, rejected_result}
use test_paper_backend.Sync.Apply.Outcomes.{Accepted, Logged, apply_mutation-Outcome}
use test_paper_backend.Sync.Push.Settled.{AllSettled, failed_dependencies-AllSettled}
use test_paper_backend.Sync.Push.{
  dependency_result, Batching, Results, keep_result, decide, failed_dependencies, attempt,
  recover_unused, recover, handled, push_one, push_all,
}

module _ (b : Batching) (n : ℕ) (m : Mutation) where
  keep_result-SameContent :
      (r : OperationResult) (s : Store) → SameContent s (keep_result b n m r s).1
  unfolding keep_result
  keep_result-SameContent r s = ground arith

  -- A kept result that did not apply, over a step that wrote no content.
  abbrev pub Unapplied : Store → OperationResult → Store → Type 0
  Unapplied s r t =
      (is_applied r.status ≡ false) × (r.operation_id ≡ m.operation_id) × SameContent s t

  keep_result-Unapplied :
      (r' : OperationResult) (s s' : Store) {r : OperationResult} {t : Store}
      → Unapplied s r' s'
      → keep_result b n m r' s' ≡ (ok r, t)
      → Unapplied s r t
  unfolding keep_result
  keep_result-Unapplied r' s s' u h = ground arith

  recover_unused-Unapplied :
      (o : Option Entity) (s : Store) {r : OperationResult} {t : Store}
      → recover_unused b n m o s ≡ (ok r, t)
      → Unapplied s r t
  unfolding recover_unused rejected_result conflict_result
  recover_unused-Unapplied none s {r} {t} h =
      keep_result-Unapplied (rejected_result m batch_invalid) s s (refl, refl, SameContent-refl s) h
  recover_unused-Unapplied (some e) s {r} {t} h = elim (Bool-cases (same_kind m.kind create)) [
    | inr k ↦
        keep_result-Unapplied (conflict_result m e none) s s (refl, refl, SameContent-refl s)
          (rw k at h)
    | inl k ↦
        let (r', s', first, second) =
          continue-ok (create_conflict b.env b.user b.device m e s) (keep_result b n m)
            (rw k at h) in
        let un = create_conflict-unapplied b.env b.user b.device m e s (ap (λ x. x.0) first) in
        keep_result-Unapplied r' s s'
          (
            un.0,
            un.1,
            subst (SameContent s) (ap (λ x. x.1) first)
                (create_conflict-SameContent b.env b.user b.device m e s),
          )
          second
  ]

  recover-Unapplied :
      (s : Store) {r : OperationResult} {t : Store} → recover b n m s ≡ (ok r, t) → Unapplied s r t
  unfolding recover rejected_result
  recover-Unapplied s {r} {t} h =
      elim (Bool-cases (is_some (find_result b.user.id m.operation_id s))) [
        | inl reused ↦
            let e = rw reused at h in
            (
              ground arith,
              ground arith,
              subst (SameContent s) (ap (λ x. x.1) e) (SameContent-refl s),
            )
        | inr unused ↦
            recover_unused-Unapplied (find_entity b.user.id m.entity_type m.entity_id s) s
              (rw unused at h)
      ]

  -- An applied result: every dependency settled, and the entity was written.
  abbrev pub Applied : Results → Store → OperationResult → Store → Type 0
  Applied done s r t =
      AllSettled done m.depends_on
      × ((e : Entity) × Accepted b.env b.user b.device m r e s t
          × Logged b.env b.user b.device m e s t)

  keep_result-Applied :
      (done : Results) (r' : OperationResult) (s s' : Store) {r : OperationResult} {t : Store}
      → Applied done s r' s'
      → keep_result b n m r' s' ≡ (ok r, t)
      → Applied done s r t
  unfolding keep_result find_entity
  keep_result-Applied done r' s s' {r} {t} (settles, (e, a, l)) h =
      let same : r ≡ r' = ground arith in
      let content : SameContent s' t = ground arith in
      (
        settles,
        (
          e,
          record {
            stored = rw content.entities a.stored;
            hash = a.hash;
            payload = a.payload;
            tombstone = a.tombstone;
            result = same ∙ a.result;
            successor = a.successor;
          },
          record {
            key = l.key;
            versions = content.versions ∙ l.versions;
            changes = content.changes ∙ l.changes;
          },
        ),
      )

  decide-turn :
      (done : Results) (ids : List ℕ) (s : Store) {r : OperationResult} {t : Store}
      → failed_dependencies done m.depends_on ≡ ok ids
      → decide b m ids s ≡ (ok r, t)
      → Unapplied s r t ⊎ Applied done s r t
  unfolding decide dependency_result
  decide-turn done [] s e h = elim (apply_mutation-Outcome b.env b.user b.device m s h) [
    | inl u ↦ inl u
    | inr a ↦ inr (failed_dependencies-AllSettled done m.depends_on e, a)
  ]
  decide-turn done (d ∷ ds) s {r} {t} e h =
      inl (ground arith, ground arith, subst (SameContent s) (ap (λ x. x.1) h) (SameContent-refl s))

  attempt-turn :
      (done : Results) (s : Store) {r : OperationResult} {t : Store}
      → attempt b done n m s ≡ (ok r, t)
      → Unapplied s r t ⊎ Applied done s r t
  unfolding attempt
  attempt-turn done s {r} {t} h = elim (Result-cases (failed_dependencies done m.depends_on)) [
    | inr (f, e) ↦ absurd (ground arith)
    | inl (ids, e) ↦
        let (r', s', first, second) =
          continue-ok (decide b m ids s) (keep_result b n m) (rw (e, attempt) at h) in
        elim (decide-turn done ids s e first) [
          | inl u ↦ inl (keep_result-Unapplied r' s s' u second)
          | inr a ↦ inr (keep_result-Applied done r' s s' a second)
        ]
  ]

  handled-turn :
      (done : Results) (s : Store) (x : Result Failure OperationResult × Store)
      {r : OperationResult} {t : Store}
      → attempt b done n m s ≡ x
      → handled b n m s x ≡ (ok r, t)
      → Unapplied s r t ⊎ Applied done s r t
  unfolding handled
  handled-turn done s (ok r', s') e h = attempt-turn done s (e ∙ h)
  handled-turn done s (err integrity, s') e h = inl (recover-Unapplied s h)
  handled-turn done s (err key_error, s') {r} {t} e h = absurd (ground arith)
  handled-turn done s (err value_error, s') {r} {t} e h = absurd (ground arith)
  handled-turn done s (err runtime_error, s') {r} {t} e h = absurd (ground arith)
  handled-turn done s (err (api c k), s') {r} {t} e h = absurd (ground arith)

  pub push_one-turn :
      (done : Results) (s : Store) {r : OperationResult} {t : Store}
      → push_one b done n m s ≡ (ok r, t)
      → Unapplied s r t ⊎ Applied done s r t
  unfolding push_one
  push_one-turn done s h = handled-turn done s _ refl h

  pub push_one-operation :
      (done : Results) (s : Store) {r : OperationResult} {t : Store}
      → push_one b done n m s ≡ (ok r, t)
      → r.operation_id ≡ m.operation_id
  push_one-operation done s h = elim (push_one-turn done s h) [
    | inl (_, op, _) ↦ op
    | inr (_, (e, a, l)) ↦
        unfold applied_result in ap (λ (x : OperationResult). x.operation_id) a.result
  ]

-- The turns of a loop: each returns a result that did not apply, over a store whose content is as
-- before, or an applied one, all of whose dependencies were settled in the turns before.
abbrev pub Turns :
    Batching → Results → ℕ → List Mutation → Store → List OperationResult → Store → Type 0
Turns b done n [] s rs t = (rs ≡ []) × (t ≡ s)
Turns b done n (m ∷ ms) s rs t =
    (r : OperationResult) × (rest : List OperationResult) × (u : Store) × (rs ≡ r ∷ rest)
    × (Unapplied b n m s r u ⊎ Applied b n m done s r u)
    × Turns b ((m.operation_id, r) ∷ done) (suc n) ms u rest t

loop-Turns :
    (b : Batching) (done : Results) (n : ℕ) (ms : List Mutation) (s : Store)
    {rs : List OperationResult} {t : Store}
    → push_all b done n ms s ≡ (ok rs, t)
    → Turns b done n ms s rs t
unfolding push_all
loop-Turns b done n [] s h = ground arith
loop-Turns b done n (m ∷ ms) s {rs} {t} h =
    let (r, u, first, after) = continue-ok (push_one b done n m s) _ h in
    let (rest, u', more, last) =
      continue-ok (push_all b ((m.operation_id, r) ∷ done) (suc n) ms u) _ after in
    let same : u' ≡ t = sym (returned-store (r ∷ rest) rs u' t last) in
    (
      r,
      rest,
      u,
      sym (returned-value (r ∷ rest) rs u' t last),
      push_one-turn b n m done s first,
      loop-Turns b ((m.operation_id, r) ∷ done) (suc n) ms u (more ∙ ap (λ w. (ok rest, w)) same),
    )

-- The loop over the mutations of a batch, where it returns, takes one turn per mutation, in order. A
-- turn yields either a result that did not apply, over a store whose content is as before, or an
-- applied one that wrote its entity, one version and one change; and then each of its dependencies
-- is an operation of an earlier turn whose result was applied or noop.
pub push_all-Turns :
    (b : Batching) (ms : List Mutation) (s : Store) {rs : List OperationResult} {t : Store}
    → push_all b [] 0 ms s ≡ (ok rs, t)
    → Turns b [] 0 ms s rs t
push_all-Turns b ms s h = loop-Turns b [] 0 ms s h
