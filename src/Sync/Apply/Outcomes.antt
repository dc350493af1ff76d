-- ===== src/Sync/Apply/Outcomes.antt =====
-- The results of `_apply_mutation` (testpaper_backend/services/sync_push.py) beside what it writes.
use test_paper_backend.Base.{
  ap, subst, is_some, find_by-test, find_by-update_by, any_by, ◌&&◌, ◌||◌, ℕ, suc, ◌≡◌, ◌⊎◌, refl,
  true, false, not, [], ◌∷◌, ◌++◌, Option, none, some, arith, Result, ok, Bool-cases, inl, inr,
  ◌==◌,
}
use test_paper_backend.Accounts.{User}
use test_paper_backend.Sync.Types.{
  create, delete, same_kind, entity_not_found, entity_forbidden, batch_invalid,
  entity_schema_unsupported, Mutation, OperationResult, Failure, is_applied, EntityType,
  schema_version,
}
use test_paper_backend.Sync.Rows.{Entity, Store, Env}
use test_paper_backend.Sync.Tables.{find_entity, find_result, save_entity, is_entity}
use test_paper_backend.Sync.Conflicts.{desired_payload, create_conflict, noop_result}
use test_paper_backend.Sync.Frame.{
  SameContent, SameContent-refl, record_version-Recorded, create_conflict-SameContent,
  create_conflict-unapplied,
}
use test_paper_backend.Sync.Apply.{
  can_mutate, rejected_result, applied_result, new_entity, changed_entity, version_row, change_row,
  record_version, apply_create, is_stale, wrong_life, apply_change, apply_schema, apply_mutation,
}

find_entity-insert :
    (owner : ℕ) (kind : EntityType) (public k : ℕ) (e : Entity) (s : Store)
    → is_entity owner kind public e ≡ true
    → find_entity owner kind public (record s { serial = k; entities = e ∷ s.entities }) ≡ some e
unfolding find_entity
find_entity-insert owner kind public k e s h = rw h

find_entity-test :
    (owner : ℕ) (kind : EntityType) (public : ℕ) (e : Entity) (s : Store)
    → find_entity owner kind public s ≡ some e
    → is_entity owner kind public e ≡ true
unfolding find_entity
find_entity-test owner kind public e s h = find_by-test (is_entity owner kind public) s.entities e h

find_entity-save :
    (owner : ℕ) (kind : EntityType) (public : ℕ) (old new : Entity) (s : Store)
    → find_entity owner kind public s ≡ some old
    → old.id ≡ new.id
    → is_entity owner kind public new ≡ true
    → find_entity owner kind public (save_entity new s) ≡ some new
unfolding find_entity save_entity
find_entity-save owner kind public old new s h i q =
    find_by-update_by (is_entity owner kind public) (λ (e : Entity). e.id) s.entities old new h i q

-- The version that an accepted mutation gives its entity, from what was there.
abbrev pub Succeeds : Mutation → Option Entity → ℕ → Type 0
Succeeds m none v = (same_kind m.kind create ≡ true) × (v ≡ 1)
Succeeds m (some e) v =
    (same_kind m.kind create ≡ false)
    × (m.base_version ≡ some e.version)
    × (m.base_content_hash ≡ some e.content_hash)
    × (wrong_life m e ≡ false)
    × (v ≡ suc e.version)

-- What an accepted mutation leaves behind: `e` is the entity as it now stands.
pub record Accepted (env : Env) (user : User) (device : ℕ) (m : Mutation) (r : OperationResult)
    (e : Entity) (s t : Store) : Type 0 where
  pub stored : find_entity user.id m.entity_type m.entity_id t ≡ some e
  pub hash : e.content_hash ≡ env.digest (desired_payload m)
  pub payload : e.payload ≡ desired_payload m
  pub tombstone : e.tombstone ≡ same_kind m.kind delete
  pub result : r ≡ applied_result m e.version e.content_hash
  pub successor : Succeeds m (find_entity user.id m.entity_type m.entity_id s) e.version

-- The versions and the changes that it adds.
pub record Logged (env : Env) (user : User) (device : ℕ) (m : Mutation) (e : Entity) (s t : Store)
    : Type 0 where
  pub key : ℕ
  pub versions : t.versions ≡ record (version_row env user device m e) { id = key } ∷ s.versions
  pub changes :
      t.changes
      ≡ s.changes
        ++ record (change_row env user m e
            (record (version_row env user device m e) { id = key })) { sequence = suc key }
          ∷ []

module _ (env : Env) (user : User) (device : ℕ) (m : Mutation) (s : Store) where
  abbrev pub Outcome : OperationResult → Store → Type 0
  Outcome r t =
      ((is_applied r.status ≡ false) × (r.operation_id ≡ m.operation_id) × SameContent s t)
      ⊎ ((e : Entity) × Accepted env user device m r e s t × Logged env user device m e s t)

  -- The entity was written, and only its version is still to be recorded.
  recorded-Outcome :
      (e : Entity) (s' : Store) {r : OperationResult} {t : Store}
      → find_entity user.id m.entity_type m.entity_id s' ≡ some e
      → (e.content_hash ≡ env.digest (desired_payload m)) × (e.payload ≡ desired_payload m)
      → e.tombstone ≡ same_kind m.kind delete
      → Succeeds m (find_entity user.id m.entity_type m.entity_id s) e.version
      → (s'.versions ≡ s.versions) × (s'.changes ≡ s.changes)
      → record_version env user device m e s' ≡ (ok r, t)
      → Outcome r t
  unfolding find_entity
  recorded-Outcome e s' {r} {t} found content dead next same h =
      let (shown, rec) = record_version-Recorded env user device m e s' h in
      inr (
        e,
        record {
          stored = rw rec.entities found;
          hash = content.0;
          payload = content.1;
          tombstone = dead;
          result = shown;
          successor = next;
        },
        record {
          key = s'.serial;
          versions = ground (arith, rec.versions);
          changes = ground (arith, rec.changes);
        },
      )

  conflict-Outcome :
      (e : Entity) {r : OperationResult} {t : Store}
      → create_conflict env user device m e s ≡ (ok r, t)
      → Outcome r t
  conflict-Outcome e {r} {t} h = inl (
    (create_conflict-unapplied env user device m e s (ap (λ x. x.0) h)).0,
    (create_conflict-unapplied env user device m e s (ap (λ x. x.0) h)).1,
    subst (SameContent s) (ap (λ x. x.1) h) (create_conflict-SameContent env user device m e s),
  )

  unchanged-Outcome :
      (r' : OperationResult) {r : OperationResult} {t : Store}
      → (is_applied r'.status ≡ false) × (r'.operation_id ≡ m.operation_id)
      → ◌≡◌ {A = Result Failure OperationResult × Store} (ok r', s) (ok r, t)
      → Outcome r t
  unchanged-Outcome r' {r} {t} q h =
      inl (ground arith, ground arith, subst (SameContent s) (ap (λ x. x.1) h) (SameContent-refl s))

  create-Outcome :
      (schema : ℕ) (o : Option Entity) {r : OperationResult} {t : Store}
      → find_entity user.id m.entity_type m.entity_id s ≡ o
      → same_kind m.kind create ≡ true
      → apply_create env user device m schema o s ≡ (ok r, t)
      → Outcome r t
  unfolding apply_create
  create-Outcome schema none {r} {t} f k h =
      elim (Bool-cases (any_by (is_entity user.id m.entity_type m.entity_id) s.entities)) [
        | inl taken ↦ absurd (ground arith)
        | inr free ↦
            recorded-Outcome new (record s { serial = suc s.serial; entities = new ∷ s.entities })
              (find_entity-insert user.id m.entity_type m.entity_id _ new s (ground arith))
              (refl, refl) (ground arith) (rw f (k, refl)) (refl, refl) (rw free at h)
      ]
    where
      new : Entity
      new = record (new_entity env user m schema) { id = s.serial }
  create-Outcome schema (some e) {r} {t} f k h =
      elim (Bool-cases (not e.tombstone && e.content_hash == env.digest (desired_payload m))) [
        | inl same ↦ unchanged-Outcome (noop_result m e) (refl, refl) (rw same at h)
        | inr other ↦ conflict-Outcome e (rw other at h)
      ]

  change-Outcome :
      (schema : ℕ) (o : Option Entity) {r : OperationResult} {t : Store}
      → find_entity user.id m.entity_type m.entity_id s ≡ o
      → same_kind m.kind create ≡ false
      → apply_change env user device m schema o s ≡ (ok r, t)
      → Outcome r t
  unfolding apply_change
  change-Outcome schema none f k h =
      unchanged-Outcome (rejected_result m entity_not_found) (refl, refl) h
  change-Outcome schema (some e) {r} {t} f k h =
      elim (Bool-cases (is_stale m e || wrong_life m e)) [
        | inl refused ↦ conflict-Outcome e (rw refused at h)
        | inr fit ↦
            elim (Bool-cases
              (not (same_kind m.kind delete) && e.content_hash == env.digest (desired_payload m))) [
                | inl same ↦ unchanged-Outcome (noop_result m e) (refl, refl) (rw (fit, same) at h)
                | inr other ↦
                    recorded-Outcome (changed_entity env m schema e)
                      (save_entity (changed_entity env m schema e) s)
                      (find_entity-save user.id m.entity_type m.entity_id e _ s f refl
                        (find_entity-test user.id m.entity_type m.entity_id e s f))
                      (refl, refl) refl (rw f (k, ground arith, ground arith, ground arith, refl))
                      (refl, refl) (rw (fit, other) at h)
              ]
      ]

  schema-Outcome :
      (o : Option ℕ) {r : OperationResult} {t : Store}
      → apply_schema env user device m o s ≡ (ok r, t)
      → Outcome r t
  unfolding apply_schema
  schema-Outcome none h =
      unchanged-Outcome (rejected_result m entity_schema_unsupported) (refl, refl) h
  schema-Outcome (some v) {r} {t} h = elim (Bool-cases (v == 1)) [
    | inr other ↦
        unchanged-Outcome (rejected_result m entity_schema_unsupported) (refl, refl) (rw other at h)
    | inl known ↦ elim (Bool-cases (same_kind m.kind create)) [
      | inl k ↦ create-Outcome v _ refl k (rw (known, k) at h)
      | inr k ↦ change-Outcome v _ refl k (rw (known, k) at h)
    ]
  ]

  -- A call of `_apply_mutation` that returns either writes no content and reports that it did not
  -- apply, or stores the wanted content as the successor of the entity it found, at the version and
  -- hash that the mutation names as its base, with one version row and one change row added.
  pub apply_mutation-Outcome :
      {r : OperationResult} {t : Store}
      → apply_mutation env user device m s ≡ (ok r, t)
      → Outcome r t
  unfolding apply_mutation
  apply_mutation-Outcome {r} {t} h = elim (Bool-cases (can_mutate user m.entity_type)) [
    | inr forbidden ↦
        unchanged-Outcome (rejected_result m entity_forbidden) (refl, refl) (rw forbidden at h)
    | inl may ↦ elim (Bool-cases (is_some (find_result user.id m.operation_id s))) [
      | inl reused ↦
          unchanged-Outcome (rejected_result m batch_invalid) (refl, refl) (rw (may, reused) at h)
      | inr unused ↦ schema-Outcome (schema_version (desired_payload m)) (rw (may, unused) at h)
    ]
  ]
