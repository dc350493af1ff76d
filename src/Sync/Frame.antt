-- ===== src/Sync/Frame.antt =====
-- The parts of the store that the steps of a mutation read and write.
use test_paper_backend.Base.{ℕ, suc, ◌≡◌, refl, false, [], ◌∷◌, ◌++◌, arith, ok, err}
use test_paper_backend.Accounts.{User}
use test_paper_backend.Sync.Types.{
  MutationKind, Mutation, OperationResult, is_applied, Failure, integrity,
}
use test_paper_backend.Sync.Rows.{Entity, Store, Env}
use test_paper_backend.Sync.Attachments.{reference_lifecycle}
use test_paper_backend.Sync.Conflicts.{create_conflict}
use test_paper_backend.Sync.Apply.{record_version, version_row, change_row, applied_result}

-- The content tables: the entities, their versions and the change log.
pub record SameContent (s t : Store) : Type 0 where
  pub entities : t.entities ≡ s.entities
  pub versions : t.versions ≡ s.versions
  pub changes : t.changes ≡ s.changes

-- The tables that a mutation does not touch at all.
pub record SameRest (s t : Store) : Type 0 where
  pub batches : t.batches ≡ s.batches
  pub results : t.results ≡ s.results
  pub streams : t.streams ≡ s.streams
  pub devices : t.devices ≡ s.devices

pub SameContent-refl : (s : Store) → SameContent s s
SameContent-refl s = record { entities = refl; versions = refl; changes = refl }

module _ (e : Entity) (kind : MutationKind) (at : ℕ) (s : Store) where
  pub reference_lifecycle-SameContent : SameContent s (reference_lifecycle e kind at s)
  unfolding reference_lifecycle
  reference_lifecycle-SameContent = ground arith

  pub reference_lifecycle-SameRest : SameRest s (reference_lifecycle e kind at s)
  unfolding reference_lifecycle
  reference_lifecycle-SameRest = ground arith

  pub reference_lifecycle-serial : (reference_lifecycle e kind at s).serial ≡ s.serial
  unfolding reference_lifecycle
  reference_lifecycle-serial = ground arith

module _ (env : Env) (user : User) (device : ℕ) (m : Mutation) (e : Entity) (s : Store) where
  -- A conflict, or a noop, writes no content, whether it is recorded or refused.
  pub create_conflict-SameContent : SameContent s (create_conflict env user device m e s).1
  unfolding create_conflict
  create_conflict-SameContent = ground arith

  pub create_conflict-SameRest : SameRest s (create_conflict env user device m e s).1
  unfolding create_conflict
  create_conflict-SameRest = ground arith

  pub create_conflict-unapplied :
      {r : OperationResult}
      → (create_conflict env user device m e s).0 ≡ ok r
      → (is_applied r.status ≡ false) × (r.operation_id ≡ m.operation_id)
  unfolding create_conflict
  create_conflict-unapplied h = ground arith

-- The rows that an accepted mutation adds: one version of the entity, and one change that names it.
pub record Recorded (env : Env) (user : User) (device : ℕ) (m : Mutation) (e : Entity) (s t : Store)
    : Type 0 where
  pub entities : t.entities ≡ s.entities
  pub versions :
      t.versions ≡ record (version_row env user device m e) { id = s.serial } ∷ s.versions
  pub changes :
      t.changes
      ≡ s.changes
        ++ record (change_row env user m e
            (record (version_row env user device m e) { id = s.serial })) {
              sequence = suc s.serial;
            }
          ∷ []
  pub serial : t.serial ≡ suc (suc s.serial)

module _ (env : Env) (user : User) (device : ℕ) (m : Mutation) (e : Entity) (s : Store) where
  pub record_version-SameRest : SameRest s (record_version env user device m e s).1
  unfolding record_version
  record_version-SameRest = ground (arith, reference_lifecycle-SameRest e m.kind env.now s)

  pub record_version-Recorded :
      {r : OperationResult} {t : Store}
      → record_version env user device m e s ≡ (ok r, t)
      → (r ≡ applied_result m e.version e.content_hash) × Recorded env user device m e s t
  unfolding record_version
  record_version-Recorded h = ground (
    arith,
    reference_lifecycle-SameContent e m.kind env.now s,
    reference_lifecycle-serial e m.kind env.now s,
  )

  -- A refused flush leaves at most the attachment's reference changed.
  pub record_version-err :
      {f : Failure} {t : Store} → record_version env user device m e s ≡ (err f, t) → f ≡ integrity
  unfolding record_version
  record_version-err h = ground arith
