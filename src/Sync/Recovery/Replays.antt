-- ===== src/Sync/Recovery/Replays.antt =====
-- Repeated recoveries: the operation ids of testpaper_backend/services/sync_conflicts.py make
-- `restore_version` and `resolve_conflict` idempotent.
pub mod Resolved
use Prim.Native.String.{String}
use test_paper_backend.Base.{
  ℕ, ==_refl, raise_if-ok, or_raise-ok, not, ap, ◌∙◌, raise_if, or_raise, ◌≡◌, refl, inl, inr, true,
  false, ◌&&◌, ◌||◌, ◌==◌, Option, none, some, ok, err, arith, find_by, any_by, if◌then◌else◌, In,
  settle-ok, continue-ok, Option-cases, Bool-cases,
}
use test_paper_backend.Accounts.{User}
use test_paper_backend.Sync.Types.{
  EntityType, api, idempotency_mismatch, sync_conflict, entity_not_found,
}
use test_paper_backend.Sync.Rows.{Entity, EntityVersion, Restore, Store, Env}
use test_paper_backend.Sync.Tables.{find_version, find_entity}
use test_paper_backend.Sync.Recovery.Versions.{append_version, find_restore, is_restore}
use test_paper_backend.Sync.Recovery.Restoring.{
  RestoreRequest, has_moved, restore_row, RestoreRecord, restore_record, replay_restore,
  insert_restore, restore_entity, restore_new, restore_or_replay, restore_version,
}

pub insert_restore-ok :
    (row new : Restore) (s t : Store)
    → insert_restore row s ≡ (ok new, t)
    → (new ≡ record row { id = s.serial })
      × (find_restore row.owner_id row.operation_id t ≡ some new)
      × (t.versions ≡ s.versions)
      × (t.changes ≡ s.changes)
      × (t.entities ≡ s.entities)
unfolding insert_restore find_restore
insert_restore-ok row new s t h = ground arith

pub restore_record-steady :
    (row : Restore) {s t : Store} {r : RestoreRecord} → restore_record row s ≡ (ok r, t) → t ≡ s
unfolding restore_record
restore_record-steady row h = ground arith

restore_row-kept :
    (row new : Restore) (s s' t : Store) (r : RestoreRecord)
    → insert_restore row s ≡ (ok new, s')
    → restore_record new s' ≡ (ok r, t)
    → (kept : Restore) × (find_restore row.owner_id row.operation_id t ≡ some kept)
      × (kept.request_hash ≡ row.request_hash)
      × (restore_record kept t ≡ (ok r, t))
restore_row-kept row new s s' t r q h =
    let (fresh, found, _, _, _) = insert_restore-ok row new s s' q in
    let same : t ≡ s' = restore_record-steady new h in
    (new, rw same found, rw fresh refl, rw same (h ∙ ap (λ u. (ok r, u)) same))

module _ (env : Env) (user : User) (device hash target : ℕ) (payload : RestoreRequest)
    (e : Entity) where
  -- A restoration that succeeds leaves its row, from which its record is built.
  pub restore_entity-row :
      (s t : Store) (r : RestoreRecord)
      → restore_entity env user device hash target payload e s ≡ (ok r, t)
      → (row : Restore) × (find_restore user.id payload.operation_id t ≡ some row)
        × (row.request_hash ≡ hash)
        × (restore_record row t ≡ (ok r, t))
  unfolding restore_entity
  restore_entity-row s t r h =
      let (_, h1) =
        raise_if-ok (has_moved payload.current_version payload.current_content_hash e)
          (api 409 sync_conflict) s _ h in
      let (w, _, h2) =
        or_raise-ok (find_version e.id user.id target s) (api 404 entity_not_found) s _ h1 in
      let (v, s3, _, h3) =
        continue-ok
          (append_version env device payload.operation_id true
            (record { payload = w.payload; tombstone = w.tombstone }) e s)
          _ h2 in
      let (row, s4, q, h4) =
        continue-ok (insert_restore (restore_row env user device hash target payload e v) s3) _
          h3 in
      restore_row-kept (restore_row env user device hash target payload e v) row s3 s4 t r q h4

module _ (user : User) (hash : ℕ) (payload : RestoreRequest) where
  -- The operation has its row, and the row answers the request.
  abbrev Kept : Store → RestoreRecord → Type 0
  Kept t r =
      (row : Restore) × (find_restore user.id payload.operation_id t ≡ some row)
      × (row.request_hash ≡ hash)
      × (restore_record row t ≡ (ok r, t))

  replay_restore-Kept :
      (row : Restore) (s t : Store) (r : RestoreRecord)
      → find_restore user.id payload.operation_id s ≡ some row
      → replay_restore hash row s ≡ (ok r, t)
      → Kept t r
  unfolding replay_restore restore_record
  replay_restore-Kept row s t r found h =
      let (same, answer) =
        raise_if-ok (not (row.request_hash == hash)) (api 409 idempotency_mismatch) s _ h in
      let still : t ≡ s = restore_record-steady row answer in
      (row, rw still found, ground (arith, same), rw still (answer ∙ ap (λ u. (ok r, u)) still))

  replayed :
      (row : Restore) (t : Store) (r : RestoreRecord)
      → row.request_hash ≡ hash
      → restore_record row t ≡ (ok r, t)
      → replay_restore hash row t ≡ (ok r, t)
  unfolding replay_restore restore_record
  replayed row t r same answer = rw same (rw (==_refl hash) answer)

  module _ (env : Env) (device : ℕ) (kind : EntityType) (public_id target : ℕ) where
    restore_new-Kept :
        (s t : Store) (r : RestoreRecord)
        → restore_new env user device kind public_id target hash payload s ≡ (ok r, t)
        → Kept t r
    unfolding restore_new
    restore_new-Kept s t r h =
        let (e, _, written) =
          or_raise-ok (find_entity user.id kind public_id s) (api 404 entity_not_found) s _ h in
        restore_entity-row env user device hash target payload e s t r written

    restore_or_replay-Kept :
        (o : Option Restore) (s t : Store) (r : RestoreRecord)
        → find_restore user.id payload.operation_id s ≡ o
        → restore_or_replay env user device kind public_id target hash payload o s ≡ (ok r, t)
        → Kept t r
    unfolding restore_or_replay
    restore_or_replay-Kept none s t r found h = restore_new-Kept s t r h
    restore_or_replay-Kept (some row) s t r found h = replay_restore-Kept row s t r found h

    restore_version-Kept :
        (s t : Store) (r : RestoreRecord)
        → restore_version env user device kind public_id target hash payload s ≡ (ok r, t)
        → Kept t r
    unfolding restore_version
    restore_version-Kept s t r h =
        restore_or_replay-Kept (find_restore user.id payload.operation_id s) s t r refl
          (settle-ok s _ h)

    Kept-restore_version :
        (t : Store) (r : RestoreRecord)
        → Kept t r
        → restore_version env user device kind public_id target hash payload t ≡ (ok r, t)
    unfolding restore_version restore_or_replay replay_restore
    Kept-restore_version t r kept =
        let (row, found, same, answer) = kept in rw found (rw (replayed row t r same answer) refl)

-- A restoration that succeeded is repeated, by any device and at any time, with the same record and
-- without a further write, as long as nothing else changed the store.
pub restore_version-again :
    (env later : Env) (user : User) (device other : ℕ) (kind : EntityType)
    (public_id target hash : ℕ) (payload : RestoreRequest) (s t : Store) (r : RestoreRecord)
    → restore_version env user device kind public_id target hash payload s ≡ (ok r, t)
    → restore_version later user other kind public_id target hash payload t ≡ (ok r, t)
restore_version-again env later user device other kind public_id target hash payload s t r h =
    Kept-restore_version user hash payload later other kind public_id target t r
      (restore_version-Kept user hash payload env device kind public_id target s t r h)
