-- ===== src/Sync/Recovery/Restoring.antt =====
-- `restore_version` of testpaper_backend/services/sync_conflicts.py. A record that a row's foreign keys
-- name is there; a row without it is an exception that no handler expects.
use test_paper_backend.Base.{
  ℕ, suc, Bool, true, ◌||◌, not, Option, none, some, ◌∷◌, ◌==◌, if◌then◌else◌, any_by, ok, err,
  pure, gets, raise_if, or_raise, session, ◌>>=◌, ◌>>◌,
}
use test_paper_backend.Accounts.{User}
use test_paper_backend.Sync.Types.{
  EntityType, idempotency_mismatch, sync_conflict, entity_not_found, api, integrity, runtime_error,
}
use test_paper_backend.Sync.Rows.{Entity, EntityVersion, Restore, Env}
use test_paper_backend.Sync.Tables.{Sync, find_entity, find_entity_id, find_version}
use test_paper_backend.Sync.Recovery.Versions.{
  append_version, find_version_id, is_restore, find_restore,
}

pub record RestoreRequest : Type 0 where
  pub operation_id : ℕ
  pub current_version : ℕ
  pub current_content_hash : ℕ

-- `SyncVersionRestoreRecord`
pub record RestoreRecord : Type 0 where
  pub operation_id : ℕ
  pub entity_type : EntityType
  pub entity_id : ℕ
  pub restored_from_version : ℕ
  pub result : EntityVersion
  pub actor_device_id : ℕ
  pub restored_at : ℕ

-- `_restore_record`
unfoldable pub restore_record : Restore → Sync RestoreRecord
restore_record row = do
  entity ← (λ s. or_raise (find_entity_id row.entity_id row.owner_id s) runtime_error s)
  accepted ← (λ s. or_raise (find_version_id row.accepted_version_id s) runtime_error s)
  pure (record {
    operation_id = row.operation_id;
    entity_type = entity.entity_type;
    entity_id = entity.public_id;
    restored_from_version = row.target_version;
    result = accepted;
    actor_device_id = row.actor_device_id;
    restored_at = row.restored_at;
  })

unfoldable pub replay_restore : ℕ → Restore → Sync RestoreRecord
replay_restore hash row = do
  raise_if (not (row.request_hash == hash)) (api 409 idempotency_mismatch)
  restore_record row

-- The constraint on the operation of an owner is checked at the commit.
unfoldable pub insert_restore : Restore → Sync Restore
insert_restore row s =
    let new : Restore = record row { id = s.serial } in
    if any_by (is_restore row.owner_id row.operation_id) s.restores
    then (err integrity, s)
    else (ok new, record s { serial = suc s.serial; restores = new ∷ s.restores })

-- `entity.version != payload.currentVersion or entity.content_hash != payload.currentContentHash`
abbrev pub has_moved : ℕ → ℕ → Entity → Bool
has_moved version hash e = not (e.version == version) || not (e.content_hash == hash)

abbrev pub restore_row : Env → User → ℕ → ℕ → ℕ → RestoreRequest → Entity → EntityVersion → Restore
restore_row env user device hash target payload e v = record {
  id = 0;
  owner_id = user.id;
  entity_id = e.id;
  operation_id = payload.operation_id;
  request_hash = hash;
  target_version = target;
  accepted_version_id = v.id;
  actor_device_id = device;
  restored_at = env.now;
}

unfoldable pub restore_entity :
    Env → User → ℕ → ℕ → ℕ → RestoreRequest → Entity → Sync RestoreRecord
restore_entity env user device hash target payload e = do
  raise_if (has_moved payload.current_version payload.current_content_hash e)
      (api 409 sync_conflict)
  historic ← (λ s. or_raise (find_version e.id user.id target s) (api 404 entity_not_found) s)
  v ←
      append_version env device payload.operation_id true
        (record { payload = historic.payload; tombstone = historic.tombstone }) e
  row ← insert_restore (restore_row env user device hash target payload e v)
  restore_record row

unfoldable pub restore_new :
    Env → User → ℕ → EntityType → ℕ → ℕ → ℕ → RestoreRequest → Sync RestoreRecord
restore_new env user device kind public_id target hash payload = do
  e ← (λ s. or_raise (find_entity user.id kind public_id s) (api 404 entity_not_found) s)
  restore_entity env user device hash target payload e

-- With the row that the operation left before, if any. `hash` is the digest of the request. The lookup
-- after the lock finds what the first one found, since no other session is between them.
unfoldable pub restore_or_replay :
    Env → User → ℕ → EntityType → ℕ → ℕ → ℕ → RestoreRequest → Option Restore → Sync RestoreRecord
restore_or_replay env user device kind public_id target hash payload none =
    restore_new env user device kind public_id target hash payload
restore_or_replay env user device kind public_id target hash payload (some row) =
    replay_restore hash row

unfoldable pub restore_version :
    Env → User → ℕ → EntityType → ℕ → ℕ → ℕ → RestoreRequest → Sync RestoreRecord
restore_version env user device kind public_id target hash payload = session (do
  replay ← gets (find_restore user.id payload.operation_id)
  restore_or_replay env user device kind public_id target hash payload replay)
