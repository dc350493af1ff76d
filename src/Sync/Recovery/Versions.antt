-- ===== src/Sync/Recovery/Versions.antt =====
-- `_append_version` of testpaper_backend/services/sync_conflicts.py, and the queries of its callers.
use test_paper_backend.Base.{
  ℕ, suc, Bool, ◌&&◌, Option, none, some, ◌==◌, if◌then◌else◌, find_by, pure, modify, ◌>>=◌, ◌>>◌,
}
use test_paper_backend.Sync.Types.{MutationKind, update, delete, restore, Payload}
use test_paper_backend.Sync.Rows.{
  Entity, EntityVersion, Change, Conflict, Resolution, Restore, Store, Env,
}
use test_paper_backend.Sync.Tables.{Sync, save_entity, insert_version, insert_change}
use test_paper_backend.Sync.Attachments.{reference_lifecycle}

-- What a recovery puts in the place of an entity's content.
pub record Source : Type 0 where
  pub payload : Payload
  pub tombstone : Bool

-- `restores` is for the actions restoreVersion and undo.
unfoldable pub append_kind : Bool → Bool → MutationKind
append_kind restores tombstone = if tombstone then delete else if restores then restore else update

unfoldable pub appended_entity : Env → Source → Entity → Entity
appended_entity env src e = record e {
  version = suc e.version;
  content_hash = env.digest src.payload;
  payload = src.payload;
  tombstone = src.tombstone;
  deleted_at = (if src.tombstone then some env.now else none);
  updated_at = env.now;
}

unfoldable pub appended_version : Env → ℕ → ℕ → Bool → Source → Entity → EntityVersion
appended_version env device operation restores src e = record {
  id = 0;
  entity_id = e.id;
  owner_id = e.owner_id;
  version = suc e.version;
  schema_version = e.schema_version;
  content_hash = env.digest src.payload;
  payload = src.payload;
  tombstone = src.tombstone;
  mutation_kind = append_kind restores src.tombstone;
  operation_id = operation;
  base_version = some e.version;
  base_hash = some e.content_hash;
  device_id = device;
  created_at = env.now;
}

-- The change that announces a version of an entity.
unfoldable pub announced : Env → Entity → EntityVersion → Change
announced env e v = record {
  sequence = 0;
  entity_version_id = v.id;
  owner_id = e.owner_id;
  scope = e.scope;
  entity_type = e.entity_type;
  public_id = e.public_id;
  version = v.version;
  content_hash = v.content_hash;
  mutation_kind = v.mutation_kind;
  tombstone = v.tombstone;
  operation_id = v.operation_id;
  created_at = env.now;
}

unfoldable pub append_version : Env → ℕ → ℕ → Bool → Source → Entity → Sync EntityVersion
append_version env device operation restores src e = do
  modify (save_entity (appended_entity env src e))
  modify
      (reference_lifecycle (appended_entity env src e) (append_kind restores src.tombstone) env.now)
  v ← insert_version (appended_version env device operation restores src e)
  modify (insert_change (announced env e v))
  pure v

abbrev pub is_version_id : ℕ → EntityVersion → Bool
is_version_id id v = v.id == id

unfoldable pub find_version_id : ℕ → Store → Option EntityVersion
find_version_id id s = find_by (is_version_id id) s.versions

abbrev pub is_restore : ℕ → ℕ → Restore → Bool
is_restore owner operation r = r.owner_id == owner && r.operation_id == operation

unfoldable pub find_restore : ℕ → ℕ → Store → Option Restore
find_restore owner operation s = find_by (is_restore owner operation) s.restores

abbrev pub is_resolution : ℕ → ℕ → Resolution → Bool
is_resolution owner operation r = r.owner_id == owner && r.operation_id == operation

unfoldable pub find_resolution : ℕ → ℕ → Store → Option Resolution
find_resolution owner operation s = find_by (is_resolution owner operation) s.resolutions

abbrev pub is_conflict : ℕ → ℕ → Conflict → Bool
is_conflict owner public_id c = c.owner_id == owner && c.public_id == public_id

unfoldable pub find_conflict : ℕ → ℕ → Store → Option Conflict
find_conflict owner public_id s = find_by (is_conflict owner public_id) s.conflicts

unfoldable pub find_conflict_id : ℕ → Store → Option Conflict
find_conflict_id id s = find_by (λ (c : Conflict). c.id == id) s.conflicts
