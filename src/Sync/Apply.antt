-- ===== src/Sync/Apply.antt =====
-- `_apply_mutation` of testpaper_backend/services/sync_push.py: one mutation against its entity,
-- under optimistic concurrency control.
pub mod Outcomes
pub mod Rest
use test_paper_backend.Base.{
  ℕ, suc, Bool, true, false, ◌&&◌, ◌||◌, not, [], Option, none, some, ◌==◌, if◌then◌else◌, is_the,
  is_some, pure, modify, gets, ◌>>=◌, ◌>>◌,
}
use test_paper_backend.Accounts.{User, questions_write, papers_write, has_permission}
use test_paper_backend.Sync.Types.{
  personal, EntityType, question, paper, draft, attachment, comment, favorite, setting, create,
  delete, restore, same_kind, OperationResult, applied, rejected, ErrorCode, entity_forbidden,
  batch_invalid, entity_schema_unsupported, entity_not_found, Mutation, schema_version,
}
use test_paper_backend.Sync.Rows.{Entity, EntityVersion, Change, Env}
use test_paper_backend.Sync.Tables.{
  Sync, find_entity, find_result, insert_entity, save_entity, insert_version, insert_change,
}
use test_paper_backend.Sync.Attachments.{reference_lifecycle}
use test_paper_backend.Sync.Conflicts.{desired_payload, noop_result, create_conflict}

unfoldable pub can_mutate : User → EntityType → Bool
unfolding has_permission
can_mutate user question = has_permission user questions_write
can_mutate user paper = has_permission user papers_write
can_mutate user draft = has_permission user papers_write
can_mutate user attachment = has_permission user papers_write
can_mutate user comment = has_permission user papers_write
can_mutate user favorite = true
can_mutate user setting = true

unfoldable pub rejected_result : Mutation → ErrorCode → OperationResult
rejected_result m code = record {
  operation_id = m.operation_id;
  status = rejected;
  entity_version = none;
  content_hash = none;
  conflict_id = none;
  failed_dependency_ids = [];
  error = some code;
}

unfoldable pub applied_result : Mutation → ℕ → ℕ → OperationResult
applied_result m version hash = record {
  operation_id = m.operation_id;
  status = applied;
  entity_version = some version;
  content_hash = some hash;
  conflict_id = none;
  failed_dependency_ids = [];
  error = none;
}

unfoldable pub new_entity : Env → User → Mutation → ℕ → Entity
unfolding desired_payload
new_entity env user m schema = record {
  id = 0;
  owner_id = user.id;
  entity_type = m.entity_type;
  public_id = m.entity_id;
  scope = personal;
  schema_version = schema;
  version = 1;
  content_hash = env.digest (desired_payload m);
  payload = desired_payload m;
  tombstone = false;
  created_at = env.now;
  updated_at = env.now;
  deleted_at = none;
}

-- The entity after an accepted mutation other than a create.
unfoldable pub changed_entity : Env → Mutation → ℕ → Entity → Entity
unfolding desired_payload
changed_entity env m schema e = record e {
  version = suc e.version;
  schema_version = schema;
  content_hash = env.digest (desired_payload m);
  payload = desired_payload m;
  tombstone = same_kind m.kind delete;
  deleted_at = if same_kind m.kind delete then some env.now else none;
  updated_at = env.now;
}

unfoldable pub version_row : Env → User → ℕ → Mutation → Entity → EntityVersion
version_row env user device m e = record {
  id = 0;
  entity_id = e.id;
  owner_id = user.id;
  version = e.version;
  schema_version = e.schema_version;
  content_hash = e.content_hash;
  payload = e.payload;
  tombstone = e.tombstone;
  mutation_kind = m.kind;
  operation_id = m.operation_id;
  base_version = m.base_version;
  base_hash = m.base_content_hash;
  device_id = device;
  created_at = env.now;
}

unfoldable pub change_row : Env → User → Mutation → Entity → EntityVersion → Change
change_row env user m e v = record {
  sequence = 0;
  entity_version_id = v.id;
  owner_id = user.id;
  scope = e.scope;
  entity_type = e.entity_type;
  public_id = e.public_id;
  version = e.version;
  content_hash = e.content_hash;
  mutation_kind = m.kind;
  tombstone = e.tombstone;
  operation_id = m.operation_id;
  created_at = env.now;
}

-- From the attachment lifecycle to the applied result: `e` is the entity as it now is.
unfoldable pub record_version : Env → User → ℕ → Mutation → Entity → Sync OperationResult
unfolding version_row change_row applied_result insert_version insert_change
record_version env user device m e = do
  modify (reference_lifecycle e m.kind env.now)
  v ← insert_version (version_row env user device m e)
  modify (insert_change (change_row env user m e v))
  pure (applied_result m e.version e.content_hash)

unfoldable pub apply_create : Env → User → ℕ → Mutation → ℕ → Option Entity → Sync OperationResult
unfolding new_entity insert_entity desired_payload noop_result
apply_create env user device m schema none = do
  e ← insert_entity (new_entity env user m schema)
  record_version env user device m e
apply_create env user device m schema (some e) =
    if not e.tombstone && e.content_hash == env.digest (desired_payload m)
    then pure (noop_result m e)
    else create_conflict env user device m e

-- `entity.version != baseVersion or entity.content_hash != baseContentHash`
unfoldable pub is_stale : Mutation → Entity → Bool
is_stale m e =
    not (is_the m.base_version e.version) || not (is_the m.base_content_hash e.content_hash)

-- A restore wants a tombstone, and any other change wants none.
unfoldable pub wrong_life : Mutation → Entity → Bool
wrong_life m e = if same_kind m.kind restore then not e.tombstone else e.tombstone

unfoldable pub apply_change : Env → User → ℕ → Mutation → ℕ → Option Entity → Sync OperationResult
unfolding is_stale wrong_life changed_entity save_entity desired_payload noop_result rejected_result
apply_change env user device m schema none = pure (rejected_result m entity_not_found)
apply_change env user device m schema (some e) =
    if is_stale m e || wrong_life m e
    then create_conflict env user device m e
    else if not (same_kind m.kind delete) && e.content_hash == env.digest (desired_payload m)
    then pure (noop_result m e)
    else (do
      modify (save_entity (changed_entity env m schema e))
      record_version env user device m (changed_entity env m schema e))

-- After the permission and the reuse of the operation id were tested.
unfoldable pub apply_schema : Env → User → ℕ → Mutation → Option ℕ → Sync OperationResult
unfolding rejected_result
apply_schema env user device m none = pure (rejected_result m entity_schema_unsupported)
apply_schema env user device m (some schema) =
    if schema == 1
    then (do
      entity ← gets (find_entity user.id m.entity_type m.entity_id)
      if same_kind m.kind create
          then apply_create env user device m schema entity
          else apply_change env user device m schema entity)
    else pure (rejected_result m entity_schema_unsupported)

unfoldable pub apply_mutation : Env → User → ℕ → Mutation → Sync OperationResult
unfolding rejected_result
apply_mutation env user device m =
    if can_mutate user m.entity_type
    then (do
      reused ← gets (find_result user.id m.operation_id)
      if is_some reused
          then pure (rejected_result m batch_invalid)
          else apply_schema env user device m (schema_version (desired_payload m)))
    else pure (rejected_result m entity_forbidden)
