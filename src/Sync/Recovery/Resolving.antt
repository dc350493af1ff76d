-- ===== src/Sync/Recovery/Resolving.antt =====
-- `resolve_conflict` of testpaper_backend/services/sync_conflicts.py, with the plan of its action. No
-- other session is between its queries, so the lookups of the operation after the lock and after a
-- failed commit find what the first one found. A row that another one names by a foreign key is there.
use Prim.Native.String.{String}
use test_paper_backend.Base.{
  ℕ, suc, Bool, false, not, ◌||◌, Option, none, some, ◌∷◌, ok, err, pure, gets, modify, raise_if,
  or_raise, session, ◌==◌, if◌then◌else◌, find_by, any_by, ◌>>=◌, ◌>>◌,
}
use test_paper_backend.Accounts.{User}
use test_paper_backend.Sync.Types.{
  create, ResolutionAction, idempotency_mismatch, sync_conflict, entity_not_found, api, integrity,
  runtime_error,
}
use test_paper_backend.Sync.Rows.{Entity, EntityVersion, Snapshot, Conflict, Resolution, Store, Env}
use test_paper_backend.Sync.Tables.{
  Sync, find_entity_id, insert_entity, insert_version, insert_change,
}
use test_paper_backend.Sync.Conflicts.{version_snapshot}
use test_paper_backend.Sync.Recovery.Versions.{
  Source, append_version, announced, find_resolution, is_resolution, find_conflict,
  find_conflict_id,
}
use test_paper_backend.Sync.Recovery.Restoring.{has_moved}
use test_paper_backend.Sync.Recovery.Plans.{
  ResolutionRequest, Plan, is_save_copy, restores_content, plan_for,
}

-- `SyncConflictResolutionRecord`
pub record ResolutionRecord : Type 0 where
  pub resolution_id : ℕ
  pub conflict_id : ℕ
  pub operation_id : ℕ
  pub action : ResolutionAction
  pub actor_device_id : ℕ
  pub accepted_version : ℕ
  pub accepted_content_hash : ℕ
  pub result : Snapshot
  pub new_entity_id : Option ℕ
  pub undoes_resolution_id : Option ℕ
  pub resolved_at : ℕ

-- The public id of the resolution that a row undoes.
unfoldable pub undone_id : Store → Option ℕ → Option ℕ
undone_id s none = none
undone_id s (some id) = elim (find_by (λ (r : Resolution). r.id == id) s.resolutions) [
  | none ↦ none
  | some r ↦ some r.public_id
]

-- `_resolution_record`
unfoldable pub resolution_record : Resolution → ℕ → Store → ResolutionRecord
unfolding undone_id
resolution_record row conflict_id s = record {
  resolution_id = row.public_id;
  conflict_id = conflict_id;
  operation_id = row.operation_id;
  action = row.action;
  actor_device_id = row.actor_device_id;
  accepted_version = row.result_snapshot.version;
  accepted_content_hash = row.result_snapshot.content_hash;
  result = row.result_snapshot;
  new_entity_id = row.new_entity_public_id;
  undoes_resolution_id = undone_id s row.undoes_resolution_id;
  resolved_at = row.resolved_at;
}

unfoldable pub copied_entity : Env → User → ResolutionRequest → Source → ℕ → Entity → Entity
copied_entity env user payload src public_id e = record {
  id = 0;
  owner_id = user.id;
  entity_type = e.entity_type;
  public_id = public_id;
  scope = e.scope;
  schema_version = e.schema_version;
  version = 1;
  content_hash = env.digest src.payload;
  payload = src.payload;
  tombstone = src.tombstone;
  created_at = env.now;
  updated_at = env.now;
  deleted_at = (if src.tombstone then some env.now else none);
}

unfoldable pub copied_version : Env → User → ℕ → ResolutionRequest → Source → Entity → EntityVersion
copied_version env user device payload src copy = record {
  id = 0;
  entity_id = copy.id;
  owner_id = user.id;
  version = 1;
  schema_version = copy.schema_version;
  content_hash = env.digest src.payload;
  payload = src.payload;
  tombstone = src.tombstone;
  mutation_kind = create;
  operation_id = payload.operation_id;
  base_version = none;
  base_hash = none;
  device_id = device;
  created_at = env.now;
}

-- The branch of `saveCopy`: the first version of a new entity.
unfoldable pub save_copy_of :
    Env → User → ℕ → ResolutionRequest → Source → Entity → Sync EntityVersion
unfolding copied_entity copied_version announced
save_copy_of env user device payload src e = do
  public_id ← or_raise payload.new_entity_id integrity
  copy ← insert_entity (copied_entity env user payload src public_id e)
  v ← insert_version (copied_version env user device payload src copy)
  modify (insert_change (announced env copy v))
  pure v

unfoldable pub accept_plan : Env → User → ℕ → ResolutionRequest → Plan → Sync EntityVersion
unfolding save_copy_of append_version restores_content
accept_plan env user device payload plan =
    if is_save_copy payload.action
    then save_copy_of env user device payload plan.source plan.target
    else append_version env device payload.operation_id (restores_content payload.action)
        plan.source plan.target

abbrev pub same_undone : Option ℕ → Option ℕ → Bool
same_undone (some a) (some b) = a == b
same_undone _ _ = false

-- An operation of an owner resolves once, and a resolution is undone once.
abbrev pub resolution_taken : Resolution → Resolution → Bool
resolution_taken row r =
    is_resolution row.owner_id row.operation_id r
    || same_undone row.undoes_resolution_id r.undoes_resolution_id

unfoldable pub insert_resolution : Resolution → Sync Resolution
insert_resolution row s =
    let new : Resolution = record row { id = s.serial } in
    if any_by (resolution_taken row) s.resolutions
    then (err integrity, s)
    else (ok new, record s { serial = suc s.serial; resolutions = new ∷ s.resolutions })

unfoldable pub resolution_row :
    Env → User → ℕ → ℕ → Conflict → ResolutionRequest → Plan → EntityVersion → Store → Resolution
unfolding version_snapshot
resolution_row env user device hash c payload plan v s = record {
  id = 0;
  public_id = env.uuid s.serial;
  conflict_id = c.id;
  owner_id = user.id;
  operation_id = payload.operation_id;
  request_hash = hash;
  action = payload.action;
  actor_device_id = device;
  accepted_version_id = v.id;
  result_snapshot = record (version_snapshot v) { device_id = device; modified_at = env.now };
  new_entity_public_id = payload.new_entity_id;
  undoes_resolution_id = plan.undoes;
  resolved_at = env.now;
}

-- `replay.conflict.public_id != conflict_id or replay.request_hash != request_hash`
abbrev pub is_other : ℕ → ℕ → Conflict → Resolution → Bool
is_other conflict_id hash c row = not (c.public_id == conflict_id) || not (row.request_hash == hash)

unfoldable pub replay_resolution : ℕ → ℕ → Resolution → Sync ResolutionRecord
unfolding resolution_record find_conflict_id
replay_resolution conflict_id hash row = do
  c ← (λ s. or_raise (find_conflict_id row.conflict_id s) runtime_error s)
  raise_if (is_other conflict_id hash c row) (api 409 idempotency_mismatch)
  gets (resolution_record row c.public_id)

unfoldable pub write_resolution :
    Env → User → ℕ → ℕ → Conflict → ResolutionRequest → Plan → Sync ResolutionRecord
unfolding accept_plan resolution_row insert_resolution resolution_record
write_resolution env user device hash c payload plan = do
  v ← accept_plan env user device payload plan
  row ← (λ s. insert_resolution (resolution_row env user device hash c payload plan v s) s)
  gets (resolution_record row c.public_id)

-- `hash` is the digest of the request.
module _ (int_of : String → Option (Option ℕ)) (env : Env) (user : User) (device hash : ℕ) where
  unfoldable pub resolve_entity : Conflict → Entity → ResolutionRequest → Sync ResolutionRecord
  unfolding plan_for write_resolution
  resolve_entity c e payload = do
    raise_if (has_moved payload.current_version payload.current_content_hash e)
        (api 409 sync_conflict)
    plan ← plan_for int_of user c e payload payload.action
    write_resolution env user device hash c payload plan

  unfoldable pub resolve_new : ℕ → ResolutionRequest → Sync ResolutionRecord
  unfolding resolve_entity find_conflict find_entity_id
  resolve_new conflict_id payload = do
    c ← (λ s. or_raise (find_conflict user.id conflict_id s) (api 404 entity_not_found) s)
    e ← (λ s. or_raise (find_entity_id c.entity_id user.id s) runtime_error s)
    resolve_entity c e payload

  unfoldable pub resolve_or_replay :
      ℕ → ResolutionRequest → Option Resolution → Sync ResolutionRecord
  unfolding resolve_new replay_resolution
  resolve_or_replay conflict_id payload none = resolve_new conflict_id payload
  resolve_or_replay conflict_id payload (some row) = replay_resolution conflict_id hash row

  unfoldable pub resolve_conflict : ℕ → ResolutionRequest → Sync ResolutionRecord
  unfolding resolve_or_replay find_resolution
  resolve_conflict conflict_id payload = session (do
    replay ← gets (find_resolution user.id payload.operation_id)
    resolve_or_replay conflict_id payload replay)
