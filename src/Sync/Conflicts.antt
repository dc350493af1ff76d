-- ===== src/Sync/Conflicts.antt =====
-- `classify_sync_conflict` of testpaper_backend/services/conflict_rules.py and `create_conflict` of
-- testpaper_backend/services/sync_conflicts.py: both candidates of a divergence are kept.
use test_paper_backend.Base.{
  ℕ, suc, ◌&&◌, ◌||◌, [], Option, none, some, ◌==◌, if◌then◌else◌, ok, pure, ◌>>=◌,
}
use test_paper_backend.Accounts.{User}
use test_paper_backend.Sync.Types.{
  MutationKind, create, update, delete, restore, rename, same_kind, OperationResult, noop, conflict,
  ConflictReason, concurrent_create, divergent_content, tombstone_divergence, restore_divergence,
  rename_divergence, sync_conflict, Mutation, Payload, schema_version,
}
use test_paper_backend.Sync.Rows.{Entity, EntityVersion, Snapshot, Conflict, Store, Env}
use test_paper_backend.Sync.Tables.{Sync, find_version, latest_version, insert_conflict}

unfoldable pub classify_sync_conflict : MutationKind → MutationKind → ℕ → ℕ → Option ConflictReason
classify_sync_conflict here cloud here_hash cloud_hash =
    if here_hash == cloud_hash
    then none
    else if same_kind here create && same_kind cloud create
    then some concurrent_create
    else if same_kind here delete || same_kind cloud delete
    then some tombstone_divergence
    else if same_kind here restore || same_kind cloud restore
    then some restore_divergence
    else if same_kind here rename || same_kind cloud rename
    then some rename_divergence
    else some divergent_content

-- `None if mutation.kind == delete else mutation.payload`
unfoldable pub desired_payload : Mutation → Payload
desired_payload m = if same_kind m.kind delete then none else m.payload

unfoldable pub version_snapshot : EntityVersion → Snapshot
version_snapshot v = record {
  schema_version = v.schema_version;
  version = v.version;
  content_hash = v.content_hash;
  mutation_kind = v.mutation_kind;
  tombstone = v.tombstone;
  payload = v.payload;
  device_id = v.device_id;
  modified_at = v.created_at;
}

-- The caller has refused every declared schema version but 1.
abbrev declared_schema : Payload → ℕ
declared_schema p = elim (schema_version p) [ none ↦ 0 | some n ↦ n ]

unfoldable pub local_snapshot : Env → ℕ → Mutation → Snapshot
unfolding desired_payload
local_snapshot env device m = record {
  schema_version = declared_schema (desired_payload m);
  version = elim m.base_version [ none ↦ 1 | some v ↦ suc v ];
  content_hash = env.digest (desired_payload m);
  mutation_kind = m.kind;
  tombstone = same_kind m.kind delete;
  payload = desired_payload m;
  device_id = device;
  modified_at = env.now;
}

-- The device that a cloud candidate is ascribed to when the entity has no version: `"cloud"`.
abbrev pub cloud_device : ℕ
cloud_device = 1

unfoldable pub cloud_kind : Entity → Option EntityVersion → MutationKind
cloud_kind e none = if e.tombstone then delete else update
cloud_kind e (some v) = v.mutation_kind

unfoldable pub cloud_snapshot : Entity → Option EntityVersion → Snapshot
cloud_snapshot e newest = record {
  schema_version = e.schema_version;
  version = e.version;
  content_hash = e.content_hash;
  mutation_kind = cloud_kind e newest;
  tombstone = e.tombstone;
  payload = e.payload;
  device_id = elim newest [ none ↦ cloud_device | some v ↦ v.device_id ];
  modified_at = e.updated_at;
}

-- The version that the device started from, if it names one and it is there.
unfoldable pub base_snapshot : ℕ → Mutation → Entity → Store → Option Snapshot
unfolding version_snapshot find_version
base_snapshot owner m e s = elim m.base_version [
  | none ↦ none
  | some v ↦ elim (find_version e.id owner v s) [
    | none ↦ none
    | some row ↦ some (version_snapshot row)
  ]
]

-- The evidence row, with the key and the UUID that the store gives it.
unfoldable pub conflict_row : Env → User → ℕ → Mutation → Entity → ConflictReason → Store → Conflict
unfolding local_snapshot cloud_snapshot base_snapshot
conflict_row env user device m e reason s = record {
  id = s.serial;
  public_id = env.uuid s.serial;
  owner_id = user.id;
  entity_id = e.id;
  entity_type = e.entity_type;
  reason = reason;
  base_snapshot = base_snapshot user.id m e s;
  local_snapshot = local_snapshot env device m;
  cloud_snapshot = cloud_snapshot e (latest_version e.id e.owner_id s);
  detected_at = env.now;
}

unfoldable pub noop_result : Mutation → Entity → OperationResult
noop_result m e = record {
  operation_id = m.operation_id;
  status = noop;
  entity_version = some e.version;
  content_hash = some e.content_hash;
  conflict_id = none;
  failed_dependency_ids = [];
  error = none;
}

unfoldable pub conflict_result : Mutation → Entity → Option ℕ → OperationResult
conflict_result m e id = record {
  operation_id = m.operation_id;
  status = conflict;
  entity_version = some e.version;
  content_hash = some e.content_hash;
  conflict_id = id;
  failed_dependency_ids = [];
  error = some sync_conflict;
}

unfoldable pub conflict_reason : Env → Mutation → Entity → Store → Option ConflictReason
unfolding classify_sync_conflict cloud_kind desired_payload
conflict_reason env m e s =
    classify_sync_conflict m.kind (cloud_kind e (latest_version e.id e.owner_id s))
      (env.digest (desired_payload m)) e.content_hash

unfoldable pub create_conflict : Env → User → ℕ → Mutation → Entity → Sync OperationResult
unfolding conflict_reason conflict_row noop_result conflict_result insert_conflict
create_conflict env user device m e s = elim (conflict_reason env m e s) [
  | none ↦ (ok (noop_result m e), s)
  | some reason ↦
      (do
        row ← insert_conflict (conflict_row env user device m e reason s)
        pure (conflict_result m e (some row.public_id)))
        s
]
