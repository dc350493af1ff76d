-- ===== src/Sync/Rows.antt =====
-- The tables of testpaper_backend/db.py that synchronisation keeps, and the store they make up.
-- Times are numbers of seconds. `serial` gives each new row its key: a later row has a greater one.
use test_paper_backend.Base.{ℕ, ◌*◌, Bool, Option, List}
use test_paper_backend.Sync.Types.{
  EntityType, MutationKind, OperationStatus, ConflictReason, ResolutionAction, ErrorCode, Payload,
  Mutation, PushRequest, PushResponse, OperationResult,
}

pub record Entity : Type 0 where
  pub id : ℕ
  pub owner_id : ℕ
  pub entity_type : EntityType
  pub public_id : ℕ
  pub scope : ℕ
  pub schema_version : ℕ
  pub version : ℕ
  pub content_hash : ℕ
  pub payload : Payload
  pub tombstone : Bool
  pub created_at : ℕ
  pub updated_at : ℕ
  pub deleted_at : Option ℕ

pub record EntityVersion : Type 0 where
  pub id : ℕ
  pub entity_id : ℕ
  pub owner_id : ℕ
  pub version : ℕ
  pub schema_version : ℕ
  pub content_hash : ℕ
  pub payload : Payload
  pub tombstone : Bool
  pub mutation_kind : MutationKind
  pub operation_id : ℕ
  pub base_version : Option ℕ
  pub base_hash : Option ℕ
  pub device_id : ℕ
  pub created_at : ℕ

pub record Change : Type 0 where
  pub sequence : ℕ
  pub entity_version_id : ℕ
  pub owner_id : ℕ
  pub scope : ℕ
  pub entity_type : EntityType
  pub public_id : ℕ
  pub version : ℕ
  pub content_hash : ℕ
  pub mutation_kind : MutationKind
  pub tombstone : Bool
  pub operation_id : ℕ
  pub created_at : ℕ

pub record Stream : Type 0 where
  pub owner_id : ℕ
  pub scope : ℕ
  pub epoch : ℕ
  pub retained_from_sequence : ℕ
  pub snapshot_version : ℕ
  pub compacted_at : Option ℕ
  pub created_at : ℕ
  pub updated_at : ℕ

pub record DeviceCursor : Type 0 where
  pub owner_id : ℕ
  pub device_id : ℕ
  pub scope : ℕ
  pub stream_epoch : ℕ
  pub cursor_sequence : ℕ
  pub protocol_version : ℕ
  pub last_ack_at : Option ℕ
  pub last_seen_at : ℕ
  pub expires_at : ℕ
  pub revoked_at : Option ℕ
  pub created_at : ℕ
  pub updated_at : ℕ

pub data BatchStatus : Type 0 where
  processing completed failed : BatchStatus

pub record Batch : Type 0 where
  pub id : ℕ
  pub owner_id : ℕ
  pub device_id : ℕ
  pub idempotency_key : ℕ
  pub request_hash : ℕ
  pub protocol_version : ℕ
  pub status : BatchStatus
  pub request_id : ℕ
  pub response_status : Option ℕ
  pub response_payload : Option PushResponse
  pub expires_at : ℕ
  pub created_at : ℕ
  pub last_replayed_at : ℕ
  pub completed_at : Option ℕ

pub record ResultRow : Type 0 where
  pub id : ℕ
  pub batch_id : ℕ
  pub owner_id : ℕ
  pub ordinal : ℕ
  pub operation_id : ℕ
  pub status : OperationStatus
  pub entity_type : EntityType
  pub public_id : ℕ
  pub accepted_version : Option ℕ
  pub content_hash : Option ℕ
  pub error_code : Option ErrorCode
  pub details : OperationResult

-- `SyncConflictSnapshot`
pub record Snapshot : Type 0 where
  pub schema_version : ℕ
  pub version : ℕ
  pub content_hash : ℕ
  pub mutation_kind : MutationKind
  pub tombstone : Bool
  pub payload : Payload
  pub device_id : ℕ
  pub modified_at : ℕ

pub record Conflict : Type 0 where
  pub id : ℕ
  pub public_id : ℕ
  pub owner_id : ℕ
  pub entity_id : ℕ
  pub entity_type : EntityType
  pub reason : ConflictReason
  pub base_snapshot : Option Snapshot
  pub local_snapshot : Snapshot
  pub cloud_snapshot : Snapshot
  pub detected_at : ℕ

pub record Resolution : Type 0 where
  pub id : ℕ
  pub public_id : ℕ
  pub conflict_id : ℕ
  pub owner_id : ℕ
  pub operation_id : ℕ
  pub request_hash : ℕ
  pub action : ResolutionAction
  pub actor_device_id : ℕ
  pub accepted_version_id : ℕ
  pub result_snapshot : Snapshot
  pub new_entity_public_id : Option ℕ
  pub undoes_resolution_id : Option ℕ
  pub resolved_at : ℕ

pub record Restore : Type 0 where
  pub id : ℕ
  pub owner_id : ℕ
  pub entity_id : ℕ
  pub operation_id : ℕ
  pub request_hash : ℕ
  pub target_version : ℕ
  pub accepted_version_id : ℕ
  pub actor_device_id : ℕ
  pub restored_at : ℕ

-- The columns of `AttachmentReferenceRow` that synchronisation reads and writes.
pub record Reference : Type 0 where
  pub id : ℕ
  pub owner_id : ℕ
  pub attachment_entity_id : ℕ
  pub tombstone : Bool
  pub deleted_at : Option ℕ
  pub retention_until : Option ℕ
  pub updated_at : ℕ

pub record Store : Type 0 where
  pub serial : ℕ
  pub entities : List Entity
  pub versions : List EntityVersion
  pub changes : List Change
  pub streams : List Stream
  pub devices : List DeviceCursor
  pub batches : List Batch
  pub results : List ResultRow
  pub conflicts : List Conflict
  pub resolutions : List Resolution
  pub restores : List Restore
  pub references : List Reference

-- What the services take from elsewhere: the clock (`now_utc`), a fresh UUID for the row of a given
-- key (`uuid4`), SHA-256 and size of canonical JSON (hashlib, json and pydantic's dump), and what
-- other sessions commit between the query for a batch and its insertion.
pub record Env : Type 0 where
  pub now : ℕ
  pub uuid : ℕ → ℕ
  pub digest : Payload → ℕ
  pub request_digest : PushRequest → ℕ
  pub mutation_size : Mutation → ℕ
  pub batch_size : PushRequest → ℕ
  pub others : Store → Store

-- `timedelta(days=n)`
abbrev pub days : ℕ → ℕ
days n = n * 86400
