-- ===== src/Sync/Types.antt =====
-- The request and result types of testpaper_backend/schemas/sync.py. Identifiers and hashes are
-- texts that the services only compare: here they are numbers, and the empty text is 0.
use test_paper_backend.Base.{ℕ, Bool, true, false, Option, none, some, List, ◌==◌}
use test_paper_backend.Base.Json.{Fields, int, get_field}

abbrev pub sync_protocol_version : ℕ
sync_protocol_version = 1

-- The text "personal", the scope of every synchronised entity
abbrev pub personal : ℕ
personal = 1

pub data EntityType : Type 0 where
  question paper draft attachment comment favorite setting : EntityType

-- The place of an entity type in the order of the texts, by which SQL compares them.
abbrev pub type_number : EntityType → ℕ
type_number attachment = 0
type_number comment = 1
type_number draft = 2
type_number favorite = 3
type_number paper = 4
type_number question = 5
type_number setting = 6

pub data MutationKind : Type 0 where
  create update delete restore rename attach detach : MutationKind

abbrev pub kind_number : MutationKind → ℕ
kind_number create = 0
kind_number update = 1
kind_number delete = 2
kind_number restore = 3
kind_number rename = 4
kind_number attach = 5
kind_number detach = 6

-- `a == b` of two kinds
abbrev pub same_kind : MutationKind → MutationKind → Bool
same_kind a b = kind_number a == kind_number b

pub data OperationStatus : Type 0 where
  applied noop conflict rejected dependency_failed : OperationStatus

abbrev pub is_applied : OperationStatus → Bool
is_applied applied = true
is_applied _ = false

pub data ConflictReason : Type 0 where
  concurrent_create divergent_content tombstone_divergence : ConflictReason
  restore_divergence rename_divergence : ConflictReason

pub data ResolutionAction : Type 0 where
  keep_local use_cloud save_copy manual_merge restore_version undo : ResolutionAction

pub data ErrorCode : Type 0 where
  protocol_unsupported batch_invalid batch_too_large idempotency_mismatch : ErrorCode
  dependency_unmet sync_conflict cursor_invalid cursor_expired snapshot_expired : ErrorCode
  entity_forbidden entity_not_found entity_schema_unsupported : ErrorCode

-- What a service raises: an HTTP error with its status, or an exception that no handler expects.
pub data Failure : Type 0 where
  api : ℕ → ErrorCode → Failure
  -- `IntegrityError`: a row violates a constraint of the database
  integrity : Failure
  key_error : Failure
  value_error : Failure
  runtime_error : Failure

-- A `dict[str, Any]` or `None`
abbrev pub Payload : Type 0
Payload = Option Fields

pub record Mutation : Type 0 where
  pub operation_id : ℕ
  pub entity_type : EntityType
  pub entity_id : ℕ
  pub kind : MutationKind
  pub base_version : Option ℕ
  pub base_content_hash : Option ℕ
  pub payload : Payload
  pub depends_on : List ℕ

pub record PushRequest : Type 0 where
  pub protocol_version : ℕ
  pub batch_id : ℕ
  pub device_id : ℕ
  pub mutations : List Mutation

pub record OperationResult : Type 0 where
  pub operation_id : ℕ
  pub status : OperationStatus
  pub entity_version : Option ℕ
  pub content_hash : Option ℕ
  pub conflict_id : Option ℕ
  pub failed_dependency_ids : List ℕ
  pub error : Option ErrorCode

pub record PushResponse : Type 0 where
  pub protocol_version : ℕ
  pub batch_id : ℕ
  pub results : List OperationResult

-- `payload.get("schemaVersion", 1)`, with 1 for no payload; `none` is a value that is no integer
-- or one below zero.
unfoldable pub schema_version : Payload → Option ℕ
unfolding get_field
schema_version none = some 1
schema_version (some fields) = elim (get_field "schemaVersion" fields) [
  | none ↦ some 1
  | some v ↦ elim v [ int n ↦ some n | _ ↦ none ]
]
