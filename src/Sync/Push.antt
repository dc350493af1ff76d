-- ===== src/Sync/Push.antt =====
-- `push_mutations` of testpaper_backend/services/sync_push.py: the limits of a batch, its replay,
-- and the loop over its mutations with one savepoint for each.
mod Tests
mod Batches
pub mod Settled
pub mod Turn
pub mod Order
pub mod StaleCreate
mod Answered
pub mod Replay
use test_paper_backend.Base.{
  ℕ, suc, zero, ◌+◌, ◌*◌, Bool, true, false, ◌&&◌, ◌||◌, not, List, [], ◌∷◌, ◌++◌, Option, none,
  some, ◌==◌, ltb, if◌then◌else◌, is_some, length, any_by, Result, ok, err, raise, pure, modify,
  gets, raise_if, session, settle, ◌>>=◌, ◌>>◌,
}
use test_paper_backend.Accounts.{User}
use test_paper_backend.Sync.Types.{
  sync_protocol_version, EntityType, MutationKind, create, same_kind, OperationStatus, applied,
  noop, dependency_failed, OperationResult, ErrorCode, protocol_unsupported, entity_forbidden,
  batch_too_large, batch_invalid, idempotency_mismatch, dependency_unmet, Failure, api, integrity,
  key_error, Mutation, PushRequest, PushResponse,
}
use test_paper_backend.Sync.Rows.{
  Entity, Batch, BatchStatus, processing, completed, ResultRow, Store, Env, days,
}
use test_paper_backend.Sync.Tables.{
  Sync, find_entity, find_result, load_batch, insert_batch, save_batch, insert_result,
}
use test_paper_backend.Sync.Conflicts.{create_conflict, conflict_result}
use test_paper_backend.Sync.Apply.{rejected_result, apply_mutation}

abbrev pub max_push_mutations : ℕ
max_push_mutations = 100

abbrev pub max_push_mutation_bytes : ℕ
max_push_mutation_bytes = 1024 * 1024

abbrev pub max_push_batch_bytes : ℕ
max_push_batch_bytes = 10 * 1024 * 1024

abbrev pub idempotency_retention_days : ℕ
idempotency_retention_days = 90

unfoldable pub enforce_batch_limits : Env → PushRequest → Sync (Unit {0})
enforce_batch_limits env payload = do
  raise_if (ltb max_push_mutations (length payload.mutations)) (api 413 batch_too_large)
  raise_if (any_by (λ m. ltb max_push_mutation_bytes (env.mutation_size m)) payload.mutations)
      (api 413 batch_too_large)
  raise_if (ltb max_push_batch_bytes (env.batch_size payload)) (api 413 batch_too_large)

abbrev pub Results : Type 0
Results = List (ℕ × OperationResult)

-- `results_by_id[dependency]`: the newest entry of the dictionary stands first.
unfoldable pub result_of : ℕ → Results → Option OperationResult
result_of id [] = none
result_of id ((k, r) ∷ rest) = if k == id then some r else result_of id rest

-- `status in {applied, noop}`
abbrev pub settled : OperationStatus → Bool
settled applied = true
settled noop = true
settled _ = false

-- The comprehension `failed_dependencies`; a name that is not in the dictionary is a `KeyError`.
unfoldable pub failed_dependencies : Results → List ℕ → Result Failure (List ℕ)
unfolding result_of
failed_dependencies done [] = ok []
failed_dependencies done (d ∷ ds) =
    let rest = failed_dependencies done ds in
    elim (result_of d done) [
      | none ↦ err key_error
      | some r ↦ elim rest [
        | err e ↦ err e
        | ok ids ↦ ok (if settled r.status then ids else d ∷ ids)
      ]
    ]

unfoldable pub dependency_result : Mutation → List ℕ → OperationResult
dependency_result m ids = record {
  operation_id = m.operation_id;
  status = dependency_failed;
  entity_version = none;
  content_hash = none;
  conflict_id = none;
  failed_dependency_ids = ids;
  error = some dependency_unmet;
}

unfoldable pub result_row : ℕ → ℕ → ℕ → Mutation → OperationResult → ResultRow
result_row batch owner ordinal m r = record {
  id = 0;
  batch_id = batch;
  owner_id = owner;
  ordinal = ordinal;
  operation_id = m.operation_id;
  status = r.status;
  entity_type = m.entity_type;
  public_id = m.entity_id;
  accepted_version = r.entity_version;
  content_hash = r.content_hash;
  error_code = r.error;
  details = r;
}

-- What every step of one batch knows.
pub record Batching : Type 0 where
  pub env : Env
  pub user : User
  pub device : ℕ
  pub batch : ℕ

-- `session.add(_result_row(...)); session.flush()`
unfoldable pub keep_result : Batching → ℕ → Mutation → OperationResult → Sync OperationResult
unfolding result_row insert_result
keep_result b ordinal m r = do insert_result (result_row b.batch b.user.id ordinal m r); pure r

unfoldable pub decide : Batching → Mutation → List ℕ → Sync OperationResult
unfolding dependency_result
decide b m [] = apply_mutation b.env b.user b.device m
decide b m (d ∷ ds) = pure (dependency_result m (d ∷ ds))

-- The block under `session.begin_nested()`.
unfoldable pub attempt : Batching → Results → ℕ → Mutation → Sync OperationResult
unfolding failed_dependencies
attempt b done ordinal m s = elim (failed_dependencies done m.depends_on) [
  | err e ↦ (err e, s)
  | ok ids ↦ (decide b m ids >>= keep_result b ordinal m) s
]

-- The handler of `IntegrityError` for an operation id that is not used yet.
unfoldable pub recover_unused : Batching → ℕ → Mutation → Option Entity → Sync OperationResult
unfolding rejected_result conflict_result
recover_unused b ordinal m none = keep_result b ordinal m (rejected_result m batch_invalid)
recover_unused b ordinal m (some e) =
    if same_kind m.kind create
    then (create_conflict b.env b.user b.device m e >>= keep_result b ordinal m)
    else keep_result b ordinal m (conflict_result m e none)

-- The handler of `IntegrityError`, on the store of the savepoint.
unfoldable pub recover : Batching → ℕ → Mutation → Sync OperationResult
unfolding rejected_result
recover b ordinal m = do
  reused ← gets (find_result b.user.id m.operation_id)
  current ← gets (find_entity b.user.id m.entity_type m.entity_id)
  if is_some reused
      then pure (rejected_result m batch_invalid)
      else recover_unused b ordinal m current

unfoldable pub handled :
    Batching
    → ℕ
    → Mutation
    → Store
    → Result Failure OperationResult × Store
    → Result Failure OperationResult × Store
unfolding recover
handled b ordinal m s (ok r, s') = (ok r, s')
handled b ordinal m s (err integrity, s') = recover b ordinal m s
handled b ordinal m s (err e, s') = (err e, s')

-- One turn of the loop: the savepoint's store is `s`.
unfoldable pub push_one : Batching → Results → ℕ → Mutation → Sync OperationResult
unfolding handled
push_one b done ordinal m s = handled b ordinal m s (attempt b done ordinal m s)

unfoldable pub push_all : Batching → Results → ℕ → List Mutation → Sync (List OperationResult)
push_all b done ordinal [] = pure []
push_all b done ordinal (m ∷ ms) = do
  r ← push_one b done ordinal m
  rest ← push_all b ((m.operation_id, r) ∷ done) (suc ordinal) ms
  pure (r ∷ rest)

-- `_replay_batch`
unfoldable pub replay_batch : Env → Batch → ℕ → Sync PushResponse
replay_batch env batch hash = do
  raise_if (not (batch.request_hash == hash)) (api 409 idempotency_mismatch)
  elim batch.response_payload [
    | none ↦ raise (api 409 batch_invalid)
    | some response ↦ (do
      modify (
          save_batch (record batch {
            last_replayed_at = env.now;
            expires_at = env.now + days idempotency_retention_days;
          }))
      pure response)
  ]

unfoldable pub new_batch : Env → User → ℕ → ℕ → PushRequest → Batch
new_batch env user device request payload = record {
  id = 0;
  owner_id = user.id;
  device_id = device;
  idempotency_key = payload.batch_id;
  request_hash = env.request_digest payload;
  protocol_version = sync_protocol_version;
  status = processing;
  request_id = request;
  response_status = none;
  response_payload = none;
  expires_at = env.now + days idempotency_retention_days;
  created_at = env.now;
  last_replayed_at = env.now;
  completed_at = none;
}

unfoldable pub response_of : PushRequest → List OperationResult → PushResponse
response_of payload results = record {
  protocol_version = sync_protocol_version;
  batch_id = payload.batch_id;
  results = results;
}

unfoldable pub completed_batch : Env → Batch → PushResponse → Batch
completed_batch env batch response = record batch {
  status = completed;
  response_status = some 200;
  response_payload = some response;
  completed_at = some env.now;
}

-- The rest of the service, once the batch has its row.
unfoldable pub push_batch : Env → User → ℕ → PushRequest → Batch → Sync PushResponse
push_batch env user device payload batch = do
  results ←
      push_all (record { env = env; user = user; device = device; batch = batch.id }) [] 0
        payload.mutations
  modify (save_batch (completed_batch env batch (response_of payload results)))
  pure (response_of payload results)

-- The handler of `IntegrityError` at the flush of the batch, on what is committed by then.
unfoldable pub lost_race : Env → ℕ → Option Batch → Sync PushResponse
lost_race env hash none = raise integrity
lost_race env hash (some batch) = replay_batch env batch hash

unfoldable pub push_new : Env → User → ℕ → ℕ → PushRequest → Sync PushResponse
unfolding lost_race
push_new env user device request payload s =
    let now : Store = env.others s in
    let (r, s') = insert_batch (new_batch env user device request payload) now in
    elim r [
      | ok batch ↦ settle now (push_batch env user device payload batch s')
      | err e ↦
          session
            (lost_race env (env.request_digest payload)
              (load_batch user.id device payload.batch_id now))
            now
    ]

-- With the row that the first query finds.
unfoldable pub push_or_replay : Env → User → ℕ → ℕ → PushRequest → Option Batch → Sync PushResponse
push_or_replay env user device request payload none = push_new env user device request payload
push_or_replay env user device request payload (some batch) =
    session (replay_batch env batch (env.request_digest payload))

unfoldable pub push_mutations : Env → User → ℕ → ℕ → PushRequest → Sync PushResponse
push_mutations env user device request payload = do
  raise_if (not (payload.protocol_version == sync_protocol_version)) (api 426 protocol_unsupported)
  raise_if (not (payload.device_id == device)) (api 403 entity_forbidden)
  enforce_batch_limits env payload
  existing ← gets (load_batch user.id device payload.batch_id)
  push_or_replay env user device request payload existing
