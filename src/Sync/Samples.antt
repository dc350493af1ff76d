-- ===== src/Sync/Samples.antt =====
-- Concrete accounts, payloads and stores for the tests.
use test_paper_backend.Base.{ℕ, true, [], ◌∷◌, none, some}
use test_paper_backend.Base.Json.{int, end, field}
use test_paper_backend.Accounts.{User, teacher, viewer, role_permissions}
use test_paper_backend.Sync.Types.{Payload, Mutation, MutationKind, question, PushRequest}
use test_paper_backend.Sync.Rows.{Env, Store}
use test_paper_backend.Base.{order_by}
use test_paper_backend.Sync.Types.{schema_version}
use test_paper_backend.Sync.Tables.{
  find_entity, find_result, latest_version, load_batch, insert_batch, save_batch,
}
use test_paper_backend.Sync.Attachments.{reference_lifecycle}
use test_paper_backend.Sync.Conflicts.{desired_payload, create_conflict}
use test_paper_backend.Sync.Apply.{
  apply_mutation, apply_schema, apply_create, apply_change, can_mutate, record_version,
  rejected_result,
}
use test_paper_backend.Sync.Push.{
  push_mutations, enforce_batch_limits, push_or_replay, push_new, push_batch, replay_batch,
  lost_race, new_batch, completed_batch, response_of, push_all, push_one, attempt, handled, recover,
  recover_unused, decide, dependency_result, failed_dependencies, keep_result,
}

abbrev pub text : ℕ → Payload
text n = some (field "v" (int n) end)

-- Tells apart the payloads of the tests.
abbrev pub sample_digest : Payload → ℕ
sample_digest none = 0
sample_digest (some end) = 1
sample_digest (some (field _ (int n) _)) = n
sample_digest (some (field _ _ _)) = 2

abbrev pub env_at : ℕ → Env
env_at t = record {
  now = t;
  uuid = λ n. n;
  digest = sample_digest;
  request_digest = λ r. r.batch_id;
  mutation_size = λ m. 10;
  batch_size = λ r. 10;
  others = λ s. s;
}

abbrev pub ada : User
ada = record { id = 7; role = teacher; permissions = role_permissions teacher; is_active = true }

abbrev pub guest : User
guest = record { id = 8; role = viewer; permissions = role_permissions viewer; is_active = true }

abbrev pub empty : Store
empty = record {
  serial = 1;
  entities = [];
  versions = [];
  changes = [];
  streams = [];
  devices = [];
  batches = [];
  results = [];
  conflicts = [];
  resolutions = [];
  restores = [];
  references = [];
}

-- A mutation of question 33 with no dependency.
abbrev pub creates : ℕ → ℕ → Mutation
creates op v = record {
  operation_id = op;
  entity_type = question;
  entity_id = 33;
  kind = MutationKind.create;
  base_version = none;
  base_content_hash = none;
  payload = text v;
  depends_on = [];
}

abbrev pub updates : ℕ → ℕ → ℕ → ℕ → Mutation
updates op base hash v = record {
  operation_id = op;
  entity_type = question;
  entity_id = 33;
  kind = MutationKind.update;
  base_version = some base;
  base_content_hash = some hash;
  payload = text v;
  depends_on = [];
}

abbrev pub batch_of : ℕ → Mutation → PushRequest
batch_of id m = record { protocol_version = 1; batch_id = id; device_id = 5; mutations = m ∷ [] }

-- Stands for the steps of a push in the `unfolding` lines of the tests.
unfoldable pub push_steps : ℕ
unfolding push_mutations enforce_batch_limits push_or_replay push_new push_batch replay_batch
    lost_race load_batch insert_batch save_batch new_batch completed_batch response_of push_all
    push_one attempt handled recover recover_unused decide dependency_result failed_dependencies
    keep_result apply_mutation apply_schema apply_create apply_change can_mutate find_entity
    find_result schema_version desired_payload record_version reference_lifecycle create_conflict
    rejected_result order_by latest_version
push_steps = 0
