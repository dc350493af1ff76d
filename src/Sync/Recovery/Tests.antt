-- ===== src/Sync/Recovery/Tests.antt =====
-- Recoveries of a concrete question with two versions, and the theorems about them there.
use Prim.Native.String.{String}
use test_paper_backend.Base.{ℕ, ◌≡◌, refl, false, none, some, Option, [], ◌∷◌, ok, arith}
use test_paper_backend.Sync.Types.{
  undo, MutationKind, question, update, create, divergent_content, keep_local,
}
use test_paper_backend.Sync.Rows.{Entity, EntityVersion, Snapshot, Conflict, Store}
use test_paper_backend.Sync.Tables.{
  find_version, find_entity, find_entity_id, save_entity, insert_version, insert_change,
}
use test_paper_backend.Sync.Attachments.{reference_lifecycle, is_attachment}
use test_paper_backend.Sync.Conflicts.{version_snapshot}
use test_paper_backend.Sync.Samples.{text, env_at, ada, empty}
use test_paper_backend.Sync.Recovery.Versions.{
  append_version, appended_entity, appended_version, append_kind, announced, find_restore,
  find_version_id, find_resolution, find_conflict, find_conflict_id,
}
use test_paper_backend.Sync.Recovery.Restoring.{
  RestoreRequest, RestoreRecord, restore_record, replay_restore, insert_restore, restore_entity,
  restore_new, restore_or_replay, restore_version,
}
use test_paper_backend.Sync.Recovery.Plans.{ResolutionRequest, plan_for, restores_content}
use test_paper_backend.Sync.Recovery.Resolving.{
  ResolutionRecord, resolve_conflict, resolve_or_replay, resolve_new, resolve_entity,
  write_resolution, accept_plan, resolution_row, insert_resolution, resolution_record, undone_id,
}
use test_paper_backend.Sync.Recovery.Replays.{restore_version-again}
use test_paper_backend.Sync.Recovery.Replays.Resolved.{resolve_conflict-again}
use test_paper_backend.Sync.Recovery.Plans.{
  plan_undo, find_prior, latest_resolution, newest_resolution, undo_prior, undo_plan,
  find_predecessor,
}
use test_paper_backend.Sync.Recovery.History.Undone.{Undone}
use test_paper_backend.Base.{true, ◌↔◌, In}
use test_paper_backend.Sync.Recovery.Listing.{ordered_rows, is_version_of, list_versions}
use test_paper_backend.Sync.Recovery.Listing.Complete.{Descending, list_versions_complete}

abbrev question_33 : Entity
question_33 = record {
  id = 1;
  owner_id = 7;
  entity_type = question;
  public_id = 33;
  scope = 1;
  schema_version = 1;
  version = 2;
  content_hash = 22;
  payload = text 22;
  tombstone = false;
  created_at = 3;
  updated_at = 4;
  deleted_at = none;
}

abbrev first : EntityVersion
first = record {
  id = 2;
  entity_id = 1;
  owner_id = 7;
  version = 1;
  schema_version = 1;
  content_hash = 11;
  payload = text 11;
  tombstone = false;
  mutation_kind = create;
  operation_id = 91;
  base_version = none;
  base_hash = none;
  device_id = 5;
  created_at = 3;
}

abbrev second : EntityVersion
second = record first {
  id = 4;
  version = 2;
  content_hash = 22;
  payload = text 22;
  mutation_kind = update;
  operation_id = 92;
  base_version = some 1;
  base_hash = some 11;
  created_at = 4;
}

abbrev candidate : ℕ → Snapshot
candidate v = record {
  schema_version = 1;
  version = 2;
  content_hash = v;
  mutation_kind = update;
  tombstone = false;
  payload = text v;
  device_id = 5;
  modified_at = 5;
}

abbrev diverged : Conflict
diverged = record {
  id = 6;
  public_id = 44;
  owner_id = 7;
  entity_id = 1;
  entity_type = question;
  reason = divergent_content;
  base_snapshot = some (candidate 11);
  local_snapshot = candidate 55;
  cloud_snapshot = candidate 22;
  detected_at = 5;
}

abbrev start : Store
start = record empty {
  serial = 10;
  entities = question_33 ∷ [];
  versions = second ∷ first ∷ [];
  conflicts = diverged ∷ [];
}

abbrev back : RestoreRequest
back = record { operation_id = 93; current_version = 2; current_content_hash = 22 }

abbrev keeps : ResolutionRequest
keeps = record {
  operation_id = 94;
  action = keep_local;
  current_version = 2;
  current_content_hash = 22;
  payload = none;
  new_entity_id = none;
  undoes_resolution_id = none;
}

abbrev undo_steps : ℕ
unfolding plan_undo find_prior latest_resolution newest_resolution undo_prior undo_plan
    find_predecessor
undo_steps = 0

-- Stands for the steps of a recovery in the `unfolding` lines of the tests.
abbrev recovery_steps : ℕ
unfolding restore_version restore_or_replay replay_restore restore_new restore_entity restore_record
    insert_restore append_version append_kind appended_entity appended_version announced
    find_restore find_version_id find_version find_entity find_entity_id save_entity insert_version
    insert_change reference_lifecycle is_attachment resolve_conflict resolve_or_replay resolve_new
    resolve_entity plan_for write_resolution accept_plan resolution_row version_snapshot
    restores_content insert_resolution resolution_record undone_id find_resolution find_conflict
    find_conflict_id
recovery_steps = 0

abbrev no_text : String → Option (Option ℕ)
no_text _ = none

abbrev third : EntityVersion
third = record first {
  id = 10;
  version = 3;
  mutation_kind = MutationKind.restore;
  operation_id = 93;
  base_version = some 2;
  base_hash = some 22;
  created_at = 60;
}

abbrev restored_record : RestoreRecord
restored_record = record {
  operation_id = 93;
  entity_type = question;
  entity_id = 33;
  restored_from_version = 1;
  result = third;
  actor_device_id = 5;
  restored_at = 60;
}

abbrev restored : Store
restored = (restore_version (env_at 60) ada 5 question 33 1 77 back start).1

restores_first :
    restore_version (env_at 60) ada 5 question 33 1 77 back start ≡ (ok restored_record, restored)
unfolding recovery_steps
restores_first = refl

restore_version-again_example :
    restore_version (env_at 80) ada 6 question 33 1 77 back restored
    ≡ (ok restored_record, restored)
restore_version-again_example =
    restore_version-again (env_at 60) (env_at 80) ada 5 6 question 33 1 77 back start restored
      restored_record restores_first

abbrev kept_record : ResolutionRecord
kept_record = record {
  resolution_id = 12;
  conflict_id = 44;
  operation_id = 94;
  action = keep_local;
  actor_device_id = 5;
  accepted_version = 3;
  accepted_content_hash = 55;
  result = record (candidate 55) { version = 3; modified_at = 60 };
  new_entity_id = none;
  undoes_resolution_id = none;
  resolved_at = 60;
}

abbrev resolved : Store
resolved = (resolve_conflict no_text (env_at 60) ada 5 78 44 keeps start).1

keeps_local :
    resolve_conflict no_text (env_at 60) ada 5 78 44 keeps start ≡ (ok kept_record, resolved)
unfolding recovery_steps
keeps_local = refl

own_key :
    (c : Conflict) → find_conflict ada.id 44 start ≡ some c → find_conflict_id c.id start ≡ some c
unfolding find_conflict find_conflict_id
own_key c found = ground arith

resolve_conflict-again_example :
    resolve_conflict no_text (env_at 80) ada 6 78 44 keeps resolved ≡ (ok kept_record, resolved)
resolve_conflict-again_example =
    resolve_conflict-again no_text (env_at 60) (env_at 80) ada 5 6 78 44 keeps start resolved
      kept_record own_key keeps_local

abbrev takes_back : ResolutionRequest
takes_back = record {
  operation_id = 95;
  action = undo;
  current_version = 3;
  current_content_hash = 55;
  payload = none;
  new_entity_id = none;
  undoes_resolution_id = some 12;
}

abbrev undone_record : ResolutionRecord
undone_record = record {
  resolution_id = 15;
  conflict_id = 44;
  operation_id = 95;
  action = undo;
  actor_device_id = 5;
  accepted_version = 4;
  accepted_content_hash = 22;
  result = record (candidate 22) {
    version = 4;
    mutation_kind = MutationKind.restore;
    modified_at = 70;
  };
  new_entity_id = none;
  undoes_resolution_id = some 12;
  resolved_at = 70;
}

abbrev undone : Store
undone = (resolve_conflict no_text (env_at 70) ada 5 79 44 takes_back resolved).1

lists_both : list_versions ada question 33 start ≡ (ok (second ∷ first ∷ []), start)
unfolding list_versions ordered_rows recovery_steps
lists_both = refl

list_versions_complete_example :
    (e : Entity) × (find_entity ada.id question 33 start ≡ some e)
    × ((v : EntityVersion)
        → (In v (second ∷ first ∷ []) × (is_version_of 7 e.id v ≡ true))
          ↔ In v (second ∷ first ∷ []))
    × Descending (second ∷ first ∷ [])
list_versions_complete_example =
    list_versions_complete ada question 33 start start (second ∷ first ∷ []) lists_both
