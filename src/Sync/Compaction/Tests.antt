-- ===== src/Sync/Compaction/Tests.antt =====
-- Runs of the compaction, and the theorems about it at a concrete log.
use test_paper_backend.Base.{ℕ, ◌≡◌, refl, true, false, none, [], ◌∷◌, err, arith}
use test_paper_backend.Sync.Types.{question, runtime_error}
use test_paper_backend.Sync.Types.MutationKind.{update}
use test_paper_backend.Sync.Rows.{Change, Stream, Store, Env}
use test_paper_backend.Sync.Samples.{env_at, empty}
use test_paper_backend.Sync.Compaction.{
  CompactionResult, planned_result, compact_sync_stream, compact_found, compact_stream,
  apply_compaction, find_stream, compaction_boundary, first_recent, max_sequence, is_deletable,
  eligible_count, deletable_count, compacted, save_stream, moved_stream, idle_result,
}
use test_paper_backend.Sync.Compaction.Outcome.{SameView, compact_sync_stream-view}

abbrev change_at : ℕ → ℕ → Change
change_at sequence public_id = record {
  sequence = sequence;
  entity_version_id = sequence;
  owner_id = 7;
  scope = 1;
  entity_type = question;
  public_id = public_id;
  version = 1;
  content_hash = 50;
  mutation_kind = update;
  tombstone = false;
  operation_id = sequence;
  created_at = sequence;
}

abbrev stream : Stream
stream = record {
  owner_id = 7;
  scope = 1;
  epoch = 70;
  retained_from_sequence = 0;
  snapshot_version = 0;
  compacted_at = none;
  created_at = 0;
  updated_at = 0;
}

abbrev full : Store
full = record empty {
  serial = 9;
  changes = change_at 1 33 ∷ change_at 2 34 ∷ change_at 3 33 ∷ [];
  streams = stream ∷ [];
}

abbrev steps : ℕ
unfolding compact_sync_stream compact_found compact_stream apply_compaction planned_result
    find_stream compaction_boundary first_recent max_sequence is_deletable eligible_count
    deletable_count compacted save_stream moved_stream idle_result
steps = 0

abbrev after : Store
unfolding steps
after = (compact_sync_stream (env_at 8640000) 7 1 90 true full).1

one_row_goes : after.changes ≡ change_at 2 34 ∷ change_at 3 33 ∷ []
unfolding steps
one_row_goes = refl

abbrev plan : CompactionResult
plan = planned_result 7 1 864000 true 3 stream full

compact_sync_stream-view_example : SameView 7 1 3 after.changes full.changes
unfolding steps
compact_sync_stream-view_example =
    compact_sync_stream-view (env_at 8640000) 7 1 90 true full after plan 3 refl (omega arith)

-- Another session commits a change that is replaced below the boundary.
abbrev crowded : Env
crowded = record (env_at 8640000) {
  others = λ s. record s { changes = change_at 0 34 ∷ s.changes };
}

count_changed : (compact_sync_stream crowded 7 1 90 true full).0 ≡ err runtime_error
unfolding steps
count_changed = refl
