-- ===== src/Sync/Compaction.antt =====
-- `compact_sync_stream` of testpaper_backend/services/sync_compaction.py: changes that newer ones of
-- the same entity replace are deleted, up to a boundary that is older than the retention period.
pub mod Kept
pub mod Outcome
mod Tests
use test_paper_backend.Base.{
  ℕ, suc, ◌+◌, ◌-◌, Bool, true, false, ◌&&◌, ◌||◌, not, List, [], ◌∷◌, Option, none, some, ◌==◌,
  ltb, leb, max, min, if◌then◌else◌, length, find_by, filter_by, any_by, update_by, raise_if, ok,
  pure, gets, modify, settle, ◌>>=◌, ◌>>◌,
}
use test_paper_backend.Sync.Types.{type_number, value_error, runtime_error}
use test_paper_backend.Sync.Rows.{Change, Stream, Store, Env, days}
use test_paper_backend.Sync.Tables.{Sync}

abbrev pub minimum_retention_days : ℕ
minimum_retention_days = 90

abbrev pub in_scope : ℕ → ℕ → Change → Bool
in_scope owner scope c = c.owner_id == owner && c.scope == scope

abbrev pub is_stream : ℕ → ℕ → Stream → Bool
is_stream owner scope s = s.owner_id == owner && s.scope == scope

-- `later` in the subquery of `_deletable_predicate`: it replaces `c` within the boundary.
abbrev pub replaces : ℕ → Change → Change → Bool
replaces boundary c later =
    later.owner_id == c.owner_id
    && later.scope == c.scope
    && type_number later.entity_type == type_number c.entity_type
    && later.public_id == c.public_id
    && ltb c.sequence later.sequence
    && leb later.sequence boundary

-- `_deletable_predicate`, on the table as it stands when the statement begins.
unfoldable pub is_deletable : ℕ → ℕ → ℕ → List Change → Change → Bool
is_deletable owner scope boundary table c =
    in_scope owner scope c && leb c.sequence boundary && any_by (replaces boundary c) table

-- `coalesce(max(sequence), 0)`
unfoldable pub max_sequence : ℕ → ℕ → List Change → ℕ
max_sequence owner scope [] = 0
max_sequence owner scope (c ∷ cs) =
    let rest = max_sequence owner scope cs in
    if in_scope owner scope c then max c.sequence rest else rest

-- `min(sequence)` of the changes after the cutoff
unfoldable pub first_recent : ℕ → ℕ → ℕ → List Change → Option ℕ
first_recent owner scope cutoff [] = none
first_recent owner scope cutoff (c ∷ cs) =
    let rest = first_recent owner scope cutoff cs in
    if in_scope owner scope c && ltb cutoff c.created_at
    then (elim rest [ none ↦ some c.sequence | some n ↦ some (min c.sequence n) ])
    else rest

unfoldable pub compaction_boundary : ℕ → ℕ → ℕ → List Change → ℕ
compaction_boundary owner scope cutoff table = elim (first_recent owner scope cutoff table) [
  | none ↦ max_sequence owner scope table
  | some n ↦ n - 1
]

-- `SyncCompactionResult`, without the elapsed time
pub record CompactionResult : Type 0 where
  pub owner_id : ℕ
  pub scope : ℕ
  pub applied : Bool
  pub cutoff : ℕ
  pub previous_retained_from_sequence : ℕ
  pub new_retained_from_sequence : ℕ
  pub eligible_rows : ℕ
  pub deleted_rows : ℕ
  pub preserved_rows : ℕ
  pub previous_snapshot_version : ℕ
  pub new_snapshot_version : ℕ
  pub epoch_rotated : Bool

-- A result that changed nothing and plans nothing, from a horizon and a snapshot version.
unfoldable pub idle_result : ℕ → ℕ → ℕ → ℕ → ℕ → CompactionResult
idle_result owner scope cutoff horizon version = record {
  owner_id = owner;
  scope = scope;
  applied = false;
  cutoff = cutoff;
  previous_retained_from_sequence = horizon;
  new_retained_from_sequence = horizon;
  eligible_rows = 0;
  deleted_rows = 0;
  preserved_rows = 0;
  previous_snapshot_version = version;
  new_snapshot_version = version;
  epoch_rotated = false;
}

unfoldable pub eligible_count : ℕ → ℕ → ℕ → List Change → ℕ
eligible_count owner scope boundary table =
    length (filter_by (λ c. in_scope owner scope c && leb c.sequence boundary) table)

unfoldable pub deletable_count : ℕ → ℕ → ℕ → List Change → ℕ
deletable_count owner scope boundary table =
    length (filter_by (is_deletable owner scope boundary table) table)

-- The rows that the `DELETE` leaves.
unfoldable pub compacted : ℕ → ℕ → ℕ → List Change → List Change
compacted owner scope boundary table =
    filter_by (λ c. not (is_deletable owner scope boundary table c)) table

unfoldable pub moved_stream : Env → ℕ → ℕ → Stream → Stream
moved_stream env key boundary st = record st {
  retained_from_sequence = boundary;
  snapshot_version = suc st.snapshot_version;
  epoch = env.uuid key;
  compacted_at = some env.now;
  updated_at = env.now;
}

unfoldable pub save_stream : Stream → Store → Store
save_stream st s = record s {
  serial = suc s.serial;
  streams = update_by (is_stream st.owner_id st.scope) (λ _. st) s.streams;
}

-- What the compaction of a stream to a boundary beyond its horizon does, or would do.
unfoldable pub planned_result : ℕ → ℕ → ℕ → Bool → ℕ → Stream → Store → CompactionResult
planned_result owner scope cutoff apply boundary st s = record {
  owner_id = owner;
  scope = scope;
  applied = apply;
  cutoff = cutoff;
  previous_retained_from_sequence = st.retained_from_sequence;
  new_retained_from_sequence = boundary;
  eligible_rows = eligible_count owner scope boundary s.changes;
  deleted_rows = deletable_count owner scope boundary s.changes;
  preserved_rows =
      eligible_count owner scope boundary s.changes
      - deletable_count owner scope boundary s.changes;
  previous_snapshot_version = st.snapshot_version;
  new_snapshot_version = suc st.snapshot_version;
  epoch_rotated = apply;
}

-- The `DELETE` runs on what the other sessions have committed since the rows were counted; its row count is
-- the number of rows that it matches by then.
unfoldable pub apply_compaction :
    Env → ℕ → ℕ → ℕ → Stream → CompactionResult → Sync CompactionResult
apply_compaction env owner scope boundary st planned s =
    let now : Store = env.others s in
    (do
      modify (save_stream (moved_stream env now.serial boundary st))
      modify (λ u. record u { changes = compacted owner scope boundary u.changes })
      -- `deleted_count != deletable_count`
      raise_if (not (deletable_count owner scope boundary now.changes == planned.deleted_rows))
          runtime_error
      pure planned)
      now

unfoldable pub compact_stream : Env → ℕ → ℕ → ℕ → Bool → ℕ → Stream → Sync CompactionResult
compact_stream env owner scope cutoff apply boundary st s =
    let planned : CompactionResult = planned_result owner scope cutoff apply boundary st s in
    (if apply then apply_compaction env owner scope boundary st planned else pure planned) s

unfoldable pub compact_found : Env → ℕ → ℕ → ℕ → Bool → Option Stream → Sync CompactionResult
compact_found env owner scope cutoff apply none s = (ok (idle_result owner scope cutoff 0 0), s)
compact_found env owner scope cutoff apply (some st) s =
    let boundary : ℕ = compaction_boundary owner scope cutoff s.changes in
    (if leb boundary st.retained_from_sequence
        then pure (idle_result owner scope cutoff st.retained_from_sequence st.snapshot_version)
        else compact_stream env owner scope cutoff apply boundary st)
      s

unfoldable pub find_stream : ℕ → ℕ → Store → Option Stream
find_stream owner scope s = find_by (is_stream owner scope) s.streams

-- A failure leaves what the other sessions committed.
unfoldable pub compact_sync_stream : Env → ℕ → ℕ → ℕ → Bool → Sync CompactionResult
compact_sync_stream env owner scope retention_days apply = do
  raise_if (owner == 0) value_error
  raise_if (scope == 0) value_error
  raise_if (ltb retention_days minimum_retention_days) value_error
  (λ s. settle (env.others s) (
      compact_found env owner scope (env.now - days retention_days) apply
        (find_stream owner scope s) s))
