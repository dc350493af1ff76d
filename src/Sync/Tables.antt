-- ===== src/Sync/Tables.antt =====
-- Queries on the tables of testpaper_backend/db.py, and inserts that check their constraints. A
-- flush that violates one raises `IntegrityError`. UUIDs that the server draws are taken as fresh,
-- so the constraints on their columns are not checked, nor those that hold by the types.
use test_paper_backend.Base.{
  ℕ, suc, Bool, true, false, ◌&&◌, ◌||◌, Option, none, some, [], ◌∷◌, ◌++◌, ok, err, Tx, ◌==◌,
  if◌then◌else◌, is_none, find_by, filter_by, any_by, update_by, last?, order_by,
}
use test_paper_backend.Sync.Types.{EntityType, type_number, concurrent_create, Failure, integrity}
use test_paper_backend.Sync.Rows.{Entity, EntityVersion, Change, Batch, ResultRow, Conflict, Store}

abbrev pub Sync : Type 0 → Type 0
Sync = Tx Store Failure

-- `_entity_query`
abbrev pub is_entity : ℕ → EntityType → ℕ → Entity → Bool
is_entity owner kind public e =
    e.owner_id == owner && type_number e.entity_type == type_number kind && e.public_id == public

unfoldable pub find_entity : ℕ → EntityType → ℕ → Store → Option Entity
find_entity owner kind public s = find_by (is_entity owner kind public) s.entities

unfoldable pub find_entity_id : ℕ → ℕ → Store → Option Entity
find_entity_id id owner s = find_by (λ (e : Entity). e.id == id && e.owner_id == owner) s.entities

unfoldable pub find_version : ℕ → ℕ → ℕ → Store → Option EntityVersion
find_version entity owner version s =
    find_by
      (λ (v : EntityVersion). v.entity_id == entity && v.owner_id == owner && v.version == version)
      s.versions

-- `entity.versions[-1]`: the relationship is ordered by version.
unfoldable pub latest_version : ℕ → ℕ → Store → Option EntityVersion
unfolding order_by
latest_version entity owner s = last? (
    order_by (λ v. v.version)
      (filter_by (λ (v : EntityVersion). v.entity_id == entity && v.owner_id == owner) s.versions))

unfoldable pub find_result : ℕ → ℕ → Store → Option ResultRow
find_result owner operation s =
    find_by (λ (r : ResultRow). r.owner_id == owner && r.operation_id == operation) s.results

-- `_load_batch`
abbrev pub is_batch : ℕ → ℕ → ℕ → Batch → Bool
is_batch owner device key b =
    b.owner_id == owner && b.device_id == device && b.idempotency_key == key

unfoldable pub load_batch : ℕ → ℕ → ℕ → Store → Option Batch
load_batch owner device key s = find_by (is_batch owner device key) s.batches

unfoldable pub insert_entity : Entity → Sync Entity
insert_entity row s =
    let new : Entity = record row { id = s.serial } in
    if any_by (is_entity row.owner_id row.entity_type row.public_id) s.entities
    then (err integrity, s)
    else (ok new, record s { serial = suc s.serial; entities = new ∷ s.entities })

-- A flush of an entity that was loaded and changed.
unfoldable pub save_entity : Entity → Store → Store
save_entity row s = record s {
  entities = update_by (λ (e : Entity). e.id == row.id) (λ _. row) s.entities;
}

abbrev pub version_taken : EntityVersion → EntityVersion → Bool
version_taken row v =
    (v.entity_id == row.entity_id && v.version == row.version)
    || (v.owner_id == row.owner_id && v.operation_id == row.operation_id)

unfoldable pub insert_version : EntityVersion → Sync EntityVersion
insert_version row s =
    let new : EntityVersion = record row { id = s.serial } in
    if any_by (version_taken row) s.versions
    then (err integrity, s)
    else (ok new, record s { serial = suc s.serial; versions = new ∷ s.versions })

-- `sequence` grows with each row, so the log is in the order of its sequences.
unfoldable pub insert_change : Change → Store → Store
insert_change row s = record s {
  serial = suc s.serial;
  changes = s.changes ++ record row { sequence = s.serial } ∷ [];
}

abbrev pub result_taken : ResultRow → ResultRow → Bool
result_taken row r =
    (r.batch_id == row.batch_id && r.ordinal == row.ordinal)
    || (r.owner_id == row.owner_id && r.operation_id == row.operation_id)

unfoldable pub insert_result : ResultRow → Sync (Unit {0})
insert_result row s = if any_by (result_taken row) s.results then (err integrity, s) else (
  ok tt,
  record s { serial = suc s.serial; results = record row { id = s.serial } ∷ s.results },
)

unfoldable pub insert_batch : Batch → Sync Batch
insert_batch row s =
    let new : Batch = record row { id = s.serial } in
    if any_by (is_batch row.owner_id row.device_id row.idempotency_key) s.batches
    then (err integrity, s)
    else (ok new, record s { serial = suc s.serial; batches = new ∷ s.batches })

unfoldable pub save_batch : Batch → Store → Store
save_batch row s = record s {
  batches = update_by (λ (b : Batch). b.id == row.id) (λ _. row) s.batches;
}

-- `ck_sync_conflicts_baseline`: a concurrent create has no baseline, any other conflict has one.
abbrev pub baseline_holds : Conflict → Bool
baseline_holds row = elim row.reason [
  | concurrent_create ↦ is_none row.base_snapshot
  | _ ↦ elim row.base_snapshot [ none ↦ false | some _ ↦ true ]
]

unfoldable pub insert_conflict : Conflict → Sync Conflict
insert_conflict row s =
    if baseline_holds row
    then (ok row, record s { serial = suc s.serial; conflicts = row ∷ s.conflicts })
    else (err integrity, s)
