-- ===== src/Sync/Recovery/Listing.antt =====
-- `get_conflict`, `list_conflict_resolutions` and `list_versions` of
-- testpaper_backend/services/sync_conflicts.py.
pub mod Complete
use test_paper_backend.Base.{
  ℕ, Bool, true, false, ◌&&◌, ◌||◌, Option, none, some, List, [], ◌∷◌, map, pure, gets, or_raise,
  session, ◌==◌, ltb, if◌then◌else◌, filter_by, find_by, ◌>>=◌,
}
use test_paper_backend.Accounts.{User}
use test_paper_backend.Sync.Types.{EntityType, ConflictReason, entity_not_found, api}
use test_paper_backend.Sync.Rows.{Entity, EntityVersion, Snapshot, Conflict, Resolution, Store}
use test_paper_backend.Sync.Tables.{Sync, find_entity}
use test_paper_backend.Sync.Recovery.Versions.{find_conflict}
use test_paper_backend.Sync.Recovery.Resolving.{ResolutionRecord, resolution_record}

-- `ORDER BY`: rows in the order of a strict comparison, of which none comes before an earlier one.
module _ {A : Type 0} (before : A → A → Bool) where
  abbrev pub insert_row : A → List A → List A
  insert_row x [] = x ∷ []
  insert_row x (y ∷ ys) = if before y x then y ∷ insert_row x ys else x ∷ y ∷ ys

  unfoldable pub ordered_rows : List A → List A
  ordered_rows [] = []
  ordered_rows (x ∷ xs) = insert_row x (ordered_rows xs)

-- `SyncConflictRecord`
pub record ConflictRecord : Type 0 where
  pub conflict_id : ℕ
  pub entity_type : EntityType
  pub entity_id : ℕ
  pub reason : ConflictReason
  pub base : Option Snapshot
  pub here : Snapshot
  pub cloud : Snapshot
  pub detected_at : ℕ

-- The row of the entity, by its key alone, for the join.
unfoldable pub joined_entity : ℕ → Store → Option Entity
joined_entity id s = find_by (λ (e : Entity). e.id == id) s.entities

unfoldable pub get_conflict : User → ℕ → Sync ConflictRecord
unfolding find_conflict joined_entity
get_conflict user conflict_id = session (do
  c ← (λ s. or_raise (find_conflict user.id conflict_id s) (api 404 entity_not_found) s)
  e ← (λ s. or_raise (joined_entity c.entity_id s) (api 404 entity_not_found) s)
  pure (record {
    conflict_id = c.public_id;
    entity_type = c.entity_type;
    entity_id = e.public_id;
    reason = c.reason;
    base = c.base_snapshot;
    here = c.local_snapshot;
    cloud = c.cloud_snapshot;
    detected_at = c.detected_at;
  }))

-- `resolved_at.asc(), id.asc()`
abbrev pub earlier : Resolution → Resolution → Bool
earlier a b = ltb a.resolved_at b.resolved_at || (a.resolved_at == b.resolved_at && ltb a.id b.id)

unfoldable pub resolutions_of : ℕ → ℕ → Store → List Resolution
unfolding ordered_rows
resolutions_of owner conflict s =
    ordered_rows earlier (
      filter_by (λ (r : Resolution). r.owner_id == owner && r.conflict_id == conflict)
        s.resolutions)

unfoldable pub list_conflict_resolutions : User → ℕ → Sync (List ResolutionRecord)
unfolding find_conflict resolutions_of resolution_record
list_conflict_resolutions user conflict_id = session (do
  c ← (λ s. or_raise (find_conflict user.id conflict_id s) (api 404 entity_not_found) s)
  gets (λ s. map (λ r. resolution_record r conflict_id s) (resolutions_of user.id c.id s)))

-- `version.desc()`
abbrev pub newer : EntityVersion → EntityVersion → Bool
newer a b = ltb b.version a.version

abbrev pub is_version_of : ℕ → ℕ → EntityVersion → Bool
is_version_of owner entity v = v.owner_id == owner && v.entity_id == entity

unfoldable pub list_versions : User → EntityType → ℕ → Sync (List EntityVersion)
unfolding find_entity ordered_rows
list_versions user kind public_id = session (do
  e ← (λ s. or_raise (find_entity user.id kind public_id s) (api 404 entity_not_found) s)
  gets (λ s. ordered_rows newer (filter_by (is_version_of user.id e.id) s.versions)))
