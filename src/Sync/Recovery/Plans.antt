-- ===== src/Sync/Recovery/Plans.antt =====
-- What an action of `resolve_conflict` of testpaper_backend/services/sync_conflicts.py asks for: the
-- entity that gets the content, and what the content is.
use Prim.Native.String.{String}
use test_paper_backend.Base.{
  ℕ, suc, Bool, true, false, not, ◌&&◌, ◌||◌, Option, none, some, List, [], ◌∷◌, Result, ok, err,
  pure, gets, raise_if, or_raise, ◌==◌, ltb, if◌then◌else◌, find_by, filter_by, ◌>>=◌, ◌>>◌,
}
use test_paper_backend.Base.Json.{Json, bool, int, negint, float, str, get_field}
use test_paper_backend.Accounts.{User}
use test_paper_backend.Sync.Types.{
  ResolutionAction, use_cloud, save_copy, manual_merge, restore_version, undo, Payload,
  sync_conflict, entity_not_found, Failure, api, value_error, runtime_error,
}
use test_paper_backend.Sync.Rows.{Entity, EntityVersion, Snapshot, Conflict, Resolution, Store}
use test_paper_backend.Sync.Tables.{Sync, find_entity_id, find_version}
use test_paper_backend.Sync.Recovery.Versions.{Source, find_version_id}
use test_paper_backend.Sync.Recovery.Restoring.{has_moved}

-- `SyncConflictResolutionRequest`
pub record ResolutionRequest : Type 0 where
  pub operation_id : ℕ
  pub action : ResolutionAction
  pub current_version : ℕ
  pub current_content_hash : ℕ
  pub payload : Payload
  pub new_entity_id : Option ℕ
  pub undoes_resolution_id : Option ℕ

-- What an action asks for: the entity that gets the content, and the resolution that it undoes.
pub record Plan : Type 0 where
  pub target : Entity
  pub source : Source
  pub undoes : Option ℕ

abbrev pub snapshot_source : Snapshot → Source
snapshot_source c = record { payload = c.payload; tombstone = c.tombstone }

abbrev pub version_source : EntityVersion → Source
version_source v = record { payload = v.payload; tombstone = v.tombstone }

abbrev bool_number : Bool → ℕ
bool_number false = 0
bool_number true = 1

-- `resolved_at.desc(), id.desc()` and the first row
abbrev later : Resolution → Resolution → Bool
later a b = ltb b.resolved_at a.resolved_at || (a.resolved_at == b.resolved_at && ltb b.id a.id)

abbrev keep_later : Resolution → Option Resolution → Resolution
keep_later r none = r
keep_later r (some q) = if later r q then r else q

unfoldable pub newest_resolution : List Resolution → Option Resolution
newest_resolution [] = none
newest_resolution (r ∷ rs) = some (keep_later r (newest_resolution rs))

unfoldable pub latest_resolution : ℕ → ℕ → Store → Option Resolution
unfolding newest_resolution
latest_resolution owner conflict s =
    newest_resolution (
      filter_by (λ (r : Resolution). r.owner_id == owner && r.conflict_id == conflict)
        s.resolutions)

unfoldable pub find_prior : ℕ → Option ℕ → ℕ → Store → Option Resolution
find_prior owner none conflict s = none
find_prior owner (some public_id) conflict s =
    find_by
      (λ (r : Resolution).
        r.owner_id == owner && r.public_id == public_id && r.conflict_id == conflict)
      s.resolutions

unfoldable pub find_predecessor : ℕ → ℕ → Store → Option EntityVersion
find_predecessor entity version s =
    find_by (λ (v : EntityVersion). v.entity_id == entity && suc v.version == version) s.versions

abbrev pub is_latest : Resolution → Option Resolution → Bool
is_latest prior none = false
is_latest prior (some r) = r.id == prior.id

abbrev pub is_save_copy : ResolutionAction → Bool
is_save_copy save_copy = true
is_save_copy _ = false

unfoldable pub restores_content : ResolutionAction → Bool
restores_content restore_version = true
restores_content undo = true
restores_content _ = false

-- The copy that a resolution saved, if nothing was written to it since.
unfoldable pub untouched_copy : ℕ → EntityVersion → Store → Option Entity
untouched_copy owner v s = elim (find_entity_id v.entity_id owner s) [
  | none ↦ none
  | some e ↦ if has_moved v.version v.content_hash e then none else some e
]

-- The branches on whether the undone action saved a copy, with the version that it accepted.
unfoldable pub undo_plan : User → Entity → Resolution → EntityVersion → Bool → Sync Plan
unfolding untouched_copy find_predecessor
undo_plan user e prior v true = do
  saved ← (λ s. or_raise (untouched_copy user.id v s) (api 409 sync_conflict) s)
  pure (record {
    target = saved;
    source = record { payload = none; tombstone = true };
    undoes = some prior.id;
  })
undo_plan user e prior v false = do
  before ← (λ s. or_raise (find_predecessor e.id v.version s) (api 409 sync_conflict) s)
  pure (record { target = e; source = version_source before; undoes = some prior.id })

unfoldable pub undo_prior : User → Entity → Resolution → Sync Plan
unfolding undo_plan find_version_id
undo_prior user e prior = do
  v ← (λ s. or_raise (find_version_id prior.accepted_version_id s) runtime_error s)
  undo_plan user e prior v (is_save_copy prior.action)

unfoldable pub plan_undo : User → Conflict → Entity → ResolutionRequest → Sync Plan
unfolding find_prior latest_resolution undo_prior
plan_undo user c e payload = do
  prior ← (λ s.
      or_raise (find_prior user.id payload.undoes_resolution_id c.id s) (api 404 entity_not_found)
        s)
  latest ← gets (latest_resolution user.id c.id)
  raise_if (not (is_latest prior latest)) (api 409 sync_conflict)
  undo_prior user e prior

-- `int_of` is what `int` makes of a text or a float: `none` for a `ValueError`, and no number for one
-- below zero, which no version has.
module _ (int_of : String → Option (Option ℕ)) where
  -- `int((payload.payload or {}).get("version", 0))`
  unfoldable pub version_number : Json → Result Failure (Option ℕ)
  version_number (int n) = ok (some n)
  version_number (negint n) = ok none
  version_number (bool b) = ok (some (bool_number b))
  version_number (str t) = elim (int_of t) [ none ↦ err value_error | some n ↦ ok n ]
  version_number (float t) = elim (int_of t) [ none ↦ err value_error | some n ↦ ok n ]
  version_number _ = err runtime_error

  unfoldable pub requested_version : Payload → Result Failure (Option ℕ)
  unfolding version_number get_field
  requested_version none = ok (some 0)
  requested_version (some fields) = elim (get_field "version" fields) [
    | none ↦ ok (some 0)
    | some v ↦ version_number v
  ]

  unfoldable pub find_requested : ℕ → Entity → Option ℕ → Store → Option EntityVersion
  unfolding find_version
  find_requested owner e none s = none
  find_requested owner e (some n) s = find_version e.id owner n s

  unfoldable pub plan_restore : User → Entity → ResolutionRequest → Sync Plan
  unfolding requested_version find_requested
  plan_restore user e payload = do
    target ← (λ s. (requested_version payload.payload, s))
    historic ← (λ s. or_raise (find_requested user.id e target s) (api 404 entity_not_found) s)
    pure (record { target = e; source = version_source historic; undoes = none })

  -- The branches on `payload.action`.
  unfoldable pub plan_for :
      User → Conflict → Entity → ResolutionRequest → ResolutionAction → Sync Plan
  unfolding plan_restore plan_undo
  plan_for user c e payload use_cloud =
      pure (record { target = e; source = snapshot_source c.cloud_snapshot; undoes = none })
  plan_for user c e payload manual_merge = pure (record {
    target = e;
    source = record { payload = payload.payload; tombstone = false };
    undoes = none;
  })
  plan_for user c e payload restore_version = plan_restore user e payload
  plan_for user c e payload undo = plan_undo user c e payload
  plan_for user c e payload _ =
      pure (record { target = e; source = snapshot_source c.local_snapshot; undoes = none })
