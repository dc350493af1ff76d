-- ===== src/Sync/Recovery/History/Undone.antt =====
-- What an undo of a resolution does: `resolve_conflict` of testpaper_backend/services/sync_conflicts.py with
-- the action undo.
use Prim.Native.String.{String}
use test_paper_backend.Base.{ℕ, suc, ◌≡◌, false, ◌∷◌, some}
use test_paper_backend.Accounts.{User}
use test_paper_backend.Sync.Rows.{Entity, EntityVersion, Conflict, Store, Env}
use test_paper_backend.Sync.Recovery.Versions.{find_conflict}
use test_paper_backend.Sync.Tables.{find_entity_id}
use test_paper_backend.Sync.Recovery.Restoring.{has_moved}
use test_paper_backend.Sync.Recovery.Plans.{ResolutionRequest, Plan}
use test_paper_backend.Sync.Recovery.Resolving.{ResolutionRecord}
use test_paper_backend.Sync.Recovery.History.UndoPlan.{UndoPlan}
use test_paper_backend.Sync.Recovery.History.{Rewritten}

-- What an undo of a conflict's newest resolution writes: one version, the next one of the entity or of the
-- copy that the resolution had saved, with the content of before, or a deletion of the copy.
pub record Undone (env : Env) (user : User) (conflict_id : ℕ) (payload : ResolutionRequest)
    (s t : Store) (r : ResolutionRecord) : Type 0 where
  pub conflict : Conflict
  pub entity : Entity
  pub plan : Plan
  pub version : EntityVersion
  pub known : find_conflict user.id conflict_id s ≡ some conflict
  pub its_entity : find_entity_id conflict.entity_id user.id s ≡ some entity
  pub unmoved : has_moved payload.current_version payload.current_content_hash entity ≡ false
  pub planned : UndoPlan user conflict entity payload s plan
  pub versions : t.versions ≡ version ∷ s.versions
  pub next : version.version ≡ suc plan.target.version
  pub payload_back : version.payload ≡ plan.source.payload
  pub tombstone_back : version.tombstone ≡ plan.source.tombstone
  pub of_target : version.entity_id ≡ plan.target.id
  pub after : Entity
  pub stored : find_entity_id plan.target.id user.id t ≡ some after
  pub rewritten : Rewritten env plan.source plan.target after
  pub accepted_version : r.accepted_version ≡ version.version
