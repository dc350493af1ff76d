-- ===== src/Sync/Recovery/History.antt =====
-- What a recovery of testpaper_backend/services/sync_conflicts.py writes: the history only grows, and
-- the content that comes back is the one that was asked for.
pub mod UndoPlan
pub mod Undone
use test_paper_backend.Base.{ℕ, suc, ◌≡◌, refl, Bool, [], ◌∷◌, ◌++◌, some, ok, arith}
use test_paper_backend.Accounts.{User}
use test_paper_backend.Sync.Types.{EntityType}
use test_paper_backend.Sync.Rows.{Entity, EntityVersion, Change, Store, Env}
use test_paper_backend.Sync.Tables.{
  find_entity, find_version, save_entity, insert_version, insert_change,
}
use test_paper_backend.Sync.Attachments.{reference_lifecycle}
use test_paper_backend.Sync.Recovery.Versions.{
  Source, append_version, appended_entity, appended_version, announced, append_kind,
}
use test_paper_backend.Sync.Recovery.Restoring.{RestoreRequest, RestoreRecord}

-- The rows of one more version of an entity, with the content that a recovery puts in its place.
pub record Appended (env : Env) (src : Source) (e : Entity) (v : EntityVersion) (s t : Store)
    : Type 0 where
  pub versions : t.versions ≡ v ∷ s.versions
  pub entities : t.entities ≡ (save_entity (appended_entity env src e) s).entities
  pub version : v.version ≡ suc e.version
  pub payload : v.payload ≡ src.payload
  pub tombstone : v.tombstone ≡ src.tombstone
  pub entity_id : v.entity_id ≡ e.id
  pub changes : t.changes ≡ s.changes ++ record (announced env e v) { sequence = suc s.serial } ∷ []

module _ (env : Env) (device operation : ℕ) (restores : Bool) (src : Source) (e : Entity) where
  pub append_version-Appended :
      (s t : Store) (v : EntityVersion)
      → append_version env device operation restores src e s ≡ (ok v, t)
      → Appended env src e v s t
  unfolding append_version save_entity reference_lifecycle insert_version insert_change
      appended_version announced append_kind
  append_version-Appended s t v h = record {
    versions = ground arith;
    entities = ground arith;
    version = ground arith;
    payload = ground arith;
    tombstone = ground arith;
    entity_id = ground arith;
    changes = ground arith;
  }

-- The row of an entity before and after it gets one more version, with the given content.
pub record Rewritten (env : Env) (src : Source) (before after : Entity) : Type 0 where
  pub same_id : after.id ≡ before.id
  pub next : after.version ≡ suc before.version
  pub payload : after.payload ≡ src.payload
  pub tombstone : after.tombstone ≡ src.tombstone
  pub content_hash : after.content_hash ≡ env.digest src.payload

pub appended_entity-Rewritten :
    (env : Env) (src : Source) (e : Entity) → Rewritten env src e (appended_entity env src e)
unfolding appended_entity
appended_entity-Rewritten env src e = record {
  same_id = refl;
  next = refl;
  payload = refl;
  tombstone = refl;
  content_hash = refl;
}

abbrev pub content_of : EntityVersion → Source
content_of w = record { payload = w.payload; tombstone = w.tombstone }

-- What a restoration of version `target` does: the entity was as the request saw it, its next version
-- is the old content and is announced, and no version of the history is lost.
pub record Restored (env : Env) (user : User) (kind : EntityType) (public_id target : ℕ)
    (payload : RestoreRequest) (s t : Store) (r : RestoreRecord) : Type 0 where
  pub before : Entity
  pub historic : EntityVersion
  pub met : find_entity user.id kind public_id s ≡ some before
  pub reviewed_version : before.version ≡ payload.current_version
  pub reviewed_hash : before.content_hash ≡ payload.current_content_hash
  pub old : find_version before.id user.id target s ≡ some historic
  pub versions : t.versions ≡ r.result ∷ s.versions
  pub next : r.result.version ≡ suc before.version
  pub payload_back : r.result.payload ≡ historic.payload
  pub tombstone_back : r.result.tombstone ≡ historic.tombstone
  pub change : (c : Change) × (t.changes ≡ s.changes ++ c ∷ []) × (c.version ≡ r.result.version)
  pub of_entity : r.result.entity_id ≡ before.id
  pub after : Entity
  pub stored : find_entity user.id kind public_id t ≡ some after
  pub rewritten : Rewritten env (content_of historic) before after
