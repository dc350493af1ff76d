-- ===== src/Sync/Recovery/History/UndoPlan.antt =====
-- The plan of an undo: `resolve_conflict` of testpaper_backend/services/sync_conflicts.py up to its
-- writes, and the row of the entity that it writes.
use test_paper_backend.Base.{
  suc, ℕ, ◌≡◌, ◌⊎◌, inl, inr, refl, sym, ap, ◌∙◌, subst, not, Bool, true, false, none, some, ok,
  arith, raise_if-ok, or_raise-ok, Option-cases, Bool-cases, find_by, find_by-test,
  find_by-update_by, ◌==◌, ◌&&◌,
}
use test_paper_backend.Accounts.{User}
use test_paper_backend.Sync.Types.{api, sync_conflict, entity_not_found, runtime_error}
use test_paper_backend.Sync.Rows.{Entity, EntityVersion, Conflict, Resolution, Store, Env}
use test_paper_backend.Sync.Recovery.Versions.{Source, appended_entity, find_version_id}
use test_paper_backend.Sync.Tables.{find_entity_id, save_entity}
use test_paper_backend.Sync.Recovery.Restoring.{has_moved}
use test_paper_backend.Sync.Recovery.Plans.{
  ResolutionRequest, Plan, untouched_copy, version_source, find_prior, latest_resolution, is_latest,
  is_save_copy, find_predecessor, undo_plan, undo_prior, plan_undo,
}

-- The copy is the entity of a version and still stands at it.
abbrev pub Unwritten : EntityVersion → Entity → Type 0
Unwritten v copy =
    (copy.id ≡ v.entity_id) × (copy.version ≡ v.version) × (copy.content_hash ≡ v.content_hash)

-- A version of an entity, right before the given one.
abbrev pub Precedes : Entity → EntityVersion → EntityVersion → Type 0
Precedes e v before = (before.entity_id ≡ e.id) × (suc before.version ≡ v.version)

find_predecessor-Precedes :
    (e : Entity) (v before : EntityVersion) (s : Store)
    → find_predecessor e.id v.version s ≡ some before
    → Precedes e v before
unfolding find_predecessor
find_predecessor-Precedes e v before s h =
    let test =
      find_by-test (λ (x : EntityVersion). x.entity_id == e.id && suc x.version == v.version)
        s.versions before h in
    (ground (arith, test), ground (arith, test))

untouched_copy-Unwritten :
    (owner : ℕ) (v : EntityVersion) (e : Entity) (s : Store)
    → untouched_copy owner v s ≡ some e
    → Unwritten v e
unfolding untouched_copy find_entity_id
untouched_copy-Unwritten owner v e s h = elim (Option-cases (find_entity_id v.entity_id owner s)) [
  | inl nowhere ↦ absurd (ground arith)
  | inr (x, found) ↦
      let test =
        find_by-test (λ (y : Entity). y.id == v.entity_id && y.owner_id == owner) s.entities x
          found in
      elim (Bool-cases (has_moved v.version v.content_hash x)) [
        | inl moved ↦ absurd (ground arith)
        | inr still ↦
            let same : x ≡ e = ground arith in
            let its_id : x.id ≡ v.entity_id = ground (arith, test) in
            let version : x.version ≡ v.version = ground (arith, still) in
            let hash : x.content_hash ≡ v.content_hash = ground (arith, still) in
            (
              ap (λ (y : Entity). y.id) (sym same) ∙ its_id,
              ap (λ (y : Entity). y.version) (sym same) ∙ version,
              ap (λ (y : Entity). y.content_hash) (sym same) ∙ hash,
            )
      ]
]

-- The plan of an undo: the prior resolution is the newest of the conflict, and the content is that of the
-- version before the one that it accepted.
pub record UndoPlan (user : User) (c : Conflict) (e : Entity) (payload : ResolutionRequest)
    (s : Store) (plan : Plan) : Type 0 where
  pub prior : Resolution
  pub accepted : EntityVersion
  pub named : find_prior user.id payload.undoes_resolution_id c.id s ≡ some prior
  pub newest : is_latest prior (latest_resolution user.id c.id s) ≡ true
  pub its_version : find_version_id prior.accepted_version_id s ≡ some accepted
  pub undoes : plan.undoes ≡ some prior.id
  pub source :
      ((saved : Entity) × (is_save_copy prior.action ≡ true)
        × (untouched_copy user.id accepted s ≡ some saved)
        × Unwritten accepted saved
        × (plan.target ≡ saved)
        × (plan.source ≡ record { payload = none; tombstone = true }))
      ⊎ ((before : EntityVersion) × (is_save_copy prior.action ≡ false)
          × (find_predecessor e.id accepted.version s ≡ some before)
          × Precedes e accepted before
          × (plan.target ≡ e)
          × (plan.source ≡ version_source before))

module _ (user : User) (c : Conflict) (e : Entity) (payload : ResolutionRequest) where
  undo_plan-source :
      (prior : Resolution) (v : EntityVersion) (saved : Bool) (s t : Store) (plan : Plan)
      → undo_plan user e prior v saved s ≡ (ok plan, t)
      → (plan.undoes ≡ some prior.id)
        × (((copy : Entity) × (saved ≡ true)
              × (untouched_copy user.id v s ≡ some copy)
              × Unwritten v copy
              × (plan.target ≡ copy)
              × (plan.source ≡ record { payload = none; tombstone = true }))
            ⊎ ((before : EntityVersion) × (saved ≡ false)
                × (find_predecessor e.id v.version s ≡ some before)
                × Precedes e v before
                × (plan.target ≡ e)
                × (plan.source ≡ version_source before)))
  unfolding undo_plan
  undo_plan-source prior v true s t plan h =
      let (saved, found, h1) =
        or_raise-ok (untouched_copy user.id v s) (api 409 sync_conflict) s _ h in
      (
        ground (arith, h1),
        inl (
          saved,
          refl,
          found,
          untouched_copy-Unwritten user.id v saved s found,
          ground (arith, h1),
          ground (arith, h1),
        ),
      )
  undo_plan-source prior v false s t plan h =
      let (before, found, h1) =
        or_raise-ok (find_predecessor e.id v.version s) (api 409 sync_conflict) s _ h in
      (
        ground (arith, h1),
        inr (
          before,
          refl,
          found,
          find_predecessor-Precedes e v before s found,
          ground (arith, h1),
          ground (arith, h1),
        ),
      )

  pub plan_undo-UndoPlan :
      (s t : Store) (plan : Plan)
      → plan_undo user c e payload s ≡ (ok plan, t)
      → UndoPlan user c e payload s plan
  unfolding plan_undo undo_prior
  plan_undo-UndoPlan s t plan h =
      let (prior, named, h1) =
        or_raise-ok (find_prior user.id payload.undoes_resolution_id c.id s)
          (api 404 entity_not_found) s _ h in
      let (newest, h2) =
        raise_if-ok (not (is_latest prior (latest_resolution user.id c.id s)))
          (api 409 sync_conflict) s _ h1 in
      let (v, its_version, h3) =
        or_raise-ok (find_version_id prior.accepted_version_id s) runtime_error s _ h2 in
      let (undoes, source) = undo_plan-source prior v (is_save_copy prior.action) s t plan h3 in
      record {
        prior = prior;
        accepted = v;
        named = named;
        newest = ground (arith, newest);
        its_version = its_version;
        undoes = undoes;
        source = source;
      }

-- The entity that a plan writes is stored under its id.
find_entity_id-own :
    (id owner : ℕ) (e : Entity) (s : Store)
    → find_entity_id id owner s ≡ some e
    → find_entity_id e.id owner s ≡ some e
unfolding find_entity_id
find_entity_id-own id owner e s h =
    let test = find_by-test (λ (x : Entity). x.id == id && x.owner_id == owner) s.entities e h in
    let same : e.id ≡ id = ground (arith, test) in
    subst (λ k. find_by (λ (x : Entity). x.id == k && x.owner_id == owner) s.entities ≡ some e)
      (sym same) h

untouched_copy-own :
    (owner : ℕ) (v : EntityVersion) (e : Entity) (s : Store)
    → untouched_copy owner v s ≡ some e
    → find_entity_id e.id owner s ≡ some e
unfolding untouched_copy
untouched_copy-own owner v e s h = elim (Option-cases (find_entity_id v.entity_id owner s)) [
  | inl nowhere ↦ absurd (ground arith)
  | inr (x, found) ↦ elim (Bool-cases (has_moved v.version v.content_hash x)) [
    | inl moved ↦ absurd (ground arith)
    | inr still ↦
        let same : x ≡ e = ground arith in
        find_entity_id-own v.entity_id owner e s (found ∙ ap some same)
  ]
]

pub UndoPlan-target :
    (user : User) (c : Conflict) (e : Entity) (payload : ResolutionRequest) (s : Store)
    (plan : Plan)
    → find_entity_id c.entity_id user.id s ≡ some e
    → UndoPlan user c e payload s plan
    → find_entity_id plan.target.id user.id s ≡ some plan.target
UndoPlan-target user c e payload s plan its_entity planned = elim planned.source [
  | inl (saved, _, found, _, target, _) ↦
      rw target (untouched_copy-own user.id planned.accepted saved s found)
  | inr (before, _, _, _, target, _) ↦
      rw target (find_entity_id-own c.entity_id user.id e s its_entity)
]

pub appended-found :
    (env : Env) (src : Source) (owner : ℕ) (e : Entity) (s t : Store)
    → find_entity_id e.id owner s ≡ some e
    → t.entities ≡ (save_entity (appended_entity env src e) s).entities
    → find_entity_id e.id owner t ≡ some (appended_entity env src e)
unfolding find_entity_id save_entity appended_entity
appended-found env src owner e s t found saved = rw saved (
    find_by-update_by (λ (x : Entity). x.id == e.id && x.owner_id == owner) (λ (x : Entity). x.id)
      s.entities e (appended_entity env src e) found refl
      (find_by-test (λ (x : Entity). x.id == e.id && x.owner_id == owner) s.entities e found))
