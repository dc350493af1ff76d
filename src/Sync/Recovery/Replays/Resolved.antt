-- ===== src/Sync/Recovery/Replays/Resolved.antt =====
-- Repeated resolutions of a conflict: `resolve_conflict` of
-- testpaper_backend/services/sync_conflicts.py is idempotent by the operation id.
use Prim.Native.String.{String}
use test_paper_backend.Base.{
  ℕ, sym, subst, Result, returned-store, returned-value, Result-cases, Option-cases, Bool-cases,
  inl, inr, ap, ◌∙◌, ◌≡◌, refl, not, Bool, true, false, ◌∷◌, Option, none, some, ok, arith,
  settle-ok, continue-ok, raise_if-ok, or_raise-ok, find_by-test,
}
use test_paper_backend.Accounts.{User}
use test_paper_backend.Sync.Types.{
  ResolutionAction, keep_local, use_cloud, save_copy, manual_merge, restore_version, undo, api,
  sync_conflict, entity_not_found, runtime_error, Failure,
}
use test_paper_backend.Sync.Rows.{Entity, EntityVersion, Conflict, Resolution, Store, Env}
use test_paper_backend.Sync.Tables.{
  insert_entity, insert_version, insert_change, save_entity, find_entity_id,
}
use test_paper_backend.Sync.Attachments.{reference_lifecycle}
use test_paper_backend.Sync.Recovery.Versions.{
  append_version, find_version_id, find_resolution, is_conflict, find_conflict, find_conflict_id,
}
use test_paper_backend.Sync.Recovery.Restoring.{has_moved}
use test_paper_backend.Sync.Recovery.Plans.{
  ResolutionRequest, is_latest, is_save_copy, find_prior, latest_resolution, Plan, plan_for,
  plan_undo, undo_prior, undo_plan, plan_restore, requested_version,
}
use test_paper_backend.Sync.Recovery.Resolving.{
  ResolutionRecord, resolution_record, save_copy_of, accept_plan, insert_resolution, resolution_row,
  replay_resolution, write_resolution, resolve_entity, resolve_new, resolve_or_replay,
  resolve_conflict,
}

-- The rows that a recovery writes none of.
abbrev pub SameEvidence : Store → Store → Type 0
SameEvidence s t = (t.conflicts ≡ s.conflicts) × (t.resolutions ≡ s.resolutions)

module _ (env : Env) (user : User) (device : ℕ) (payload : ResolutionRequest) (plan : Plan) where
  pub accept_plan-SameEvidence :
      (s : Store) → SameEvidence s (accept_plan env user device payload plan s).1
  unfolding accept_plan append_version save_copy_of insert_entity insert_version insert_change
      save_entity reference_lifecycle
  accept_plan-SameEvidence s = ground arith

pub insert_resolution-ok :
    (row new : Resolution) (s t : Store)
    → insert_resolution row s ≡ (ok new, t)
    → (new ≡ record row { id = s.serial })
      × (find_resolution row.owner_id row.operation_id t ≡ some new)
      × (t.resolutions ≡ new ∷ s.resolutions)
      × (t.conflicts ≡ s.conflicts)
unfolding insert_resolution find_resolution
insert_resolution-ok row new s t h = ground arith

module _ (user : User) (e : Entity) (payload : ResolutionRequest) where
  undo_plan-steady :
      (prior : Resolution) (v : EntityVersion) (saved : Bool) (s : Store)
      → (undo_plan user e prior v saved s).1 ≡ s
  unfolding undo_plan
  undo_plan-steady prior v true s = ground arith
  undo_plan-steady prior v false s = ground arith

  undo_prior-steady : (prior : Resolution) (s : Store) → (undo_prior user e prior s).1 ≡ s
  unfolding undo_prior
  undo_prior-steady prior s = elim (Option-cases (find_version_id prior.accepted_version_id s)) [
    | inl none_found ↦ rw none_found refl
    | inr (v, found) ↦ rw found (undo_plan-steady prior v (is_save_copy prior.action) s)
  ]

  plan_undo-steady : (c : Conflict) (s : Store) → (plan_undo user c e payload s).1 ≡ s
  unfolding plan_undo
  plan_undo-steady c s =
      elim (Option-cases (find_prior user.id payload.undoes_resolution_id c.id s)) [
        | inl none_found ↦ rw none_found refl
        | inr (prior, found) ↦
            rw found (elim (Bool-cases (not (is_latest prior (latest_resolution user.id c.id s)))) [
              | inl old ↦ rw old refl
              | inr newest ↦ rw newest (undo_prior-steady prior s)
            ])
      ]

  module _ (int_of : String → Option (Option ℕ)) where
    plan_restore-steady : (s : Store) → (plan_restore int_of user e payload s).1 ≡ s
    unfolding plan_restore
    plan_restore-steady s = elim (Result-cases (requested_version int_of payload.payload)) [
      | inl (n, asked) ↦ rw asked (ground arith)
      | inr (f, refused) ↦ rw refused refl
    ]

    -- A plan only reads.
    pub plan_for-steady :
        (c : Conflict) (action : ResolutionAction) (s : Store)
        → (plan_for int_of user c e payload action s).1 ≡ s
    unfolding plan_for
    plan_for-steady c use_cloud s = refl
    plan_for-steady c manual_merge s = refl
    plan_for-steady c restore_version s = plan_restore-steady s
    plan_for-steady c undo s = plan_undo-steady c s
    plan_for-steady c keep_local s = refl
    plan_for-steady c save_copy s = refl

written :
    (draft row : Resolution) (s s1 s2 t : Store) (r : ResolutionRecord) (public_id : ℕ)
    → SameEvidence s s1
    → insert_resolution draft s1 ≡ (ok row, s2)
    → t ≡ s2
    → resolution_record row public_id s2 ≡ r
    → (kept : Resolution) × (find_resolution draft.owner_id draft.operation_id t ≡ some kept)
      × (kept.request_hash ≡ draft.request_hash)
      × (kept.conflict_id ≡ draft.conflict_id)
      × (resolution_record kept public_id t ≡ r)
      × (t.resolutions ≡ kept ∷ s.resolutions)
      × (t.conflicts ≡ s.conflicts)
written draft row s s1 s2 t r public_id same inserted still answer =
    let (fresh, found, added, kept) = insert_resolution-ok draft row s1 s2 inserted in
    (
      row,
      rw still found,
      rw fresh refl,
      rw fresh refl,
      rw still answer,
      ap (λ (u : Store). u.resolutions) still ∙ added ∙ ap (λ l. row ∷ l) same.1,
      ap (λ (u : Store). u.conflicts) still ∙ kept ∙ same.0,
    )

-- A plan that is written leaves a row of the operation, from which the record is built.
module _ (env : Env) (user : User) (device hash : ℕ) (c : Conflict) (payload : ResolutionRequest)
    (plan : Plan) where
  pub write_resolution-row :
      (s t : Store) (r : ResolutionRecord)
      → write_resolution env user device hash c payload plan s ≡ (ok r, t)
      → (row : Resolution) × (find_resolution user.id payload.operation_id t ≡ some row)
        × (row.request_hash ≡ hash)
        × (row.conflict_id ≡ c.id)
        × (resolution_record row c.public_id t ≡ r)
        × (t.resolutions ≡ row ∷ s.resolutions)
        × (t.conflicts ≡ s.conflicts)
  unfolding write_resolution
  write_resolution-row s t r h =
      let (v, s1, accepted, h1) = continue-ok (accept_plan env user device payload plan s) _ h in
      let (row, s2, inserted, h2) =
        continue-ok (insert_resolution (resolution_row env user device hash c payload plan v s1) s1)
          _ h1 in
      written (resolution_row env user device hash c payload plan v s1) row s s1 s2 t r c.public_id
        (subst (λ (x : Result Failure EntityVersion × Store). SameEvidence s x.1) accepted
          (accept_plan-SameEvidence env user device payload plan s))
        inserted (returned-store (resolution_record row c.public_id s2) r s2 t h2)
        (returned-value (resolution_record row c.public_id s2) r s2 t h2)

module _ (user : User) (hash conflict_id : ℕ) (payload : ResolutionRequest) where
  -- The operation has its row, and the row answers the request.
  abbrev Kept : Store → ResolutionRecord → Type 0
  Kept t r =
      (row : Resolution) × (find_resolution user.id payload.operation_id t ≡ some row)
      × (replay_resolution conflict_id hash row t ≡ (ok r, t))

  replay_resolution-steady :
      (row : Resolution) {s t : Store} {r : ResolutionRecord}
      → replay_resolution conflict_id hash row s ≡ (ok r, t)
      → t ≡ s
  unfolding replay_resolution
  replay_resolution-steady row h = ground arith

  -- A conflict that is found by the key of a row before, is found so after, when no conflict was written.
  there :
      (row : Resolution) (c : Conflict) (s t : Store)
      → t.conflicts ≡ s.conflicts
      → row.conflict_id ≡ c.id
      → find_conflict_id c.id s ≡ some c
      → find_conflict_id row.conflict_id t ≡ some c
  unfolding find_conflict_id
  there row c s t kept of found = rw kept (rw of found)

  public_of :
      (c : Conflict) (s : Store)
      → find_conflict user.id conflict_id s ≡ some c
      → c.public_id ≡ conflict_id
  unfolding find_conflict
  public_of c s found =
      ground (arith, find_by-test (is_conflict user.id conflict_id) s.conflicts c found)

  replayed :
      (row : Resolution) (c : Conflict) (t : Store) (r : ResolutionRecord)
      → row.request_hash ≡ hash
      → find_conflict_id row.conflict_id t ≡ some c
      → c.public_id ≡ conflict_id
      → resolution_record row c.public_id t ≡ r
      → replay_resolution conflict_id hash row t ≡ (ok r, t)
  unfolding replay_resolution resolution_record
  replayed row c t r same found public answer = rw found (ground (arith, same, public, answer))

  module _ (int_of : String → Option (Option ℕ)) (env : Env) (device : ℕ) where
    resolve_entity-row :
        (c : Conflict) (e : Entity) (s t : Store) (r : ResolutionRecord)
        → resolve_entity int_of env user device hash c e payload s ≡ (ok r, t)
        → (row : Resolution) × (find_resolution user.id payload.operation_id t ≡ some row)
          × (row.request_hash ≡ hash)
          × (row.conflict_id ≡ c.id)
          × (resolution_record row c.public_id t ≡ r)
          × (t.resolutions ≡ row ∷ s.resolutions)
          × (t.conflicts ≡ s.conflicts)
    unfolding resolve_entity
    resolve_entity-row c e s t r h =
        let (_, h1) =
          raise_if-ok (has_moved payload.current_version payload.current_content_hash e)
            (api 409 sync_conflict) s _ h in
        let (plan, s1, q, h2) =
          continue-ok (plan_for int_of user c e payload payload.action s) _ h1 in
        let same : s1 ≡ s =
          sym (ap (λ (x : Result Failure Plan × Store). x.1) q)
          ∙ plan_for-steady user e payload int_of c payload.action s in
        let u : (x : Store)
            → x ≡ s
            → write_resolution env user device hash c payload plan x ≡ (ok r, t)
            → write_resolution env user device hash c payload plan s ≡ (ok r, t) =
          λ x i k.
            subst (λ y. write_resolution env user device hash c payload plan y ≡ (ok r, t)) i k in
        write_resolution-row env user device hash c payload plan s t r (u s1 same h2)

    resolve_new-Kept :
        (s t : Store) (r : ResolutionRecord)
        → ((c : Conflict)
            → find_conflict user.id conflict_id s ≡ some c
            → find_conflict_id c.id s ≡ some c)
        → resolve_new int_of env user device hash conflict_id payload s ≡ (ok r, t)
        → Kept t r
    unfolding resolve_new
    resolve_new-Kept s t r keyed h =
        let (c, found, h1) =
          or_raise-ok (find_conflict user.id conflict_id s) (api 404 entity_not_found) s _ h in
        let (e, _, h2) = or_raise-ok (find_entity_id c.entity_id user.id s) runtime_error s _ h1 in
        let (row, mine, same, of, answer, _, kept) = resolve_entity-row c e s t r h2 in
        (
          row,
          mine,
          replayed row c t r same (there row c s t kept of (keyed c found)) (public_of c s found)
              answer,
        )

    resolve_or_replay-Kept :
        (o : Option Resolution) (s t : Store) (r : ResolutionRecord)
        → ((c : Conflict)
            → find_conflict user.id conflict_id s ≡ some c
            → find_conflict_id c.id s ≡ some c)
        → find_resolution user.id payload.operation_id s ≡ o
        → resolve_or_replay int_of env user device hash conflict_id payload o s ≡ (ok r, t)
        → Kept t r
    unfolding resolve_or_replay
    resolve_or_replay-Kept none s t r keyed found h = resolve_new-Kept s t r keyed h
    resolve_or_replay-Kept (some row) s t r keyed found h =
        let still : t ≡ s = replay_resolution-steady row h in
        (row, rw still found, rw still (h ∙ ap (λ u. (ok r, u)) still))

    resolve_conflict-Kept :
        (s t : Store) (r : ResolutionRecord)
        → ((c : Conflict)
            → find_conflict user.id conflict_id s ≡ some c
            → find_conflict_id c.id s ≡ some c)
        → resolve_conflict int_of env user device hash conflict_id payload s ≡ (ok r, t)
        → Kept t r
    unfolding resolve_conflict
    resolve_conflict-Kept s t r keyed h =
        resolve_or_replay-Kept (find_resolution user.id payload.operation_id s) s t r keyed refl
          (settle-ok s _ h)

    Kept-resolve_conflict :
        (t : Store) (r : ResolutionRecord)
        → Kept t r
        → resolve_conflict int_of env user device hash conflict_id payload t ≡ (ok r, t)
    unfolding resolve_conflict resolve_or_replay
    Kept-resolve_conflict t r kept = let (row, found, answer) = kept in rw found (rw answer refl)

-- A resolution that succeeded is repeated, by any device and at any time, with the same record and
-- without a further write, where no other conflict has the key of the one that was resolved, as long
-- as nothing else changed the store.
pub resolve_conflict-again :
    (int_of : String → Option (Option ℕ)) (env later : Env) (user : User)
    (device other hash conflict_id : ℕ) (payload : ResolutionRequest) (s t : Store)
    (r : ResolutionRecord)
    → ((c : Conflict)
        → find_conflict user.id conflict_id s ≡ some c
        → find_conflict_id c.id s ≡ some c)
    → resolve_conflict int_of env user device hash conflict_id payload s ≡ (ok r, t)
    → resolve_conflict int_of later user other hash conflict_id payload t ≡ (ok r, t)
resolve_conflict-again int_of env later user device other hash conflict_id payload s t r keyed h =
    Kept-resolve_conflict user hash conflict_id payload int_of later other t r
      (resolve_conflict-Kept user hash conflict_id payload int_of env device s t r keyed h)
