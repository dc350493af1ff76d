-- ===== src/Drafts/Access.antt =====
-- Access to a shared draft, and the details shown of it.
use test_paper_backend.Base.{
  ℕ, ◌≡◌, ◌⊎◌, ◌==◌, is_the, refl, sym, false, Option, none, some, arith, inl, inr, Option-cases,
  find_by, ok, err,
}
use test_paper_backend.Accounts.{User, has_permission, answers_read, users_manage}
use test_paper_backend.Drafts.State.{redact_draft_state_answers, shows_answers}
use test_paper_backend.Drafts.State.Redacted.{redact_draft_state_answers-hides}
use test_paper_backend.Drafts.Rows.{
  Collaborator, CollaboratorRole, Draft, Drafts, draft_not_found, DraftDetail, DraftUpdate,
}
use test_paper_backend.Drafts.{
  shown_draft, is_draft, draft_access_role, detail_from_row, readable_draft, get_shared_draft,
  update_shared_draft, delete_shared_draft, upsert_draft_collaborator, create_draft_comment,
}

-- Neither the owner, nor a manager of users, nor a collaborator of the draft.
abbrev pub IsStranger : Draft → User → Type 0
IsStranger row user =
    (is_the row.owner_id user.id ≡ false)
    × (has_permission user users_manage ≡ false)
    × (find_by (λ (c : Collaborator). c.user_id == user.id) row.collaborators ≡ none)

-- There is no draft of that id, or the user is a stranger to it.
abbrev pub Hidden : ℕ → User → Drafts → Type 0
Hidden public_id user s =
    (find_by (is_draft public_id) s.drafts ≡ none)
    ⊎ ((row : Draft) × (find_by (is_draft public_id) s.drafts ≡ some row) × IsStranger row user)

readable_draft-Hidden :
    (public_id : ℕ) (user : User) (s : Drafts)
    → Hidden public_id user s
    → readable_draft public_id user s ≡ (err draft_not_found, s)
unfolding readable_draft draft_access_role
readable_draft-Hidden public_id user s (inl nowhere) = ground arith
readable_draft-Hidden public_id user s (inr (row, found, (owner, manager, collaborator))) =
    ground arith

-- A draft that does not exist, and one on which the user is neither owner nor collaborator, without being a
-- manager of users, get the same answer from every modelled operation on a draft, that there is no such
-- draft; and the store stays as it was.
pub stranger-not_found :
    (public_id now uuid username message : ℕ) (question : Option ℕ) (payload : DraftUpdate)
    (role : CollaboratorRole) (user : User) (s : Drafts)
    → Hidden public_id user s
    → (get_shared_draft public_id user s ≡ (err draft_not_found, s))
      × (update_shared_draft now public_id payload user s ≡ (err draft_not_found, s))
      × (delete_shared_draft public_id user s ≡ (err draft_not_found, s))
      × (upsert_draft_collaborator now public_id username role user s ≡ (err draft_not_found, s))
      × (create_draft_comment now uuid public_id question message user s ≡ (err draft_not_found, s))
unfolding get_shared_draft update_shared_draft delete_shared_draft upsert_draft_collaborator
    create_draft_comment
stranger-not_found public_id now uuid username message question payload role user s hidden =
    let no_draft = readable_draft-Hidden public_id user s hidden in
    (rw no_draft refl, rw no_draft refl, rw no_draft refl, rw no_draft refl, rw no_draft refl)

-- The details of a draft that an operation returns show no answers to a reader who may not read them.
pub detail_from_row-hides :
    (row : Draft) (user : User) (s : Drafts) {r : DraftDetail} {t : Drafts}
    → detail_from_row row user s ≡ (ok r, t)
    → has_permission user answers_read ≡ false
    → shows_answers r.row.state ≡ false
unfolding detail_from_row shown_draft
detail_from_row-hides row user s {r} {t} h no_right =
    elim (Option-cases (draft_access_role row user)) [
      | inl no_role ↦ absurd (ground arith)
      | inr (role, e) ↦
          let state : redact_draft_state_answers row.state (has_permission user answers_read)
              ≡ r.row.state =
            ground arith in
          rw (sym state, no_right) (redact_draft_state_answers-hides row.state)
    ]
