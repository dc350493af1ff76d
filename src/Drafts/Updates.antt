-- ===== src/Drafts/Updates.antt =====
-- `update_shared_draft` of testpaper_backend/services/drafts.py: what it stores, and when it refuses.
use test_paper_backend.Base.{
  ℕ, ◌≡◌, sym, subst, true, false, some, arith, ◌==◌, inl, inr, Bool-cases, Option-cases,
  Result-cases, find_by, find_by-replaced, find_by-test, update_by, ok, err,
}
use test_paper_backend.Accounts.{User}
use test_paper_backend.Drafts.Rows.{
  AccessRole, Draft, Drafts, DraftFailure, DraftDetail, draft_not_found, draft_forbidden,
  revision_conflict, DraftUpdate, may_edit,
}
use test_paper_backend.Drafts.Edits.{Edit, updated_row-Edit}
use test_paper_backend.Drafts.{
  is_draft, draft_access_role, save_draft, detail_from_row, readable_draft, committed_detail,
  updated_row, store_updated, update_shared_draft,
}

committed_detail-steady :
    (public_id : ℕ) (user : User) (s : Drafts) {r : DraftDetail} {t : Drafts}
    → committed_detail public_id user s ≡ (ok r, t)
    → t ≡ s
unfolding committed_detail detail_from_row
committed_detail-steady public_id user s {r} {t} h =
    elim (Option-cases (find_by (is_draft public_id) s.drafts)) [
      | inl nowhere ↦ absurd (ground arith)
      | inr (row, f) ↦ elim (Option-cases (draft_access_role row user)) [
        | inl no_role ↦ absurd (ground arith)
        | inr (role, e) ↦ ground arith
      ]
    ]

find_draft-save :
    (public_id : ℕ) (row new : Draft) (s : Drafts)
    → find_by (is_draft public_id) s.drafts ≡ some row
    → new.public_id ≡ row.public_id
    → find_by (is_draft public_id) (save_draft new s).drafts ≡ some new
unfolding save_draft
find_draft-save public_id row new s f same =
    let test = find_by-test (is_draft public_id) s.drafts row f in
    let key : new.public_id ≡ public_id = ground (arith, test, same) in
    subst
      (λ k. find_by (is_draft public_id) (update_by (is_draft k) (λ _. new) s.drafts) ≡ some new)
      (sym key) (find_by-replaced (is_draft public_id) s.drafts row new f (ground (arith, key)))

abbrev pub Updated : ℕ → DraftUpdate → User → Drafts → Drafts → Type 0
Updated public_id payload user s t =
    (row : Draft) × (new : Draft) × (role : AccessRole) × (find_by (is_draft public_id) s.drafts
      ≡ some row)
    × (draft_access_role row user ≡ some role)
    × (find_by (is_draft public_id) t.drafts ≡ some new)
    × Edit role payload row new

edited :
    (now public_id : ℕ) (payload : DraftUpdate) (user : User) (s : Drafts) (row new : Draft)
    (role : AccessRole) {r : DraftDetail} {t : Drafts}
    → find_by (is_draft public_id) s.drafts ≡ some row
    → draft_access_role row user ≡ some role
    → may_edit role ≡ true
    → updated_row now user role payload row ≡ ok new
    → committed_detail public_id user (save_draft new s) ≡ (ok r, t)
    → Updated public_id payload user s t
edited now public_id payload user s row new role {r} {t} f g may e h =
    let edit = updated_row-Edit now user role payload row may e in
    let same = committed_detail-steady public_id user (save_draft new s) h in
    (row, new, role, f, g, rw same (find_draft-save public_id row new s f edit.same_draft), edit)

-- If an update returns, then it was made by a user with a role on the draft that may edit, on the
-- revision that the draft had, and the draft is stored with the next revision; its name changed only by
-- an owner or administrator; its review status changed only by them, or to review by an editor, and to
-- approval only where no comment was open; and its comments and collaborators stay.
pub update_shared_draft-Edit :
    (now public_id : ℕ) (payload : DraftUpdate) (user : User) (s : Drafts) {r : DraftDetail}
    {t : Drafts}
    → update_shared_draft now public_id payload user s ≡ (ok r, t)
    → Updated public_id payload user s t
unfolding update_shared_draft readable_draft store_updated
update_shared_draft-Edit now public_id payload user s {r} {t} h =
    elim (Option-cases (find_by (is_draft public_id) s.drafts)) [
      | inl nowhere ↦ absurd (ground arith)
      | inr (row, f) ↦ elim (Option-cases (draft_access_role row user)) [
        | inl no_role ↦ absurd (ground arith)
        | inr (role, g) ↦ elim (Bool-cases (may_edit role)) [
          | inr reader ↦ absurd (ground arith)
          | inl may ↦ elim (Result-cases (updated_row now user role payload row)) [
            | inr (e, failed) ↦ absurd (ground arith)
            | inl (new, e) ↦
                edited now public_id payload user s row new role {r = r} {t = t} f g may e
                  (ground arith)
          ]
        ]
      ]
    ]

-- An update of a row that has another revision is refused before anything is written.
outdated :
    (now public_id : ℕ) (payload : DraftUpdate) (user : User) (s : Drafts) (row : Draft)
    → find_by (is_draft public_id) s.drafts ≡ some row
    → (payload.base_revision == row.revision) ≡ false
    → (e : DraftFailure) × (update_shared_draft now public_id payload user s ≡ (err e, s))
unfolding update_shared_draft readable_draft store_updated updated_row
outdated now public_id payload user s row f old = elim (Option-cases (draft_access_role row user)) [
  | inl no_role ↦ (draft_not_found, ground arith)
  | inr (role, g) ↦ elim (Bool-cases (may_edit role)) [
    | inr reader ↦ (draft_forbidden, ground arith)
    | inl may ↦ (revision_conflict row.revision, ground arith)
  ]
]

-- After an update was accepted, no update from the same base revision is: it fails, and the store
-- stays as the first one left it.
pub update_shared_draft-stale :
    (now now' public_id : ℕ) (payload payload' : DraftUpdate) (user user' : User) (s : Drafts)
    {r : DraftDetail} {t : Drafts}
    → update_shared_draft now public_id payload user s ≡ (ok r, t)
    → payload'.base_revision ≡ payload.base_revision
    → (e : DraftFailure) × (update_shared_draft now' public_id payload' user' t ≡ (err e, t))
update_shared_draft-stale now now' public_id payload payload' user user' s {r} {t} h same =
    let (row, new, role, f, g, found, edit) =
      update_shared_draft-Edit now public_id payload user s h in
    outdated now' public_id payload' user' t new found
      (ground (arith, edit.next, edit.current, same))
