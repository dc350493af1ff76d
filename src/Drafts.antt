-- ===== src/Drafts.antt =====
-- Shared paper drafts: the access roles and the operations of testpaper_backend/services/drafts.py.
pub mod Rows
pub mod State
pub mod Access
pub mod Edits
pub mod Updates
mod Tests
use test_paper_backend.Base.{
  ℕ, zero, suc, ◌+◌, Bool, true, false, ◌&&◌, ◌||◌, not, List, [], ◌∷◌, Option, none, some, ◌==◌,
  ltb, if◌then◌else◌, length, find_by, filter_by, update_by, order_by, is_the, Result, ok, err, Tx,
  pure, gets, or_raise, raise_if, modify, session, ◌>>=◌, ◌>>◌,
}
use test_paper_backend.Base.Json.{Fields}
use test_paper_backend.Accounts.{User, has_permission, users_manage, answers_read}
use test_paper_backend.Drafts.Rows.{
  AccessRole, Account, Collaborator, CollaboratorRole, Comment, CommentStatus, Draft, DraftDetail,
  DraftFailure, DraftUpdate, Drafts, ReviewStatus, Work, admin_role, approved, as_editor, as_viewer,
  changes_requested, comment_not_found, draft_forbidden, draft_not_found, editor_role, in_draft,
  in_review, is_approved, is_editor, is_in_review, is_open, is_resolved, may_edit, may_manage,
  open_comments, owner_is_owner, owner_role, revision_conflict, role_of, still_open, user_not_found,
  viewer_role,
}
use test_paper_backend.Drafts.State.{redact_draft_state_answers}

unfoldable pub draft_access_role : Draft → User → Option AccessRole
draft_access_role row user =
    if is_the row.owner_id user.id
    then some owner_role
    else if has_permission user users_manage
    then some admin_role
    else (elim (find_by (λ (c : Collaborator). c.user_id == user.id) row.collaborators) [
      | none ↦ none
      | some c ↦ some (role_of c.role)
    ])

unfoldable pub open_count : Draft → ℕ
open_count row = length (filter_by (λ (c : Comment). still_open c.status) row.comments)

unfoldable pub shown_draft : Draft → User → Draft
shown_draft row user = record row {
  state = redact_draft_state_answers row.state (has_permission user answers_read);
  collaborators = order_by (λ (c : Collaborator). c.created_at) row.collaborators;
  comments = order_by (λ (c : Comment). c.created_at) row.comments;
}

-- `_detail_from_row`
unfoldable pub detail_from_row : Draft → User → Work DraftDetail
detail_from_row row user s = elim (draft_access_role row user) [
  | none ↦ (err draft_not_found, s)
  | some role ↦ (
    ok (record {
      row = shown_draft row user;
      access_role = role;
      open_comment_count = open_count row;
    }),
    s,
  )
]

abbrev pub is_draft : ℕ → Draft → Bool
is_draft public_id row = row.public_id == public_id

unfoldable pub save_draft : Draft → Drafts → Drafts
save_draft row s = record s { drafts = update_by (is_draft row.public_id) (λ _. row) s.drafts }

-- `_get_draft_row`, then `_ensure_read_access`
unfoldable pub readable_draft : ℕ → User → Work (Draft × AccessRole)
readable_draft public_id user s = elim (find_by (is_draft public_id) s.drafts) [
  | none ↦ (err draft_not_found, s)
  | some row ↦ elim (draft_access_role row user) [
    | none ↦ (err draft_not_found, s)
    | some role ↦ (ok (row, role), s)
  ]
]

unfoldable pub get_shared_draft : ℕ → User → Work DraftDetail
get_shared_draft public_id user =
    session (do (row, _) ← readable_draft public_id user; detail_from_row row user)

unfoldable pub renamed : AccessRole → Option ℕ → Draft → Result DraftFailure Draft
renamed role none row = ok row
renamed role (some name) row =
    if name == row.name
    then ok row
    else if may_manage role
    then ok (record row { name = name })
    else err draft_forbidden

unfoldable pub restated : Option Fields → Draft → Draft
restated none row = row
restated (some state) row = record row { state = state }

unfoldable pub reviewed : AccessRole → Option ReviewStatus → Draft → Result DraftFailure Draft
reviewed role none row = ok row
reviewed role (some status) row =
    if is_approved status && ltb 0 (open_count row)
    then err (open_comments (open_count row))
    else if may_manage role || (is_editor role && is_in_review status)
    then ok (record row { review_status = status })
    else err draft_forbidden

unfoldable pub touched : ℕ → User → Draft → Draft
touched now user row = record row { updated_by = some user.id; updated_at = now }

-- The fields of the row after an update by a role.
unfoldable pub updated_row : ℕ → User → AccessRole → DraftUpdate → Draft → Result DraftFailure Draft
updated_row now user role payload row =
    if not (payload.base_revision == row.revision)
    then err (revision_conflict row.revision)
    else (elim (renamed role payload.name row) [
      | err e ↦ err e
      | ok row1 ↦ elim (reviewed role payload.review_status (restated payload.state row1)) [
        | err e ↦ err e
        | ok row2 ↦ ok (touched now user (record row2 { revision = suc row2.revision }))
      ]
    ])

-- The changed row, for the commit.
unfoldable pub store_updated : Result DraftFailure Draft → Work Draft
store_updated (err e) s = (err e, s)
store_updated (ok row) s = (ok row, save_draft row s)

-- After a commit: the row is read again, and what was written stays whatever becomes of its details.
unfoldable pub committed_detail : ℕ → User → Work DraftDetail
committed_detail public_id user s = elim (find_by (is_draft public_id) s.drafts) [
  | none ↦ (err draft_not_found, s)
  | some row ↦ detail_from_row row user s
]

unfoldable pub update_shared_draft : ℕ → ℕ → DraftUpdate → User → Work DraftDetail
update_shared_draft now public_id payload user = do
  session (do
    (row, role) ← readable_draft public_id user
    raise_if (not (may_edit role)) draft_forbidden
    store_updated (updated_row now user role payload row))
  committed_detail public_id user

unfoldable pub delete_shared_draft : ℕ → User → Work (Unit {0})
delete_shared_draft public_id user = session (do
  (row, role) ← readable_draft public_id user
  raise_if (not (may_manage role)) draft_forbidden
  modify (λ s. record s { drafts = filter_by (λ d. not (is_draft public_id d)) s.drafts }))

abbrev pub is_collaborator : ℕ → Collaborator → Bool
is_collaborator user c = c.user_id == user

unfoldable pub with_collaborator : ℕ → ℕ → CollaboratorRole → Option Collaborator → Draft → Draft
with_collaborator now target role none row = record row {
  collaborators =
      record { user_id = target; role = role; created_at = now; updated_at = now }
      ∷ row.collaborators;
}
with_collaborator now target role (some c) row = record row {
  collaborators =
      update_by (is_collaborator target) (λ _. record c { role = role; updated_at = now })
        row.collaborators;
}

unfoldable pub share_with : ℕ → User → CollaboratorRole → Draft → Option Account → Work Draft
share_with now user role row none s = (err user_not_found, s)
share_with now user role row (some target) s =
    if not target.is_active
    then (err user_not_found, s)
    else if is_the row.owner_id target.id
    then (err owner_is_owner, s)
    else store_updated
        (ok (
          touched now user (
            with_collaborator now target.id role
              (find_by (is_collaborator target.id) row.collaborators) row)))
        s

unfoldable pub upsert_draft_collaborator : ℕ → ℕ → ℕ → CollaboratorRole → User → Work DraftDetail
upsert_draft_collaborator now public_id username role user = do
  session (do
    (row, mine) ← readable_draft public_id user
    raise_if (not (may_manage mine)) draft_forbidden
    target ← gets (λ (s : Drafts). find_by (λ (a : Account). a.username == username) s.accounts)
    share_with now user role row target)
  committed_detail public_id user

unfoldable pub create_draft_comment : ℕ → ℕ → ℕ → Option ℕ → ℕ → User → Work DraftDetail
create_draft_comment now uuid public_id question message user = do
  session (do
    (row, _) ← readable_draft public_id user
    store_updated (
        ok (
          touched now user (record row {
            comments =
                record {
                  public_id = uuid;
                  question_public_id = question;
                  message = message;
                  status = is_open;
                  author_id = some user.id;
                  created_at = now;
                  updated_at = now;
                }
                ∷ row.comments;
          }))))
  committed_detail public_id user
