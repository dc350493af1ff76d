-- ===== src/Drafts/Rows.antt =====
-- The rows of drafts (testpaper_backend/db.py) and the types of testpaper_backend/schemas/draft.py. A
-- draft row holds its collaborators and comments, which the database deletes with it. Names, messages
-- and public identifiers are numbers, as elsewhere.
use test_paper_backend.Base.{ℕ, Bool, true, false, List, Option, Tx}
use test_paper_backend.Base.Json.{Fields}

pub data AccessRole : Type 0 where
  owner_role admin_role editor_role viewer_role : AccessRole

pub data CollaboratorRole : Type 0 where
  as_viewer as_editor : CollaboratorRole

-- `DraftAccessRole(collaborator.role)`
abbrev pub role_of : CollaboratorRole → AccessRole
role_of as_viewer = viewer_role
role_of as_editor = editor_role

pub data CommentStatus : Type 0 where
  is_open is_resolved : CommentStatus

abbrev pub still_open : CommentStatus → Bool
still_open is_open = true
still_open is_resolved = false

pub data ReviewStatus : Type 0 where
  in_draft in_review changes_requested approved : ReviewStatus

abbrev pub is_approved : ReviewStatus → Bool
is_approved approved = true
is_approved _ = false

abbrev pub is_in_review : ReviewStatus → Bool
is_in_review in_review = true
is_in_review _ = false

pub record Collaborator : Type 0 where
  pub user_id : ℕ
  pub role : CollaboratorRole
  pub created_at : ℕ
  pub updated_at : ℕ

pub record Comment : Type 0 where
  pub public_id : ℕ
  pub question_public_id : Option ℕ
  pub message : ℕ
  pub status : CommentStatus
  pub author_id : Option ℕ
  pub created_at : ℕ
  pub updated_at : ℕ

pub record Draft : Type 0 where
  pub public_id : ℕ
  pub name : ℕ
  pub owner_id : Option ℕ
  pub state : Fields
  pub review_status : ReviewStatus
  pub revision : ℕ
  pub updated_by : Option ℕ
  pub created_at : ℕ
  pub updated_at : ℕ
  pub collaborators : List Collaborator
  pub comments : List Comment

-- The columns of `UserRow` that sharing reads.
pub record Account : Type 0 where
  pub id : ℕ
  pub username : ℕ
  pub is_active : Bool

pub record Drafts : Type 0 where
  pub drafts : List Draft
  pub accounts : List Account

pub data DraftFailure : Type 0 where
  draft_not_found draft_forbidden user_not_found owner_is_owner comment_not_found : DraftFailure
  revision_conflict open_comments : ℕ → DraftFailure

abbrev pub Work : Type 0 → Type 0
Work = Tx Drafts DraftFailure

abbrev pub may_manage : AccessRole → Bool
may_manage owner_role = true
may_manage admin_role = true
may_manage _ = false

abbrev pub may_edit : AccessRole → Bool
may_edit viewer_role = false
may_edit _ = true

abbrev pub is_editor : AccessRole → Bool
is_editor editor_role = true
is_editor _ = false

pub record DraftUpdate : Type 0 where
  pub base_revision : ℕ
  pub name : Option ℕ
  pub state : Option Fields
  pub review_status : Option ReviewStatus

-- `PaperDraftDetail`: the row with its state as the reader may see it.
pub record DraftDetail : Type 0 where
  pub row : Draft
  pub access_role : AccessRole
  pub open_comment_count : ℕ
