-- ===== src/Drafts/Tests.antt =====
-- Operations on a concrete draft, and the theorems about them there.
use test_paper_backend.Base.{ℕ, ◌≡◌, refl, true, false, none, some, [], ◌∷◌, err, inr, order_by}
use test_paper_backend.Base.Json.{Json, obj, arr, int, nil, cons, Fields, end, field, get_field}
use test_paper_backend.Accounts.{User, teacher, viewer, role_permissions, has_permission}
use test_paper_backend.Drafts.State.{
  remove_field, map_field, pop_answer, redact_question, redact_items, redact_questions,
  redact_paper, redact_draft_state_answers, shows_answers,
}
use test_paper_backend.Drafts.Rows.{
  Draft, Drafts, DraftUpdate, DraftFailure, DraftDetail, as_editor, as_viewer, in_draft, in_review,
  editor_role, viewer_role, draft_not_found,
}
use test_paper_backend.Drafts.{
  committed_detail, draft_access_role, open_count, shown_draft, detail_from_row, save_draft,
  readable_draft, get_shared_draft, renamed, restated, reviewed, touched, updated_row,
  store_updated, update_shared_draft, delete_shared_draft, upsert_draft_collaborator,
  create_draft_comment,
}
use test_paper_backend.Drafts.Access.{stranger-not_found, detail_from_row-hides}
use test_paper_backend.Drafts.Updates.{Updated, update_shared_draft-Edit, update_shared_draft-stale}

abbrev question : Json
question =
    obj (field "answer" (int 4) (field "originalQuestion" (obj (field "answer" (int 4) end)) end))

abbrev state : Fields
state = field "paper" (obj (field "questions" (arr (cons question nil)) end)) end

abbrev row : Draft
row = record {
  public_id = 90;
  name = 3;
  owner_id = some 7;
  state = state;
  review_status = in_draft;
  revision = 1;
  updated_by = none;
  created_at = 1;
  updated_at = 1;
  collaborators =
      record { user_id = 8; role = as_editor; created_at = 1; updated_at = 1 }
      ∷ record { user_id = 9; role = as_viewer; created_at = 2; updated_at = 2 }
      ∷ [];
  comments = [];
}

abbrev store : Drafts
store = record { drafts = row ∷ []; accounts = [] }

abbrev account : ℕ → User
account n = record {
  id = n;
  role = teacher;
  permissions = role_permissions teacher;
  is_active = true;
}

abbrev reader : User
reader = record { id = 9; role = viewer; permissions = role_permissions viewer; is_active = true }

abbrev to_review : DraftUpdate
to_review = record { base_revision = 1; name = none; state = none; review_status = some in_review }

abbrev steps : ℕ
unfolding remove_field map_field pop_answer redact_question redact_items redact_questions
    redact_paper redact_draft_state_answers draft_access_role open_count shown_draft detail_from_row
    save_draft readable_draft get_shared_draft renamed restated reviewed touched updated_row
    store_updated committed_detail update_shared_draft delete_shared_draft upsert_draft_collaborator
    create_draft_comment has_permission order_by get_field
steps = 0

shown_to_the_owner : shows_answers state ≡ true
unfolding steps
shown_to_the_owner = refl

abbrev after : Drafts
unfolding steps
after = (update_shared_draft 20 90 to_review (account 8) store).1

abbrev after_row : Draft
after_row = record row {
  review_status = in_review;
  revision = 2;
  updated_by = some 8;
  updated_at = 20;
}

abbrev after_detail : DraftDetail
after_detail = record { row = after_row; access_role = editor_role; open_comment_count = 0 }

abbrev redacted : DraftDetail
unfolding steps
redacted = record {
  row = shown_draft row reader;
  access_role = viewer_role;
  open_comment_count = 0;
}

stranger-not_found_example :
    (get_shared_draft 90 (account 5) store ≡ (err draft_not_found, store))
    × (update_shared_draft 20 90 to_review (account 5) store ≡ (err draft_not_found, store))
    × (delete_shared_draft 90 (account 5) store ≡ (err draft_not_found, store))
    × (upsert_draft_collaborator 20 90 4 as_editor (account 5) store ≡ (err draft_not_found, store))
    × (create_draft_comment 20 61 90 none 2 (account 5) store ≡ (err draft_not_found, store))
unfolding steps
stranger-not_found_example =
    stranger-not_found 90 20 61 4 2 none to_review as_editor (account 5) store
      (inr (row, refl, (refl, refl, refl)))

update_shared_draft-Edit_example : Updated 90 to_review (account 8) store after
unfolding steps
update_shared_draft-Edit_example =
    update_shared_draft-Edit 20 90 to_review (account 8) store {r = after_detail} {t = after} refl

update_shared_draft-stale_example :
    (e : DraftFailure) × (update_shared_draft 30 90 to_review (account 7) after ≡ (err e, after))
unfolding steps
update_shared_draft-stale_example =
    update_shared_draft-stale 20 30 90 to_review to_review (account 8) (account 7) store
      {r = after_detail} {t = after} refl refl

detail_from_row-hides_example : shows_answers (shown_draft row reader).state ≡ false
unfolding steps
detail_from_row-hides_example =
    detail_from_row-hides row reader store {r = redacted} {t = store} refl refl
