-- ===== src/Drafts/Edits.antt =====
-- The checks and the changes of `update_shared_draft` of testpaper_backend/services/drafts.py on one row.
use test_paper_backend.Base.{
  ℕ, suc, ◌≡◌, ◌⊎◌, refl, sym, ap, ◌∙◌, subst, true, false, ◌&&◌, ◌||◌, Option, none, some, arith,
  ◌==◌, ltb, inl, inr, Bool-cases, Result-cases, length, filter_by, ok,
}
use test_paper_backend.Base.Json.{Fields}
use test_paper_backend.Accounts.{User}
use test_paper_backend.Drafts.Rows.{
  AccessRole, Comment, still_open, ReviewStatus, Draft, DraftUpdate, may_edit, may_manage,
  is_editor, is_approved, is_in_review,
}
use test_paper_backend.Drafts.{open_count, renamed, restated, reviewed, touched, updated_row}

-- An accepted update of `row` to `new` by a role.
pub record Edit (role : AccessRole) (payload : DraftUpdate) (row new : Draft) : Type 0 where
  pub may : may_edit role ≡ true
  pub current : payload.base_revision ≡ row.revision
  pub next : new.revision ≡ suc row.revision
  pub same_draft : new.public_id ≡ row.public_id
  pub name : (new.name ≡ row.name) ⊎ (may_manage role ≡ true)
  pub review :
      (new.review_status ≡ row.review_status)
      ⊎ (((is_approved new.review_status && ltb 0 (open_count row)) ≡ false)
          × ((may_manage role || (is_editor role && is_in_review new.review_status)) ≡ true))
  pub comments : new.comments ≡ row.comments
  pub collaborators : new.collaborators ≡ row.collaborators

-- What a step of an update keeps of the row.
abbrev SameRest : Draft → Draft → Type 0
SameRest row new =
    (new.revision ≡ row.revision)
    × (new.public_id ≡ row.public_id)
    × (new.comments ≡ row.comments)
    × (new.collaborators ≡ row.collaborators)

renamed-SameRest :
    (role : AccessRole) (name : Option ℕ) (row : Draft) {new : Draft}
    → renamed role name row ≡ ok new
    → ((new.name ≡ row.name) ⊎ (may_manage role ≡ true))
      × (new.review_status ≡ row.review_status)
      × SameRest row new
unfolding renamed
renamed-SameRest role none row {new} h = ground arith
renamed-SameRest role (some name) row {new} h = elim (Bool-cases (name == row.name)) [
  | inl same ↦ ground arith
  | inr other ↦ elim (Bool-cases (may_manage role)) [
    | inl may ↦ ground arith
    | inr may ↦ absurd (ground arith)
  ]
]

restated-SameRest :
    (state : Option Fields) (row : Draft)
    → ((restated state row).name ≡ row.name)
      × ((restated state row).review_status ≡ row.review_status)
      × SameRest row (restated state row)
unfolding restated
restated-SameRest none row = (refl, refl, (refl, refl, refl, refl))
restated-SameRest (some state) row = (refl, refl, (refl, refl, refl, refl))

reviewed-SameRest :
    (role : AccessRole) (status : Option ReviewStatus) (row : Draft) {new : Draft}
    → reviewed role status row ≡ ok new
    → ((new.review_status ≡ row.review_status)
        ⊎ (((is_approved new.review_status && ltb 0 (open_count row)) ≡ false)
            × ((may_manage role || (is_editor role && is_in_review new.review_status)) ≡ true)))
      × (new.name ≡ row.name)
      × SameRest row new
unfolding reviewed
reviewed-SameRest role none row {new} h = ground arith
reviewed-SameRest role (some status) row {new} h =
    elim (Bool-cases (is_approved status && ltb 0 (open_count row))) [
      | inl blocked ↦ absurd (ground arith)
      | inr free ↦ elim (Bool-cases (may_manage role || (is_editor role && is_in_review status))) [
        | inr no_right ↦ absurd (ground arith)
        | inl may ↦
            let same : record row { review_status = status } ≡ new = ground arith in
            let shown : status ≡ new.review_status = ap (λ (d : Draft). d.review_status) same in
            (
              inr (rw (sym shown) free, rw (sym shown) may),
              ap (λ (d : Draft). d.name) (sym same),
              ground (arith, same),
            )
      ]
    ]

open_count-comments : (a b : Draft) → a.comments ≡ b.comments → open_count a ≡ open_count b
unfolding open_count
open_count-comments a b h =
    ap (λ cs. length (filter_by (λ (c : Comment). still_open c.status) cs)) h

reviewed-Edit :
    (now : ℕ) (user : User) (role : AccessRole) (payload : DraftUpdate) (row row1 row2 new : Draft)
    → may_edit role ≡ true
    → payload.base_revision ≡ row.revision
    → renamed role payload.name row ≡ ok row1
    → reviewed role payload.review_status (restated payload.state row1) ≡ ok row2
    → touched now user (record row2 { revision = suc row2.revision }) ≡ new
    → Edit role payload row new
unfolding touched
reviewed-Edit now user role payload row row1 row2 new may base e1 e2 last =
    let (named, review1, rest1) = renamed-SameRest role payload.name row e1 in
    let (name2, review2, rest2) = restated-SameRest payload.state row1 in
    let (review3, name3, rest3) =
      reviewed-SameRest role payload.review_status (restated payload.state row1) e2 in
    let shown : new.review_status ≡ row2.review_status =
      ap (λ (d : Draft). d.review_status) (sym last) in
    let comments : (restated payload.state row1).comments ≡ row.comments =
      ground (arith, rest1, rest2) in
    record {
      may = may;
      current = base;
      next = ground (arith, last, rest1, rest2, rest3);
      same_draft = ground (arith, last, rest1, rest2, rest3);
      name = ground (arith, last, named, name2, name3);
      review = elim review3 [
        | inl kept ↦ inl (shown ∙ kept ∙ review2 ∙ review1)
        | inr (free, right) ↦ inr (
          subst (λ c. (is_approved c && ltb 0 (open_count row)) ≡ false) (sym shown)
              (subst (λ n. (is_approved row2.review_status && ltb 0 n) ≡ false)
                (open_count-comments _ row comments) free),
          subst (λ c. (may_manage role || (is_editor role && is_in_review c)) ≡ true) (sym shown)
              right,
        )
      ];
      comments = ground (arith, last, rest1, rest2, rest3);
      collaborators = ground (arith, last, rest1, rest2, rest3);
    }

pub updated_row-Edit :
    (now : ℕ) (user : User) (role : AccessRole) (payload : DraftUpdate) (row : Draft) {new : Draft}
    → may_edit role ≡ true
    → updated_row now user role payload row ≡ ok new
    → Edit role payload row new
unfolding updated_row touched
updated_row-Edit now user role payload row {new} may h =
    elim (Bool-cases (payload.base_revision == row.revision)) [
      | inr stale ↦ absurd (ground arith)
      | inl fresh ↦ elim (Result-cases (renamed role payload.name row)) [
        | inr (e, failed) ↦ absurd (ground arith)
        | inl (row1, e1) ↦
            elim (Result-cases
              (reviewed role payload.review_status (restated payload.state row1))) [
                | inr (e, failed) ↦ absurd (ground arith)
                | inl (row2, e2) ↦
                    reviewed-Edit now user role payload row row1 row2 new may (ground arith) e1 e2
                      (ground arith)
              ]
      ]
    ]
