-- ===== src/Sync/Recovery/Listing/Complete.antt =====
-- The history that `list_versions` of testpaper_backend/services/sync_conflicts.py shows.
use test_paper_backend.Base.{
  ℕ, ◌≤◌, ◌≡◌, refl, sym, subst, inl, inr, ◌⊎◌, ◌↔◌, Bool, true, some, List, [], ◌∷◌, ok, All,
  All-mono, In, here, there, In-filter_by, In-filtered, filter_by, settle-ok, or_raise-ok,
  returned-value, arith, Bool-cases,
}
use test_paper_backend.Accounts.{User}
use test_paper_backend.Sync.Types.{EntityType, entity_not_found, api}
use test_paper_backend.Sync.Rows.{Entity, EntityVersion, Store}
use test_paper_backend.Sync.Tables.{find_entity}
use test_paper_backend.Sync.Recovery.Listing.{
  insert_row, ordered_rows, newer, is_version_of, list_versions,
}

In-split : {A : Type 0} (a x : A) (xs : List A) → In a (x ∷ xs) → (a ≡ x) ⊎ In a xs
In-split a _ xs here = inl refl
In-split a x xs (there j) = inr j

module _ {A : Type 0} (before : A → A → Bool) where
  In-insert_row : (a x : A) (xs : List A) → In a (x ∷ xs) → In a (insert_row before x xs)
  In-insert_row a x [] i = i
  In-insert_row a x (y ∷ ys) i = elim (Bool-cases (before y x)) [
    | inr e ↦ rw e i
    | inl e ↦ rw e (elim (In-split a x (y ∷ ys) i) [
      | inl top ↦ there (In-insert_row a x ys (rw top here))
      | inr j ↦ elim (In-split a y ys j) [
        | inl second ↦ rw second here
        | inr k ↦ there (In-insert_row a x ys (there k))
      ]
    ])
  ]

  insert_row-In : (a x : A) (xs : List A) → In a (insert_row before x xs) → In a (x ∷ xs)
  insert_row-In a x [] i = i
  insert_row-In a x (y ∷ ys) i = elim (Bool-cases (before y x)) [
    | inr e ↦ (rw e at i)
    | inl e ↦ elim (In-split a y (insert_row before x ys) (rw e at i)) [
      | inl top ↦ rw top (there here)
      | inr j ↦ elim (In-split a x ys (insert_row-In a x ys j)) [
        | inl first ↦ rw first here
        | inr k ↦ there (there k)
      ]
    ]
  ]

  In-ordered_rows : (a : A) (xs : List A) → In a xs ↔ In a (ordered_rows before xs)
  unfolding ordered_rows
  In-ordered_rows a [] = (λ i. i, λ i. i)
  In-ordered_rows a (x ∷ xs) =
      let below = In-ordered_rows a xs in
      (
        λ i. elim (In-split a x xs i) [
          | inl top ↦ In-insert_row a x (ordered_rows before xs) (rw top here)
          | inr j ↦ In-insert_row a x (ordered_rows before xs) (there (below.0 j))
        ],
        λ i.
            elim (In-split a x (ordered_rows before xs)
              (insert_row-In a x (ordered_rows before xs) i)) [
                | inl top ↦ rw top here
                | inr j ↦ there (below.1 j)
              ],
      )

  All-insert_row :
      (P : A → Type 0) (x : A) (xs : List A) → P x → All P xs → All P (insert_row before x xs)
  All-insert_row P x [] h i = (h, tt)
  All-insert_row P x (y ∷ ys) h i = elim (Bool-cases (before y x)) [
    | inl e ↦ rw e (i.0, All-insert_row P x ys h i.1)
    | inr e ↦ rw e (h, i)
  ]

-- No version comes after a lower one.
abbrev pub Descending : List EntityVersion → Type 0
Descending [] = Unit
Descending (x ∷ xs) = All (λ (y : EntityVersion). y.version ≤ x.version) xs × Descending xs

Descending-insert_row :
    (x : EntityVersion) (xs : List EntityVersion)
    → Descending xs
    → Descending (insert_row newer x xs)
Descending-insert_row x [] h = (tt, tt)
Descending-insert_row x (y ∷ ys) h = elim (Bool-cases (newer y x)) [
  | inl e ↦ rw e (
    All-insert_row newer (λ (z : EntityVersion). z.version ≤ y.version) x ys (ground (arith, e))
        h.0,
    Descending-insert_row x ys h.1,
  )
  | inr e ↦
      let below : y.version ≤ x.version = ground (arith, e) in
      rw e (
        (
          below,
          All-mono (λ (z : EntityVersion). z.version ≤ y.version)
              (λ (z : EntityVersion). z.version ≤ x.version) ys (λ z k. omega (arith, k, below))
              h.0,
        ),
        h,
      )
]

Descending-ordered_rows : (xs : List EntityVersion) → Descending (ordered_rows newer xs)
unfolding ordered_rows
Descending-ordered_rows [] = tt
Descending-ordered_rows (x ∷ xs) =
    Descending-insert_row x (ordered_rows newer xs) (Descending-ordered_rows xs)

-- The history that is shown of an entity has every version of it that its owner has, and no other row,
-- the newest version first.
pub list_versions_complete :
    (user : User) (kind : EntityType) (public_id : ℕ) (s t : Store) (rows : List EntityVersion)
    → list_versions user kind public_id s ≡ (ok rows, t)
    → (e : Entity) × (find_entity user.id kind public_id s ≡ some e)
      × ((v : EntityVersion)
          → (In v s.versions × (is_version_of user.id e.id v ≡ true)) ↔ In v rows)
      × Descending rows
unfolding list_versions
list_versions_complete user kind public_id s t rows h =
    let (e, found, h1) =
      or_raise-ok (find_entity user.id kind public_id s) (api 404 entity_not_found) s _
        (settle-ok s _ h) in
    let shown = filter_by (is_version_of user.id e.id) s.versions in
    let same : ordered_rows newer shown ≡ rows =
      returned-value (ordered_rows newer shown) rows s t h1 in
    (
      e,
      found,
      λ v. (
        λ i.
            subst (λ l. In v l) same
              ((In-ordered_rows newer v shown).0
                (In-filter_by (is_version_of user.id e.id) v s.versions i.0 i.1)),
        λ i.
            In-filtered (is_version_of user.id e.id) v s.versions
              ((In-ordered_rows newer v shown).1 (subst (λ l. In v l) (sym same) i)),
      ),
      subst Descending same (Descending-ordered_rows shown),
    )
