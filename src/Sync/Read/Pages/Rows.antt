-- ===== src/Sync/Read/Pages/Rows.antt =====
-- The rows of a pull's query, and how a page cuts them.
use test_paper_backend.Base.{
  ℕ, zero, suc, ◌≤◌, ◌<◌, ◌≡◌, refl, sym, ap, ◌∙◌, Bool, true, false, ◌&&◌, List, [], ◌∷◌, arith,
  ltb, length, take, drop, filter_by, All, Ascending, order_by-Ascending, filter_by-Ascending,
}
use test_paper_backend.Sync.Types.{personal}
use test_paper_backend.Sync.Rows.{Change, EntityVersion, Store}
use test_paper_backend.Sync.Compaction.{in_scope}
use test_paper_backend.Sync.Read.{
  SyncChange, shown_change, with_version, joined, changes_after, next_sequence,
}

abbrev pub has_rows : List SyncChange → Bool
has_rows [] = false
has_rows (c ∷ cs) = true

pub page-take : (n : ℕ) (xs : List SyncChange) → take n (take (suc n) xs) ≡ take n xs
page-take zero xs = refl
page-take (suc n) [] = refl
page-take (suc n) (x ∷ xs) = ap (λ l. x ∷ l) (page-take n xs)

pub more-drop :
    (n : ℕ) (xs : List SyncChange) → ltb n (length (take (suc n) xs)) ≡ has_rows (drop n xs)
more-drop zero [] = ground arith
more-drop zero (x ∷ xs) = ground arith
more-drop (suc n) [] = ground arith
more-drop (suc n) (x ∷ xs) = ground (arith, more-drop n xs)

abbrev After : ℕ → List SyncChange → Type 0
After q = All (λ c. q < c.sequence)

abbrev InOrder : List SyncChange → Type 0
InOrder = Ascending (λ (c : SyncChange). c.sequence)

next_sequence-first :
    (q q' : ℕ) (x : SyncChange) (xs : List SyncChange)
    → next_sequence q (x ∷ xs) ≡ next_sequence q' (x ∷ xs)
unfolding next_sequence
next_sequence-first q q' x [] = refl
next_sequence-first q q' x (y ∷ ys) = next_sequence-first q q' y ys

next_sequence-cons :
    (q : ℕ) (x : SyncChange) (xs : List SyncChange)
    → next_sequence q (x ∷ xs) ≡ next_sequence x.sequence xs
unfolding next_sequence
next_sequence-cons q x [] = refl
next_sequence-cons q x (y ∷ ys) = next_sequence-first q x.sequence y ys

pub next_sequence-le :
    (n q : ℕ) (xs : List SyncChange) → After q xs → InOrder xs → q ≤ next_sequence q (take n xs)
unfolding next_sequence
next_sequence-le zero q xs h o = omega arith
next_sequence-le (suc n) q [] h o = omega arith
next_sequence-le (suc n) q (x ∷ xs) h o =
    rw (next_sequence-cons q x (take n xs))
      (let le = next_sequence-le n x.sequence xs o.0 o.1 in let lt = h.0 in omega arith)

filtered-After :
    (q : ℕ) (xs : List SyncChange)
    → After q xs
    → filter_by (λ (c : SyncChange). ltb q c.sequence) xs ≡ xs
filtered-After q [] h = refl
filtered-After q (x ∷ xs) h = ground (arith, filtered-After q xs h.1)

-- What follows the last row of a page is what the page left out.
next_sequence-nil : (q : ℕ) → next_sequence q [] ≡ q
unfolding next_sequence
next_sequence-nil q = refl

remaining_rows :
    (n q m : ℕ) (xs : List SyncChange)
    → After q xs
    → InOrder xs
    → next_sequence q (take n xs) ≡ m
    → filter_by (λ (c : SyncChange). ltb m c.sequence) xs ≡ drop n xs
remaining_rows zero q m xs h o e = rw (sym e ∙ next_sequence-nil q) (filtered-After q xs h)
remaining_rows (suc n) q m [] h o e = refl
remaining_rows (suc n) q m (x ∷ xs) h o e =
    let le = next_sequence-le n x.sequence xs o.0 o.1 in
    let last = sym (next_sequence-cons q x (take n xs)) ∙ e in
    ground (arith, le, last, remaining_rows n x.sequence m xs o.0 o.1 last)

joined-After :
    (q : ℕ) (vs : List EntityVersion) (cs : List Change)
    → All (λ c. q < c.sequence) cs
    → After q (joined vs cs)
unfolding joined with_version shown_change
joined-After q vs [] h = tt
joined-After q vs (c ∷ cs) h = ground (arith, joined-After q vs cs h.1)

joined-InOrder :
    (vs : List EntityVersion) (cs : List Change)
    → Ascending (λ (c : Change). c.sequence) cs
    → InOrder (joined vs cs)
unfolding joined with_version shown_change
joined-InOrder vs [] h = tt
joined-InOrder vs (c ∷ cs) h =
    ground (arith, joined-InOrder vs cs h.1, joined-After c.sequence vs cs h.0)

joined-filter_by :
    (q : ℕ) (vs : List EntityVersion) (cs : List Change)
    → filter_by (λ (c : SyncChange). ltb q c.sequence) (joined vs cs)
      ≡ joined vs (filter_by (λ (c : Change). ltb q c.sequence) cs)
unfolding joined with_version shown_change
joined-filter_by q vs [] = refl
joined-filter_by q vs (c ∷ cs) = ground (arith, joined-filter_by q vs cs)

scoped-After :
    (p : Change → Bool) (q : ℕ) (cs : List Change)
    → All (λ c. q < c.sequence) (filter_by (λ c. p c && ltb q c.sequence) cs)
scoped-After p q [] = tt
scoped-After p q (c ∷ cs) = ground (arith, scoped-After p q cs)

scoped-later :
    (p : Change → Bool) (q n : ℕ) (cs : List Change)
    → q ≤ n
    → filter_by (λ (c : Change). ltb n c.sequence) (filter_by (λ c. p c && ltb q c.sequence) cs)
      ≡ filter_by (λ c. p c && ltb n c.sequence) cs
scoped-later p q n [] h = refl
scoped-later p q n (c ∷ cs) h = ground (arith, scoped-later p q n cs h)

-- The query at a sequence, over a log in order.
pub changes_after-joined :
    (owner q : ℕ) (s : Store)
    → Ascending (λ (c : Change). c.sequence) s.changes
    → changes_after owner q s
      ≡ joined s.versions (filter_by (λ c. in_scope owner personal c && ltb q c.sequence) s.changes)
unfolding changes_after
changes_after-joined owner q s o =
    order_by-Ascending (λ (c : SyncChange). c.sequence) _
      (joined-InOrder s.versions _ (
        filter_by-Ascending (λ (c : Change). c.sequence)
          (λ c. in_scope owner personal c && ltb q c.sequence) s.changes o))

pub changes_after-InOrder :
    (owner q : ℕ) (s : Store)
    → Ascending (λ (c : Change). c.sequence) s.changes
    → After q (changes_after owner q s) × InOrder (changes_after owner q s)
changes_after-InOrder owner q s o = rw (changes_after-joined owner q s o) (
  joined-After q s.versions _ (scoped-After (in_scope owner personal) q s.changes),
  joined-InOrder s.versions _ (
      filter_by-Ascending (λ (c : Change). c.sequence)
        (λ c. in_scope owner personal c && ltb q c.sequence) s.changes o),
)

pub changes_after-page :
    (owner q n m : ℕ) (s : Store)
    → Ascending (λ (c : Change). c.sequence) s.changes
    → next_sequence q (take n (changes_after owner q s)) ≡ m
    → (q ≤ m) × (changes_after owner m s ≡ drop n (changes_after owner q s))
changes_after-page owner q n m s o e =
    let (h, i) = changes_after-InOrder owner q s o in
    let le : q ≤ m = rw (sym e) (next_sequence-le n q (changes_after owner q s) h i) in
    (
      le,
      changes_after-joined owner m s o
          ∙ ap (joined s.versions) (sym (scoped-later (in_scope owner personal) q m s.changes le))
          ∙ sym (joined-filter_by m s.versions _)
          ∙ ap (filter_by (λ (c : SyncChange). ltb m c.sequence))
              (sym (changes_after-joined owner q s o))
          ∙ remaining_rows n q m (changes_after owner q s) h i e,
    )

pub next_sequence-lt :
    (n q : ℕ) (xs : List SyncChange)
    → After q xs
    → InOrder xs
    → has_rows (drop (suc n) xs) ≡ true
    → q < next_sequence q (take (suc n) xs)
next_sequence-lt n q [] h o more = absurd (ground arith)
next_sequence-lt n q (x ∷ xs) h o more =
    let le = next_sequence-le n x.sequence xs o.0 o.1 in
    let lt = h.0 in rw (next_sequence-cons q x (take n xs)) (omega arith)
