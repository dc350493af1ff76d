-- ===== src/Generation/Genes/Search.antt =====
-- The search of `mutate_individual` in testpaper_backend/services/paper_generation.py for an id that is
-- not selected, and what a selection has after one is removed.
use test_paper_backend.Base.{
  ℕ, zero, suc, ◌+◌, ◌<◌, ◌≡◌, refl, subst, inl, inr, ◌⊎◌, true, false, ◌||◌, some, List, [], ◌∷◌,
  length, ◌==◌, arith, Bool-cases,
}
use test_paper_backend.Generation.Genes.{member, remove, replacement}
use test_paper_backend.Generation.Genes.Distinct.{Distinct, Within, length-Within}

-- An element that the other list lacks.
abbrev pub Missing : List ℕ → List ℕ → Type 0
Missing xs ys = (c : ℕ) × (member c xs ≡ true) × (member c ys ≡ false)

pub lacking_later : (x : ℕ) (xs ys : List ℕ) → Missing xs ys → Missing (x ∷ xs) ys
lacking_later x xs ys (c, i, j) = (c, ground (arith, i), j)

pub Within-or-Missing : (xs ys : List ℕ) → Within xs ys ⊎ Missing xs ys
Within-or-Missing [] ys = inl tt
Within-or-Missing (x ∷ xs) ys = elim (Bool-cases (member x ys)) [
  | inr out ↦ inr (x, ground arith, out)
  | inl in_ys ↦ elim (Within-or-Missing xs ys) [
    | inl w ↦ inl (in_ys, w)
    | inr m ↦ inr (lacking_later x xs ys m)
  ]
]

pub longer_Missing : (xs ys : List ℕ) → Distinct xs → length ys < length xs → Missing xs ys
longer_Missing xs ys h more = elim (Within-or-Missing xs ys) [
  | inl w ↦ absurd (omega (arith, more, length-Within xs ys h w))
  | inr m ↦ m
]

pub member-removed : (x z : ℕ) (xs : List ℕ) → member z xs ≡ false → member z (remove x xs) ≡ false
member-removed x z [] h = refl
member-removed x z (y ∷ ys) h = ground (arith, h, member-removed x z ys)

pub Distinct-remove : (x : ℕ) (xs : List ℕ) → Distinct xs → Distinct (remove x xs)
Distinct-remove x [] h = tt
Distinct-remove x (y ∷ ys) h = elim (Bool-cases (x == y)) [
  | inl e ↦ rw e (h.1)
  | inr e ↦ rw e (member-removed x y ys h.0, Distinct-remove x ys h.1)
]

pub removed-Within : (x : ℕ) (xs zs : List ℕ) → Within xs zs → Within (remove x xs) zs
removed-Within x [] zs h = tt
removed-Within x (y ∷ ys) zs h = elim (Bool-cases (x == y)) [
  | inl e ↦ rw e (h.1)
  | inr e ↦ rw e (h.0, removed-Within x ys zs h.1)
]

pub outside : (z : ℕ) (xs ys : List ℕ) → Within xs ys → member z ys ≡ false → member z xs ≡ false
outside z [] ys w h = refl
outside z (x ∷ xs) ys w h = ground (arith, outside z xs ys w.1 h, differ z x ys h w.0)
  where
    differ : (z x : ℕ) (ys : List ℕ) → member z ys ≡ false → member x ys ≡ true → (z == x) ≡ false
    differ z x ys h i = ground (arith, h, i)

pub plus_zero : (k : ℕ) → k + 0 ≡ k
plus_zero k = omega arith

pub zero_plus : (k : ℕ) → 0 + k ≡ k
zero_plus k = omega arith

pub plus_suc : (k d : ℕ) → k + suc d ≡ suc k + d
plus_suc k d = omega arith

-- A choice that ends the search.
abbrev pub Fits : (ℕ → ℕ) → ℕ → List ℕ → ℕ → Type 0
Fits choice current others k = ((choice k == current) ≡ false) × (member (choice k) others ≡ false)

pub replacement-found :
    (choice : ℕ → ℕ) (current : ℕ) (others : List ℕ) (k fuel d : ℕ)
    → d < fuel
    → Fits choice current others (k + d)
    → (j : ℕ) × (replacement choice current others k fuel ≡ some (choice j))
      × Fits choice current others j
unfolding replacement
replacement-found choice current others k zero d below fits = absurd (omega (arith, below))
replacement-found choice current others k (suc fuel) zero below fits =
    let now = subst (λ m. Fits choice current others m) (plus_zero k) fits in
    (k, rw (now.0) (rw (now.1) refl), now)
replacement-found choice current others k (suc fuel) (suc d) below fits =
    elim (Bool-cases (choice k == current || member (choice k) others)) [
      | inr fine ↦ (k, rw fine refl, (ground (arith, fine), ground (arith, fine)))
      | inl refused ↦
          let (j, found, fit) =
            replacement-found choice current others (suc k) fuel d (omega (arith, below))
              (subst (λ m. Fits choice current others m) (plus_suc k d) fits) in
          (j, rw refused found, fit)
    ]
