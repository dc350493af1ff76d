-- ===== src/Base/Member.antt =====
-- Membership of a list as a position, and how selections by a test respect it.
use mathlib.Core.Path.{◌≡◌, refl}
use mathlib.Core.Logic.{inl, inr}
use mathlib.Core.Bool.{Bool, true, false}
use mathlib.Core.List.{List, [], ◌∷◌}
use native.Mathlib.Omega.{arith}
use test_paper_backend.Base.Tests.{if◌then◌else◌, Bool-cases}
use test_paper_backend.Base.Lists.{filter_by, any_by}

module _ {ℓ} {A : Type ℓ} where
  pub data In (a : A) : List A → Type ℓ where
    here : {xs : List A} → In a (a ∷ xs)
    there : {x : A} {xs : List A} → In a xs → In a (x ∷ xs)

  pub any_by-In : (p : A → Bool) (a : A) (xs : List A) → In a xs → p a ≡ true → any_by p xs ≡ true
  any_by-In p a _ (here {xs}) q = ground arith
  any_by-In p a _ (there {x} {xs} i) q = ground (arith, any_by-In p a xs i q)

  pub In-any_by :
      (p : A → Bool) (xs : List A) → any_by p xs ≡ true → (a : A) × In a xs × (p a ≡ true)
  In-any_by p [] h = absurd (ground arith)
  In-any_by p (x ∷ xs) h = elim (Bool-cases (p x)) [
    | inl e ↦ (x, here, e)
    | inr e ↦ let (a, i, q) = In-any_by p xs (ground arith) in (a, there i, q)
  ]

  pub In-filter_by :
      (p : A → Bool) (a : A) (xs : List A) → In a xs → p a ≡ true → In a (filter_by p xs)
  In-filter_by p a _ (here {xs}) q = rw q here
  In-filter_by p a _ (there {x} {xs} i) q = elim (Bool-cases (p x)) [
    | inl e ↦ rw e (there (In-filter_by p a xs i q))
    | inr e ↦ rw e (In-filter_by p a xs i q)
  ]

  filtered_step :
      (p : A → Bool) (a x : A) (xs : List A) (b : Bool)
      → p x ≡ b
      → (In a (filter_by p xs) → In a xs × (p a ≡ true))
      → In a (if b then x ∷ filter_by p xs else filter_by p xs)
      → In a (x ∷ xs) × (p a ≡ true)
  filtered_step p a x xs false e below j = let (i, q) = below j in (there i, q)
  filtered_step p a x xs true e below here = (here, e)
  filtered_step p a x xs true e below (there j) = let (i, q) = below j in (there i, q)

  pub In-filtered :
      (p : A → Bool) (a : A) (xs : List A) → In a (filter_by p xs) → In a xs × (p a ≡ true)
  In-filtered p a [] i = elim i [ ]
  In-filtered p a (x ∷ xs) i = filtered_step p a x xs (p x) refl (In-filtered p a xs) i

  -- A test that agrees on every row of a list selects the same rows.
  pub filter_by-cong :
      (p q : A → Bool) (xs : List A)
      → ((a : A) → In a xs → p a ≡ q a)
      → filter_by p xs ≡ filter_by q xs
  filter_by-cong p q [] h = refl
  filter_by-cong p q (x ∷ xs) h =
      ground (arith, h x here, filter_by-cong p q xs (λ a i. h a (there i)))

  -- Rows that a second test would drop anyway may be dropped first.
  pub filter_by-filter_by :
      (p q : A → Bool) (xs : List A)
      → ((a : A) → In a xs → q a ≡ true → p a ≡ true)
      → filter_by q (filter_by p xs) ≡ filter_by q xs
  filter_by-filter_by p q [] h = refl
  filter_by-filter_by p q (x ∷ xs) h =
      ground (arith, h x here, filter_by-filter_by p q xs (λ a i. h a (there i)))
