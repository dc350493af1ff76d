-- ===== src/Base/Sort.antt =====
-- `ORDER BY` a number, and sequences that ascend strictly.
use Prim.Native.Nat.{ℕ, ◌<◌}
use mathlib.Core.Path.{◌≡◌, refl, ap, ◌∙◌}
use mathlib.Core.Bool.{Bool}
use mathlib.Core.List.{List, [], ◌∷◌}
use native.Mathlib.Omega.{arith}
use test_paper_backend.Base.Tests.{if◌then◌else◌, leb}
use test_paper_backend.Base.Lists.{filter_by, All, All-filter_by}

module _ {ℓ} {A : Type ℓ} (key : A → ℕ) where
  abbrev pub insert_by : A → List A → List A
  insert_by a [] = a ∷ []
  insert_by a (x ∷ xs) = if leb (key a) (key x) then a ∷ x ∷ xs else x ∷ insert_by a xs

  unfoldable pub order_by : List A → List A
  order_by [] = []
  order_by (x ∷ xs) = insert_by x (order_by xs)

  -- Every row comes before those that follow it.
  abbrev pub Ascending : List A → Type 0
  Ascending [] = Unit
  Ascending (x ∷ xs) = All (λ y. key x < key y) xs × Ascending xs

  insert_by-least : (x : A) (xs : List A) → All (λ y. key x < key y) xs → insert_by x xs ≡ x ∷ xs
  insert_by-least x [] h = refl
  insert_by-least x (y ∷ ys) h = ground arith

  pub order_by-Ascending : (xs : List A) → Ascending xs → order_by xs ≡ xs
  unfolding order_by
  order_by-Ascending [] h = refl
  order_by-Ascending (x ∷ xs) h =
      ap (insert_by x) (order_by-Ascending xs h.1) ∙ insert_by-least x xs h.0

  pub filter_by-Ascending : (p : A → Bool) (xs : List A) → Ascending xs → Ascending (filter_by p xs)
  filter_by-Ascending p [] h = tt
  filter_by-Ascending p (x ∷ xs) h =
      ground (arith, filter_by-Ascending p xs h.1, All-filter_by (λ y. key x < key y) p xs h.0)
