-- ===== src/Base/Lists.antt =====
-- Lists of rows: selection by a Boolean test, predicates on every row, and sizes.
use Prim.Native.Nat.{ℕ, zero, suc, ◌+◌}
use mathlib.Core.Path.{◌≡◌, refl, ap}
use mathlib.Core.Bool.{Bool, true, false, ◌||◌}
use mathlib.Core.Option.{Option, none, some}
use mathlib.Core.List.{List, [], ◌∷◌, ◌++◌}
use native.Mathlib.Omega.{arith}
use test_paper_backend.Base.Tests.{if◌then◌else◌, ◌==◌}

module _ {ℓ} {A : Type ℓ} where
  abbrev pub length : List A → ℕ
  length [] = 0
  length (x ∷ xs) = suc (length xs)

  abbrev pub take : ℕ → List A → List A
  take zero xs = []
  take (suc n) [] = []
  take (suc n) (x ∷ xs) = x ∷ take n xs

  abbrev pub drop : ℕ → List A → List A
  drop zero xs = xs
  drop (suc n) [] = []
  drop (suc n) (x ∷ xs) = drop n xs

  -- The first row that passes the test: `session.scalar(select(...).where(...))`.
  abbrev pub find_by : (A → Bool) → List A → Option A
  find_by p [] = none
  find_by p (x ∷ xs) = if p x then some x else find_by p xs

  -- All rows that pass the test, in order.
  abbrev pub filter_by : (A → Bool) → List A → List A
  filter_by p [] = []
  filter_by p (x ∷ xs) = let rest = filter_by p xs in if p x then x ∷ rest else rest

  -- `EXISTS (SELECT ...)`
  abbrev pub any_by : (A → Bool) → List A → Bool
  any_by p [] = false
  any_by p (x ∷ xs) = p x || any_by p xs

  -- `UPDATE`: rows that pass the test are rewritten.
  abbrev pub update_by : (A → Bool) → (A → A) → List A → List A
  update_by p f [] = []
  update_by p f (x ∷ xs) = (if p x then f x else x) ∷ update_by p f xs

  -- `rows[-1]`
  abbrev pub last? : List A → Option A
  last? [] = none
  last? (x ∷ []) = some x
  last? (x ∷ y ∷ ys) = last? (y ∷ ys)

  abbrev pub All {κ} : (A → Type κ) → List A → Type κ
  All P [] = Unit
  All P (x ∷ xs) = P x × All P xs

module _ {ℓ} {A : Type ℓ} where
  pub length-append : (xs ys : List A) → length (xs ++ ys) ≡ length xs + length ys
  length-append [] ys = omega arith
  length-append (x ∷ xs) ys = omega (arith, length-append xs ys)

  pub take-append-drop : (n : ℕ) (xs : List A) → take n xs ++ drop n xs ≡ xs
  take-append-drop zero xs = refl
  take-append-drop (suc n) [] = refl
  take-append-drop (suc n) (x ∷ xs) = ap (λ l. x ∷ l) (take-append-drop n xs)

  pub All-append {κ} : (P : A → Type κ) (xs ys : List A) → All P xs → All P ys → All P (xs ++ ys)
  All-append P [] ys hx hy = hy
  All-append P (x ∷ xs) ys hx hy = (hx.0, All-append P xs ys hx.1 hy)

  pub All-mono {κ ν} :
      (P : A → Type κ) (Q : A → Type ν) (xs : List A) → ((a : A) → P a → Q a) → All P xs → All Q xs
  All-mono P Q [] f h = tt
  All-mono P Q (x ∷ xs) f h = (f x h.0, All-mono P Q xs f h.1)

  pub All-filter_by {κ} :
      (P : A → Type κ) (p : A → Bool) (xs : List A) → All P xs → All P (filter_by p xs)
  All-filter_by P p [] h = tt
  All-filter_by P p (x ∷ xs) h = ground (arith, All-filter_by P p xs h.1)

  pub find_by-append :
      (p : A → Bool) (xs ys : List A) → find_by p xs ≡ none → find_by p (xs ++ ys) ≡ find_by p ys
  find_by-append p [] ys h = refl
  find_by-append p (x ∷ xs) ys h = ground (arith, find_by-append p xs ys)

  pub find_by-test : (p : A → Bool) (xs : List A) (a : A) → find_by p xs ≡ some a → p a ≡ true
  find_by-test p [] a h = ground arith
  find_by-test p (x ∷ xs) a h = ground (arith, find_by-test p xs a)

  -- A row that is found is found again, as it was rewritten, after an update by its key.
  pub find_by-update_by :
      (p : A → Bool) (key : A → ℕ) (xs : List A) (old new : A)
      → find_by p xs ≡ some old
      → key old ≡ key new
      → p new ≡ true
      → find_by p (update_by (λ x. key x == key new) (λ _. new) xs) ≡ some new
  find_by-update_by p key [] old new h i q = ground arith
  find_by-update_by p key (x ∷ xs) old new h i q =
      ground (arith, find_by-update_by p key xs old new)

  -- The row that an update puts in the place of the rows that pass the test is found by the test.
  pub find_by-replaced :
      (p : A → Bool) (xs : List A) (old new : A)
      → find_by p xs ≡ some old
      → p new ≡ true
      → find_by p (update_by p (λ _. new) xs) ≡ some new
  find_by-replaced p [] old new h q = absurd (ground arith)
  find_by-replaced p (x ∷ xs) old new h q = ground (arith, find_by-replaced p xs old new)

  -- An update that keeps what a test sees keeps the place of the row that the test finds.
  pub find_by-updated :
      (p q : A → Bool) (f : A → A) (xs : List A) (a : A)
      → ((x : A) → p (f x) ≡ p x)
      → find_by p xs ≡ some a
      → find_by p (update_by q f xs) ≡ some (if q a then f a else a)
  find_by-updated p q f [] a k h = absurd (ground arith)
  find_by-updated p q f (x ∷ xs) a k h = ground (arith, k x, find_by-updated p q f xs a k)

  pub any_by-updated :
      (p : A → Bool) (f : A → A) (xs : List A)
      → ((x : A) → p (f x) ≡ false)
      → any_by p (update_by p f xs) ≡ false
  any_by-updated p f [] k = refl
  any_by-updated p f (x ∷ xs) k = ground (arith, k x, any_by-updated p f xs k)

  pub find_by-append_found :
      (p : A → Bool) (xs ys : List A) (a : A)
      → find_by p xs ≡ some a
      → find_by p (xs ++ ys) ≡ some a
  find_by-append_found p [] ys a h = absurd (ground arith)
  find_by-append_found p (x ∷ xs) ys a h = ground (arith, find_by-append_found p xs ys a)

  pub none-any_by : (p : A → Bool) (xs : List A) → find_by p xs ≡ none → any_by p xs ≡ false
  none-any_by p [] h = refl
  none-any_by p (x ∷ xs) h = ground (arith, none-any_by p xs)

  pub found-any_by :
      (p : A → Bool) (xs : List A) (a : A) → find_by p xs ≡ some a → any_by p xs ≡ true
  found-any_by p [] a h = absurd (ground arith)
  found-any_by p (x ∷ xs) a h = ground (arith, found-any_by p xs a)

  -- An update of other rows than those that a test sees.
  pub find_by-untouched :
      (p q : A → Bool) (f : A → A) (xs : List A)
      → ((x : A) → p (f x) ≡ p x)
      → ((x : A) → q x ≡ true → p x ≡ false)
      → find_by p (update_by q f xs) ≡ find_by p xs
  find_by-untouched p q f [] k h = refl
  find_by-untouched p q f (x ∷ xs) k h = ground (arith, k x, h x, find_by-untouched p q f xs k h)

  pub any_by-unseen :
      (p q : A → Bool) (f : A → A) (xs : List A)
      → ((x : A) → p (f x) ≡ p x)
      → any_by p (update_by q f xs) ≡ any_by p xs
  any_by-unseen p q f [] k = refl
  any_by-unseen p q f (x ∷ xs) k = ground (arith, k x, any_by-unseen p q f xs k)
