-- ===== src/Generation/Shares/Ranked.antt =====
-- The places that `sorted(enumerate(...))` of testpaper_backend/services/paper_generation.py gives.
use test_paper_backend.Base.{
  ℕ, zero, suc, ◌+◌, ◌<◌, ◌≤◌, ◌≡◌, refl, ap, ◌∙◌, subst, inl, inr, ◌⊎◌, Bool, List, [], ◌∷◌, map,
  length, All, arith, Bool-cases, In, here, there,
}
use test_paper_backend.Generation.Marks.{get}
use test_paper_backend.Generation.Marks.Balance.{Ranks}
use test_paper_backend.Generation.Shares.{insert_sorted, sorted, enumerate, ordered, places}

pub length-map : {A B : Type 0} (f : A → B) (xs : List A) → length (map f xs) ≡ length xs
length-map f [] = refl
length-map f (x ∷ xs) = ap suc (length-map f xs)

length-enumerate : {A : Type 0} (i : ℕ) (xs : List A) → length (enumerate i xs) ≡ length xs
length-enumerate i [] = refl
length-enumerate i (x ∷ xs) = ap suc (length-enumerate (suc i) xs)

All-map :
    {A : Type 0} (f : A → ℕ) (P : ℕ → Type 0) (xs : List A)
    → All (λ a. P (f a)) xs
    → All P (map f xs)
All-map f P [] h = tt
All-map f P (x ∷ xs) h = (h.0, All-map f P xs h.1)

All-get : (P : ℕ → Type 0) (xs : List ℕ) (i : ℕ) → All P xs → i < length xs → P (get xs i)
All-get P [] i h below = absurd (omega (arith, below))
All-get P (x ∷ xs) zero h below = h.0
All-get P (x ∷ xs) (suc i) h below = All-get P xs i h.1 (omega (arith, below))

In-get : (i : ℕ) (xs : List ℕ) → In i xs → (p : ℕ) × (p < length xs) × (get xs p ≡ i)
In-get i _ (here {xs}) = (0, omega arith, refl)
In-get i _ (there {x} {xs} j) =
    let (p, below, same) = In-get i xs j in (suc p, omega (arith, below), same)

In-split : (i x : ℕ) (xs : List ℕ) → In i (x ∷ xs) → (i ≡ x) ⊎ In i xs
In-split i _ xs here = inl refl
In-split i x xs (there j) = inr j

plus_zero : (i : ℕ) → 0 + i ≡ i
plus_zero i = omega arith

module _ {A : Type 0} (before : A → A → Bool) where
  length-insert_sorted :
      (x : A) (xs : List A) → length (insert_sorted before x xs) ≡ suc (length xs)
  length-insert_sorted x [] = refl
  length-insert_sorted x (y ∷ ys) = elim (Bool-cases (before y x)) [
    | inl e ↦ rw e (ap suc (length-insert_sorted x ys))
    | inr e ↦ rw e refl
  ]

  pub length-sorted : (xs : List A) → length (sorted before xs) ≡ length xs
  unfolding sorted
  length-sorted [] = refl
  length-sorted (x ∷ xs) = length-insert_sorted x (sorted before xs) ∙ ap suc (length-sorted xs)

  All-insert_sorted :
      (P : A → Type 0) (x : A) (xs : List A) → P x → All P xs → All P (insert_sorted before x xs)
  All-insert_sorted P x [] px h = (px, tt)
  All-insert_sorted P x (y ∷ ys) px h = elim (Bool-cases (before y x)) [
    | inl e ↦ rw e (h.0, All-insert_sorted P x ys px h.1)
    | inr e ↦ rw e (px, h)
  ]

  pub All-sorted : (P : A → Type 0) (xs : List A) → All P xs → All P (sorted before xs)
  unfolding sorted
  All-sorted P [] h = tt
  All-sorted P (x ∷ xs) h = All-insert_sorted P x (sorted before xs) h.0 (All-sorted P xs h.1)

  first-insert_sorted :
      (f : A → ℕ) (x : A) (xs : List A) → In (f x) (map f (insert_sorted before x xs))
  first-insert_sorted f x [] = here
  first-insert_sorted f x (y ∷ ys) = elim (Bool-cases (before y x)) [
    | inl e ↦ rw e (there (first-insert_sorted f x ys))
    | inr e ↦ rw e here
  ]

  rest-insert_sorted :
      (f : A → ℕ) (i : ℕ) (x : A) (xs : List A)
      → In i (map f xs)
      → In i (map f (insert_sorted before x xs))
  rest-insert_sorted f i x [] j = there j
  rest-insert_sorted f i x (y ∷ ys) j = elim (Bool-cases (before y x)) [
    | inl e ↦ rw e (elim (In-split i (f y) (map f ys) j) [
      | inl top ↦ rw top here
      | inr k ↦ there (rest-insert_sorted f i x ys k)
    ])
    | inr e ↦ rw e (there j)
  ]

  In-sorted : (f : A → ℕ) (i : ℕ) (xs : List A) → In i (map f xs) → In i (map f (sorted before xs))
  unfolding sorted
  In-sorted f i [] j = j
  In-sorted f i (x ∷ xs) j = elim (In-split i (f x) (map f xs) j) [
    | inl top ↦ rw top (first-insert_sorted f x (sorted before xs))
    | inr k ↦ rest-insert_sorted f i x (sorted before xs) (In-sorted f i xs k)
  ]

enumerate-below :
    {A : Type 0} (i n : ℕ) (xs : List A) → i + length xs ≤ n → All (λ p. p.0 < n) (enumerate i xs)
enumerate-below i n [] h = tt
enumerate-below i n (x ∷ xs) h = (omega (arith, h), enumerate-below (suc i) n xs (omega (arith, h)))

enumerate-In :
    {A : Type 0} (i k : ℕ) (xs : List A)
    → k < length xs
    → In (i + k) (map (λ p. p.0) (enumerate i xs))
enumerate-In i k [] h = absurd (omega (arith, h))
enumerate-In i zero (x ∷ xs) h =
    subst (λ m. In m (map (λ p. p.0) (enumerate i (x ∷ xs)))) first here
  where
    first : i ≡ i + 0
    first = omega arith
enumerate-In i (suc k) (x ∷ xs) h = there (
    subst (λ m. In m (map (λ p. p.0) (enumerate (suc i) xs))) next
      (enumerate-In (suc i) k xs (omega (arith, h))))
  where
    next : suc i + k ≡ i + suc k
    next = omega arith

module _ {A : Type 0} (reverse : Bool) (less : A → A → Bool) (xs : List A) where
  pub length-places : length (places reverse less xs) ≡ length xs
  unfolding places
  length-places =
      length-map (λ p. p.0) (sorted (ordered reverse less) (enumerate 0 xs))
      ∙ length-sorted (ordered reverse less) (enumerate 0 xs)
      ∙ length-enumerate 0 xs

  -- The ranking has every place, and no other.
  pub places-Ranks : Ranks (places reverse less xs) (length xs)
  unfolding places
  places-Ranks = record {
    inside = λ p below.
        All-get (λ m. m < length xs) (places reverse less xs) p
          (All-map (λ p. p.0) (λ m. m < length xs) (sorted (ordered reverse less) (enumerate 0 xs))
            (All-sorted (ordered reverse less) (λ p. p.0 < length xs) (enumerate 0 xs)
              (enumerate-below 0 (length xs) xs (omega arith))))
          below;
    covers = λ i below. In-get i (places reverse less xs) (
        In-sorted (ordered reverse less) (λ p. p.0) i (enumerate 0 xs)
          (subst (λ m. In m (map (λ p. p.0) (enumerate 0 xs))) (plus_zero i)
            (enumerate-In 0 i xs below)));
  }
