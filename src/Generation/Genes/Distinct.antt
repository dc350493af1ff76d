-- ===== src/Generation/Genes/Distinct.antt =====
-- Lists without repetition, and how many of their elements another list can hold.
use test_paper_backend.Base.{
  ℕ, zero, suc, ◌≤◌, ◌≡◌, refl, true, false, ◌||◌, List, [], ◌∷◌, ◌++◌, length, take, ◌==◌, arith,
}
use test_paper_backend.Generation.Genes.{member, remove}

abbrev pub Distinct : List ℕ → Type 0
Distinct [] = Unit
Distinct (x ∷ xs) = (member x xs ≡ false) × Distinct xs

-- Every element of the one is in the other.
abbrev pub Within : List ℕ → List ℕ → Type 0
Within [] ys = Unit
Within (x ∷ xs) ys = (member x ys ≡ true) × Within xs ys

pub member-append : (x : ℕ) (xs ys : List ℕ) → member x (xs ++ ys) ≡ (member x xs || member x ys)
member-append x [] ys = refl
member-append x (y ∷ xs) ys = ground (arith, member-append x xs ys)

pub length-remove :
    (x : ℕ) (xs : List ℕ) → member x xs ≡ true → suc (length (remove x xs)) ≡ length xs
length-remove x [] h = absurd (ground arith)
length-remove x (y ∷ ys) h = ground (arith, length-remove x ys)

pub member-remove :
    (x z : ℕ) (xs : List ℕ) → (z == x) ≡ false → member z (remove x xs) ≡ member z xs
member-remove x z [] h = refl
member-remove x z (y ∷ ys) h = ground (arith, h, member-remove x z ys h)

other : (x y : ℕ) (xs : List ℕ) → member x xs ≡ false → member y xs ≡ true → (y == x) ≡ false
other x y xs h i = ground (arith, h, i)

pub Within-remove :
    (x : ℕ) (xs ys : List ℕ) → member x xs ≡ false → Within xs ys → Within xs (remove x ys)
Within-remove x [] ys h i = tt
Within-remove x (y ∷ xs) ys h i =
    (ground (arith, h, i.0, member-remove x y ys), Within-remove x xs ys (ground (arith, h)) i.1)

-- Distinct elements of a list are no more than its elements.
pub length-Within : (xs ys : List ℕ) → Distinct xs → Within xs ys → length xs ≤ length ys
length-Within [] ys h i = omega arith
length-Within (x ∷ xs) ys h i = omega (
  arith,
  length-Within xs (remove x ys) h.1 (Within-remove x xs ys h.0 i.1),
  length-remove x ys i.0,
)

pub Distinct-append_new :
    (x : ℕ) (xs : List ℕ) → Distinct xs → member x xs ≡ false → Distinct (xs ++ x ∷ [])
Distinct-append_new x [] h i = (refl, tt)
Distinct-append_new x (y ∷ xs) h i = (
  ground (arith, member-append y xs (x ∷ []), h.0, i),
  Distinct-append_new x xs h.1 (ground (arith, i)),
)

pub member-take : (n x : ℕ) (xs : List ℕ) → member x xs ≡ false → member x (take n xs) ≡ false
member-take zero x xs h = refl
member-take (suc n) x [] h = refl
member-take (suc n) x (y ∷ ys) h = ground (arith, member-take n x ys)

pub Distinct-take : (n : ℕ) (xs : List ℕ) → Distinct xs → Distinct (take n xs)
Distinct-take zero xs h = tt
Distinct-take (suc n) [] h = tt
Distinct-take (suc n) (x ∷ xs) h = (member-take n x xs h.0, Distinct-take n xs h.1)

pub Within-weaken : (xs ys : List ℕ) (y : ℕ) → Within xs ys → Within xs (y ∷ ys)
Within-weaken [] ys y h = tt
Within-weaken (x ∷ xs) ys y h = (ground (arith, h.0), Within-weaken xs ys y h.1)

pub Within-refl : (xs : List ℕ) → Within xs xs
Within-refl [] = tt
Within-refl (x ∷ xs) = (ground arith, Within-weaken xs xs x (Within-refl xs))

pub Within-append : (xs ys zs : List ℕ) → Within xs zs → Within ys zs → Within (xs ++ ys) zs
Within-append [] ys zs h i = i
Within-append (x ∷ xs) ys zs h i = (h.0, Within-append xs ys zs h.1 i)

pub Within-drop_first : (xs ys zs : List ℕ) → Within (xs ++ ys) zs → Within ys zs
Within-drop_first [] ys zs h = h
Within-drop_first (x ∷ xs) ys zs h = Within-drop_first xs ys zs h.1

pub Within-take : (n : ℕ) (xs zs : List ℕ) → Within xs zs → Within (take n xs) zs
Within-take zero xs zs h = tt
Within-take (suc n) [] zs h = tt
Within-take (suc n) (x ∷ xs) zs h = (h.0, Within-take n xs zs h.1)

pub length-take_le : (n : ℕ) (xs : List ℕ) → length (take n xs) ≤ length xs
length-take_le zero xs = omega arith
length-take_le (suc n) [] = omega arith
length-take_le (suc n) (x ∷ xs) = omega (arith, length-take_le n xs)

-- What an individual of the population is: that many different ids of the candidates.
pub record Individual (question_count : ℕ) (candidate_ids xs : List ℕ) : Type 0 where
  pub size : length xs ≡ question_count
  pub distinct : Distinct xs
  pub within : Within xs candidate_ids
