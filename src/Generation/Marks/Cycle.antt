-- ===== src/Generation/Marks/Cycle.antt =====
-- Lists of numbers with a changed place, and walks around a circle of places.
use native.Mathlib.Nat.{mod-eq_of_lt, add-mod_right}
use test_paper_backend.Base.{
  ℕ, zero, suc, ◌+◌, ◌-◌, ◌%◌, ◌<◌, ◌≡◌, refl, ap, ◌∙◌, inl, inr, List, [], ◌∷◌, length, ltb, arith,
  Bool-cases,
}
use test_paper_backend.Generation.Marks.{sum, get, set}

pub length-set : (f : ℕ → ℕ) (xs : List ℕ) (i : ℕ) → length (set f xs i) ≡ length xs
length-set f [] i = refl
length-set f (x ∷ xs) zero = refl
length-set f (x ∷ xs) (suc i) = ap suc (length-set f xs i)

pub sum-set_up : (xs : List ℕ) (i : ℕ) → i < length xs → sum (set suc xs i) ≡ suc (sum xs)
sum-set_up [] i h = absurd (omega (arith, h))
sum-set_up (x ∷ xs) zero h = omega arith
sum-set_up (x ∷ xs) (suc i) h = omega (arith, sum-set_up xs i (omega (arith, h)))

pub sum-set_down : (xs : List ℕ) (i : ℕ) → 0 < get xs i → suc (sum (set (λ x. x - 1) xs i)) ≡ sum xs
sum-set_down [] i h = absurd (omega (arith, h))
sum-set_down (x ∷ xs) zero h = omega (arith, h)
sum-set_down (x ∷ xs) (suc i) h = omega (arith, sum-set_down xs i h)

-- What a list of that many places holds at least.
abbrev pub floor_sum : ℕ → ℕ → ℕ
floor_sum least zero = 0
floor_sum least (suc n) = least + floor_sum least n

-- A list that holds more than its floor has a place above the least.
pub sum-get :
    (least : ℕ) (xs : List ℕ)
    → floor_sum least (length xs) < sum xs
    → (i : ℕ) × (i < length xs) × (least < get xs i)
sum-get least [] h = absurd (omega (arith, h))
sum-get least (x ∷ xs) h = elim (Bool-cases (ltb least x)) [
  | inl more ↦ (0, omega arith, ground (arith, more))
  | inr less ↦
      let (i, below, above) = sum-get least xs (ground (arith, less, h)) in
      (suc i, omega (arith, below), above)
]

-- From any index, fewer than n steps around n places come to any place.
abbrev pub Near : ℕ → ℕ → ℕ → Type 0
Near n p index = (d : ℕ) × (d < n) × ((index + d) % n ≡ p)

next_place : (n p index d : ℕ) → p < n → d < n → (index + d) % n ≡ p → Near n p (suc index)
next_place n p index zero below near here =
    (n - 1, omega (arith, below), ap (λ x. x % n) round ∙ add-mod_right (index + 0) n ∙ here)
  where
    round : suc index + (n - 1) ≡ index + 0 + n
    round = omega (arith, below)
next_place n p index (suc d) below near there =
    (d, omega (arith, near), ap (λ x. x % n) shift ∙ there)
  where
    shift : suc index + d ≡ index + suc d
    shift = omega arith

pub reach_place : (n p index : ℕ) → p < n → Near n p index
reach_place n p zero below = (p, below, ap (λ x. x % n) none_added ∙ mod-eq_of_lt below)
  where
    none_added : 0 + p ≡ p
    none_added = omega arith
reach_place n p (suc index) below =
    let (d, near, there) = reach_place n p index below in next_place n p index d below near there
