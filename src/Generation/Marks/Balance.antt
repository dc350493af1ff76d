-- ===== src/Generation/Marks/Balance.antt =====
-- The loop that spends what is left over: it ends with nothing left, within a number of turns that is
-- known before, and leaves no place below the least.
use native.Mathlib.Nat.{mod-lt}
use test_paper_backend.Base.{
  ℕ, zero, suc, ◌+◌, ◌-◌, ◌%◌, ◌<◌, ◌≤◌, ◌≡◌, refl, sym, ap, ◌∙◌, subst, inl, inr, false, List, [],
  ◌∷◌, length, All, ltb, arith, Bool-cases,
}
use test_paper_backend.Generation.Marks.{
  sum, get, set, ℤ, pos, negsuc, is_zero, is_positive, increased, give_or_take, balance,
}
use test_paper_backend.Generation.Marks.Cycle.{
  length-set, sum-set_up, sum-set_down, floor_sum, sum-get, reach_place,
}

-- The places of `ranked` are those of the list, each one once or more.
pub record Ranks (ranked : List ℕ) (n : ℕ) : Type 0 where
  pub inside : (p : ℕ) → p < length ranked → get ranked p < n
  pub covers : (i : ℕ) → i < n → (p : ℕ) × (p < length ranked) × (get ranked p ≡ i)

abbrev pub spent : List ℕ × ℤ → ℕ
spent (marks, _) = sum marks

-- A turn keeps the number of places.
pub length-give_or_take :
    (least i : ℕ) (marks : List ℕ) (remaining : ℤ)
    → length (give_or_take least i (marks, remaining)).0 ≡ length marks
unfolding give_or_take
length-give_or_take least i marks remaining =
    ground (arith, length-set suc marks i, length-set (λ x. x - 1) marks i)

add_zero : (m : ℕ) → m + 0 ≡ m
add_zero m = omega arith

add_suc : (m d : ℕ) → m + suc d ≡ suc m + d
add_suc m d = omega arith

module _ (least : ℕ) (ranked : List ℕ) (n : ℕ) (ranks : Ranks ranked n)
    (some_rank : 0 < length ranked) where
  -- Where `k` is left, `k` turns give it.
  pub balance-given :
      (fuel k index : ℕ) (marks : List ℕ)
      → length marks ≡ n
      → k ≤ fuel
      → (sum (balance least ranked fuel index (marks, pos k)).0 ≡ sum marks + k)
        × ((balance least ranked fuel index (marks, pos k)).1 ≡ pos 0)
  unfolding balance give_or_take
  balance-given zero k index marks h enough =
      (omega (arith, enough), ap pos (omega (arith, enough)))
  balance-given (suc fuel) zero index marks h enough = (omega arith, refl)
  balance-given (suc fuel) (suc k) index marks h enough =
      let i = get ranked (index % length ranked) in
      let inside : i < length marks =
        subst (λ m. i < m) (sym h)
          (ranks.inside (index % length ranked) (mod-lt index some_rank)) in
      let (total, none_left) =
        balance-given fuel k (suc index) (set suc marks i) (length-set suc marks i ∙ h)
          (omega (arith, enough)) in
      (omega (arith, total, sum-set_up marks i inside), none_left)

  -- The turns that take k + 1: fewer than a round before each.
  abbrev pub rounds : ℕ → ℕ
  rounds zero = 0
  rounds (suc k) = length ranked + rounds k

  balance-done :
      (fuel index : ℕ) (marks : List ℕ)
      → balance least ranked fuel index (marks, pos 0) ≡ (marks, pos 0)
  unfolding balance
  balance-done zero index marks = refl
  balance-done (suc fuel) index marks = refl

  -- The next turns meet a place above the least after `d` turns.
  abbrev pub Ahead : ℕ → ℕ → List ℕ → Type 0
  Ahead d index marks = least < get marks (get ranked ((index + d) % length ranked))

  pub ahead :
      (index : ℕ) (marks : List ℕ)
      → length marks ≡ n
      → floor_sum least n < sum marks
      → (d : ℕ) × (d < length ranked) × Ahead d index marks
  ahead index marks h above =
      let (i, inside, more) =
        sum-get least marks (subst (λ m. floor_sum least m < sum marks) (sym h) above) in
      let (p, place, here) = ranks.covers i (subst (λ m. i < m) h inside) in
      let (d, near, there) = reach_place (length ranked) p index place in
      (d, near, rw there (rw here more))

  -- Where k + 1 is too much and the floor allows it, that many turns take it.
  abbrev Takes : ℕ → Type 0
  Takes fuel =
      (k d index rest : ℕ) (marks : List ℕ)
      → length marks ≡ n
      → sum marks ≡ suc k + rest
      → floor_sum least n ≤ rest
      → Ahead d index marks
      → d < length ranked
      → d + rounds k < fuel
      → (sum (balance least ranked fuel index (marks, negsuc k)).0 ≡ rest)
        × ((balance least ranked fuel index (marks, negsuc k)).1 ≡ pos 0)

  -- The turns after one is taken.
  taken :
      (fuel : ℕ)
      → Takes fuel
      → (k index rest : ℕ) (marks : List ℕ) → length marks ≡ n
      → sum marks ≡ k + rest
      → floor_sum least n ≤ rest
      → rounds k ≤ fuel
      → (sum (balance least ranked fuel index (marks, increased (negsuc k))).0 ≡ rest)
        × ((balance least ranked fuel index (marks, increased (negsuc k))).1 ≡ pos 0)
  taken fuel takes zero index rest marks h total bound enough =
      rw (balance-done fuel index marks) (omega (arith, total), refl)
  taken fuel takes (suc k) index rest marks h total bound enough =
      let (d, near, there) = ahead index marks h (omega (arith, total, bound)) in
      takes k d index rest marks h total bound there near (omega (arith, near, enough))

  -- The turns after one that met a place at the least.
  missed :
      (fuel : ℕ)
      → Takes fuel
      → (k d index rest : ℕ) (marks : List ℕ) → length marks ≡ n
      → sum marks ≡ suc k + rest
      → floor_sum least n ≤ rest
      → Ahead d index marks
      → d < length ranked
      → d + rounds k < suc fuel
      → ltb least (get marks (get ranked (index % length ranked))) ≡ false
      → (sum (balance least ranked fuel (suc index) (marks, negsuc k)).0 ≡ rest)
        × ((balance least ranked fuel (suc index) (marks, negsuc k)).1 ≡ pos 0)
  missed fuel takes k zero index rest marks h total bound there near enough less =
      let here : least < get marks (get ranked (index % length ranked)) =
        subst (λ m. least < get marks (get ranked (m % length ranked))) (add_zero index) there in
      absurd (ground (arith, here, less))
  missed fuel takes k (suc d) index rest marks h total bound there near enough less =
      takes k d (suc index) rest marks h total bound
        (subst (λ m. least < get marks (get ranked (m % length ranked))) (add_suc index d) there)
        (omega (arith, near)) (omega (arith, enough))

  pub balance-taken : (fuel : ℕ) → Takes fuel
  unfolding balance give_or_take
  balance-taken zero k d index rest marks h total bound there near enough =
      absurd (omega (arith, enough))
  balance-taken (suc fuel) k d index rest marks h total bound there near enough =
      let i = get ranked (index % length ranked) in
      elim (Bool-cases (ltb least (get marks i))) [
        | inl more ↦ rw more (
            taken fuel (balance-taken fuel) k (suc index) rest (set (λ x. x - 1) marks i)
              (length-set (λ x. x - 1) marks i ∙ h)
              (omega (arith, total, sum-set_down marks i (ground (arith, more)))) bound
              (omega (arith, enough)))
        | inr less ↦ rw less (
            missed fuel (balance-taken fuel) k d index rest marks h total bound there near enough
              less)
      ]

-- A turn leaves every place at the least or above.
All-set_up :
    (least : ℕ) (xs : List ℕ) (i : ℕ)
    → All (λ x. least ≤ x) xs
    → All (λ x. least ≤ x) (set suc xs i)
All-set_up least [] i h = h
All-set_up least (x ∷ xs) zero h = (omega (arith, h.0), h.1)
All-set_up least (x ∷ xs) (suc i) h = (h.0, All-set_up least xs i h.1)

All-set_down :
    (least : ℕ) (xs : List ℕ) (i : ℕ)
    → All (λ x. least ≤ x) xs
    → least < get xs i
    → All (λ x. least ≤ x) (set (λ x. x - 1) xs i)
All-set_down least [] i h more = h
All-set_down least (x ∷ xs) zero h more = (omega (arith, more), h.1)
All-set_down least (x ∷ xs) (suc i) h more = (h.0, All-set_down least xs i h.1 more)

All-give_or_take :
    (least i : ℕ) (marks : List ℕ) (remaining : ℤ)
    → All (λ x. least ≤ x) marks
    → All (λ x. least ≤ x) (give_or_take least i (marks, remaining)).0
unfolding give_or_take
All-give_or_take least i marks remaining h = elim (Bool-cases (is_positive remaining)) [
  | inl gives ↦ rw gives (All-set_up least marks i h)
  | inr takes ↦ rw takes (elim (Bool-cases (ltb least (get marks i))) [
    | inl more ↦ rw more (All-set_down least marks i h (ground (arith, more)))
    | inr less ↦ rw less h
  ])
]

pub balance-keeps :
    (least : ℕ) (ranked : List ℕ) (fuel index : ℕ) (state : List ℕ × ℤ)
    → All (λ x. least ≤ x) state.0
    → All (λ x. least ≤ x) (balance least ranked fuel index state).0
      × (length (balance least ranked fuel index state).0 ≡ length state.0)
unfolding balance
balance-keeps least ranked zero index state h = (h, refl)
balance-keeps least ranked (suc fuel) index state h =
    let i = get ranked (index % length ranked) in
    elim (Bool-cases (is_zero state.1)) [
      | inl done ↦ rw done (h, refl)
      | inr more ↦
          let (least_kept, same) =
            balance-keeps least ranked fuel (suc index) (give_or_take least i state)
              (All-give_or_take least i state.0 state.1 h) in
          rw more (least_kept, same ∙ length-give_or_take least i state.0 state.1)
    ]
