-- ===== src/Limits/RateLimit/Refined.antt =====
-- The local table of testpaper_backend/services/rate_limit.py beside a specification of it: a counter for
-- every key, and no bound on how many there are.
use test_paper_backend.Base.{
  ℕ, suc, ◌+◌, ◌≤◌, ◌<◌, ◌≡◌, refl, sym, ◌∙◌, inl, inr, false, Option, none, some, List, [], ◌∷◌,
  ◌++◌, length, leb, if◌then◌else◌, ◌==◌, ==_refl, ==_iff, find_by, any_by, update_by, subst,
  length-append, none-any_by, found-any_by, find_by-append, find_by-replaced, arith, Bool-cases,
  Option-cases,
}
use test_paper_backend.Limits.RateLimit.{
  Counter, Table, Check, has_key, open_counter, store_counter, outcome_of, check_local,
}
use test_paper_backend.Limits.RateLimit.Window.{bounded-fits, length-update_by}

pub record Call : Type 0 where
  pub key : ℕ
  pub max_attempts : ℕ
  pub window : ℕ
  pub now : ℕ

-- The counter of each key, if it has one.
abbrev pub Counters : Type 0
Counters = ℕ → Option Counter

-- The counter in which a call counts: a new one where there is none that is open.
abbrev pub counter_for : Call → Option Counter → Counter
counter_for call none = record { key = call.key; current = 0; expires_at = call.now + call.window }
counter_for call (some c) =
    if leb c.expires_at call.now
    then record { key = call.key; current = 0; expires_at = call.now + call.window }
    else c

abbrev pub put : Counter → Counters → Counters
put c counters k = if c.key == k then some c else counters k

-- The specification of a call
pub spec_call : Call → Counters → Check × Counters
spec_call call counters =
    let c = counter_for call (counters call.key) in
    let counted : Counter = record c { current = suc c.current } in
    (outcome_of counted.current call.max_attempts, put counted counters)

-- The table has the counters of the specification.
abbrev pub Agrees : Table → Counters → Type 0
Agrees table counters = (k : ℕ) → find_by (has_key k) table ≡ counters k

find_by-other_update :
    (k : ℕ) (c : Counter) (table : Table)
    → (c.key == k) ≡ false
    → find_by (has_key k) (update_by (has_key c.key) (λ _. c) table) ≡ find_by (has_key k) table
find_by-other_update k c [] h = refl
find_by-other_update k c (x ∷ xs) h = ground (arith, h, find_by-other_update k c xs h)

find_by-other_append :
    (k : ℕ) (c : Counter) (table : Table)
    → (c.key == k) ≡ false
    → find_by (has_key k) (table ++ c ∷ []) ≡ find_by (has_key k) table
find_by-other_append k c [] h = ground (arith, h)
find_by-other_append k c (x ∷ xs) h = ground (arith, find_by-other_append k c xs h)

store_counter-other :
    (k : ℕ) (c : Counter) (table : Table)
    → (c.key == k) ≡ false
    → find_by (has_key k) (store_counter c table) ≡ find_by (has_key k) table
unfolding store_counter
store_counter-other k c table h = elim (Bool-cases (any_by (has_key c.key) table)) [
  | inl known ↦ rw known (find_by-other_update k c table h)
  | inr new ↦ rw new (find_by-other_append k c table h)
]

store_counter-found :
    (c : Counter) (table : Table) → find_by (has_key c.key) (store_counter c table) ≡ some c
unfolding store_counter
store_counter-found c table = elim (Option-cases (find_by (has_key c.key) table)) [
  | inl new ↦
      rw (none-any_by (has_key c.key) table new)
        (find_by-append (has_key c.key) table (c ∷ []) new ∙ rw (==_refl c.key) refl)
  | inr (old, known) ↦
      rw (found-any_by (has_key c.key) table old known)
        (find_by-replaced (has_key c.key) table old c known (==_refl c.key))
]

length-store_counter :
    (c : Counter) (table : Table) → length (store_counter c table) ≤ suc (length table)
unfolding store_counter
length-store_counter c table =
    ground (arith, length-update_by (has_key c.key) (λ _. c) table, length-append table (c ∷ []))

put_same : (c : Counter) (counters : Counters) → put c counters c.key ≡ some c
put_same c counters = rw (==_refl c.key) refl

put_other :
    (c : Counter) (counters : Counters) (k : ℕ)
    → (c.key == k) ≡ false
    → counters k ≡ put c counters k
put_other c counters k e = rw e refl

store_counter-Agrees :
    (c : Counter) (table : Table) (counters : Counters)
    → Agrees table counters
    → Agrees (store_counter c table) (put c counters)
store_counter-Agrees c table counters h k = elim (Bool-cases (c.key == k)) [
  | inl e ↦
      subst (λ m. find_by (has_key m) (store_counter c table) ≡ put c counters m)
        ((==_iff c.key k).0 e) (store_counter-found c table ∙ sym (put_same c counters))
  | inr e ↦ store_counter-other k c table e ∙ h k ∙ put_other c counters k e
]

open_counter-counter_for :
    (call : Call) (table : Table) (o : Option Counter)
    → find_by (has_key call.key) table ≡ o
    → open_counter call.key call.now call.window table ≡ counter_for call o
unfolding open_counter
open_counter-counter_for call table none h = ground (arith, h)
open_counter-counter_for call table (some c) h = ground (arith, h)

-- The answers to a sequence of calls, by the table and by the specification.
pub run_local : ℕ → List Call → Table → List Check
run_local most [] table = []
run_local most (call ∷ calls) table =
    let step = check_local most call.key call.max_attempts call.window call.now table in
    step.0 ∷ run_local most calls step.1

pub run_spec : List Call → Counters → List Check
run_spec [] counters = []
run_spec (call ∷ calls) counters =
    (spec_call call counters).0 ∷ run_spec calls (spec_call call counters).1

check_local-spec_call :
    (most : ℕ) (call : Call) (table : Table) (counters : Counters)
    → Agrees table counters
    → length table < most
    → ((check_local most call.key call.max_attempts call.window call.now table).0
        ≡ (spec_call call counters).0)
      × Agrees
          (check_local most call.key call.max_attempts call.window call.now table).1
          (spec_call call counters).1
      × (length (check_local most call.key call.max_attempts call.window call.now table).1
          ≤ suc (length table))
unfolding check_local spec_call
check_local-spec_call most call table counters h room =
    let c = counter_for call (counters call.key) in
    let counted : Counter = record c { current = suc c.current } in
    let same = open_counter-counter_for call table (counters call.key) (h call.key) in
    let long = length-store_counter counted table in
    let fits =
      bounded-fits most call.now (store_counter counted table) (omega (arith, long, room)) in
    rw same (rw fits (refl, store_counter-Agrees counted table counters h, long))

-- As long as the table has room for a counter for each call, any sequence of calls of any keys is
-- answered as if every key had a counter of its own and none were ever dropped.
pub run_local-run_spec :
    (most : ℕ) (calls : List Call) (table : Table) (counters : Counters)
    → Agrees table counters
    → length table + length calls ≤ most
    → run_local most calls table ≡ run_spec calls counters
unfolding run_local run_spec
run_local-run_spec most [] table counters h room = refl
run_local-run_spec most (call ∷ calls) table counters h room =
    let (answer, agrees, long) =
      check_local-spec_call most call table counters h (omega (arith, room)) in
    let next = (check_local most call.key call.max_attempts call.window call.now table).1 in
    let rest =
      run_local-run_spec most calls next (spec_call call counters).1 agrees
        (omega (arith, room, long)) in
    rw answer (rw rest refl)
