-- ===== src/Limits/RateLimit/Window.antt =====
-- The calls of a window that the local table of testpaper_backend/services/rate_limit.py lets pass.
use test_paper_backend.Base.{
  ℕ, suc, ◌+◌, ◌≤◌, ◌<◌, min, ◌≡◌, refl, ap, ◌∙◌, inl, inr, Bool, true, false, none, some, List, [],
  ◌∷◌, length, length-append, All, ltb, ltb→lt, ltb→ge, ge→ltb, gt→leb, ==_refl, find_by, update_by,
  found-any_by, none-any_by, find_by-replaced, find_by-append, arith, Bool-cases,
}
use test_paper_backend.Limits.RateLimit.{
  Counter, Table, Check, passed, limited, has_key, open_counter, store_counter, bounded, outcome_of,
  check_local,
}

abbrev pub one_if_passed : Check → ℕ
one_if_passed passed = 1
one_if_passed limited = 0

-- How many calls of a key pass that are made one after the other, at the times of a list.
pub count_passed : ℕ → ℕ → ℕ → ℕ → List ℕ → Table → ℕ
count_passed most key max_attempts window [] table = 0
count_passed most key max_attempts window (now ∷ times) table =
    let call = check_local most key max_attempts window now table in
    one_if_passed call.0 + count_passed most key max_attempts window times call.1

pub length-update_by :
    (p : Counter → Bool) (f : Counter → Counter) (table : Table)
    → length (update_by p f table) ≡ length table
length-update_by p f [] = refl
length-update_by p f (c ∷ cs) = ap suc (length-update_by p f cs)

pub bounded-fits :
    (most now : ℕ) (table : Table) → length table ≤ most → bounded most now table ≡ table
unfolding bounded
bounded-fits most now table h = rw (ge→ltb most (length table) h) refl

-- The counter of a key is stored where the key was, or last.
Stored : ℕ → Counter → Table → Table → Type 0
Stored room c table stored = (find_by (has_key c.key) stored ≡ some c) × (length stored ≤ room)

store_known :
    (most : ℕ) (c old : Counter) (table : Table)
    → find_by (has_key c.key) table ≡ some old
    → length table ≤ most
    → Stored most c table (store_counter c table)
unfolding store_counter Stored
store_known most c old table found room = rw (found-any_by (has_key c.key) table old found) (
  find_by-replaced (has_key c.key) table old c found (==_refl c.key),
  omega (arith, room, length-update_by (has_key c.key) (λ _. c) table),
)

store_new :
    (most : ℕ) (c : Counter) (table : Table)
    → find_by (has_key c.key) table ≡ none
    → length table < most
    → Stored most c table (store_counter c table)
unfolding store_counter Stored
store_new most c table unknown room = rw (none-any_by (has_key c.key) table unknown) (
  find_by-append (has_key c.key) table (c ∷ []) unknown ∙ rw (==_refl c.key) refl,
  omega (arith, room, length-append table (c ∷ [])),
)

module _ (most key max_attempts window now : ℕ) (table : Table) where
  -- A call counts in its counter and drops no other, where there is room.
  Counted : Counter → Type 0
  Counted c =
      ((check_local most key max_attempts window now table).0
        ≡ outcome_of (suc c.current) max_attempts)
      × (find_by (has_key c.key) (check_local most key max_attempts window now table).1
          ≡ some (record c { current = suc c.current }))
      × (length (check_local most key max_attempts window now table).1 ≤ most)

  check_local-Counted :
      (c : Counter)
      → open_counter key now window table ≡ c
      → Stored most
          (record c { current = suc c.current })
          table
          (store_counter (record c { current = suc c.current }) table)
      → Counted c
  unfolding check_local Counted Stored
  check_local-Counted c opened stored = rw opened (
      rw
        (bounded-fits most now (store_counter (record c { current = suc c.current }) table)
          stored.1)
        (refl, stored.0, stored.1))

  open_found :
      (c : Counter)
      → find_by (has_key key) table ≡ some c
      → now < c.expires_at
      → open_counter key now window table ≡ c
  unfolding open_counter
  open_found c found before = ground (arith, found, gt→leb c.expires_at now before)

  open_new :
      find_by (has_key key) table ≡ none
      → open_counter key now window table
        ≡ record { key = key; current = 0; expires_at = now + window }
  unfolding open_counter
  open_new unknown = ground (arith, unknown)

module _ (most max_attempts window : ℕ) where
  limited_one : (n : ℕ) → ltb max_attempts n ≡ true → one_if_passed (outcome_of n max_attempts) ≡ 0
  limited_one n over = rw over refl

  passed_one : (n : ℕ) → ltb max_attempts n ≡ false → one_if_passed (outcome_of n max_attempts) ≡ 1
  passed_one n under = rw under refl

  -- The step of the sum below.
  one_more :
      (current count : ℕ) (rest all : ℕ)
      → rest + min (suc current) max_attempts ≡ min (suc current + count) max_attempts
      → all ≡ one_if_passed (outcome_of (suc current) max_attempts) + rest
      → all + min current max_attempts ≡ min (current + suc count) max_attempts
  one_more current count rest all h e = elim (Bool-cases (ltb max_attempts (suc current))) [
    | inl over ↦
        omega (arith, h, e, limited_one (suc current) over, ltb→lt max_attempts (suc current) over)
    | inr under ↦
        omega (arith, h, e, passed_one (suc current) under, ltb→ge max_attempts (suc current) under)
  ]

  passes_open :
      (times : List ℕ) (table : Table) (c : Counter)
      → find_by (has_key c.key) table ≡ some c
      → All (λ t. t < c.expires_at) times
      → length table ≤ most
      → count_passed most c.key max_attempts window times table + min c.current max_attempts
        ≡ min (c.current + length times) max_attempts
  unfolding count_passed Counted
  passes_open [] table c found before room = omega arith
  passes_open (now ∷ times) table c found before room =
      let counted : Counter = record c { current = suc c.current } in
      let stored = store_known most counted c table found room in
      let opened = open_found most c.key max_attempts window now table c found before.0 in
      let (outcome, kept, room_left) =
        check_local-Counted most c.key max_attempts window now table c opened stored in
      one_more c.current (length times)
        (count_passed most c.key max_attempts window times
          (check_local most c.key max_attempts window now table).1)
        (count_passed most c.key max_attempts window (now ∷ times) table)
        (passes_open times (check_local most c.key max_attempts window now table).1 counted kept
          before.1 room_left)
        (rw outcome refl)

-- Of a run of calls of one key, without a call of another key in between, whose later calls fall in the
-- window that the first one opens, the first `max_attempts` pass and no other, as long as the table had no
-- counter of the key and room for one more.
pub count_passed-min :
    (most key max_attempts window now : ℕ) (times : List ℕ) (table : Table)
    → find_by (has_key key) table ≡ none
    → length table < most
    → All (λ t. t < now + window) times
    → count_passed most key max_attempts window (now ∷ times) table
      ≡ min (suc (length times)) max_attempts
unfolding count_passed Counted
count_passed-min most key max_attempts window now times table unknown room before =
    let first : Counter = record { key = key; current = 0; expires_at = now + window } in
    let counted : Counter = record first { current = 1 } in
    let (outcome, kept, room_left) =
      check_local-Counted most key max_attempts window now table first
        (open_new most key max_attempts window now table unknown)
        (store_new most counted table unknown room) in
    omega (
      arith,
      one_more most max_attempts window 0 (length times)
          (count_passed most key max_attempts window times
            (check_local most key max_attempts window now table).1)
          (count_passed most key max_attempts window (now ∷ times) table)
          (passes_open most max_attempts window times
            (check_local most key max_attempts window now table).1 counted kept before room_left)
          (rw outcome refl),
    )
