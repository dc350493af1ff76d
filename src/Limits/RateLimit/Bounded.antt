-- ===== src/Limits/RateLimit/Bounded.antt =====
-- The local table of testpaper_backend/services/rate_limit.py stays within its bound.
use test_paper_backend.Base.{
  ℕ, suc, ◌≤◌, inl, inr, Option, none, some, [], ◌∷◌, length, ltb, ltb→ge, filter_by, arith,
  Bool-cases,
}
use test_paper_backend.Limits.RateLimit.{
  Table, max_fallback_counters, pop_oldest, is_open, open_counter, store_counter, bounded,
  check_local, check_rate_limit,
}

pop_oldest-bound : (most : ℕ) (table : Table) → length (pop_oldest most table) ≤ most
unfolding pop_oldest
pop_oldest-bound most [] = omega arith
pop_oldest-bound most (c ∷ cs) = ground (arith, pop_oldest-bound most cs)

bounded-bound : (most now : ℕ) (table : Table) → length (bounded most now table) ≤ most
unfolding bounded
bounded-bound most now table = elim (Bool-cases (ltb most (length table))) [
  | inl over ↦ rw over (pop_oldest-bound most (filter_by (is_open now) table))
  | inr fits ↦ rw fits (ltb→ge most (length table) fits)
]

-- A check leaves a table of at most 10,000 counters in the process, where there was one before,
-- whatever Redis answers.
pub check_rate_limit-bound :
    (redis : Option ℕ) (key max_attempts window now : ℕ) (table : Table)
    → length table ≤ max_fallback_counters
    → length (check_rate_limit redis key max_attempts window now table).1 ≤ max_fallback_counters
unfolding check_rate_limit check_local
check_rate_limit-bound (some current) key max_attempts window now table h = h
check_rate_limit-bound none key max_attempts window now table h =
    let c = open_counter key now window table in
    bounded-bound max_fallback_counters now
      (store_counter (record c { current = suc c.current }) table)
