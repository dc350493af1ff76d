-- ===== src/Limits/RateLimit.antt =====
-- testpaper_backend/services/rate_limit.py: a counter of a window for each key, in Redis, or in a local
-- table of bounded size where Redis fails. The table is a dict: a new key comes last.
pub mod Bounded
pub mod Window
pub mod Refined
use test_paper_backend.Base.{
  ℕ, zero, suc, ◌+◌, Bool, true, false, not, Option, none, some, List, [], ◌∷◌, ◌++◌, length,
  find_by, filter_by, any_by, update_by, ltb, leb, ◌==◌, if◌then◌else◌,
}

abbrev pub max_fallback_counters : ℕ
max_fallback_counters = 10000

pub record Counter : Type 0 where
  pub key : ℕ
  pub current : ℕ
  pub expires_at : ℕ

abbrev pub Table : Type 0
Table = List Counter

-- What a check raises: the HTTP error 429.
pub data Check : Type 0 where
  passed limited : Check

abbrev pub has_key : ℕ → Counter → Bool
has_key key c = c.key == key

abbrev fresh : ℕ → ℕ → ℕ → Counter
fresh key now window = record { key = key; current = 0; expires_at = now + window }

-- `_fallback_counters.get(key, (0, now + window_seconds))`, begun again where it has expired.
unfoldable pub open_counter : ℕ → ℕ → ℕ → Table → Counter
open_counter key now window table = elim (find_by (has_key key) table) [
  | none ↦ fresh key now window
  | some c ↦ if leb c.expires_at now then fresh key now window else c
]

-- `_fallback_counters[key] = ...`
unfoldable pub store_counter : Counter → Table → Table
store_counter c table =
    if any_by (has_key c.key) table
    then update_by (has_key c.key) (λ _. c) table
    else table ++ c ∷ []

abbrev pub is_open : ℕ → Counter → Bool
is_open now c = not (leb c.expires_at now)

-- `while len(_fallback_counters) > MAX_FALLBACK_COUNTERS: pop(next(iter(...)))`
unfoldable pub pop_oldest : ℕ → Table → Table
pop_oldest most [] = []
pop_oldest most (c ∷ cs) =
    let rest = pop_oldest most cs in if ltb most (length (c ∷ cs)) then rest else c ∷ cs

-- Expired counters go first, then the oldest.
unfoldable pub bounded : ℕ → ℕ → Table → Table
unfolding pop_oldest
bounded most now table =
    let kept = filter_by (is_open now) table in
    if ltb most (length table) then pop_oldest most kept else table

abbrev pub outcome_of : ℕ → ℕ → Check
outcome_of current max_attempts = if ltb max_attempts current then limited else passed

-- `_check_local_fallback`, with `most` for `MAX_FALLBACK_COUNTERS`
unfoldable pub check_local : ℕ → ℕ → ℕ → ℕ → ℕ → Table → Check × Table
unfolding open_counter store_counter bounded
check_local most key max_attempts window now table =
    let c = open_counter key now window table in
    let counted : Counter = record c { current = suc c.current } in
    (outcome_of counted.current max_attempts, bounded most now (store_counter counted table))

-- `check_rate_limit`: `redis` is the count that the script returned, or `none` where the call failed.
unfoldable pub check_rate_limit : Option ℕ → ℕ → ℕ → ℕ → ℕ → Table → Check × Table
unfolding check_local
check_rate_limit (some current) key max_attempts window now table =
    (outcome_of current max_attempts, table)
check_rate_limit none key max_attempts window now table =
    check_local max_fallback_counters key max_attempts window now table
