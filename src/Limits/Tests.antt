-- ===== src/Limits/Tests.antt =====
-- Calls of a concrete client, and the theorems about them there.
use test_paper_backend.Base.{ℕ, ◌≤◌, ◌≡◌, refl, none, List, find_by, [], ◌∷◌, length, arith}
use test_paper_backend.Limits.RateLimit.{Table, has_key, max_fallback_counters, check_rate_limit}
use test_paper_backend.Limits.RateLimit.Bounded.{check_rate_limit-bound}
use test_paper_backend.Limits.RateLimit.Window.{count_passed, count_passed-min}
use test_paper_backend.Limits.RateLimit.Refined.{Call, run_local, run_spec, run_local-run_spec}

abbrev other_client : Table
other_client = record { key = 3; current = 2; expires_at = 500 } ∷ []

check_rate_limit-bound_example :
    length (check_rate_limit none 4 5 60 100 other_client).1 ≤ max_fallback_counters
check_rate_limit-bound_example = check_rate_limit-bound none 4 5 60 100 other_client (omega arith)

count_passed-min_example : count_passed 10 4 2 60 (100 ∷ 110 ∷ 120 ∷ 130 ∷ []) other_client ≡ 2
count_passed-min_example =
    count_passed-min 10 4 2 60 100 (110 ∷ 120 ∷ 130 ∷ []) other_client refl (omega arith)
      (omega arith, (omega arith, (omega arith, tt)))

abbrev calls : List Call
calls =
    record { key = 4; max_attempts = 1; window = 60; now = 100 }
    ∷ record { key = 5; max_attempts = 1; window = 60; now = 110 }
    ∷ record { key = 4; max_attempts = 1; window = 60; now = 120 }
    ∷ []

no_counters : (k : ℕ) → find_by (has_key k) [] ≡ none
no_counters k = refl

run_local-run_spec_example : run_local 10 calls [] ≡ run_spec calls (λ k. none)
run_local-run_spec_example = run_local-run_spec 10 calls [] (λ k. none) no_counters (omega arith)
