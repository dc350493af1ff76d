-- ===== src/Sync/Push/Order.antt =====
-- The answers of a batch and the order of its mutations.
use test_paper_backend.Base.{ℕ, suc, ◌≡◌, List, [], ◌∷◌, map, ok, continue-ok, arith}
use test_paper_backend.Sync.Types.{Mutation, OperationResult}
use test_paper_backend.Sync.Rows.{Store}
use test_paper_backend.Sync.Push.{Batching, Results, push_one, push_all}
use test_paper_backend.Sync.Push.Turn.{push_one-operation}

abbrev pub operations : List Mutation → List ℕ
operations = map (λ (m : Mutation). m.operation_id)

abbrev pub answered : List OperationResult → List ℕ
answered = map (λ (r : OperationResult). r.operation_id)

-- A batch that returns answers each of its mutations once, in their order.
pub push_all-answers :
    (b : Batching) (done : Results) (n : ℕ) (ms : List Mutation) (s : Store)
    {rs : List OperationResult} {t : Store}
    → push_all b done n ms s ≡ (ok rs, t)
    → answered rs ≡ operations ms
unfolding push_all
push_all-answers b done n [] s {rs} {t} h = ground arith
push_all-answers b done n (m ∷ ms) s {rs} {t} h =
    let (r, s', first, rest) = continue-ok (push_one b done n m s) _ h in
    let (rs', s'', more, last) =
      continue-ok (push_all b ((m.operation_id, r) ∷ done) (suc n) ms s') _ rest in
    ground (
      arith,
      push_one-operation b n m done s first,
      push_all-answers b ((m.operation_id, r) ∷ done) (suc n) ms s' more,
    )
