-- ===== src/Sync/Push/Tests.antt =====
-- Runs of the push service, and the theorems about it at concrete requests.
use test_paper_backend.Base.{◌≡◌, refl, List, [], ◌∷◌, ok, err, length}
use test_paper_backend.Sync.Types.{integrity, PushResponse}
use test_paper_backend.Sync.Rows.{Batch, Store}
use test_paper_backend.Sync.Apply.{apply_mutation, applied_result}
use test_paper_backend.Sync.Apply.Outcomes.{Outcome, apply_mutation-Outcome}
use test_paper_backend.Sync.Push.{Batching, push_mutations, response_of}
use test_paper_backend.Sync.Push.Turn.{Turns, push_all-Turns}
use test_paper_backend.Sync.Tables.{insert_batch}
use test_paper_backend.Sync.Push.{push_all, new_batch}
use test_paper_backend.Sync.Types.{Mutation}
use test_paper_backend.Sync.Push.Order.{answered, push_all-answers}
use test_paper_backend.Sync.Push.Replay.{push_mutations-idempotent}
use test_paper_backend.Sync.Push.StaleCreate.{push_mutations-stale_create}
use test_paper_backend.Sync.Samples.{env_at, ada, empty, creates, updates, batch_of, push_steps}

-- Question 33 is created with content 50.
abbrev one : Store
unfolding push_steps
one = (push_mutations (env_at 10) ada 5 1 (batch_of 1 (creates 101 50)) empty).1

-- It is updated to content 60.
abbrev two : Store
unfolding push_steps
two = (push_mutations (env_at 20) ada 5 1 (batch_of 2 (updates 102 1 50 60)) one).1

created : length one.changes ≡ 1
unfolding push_steps
created = refl

updated : length two.changes ≡ 2
unfolding push_steps
updated = refl

-- A create of the updated question raises instead of recording a conflict.
faults : (push_mutations (env_at 30) ada 5 1 (batch_of 3 (creates 103 70)) two).0 ≡ err integrity
unfolding push_steps
faults = refl

apply_mutation-Outcome_example :
    Outcome
      (env_at 20)
      ada
      5
      (updates 102 1 50 60)
      one
      (applied_result (updates 102 1 50 60) 2 60)
      (apply_mutation (env_at 20) ada 5 (updates 102 1 50 60) one).1
unfolding push_steps applied_result
apply_mutation-Outcome_example =
    apply_mutation-Outcome (env_at 20) ada 5 (updates 102 1 50 60) one refl

abbrev turn : Batching
turn = record { env = env_at 20; user = ada; device = 5; batch = 90 }

-- A create and an update that depends on it, in one batch.
abbrev pair : List Mutation
pair = creates 101 50 ∷ record (updates 102 1 50 60) { depends_on = 101 ∷ [] } ∷ []

abbrev pair_done : Store
unfolding push_steps
pair_done = (push_all turn [] 0 pair empty).1

push_all-Turns_example :
    Turns turn [] 0 pair empty
      (applied_result (creates 101 50) 1 50 ∷ applied_result (updates 102 1 50 60) 2 60 ∷ [])
      pair_done
unfolding push_steps applied_result
push_all-Turns_example = push_all-Turns turn pair empty refl

push_all-answers_example : answered (applied_result (updates 102 1 50 60) 2 60 ∷ []) ≡ 102 ∷ []
unfolding push_steps applied_result
push_all-answers_example = push_all-answers turn [] 0 (updates 102 1 50 60 ∷ []) one refl

abbrev first_answer : PushResponse
first_answer = response_of (batch_of 1 (creates 101 50)) (applied_result (creates 101 50) 1 50 ∷ [])

push_mutations-idempotent_example :
    (bs : List Batch) × (push_mutations (env_at 40) ada 5 2 (batch_of 1 (creates 101 50)) one
      ≡ (ok first_answer, record one { batches = bs }))
unfolding push_steps applied_result
push_mutations-idempotent_example =
    push_mutations-idempotent (env_at 10) ada 5 1 (batch_of 1 (creates 101 50)) empty 40 2 refl

-- The store with the row of the batch.
abbrev begun : Store
unfolding push_steps
begun = (insert_batch (new_batch (env_at 30) ada 5 1 (batch_of 3 (creates 103 70))) two).1

abbrev begun_batch : Batch
unfolding push_steps
begun_batch = record (new_batch (env_at 30) ada 5 1 (batch_of 3 (creates 103 70))) {
  id = two.serial;
}

push_mutations-stale_create_example :
    push_mutations (env_at 30) ada 5 1 (batch_of 3 (creates 103 70)) two ≡ (err integrity, two)
unfolding push_steps
push_mutations-stale_create_example =
    push_mutations-stale_create (env_at 30) ada 5 1 (batch_of 3 (creates 103 70)) begun_batch []
      (creates 103 70) [] two begun begun
      (record { protocol = refl; own = refl; within = refl; first = refl }) refl refl refl
      (record {
        may = refl;
        unused = refl;
        known_schema = refl;
        creates = refl;
        baseless = refl;
        alone = refl;
        present = refl;
        differs = refl;
        newest = refl;
        moved_on = refl;
      })
