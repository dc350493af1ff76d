-- ===== src/Sync/Push/Answered.antt =====
-- The row of a batch that was answered, by each way to an answer.
use test_paper_backend.Base.{
  ℕ, ◌+◌, ◌≡◌, refl, ap, ◌∙◌, subst, true, List, [], ◌∷◌, Option, none, some, arith, Result, ok,
  err, continue-ok, session, settle, settle-ok, find_by-update_by, find_by-test, Option-cases,
  Bool-cases, inl, inr, ◌==◌, any_by, ==_iff,
}
use test_paper_backend.Accounts.{User}
use test_paper_backend.Sync.Types.{PushRequest, PushResponse, Failure, OperationResult}
use test_paper_backend.Sync.Rows.{Batch, Store, Env, days}
use test_paper_backend.Sync.Tables.{is_batch, load_batch, insert_batch, save_batch}
use test_paper_backend.Sync.Push.{
  replay_batch, new_batch, response_of, completed_batch, push_batch, lost_race, push_new,
  push_or_replay, push_all, idempotency_retention_days,
}
use test_paper_backend.Sync.Push.Batches.{push_all-Keeps}

-- The row of a batch that was answered.
pub record Answered (env : Env) (user : User) (device : ℕ) (payload : PushRequest)
    (response : PushResponse) (t : Store) : Type 0 where
  pub row : Batch
  pub loaded : load_batch user.id device payload.batch_id t ≡ some row
  pub hash : row.request_hash ≡ env.request_digest payload
  pub response_kept : row.response_payload ≡ some response

module _ (env : Env) (user : User) (device : ℕ) (payload : PushRequest) where
  load_batch-save :
      (old new : Batch) (s : Store)
      → load_batch user.id device payload.batch_id s ≡ some old
      → old.id ≡ new.id
      → is_batch user.id device payload.batch_id new ≡ true
      → load_batch user.id device payload.batch_id (save_batch new s) ≡ some new
  unfolding load_batch save_batch
  load_batch-save old new s h i q =
      find_by-update_by (is_batch user.id device payload.batch_id) (λ (b : Batch). b.id) s.batches
        old new h i q

  -- The row of a replayed batch, with its retention renewed.
  unfoldable pub replayed : Batch → Batch
  replayed batch = record batch {
    last_replayed_at = env.now;
    expires_at = env.now + days idempotency_retention_days;
  }

  pub replay_settles :
      (batch : Batch) (s : Store) (kept : PushResponse) {r : PushResponse} {t : Store}
      → (batch.request_hash == env.request_digest payload) ≡ true
      → batch.response_payload ≡ some kept
      → replay_batch env batch (env.request_digest payload) s ≡ (ok r, t)
      → (kept ≡ r) × (t ≡ save_batch (replayed batch) s)
  unfolding replay_batch replayed
  replay_settles batch s kept {r} {t} same e h = (ground arith, ground arith)

  pub replay_again :
      (batch : Batch) (s : Store) (kept : PushResponse)
      → batch.request_hash ≡ env.request_digest payload
      → batch.response_payload ≡ some kept
      → session (replay_batch env batch (env.request_digest payload)) s
        ≡ (ok kept, save_batch (replayed batch) s)
  unfolding replay_batch replayed
  replay_again batch s kept same e = ground arith

  replay-Answered :
      (batch : Batch) (s : Store) {r : PushResponse} {t : Store}
      → load_batch user.id device payload.batch_id s ≡ some batch
      → replay_batch env batch (env.request_digest payload) s ≡ (ok r, t)
      → Answered env user device payload r t
  unfolding replay_batch replayed
  replay-Answered batch s {r} {t} f h =
      elim (Bool-cases (batch.request_hash == env.request_digest payload)) [
        | inr other ↦ absurd (ground arith)
        | inl same ↦ elim (Option-cases batch.response_payload) [
          | inl open_batch ↦ absurd (ground arith)
          | inr (kept, e) ↦
              let (shown, left) = replay_settles batch s kept same e h in
              record {
                row = replayed batch;
                loaded = rw left (
                    load_batch-save batch (replayed batch) s f refl (
                      find_by-test (is_batch user.id device payload.batch_id) s.batches batch
                        (unfold load_batch in f)));
                hash = (==_iff _ _).0 same;
                response_kept = e ∙ ap some shown;
              }
        ]
      ]

  insert_batch-loaded :
      (request : ℕ) (s s' : Store) (batch : Batch)
      → insert_batch (new_batch env user device request payload) s ≡ (ok batch, s')
      → (load_batch user.id device payload.batch_id s' ≡ some batch)
        × (is_batch user.id device payload.batch_id batch ≡ true)
        × (batch.request_hash ≡ env.request_digest payload)
  unfolding insert_batch new_batch load_batch
  insert_batch-loaded request s s' batch h =
      elim (Bool-cases (any_by (is_batch user.id device payload.batch_id) s.batches)) [
        | inl taken ↦ absurd (ground arith)
        | inr free ↦
            let new : Batch = record (new_batch env user device request payload) {
              id = s.serial;
            } in
            let same : batch ≡ new = ground arith in
            let rows : s'.batches ≡ new ∷ s.batches = ground arith in
            let fits : is_batch user.id device payload.batch_id new ≡ true = ground arith in
            (rw (rows, same, fits), rw same fits, rw same)
      ]

  push_batch_settles :
      (batch : Batch) (u : Store) (results : List OperationResult) {r : PushResponse} {t : Store}
      → ◌≡◌ {A = Result Failure PushResponse × Store}
          (
            ok (response_of payload results),
            save_batch (completed_batch env batch (response_of payload results)) u,
          )
          (ok r, t)
      → (response_of payload results ≡ r)
        × (t ≡ save_batch (completed_batch env batch (response_of payload results)) u)
  push_batch_settles batch u results h = (ground arith, ground arith)

  push_batch-Answered :
      (request : ℕ) (s s' : Store) (batch : Batch) {r : PushResponse} {t : Store}
      → insert_batch (new_batch env user device request payload) s ≡ (ok batch, s')
      → push_batch env user device payload batch s' ≡ (ok r, t)
      → Answered env user device payload r t
  unfolding push_batch completed_batch
  push_batch-Answered request s s' batch {r} {t} i h =
      let (results, u, looped, last) = continue-ok (push_all _ [] 0 payload.mutations s') _ h in
      let (found, fits, digest) = insert_batch-loaded request s s' batch i in
      let same : u.batches ≡ s'.batches =
        subst (λ (v : Store). v.batches ≡ s'.batches) (ap (λ x. x.1) looped)
          (push_all-Keeps _ s'.batches [] 0 payload.mutations s' refl) in
      let (shown, left) = push_batch_settles batch u results last in
      record {
        row = completed_batch env batch (response_of payload results);
        loaded = rw left (
            load_batch-save batch (completed_batch env batch (response_of payload results)) u
              (unfold load_batch in rw same found) refl fits);
        hash = digest;
        response_kept = ap some shown;
      }

  push_new-Answered :
      (request : ℕ) (s : Store) {r : PushResponse} {t : Store}
      → push_new env user device request payload s ≡ (ok r, t)
      → Answered env user device payload r t
  unfolding push_new
  push_new-Answered request s {r} {t} h =
      entered (insert_batch (new_batch env user device request payload) (env.others s)) refl h
    where
      later : Option Batch
      later = load_batch user.id device payload.batch_id (env.others s)

      raced :
          (o : Option Batch)
          → load_batch user.id device payload.batch_id (env.others s) ≡ o
          → session (lost_race env (env.request_digest payload) o) (env.others s) ≡ (ok r, t)
          → Answered env user device payload r t
      raced none f k = absurd (ground arith)
      raced (some batch) f k = replay-Answered batch (env.others s) f (settle-ok (env.others s) _ k)

      entered :
          (x : Result Failure Batch × Store)
          → insert_batch (new_batch env user device request payload) (env.others s) ≡ x
          → elim x.0 [
            | ok batch ↦ settle (env.others s) (push_batch env user device payload batch x.1)
            | err e ↦ session (lost_race env (env.request_digest payload) later) (env.others s)
          ]
            ≡ (ok r, t)
          → Answered env user device payload r t
      entered (ok batch, s') e k =
          push_batch-Answered request (env.others s) s' batch e (settle-ok (env.others s) _ k)
      entered (err f, s') e k = raced later refl k

  pub answered :
      (request : ℕ) (o : Option Batch) (s : Store) {r : PushResponse} {t : Store}
      → load_batch user.id device payload.batch_id s ≡ o
      → push_or_replay env user device request payload o s ≡ (ok r, t)
      → Answered env user device payload r t
  unfolding push_or_replay
  answered request none s f h = push_new-Answered request s h
  answered request (some batch) s f h = replay-Answered batch s f (settle-ok s _ h)
