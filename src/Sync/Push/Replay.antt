-- ===== src/Sync/Push/Replay.antt =====
-- Repeated pushes of one batch: `push_mutations` and `_replay_batch`.
use test_paper_backend.Base.{
  ℕ, ◌≡◌, refl, ◌∙◌, sym, true, false, List, arith, ok, ◌==◌, any_by, ltb, length,
}
use test_paper_backend.Accounts.{User}
use test_paper_backend.Sync.Types.{PushRequest, PushResponse}
use test_paper_backend.Sync.Rows.{Batch, Store, Env}
use test_paper_backend.Sync.Tables.{load_batch, save_batch}
use test_paper_backend.Sync.Push.{
  enforce_batch_limits, push_or_replay, push_mutations, sync_protocol_version, max_push_mutations,
  max_push_mutation_bytes, max_push_batch_bytes,
}
use test_paper_backend.Sync.Push.Answered.{Answered, answered, replayed, replay_again}

-- The request passes every test that stands before the session.
pub record Admitted (env : Env) (device : ℕ) (payload : PushRequest) : Type 0 where
  pub protocol : (payload.protocol_version == sync_protocol_version) ≡ true
  pub own_device : (payload.device_id == device) ≡ true
  pub count : ltb max_push_mutations (length payload.mutations) ≡ false
  pub sizes :
      any_by (λ m. ltb max_push_mutation_bytes (env.mutation_size m)) payload.mutations ≡ false
  pub size : ltb max_push_batch_bytes (env.batch_size payload) ≡ false

module _ (env : Env) (user : User) (device request : ℕ) (payload : PushRequest) (s : Store) where
  pub push_mutations-Admitted :
      {r : PushResponse} {t : Store}
      → push_mutations env user device request payload s ≡ (ok r, t)
      → Admitted env device payload
  unfolding push_mutations enforce_batch_limits
  push_mutations-Admitted {r} {t} h = ground arith

  pub Admitted-push :
      Admitted env device payload
      → push_mutations env user device request payload s
        ≡ push_or_replay env user device request payload
            (load_batch user.id device payload.batch_id s)
            s
  unfolding push_mutations enforce_batch_limits
  Admitted-push a = rw (a.protocol, a.own_device, a.count, a.sizes, a.size)

-- After a push that was answered with `r`, the same push at any later time and on any connection is
-- answered with `r` again, and of the whole store only batch rows may change.
pub push_mutations-idempotent :
    (env : Env) (user : User) (device request : ℕ) (payload : PushRequest) (s : Store)
    (now' request' : ℕ) {r : PushResponse} {t : Store}
    → push_mutations env user device request payload s ≡ (ok r, t)
    → (bs : List Batch) × (push_mutations (record env { now = now' }) user device request' payload t
        ≡ (ok r, record t { batches = bs }))
push_mutations-idempotent env user device request payload s now' request' {r} {t} h =
    let a = push_mutations-Admitted env user device request payload s h in
    let w : Answered env user device payload r t =
      answered env user device payload request _ s refl
        (sym (Admitted-push env user device request payload s a) ∙ h) in
    let env' : Env = record env { now = now' } in
    (
      (save_batch (replayed env' user device payload w.row) t).batches,
      rw
          (
            Admitted-push env' user device request' payload t (record {
              protocol = a.protocol;
              own_device = a.own_device;
              count = a.count;
              sizes = a.sizes;
              size = a.size;
            }),
            w.loaded,
          )
          (unfold push_or_replay save_batch in
            replay_again env' user device payload w.row t r w.hash w.response_kept),
    )
