-- ===== src/Sync/Push/StaleCreate.antt =====
-- A create of an entity whose newest version is no create: `create_conflict` under the handler of
-- `IntegrityError` in `push_mutations`.
use test_paper_backend.Base.{
  ℕ, suc, ◌≡◌, ap, ◌∙◌, true, false, List, [], ◌∷◌, ◌++◌, none, some, arith, ok, err, continue-ok,
  ◌==◌,
}
use test_paper_backend.Accounts.{User}
use test_paper_backend.Sync.Types.{
  Mutation, PushRequest, OperationResult, integrity, same_kind, create, schema_version,
}
use test_paper_backend.Sync.Rows.{Entity, EntityVersion, Batch, Store, Env}
use test_paper_backend.Sync.Tables.{
  find_entity, find_result, latest_version, load_batch, insert_batch,
}
use test_paper_backend.Sync.Conflicts.{desired_payload, create_conflict}
use test_paper_backend.Sync.Apply.{can_mutate, apply_create, apply_schema, apply_mutation}
use test_paper_backend.Sync.Push.{
  Batching, Results, decide, attempt, recover_unused, recover, push_one, push_all, push_batch,
  push_mutations, push_or_replay, push_new, new_batch, enforce_batch_limits,
}

-- A create by an account that may write, of an entity that is there with other content and whose
-- newest version is no create. A create names no base version.
pub record IsStaleCreate (env : Env) (user : User) (m : Mutation) (e : Entity) (v : EntityVersion)
    (s : Store) : Type 0 where
  pub may : can_mutate user m.entity_type ≡ true
  pub unused : find_result user.id m.operation_id s ≡ none
  pub known_schema : schema_version (desired_payload m) ≡ some 1
  pub creates : same_kind m.kind create ≡ true
  pub baseless : m.base_version ≡ none
  pub alone : m.depends_on ≡ []
  pub present : find_entity user.id m.entity_type m.entity_id s ≡ some e
  pub differs : (env.digest (desired_payload m) == e.content_hash) ≡ false
  pub newest : latest_version e.id e.owner_id s ≡ some v
  pub moved_on : same_kind v.mutation_kind create ≡ false

module _ (env : Env) (user : User) (device : ℕ) (m : Mutation) (e : Entity) (v : EntityVersion)
    (s : Store) (stale : IsStaleCreate env user m e v s) where
  refused_conflict : create_conflict env user device m e s ≡ (err integrity, s)
  unfolding create_conflict
  refused_conflict =
      ground (arith, stale.creates, stale.baseless, stale.differs, stale.newest, stale.moved_on)

  refused_apply : apply_mutation env user device m s ≡ (err integrity, s)
  unfolding apply_mutation apply_schema apply_create
  refused_apply = ground (
    arith, refused_conflict, stale.may, stale.unused, stale.known_schema, stale.creates,
    stale.present, stale.differs,
  )

module _ (b : Batching) (m : Mutation) (e : Entity) (v : EntityVersion) (s : Store)
    (stale : IsStaleCreate b.env b.user m e v s) where
  refused_turn : (done : Results) (n : ℕ) → push_one b done n m s ≡ (err integrity, s)
  unfolding push_one attempt decide recover recover_unused
  refused_turn done n = ground (
    arith,
    refused_apply b.env b.user b.device m e v s stale,
    refused_conflict b.env b.user b.device m e v s stale,
    stale.alone,
    stale.unused,
    stale.present,
    stale.creates,
  )

module _ (b : Batching) (m : Mutation) (rest : List Mutation) where
  -- After the mutations before it.
  refused_loop :
      (done : Results) (n : ℕ) (ms : List Mutation) (s u : Store) {rs : List OperationResult}
      {e : Entity} {v : EntityVersion}
      → push_all b done n ms s ≡ (ok rs, u)
      → IsStaleCreate b.env b.user m e v u
      → (push_all b done n (ms ++ m ∷ rest) s).0 ≡ err integrity
  unfolding push_all
  refused_loop done n [] s u {rs} {e} {v} h stale =
      let same : s ≡ u = ground arith in rw same (rw (refused_turn b m e v u stale done n))
  refused_loop done n (x ∷ ms) s u {rs} {e} {v} h stale =
      let (r, s', first, after) = continue-ok (push_one b done n x s) _ h in
      let (rs', u', more, last) =
        continue-ok (push_all b ((x.operation_id, r) ∷ done) (suc n) ms s') _ after in
      let same : u' ≡ u = ground arith in
      let lost =
        refused_loop ((x.operation_id, r) ∷ done) (suc n) ms s' u
          (more ∙ ap (λ w. (ok rs', w)) same) stale in
      rw first (ground (arith, lost))

refused_batch :
    (env : Env) (user : User) (device : ℕ) (payload : PushRequest) (batch : Batch)
    (ms : List Mutation) (m : Mutation) (rest : List Mutation) (s u : Store)
    {rs : List OperationResult} {e : Entity} {v : EntityVersion}
    → payload.mutations ≡ ms ++ m ∷ rest
    → push_all (record { env = env; user = user; device = device; batch = batch.id }) [] 0 ms s
      ≡ (ok rs, u)
    → IsStaleCreate env user m e v u
    → (push_batch env user device payload batch s).0 ≡ err integrity
unfolding push_batch
refused_batch env user device payload batch ms m rest s u split before stale = rw split (
    ground (
      arith,
      refused_loop (record { env = env; user = user; device = device; batch = batch.id }) m rest []
          0 ms s u before stale,
    ))

-- A request of the device itself, in the protocol, within the limits, whose batch has no row yet.
pub record IsNew (env : Env) (user : User) (device : ℕ) (payload : PushRequest) (s : Store)
    : Type 0 where
  pub protocol : payload.protocol_version ≡ 1
  pub own : payload.device_id ≡ device
  pub within : enforce_batch_limits env payload s ≡ (ok tt, s)
  pub first : load_batch user.id device payload.batch_id s ≡ none

-- A first push of a device's batch, in the protocol and within the limits, is lost as a whole where one of
-- its mutations is a create, with a schema version that the server knows, without a base version and
-- without dependencies, of an operation id that is not used yet, by an account that may write the kind,
-- of an entity that is there with other content and whose newest version is no create, and where the row
-- of the batch goes in and the mutations before it go through. The request ends with an `IntegrityError`
-- instead of a conflict, and the store is the one that the other sessions left: neither the batch nor
-- any of its mutations has a row.
pub push_mutations-stale_create :
    (env : Env) (user : User) (device request : ℕ) (payload : PushRequest) (batch : Batch)
    (ms : List Mutation) (m : Mutation) (rest : List Mutation) (s s' u : Store)
    {rs : List OperationResult} {e : Entity} {v : EntityVersion}
    → IsNew env user device payload s
    → insert_batch (new_batch env user device request payload) (env.others s) ≡ (ok batch, s')
    → payload.mutations ≡ ms ++ m ∷ rest
    → push_all (record { env = env; user = user; device = device; batch = batch.id }) [] 0 ms s'
      ≡ (ok rs, u)
    → IsStaleCreate env user m e v u
    → push_mutations env user device request payload s ≡ (err integrity, env.others s)
unfolding push_mutations push_or_replay push_new
push_mutations-stale_create env user device request payload batch ms m rest s s' u {rs} {e} {v} new
      inserted split before stale =
    let lost = refused_batch env user device payload batch ms m rest s' u split before stale in
    ground (arith, new.protocol, new.own, new.within, new.first, inserted, lost)
