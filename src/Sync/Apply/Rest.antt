-- ===== src/Sync/Apply/Rest.antt =====
-- `_apply_mutation` and the tables of batches, results, streams and device cursors.
use test_paper_backend.Base.{ℕ, suc, ◌∷◌, Option, none, some, arith}
use test_paper_backend.Accounts.{User}
use test_paper_backend.Sync.Types.{Mutation, schema_version}
use test_paper_backend.Sync.Rows.{Entity, Store, Env}
use test_paper_backend.Sync.Tables.{find_entity, save_entity}
use test_paper_backend.Sync.Conflicts.{desired_payload}
use test_paper_backend.Sync.Frame.{SameRest, record_version-SameRest, create_conflict-SameRest}
use test_paper_backend.Sync.Apply.{
  new_entity, changed_entity, apply_create, apply_change, apply_schema, apply_mutation,
}

module _ (env : Env) (user : User) (device : ℕ) (m : Mutation) (s : Store) where
  create-SameRest :
      (schema : ℕ) (o : Option Entity) → SameRest s (apply_create env user device m schema o s).1
  unfolding apply_create
  create-SameRest schema none =
      let e : Entity = record (new_entity env user m schema) { id = s.serial } in
      ground (
        arith,
        record_version-SameRest env user device m e
            (record s { serial = suc s.serial; entities = e ∷ s.entities }),
      )
  create-SameRest schema (some e) = ground (arith, create_conflict-SameRest env user device m e s)

  change-SameRest :
      (schema : ℕ) (o : Option Entity) → SameRest s (apply_change env user device m schema o s).1
  unfolding apply_change
  change-SameRest schema none = ground arith
  change-SameRest schema (some e) = ground (
    arith,
    create_conflict-SameRest env user device m e s,
    record_version-SameRest env user device m (changed_entity env m schema e)
        (save_entity (changed_entity env m schema e) s),
  )

  schema-SameRest : (o : Option ℕ) → SameRest s (apply_schema env user device m o s).1
  unfolding apply_schema
  schema-SameRest none = ground arith
  schema-SameRest (some v) =
      let found : Option Entity = find_entity user.id m.entity_type m.entity_id s in
      ground (arith, create-SameRest v found, change-SameRest v found)

  pub apply_mutation-SameRest : SameRest s (apply_mutation env user device m s).1
  unfolding apply_mutation
  apply_mutation-SameRest = ground (arith, schema-SameRest (schema_version (desired_payload m)))
