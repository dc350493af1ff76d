-- ===== src/Sync/Compaction/Outcome.antt =====
-- What a run of `compact_sync_stream` returns and leaves.
use test_paper_backend.Base.{
  ℕ, ◌-◌, ◌≤◌, ◌<◌, ◌≡◌, ◌⊎◌, refl, Bool, true, false, not, List, Option, none, some, arith, ◌==◌,
  sym, ap, ◌∙◌, err, ltb, leb, Bool-cases, inl, inr, filter_by, Result, ok,
}
use test_paper_backend.Sync.Types.{Failure, runtime_error}
use test_paper_backend.Sync.Rows.{Change, Stream, Store, Env, days}
use test_paper_backend.Sync.Compaction.{
  in_scope, compacted, deletable_count, find_stream, moved_stream, save_stream, compaction_boundary,
  CompactionResult, idle_result, planned_result, apply_compaction, compact_stream, compact_found,
  compact_sync_stream,
}
use test_paper_backend.Sync.Compaction.Kept.{
  newest_changes, compacted-after, compacted-newest, compacted-others,
}

-- The store after a compaction that was applied to a stream, over what the other sessions committed.
abbrev pub moved : Env → ℕ → ℕ → ℕ → Stream → Store → Store
moved env owner scope boundary st now =
    let u : Store = save_stream (moved_stream env now.serial boundary st) now in
    record u { changes = compacted owner scope boundary u.changes }

-- The log that a run works on: an applied one deletes from what is committed by then.
abbrev pub log_of : Env → Bool → Store → List Change
log_of env false s = s.changes
log_of env true s = (env.others s).changes

-- A run reports horizons that do not move back; a dry one, or one that finds nothing to do, leaves the store
-- as it was, and an applied one moved the horizon forward.
abbrev pub Moves : Store → CompactionResult → Store → Type 0
Moves s r t =
    (r.previous_retained_from_sequence ≤ r.new_retained_from_sequence)
    × (((r.applied ≡ false) × (t ≡ s))
        ⊎ ((r.applied ≡ true) × (r.previous_retained_from_sequence < r.new_retained_from_sequence)))

-- The rows that can be deleted up to a boundary are not as many as when they were counted.
abbrev pub CountChanged : Env → ℕ → ℕ → ℕ → Store → Type 0
CountChanged env owner scope boundary s =
    (deletable_count owner scope boundary (env.others s).changes
      == deletable_count owner scope boundary s.changes)
    ≡ false

abbrev pub Compacts :
    Env → ℕ → ℕ → Bool → ℕ → Store → Result Failure CompactionResult × Store → Type 0
Compacts env owner scope apply boundary s x =
    ((r : CompactionResult) × (t : Store) × (x ≡ (ok r, t))
      × Moves s r t
      × (((r.applied ≡ false) × (t ≡ s))
          ⊎ (t.changes
              ≡ compacted owner scope r.new_retained_from_sequence (log_of env r.applied s))))
    ⊎ ((apply ≡ true) × (x.0 ≡ err runtime_error) × CountChanged env owner scope boundary s)

compact_stream-Compacts :
    (env : Env) (owner scope cutoff : ℕ) (apply : Bool) (boundary : ℕ) (st : Stream) (s : Store)
    → st.retained_from_sequence < boundary
    → Compacts env owner scope apply boundary s
        (compact_stream env owner scope cutoff apply boundary st s)
unfolding compact_stream planned_result save_stream apply_compaction
compact_stream-Compacts env owner scope cutoff false boundary st s h = inl (
  planned_result owner scope cutoff false boundary st s,
  s,
  refl,
  (ground arith, inl (refl, refl)),
  inl (refl, refl),
)
compact_stream-Compacts env owner scope cutoff true boundary st s h =
    elim (Bool-cases (
      deletable_count owner scope boundary (env.others s).changes
      == deletable_count owner scope boundary s.changes)) [
        | inl same ↦ rw same (
            inl (
              planned_result owner scope cutoff true boundary st s,
              moved env owner scope boundary st (env.others s),
              refl,
              (ground arith, inr (refl, ground arith)),
              inr refl,
            ))
        | inr changed ↦ inr (refl, ground (arith, changed), changed)
      ]

compact_found-Compacts :
    (env : Env) (owner scope cutoff : ℕ) (apply : Bool) (found : Option Stream) (s : Store)
    → Compacts env owner scope apply
        (compaction_boundary owner scope cutoff s.changes)
        s
        (compact_found env owner scope cutoff apply found s)
unfolding compact_found idle_result
compact_found-Compacts env owner scope cutoff apply none s = inl (
  idle_result owner scope cutoff 0 0,
  s,
  refl,
  (ground arith, inl (refl, refl)),
  inl (refl, refl),
)
compact_found-Compacts env owner scope cutoff apply (some st) s =
    let boundary : ℕ = compaction_boundary owner scope cutoff s.changes in
    elim (Bool-cases (leb boundary st.retained_from_sequence)) [
      | inl e ↦ rw e (
          inl (
            idle_result owner scope cutoff st.retained_from_sequence st.snapshot_version,
            s,
            refl,
            (ground arith, inl (refl, refl)),
            inl (refl, refl),
          ))
      | inr e ↦
          rw e (compact_stream-Compacts env owner scope cutoff apply boundary st s (ground arith))
    ]

-- What a reader at or past `q`, and every reader of another stream, finds is the same in both logs.
abbrev pub SameView : ℕ → ℕ → ℕ → List Change → List Change → Type 0
SameView owner scope q new old =
    (filter_by (λ (c : Change). ltb q c.sequence) new
      ≡ filter_by (λ (c : Change). ltb q c.sequence) old)
    × (newest_changes owner scope q new ≡ newest_changes owner scope q old)
    × (filter_by (λ (c : Change). not (in_scope owner scope c)) new
        ≡ filter_by (λ (c : Change). not (in_scope owner scope c)) old)

compacted-SameView :
    (owner scope boundary q : ℕ) (new old : List Change)
    → boundary ≤ q
    → new ≡ compacted owner scope boundary old
    → SameView owner scope q new old
compacted-SameView owner scope boundary q new old h e = rw e (
  compacted-after owner scope boundary old q h,
  compacted-newest owner scope boundary old q h,
  compacted-others owner scope boundary old,
)

Compacts-SameView :
    (env : Env) (owner scope q : ℕ) (apply : Bool) (boundary : ℕ) (s t : Store)
    (r : CompactionResult) (x : Result Failure CompactionResult × Store)
    → Compacts env owner scope apply boundary s x
    → x ≡ (ok r, t)
    → r.new_retained_from_sequence ≤ q
    → SameView owner scope q t.changes (log_of env r.applied s)
Compacts-SameView env owner scope q apply boundary s t r x (inr (_, failed, _)) e h =
    absurd (ground arith)
Compacts-SameView env owner scope q apply boundary s t r x (inl (r', t', e', _, inl (dry, stays))) e
      h =
    let was : r.applied ≡ false = ground arith in
    let still : t ≡ s = ground arith in rw (was, still) (refl, refl, refl)
Compacts-SameView env owner scope q apply boundary s t r x (inl (r', t', e', _, inr view)) e h =
    let one : r' ≡ r = ground arith in
    let same : t' ≡ t = ground arith in
    compacted-SameView owner scope r.new_retained_from_sequence q t.changes (log_of env r.applied s)
      h
      (ap (λ (u : Store). u.changes) (sym same)
        ∙ view
        ∙ ap
            (λ (y : CompactionResult).
              compacted owner scope y.new_retained_from_sequence (log_of env y.applied s))
            one)

-- If a compaction of a stream returns with a new horizon, then no reader at or past the horizon
-- sees a difference: the changes after any such sequence are the same, in the same order; so is the
-- newest change of each entity up to any such sequence; and the changes of every other owner or
-- scope stay. The log that it is compared with is the one that the run found, with what the other
-- sessions committed before the deletion of an applied run.
pub compact_sync_stream-view :
    (env : Env) (owner scope retention : ℕ) (apply : Bool) (s t : Store) (r : CompactionResult)
    (q : ℕ)
    → compact_sync_stream env owner scope retention apply s ≡ (ok r, t)
    → r.new_retained_from_sequence ≤ q
    → SameView owner scope q t.changes (log_of env r.applied s)
unfolding compact_sync_stream
compact_sync_stream-view env owner scope retention apply s t r q e h =
    let cutoff : ℕ = env.now - days retention in
    let found : Option Stream = find_stream owner scope s in
    Compacts-SameView env owner scope q apply (compaction_boundary owner scope cutoff s.changes) s t
      r (compact_found env owner scope cutoff apply found s)
      (compact_found-Compacts env owner scope cutoff apply found s) (ground arith) h
