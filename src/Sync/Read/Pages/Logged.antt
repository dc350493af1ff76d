-- ===== src/Sync/Read/Pages/Logged.antt =====
-- What the query of `pull_changes` finds in a log in order, row by row.
use test_paper_backend.Base.{
  ℕ, ◌≡◌, refl, ◌∙◌, ◌&&◌, List, [], ◌∷◌, Option, none, some, arith, ◌==◌, ltb, if◌then◌else◌,
  filter_by, find_by, Ascending,
}
use test_paper_backend.Sync.Types.{personal}
use test_paper_backend.Sync.Rows.{Change, EntityVersion, Store}
use test_paper_backend.Sync.Compaction.{in_scope}
use test_paper_backend.Sync.Read.{SyncChange, shown_change, with_version, joined, changes_after}
use test_paper_backend.Sync.Read.Pages.Rows.{changes_after-joined}

-- A change of the log as an account sees it, with the payload of its version; none without a version.
abbrev pub seen_as : Change → Option EntityVersion → List SyncChange → List SyncChange
seen_as c none rest = rest
seen_as c (some v) rest =
    record {
      sequence = c.sequence;
      entity_type = c.entity_type;
      entity_id = c.public_id;
      kind = c.mutation_kind;
      version = c.version;
      content_hash = c.content_hash;
      updated_at = c.created_at;
      snapshot = v.payload;
    }
    ∷ rest

-- The personal changes of an account after a sequence, in the order of the log.
abbrev pub logged_after : ℕ → ℕ → List EntityVersion → List Change → List SyncChange
logged_after owner q versions [] = []
logged_after owner q versions (c ∷ cs) =
    let rest = logged_after owner q versions cs in
    if c.owner_id == owner && c.scope == personal && ltb q c.sequence
    then seen_as c (find_by (λ (v : EntityVersion). v.id == c.entity_version_id) versions) rest
    else rest

joined-logged_after :
    (owner q : ℕ) (versions : List EntityVersion) (cs : List Change)
    → joined versions (filter_by (λ c. in_scope owner personal c && ltb q c.sequence) cs)
      ≡ logged_after owner q versions cs
unfolding joined with_version shown_change
joined-logged_after owner q versions [] = refl
joined-logged_after owner q versions (c ∷ cs) =
    ground (arith, joined-logged_after owner q versions cs)

pub changes_after-logged_after :
    (owner q : ℕ) (s : Store)
    → Ascending (λ (c : Change). c.sequence) s.changes
    → changes_after owner q s ≡ logged_after owner q s.versions s.changes
changes_after-logged_after owner q s o =
    changes_after-joined owner q s o ∙ joined-logged_after owner q s.versions s.changes
