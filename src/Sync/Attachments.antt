-- ===== src/Sync/Attachments.antt =====
-- `apply_attachment_reference_lifecycle` of testpaper_backend/services/attachment_maintenance.py:
-- a deleted attachment is kept for a while, a restored one comes back.
use test_paper_backend.Base.{
  ℕ, ◌+◌, Bool, true, false, ◌&&◌, Option, none, some, ◌==◌, if◌then◌else◌, find_by, update_by,
}
use test_paper_backend.Sync.Types.{EntityType, attachment, MutationKind, delete, restore}
use test_paper_backend.Sync.Rows.{Entity, Reference, Store, days}

abbrev pub attachment_retention_days : ℕ
attachment_retention_days = 30

unfoldable pub find_reference : Entity → Store → Option Reference
find_reference e s =
    find_by (λ (r : Reference). r.owner_id == e.owner_id && r.attachment_entity_id == e.id)
      s.references

-- The branches on the reference that was found.
unfoldable pub moved_reference : MutationKind → ℕ → Reference → Reference
moved_reference delete at r = if r.tombstone then r else record r {
  tombstone = true;
  deleted_at = some at;
  retention_until = some (at + days attachment_retention_days);
  updated_at = at;
}
moved_reference restore at r =
    if r.tombstone
    then record r { tombstone = false; deleted_at = none; retention_until = none; updated_at = at }
    else r
moved_reference _ at r = r

unfoldable pub is_attachment : EntityType → Bool
is_attachment attachment = true
is_attachment _ = false

unfoldable pub reference_lifecycle : Entity → MutationKind → ℕ → Store → Store
unfolding is_attachment find_reference
reference_lifecycle e kind at s =
    if is_attachment e.entity_type
    then elim (find_reference e s) [
      | none ↦ s
      | some r ↦ record s {
        references =
            update_by (λ (q : Reference). q.id == r.id) (λ _. moved_reference kind at r)
              s.references;
      }
    ]
    else s
