-- ===== src/Sync/Read.antt =====
-- Streams, device cursors, pulls and acknowledgements of testpaper_backend/services/sync_read.py.
pub mod Devices
pub mod Pages
pub mod Ack
mod Tests
use test_paper_backend.Base.{
  ℕ, suc, ◌+◌, Bool, true, false, ◌&&◌, ◌||◌, not, List, [], ◌∷◌, Option, none, some, ◌==◌, ltb,
  leb, max, min, if◌then◌else◌, length, take, last?, find_by, filter_by, update_by, map, order_by,
  is_some, raise_if, ok, err, Result, pure, gets, modify, session, ◌>>=◌, ◌>>◌,
}
use test_paper_backend.Accounts.{User}
use test_paper_backend.Sync.Types.{
  personal, sync_protocol_version, EntityType, MutationKind, Payload, Failure, api, cursor_expired,
  entity_forbidden, protocol_unsupported,
}
use test_paper_backend.Sync.Rows.{Change, EntityVersion, Stream, DeviceCursor, Store, Env, days}
use test_paper_backend.Sync.Tables.{Sync}
use test_paper_backend.Sync.Compaction.{find_stream, is_stream, in_scope}
use test_paper_backend.Sync.Cursors.{Text, Codec, change_cursor, validate_change_cursor}

abbrev pub max_pull_page_size : ℕ
max_pull_page_size = 500

abbrev pub device_cursor_ttl_days : ℕ
device_cursor_ttl_days = 90

-- The row that `_stream` adds for an account that has none.
unfoldable pub new_stream : Env → ℕ → ℕ → Stream
new_stream env owner key = record {
  owner_id = owner;
  scope = personal;
  epoch = env.uuid key;
  retained_from_sequence = 0;
  snapshot_version = 0;
  compacted_at = none;
  created_at = env.now;
  updated_at = env.now;
}

unfoldable pub stream_or_new : Env → ℕ → Option Stream → Sync Stream
stream_or_new env owner (some st) s = (ok st, s)
stream_or_new env owner none s =
    let st : Stream = new_stream env owner s.serial in
    (ok st, record s { serial = suc s.serial; streams = st ∷ s.streams })

-- `_stream`
unfoldable pub the_stream : Env → ℕ → Sync Stream
the_stream env owner s = stream_or_new env owner (find_stream owner personal s) s

abbrev pub is_device : ℕ → ℕ → DeviceCursor → Bool
is_device owner device d = d.owner_id == owner && d.device_id == device && d.scope == personal

unfoldable pub find_device : ℕ → ℕ → Store → Option DeviceCursor
find_device owner device s = find_by (is_device owner device) s.devices

unfoldable pub save_device : ℕ → ℕ → DeviceCursor → Store → Store
save_device owner device d s = record s {
  devices = update_by (is_device owner device) (λ _. d) s.devices;
}

unfoldable pub new_device : Env → ℕ → ℕ → Stream → DeviceCursor
new_device env owner device stream = record {
  owner_id = owner;
  device_id = device;
  scope = personal;
  stream_epoch = stream.epoch;
  cursor_sequence = 0;
  protocol_version = sync_protocol_version;
  last_ack_at = none;
  last_seen_at = env.now;
  expires_at = env.now + days device_cursor_ttl_days;
  revoked_at = none;
  created_at = env.now;
  updated_at = env.now;
}

unfoldable pub is_expired : Env → Stream → DeviceCursor → Bool
is_expired env stream d = leb d.expires_at env.now || not (d.stream_epoch == stream.epoch)

unfoldable pub seen_device : Env → Stream → DeviceCursor → DeviceCursor
seen_device env stream d = record d {
  stream_epoch = (if is_expired env stream d then stream.epoch else d.stream_epoch);
  last_seen_at = env.now;
  expires_at = env.now + days device_cursor_ttl_days;
  updated_at = env.now;
}

unfoldable pub device_or_new : Env → ℕ → ℕ → Stream → Bool → Option DeviceCursor → Sync DeviceCursor
device_or_new env owner device stream allow_recovery none s =
    let d : DeviceCursor = new_device env owner device stream in
    (ok d, record s { devices = d ∷ s.devices })
device_or_new env owner device stream allow_recovery (some d) s =
    (do
      raise_if (is_some d.revoked_at) (api 403 entity_forbidden)
      raise_if (is_expired env stream d && not allow_recovery) (api 410 cursor_expired)
      modify (save_device owner device (seen_device env stream d))
      pure (seen_device env stream d))
      s

-- `_device_cursor`
unfoldable pub device_cursor : Env → ℕ → ℕ → Stream → Bool → Sync DeviceCursor
device_cursor env owner device stream allow_recovery s =
    device_or_new env owner device stream allow_recovery (find_device owner device s) s

-- A row of the query: a change and the payload of its version. As a `SyncChange` it shows the same
-- columns.
pub record SyncChange : Type 0 where
  pub sequence : ℕ
  pub entity_type : EntityType
  pub entity_id : ℕ
  pub kind : MutationKind
  pub version : ℕ
  pub content_hash : ℕ
  pub updated_at : ℕ
  pub snapshot : Payload

-- `_change`
unfoldable pub shown_change : Change → EntityVersion → SyncChange
shown_change c v = record {
  sequence = c.sequence;
  entity_type = c.entity_type;
  entity_id = c.public_id;
  kind = c.mutation_kind;
  version = c.version;
  content_hash = c.content_hash;
  updated_at = c.created_at;
  snapshot = v.payload;
}

unfoldable pub with_version : Change → Option EntityVersion → List SyncChange → List SyncChange
with_version c none rest = rest
with_version c (some v) rest = shown_change c v ∷ rest

-- The `JOIN` with the versions, whose keys are unique.
unfoldable pub joined : List EntityVersion → List Change → List SyncChange
joined versions [] = []
joined versions (c ∷ cs) =
    with_version c (find_by (λ (v : EntityVersion). v.id == c.entity_version_id) versions)
      (joined versions cs)

-- The query of a pull, without its limit.
unfoldable pub changes_after : ℕ → ℕ → Store → List SyncChange
changes_after owner q s =
    order_by (λ (c : SyncChange). c.sequence)
      (joined s.versions
        (filter_by (λ (c : Change). in_scope owner personal c && ltb q c.sequence) s.changes))

-- `page[-1].sequence if page else sequence`
unfoldable pub next_sequence : ℕ → List SyncChange → ℕ
next_sequence q page = elim (last? page) [ none ↦ q | some c ↦ c.sequence ]

pub record PullResponse : Type 0 where
  pub protocol_version : ℕ
  pub changes : List SyncChange
  pub next_cursor : Text
  pub has_more : Bool

-- `min(max(page_size, 1), MAX_PULL_PAGE_SIZE)`; a size below zero counts as zero.
abbrev pub page_limit : ℕ → ℕ
page_limit n = min (max n 1) max_pull_page_size

-- The answer of a pull from a sequence. The database cuts the rows off at one more than the page.
unfoldable pub pull_page : Codec → ℕ → ℕ → Stream → ℕ → ℕ → Store → PullResponse
pull_page codec owner device stream size q s =
    let rows : List SyncChange = take (suc size) (changes_after owner q s) in
    let page : List SyncChange = take size rows in
    record {
      protocol_version = sync_protocol_version;
      changes = page;
      next_cursor = change_cursor codec owner device stream (next_sequence q page);
      has_more = ltb size (length rows);
    }

-- `_validate_change_cursor(...) if cursor is not None else device.cursor_sequence`
unfoldable pub start_sequence :
    Codec → Option Text → ℕ → ℕ → Stream → DeviceCursor → Result Failure ℕ
start_sequence codec none owner device stream d = ok d.cursor_sequence
start_sequence codec (some c) owner device stream d =
    validate_change_cursor codec c owner device stream

-- The part of `pull_changes` after its stream and device.
unfoldable pub pull_at : Codec → ℕ → ℕ → Stream → ℕ → Result Failure ℕ → Sync PullResponse
pull_at codec owner device stream size (err e) s = (err e, s)
pull_at codec owner device stream size (ok q) s =
    if ltb q stream.retained_from_sequence
    then (err (api 410 cursor_expired), s)
    else (ok (pull_page codec owner device stream size q s), s)

unfoldable pub pull_changes : Env → Codec → User → ℕ → Option Text → ℕ → Sync PullResponse
pull_changes env codec user device cursor page_size = session (do
  stream ← the_stream env user.id
  d ← device_cursor env user.id device stream false
  pull_at codec user.id device stream (page_limit page_size)
      (start_sequence codec cursor user.id device stream d))

pub record AckRequest : Type 0 where
  pub protocol_version : ℕ
  pub device_id : ℕ
  pub cursor : Text

pub record AckResponse : Type 0 where
  pub protocol_version : ℕ
  pub device_id : ℕ
  pub cursor : Text
  pub advanced : Bool

unfoldable pub acked_device : Env → ℕ → DeviceCursor → DeviceCursor
acked_device env q d =
    if ltb d.cursor_sequence q
    then record d { cursor_sequence = q; last_ack_at = some env.now; updated_at = env.now }
    else d

-- The part of `acknowledge_cursor` after its stream and device.
unfoldable pub ack_at :
    Env → Codec → ℕ → ℕ → Stream → DeviceCursor → Result Failure ℕ → Sync AckResponse
ack_at env codec owner device stream d (err e) s = (err e, s)
ack_at env codec owner device stream d (ok q) s =
    let acked : DeviceCursor = acked_device env q d in
    (
      ok (record {
        protocol_version = sync_protocol_version;
        device_id = device;
        cursor = change_cursor codec owner device stream acked.cursor_sequence;
        advanced = ltb d.cursor_sequence q;
      }),
      save_device owner device acked s,
    )

unfoldable pub ack_session : Env → Codec → ℕ → ℕ → Text → Sync AckResponse
ack_session env codec owner device cursor = session (do
  stream ← the_stream env owner
  d ← device_cursor env owner device stream false
  ack_at env codec owner device stream d (validate_change_cursor codec cursor owner device stream))

unfoldable pub acknowledge_cursor : Env → Codec → AckRequest → User → ℕ → Sync AckResponse
acknowledge_cursor env codec payload user device = do
  raise_if (not (payload.protocol_version == sync_protocol_version)) (api 426 protocol_unsupported)
  raise_if (not (payload.device_id == device)) (api 403 entity_forbidden)
  ack_session env codec user.id device payload.cursor
