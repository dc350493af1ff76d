-- ===== src/Sync/Read/Tests.antt =====
-- Cursors, pulls and acknowledgements of a concrete account, and the theorems about them there.
use test_paper_backend.Base.{ℕ, ◌≡◌, refl, true, false, none, some, [], ◌∷◌, err, arith, order_by}
use test_paper_backend.Sync.Types.{question, api, cursor_invalid}
use test_paper_backend.Sync.Types.MutationKind.{create}
use test_paper_backend.Sync.Rows.{Change, EntityVersion, Stream, Store}
use test_paper_backend.Sync.Samples.{env_at, ada, empty, text}
use test_paper_backend.Sync.Compaction.{find_stream}
use test_paper_backend.Sync.Cursors.{
  CursorData, change_claims, change_cursor, encode_cursor, decode_cursor, validate_change_cursor,
  strip_end, b64encode, b64decode, split_once, accept_body, decode_parts, sequence_of,
  validate_data,
}
use test_paper_backend.Sync.Cursors.RoundTrip.{decode_cursor-encode_cursor}
use test_paper_backend.Sync.Cursors.Sample.{sample_codec, sample_codec-CodecLaws}
use test_paper_backend.Sync.Cursors.Audience.{verdict, validate_change_cursor-change_cursor}
use test_paper_backend.Sync.Read.{
  PullResponse, AckRequest, AckResponse, pull_page, start_sequence, pull_at, pull_changes,
  the_stream, stream_or_new, new_stream, find_device, save_device, new_device, is_expired,
  seen_device, device_or_new, device_cursor, shown_change, with_version, joined, changes_after,
  next_sequence, acked_device, ack_at, ack_session, acknowledge_cursor,
}
use test_paper_backend.Sync.Read.Devices.{SameLog, acknowledged, StreamOf, Fit, row_of}
use test_paper_backend.Sync.Read.Pages.{Page, StartsAt, pull_changes-Page}
use test_paper_backend.Sync.Read.Ack.{Acked, AtStream, acknowledge_cursor-Acked}

abbrev change_at : ℕ → Change
change_at sequence = record {
  sequence = sequence;
  entity_version_id = sequence;
  owner_id = 7;
  scope = 1;
  entity_type = question;
  public_id = sequence;
  version = 1;
  content_hash = 50;
  mutation_kind = create;
  tombstone = false;
  operation_id = sequence;
  created_at = sequence;
}

abbrev version_at : ℕ → EntityVersion
version_at id = record {
  id = id;
  entity_id = id;
  owner_id = 7;
  version = 1;
  schema_version = 1;
  content_hash = 50;
  payload = text 50;
  tombstone = false;
  mutation_kind = create;
  operation_id = id;
  base_version = none;
  base_hash = none;
  device_id = 4;
  created_at = id;
}

abbrev stream : Stream
stream = record {
  owner_id = 7;
  scope = 1;
  epoch = 70;
  retained_from_sequence = 0;
  snapshot_version = 0;
  compacted_at = none;
  created_at = 0;
  updated_at = 0;
}

abbrev full : Store
full = record empty {
  serial = 9;
  versions = version_at 2 ∷ version_at 1 ∷ [];
  changes = change_at 1 ∷ change_at 2 ∷ [];
  streams = stream ∷ [];
}

abbrev steps : ℕ
unfolding pull_page start_sequence pull_at pull_changes the_stream stream_or_new find_stream
    new_stream find_device save_device new_device is_expired seen_device device_or_new device_cursor
    shown_change with_version joined changes_after order_by next_sequence acked_device ack_at
    ack_session acknowledge_cursor
steps = 0

abbrev cursor_steps : ℕ
unfolding change_cursor encode_cursor decode_cursor validate_change_cursor strip_end b64encode
    b64decode split_once accept_body decode_parts sequence_of validate_data
cursor_steps = 0

abbrev sample_claims : CursorData
sample_claims = change_claims 7 5 stream 2

decode_cursor-encode_cursor_example :
    decode_cursor sample_codec (encode_cursor sample_codec sample_claims) ≡ some sample_claims
decode_cursor-encode_cursor_example =
    decode_cursor-encode_cursor sample_codec sample_codec-CodecLaws sample_claims refl

validate_change_cursor-change_cursor_example :
    validate_change_cursor sample_codec (change_cursor sample_codec 7 5 stream 2) 7 5 stream
    ≡ verdict true true true 2
validate_change_cursor-change_cursor_example =
    validate_change_cursor-change_cursor sample_codec sample_codec-CodecLaws 7 5 stream 2 7 5 stream

other_device :
    validate_change_cursor sample_codec (change_cursor sample_codec 7 5 stream 2) 7 6 stream
    ≡ err (api 400 cursor_invalid)
unfolding cursor_steps
other_device = refl

abbrev pulled : Store
unfolding steps
pulled = (pull_changes (env_at 10) sample_codec ada 5 none 1 full).1

abbrev first_page : PullResponse
first_page = pull_page sample_codec 7 5 stream 1 0 full

pull_changes-Page_example :
    (st : Stream) × (q : ℕ) × (n : ℕ) × StartsAt sample_codec none 7 5 st full q
    × Page sample_codec 7 5 st q n first_page pulled
    × SameLog full pulled
    × StreamOf 7 full st pulled
    × Fit (env_at 10) st (row_of 7 5 full)
unfolding steps
pull_changes-Page_example =
    pull_changes-Page (env_at 10) sample_codec sample_codec-CodecLaws ada 5 none 1 full
      ((omega arith, tt), (tt, tt)) refl

abbrev ack : AckRequest
ack = record {
  protocol_version = 1;
  device_id = 5;
  cursor = change_cursor sample_codec 7 5 stream 2;
}

abbrev acked : Store
unfolding steps cursor_steps
acked = (acknowledge_cursor (env_at 20) sample_codec ack ada 5 pulled).1

abbrev ack_answer : AckResponse
ack_answer = record {
  protocol_version = 1;
  device_id = 5;
  cursor = change_cursor sample_codec 7 5 stream 2;
  advanced = true;
}

acknowledge_cursor-Acked_example :
    (st : Stream) × (q : ℕ) × AtStream sample_codec
      (change_cursor sample_codec 7 5 stream 2)
      7
      5
      st
      q
      pulled
      acked
    × Fit (env_at 20) st (row_of 7 5 pulled)
    × Acked 7 5 (acknowledged 7 5 pulled) q ack_answer pulled acked
unfolding steps cursor_steps
acknowledge_cursor-Acked_example =
    acknowledge_cursor-Acked (env_at 20) sample_codec ack ada 5 pulled refl
