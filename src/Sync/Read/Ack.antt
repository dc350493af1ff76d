-- ===== src/Sync/Read/Ack.antt =====
-- The device cursor under `acknowledge_cursor` of testpaper_backend/services/sync_read.py.
use test_paper_backend.Base.{
  subst, ℕ, max, ◌≤◌, ◌≡◌, refl, sym, ap, ◌∙◌, false, some, arith, ◌==◌, ltb, inl, inr, Bool-cases,
  Option-cases, Result, ok, err, settle-ok, continue-ok,
}
use test_paper_backend.Accounts.{User}
use test_paper_backend.Sync.Types.{Failure}
use test_paper_backend.Sync.Rows.{Stream, DeviceCursor, Store, Env}
use test_paper_backend.Sync.Compaction.{find_stream}
use test_paper_backend.Sync.Cursors.{
  Text, Codec, Value, validate_change_cursor, validate_data, sequence_of, decode_cursor,
}
use test_paper_backend.Sync.Read.{
  AckRequest, AckResponse, is_device, find_device, save_device, device_cursor, the_stream,
  acked_device, ack_at, ack_session, acknowledge_cursor,
}
use test_paper_backend.Sync.Read.Devices.{
  SameLog, acknowledged, sequence_or_zero, found-acknowledged, find_device-save, find_device-test,
  save_device-SameLog, save_device-streams, the_stream-StreamOf, StreamOf, Fit, row_of,
  device_cursor-Fit, the_stream-devices, device_cursor-keeps, device_cursor-Found,
}

acked_device-max :
    (env : Env) (owner device q : ℕ) (d : DeviceCursor)
    → ((acked_device env q d).cursor_sequence ≡ max d.cursor_sequence q)
      × (is_device owner device (acked_device env q d) ≡ is_device owner device d)
unfolding acked_device
acked_device-max env owner device q d = elim (Bool-cases (ltb d.cursor_sequence q)) [
  | inl less ↦ ground arith
  | inr most ↦ ground arith
]

sequence_of-retained :
    (stream : Stream) (x : Value) {q : ℕ}
    → sequence_of stream x ≡ ok q
    → stream.retained_from_sequence ≤ q
unfolding sequence_of
sequence_of-retained stream x {q} h = ground arith

-- A cursor that is valid is at a sequence whose later changes the stream still retains.
validate_change_cursor-retained :
    (codec : Codec) (cursor : Text) (owner device : ℕ) (stream : Stream) {q : ℕ}
    → validate_change_cursor codec cursor owner device stream ≡ ok q
    → stream.retained_from_sequence ≤ q
unfolding validate_change_cursor validate_data
validate_change_cursor-retained codec cursor owner device stream {q} h =
    elim (Option-cases (decode_cursor codec cursor)) [
      | inl none_found ↦ absurd (ground arith)
      | inr (claims, found) ↦ sequence_of-retained stream claims.sequence (ground (arith, found, h))
    ]

-- What an acknowledgement of a sequence leaves: `c` is how far the device was.
abbrev pub Acked : ℕ → ℕ → ℕ → ℕ → AckResponse → Store → Store → Type 0
Acked owner device c q r s t =
    (acknowledged owner device t ≡ max c q) × (r.advanced ≡ ltb c q) × SameLog s t

-- The stream is the account's, and it retains what comes after `q`.
abbrev pub AtStream : Codec → Text → ℕ → ℕ → Stream → ℕ → Store → Store → Type 0
AtStream codec cursor owner device stream q s t =
    StreamOf owner s stream t
    × (validate_change_cursor codec cursor owner device stream ≡ ok q)
    × (stream.retained_from_sequence ≤ q)

ack_at-Acked :
    (env : Env) (codec : Codec) (owner device : ℕ) (stream : Stream) (d : DeviceCursor)
    (start : Result Failure ℕ) (s : Store) {r : AckResponse} {t : Store}
    → find_device owner device s ≡ some d
    → ack_at env codec owner device stream d start s ≡ (ok r, t)
    → (q : ℕ) × (start ≡ ok q)
      × Acked owner device d.cursor_sequence q r s t
      × (t.streams ≡ s.streams)
unfolding ack_at
ack_at-Acked env codec owner device stream d (err e) s f h = absurd (ground arith)
ack_at-Acked env codec owner device stream d (ok q) s {r} {t} f h =
    let acked : DeviceCursor = acked_device env q d in
    let (most, same) = acked_device-max env owner device q d in
    let found =
      find_device-save owner device d acked s f (same ∙ find_device-test owner device d s f) in
    let saved : save_device owner device acked s ≡ t = ap (λ x. x.1) h in
    (
      q,
      refl,
      (
        sym (found-acknowledged owner device t t refl)
            ∙ ap sequence_or_zero (ap (find_device owner device) (sym saved) ∙ found)
            ∙ most,
        ground arith,
        subst (SameLog s) saved (save_device-SameLog owner device acked s),
      ),
      ap (λ (x : Store). x.streams) (sym saved) ∙ save_device-streams owner device acked s,
    )

steps-Acked :
    (env : Env) (codec : Codec) (owner device : ℕ) (cursor : Text) (stream : Stream)
    (d : DeviceCursor) (s s1 s2 t : Store) {r : AckResponse}
    → the_stream env owner s ≡ (ok stream, s1)
    → device_cursor env owner device stream false s1 ≡ (ok d, s2)
    → ack_at env codec owner device stream d
        (validate_change_cursor codec cursor owner device stream)
        s2
      ≡ (ok r, t)
    → (q : ℕ) × AtStream codec cursor owner device stream q s t
      × Fit env stream (row_of owner device s)
      × Acked owner device (acknowledged owner device s) q r s t
unfolding find_stream
steps-Acked env codec owner device cursor stream d s s1 s2 t {r} first second last =
    let (devices, log1) = the_stream-devices env owner s first in
    let (there, same_stream) = the_stream-StreamOf env owner s first in
    let (_, streams) = device_cursor-keeps env owner device stream false s1 second in
    let (found, sequence, log2) = device_cursor-Found env owner device stream s1 second in
    let (q, valid, (most, advanced, log3), kept) =
      ack_at-Acked env codec owner device stream d _ s2 found last in
    let start : d.cursor_sequence ≡ acknowledged owner device s =
      sequence ∙ found-acknowledged owner device s s1 devices in
    (
      q,
      (
        (ground (arith, kept, streams, there), same_stream),
        valid,
        validate_change_cursor-retained codec cursor owner device stream valid,
      ),
      device_cursor-Fit env owner device stream s s1 devices second,
      (
        most ∙ ap (λ c. max c q) start,
        advanced ∙ ap (λ c. ltb c q) start,
        (log3.0 ∙ log2.0 ∙ log1.0, log3.1 ∙ log2.1 ∙ log1.1),
      ),
    )

ack_session-Acked :
    (env : Env) (codec : Codec) (owner device : ℕ) (cursor : Text) (s : Store) {r : AckResponse}
    {t : Store}
    → ack_session env codec owner device cursor s ≡ (ok r, t)
    → (stream : Stream) × (q : ℕ) × AtStream codec cursor owner device stream q s t
      × Fit env stream (row_of owner device s)
      × Acked owner device (acknowledged owner device s) q r s t
unfolding ack_session
ack_session-Acked env codec owner device cursor s {r} {t} h =
    let (stream, s1, first, rest1) = continue-ok (the_stream env owner s) _ (settle-ok s _ h) in
    let (d, s2, second, rest2) =
      continue-ok (device_cursor env owner device stream false s1) _ rest1 in
    let w = steps-Acked env codec owner device cursor stream d s s1 s2 t first second rest2 in
    (stream, w.0, w.1, w.2, w.3)

-- An acknowledgement that returns has a cursor that is valid for this owner and device, at some `q`,
-- in the account's stream as it is stored, which is the one that the account had, or a new one, and
-- still retains the changes after `q`; the device's row, if there was one, was neither revoked nor
-- expired, and of the stream's epoch; afterwards its device has acknowledged the larger of `q` and
-- what it had acknowledged before, so it never falls back; the answer says whether it moved; and the
-- log and the payloads stay as they were.
pub acknowledge_cursor-Acked :
    (env : Env) (codec : Codec) (payload : AckRequest) (user : User) (device : ℕ) (s : Store)
    {r : AckResponse} {t : Store}
    → acknowledge_cursor env codec payload user device s ≡ (ok r, t)
    → (stream : Stream) × (q : ℕ) × AtStream codec payload.cursor user.id device stream q s t
      × Fit env stream (row_of user.id device s)
      × Acked user.id device (acknowledged user.id device s) q r s t
unfolding acknowledge_cursor
acknowledge_cursor-Acked env codec payload user device s {r} {t} h =
    elim (Bool-cases (payload.protocol_version == 1)) [
      | inr other ↦ absurd (ground arith)
      | inl known ↦ elim (Bool-cases (payload.device_id == device)) [
        | inr foreign ↦ absurd (ground arith)
        | inl own ↦
            ack_session-Acked env codec user.id device payload.cursor s (rw (known, own) at h)
      ]
    ]
