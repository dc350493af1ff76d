-- ===== src/Sync/Cursors/Audience.antt =====
-- The checks of `_validate_change_cursor` on a cursor that the server issued.
use test_paper_backend.Base.{
  ℕ, ◌≡◌, refl, Bool, ◌&&◌, arith, ◌==◌, leb, if◌then◌else◌, Result, ok, err,
}
use test_paper_backend.Sync.Types.{cursor_invalid, cursor_expired, Failure, api}
use test_paper_backend.Sync.Rows.{Stream}
use test_paper_backend.Sync.Cursors.{
  Codec, CodecLaws, change_cursor, change_claims, sequence_of, validate_data,
  validate_change_cursor,
}
use test_paper_backend.Sync.Cursors.RoundTrip.{decode_cursor-encode_cursor}

-- The answer to a change cursor, by who presents it and how the stream stands.
abbrev pub verdict : Bool → Bool → Bool → ℕ → Result Failure ℕ
verdict own current retained q =
    if own
    then (if current
        then (if retained then ok q else err (api 410 cursor_expired))
        else err (api 410 cursor_expired))
    else err (api 400 cursor_invalid)

module _ (codec : Codec) (laws : CodecLaws codec) (owner device : ℕ) (stream : Stream) (q : ℕ) where
  -- A change cursor that was issued to an owner and a device at sequence `q` is valid for that owner
  -- and device only, gives back `q` as long as the stream has the same epoch and retains `q`, and has
  -- expired otherwise, where the libraries do what `CodecLaws` says.
  pub validate_change_cursor-change_cursor :
      (owner' device' : ℕ) (stream' : Stream)
      → validate_change_cursor codec
          (change_cursor codec owner device stream q)
          owner'
          device'
          stream'
        ≡ verdict
            (owner == owner' && device == device')
            (stream.epoch == stream'.epoch)
            (leb stream'.retained_from_sequence q)
            q
  unfolding validate_change_cursor change_cursor validate_data sequence_of
  validate_change_cursor-change_cursor owner' device' stream' =
      let read =
        decode_cursor-encode_cursor codec laws (change_claims owner device stream q) refl in
      ground (arith, read)
