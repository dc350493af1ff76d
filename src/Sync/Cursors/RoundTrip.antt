-- ===== src/Sync/Cursors/RoundTrip.antt =====
-- Encoding and decoding of the cursors of testpaper_backend/services/sync_read.py.
use test_paper_backend.Base.{
  ℕ, zero, suc, ◌+◌, ◌%◌, ◌≤◌, ◌≡◌, ◌≢◌, refl, sym, ap, ◌∙◌, true, [], ◌∷◌, ◌++◌, some, arith,
  length, All,
}
use test_paper_backend.Sync.Cursors.{
  Text, is_number, Codec, CodecLaws, CursorData, dot, equals_sign, copies, strip_end, missing,
  same_text, split_once, b64encode, b64decode, encode_cursor, accept_body, decode_parts,
  decode_cursor,
}

same_text_refl : (xs : Text) → same_text xs xs ≡ true
same_text_refl [] = refl
same_text_refl (x ∷ xs) = ground (arith, same_text_refl xs)

strip_end-copies : (k c : ℕ) → strip_end c (copies k c) ≡ []
unfolding strip_end
strip_end-copies zero c = refl
strip_end-copies (suc k) c = ground (arith, strip_end-copies k c)

abbrev Clean : Text → Type 0
Clean = All (λ c. (c ≢ equals_sign) × (c ≢ dot))

strip_end-Clean :
    (k : ℕ) (xs : Text) → Clean xs → strip_end equals_sign (xs ++ copies k equals_sign) ≡ xs
unfolding strip_end
strip_end-Clean k [] h = strip_end-copies k equals_sign
strip_end-Clean k (x ∷ xs) h = ground (arith, strip_end-Clean k xs h.1)

split_once-Clean : (xs ys : Text) → Clean xs → split_once dot (xs ++ dot ∷ ys) ≡ some (xs, ys)
unfolding split_once
split_once-Clean [] ys h = ground arith
split_once-Clean (x ∷ xs) ys h = ground (arith, split_once-Clean xs ys h.1)

missing-pad : (n k : ℕ) → k ≤ 3 → (n + k) % 4 ≡ 0 → missing n ≡ k
missing-pad n k h e = omega arith

module _ (codec : Codec) (laws : CodecLaws codec) where
  b64encode-core : (b : Text) → b64encode codec b ≡ laws.core b
  unfolding b64encode
  b64encode-core b =
      rw (laws.base64-core b) (strip_end-Clean (laws.pad b) (laws.core b) (laws.core-clean b))

  b64decode-core : (b : Text) → b64decode codec (laws.core b) ≡ some b
  unfolding b64decode
  b64decode-core b =
      ap (λ k. codec.unbase64 (laws.core b ++ copies k equals_sign))
        (missing-pad (length (laws.core b)) (laws.pad b) (laws.pad_small b) (laws.aligned b))
      ∙ ap codec.unbase64 (sym (laws.base64-core b))
      ∙ laws.unbase64-base64 b

  decode_parts-core :
      (body signature : Text)
      → decode_parts codec (laws.core body) (laws.core signature) ≡ accept_body codec body signature
  unfolding decode_parts
  decode_parts-core body signature =
      let first = b64decode-core body in
      let second = b64decode-core signature in ground (arith, first, second)

  decode_cursor-dot :
      (a b : Text) → Clean a → decode_cursor codec (a ++ dot ∷ b) ≡ decode_parts codec a b
  unfolding decode_cursor
  decode_cursor-dot a b h = let parts = split_once-Clean a b h in ground (arith, parts)

  accepted :
      (claims : CursorData)
      → is_number claims.v 1 ≡ true
      → accept_body codec (codec.dumps claims) (codec.mac (codec.dumps claims)) ≡ some claims
  unfolding accept_body
  accepted claims h =
      rw (same_text_refl (codec.mac (codec.dumps claims)), laws.loads-dumps claims, h) refl

  -- A cursor that the server encodes, with `v` equal to 1, is decoded to the same claims, where the
  -- libraries do what `CodecLaws` says.
  pub decode_cursor-encode_cursor :
      (claims : CursorData)
      → is_number claims.v 1 ≡ true
      → decode_cursor codec (encode_cursor codec claims) ≡ some claims
  unfolding encode_cursor
  decode_cursor-encode_cursor claims h =
      let body : Text = codec.dumps claims in
      rw (b64encode-core body, b64encode-core (codec.mac body))
        (decode_cursor-dot (laws.core body) (laws.core (codec.mac body)) (laws.core-clean body)
          ∙ decode_parts-core body (codec.mac body)
          ∙ accepted claims h)
