-- ===== src/Sync/Cursors.antt =====
-- The signed cursors of testpaper_backend/services/sync_read.py. Texts and bytes are lists of codes.
-- JSON, base64 and HMAC come from libraries: they are the fields of `Codec`.
pub mod RoundTrip
pub mod Sample
pub mod Audience
use test_paper_backend.Base.{
  ℕ, zero, suc, ◌+◌, ◌-◌, ◌%◌, ◌≤◌, ◌≡◌, ◌≢◌, Bool, true, false, ◌&&◌, ◌||◌, not, List, [], ◌∷◌,
  ◌++◌, Option, none, some, ◌==◌, ltb, if◌then◌else◌, length, All, Result, ok, err,
}
use test_paper_backend.Sync.Types.{
  personal, ErrorCode, cursor_invalid, cursor_expired, Failure, api,
}
use test_paper_backend.Sync.Rows.{Stream}

abbrev pub Text : Type 0
Text = List ℕ

-- What `data.get(key)` may be: `None` (also where the key is missing), a number, a float of a whole
-- value, a truth value, a text by its number, or anything else.
pub data Value : Type 0 where
  absent other : Value
  number negative float word : ℕ → Value
  truth : Bool → Value

-- The keys of the cursors that the service reads: those of a change cursor, and with `snapshotId`,
-- `boundary`, `lastType` and `lastId` those of a snapshot's.
pub record CursorData : Type 0 where
  pub v : Value
  pub purpose : Value
  pub owner : Value
  pub device : Value
  pub scope : Value
  pub epoch : Value
  pub sequence : Value
  pub snapshot_id : Value
  pub boundary : Value
  pub last_type : Value
  pub last_id : Value

-- `value == n` in Python, where `True == 1` and `n.0 == n`
abbrev pub is_number : Value → ℕ → Bool
is_number (number m) n = m == n
is_number (float m) n = m == n
is_number (truth b) n = if b then 1 == n else 0 == n
is_number _ n = false

abbrev pub is_word : Value → ℕ → Bool
is_word (word m) n = m == n
is_word _ n = false

-- `json.dumps` and `json.loads` (`none` for an error or a value that is no dict), `hmac.new(...)`
-- with the secret of the server, and the URL-safe base64 of the standard library.
pub record Codec : Type 0 where
  pub dumps : CursorData → Text
  pub loads : Text → Option CursorData
  pub mac : Text → Text
  pub base64 : Text → Text
  pub unbase64 : Text → Option Text

abbrev pub dot : ℕ
dot = 46

abbrev pub equals_sign : ℕ
equals_sign = 61

abbrev pub copies : ℕ → ℕ → Text
copies zero c = []
copies (suc n) c = c ∷ copies n c

abbrev pub is_empty : Text → Bool
is_empty [] = true
is_empty (x ∷ xs) = false

-- `value.rstrip(c)`
unfoldable pub strip_end : ℕ → Text → Text
strip_end c [] = []
strip_end c (x ∷ xs) = let rest = strip_end c xs in if is_empty rest && x == c then [] else x ∷ rest

-- `_b64encode`
unfoldable pub b64encode : Codec → Text → Text
b64encode codec value = strip_end equals_sign (codec.base64 value)

-- `-length % 4`
abbrev pub missing : ℕ → ℕ
missing n = (4 - n % 4) % 4

-- `_b64decode`
unfoldable pub b64decode : Codec → Text → Option Text
b64decode codec value = codec.unbase64 (value ++ copies (missing (length value)) equals_sign)

-- `cursor.split(c, 1)` into two parts
unfoldable pub split_once : ℕ → Text → Option (Text × Text)
split_once c [] = none
split_once c (x ∷ xs) =
    let rest = split_once c xs in
    if x == c then some ([], xs) else (elim rest [ none ↦ none | some (a, b) ↦ some (x ∷ a, b) ])

-- `hmac.compare_digest`
abbrev pub same_text : Text → Text → Bool
same_text [] [] = true
same_text [] (y ∷ ys) = false
same_text (x ∷ xs) [] = false
same_text (x ∷ xs) (y ∷ ys) = x == y && same_text xs ys

-- `_encode_cursor`
unfoldable pub encode_cursor : Codec → CursorData → Text
encode_cursor codec claims =
    let body : Text = codec.dumps claims in
    b64encode codec body ++ dot ∷ b64encode codec (codec.mac body)

unfoldable pub accept_body : Codec → Text → Text → Option CursorData
accept_body codec body signature =
    if same_text signature (codec.mac body)
    then (elim (codec.loads body) [
      | none ↦ none
      | some claims ↦ if is_number claims.v 1 then some claims else none
    ])
    else none

unfoldable pub decode_parts : Codec → Text → Text → Option CursorData
decode_parts codec encoded_body encoded_signature = elim (b64decode codec encoded_body) [
  | none ↦ none
  | some body ↦ elim (b64decode codec encoded_signature) [
    | none ↦ none
    | some signature ↦ accept_body codec body signature
  ]
]

-- `_decode_cursor`: every error it catches becomes one answer.
unfoldable pub decode_cursor : Codec → Text → Option CursorData
decode_cursor codec cursor = elim (split_once dot cursor) [
  | none ↦ none
  | some (a, b) ↦ decode_parts codec a b
]

-- The text "change"
abbrev pub change_purpose : ℕ
change_purpose = 1

-- `_change_cursor`
abbrev pub change_claims : ℕ → ℕ → Stream → ℕ → CursorData
change_claims owner device stream sequence = record {
  v = number 1;
  purpose = word change_purpose;
  owner = number owner;
  device = word device;
  scope = word personal;
  epoch = word stream.epoch;
  sequence = number sequence;
  snapshot_id = absent;
  boundary = absent;
  last_type = absent;
  last_id = absent;
}

unfoldable pub change_cursor : Codec → ℕ → ℕ → Stream → ℕ → Text
change_cursor codec owner device stream sequence =
    encode_cursor codec (change_claims owner device stream sequence)

-- The last checks of `_validate_change_cursor`
unfoldable pub sequence_of : Stream → Value → Result Failure ℕ
sequence_of stream (number n) =
    if ltb n stream.retained_from_sequence then err (api 410 cursor_expired) else ok n
sequence_of stream _ = err (api 400 cursor_invalid)

abbrev pub for_audience : ℕ → ℕ → CursorData → Bool
for_audience owner device claims =
    is_word claims.purpose change_purpose
    && is_number claims.owner owner
    && is_word claims.device device
    && is_word claims.scope personal

unfoldable pub validate_data : ℕ → ℕ → Stream → CursorData → Result Failure ℕ
validate_data owner device stream claims =
    if for_audience owner device claims
    then (if is_word claims.epoch stream.epoch
        then sequence_of stream claims.sequence
        else err (api 410 cursor_expired))
    else err (api 400 cursor_invalid)

-- `_validate_change_cursor`
unfoldable pub validate_change_cursor : Codec → Text → ℕ → ℕ → Stream → Result Failure ℕ
validate_change_cursor codec cursor owner device stream = elim (decode_cursor codec cursor) [
  | none ↦ err (api 400 cursor_invalid)
  | some claims ↦ validate_data owner device stream claims
]

-- What the service relies on: JSON of a cursor reads back; base64 without its padding has no `.` and
-- no `=`, its length with the padding is a multiple of 4, the padding has 3 characters at most, and it
-- decodes to what was encoded.
pub record CodecLaws (codec : Codec) : Type 0 where
  pub loads-dumps : (claims : CursorData) → codec.loads (codec.dumps claims) ≡ some claims
  pub core : Text → Text
  pub pad : Text → ℕ
  pub base64-core : (b : Text) → codec.base64 b ≡ core b ++ copies (pad b) equals_sign
  pub core-clean : (b : Text) → All (λ c. (c ≢ equals_sign) × (c ≢ dot)) (core b)
  pub pad_small : (b : Text) → pad b ≤ 3
  pub aligned : (b : Text) → (length (core b) + pad b) % 4 ≡ 0
  pub unbase64-base64 : (b : Text) → codec.unbase64 (codec.base64 b) ≡ some b
