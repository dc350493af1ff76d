-- ===== src/Sync/Cursors/Sample.antt =====
-- A concrete codec with the properties that the cursors rely on.
use test_paper_backend.Base.{
  ℕ, zero, suc, ◌+◌, ◌-◌, ◌≡◌, ◌≢◌, refl, ap, true, false, [], ◌∷◌, ◌++◌, Option, none, some, arith,
  length, All, map, if◌then◌else◌, ltb, ◌==◌,
}
use test_paper_backend.Sync.Cursors.{
  Text, Value, absent, other, number, negative, float, word, truth, CursorData, Codec, CodecLaws,
  copies, missing, dot, equals_sign,
}

-- A value as a tag and a number.
abbrev tag : Value → ℕ
tag absent = 0
tag other = 1
tag (number n) = 2
tag (negative n) = 3
tag (float n) = 4
tag (word n) = 5
tag (truth false) = 6
tag (truth true) = 7

abbrev amount : Value → ℕ
amount (number n) = n
amount (negative n) = n
amount (float n) = n
amount (word n) = n
amount _ = 0

abbrev value : ℕ → ℕ → Value
value t n =
    if t == 0
    then absent
    else if t == 1
    then other
    else if t == 2
    then number n
    else if t == 3
    then negative n
    else if t == 4
    then float n
    else if t == 5
    then word n
    else truth (t == 7)

value-tag : (x : Value) → value (tag x) (amount x) ≡ x
value-tag absent = refl
value-tag other = refl
value-tag (number n) = refl
value-tag (negative n) = refl
value-tag (float n) = refl
value-tag (word n) = refl
value-tag (truth false) = refl
value-tag (truth true) = refl

abbrev dumped : CursorData → Text
dumped c =
    tag c.v
    ∷ amount c.v
    ∷ tag c.purpose
    ∷ amount c.purpose
    ∷ tag c.owner
    ∷ amount c.owner
    ∷ tag c.device
    ∷ amount c.device
    ∷ tag c.scope
    ∷ amount c.scope
    ∷ tag c.epoch
    ∷ amount c.epoch
    ∷ tag c.sequence
    ∷ amount c.sequence
    ∷ tag c.snapshot_id
    ∷ amount c.snapshot_id
    ∷ tag c.boundary
    ∷ amount c.boundary
    ∷ tag c.last_type
    ∷ amount c.last_type
    ∷ tag c.last_id
    ∷ amount c.last_id
    ∷ []

abbrev loaded : Text → Option CursorData
loaded
      (a ∷ a' ∷ b ∷ b' ∷ c ∷ c' ∷ d ∷ d' ∷ e ∷ e' ∷ f ∷ f' ∷ g ∷ g' ∷ h ∷ h' ∷ i ∷ i' ∷ j ∷ j' ∷ k
        ∷ k' ∷ []) =
    some (record {
      v = value a a';
      purpose = value b b';
      owner = value c c';
      device = value d d';
      scope = value e e';
      epoch = value f f';
      sequence = value g g';
      snapshot_id = value h h';
      boundary = value i i';
      last_type = value j j';
      last_id = value k k';
    })
loaded _ = none

-- Codes above those of `.` and `=`, and back.
abbrev raised : Text → Text
raised = map (λ n. n + 100)

abbrev lowered : Text → Text
lowered [] = []
lowered (x ∷ xs) = let rest = lowered xs in if ltb x 100 then [] else (x - 100) ∷ rest

abbrev encoded : Text → Text
encoded b = raised b ++ copies (missing (length b)) equals_sign

lowered-copies : (k : ℕ) → lowered (copies k equals_sign) ≡ []
lowered-copies zero = refl
lowered-copies (suc k) = ground arith

lowered-raised : (b : Text) (k : ℕ) → lowered (raised b ++ copies k equals_sign) ≡ b
lowered-raised [] k = lowered-copies k
lowered-raised (x ∷ xs) k = ground (arith, lowered-raised xs k)

raised-clean : (b : Text) → All (λ c. (c ≢ equals_sign) × (c ≢ dot)) (raised b)
raised-clean [] = tt
raised-clean (x ∷ xs) = (((λ e. omega arith), (λ e. omega arith)), raised-clean xs)

length-raised : (b : Text) → length (raised b) ≡ length b
length-raised [] = refl
length-raised (x ∷ xs) = ap suc (length-raised xs)

abbrev pub sample_codec : Codec
sample_codec = record {
  dumps = dumped;
  loads = loaded;
  mac = λ b. 17 ∷ b;
  base64 = encoded;
  unbase64 = λ t. some (lowered t);
}

pub sample_codec-CodecLaws : CodecLaws sample_codec
sample_codec-CodecLaws = record {
  loads-dumps = λ c. simp (
    value-tag c.v,
    value-tag c.purpose,
    value-tag c.owner,
    value-tag c.device,
    value-tag c.scope,
    value-tag c.epoch,
    value-tag c.sequence,
    value-tag c.snapshot_id,
    value-tag c.boundary,
    value-tag c.last_type,
    value-tag c.last_id,
  );
  core = raised;
  pad = λ b. missing (length b);
  base64-core = λ b. refl;
  core-clean = raised-clean;
  pad_small = λ b. omega arith;
  aligned = λ b. rw (length-raised b) (omega arith);
  unbase64-base64 = λ b. ap some (lowered-raised b (missing (length b)));
}
