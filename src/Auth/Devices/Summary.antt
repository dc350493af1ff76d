-- ===== src/Auth/Devices/Summary.antt =====
-- One entry of the device list against the rows of its device.
use test_paper_backend.Base.{
  ℕ, zero, suc, max, ◌==◌, ◌≡◌, refl, sym, ap, ◌∙◌, Bool, true, false, ◌||◌, List, [], ◌∷◌, Option,
  none, some, ltb, min, arith, if◌then◌else◌, is_the, inl, inr, Bool-cases, Option-cases, find_by,
  find_by-append, find_by-append_found, find_by-untouched, find_by-updated, find_by-test,
  none-any_by, found-any_by, filter_by, any_by,
}
use test_paper_backend.Auth.Rows.{Token, text_or}
use test_paper_backend.Auth.Native.{unknown_name}
use test_paper_backend.Auth.Devices.{
  DeviceSession, is_digest, first_session, later_seen, merged_session, is_session, add_session,
  device_sessions,
}

abbrev pub has_device : ℕ → Token → Bool
has_device device t = is_the t.device_id device

-- The last name that is not empty, the latest sight, and the earliest creation of some rows.
-- A name that is missing or empty does not replace the one before.
abbrev pub named : Option ℕ → ℕ → ℕ
named none before = before
named (some n) before = if n == 0 then before else n

abbrev pub last_name : ℕ → List Token → ℕ
last_name default [] = default
last_name default (t ∷ ts) = last_name (named t.device_name default) ts

abbrev pub max_seen : Option ℕ → Option ℕ → Option ℕ
max_seen none b = b
max_seen (some a) none = some a
max_seen (some a) (some b) = some (max a b)

abbrev pub latest : Option ℕ → List Token → Option ℕ
latest seen [] = seen
latest seen (t ∷ ts) = latest (max_seen seen t.last_seen_at) ts

abbrev pub earliest : ℕ → List Token → ℕ
earliest at [] = at
earliest at (t ∷ ts) = earliest (min at t.created_at) ts

-- The entry of a device that has the given rows.
abbrev pub summary : Option ℕ → ℕ → List Token → Option DeviceSession
summary current device [] = none
summary current device (t ∷ ts) = some (record {
  device_id = device;
  device_name = last_name unknown_name (t ∷ ts);
  last_seen_at = latest none (t ∷ ts);
  created_at = earliest t.created_at ts;
  current = any_by (is_digest current) (t ∷ ts);
})

-- An entry that has been begun, with the rows that are still to come.
abbrev continued : Option ℕ → DeviceSession → List Token → DeviceSession
continued current d ts = record d {
  device_name = last_name d.device_name ts;
  last_seen_at = latest d.last_seen_at ts;
  created_at = earliest d.created_at ts;
  current = d.current || any_by (is_digest current) ts;
}

later_seen-max : (a b : Option ℕ) → later_seen a b ≡ max_seen a b
later_seen-max none b = refl
later_seen-max (some a) none = refl
later_seen-max (some a) (some b) = ground arith

text_or-named : (name : Option ℕ) (default : ℕ) → text_or name default ≡ named name default
text_or-named none default = refl
text_or-named (some zero) default = refl
text_or-named (some (suc n)) default = ground arith

merged-device :
    (current : Option ℕ) (t : Token) (device : ℕ) (d : DeviceSession)
    → is_session device (merged_session current t d) ≡ is_session device d
unfolding merged_session
merged-device current t device d = refl

module _ (current : Option ℕ) (device : ℕ) (t : Token) (ds : List DeviceSession) where
  added-other :
      has_device device t ≡ false
      → find_by (is_session device) (add_session current t ds) ≡ find_by (is_session device) ds
  unfolding add_session first_session
  added-other h = elim (Option-cases t.device_id) [
    | inl no_device ↦ ground arith
    | inr (other, e) ↦ elim (Option-cases (find_by (is_session device) ds)) [
      | inl none_found ↦
          let append =
            find_by-append (is_session device) ds (first_session current other t ∷ []) none_found in
          let kept =
            find_by-untouched (is_session device) (is_session other) (merged_session current t) ds
              (merged-device current t device) (λ x q. ground arith) in
          ground (arith, append, kept)
      | inr (d, found) ↦
          let append =
            find_by-append_found (is_session device) ds (first_session current other t ∷ []) d
              found in
          let kept =
            find_by-untouched (is_session device) (is_session other) (merged_session current t) ds
              (merged-device current t device) (λ x q. ground arith) in
          ground (arith, append, kept)
    ]
  ]

  added-new :
      t.device_id ≡ some device
      → find_by (is_session device) ds ≡ none
      → find_by (is_session device) (add_session current t ds)
        ≡ some (first_session current device t)
  unfolding add_session first_session
  added-new e none_found =
      let append =
        find_by-append (is_session device) ds (first_session current device t ∷ []) none_found in
      let no_entry : any_by (is_session device) ds ≡ false =
        none-any_by (is_session device) ds none_found in
      ground (arith, append, no_entry, e)

  added-known :
      (d : DeviceSession)
      → t.device_id ≡ some device
      → find_by (is_session device) ds ≡ some d
      → find_by (is_session device) (add_session current t ds) ≡ some (merged_session current t d)
  unfolding add_session
  added-known d e found =
      let kept =
        find_by-updated (is_session device) (is_session device) (merged_session current t) ds d
          (merged-device current t device) found in
      let test = find_by-test (is_session device) ds d found in
      let entry : any_by (is_session device) ds ≡ true =
        found-any_by (is_session device) ds d found in
      ground (arith, kept, test, entry, e)

-- What the loop makes of an entry, or of none, and the rows of its device.
abbrev pub entry : Option ℕ → ℕ → List Token → Option DeviceSession → Option DeviceSession
entry current device ts none = summary current device ts
entry current device ts (some d) = some (continued current d ts)

continued-cons :
    (current : Option ℕ) (t : Token) (d : DeviceSession) (ts : List Token)
    → continued current (merged_session current t d) ts ≡ continued current d (t ∷ ts)
unfolding merged_session
continued-cons current t d ts =
    let at : (if ltb t.created_at d.created_at then t.created_at else d.created_at)
        ≡ min d.created_at t.created_at =
      ground arith in
    let mine : ((if is_digest current t then true else d.current) || any_by (is_digest current) ts)
        ≡ (d.current || (is_digest current t || any_by (is_digest current) ts)) =
      ground arith in
    rw
      (
        at,
        mine,
        later_seen-max d.last_seen_at t.last_seen_at,
        text_or-named t.device_name d.device_name,
      )
      refl

summary-cons :
    (current : Option ℕ) (device : ℕ) (t : Token) (ts : List Token)
    → some (continued current (first_session current device t) ts) ≡ summary current device (t ∷ ts)
unfolding first_session
summary-cons current device t ts = rw (text_or-named t.device_name unknown_name) refl

continued-nil : (current : Option ℕ) (d : DeviceSession) → continued current d [] ≡ d
continued-nil current d = let same : (d.current || false) ≡ d.current = ground arith in rw same refl

the_device : (device : ℕ) (t : Token) → has_device device t ≡ true → t.device_id ≡ some device
the_device device t h = elim (Option-cases t.device_id) [
  | inl no_device ↦ absurd (ground arith)
  | inr (other, e) ↦ ground arith
]

loop-entry :
    (current : Option ℕ) (device : ℕ) (ts : List Token) (ds : List DeviceSession)
    → find_by (is_session device) (device_sessions current ts ds)
      ≡ entry current device (filter_by (has_device device) ts) (find_by (is_session device) ds)
unfolding device_sessions
loop-entry current device [] ds = elim (Option-cases (find_by (is_session device) ds)) [
  | inl none_found ↦ rw none_found refl
  | inr (d, found) ↦ rw found (ap some (sym (continued-nil current d)))
]
loop-entry current device (t ∷ ts) ds =
    let rest = loop-entry current device ts (add_session current t ds) in
    elim (Bool-cases (has_device device t)) [
      | inr other ↦
          let kept = added-other current device t ds other in
          rw other (rest ∙ ap (entry current device (filter_by (has_device device) ts)) kept)
      | inl own ↦
          let e : t.device_id ≡ some device = the_device device t own in
          elim (Option-cases (find_by (is_session device) ds)) [
            | inl none_found ↦
                rw (own, none_found)
                  (rest
                    ∙ ap (entry current device (filter_by (has_device device) ts))
                        (added-new current device t ds e none_found)
                    ∙ summary-cons current device t (filter_by (has_device device) ts))
            | inr (d, found) ↦
                rw (own, found)
                  (rest
                    ∙ ap (entry current device (filter_by (has_device device) ts))
                        (added-known current device t ds d e found)
                    ∙ ap some (continued-cons current t d (filter_by (has_device device) ts)))
          ]
    ]

-- The dict that `list_devices` gathers from some rows has an entry for a device exactly if a row is
-- the device's, and it has the last of its names that is not empty, the latest of its sights, the
-- earliest of its creations, and is current if one of its rows has the current token.
pub device_sessions-summary :
    (current : Option ℕ) (device : ℕ) (ts : List Token)
    → find_by (is_session device) (device_sessions current ts [])
      ≡ summary current device (filter_by (has_device device) ts)
device_sessions-summary current device ts = loop-entry current device ts []
