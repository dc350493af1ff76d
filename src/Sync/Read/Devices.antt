-- ===== src/Sync/Read/Devices.antt =====
-- The stream and the device cursors under the operations of
-- testpaper_backend/services/sync_read.py.
use test_paper_backend.Base.{
  subst, ◌<◌, ◌⊎◌, is_some, ℕ, ◌≡◌, refl, ap, ◌∙◌, true, false, ◌&&◌, Bool, Option, none, some,
  arith, ◌==◌, inl, inr, Bool-cases, Option-cases, find_by, find_by-replaced, find_by-test, ok,
}
use test_paper_backend.Sync.Types.{personal}
use test_paper_backend.Sync.Rows.{Stream, DeviceCursor, Store, Env}
use test_paper_backend.Sync.Compaction.{find_stream}
use test_paper_backend.Sync.Read.{
  is_device, find_device, save_device, new_device, seen_device, is_expired, device_or_new,
  device_cursor, the_stream, stream_or_new, new_stream,
}

-- The log and the payloads are as they were.
abbrev pub SameLog : Store → Store → Type 0
SameLog s t = (t.changes ≡ s.changes) × (t.versions ≡ s.versions)

pub the_stream-keeps :
    (env : Env) (owner : ℕ) (s : Store) {st : Stream} {t : Store}
    → the_stream env owner s ≡ (ok st, t)
    → SameLog s t × (find_stream owner personal t ≡ some st)
unfolding the_stream stream_or_new find_stream new_stream
the_stream-keeps env owner s {st} {t} h = elim (Option-cases (find_stream owner personal s)) [
  | inl none_found ↦ ground arith
  | inr (st', found) ↦ ground arith
]

-- The stream of an account in a store: the one that was there before, or a new one, which retains all.
abbrev pub StreamOf : ℕ → Store → Stream → Store → Type 0
StreamOf owner s st t =
    (find_stream owner personal t ≡ some st)
    × ((find_stream owner personal s ≡ some st)
        ⊎ ((find_stream owner personal s ≡ none) × (st.retained_from_sequence ≡ 0)))

pub the_stream-StreamOf :
    (env : Env) (owner : ℕ) (s : Store) {st : Stream} {t : Store}
    → the_stream env owner s ≡ (ok st, t)
    → StreamOf owner s st t
unfolding the_stream stream_or_new find_stream new_stream
the_stream-StreamOf env owner s {st} {t} h = elim (Option-cases (find_stream owner personal s)) [
  | inl none_found ↦ (ground arith, inr (ground arith, ground arith))
  | inr (st', found) ↦ (ground arith, inl (ground arith))
]

pub device_cursor-keeps :
    (env : Env) (owner device : ℕ) (stream : Stream) (recover : Bool) (s : Store) {d : DeviceCursor}
    {t : Store}
    → device_cursor env owner device stream recover s ≡ (ok d, t)
    → SameLog s t × (t.streams ≡ s.streams)
unfolding device_cursor device_or_new save_device
device_cursor-keeps env owner device stream recover s {d} {t} h =
    elim (Option-cases (find_device owner device s)) [
      | inl none_found ↦ ground arith
      | inr (d', found) ↦ ground arith
    ]

pub find_device-save :
    (owner device : ℕ) (old new : DeviceCursor) (s : Store)
    → find_device owner device s ≡ some old
    → is_device owner device new ≡ true
    → find_device owner device (save_device owner device new s) ≡ some new
unfolding find_device save_device
find_device-save owner device old new s h q =
    find_by-replaced (is_device owner device) s.devices old new h q

pub find_device-test :
    (owner device : ℕ) (d : DeviceCursor) (s : Store)
    → find_device owner device s ≡ some d
    → is_device owner device d ≡ true
unfolding find_device
find_device-test owner device d s h = find_by-test (is_device owner device) s.devices d h

pub find_device-devices :
    (owner device : ℕ) (s t : Store)
    → t.devices ≡ s.devices
    → find_device owner device t ≡ find_device owner device s
unfolding find_device
find_device-devices owner device s t h = ap (find_by (is_device owner device)) h

-- The row of an account's device.
abbrev pub row_of : ℕ → ℕ → Store → Option DeviceCursor
row_of owner device s =
    find_by
      (λ (d : DeviceCursor). d.owner_id == owner && d.device_id == device && d.scope == personal)
      s.devices

-- How far a device has acknowledged the log.
abbrev pub sequence_or_zero : Option DeviceCursor → ℕ
sequence_or_zero none = 0
sequence_or_zero (some d) = d.cursor_sequence

-- The rows are keyed by owner, device and scope.
abbrev pub acknowledged : ℕ → ℕ → Store → ℕ
acknowledged owner device s = sequence_or_zero (
    find_by
      (λ (d : DeviceCursor). d.owner_id == owner && d.device_id == device && d.scope == personal)
      s.devices)

pub found-acknowledged :
    (owner device : ℕ) (s t : Store)
    → t.devices ≡ s.devices
    → sequence_or_zero (find_device owner device t) ≡ acknowledged owner device s
unfolding find_device
found-acknowledged owner device s t h = ap sequence_or_zero (find_device-devices owner device s t h)

-- The row of a device, if there is one, is neither revoked nor expired, and of the stream's epoch.
abbrev pub Fit : Env → Stream → Option DeviceCursor → Type 0
Fit env stream none = Unit
Fit env stream (some d) =
    (d.revoked_at ≡ none) × (env.now < d.expires_at) × (d.stream_epoch ≡ stream.epoch)

old_device-Fit :
    (env : Env) (owner device : ℕ) (stream : Stream) (o : Option DeviceCursor) (s : Store)
    {d : DeviceCursor} {t : Store}
    → device_or_new env owner device stream false o s ≡ (ok d, t)
    → Fit env stream o
unfolding device_or_new is_expired
old_device-Fit env owner device stream none s h = tt
old_device-Fit env owner device stream (some old) s {d} {t} h = elim (Option-cases old.revoked_at) [
  | inr (at, revoked) ↦ absurd (ground arith)
  | inl fit ↦ elim (Bool-cases (is_expired env stream old)) [
    | inl expired ↦ absurd (ground arith)
    | inr current ↦ (fit, ground (arith, current), ground (arith, current))
  ]
]

pub device_cursor-Fit :
    (env : Env) (owner device : ℕ) (stream : Stream) (s s1 : Store) {d : DeviceCursor} {t : Store}
    → s1.devices ≡ s.devices
    → device_cursor env owner device stream false s1 ≡ (ok d, t)
    → Fit env stream (row_of owner device s)
unfolding device_cursor find_device
device_cursor-Fit env owner device stream s s1 same h =
    subst (Fit env stream) (ap (find_by (is_device owner device)) same)
      (old_device-Fit env owner device stream _ s1 h)

-- The row that `_device_cursor` returns is in the store, as far in the log as `o`, the row before.
abbrev pub Found : ℕ → ℕ → Option DeviceCursor → Store → DeviceCursor → Store → Type 0
Found owner device o s d t =
    (find_device owner device t ≡ some d) × (d.cursor_sequence ≡ sequence_or_zero o) × SameLog s t

new_device-Found :
    (env : Env) (owner device : ℕ) (stream : Stream) (s : Store) {d : DeviceCursor} {t : Store}
    → device_or_new env owner device stream false none s ≡ (ok d, t)
    → Found owner device none s d t
unfolding device_or_new new_device find_device
new_device-Found env owner device stream s {d} {t} h = ground arith

seen_device-same :
    (env : Env) (owner device : ℕ) (stream : Stream) (d : DeviceCursor)
    → (is_device owner device (seen_device env stream d) ≡ is_device owner device d)
      × ((seen_device env stream d).cursor_sequence ≡ d.cursor_sequence)
unfolding seen_device
seen_device-same env owner device stream d = (refl, refl)

pub save_device-SameLog :
    (owner device : ℕ) (d : DeviceCursor) (s : Store) → SameLog s (save_device owner device d s)
unfolding save_device
save_device-SameLog owner device d s = (refl, refl)

seen_device-Found :
    (env : Env) (owner device : ℕ) (stream : Stream) (s : Store) (old : DeviceCursor)
    {d : DeviceCursor} {t : Store}
    → find_device owner device s ≡ some old
    → device_or_new env owner device stream false (some old) s ≡ (ok d, t)
    → Found owner device (some old) s d t
unfolding device_or_new
seen_device-Found env owner device stream s old {d} {t} f h =
    let (same, sequence) = seen_device-same env owner device stream old in
    let log = save_device-SameLog owner device (seen_device env stream old) s in
    let kept =
      find_device-save owner device old (seen_device env stream old) s f
        (same ∙ find_device-test owner device old s f) in
    elim (Bool-cases (is_some old.revoked_at)) [
      | inl revoked ↦ absurd (ground arith)
      | inr fit ↦ elim (Bool-cases (is_expired env stream old)) [
        | inl expired ↦ absurd (ground arith)
        | inr current ↦
            let saved : save_device owner device (seen_device env stream old) s ≡ t =
              ground arith in
            let shown : seen_device env stream old ≡ d = ground arith in
            subst (Found owner device (some old) s d) saved (
              subst
                (λ x.
                  Found owner device (some old) s x
                    (save_device owner device (seen_device env stream old) s))
                shown (kept, sequence, log))
      ]
    ]

pub device_cursor-Found :
    (env : Env) (owner device : ℕ) (stream : Stream) (s : Store) {d : DeviceCursor} {t : Store}
    → device_cursor env owner device stream false s ≡ (ok d, t)
    → Found owner device (find_device owner device s) s d t
unfolding device_cursor
device_cursor-Found env owner device stream s {d} {t} h =
    elim (Option-cases (find_device owner device s)) [
      | inl e ↦ rw e (new_device-Found env owner device stream s (rw e at h))
      | inr (old, e) ↦ rw e (seen_device-Found env owner device stream s old e (rw e at h))
    ]

pub the_stream-devices :
    (env : Env) (owner : ℕ) (s : Store) {st : Stream} {t : Store}
    → the_stream env owner s ≡ (ok st, t)
    → (t.devices ≡ s.devices) × SameLog s t
unfolding the_stream stream_or_new
the_stream-devices env owner s {st} {t} h = elim (Option-cases (find_stream owner personal s)) [
  | inl none_found ↦ ground arith
  | inr (st', found) ↦ ground arith
]

pub save_device-streams :
    (owner device : ℕ) (d : DeviceCursor) (s : Store)
    → (save_device owner device d s).streams ≡ s.streams
unfolding save_device
save_device-streams owner device d s = refl
