-- ===== src/Sync/Read/Pages.antt =====
-- The pages of `pull_changes` of testpaper_backend/services/sync_read.py.
mod Rows
pub mod Logged
use test_paper_backend.Base.{
  ℕ, zero, suc, subst, ◌-◌, ◌+◌, ◌≤◌, ◌<◌, ◌≡◌, ◌⊎◌, refl, sym, ap, ◌∙◌, Bool, true, false, ◌&&◌,
  not, List, [], ◌∷◌, ◌++◌, Option, none, some, arith, ◌==◌, ltb, leb, inl, inr, Bool-cases,
  if◌then◌else◌, length, take, drop, filter_by, find_by, Result, ok, err, settle-ok, continue-ok,
  raise_if, take-append-drop, Ascending, Option-cases, update_by,
}
use test_paper_backend.Accounts.{User}
use test_paper_backend.Sync.Types.{personal, Failure, api, cursor_expired}
use test_paper_backend.Sync.Rows.{Change, EntityVersion, Stream, DeviceCursor, Store, Env}
use test_paper_backend.Sync.Compaction.{find_stream}
use test_paper_backend.Sync.Cursors.{Text, Codec, CodecLaws, change_cursor, validate_change_cursor}
use test_paper_backend.Sync.Cursors.Audience.{validate_change_cursor-change_cursor}
use test_paper_backend.Sync.Read.{
  SyncChange, PullResponse, changes_after, next_sequence, page_limit, pull_page, start_sequence,
  pull_at, pull_changes, the_stream, stream_or_new, device_cursor, device_or_new, save_device,
  find_device, new_stream,
}
use test_paper_backend.Sync.Read.Devices.{
  SameLog, acknowledged, found-acknowledged, the_stream-keeps, the_stream-devices, StreamOf,
  the_stream-StreamOf, Fit, row_of, device_cursor-Fit, device_cursor-keeps, device_cursor-Found,
}
use test_paper_backend.Sync.Read.Pages.Logged.{logged_after, changes_after-logged_after}
use test_paper_backend.Sync.Read.Pages.Rows.{
  has_rows, page-take, more-drop, changes_after-page, changes_after-InOrder, next_sequence-lt,
}

abbrev pub LogInOrder : Store → Type 0
LogInOrder s = Ascending (λ (c : Change). c.sequence) s.changes

-- One page of the changes after `q`, up to `n`, over the log of `s`, whose rows are listed independently of
-- the query.
pub record Page (codec : Codec) (owner device : ℕ) (stream : Stream) (q n : ℕ) (r : PullResponse)
    (s : Store) : Type 0 where
  pub retained : stream.retained_from_sequence ≤ q
  pub complete :
      r.changes ++ logged_after owner n s.versions s.changes
      ≡ logged_after owner q s.versions s.changes
  pub more : r.has_more ≡ has_rows (logged_after owner n s.versions s.changes)
  pub onward : q ≤ n
  pub progress : (r.has_more ≡ false) ⊎ (q < n)
  pub resumes : validate_change_cursor codec r.next_cursor owner device stream ≡ ok n

pull_page-Page :
    (codec : Codec) (laws : CodecLaws codec) (owner device : ℕ) (stream : Stream) (size q : ℕ)
    (s : Store)
    → LogInOrder s
    → ltb q stream.retained_from_sequence ≡ false
    → (n : ℕ) × Page codec owner device stream q n
        (pull_page codec owner device stream (suc size) q s)
        s
unfolding pull_page
pull_page-Page codec laws owner device stream size q s o retained =
    let xs : List SyncChange = changes_after owner q s in
    let n : ℕ = next_sequence q (take (suc size) xs) in
    let (onward, rest) = changes_after-page owner q (suc size) n s o refl in
    let (h, i) = changes_after-InOrder owner q s o in
    let pages = page-take (suc size) xs in
    let at_q = changes_after-logged_after owner q s o in
    let at_n = changes_after-logged_after owner n s o in
    let valid =
      validate_change_cursor-change_cursor codec laws owner device stream n owner device stream in
    (
      n,
      record {
        retained = ground (arith, retained);
        complete =
            subst
              (λ l.
                take (suc size) (take (suc (suc size)) xs) ++ l
                ≡ logged_after owner q s.versions s.changes)
              at_n (rw (pages, rest) (take-append-drop (suc size) xs ∙ at_q));
        more = more-drop (suc size) xs ∙ ap has_rows (sym rest ∙ at_n);
        onward = onward;
        progress = elim (Bool-cases (has_rows (drop (suc size) xs))) [
          | inr e ↦ inl (more-drop (suc size) xs ∙ e)
          | inl e ↦ inr (next_sequence-lt size q xs h i e)
        ];
        resumes = rw pages (valid ∙ ground (arith, onward));
      },
    )

page_limit-suc : (size : ℕ) → (k : ℕ) × (page_limit size ≡ suc k)
page_limit-suc size = (page_limit size - 1, omega arith)

pull_at-Page :
    (codec : Codec) (laws : CodecLaws codec) (owner device : ℕ) (stream : Stream) (size : ℕ)
    (start : Result Failure ℕ) (s : Store) {r : PullResponse} {t : Store}
    → LogInOrder s
    → pull_at codec owner device stream (page_limit size) start s ≡ (ok r, t)
    → (q : ℕ) × (n : ℕ) × (start ≡ ok q) × Page codec owner device stream q n r s × (t ≡ s)
unfolding pull_at
pull_at-Page codec laws owner device stream size (err e) s o h = absurd (ground arith)
pull_at-Page codec laws owner device stream size (ok q) s {r} {t} o h =
    elim (Bool-cases (ltb q stream.retained_from_sequence)) [
      | inl gone ↦ absurd (ground arith)
      | inr kept ↦
          let (k, is_suc) = page_limit-suc size in
          let (n, page) = pull_page-Page codec laws owner device stream k q s o kept in
          let same : pull_page codec owner device stream (suc k) q s ≡ r = ground (arith, is_suc) in
          (q, n, refl, subst (λ x. Page codec owner device stream q n x s) same page, ground arith)
    ]

-- Where a pull starts: at the sequence at which its cursor is valid, or, without a cursor, at how far
-- its device had acknowledged the log.
abbrev pub StartsAt : Codec → Option Text → ℕ → ℕ → Stream → Store → ℕ → Type 0
StartsAt codec none owner device stream s q = q ≡ acknowledged owner device s
StartsAt codec (some c) owner device stream s q =
    validate_change_cursor codec c owner device stream ≡ ok q

start_sequence-StartsAt :
    (codec : Codec) (cursor : Option Text) (owner device : ℕ) (stream : Stream) (d : DeviceCursor)
    (s : Store) (q : ℕ)
    → d.cursor_sequence ≡ acknowledged owner device s
    → start_sequence codec cursor owner device stream d ≡ ok q
    → StartsAt codec cursor owner device stream s q
unfolding start_sequence
start_sequence-StartsAt codec none owner device stream d s q at h = ground (arith, at)
start_sequence-StartsAt codec (some c) owner device stream d s q at h = h

steps-Page :
    (env : Env) (codec : Codec) (laws : CodecLaws codec) (owner device : ℕ) (cursor : Option Text)
    (size : ℕ) (stream : Stream) (d : DeviceCursor) (s s1 s2 t : Store) {r : PullResponse}
    → LogInOrder s
    → the_stream env owner s ≡ (ok stream, s1)
    → device_cursor env owner device stream false s1 ≡ (ok d, s2)
    → pull_at codec owner device stream
        (page_limit size)
        (start_sequence codec cursor owner device stream d)
        s2
      ≡ (ok r, t)
    → (q : ℕ) × (n : ℕ) × StartsAt codec cursor owner device stream s q
      × Page codec owner device stream q n r t
      × SameLog s t
      × StreamOf owner s stream t
      × Fit env stream (row_of owner device s)
unfolding find_stream
steps-Page env codec laws owner device cursor size stream d s s1 s2 t {r} o first second last =
    let (log1, there) = the_stream-keeps env owner s first in
    let (_, same_stream) = the_stream-StreamOf env owner s first in
    let (devices, _) = the_stream-devices env owner s first in
    let (_, sequence, _) = device_cursor-Found env owner device stream s1 second in
    let at : d.cursor_sequence ≡ acknowledged owner device s =
      sequence ∙ found-acknowledged owner device s s1 devices in
    let (log2, streams) = device_cursor-keeps env owner device stream false s1 second in
    let same : SameLog s s2 = (log2.0 ∙ log1.0, log2.1 ∙ log1.1) in
    let ordered : LogInOrder s2 = subst (Ascending (λ (c : Change). c.sequence)) (sym same.0) o in
    let (q, n, start, page, stays) =
      pull_at-Page codec laws owner device stream size _ s2 ordered last in
    (
      q,
      n,
      start_sequence-StartsAt codec cursor owner device stream d s q at start,
      subst (Page codec owner device stream q n r) (sym stays) page,
      subst (SameLog s) (sym stays) same,
      (ap (find_stream owner personal) stays ∙ ground (arith, streams, there), same_stream),
      device_cursor-Fit env owner device stream s s1 devices second,
    )

-- A pull that returns, on a log in order, starts at a sequence `q`: with a cursor, the one at which
-- the cursor is valid for this owner and device in the account's stream, without one, how far the
-- device's row says that it had acknowledged the log (zero without a row). The row, if there is one,
-- was neither revoked nor expired, and of the stream's epoch; the stream is the one that the account
-- had, or a new one that retains everything. It still retains the changes after `q`. The pull returns
-- the account's personal changes after `q` up to some `n`, in the order of the log, each with the
-- payload of its version, so that these and those after `n` are all those after `q`; it says that
-- there is more where changes after `n` are left, and then `n` is beyond `q`; its next cursor is valid
-- for the same owner and device in the stream as it now stands, at `n`; and the log and the payloads
-- stay as they were. This is where the libraries do what `CodecLaws` says.
pub pull_changes-Page :
    (env : Env) (codec : Codec) (laws : CodecLaws codec) (user : User) (device : ℕ)
    (cursor : Option Text) (size : ℕ) (s : Store) {r : PullResponse} {t : Store}
    → LogInOrder s
    → pull_changes env codec user device cursor size s ≡ (ok r, t)
    → (stream : Stream) × (q : ℕ) × (n : ℕ) × StartsAt codec cursor user.id device stream s q
      × Page codec user.id device stream q n r t
      × SameLog s t
      × StreamOf user.id s stream t
      × Fit env stream (row_of user.id device s)
unfolding pull_changes
pull_changes-Page env codec laws user device cursor size s {r} {t} o h =
    let (stream, s1, first, rest1) = continue-ok (the_stream env user.id s) _ (settle-ok s _ h) in
    let (d, s2, second, rest2) =
      continue-ok (device_cursor env user.id device stream false s1) _ rest1 in
    let w =
      steps-Page env codec laws user.id device cursor size stream d s s1 s2 t o first second
        rest2 in
    (stream, w.0, w.1, w.2, w.3, w.4, w.5, w.6)
