-- ===== src/Auth/Steps/Pairs.antt =====
-- The steps that give out token pairs: native sign-in and rotation.
use test_paper_backend.Base.{
  ℕ, suc, ◌≡◌, refl, ◌∙◌, true, false, Option, none, some, arith, is_the, inl, inr, Bool-cases,
  Option-cases, any_by, any_by-unseen, Result, ok, err,
}
use test_paper_backend.Auth.Rows.{
  Account, Token, AuthStore, AuthEnv, AuthFailure, TokenPair, AuditEvent, account_disabled,
  invalid_token, DeviceInfo, access_token, refresh_token, find_token, active_account, is_past,
  has_digest, log_audit_event, login, refresh,
}
use test_paper_backend.Auth.Browser.{LoginRequest, verify_credentials}
use test_paper_backend.Auth.Native.{
  issue_token_pair, login_pair, authenticate_native, is_consumable, consumed, consume_token,
  real_family, revoke_access, refuse_token, effective_device, disable_family, family_or_new,
  rotate_pair, rotate_token, refresh_token_pair,
}
use test_paper_backend.Auth.Native.Families.{
  live_count, OneLive, NoNewLive, NoNewLive-OneLive, count-none, issue_token_pair-OneLive,
  revoke_access-NoNewLive, revoke_access-none, revoke_family-NoNewLive, consume_token-NoNewLive,
  consume_token-none,
}
use test_paper_backend.Auth.Steps.Shrinking.{same-NoNewLive, verify_credentials-tokens}

-- The name that the server draws for the next family is not in use.
abbrev pub FreshFamily : AuthEnv → AuthStore → Type 0
FreshFamily env s = any_by (λ (t : Token). is_the t.family_id (env.uuid s.serial)) s.tokens ≡ false

logged-OneLive :
    (now user : ℕ) (device : Option ℕ) (event : AuditEvent) (ip : ℕ) (s : AuthStore)
    → OneLive s
    → OneLive (log_audit_event now user device event ip s)
unfolding log_audit_event
logged-OneLive now user device event ip s w = record {
  refreshing = w.refreshing;
  accessing = w.accessing;
}

login_pair-OneLive :
    (env : AuthEnv) (user : Account) (device : DeviceInfo) (s : AuthStore)
    → FreshFamily env s
    → OneLive s
    → OneLive (login_pair env user device s).1
unfolding login_pair
login_pair-OneLive env user device s fresh w =
    let s' : AuthStore = record s { serial = suc s.serial } in
    logged-OneLive env.now user.id (some device.device_id) login device.ip_address _ (
      issue_token_pair-OneLive env user device (env.uuid s.serial) s'
        (record { refreshing = w.refreshing; accessing = w.accessing })
        (count-none (env.uuid s.serial) refresh_token s.tokens fresh)
        (count-none (env.uuid s.serial) access_token s.tokens fresh))

pub authenticate_native-OneLive :
    (env : AuthEnv) (payload : LoginRequest) (device : DeviceInfo) (s : AuthStore)
    → FreshFamily env s
    → OneLive s
    → OneLive (authenticate_native env payload device s).1
unfolding authenticate_native
authenticate_native-OneLive env payload device s fresh w =
    let (tokens, serial) = verify_credentials-tokens env payload s in
    signed (verify_credentials env payload s)
      (same-NoNewLive s (verify_credentials env payload s).1 tokens)
      (ground (arith, fresh, tokens, serial))
  where
    signed :
        (r : Result AuthFailure Account × AuthStore)
        → NoNewLive s r.1
        → FreshFamily env r.1
        → OneLive
            (elim r.0 as (λ _. Result AuthFailure TokenPair × AuthStore) [
              | ok user ↦ login_pair env user device r.1
              | err e ↦ (err e, r.1)
            ]).1
    signed (ok user, s') h free =
        login_pair-OneLive env user device s' free (NoNewLive-OneLive s s' h w)
    signed (err e, s') h free = NoNewLive-OneLive s s' h w

-- With a family that has no live refresh token, on a store that keeps the invariant.
issued-OneLive :
    (env : AuthEnv) (user : Account) (info : DeviceInfo) (f : ℕ) (s : AuthStore)
    → OneLive s
    → live_count refresh_token f s.tokens ≡ 0
    → OneLive (issue_token_pair env user info f (revoke_access env.now f s)).1
issued-OneLive env user info f s w none_live =
    let fewer = revoke_access-NoNewLive env.now f s in
    issue_token_pair-OneLive env user info f (revoke_access env.now f s)
      (NoNewLive-OneLive s (revoke_access env.now f s) fewer w)
      (omega (arith, fewer refresh_token f, none_live)) (revoke_access-none env.now f s)

-- No live refresh token is left in the family that the row's rotation takes effect in.
abbrev Cleared : AuthEnv → Option ℕ → AuthStore → Type 0
Cleared env none s = FreshFamily env s
Cleared env (some f) s = live_count refresh_token f s.tokens ≡ 0

family_or_new-OneLive :
    (env : AuthEnv) (o : Option ℕ) (s : AuthStore)
    → OneLive s
    → Cleared env o s
    → OneLive (family_or_new env o s).1
      × (live_count refresh_token (family_or_new env o s).0 (family_or_new env o s).1.tokens ≡ 0)
unfolding family_or_new
family_or_new-OneLive env none s w free = (
  record { refreshing = w.refreshing; accessing = w.accessing },
  count-none (env.uuid s.serial) refresh_token s.tokens free,
)
family_or_new-OneLive env (some f) s w gone = (w, gone)

rotate_pair-OneLive :
    (env : AuthEnv) (user : Account) (device : Option DeviceInfo) (row : Token) (s : AuthStore)
    → OneLive s
    → Cleared env (real_family row.family_id) s
    → OneLive (rotate_pair env user device row s).1
unfolding rotate_pair
rotate_pair-OneLive env user device row s w cleared =
    let (family, s1) = family_or_new env (real_family row.family_id) s in
    let info : DeviceInfo = effective_device device row in
    let (w', gone) = family_or_new-OneLive env (real_family row.family_id) s w cleared in
    logged-OneLive env.now user.id (some info.device_id) refresh info.ip_address
      (issue_token_pair env user info family (revoke_access env.now family s1)).1
      (issued-OneLive env user info family s1 w' gone)

disable_family-NoNewLive :
    (env : AuthEnv) (o : Option ℕ) (s : AuthStore) → NoNewLive s (disable_family env o s)
unfolding disable_family
disable_family-NoNewLive env none s = same-NoNewLive s s refl
disable_family-NoNewLive env (some f) s = revoke_family-NoNewLive env.now f s

rotate_token-OneLive :
    (env : AuthEnv) (device : Option DeviceInfo) (row : Token) (s : AuthStore)
    → OneLive s
    → Cleared env (real_family row.family_id) s
    → OneLive (rotate_token env device row s).1
unfolding rotate_token
rotate_token-OneLive env device row s w cleared = elim (Bool-cases (is_past env.now row)) [
  | inl past ↦ rw past w
  | inr current ↦ rw current (rotated (active_account row.user_id s))
]
  where
    rotated :
        (o : Option Account)
        → OneLive
            (elim o as (λ _. Result AuthFailure TokenPair × AuthStore) [
              | none ↦ (err account_disabled, disable_family env (real_family row.family_id) s)
              | some user ↦ rotate_pair env user device row s
            ]).1
    rotated none =
        NoNewLive-OneLive s (disable_family env (real_family row.family_id) s)
          (disable_family-NoNewLive env (real_family row.family_id) s) w
    rotated (some user) = rotate_pair-OneLive env user device row s w cleared

refuse_token-NoNewLive :
    (env : AuthEnv) (row : Token) (s : AuthStore) → NoNewLive s (refuse_token env row s).1
unfolding refuse_token log_audit_event
refuse_token-NoNewLive env row s kind f = elim (Option-cases (real_family row.family_id)) [
  | inl no_family ↦ ground arith
  | inr (g, family) ↦ ground (arith, revoke_family-NoNewLive env.now g s kind f)
]

consume_token-FreshFamily :
    (env : AuthEnv) (d : ℕ) (s : AuthStore)
    → FreshFamily env s
    → FreshFamily env (consume_token env.now d s)
unfolding consume_token consumed
consume_token-FreshFamily env d s fresh =
    any_by-unseen (λ (t : Token). is_the t.family_id (env.uuid s.serial)) (has_digest d)
      (consumed env.now) s.tokens (λ t. refl)
    ∙ fresh

consumed-Cleared :
    (env : AuthEnv) (d : ℕ) (row : Token) (o : Option ℕ) (s : AuthStore)
    → OneLive s
    → find_token d s ≡ some row
    → is_consumable row ≡ true
    → real_family row.family_id ≡ o
    → FreshFamily env s
    → Cleared env o (consume_token env.now d s)
consumed-Cleared env d row (some f) s w found live family fresh =
    consume_token-none env.now d f row s w found live family
consumed-Cleared env d row none s w found live family fresh =
    consume_token-FreshFamily env d s fresh

module _ (env : AuthEnv) (token : ℕ) (device : Option DeviceInfo) (s : AuthStore) where
  refresh_token_pair-none :
      find_token (env.digest token) s ≡ none
      → refresh_token_pair env token device s ≡ (err invalid_token, s)
  unfolding refresh_token_pair
  refresh_token_pair-none h = ground arith

  refresh_token_pair-refused :
      (row : Token)
      → find_token (env.digest token) s ≡ some row
      → is_consumable row ≡ false
      → refresh_token_pair env token device s ≡ refuse_token env row s
  unfolding refresh_token_pair
  refresh_token_pair-refused row h k = ground arith

  refresh_token_pair-consumed :
      (row : Token)
      → find_token (env.digest token) s ≡ some row
      → is_consumable row ≡ true
      → refresh_token_pair env token device s
        ≡ rotate_token env device row (consume_token env.now (env.digest token) s)
  unfolding refresh_token_pair
  refresh_token_pair-consumed row h k = ground arith

pub refresh_token_pair-OneLive :
    (env : AuthEnv) (token : ℕ) (device : Option DeviceInfo) (s : AuthStore)
    → FreshFamily env s
    → OneLive s
    → OneLive (refresh_token_pair env token device s).1
refresh_token_pair-OneLive env token device s fresh w =
    elim (Option-cases (find_token (env.digest token) s)) [
      | inl no_row ↦ let same = refresh_token_pair-none env token device s no_row in rw same w
      | inr (row, found) ↦ elim (Bool-cases (is_consumable row)) [
        | inr spent ↦
            let same = refresh_token_pair-refused env token device s row found spent in
            rw same
              (NoNewLive-OneLive s (refuse_token env row s).1 (refuse_token-NoNewLive env row s) w)
        | inl live ↦
            let s' : AuthStore = consume_token env.now (env.digest token) s in
            let same = refresh_token_pair-consumed env token device s row found live in
            rw same (
              rotate_token-OneLive env device row s'
                (NoNewLive-OneLive s s' (consume_token-NoNewLive env.now (env.digest token) s) w)
                (consumed-Cleared env (env.digest token) row (real_family row.family_id) s w found
                  live refl fresh))
      ]
    ]
