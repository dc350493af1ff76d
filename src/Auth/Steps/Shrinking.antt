-- ===== src/Auth/Steps/Shrinking.antt =====
-- The steps that make no token live: browser sessions, requests and revocations.
use test_paper_backend.Base.{
  ℕ, suc, ◌≡◌, refl, Bool, true, false, ◌||◌, not, ◌∷◌, Option, none, some, ◌==◌, arith, is_some,
  inl, inr, Bool-cases, Option-cases, find_by, any_by, Result, ok, err,
}
use test_paper_backend.Auth.Rows.{
  Account, Token, AuthStore, AuthEnv, AuthFailure, AuthSession, account_disabled, session_token,
  same_type, verify_password, find_token, delete_token, active_account, is_past, has_digest,
  log_audit_event,
}
use test_paper_backend.Auth.Browser.{
  LoginRequest, RegisterRequest, new_session, create_auth_session, checked_password,
  verify_credentials, authenticate_user, new_account, register_user, revoke_auth_session,
  renew_session, refresh_auth_session,
}
use test_paper_backend.Auth.Native.Families.{is_live, NoNewLive, count-filter_by, count-update_by}
use test_paper_backend.Auth.Checks.{user_of_token, note_activity, seen_token, get_user_from_token}
use test_paper_backend.Auth.Devices.{of_device, revoke_device}

delete_token-NoNewLive : (d : ℕ) (s : AuthStore) → NoNewLive s (delete_token d s)
unfolding delete_token
delete_token-NoNewLive d s kind f =
    count-filter_by (is_live kind f) (λ (t : Token). not (has_digest d t)) s.tokens

pub same-NoNewLive : (s t : AuthStore) → t.tokens ≡ s.tokens → NoNewLive s t
same-NoNewLive s t h kind f = rw h (omega arith)

NoNewLive-trans : (s t u : AuthStore) → NoNewLive s t → NoNewLive t u → NoNewLive s u
NoNewLive-trans s t u h k kind f = omega (arith, h kind f, k kind f)

create_auth_session-NoNewLive :
    (env : AuthEnv) (user : Account) (s : AuthStore)
    → NoNewLive s (create_auth_session env user s).1
unfolding create_auth_session new_session
create_auth_session-NoNewLive env user s kind f =
    ground
      (arith, count-filter_by (is_live kind f) (λ (t : Token). not (is_past env.now t)) s.tokens)

checked_password-tokens :
    (env : AuthEnv) (password : ℕ) (user : Account) (v : Bool × Bool) (s : AuthStore)
    → ((checked_password env password user v s).1.tokens ≡ s.tokens)
      × ((checked_password env password user v s).1.serial ≡ s.serial)
unfolding checked_password
checked_password-tokens env password user (false, m) s = (refl, refl)
checked_password-tokens env password user (true, false) s = (refl, refl)
checked_password-tokens env password user (true, true) s = (refl, refl)

pub verify_credentials-tokens :
    (env : AuthEnv) (payload : LoginRequest) (s : AuthStore)
    → ((verify_credentials env payload s).1.tokens ≡ s.tokens)
      × ((verify_credentials env payload s).1.serial ≡ s.serial)
unfolding verify_credentials
verify_credentials-tokens env payload s =
    elim (Option-cases
      (find_by (λ (a : Account). a.username == env.normalized payload.username) s.accounts)) [
        | inl no_account ↦ ground arith
        | inr (user, found) ↦
            let same =
              checked_password-tokens env payload.password user
                (verify_password env payload.password user.password_hash) s in
            ground (arith, same)
      ]

pub authenticate_user-NoNewLive :
    (env : AuthEnv) (payload : LoginRequest) (s : AuthStore)
    → NoNewLive s (authenticate_user env payload s).1
unfolding authenticate_user
authenticate_user-NoNewLive env payload s = signed (verify_credentials env payload s) (
    same-NoNewLive s (verify_credentials env payload s).1
      (verify_credentials-tokens env payload s).0)
  where
    signed :
        (r : Result AuthFailure Account × AuthStore)
        → NoNewLive s r.1
        → NoNewLive s
            (elim r.0 as (λ _. Result AuthFailure (ℕ × AuthSession) × AuthStore) [
              | ok user ↦ create_auth_session env user r.1
              | err e ↦ (err e, r.1)
            ]).1
    signed (ok user, s') h =
        NoNewLive-trans s s' (create_auth_session env user s').1 h
          (create_auth_session-NoNewLive env user s')
    signed (err e, s') h = h

renew_session-NoNewLive :
    (env : AuthEnv) (row : Token) (s : AuthStore) → NoNewLive s (renew_session env row s).1
unfolding renew_session
renew_session-NoNewLive env row s =
    let dropped = delete_token-NoNewLive row.token s in
    elim (Bool-cases (not (same_type row.token_type session_token) || is_some row.revoked_at)) [
      | inl unfit ↦ rw unfit (same-NoNewLive s s refl)
      | inr fit ↦ elim (Bool-cases (is_past env.now row)) [
        | inl past ↦ rw (fit, past) dropped
        | inr current ↦ rw (fit, current) (renewed (active_account row.user_id s))
      ]
    ]
  where
    renewed :
        (o : Option Account)
        → NoNewLive s
            (elim o as (λ _. Result AuthFailure (ℕ × AuthSession) × AuthStore) [
              | none ↦ (err account_disabled, delete_token row.token s)
              | some user ↦ create_auth_session env user (delete_token row.token s)
            ]).1
    renewed none = delete_token-NoNewLive row.token s
    renewed (some user) =
        NoNewLive-trans s (delete_token row.token s)
          (create_auth_session env user (delete_token row.token s)).1
          (delete_token-NoNewLive row.token s)
          (create_auth_session-NoNewLive env user (delete_token row.token s))

pub refresh_auth_session-NoNewLive :
    (env : AuthEnv) (token : Option ℕ) (s : AuthStore)
    → NoNewLive s (refresh_auth_session env token s).1
unfolding refresh_auth_session
refresh_auth_session-NoNewLive env none s kind f = omega arith
refresh_auth_session-NoNewLive env (some token) s kind f =
    elim (Option-cases (find_token (env.digest token) s)) [
      | inl no_row ↦ ground arith
      | inr (row, found) ↦ ground (arith, renew_session-NoNewLive env row s kind f)
    ]

pub revoke_auth_session-NoNewLive :
    (env : AuthEnv) (token : Option ℕ) (s : AuthStore)
    → NoNewLive s (revoke_auth_session env token s)
unfolding revoke_auth_session
revoke_auth_session-NoNewLive env none s = same-NoNewLive s s refl
revoke_auth_session-NoNewLive env (some token) s = delete_token-NoNewLive (env.digest token) s

pub register_user-NoNewLive :
    (env : AuthEnv) (payload : RegisterRequest) (s : AuthStore)
    → NoNewLive s (register_user env payload s).1
unfolding register_user
register_user-NoNewLive env payload s =
    elim (Bool-cases (any_by (λ (a : Account). a.username == payload.username) s.accounts)) [
      | inl taken ↦ rw taken (same-NoNewLive s s refl)
      | inr free ↦ rw free (
          create_auth_session-NoNewLive env (new_account env payload s.serial) (record s {
            serial = suc s.serial;
            accounts = new_account env payload s.serial ∷ s.accounts;
          }))
    ]

note_activity-NoNewLive :
    (now : ℕ) (ip : Option ℕ) (row : Token) (s : AuthStore)
    → NoNewLive s (note_activity now ip row s)
unfolding note_activity seen_token
note_activity-NoNewLive now ip row s kind f = ground (
  arith,
  count-update_by (is_live kind f) (has_digest row.token) (seen_token now ip) s.tokens (λ t h. h),
)

user_of_token-NoNewLive :
    (env : AuthEnv) (ip : Option ℕ) (row : Token) (s : AuthStore)
    → NoNewLive s (user_of_token env ip row s).1
unfolding user_of_token
user_of_token-NoNewLive env ip row s kind f = ground (
  arith,
  delete_token-NoNewLive row.token s kind f,
  note_activity-NoNewLive env.now ip row s kind f,
)

pub get_user_from_token-NoNewLive :
    (env : AuthEnv) (token ip : Option ℕ) (s : AuthStore)
    → NoNewLive s (get_user_from_token env token ip s).1
unfolding get_user_from_token
get_user_from_token-NoNewLive env none ip s kind f = omega arith
get_user_from_token-NoNewLive env (some token) ip s kind f =
    elim (Option-cases (find_token (env.digest token) s)) [
      | inl no_row ↦ ground arith
      | inr (row, found) ↦ ground (arith, user_of_token-NoNewLive env ip row s kind f)
    ]

pub revoke_device-NoNewLive :
    (env : AuthEnv) (user device ip : ℕ) (current : Option ℕ) (s : AuthStore)
    → NoNewLive s (revoke_device env user device ip current s).1
unfolding revoke_device log_audit_event
revoke_device-NoNewLive env user device ip current s kind f = ground (
  arith,
  count-filter_by (is_live kind f) (λ (t : Token). not (of_device user device t)) s.tokens,
)
