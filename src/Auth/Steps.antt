-- ===== src/Auth/Steps.antt =====
-- Runs of the services of signing in, as sequences of steps on one store.
mod Shrinking
pub mod Pairs
use test_paper_backend.Base.{
  ℕ, zero, suc, ◌+◌, ◌≡◌, ◌≤◌, refl, sym, ap, ◌∙◌, subst, Bool, true, false, ◌&&◌, ◌||◌, not, List,
  [], ◌∷◌, Option, none, some, ◌==◌, arith, if◌then◌else◌, is_some, is_the, inl, inr, Bool-cases,
  Option-cases, Result-cases, length, find_by, filter_by, any_by, any_by-unseen, update_by, Result,
  ok, err,
}
use test_paper_backend.Accounts.{User}
use test_paper_backend.Auth.Rows.{
  Account, Token, TokenType, AuthStore, AuthEnv, AuthFailure, AuthSession, TokenPair, AuditEvent,
  account_disabled, invalid_token, session_token, DeviceInfo, access_token, refresh_token,
  same_type, verify_password, find_token, delete_token, active_account, is_past, has_digest,
  log_audit_event, login, refresh, device_revoked,
}
use test_paper_backend.Auth.Browser.{
  LoginRequest, RegisterRequest, new_session, create_auth_session, checked_password,
  verify_credentials, authenticate_user, new_account, register_user, revoke_auth_session,
  renew_session, refresh_auth_session,
}
use test_paper_backend.Auth.Native.{
  issue_token_pair, login_pair, authenticate_native, is_consumable, consumed, consume_token,
  real_family, revoke_family, revoke_access, refuse_token, effective_device, disable_family,
  family_or_new, rotate_pair, rotate_token, refresh_token_pair,
}
use test_paper_backend.Auth.Native.Families.{
  is_live, live_count, OneLive, NoNewLive, NoNewLive-OneLive, count-none, count-filter_by,
  count-update_by, issue_token_pair-OneLive, revoke_access-NoNewLive, revoke_access-none,
  revoke_family-NoNewLive, consume_token-NoNewLive, consume_token-none,
}
use test_paper_backend.Auth.Checks.{user_of_token, note_activity, seen_token, get_user_from_token}
use test_paper_backend.Auth.Devices.{of_device, is_current, revoke_device}
use test_paper_backend.Auth.Steps.Shrinking.{
  authenticate_user-NoNewLive, refresh_auth_session-NoNewLive, revoke_auth_session-NoNewLive,
  register_user-NoNewLive, get_user_from_token-NoNewLive, revoke_device-NoNewLive,
}
use test_paper_backend.Auth.Steps.Pairs.{
  FreshFamily, authenticate_native-OneLive, refresh_token_pair-OneLive,
}

pub data Step : AuthStore → AuthStore → Type 0 where
  sign_in :
      {s : AuthStore} (env : AuthEnv) (payload : LoginRequest)
      → Step s (authenticate_user env payload s).1
  register :
      {s : AuthStore} (env : AuthEnv) (payload : RegisterRequest)
      → Step s (register_user env payload s).1
  sign_out :
      {s : AuthStore} (env : AuthEnv) (token : Option ℕ) → Step s (revoke_auth_session env token s)
  renew :
      {s : AuthStore} (env : AuthEnv) (token : Option ℕ)
      → Step s (refresh_auth_session env token s).1
  native :
      {s : AuthStore} (env : AuthEnv) (payload : LoginRequest) (device : DeviceInfo)
      → FreshFamily env s
      → Step s (authenticate_native env payload device s).1
  rotate :
      {s : AuthStore} (env : AuthEnv) (token : ℕ) (device : Option DeviceInfo)
      → FreshFamily env s
      → Step s (refresh_token_pair env token device s).1
  request :
      {s : AuthStore} (env : AuthEnv) (token ip : Option ℕ)
      → Step s (get_user_from_token env token ip s).1
  drop_device :
      {s : AuthStore} (env : AuthEnv) (user device ip : ℕ) (current : Option ℕ)
      → Step s (revoke_device env user device ip current s).1

pub data Reaches : AuthStore → AuthStore → Type 0 where
  done : {s : AuthStore} → Reaches s s
  next : {s t u : AuthStore} → Step s t → Reaches t u → Reaches s u

Step-OneLive : (s t : AuthStore) → Step s t → OneLive s → OneLive t
Step-OneLive s _ (Step.sign_in env payload) w =
    NoNewLive-OneLive s _ (authenticate_user-NoNewLive env payload s) w
Step-OneLive s _ (Step.register env payload) w =
    NoNewLive-OneLive s _ (register_user-NoNewLive env payload s) w
Step-OneLive s _ (Step.sign_out env token) w =
    NoNewLive-OneLive s _ (revoke_auth_session-NoNewLive env token s) w
Step-OneLive s _ (Step.renew env token) w =
    NoNewLive-OneLive s _ (refresh_auth_session-NoNewLive env token s) w
Step-OneLive s _ (Step.native env payload device fresh) w =
    authenticate_native-OneLive env payload device s fresh w
Step-OneLive s _ (Step.rotate env token device fresh) w =
    refresh_token_pair-OneLive env token device s fresh w
Step-OneLive s _ (Step.request env token ip) w =
    NoNewLive-OneLive s _ (get_user_from_token-NoNewLive env token ip s) w
Step-OneLive s _ (Step.drop_device env user device ip current) w =
    NoNewLive-OneLive s _ (revoke_device-NoNewLive env user device ip current s) w

-- Along every run of sign-ins, registrations, renewals, rotations, requests and revocations that
-- starts where no family has two live refresh tokens or two live access tokens, none ever gets them,
-- as long as each new family has a name that is not in use.
pub Reaches-OneLive : {s t : AuthStore} → Reaches s t → OneLive s → OneLive t
Reaches-OneLive Reaches.done w = w
Reaches-OneLive {s} (Reaches.next {t = t} step rest) w =
    Reaches-OneLive rest (Step-OneLive s t step w)
