-- ===== src/Auth/Tests.antt =====
-- Sign-ins and rotations of a concrete account, and the theorems about them there.
use test_paper_backend.Base.{
  ℕ, ◌+◌, ◌≡◌, refl, true, false, none, some, [], ◌∷◌, err, arith, ◌==◌, find_by, filter_by, any_by,
  order_by,
}
use test_paper_backend.Accounts.{User, teacher}
use test_paper_backend.Auth.Rows.{
  Account, Token, AuthStore, AuthEnv, TokenPair, DeviceInfo, token_reused, verify_password,
  permissions_for_role, user_row_to_entity, find_token, delete_token, find_account, active_account,
  log_audit_event, refresh_token,
}
use test_paper_backend.Auth.Browser.{LoginRequest, verify_credentials, checked_password}
use test_paper_backend.Auth.Native.{
  new_token, issue_token_pair, login_pair, authenticate_native, consumed, consume_token, in_family,
  revoked, revoke_family, revoke_access, refuse_token, effective_device, disable_family,
  family_or_new, rotate_pair, rotate_token, refresh_token_pair,
}
use test_paper_backend.Auth.Native.Reuse.{refresh_token_pair-replayed}
use test_paper_backend.Auth.Native.Families.{OneLive}
use test_paper_backend.Auth.Checks.{user_of_token, note_activity, seen_token, get_user_from_token}
use test_paper_backend.Auth.Checks.Live.{Credential, get_user_from_token-Credential}
use test_paper_backend.Auth.Devices.{
  is_session, first_session, merged_session, add_session, device_sessions,
}
use test_paper_backend.Auth.Devices.Summary.{has_device, summary, device_sessions-summary}
use test_paper_backend.Auth.Steps.{Step, Reaches, Reaches-OneLive}

abbrev env_at : ℕ → AuthEnv
env_at t = record {
  now = t;
  secret = λ n. n + 1000;
  uuid = λ n. n + 500;
  digest = λ n. n;
  is_argon2 = λ h. true;
  argon2_verify = λ h p. h == p;
  pbkdf2_verify = λ p h. false;
  hash = λ p. p;
  normalized = λ n. n;
  session_ttl = 100;
  access_ttl = 10;
  refresh_ttl = 50;
}

abbrev ada : Account
ada = record {
  id = 7;
  username = 3;
  display_name = 3;
  password_hash = 9;
  role = teacher;
  is_active = true;
  created_at = 0;
  updated_at = 0;
}

abbrev start : AuthStore
start = record { serial = 1; accounts = ada ∷ []; tokens = []; audits = [] }

abbrev phone : DeviceInfo
phone = record { device_id = 5; device_name = 6; ip_address = 8; user_agent = none }

abbrev credentials : LoginRequest
credentials = record { username = 3; password = 9 }

abbrev steps : ℕ
unfolding verify_password permissions_for_role user_row_to_entity find_token delete_token
    find_account active_account log_audit_event verify_credentials checked_password new_token
    issue_token_pair login_pair authenticate_native consumed consume_token revoked revoke_family
    revoke_access refuse_token effective_device disable_family family_or_new rotate_pair
    rotate_token refresh_token_pair user_of_token note_activity seen_token get_user_from_token
    first_session merged_session add_session device_sessions order_by
steps = 0

-- A device signs in: its refresh token is the secret 1002, its access token 1003, its family 501.
abbrev signed_in : AuthStore
unfolding steps
signed_in = (authenticate_native (env_at 10) credentials phone start).1

abbrev first_row : Token
unfolding steps
first_row = new_token (env_at 10) refresh_token 7 50 phone 501 2

abbrev second_pair : TokenPair
unfolding steps
second_pair = record {
  access_token = 1005;
  refresh_token = 1004;
  expires_in = 10;
  refresh_expires_in = 50;
  user = user_row_to_entity ada;
}

abbrev rotated : AuthStore
unfolding steps
rotated = (refresh_token_pair (env_at 20) 1002 none signed_in).1

refresh_token_pair-replayed_example :
    (u : AuthStore) × (refresh_token_pair (env_at 30) 1002 none rotated ≡ (err token_reused, u))
    × (any_by (in_family 501) u.tokens ≡ false)
unfolding steps
refresh_token_pair-replayed_example =
    refresh_token_pair-replayed (env_at 20) 1002 501 30 none none first_row signed_in
      {pair = second_pair} {t = rotated} (ground arith, ground arith) refl refl refl

abbrev ada_user : User
unfolding steps
ada_user = user_row_to_entity ada

abbrev after_request : AuthStore
unfolding steps
after_request = (get_user_from_token (env_at 12) (some 1003) none signed_in).1

get_user_from_token-Credential_example :
    Credential (env_at 12) 1003 signed_in ada_user
    × (after_request.accounts ≡ signed_in.accounts)
    × (after_request.audits ≡ signed_in.audits)
unfolding steps
get_user_from_token-Credential_example =
    get_user_from_token-Credential (env_at 12) 1003 none signed_in {user = ada_user}
      {t = after_request} refl

device_sessions-summary_example :
    find_by (is_session 5) (device_sessions (some 1003) signed_in.tokens [])
    ≡ summary (some 1003) 5 (filter_by (has_device 5) signed_in.tokens)
device_sessions-summary_example = device_sessions-summary (some 1003) 5 signed_in.tokens

start-OneLive : OneLive start
start-OneLive = record { refreshing = λ f. omega arith; accessing = λ f. omega arith }

run : Reaches start rotated
unfolding steps
run =
    Reaches.next (Step.native (env_at 10) credentials phone refl)
      (Reaches.next (Step.rotate (env_at 20) 1002 none refl) Reaches.done)

Reaches-OneLive_example : OneLive rotated
Reaches-OneLive_example = Reaches-OneLive run start-OneLive
