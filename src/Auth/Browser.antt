-- ===== src/Auth/Browser.antt =====
-- Sign-in, registration and browser sessions of testpaper_backend/services/auth_sessions.py. A function
-- that commits before it raises leaves what it committed beside the error.
use test_paper_backend.Base.{
  ℕ, suc, ◌+◌, Bool, true, false, ◌||◌, not, ◌∷◌, Option, none, some, ◌==◌, if◌then◌else◌, is_some,
  find_by, filter_by, update_by, any_by, ok, err, Tx,
}
use test_paper_backend.Accounts.{viewer}
use test_paper_backend.Auth.Rows.{
  Account, Token, AuthStore, AuthEnv, AuthFailure, AuthSession, unauthorized, invalid_credentials,
  invalid_token, token_expired, account_disabled, username_exists, session_token, same_type,
  user_row_to_entity, verify_password, find_token, delete_token, active_account, is_past,
}

abbrev pub Auth : Type 0 → Type 0
Auth = Tx AuthStore AuthFailure

pub record LoginRequest : Type 0 where
  pub username : ℕ
  pub password : ℕ

unfoldable pub new_session : AuthEnv → Account → ℕ → Token
new_session env user key = record {
  token = env.digest (env.secret key);
  user_id = user.id;
  token_type = session_token;
  device_id = none;
  device_name = none;
  ip_address = none;
  user_agent = none;
  last_seen_at = some env.now;
  family_id = none;
  revoked_at = none;
  created_at = env.now;
  expires_at = env.now + env.session_ttl;
}

-- `create_auth_session`: tokens that have expired are deleted, whoever they belong to.
unfoldable pub create_auth_session : AuthEnv → Account → Auth (ℕ × AuthSession)
create_auth_session env user s = (
  ok (
    env.secret s.serial,
    record { expires_at = env.now + env.session_ttl; user = user_row_to_entity user },
  ),
  record s {
    serial = suc s.serial;
    tokens =
        new_session env user s.serial ∷ filter_by (λ (t : Token). not (is_past env.now t)) s.tokens;
  },
)

unfoldable pub checked_password : AuthEnv → ℕ → Account → Bool × Bool → Auth Account
checked_password env password user (false, migrate) s = (err invalid_credentials, s)
checked_password env password user (true, false) s = (ok user, s)
checked_password env password user (true, true) s =
    let row : Account = record user { password_hash = env.hash password } in
    (
      ok row,
      record s { accounts = update_by (λ (a : Account). a.id == user.id) (λ _. row) s.accounts },
    )

-- `_verify_credentials`
unfoldable pub verify_credentials : AuthEnv → LoginRequest → Auth Account
verify_credentials env payload s =
    elim (find_by (λ (a : Account). a.username == env.normalized payload.username) s.accounts) [
      | none ↦ (err invalid_credentials, s)
      | some user ↦
          if user.is_active
          then checked_password env payload.password user
              (verify_password env payload.password user.password_hash) s
          else (err invalid_credentials, s)
    ]

unfoldable pub authenticate_user : AuthEnv → LoginRequest → Auth (ℕ × AuthSession)
authenticate_user env payload s =
    let (r, s') = verify_credentials env payload s in
    elim r [ err e ↦ (err e, s') | ok user ↦ create_auth_session env user s' ]

pub record RegisterRequest : Type 0 where
  pub username : ℕ
  pub display_name : ℕ
  pub password : ℕ

unfoldable pub new_account : AuthEnv → RegisterRequest → ℕ → Account
new_account env payload key = record {
  id = key;
  username = payload.username;
  display_name = payload.display_name;
  password_hash = env.hash payload.password;
  role = viewer;
  is_active = true;
  created_at = env.now;
  updated_at = env.now;
}

-- `register_user`; the constraint on user names can only fail by a race, which is not modelled.
unfoldable pub register_user : AuthEnv → RegisterRequest → Auth (ℕ × AuthSession)
register_user env payload s =
    if any_by (λ (a : Account). a.username == payload.username) s.accounts
    then (err username_exists, s)
    else (let row : Account = new_account env payload s.serial in
        create_auth_session env row
          (record s { serial = suc s.serial; accounts = row ∷ s.accounts }))

-- `revoke_auth_session`; no token and the empty one are `none`.
unfoldable pub revoke_auth_session : AuthEnv → Option ℕ → AuthStore → AuthStore
revoke_auth_session env none s = s
revoke_auth_session env (some token) s = delete_token (env.digest token) s

unfoldable pub renew_session : AuthEnv → Token → Auth (ℕ × AuthSession)
renew_session env row s =
    if not (same_type row.token_type session_token) || is_some row.revoked_at
    then (err invalid_token, s)
    else if is_past env.now row
    then (err token_expired, delete_token row.token s)
    else (elim (active_account row.user_id s) [
      | none ↦ (err account_disabled, delete_token row.token s)
      | some user ↦ create_auth_session env user (delete_token row.token s)
    ])

unfoldable pub refresh_auth_session : AuthEnv → Option ℕ → Auth (ℕ × AuthSession)
refresh_auth_session env none s = (err unauthorized, s)
refresh_auth_session env (some token) s = elim (find_token (env.digest token) s) [
  | none ↦ (err invalid_token, s)
  | some row ↦ renew_session env row s
]
