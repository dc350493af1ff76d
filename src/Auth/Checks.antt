-- ===== src/Auth/Checks.antt =====
-- What a credential is worth: the checks of testpaper_backend/security.py.
pub mod Live
use test_paper_backend.Base.{
  ℕ, ◌-◌, ◌*◌, Bool, true, false, ◌&&◌, ◌||◌, not, List, Option, none, some, ◌==◌, leb,
  if◌then◌else◌, is_some, update_by, Result, ok, err,
}
use test_paper_backend.Accounts.{User}
use test_paper_backend.Auth.Rows.{
  Account, Token, AuthStore, AuthEnv, AuthFailure, unauthorized, invalid_token, token_expired,
  account_disabled, sync_device_required, sync_actor_required, session_token, access_token,
  refresh_token, same_type, user_row_to_entity, find_token, delete_token, active_account, is_past,
  has_digest, text_or,
}
use test_paper_backend.Auth.Browser.{Auth}

-- `TOKEN_ACTIVITY_WRITE_INTERVAL`, in seconds
abbrev pub token_activity_write_interval : ℕ
token_activity_write_interval = 300

abbrev pub is_quiet : ℕ → Option ℕ → Bool
is_quiet now none = true
is_quiet now (some seen) = leb seen (now - token_activity_write_interval)

unfoldable pub seen_token : ℕ → Option ℕ → Token → Token
seen_token now ip t = record t {
  last_seen_at = some now;
  ip_address = (elim ip [ none ↦ t.ip_address | some a ↦ some a ]);
}

unfoldable pub note_activity : ℕ → Option ℕ → Token → AuthStore → AuthStore
note_activity now ip t s =
    if is_quiet now t.last_seen_at
    then record s { tokens = update_by (has_digest t.token) (seen_token now ip) s.tokens }
    else s

unfoldable pub user_of_token : AuthEnv → Option ℕ → Token → Auth User
user_of_token env ip t s =
    if is_some t.revoked_at
    then (err invalid_token, s)
    else if same_type t.token_type refresh_token
    then (err invalid_token, s)
    else if is_past env.now t
    then (err token_expired, delete_token t.token s)
    else (elim (active_account t.user_id s) [
      | none ↦ (err account_disabled, s)
      | some user ↦ (ok (user_row_to_entity user), note_activity env.now ip t s)
    ])

-- An empty token, or address, is `none`.
unfoldable pub get_user_from_token : AuthEnv → Option ℕ → Option ℕ → Auth User
get_user_from_token env none ip s = (err unauthorized, s)
get_user_from_token env (some token) ip s = elim (find_token (env.digest token) s) [
  | none ↦ (err invalid_token, s)
  | some t ↦ user_of_token env ip t s
]

-- `get_current_sync_device`, for the user that the same request was authenticated as
unfoldable pub get_current_sync_device : AuthEnv → ℕ → User → AuthStore → Result AuthFailure ℕ
get_current_sync_device env token user s = elim (find_token (env.digest token) s) [
  | none ↦ err sync_device_required
  | some t ↦
      let device : ℕ = text_or t.device_id 0 in
      if t.user_id == user.id && same_type t.token_type access_token && not (device == 0)
      then ok device
      else err sync_device_required
]

pub data Actor : Type 0 where
  native_device : ℕ → Actor
  -- "web-session:" and the start of the digest
  web_session : ℕ → Actor

unfoldable pub get_current_conflict_actor :
    AuthEnv → ℕ → User → AuthStore → Result AuthFailure Actor
get_current_conflict_actor env token user s = elim (find_token (env.digest token) s) [
  | none ↦ err unauthorized
  | some t ↦
      let device : ℕ = text_or t.device_id 0 in
      if not (t.user_id == user.id)
      then err unauthorized
      else if same_type t.token_type access_token && not (device == 0)
      then ok (native_device device)
      else if same_type t.token_type session_token
      then ok (web_session (env.digest token))
      else err sync_actor_required
]
