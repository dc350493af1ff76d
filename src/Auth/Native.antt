-- ===== src/Auth/Native.antt =====
-- Token pairs of native devices: the second half of testpaper_backend/services/auth_sessions.py.
pub mod Reuse
pub mod Families
use test_paper_backend.Base.{
  ℕ, suc, ◌+◌, Bool, true, false, ◌&&◌, not, List, [], ◌∷◌, Option, none, some, ◌==◌, if◌then◌else◌,
  is_some, is_none, is_the, find_by, filter_by, update_by, Result, ok, err,
}
use test_paper_backend.Auth.Rows.{
  Account, Token, TokenType, AuthStore, AuthEnv, AuthFailure, TokenPair, DeviceInfo, invalid_token,
  token_expired, token_reused, account_disabled, access_token, refresh_token, same_type, login,
  refresh, refresh_reuse, user_row_to_entity, find_token, active_account, is_past, has_digest,
  text_or, log_audit_event,
}
use test_paper_backend.Auth.Browser.{Auth, LoginRequest, verify_credentials}

-- `_create_token_row`, for a device
unfoldable pub new_token : AuthEnv → TokenType → ℕ → ℕ → DeviceInfo → ℕ → ℕ → Token
new_token env kind user ttl device family key = record {
  token = env.digest (env.secret key);
  user_id = user;
  token_type = kind;
  device_id = some device.device_id;
  device_name = some device.device_name;
  ip_address = some device.ip_address;
  user_agent = device.user_agent;
  last_seen_at = some env.now;
  family_id = some family;
  revoked_at = none;
  created_at = env.now;
  expires_at = env.now + ttl;
}

-- `_issue_token_pair_for_user`, with the family it takes effect in
unfoldable pub issue_token_pair :
    AuthEnv → Account → DeviceInfo → ℕ → AuthStore → TokenPair × AuthStore
issue_token_pair env user device family s = (
  record {
    access_token = env.secret (suc s.serial);
    refresh_token = env.secret s.serial;
    expires_in = env.access_ttl;
    refresh_expires_in = env.refresh_ttl;
    user = user_row_to_entity user;
  },
  record s {
    serial = suc (suc s.serial);
    tokens =
        new_token env access_token user.id env.access_ttl device family (suc s.serial)
        ∷ new_token env refresh_token user.id env.refresh_ttl device family s.serial
        ∷ s.tokens;
  },
)

-- The name of a new family takes a key of its own.
unfoldable pub login_pair : AuthEnv → Account → DeviceInfo → Auth TokenPair
login_pair env user device s =
    let (pair, s') =
      issue_token_pair env user device (env.uuid s.serial) (record s { serial = suc s.serial }) in
    (ok pair, log_audit_event env.now user.id (some device.device_id) login device.ip_address s')

unfoldable pub authenticate_native : AuthEnv → LoginRequest → DeviceInfo → Auth TokenPair
authenticate_native env payload device s =
    let (r, s') = verify_credentials env payload s in
    elim r [ err e ↦ (err e, s') | ok user ↦ login_pair env user device s' ]

-- A token that `consume` updates, where it has the presented digest, which is the table's key.
abbrev pub is_consumable : Token → Bool
is_consumable t = same_type t.token_type refresh_token && is_none t.revoked_at

unfoldable pub consumed : ℕ → Token → Token
consumed now t = record t { revoked_at = some now; last_seen_at = some now }

unfoldable pub consume_token : ℕ → ℕ → AuthStore → AuthStore
consume_token now d s = record s { tokens = update_by (has_digest d) (consumed now) s.tokens }

-- A truthy `family_id`
abbrev pub real_family : Option ℕ → Option ℕ
real_family none = none
real_family (some f) = if f == 0 then none else some f

abbrev pub in_family : ℕ → Token → Bool
in_family f t = is_the t.family_id f && is_none t.revoked_at

unfoldable pub revoked : ℕ → Token → Token
revoked now t = record t { revoked_at = some now }

unfoldable pub revoke_family : ℕ → ℕ → AuthStore → AuthStore
revoke_family now f s = record s { tokens = update_by (in_family f) (revoked now) s.tokens }

unfoldable pub revoke_access : ℕ → ℕ → AuthStore → AuthStore
revoke_access now f s = record s {
  tokens =
      update_by (λ (t : Token). in_family f t && same_type t.token_type access_token) (revoked now)
        s.tokens;
}

-- The texts "unknown-device", "Unknown device" and "unknown"
abbrev pub unknown_device : ℕ
unknown_device = 1

abbrev pub unknown_name : ℕ
unknown_name = 2

abbrev pub unknown_ip : ℕ
unknown_ip = 3

-- The presented token is no live refresh token: it may be one that was rotated before.
unfoldable pub refuse_token : AuthEnv → Token → Auth TokenPair
refuse_token env known s = elim (real_family known.family_id) [
  | none ↦ (err invalid_token, s)
  | some f ↦
      if same_type known.token_type refresh_token && is_some known.revoked_at
      then (
        err token_reused,
        log_audit_event env.now known.user_id known.device_id refresh_reuse
            (text_or known.ip_address unknown_ip) (revoke_family env.now f s),
      )
      else (err invalid_token, s)
]

unfoldable pub effective_device : Option DeviceInfo → Token → DeviceInfo
effective_device (some device) row = device
effective_device none row = record {
  device_id = text_or row.device_id unknown_device;
  device_name = text_or row.device_name unknown_name;
  ip_address = text_or row.ip_address unknown_ip;
  user_agent = row.user_agent;
}

unfoldable pub disable_family : AuthEnv → Option ℕ → AuthStore → AuthStore
disable_family env none s = s
disable_family env (some f) s = revoke_family env.now f s

unfoldable pub family_or_new : AuthEnv → Option ℕ → AuthStore → ℕ × AuthStore
family_or_new env (some f) s = (f, s)
family_or_new env none s = (env.uuid s.serial, record s { serial = suc s.serial })

unfoldable pub rotate_pair : AuthEnv → Account → Option DeviceInfo → Token → Auth TokenPair
rotate_pair env user device row s =
    let (family, s1) = family_or_new env (real_family row.family_id) s in
    let info : DeviceInfo = effective_device device row in
    let (pair, s2) = issue_token_pair env user info family (revoke_access env.now family s1) in
    (ok pair, log_audit_event env.now user.id (some info.device_id) refresh info.ip_address s2)

-- With the row that was consumed, on the store without it being live.
unfoldable pub rotate_token : AuthEnv → Option DeviceInfo → Token → Auth TokenPair
rotate_token env device row s =
    if is_past env.now row then (err token_expired, s) else (elim (active_account row.user_id s) [
      | none ↦ (err account_disabled, disable_family env (real_family row.family_id) s)
      | some user ↦ rotate_pair env user device row s
    ])

unfoldable pub refresh_token_pair : AuthEnv → ℕ → Option DeviceInfo → Auth TokenPair
refresh_token_pair env token device s = elim (find_token (env.digest token) s) [
  | none ↦ (err invalid_token, s)
  | some row ↦
      if is_consumable row
      then rotate_token env device row (consume_token env.now (env.digest token) s)
      else refuse_token env row s
]
