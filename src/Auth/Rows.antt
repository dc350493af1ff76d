-- ===== src/Auth/Rows.antt =====
-- The rows of accounts and tokens (testpaper_backend/db.py), the types of
-- testpaper_backend/schemas/auth.py, and queries that the services share. Texts are numbers, and the
-- empty text is 0; times are numbers of seconds. Secrets that the server draws are taken as fresh, so
-- the key of the token table is not checked.
use test_paper_backend.Base.{
  ℕ, zero, suc, Bool, true, false, not, List, ◌∷◌, Option, none, some, ◌==◌, if◌then◌else◌, find_by,
  filter_by, order_by, leb,
}
use test_paper_backend.Accounts.{
  UserRole, User, Permission, role_permissions, questions_read, questions_write, questions_delete,
  answers_read, papers_read, papers_write, users_manage, banks_read, banks_write, banks_delete,
  banks_publish, banks_subscribe,
}

pub data TokenType : Type 0 where
  session_token access_token refresh_token : TokenType

abbrev pub token_type_number : TokenType → ℕ
token_type_number session_token = 0
token_type_number access_token = 1
token_type_number refresh_token = 2

abbrev pub same_type : TokenType → TokenType → Bool
same_type a b = token_type_number a == token_type_number b

-- `AuthTokenRow`; `token` is the digest of the secret.
pub record Token : Type 0 where
  pub token : ℕ
  pub user_id : ℕ
  pub token_type : TokenType
  pub device_id : Option ℕ
  pub device_name : Option ℕ
  pub ip_address : Option ℕ
  pub user_agent : Option ℕ
  pub last_seen_at : Option ℕ
  pub family_id : Option ℕ
  pub revoked_at : Option ℕ
  pub created_at : ℕ
  pub expires_at : ℕ

-- The columns of `UserRow` that signing in reads and writes.
pub record Account : Type 0 where
  pub id : ℕ
  pub username : ℕ
  pub display_name : ℕ
  pub password_hash : ℕ
  pub role : UserRole
  pub is_active : Bool
  pub created_at : ℕ
  pub updated_at : ℕ

pub data AuditEvent : Type 0 where
  login refresh refresh_reuse device_revoked : AuditEvent

pub record Audit : Type 0 where
  pub user_id : ℕ
  pub device_id : Option ℕ
  pub event : AuditEvent
  pub ip_address : ℕ
  pub created_at : ℕ

-- `serial` is a source of fresh keys for the rows of accounts, secrets and families.
pub record AuthStore : Type 0 where
  pub serial : ℕ
  pub accounts : List Account
  pub tokens : List Token
  pub audits : List Audit

pub data AuthFailure : Type 0 where
  unauthorized invalid_credentials invalid_token token_expired token_reused : AuthFailure
  account_disabled username_exists device_is_current sync_device_required : AuthFailure
  sync_actor_required : AuthFailure

-- What signing in takes from elsewhere: the clock, secrets and family names for a key, SHA-256 of a
-- secret, the password libraries, the text functions on user names, and the configured lifetimes.
pub record AuthEnv : Type 0 where
  pub now : ℕ
  pub secret : ℕ → ℕ
  pub uuid : ℕ → ℕ
  pub digest : ℕ → ℕ
  pub is_argon2 : ℕ → Bool
  pub argon2_verify : ℕ → ℕ → Bool
  pub pbkdf2_verify : ℕ → ℕ → Bool
  pub hash : ℕ → ℕ
  -- `payload.username.strip().lower()`
  pub normalized : ℕ → ℕ
  pub session_ttl : ℕ
  pub access_ttl : ℕ
  pub refresh_ttl : ℕ

-- `DeviceInfo`
pub record DeviceInfo : Type 0 where
  pub device_id : ℕ
  pub device_name : ℕ
  pub ip_address : ℕ
  pub user_agent : Option ℕ

pub record AuthSession : Type 0 where
  pub expires_at : ℕ
  pub user : User

pub record TokenPair : Type 0 where
  pub access_token : ℕ
  pub refresh_token : ℕ
  pub expires_in : ℕ
  pub refresh_expires_in : ℕ
  pub user : User

-- The place of a permission among the texts, by which `sorted` puts them in order.
abbrev pub permission_rank : Permission → ℕ
permission_rank answers_read = 0
permission_rank banks_delete = 1
permission_rank banks_publish = 2
permission_rank banks_read = 3
permission_rank banks_subscribe = 4
permission_rank banks_write = 5
permission_rank papers_read = 6
permission_rank papers_write = 7
permission_rank questions_delete = 8
permission_rank questions_read = 9
permission_rank questions_write = 10
permission_rank users_manage = 11

unfoldable pub permissions_for_role : UserRole → List Permission
permissions_for_role role = order_by permission_rank (role_permissions role)

unfoldable pub user_row_to_entity : Account → User
user_row_to_entity row = record {
  id = row.id;
  role = row.role;
  permissions = permissions_for_role row.role;
  is_active = row.is_active;
}

-- `verify_password`: is the password right, and does its hash want to be replaced?
unfoldable pub verify_password : AuthEnv → ℕ → ℕ → Bool × Bool
verify_password env password stored =
    if env.is_argon2 stored
    then (env.argon2_verify stored password, false)
    else if env.pbkdf2_verify password stored
    then (true, true)
    else (false, false)

-- `session.get(AuthTokenRow, digest)`
abbrev pub has_digest : ℕ → Token → Bool
has_digest d t = t.token == d

unfoldable pub find_token : ℕ → AuthStore → Option Token
find_token d s = find_by (has_digest d) s.tokens

unfoldable pub delete_token : ℕ → AuthStore → AuthStore
delete_token d s = record s { tokens = filter_by (λ (t : Token). not (has_digest d t)) s.tokens }

-- `session.get(UserRow, id)`
unfoldable pub find_account : ℕ → AuthStore → Option Account
find_account id s = find_by (λ (a : Account). a.id == id) s.accounts

-- The account of a token, if there is one and it is active
unfoldable pub active_account : ℕ → AuthStore → Option Account
unfolding find_account
active_account id s = elim (find_account id s) [
  | none ↦ none
  | some a ↦ if a.is_active then some a else none
]

-- `row.expires_at <= now`
abbrev pub is_past : ℕ → Token → Bool
is_past now t = leb t.expires_at now

-- `text or default`
abbrev pub text_or : Option ℕ → ℕ → ℕ
text_or none default = default
text_or (some zero) default = default
text_or (some (suc n)) default = suc n

-- `log_audit_event`
unfoldable pub log_audit_event : ℕ → ℕ → Option ℕ → AuditEvent → ℕ → AuthStore → AuthStore
log_audit_event now user device event ip s = record s {
  audits =
      record {
        user_id = user;
        device_id = device;
        event = event;
        ip_address = ip;
        created_at = now;
      }
      ∷ s.audits;
}
