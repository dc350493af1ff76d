-- ===== src/Auth/Devices.antt =====
-- The devices of an account: `revoke_device` and `list_devices` of
-- testpaper_backend/services/auth_sessions.py.
pub mod Summary
use test_paper_backend.Base.{
  ℕ, Bool, true, false, ◌&&◌, ◌||◌, not, List, [], ◌∷◌, ◌++◌, Option, none, some, ◌==◌, ltb, leb,
  if◌then◌else◌, is_some, is_none, is_the, find_by, filter_by, update_by, any_by, order_by, Result,
  ok, err,
}
use test_paper_backend.Auth.Rows.{
  Token, AuthStore, AuthEnv, device_is_current, device_revoked, find_token, text_or,
  log_audit_event,
}
use test_paper_backend.Auth.Browser.{Auth}
use test_paper_backend.Auth.Native.{unknown_name}

abbrev pub of_device : ℕ → ℕ → Token → Bool
of_device user device t = t.user_id == user && is_the t.device_id device

abbrev pub is_current : AuthEnv → Option ℕ → ℕ → AuthStore → Bool
is_current env none device s = false
is_current env (some token) device s = elim (find_token (env.digest token) s) [
  | none ↦ false
  | some row ↦ is_the row.device_id device
]

-- No current token and an empty one are `none`.
unfoldable pub revoke_device : AuthEnv → ℕ → ℕ → ℕ → Option ℕ → Auth (Unit {0})
revoke_device env user device ip current s =
    if is_current env current device s then (err device_is_current, s) else (
      ok tt,
      log_audit_event env.now user (some device) device_revoked ip
          (record s { tokens = filter_by (λ (t : Token). not (of_device user device t)) s.tokens }),
    )

-- `DeviceSessionEntity`
pub record DeviceSession : Type 0 where
  pub device_id : ℕ
  pub device_name : ℕ
  pub last_seen_at : Option ℕ
  pub created_at : ℕ
  pub current : Bool

-- `row.token == current_digest`
abbrev pub is_digest : Option ℕ → Token → Bool
is_digest d t = is_the d t.token

unfoldable pub first_session : Option ℕ → ℕ → Token → DeviceSession
first_session current device t = record {
  device_id = device;
  device_name = text_or t.device_name unknown_name;
  last_seen_at = t.last_seen_at;
  created_at = t.created_at;
  current = is_digest current t;
}

-- The later of two times, as the loop keeps it.
abbrev pub later_seen : Option ℕ → Option ℕ → Option ℕ
later_seen none b = b
later_seen (some a) none = some a
later_seen (some a) (some b) = if ltb a b then some b else some a

-- The rest of the body of the loop, for a device that was met before.
unfoldable pub merged_session : Option ℕ → Token → DeviceSession → DeviceSession
merged_session current t d = record d {
  created_at = (if ltb t.created_at d.created_at then t.created_at else d.created_at);
  last_seen_at = later_seen d.last_seen_at t.last_seen_at;
  current = (if is_digest current t then true else d.current);
  device_name = text_or t.device_name d.device_name;
}

abbrev pub is_session : ℕ → DeviceSession → Bool
is_session device d = d.device_id == device

-- One turn of the loop, on the dict in the order of its insertions.
unfoldable pub add_session : Option ℕ → Token → List DeviceSession → List DeviceSession
add_session current t ds = elim t.device_id [
  | none ↦ ds
  | some device ↦
      if any_by (is_session device) ds
      then update_by (is_session device) (merged_session current t) ds
      else ds ++ first_session current device t ∷ []
]

unfoldable pub device_sessions : Option ℕ → List Token → List DeviceSession → List DeviceSession
device_sessions current [] ds = ds
device_sessions current (t ∷ ts) ds = device_sessions current ts (add_session current t ds)

-- The query of `list_devices`
abbrev pub is_listed : ℕ → ℕ → Token → Bool
is_listed now user t =
    t.user_id == user && is_some t.device_id && is_none t.revoked_at && ltb now t.expires_at

unfoldable pub list_devices : AuthEnv → ℕ → Option ℕ → AuthStore → List DeviceSession
list_devices env user current s =
    order_by (λ (d : DeviceSession). d.created_at)
      (device_sessions (elim current [ none ↦ none | some token ↦ some (env.digest token) ])
        (filter_by (is_listed env.now user) s.tokens) [])
