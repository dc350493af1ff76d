-- ===== src/Auth/Native/Reuse.antt =====
-- A refresh token that is presented twice, and what is left of its family.
use test_paper_backend.Base.{
  ℕ, suc, ◌≡◌, ◌≢◌, refl, ap, subst, true, false, ◌&&◌, Option, some, arith, is_some, inl, inr,
  Bool-cases, Option-cases, find_by-updated, find_by-test, any_by, any_by-updated, ok, err,
}
use test_paper_backend.Auth.Rows.{
  Account, Token, AuthStore, AuthEnv, TokenPair, DeviceInfo, token_reused, access_token,
  refresh_token, same_type, find_token, has_digest, is_past, active_account, AuditEvent,
  log_audit_event, text_or, refresh, refresh_reuse,
}
use test_paper_backend.Auth.Native.{
  new_token, issue_token_pair, is_consumable, consumed, consume_token, real_family, in_family,
  revoked, revoke_family, revoke_access, refuse_token, effective_device, family_or_new, rotate_pair,
  rotate_token, refresh_token_pair, unknown_ip,
}

-- Secrets that the server is about to draw have digests that differ from `d`.
abbrev pub FreshFor : AuthEnv → ℕ → AuthStore → Type 0
FreshFor env d s =
    (env.digest (env.secret s.serial) ≢ d) × (env.digest (env.secret (suc s.serial)) ≢ d)

-- A token that was rotated: its row is there, a refresh token that is revoked.
abbrev pub Spent : ℕ → ℕ → Token → AuthStore → Type 0
Spent d f row s =
    (find_token d s ≡ some row)
    × (same_type row.token_type refresh_token ≡ true)
    × (is_some row.revoked_at ≡ true)
    × (real_family row.family_id ≡ some f)

revoke_family-none :
    (now f : ℕ) (s : AuthStore) → any_by (in_family f) (revoke_family now f s).tokens ≡ false
unfolding revoke_family revoked
revoke_family-none now f s = any_by-updated (in_family f) (revoked now) s.tokens (λ t. ground arith)

refresh_token_pair-Spent :
    (env : AuthEnv) (token f : ℕ) (device : Option DeviceInfo) (row : Token) (s : AuthStore)
    → Spent (env.digest token) f row s
    → (u : AuthStore) × (refresh_token_pair env token device s ≡ (err token_reused, u))
      × (any_by (in_family f) u.tokens ≡ false)
unfolding refresh_token_pair refuse_token log_audit_event
refresh_token_pair-Spent env token f device row s (found, kind, spent, family) =
    let clean = revoke_family-none env.now f s in
    let u : AuthStore =
      log_audit_event env.now row.user_id row.device_id refresh_reuse
        (text_or row.ip_address unknown_ip) (revoke_family env.now f s) in
    (u, ground (arith, found, kind, spent, family), clean)

find_token-issued :
    (env : AuthEnv) (d f : ℕ) (user : Account) (info : DeviceInfo) (s : AuthStore)
    → FreshFor env d s
    → find_token d (issue_token_pair env user info f s).1 ≡ find_token d s
unfolding issue_token_pair new_token find_token
find_token-issued env d f user info s fresh = ground (arith, fresh)

find_token-revoked :
    (now d f : ℕ) (row : Token) (s : AuthStore)
    → find_token d s ≡ some row
    → is_some row.revoked_at ≡ true
    → find_token d (revoke_access now f s) ≡ some row
unfolding find_token revoke_access revoked
find_token-revoked now d f row s found spent =
    let kept =
      find_by-updated (has_digest d)
        (λ (t : Token). in_family f t && same_type t.token_type access_token) (revoked now) s.tokens
        row (λ x. refl) found in
    ground (arith, kept, spent)

find_token-logged :
    (now d user : ℕ) (device : Option ℕ) (event : AuditEvent) (ip : ℕ) (s : AuthStore)
    → find_token d (log_audit_event now user device event ip s) ≡ find_token d s
unfolding find_token log_audit_event
find_token-logged now d user device event ip s = refl

rotate_pair-Spent :
    (env : AuthEnv) (d f : ℕ) (user : Account) (device : Option DeviceInfo) (row stored : Token)
    (s : AuthStore)
    → FreshFor env d s
    → real_family row.family_id ≡ some f
    → Spent d f stored s
    → Spent d f stored (rotate_pair env user device row s).1
unfolding rotate_pair family_or_new revoke_access
rotate_pair-Spent env d f user device row stored s fresh family (found, kind, spent, own) =
    let info : DeviceInfo = effective_device device row in
    let kept = find_token-revoked env.now d f stored s found spent in
    let issued = find_token-issued env d f user info (revoke_access env.now f s) fresh in
    let logged =
      find_token-logged env.now d user.id (some info.device_id) refresh info.ip_address
        (issue_token_pair env user info f (revoke_access env.now f s)).1 in
    (ground (arith, family, kept, issued, logged), kind, spent, own)

consume_token-found :
    (now d : ℕ) (row : Token) (s : AuthStore)
    → find_token d s ≡ some row
    → find_token d (consume_token now d s) ≡ some (consumed now row)
unfolding find_token consume_token consumed
consume_token-found now d row s found =
    let kept =
      find_by-updated (has_digest d) (has_digest d) (consumed now) s.tokens row (λ x. refl) found in
    let test = find_by-test (has_digest d) s.tokens row found in ground (arith, kept, test)

-- Where a token of a family was rotated, its row is there and spent.
refresh_token_pair-leaves_Spent :
    (env : AuthEnv) (token f : ℕ) (device : Option DeviceInfo) (row : Token) (s : AuthStore)
    {pair : TokenPair} {t : AuthStore}
    → FreshFor env (env.digest token) s
    → find_token (env.digest token) s ≡ some row
    → real_family row.family_id ≡ some f
    → refresh_token_pair env token device s ≡ (ok pair, t)
    → (stored : Token) × Spent (env.digest token) f stored t
unfolding refresh_token_pair rotate_token refuse_token consumed consume_token
refresh_token_pair-leaves_Spent env token f device row s {pair} {t} fresh found family h =
    elim (Bool-cases (is_consumable row)) [
      | inr not_live ↦ absurd (ground (arith, found, family))
      | inl live ↦ elim (Bool-cases (is_past env.now row)) [
        | inl past ↦ absurd (ground (arith, found))
        | inr current ↦
            elim (Option-cases (active_account row.user_id (consume_token env.now d s))) [
              | inl no_account ↦ absurd (ground (arith, found))
              | inr (user, active) ↦
                  let s' : AuthStore = consume_token env.now d s in
                  let same : rotate_pair env user device row s' ≡ (ok pair, t) =
                    ground (arith, found) in
                  (
                    consumed env.now row,
                    subst (Spent d f (consumed env.now row)) (ap (λ x. x.1) same) (
                        rotate_pair-Spent env d f user device row (consumed env.now row) s' fresh
                          family
                          (consume_token-found env.now d row s found, ground arith, refl, family)),
                  )
            ]
      ]
    ]
  where
    d : ℕ
    d = env.digest token

-- On the store that the rotation of a refresh token of a family left, presenting that token again, at any
-- clock and from any device, is refused as a reuse, and on the store that this refusal leaves no token of the
-- family is live: neither the pair that the rotation gave out nor any other. This is where the secrets that
-- the rotation drew have digests that differ from the token's, and nothing happens in between.
pub refresh_token_pair-replayed :
    (env : AuthEnv) (token f now' : ℕ) (device device' : Option DeviceInfo) (row : Token)
    (s : AuthStore) {pair : TokenPair} {t : AuthStore}
    → FreshFor env (env.digest token) s
    → find_token (env.digest token) s ≡ some row
    → real_family row.family_id ≡ some f
    → refresh_token_pair env token device s ≡ (ok pair, t)
    → (u : AuthStore) × (refresh_token_pair (record env { now = now' }) token device' t
        ≡ (err token_reused, u))
      × (any_by (in_family f) u.tokens ≡ false)
refresh_token_pair-replayed env token f now' device device' row s {pair} {t} fresh found family h =
    let (stored, spent) =
      refresh_token_pair-leaves_Spent env token f device row s fresh found family h in
    refresh_token_pair-Spent (record env { now = now' }) token f device' stored t spent
