-- ===== src/Auth/Checks/Live.antt =====
-- The credentials that `get_user_from_token` of testpaper_backend/security.py accepts.
use test_paper_backend.Base.{
  ℕ, ◌≡◌, ◌<◌, true, false, Option, none, some, arith, inl, inr, Bool-cases, Option-cases, ok,
}
use test_paper_backend.Accounts.{User}
use test_paper_backend.Auth.Rows.{
  Account, Token, AuthStore, AuthEnv, refresh_token, same_type, user_row_to_entity, find_token,
  find_account, active_account, is_past,
}
use test_paper_backend.Auth.Checks.{user_of_token, note_activity, get_user_from_token}

active_account-found :
    (id : ℕ) (s : AuthStore) (a : Account)
    → active_account id s ≡ some a
    → (find_account id s ≡ some a) × (a.is_active ≡ true)
unfolding active_account
active_account-found id s a h = elim (Option-cases (find_account id s)) [
  | inl no_row ↦ absurd (ground arith)
  | inr (b, e) ↦ elim (Bool-cases b.is_active) [
    | inr off ↦ absurd (ground arith)
    | inl on ↦ ground arith
  ]
]

-- What a request is authenticated by.
pub record Credential (env : AuthEnv) (token : ℕ) (s : AuthStore) (user : User) : Type 0 where
  pub row : Token
  pub account : Account
  pub stored : find_token (env.digest token) s ≡ some row
  pub unrevoked : row.revoked_at ≡ none
  pub no_refresh : same_type row.token_type refresh_token ≡ false
  pub in_time : env.now < row.expires_at
  pub owner : find_account row.user_id s ≡ some account
  pub active : account.is_active ≡ true
  pub shown : user ≡ user_row_to_entity account

note_activity-accounts :
    (now : ℕ) (ip : Option ℕ) (t : Token) (s : AuthStore)
    → ((note_activity now ip t s).accounts ≡ s.accounts)
      × ((note_activity now ip t s).audits ≡ s.audits)
unfolding note_activity
note_activity-accounts now ip t s = ground arith

user_of_token-Credential :
    (env : AuthEnv) (token : ℕ) (ip : Option ℕ) (row : Token) (s : AuthStore) {user : User}
    {t : AuthStore}
    → find_token (env.digest token) s ≡ some row
    → user_of_token env ip row s ≡ (ok user, t)
    → Credential env token s user × (t.accounts ≡ s.accounts) × (t.audits ≡ s.audits)
unfolding user_of_token
user_of_token-Credential env token ip row s {user} {t} found h =
    elim (Option-cases row.revoked_at) [
      | inr (at, revoked) ↦ absurd (ground arith)
      | inl live ↦ elim (Bool-cases (same_type row.token_type refresh_token)) [
        | inl refreshes ↦ absurd (ground arith)
        | inr other ↦ elim (Bool-cases (is_past env.now row)) [
          | inl past ↦ absurd (ground arith)
          | inr current ↦ elim (Option-cases (active_account row.user_id s)) [
            | inl off ↦ absurd (ground arith)
            | inr (a, on) ↦
                let (stored, active) = active_account-found row.user_id s a on in
                let (accounts, audits) = note_activity-accounts env.now ip row s in
                (
                  record {
                    row = row;
                    account = a;
                    stored = found;
                    unrevoked = live;
                    no_refresh = other;
                    in_time = ground arith;
                    owner = stored;
                    active = active;
                    shown = ground arith;
                  },
                  ground (arith, accounts),
                  ground (arith, audits),
                )
          ]
        ]
      ]
    ]

-- A request is authenticated as a user only by a token whose row is there, is not revoked, is no refresh
-- token and has not expired, and whose account is active and is that user's; the accounts and the audit
-- log stay as they were.
pub get_user_from_token-Credential :
    (env : AuthEnv) (token : ℕ) (ip : Option ℕ) (s : AuthStore) {user : User} {t : AuthStore}
    → get_user_from_token env (some token) ip s ≡ (ok user, t)
    → Credential env token s user × (t.accounts ≡ s.accounts) × (t.audits ≡ s.audits)
unfolding get_user_from_token
get_user_from_token-Credential env token ip s {user} {t} h =
    elim (Option-cases (find_token (env.digest token) s)) [
      | inl no_row ↦ absurd (ground arith)
      | inr (row, found) ↦
          user_of_token-Credential env token ip row s {user = user} {t = t} found (ground arith)
    ]
