-- ===== src/Auth/Native/Families.antt =====
-- The live tokens of each family, along every step of the services.
use test_paper_backend.Base.{
  ℕ, ◌≡◌, ◌≤◌, ◌<◌, refl, Bool, true, false, ◌&&◌, List, [], ◌∷◌, Option, some, arith, is_the, inl,
  inr, Option-cases, length, find_by, filter_by, any_by, update_by,
}
use test_paper_backend.Auth.Rows.{
  Account, DeviceInfo, AuditEvent, log_audit_event, find_token, Token, TokenType, AuthStore,
  AuthEnv, access_token, refresh_token, same_type, has_digest,
}
use test_paper_backend.Auth.Native.{
  real_family, new_token, issue_token_pair, revoke_access, revoke_family, consume_token, in_family,
  revoked, consumed, is_consumable,
}

abbrev pub is_live : TokenType → ℕ → Token → Bool
is_live kind f t = in_family f t && same_type t.token_type kind

abbrev pub live_count : TokenType → ℕ → List Token → ℕ
live_count kind f tokens = length (filter_by (is_live kind f) tokens)

-- No family has two live refresh tokens, or two live access tokens.
pub record OneLive (s : AuthStore) : Type 0 where
  pub refreshing : (f : ℕ) → live_count refresh_token f s.tokens ≤ 1
  pub accessing : (f : ℕ) → live_count access_token f s.tokens ≤ 1

module _ (p : Token → Bool) where
  -- Updates and deletions that make no row pass a test.
  pub count-update_by :
      (q : Token → Bool) (g : Token → Token) (xs : List Token)
      → ((t : Token) → p (g t) ≡ true → p t ≡ true)
      → length (filter_by p (update_by q g xs)) ≤ length (filter_by p xs)
  count-update_by q g [] k = omega arith
  count-update_by q g (x ∷ xs) k = ground (arith, k x, count-update_by q g xs k)

  pub count-filter_by :
      (q : Token → Bool) (xs : List Token)
      → length (filter_by p (filter_by q xs)) ≤ length (filter_by p xs)
  count-filter_by q [] = omega arith
  count-filter_by q (x ∷ xs) = ground (arith, count-filter_by q xs)

  -- An update that takes every row that passes out of the test.
  pub count-cleared :
      (g : Token → Token) (xs : List Token)
      → ((t : Token) → p (g t) ≡ false)
      → length (filter_by p (update_by p g xs)) ≡ 0
  count-cleared g [] k = refl
  count-cleared g (x ∷ xs) k = ground (arith, k x, count-cleared g xs k)

  -- An update of the row that was found, which passed and no longer does.
  pub count-spent :
      (q : Token → Bool) (g : Token → Token) (xs : List Token) (a : Token)
      → ((t : Token) → p (g t) ≡ false)
      → find_by q xs ≡ some a
      → p a ≡ true
      → length (filter_by p (update_by q g xs)) < length (filter_by p xs)
  count-spent q g [] a k found passes = absurd (ground arith)
  count-spent q g (x ∷ xs) a k found passes =
      let rest = count-update_by q g xs (λ t h. absurd (ground (arith, k t))) in
      ground (arith, k x, rest, count-spent q g xs a k)

pub count-none :
    (f : ℕ) (kind : TokenType) (xs : List Token)
    → any_by (λ (t : Token). is_the t.family_id f) xs ≡ false
    → live_count kind f xs ≡ 0
count-none f kind [] h = refl
count-none f kind (x ∷ xs) h = ground (arith, count-none f kind xs)

-- Steps that make no token live keep the invariant.
abbrev pub NoNewLive : AuthStore → AuthStore → Type 0
NoNewLive s t = (kind : TokenType) (f : ℕ) → live_count kind f t.tokens ≤ live_count kind f s.tokens

pub NoNewLive-OneLive : (s t : AuthStore) → NoNewLive s t → OneLive s → OneLive t
NoNewLive-OneLive s t h w = record {
  refreshing = λ f. omega (arith, h refresh_token f, w.refreshing f);
  accessing = λ f. omega (arith, h access_token f, w.accessing f);
}

pub issue_token_pair-OneLive :
    (env : AuthEnv) (user : Account) (device : DeviceInfo) (f : ℕ) (s : AuthStore)
    → OneLive s
    → live_count refresh_token f s.tokens ≡ 0
    → live_count access_token f s.tokens ≡ 0
    → OneLive (issue_token_pair env user device f s).1
unfolding issue_token_pair new_token
issue_token_pair-OneLive env user device f s w r a = record {
  refreshing = λ f'. ground (arith, w.refreshing f', r);
  accessing = λ f'. ground (arith, w.accessing f', a);
}

pub revoke_access-NoNewLive : (now f : ℕ) (s : AuthStore) → NoNewLive s (revoke_access now f s)
unfolding revoke_access revoked
revoke_access-NoNewLive now f s kind f' =
    count-update_by (is_live kind f')
      (λ (t : Token). in_family f t && same_type t.token_type access_token) (revoked now) s.tokens
      (λ t h. absurd (ground arith))

pub revoke_access-none :
    (now f : ℕ) (s : AuthStore) → live_count access_token f (revoke_access now f s).tokens ≡ 0
unfolding revoke_access revoked
revoke_access-none now f s =
    count-cleared (is_live access_token f) (revoked now) s.tokens (λ t. ground arith)

pub revoke_family-NoNewLive : (now f : ℕ) (s : AuthStore) → NoNewLive s (revoke_family now f s)
unfolding revoke_family revoked
revoke_family-NoNewLive now f s kind f' =
    count-update_by (is_live kind f') (in_family f) (revoked now) s.tokens
      (λ t h. absurd (ground arith))

pub consume_token-NoNewLive : (now d : ℕ) (s : AuthStore) → NoNewLive s (consume_token now d s)
unfolding consume_token consumed
consume_token-NoNewLive now d s kind f' =
    count-update_by (is_live kind f') (has_digest d) (consumed now) s.tokens
      (λ t h. absurd (ground arith))

real_family-live :
    (f : ℕ) (row : Token)
    → is_consumable row ≡ true
    → real_family row.family_id ≡ some f
    → is_live refresh_token f row ≡ true
real_family-live f row live family = elim (Option-cases row.family_id) [
  | inl no_family ↦ absurd (ground arith)
  | inr (g, e) ↦ ground arith
]

-- The row that was consumed was the live refresh token of its family.
pub consume_token-none :
    (now d f : ℕ) (row : Token) (s : AuthStore)
    → OneLive s
    → find_token d s ≡ some row
    → is_consumable row ≡ true
    → real_family row.family_id ≡ some f
    → live_count refresh_token f (consume_token now d s).tokens ≡ 0
unfolding consume_token consumed find_token
consume_token-none now d f row s w found live family =
    let less =
      count-spent (is_live refresh_token f) (has_digest d) (consumed now) s.tokens row
        (λ t. ground arith) found (real_family-live f row live family) in
    let one = w.refreshing f in omega (arith, less, one)

log_audit_event-NoNewLive :
    (now user : ℕ) (device : Option ℕ) (event : AuditEvent) (ip : ℕ) (s : AuthStore)
    → (log_audit_event now user device event ip s).tokens ≡ s.tokens
unfolding log_audit_event
log_audit_event-NoNewLive now user device event ip s = refl
