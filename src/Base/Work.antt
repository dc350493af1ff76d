-- ===== src/Base/Work.antt =====
-- A unit of work on a store: what it returns or raises, beside the store that it leaves.
use mathlib.Core.Path.{◌≡◌, refl}
use mathlib.Core.Bool.{Bool, true, false}
use mathlib.Core.Logic.{◌⊎◌, inl, inr}
use mathlib.Core.Option.{Option, none, some}
use native.Mathlib.Omega.{arith}

pub data Result {ℓ} (E A : Type ℓ) : Type ℓ where
  ok : A → Result E A
  err : E → Result E A

abbrev pub Tx : Type 0 → Type 0 → Type 0 → Type 0
Tx S E A = S → Result E A × S

module _ {S E A : Type 0} where
  abbrev pub pure : A → Tx S E A
  pure a s = (ok a, s)

  abbrev pub raise : E → Tx S E A
  raise e s = (err e, s)

  abbrev pub gets : (S → A) → Tx S E A
  gets f s = (ok (f s), s)

  abbrev pub or_raise : Option A → E → Tx S E A
  or_raise none e = raise e
  or_raise (some a) e = pure a

  -- `with SessionLocal() as session`: what was not committed when an error leaves is rolled back.
  abbrev pub settle : S → Result E A × S → Result E A × S
  settle s (ok a, s') = (ok a, s')
  settle s (err e, s') = (err e, s)

  abbrev pub session : Tx S E A → Tx S E A
  session m s = settle s (m s)

  pub settle-ok :
      (s : S) (x : Result E A × S) {a : A} {t : S} → settle s x ≡ (ok a, t) → x ≡ (ok a, t)
  settle-ok s (ok a, s') h = h
  settle-ok s (err e, s') h = absurd (ground arith)

  pub settle-err :
      (s : S) (x : Result E A × S) (e : E) → (settle s x).0 ≡ err e → settle s x ≡ (err e, s)
  settle-err s (ok a, s') e h = absurd (ground arith)
  settle-err s (err e', s') e h = ground arith

  pub session-err : (m : Tx S E A) (s : S) (e : E) → (session m s).0 ≡ err e → (session m s).1 ≡ s
  session-err m s e h = let r : Result E A × S = m s in ground arith

module _ {E A : Type 0} where
  pub Result-cases : (r : Result E A) → ((a : A) × (r ≡ ok a)) ⊎ ((e : E) × (r ≡ err e))
  Result-cases (ok a) = inl (a, refl)
  Result-cases (err e) = inr (e, refl)

module _ {S E : Type 0} where
  abbrev pub modify : (S → S) → Tx S E (Unit {0})
  modify f s = (ok tt, f s)

  abbrev pub raise_if : Bool → E → Tx S E (Unit {0})
  raise_if true e = raise e
  raise_if false e = pure tt

module _ {S E A B : Type 0} where
  infixl 5 ◌>>=◌ ◌>>◌
  abbrev pub continue : Result E A × S → (A → Tx S E B) → Result E B × S
  continue (ok a, s) f = f a s
  continue (err e, s) f = (err e, s)

  abbrev pub ◌>>=◌ : Tx S E A → (A → Tx S E B) → Tx S E B
  ◌>>=◌ m f s = continue (m s) f

  abbrev pub ◌>>◌ : Tx S E A → Tx S E B → Tx S E B
  m >> k = m >>= λ _. k

  -- What the first step and every next one keep, the two in a row keep.
  pub continue-keeps {κ} :
      (P : S → Type κ) (x : Result E A × S) (f : A → Tx S E B)
      → P x.1
      → ((a : A) (s : S) → P s → P (f a s).1)
      → P (continue x f).1
  continue-keeps P (ok a, s) f h k = k a s h
  continue-keeps P (err e, s) f h k = h

  -- Inversion of a unit of work that returned.
  pub continue-ok :
      (x : Result E A × S) (f : A → Tx S E B) {b : B} {t : S}
      → continue x f ≡ (ok b, t)
      → (a : A) × (s : S) × (x ≡ (ok a, s)) × (f a s ≡ (ok b, t))
  continue-ok (ok a, s) f h = (a, s, refl, h)
  continue-ok (err e, s) f h = absurd (ground arith)

  pub or_raise-ok :
      (o : Option A) (e : E) (s : S) (f : A → Tx S E B) {b : B} {t : S}
      → continue (or_raise o e s) f ≡ (ok b, t)
      → (a : A) × (o ≡ some a) × (f a s ≡ (ok b, t))
  or_raise-ok none e s f h = absurd (ground arith)
  or_raise-ok (some a) e s f h = (a, refl, h)

module _ {S E B : Type 0} where
  pub raise_if-ok :
      (c : Bool) (e : E) (s : S) (f : Unit {0} → Tx S E B) {b : B} {t : S}
      → continue (raise_if c e s) f ≡ (ok b, t)
      → (c ≡ false) × (f tt s ≡ (ok b, t))
  raise_if-ok true e s f h = absurd (ground arith)
  raise_if-ok false e s f h = (refl, h)

module _ {S E A : Type 0} where
  pub returned-value : (a b : A) (s t : S) → ◌≡◌ {A = Result E A × S} (ok a, s) (ok b, t) → a ≡ b
  returned-value a b s t h = ground arith

  pub returned-store : (a b : A) (s t : S) → ◌≡◌ {A = Result E A × S} (ok a, s) (ok b, t) → t ≡ s
  returned-store a b s t h = ground arith
