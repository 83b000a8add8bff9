-- ===== src/Store/Tx.antt =====
-- Errors, and the monad of a transaction: an error drops the new state, which is the ROLLBACK.
use helpan_ai.Prelude.{ℕ, String, Option, Bool, true, false, ◌≡◌, refl, ◌⊎◌, inl, inr}

-- What a handler throws: a coded error with its HTTP status and `field` (the message text is left
-- out), or a plain `Error`, which the error mapper answers with 500.
pub data RailError : Type 0 where
  coded : String → ℕ → Option String → RailError
  internal : String → RailError

pub data Result {ℓ} (A : Type ℓ) : Type ℓ where
  ok : A → Result A
  err : RailError → Result A

pub Result-cases {ℓ} :
    {A : Type ℓ} (r : Result A) → ((a : A) × (r ≡ ok a)) ⊎ ((e : RailError) × (r ≡ err e))
Result-cases (ok a) = inl (a, refl)
Result-cases (err e) = inr (e, refl)

abbrev pub Tx {ℓ} : Type ℓ → Type ℓ → Type ℓ
Tx S A = S → Result (A × S)

module _ {ℓ} {S A B : Type ℓ} where
  infixl 5 ◌>>=◌ ◌>>◌
  abbrev pub ◌>>=◌ : Tx S A → (A → Tx S B) → Tx S B
  ◌>>=◌ m f s = elim (m s) [ ok (a, s') ↦ f a s' | err e ↦ err e ]

  abbrev pub ◌>>◌ : Tx S A → Tx S B → Tx S B
  m >> n = m >>= λ _. n

module _ {ℓ} {S A : Type ℓ} where
  abbrev pub pure : A → Tx S A
  pure a s = ok (a, s)

  abbrev pub throw : RailError → Tx S A
  throw e s = err e

  abbrev pub lift : Result A → Tx S A
  lift (ok a) s = ok (a, s)
  lift (err e) s = err e

  abbrev pub gets : (S → A) → Tx S A
  gets f s = ok (f s, s)

module _ {ℓ} {S : Type ℓ} where
  abbrev pub modify : (S → S) → Tx S (Unit {ℓ})
  modify f s = ok (tt, f s)

  -- A test that throws where it fails.
  abbrev pub require : Bool → RailError → Tx S (Unit {ℓ})
  require true e s = ok (tt, s)
  require false e s = err e

-- What a `do` block that returned has run through.
module _ {ℓ} {S A B : Type ℓ} where
  pub bind-eq-ok :
      (m : Tx S A) (f : A → Tx S B) (s : S) {b : B} {t : S}
      → (m >>= f) s ≡ ok (b, t)
      → (a : A) × (u : S) × (m s ≡ ok (a, u)) × (f a u ≡ ok (b, t))
  bind-eq-ok m f s {b} {t} e = go (m s) refl e
    where
      go :
          (r : Result (A × S))
          → m s ≡ r
          → (elim r [ ok (a, s') ↦ f a s' | err x ↦ err x ]) ≡ ok (b, t)
          → (a : A) × (u : S) × (m s ≡ ok (a, u)) × (f a u ≡ ok (b, t))
      go (ok (a, u)) p q = (a, u, p, q)
      go (err x) p q = absurd (cc)

  pub lift-bind-eq-ok :
      (r : Result A) (f : A → Tx S B) (s : S) {b : B} {t : S}
      → (lift r >>= f) s ≡ ok (b, t)
      → (a : A) × (r ≡ ok a) × (f a s ≡ ok (b, t))
  lift-bind-eq-ok (ok a) f s e = (a, refl, e)
  lift-bind-eq-ok (err x) f s e = absurd (cc)

module _ {ℓ} {S B : Type ℓ} where
  pub require-bind-eq-ok :
      (c : Bool) (x : RailError) (m : Tx S B) (s : S) {b : B} {t : S}
      → (require c x >> m) s ≡ ok (b, t)
      → (c ≡ true) × (m s ≡ ok (b, t))
  require-bind-eq-ok true x m s e = (refl, e)
  require-bind-eq-ok false x m s e = absurd (cc)
