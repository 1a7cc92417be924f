-- ===== src/Prelude/Results.antt =====
-- Go's pair of a value and an error: a call returns the one or the other.
use mathlib.Core.Path.{◌≡◌, refl}
use mathlib.Core.Logic.{◌⊎◌, inl, inr}
use mathlib.Core.Option.{Option, none, some}

pub data Result {ℓ} (E A : Type ℓ) : Type ℓ where
  ok : A → Result E A
  err : E → Result E A

module _ {ℓ} {E : Type ℓ} where
  -- `if err != nil { return err }`: the first error ends a chain of calls
  infixl 5 ◌>>=◌ ◌>>◌
  abbrev pub ◌>>=◌ : {A B : Type ℓ} → Result E A → (A → Result E B) → Result E B
  err problem >>= next = err problem
  ok value >>= next = next value

  abbrev pub ◌>>◌ : {B : Type ℓ} → Result E (Unit {ℓ}) → Result E B → Result E B
  first >> second = first >>= (λ u. second)

  -- `fmt.Errorf("...: %w", err)`: the error of a call is wrapped
  abbrev pub wrap : {D : Type ℓ} {A : Type ℓ} → (D → E) → Result D A → Result E A
  wrap f (ok a) = ok a
  wrap f (err d) = err (f d)

  pub wrap-eq-ok : {D A : Type ℓ} (f : D → E) (m : Result D A) {a : A} → wrap f m ≡ ok a → m ≡ ok a
  wrap-eq-ok f (ok x) h = cc
  wrap-eq-ok f (err d) h = cc

  abbrev pub or_fail : {A : Type ℓ} → E → Option A → Result E A
  or_fail e none = err e
  or_fail e (some a) = ok a

pub Result-cases {ℓ} :
    {E A : Type ℓ} (m : Result E A) → ((a : A) × (m ≡ ok a)) ⊎ ((e : E) × (m ≡ err e))
Result-cases (ok a) = inl (a, refl)
Result-cases (err e) = inr (e, refl)

pub ok_injective {ℓ} : {E A : Type ℓ} {a b : A} → ◌≡◌ {A = Result E A} (ok a) (ok b) → a ≡ b
ok_injective h = cc
