-- ===== src/Common/Action.antt =====
-- Methods that mutate a shared object and may raise. What was written before a raise stays
-- written, so the state comes back beside the exception too.
use mathlib.Core.List.{List, [], ◌∷◌}
use mathlib.Core.Path.{◌≡◌, ap, subst}
use flowtona.Common.Outcome.{Result, ok, err}

abbrev pub Action {ℓ κ μ} : Type ℓ → Type κ → Type μ → Type (ℓ ⊔ κ ⊔ μ)
Action E S A = S → Result E A × S

module _ {ℓ κ μ} {E : Type ℓ} {S : Type κ} {A : Type μ} where
  abbrev pub pure : A → Action E S A
  pure a s = (ok a, s)

  abbrev pub lift : Result E A → Action E S A
  lift r s = (r, s)

  abbrev pub gets : (S → A) → Action E S A
  gets f s = (ok (f s), s)

module _ {ℓ κ} {E : Type ℓ} {S : Type κ} where
  abbrev pub modify : (S → S) → Action E S (Unit {0})
  modify f s = (ok tt, f s)

module _ {ℓ κ μ ν} {E : Type ℓ} {S : Type κ} {A : Type μ} {B : Type ν} where
  abbrev pub proceed : Result E A → (A → Action E S B) → Action E S B
  proceed (ok a) f s = f a s
  proceed (err e) f s = (err e, s)

  infixl 5 ◌>>=◌ ◌>>◌
  abbrev pub ◌>>=◌ : Action E S A → (A → Action E S B) → Action E S B
  ◌>>=◌ m f s = proceed (m s).0 f (m s).1

  abbrev pub ◌>>◌ : Action E S A → Action E S B → Action E S B
  m >> k = m >>= λ _. k

module _ {ℓ κ μ ν} {E : Type ℓ} {S : Type κ} {A : Type μ} {C : Type ν} where
  -- `for a in items:`, with the variables that the body assigns as `acc`
  unfoldable pub for_each : (C → A → Action E S C) → List A → C → Action E S C
  for_each body [] acc = pure acc
  for_each body (a ∷ items) acc = body acc a >>= λ acc'. for_each body items acc'

-- What holds of the state that a call leaves holds of the state that an equation names.
pub at_end {ℓ κ μ ν} :
    {E : Type ℓ} {S : Type κ} {A : Type μ} (P : S → Type ν) {a : Result E A} {s : S}
    {call : Result E A × S}
    → call ≡ (a, s)
    → P call.1
    → P s
at_end {E} {S} {A} P run h = subst P (ap (λ (x : Result E A × S). x.1) run) h
