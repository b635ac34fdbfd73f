-- ===== src/Base/State.antt =====
-- Fallible code over a state `S`: the new state comes back on success and on an error alike.
use mathlib.Core.Path.{◌≡◌, refl}
use mail_mcp.Base.Outcome.{Error, Result, ok, err}

abbrev pub M : Type 0 → Type 0 → Type 0
M S A = S → Result A × S

module _ {S : Type 0} where
  abbrev pub bind_outcome : {A B : Type 0} → Result A × S → (A → M S B) → Result B × S
  bind_outcome (ok a, s) f = f a s
  bind_outcome (err e, s) f = (err e, s)

  infixl 5 ◌>>=◌ ◌>>◌
  abbrev pub ◌>>=◌ : {A B : Type 0} → M S A → (A → M S B) → M S B
  ◌>>=◌ m f s = bind_outcome (m s) f

  abbrev pub ◌>>◌ : {B : Type 0} → M S (Unit {0}) → M S B → M S B
  m >> k = m >>= λ _. k

  abbrev pub pure : {A : Type 0} → A → M S A
  pure a s = (ok a, s)

  abbrev pub throw : {A : Type 0} → Error → M S A
  throw e s = (err e, s)

  -- A result that touches no state.
  abbrev pub lift : {A : Type 0} → Result A → M S A
  lift r s = (r, s)

  abbrev pub gets : {A : Type 0} → (S → A) → M S A
  gets f s = (ok (f s), s)

  abbrev pub modify : (S → S) → M S (Unit {0})
  modify f s = (ok tt, f s)

-- A chain that succeeds has a first step that does, and goes on from what that step leaves.
pub bind_outcome-eq-ok :
    {S A B : Type 0} (r : Result A × S) (f : A → M S B) {b : B} {s' : S}
    → bind_outcome r f ≡ (ok b, s')
    → (a : A) × (t : S) × (r ≡ (ok a, t)) × (f a t ≡ (ok b, s'))
bind_outcome-eq-ok (ok a, t) f h = (a, t, refl, h)
bind_outcome-eq-ok (err e, t) f h = cc
