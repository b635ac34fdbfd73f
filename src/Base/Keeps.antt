-- ===== src/Base/Keeps.antt =====
-- Properties of the state that a fallible step keeps, whether it succeeds or fails.
use mail_mcp.Base.Outcome.{Result, ok, err}
use mail_mcp.Base.State.{M, bind_outcome, ◌>>=◌, pure, lift}

module _ {S : Type 0} where
  pub record Keeps {A : Type 0} (P : S → Type 0) (m : M S A) : Type 0 where
    pub at : (s : S) → P s → P (m s).1

  bind_outcome-Keeps :
      {A B : Type 0} (P : S → Type 0) (r : Result A × S) (f : A → M S B)
      → P r.1
      → ((a : A) → Keeps P (f a))
      → P (bind_outcome r f).1
  bind_outcome-Keeps P (ok a, s) f h k = (k a).at s h
  bind_outcome-Keeps P (err e, s) f h k = h

  pub bind-Keeps :
      {A B : Type 0} {P : S → Type 0} (m : M S A) (f : A → M S B)
      → Keeps P m
      → ((a : A) → Keeps P (f a))
      → Keeps P (m >>= f)
  bind-Keeps {P} m f h k = record { at = λ s p. bind_outcome-Keeps P (m s) f (h.at s p) k }

  pub lift-Keeps : {A : Type 0} {P : S → Type 0} (r : Result A) → Keeps P (lift r)
  lift-Keeps r = record { at = λ s p. p }

  pub pure-Keeps : {A : Type 0} {P : S → Type 0} (a : A) → Keeps P (pure a)
  pure-Keeps a = record { at = λ s p. p }
