-- ===== src/Base/Outcome.antt =====
-- crates/mail-mcp-core/src/error.rs: the error type, and `Result` with the `?` operator as bind.
use Prim.Native.String.{String, ◌++◌}
use mathlib.Core.Path.{◌≡◌, refl}
use mathlib.Core.Logic.{◌⊎◌, inl, inr}
use mathlib.Core.Option.{Option, none, some}

-- The payloads of the errors of other crates are their messages. `panic` is no error of error.rs:
-- it stands for a macro such as `unreachable!` that unwinds the task.
pub data Error : Type 0 where
  config not_found permission_denied provider oauth storage keychain io http json internal panic :
      String → Error
  approval_timeout approval_rejected : Error

-- The texts of the `#[error]` attributes. A panic has none: it ends the task.
unfoldable pub display : Error → String
display (config s) = "config error: " ++ s
display (not_found s) = "not found: " ++ s
display (permission_denied s) = "permission denied: " ++ s
display (provider s) = "provider error: " ++ s
display (oauth s) = "oauth error: " ++ s
display (storage s) = "storage error: " ++ s
display (keychain s) = "keychain error: " ++ s
display (io s) = "io error: " ++ s
display (http s) = "http error: " ++ s
display (json s) = "json error: " ++ s
display (internal s) = "internal: " ++ s
display (panic s) = s
display approval_timeout = "approval timed out"
display approval_rejected = "approval rejected by user"

pub data Result {ℓ} (T : Type ℓ) : Type ℓ where
  err : Error → Result T
  ok : T → Result T

pub Result-cases {ℓ} :
    {T : Type ℓ} (r : Result T) → ((t : T) × (r ≡ ok t)) ⊎ ((reason : Error) × (r ≡ err reason))
Result-cases (err reason) = inr (reason, refl)
Result-cases (ok t) = inl (t, refl)

-- `ok_or_else`
abbrev pub ok_or {ℓ} : {A : Type ℓ} → Option A → Error → Result A
ok_or none e = err e
ok_or (some a) e = ok a

-- `unwrap_or`
abbrev pub unwrap_or {ℓ} : {A : Type ℓ} → Option A → A → A
unwrap_or none d = d
unwrap_or (some a) d = a

-- The `?` operator: an error ends the chain.
infixl 5 ◌>>=◌ ◌>>◌
abbrev pub ◌>>=◌ {κ ℓ} : {S : Type κ} {T : Type ℓ} → Result S → (S → Result T) → Result T
err reason >>= next = err reason
ok s >>= next = next s

abbrev pub ◌>>◌ {ℓ} : {T : Type ℓ} → Result (Unit {0}) → Result T → Result T
step >> next = step >>= λ _. next

-- `and_then`
abbrev pub and_then {ℓ κ} : {A : Type ℓ} {B : Type κ} → Option A → (A → Option B) → Option B
and_then none f = none
and_then (some a) f = f a

-- A chain that succeeds has a first step that does, and goes on from what that step yields.
pub >>=-eq-ok {κ ℓ} :
    {S : Type κ} {T : Type ℓ} {t : T} (first : Result S) (next : S → Result T)
    → (first >>= next) ≡ ok t
    → (s : S) × (first ≡ ok s) × (next s ≡ ok t)
>>=-eq-ok (err reason) next h = cc
>>=-eq-ok (ok s) next h = (s, refl, h)

-- What a `FromStr` whose error is a text yields: the value, or the text of the error.
pub data Parsed (A : Type 0) : Type 0 where
  parsed : A → Parsed A
  unknown : String → Parsed A

-- `map_err(f)` on such a result
abbrev pub map_err : {A : Type 0} → Parsed A → (String → Error) → Result A
map_err (parsed a) f = ok a
map_err (unknown s) f = err (f s)

pub Parsed-cases :
    {A : Type 0} (p : Parsed A) → ((a : A) × (p ≡ parsed a)) ⊎ ((e : String) × (p ≡ unknown e))
Parsed-cases (parsed a) = inl (a, refl)
Parsed-cases (unknown e) = inr (e, refl)
