-- ===== src/Oauth/Loopback/Verdict.antt =====
-- What one request is worth, from the values of its parameters.
use Prim.Native.String.{◌++◌ as concat}
use mail_mcp.Base.{
  oauth, ◌≡◌, ◌≢◌, ◌↔◌, inl, inr, true, String, none, some, ok, err, arith, ==_iff, Option-cases,
  Bool-cases, Error,
}
use mail_mcp.Oauth.Loopback.{CapturedCallback, Params, state_matches, response, verdict}

state_matches_iff :
    (expected : String) (p : Params) → (state_matches expected p ≡ true) ↔ (p.state ≡ some expected)
unfolding state_matches
state_matches_iff expected p = elim (Option-cases p.state) [
  | inl missing ↦ ground (arith, missing)
  | inr (s, given) ↦ ground (arith, given, ==_iff s expected)
]

pub verdict-eq-captured :
    (expected : String) (p : Params) (c : CapturedCallback)
    → verdict expected p ≡ ok (some c)
    → (p.error ≡ none) × (p.state ≡ some expected) × (p.code ≡ some c.code)
unfolding verdict
verdict-eq-captured expected p c h = ground (arith, state_matches_iff expected p)

pub verdict-passes :
    (expected : String) (p : Params)
    → p.error ≡ none
    → p.state ≢ some expected
    → verdict expected p ≡ ok none
unfolding verdict
verdict-passes expected p e h = ground (arith, state_matches_iff expected p)

pub verdict-refuses :
    (expected : String) (p : Params) → p.error ≢ none → (e : Error) × (verdict expected p ≡ err e)
unfolding verdict
verdict-refuses expected p h = elim (Option-cases p.error) [
  | inl e ↦ absurd (h e)
  | inr (e, given) ↦ (oauth (concat "provider returned error: " e), rw given)
]

abbrev pub IsCaptured : String → Params → Type 0
IsCaptured expected p = (c : CapturedCallback) × (verdict expected p ≡ ok (some c))

-- The browser is told that the sign-in is complete exactly when a code is taken from its request.
pub response_iff_IsCaptured :
    (expected : String) (p : Params) → ((response expected p).0 ≡ "200 OK") ↔ IsCaptured expected p
unfolding response verdict state_matches
response_iff_IsCaptured expected p = elim (Option-cases p.error) [
  | inr (e, refused) ↦ (
    λ h. absurd (ground (arith, ==_iff "400 Bad Request" "200 OK", refused)),
    λ (c, h). ground (arith, refused),
  )
  | inl clean ↦ elim (Bool-cases (state_matches expected p)) [
    | inr differs ↦ (
      λ h. absurd (ground (arith, ==_iff "400 Bad Request" "200 OK", clean, differs)),
      λ (c, h). ground (arith, clean, differs),
    )
    | inl matches ↦ elim (Option-cases p.code) [
      | inl missing ↦ (
        λ h. absurd (ground (arith, ==_iff "400 Bad Request" "200 OK", clean, matches, missing)),
        λ (c, h). ground (arith, clean, matches, missing),
      )
      | inr (c, given) ↦ (
        λ h. (record { code = c }, rw (clean, matches, given)),
        λ (c', h). rw (clean, matches, given),
      )
    ]
  ]
]
