-- ===== src/Server/Authorized.antt =====
-- Who is answered.
use Prim.Native.Char.{Char, code}
use Prim.Native.String.{◌++◌}
use text.Mathlib.TextEquality.{Char-path}
use text.Mathlib.TextLemmas.{nil-append, cons-append}
use mail_mcp.Base.{
  ◌≡◌, refl, ap, ◌∙◌, ◌↔◌, inl, inr, true, String, none, some, arith, nat_key, ◌==◌, ==_iff,
  Option-cases,
}
use mail_mcp.Base.Texts.{strip_prefix}
use mail_mcp.Server.{Authorization, check_auth}

strip_prefix-cons :
    (c : Char) (p s : String) → strip_prefix (String.◌∷◌ c p) (String.◌∷◌ c s) ≡ strip_prefix p s
unfolding strip_prefix
strip_prefix-cons c p s = ground arith

strip_prefix-append : (p s : String) → strip_prefix p (p ++ s) ≡ some s
unfolding strip_prefix
strip_prefix-append String.[] s = ap some (nil-append s)
strip_prefix-append (String.◌∷◌ c p) s =
    ap (strip_prefix (String.◌∷◌ c p)) (cons-append c p s)
    ∙ (strip_prefix-cons c p (p ++ s) ∙ strip_prefix-append p s)

strip_prefix-eq-some : (p s t : String) → strip_prefix p s ≡ some t → s ≡ p ++ t
unfolding strip_prefix
strip_prefix-eq-some String.[] s t h = cc (nil-append t)
strip_prefix-eq-some (String.◌∷◌ c p) String.[] t h = cc
strip_prefix-eq-some (String.◌∷◌ c p) (String.◌∷◌ d s) t h = elim (nat_key.dec (code c) (code d)) [
  | yes e ↦
      let tail : strip_prefix p s ≡ some t = ground arith in
      cc (Char-path c d e, strip_prefix-eq-some p s t tail, cons-append c p t)
  | no ne ↦ ground arith
]

-- The header is the text `Bearer ` followed by the token.
abbrev pub IsBearer : String → Authorization → Type 0
IsBearer token header = header ≡ some (some ("Bearer " ++ token))

bearer-strips :
    (s token : String) → IsBearer token (some (some s)) → strip_prefix "Bearer " s ≡ some token
bearer-strips s token e =
    let same_text : s ≡ "Bearer " ++ token = cc in
    ap (strip_prefix "Bearer ") same_text ∙ strip_prefix-append "Bearer " token

strips-IsBearer :
    (s t token : String)
    → strip_prefix "Bearer " s ≡ some t
    → (t == token) ≡ true
    → IsBearer token (some (some s))
strips-IsBearer s t token stripped h =
    let same_token : t ≡ token = (==_iff t token).0 h in
    cc (strip_prefix-eq-some "Bearer " s t stripped)

-- A request passes the check exactly when its header is `Bearer `, with that capital and one space,
-- followed by the daemon's token.
pub check_auth_iff :
    (header : Authorization) (token : String)
    → (check_auth header token ≡ true) ↔ IsBearer token header
unfolding check_auth
check_auth_iff none token = ground arith
check_auth_iff (some none) token = ground arith
check_auth_iff (some (some s)) token = (
  λ h. elim (Option-cases (strip_prefix "Bearer " s)) [
    | inl missing ↦ ground (arith, missing)
    | inr (t, stripped) ↦ strips-IsBearer s t token stripped (rw (stripped, check_auth) at h)
  ],
  λ e. rw (bearer-strips s token e, check_auth) ((==_iff token token).1 refl),
)
