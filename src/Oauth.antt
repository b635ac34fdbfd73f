-- ===== src/Oauth.antt =====
-- crates/mail-mcp-core/src/oauth/mod.rs: the tokens and the two calls of the token endpoint.
--
-- The request itself (`post(..).form(..).send()`, the status check and the decoding of the answer)
-- is reqwest's, and instants are chrono's: both are interfaces here.
pub mod Loopback
pub mod Authorize
pub mod Google
pub mod Microsoft
use mail_mcp.Base.{
  ℕ, ◌+◌, ◌-◌, ◌^◌, ◌≡◌, Bool, true, false, String, Option, none, some, List, [], ◌∷◌, Result, ok,
  err, if◌then◌else◌, leb,
}
use mail_mcp.Base.State.{M, ◌>>=◌, pure, lift}

pub data ℤ : Type 0 where
  pos : ℕ → ℤ
  negsuc : ℕ → ℤ

-- `x - k` on i64, which wraps around below -2^63 in a release build.
unfoldable pub sub_i64 : ℤ → ℕ → ℤ
sub_i64 (pos x) k = if leb k x then pos (x - k) else negsuc (k - x - 1)
sub_i64 (negsuc x) k = if leb (2 ^ 63) (x + k) then pos (2 ^ 64 - 1 - (x + k)) else negsuc (x + k)

-- chrono's instants. Adding seconds panics outside chrono's range, and going back a second does not
-- go forward.
pub record Chrono : Type 1 where
  pub Instant : Type 0
  pub leb : Instant → Instant → Bool
  pub add_seconds : Instant → ℤ → Result Instant
  pub leb-trans : (a b c : Instant) → leb a b ≡ true → leb b c ≡ true → leb a c ≡ true
  pub leb-second : (a b : Instant) → add_seconds a (negsuc 0) ≡ ok b → leb b a ≡ true

pub record ProviderConfig : Type 0 where
  pub auth_url : String
  pub token_url : String
  pub client_id : String
  pub default_scopes : List String

pub record OAuthTokens (T : Chrono) : Type 0 where
  pub access_token : String
  pub refresh_token : Option String
  pub expires_at : T.Instant
  pub scope : Option String

-- The local type `Resp` of `refresh` and `exchange_code`.
pub record Resp : Type 0 where
  pub access_token : String
  pub refresh_token : Option String
  pub expires_in : ℤ
  pub scope : Option String

-- A form that is posted to a URL, up to the decoded answer; `S` is the remote side.
abbrev pub Post : Type 0 → Type 0
Post S = String → List (String × String) → M S Resp

module _ (T : Chrono) where
  -- What both calls make of the answer; `now` is read once it is there.
  unfoldable pub tokens_of : T.Instant → Resp → Result (OAuthTokens T)
  tokens_of now resp = elim (T.add_seconds now (sub_i64 resp.expires_in 30)) [
    | err e ↦ err e
    | ok expires_at ↦ ok record {
      access_token = resp.access_token;
      refresh_token = resp.refresh_token;
      expires_at = expires_at;
      scope = resp.scope;
    }
  ]

  module _ {S : Type 0} (post : Post S) (cfg : ProviderConfig) where
    -- `refresh`
    unfoldable pub refresh : T.Instant → String → M S (OAuthTokens T)
    refresh now refresh_token = do
      resp ← post cfg.token_url (
          ("client_id", cfg.client_id)
          ∷ ("grant_type", "refresh_token")
          ∷ ("refresh_token", refresh_token)
          ∷ [])
      lift (tokens_of now resp)

    -- `exchange_code`
    unfoldable pub exchange_code :
        T.Instant → (verifier code redirect_uri : String) → M S (OAuthTokens T)
    exchange_code now verifier code redirect_uri = do
      resp ← post cfg.token_url (
          ("client_id", cfg.client_id)
          ∷ ("grant_type", "authorization_code")
          ∷ ("code", code)
          ∷ ("redirect_uri", redirect_uri)
          ∷ ("code_verifier", verifier)
          ∷ [])
      lift (tokens_of now resp)
