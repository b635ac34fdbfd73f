-- ===== src/Oauth/Authorize/Code.antt =====
-- What the tokens of a sign-in were given for.
use mail_mcp.Base.{◌≡◌, inl, inr, String, List, ok, IsIn, Result-cases}
use mail_mcp.Oauth.{Chrono, ProviderConfig, OAuthTokens, Post, exchange_code}
use mail_mcp.Oauth.Loopback.{Accept, await_callback}
use mail_mcp.Oauth.Loopback.Callback.{IsCallback, await_callback-IsCallback}
use mail_mcp.Oauth.Authorize.{AuthChallenge, complete_authorization}

module _ (T : Chrono) {S : Type 0} (post : Post S) (percent_decode : String → String) where
  -- A sign-in that ends with tokens has exchanged, with the challenge's own verifier and redirect
  -- address, a code that came in a redirect which carried the challenge's state and no error; what
  -- the exchange answered is the result.
  pub complete_authorization-exchanges :
      (cfg : ProviderConfig) (challenge : AuthChallenge) (accepts : List Accept) (now : T.Instant)
      (s s' : S) (tokens : OAuthTokens T)
      → complete_authorization T post percent_decode cfg challenge accepts now s ≡ (ok tokens, s')
      → (code : String) × (a : Accept) × IsIn a accepts
        × IsCallback percent_decode challenge.state code a
        × (exchange_code T post cfg now challenge.verifier code challenge.redirect_uri s
            ≡ (ok tokens, s'))
  unfolding complete_authorization
  complete_authorization-exchanges cfg challenge accepts now s s' tokens h =
      elim (Result-cases (await_callback percent_decode challenge.state accepts)) [
        | inr (e, failure) ↦ cc
        | inl (captured, caught) ↦
            let (a, here, callback) =
              await_callback-IsCallback percent_decode challenge.state accepts captured caught in
            (captured.code, a, here, callback, rw caught at h)
      ]
