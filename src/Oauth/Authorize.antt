-- ===== src/Oauth/Authorize.antt =====
-- oauth/mod.rs, `begin_authorization` and `complete_authorization`: from the browser's URL to the
-- tokens.
--
-- The random texts of `PkcePair::generate` and `state_nonce` are arguments, as is the address that
-- the listener was bound to, or the error of binding it.
pub mod Code
use Prim.Native.String.{◌++◌}
use mail_mcp.Base.{String, Option, none, some, List, [], ◌∷◌, Result, ok, err, ◌>>=◌, unwrap_or}
use mail_mcp.Base.State
use mail_mcp.Base.State.{M, lift}
use mail_mcp.Oauth.{Chrono, ProviderConfig, OAuthTokens, Post, exchange_code}
use mail_mcp.Oauth.Loopback.{Accept, await_callback}

pub record PkcePair : Type 0 where
  pub verifier : String
  pub challenge : String

-- The listener is its expected state; what it accepts is an argument of `complete_authorization`.
pub record AuthChallenge : Type 0 where
  pub auth_url : String
  pub redirect_uri : String
  pub state : String
  pub verifier : String

-- `scopes.join(" ")`
unfoldable pub join_spaces : List String → String
join_spaces [] = ""
join_spaces (s ∷ []) = s
join_spaces (s ∷ t ∷ more) = s ++ (" " ++ join_spaces (t ∷ more))

module _ (urlencode : String → String) where
  -- The `format!` of `begin_authorization`.
  unfoldable pub auth_url : ProviderConfig → (redirect_uri scopes state challenge : String) → String
  auth_url cfg redirect_uri scopes state challenge =
      cfg.auth_url
      ++ ("?response_type=code&client_id="
          ++ (urlencode cfg.client_id
              ++ ("&redirect_uri="
                  ++ (urlencode redirect_uri
                      ++ ("&scope="
                          ++ (urlencode scopes
                              ++ ("&state="
                                  ++ (urlencode state
                                      ++ ("&code_challenge="
                                          ++ (urlencode challenge
                                              ++ "&code_challenge_method=S256&access_type=offline&prompt=consent"))))))))))

  -- `begin_authorization`
  unfoldable pub begin_authorization :
      ProviderConfig
      → Option (List String)
      → PkcePair
      → (state : String) → (bound : Result String) → Result AuthChallenge
  begin_authorization cfg extra_scopes pair state bound = do
    redirect_uri ← bound
    let scopes = join_spaces (unwrap_or extra_scopes cfg.default_scopes)
    ok record {
      auth_url = auth_url cfg redirect_uri scopes state pair.challenge;
      redirect_uri = redirect_uri;
      state = state;
      verifier = pair.verifier;
    }

module _ (T : Chrono) {S : Type 0} (post : Post S) (percent_decode : String → String) where
  -- `complete_authorization`
  unfoldable pub complete_authorization :
      ProviderConfig → AuthChallenge → List Accept → T.Instant → M S (OAuthTokens T)
  complete_authorization cfg challenge accepts now =
      State.◌>>=◌ (lift (await_callback percent_decode challenge.state accepts)) λ captured.
        exchange_code T post cfg now challenge.verifier captured.code challenge.redirect_uri
