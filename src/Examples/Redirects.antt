-- ===== src/Examples/Redirects.antt =====
-- A port scan, then the browser's redirect.
use mail_mcp.Base.{◌≡◌, refl, String, none, some, [], ◌∷◌, ok, IsIn, nat_key, string_key}
use mail_mcp.Base.Texts.{
  split_once, split, is_whitespace, words_from, split_whitespace, trim_cr, first_line,
}
use mail_mcp.Oauth.{ProviderConfig, OAuthTokens, Post, pos, sub_i64, tokens_of, exchange_code}
use mail_mcp.Oauth.Authorize.{AuthChallenge, complete_authorization}
use mail_mcp.Oauth.Authorize.Code.{complete_authorization-exchanges}
use mail_mcp.Examples.Tokens.{seconds}
use mail_mcp.Oauth.Loopback.{
  Accept, connected, key_value, set_param, set_params, query, params, state_matches, response,
  verdict, handle_one, await_callback,
}
use mail_mcp.Oauth.Loopback.Callback.{IsCallback}

redirects : Unit {0}
unfolding split_once split is_whitespace words_from split_whitespace trim_cr first_line key_value
    set_param set_params query params state_matches response verdict handle_one await_callback
    nat_key
redirects = tt

-- Percent decoding of texts without a percent sign.
abbrev plain : String → String
plain s = s

abbrev scan : Accept
scan = connected (ok (some "GET / HTTP/1.1\r\nHost: x\r\n"))

abbrev redirect : Accept
redirect = connected (ok (some "GET /callback?code=abc&state=s1 HTTP/1.1\r\nHost: x\r\n"))

captures : await_callback plain "s1" (scan ∷ redirect ∷ []) ≡ ok (record { code = "abc" })
unfolding redirects
captures = refl

-- A token endpoint that grants whatever it is asked for.
abbrev granting : Post (Unit {0})
granting url form s = (
  ok record { access_token = "AT"; refresh_token = some "RT"; expires_in = pos 3600; scope = none },
  s,
)

abbrev provider_config : ProviderConfig
provider_config = record { auth_url = "a"; token_url = "t"; client_id = "c"; default_scopes = [] }

abbrev challenge : AuthChallenge
challenge = record {
  auth_url = "a?state=s1";
  redirect_uri = "http://127.0.0.1:1/callback";
  state = "s1";
  verifier = "v";
}

abbrev granted : OAuthTokens seconds
granted = record { access_token = "AT"; refresh_token = some "RT"; expires_at = 3571; scope = none }

complete_authorization-exchanges_example :
    (code : String) × (a : Accept) × IsIn a (scan ∷ redirect ∷ [])
    × IsCallback plain "s1" code a
    × (exchange_code seconds granting provider_config 1 "v" code "http://127.0.0.1:1/callback" tt
        ≡ (ok granted, tt))
unfolding redirects sub_i64 tokens_of exchange_code complete_authorization
complete_authorization-exchanges_example =
    complete_authorization-exchanges seconds granting plain provider_config challenge
      (scan ∷ redirect ∷ []) 1 tt tt granted refl
