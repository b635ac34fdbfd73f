-- ===== src/AuthClient.antt =====
-- crates/mail-mcp-core/src/providers/gmail/client.rs: the HTTP client that keeps one account's
-- tokens fresh, for both providers.
--
-- All clones of a client share the tokens behind a mutex, which is held for one read or write at a
-- time. A `Turn` is what one run of `ensure_fresh` meets: the clock, and what other tasks do to the
-- shared state wherever the run does not hold the mutex.
pub mod Refresh
pub mod Retry
pub mod Race
pub mod Requests
pub mod Keychain
use mail_mcp.Base.{
  ◌==◌, same, nat_key, ◌&&◌, Bool, true, false, not, String, Option, none, some, List, [], ◌∷◌, ℕ,
  Result, ok, err, oauth, internal, ok_or, if◌then◌else◌,
}
use mail_mcp.Base.State.{M, ◌>>=◌, ◌>>◌, pure, lift, gets, modify}
use mail_mcp.Oauth.{Chrono, negsuc, ProviderConfig, OAuthTokens, Post, refresh}

-- `notified` are the calls of the rotation callback, the newest first; `remote` is what requests
-- act on.
pub record AuthState (T : Chrono) (S : Type 0) : Type 0 where
  pub tokens : OAuthTokens T
  pub notified : List String
  pub remote : S

-- The parts of an `AuthClient` that do not change; `on_rotation` tells whether there is a callback.
pub record AuthClient (S : Type 0) : Type 0 where
  pub post : Post S
  pub cfg : ProviderConfig
  pub on_rotation : Bool

pub record Turn (T : Chrono) (S : Type 0) : Type 0 where
  pub now : T.Instant
  pub answered : T.Instant
  pub on_checked : AuthState T S → AuthState T S
  pub on_answer : AuthState T S → AuthState T S
  pub on_stored : AuthState T S → AuthState T S
  pub on_done : AuthState T S → AuthState T S

-- reqwest's request builder and response, as far as `send` uses them.
pub record Http (S : Type 0) : Type 1 where
  pub Request : Type 0
  pub Response : Type 0
  pub try_clone : Request → Option Request
  pub send : String → Request → M S Response
  pub status : Response → ℕ

module _ {T : Chrono} {S : Type 0} where
  abbrev on_remote_result : {A : Type 0} → AuthState T S → Result A × S → Result A × AuthState T S
  on_remote_result st (r, s) = (r, record st { remote = s })

  unfoldable pub on_remote : {A : Type 0} → M S A → M (AuthState T S) A
  on_remote m st = on_remote_result st (m st.remote)

  -- The block that writes the new tokens.
  unfoldable pub store : OAuthTokens T → AuthState T S → AuthState T S
  store new st = record st {
    tokens = record st.tokens {
      access_token = new.access_token;
      expires_at = new.expires_at;
      refresh_token = elim new.refresh_token [ none ↦ st.tokens.refresh_token | some rt ↦ some rt ];
    };
  }

  -- The call of the rotation callback.
  unfoldable pub notify : Bool → String → Option String → AuthState T S → AuthState T S
  notify on_rotation old none st = st
  notify on_rotation old (some rt) st =
      if not (rt == old) && on_rotation then record st { notified = rt ∷ st.notified } else st

  module _ (client : AuthClient S) (turn : Turn T S) where
    -- What `ensure_fresh` makes of the endpoint's answer.
    unfoldable pub keep : String → OAuthTokens T → M (AuthState T S) (Unit {0})
    keep old new = do
      modify turn.on_answer
      modify (store new)
      modify turn.on_stored
      modify (notify client.on_rotation old new.refresh_token)

    -- The part of `ensure_fresh` for tokens that have expired.
    unfoldable pub renew : M (AuthState T S) (Unit {0})
    renew = do
      modify turn.on_checked
      held ← gets (λ st. st.tokens.refresh_token)
      old ← lift (ok_or held (oauth "no refresh token available"))
      new ← on_remote (refresh T client.post client.cfg turn.answered old)
      keep old new

    -- `AuthClient::ensure_fresh`
    unfoldable pub ensure_fresh : M (AuthState T S) (Unit {0})
    ensure_fresh = do
      needs_refresh ← gets (λ st. T.leb st.tokens.expires_at turn.now)
      if needs_refresh then renew else pure tt
      modify turn.on_done

  -- `AuthClient::access_token`
  unfoldable pub access_token : M (AuthState T S) String
  access_token = gets (λ st. st.tokens.access_token)

  -- The forced expiry after a 401; `now` is the clock there.
  unfoldable pub expire : T.Instant → M (AuthState T S) (Unit {0})
  expire now = do
    before ← lift (T.add_seconds now (negsuc 0))
    modify (λ st. record st { tokens = record st.tokens { expires_at = before } })

  module _ (H : Http S) (client : AuthClient S) (first second : Turn T S)
      (refused : T.Instant) where
    -- The retry of `send`.
    unfoldable pub retry : H.Request → M (AuthState T S) H.Response
    retry req = do
      expire refused
      ensure_fresh client second
      token ← access_token
      on_remote (H.send token req)

    -- `AuthClient::send`
    unfoldable pub send : H.Request → M (AuthState T S) H.Response
    send req = do
      ensure_fresh client first
      token ← access_token
      clone ← lift (ok_or (H.try_clone req) (internal "non-clonable request"))
      resp ← on_remote (H.send token clone)
      if same (H.status resp) 401 then retry req else pure resp
