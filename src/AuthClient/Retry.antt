-- ===== src/AuthClient/Retry.antt =====
-- The retry of a request that is answered with 401.
use mail_mcp.Base.{◌≡◌, nat_key, true, some, ok, arith, String}
use mail_mcp.Oauth.{Chrono, negsuc, OAuthTokens, refresh}
use mail_mcp.AuthClient.{
  AuthState, AuthClient, Turn, Http, on_remote, store, notify, keep, ensure_fresh, access_token,
  expire, retry, send,
}
use mail_mcp.AuthClient.Refresh.{renew_held}

module _ {T : Chrono} {S : Type 0} where
  -- No other task touches the shared state during the run.
  pub record IsAlone (turn : Turn T S) : Type 0 where
    pub kept_checked : (st : AuthState T S) → turn.on_checked st ≡ st
    pub kept_answer : (st : AuthState T S) → turn.on_answer st ≡ st
    pub kept_stored : (st : AuthState T S) → turn.on_stored st ≡ st
    pub kept_done : (st : AuthState T S) → turn.on_done st ≡ st

  -- The state once the endpoint has answered `new` for the refresh token `old`.
  abbrev pub renewed : AuthClient S → String → OAuthTokens T → AuthState T S → AuthState T S
  renewed client old new st = notify client.on_rotation old new.refresh_token (store new st)

  abbrev pub expired : T.Instant → S → AuthState T S → AuthState T S
  expired before s st = record st { tokens = record st.tokens { expires_at = before }; remote = s }

  module _ (client : AuthClient S) (turn : Turn T S) (alone : IsAlone turn) where
    keep_alone :
        (old : String) (new : OAuthTokens T) (st : AuthState T S)
        → keep client turn old new st ≡ (ok tt, renewed client old new st)
    unfolding keep
    keep_alone old new st = rw (alone.kept_answer st, alone.kept_stored (store new st))

    pub ensure_fresh-renews :
        (st : AuthState T S) (old : String) (new : OAuthTokens T) (s : S)
        → T.leb st.tokens.expires_at turn.now ≡ true
        → st.tokens.refresh_token ≡ some old
        → refresh T client.post client.cfg turn.answered old st.remote ≡ (ok new, s)
        → ensure_fresh client turn st ≡ (ok tt, renewed client old new (record st { remote = s }))
    unfolding ensure_fresh on_remote
    ensure_fresh-renews st old new s late held answer = rw (
      late,
      renew_held client turn st old (rw (alone.kept_checked st) held),
      alone.kept_checked st,
      answer,
      keep_alone old new (record st { remote = s }),
      alone.kept_done (renewed client old new (record st { remote = s })),
    )

  module _ (H : Http S) (client : AuthClient S) (first second : Turn T S) (refused : T.Instant)
      (alone : IsAlone second) where
    renewed-access_token :
        (old : String) (new : OAuthTokens T) (st : AuthState T S)
        → (renewed client old new st).tokens.access_token ≡ new.access_token
    unfolding notify store
    renewed-access_token old new st = ground arith

    retry-renews :
        (req : H.Request) (st : AuthState T S) (before : T.Instant) (old : String)
        (new : OAuthTokens T) (s : S)
        → T.add_seconds refused (negsuc 0) ≡ ok before
        → T.leb refused second.now ≡ true
        → st.tokens.refresh_token ≡ some old
        → refresh T client.post client.cfg second.answered old st.remote ≡ (ok new, s)
        → retry H client first second refused req st
          ≡ on_remote (H.send new.access_token req) (renewed client old new (expired before s st))
    unfolding retry expire access_token
    retry-renews req st before old new s back onward held answer = rw (
      back,
      ensure_fresh-renews client second alone (expired before st.remote st) old new s
          (T.leb-trans before refused second.now (T.leb-second refused before back) onward) held
          answer,
      renewed-access_token old new (expired before s st),
    )

    -- A request that is answered with 401 is sent a second time, once: `send` renews the tokens,
    -- although they had not expired, and then ends as the second request ends, whatever its status,
    -- with the new access token. The clock must not run backwards between the first answer and the
    -- check, no other task may touch the tokens while they are renewed, the client must hold a
    -- refresh token, and the endpoint must answer.
    pub send-retry :
        (req clone : H.Request) (st st1 : AuthState T S) (resp : H.Response) (s2 s3 : S)
        (before : T.Instant) (old : String) (new : OAuthTokens T)
        → ensure_fresh client first st ≡ (ok tt, st1)
        → H.try_clone req ≡ some clone
        → H.send st1.tokens.access_token clone st1.remote ≡ (ok resp, s2)
        → H.status resp ≡ 401
        → T.add_seconds refused (negsuc 0) ≡ ok before
        → T.leb refused second.now ≡ true
        → st1.tokens.refresh_token ≡ some old
        → refresh T client.post client.cfg second.answered old s2 ≡ (ok new, s3)
        → send H client first second refused req st
          ≡ on_remote (H.send new.access_token req) (renewed client old new (expired before s3 st1))
    unfolding send access_token on_remote nat_key
    send-retry req clone st st1 resp s2 s3 before old new checked cloned sent status back onward
          held answer =
        rw (checked, cloned, sent, status)
          (retry-renews req (record st1 { remote = s2 }) before old new s3 back onward held answer)
