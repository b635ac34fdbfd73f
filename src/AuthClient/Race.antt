-- ===== src/AuthClient/Race.antt =====
-- Two runs of `ensure_fresh` at the same time.
use mail_mcp.Base.{◌≡◌, ◌≢◌, ap, ==_iff, true, String, some, ◌∷◌, ok, arith}
use mail_mcp.Oauth.{Chrono, OAuthTokens, refresh}
use mail_mcp.AuthClient.{AuthState, AuthClient, Turn, on_remote, store, notify, keep, ensure_fresh}
use mail_mcp.AuthClient.Refresh.{saved, renew_held}

module _ {T : Chrono} {S : Type 0} (client : AuthClient S) (turn : Turn T S) where
  -- The end of another run, which asked with `old` and got `other`.
  abbrev pub finish_other : String → OAuthTokens T → AuthState T S → AuthState T S
  finish_other old other st = notify client.on_rotation old other.refresh_token (store other st)

  store-notify-crossed :
      (old mine theirs : String) (new other : OAuthTokens T) (st : AuthState T S)
      → mine ≢ old
      → theirs ≢ old
      → new.refresh_token ≡ some mine
      → other.refresh_token ≡ some theirs
      → let st' : AuthState T S =
          notify true old new.refresh_token
            (notify true old other.refresh_token (store other (store new st))) in
        (st'.tokens.refresh_token ≡ some theirs) × (st'.notified ≡ mine ∷ theirs ∷ st.notified)
  unfolding store notify
  store-notify-crossed old mine theirs new other st ne ne' r r' =
      rw (r, r') (ground (arith, ==_iff mine old, ==_iff theirs old))

  -- Another run that asked with the same refresh token finishes between this run's write of the
  -- tokens and its call of the callback; nothing else happens.
  pub record IsCrossed (old : String) (other : OAuthTokens T) : Type 0 where
    pub kept_checked : (st : AuthState T S) → turn.on_checked st ≡ st
    pub kept_answer : (st : AuthState T S) → turn.on_answer st ≡ st
    pub crossed : (st : AuthState T S) → turn.on_stored st ≡ finish_other old other st
    pub kept_done : (st : AuthState T S) → turn.on_done st ≡ st

  ensure_fresh-crosses :
      (st : AuthState T S) (old : String) (new other : OAuthTokens T) (s : S)
      → IsCrossed old other
      → T.leb st.tokens.expires_at turn.now ≡ true
      → st.tokens.refresh_token ≡ some old
      → refresh T client.post client.cfg turn.answered old st.remote ≡ (ok new, s)
      → ensure_fresh client turn st ≡ (
        ok tt,
        notify client.on_rotation old new.refresh_token
            (finish_other old other (store new (record st { remote = s }))),
      )
  unfolding ensure_fresh on_remote keep
  ensure_fresh-crosses st old new other s x late held answer = rw (
    late,
    renew_held client turn st old (rw (x.kept_checked st) held),
    x.kept_checked st,
    answer,
    x.kept_answer (record st { remote = s }),
    x.crossed (store new (record st { remote = s })),
    x.kept_done (
        notify client.on_rotation old new.refresh_token
          (finish_other old other (store new (record st { remote = s })))),
  )

  -- Two runs that renew the tokens at once can leave the wrong refresh token saved: if both are
  -- given a new token, and the other run writes its own and calls the callback after this run's
  -- write and before this run's call, then the client goes on with the other run's token while the
  -- last one that the callback was given is this run's.
  pub ensure_fresh-crossed :
      (initial : String) (st : AuthState T S) (old mine theirs : String) (new other : OAuthTokens T)
      (s : S)
      → IsCrossed old other
      → client.on_rotation ≡ true
      → T.leb st.tokens.expires_at turn.now ≡ true
      → st.tokens.refresh_token ≡ some old
      → refresh T client.post client.cfg turn.answered old st.remote ≡ (ok new, s)
      → mine ≢ old
      → theirs ≢ old
      → new.refresh_token ≡ some mine
      → other.refresh_token ≡ some theirs
      → ((ensure_fresh client turn st).1.tokens.refresh_token ≡ some theirs)
        × (saved initial (ensure_fresh client turn st).1.notified ≡ mine)
  ensure_fresh-crossed initial st old mine theirs new other s x on late held answer ne ne' r r' =
      let (memory, calls) =
        store-notify-crossed old mine theirs new other (record st { remote = s }) ne ne' r r' in
      rw (ensure_fresh-crosses st old new other s x late held answer, on)
        (memory, ap (saved initial) calls)
