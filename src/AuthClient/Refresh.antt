-- ===== src/AuthClient/Refresh.antt =====
-- The refresh token in memory and the one that the rotation callback has been given.
use mail_mcp.Base.{
  ◌≡◌, inl, inr, ==_iff, true, String, some, List, [], ◌∷◌, Result, ok, err, arith, Option-cases,
  Bool-cases,
}
use mail_mcp.Base.State.{bind_outcome, modify}
use mail_mcp.Oauth.{Chrono, OAuthTokens, refresh}
use mail_mcp.AuthClient.{
  AuthState, AuthClient, Turn, on_remote, store, notify, keep, renew, ensure_fresh,
}

-- The token that a restart would load: the last one that the callback was given, or the one that
-- the client started with.
abbrev pub saved : String → List String → String
saved initial [] = initial
saved initial (rt ∷ _) = rt

module _ {T : Chrono} {S : Type 0} where
  abbrev pub IsSaved : String → AuthState T S → Type 0
  IsSaved initial st = st.tokens.refresh_token ≡ some (saved initial st.notified)

  -- Nobody else touches the tokens or the callback between the request and the callback's call.
  pub record IsUndisturbed (turn : Turn T S) : Type 0 where
    pub kept_answer : (st : AuthState T S) → turn.on_answer st ≡ st
    pub kept_stored : (st : AuthState T S) → turn.on_stored st ≡ st

  abbrev pub Preserves : (AuthState T S → Type 0) → (AuthState T S → AuthState T S) → Type 0
  Preserves P f = (st : AuthState T S) → P st → P (f st)

  store-notify-IsSaved :
      (initial old : String) (new : OAuthTokens T) (st : AuthState T S)
      → IsSaved initial st
      → st.tokens.refresh_token ≡ some old
      → IsSaved initial (notify true old new.refresh_token (store new st))
  unfolding store notify
  store-notify-IsSaved initial old new st h e = elim (Option-cases new.refresh_token) [
    | inl same ↦ ground (arith, same)
    | inr (rt, rotated) ↦ ground (arith, rotated, ==_iff rt old)
  ]

  module _ (client : AuthClient S) (turn : Turn T S) where
    keep-IsSaved :
        (initial old : String) (r : Result (OAuthTokens T)) (st : AuthState T S)
        → IsUndisturbed turn
        → client.on_rotation ≡ true
        → IsSaved initial st
        → st.tokens.refresh_token ≡ some old
        → IsSaved initial (bind_outcome (r, st) (keep client turn old)).1
    unfolding keep
    keep-IsSaved initial old (err e) st quiet on h held = h
    keep-IsSaved initial old (ok new) st quiet on h held =
        rw (on, quiet.kept_answer st, quiet.kept_stored (store new st))
          (store-notify-IsSaved initial old new st h held)

    pub renew_held :
        (st : AuthState T S) (old : String)
        → (turn.on_checked st).tokens.refresh_token ≡ some old
        → renew client turn st
          ≡ bind_outcome
              (on_remote (refresh T client.post client.cfg turn.answered old) (turn.on_checked st))
              (keep client turn old)
    unfolding renew
    renew_held st old e = rw e

    renew-IsSaved :
        (initial : String) (st : AuthState T S)
        → IsUndisturbed turn
        → client.on_rotation ≡ true
        → Preserves (IsSaved initial) turn.on_checked
        → IsSaved initial st
        → IsSaved initial (renew client turn st).1
    unfolding on_remote
    renew-IsSaved initial st quiet on checked h =
        let start : AuthState T S = turn.on_checked st in
        let old = saved initial start.notified in
        let r = refresh T client.post client.cfg turn.answered old start.remote in
        rw (renew_held st old (checked st h)) (
          keep-IsSaved initial old r.0 (record start { remote = r.1 }) quiet on (checked st h)
            (checked st h))

    done-IsSaved :
        (initial : String) (r : Result (Unit {0})) (st : AuthState T S)
        → Preserves (IsSaved initial) turn.on_done
        → IsSaved initial st
        → IsSaved initial (bind_outcome (r, st) (λ _. modify turn.on_done)).1
    done-IsSaved initial (err e) st done h = h
    done-IsSaved initial (ok _) st done h = done st h

    -- A restart finds the refresh token that the running client uses: where a rotation callback is
    -- registered, `ensure_fresh` keeps the token in memory and the last one that the callback was
    -- given the same, whether it succeeds or fails and whether the endpoint rotates the token or
    -- omits it. Other tasks must keep them the same too, and must leave the state alone between
    -- this run's request and its call of the callback.
    pub ensure_fresh-IsSaved :
        (initial : String) (st : AuthState T S)
        → IsUndisturbed turn
        → client.on_rotation ≡ true
        → Preserves (IsSaved initial) turn.on_checked
        → Preserves (IsSaved initial) turn.on_done
        → IsSaved initial st
        → IsSaved initial (ensure_fresh client turn st).1
    unfolding ensure_fresh
    ensure_fresh-IsSaved initial st quiet on checked done h =
        elim (Bool-cases (T.leb st.tokens.expires_at turn.now)) [
          | inl expired ↦
              let r = renew client turn st in
              rw expired
                (done-IsSaved initial r.0 r.1 done (renew-IsSaved initial st quiet on checked h))
          | inr fresh ↦ rw fresh (done st h)
        ]
