-- ===== src/AuthClient/Keychain.antt =====
-- The saved refresh token over whole operations of a provider.
use mail_mcp.Base.{ℕ, ◌≡◌, true, Bool-cases, inl, inr, String, List, ok_or, same, nat_key}
use mail_mcp.Base.State.{M, lift}
use mail_mcp.Base.Keeps.{Keeps, bind-Keeps, lift-Keeps, pure-Keeps}
use mail_mcp.Base.{some, String, List, sym, ap, ◌∙◌, [], ◌∷◌, ok}
use mail_mcp.Base.Ids.{AccountId, Ulid}
use mail_mcp.Secrets
use mail_mcp.Secrets.{Keyring, refresh_token}
use mail_mcp.Secrets.Entries.{set-get}
use mail_mcp.Handler.Startup.{rotation_callback}
use mail_mcp.Json.{Json}
use mail_mcp.Oauth.{Chrono, negsuc}
use mail_mcp.Mail.Keeping.{IsKept, perform_all-Keeps}
use mail_mcp.Mail.Operation.{Operation, perform_all}
use mail_mcp.Gmail.Compose.{MessageBuilder}
use mail_mcp.Gmail.Provider as Gmail
use mail_mcp.Gmail.Keeping as GmailKeeping
use mail_mcp.M365.Provider as M365
use mail_mcp.M365.Keeping as M365Keeping
use mail_mcp.AuthClient.{
  AuthState, AuthClient, Turn, Http, on_remote, ensure_fresh, access_token, expire, retry, send,
}
use mail_mcp.AuthClient.Refresh.{IsSaved, IsUndisturbed, Preserves, ensure_fresh-IsSaved, saved}
use mail_mcp.AuthClient.Requests.{
  Reqwest, Meeting, Counted, send_counted, get, post_json, put_json, patch_json, delete, checked,
  rest_client,
}

-- What the callback has made of the keychain, call by call; the newest call is the first.
unfoldable pub keychain_after :
    (K : Keyring) (U : Ulid) → AccountId → K.Store → List String → K.Store
keychain_after K U id k [] = k
keychain_after K U id k (rt ∷ older) = rotation_callback K U id rt (keychain_after K U id k older)

-- A start would read the refresh token that the client uses.
abbrev pub IsInKeychain :
    {T : Chrono} {S : Type 0} (K : Keyring) (U : Ulid)
    → AccountId
    → K.Store
    → AuthState T S
    → Type 0
IsInKeychain K U id k st =
    Secrets.get K U id refresh_token (keychain_after K U id k st.notified)
    ≡ ok st.tokens.refresh_token

get-keychain_after :
    (initial : String) (K : Keyring) (U : Ulid) (id : AccountId) (k : K.Store)
    → ((rt : String) (k' : K.Store) → (Secrets.set K U id refresh_token rt k').0 ≡ ok tt)
    → Secrets.get K U id refresh_token k ≡ ok (some initial)
    → (notified : List String)
    → Secrets.get K U id refresh_token (keychain_after K U id k notified)
      ≡ ok (some (saved initial notified))
unfolding keychain_after rotation_callback
get-keychain_after initial K U id k writable stored [] = stored
get-keychain_after initial K U id k writable stored (rt ∷ older) =
    let before = keychain_after K U id k older in
    set-get K U id refresh_token rt before (Secrets.set K U id refresh_token rt before).1
      (ap (λ r. (r, (Secrets.set K U id refresh_token rt before).1)) (writable rt before))

module _ {T : Chrono} {S : Type 0} (initial : String) where
  -- Other tasks keep the saved token in step, and leave the state alone between this task's request and
  -- its call of the callback.
  pub record IsPolite (turn : Turn T S) : Type 0 where
    pub undisturbed : IsUndisturbed turn
    pub checked : Preserves (IsSaved initial) turn.on_checked
    pub done : Preserves (IsSaved initial) turn.on_done

  IsSaved-IsInKeychain :
      (K : Keyring) (U : Ulid) (id : AccountId) (k : K.Store)
      → ((rt : String) (k' : K.Store) → (Secrets.set K U id refresh_token rt k').0 ≡ ok tt)
      → Secrets.get K U id refresh_token k ≡ ok (some initial)
      → (st : AuthState T S) → IsSaved initial st
      → IsInKeychain K U id k st
  IsSaved-IsInKeychain K U id k writable stored st h =
      get-keychain_after initial K U id k writable stored st.notified ∙ ap ok (sym h)

  on_remote-IsSaved : {A : Type 0} (m : M S A) → Keeps (IsSaved initial) (on_remote {T = T} m)
  unfolding on_remote
  on_remote-IsSaved m = record { at = λ st h. h }

  expire-IsSaved : (now : T.Instant) → Keeps (IsSaved initial) (expire {T = T} {S = S} now)
  unfolding expire
  expire-IsSaved now =
      bind-Keeps (lift (T.add_seconds now (negsuc 0))) _ (lift-Keeps (T.add_seconds now (negsuc 0)))
        (λ before. record { at = λ st h. h })

  access_token-IsSaved : Keeps (IsSaved initial) (access_token {T = T} {S = S})
  unfolding access_token
  access_token-IsSaved = record { at = λ st h. h }

  module _ (client : AuthClient S) (on : client.on_rotation ≡ true) where
    fresh-IsSaved :
        (turn : Turn T S) → IsPolite turn → Keeps (IsSaved initial) (ensure_fresh client turn)
    fresh-IsSaved turn p = record {
      at = λ st h. ensure_fresh-IsSaved client turn initial st p.undisturbed on p.checked p.done h;
    }

    module _ (H : Http S) (first second : Turn T S) (refused : T.Instant) (polite : IsPolite first)
        (polite_again : IsPolite second) where
      retry-IsSaved :
          (req : H.Request) → Keeps (IsSaved initial) (retry H client first second refused req)
      unfolding retry
      retry-IsSaved req = bind-Keeps (expire refused) _ (expire-IsSaved refused) λ _.
          bind-Keeps (ensure_fresh client second) _ (fresh-IsSaved second polite_again) λ _.
            bind-Keeps access_token _ access_token-IsSaved
              (λ token. on_remote-IsSaved (H.send token req))

      send-IsSaved :
          (req : H.Request) → Keeps (IsSaved initial) (send H client first second refused req)
      unfolding send
      send-IsSaved req = bind-Keeps (ensure_fresh client first) _ (fresh-IsSaved first polite) λ _.
          bind-Keeps access_token _ access_token-IsSaved λ token.
            bind-Keeps (lift (ok_or (H.try_clone req) _)) _ (lift-Keeps (ok_or (H.try_clone req) _))
              λ clone.
                bind-Keeps (on_remote (H.send token clone)) _
                  (on_remote-IsSaved (H.send token clone))
                  λ resp. elim (Bool-cases (same (H.status resp) 401)) [
                    | inl stale ↦ rw stale (retry-IsSaved req)
                    | inr fine ↦ rw fine (pure-Keeps resp)
                  ]

  module _ (J : Json) (R : Reqwest J.Value S) (client : AuthClient S) (meets : ℕ → Meeting T S)
      (on : client.on_rotation ≡ true) (first : (n : ℕ) → IsPolite (meets n).first)
      (second : (n : ℕ) → IsPolite (meets n).second) where
    abbrev pub IsCountedSaved : Counted T S → Type 0
    IsCountedSaved c = IsSaved initial c.state

    send_counted-IsSaved :
        (req : R.http.Request) → Keeps IsCountedSaved (send_counted R client meets req)
    unfolding send_counted
    send_counted-IsSaved req = record {
      at = λ c h.
          (send-IsSaved client on R.http (meets c.sends).first (meets c.sends).second
              (meets c.sends).refused (first c.sends) (second c.sends) req).at
            c.state h;
    }

    checked-IsSaved :
        (req : R.http.Request)
        → Keeps IsCountedSaved (checked R client meets (send_counted R client meets req))
    checked-IsSaved req =
        bind-Keeps (send_counted R client meets req) _ (send_counted-IsSaved req)
          (λ resp. lift-Keeps (R.error_for_status resp))

    rest_client-IsKept : IsKept IsCountedSaved (rest_client R client meets)
    unfolding get post_json put_json patch_json delete
    rest_client-IsKept = record {
      get = λ url. checked-IsSaved (R.get url);
      post_json = λ url body. checked-IsSaved (R.post url body);
      put_json = λ url body. checked-IsSaved (R.put url body);
      patch_json = λ url body. checked-IsSaved (R.patch url body);
      delete = λ url. checked-IsSaved (R.delete url);
    }

    perform_all-IsSaved :
        (B : MessageBuilder) (G : Gmail.Reading J B) (X : M365.Reading J) (base user_email : String)
        (ops : List Operation) (c : Counted T S)
        → IsSaved initial c.state
        → IsSaved initial
            (perform_all
              (Gmail.with_base J B G (rest_client R client meets) base user_email)
              ops
              c).state
          × IsSaved initial
              (perform_all (M365.with_base J X (rest_client R client meets) base) ops c).state
    perform_all-IsSaved B G X base user_email ops c h =
        let rest = rest_client R client meets in
        (
          perform_all-Keeps
              (GmailKeeping.with_base-IsKeeping J B G rest base user_email rest_client-IsKept) ops c
              h,
          perform_all-Keeps (M365Keeping.with_base-IsKeeping J X rest base rest_client-IsKept) ops c
              h,
        )

    -- After any operations of the Gmail provider and of the Microsoft 365 provider, whether they
    -- succeed or fail, whichever requests are answered with 401, and whether the endpoint rotates
    -- the token or omits it, the account's entry in the keychain is the refresh token that the client
    -- uses, as `make_rotation_callback` writes it each time. A rotation callback must be registered, the
    -- keychain must have the client's token at the start and take every write, and during every
    -- request other tasks must keep the client's token the last one given to the callback, and leave
    -- the state alone between the request of a refresh and the call of the callback.
    pub perform_all-get :
        (K : Keyring) (U : Ulid) (id : AccountId) (k : K.Store) (B : MessageBuilder)
        (G : Gmail.Reading J B) (X : M365.Reading J) (base user_email : String)
        (ops : List Operation) (c : Counted T S)
        → ((rt : String) (k' : K.Store) → (Secrets.set K U id refresh_token rt k').0 ≡ ok tt)
        → Secrets.get K U id refresh_token k ≡ ok (some initial)
        → c.state.notified ≡ []
        → c.state.tokens.refresh_token ≡ some initial
        → IsInKeychain K U id k
            (perform_all
              (Gmail.with_base J B G (rest_client R client meets) base user_email)
              ops
              c).state
          × IsInKeychain K U id k
              (perform_all (M365.with_base J X (rest_client R client meets) base) ops c).state
    perform_all-get K U id k B G X base user_email ops c writable stored untold held =
        let rest = rest_client R client meets in
        let (h, h') =
          perform_all-IsSaved B G X base user_email ops c
            (held ∙ ap (λ n. some (saved initial n)) (sym untold)) in
        (
          IsSaved-IsInKeychain K U id k writable stored
              (perform_all (Gmail.with_base J B G rest base user_email) ops c).state h,
          IsSaved-IsInKeychain K U id k writable stored
              (perform_all (M365.with_base J X rest base) ops c).state h',
        )
