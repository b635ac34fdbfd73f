-- ===== src/Handler/Completion.antt =====
-- What `complete_oauth` leaves, when it succeeds, when it fails and when it is asked again.
use Prim.Native.String.{◌++◌}
use mail_mcp.Base.{
  ℕ, ◌≡◌, refl, sym, ap, subst, ◌∙◌, ◌⊎◌, [], if◌then◌else◌, ◌==◌, inl, inr, String, none, some,
  ◌∷◌, ok, err, not_found, oauth, Result-cases, Option-cases, arith, nat_key, string_key, unwrap_or,
}
use mail_mcp.Base.Texts.{split}
use mail_mcp.Base.Dict.{lookup, lookup-insert, remove, lookup-remove}
use mail_mcp.Base.Ids.{AccountId, Ulid}
use mail_mcp.Json.{Json}
use mail_mcp.Permissions.Category.{Category}
use mail_mcp.Permissions.Policy.{default_policy}
use mail_mcp.Permissions.Storage.{Storage}
use mail_mcp.Permissions.Table.{Permissions, install_defaults, for_account, policy_for}
use mail_mcp.Permissions.Laws.{install_defaults-for_account}
use mail_mcp.Accounts
use mail_mcp.Accounts.{Codec, Account, NewAccount}
use mail_mcp.Accounts.Lifecycle.{create-get, created}
use mail_mcp.Approvals.{Oneshot}
use mail_mcp.Oauth.{Chrono, OAuthTokens}
use mail_mcp.Secrets
use mail_mcp.Secrets.{Keyring, refresh_token}
use mail_mcp.Secrets.Entries.{set-get}
use mail_mcp.Mail.Provider.{MailProvider}
use mail_mcp.Ipc.Messages.{account_added, Writers}
use mail_mcp.Handler.State.{PendingOauth, Daemon, str_param, required}
use mail_mcp.Handler.Signup.{
  joined, scopes_of, cancel_oauth, new_account, register, complete_oauth, keep_refresh_token,
  take_pending,
}
use mail_mcp.Handler.Registration.{
  with_token, register-eq-ok, complete_oauth-take, for_account-create, get-install_defaults,
}

module _ (J : Json) (C : Codec) (U : Ulid) (O : Oneshot) (K : Keyring) (T : Chrono) (S : Type 0)
    (W : Writers J C) (empty_config : C.Value)
    (gmail : AccountId → OAuthTokens T → String → MailProvider S) where
  -- The account `id` is set up with these tokens in the daemon.
  pub record IsRegistered (id : AccountId) (account : Account C) (tokens : OAuthTokens T)
      (email : String) (d : Daemon J.Value C O K T S) : Type 0 where
    pub stored : (Accounts.get C U id d.storage).0 ≡ ok (some account)
    pub perms : Permissions
    pub readable : (for_account U id d.storage).0 ≡ ok perms
    pub guarded : (c : Category) → policy_for perms c ≡ default_policy c
    pub token : String
    pub granted : tokens.refresh_token ≡ some token
    pub kept : Secrets.get K U id refresh_token d.secrets ≡ ok (some token)
    pub served : lookup id d.providers ≡ some (gmail id tokens email)

  -- A `register` that succeeds sets the account up.
  register-IsRegistered :
      (id : AccountId) (now : ℕ) (label : String) (tokens : OAuthTokens T) (email : String)
      (at : C.Instant) (before : Permissions) (v : J.Value) (d d' : Daemon J.Value C O K T S)
      → C.instant now ≡ some at
      → (for_account U id d.storage).0 ≡ ok before
      → register J C U O K T S W empty_config gmail id now label tokens email d ≡ (ok v, d')
      → IsRegistered id
          (created C U id at
            (new_account J C U O K T S W empty_config gmail label email tokens.scope))
          tokens
          email
          d'
        × (d'.pending_oauth ≡ d.pending_oauth)
        × (d'.sent
            ≡ account_added (
                created C U id at
                  (new_account J C U O K T S W empty_config gmail label email tokens.scope))
              ∷ d.sent)
  register-IsRegistered id now label tokens email at before v d d' clock readable h =
      let added = new_account J C U O K T S W empty_config gmail label email tokens.scope in
      let (rt, account, given, made, installed, kept, found, after) =
        register-eq-ok J C U O K T S W empty_config gmail id now label tokens email v d d' h in
      let s = Accounts.create C U id now added d.storage in
      let s' = install_defaults U id s.1 in
      let (perms, read, guarded) =
        install_defaults-for_account U id s.1 s'.1 before (ap (λ r. (r, s'.1)) installed) (
          for_account-create J C U O K T S W empty_config gmail id id now added d.storage
          ∙ readable) in
      let stored =
        get-install_defaults J C U O K T S W empty_config gmail id id s.1
        ∙ ap (λ r. r.0)
            (create-get C U id now added d.storage s.1 at (ap (λ r. (r, s.1)) made) clock) in
      rw after (
        record {
          stored = stored;
          perms = perms;
          readable = read;
          guarded = guarded;
          token = rt;
          granted = given;
          kept =
              set-get K U id refresh_token rt d.secrets
                (with_token J C U O K T S W empty_config gmail id rt d.secrets)
                (ap (λ r. (r, (Secrets.set K U id refresh_token rt d.secrets).1)) kept);
          served = ground (arith, lookup-insert id id (gmail id tokens email) d.providers);
        },
        refl,
        cc (found, stored),
      )

  -- The account of a sign-in: named by its email when the label is missing or empty.
  abbrev pub signed_up : AccountId → C.Instant → J.Value → OAuthTokens T → String → Account C
  signed_up id at params tokens email =
      let label = unwrap_or (str_param J params "label") "" in
      record {
        id = id;
        label = if label == "" then email else label;
        provider = Accounts.gmail;
        email = email;
        config = empty_config;
        scopes = elim tokens.scope [ none ↦ [] | some s ↦ split b' ' s ];
        created_at = at;
        last_validated = none;
      }

  created-signed_up :
      (id : AccountId) (at : C.Instant) (params : J.Value) (tokens : OAuthTokens T) (email : String)
      → created C U id at (
          new_account J C U O K T S W empty_config gmail
            (unwrap_or (str_param J params "label") "")
            email
            tokens.scope)
        ≡ signed_up id at params tokens email
  unfolding new_account scopes_of
  created-signed_up id at params tokens email = elim (Option-cases tokens.scope) [
    | inl missing ↦ rw missing refl
    | inr (s, granted) ↦ rw granted refl
  ]

  -- When `complete_oauth` succeeds for a challenge whose task ended with tokens and an email, the
  -- account is set up: its row reads back as a Gmail account with the label, or the email where that is missing or
  -- empty, and with the granted scopes between spaces, every
  -- policy is the default one, the refresh token is in the keychain, and the registry has its
  -- provider. The challenge is spent and the account is announced. The clock must show a time
  -- that chrono can represent, and the new id's policies must be readable.
  pub complete_oauth-IsRegistered :
      (params : J.Value) (cid : String) (id : AccountId) (now : ℕ) (p : PendingOauth T)
      (tokens : OAuthTokens T) (email : String) (at : C.Instant) (before : Permissions)
      (v : J.Value) (d d' : Daemon J.Value C O K T S)
      → required J params "challenge_id" ≡ ok cid
      → lookup cid d.pending_oauth ≡ some p
      → joined p.join ≡ ok (tokens, email)
      → C.instant now ≡ some at
      → (for_account U id d.storage).0 ≡ ok before
      → complete_oauth J C U O K T S W empty_config gmail id now params d ≡ (ok v, d')
      → IsRegistered id (signed_up id at params tokens email) tokens email d'
        × (lookup cid d'.pending_oauth ≡ none)
        × (d'.sent ≡ account_added (signed_up id at params tokens email) ∷ d.sent)
  complete_oauth-IsRegistered params cid id now p tokens email at before v d d' named waiting done
        clock readable h =
      let label = unwrap_or (str_param J params "label") "" in
      let d1 = record d { pending_oauth = remove cid d.pending_oauth } in
      let run =
        sym (
          complete_oauth-take J C U O K T S W empty_config gmail params cid id now p tokens email d
            named waiting done)
        ∙ h in
      let (set_up, same_pending, announced) =
        register-IsRegistered id now label tokens email at before v d1 d' clock readable run in
      let same_account = created-signed_up id at params tokens email in
      (
        subst (λ a. IsRegistered id a tokens email d') same_account set_up,
        ground (arith, same_pending, lookup-remove cid cid d.pending_oauth),
        announced ∙ ap (λ a. account_added a ∷ d.sent) same_account,
      )

  register-pending_oauth :
      (id : AccountId) (now : ℕ) (label : String) (tokens : OAuthTokens T) (email : String)
      (d : Daemon J.Value C O K T S)
      → (register J C U O K T S W empty_config gmail id now label tokens email d).1.pending_oauth
        ≡ d.pending_oauth
  unfolding register keep_refresh_token
  register-pending_oauth id now label tokens email d = ground arith

  complete_oauth-spent :
      (params : J.Value) (cid : String) (id : AccountId) (now : ℕ) (d : Daemon J.Value C O K T S)
      → required J params "challenge_id" ≡ ok cid
      → lookup cid
          (complete_oauth J C U O K T S W empty_config gmail id now params d).1.pending_oauth
        ≡ none
  unfolding complete_oauth take_pending
  complete_oauth-spent params cid id now d named =
      elim (Option-cases (lookup cid d.pending_oauth)) [
        | inl missing ↦ ground (arith, named, missing)
        | inr (p, waiting) ↦ elim (Result-cases (joined p.join)) [
          | inr (e, failed) ↦
              ground (arith, named, waiting, failed, lookup-remove cid cid d.pending_oauth)
          | inl ((tokens, email), done) ↦ ground (
            arith,
            named,
            waiting,
            done,
            lookup-remove cid cid d.pending_oauth,
            register-pending_oauth id now (unwrap_or (str_param J params "label") "") tokens email
                (record d { pending_oauth = remove cid d.pending_oauth }),
          )
        ]
      ]

  pub complete_oauth-unknown :
      (params : J.Value) (cid : String) (id : AccountId) (now : ℕ) (d : Daemon J.Value C O K T S)
      → required J params "challenge_id" ≡ ok cid
      → lookup cid d.pending_oauth ≡ none
      → complete_oauth J C U O K T S W empty_config gmail id now params d
        ≡ (err (not_found ("challenge " ++ cid)), d)
  unfolding complete_oauth take_pending
  complete_oauth-unknown params cid id now d named missing = ground (arith, named, missing)

  cancel_oauth-gone :
      (params : J.Value) (cid : String) (d : Daemon J.Value C O K T S)
      → required J params "challenge_id" ≡ ok cid
      → lookup cid (cancel_oauth J C U O K T S params d).1.pending_oauth ≡ none
  unfolding cancel_oauth
  cancel_oauth-gone params cid d named =
      ground (arith, named, lookup-remove cid cid d.pending_oauth)

  -- A challenge can be completed once, and not after it was cancelled: whatever `complete_oauth` or
  -- `cancel_oauth` ends with for a challenge, the next `complete_oauth` for it finds no challenge
  -- and changes nothing.
  pub complete_oauth_once :
      (params params' : J.Value) (cid : String) (id id' : AccountId) (now now' : ℕ)
      (d d' : Daemon J.Value C O K T S)
      → required J params "challenge_id" ≡ ok cid
      → required J params' "challenge_id" ≡ ok cid
      → (d' ≡ (complete_oauth J C U O K T S W empty_config gmail id now params d).1)
        ⊎ (d' ≡ (cancel_oauth J C U O K T S params d).1)
      → complete_oauth J C U O K T S W empty_config gmail id' now' params' d'
        ≡ (err (not_found ("challenge " ++ cid)), d')
  complete_oauth_once params params' cid id id' now now' d d' named again before =
      complete_oauth-unknown params' cid id' now' d' again (elim before [
        | inl completed ↦ rw completed (complete_oauth-spent params cid id now d named)
        | inr cancelled ↦ rw cancelled (cancel_oauth-gone params cid d named)
      ])

  -- A sign-in that brought no refresh token fails after the account was stored: `complete_oauth` is
  -- refused with an OAuth error, yet the account stays in the database with its policies, and
  -- neither a provider nor a secret is added for it. Storing the row and the policies must work,
  -- and the clock must show a time that chrono can represent.
  pub complete_oauth-orphan :
      (params : J.Value) (cid : String) (id : AccountId) (now : ℕ) (p : PendingOauth T)
      (tokens : OAuthTokens T) (email : String) (at : C.Instant) (d : Daemon J.Value C O K T S)
      (s s' : Storage)
      → required J params "challenge_id" ≡ ok cid
      → lookup cid d.pending_oauth ≡ some p
      → joined p.join ≡ ok (tokens, email)
      → tokens.refresh_token ≡ none
      → C.instant now ≡ some at
      → Accounts.create C U id now
          (new_account J C U O K T S W empty_config gmail
            (unwrap_or (str_param J params "label") "")
            email
            tokens.scope)
          d.storage
        ≡ (ok id, s)
      → install_defaults U id s ≡ (ok tt, s')
      → (complete_oauth J C U O K T S W empty_config gmail id now params d ≡ (
        err (
            oauth
              "Google did not return a refresh_token; ensure prompt=consent + access_type=offline"),
        record d { storage = s'; pending_oauth = remove cid d.pending_oauth },
      ))
        × ((Accounts.get C U id s').0 ≡ ok (some (signed_up id at params tokens email)))
  unfolding register keep_refresh_token str_param new_account scopes_of
  complete_oauth-orphan params cid id now p tokens email at d s s' named waiting done ungranted
        clock made installed =
      (
        complete_oauth-take J C U O K T S W empty_config gmail params cid id now p tokens email d
              named waiting done
            ∙ ground (arith, made, installed, ungranted),
        ap (λ r. (Accounts.get C U id r).0) (ap (λ r. r.1) (sym installed))
            ∙ (get-install_defaults J C U O K T S W empty_config gmail id id s
                ∙ ap (λ r. r.0)
                    (create-get C U id now
                      (new_account J C U O K T S W empty_config gmail
                        (unwrap_or (str_param J params "label") "") email tokens.scope)
                      d.storage s at made clock)),
      )
