-- ===== src/Handler/Hydration.antt =====
-- The providers that the daemon starts with.
use mail_mcp.Base.{
  ◌≡◌, ◌≢◌, ◌↔◌, refl, sym, subst, ap, ◌∙◌, ◌⊎◌, inl, inr, String, none, some, List, [], ◌∷◌,
  Result, ok, arith, IsIn, nat_key, Option-cases, Result-cases,
}
use mail_mcp.Base.Dict.{lookup, insert, lookup-insert}
use mail_mcp.Base.Ids.{AccountId, Ulid}
use mail_mcp.Permissions.Storage.{Storage}
use mail_mcp.Accounts
use mail_mcp.Accounts.{Codec, Account}
use mail_mcp.Oauth.{Chrono, OAuthTokens}
use mail_mcp.Secrets
use mail_mcp.Secrets.{Keyring, refresh_token}
use mail_mcp.Mail.Provider.{MailProvider}
use mail_mcp.Dispatch.Call.{ProviderRegistry}
use mail_mcp.Handler.Startup.{stale_tokens, hydrate, hydrate_providers}

module _ (C : Codec) (U : Ulid) (K : Keyring) (T : Chrono) {S : Type 0}
    (gmail : AccountId → OAuthTokens T → String → MailProvider S) (secrets : K.Store)
    (clock : AccountId → T.Instant) where
  -- One of the accounts has this id, and the keychain has its refresh token.
  abbrev pub HasToken : AccountId → List (Account C) → Type 0
  HasToken id accs =
      (acc : Account C) × IsIn acc accs
      × (acc.id ≡ id)
      × ((rt : String) × (Secrets.get K U acc.id refresh_token secrets ≡ ok (some rt)))

  abbrev hydrated : List (Account C) → ProviderRegistry S → Result (Unit {0}) × ProviderRegistry S
  hydrated = hydrate C U K T gmail secrets clock

  hydrate-skip :
      (acc : Account C) (accs : List (Account C)) (registry : ProviderRegistry S)
      → Secrets.get K U acc.id refresh_token secrets ≡ ok none
      → hydrated (acc ∷ accs) registry ≡ hydrated accs registry
  unfolding hydrate
  hydrate-skip acc accs registry h = ground (arith, h)

  hydrate-add :
      (acc : Account C) (accs : List (Account C)) (registry : ProviderRegistry S) (rt : String)
      (tokens : OAuthTokens T)
      → Secrets.get K U acc.id refresh_token secrets ≡ ok (some rt)
      → stale_tokens T (clock acc.id) rt ≡ ok tokens
      → hydrated (acc ∷ accs) registry
        ≡ hydrated accs (insert acc.id (gmail acc.id tokens acc.email) registry)
  unfolding hydrate
  hydrate-add acc accs registry rt tokens h k = ground (arith, h, k)

  -- An account either is passed over, or gets a provider, or ends the loop with an error.
  hydrate-cases :
      (acc : Account C) (accs : List (Account C)) (registry : ProviderRegistry S)
      → (hydrated (acc ∷ accs) registry).0 ≡ ok tt
      → (Secrets.get K U acc.id refresh_token secrets ≡ ok none)
        ⊎ ((rt : String) × (tokens : OAuthTokens T) × (Secrets.get K U acc.id refresh_token secrets
              ≡ ok (some rt))
            × (stale_tokens T (clock acc.id) rt ≡ ok tokens))
  unfolding hydrate
  hydrate-cases acc accs registry h =
      elim (Result-cases (Secrets.get K U acc.id refresh_token secrets)) [
        | inr (e, bad) ↦ absurd (ground (arith, bad, h))
        | inl (found, fine) ↦ elim (Option-cases found) [
          | inl missing ↦ inl (fine ∙ ap ok missing)
          | inr (rt, there) ↦ elim (Result-cases (stale_tokens T (clock acc.id) rt)) [
            | inl (tokens, made) ↦ inr (rt, tokens, fine ∙ ap ok there, made)
            | inr (e, bad) ↦ absurd (ground (arith, fine, there, bad, h))
          ]
        ]
      ]

  abbrev grown : Account C → OAuthTokens T → ProviderRegistry S → ProviderRegistry S
  grown acc tokens registry = insert acc.id (gmail acc.id tokens acc.email) registry

  grown-kept :
      (id : AccountId) (acc : Account C) (tokens : OAuthTokens T) (registry : ProviderRegistry S)
      → lookup id registry ≢ none
      → lookup id (grown acc tokens registry) ≢ none
  grown-kept id acc tokens registry k h =
      k (ground (arith, lookup-insert id acc.id (gmail acc.id tokens acc.email) registry, h))

  grown-own :
      (id : AccountId) (acc : Account C) (tokens : OAuthTokens T) (registry : ProviderRegistry S)
      → acc.id ≡ id
      → lookup id (grown acc tokens registry) ≢ none
  grown-own id acc tokens registry own h =
      absurd
        (ground (arith, lookup-insert id acc.id (gmail acc.id tokens acc.email) registry, own, h))

  grown-from :
      (id : AccountId) (acc : Account C) (tokens : OAuthTokens T) (registry : ProviderRegistry S)
      → lookup id (grown acc tokens registry) ≢ none
      → (lookup id registry ≢ none) ⊎ (acc.id ≡ id)
  grown-from id acc tokens registry k = elim (nat_key.dec acc.id id) [
    | yes own ↦ inr own
    | no other ↦ inl (λ e. k (
        ground (arith, lookup-insert id acc.id (gmail acc.id tokens acc.email) registry, e, other)))
  ]

  hydrate-nil : (registry : ProviderRegistry S) → hydrated [] registry ≡ (ok tt, registry)
  unfolding hydrate
  hydrate-nil registry = refl

  hydrate-kept :
      (id : AccountId) (accs : List (Account C)) (registry : ProviderRegistry S)
      → (hydrated accs registry).0 ≡ ok tt
      → lookup id registry ≢ none
      → lookup id (hydrated accs registry).1 ≢ none
  hydrate-kept id [] registry h k = rw (hydrate-nil registry) k
  hydrate-kept id (acc ∷ accs) registry h k = elim (hydrate-cases acc accs registry h) [
    | inl passed ↦
        let e = hydrate-skip acc accs registry passed in
        rw e (hydrate-kept id accs registry (ap (λ r. r.0) (sym e) ∙ h) k)
    | inr (rt, tokens, there, made) ↦
        let e = hydrate-add acc accs registry rt tokens there made in
        rw e (
          hydrate-kept id accs (grown acc tokens registry) (ap (λ r. r.0) (sym e) ∙ h)
            (grown-kept id acc tokens registry k))
  ]

  hydrate-has :
      (id : AccountId) (accs : List (Account C)) (registry : ProviderRegistry S)
      → (hydrated accs registry).0 ≡ ok tt
      → HasToken id accs
      → lookup id (hydrated accs registry).1 ≢ none
  hydrate-has id [] registry h (a, here, own, token) = absurd here
  hydrate-has id (acc ∷ accs) registry h (a, inr here, own, token) =
      elim (hydrate-cases acc accs registry h) [
        | inl passed ↦
            let e = hydrate-skip acc accs registry passed in
            rw e (hydrate-has id accs registry (ap (λ r. r.0) (sym e) ∙ h) (a, here, own, token))
        | inr (rt, tokens, there, made) ↦
            let e = hydrate-add acc accs registry rt tokens there made in
            rw e (
              hydrate-has id accs (grown acc tokens registry) (ap (λ r. r.0) (sym e) ∙ h)
                (a, here, own, token))
      ]
  hydrate-has id (acc ∷ accs) registry h (a, inl here, own, (rt, token)) =
      elim (hydrate-cases acc accs registry h) [
        | inl passed ↦ absurd (
            ground (
              arith,
              ap (λ (x : Account C). Secrets.get K U x.id refresh_token secrets) here,
              passed,
              token,
            ))
        | inr (rt', tokens, there, made) ↦
            let e = hydrate-add acc accs registry rt' tokens there made in
            rw e (
              hydrate-kept id accs (grown acc tokens registry) (ap (λ r. r.0) (sym e) ∙ h)
                (grown-own id acc tokens registry (ap (λ (x : Account C). x.id) (sym here) ∙ own)))
      ]

  abbrev widen :
      (id : AccountId) (acc : Account C) (accs : List (Account C))
      → HasToken id accs
      → HasToken id (acc ∷ accs)
  widen id acc accs (a, here, own, token) = (a, inr here, own, token)

  hydrate-from :
      (id : AccountId) (accs : List (Account C)) (registry : ProviderRegistry S)
      → (hydrated accs registry).0 ≡ ok tt
      → lookup id (hydrated accs registry).1 ≢ none
      → (lookup id registry ≢ none) ⊎ HasToken id accs
  hydrate-from id [] registry h k = inl (subst (λ r. lookup id r.1 ≢ none) (hydrate-nil registry) k)
  hydrate-from id (acc ∷ accs) registry h k = elim (hydrate-cases acc accs registry h) [
    | inl passed ↦
        let e = hydrate-skip acc accs registry passed in
        elim (hydrate-from id accs registry (ap (λ r. r.0) (sym e) ∙ h)
          (subst (λ r. lookup id r.1 ≢ none) e k)) [
            | inl before ↦ inl before
            | inr token ↦ inr (widen id acc accs token)
          ]
    | inr (rt, tokens, there, made) ↦
        let e = hydrate-add acc accs registry rt tokens there made in
        elim (hydrate-from id accs (grown acc tokens registry) (ap (λ r. r.0) (sym e) ∙ h)
          (subst (λ r. lookup id r.1 ≢ none) e k)) [
            | inr token ↦ inr (widen id acc accs token)
            | inl here ↦ elim (grown-from id acc tokens registry here) [
              | inl before ↦ inl before
              | inr own ↦ inr (acc, inl refl, own, (rt, there))
            ]
          ]
  ]

  empty : (id : AccountId) → lookup {V = MailProvider S} id [] ≡ none
  unfolding lookup
  empty id = refl

  hydrate_providers-eq :
      (storage : Storage) (accs : List (Account C))
      → (Accounts.list C U storage).0 ≡ ok accs
      → hydrate_providers C U K T gmail secrets clock storage [] ≡ hydrated accs []
  unfolding hydrate_providers
  hydrate_providers-eq storage accs listed = ground (arith, listed)

  -- After a start that succeeds, an account has a provider exactly when it is stored and the keychain
  -- has its refresh token.
  pub hydrate_providers_iff :
      (storage : Storage) (accs : List (Account C)) (id : AccountId)
      → (Accounts.list C U storage).0 ≡ ok accs
      → (hydrate_providers C U K T gmail secrets clock storage []).0 ≡ ok tt
      → (lookup id (hydrate_providers C U K T gmail secrets clock storage []).1 ≢ none)
        ↔ HasToken id accs
  hydrate_providers_iff storage accs id listed h =
      let e = hydrate_providers-eq storage accs listed in
      let fine = ap (λ r. r.0) (sym e) ∙ h in
      (
        λ k. elim (hydrate-from id accs [] fine (subst (λ r. lookup id r.1 ≢ none) e k)) [
          | inl before ↦ absurd (before (empty id))
          | inr token ↦ token
        ],
        λ token. rw e (hydrate-has id accs [] fine token),
      )
