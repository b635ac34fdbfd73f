-- ===== src/Daemon/Start.antt =====
-- The state that the daemon starts with, and what its methods make of it.
use mail_mcp.Base.{
  ◌≡◌, refl, sym, subst, ap, ◌∙◌, ◌⊎◌, inl, inr, Bool, true, String, List, [], ◌∷◌, any, ok, parsed,
  arith, IsIn, All, All-IsIn, ==_iff, ◌==◌, Option-cases, Result-cases, Bool-cases, leb,
  Parsed-cases, if◌then◌else◌, >>=-eq-ok, nat_key,
}
use mail_mcp.Base.Dict.{lookup}
use mail_mcp.Base.Ids.{AccountId, Ulid}
use mail_mcp.Json.{Json}
use mail_mcp.Permissions.Storage.{Storage, AccountRow, has_account}
use mail_mcp.Accounts
use mail_mcp.Accounts.{Codec, Account, insert_by_time, by_time, into_account, into_accounts}
use mail_mcp.Approvals.{Oneshot}
use mail_mcp.Oauth.{Chrono, OAuthTokens}
use mail_mcp.Secrets.{Keyring}
use mail_mcp.Mail.Provider.{MailProvider}
use mail_mcp.Ipc.Messages.{Writers, McpEndpointInfo}
use mail_mcp.Handler.State.{Daemon}
use mail_mcp.Handler.Startup.{hydrate_providers}
use mail_mcp.Handler.Hydration.{hydrate_providers_iff}
use mail_mcp.Handler.Backing.{IsBacked}
use mail_mcp.Handler.Runs.{Request, serve, serve-IsBacked}
use mail_mcp.Daemon.{new_handler, started}

inserted_later :
    (r row first : AccountRow) (rows : List AccountRow)
    → (IsIn r (insert_by_time row rows) → (r ≡ row) ⊎ IsIn r rows)
    → (r ≡ first) ⊎ IsIn r (insert_by_time row rows)
    → (r ≡ row) ⊎ IsIn r (first ∷ rows)
inserted_later r row first rows ih (inl e) = inr (inl e)
inserted_later r row first rows ih (inr there) = elim (ih there) [
  | inl e ↦ inl e
  | inr further ↦ inr (inr further)
]

IsIn-insert_by_time :
    (r row : AccountRow) (rows : List AccountRow)
    → IsIn r (insert_by_time row rows)
    → (r ≡ row) ⊎ IsIn r rows
unfolding insert_by_time
IsIn-insert_by_time r row [] h = h
IsIn-insert_by_time r row (first ∷ rows) h =
    elim (Bool-cases (leb row.created_at first.created_at)) [
      | inl before ↦
          subst
            (λ (b : Bool).
              IsIn r (if b then row ∷ first ∷ rows else first ∷ insert_by_time row rows))
            before h
      | inr after ↦ inserted_later r row first rows (IsIn-insert_by_time r row rows) (
          subst
            (λ (b : Bool).
              IsIn r (if b then row ∷ first ∷ rows else first ∷ insert_by_time row rows))
            after h)
    ]

IsIn-by_time : (r : AccountRow) (rows : List AccountRow) → IsIn r (by_time rows) → IsIn r rows
unfolding by_time
IsIn-by_time r [] h = h
IsIn-by_time r (row ∷ rows) h = elim (IsIn-insert_by_time r row (by_time rows) h) [
  | inl first ↦ inl first
  | inr later ↦ inr (IsIn-by_time r rows later)
]

any-has :
    (r : AccountRow) (rows : List AccountRow) (x : String)
    → IsIn r rows
    → r.id ≡ x
    → any (λ row. row.id == x) rows ≡ true
any-has r [] x h e = absurd h
any-has r (row ∷ rows) x (inl here) e =
    ground (arith, ap (λ (q : AccountRow). q.id) here, e, ==_iff row.id x)
any-has r (row ∷ rows) x (inr there) e = ground (arith, any-has r rows x there e)

module _ (C : Codec) (U : Ulid) where
  into_account-id :
      (row : AccountRow) (acc : Account C)
      → into_account C U row ≡ ok acc
      → U.from_str row.id ≡ parsed acc.id
  unfolding into_account
  into_account-id row acc h = elim (Parsed-cases (U.from_str row.id)) [
    | inr (e, bad) ↦ absurd (ground (arith, bad, h))
    | inl (id, fine) ↦ fine ∙ ap parsed (ground (arith, fine, h))
  ]

  into_accounts-IsIn :
      (rows : List AccountRow) (accs : List (Account C)) (acc : Account C)
      → into_accounts C U rows ≡ ok accs
      → IsIn acc accs
      → (row : AccountRow) × IsIn row rows × (into_account C U row ≡ ok acc)
  unfolding into_accounts
  into_accounts-IsIn [] accs acc h here =
      let none_left : accs ≡ [] = cc in absurd (subst (IsIn acc) none_left here)
  into_accounts-IsIn (row ∷ rows) accs acc h here =
      let (a, made, later) = >>=-eq-ok (into_account C U row) _ h in
      let (rest, fine, last) = >>=-eq-ok (into_accounts C U rows) _ later in
      let whole : accs ≡ a ∷ rest = cc in
      elim (subst (IsIn acc) whole here) [
        | inl e ↦ (row, inl refl, made ∙ ap ok (sym e))
        | inr there ↦
            let (row', in_rows, made') = into_accounts-IsIn rows rest acc fine there in
            (row', inr in_rows, made')
      ]

  -- The ids of the table are written as `Display` writes them.
  abbrev pub IsCanonical : AccountRow → Type 0
  IsCanonical row = (id : AccountId) → U.from_str row.id ≡ parsed id → row.id ≡ U.to_string id

  list-has_account :
      (storage : Storage) (accs : List (Account C)) (acc : Account C)
      → All IsCanonical storage.accounts
      → (Accounts.list C U storage).0 ≡ ok accs
      → IsIn acc accs
      → has_account (U.to_string acc.id) storage ≡ true
  unfolding Accounts.list has_account
  list-has_account storage accs acc canonical listed here =
      let read : into_accounts C U (by_time storage.accounts) ≡ ok accs = ground (arith, listed) in
      let (row, in_rows, made) = into_accounts-IsIn (by_time storage.accounts) accs acc read here in
      let stored = IsIn-by_time row storage.accounts in_rows in
      any-has row storage.accounts (U.to_string acc.id) stored (
        All-IsIn IsCanonical row storage.accounts canonical stored acc.id
          (into_account-id row acc made))

module _ (J : Json) (C : Codec) (U : Ulid) (O : Oneshot) (K : Keyring) (T : Chrono) (S : Type 0)
    (W : Writers J C) (empty_config : C.Value)
    (gmail : AccountId → OAuthTokens T → String → MailProvider S) (version : String)
    (mcp_endpoint : McpEndpointInfo) (clock : AccountId → T.Instant) where
  started-eq :
      (storage : Storage) (secrets : K.Store) (d : Daemon J.Value C O K T S)
      → started J.Value C U O K T gmail clock storage secrets ≡ ok d
      → (hydrate_providers C U K T gmail secrets clock storage []).0 ≡ ok tt
        × (d.storage ≡ storage)
        × (d.providers ≡ (hydrate_providers C U K T gmail secrets clock storage []).1)
  unfolding started new_handler
  started-eq storage secrets d h = ground arith

  started-listed :
      (storage : Storage) (secrets : K.Store)
      → (hydrate_providers C U K T gmail secrets clock storage []).0 ≡ ok tt
      → (accs : List (Account C)) × ((Accounts.list C U storage).0 ≡ ok accs)
  unfolding hydrate_providers
  started-listed storage secrets h = elim (Result-cases (Accounts.list C U storage).0) [
    | inl found ↦ found
    | inr (e, bad) ↦ absurd (ground (arith, bad, h))
  ]

  started-IsBacked :
      (storage : Storage) (secrets : K.Store) (d : Daemon J.Value C O K T S)
      → All (IsCanonical C U) storage.accounts
      → started J.Value C U O K T gmail clock storage secrets ≡ ok d
      → IsBacked J C U O K T S W empty_config gmail version mcp_endpoint d
  started-IsBacked storage secrets d canonical h id missing =
      let (fine, same_storage, same_providers) = started-eq storage secrets d h in
      let (accs, listed) = started-listed storage secrets fine in
      let registry = (hydrate_providers C U K T gmail secrets clock storage []).1 in
      elim (Option-cases (lookup id registry)) [
        | inl absent ↦ ap (lookup id) same_providers ∙ absent
        | inr (mail, there) ↦
            let (acc, here, own, token) =
              (hydrate_providers_iff C U K T gmail secrets clock storage accs id listed fine).0
                (λ e. cc (there, e)) in
            let stored : has_account (U.to_string acc.id) storage ≡ true =
              list-has_account C U storage accs acc canonical listed here in
            let stored' : has_account (U.to_string id) d.storage ≡ true =
              ap (λ (i : AccountId). has_account (U.to_string i) d.storage) (sym own)
              ∙ (ap (has_account (U.to_string acc.id)) same_storage ∙ stored) in
            cc (missing, stored')
      ]

  -- From its start on, the daemon never has a provider for an account that its database does not
  -- have, whatever methods are called one after another, each to its end before the next begins and
  -- with whatever outcomes. The ids in the database must be as they are written by the daemon.
  pub started-serve :
      (storage : Storage) (secrets : K.Store) (d : Daemon J.Value C O K T S)
      (rs : List (Request J C U O K T S W empty_config gmail version mcp_endpoint))
      → All (IsCanonical C U) storage.accounts
      → started J.Value C U O K T gmail clock storage secrets ≡ ok d
      → IsBacked J C U O K T S W empty_config gmail version mcp_endpoint
          (serve J C U O K T S W empty_config gmail version mcp_endpoint rs d)
  started-serve storage secrets d rs canonical h =
      serve-IsBacked J C U O K T S W empty_config gmail version mcp_endpoint rs d
        (started-IsBacked storage secrets d canonical h)
