-- ===== src/Admin/Commands.antt =====
-- crates/mail-mcp-admin/src/main.rs: what each command asks of the daemon, and prints.
--
-- clap's reading of the command line gives a `Cmd`. Printing is kept as a list; opening the browser
-- is ignored by the source whether it works or not, and only which address it is given is kept.
use Prim.Native.String.{◌++◌}
use mail_mcp.Base.{true, false, String, Option, List, [], ◌∷◌, and_then, unwrap_or}
use mail_mcp.Base.{◌++◌ as append}
use mail_mcp.Json.{Json}
use mail_mcp.Admin.Client.{Anyhow, failed, done}

pub data AccountsCmd : Type 0 where
  list : AccountsCmd
  add_gmail : (label : Option String) → AccountsCmd
  remove : (id : String) → AccountsCmd

pub data PermissionsCmd : Type 0 where
  get : (account_id : String) → PermissionsCmd
  set : (account_id category policy : String) → PermissionsCmd

pub data ApprovalsCmd : Type 0 where
  list : ApprovalsCmd
  approve : (id : String) → ApprovalsCmd
  reject : (id : String) → ApprovalsCmd

pub data Cmd : Type 0 where
  status endpoint pause resume : Cmd
  accounts : AccountsCmd → Cmd
  permissions : PermissionsCmd → Cmd
  approvals : ApprovalsCmd → Cmd

-- What a command shows: a line, a value printed in full, or an address opened in the browser.
pub data Output (V : Type 0) : Type 0 where
  line : String → Output V
  pretty : V → Output V
  browse : String → Output V

module _ (J : Json) {S : Type 0} (call : String → J.Value → S → Anyhow J.Value × S) where
  abbrev pub Ran : Type 0
  Ran = (Anyhow (Unit {0}) × List (Output J.Value)) × S

  -- `client.call(..).await?`, and then what comes after it.
  unfoldable pub calling : String → J.Value → (J.Value → S → Ran) → S → Ran
  calling method params next st =
      let (r, st') = call method params st in
      elim r [ failed e ↦ ((failed e, []), st') | done v ↦ next v st' ]

  abbrev pub showing : List (Output J.Value) → Ran → Ran
  showing outputs ((r, later), st) = ((r, append outputs later), st)

  abbrev pub finish : List (Output J.Value) → S → Ran
  finish outputs st = ((done tt, outputs), st)

  abbrev no_params : J.Value
  no_params = J.object []

  -- A command that prints what the daemon answers.
  unfoldable pub print_answer : String → J.Value → S → Ran
  print_answer method params = calling method params (λ v. finish (pretty v ∷ []))

  -- A command that prints that it is done.
  unfoldable pub print_done : String → J.Value → String → S → Ran
  print_done method params text = calling method params (λ _. finish (line text ∷ []))

  -- `v[key].as_str().unwrap_or("")`
  unfoldable pub text_at : J.Value → String → String
  text_at v key = unwrap_or (and_then (J.get v key) J.as_str) ""

  -- The arm of `add-gmail`.
  unfoldable pub run_add_gmail : Option String → S → Ran
  run_add_gmail label =
      calling "accounts.add_oauth" (J.object (("provider", J.string "gmail") ∷ [])) λ v st.
        let auth_url = text_at v "auth_url" in
        showing
          (line ("Opening browser:\n  " ++ (auth_url ++ "\nWaiting for sign-in to complete..."))
            ∷ browse auth_url
            ∷ [])
          (calling "accounts.complete_oauth"
            (J.object (
              ("challenge_id", J.string (text_at v "challenge_id"))
              ∷ ("label", J.string (unwrap_or label ""))
              ∷ []))
            (λ account. finish (line "Account added:" ∷ pretty account ∷ [])) st)

  unfoldable pub run_accounts : AccountsCmd → S → Ran
  run_accounts AccountsCmd.list = print_answer "accounts.list" no_params
  run_accounts (add_gmail label) = run_add_gmail label
  run_accounts (remove id) =
      print_done "accounts.remove" (J.object (("account_id", J.string id) ∷ [])) "removed"

  unfoldable pub run_permissions : PermissionsCmd → S → Ran
  run_permissions (get account_id) =
      print_answer "permissions.get" (J.object (("account_id", J.string account_id) ∷ []))
  run_permissions (set account_id category policy) =
      print_done "permissions.set"
        (J.object (
          ("account_id", J.string account_id)
          ∷ ("category", J.string category)
          ∷ ("policy", J.string policy)
          ∷ []))
        "set"

  unfoldable pub run_approvals : ApprovalsCmd → S → Ran
  run_approvals ApprovalsCmd.list = print_answer "approvals.list" no_params
  run_approvals (approve id) =
      print_done "approvals.decide"
        (J.object (("id", J.string id) ∷ ("decision", J.string "approve") ∷ [])) "approved"
  run_approvals (reject id) =
      print_done "approvals.decide"
        (J.object (("id", J.string id) ∷ ("decision", J.string "reject") ∷ [])) "rejected"

  -- The match on the command in `main`.
  unfoldable pub run : Cmd → S → Ran
  run status = print_answer "status" no_params
  run endpoint = print_answer "mcp.endpoint" no_params
  run pause = print_done "mcp.pause" (J.object (("paused", J.bool true) ∷ [])) "MCP paused"
  run resume = print_done "mcp.pause" (J.object (("paused", J.bool false) ∷ [])) "MCP resumed"
  run (accounts cmd) = run_accounts cmd
  run (permissions cmd) = run_permissions cmd
  run (approvals cmd) = run_approvals cmd
