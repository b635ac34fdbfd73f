-- ===== src/Examples/Dispatching.antt =====
-- Tool calls on an account with a logging mailbox.
use mail_mcp.Base.{
  ℕ, ◌≡◌, refl, [], ◌∷◌, ok, none, false, string_key, nat_key, arith, Result, ◌⊎◌, ==_iff,
}
use mail_mcp.Permissions.Category.{read, modify, trash, draft, send}
use mail_mcp.Permissions.Policy.{allow, confirm, draftify}
use mail_mcp.Permissions.Table.{Permissions, policy_for}
use mail_mcp.Approvals.{decided, approve, new}
use mail_mcp.Approvals.Consent.{new-IsOpen}
use mail_mcp.Enforce.{Wait}
use mail_mcp.Tools.{send_message_tool, trash_tool}
use mail_mcp.Dispatch.Args.{SendArgs, parse_account_id, str_arg}
use mail_mcp.Dispatch.Execute.{draft_created}
use mail_mcp.Dispatch.Call.{DispatchContext, CallState, dispatch}
use mail_mcp.Dispatch.Safety.{IsReady, Effect, dispatch-IsReady_or_IsRefused, dispatch-Effect}
use mail_mcp.Dispatch.Draftify.{dispatch-draftify}
use mail_mcp.Examples.Instances.{channel, ulid}
use mail_mcp.Examples.Documents.{Doc, json}
use mail_mcp.Examples.Mailbox.{Log, mailbox, serde}
use mail_mcp.Examples.Policies.{policies, database}

abbrev pub context : DispatchContext Log
context = record {
  storage = record database { permissions = [] };
  providers = (1, mailbox) ∷ [];
  mcp_paused = false;
}

abbrev pub wait : Wait Doc
wait = record { id = 1; now = 0; early = decided 1 approve ∷ []; late = []; meanwhile = [] }

abbrev pub start : CallState Doc channel Log
start = record { world = record { queue = new channel; trust = [] }; remote = [] }

abbrev pub moved : Doc
moved = json.object (("account_id", json.string "i") ∷ ("folder_id", json.string "TRASH") ∷ [])

abbrev pub message : Doc
message = json.object (
    ("account_id", json.string "i")
    ∷ ("to", json.array (json.string "b@example.com" ∷ []))
    ∷ ("subject", json.string "hello")
    ∷ [])

abbrev defaults : Permissions
defaults = record {
  map = (read, allow) ∷ (modify, allow) ∷ (trash, confirm) ∷ (draft, allow) ∷ (send, draftify) ∷ [];
}

abbrev Ready : Doc → Type 0
Ready args = IsReady json ulid context args 1 mailbox defaults

message-IsReady : Ready message
unfolding policies parse_account_id str_arg nat_key
message-IsReady = record { unpaused = refl; named = refl; registered = refl; readable = refl }

dispatch-IsReady_or_IsRefused_example :
    ((account : ℕ) × (mail : _) × (perms : Permissions) × IsReady json ulid context message account
        mail perms)
    ⊎ ((e : _) × (dispatch json serde channel ulid wait context
            (send_message_tool json)
            message
            start
          ≡ (Result.err e, start)))
dispatch-IsReady_or_IsRefused_example =
    dispatch-IsReady_or_IsRefused json serde channel ulid wait context (send_message_tool json)
      message start

dispatch-Effect_example :
    Effect json serde channel ulid wait context
      (trash_tool json)
      message
      start
      (dispatch json serde channel ulid wait context (trash_tool json) message start).1.remote
dispatch-Effect_example =
    dispatch-Effect json serde channel ulid wait context (trash_tool json) message start
      (new-IsOpen channel)

abbrev sent : SendArgs
sent = record {
  account_id = "i";
  to = "b@example.com" ∷ [];
  cc = [];
  bcc = [];
  subject = "hello";
  body_text = none;
  body_html = none;
  in_reply_to = none;
  thread_id = none;
}

send_policy : policy_for defaults send ≡ draftify
unfolding policies
send_policy = refl

dispatch-draftify_example :
    dispatch json serde channel ulid wait context (send_message_tool json) message start
    ≡ (ok (draft_created json "d-1"), record { world = start.world; remote = "create_draft" ∷ [] })
dispatch-draftify_example =
    dispatch-draftify json serde channel ulid wait context (send_message_tool json) message 1
      mailbox defaults start message-IsReady sent send_policy refl
      (λ e. ground (arith, ==_iff "send_message" "send_draft")) refl
