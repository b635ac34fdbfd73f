-- ===== src/Examples/Serving.antt =====
-- Calls of the daemon one after another.
use Prim.Native.String.{◌++◌}
use mail_mcp.Base.{
  ◌≡◌, refl, none, List, [], ◌∷◌, true, err, permission_denied, not_found, string_key, nat_key,
  arith, ==_iff,
}
use mail_mcp.Permissions.Category
use mail_mcp.Permissions.Category.{trash}
use mail_mcp.Permissions.Policy.{block}
use mail_mcp.Permissions.Table.{insert_defaults}
use mail_mcp.Tools.{tools, trash_tool, move_to_tool}
use mail_mcp.Server.{McpState, ok_200, tool_name, handle_post}
use mail_mcp.Handler.Paused.{refusal, pause-handle_post}
use mail_mcp.Examples.Requests.{rpc, state, request, right}
use mail_mcp.Dispatch.Args.{parse_account_id, str_arg}
use mail_mcp.Dispatch.Call.{DispatchContext, dispatch}
use mail_mcp.Dispatch.Safety.{IsReady}
use mail_mcp.Handler.State.{panicked, context_of, flag_param, str_param, required, id_param}
use mail_mcp.Handler.Methods.{Call, permissions_set}
use mail_mcp.Handler.Runs.{Request, serve, run}
use mail_mcp.Handler.Policies.{IsSetting, permissions_set-dispatch}
use mail_mcp.Examples.Instances.{channel, ulid}
use mail_mcp.Examples.Documents.{Doc, json}
use mail_mcp.Examples.Mailbox.{Log, mailbox, serde}
use mail_mcp.Examples.Policies.{policies}
use mail_mcp.Examples.Registering.{codec}
use mail_mcp.Examples.Tokens.{seconds}
use mail_mcp.Examples.Keychain.{ring}
use mail_mcp.Examples.Daemons.{writers, endpoint, gmail, Daemons, daemon, field}
use mail_mcp.Examples.Dispatching.{wait, start, message}

abbrev pub outside : Call seconds
outside = record {
  uptime_secs = 1;
  now = 7;
  new_id = 3;
  challenge_id = "d";
  begun = err (not_found "none");
  task = panicked "none";
}

abbrev pub Requests : Type 0
Requests = List (Request json codec ulid channel ring seconds Log writers "{}" gmail "0.1" endpoint)

abbrev pub some_calls : Requests
some_calls =
    record { call = outside; method = "accounts.complete_oauth"; params = field "challenge_id" "c" }
    ∷ record { call = outside; method = "accounts.remove"; params = field "account_id" "i" }
    ∷ []

abbrev paused : Doc
paused = json.object (("paused", json.bool true) ∷ [])

abbrev paused_context : DispatchContext Log
paused_context = context_of (
    serve json codec ulid channel ring seconds Log writers "{}" gmail "0.1" endpoint some_calls (
      run json codec ulid channel ring seconds Log writers "{}" gmail "0.1" endpoint outside
        "mcp.pause" paused (daemon none)))

abbrev paused_state : McpState Log
paused_state = record state { ctx = paused_context }

pause-handle_post_example :
    (handle_post json rpc serde channel ulid wait paused_state right request start
      ≡ ((ok_200, refusal json rpc serde channel ulid wait paused_state start request.id), start))
    × ((handle_post json rpc serde channel ulid wait paused_state none request start).1 ≡ start)
unfolding flag_param tool_name tools
pause-handle_post_example =
    pause-handle_post json codec ulid channel ring seconds Log writers "{}" gmail "0.1" endpoint rpc
      serde wait outside paused some_calls (daemon none) paused_state start right none request
      request (move_to_tool json) refl
      (
        (λ e. ground (arith, ==_iff "accounts.complete_oauth" "mcp.pause")),
        ((λ e. ground (arith, ==_iff "accounts.remove" "mcp.pause")), tt),
      )
      refl refl refl (λ e. ground (arith, ==_iff "move_to" "list_accounts")) refl

abbrev blocking : Doc
blocking = json.object (
    ("account_id", json.string "i")
    ∷ ("category", json.string "trash")
    ∷ ("policy", json.string "block")
    ∷ [])

abbrev blocked : Daemons
blocked = (permissions_set json codec ulid channel ring seconds Log blocking (daemon none)).1

blocking-IsSetting : IsSetting json codec ulid channel ring seconds Log blocking 1 trash block
unfolding policies str_param required id_param
blocking-IsSetting = record {
  category = "trash";
  policy = "block";
  account = refl;
  has_category = refl;
  has_policy = refl;
  reads_category = refl;
  reads_policy = refl;
}

daemon-IsReady :
    IsReady json ulid
      (context_of (daemon none))
      message
      1
      mailbox
      (record { map = insert_defaults Category.all [] })
unfolding policies parse_account_id str_arg nat_key context_of
daemon-IsReady = record { unpaused = refl; named = refl; registered = refl; readable = refl }

permissions_set-dispatch_example :
    dispatch json serde channel ulid wait (context_of blocked) (trash_tool json) message start
    ≡ (err (permission_denied ((trash_tool json).name ++ ": blocked by user policy")), start)
unfolding policies permissions_set str_param required id_param
permissions_set-dispatch_example =
    permissions_set-dispatch json codec ulid channel ring seconds Log serde wait blocking 1
      (json.object []) (daemon none) blocked (trash_tool json) message mailbox
      (record { map = insert_defaults Category.all [] }) start blocking-IsSetting refl
      daemon-IsReady
