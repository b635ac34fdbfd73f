-- ===== src/Examples/Trashing.antt =====
-- A call of `move_to` on a Gmail account whose policy for trash is `block`.
use mail_mcp.Base.{
  ◌≡◌, refl, sym, ap, ◌∙◌, true, false, String, List, [], ◌∷◌, map, filter_map, and_then, unwrap_or,
  any, if◌then◌else◌, ◌==◌, ok, string_key, nat_key,
}
use mathlib.Core.Option
use mail_mcp.Permissions.Category.{read, modify, trash, draft, send}
use mail_mcp.Permissions.Policy.{allow, block, draftify}
use mail_mcp.Permissions.Table.{Permissions, policy_for}
use mail_mcp.Approvals.{new}
use mail_mcp.Mail.Client.{RestClient}
use mail_mcp.Mail.Provider.{MailProvider}
use mail_mcp.Gmail.Triage.{ModifyRequest, modify_url, modify_one, modify_all, move_to}
use mail_mcp.Gmail.Triage.Edits.{edit, Edits}
use mail_mcp.Gmail.Provider.{Reading, with_base}
use mail_mcp.Tools.{move_to_tool}
use mail_mcp.Dispatch.Args.{parse_account_id, str_arg, message_ids}
use mail_mcp.Dispatch.Execute.{execute, execute_move_to}
use mail_mcp.Dispatch.Call.{DispatchContext, CallState, conclude, dispatch}
use mail_mcp.Dispatch.Safety.{IsReady}
use mail_mcp.Dispatch.Trashing.{dispatch-trashes}
use mail_mcp.Enforce.{enforce, enforce_policy}
use mail_mcp.Examples.Instances.{channel, ulid}
use mail_mcp.Examples.Documents.{Doc, json}
use mail_mcp.Examples.Mailbox.{serde}
use mail_mcp.Examples.Policies.{policies, database}
use mail_mcp.Examples.Renewing.{builder, gmail_reading}
use mail_mcp.Examples.Labelling.{
  LabelTable, apply_edit, has, in_inbox, same_url, modify_url-injective, to_docs-of_docs,
}
use mail_mcp.Examples.Dispatching.{wait}

abbrev labels_value : List String → Doc
labels_value ls = json.array (map json.string ls)

abbrev labels_in : Doc → String → List String
labels_in v key =
    unwrap_or (Option.map (filter_map json.as_str) (and_then (json.get v key) json.as_array)) []

abbrev written : ModifyRequest → Doc
written req =
    json.object
      (("addLabelIds", labels_value req.add) ∷ ("removeLabelIds", labels_value req.remove) ∷ [])

abbrev as_read : Doc → ModifyRequest
as_read v = record { add = labels_in v "addLabelIds"; remove = labels_in v "removeLabelIds" }

as_read-written : (req : ModifyRequest) → as_read (written req) ≡ req
as_read-written req =
    ap (λ a. record { add = a; remove = labels_in (written req) "removeLabelIds" })
      (to_docs-of_docs req.add)
    ∙ ap (λ r. record { add = req.add; remove = r }) (to_docs-of_docs req.remove)

abbrev reading : Reading json builder
reading = record gmail_reading { modify = written }

abbrev client : RestClient Doc LabelTable
client = record {
  Response = Unit {0};
  get = λ url s. (ok tt, s);
  post_json = λ url v s. (ok tt, apply_edit url (as_read v) s);
  put_json = λ url v s. (ok tt, s);
  patch_json = λ url v s. (ok tt, s);
  delete = λ url s. (ok tt, s);
  json = λ r. ok json.null;
}

client-Edits : Edits client written "b" has
client-Edits id req s s' r h m l =
    ap (has m l) (sym (ap (λ x. x.1) h))
    ∙ (ap (λ q. has m l (apply_edit (modify_url "b" id) q s)) (as_read-written req)
        ∙ ap (λ b. if b then edit req l (has m l s) else has m l s)
            (same_url (modify_url "b") m id (modify_url-injective "b" m id)))

abbrev account_mail : MailProvider LabelTable
account_mail = with_base json builder reading client "b" "a@example.com"

abbrev no_trash : DispatchContext LabelTable
no_trash = record {
  storage = record database {
    permissions = record { account_id = "i"; category = "trash"; policy = "block" } ∷ [];
  };
  providers = (1, account_mail) ∷ [];
  mcp_paused = false;
}

abbrev guarded : Permissions
guarded = record {
  map = (read, allow) ∷ (modify, allow) ∷ (trash, block) ∷ (draft, allow) ∷ (send, draftify) ∷ [];
}

abbrev into_trash : Doc
into_trash = json.object (
    ("account_id", json.string "i")
    ∷ ("message_ids", json.array (json.string "1" ∷ json.string "2" ∷ []))
    ∷ ("folder_id", json.string "TRASH")
    ∷ [])

abbrev before : CallState Doc channel LabelTable
before = record { world = record { queue = new channel; trust = [] }; remote = in_inbox }

abbrev after : CallState Doc channel LabelTable
after = (dispatch json serde channel ulid wait no_trash (move_to_tool json) into_trash before).1

into_trash-IsReady : IsReady json ulid no_trash into_trash 1 account_mail guarded
unfolding policies parse_account_id str_arg nat_key
into_trash-IsReady = record { unpaused = refl; named = refl; registered = refl; readable = refl }

modify_allowed : policy_for guarded modify ≡ allow
unfolding policies
modify_allowed = refl

succeeds :
    dispatch json serde channel ulid wait no_trash (move_to_tool json) into_trash before
    ≡ (ok (json.object (("ok", json.bool true) ∷ [])), after)
unfolding policies parse_account_id str_arg nat_key message_ids dispatch conclude enforce
    enforce_policy execute execute_move_to with_base move_to modify_all modify_one
succeeds = refl

dispatch-trashes_example :
    (after.world ≡ before.world)
    × ((m : String)
        → any (λ id. m == id) (message_ids json into_trash) ≡ true
        → (has m "TRASH" after.remote ≡ true) × (has m "INBOX" after.remote ≡ false))
unfolding str_arg
dispatch-trashes_example =
    dispatch-trashes json serde channel ulid builder reading client "b" "a@example.com" wait
      no_trash into_trash 1 guarded before has (json.object (("ok", json.bool true) ∷ [])) after
      client-Edits into_trash-IsReady modify_allowed refl succeeds
