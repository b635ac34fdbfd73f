-- ===== src/Tools.antt =====
-- crates/mail-mcp-daemon/src/mcp/tools.rs: the catalog of MCP tools.
use mail_mcp.Base.{false, String, List, [], ◌∷◌, map}
use mail_mcp.Json.{Json}
use mail_mcp.Permissions.Category.{Category, read, modify, trash, draft, send}

pub record ToolSpec (V : Type 0) : Type 0 where
  pub name : String
  pub description : String
  pub input_schema : V
  pub category : Category

module _ (J : Json) where
  -- The schemas that the catalog repeats.
  abbrev text : J.Value
  text = J.object (("type", J.string "string") ∷ [])

  abbrev boolean : J.Value
  boolean = J.object (("type", J.string "boolean") ∷ [])

  abbrev texts : J.Value
  texts = J.object (("type", J.string "array") ∷ ("items", text) ∷ [])

  abbrev limit_schema : J.Value
  limit_schema = J.object (
      ("type", J.string "integer")
      ∷ ("minimum", J.number 1)
      ∷ ("maximum", J.number 100)
      ∷ ("default", J.number 20)
      ∷ [])

  abbrev arguments : List (String × J.Value) → List String → J.Value
  arguments properties required = J.object (
      ("type", J.string "object")
      ∷ ("properties", J.object properties)
      ∷ ("required", J.array (map J.string required))
      ∷ ("additionalProperties", J.bool false)
      ∷ [])

  abbrev pub list_accounts_tool : ToolSpec J.Value
  list_accounts_tool = record {
    name = "list_accounts";
    description =
        "List all connected mail accounts. Returns account ids, labels, providers, emails. Use this first to find an account_id before any other tool call.";
    input_schema = J.object (
        ("type", J.string "object")
        ∷ ("properties", J.object [])
        ∷ ("additionalProperties", J.bool false)
        ∷ []);
    category = read;
  }

  abbrev pub search_tool : ToolSpec J.Value
  search_tool = record {
    name = "search";
    description =
        "Search threads on a single account. The query string uses provider-native syntax (Gmail's search operators e.g. 'from:alice subject:invoice'). Returns thread summaries plus an opaque cursor for pagination.";
    input_schema =
        arguments
          (("account_id", text)
            ∷ ("query", text)
            ∷ ("label_id", text)
            ∷ ("folder_id", text)
            ∷ ("limit", limit_schema)
            ∷ ("cursor", text)
            ∷ [])
          ("account_id" ∷ []);
    category = read;
  }

  abbrev pub get_thread_tool : ToolSpec J.Value
  get_thread_tool = record {
    name = "get_thread";
    description = "Get a full mail thread (all messages, including bodies) by id.";
    input_schema =
        arguments (("account_id", text) ∷ ("thread_id", text) ∷ [])
          ("account_id" ∷ "thread_id" ∷ []);
    category = read;
  }

  abbrev pub get_message_tool : ToolSpec J.Value
  get_message_tool = record {
    name = "get_message";
    description = "Get a single message by id with full body and attachment metadata.";
    input_schema =
        arguments (("account_id", text) ∷ ("message_id", text) ∷ [])
          ("account_id" ∷ "message_id" ∷ []);
    category = read;
  }

  abbrev pub list_folders_tool : ToolSpec J.Value
  list_folders_tool = record {
    name = "list_folders";
    description =
        "List system folders. On Gmail these are the system labels (INBOX, SENT, TRASH, DRAFT, SPAM); on M365/IMAP these are real folders.";
    input_schema = arguments (("account_id", text) ∷ []) ("account_id" ∷ []);
    category = read;
  }

  abbrev pub list_labels_tool : ToolSpec J.Value
  list_labels_tool = record {
    name = "list_labels";
    description =
        "List user-created labels (Gmail) / categories (M365) / IMAP keywords. Excludes system folders, which are returned by list_folders.";
    input_schema = arguments (("account_id", text) ∷ []) ("account_id" ∷ []);
    category = read;
  }

  abbrev pub list_drafts_tool : ToolSpec J.Value
  list_drafts_tool = record {
    name = "list_drafts";
    description = "List existing drafts on the account.";
    input_schema = arguments (("account_id", text) ∷ []) ("account_id" ∷ []);
    category = read;
  }

  abbrev pub mark_read_tool : ToolSpec J.Value
  mark_read_tool = record {
    name = "mark_read";
    description = "Mark messages as read or unread.";
    input_schema =
        arguments (("account_id", text) ∷ ("message_ids", texts) ∷ ("read", boolean) ∷ [])
          ("account_id" ∷ "message_ids" ∷ "read" ∷ []);
    category = modify;
  }

  abbrev pub star_tool : ToolSpec J.Value
  star_tool = record {
    name = "star";
    description = "Star or unstar messages.";
    input_schema =
        arguments (("account_id", text) ∷ ("message_ids", texts) ∷ ("starred", boolean) ∷ [])
          ("account_id" ∷ "message_ids" ∷ "starred" ∷ []);
    category = modify;
  }

  abbrev pub label_tool : ToolSpec J.Value
  label_tool = record {
    name = "label";
    description =
        "Add or remove a label on messages. On Gmail this maps to label modify; on IMAP to keyword set/clear.";
    input_schema =
        arguments
          (("account_id", text)
            ∷ ("message_ids", texts)
            ∷ ("label_id", text)
            ∷ ("on", boolean)
            ∷ [])
          ("account_id" ∷ "message_ids" ∷ "label_id" ∷ "on" ∷ []);
    category = modify;
  }

  abbrev pub move_to_tool : ToolSpec J.Value
  move_to_tool = record {
    name = "move_to";
    description =
        "Move messages to a folder. On Gmail this re-labels (e.g., move from INBOX to TRASH); on IMAP/M365 it's a real folder move.";
    input_schema =
        arguments (("account_id", text) ∷ ("message_ids", texts) ∷ ("folder_id", text) ∷ [])
          ("account_id" ∷ "message_ids" ∷ "folder_id" ∷ []);
    category = modify;
  }

  abbrev pub archive_tool : ToolSpec J.Value
  archive_tool = record {
    name = "archive";
    description =
        "Archive messages (Gmail: remove INBOX label; IMAP/M365: move to All Mail / Archive folder).";
    input_schema =
        arguments (("account_id", text) ∷ ("message_ids", texts) ∷ [])
          ("account_id" ∷ "message_ids" ∷ []);
    category = modify;
  }

  abbrev pub trash_tool : ToolSpec J.Value
  trash_tool = record {
    name = "trash";
    description = "Move messages to Trash. Reversible until the user empties Trash.";
    input_schema =
        arguments (("account_id", text) ∷ ("message_ids", texts) ∷ [])
          ("account_id" ∷ "message_ids" ∷ []);
    category = trash;
  }

  abbrev pub untrash_tool : ToolSpec J.Value
  untrash_tool = record {
    name = "untrash";
    description = "Restore messages from Trash.";
    input_schema =
        arguments (("account_id", text) ∷ ("message_ids", texts) ∷ [])
          ("account_id" ∷ "message_ids" ∷ []);
    category = trash;
  }

  abbrev pub create_draft_tool : ToolSpec J.Value
  create_draft_tool = record {
    name = "create_draft";
    description =
        "Create a new draft. The draft is saved on the provider's server and will be visible in the user's drafts folder.";
    input_schema =
        arguments
          (("account_id", text)
            ∷ ("to", texts)
            ∷ ("cc", texts)
            ∷ ("bcc", texts)
            ∷ ("subject", text)
            ∷ ("body_text", text)
            ∷ ("body_html", text)
            ∷ ("in_reply_to", text)
            ∷ ("thread_id", text)
            ∷ [])
          ("account_id" ∷ "to" ∷ "subject" ∷ []);
    category = draft;
  }

  abbrev pub update_draft_tool : ToolSpec J.Value
  update_draft_tool = record {
    name = "update_draft";
    description = "Update an existing draft.";
    input_schema =
        arguments
          (("account_id", text)
            ∷ ("draft_id", text)
            ∷ ("to", texts)
            ∷ ("cc", texts)
            ∷ ("bcc", texts)
            ∷ ("subject", text)
            ∷ ("body_text", text)
            ∷ ("body_html", text)
            ∷ [])
          ("account_id" ∷ "draft_id" ∷ "to" ∷ "subject" ∷ []);
    category = draft;
  }

  abbrev pub send_message_tool : ToolSpec J.Value
  send_message_tool = record {
    name = "send_message";
    description =
        "Send a message directly. Subject to the user's send-policy (default: Convert to draft, in which case this returns a draft_created result instead of actually sending).";
    input_schema =
        arguments
          (("account_id", text)
            ∷ ("to", texts)
            ∷ ("cc", texts)
            ∷ ("bcc", texts)
            ∷ ("subject", text)
            ∷ ("body_text", text)
            ∷ ("body_html", text)
            ∷ ("in_reply_to", text)
            ∷ ("thread_id", text)
            ∷ [])
          ("account_id" ∷ "to" ∷ "subject" ∷ []);
    category = send;
  }

  abbrev pub send_draft_tool : ToolSpec J.Value
  send_draft_tool = record {
    name = "send_draft";
    description = "Send an existing draft. Subject to send-policy like send_message.";
    input_schema =
        arguments (("account_id", text) ∷ ("draft_id", text) ∷ []) ("account_id" ∷ "draft_id" ∷ []);
    category = send;
  }

  -- `tools()`
  unfoldable pub tools : List (ToolSpec J.Value)
  tools =
      list_accounts_tool ∷ search_tool ∷ get_thread_tool ∷ get_message_tool ∷ list_folders_tool
      ∷ list_labels_tool ∷ list_drafts_tool ∷ mark_read_tool ∷ star_tool ∷ label_tool ∷ move_to_tool
      ∷ archive_tool ∷ trash_tool ∷ untrash_tool ∷ create_draft_tool ∷ update_draft_tool
      ∷ send_message_tool ∷ send_draft_tool ∷ []
