-- ===== src/Ipc/Messages.antt =====
-- ipc/messages.rs: the answers of the daemon's methods and its notifications.
--
-- `Writers` has the serialised forms of types whose fields other crates define; the others are
-- written out as serde derives them.
use mail_mcp.Base.{ℕ, Bool, String, Option, none, some, List, [], ◌∷◌, Result}
use mail_mcp.Base.Ids.{AccountId, Ulid}
use mail_mcp.Json.{Json}
use mail_mcp.Permissions.Policy.{Policy}
use mail_mcp.Permissions.Policy
use mail_mcp.Approvals.{PendingApproval}
use mail_mcp.Accounts.{Codec, Account}

pub data AccountStatus : Type 0 where
  ok_status needs_reauth network_error : AccountStatus

pub record AccountListItem : Type 0 where
  pub id : AccountId
  pub label : String
  pub provider : String
  pub email : String
  pub status : AccountStatus

pub record PermissionMap : Type 0 where
  pub read : Policy
  pub modify : Policy
  pub trash : Policy
  pub draft : Policy
  pub send : Policy

pub record McpEndpointInfo : Type 0 where
  pub url : String
  pub bearer_token : String
  pub stdio_shim_path : Option String

pub record Status : Type 0 where
  pub version : String
  pub uptime_secs : ℕ
  pub account_count : ℕ
  pub mcp_paused : Bool
  pub onboarding_complete : Bool

pub data Notification (V : Type 0) (C : Codec) : Type 0 where
  approval_requested : PendingApproval V → Notification V C
  approval_resolved : (id decision : String) → Notification V C
  account_added : Account C → Notification V C
  account_removed : AccountId → Notification V C
  account_needs_reauth : AccountId → Notification V C
  mcp_paused_changed : Bool → Notification V C

pub record Writers (J : Json) (C : Codec) : Type 0 where
  pub account : Account C → Result J.Value
  pub pending : List (PendingApproval J.Value) → Result J.Value
  pub requested : PendingApproval J.Value → J.Value
  pub added : Account C → J.Value

module _ (J : Json) (U : Ulid) where
  -- `#[serde(rename_all = "snake_case")]`
  unfoldable pub status_name : AccountStatus → String
  status_name ok_status = "ok"
  status_name needs_reauth = "needs_reauth"
  status_name network_error = "network_error"

  unfoldable pub list_item_value : AccountListItem → J.Value
  list_item_value item = J.object (
      ("id", J.string (U.to_string item.id))
      ∷ ("label", J.string item.label)
      ∷ ("provider", J.string item.provider)
      ∷ ("email", J.string item.email)
      ∷ ("status", J.string (status_name item.status))
      ∷ [])

  unfoldable pub permission_map_value : PermissionMap → J.Value
  permission_map_value m = J.object (
      ("read", J.string (Policy.as_str m.read))
      ∷ ("modify", J.string (Policy.as_str m.modify))
      ∷ ("trash", J.string (Policy.as_str m.trash))
      ∷ ("draft", J.string (Policy.as_str m.draft))
      ∷ ("send", J.string (Policy.as_str m.send))
      ∷ [])

  unfoldable pub optional : Option String → J.Value
  optional none = J.null
  optional (some s) = J.string s

  unfoldable pub endpoint_value : McpEndpointInfo → J.Value
  endpoint_value e = J.object (
      ("url", J.string e.url)
      ∷ ("bearer_token", J.string e.bearer_token)
      ∷ ("stdio_shim_path", optional e.stdio_shim_path)
      ∷ [])

  unfoldable pub status_value : Status → J.Value
  status_value s = J.object (
      ("version", J.string s.version)
      ∷ ("uptime_secs", J.number s.uptime_secs)
      ∷ ("account_count", J.number s.account_count)
      ∷ ("mcp_paused", J.bool s.mcp_paused)
      ∷ ("onboarding_complete", J.bool s.onboarding_complete)
      ∷ [])

  -- `AccountAddOAuthInProgress`
  unfoldable pub in_progress_value : (challenge_id auth_url : String) → J.Value
  in_progress_value challenge_id auth_url =
      J.object (("challenge_id", J.string challenge_id) ∷ ("auth_url", J.string auth_url) ∷ [])
