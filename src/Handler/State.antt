-- ===== src/Handler/State.antt =====
-- `DaemonHandler`: the state of the daemon that its methods read and change.
--
-- The handles of the source share storage, registry, queue and flag with the MCP server; here they
-- are fields of one record. A method runs alone: what other tasks do between its statements is not
-- modelled. A join handle is known by what awaiting it yields. `sent` is what was sent on the
-- notification channel, newest first.
use mail_mcp.Base.{
  ℕ, Bool, false, String, Option, List, ◌∷◌, Result, unwrap_or, and_then, provider, ok_or, map_err,
}
use mail_mcp.Base.Dict.{Dict}
use mail_mcp.Base.State.{M}
use Prim.Native.String.{◌++◌}
use mail_mcp.Base.{◌>>=◌}
use mail_mcp.Base.Ids.{Ulid}
use mail_mcp.Json.{Json}
use mail_mcp.Permissions.Storage.{Storage}
use mail_mcp.Accounts.{Codec}
use mail_mcp.Approvals.{ApprovalQueue, Oneshot}
use mail_mcp.Oauth.{Chrono, OAuthTokens}
use mail_mcp.Secrets.{Keyring}
use mail_mcp.Dispatch.Call.{ProviderRegistry, DispatchContext}
use mail_mcp.Ipc.Messages.{Notification}

-- What awaiting the task of a sign-in yields: a panic, or its result with the user's email.
pub data Joined (T : Chrono) : Type 0 where
  panicked : String → Joined T
  finished : Result (OAuthTokens T × String) → Joined T

pub record PendingOauth (T : Chrono) : Type 0 where
  pub label_hint : Option String
  pub join : Joined T

pub record Daemon (V : Type 0) (C : Codec) (O : Oneshot) (K : Keyring) (T : Chrono) (S : Type 0)
    : Type 0 where
  pub storage : Storage
  pub secrets : K.Store
  pub providers : ProviderRegistry S
  pub approvals : ApprovalQueue V O
  pub mcp_paused : Bool
  pub pending_oauth : Dict String (PendingOauth T)
  pub sent : List (Notification V C)

module _ {V : Type 0} {C : Codec} {O : Oneshot} {K : Keyring} {T : Chrono} {S : Type 0} where
  abbrev pub put_storage :
      {A : Type 0} → Daemon V C O K T S → Result A × Storage → Result A × Daemon V C O K T S
  put_storage d (r, s) = (r, record d { storage = s })

  abbrev pub on_storage : {A : Type 0} → M Storage A → M (Daemon V C O K T S) A
  on_storage m d = put_storage d (m d.storage)

  abbrev pub put_secrets :
      {A : Type 0} → Daemon V C O K T S → Result A × K.Store → Result A × Daemon V C O K T S
  put_secrets d (r, k) = (r, record d { secrets = k })

  abbrev pub on_secrets : {A : Type 0} → M K.Store A → M (Daemon V C O K T S) A
  on_secrets m d = put_secrets d (m d.secrets)

  abbrev pub put_approvals :
      {A : Type 0}
      → Daemon V C O K T S
      → Result A × ApprovalQueue V O
      → Result A × Daemon V C O K T S
  put_approvals d (r, q) = (r, record d { approvals = q })

  abbrev pub on_approvals : {A : Type 0} → M (ApprovalQueue V O) A → M (Daemon V C O K T S) A
  on_approvals m d = put_approvals d (m d.approvals)

  -- `let _ = self.notif_tx.send(n)`
  abbrev pub send_notification : Notification V C → Daemon V C O K T S → Daemon V C O K T S
  send_notification n d = record d { sent = n ∷ d.sent }

  -- The `DispatchContext` that main.rs makes of the same handles.
  unfoldable pub context_of : Daemon V C O K T S → DispatchContext S
  context_of d = record { storage = d.storage; providers = d.providers; mcp_paused = d.mcp_paused }

module _ (J : Json) where
  -- `params.get(key).and_then(|v| v.as_str())`
  unfoldable pub str_param : J.Value → String → Option String
  str_param params key = and_then (J.get params key) J.as_str

  -- The same with `.ok_or_else(|| CoreError::Provider("missing {key}".into()))`
  unfoldable pub required : J.Value → String → Result String
  required params key = ok_or (str_param params key) (provider ("missing " ++ key))

  -- `params.get(key).and_then(|v| v.as_bool()).unwrap_or(false)`
  unfoldable pub flag_param : J.Value → String → Bool
  flag_param params key = unwrap_or (and_then (J.get params key) J.as_bool) false

  -- An id parameter, for accounts and approvals alike.
  unfoldable pub id_param : Ulid → J.Value → String → Result ℕ
  id_param U params key = do
    id_str ← required params key
    map_err (U.from_str id_str) (λ e. provider ("bad id: " ++ e))
