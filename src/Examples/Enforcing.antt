-- ===== src/Examples/Enforcing.antt =====
-- The policy check on a fresh account's and on a session's policies.
use mail_mcp.Base.{ℕ, ◌≡◌, refl, List, [], ◌∷◌, ok, string_key, nat_key}
use mail_mcp.Base.Dict.{lookup, insert, remove}
use mail_mcp.Permissions.Category.{send, category_key}
use mail_mcp.Permissions.Policy.{session, default_policy}
use mail_mcp.Permissions.Table.{
  Permissions, insert_defaults, with_defaults, override_for, policy_for,
}
use mail_mcp.Approvals.{
  ApprovalRequest, Action, decided, approve, new, enqueue, resolve, decide, clean, act, run, settle,
  await_outcome, outcome_of,
}
use mail_mcp.Approvals.Consent.{new-IsOpen}
use mail_mcp.Enforce.{
  proceed, is_trusted, grant, trust_steps, Wait, World, enforce_outcome, ask, ask_confirm,
  grant_if_proceed, enforce_session, enforce_policy, enforce, account_category_key,
}
use mail_mcp.Enforce.Safety.{MayProceed, enforce-MayProceed}
use mail_mcp.Enforce.Trust.{session-second_call}
use mail_mcp.Examples.Instances.{channel, ulid}

unfoldable pub enforcing : Unit {0}
unfolding new enqueue resolve decide clean act run settle await_outcome outcome_of lookup insert
    remove nat_key category_key account_category_key is_trusted grant trust_steps enforce_outcome
    ask ask_confirm grant_if_proceed enforce_session enforce_policy enforce insert_defaults
    with_defaults override_for policy_for default_policy
enforcing = tt

abbrev careful : Permissions
careful = override_for send session with_defaults

abbrev request : ApprovalRequest ℕ
request = record { account = 1; category = send; summary = "send_message"; details = 0 }

abbrev wait : List (Action ℕ) → Wait ℕ
wait early = record { id = 1; now = 0; early = early; late = []; meanwhile = [] }

abbrev world : World ℕ channel
world = record { queue = new channel; trust = [] }

goes_ahead :
    (enforce channel ulid (wait (decided 1 approve ∷ [])) careful send request world).0 ≡ ok proceed
unfolding enforcing
goes_ahead = refl

enforce-MayProceed_example : MayProceed (wait (decided 1 approve ∷ [])) session send request []
unfolding enforcing
enforce-MayProceed_example =
    enforce-MayProceed channel ulid (wait (decided 1 approve ∷ [])) careful send request world
      (new-IsOpen channel) goes_ahead

session_policy : policy_for careful send ≡ session
unfolding enforcing
session_policy = refl

session-second_call_example :
    enforce channel ulid
      (wait [])
      careful
      send
      request
      (enforce channel ulid (wait (decided 1 approve ∷ [])) careful send request world).1
    ≡ (
      ok proceed,
      (enforce channel ulid (wait (decided 1 approve ∷ [])) careful send request world).1,
    )
session-second_call_example =
    session-second_call channel ulid (wait (decided 1 approve ∷ [])) (wait []) careful careful send
      request request world _ session_policy session_policy refl goes_ahead refl
