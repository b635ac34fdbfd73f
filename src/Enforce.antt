-- ===== src/Enforce.antt =====
-- crates/mail-mcp-core/src/permissions/enforce.rs: the policy check before every operation.
--
-- The state is the approval queue and the session trust, each behind a mutex of its own. `Wait`
-- holds what a call learns from outside if it has to ask: the fresh id, the time, and the steps of
-- other tasks on the queue (see Approvals) and on the trust map while it waits. The permissions
-- are a snapshot that the caller has read.
pub mod Safety
pub mod Trust
use mail_mcp.Base.{
  ℕ, ◌≡◌, Bool, true, false, Option, none, some, List, [], ◌∷◌, Result, ok, err, if◌then◌else◌,
  same, Key, unwrap_or, nat_key,
}
use native.Mathlib.Decide.{ℕ_discrete}
use mail_mcp.Base.Dict.{Dict, lookup, insert}
use mail_mcp.Base.State.{M, ◌>>=◌, pure}
use mail_mcp.Base.Ids.{AccountId, ApprovalId, Ulid}
use mail_mcp.Permissions.Category.{Category, Category-discrete, category_key, send}
use mail_mcp.Permissions.Policy.{Policy, allow, confirm, session, draftify, block}
use mail_mcp.Permissions.Table.{Permissions, policy_for}
use mail_mcp.Approvals.{
  ApprovalRequest, ApprovalQueue, ApprovalOutcome, approved, rejected, timeout, Oneshot, Action,
  enqueue, await_outcome,
}

pub data EnforceOutcome : Type 0 where
  proceed blocked convert_to_draft : EnforceOutcome

abbrev pub SessionTrust : Type 0
SessionTrust = Dict (AccountId × Category) Bool

account_category-discrete : Discrete (ℕ × Category)
account_category-discrete = hlevel (ℕ_discrete, Category-discrete)

instance unfoldable pub account_category_key : Key (ℕ × Category)
unfolding account_category-discrete
account_category_key = record { dec = account_category-discrete }

-- `SessionTrust::is_trusted`
unfoldable pub is_trusted : AccountId → Category → SessionTrust → Bool
is_trusted account cat trust = unwrap_or (lookup (account, cat) trust) false

-- `SessionTrust::grant`
unfoldable pub grant : AccountId → Category → SessionTrust → SessionTrust
grant account cat trust = insert (account, cat) true trust

-- `SessionTrust::revoke_all`
unfoldable pub revoke_all : SessionTrust → SessionTrust
revoke_all trust = []

pub data TrustStep : Type 0 where
  granted : AccountId → Category → TrustStep
  revoked : TrustStep

unfoldable pub trust_steps : List TrustStep → SessionTrust → SessionTrust
trust_steps [] trust = trust
trust_steps (granted account cat ∷ steps) trust = trust_steps steps (grant account cat trust)
trust_steps (revoked ∷ steps) trust = trust_steps steps (revoke_all trust)

pub record Wait (V : Type 0) : Type 0 where
  pub id : ApprovalId
  pub now : ℕ
  pub early : List (Action V)
  pub late : List (Action V)
  pub meanwhile : List TrustStep

pub record World (V : Type 0) (O : Oneshot) : Type 0 where
  pub queue : ApprovalQueue V O
  pub trust : SessionTrust

-- The match on the outcome in `ask_confirm`.
unfoldable pub enforce_outcome : ApprovalOutcome → EnforceOutcome
enforce_outcome approved = proceed
enforce_outcome rejected = blocked
enforce_outcome timeout = blocked

module _ {V : Type 0} (O : Oneshot) (U : Ulid) (wait : Wait V) where
  -- `queue.enqueue(request).await`, then `fut.await`
  unfoldable pub ask : ApprovalRequest V → M (World V O) ApprovalOutcome
  ask request w =
      let (outcome, queue) =
        await_outcome O U wait.id wait.early wait.late
          (enqueue O wait.id wait.now request w.queue) in
      (outcome, record { queue = queue; trust = trust_steps wait.meanwhile w.trust })

  -- `ask_confirm`
  unfoldable pub ask_confirm : ApprovalRequest V → M (World V O) EnforceOutcome
  ask_confirm request = do outcome ← ask request; pure (enforce_outcome outcome)

  -- `if matches!(outcome, EnforceOutcome::Proceed) { trust.grant(..) }`
  unfoldable pub grant_if_proceed :
      AccountId → Category → EnforceOutcome → M (World V O) EnforceOutcome
  grant_if_proceed account cat proceed w =
      (ok proceed, record w { trust = grant account cat w.trust })
  grant_if_proceed account cat outcome w = (ok outcome, w)

  -- The branch of `Policy::Session`.
  unfoldable pub enforce_session : Category → ApprovalRequest V → M (World V O) EnforceOutcome
  enforce_session cat request w =
      if is_trusted request.account cat w.trust
      then (ok proceed, w)
      else (do outcome ← ask_confirm request; grant_if_proceed request.account cat outcome) w

  -- The match on the policy in `enforce`.
  unfoldable pub enforce_policy :
      Policy → Category → ApprovalRequest V → M (World V O) EnforceOutcome
  enforce_policy allow cat request = pure proceed
  enforce_policy block cat request = pure blocked
  enforce_policy draftify cat request =
      if same cat send then pure convert_to_draft else ask_confirm request
  enforce_policy confirm cat request = ask_confirm request
  enforce_policy session cat request = enforce_session cat request

  -- `enforce`
  unfoldable pub enforce : Permissions → Category → ApprovalRequest V → M (World V O) EnforceOutcome
  enforce perms cat request = enforce_policy (policy_for perms cat) cat request
