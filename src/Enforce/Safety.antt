-- ===== src/Enforce/Safety.antt =====
-- What the outcome of `enforce` rests on: the policy, the session's trust and the user's decision.
use mail_mcp.Base.{◌≡◌, ◌≢◌, ◌↔◌, ◌⊎◌, inl, inr, true, ok, arith, IsIn}
use mail_mcp.Base.Ids.{Ulid}
use mail_mcp.Permissions.Category.{Category, category_key, send}
use mail_mcp.Permissions.Policy.{Policy, allow, confirm, session, draftify, block}
use mail_mcp.Permissions.Table.{Permissions, policy_for}
use mail_mcp.Approvals.{ApprovalRequest, approved, Oneshot, decided, approve}
use mail_mcp.Approvals.Consent.{IsOpen, await-consent}
use mail_mcp.Enforce.{
  proceed, convert_to_draft, SessionTrust, is_trusted, Wait, World, enforce_outcome, ask,
  ask_confirm, grant_if_proceed, enforce_session, enforce_policy, enforce,
}

-- Before the timer fired, the user approved the approval that this call enqueued.
abbrev pub UserApproves : {V : Type 0} → Wait V → Type 0
UserApproves wait = IsIn (decided wait.id approve) wait.early

-- What each policy demands for an operation to go ahead.
abbrev pub MayProceed :
    {V : Type 0} → Wait V → Policy → Category → ApprovalRequest V → SessionTrust → Type 0
MayProceed wait allow cat request trust = Unit
MayProceed wait block cat request trust = ⊥
MayProceed wait confirm cat request trust = UserApproves wait
MayProceed wait session cat request trust =
    (is_trusted request.account cat trust ≡ true) ⊎ UserApproves wait
MayProceed wait draftify cat request trust = (cat ≢ send) × UserApproves wait

module _ {V : Type 0} (O : Oneshot) (U : Ulid) (wait : Wait V) where
  pub ask-approved :
      (request : ApprovalRequest V) (w : World V O)
      → IsOpen O w.queue
      → (ask O U wait request w).0 ≡ ok approved
      → UserApproves wait
  unfolding ask
  ask-approved request w v h =
      await-consent O U wait.id wait.now request wait.early wait.late w.queue v h

  pub ask_confirm-proceed :
      (request : ApprovalRequest V) (w : World V O)
      → (ask_confirm O U wait request w).0 ≡ ok proceed
      → (ask O U wait request w).0 ≡ ok approved
  unfolding ask_confirm enforce_outcome
  ask_confirm-proceed request w h = ground arith

  session-proceed :
      (cat : Category) (request : ApprovalRequest V) (w : World V O)
      → (enforce_session O U wait cat request w).0 ≡ ok proceed
      → (is_trusted request.account cat w.trust ≡ true)
        ⊎ ((ask_confirm O U wait request w).0 ≡ ok proceed)
  unfolding enforce_session grant_if_proceed
  session-proceed cat request w h = ground arith

  draftify-proceed :
      (cat : Category) (request : ApprovalRequest V) (w : World V O)
      → (enforce_policy O U wait draftify cat request w).0 ≡ ok proceed
      → (cat ≢ send) × ((ask_confirm O U wait request w).0 ≡ ok proceed)
  unfolding enforce_policy
  draftify-proceed cat request w h = ground arith

  policy-proceed :
      (p : Policy) (cat : Category) (request : ApprovalRequest V) (w : World V O)
      → IsOpen O w.queue
      → (enforce_policy O U wait p cat request w).0 ≡ ok proceed
      → MayProceed wait p cat request w.trust
  unfolding enforce_policy
  policy-proceed allow cat request w v h = tt
  policy-proceed block cat request w v h = cc
  policy-proceed confirm cat request w v h =
      ask-approved request w v (ask_confirm-proceed request w h)
  policy-proceed session cat request w v h = elim (session-proceed cat request w h) [
    | inl t ↦ inl t
    | inr e ↦ inr (ask-approved request w v (ask_confirm-proceed request w e))
  ]
  policy-proceed draftify cat request w v h =
      let (ne, e) = draftify-proceed cat request w h in
      (ne, ask-approved request w v (ask_confirm-proceed request w e))

  -- `enforce` lets an operation go ahead only if the policy allows it outright, or the session
  -- policy finds the account's category trusted, or the user approved this very request in time
  -- under a policy that asks (draftify asks for every category but send). It never does under
  -- `block`. The queue must have untouched channels for what is pending.
  pub enforce-MayProceed :
      (perms : Permissions) (cat : Category) (request : ApprovalRequest V) (w : World V O)
      → IsOpen O w.queue
      → (enforce O U wait perms cat request w).0 ≡ ok proceed
      → MayProceed wait (policy_for perms cat) cat request w.trust
  unfolding enforce
  enforce-MayProceed perms cat request w v h =
      policy-proceed (policy_for perms cat) cat request w v h

  ask_confirm-ne-convert :
      (request : ApprovalRequest V) (w : World V O)
      → (ask_confirm O U wait request w).0 ≢ ok convert_to_draft
  unfolding ask_confirm enforce_outcome
  ask_confirm-ne-convert request w = ground arith

  policy-convert_iff :
      (p : Policy) (cat : Category) (request : ApprovalRequest V) (w : World V O)
      → ((enforce_policy O U wait p cat request w).0 ≡ ok convert_to_draft)
        ↔ ((p ≡ draftify) × (cat ≡ send))
  unfolding enforce_policy enforce_session grant_if_proceed
  policy-convert_iff allow cat request w = ground arith
  policy-convert_iff p cat request w = ground (arith, ask_confirm-ne-convert request w)

  -- A call is turned into a draft exactly when the category is send and its policy draftify.
  pub enforce-convert_iff :
      (perms : Permissions) (cat : Category) (request : ApprovalRequest V) (w : World V O)
      → ((enforce O U wait perms cat request w).0 ≡ ok convert_to_draft)
        ↔ ((policy_for perms cat ≡ draftify) × (cat ≡ send))
  unfolding enforce
  enforce-convert_iff perms cat request w = policy-convert_iff (policy_for perms cat) cat request w
