-- ===== src/Enforce/Trust.antt =====
-- The session trust: what an approval under the session policy is good for, and that nothing else
-- grants trust.
use mail_mcp.Base.{◌≡◌, refl, ◌≢◌, ◌⊎◌, true, ok, arith}
use mail_mcp.Base.Dict.{lookup-insert}
use mail_mcp.Base.Ids.{AccountId, Ulid}
use mail_mcp.Permissions.Category.{Category}
use mail_mcp.Permissions.Policy.{Policy, session}
use mail_mcp.Permissions.Table.{Permissions, policy_for}
use mail_mcp.Approvals.{ApprovalRequest, Oneshot}
use mail_mcp.Approvals.Consent.{IsOpen}
use mail_mcp.Enforce.{
  proceed, SessionTrust, is_trusted, grant, Wait, World, trust_steps, account_category_key, ask,
  ask_confirm, grant_if_proceed, enforce_session, enforce_policy, enforce,
}
use mail_mcp.Enforce.Safety.{UserApproves, ask-approved, ask_confirm-proceed}

is_trusted-grant :
    (account : AccountId) (cat : Category) (trust : SessionTrust)
    → is_trusted account cat (grant account cat trust) ≡ true
unfolding is_trusted grant
is_trusted-grant account cat trust =
    ground (arith, lookup-insert (account, cat) (account, cat) true trust)

module _ {V : Type 0} (O : Oneshot) (U : Ulid) where
  session_proceed-trusts :
      (wait : Wait V) (cat : Category) (request : ApprovalRequest V) (w : World V O)
      → (enforce_session O U wait cat request w).0 ≡ ok proceed
      → is_trusted request.account cat (enforce_session O U wait cat request w).1.trust ≡ true
  unfolding enforce_session grant_if_proceed
  session_proceed-trusts wait cat request w h =
      ground (arith, is_trusted-grant request.account cat (ask_confirm O U wait request w).1.trust)

  session-trusted :
      (wait : Wait V) (cat : Category) (request : ApprovalRequest V) (w : World V O)
      → is_trusted request.account cat w.trust ≡ true
      → enforce_session O U wait cat request w ≡ (ok proceed, w)
  unfolding enforce_session
  session-trusted wait cat request w e = rw e

  policy-trusted :
      (wait : Wait V) (p : Policy) (cat : Category) (request : ApprovalRequest V) (w : World V O)
      → p ≡ session
      → is_trusted request.account cat w.trust ≡ true
      → enforce_policy O U wait p cat request w ≡ (ok proceed, w)
  unfolding enforce_policy
  policy-trusted wait session cat request w e t = session-trusted wait cat request w t
  policy-trusted wait _ cat request w e t = cc

  policy_proceed-trusts :
      (wait : Wait V) (p : Policy) (cat : Category) (request : ApprovalRequest V) (w : World V O)
      → p ≡ session
      → (enforce_policy O U wait p cat request w).0 ≡ ok proceed
      → is_trusted request.account cat (enforce_policy O U wait p cat request w).1.trust ≡ true
  unfolding enforce_policy
  policy_proceed-trusts wait session cat request w e h = session_proceed-trusts wait cat request w h
  policy_proceed-trusts wait _ cat request w e h = cc

  -- Under the session policy one approval is enough: once a call has been let through, the next
  -- call for the same account and category is let through at once, as long as the trust map is as
  -- the first call left it and whatever has become of the queue; and it changes neither of them, so
  -- it asks nobody.
  pub session-second_call :
      (first second : Wait V) (perms perms' : Permissions) (cat : Category)
      (request request' : ApprovalRequest V) (w w' : World V O)
      → policy_for perms cat ≡ session
      → policy_for perms' cat ≡ session
      → request'.account ≡ request.account
      → (enforce O U first perms cat request w).0 ≡ ok proceed
      → w'.trust ≡ (enforce O U first perms cat request w).1.trust
      → enforce O U second perms' cat request' w' ≡ (ok proceed, w')
  unfolding enforce
  session-second_call first second perms perms' cat request request' w w' e e' a h t =
      policy-trusted second (policy_for perms' cat) cat request' w' e'
        (rw (a, t) (policy_proceed-trusts first (policy_for perms cat) cat request w e h))

  ask-trust :
      (wait : Wait V) (request : ApprovalRequest V) (w : World V O)
      → (ask O U wait request w).1.trust ≡ trust_steps wait.meanwhile w.trust
  unfolding ask
  ask-trust wait request w = refl

  ask_confirm-trust :
      (wait : Wait V) (request : ApprovalRequest V) (w : World V O)
      → (ask_confirm O U wait request w).1.trust ≡ trust_steps wait.meanwhile w.trust
  unfolding ask_confirm
  ask_confirm-trust wait request w = ground (arith, ask-trust wait request w)

  -- The trust map after a call, unless the call itself granted trust.
  abbrev pub IsUngranted : Wait V → World V O → SessionTrust → Type 0
  IsUngranted wait w trust = (trust ≡ w.trust) ⊎ (trust ≡ trust_steps wait.meanwhile w.trust)

  session-no_grant :
      (wait : Wait V) (cat : Category) (request : ApprovalRequest V) (w : World V O)
      → (ask_confirm O U wait request w).0 ≢ ok proceed
      → IsUngranted wait w (enforce_session O U wait cat request w).1.trust
  unfolding enforce_session grant_if_proceed
  session-no_grant wait cat request w h = ground (arith, ask_confirm-trust wait request w)

  policy-no_grant :
      (wait : Wait V) (p : Policy) (cat : Category) (request : ApprovalRequest V) (w : World V O)
      → (ask_confirm O U wait request w).0 ≢ ok proceed
      → IsUngranted wait w (enforce_policy O U wait p cat request w).1.trust
  unfolding enforce_policy
  policy-no_grant wait session cat request w h = session-no_grant wait cat request w h
  policy-no_grant wait _ cat request w h = ground (arith, ask_confirm-trust wait request w)

  -- Without an approval in time no call grants trust: it leaves the trust map as it was, or, if it
  -- had to wait, as the other tasks' own steps on it have made it.
  pub enforce-no_grant :
      (wait : Wait V) (perms : Permissions) (cat : Category) (request : ApprovalRequest V)
      (w : World V O)
      → IsOpen O w.queue
      → ¬ UserApproves wait
      → IsUngranted wait w (enforce O U wait perms cat request w).1.trust
  unfolding enforce
  enforce-no_grant wait perms cat request w v refused =
      policy-no_grant wait (policy_for perms cat) cat request w
        λ h. refused (ask-approved O U wait request w v (ask_confirm-proceed O U wait request w h))
