-- ===== src/Approvals/Consent.antt =====
-- What an approval is worth: the future of an approval yields `approved` only if the user decided so.
use mail_mcp.Base.{ℕ, ◌≡◌, sym, ◌≢◌, ◌⊎◌, inl, inr, none, List, [], ◌∷◌, ok, arith, nat_key, IsIn}
use mail_mcp.Base.Dict.{lookup, lookup-insert, lookup-remove}
use mail_mcp.Base.Ids.{ApprovalId, Ulid}
use mail_mcp.Approvals.{
  ApprovalDecision, Recv, rejected, ApprovalRequest, ApprovalQueue, Oneshot, Action, enqueued,
  decided, cleaned, approve, reject, approved, waiting, dropped, received, outcome_of, enqueue,
  decide, clean, act, run, settle, await_outcome, new,
}

module _ {V : Type 0} (O : Oneshot) where
  -- The well-formedness of the queue: who waits in the map has an untouched channel.
  abbrev pub IsOpen : ApprovalQueue V O → Type 0
  IsOpen q = (j : ApprovalId) → lookup j q.pending ≢ none → O.recv (q.channels j) ≡ waiting

  pub new-IsOpen : IsOpen (new O)
  unfolding new
  new-IsOpen j h = O.recv-fresh

  pub enqueue-IsOpen :
      (id : ApprovalId) (now : ℕ) (request : ApprovalRequest V) (q : ApprovalQueue V O)
      → IsOpen q
      → IsOpen (enqueue O id now request q)
  unfolding enqueue
  enqueue-IsOpen id now request q v j h = ground (
    arith,
    lookup-insert j id (record { id = id; request = request; created_at = now }) q.pending,
    O.recv-fresh,
    v j,
  )

  enqueue-ne-approved :
      (id : ApprovalId) (now : ℕ) (request : ApprovalRequest V) (q : ApprovalQueue V O)
      → O.recv ((enqueue O id now request q).channels id) ≢ received approved
  unfolding enqueue
  enqueue-ne-approved id now request q h = ground (arith, O.recv-fresh)

  decide-IsOpen :
      (U : Ulid) (id : ApprovalId) (d : ApprovalDecision) (q : ApprovalQueue V O)
      → IsOpen q
      → IsOpen (decide O U id d q).1
  unfolding decide
  decide-IsOpen U id d q v j h = ground (arith, lookup-remove j id q.pending, v j)

  clean-IsOpen : (id : ApprovalId) (q : ApprovalQueue V O) → IsOpen q → IsOpen (clean O id q)
  unfolding clean
  clean-IsOpen id q v j h = ground (arith, lookup-remove j id q.pending, v j)

  module _ (U : Ulid) where
    pub act-IsOpen : (a : Action V) (q : ApprovalQueue V O) → IsOpen q → IsOpen (act O U a q)
    unfolding act
    act-IsOpen (enqueued id now request) q v = enqueue-IsOpen id now request q v
    act-IsOpen (decided id d) q v = decide-IsOpen U id d q v
    act-IsOpen (cleaned id) q v = clean-IsOpen id q v

    pub run-IsOpen :
        (actions : List (Action V)) (q : ApprovalQueue V O) → IsOpen q → IsOpen (run O U actions q)
    unfolding run
    run-IsOpen [] q v = v
    run-IsOpen (a ∷ actions) q v = run-IsOpen actions (act O U a q) (act-IsOpen a q v)

    -- One step can make the channel of `id` read `approved` only by approving `id`.
    act-approved :
        (id : ApprovalId) (a : Action V) (q : ApprovalQueue V O)
        → IsOpen q
        → O.recv ((act O U a q).channels id) ≡ received approved
        → (O.recv (q.channels id) ≡ received approved) ⊎ (a ≡ decided id approve)
    unfolding act enqueue decide clean outcome_of
    act-approved id (enqueued j now request) q v h = ground (arith, O.recv-fresh)
    act-approved id (decided j approve) q v h = ground arith
    act-approved id (decided j reject) q v h =
        ground (arith, O.recv-send rejected (q.channels j), v j)
    act-approved id (cleaned j) q v h = ground (arith, O.recv-drop (q.channels j), v j)

    run-approved :
        (id : ApprovalId) (actions : List (Action V)) (q : ApprovalQueue V O)
        → IsOpen q
        → O.recv ((run O U actions q).channels id) ≡ received approved
        → (O.recv (q.channels id) ≡ received approved) ⊎ IsIn (decided id approve) actions
    unfolding run
    run-approved id [] q v h = inl h
    run-approved id (a ∷ actions) q v h =
        elim (run-approved id actions (act O U a q) (act-IsOpen a q v) h) [
          | inr m ↦ inr (inr m)
          | inl e ↦ elim (act-approved id a q v e) [
            | inl start ↦ inl start
            | inr hit ↦ inr (inl (sym hit))
          ]
        ]

    settle-approved :
        (id : ApprovalId) (late : List (Action V)) (r : Recv) (q : ApprovalQueue V O)
        → (settle O U id late r q).0 ≡ ok approved
        → r ≡ received approved
    unfolding settle
    settle-approved id late (received o) q h = cc
    settle-approved id late dropped q h = cc
    settle-approved id late waiting q h = cc

    -- In a queue where every pending approval has an untouched channel, the future of a new request
    -- yields `approved` only if some other task decided `approve` on its id before the timer fired.
    pub await-consent :
        (id : ApprovalId) (now : ℕ) (request : ApprovalRequest V) (early late : List (Action V))
        (q : ApprovalQueue V O)
        → IsOpen q
        → (await_outcome O U id early late (enqueue O id now request q)).0 ≡ ok approved
        → IsIn (decided id approve) early
    unfolding await_outcome
    await-consent id now request early late q v h =
        let q' : ApprovalQueue V O = enqueue O id now request q in
        let r = settle-approved id late _ (run O U early q') h in
        elim (run-approved id early q' (enqueue-IsOpen id now request q v) r) [
          | inr m ↦ m
          | inl e ↦ absurd (enqueue-ne-approved id now request q e)
        ]
