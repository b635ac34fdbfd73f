-- ===== src/Approvals/Resolution.antt =====
-- How an approval ends: decided at most once, gone from the map afterwards, a decision in time
-- reaches the future, and one that comes after the timer is lost.
use Prim.Native.String.{◌++◌}
use mail_mcp.Base.{
  ℕ, ◌≡◌, refl, sym, ap, ◌≢◌, ◌∙◌, none, List, ◌∷◌, ◌++◌ as append, ok, err, not_found, arith,
  nat_key, All,
}
use mail_mcp.Base.Dict.{lookup, lookup-remove}
use mail_mcp.Base.Ids.{ApprovalId, Ulid}
use mail_mcp.Approvals.{
  ApprovalDecision, ApprovalOutcome, ApprovalRequest, ApprovalQueue, Oneshot, Action, Recv, decided,
  timeout, waiting, dropped, received, resolved, outcome_of, enqueue, decide, clean, run, settle,
  await_outcome,
}
use mail_mcp.Approvals.Consent.{IsOpen, run-IsOpen, enqueue-IsOpen}
use mail_mcp.Approvals.Steps.{
  about, IsNotAsking, decide-eq-ok, decide-missing, decide-pending, resolve-pending,
  resolve-channel, resolve-events, resolve_others, run_other, enqueue-fresh, run_decided,
}

module _ {V : Type 0} (O : Oneshot) (U : Ulid) where
  -- Nothing is decided twice: a successful `decide` was on a pending approval, takes it from the
  -- map, sends the outcome, announces it once and leaves every other approval alone; any later
  -- decision on the same id is refused and changes nothing.
  pub decide_once :
      (id : ApprovalId) (d : ApprovalDecision) (q q' : ApprovalQueue V O)
      → decide O U id d q ≡ (ok tt, q')
      → (lookup id q.pending ≢ none)
        × (lookup id q'.pending ≡ none)
        × (q'.channels id ≡ O.send (outcome_of d) (q.channels id))
        × (q'.events ≡ resolved id d ∷ q.events)
        × ((j : ApprovalId)
            → j ≢ id
            → (lookup j q'.pending ≡ lookup j q.pending) × (q'.channels j ≡ q.channels j))
        × ((later : ApprovalDecision)
            → decide O U id later q' ≡ (err (not_found ("approval " ++ U.to_string id)), q'))
  decide_once id d q q' h =
      let (was, e) = decide-eq-ok O U id d q q' h in
      (
        was,
        rw e (resolve-pending O U id d q),
        rw e (resolve-channel O U id d q),
        rw e (resolve-events O U id d q),
        λ j ne. rw e (resolve_others O U id d q j ne),
        λ later. decide-missing O U id later q' (rw e (resolve-pending O U id d q)),
      )

  settle-not_pending :
      (id : ApprovalId) (late : List (Action V)) (r : Recv) (q : ApprovalQueue V O)
      → O.recv (q.channels id) ≡ r
      → IsOpen O q
      → lookup id (settle O U id late r q).1.pending ≡ none
  unfolding settle clean
  settle-not_pending id late (received o) q e v = ground (arith, v id)
  settle-not_pending id late dropped q e v = ground (arith, v id)
  settle-not_pending id late waiting q e v =
      ground (arith, lookup-remove id id (run O U late q).pending)

  -- However the wait for a new request ends, its id is not pending afterwards: nothing is left in
  -- the map for a decision to find. The queue must have untouched channels for what is pending.
  pub await-not_pending :
      (id : ApprovalId) (now : ℕ) (request : ApprovalRequest V) (early late : List (Action V))
      (q : ApprovalQueue V O)
      → IsOpen O q
      → lookup id (await_outcome O U id early late (enqueue O id now request q)).1.pending ≡ none
  unfolding await_outcome
  await-not_pending id now request early late q v =
      settle-not_pending id late _ _ refl
        (run-IsOpen O U early _ (enqueue-IsOpen O id now request q v))

  settle_received :
      (id : ApprovalId) (late : List (Action V)) (r : Recv) (q : ApprovalQueue V O)
      (o : ApprovalOutcome)
      → r ≡ received o
      → (settle O U id late r q).0 ≡ ok o
  unfolding settle
  settle_received id late (received o') q o e = cc
  settle_received id late dropped q o e = cc
  settle_received id late waiting q o e = cc

  settle_waiting :
      (id : ApprovalId) (late : List (Action V)) (r : Recv) (q : ApprovalQueue V O)
      → r ≡ waiting
      → (settle O U id late r q).0 ≡ ok timeout
  unfolding settle
  settle_waiting id late (received o) q e = cc
  settle_waiting id late dropped q e = cc
  settle_waiting id late waiting q e = refl

  -- A decision that comes before the timer reaches the future: if other tasks first leave a new
  -- request alone, then decide it, and never enqueue its id again, the future yields the outcome
  -- of that first decision, whatever later decisions say.
  pub await-decided :
      (id : ApprovalId) (now : ℕ) (request : ApprovalRequest V) (d : ApprovalDecision)
      (before after late : List (Action V)) (q : ApprovalQueue V O)
      → All (λ a. about a ≢ id) before
      → All (IsNotAsking id) after
      → (await_outcome O U id
          (append before (decided id d ∷ after))
          late
          (enqueue O id now request q)).0
        ≡ ok (outcome_of d)
  unfolding await_outcome
  await-decided id now request d before after late q hb ha =
      let (asked, made) = enqueue-fresh O U id now request q in
      settle_received id late _ _ (outcome_of d) (
        run_decided O U id d before after (enqueue O id now request q) hb ha asked
          (ap O.recv made ∙ O.recv-fresh))

  -- A decision can be accepted and still be lost: if no other task touches a new request before its
  -- timer fires, and the user decides it before the future takes the lock to clean up, then
  -- `decide` answers `Ok` while the future yields the timeout.
  pub late_decision_lost :
      (id : ApprovalId) (now : ℕ) (request : ApprovalRequest V) (d : ApprovalDecision)
      (early before after : List (Action V)) (q : ApprovalQueue V O)
      → All (λ a. about a ≢ id) early
      → All (λ a. about a ≢ id) before
      → let q0 : ApprovalQueue V O = enqueue O id now request q in
        ((await_outcome O U id early (append before (decided id d ∷ after)) q0).0 ≡ ok timeout)
        × ((decide O U id d (run O U before (run O U early q0))).0 ≡ ok tt)
  unfolding await_outcome
  late_decision_lost id now request d early before after q he hb =
      let q0 : ApprovalQueue V O = enqueue O id now request q in
      let (asked, made) = enqueue-fresh O U id now request q in
      let (kept, same_channel) = run_other O U id early q0 he in
      let (kept', _) = run_other O U id before (run O U early q0) hb in
      (
        settle_waiting id _ _ _ (ap O.recv (same_channel ∙ made) ∙ O.recv-fresh),
        ap (λ r. r.0) (decide-pending O U id d _ (λ e. asked (sym kept ∙ sym kept' ∙ e))),
      )
