-- ===== src/Approvals/Steps.antt =====
-- Steps on the queue, seen from one approval.
use Prim.Native.String.{◌++◌}
use mail_mcp.Base.{
  ℕ, ◌≡◌, refl, sym, ap, ◌≢◌, ◌∙◌, none, List, [], ◌∷◌, ◌++◌ as append, ok, err, not_found, arith,
  nat_key, All,
}
use mail_mcp.Base.Dict.{lookup, lookup-insert, lookup-remove}
use mail_mcp.Base.Ids.{ApprovalId, Ulid}
use mail_mcp.Approvals.{
  ApprovalDecision, ApprovalRequest, ApprovalQueue, Oneshot, Action, enqueued, decided, cleaned,
  waiting, received, resolved, outcome_of, enqueue, resolve, decide, clean, act, run,
}

-- The approval that a step is about.
abbrev pub about : {V : Type 0} → Action V → ApprovalId
about (enqueued id now request) = id
about (decided id decision) = id
about (cleaned id) = id

-- The step does not put `id` into the queue again: ids of approvals are fresh.
abbrev pub IsNotAsking : {V : Type 0} → ApprovalId → Action V → Type 0
IsNotAsking id (enqueued j now request) = j ≢ id
IsNotAsking id (decided j decision) = Unit
IsNotAsking id (cleaned j) = Unit

module _ {V : Type 0} (O : Oneshot) (U : Ulid) where
  pub decide-eq-ok :
      (id : ApprovalId) (d : ApprovalDecision) (q q' : ApprovalQueue V O)
      → decide O U id d q ≡ (ok tt, q')
      → (lookup id q.pending ≢ none) × (q' ≡ resolve O id d q)
  unfolding decide
  decide-eq-ok id d q q' h = ground arith

  pub decide-missing :
      (id : ApprovalId) (d : ApprovalDecision) (q : ApprovalQueue V O)
      → lookup id q.pending ≡ none
      → decide O U id d q ≡ (err (not_found ("approval " ++ U.to_string id)), q)
  unfolding decide
  decide-missing id d q e = rw (e, decide)

  pub decide-pending :
      (id : ApprovalId) (d : ApprovalDecision) (q : ApprovalQueue V O)
      → lookup id q.pending ≢ none
      → decide O U id d q ≡ (ok tt, resolve O id d q)
  unfolding decide
  decide-pending id d q ne = ground arith

  pub resolve-pending :
      (id : ApprovalId) (d : ApprovalDecision) (q : ApprovalQueue V O)
      → lookup id (resolve O id d q).pending ≡ none
  unfolding resolve
  resolve-pending id d q = ground (arith, lookup-remove id id q.pending)

  pub resolve-channel :
      (id : ApprovalId) (d : ApprovalDecision) (q : ApprovalQueue V O)
      → (resolve O id d q).channels id ≡ O.send (outcome_of d) (q.channels id)
  unfolding resolve
  resolve-channel id d q = ground arith

  pub resolve-events :
      (id : ApprovalId) (d : ApprovalDecision) (q : ApprovalQueue V O)
      → (resolve O id d q).events ≡ resolved id d ∷ q.events
  unfolding resolve
  resolve-events id d q = refl

  pub resolve_others :
      (id : ApprovalId) (d : ApprovalDecision) (q : ApprovalQueue V O) (j : ApprovalId)
      → j ≢ id
      → (lookup j (resolve O id d q).pending ≡ lookup j q.pending)
        × ((resolve O id d q).channels j ≡ q.channels j)
  unfolding resolve
  resolve_others id d q j ne = (ground (arith, lookup-remove j id q.pending), ground arith)

  -- A step about another approval leaves this one's entry and channel alone.
  pub act_other :
      (id : ApprovalId) (a : Action V) (q : ApprovalQueue V O)
      → about a ≢ id
      → (lookup id (act O U a q).pending ≡ lookup id q.pending)
        × ((act O U a q).channels id ≡ q.channels id)
  unfolding act enqueue decide clean resolve
  act_other id (enqueued j now request) q ne = (
    ground (
      arith,
      lookup-insert id j (record { id = j; request = request; created_at = now }) q.pending,
    ),
    ground arith,
  )
  act_other id (decided j d) q ne =
      (ground (arith, lookup-remove id j q.pending), ground (arith, lookup-remove id j q.pending))
  act_other id (cleaned j) q ne =
      (ground (arith, lookup-remove id j q.pending), ground (arith, lookup-remove id j q.pending))

  pub run_other :
      (id : ApprovalId) (actions : List (Action V)) (q : ApprovalQueue V O)
      → All (λ a. about a ≢ id) actions
      → (lookup id (run O U actions q).pending ≡ lookup id q.pending)
        × ((run O U actions q).channels id ≡ q.channels id)
  unfolding run
  run_other id [] q h = (refl, refl)
  run_other id (a ∷ actions) q (h, hs) =
      let (p, c) = act_other id a q h in
      let (ps, cs) = run_other id actions (act O U a q) hs in (ps ∙ p, cs ∙ c)

  -- Once an approval is out of the map, steps that do not enqueue its id leave its channel alone.
  pub act_gone :
      (id : ApprovalId) (a : Action V) (q : ApprovalQueue V O)
      → IsNotAsking id a
      → lookup id q.pending ≡ none
      → (lookup id (act O U a q).pending ≡ none) × ((act O U a q).channels id ≡ q.channels id)
  unfolding act enqueue decide clean resolve
  act_gone id (enqueued j now request) q ne e = (
    ground (
      arith,
      lookup-insert id j (record { id = j; request = request; created_at = now }) q.pending,
    ),
    ground arith,
  )
  act_gone id (decided j d) q ne e =
      (ground (arith, lookup-remove id j q.pending), ground (arith, lookup-remove id j q.pending))
  act_gone id (cleaned j) q ne e =
      (ground (arith, lookup-remove id j q.pending), ground (arith, lookup-remove id j q.pending))

  pub run_gone :
      (id : ApprovalId) (actions : List (Action V)) (q : ApprovalQueue V O)
      → All (IsNotAsking id) actions
      → lookup id q.pending ≡ none
      → (lookup id (run O U actions q).pending ≡ none)
        × ((run O U actions q).channels id ≡ q.channels id)
  unfolding run
  run_gone id [] q h e = (e, refl)
  run_gone id (a ∷ actions) q (h, hs) e =
      let (p, c) = act_gone id a q h e in
      let (ps, cs) = run_gone id actions (act O U a q) hs p in (ps, cs ∙ c)

  pub run-append :
      (xs ys : List (Action V)) (q : ApprovalQueue V O)
      → run O U (append xs ys) q ≡ run O U ys (run O U xs q)
  unfolding run
  run-append [] ys q = refl
  run-append (x ∷ xs) ys q = run-append xs ys (act O U x q)

  pub enqueue-fresh :
      (id : ApprovalId) (now : ℕ) (request : ApprovalRequest V) (q : ApprovalQueue V O)
      → (lookup id (enqueue O id now request q).pending ≢ none)
        × ((enqueue O id now request q).channels id ≡ O.fresh)
  unfolding enqueue
  enqueue-fresh id now request q = (
    ground (
      arith,
      lookup-insert id id (record { id = id; request = request; created_at = now }) q.pending,
    ),
    ground arith,
  )

  pub run-decided :
      (id : ApprovalId) (d : ApprovalDecision) (after : List (Action V)) (q : ApprovalQueue V O)
      → lookup id q.pending ≢ none
      → run O U (decided id d ∷ after) q ≡ run O U after (resolve O id d q)
  unfolding run act
  run-decided id d after q ne = ap (run O U after) (ap (λ r. r.1) (decide-pending id d q ne))

  pub run_decided :
      (id : ApprovalId) (d : ApprovalDecision) (before after : List (Action V))
      (q : ApprovalQueue V O)
      → All (λ a. about a ≢ id) before
      → All (IsNotAsking id) after
      → lookup id q.pending ≢ none
      → O.recv (q.channels id) ≡ waiting
      → O.recv ((run O U (append before (decided id d ∷ after)) q).channels id)
        ≡ received (outcome_of d)
  run_decided id d before after q hb ha asked waits =
      let q1 : ApprovalQueue V O = run O U before q in
      let (kept, same_channel) = run_other id before q hb in
      let (_, last) = run_gone id after (resolve O id d q1) ha (resolve-pending id d q1) in
      rw
        (
          run-append before (decided id d ∷ after) q,
          run-decided id d after q1 (λ e. asked (sym kept ∙ e)),
          last,
          resolve-channel id d q1,
        )
        (O.recv-send (outcome_of d) (q1.channels id) (ap O.recv same_channel ∙ waits))
