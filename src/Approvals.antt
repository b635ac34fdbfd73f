-- ===== src/Approvals.antt =====
-- crates/mail-mcp-core/src/permissions/approvals.rs: the queue of pending approvals and the future
-- that waits for a decision.
--
-- The mutex makes each operation on the queue one atomic step. What other tasks do while a future
-- waits is an explicit list of such steps (`Action`). `ApprovalId::new()` and `Utc::now()` are
-- arguments. The channel of tokio that a sender and a receiver share is the interface `Oneshot`;
-- the queue keeps the channel that `enqueue` makes for an approval under the approval's id. The
-- broadcast channel of events is the list of what was sent on it, newest first.
pub mod Consent
pub mod Steps
pub mod Resolution
use Prim.Native.String.{◌++◌}
use mail_mcp.Base.{
  ℕ, ◌≡◌, String, Option, none, some, List, [], ◌∷◌, map, Error, Result, ok, err, not_found,
  internal, if◌then◌else◌, same, nat_key,
}
use mail_mcp.Base.Dict.{Dict, lookup, insert, remove, values}
use mail_mcp.Base.Ids.{AccountId, ApprovalId, Ulid}
use mail_mcp.Permissions.Category.{Category}

pub record ApprovalRequest (V : Type 0) : Type 0 where
  pub account : AccountId
  pub category : Category
  pub summary : String
  pub details : V

pub record PendingApproval (V : Type 0) : Type 0 where
  pub id : ApprovalId
  pub request : ApprovalRequest V
  pub created_at : ℕ

pub data ApprovalDecision : Type 0 where
  approve reject : ApprovalDecision

pub data ApprovalOutcome : Type 0 where
  approved rejected timeout : ApprovalOutcome

pub data ApprovalEvent (V : Type 0) : Type 0 where
  requested : PendingApproval V → ApprovalEvent V
  resolved : ApprovalId → ApprovalDecision → ApprovalEvent V

-- What a receiver sees of its channel.
pub data Recv : Type 0 where
  waiting dropped : Recv
  received : ApprovalOutcome → Recv

-- `tokio::sync::oneshot::channel::<ApprovalOutcome>()`, as far as it is documented: a value that is
-- sent is received, and a sender that goes away unused is noticed.
pub record Oneshot : Type 1 where
  pub Channel : Type 0
  pub fresh : Channel
  pub send : ApprovalOutcome → Channel → Channel
  pub drop : Channel → Channel
  pub recv : Channel → Recv
  pub recv-fresh : recv fresh ≡ waiting
  pub recv-send :
      (o : ApprovalOutcome) (c : Channel) → recv c ≡ waiting → recv (send o c) ≡ received o
  pub recv-drop : (c : Channel) → recv c ≡ waiting → recv (drop c) ≡ dropped

pub record ApprovalQueue (V : Type 0) (O : Oneshot) : Type 0 where
  pub pending : Dict ApprovalId (PendingApproval V)
  pub channels : ApprovalId → O.Channel
  pub events : List (ApprovalEvent V)

abbrev pub put_channel {ℓ} : {C : Type ℓ} → ApprovalId → C → (ApprovalId → C) → ApprovalId → C
put_channel id c channels j = if same j id then c else channels j

-- The match on the decision in `decide`.
unfoldable pub outcome_of : ApprovalDecision → ApprovalOutcome
outcome_of approve = approved
outcome_of reject = rejected

pub data Action (V : Type 0) : Type 0 where
  enqueued : ApprovalId → ℕ → ApprovalRequest V → Action V
  decided : ApprovalId → ApprovalDecision → Action V
  cleaned : ApprovalId → Action V

module _ {V : Type 0} (O : Oneshot) where
  -- `ApprovalQueue::new`
  unfoldable pub new : ApprovalQueue V O
  new = record { pending = []; channels = λ _. O.fresh; events = [] }

  -- `ApprovalQueue::enqueue`; the future that it returns is known by the approval's id.
  unfoldable pub enqueue :
      ApprovalId → ℕ → ApprovalRequest V → ApprovalQueue V O → ApprovalQueue V O
  enqueue id now request q =
      let p : PendingApproval V = record { id = id; request = request; created_at = now } in
      record {
        pending = insert id p q.pending;
        channels = put_channel id O.fresh q.channels;
        events = requested p ∷ q.events;
      }

  -- The part of `decide` that runs once the entry is taken out of the map.
  unfoldable pub resolve : ApprovalId → ApprovalDecision → ApprovalQueue V O → ApprovalQueue V O
  resolve id decision q = record {
    pending = remove id q.pending;
    channels = put_channel id (O.send (outcome_of decision) (q.channels id)) q.channels;
    events = resolved id decision ∷ q.events;
  }

  -- `ApprovalQueue::decide`
  unfoldable pub decide :
      Ulid
      → ApprovalId
      → ApprovalDecision
      → ApprovalQueue V O
      → Result (Unit {0}) × ApprovalQueue V O
  unfolding resolve
  decide U id decision q = elim (lookup id q.pending) [
    | none ↦ (err (not_found ("approval " ++ U.to_string id)), q)
    | some _ ↦ (ok tt, resolve id decision q)
  ]

  -- `ApprovalQueue::list`
  unfoldable pub list : ApprovalQueue V O → List (PendingApproval V)
  list q = values q.pending

  -- The removal on timeout in `await_outcome`, which drops the sender.
  unfoldable pub clean : ApprovalId → ApprovalQueue V O → ApprovalQueue V O
  clean id q = elim (lookup id q.pending) [
    | none ↦ q
    | some _ ↦ record q {
      pending = remove id q.pending;
      channels = put_channel id (O.drop (q.channels id)) q.channels;
    }
  ]

  module _ (U : Ulid) where
    unfoldable pub act : Action V → ApprovalQueue V O → ApprovalQueue V O
    act (enqueued id now request) q = enqueue id now request q
    act (decided id decision) q = (decide U id decision q).1
    act (cleaned id) q = clean id q

    unfoldable pub run : List (Action V) → ApprovalQueue V O → ApprovalQueue V O
    run [] q = q
    run (a ∷ actions) q = run actions (act a q)

    -- What `await_outcome` makes of its channel when the timer has fired or a value is there.
    -- `late` are the steps of other tasks between the timer and the clean-up.
    unfoldable pub settle :
        ApprovalId
        → List (Action V)
        → Recv
        → ApprovalQueue V O
        → Result ApprovalOutcome × ApprovalQueue V O
    settle id late (received outcome) q = (ok outcome, q)
    settle id late dropped q = (err (internal "approval channel dropped"), q)
    settle id late waiting q = (ok timeout, clean id (run late q))

    -- `ApprovalFuture::await_outcome`. `early` are the steps of other tasks up to the moment when
    -- the future is next polled: with the channel resolved, or with the timer elapsed.
    unfoldable pub await_outcome :
        ApprovalId
        → (early late : List (Action V)) → ApprovalQueue V O
        → Result ApprovalOutcome × ApprovalQueue V O
    unfolding settle
    await_outcome id early late q =
        let q' = run early q in settle id late (O.recv (q'.channels id)) q'
