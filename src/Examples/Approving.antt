-- ===== src/Examples/Approving.antt =====
-- Two approvals in one queue.
use mail_mcp.Base.{ℕ, ◌≡◌, refl, List, [], ◌∷◌, ok, arith, IsIn, nat_key}
use mail_mcp.Base.Dict.{lookup, insert, remove}
use mail_mcp.Permissions.Category.{send}
use mail_mcp.Approvals.{
  ApprovalRequest, ApprovalQueue, Action, enqueued, decided, cleaned, approve, reject, approved,
  new, enqueue, resolve, decide, clean, act, run, settle, await_outcome, outcome_of,
}
use mail_mcp.Approvals.Consent.{new-IsOpen, await-consent}
use mail_mcp.Approvals.Resolution.{await-decided}
use mail_mcp.Examples.Instances.{channel, ulid}

queue : Unit {0}
unfolding new enqueue resolve decide clean act run settle await_outcome outcome_of lookup insert
    remove nat_key
queue = tt

abbrev request : ApprovalRequest ℕ
request = record { account = 1; category = send; summary = "send_message"; details = 0 }

-- Another call asks and is rejected while call 1 waits and is approved.
abbrev history : List (Action ℕ)
history = enqueued 2 5 request ∷ decided 2 reject ∷ decided 1 approve ∷ []

approved_in_time :
    (await_outcome channel ulid 1 history [] (enqueue channel 1 0 request (new channel))).0
    ≡ ok approved
unfolding queue
approved_in_time = refl

await-consent_example : IsIn (decided 1 approve) history
await-consent_example =
    await-consent channel ulid 1 0 request history [] (new channel) (new-IsOpen channel)
      approved_in_time

abbrev asked : ApprovalQueue ℕ channel
asked = enqueue channel 1 0 request (enqueue channel 2 0 request (new channel))

await-decided_example :
    (await_outcome channel ulid 1 history
      (cleaned 2 ∷ [])
      (enqueue channel 1 0 request (new channel))).0
    ≡ ok approved
unfolding outcome_of
await-decided_example =
    await-decided channel ulid 1 0 request approve (enqueued 2 5 request ∷ decided 2 reject ∷ []) []
      (cleaned 2 ∷ []) (new channel) (omega arith) tt
