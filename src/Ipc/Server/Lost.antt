-- ===== src/Ipc/Server/Lost.antt =====
-- A forwarding task that failed to receive.
use Prim.Native.String.{◌++◌ as concat}
use mail_mcp.Base.{
  ◌≡◌, refl, sym, ap, ◌∙◌, true, false, String, Option, none, some, List, [], ◌∷◌, ◌++◌, Bool,
  Bool-cases, if◌then◌else◌, Parsed-cases, inl, inr, arith,
}
use mail_mcp.Base.State.{M}
use mail_mcp.Base.Texts.{trim}
use mail_mcp.Json.{Json}
use mail_mcp.Accounts.{Codec}
use mail_mcp.Ipc.Server.{
  JsonRpcRequest, Wire, Socket, Conn, Event, line, read_failed, end_of_input, received,
  receive_failed, method_of, serve_conn,
}
use mail_mcp.Ipc.Messages.{Notification}
use mail_mcp.Ipc.Server.Frames.{
  dead, Client, resubscribe, lose, wants, failure, request_frame, task_frames, then_frame,
  line_frames, frame, frames, lines,
}
use mail_mcp.Ipc.Server.Writes.{client_of, feed_of, IsSound}
use mail_mcp.Ipc.Server.Forwarding.{feed_of-lose}
use mail_mcp.Ipc.Server.Delivery.{serve_conn-frames}

-- What the task receives, and the events, without the notifications.
abbrev pub only_failures : {A : Type 0} → List (Option A) → List (Option A)
only_failures [] = []
only_failures (some n ∷ rs) = only_failures rs
only_failures (none ∷ rs) = none ∷ only_failures rs

abbrev pub without_notifications : {V : Type 0} {C : Codec} → List (Event V C) → List (Event V C)
without_notifications [] = []
without_notifications (received n ∷ es) = without_notifications es
without_notifications (line text meanwhile ∷ es) =
    line text (only_failures meanwhile) ∷ without_notifications es
without_notifications (e ∷ es) = e ∷ without_notifications es

module _ (J : Json) (C : Codec) (R : Wire J C) {Σ : Type 0}
    (handle : String → J.Value → M Σ J.Value) where
  request_frame-dead :
      (req : JsonRpcRequest J.Value) (c : Client Σ)
      → c.feed ≡ dead
      → (request_frame J C R handle req c).1.feed ≡ dead
  unfolding request_frame resubscribe
  request_frame-dead req c d = ground (arith, d)

  task_frames-dead :
      (rs : List (Option (Notification J.Value C))) (c : Client Σ)
      → c.feed ≡ dead
      → (task_frames J C R handle rs c ≡ task_frames J C R handle (only_failures rs) c)
        × ((task_frames J C R handle rs c).1.feed ≡ dead)
  unfolding task_frames wants lose
  task_frames-dead [] c d = (refl, d)
  task_frames-dead (none ∷ rs) c d =
      task_frames-dead rs (record c { feed = lose c.feed }) (ap lose d)
  task_frames-dead (some n ∷ rs) c d =
      let (same, later) = task_frames-dead rs c d in
      (rw (ap (λ f. wants f (method_of n)) d) same, later)

  then_frame-dead :
      (rs : List (Option (Notification J.Value C))) (c : Client Σ) (v : J.Value)
      → c.feed ≡ dead
      → (then_frame J C R handle (task_frames J C R handle rs c) v
          ≡ then_frame J C R handle (task_frames J C R handle (only_failures rs) c) v)
        × ((then_frame J C R handle (task_frames J C R handle rs c) v).1.feed ≡ dead)
  then_frame-dead rs c v d =
      let (same, later) = task_frames-dead rs c d in
      (ap (λ p. then_frame J C R handle p v) same, later)

  line_frames-dead :
      (text : String) (rs : List (Option (Notification J.Value C))) (c : Client Σ)
      → c.feed ≡ dead
      → (line_frames J C R handle text rs c ≡ line_frames J C R handle text (only_failures rs) c)
        × ((line_frames J C R handle text rs c).1.feed ≡ dead)
  unfolding line_frames
  line_frames-dead text rs c d = elim (Parsed-cases (R.decode (trim text))) [
    | inr (e, bad) ↦
        rw (bad, line_frames)
          (then_frame-dead rs c (failure J C R handle J.null 32700 (concat "parse: " e)) d)
    | inl (req, read) ↦
        rw (read, line_frames)
          (then_frame-dead rs (request_frame J C R handle req c).1
            (request_frame J C R handle req c).0 (request_frame-dead req c d))
  ]

  chosen :
      (text : String) (rs : List (Option (Notification J.Value C))) (c : Client Σ) (b : Bool)
      → c.reading ≡ b
      → frame J C R handle (line text rs) c
        ≡ (if b then line_frames J C R handle text rs c else task_frames J C R handle rs c)
  unfolding frame
  chosen text rs c b e =
      ap (λ x. if x then line_frames J C R handle text rs c else task_frames J C R handle rs c) e

  line-dead :
      (text : String) (rs : List (Option (Notification J.Value C))) (c : Client Σ)
      → c.feed ≡ dead
      → (frame J C R handle (line text rs) c ≡ frame J C R handle (line text (only_failures rs)) c)
        × ((frame J C R handle (line text rs) c).1.feed ≡ dead)
  unfolding frame
  line-dead text rs c d = elim (Bool-cases c.reading) [
    | inl reading ↦
        let (same, later) = line_frames-dead text rs c d in
        (
          chosen text rs c true reading
              ∙ (same ∙ sym (chosen text (only_failures rs) c true reading)),
          ap (λ p. p.1.feed) (chosen text rs c true reading) ∙ later,
        )
    | inr ended ↦
        let (same, later) = task_frames-dead rs c d in
        (
          chosen text rs c false ended
              ∙ (same ∙ sym (chosen text (only_failures rs) c false ended)),
          ap (λ p. p.1.feed) (chosen text rs c false ended) ∙ later,
        )
  ]

  frames-dead :
      (es : List (Event J.Value C)) (c : Client Σ)
      → c.feed ≡ dead
      → frames J C R handle es c ≡ frames J C R handle (without_notifications es) c
  unfolding frames frame task_frames wants lose
  frames-dead [] c d = refl
  frames-dead (received n ∷ es) c d = rw (ap (λ f. wants f (method_of n)) d) (frames-dead es c d)
  frames-dead (receive_failed ∷ es) c d =
      frames-dead es (record c { feed = lose c.feed }) (ap lose d)
  frames-dead (read_failed e ∷ es) c d = frames-dead es (record c { reading = false }) d
  frames-dead (end_of_input ∷ es) c d = frames-dead es (record c { reading = false }) d
  frames-dead (line text rs ∷ es) c d =
      let (same, later) = line-dead text rs c d in
      ap (λ vs. (frame J C R handle (line text rs) c).0 ++ vs)
        (frames-dead es (frame J C R handle (line text rs) c).1 later)
      ∙ ap (λ p. p.0 ++ frames J C R handle (without_notifications es) p.1) same

  -- Once the forwarding task of a subscribed client has failed to receive, as it does when it falls
  -- behind, no notification reaches the client again: its connection writes what it would write had
  -- none been received, whatever the client subscribes to afterwards.
  pub serve_conn-lost :
      (K : Socket) (es : List (Event J.Value C)) (c : Conn K.Tx Σ)
      → IsSound J C R K handle c
      → c.fanout_started ≡ true
      → K.sent (serve_conn J C R K handle (receive_failed ∷ es) c).writer
        ≡ K.sent (serve_conn J C R K handle (receive_failed ∷ without_notifications es) c).writer
  unfolding frames frame task_frames client_of lose
  serve_conn-lost K es c h started =
      serve_conn-frames J C R K handle (receive_failed ∷ es) c h
      ∙ (ap (λ fs. concat (K.sent c.writer) (lines J C R handle fs))
            (frames-dead es (frame J C R handle receive_failed (client_of J C R K handle c)).1 (
              sym (feed_of-lose J C R K handle c.fanout_started c.forwarding c.subscribed)
              ∙ ap (λ b. feed_of J C R K handle b false c.subscribed) started))
          ∙ sym (serve_conn-frames J C R K handle (receive_failed ∷ without_notifications es) c h))
