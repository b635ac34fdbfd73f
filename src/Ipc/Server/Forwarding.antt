-- ===== src/Ipc/Server/Forwarding.antt =====
-- The bytes that the forwarding task of a connection writes are the frames that are promised of it.
use mathlib.Core.Bool.{true≢false}
use mail_mcp.Base.{
  ◌≡◌, refl, sym, ap, ◌∙◌, Bool, true, false, String, Option, none, some, List, [], ◌∷◌, ◌++◌, any,
  ◌==◌, arith, subst, Bool-cases, inl, inr,
}
use mail_mcp.Base.State.{M}
use mail_mcp.Json.{Json}
use mail_mcp.Accounts.{Codec}
use mail_mcp.Ipc.Messages.{Notification}
use mail_mcp.Ipc.Server.{
  Wire, Socket, method_of, notification_value, notification_to_method_and_params, Conn, task, tasks,
  forwarded, forward,
}
use mail_mcp.Ipc.Server.Frames.{Client, lose, wants, task_frames}
use mail_mcp.Ipc.Server.Writes.{
  client_of, IsSound, Delivers, write_frame-eq, delivered, untouched, both-Deliver, feed_of,
  reading_of,
}

module _ (J : Json) (C : Codec) (R : Wire J C) (K : Socket) {Σ : Type 0}
    (handle : String → J.Value → M Σ J.Value) where
  wants-feed_of :
      (started : Bool) (events : List String) (method : String)
      → wants (feed_of J C R K handle started false events) method ≡ false
  unfolding wants
  wants-feed_of false events method = refl
  wants-feed_of true events method = refl

  pub Delivers-eq :
      (c c' d : Conn K.Tx Σ) (p q : List J.Value × Client Σ)
      → c' ≡ d
      → p ≡ q
      → Delivers J C R K handle c d q
      → Delivers J C R K handle c c' p
  Delivers-eq c c' d p q e f h =
      subst (λ x. Delivers J C R K handle c x p) (sym e)
        (subst (Delivers J C R K handle c d) (sym f) h)

  received-Delivers :
      (n : Notification J.Value C) (c : Conn K.Tx Σ)
      → IsSound J C R K handle c
      → Delivers J C R K handle c
          (task J C R K handle (some n) c)
          (task_frames J C R handle (some n ∷ []) (client_of J C R K handle c))
  unfolding task forward forwarded task_frames wants client_of notification_value
      notification_to_method_and_params
  received-Delivers n c h = elim (Bool-cases c.forwarding) [
    | inr idle ↦
        Delivers-eq c _ c _ ([], client_of J C R K handle c) (ground (arith, idle))
          (ground (arith, idle, wants-feed_of c.fanout_started c.subscribed (method_of n)))
          (untouched J C R K handle c c (client_of J C R K handle c) h.opened h.started refl refl)
    | inl running ↦ elim (Bool-cases c.fanout_started) [
      | inr unstarted ↦ elim (true≢false (sym running ∙ h.started unstarted)) [ ]
      | inl started ↦ elim (Bool-cases (any (λ m. m == method_of n) c.subscribed)) [
        | inr unwanted ↦
            Delivers-eq c _ c _ ([], client_of J C R K handle c) (ground (arith, running, unwanted))
              (ground (arith, started, running, unwanted))
              (untouched J C R K handle c c (client_of J C R K handle c) h.opened h.started refl
                refl)
        | inl wanted ↦
            let v = notification_value J C R n in
            Delivers-eq c _
              (record c { writer = (K.write_all "\n" (K.write_all (R.encode v) c.writer).1).1 }) _
              (v ∷ [], client_of J C R K handle c)
              (ground (arith, running, wanted, write_frame-eq J C R K handle v c.writer h.opened))
              (ground (arith, started, running, wanted))
              (delivered J C R K handle v c
                (record c { writer = (K.write_all "\n" (K.write_all (R.encode v) c.writer).1).1 })
                (client_of J C R K handle c) h.opened h.started refl refl)
      ]
    ]
  ]

  pub feed_of-lose :
      (started forwarding : Bool) (events : List String)
      → feed_of J C R K handle started false events
        ≡ lose (feed_of J C R K handle started forwarding events)
  unfolding lose
  feed_of-lose false forwarding events = refl
  feed_of-lose true true events = refl
  feed_of-lose true false events = refl

  -- An event that writes nothing.
  pub silent :
      (c d : Conn K.Tx Σ) (after : Client Σ)
      → IsSound J C R K handle c
      → d.writer ≡ c.writer
      → (d.fanout_started ≡ false → d.forwarding ≡ false)
      → client_of J C R K handle d ≡ after
      → Delivers J C R K handle c d ([], after)
  silent c d after h idle started same =
      untouched J C R K handle c d after h.opened started idle same

  pub task-Delivers :
      (r : Option (Notification J.Value C)) (c : Conn K.Tx Σ)
      → IsSound J C R K handle c
      → Delivers J C R K handle c
          (task J C R K handle r c)
          (task_frames J C R handle (r ∷ []) (client_of J C R K handle c))
  unfolding task task_frames client_of lose
  task-Delivers (some n) c h = received-Delivers n c h
  task-Delivers none c h =
      silent c (record c { forwarding = false }) _ h refl (λ e. refl)
        (ap
          (λ f. record {
            feed = f;
            reading = reading_of J C R K handle c.ended;
            backend = c.backend;
          })
          (feed_of-lose c.fanout_started c.forwarding c.subscribed))

  task_frames-cons :
      (r : Option (Notification J.Value C)) (rs : List (Option (Notification J.Value C)))
      (c : Client Σ)
      → let first = task_frames J C R handle (r ∷ []) c in
        let later = task_frames J C R handle rs first.1 in
        task_frames J C R handle (r ∷ rs) c ≡ (first.0 ++ later.0, later.1)
  unfolding task_frames
  task_frames-cons none rs c = refl
  task_frames-cons (some n) rs c = elim (Bool-cases (wants c.feed (method_of n))) [
    | inl wanted ↦ rw wanted refl
    | inr unwanted ↦ rw unwanted refl
  ]

  pub tasks-Delivers :
      (rs : List (Option (Notification J.Value C))) (c : Conn K.Tx Σ)
      → IsSound J C R K handle c
      → Delivers J C R K handle c
          (tasks J C R K handle rs c)
          (task_frames J C R handle rs (client_of J C R K handle c))
  unfolding tasks task_frames
  tasks-Delivers [] c h = silent c c (client_of J C R K handle c) h refl h.started refl
  tasks-Delivers (r ∷ rs) c h =
      let first = task-Delivers r c h in
      let x = task_frames J C R handle (r ∷ []) (client_of J C R K handle c) in
      let c' = task J C R K handle r c in
      let later =
        subst
          (λ v.
            Delivers J C R K handle c' (tasks J C R K handle rs c') (task_frames J C R handle rs v))
          first.state (tasks-Delivers rs c' first.sound) in
      let y = task_frames J C R handle rs x.1 in
      Delivers-eq c _ (tasks J C R K handle rs c') _ (x.0 ++ y.0, y.1) refl
        (task_frames-cons r rs (client_of J C R K handle c))
        (both-Deliver J C R K handle c c' (tasks J C R K handle rs c') x.0 y.0 x.1 y.1 first later)
