-- ===== src/Ipc/Server/Delivery.antt =====
-- The bytes of a connection are the frames that it promises.
use Prim.Native.String.{◌++◌ as concat}
use text.Mathlib.TextLemmas.{append_assoc, append-nil}
use mail_mcp.Base.{
  ◌≡◌, refl, sym, ap, ◌∙◌, Bool, true, false, String, Option, none, some, List, [], ◌∷◌, ◌==◌,
  if◌then◌else◌, Result, ok, err, unwrap_or, arith, subst, Bool-cases, Option-cases, Parsed-cases,
  inl, inr,
}
use mail_mcp.Base.State.{M}
use mail_mcp.Base.Texts.{trim}
use mail_mcp.Json.{Json}
use mail_mcp.Accounts.{Codec}
use mail_mcp.Ipc.Messages.{Notification}
use mail_mcp.Ipc.Server.{
  JsonRpcRequest, Wire, Socket, Event, line, read_failed, end_of_input, received, receive_failed,
  response_value, result_value, error_value, parse_error, events_of, subscribed_value, Conn,
  write_ignoring, subscribe, answer, reply, tasks, wrote_error, while_answered, serve_line, step,
  serve_conn,
}
use mail_mcp.Ipc.Server.Frames.{
  Client, resubscribe, failure, response, request_frame, task_frames, then_frame, line_frames,
  frame, frames, lines,
}
use mail_mcp.Ipc.Server.Writes.{
  client_of, IsSound, Delivers, delivered, reply-Delivers, lines-append, both-Deliver, feed_of,
  reading_of,
}
use mail_mcp.Ipc.Server.Forwarding.{Delivers-eq, silent, task-Delivers, tasks-Delivers}

module _ (J : Json) (C : Codec) (R : Wire J C) (K : Socket) {Σ : Type 0}
    (handle : String → J.Value → M Σ J.Value) where
  feed_of-resubscribe :
      (started forwarding : Bool) (before events : List String)
      → feed_of J C R K handle true (if started then forwarding else true) events
        ≡ resubscribe events (feed_of J C R K handle started forwarding before)
  unfolding resubscribe
  feed_of-resubscribe false forwarding before events = refl
  feed_of-resubscribe true true before events = refl
  feed_of-resubscribe true false before events = refl

  -- The response to a request, and what the request changes before it is written.
  answer-Delivers :
      (req : JsonRpcRequest J.Value) (c : Conn K.Tx Σ)
      → IsSound J C R K handle c
      → Delivers J C R K handle c
          (answer J C R K handle req c).1
          ([], (request_frame J C R handle req (client_of J C R K handle c)).1)
        × ((request_frame J C R handle req (client_of J C R K handle c)).0
            ≡ response J C R handle req.id (answer J C R K handle req c).0)
  unfolding answer subscribe request_frame client_of resubscribe subscribed_value
  answer-Delivers req c h = elim (Bool-cases (req.method == "subscribe")) [
    | inl subscribes ↦ rw subscribes (
      silent J C R K handle c (subscribe J C R K handle (events_of J C R req.params) c) _ h refl
          (λ e. cc)
          (ap
            (λ f. record {
              feed = f;
              reading = reading_of J C R K handle c.ended;
              backend = c.backend;
            })
            (feed_of-resubscribe c.fanout_started c.forwarding c.subscribed
              (events_of J C R req.params))),
      refl,
    )
    | inr calls ↦ rw calls (
      silent J C R K handle c
          (record c { backend = (handle req.method (unwrap_or req.params J.null) c.backend).1 }) _ h
          refl h.started refl,
      refl,
    )
  ]

  -- A frame that is written after others.
  after-Delivers :
      (a b c : Conn K.Tx Σ) (p : List J.Value × Client Σ) (v : J.Value)
      → Delivers J C R K handle a b p
      → Delivers J C R K handle b c (v ∷ [], client_of J C R K handle b)
      → Delivers J C R K handle a c (then_frame J C R handle p v)
  after-Delivers a b c p v h k =
      both-Deliver J C R K handle a b c p.0 (v ∷ []) p.1 p.1 h
        (subst (λ x. Delivers J C R K handle b c (v ∷ [], x)) h.state k)

  request-Delivers :
      (req : JsonRpcRequest J.Value) (meanwhile : List (Option (Notification J.Value C)))
      (c : Conn K.Tx Σ)
      → IsSound J C R K handle c
      → let x = request_frame J C R handle req (client_of J C R K handle c) in
        Delivers J C R K handle c
          (reply J C R K handle req.id
            (while_answered J C R K handle meanwhile (answer J C R K handle req c)))
          (then_frame J C R handle (task_frames J C R handle meanwhile x.1) x.0)
  request-Delivers req meanwhile c h =
      let (changed, same) = answer-Delivers req c h in
      let x = request_frame J C R handle req (client_of J C R K handle c) in
      let a = answer J C R K handle req c in
      let c' = tasks J C R K handle meanwhile a.1 in
      let during =
        subst (λ v. Delivers J C R K handle a.1 c' (task_frames J C R handle meanwhile v))
          changed.state (tasks-Delivers J C R K handle meanwhile a.1 changed.sound) in
      let fs = task_frames J C R handle meanwhile x.1 in
      let written = both-Deliver J C R K handle c a.1 c' [] fs.0 x.1 fs.1 changed during in
      subst
        (λ v.
          Delivers J C R K handle c
            (reply J C R K handle req.id (while_answered J C R K handle meanwhile a))
            (then_frame J C R handle fs v))
        (sym same)
        (after-Delivers c c' (reply J C R K handle req.id (a.0, c')) fs
          (response J C R handle req.id a.0) written
          (reply-Delivers J C R K handle req.id a.0 c' written.sound))

  error-Delivers :
      (e : String) (c : Conn K.Tx Σ)
      → IsSound J C R K handle c
      → Delivers J C R K handle c
          (wrote_error J C R K handle e c)
          (failure J C R handle J.null 32700 (concat "parse: " e) ∷ [], client_of J C R K handle c)
  unfolding write_ignoring parse_error response_value result_value error_value client_of
  error-Delivers e c h =
      delivered J C R K handle (response_value J C R (parse_error J C R e)) c
        (wrote_error J C R K handle e c) (client_of J C R K handle c) h.opened h.started refl refl

  line-Delivers :
      (text : String) (meanwhile : List (Option (Notification J.Value C))) (c : Conn K.Tx Σ)
      → IsSound J C R K handle c
      → Delivers J C R K handle c
          (serve_line J C R K handle text meanwhile c)
          (line_frames J C R handle text meanwhile (client_of J C R K handle c))
  unfolding serve_line line_frames
  line-Delivers text meanwhile c h = elim (Parsed-cases (R.decode (trim text))) [
    | inr (e, bad) ↦
        let during = tasks-Delivers J C R K handle meanwhile c h in
        rw (bad, line_frames, serve_line)
          (after-Delivers c (tasks J C R K handle meanwhile c) _ _ _ during
            (error-Delivers e (tasks J C R K handle meanwhile c) during.sound))
    | inl (req, read) ↦ rw (read, line_frames, serve_line) (request-Delivers req meanwhile c h)
  ]

  -- The end of `serve_conn`.
  closing :
      (r : Result (Unit {0})) (c d : Conn K.Tx Σ)
      → IsSound J C R K handle c
      → (c.ended ≡ none → d ≡ record c { ended = some r })
      → ((before : Result (Unit {0})) → c.ended ≡ some before → d ≡ c)
      → Delivers J C R K handle c d ([], record (client_of J C R K handle c) { reading = false })
  unfolding client_of
  closing r c d h ends over = elim (Option-cases c.ended) [
    | inl reading ↦
        Delivers-eq J C R K handle c d (record c { ended = some r }) _ _ (ends reading) refl
          (silent J C R K handle c (record c { ended = some r })
            (record (client_of J C R K handle c) { reading = false }) h refl h.started refl)
    | inr (before, done) ↦ Delivers-eq J C R K handle c d c _ _ (over before done) refl (
        silent J C R K handle c c (record (client_of J C R K handle c) { reading = false }) h refl
          h.started (ground (arith, done)))
  ]

  step-Delivers :
      (e : Event J.Value C) (c : Conn K.Tx Σ)
      → IsSound J C R K handle c
      → Delivers J C R K handle c
          (step J C R K handle e c)
          (frame J C R handle e (client_of J C R K handle c))
  unfolding step frame client_of
  step-Delivers (received n) c h = task-Delivers J C R K handle (some n) c h
  step-Delivers receive_failed c h = task-Delivers J C R K handle none c h
  step-Delivers (line text meanwhile) c h = elim (Option-cases c.ended) [
    | inl reading ↦
        Delivers-eq J C R K handle c _ (serve_line J C R K handle text meanwhile c) _
          (line_frames J C R handle text meanwhile (client_of J C R K handle c))
          (ground (arith, reading)) (ground (arith, reading)) (line-Delivers text meanwhile c h)
    | inr (r, over) ↦
        Delivers-eq J C R K handle c _ (tasks J C R K handle meanwhile c) _
          (task_frames J C R handle meanwhile (client_of J C R K handle c)) (ground (arith, over))
          (ground (arith, over)) (tasks-Delivers J C R K handle meanwhile c h)
  ]
  step-Delivers (read_failed e) c h =
      closing (err e) c (step J C R K handle (read_failed e) c) h (λ e. ground (arith, e))
        (λ r e. ground (arith, e))
  step-Delivers end_of_input c h =
      closing (ok tt) c (step J C R K handle end_of_input c) h (λ e. ground (arith, e))
        (λ r e. ground (arith, e))

  pub serve_conn-frames :
      (es : List (Event J.Value C)) (c : Conn K.Tx Σ)
      → IsSound J C R K handle c
      → K.sent (serve_conn J C R K handle es c).writer
        ≡ concat
            (K.sent c.writer)
            (lines J C R handle (frames J C R handle es (client_of J C R K handle c)))
  unfolding serve_conn frames lines
  serve_conn-frames [] c h = sym (append-nil (K.sent c.writer))
  serve_conn-frames (e ∷ es) c h =
      let s = step-Delivers e c h in
      let c' = step J C R K handle e c in
      let x = frame J C R handle e (client_of J C R K handle c) in
      let rest = frames J C R handle es x.1 in
      serve_conn-frames es c' s.sound
      ∙ (ap (λ v. concat (K.sent c'.writer) (lines J C R handle (frames J C R handle es v))) s.state
          ∙ (ap (λ b. concat b (lines J C R handle rest)) s.bytes
              ∙ (append_assoc (K.sent c.writer) (lines J C R handle x.0) (lines J C R handle rest)
                  ∙ ap (concat (K.sent c.writer)) (sym (lines-append J C R K handle x.0 rest)))))
