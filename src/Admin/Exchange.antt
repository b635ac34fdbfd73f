-- ===== src/Admin/Exchange.antt =====
-- A call of the client and the connection of the server that answers it.
use Prim.Native.String.{◌++◌ as concat}
use text.Mathlib.TextLemmas.{nil-append, cons-append, append_assoc}
use mail_mcp.Base.{
  ℕ, ◌+◌, ◌%◌, ◌^◌, ◌≡◌, ◌≢◌, refl, ap, ◌∙◌, Bool, true, false, String, Option, none, some, List,
  [], ◌∷◌, ◌++◌, map, Result, ok, err, display, if◌then◌else◌, ◌==◌, same, nat_key, arith, All,
  Bool-cases, inl, inr, Result-cases, Result-cases,
}
use mail_mcp.Base.State.{M}
use mail_mcp.Base.Texts.{split, split_once}
use mail_mcp.Base.Texts.Splitting.{split-append, split-cons}
use mail_mcp.Json.{Json}
use mail_mcp.Accounts.{Codec}
use mail_mcp.Ipc.Messages.{Notification}
use mail_mcp.Ipc.Server.{
  Wire, Socket, Event, line, read_failed, end_of_input, received, receive_failed, Conn, serve_conn,
  error_code, method_of,
}
use mail_mcp.Ipc.Server.Frames.{
  Client, frames, frame, announcement, params_of, response, task_frames, then_frame, line_frames,
  request_frame, lines, wants, lose,
}
use mail_mcp.Ipc.Server.Writes.{client_of, IsSound, reading_of}
use mail_mcp.Ipc.Server.Delivery.{serve_conn-frames}
use mail_mcp.Admin.Client.{
  Anyhow, failed, done, Replies, is_reply, verdict, await_response, request_line, after_write, call,
}
use mail_mcp.Admin.Agreement.{drop_empty_end, read_lines, negated, Agree}

newline : same {K = ℕ} 10 10 ≡ true
unfolding nat_key
newline = refl

append_assoc_list : {A : Type 0} (xs ys zs : List A) → (xs ++ ys) ++ zs ≡ xs ++ (ys ++ zs)
append_assoc_list [] ys zs = refl
append_assoc_list (x ∷ xs) ys zs = ap (λ l. x ∷ l) (append_assoc_list xs ys zs)

module _ (J : Json) (C : Codec) (W : Wire J C) (R : Replies J.Value)
    (is_null : J.Value → Bool) where
  -- What a client makes of what the handler ended with.
  unfoldable pub outcome : Result J.Value → Anyhow J.Value
  outcome (ok v) = if is_null v then failed "response missing result" else done v
  outcome (err e) = failed (
      concat "daemon error ("
        (concat (R.decimal (negated (error_code e))) (concat "): " (display e))))

  -- What happens on the server while one request is under way: only notifications.
  abbrev pub IsQuiet : Event J.Value C → Type 0
  IsQuiet (line text meanwhile) = ⊥
  IsQuiet (read_failed e) = ⊥
  IsQuiet end_of_input = ⊥
  IsQuiet (received n) = Unit
  IsQuiet receive_failed = Unit

  module _ {Σ : Type 0} (handle : String → J.Value → M Σ J.Value) (id : ℕ) (method : String)
      (params : J.Value) (r : Result J.Value) (A : Agree J C W R is_null id method params r) where
    abbrev texts : List J.Value → List (Anyhow String)
    texts vs = map (λ v. done (W.encode v)) vs

    drop_empty_end-cons :
        (w : String) (ws : List String) → ws ≢ [] → drop_empty_end (w ∷ ws) ≡ w ∷ drop_empty_end ws
    unfolding drop_empty_end
    drop_empty_end-cons w [] h = absurd (h refl)
    drop_empty_end-cons w (v ∷ ws) h = refl

    split-ne-nil : (s : String) → split 10 s ≢ []
    split-ne-nil s h = let (w, ws, e) = split-cons 10 s in cc (h, e)

    split-line :
        (s rest : String)
        → split_once 10 s ≡ none
        → split 10 (concat (concat s "\n") rest) ≡ s ∷ split 10 rest
    split-line s rest h =
        ap (split 10) (append_assoc s "\n" rest ∙ ap (concat s) (cons-append _ "" rest))
        ∙ (split-append 10 s (concat "" rest) _ h (newline)
            ∙ ap (λ t. s ∷ split 10 t) (nil-append rest))

    read_lines-lines : (vs : List J.Value) → read_lines (lines J C W handle vs) ≡ texts vs
    unfolding read_lines lines split drop_empty_end
    read_lines-lines [] = refl
    read_lines-lines (v ∷ vs) =
        ap (λ ws. map done (drop_empty_end ws))
          (split-line (W.encode v) (lines J C W handle vs) (A.one_line v))
        ∙ (ap (map done) (
              drop_empty_end-cons (W.encode v) (split 10 (lines J C W handle vs))
                (split-ne-nil (lines J C W handle vs)))
            ∙ ap (λ ts. done (W.encode v) ∷ ts) (read_lines-lines vs))

    await-notification :
        (name : String) (v : J.Value) (rest : List (Anyhow String))
        → await_response J R id (done (W.encode (announcement J C W handle name v)) ∷ rest)
          ≡ await_response J R id rest
    unfolding await_response is_reply
    await-notification name v rest = ground (arith, A.decode-notification name v, A.as_u64-null)

    await-response :
        (rest : List (Anyhow String))
        → await_response J R id (done (W.encode (response J C W handle (J.number id) r)) ∷ rest)
          ≡ (outcome r, rest)
    unfolding await_response is_reply outcome verdict
    await-response rest = elim (Result-cases r) [
      | inl (v, e) ↦ ground (arith, A.decode-success v e, A.as_u64-number, e)
      | inr (f, e) ↦ ground (arith, A.decode-failure f e, A.as_u64-number, e)
    ]

    -- The response is found behind whatever notifications are written before it.
    await-task_frames :
        (rs : List (Option (Notification J.Value C))) (c : Client Σ) (vs : List J.Value)
        → await_response J R id (texts ((task_frames J C W handle rs c).0 ++ vs))
          ≡ await_response J R id (texts vs)
    unfolding task_frames
    await-task_frames [] c vs = refl
    await-task_frames (none ∷ rs) c vs = await-task_frames rs (record c { feed = lose c.feed }) vs
    await-task_frames (some n ∷ rs) c vs =
        let later = await-task_frames rs c vs in
        elim (Bool-cases (wants c.feed (method_of n))) [
          | inl wanted ↦
              rw wanted (await-notification (method_of n) (params_of J C W handle n) _ ∙ later)
          | inr unwanted ↦ rw unwanted later
        ]

    line_frames-request :
        (meanwhile : List (Option (Notification J.Value C))) (c : Client Σ)
        → (method == "subscribe") ≡ false
        → line_frames J C W handle (request_line J R id method params) meanwhile c
          ≡ then_frame J C W handle
              (task_frames J C W handle meanwhile
                (record c { backend = (handle method params c.backend).1 }))
              (response J C W handle (J.number id) (handle method params c.backend).0)
    unfolding line_frames request_frame request_line
    line_frames-request meanwhile c calls = ground (arith, A.decode-request, calls)

    frame-request :
        (meanwhile : List (Option (Notification J.Value C))) (c : Client Σ)
        → c.reading ≡ true
        → (method == "subscribe") ≡ false
        → frame J C W handle (line (request_line J R id method params) meanwhile) c
          ≡ then_frame J C W handle
              (task_frames J C W handle meanwhile
                (record c { backend = (handle method params c.backend).1 }))
              (response J C W handle (J.number id) (handle method params c.backend).0)
    unfolding frame
    frame-request meanwhile c reading calls =
        ap
          (λ b.
            if b
            then line_frames J C W handle (request_line J R id method params) meanwhile c
            else task_frames J C W handle meanwhile c)
          reading
        ∙ line_frames-request meanwhile c calls

    await-first :
        (meanwhile : List (Option (Notification J.Value C))) (es₂ : List (Event J.Value C))
        (c : Client Σ)
        → c.reading ≡ true
        → (method == "subscribe") ≡ false
        → (handle method params c.backend).0 ≡ r
        → (await_response J R id (
            texts
              (frames J C W handle (line (request_line J R id method params) meanwhile ∷ es₂) c))).0
          ≡ outcome r
    unfolding frames
    await-first meanwhile es₂ c reading calls h =
        let c' : Client Σ = record c { backend = (handle method params c.backend).1 } in
        let p = task_frames J C W handle meanwhile c' in
        let rest = frames J C W handle es₂ p.1 in
        rw (frame-request meanwhile c reading calls) (
          rw h (
            ap (λ vs. (await_response J R id (texts vs)).0)
              (append_assoc_list p.0 (response J C W handle (J.number id) r ∷ []) rest)
            ∙ (ap (λ q. q.0)
                  (await-task_frames meanwhile c' (response J C W handle (J.number id) r ∷ rest))
                ∙ ap (λ q. q.0) (await-response (texts rest)))))

    await-frames :
        (es₁ es₂ : List (Event J.Value C)) (meanwhile : List (Option (Notification J.Value C)))
        (c : Client Σ)
        → All IsQuiet es₁
        → c.reading ≡ true
        → (method == "subscribe") ≡ false
        → (handle method params c.backend).0 ≡ r
        → (await_response J R id (
            texts (
              frames J C W handle
                (es₁ ++ line (request_line J R id method params) meanwhile ∷ es₂)
                c))).0
          ≡ outcome r
    unfolding frames frame task_frames
    await-frames [] es₂ meanwhile c quiet reading calls h =
        await-first meanwhile es₂ c reading calls h
    await-frames (received n ∷ es₁) es₂ meanwhile c quiet reading calls h =
        let later = await-frames es₁ es₂ meanwhile c quiet.1 reading calls h in
        elim (Bool-cases (wants c.feed (method_of n))) [
          | inl wanted ↦ rw wanted (
              ap (λ p. p.0) (await-notification (method_of n) (params_of J C W handle n) _) ∙ later)
          | inr unwanted ↦ rw unwanted later
        ]
    await-frames (receive_failed ∷ es₁) es₂ meanwhile c quiet reading calls h =
        await-frames es₁ es₂ meanwhile (record c { feed = lose c.feed }) quiet.1 reading calls h
    await-frames (line text rs ∷ es₁) es₂ meanwhile c quiet reading calls h = absurd quiet.0
    await-frames (read_failed e ∷ es₁) es₂ meanwhile c quiet reading calls h = absurd quiet.0
    await-frames (end_of_input ∷ es₁) es₂ meanwhile c quiet reading calls h = absurd quiet.0

    -- A call of the client yields what the handler ended with: while the request is under way the
    -- server may write any number of notifications, before and after the response, and what the
    -- client reads are the lines that the server has written. The connection must be open and new to
    -- reading, with nothing written yet, and the method is not `subscribe`. A result that is null is
    -- an error for the client.
    pub call-handle :
        (K K' : Socket) (es₁ es₂ : List (Event J.Value C))
        (meanwhile : List (Option (Notification J.Value C))) (server : Conn K.Tx Σ)
        (reader : List (Anyhow String)) (writer : K'.Tx)
        → All IsQuiet es₁
        → IsSound J C W K handle server
        → server.ended ≡ none
        → K.sent server.writer ≡ ""
        → K'.IsOpen writer
        → (method == "subscribe") ≡ false
        → (handle method params server.backend).0 ≡ r
        → reader
          ≡ read_lines (
              K.sent
                (serve_conn J C W K handle
                  (es₁ ++ line (request_line J R id method params) meanwhile ∷ es₂)
                  server).writer)
        → (call J R K' method params (record { reader = reader; writer = writer; next_id = id })).0
          ≡ outcome r
    unfolding call after_write client_of
    call-handle K K' es₁ es₂ meanwhile server reader writer quiet sound open_ended fresh opened
          calls h reads =
        let es = es₁ ++ line (request_line J R id method params) meanwhile ∷ es₂ in
        let fs = frames J C W handle es (client_of J C W K handle server) in
        let wrote = K'.write_all (request_line J R id method params) writer in
        let read : reader ≡ texts fs =
          reads
          ∙ (ap read_lines (
                serve_conn-frames J C W K handle es server sound
                ∙ (ap (λ b. concat b (lines J C W handle fs)) fresh
                    ∙ nil-append (lines J C W handle fs)))
              ∙ read_lines-lines fs) in
        ap
          (λ w.
            (after_write J R K' id w
              (record { reader = reader; writer = wrote.1; next_id = (id + 1) % 2 ^ 64 })).0)
          (K'.write_all-ok (request_line J R id method params) writer opened)
        ∙ (ap (λ l. (await_response J R id l).0) read
            ∙ await-frames es₁ es₂ meanwhile (client_of J C W K handle server) quiet
                (ap (reading_of J C W K handle) open_ended) calls h)
