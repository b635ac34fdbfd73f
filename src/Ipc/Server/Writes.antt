-- ===== src/Ipc/Server/Writes.antt =====
-- A step of a connection against the frame that it promises: the parts that steps share.
use Prim.Native.String.{◌++◌ as concat}
use text.Mathlib.TextLemmas.{append_assoc, append-nil, nil-append}
use mail_mcp.Base.{
  ◌≡◌, refl, sym, ap, ◌∙◌, Bool, true, false, String, Option, none, some, List, [], ◌∷◌, ◌++◌,
  Result, ok, err, subst, arith,
}
use mail_mcp.Base.State.{M}
use mail_mcp.Json.{Json}
use mail_mcp.Accounts.{Codec}
use mail_mcp.Ipc.Server.{
  Wire, Socket, response_value, result_value, error_value, respond, Conn, write_frame, written,
  reply,
}
use mail_mcp.Ipc.Server.Frames.{Feed, unarmed, armed, dead, Client, lines, response}

module _ (J : Json) (C : Codec) (R : Wire J C) (K : Socket) {Σ : Type 0}
    (handle : String → J.Value → M Σ J.Value) where
  abbrev pub feed_of : Bool → Bool → List String → Feed
  feed_of false forwarding events = unarmed
  feed_of true true events = armed events
  feed_of true false events = dead

  abbrev pub reading_of : Option (Result (Unit {0})) → Bool
  reading_of none = true
  reading_of (some _) = false

  -- What a client may know of a connection.
  unfoldable pub client_of : Conn K.Tx Σ → Client Σ
  client_of c = record {
    feed = feed_of c.fanout_started c.forwarding c.subscribed;
    reading = reading_of c.ended;
    backend = c.backend;
  }

  -- The socket is open, and the task runs only if it was started.
  pub record IsSound (c : Conn K.Tx Σ) : Type 0 where
    pub opened : K.IsOpen c.writer
    pub started : c.fanout_started ≡ false → c.forwarding ≡ false

  -- One event did what was promised of it.
  pub record Delivers (c c' : Conn K.Tx Σ) (promised : List J.Value × Client Σ) : Type 0 where
    pub sound : IsSound c'
    pub state : client_of c' ≡ promised.1
    pub bytes : K.sent c'.writer ≡ concat (K.sent c.writer) (lines J C R handle promised.0)

  pub sent_twice :
      (v : J.Value) (t : K.Tx)
      → K.IsOpen t
      → K.sent (K.write_all "\n" (K.write_all (R.encode v) t).1).1
        ≡ concat (K.sent t) (concat (R.encode v) "\n")
  sent_twice v t o =
      K.sent-write_all "\n" _ (K.write_all-IsOpen (R.encode v) t o)
      ∙ (ap (λ s. concat s "\n") (K.sent-write_all (R.encode v) t o)
          ∙ append_assoc (K.sent t) (R.encode v) "\n")

  pub still_writable :
      (v : J.Value) (t : K.Tx)
      → K.IsOpen t
      → K.IsOpen (K.write_all "\n" (K.write_all (R.encode v) t).1).1
  still_writable v t o = K.write_all-IsOpen "\n" _ (K.write_all-IsOpen (R.encode v) t o)

  pub write_frame-eq :
      (v : J.Value) (t : K.Tx)
      → K.IsOpen t
      → write_frame J C R K handle v t
        ≡ (ok tt, (K.write_all "\n" (K.write_all (R.encode v) t).1).1)
  unfolding write_frame
  write_frame-eq v t o = ground (
    arith,
    K.write_all-ok (R.encode v) t o,
    K.write_all-ok "\n" (K.write_all (R.encode v) t).1 (K.write_all-IsOpen (R.encode v) t o),
  )

  -- A frame that was written is delivered, whatever else of the connection changed.
  pub delivered :
      (v : J.Value) (c c' : Conn K.Tx Σ) (after : Client Σ)
      → K.IsOpen c.writer
      → (c'.fanout_started ≡ false → c'.forwarding ≡ false)
      → c'.writer ≡ (K.write_all "\n" (K.write_all (R.encode v) c.writer).1).1
      → client_of c' ≡ after
      → Delivers c c' (v ∷ [], after)
  unfolding lines
  delivered v c c' after o started wrote same = record {
    sound = record { opened = rw wrote (still_writable v c.writer o); started = started };
    state = same;
    bytes =
        ap K.sent wrote
        ∙ (sent_twice v c.writer o
            ∙ ap (concat (K.sent c.writer)) (sym (append-nil (concat (R.encode v) "\n"))));
  }

  pub untouched :
      (c c' : Conn K.Tx Σ) (after : Client Σ)
      → K.IsOpen c.writer
      → (c'.fanout_started ≡ false → c'.forwarding ≡ false)
      → c'.writer ≡ c.writer
      → client_of c' ≡ after
      → Delivers c c' ([], after)
  unfolding lines
  untouched c c' after o started idle same = record {
    sound = record { opened = rw idle o; started = started };
    state = same;
    bytes = ap K.sent idle ∙ sym (append-nil (K.sent c.writer));
  }

  response_value-respond :
      (id : J.Value) (r : Result J.Value)
      → response_value J C R (respond J C R id r) ≡ response J C R handle id r
  unfolding response_value respond result_value error_value
  response_value-respond id (ok v) = refl
  response_value-respond id (err e) = refl

  pub reply-Delivers :
      (id : J.Value) (r : Result J.Value) (c : Conn K.Tx Σ)
      → IsSound c
      → Delivers c (reply J C R K handle id (r, c)) (response J C R handle id r ∷ [], client_of c)
  unfolding reply written client_of
  reply-Delivers id r c h =
      let v = response_value J C R (respond J C R id r) in
      rw (write_frame-eq v c.writer h.opened) (
        subst
          (λ w.
            Delivers c
              (record c { writer = (K.write_all "\n" (K.write_all (R.encode v) c.writer).1).1 })
              (w ∷ [], client_of c))
          (response_value-respond id r)
          (delivered v c
            (record c { writer = (K.write_all "\n" (K.write_all (R.encode v) c.writer).1).1 })
            (client_of c) h.opened h.started refl refl))

  pub lines-append :
      (fs gs : List J.Value)
      → lines J C R handle (fs ++ gs) ≡ concat (lines J C R handle fs) (lines J C R handle gs)
  unfolding lines
  lines-append [] gs = sym (nil-append (lines J C R handle gs))
  lines-append (f ∷ fs) gs =
      ap (concat (concat (R.encode f) "\n")) (lines-append fs gs)
      ∙ sym
          (append_assoc (concat (R.encode f) "\n") (lines J C R handle fs) (lines J C R handle gs))

  -- One after the other.
  pub both-Deliver :
      (a b c : Conn K.Tx Σ) (fs gs : List J.Value) (x y : Client Σ)
      → Delivers a b (fs, x)
      → Delivers b c (gs, y)
      → Delivers a c (fs ++ gs, y)
  both-Deliver a b c fs gs x y h k = record {
    sound = k.sound;
    state = k.state;
    bytes =
        k.bytes
        ∙ (ap (λ t. concat t (lines J C R handle gs)) h.bytes
            ∙ (append_assoc (K.sent a.writer) (lines J C R handle fs) (lines J C R handle gs)
                ∙ ap (concat (K.sent a.writer)) (sym (lines-append fs gs))));
  }
