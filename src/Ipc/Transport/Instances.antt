-- ===== src/Ipc/Transport/Instances.antt =====
-- The pipes that clients are given, and the end of the service.
use mail_mcp.Base.{
  ◌≡◌, ◌≢◌, refl, ◌⊎◌, inl, inr, some, List, [], ◌∷◌, ◌++◌, Error, Result, ok, err, arith,
  Result-cases,
}
use mail_mcp.Ipc.Transport.{IpcListener, Accepting, bind, arm, accept, serve_all, bind_and_serve}

module _ {Pipe : Type 0} where
  -- The instances that are created, up to the first failure.
  unfoldable pub instances : List (Accepting Pipe) → List Pipe
  instances [] = []
  instances (a ∷ as') =
      let later = instances as' in elim a.created [ err e ↦ [] | ok p ↦ p ∷ later ]

  -- An `accept` that fails, whether by the next instance or by the client.
  abbrev pub IsFailing : Accepting Pipe → Type 0
  IsFailing a = ((e : Error) × (a.created ≡ err e)) ⊎ ((e : Error) × (a.connected ≡ err e))

  serve_all-instances :
      (as' : List (Accepting Pipe)) (p : Pipe)
      → (rest : List Pipe) × ((serve_all as' (record { next = some p })).0 ++ rest
          ≡ p ∷ instances as')
  unfolding serve_all accept arm instances
  serve_all-instances [] p = (p ∷ [], refl)
  serve_all-instances (a ∷ as') p = elim (Result-cases a.created) [
    | inr (e, bad) ↦ (p ∷ [], ground (arith, bad))
    | inl (q, made) ↦ elim (Result-cases a.connected) [
      | inr (e, bad) ↦ (p ∷ q ∷ instances as', ground (arith, made, bad))
      | inl (u, met) ↦
          let (rest, e) = serve_all-instances as' q in (rest, ground (arith, made, met, e))
    ]
  ]

  accept-fails :
      (bad : Accepting Pipe) (listener : IpcListener Pipe) (pipe : Pipe)
      → IsFailing bad
      → (accept bad listener).0 ≢ ok pipe
  unfolding accept arm
  accept-fails bad listener pipe (inl (e, h)) fine = ground (arith, h, fine)
  accept-fails bad listener pipe (inr (e, h)) fine = ground (arith, h, fine)

  serve_all-ended :
      (before after : List (Accepting Pipe)) (bad : Accepting Pipe) (listener : IpcListener Pipe)
      → IsFailing bad
      → serve_all (before ++ bad ∷ after) listener ≡ serve_all (before ++ bad ∷ []) listener
  unfolding serve_all accept arm
  serve_all-ended [] after bad listener (inl (e, h)) = ground (arith, h)
  serve_all-ended [] after bad listener (inr (e, h)) = ground (arith, h)
  serve_all-ended (a ∷ before) after bad listener h =
      ground (arith, serve_all-ended before after bad (accept a listener).1 h)

  -- Every client is given an instance of its own: the connections that are served are the instance of
  -- `bind` and those that `accept` creates, each at most once and in their order.
  pub bind_and_serve-instances :
      (first : Pipe) (as' : List (Accepting Pipe))
      → (rest : List Pipe) × ((bind_and_serve (ok first) as').0 ++ rest ≡ first ∷ instances as')
  unfolding bind_and_serve bind
  bind_and_serve-instances first as' = serve_all-instances as' first

  serve_all-fails :
      (before after : List (Accepting Pipe)) (bad : Accepting Pipe) (listener : IpcListener Pipe)
      → IsFailing bad
      → (e : Error) × ((serve_all (before ++ bad ∷ after) listener).1 ≡ some e)
  unfolding serve_all
  serve_all-fails [] after bad listener h = elim (Result-cases (accept bad listener).0) [
    | inr (e, failure) ↦ (e, ground (arith, failure))
    | inl (pipe, fine) ↦ absurd (accept-fails bad listener pipe h fine)
  ]
  serve_all-fails (a ∷ before) after bad listener h = elim (Result-cases (accept a listener).0) [
    | inr (e, failure) ↦ (e, ground (arith, failure))
    | inl (pipe, fine) ↦
        let (e, later) = serve_all-fails before after bad (accept a listener).1 h in
        (e, ground (arith, fine, later))
  ]

  -- The first `accept` that fails ends the service: `bind_and_serve` returns with an error, and
  -- whatever clients come later, it has served the same ones as without them.
  pub bind_and_serve-ended :
      (first : Result Pipe) (before after : List (Accepting Pipe)) (bad : Accepting Pipe)
      → IsFailing bad
      → ((e : Error) × ((bind_and_serve first (before ++ bad ∷ after)).1 ≡ some e))
        × (bind_and_serve first (before ++ bad ∷ after) ≡ bind_and_serve first (before ++ bad ∷ []))
  unfolding bind_and_serve
  bind_and_serve-ended first before after bad h = elim (Result-cases (bind first)) [
    | inr (e, failure) ↦ ((e, ground (arith, failure)), ground (arith, failure))
    | inl (listener, fine) ↦
        let (e, fails) = serve_all-fails before after bad listener h in
        (
          (e, ground (arith, fine, fails)),
          ground (arith, fine, serve_all-ended before after bad listener h),
        )
  ]
