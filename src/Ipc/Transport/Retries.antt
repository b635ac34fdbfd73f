-- ===== src/Ipc/Transport/Retries.antt =====
-- How long a client tries to connect.
use Prim.Native.Nat.{zero, suc}
use mail_mcp.Base.{ℕ, ◌+◌, ◌*◌, ◌≤◌, ◌<◌, ◌≡◌, refl, ap, ◌∙◌, io, ok, err, arith}
use mail_mcp.Ipc.Transport.{Opened, opened, busy, connect_from, connect}

module _ {A : Type 0} (open_at : ℕ → Opened A) where
  connect_from-bounds : (rounds i : ℕ) → (connect_from open_at rounds i).1 ≤ 20 * rounds
  unfolding connect_from
  connect_from-bounds zero i = omega arith
  connect_from-bounds (suc rounds) i = ground (arith, connect_from-bounds rounds (i + 1))

  connect_from-first :
      (rounds i k : ℕ) (client : A)
      → k < rounds
      → ((j : ℕ) → j < k → open_at (i + j) ≡ busy)
      → open_at (i + k) ≡ opened client
      → connect_from open_at rounds i ≡ (ok client, 20 * k)
  unfolding connect_from
  connect_from-first zero i k client lt before here = absurd (omega arith)
  connect_from-first (suc rounds) i zero client lt before here = ground (arith, here)
  connect_from-first (suc rounds) i (suc k) client lt before here =
      let first : open_at i ≡ busy = ap open_at (omega arith) ∙ before 0 (omega arith) in
      let later =
        connect_from-first rounds (i + 1) k client (omega arith)
          (λ j lt'. ap open_at (omega arith) ∙ before (suc j) (omega arith))
          (ap open_at (omega arith) ∙ here) in
      ground (arith, first, later)

  -- A client connects at the first instance that is not busy, among fifty attempts, and has slept twenty
  -- milliseconds for each attempt before it.
  pub connect-first :
      (k : ℕ) (client : A)
      → k < 50
      → ((j : ℕ) → j < k → open_at j ≡ busy)
      → open_at k ≡ opened client
      → connect open_at ≡ (ok client, 20 * k)
  unfolding connect
  connect-first k client lt before here =
      connect_from-first 50 0 k client lt (λ j lt'. ap open_at (omega arith) ∙ before j lt')
        (ap open_at (omega arith) ∙ here)

  connect_from-busy :
      (rounds i : ℕ)
      → ((j : ℕ) → j < rounds → open_at (i + j) ≡ busy)
      → connect_from open_at rounds i ≡ (err (io "named pipe busy after retries"), 20 * rounds)
  unfolding connect_from
  connect_from-busy zero i always = refl
  connect_from-busy (suc rounds) i always =
      let first : open_at i ≡ busy = ap open_at (omega arith) ∙ always 0 (omega arith) in
      let later =
        connect_from-busy rounds (i + 1)
          (λ j lt'. ap open_at (omega arith) ∙ always (suc j) (omega arith)) in
      ground (arith, first, later)

  -- Connecting ends: it never sleeps for more than a second in all, whatever the server does.
  pub connect_bounds : (connect open_at).1 ≤ 1000
  unfolding connect
  connect_bounds = connect_from-bounds 50 0
