-- ===== src/Examples/Piping.antt =====
-- A server whose pipe is busy twice, and a client that goes before it is connected.
use mail_mcp.Base.{
  Error, some, ℕ, ◌≡◌, ◌≤◌, refl, [], ◌∷◌, ok, err, io, leb, if◌then◌else◌, arith, inr,
}
use mail_mcp.Ipc.Transport.{Opened, opened, busy, connect, Accepting, bind_and_serve}
use mail_mcp.Ipc.Transport.Retries.{connect-first, connect_bounds}
use mail_mcp.Ipc.Transport.Instances.{bind_and_serve-ended}

abbrev busy_twice : ℕ → Opened ℕ
busy_twice i = if leb 2 i then opened 7 else busy

connect-first_example : connect busy_twice ≡ (ok 7, 40)
connect-first_example = connect-first busy_twice 2 7 (omega arith) (λ j lt. ground arith) refl

connect_bounds_example : (connect busy_twice).1 ≤ 1000
connect_bounds_example = connect_bounds busy_twice

abbrev fine : ℕ → Accepting ℕ
fine p = record { created = ok p; connected = ok tt }

abbrev gone : Accepting ℕ
gone = record { created = ok 3; connected = err (io "the pipe is being closed") }

bind_and_serve-ended_example :
    ((e : Error) × ((bind_and_serve (ok 1) (fine 2 ∷ gone ∷ fine 4 ∷ [])).1 ≡ some e))
    × (bind_and_serve (ok 1) (fine 2 ∷ gone ∷ fine 4 ∷ [])
        ≡ bind_and_serve (ok 1) (fine 2 ∷ gone ∷ []))
bind_and_serve-ended_example =
    bind_and_serve-ended (ok 1) (fine 2 ∷ []) (fine 4 ∷ []) gone
      (inr (io "the pipe is being closed", refl))
