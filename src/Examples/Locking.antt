-- ===== src/Examples/Locking.antt =====
-- Processes 1, 2 and 3 with one pid file, and an endpoint file that is written over an old one.
use mail_mcp.Base.{
  ℕ, String, false, true, ◌≡◌, ◌≢◌, refl, some, none, [], ◌∷◌, All, arith, ==_iff, string_key,
  nat_key,
}
use mail_mcp.Base.Dict.{lookup, insert, remove}
use mail_mcp.Lifecycle.{
  PidFile, PidLock, Files, open_or_create, try_lock_exclusive, acquire, rename_onto, write_bytes,
  create_temp, write_endpoint,
}
use mail_mcp.Lifecycle.Locking.{Processes, Reach, start, here, next, idle}
use mail_mcp.Lifecycle.Exclusion.{one_holder, two_holders}
use mail_mcp.Lifecycle.Endpoint.{IsIntact, write_endpoint-IsIntact}

locking : Unit {0}
unfolding lookup insert remove nat_key open_or_create try_lock_exclusive acquire rename_onto
    write_bytes create_temp write_endpoint idle
locking = tt

abbrev guard : PidLock
guard = record { file = 0 }

abbrev locked : PidFile
locked = record { linked = some 0; inodes = 1; holder = (0, 1) ∷ [] }

abbrev one : Processes
one = record idle { pid_file = locked; held = (1, guard) ∷ [] }

one-Reach : Reach false idle one
unfolding locking
one-Reach = next here (start 1 guard locked refl refl)

one_holder_example : ◌≡◌ {A = ℕ} 1 1
unfolding locking
one_holder_example = one_holder one 1 1 guard guard one-Reach refl refl

two_holders_example :
    (s : Processes) × Reach true idle s
    × ((g : PidLock) × (lookup 2 s.held ≡ some g))
    × ((g : PidLock) × (lookup 3 s.held ≡ some g))
two_holders_example = two_holders 1 2 3 (omega arith)

abbrev old : Files
old = ("endpoint.json", record { mode = 384; text = "old" }) ∷ []

apart : ◌≢◌ {A = String} "endpoint.json" "endpoint.json.tmp.7"
apart h = ground (arith, ==_iff "endpoint.json" "endpoint.json.tmp.7")

-- The write fails half-way.
write_endpoint-IsIntact_example :
    All
      (IsIntact "endpoint.json" "endpoint.json.tmp.7" "new" apart old)
      (write_endpoint "endpoint.json" "endpoint.json.tmp.7" "new" none none
        (some ("disk full", "ne"))
        none
        old).1
write_endpoint-IsIntact_example =
    write_endpoint-IsIntact "endpoint.json" "endpoint.json.tmp.7" "new" apart none none
      (some ("disk full", "ne")) none old
