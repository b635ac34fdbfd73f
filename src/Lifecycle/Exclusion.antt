-- ===== src/Lifecycle/Exclusion.antt =====
-- How many processes hold the lock.
use mail_mcp.Base.{
  ℕ, ◌≡◌, ◌≢◌, refl, ap, ◌∙◌, true, false, String, Option, none, some, [], ◌∷◌, arith, nat_key,
}
use mail_mcp.Base.Dict.{lookup, insert, remove, lookup-insert, lookup-remove}
use mail_mcp.Admin.Client.{failed, done}
use mail_mcp.Lifecycle.{
  PidFile, PidLock, open_or_create, try_lock_exclusive, acquire, unlock, remove_file,
}
use mail_mcp.Lifecycle.Locking.{
  Processes, Step, start, refused, crash, release, finish, Reach, here, next, idle,
}

-- Every held lock is on the file that has the name, and the kernel knows its process.
pub record IsExclusive (s : Processes) : Type 0 where
  pub linked :
      (p : ℕ) (guard : PidLock) → lookup p s.held ≡ some guard → s.pid_file.linked ≡ some guard.file
  pub locked :
      (p : ℕ) (guard : PidLock)
      → lookup p s.held ≡ some guard
      → lookup guard.file s.pid_file.holder ≡ some p

acquire-done :
    (p : ℕ) (f f' : PidFile) (guard : PidLock)
    → acquire none none p f ≡ (done guard, f')
    → (f'.linked ≡ some guard.file)
      × (f'.holder ≡ insert guard.file p f.holder)
      × (lookup guard.file f.holder ≡ none)
unfolding acquire open_or_create try_lock_exclusive
acquire-done p f f' guard h = ground arith

-- A new lock is on the file that had the name, if there was one.
acquire-linked :
    (p : ℕ) (f f' : PidFile) (guard : PidLock) (inode : ℕ)
    → acquire none none p f ≡ (done guard, f')
    → f.linked ≡ some inode
    → guard.file ≡ inode
unfolding acquire open_or_create try_lock_exclusive
acquire-linked p f f' guard inode h e = ground arith

acquire-failed :
    (open_fault write_fault : Option String) (p : ℕ) (f f' : PidFile) (e : String)
    → acquire open_fault write_fault p f ≡ (failed e, f')
    → (f'.holder ≡ f.holder) × ((inode : ℕ) → f.linked ≡ some inode → f'.linked ≡ some inode)
unfolding acquire open_or_create try_lock_exclusive
acquire-failed (some o) write_fault p f f' e h = (ground arith, λ inode l. ground arith)
acquire-failed none write_fault p f f' e h = (ground arith, λ inode l. ground arith)

start-IsExclusive :
    (s : Processes) (p : ℕ) (guard : PidLock) (f : PidFile)
    → acquire none none p s.pid_file ≡ (done guard, f)
    → IsExclusive s
    → IsExclusive (record s { pid_file = f; held = insert p guard s.held })
start-IsExclusive s p guard f took h =
    let (now_linked, now_locked, was_free) = acquire-done p s.pid_file f guard took in
    record {
      linked = λ q g e. ground (
        arith,
        lookup-insert q p guard s.held,
        h.linked q g,
        acquire-linked p s.pid_file f guard g.file took,
        now_linked,
        e,
      );
      locked = λ q g e. ground (
        arith,
        lookup-insert q p guard s.held,
        h.linked q g,
        h.locked q g,
        acquire-linked p s.pid_file f guard g.file took,
        ap (lookup g.file) now_locked,
        lookup-insert g.file guard.file p s.pid_file.holder,
        was_free,
        e,
      );
    }

refused-IsExclusive :
    (s : Processes) (open_fault write_fault : Option String) (p : ℕ) (e : String) (f : PidFile)
    → acquire open_fault write_fault p s.pid_file ≡ (failed e, f)
    → IsExclusive s
    → IsExclusive (record s { pid_file = f })
refused-IsExclusive s open_fault write_fault p e f failure h =
    let (same_holder, kept) = acquire-failed open_fault write_fault p s.pid_file f e failure in
    record {
      linked = λ q g held. kept g.file (h.linked q g held);
      locked = λ q g held. ap (lookup g.file) same_holder ∙ h.locked q g held;
    }

crash-IsExclusive :
    (s : Processes) (p : ℕ) (guard : PidLock)
    → lookup p s.held ≡ some guard
    → IsExclusive s
    → IsExclusive (record s { pid_file = unlock guard s.pid_file; held = remove p s.held })
unfolding unlock
crash-IsExclusive s p guard holds h = record {
  linked = λ q g e. ground (arith, lookup-remove q p s.held, h.linked q g, e);
  locked = λ q g e. ground (
    arith,
    lookup-remove q p s.held,
    h.linked q g,
    h.linked p guard,
    h.locked q g,
    h.locked p guard,
    lookup-remove g.file guard.file s.pid_file.holder,
    e,
  );
}

Step-IsExclusive : {s t : Processes} → Step false s t → IsExclusive s → IsExclusive t
Step-IsExclusive {s} (start p guard f free took) h = start-IsExclusive s p guard f took h
Step-IsExclusive {s} (refused open_fault write_fault p e f failure) h =
    refused-IsExclusive s open_fault write_fault p e f failure h
Step-IsExclusive {s} (crash p guard holds) h = crash-IsExclusive s p guard holds h
Step-IsExclusive (release p guard drops holds) h = cc
Step-IsExclusive (finish p guard drops holds) h = cc

Reach-IsExclusive : {s t : Processes} → Reach false s t → IsExclusive s → IsExclusive t
Reach-IsExclusive here h = h
Reach-IsExclusive (next r step) h = Step-IsExclusive step (Reach-IsExclusive r h)

idle-IsExclusive : IsExclusive idle
unfolding idle lookup
idle-IsExclusive = record { linked = λ p g e. cc; locked = λ p g e. cc }

-- At most one process holds the lock, whatever processes start, are refused or die, as long as none
-- of them ends by dropping its lock.
pub one_holder :
    (s : Processes) (p q : ℕ) (mine theirs : PidLock)
    → Reach false idle s
    → lookup p s.held ≡ some mine
    → lookup q s.held ≡ some theirs
    → p ≡ q
one_holder s p q mine theirs run hp hq =
    let h = Reach-IsExclusive run idle-IsExclusive in
    cc (h.linked p mine hp, h.linked q theirs hq, h.locked p mine hp, h.locked q theirs hq)

nothing : (r : ℕ) → lookup {V = PidLock} r [] ≡ none
unfolding lookup
nothing r = refl

absent : (p q r : ℕ) (g : PidLock) → q ≢ r → lookup r (insert q g (remove p (insert p g []))) ≡ none
absent p q r g qr = ground (
  arith,
  lookup-insert r q g (remove p (insert p g [])),
  lookup-remove r p (insert p g []),
  lookup-insert r p g [],
  nothing r,
)

-- A daemon that ends can leave two others with the lock: it unlocks its file before it removes the
-- name, so that a second one may lock the file in between, and a third one the file that is made
-- once the name is gone.
pub two_holders :
    (p q r : ℕ)
    → q ≢ r
    → (s : Processes) × Reach true idle s
      × ((g : PidLock) × (lookup q s.held ≡ some g))
      × ((g : PidLock) × (lookup r s.held ≡ some g))
unfolding idle acquire open_or_create try_lock_exclusive unlock remove_file lookup insert remove
    nat_key
two_holders p q r qr =
    let old : PidLock = record { file = 0 } in
    let new : PidLock = record { file = 1 } in
    let f₁ : PidFile = record { linked = some 0; inodes = 1; holder = (0, p) ∷ [] } in
    let f₂ : PidFile = record { linked = some 0; inodes = 1; holder = (0, q) ∷ [] } in
    let f₃ : PidFile = record { linked = some 1; inodes = 2; holder = (0, q) ∷ (1, r) ∷ [] } in
    let one = next (here) (start p old f₁ refl refl) in
    let two = next one (release p old refl (ground arith)) in
    let three = next two (start q old f₂ (ground arith) refl) in
    let four = next three (finish p old refl (ground arith)) in
    let five = next four (start r new f₃ (absent p q r old qr) refl) in
    (_, five, (old, ground arith), (new, ground arith))
