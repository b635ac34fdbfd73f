-- ===== src/Lifecycle/Locking.antt =====
-- Processes that take and drop the lock of the pid file, in any order.
use mail_mcp.Base.{ℕ, ◌≡◌, Bool, true, String, Option, none, some, [], nat_key}
use mail_mcp.Base.Dict.{Dict, lookup, insert, remove}
use mail_mcp.Admin.Client.{failed, done}
use mail_mcp.Lifecycle.{PidFile, PidLock, acquire, unlock, remove_file}

-- The pid file, the locks that processes hold, and those that are being dropped: unlocked, with the
-- name not yet removed.
pub record Processes : Type 0 where
  pub pid_file : PidFile
  pub held : Dict ℕ PidLock
  pub dropping : Dict ℕ PidLock

-- What a process may do next. Only where `drops` is true does a process end by dropping its lock.
pub data Step (drops : Bool) (s : Processes) : Processes → Type 0 where
  start :
      (p : ℕ) (guard : PidLock) (f : PidFile)
      → lookup p s.held ≡ none
      → acquire none none p s.pid_file ≡ (done guard, f)
      → Step drops s (record s { pid_file = f; held = insert p guard s.held })
  refused :
      (open_fault write_fault : Option String) (p : ℕ) (e : String) (f : PidFile)
      → acquire open_fault write_fault p s.pid_file ≡ (failed e, f)
      → Step drops s (record s { pid_file = f })
  -- The kernel releases the lock of a process that dies.
  crash :
      (p : ℕ) (guard : PidLock)
      → lookup p s.held ≡ some guard
      → Step drops s (record s { pid_file = unlock guard s.pid_file; held = remove p s.held })
  release :
      (p : ℕ) (guard : PidLock)
      → drops ≡ true
      → lookup p s.held ≡ some guard
      → Step drops s (record s {
        pid_file = unlock guard s.pid_file;
        held = remove p s.held;
        dropping = insert p guard s.dropping;
      })
  finish :
      (p : ℕ) (guard : PidLock)
      → drops ≡ true
      → lookup p s.dropping ≡ some guard
      → Step drops s
          (record s { pid_file = remove_file s.pid_file; dropping = remove p s.dropping })

pub data Reach (drops : Bool) (s : Processes) : Processes → Type 0 where
  here : Reach drops s s
  next : {t u : Processes} → Reach drops s t → Step drops t u → Reach drops s u

-- Before any process has started.
unfoldable pub idle : Processes
idle = record {
  pid_file = record { linked = none; inodes = 0; holder = [] };
  held = [];
  dropping = [];
}
