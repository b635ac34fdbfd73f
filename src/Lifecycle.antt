-- ===== src/Lifecycle.antt =====
-- crates/mail-mcp-daemon/src/lifecycle.rs: the pid file's lock, and the file that tells where the
-- server is.
--
-- A file that is open is known by its inode, which it keeps when its name is removed; an advisory
-- lock is on the inode and goes with the process. Texts of errors and whether a call of the file
-- system fails are arguments.
pub mod Locking
pub mod Exclusion
pub mod Endpoint
use Prim.Native.String.{◌++◌}
use mail_mcp.Base.{ℕ, ◌+◌, String, Option, none, some, List, [], ◌∷◌, nat_key, string_key}
use mail_mcp.Base.Dict.{Dict, lookup, insert, remove}
use mail_mcp.Admin.Client.{Anyhow, failed, done}

-- The pid file's name and locks: the inode under the name, the number of inodes so far, and the
-- process that holds the lock of an inode.
pub record PidFile : Type 0 where
  pub linked : Option ℕ
  pub inodes : ℕ
  pub holder : Dict ℕ ℕ

-- The file of a `PidLock`.
pub record PidLock : Type 0 where
  pub file : ℕ

-- `open` with `create(true)`
unfoldable pub open_or_create : PidFile → ℕ × PidFile
open_or_create f = elim f.linked [
  | some inode ↦ (inode, f)
  | none ↦ (f.inodes, record f { linked = some f.inodes; inodes = f.inodes + 1 })
]

-- `try_lock_exclusive`, and the write of the process's number; when that fails, the file is closed,
-- and so not locked any more.
unfoldable pub try_lock_exclusive :
    (write_fault : Option String) (process inode : ℕ) → PidFile → Anyhow PidLock × PidFile
try_lock_exclusive write_fault process inode f = elim (lookup inode f.holder) [
  | some _ ↦ (failed "locking pid file", f)
  | none ↦ elim write_fault [
    | some e ↦ (failed e, f)
    | none ↦ (done (record { file = inode }), record f { holder = insert inode process f.holder })
  ]
]

-- `PidLock::acquire`, with what goes wrong when the file is opened or written; what is written to it
-- is not kept.
unfoldable pub acquire :
    (open_fault write_fault : Option String) (process : ℕ) → PidFile → Anyhow PidLock × PidFile
acquire (some e) write_fault process f = (failed e, f)
acquire none write_fault process f =
    let (inode, opened) = open_or_create f in try_lock_exclusive write_fault process inode opened

-- The two statements of `drop`: the lock is released, and then the name is removed, whatever file
-- it names by then.
unfoldable pub unlock : PidLock → PidFile → PidFile
unlock guard f = record f { holder = remove guard.file f.holder }

unfoldable pub remove_file : PidFile → PidFile
remove_file f = record f { linked = none }

-- A file with its permissions and its text.
pub record File : Type 0 where
  pub mode : ℕ
  pub text : String

abbrev pub Files : Type 0
Files = Dict String File

-- Owner only, 0o600.
abbrev pub private_mode : ℕ
private_mode = 384

-- What goes wrong with each call, if anything: an error's text, and what was written before a write failed.
module _ (path tmp_path bytes : String) (create_dir_fault open_fault : Option String)
    (write_fault : Option (String × String)) (rename_fault : Option String) where
  abbrev temp : String → File
  temp text = record { mode = private_mode; text = text }

  -- The steps of `write_endpoint` once the temporary file is written, and the files after each.
  unfoldable pub rename_onto : Files → Anyhow (Unit {0}) × List Files
  rename_onto fs = elim rename_fault [
    | some e ↦ (failed e, [])
    | none ↦ (done tt, insert path (temp bytes) (remove tmp_path fs) ∷ [])
  ]

  abbrev pub after : Files → Anyhow (Unit {0}) × List Files → Anyhow (Unit {0}) × List Files
  after fs (r, later) = (r, fs ∷ later)

  unfoldable pub write_bytes : Files → Anyhow (Unit {0}) × List Files
  write_bytes fs = elim write_fault [
    | some (e, written) ↦ (failed e, insert tmp_path (temp written) fs ∷ [])
    | none ↦ let full = insert tmp_path (temp bytes) fs in after full (rename_onto full)
  ]

  -- `create_new(true)` fails on a file that is there.
  unfoldable pub create_temp : Files → Anyhow (Unit {0}) × List Files
  create_temp fs = elim (lookup tmp_path fs) [
    | some _ ↦ (failed "creating endpoint temp file", [])
    | none ↦ elim open_fault [
      | some e ↦ (failed e, [])
      | none ↦ let empty = insert tmp_path (temp "") fs in after empty (write_bytes empty)
    ]
  ]

  -- `write_endpoint`: what it returns, and the files after each of its steps.
  unfoldable pub write_endpoint : Files → Anyhow (Unit {0}) × List Files
  write_endpoint fs = elim create_dir_fault [ some e ↦ (failed e, []) | none ↦ create_temp fs ]

-- `endpoint_url`
unfoldable pub endpoint_url : String → String
endpoint_url addr = "http://" ++ (addr ++ "/mcp")
