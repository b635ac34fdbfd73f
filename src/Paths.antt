-- ===== src/Paths.antt =====
-- crates/mail-mcp-core/src/paths.rs: where the files of an installation are.
--
-- Joining paths is std's, and the directories of the platform are the dirs crate's and the
-- environment's: both are interfaces. `uid` is the text of the user's number.
use Prim.Native.String.{◌++◌}
use mail_mcp.Base.{String, Option, none, some, Result, ok, config, ok_or, unwrap_or, ◌>>=◌}

pub record PathBuf : Type 1 where
  pub Name : Type 0
  pub of_text : String → Name
  pub join : Name → String → Name

-- What dirs and the environment know.
pub record Platform (P : PathBuf) : Type 0 where
  pub home_dir : Option P.Name
  pub data_dir : Option P.Name
  pub data_local_dir : Option P.Name
  pub state_dir : Option P.Name
  pub cache_dir : Option P.Name
  pub runtime_dir : Option P.Name
  pub tmpdir : Option P.Name
  pub uid : String
  pub username : Option String

pub data Os : Type 0 where
  macos linux windows : Os

module _ (P : PathBuf) where
  pub record Paths : Type 0 where
    pub data_path : P.Name
    pub logs : P.Name
    pub cache : P.Name
    pub runtime : P.Name

  abbrev or_else : Option P.Name → Option P.Name → Option P.Name
  or_else none other = other
  or_else (some p) other = some p

  unfoldable pub macos_paths : Platform P → Result Paths
  macos_paths e = do
    home ← ok_or e.home_dir (config "no HOME dir")
    ok (record {
      data_path = P.join home "Library/Application Support/mail-mcp";
      logs = P.join home "Library/Logs/mail-mcp";
      cache = P.join home "Library/Caches/mail-mcp";
      runtime = P.join (unwrap_or e.tmpdir (P.of_text "/tmp")) ("mail-mcp-" ++ e.uid);
    })

  -- The runtime directory on Linux.
  unfoldable pub linux_runtime : Platform P → P.Name
  linux_runtime e = elim e.runtime_dir [
    | some d ↦ P.join d "mail-mcp"
    | none ↦ P.of_text ("/tmp/mail-mcp-" ++ e.uid)
  ]

  unfoldable pub linux_paths : Platform P → Result Paths
  linux_paths e = do
    data_dir ← ok_or e.data_dir (config "no XDG data dir")
    state_dir ← ok_or (or_else e.state_dir e.data_local_dir) (config "no XDG state dir")
    cache_dir ← ok_or e.cache_dir (config "no XDG cache dir")
    ok (record {
      data_path = P.join data_dir "mail-mcp";
      logs = P.join state_dir "mail-mcp/logs";
      cache = P.join cache_dir "mail-mcp";
      runtime = linux_runtime e;
    })

  unfoldable pub windows_paths : Platform P → Result Paths
  windows_paths e = do
    data_local_dir ← ok_or e.data_local_dir (config "no LOCALAPPDATA")
    let local = P.join data_local_dir "mail-mcp"
    ok (record {
      data_path = local;
      logs = P.join local "logs";
      cache = P.join local "cache";
      runtime = P.join local "run";
    })

  -- `Paths::default_for_user`, for the system that it is compiled for.
  unfoldable pub default_for_user : Os → Platform P → Result Paths
  default_for_user macos e = macos_paths e
  default_for_user linux e = linux_paths e
  default_for_user windows e = windows_paths e

  -- `Paths::with_root`
  unfoldable pub with_root : P.Name → Paths
  with_root root = record {
    data_path = P.join root "data";
    logs = P.join root "logs";
    cache = P.join root "cache";
    runtime = P.join root "run";
  }

  unfoldable pub state_db : Paths → P.Name
  state_db p = P.join p.data_path "state.db"

  unfoldable pub endpoint_json : Paths → P.Name
  endpoint_json p = P.join p.data_path "endpoint.json"

  unfoldable pub pid_file : Paths → P.Name
  pid_file p = P.join p.runtime "daemon.pid"

  -- The name of the pipe on Windows.
  unfoldable pub pipe_name : Option String → String
  pipe_name user = "\\\\.\\pipe\\mail-mcp-" ++ unwrap_or user "default"

  -- `ipc_socket`
  unfoldable pub ipc_socket : Os → Platform P → Paths → P.Name
  ipc_socket macos e p = P.join p.runtime "ipc.sock"
  ipc_socket linux e p = P.join p.runtime "ipc.sock"
  ipc_socket windows e p = P.of_text (pipe_name e.username)

  -- The calls on the file system, from a state of it.
  module _ {S : Type 0} (create_dir_all : P.Name → S → Result S)
      (set_owner_only : P.Name → S → Result S) where
    -- The permissions of Unix.
    unfoldable pub tighten : Os → Paths → S → Result S
    tighten windows p s = ok s
    tighten macos p s = set_owner_only p.runtime s >>= set_owner_only p.data_path
    tighten linux p s = set_owner_only p.runtime s >>= set_owner_only p.data_path

    -- `ensure_dirs`
    unfoldable pub ensure_dirs : Os → Paths → S → Result S
    ensure_dirs os p s = do
      s ← create_dir_all p.data_path s
      s ← create_dir_all p.logs s
      s ← create_dir_all p.cache s
      s ← create_dir_all p.runtime s
      tighten os p s
