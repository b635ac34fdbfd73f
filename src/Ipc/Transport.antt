-- ===== src/Ipc/Transport.antt =====
-- ipc/transport.rs: the named pipe of Windows and the socket file of Unix; and the loop of
-- `bind_and_serve` in ipc/server.rs.
--
-- What the calls of the operating system yield is an argument. A pipe is known by a value that the
-- system gives it.
pub mod Instances
pub mod Retries
use Prim.Native.Nat.{zero, suc}
use mail_mcp.Base.{
  ℕ, ◌+◌, Bool, true, false, String, Option, none, some, List, [], ◌∷◌, Error, Result, ok, err, io,
  ◌>>=◌, ◌>>◌,
}

-- What `ClientOptions::open` yields: a client, ERROR_PIPE_BUSY, or another error.
pub data Opened (A : Type 0) : Type 0 where
  opened : A → Opened A
  busy : Opened A
  refused : String → Opened A

module _ {A : Type 0} (open_at : ℕ → Opened A) where
  -- The loop of `connect` from its round `i` on, with the rounds that are left: what it yields, and the
  -- milliseconds that it sleeps.
  unfoldable pub connect_from : (rounds i : ℕ) → Result A × ℕ
  connect_from zero i = (err (io "named pipe busy after retries"), 0)
  connect_from (suc rounds) i =
      let later = connect_from rounds (i + 1) in
      elim (open_at i) [
        | opened client ↦ (ok client, 0)
        | busy ↦ (later.0, 20 + later.1)
        | refused e ↦ (err (io e), 0)
      ]

  -- `IpcStream::connect` on Windows
  unfoldable pub connect : Result A × ℕ
  connect = connect_from 50 0

-- `IpcListener` on Windows: the instance that the next client will connect to.
pub record IpcListener (Pipe : Type 0) : Type 0 where
  pub next : Option Pipe

-- What one `accept` meets: the instance that is created for the client after, and the connection of
-- a client to its own.
pub record Accepting (Pipe : Type 0) : Type 0 where
  pub created : Result Pipe
  pub connected : Result (Unit {0})

module _ {Pipe : Type 0} where
  -- `IpcListener::bind` on Windows
  unfoldable pub bind : Result Pipe → Result (IpcListener Pipe)
  bind first = first >>= (λ p. ok (record { next = some p }))

  -- `accept` once it has taken the instance.
  unfoldable pub arm : Pipe → Accepting Pipe → Result Pipe × IpcListener Pipe
  arm server a = elim a.created [
    | err e ↦ (err e, record { next = none })
    | ok p ↦ (a.connected >> ok server, record { next = some p })
  ]

  -- `IpcListener::accept` on Windows
  unfoldable pub accept : Accepting Pipe → IpcListener Pipe → Result Pipe × IpcListener Pipe
  accept a listener = elim listener.next [
    | none ↦ (err (io "listener instance missing"), listener)
    | some server ↦ arm server a
  ]

  -- The loop of `bind_and_serve`: the connections that it spawns tasks for, and the error that ends it,
  -- if one does.
  unfoldable pub serve_all : List (Accepting Pipe) → IpcListener Pipe → List Pipe × Option Error
  serve_all [] listener = ([], none)
  serve_all (a ∷ as') listener =
      let (r, listener') = accept a listener in
      let later = serve_all as' listener' in
      elim r [ err e ↦ ([], some e) | ok pipe ↦ (pipe ∷ later.0, later.1) ]

  -- `bind_and_serve`
  unfoldable pub bind_and_serve : Result Pipe → List (Accepting Pipe) → List Pipe × Option Error
  bind_and_serve first as' = elim (bind first) [
    | err e ↦ ([], some e)
    | ok listener ↦ serve_all as' listener
  ]

-- The socket file of Unix and its directory, with their permissions.
pub record SocketFile : Type 0 where
  pub directory : Option ℕ
  pub socket : Option ℕ

-- What the calls of `bind` end with; those on permissions are ignored.
pub record Binding : Type 0 where
  pub create_dir_all : Result (Unit {0})
  pub chmod_directory : Bool
  pub remove_file : Result (Unit {0})
  pub bound : Result ℕ
  pub chmod_socket : Bool

-- 0o700 and 0o600
abbrev pub directory_mode : ℕ
directory_mode = 448

abbrev pub socket_mode : ℕ
socket_mode = 384

abbrev chmod : Bool → ℕ → Option ℕ → Option ℕ
chmod true mode before = some mode
chmod false mode before = before

-- A stale socket file is removed.
unfoldable pub remove_stale : Result (Unit {0}) → Option ℕ → Result (Unit {0})
remove_stale removed none = ok tt
remove_stale removed (some _) = removed

-- `IpcListener::bind` on Unix, from the file system before it.
unfoldable pub bind_unix : Binding → SocketFile → Result SocketFile
bind_unix b before = do
  b.create_dir_all
  remove_stale b.remove_file before.socket
  mode ← b.bound
  ok (record {
    directory = chmod b.chmod_directory directory_mode before.directory;
    socket = chmod b.chmod_socket socket_mode (some mode);
  })
