-- ===== src/Sftp/Connect.antt =====
-- crates/vfs-sftp/src/lib.rs: `SftpFs` and how a connection is opened. The three `OnceLock`s of a connection are
-- a part of the state, `caches`; `none` is a lock that is not set.
use pfnc.Prelude.{ℕ, Bool, true, false, Option, none, Str, codes, ◌++◌}
use pfnc.Effect.{M, pure, fail, total, effect, ignore, map_err, ◌>>=◌, ◌>>◌}
use pfnc.Vfs.{VfsPath, IoError}
use pfnc.Vfs.Interface.{PathLib, RemoteFileAgent}
use pfnc.Connect.{show_port}
use pfnc.Registry.{ConnectionProfile}
use pfnc.Sftp.Session.{SshError, Session, SftpChannel, Host}
use pfnc.Sftp.HostKey.{HostKeyPolicy, verify_host_key}
use pfnc.Sftp.Auth.{authenticate}

pub data ConnectError : Type 0 where
  tcp_error : Str → IoError → ConnectError
  handshake_error : SshError → ConnectError
  host_key_error : Str → ConnectError
  auth_error : Str → ConnectError
  sftp_init_error : SshError → ConnectError

-- `QuicAgentHandle` of quic_agent.rs, by what it does.
pub record QuicAgentHandle (W : Type 0) : Type 0 where
  pub file_agent : RemoteFileAgent W
  pub pid : ℕ
  pub remote_port : ℕ
  pub local_port : W → Option ℕ × W

-- An `Arc` of a handle is the number of the handle.
pub record SftpCaches : Type 0 where
  pub xxhsum_available : Option Bool
  pub quic_agent_cache : Option (Option ℕ)
  pub remote_os_cache : Option (Option Str)

abbrev pub new_caches : SftpCaches
new_caches = record { xxhsum_available = none; quic_agent_cache = none; remote_os_cache = none }

-- Where a connection keeps its locks in the state, and the handles behind the numbers.
pub record Locks (W : Type 0) : Type 0 where
  pub caches : W → SftpCaches
  pub set_caches : SftpCaches → W → W
  pub handle : ℕ → QuicAgentHandle W

pub record SftpFs (Tcp W : Type 0) : Type 0 where
  pub session : Session Tcp W
  pub sftp : SftpChannel W
  pub host_name : Str
  pub place : Locks W

-- `{host}:{port}`
unfoldable pub address : ConnectionProfile → Str
address profile = profile.host ++ codes ":" ++ show_port profile.port

module _ {Tcp W : Type 0} (host : Host Tcp W) (paths : PathLib) (place : Locks W) where
  -- From `Session::new` to the handshake.
  abbrev pub greet : Tcp → M W ConnectError (Session Tcp W)
  greet tcp = do
    session ← map_err handshake_error host.new_session
    effect (session.set_tcp_stream tcp)
    effect (session.set_timeout 15000)
    map_err handshake_error session.handshake
    pure session

  abbrev pub require_authenticated : Bool → M W ConnectError (Unit {0})
  require_authenticated true = pure tt
  require_authenticated false =
      fail (auth_error (codes "server did not require_authenticated authentication"))

  unfoldable pub log_in : ConnectionProfile → Session Tcp W → M W ConnectError (SftpFs Tcp W)
  unfolding authenticate
  log_in profile session = do
    map_err auth_error (authenticate host paths session profile.username profile.auth)
    authenticated ← total session.authenticated
    require_authenticated authenticated
    sftp ← map_err sftp_init_error session.sftp
    effect (place.set_caches new_caches)
    pure (record { session = session; sftp = sftp; host_name = profile.host; place = place })

  unfoldable pub connect :
      ConnectionProfile → HostKeyPolicy W → VfsPath → M W ConnectError (SftpFs Tcp W)
  unfolding address verify_host_key log_in
  connect profile policy known_hosts_path = do
    tcp ← map_err (tcp_error (address profile)) (host.tcp_connect (address profile))
    ignore (host.set_nodelay tcp)
    session ← greet tcp
    map_err host_key_error
        (verify_host_key host paths session profile.host profile.port policy known_hosts_path)
    log_in profile session
