-- ===== src/Sftp/Session.antt =====
-- What crates/vfs-sftp calls of the crate ssh2, and of the machine that it runs on, over the state `W` of
-- everything that these calls read or change. The objects of ssh2 are records of their methods.
use pfnc.Prelude.{ℕ, Bool, Option, List, Str}
use pfnc.Effect.{M}
use pfnc.Vfs.{VfsPath, IoError}
use pfnc.Vfs.Interface.{Reader, Writer}

-- `ssh2::Error`, by the `io::Error` that it converts to and the text that it shows.
pub record SshError : Type 0 where
  pub as_io : IoError
  pub text : Str

-- `ssh2::CheckResult`
pub data CheckResult : Type 0 where
  check_match check_mismatch check_not_found check_failure : CheckResult

-- `ssh2::KnownHosts`; a key is its bytes, and its type a number.
pub record KnownHosts (W : Type 0) : Type 0 where
  pub read_file : VfsPath → M W SshError (Unit {0})
  pub check : Str → List ℕ → W → CheckResult × W
  pub add : Str → List ℕ → Str → ℕ → M W SshError (Unit {0})
  pub write_file : VfsPath → M W SshError (Unit {0})

-- `ssh2::Channel`; `read_line` is that of a `BufReader` around it.
pub record Channel (W : Type 0) : Type 0 where
  pub exec : Str → M W SshError (Unit {0})
  pub read_to_string : M W IoError Str
  pub read_line : M W IoError Str
  pub wait_close : M W SshError (Unit {0})
  pub exit_status : M W SshError ℕ

pub data FileType : Type 0 where
  type_dir type_symlink type_file type_other : FileType

-- `ssh2::FileStat`, without what only `setstat` sends back.
pub record FileStat : Type 0 where
  pub file_type : FileType
  pub size : Option ℕ
  pub mtime : Option ℕ
  pub perm : Option ℕ

-- `ssh2::Sftp`. A path of the remote host that is not UTF-8 is `none`; `open_mode` is asked for the flags
-- `WRITE` and `TRUNCATE` on a file.
pub record SftpChannel (W : Type 0) : Type 0 where
  pub readdir : VfsPath → M W SshError (List (Option VfsPath × FileStat))
  pub lstat : VfsPath → M W SshError FileStat
  pub stat : VfsPath → M W SshError FileStat
  pub readlink : VfsPath → M W SshError (Option VfsPath)
  pub open_file : VfsPath → M W SshError (Reader W)
  pub open_truncated : VfsPath → ℕ → M W SshError (Writer W)
  pub mkdir : VfsPath → ℕ → M W SshError (Unit {0})
  pub unlink : VfsPath → M W SshError (Unit {0})
  pub rmdir : VfsPath → M W SshError (Unit {0})
  pub rename : VfsPath → VfsPath → M W SshError (Unit {0})
  pub symlink : VfsPath → VfsPath → M W SshError (Unit {0})
  pub setstat : VfsPath → FileStat → M W SshError (Unit {0})

-- `ssh2::Session`. The answers to the prompts of a server are a function of the prompts.
pub record Session (Tcp W : Type 0) : Type 0 where
  pub set_tcp_stream : Tcp → W → W
  pub set_timeout : ℕ → W → W
  pub handshake : M W SshError (Unit {0})
  pub known_hosts : M W SshError (KnownHosts W)
  pub host_key : W → Option (List ℕ × ℕ) × W
  pub host_key_hash : W → Option (List ℕ) × W
  pub userauth_agent : Str → M W SshError (Unit {0})
  pub userauth_pubkey_file : Str → Option VfsPath → VfsPath → Option Str → M W SshError (Unit {0})
  pub userauth_password : Str → Str → M W SshError (Unit {0})
  pub userauth_keyboard_interactive : Str → (List Str → List Str) → M W SshError (Unit {0})
  pub authenticated : W → Bool × W
  pub sftp : M W SshError (SftpChannel W)
  pub channel_session : M W SshError (Channel W)

-- `std::fs`, `std::env` and `std::net`, as far as they are called; `var` is `none` for what is not UTF-8, too.
pub record Host (Tcp W : Type 0) : Type 0 where
  pub exists : VfsPath → W → Bool × W
  pub create_dir_all : VfsPath → M W IoError (Unit {0})
  pub read_bytes : VfsPath → M W IoError (List ℕ)
  pub var : Str → W → Option Str × W
  pub current_exe : M W IoError VfsPath
  pub tcp_connect : Str → M W IoError Tcp
  pub set_nodelay : Tcp → M W IoError (Unit {0})
  pub new_session : M W SshError (Session Tcp W)
