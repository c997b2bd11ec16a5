-- ===== src/Sftp/Fake.antt =====
-- crates/vfs-sftp: a remote host for the tests, whose key is not the recorded one, `9`. The state is the credentials
-- that were sent, and the locks of the connection.
use pfnc.Prelude.{ℕ, true, none, some, List, [], ◌∷◌, Str, codes, str_eq, if◌then◌else◌}
use pfnc.Effect.{pure, fail}
use pfnc.Vfs.{IoError, kind_other}
use pfnc.Registry.{ConnectionProfile, auto}
use pfnc.Sftp.Session.{
  SshError, check_match, check_mismatch, KnownHosts, Channel, SftpChannel, Session, Host, FileType,
  type_file, type_dir, FileStat,
}
use pfnc.Sftp.Connect.{SftpCaches, Locks, SftpFs}

abbrev pub Client : Type 0
Client = List Str × SftpCaches

abbrev io_error : IoError
io_error = record { error_kind = kind_other; message = codes "none" }

abbrev pub no_such : SshError
no_such = record { as_io = io_error; text = codes "none" }

abbrev pub changed_host : KnownHosts Client
changed_host = record {
  read_file = λ _. pure tt;
  check = λ _ key w. (if str_eq key (9 ∷ []) then check_match else check_mismatch, w);
  add = λ _ _ _ _. pure tt;
  write_file = λ _. pure tt;
}

abbrev silent_channel : Channel Client
silent_channel = record {
  exec = λ _. pure tt;
  read_to_string = pure (codes "Linux");
  read_line = pure [];
  wait_close = pure tt;
  exit_status = pure 0;
}

abbrev stat_of : FileType → FileStat
stat_of file_type = record { file_type = file_type; size = some 3; mtime = some 1; perm = none }

-- A file, a name that is not UTF-8, and a directory.
abbrev small_sftp : SftpChannel Client
small_sftp = record {
  readdir = λ _. pure (
      (some (codes "a"), stat_of type_file)
      ∷ (none, stat_of type_dir)
      ∷ (some (codes "zz"), stat_of type_dir)
      ∷ []);
  lstat = λ _. fail no_such;
  stat = λ _. fail no_such;
  readlink = λ _. fail no_such;
  open_file = λ _. fail no_such;
  open_truncated = λ _ _. fail no_such;
  mkdir = λ _ _. pure tt;
  unlink = λ _. pure tt;
  rmdir = λ _. pure tt;
  rename = λ _ _. pure tt;
  symlink = λ _ _. pure tt;
  setstat = λ _ _. pure tt;
}

abbrev sends : Str → Client → Client
sends secret (sent, locks) = (secret ∷ sent, locks)

abbrev pub fake_session : Session ℕ Client
fake_session = record {
  set_tcp_stream = λ _ w. w;
  set_timeout = λ _ w. w;
  handshake = pure tt;
  known_hosts = pure changed_host;
  host_key = λ w. (some (1 ∷ 2 ∷ [], 0), w);
  host_key_hash = λ w. (none, w);
  userauth_agent = λ user w. pure tt (sends user w);
  userauth_pubkey_file = λ _ _ key _ w. pure tt (sends key w);
  userauth_password = λ _ password w. pure tt (sends password w);
  userauth_keyboard_interactive = λ user _ w. pure tt (sends user w);
  authenticated = λ w. (true, w);
  sftp = pure small_sftp;
  channel_session = pure silent_channel;
}

abbrev pub fake_host : Host ℕ Client
fake_host = record {
  exists = λ _ w. (true, w);
  create_dir_all = λ _. pure tt;
  read_bytes = λ _. pure [];
  var = λ _ w. (none, w);
  current_exe = pure (codes "/bin/pfnc");
  tcp_connect = λ _. pure 7;
  set_nodelay = λ _. pure tt;
  new_session = pure fake_session;
}

abbrev pub fake_locks : Locks Client
fake_locks = record {
  caches = λ w. w.1;
  set_caches = λ c w. (w.0, c);
  handle = λ n. record {
    file_agent = record { read_file = λ _ _. pure 0; write_file = λ _ _ _. pure tt };
    pid = n;
    remote_port = 9;
    local_port = λ w. (none, w);
  };
}

abbrev pub fake_fs : SftpFs ℕ Client
fake_fs = record {
  session = fake_session;
  sftp = small_sftp;
  host_name = codes "h";
  place = fake_locks;
}

abbrev pub fake_profile : ConnectionProfile
fake_profile = record {
  id = codes "p";
  host = codes "h";
  port = 2222;
  username = codes "me";
  auth = auto (some (codes "secret"));
}
