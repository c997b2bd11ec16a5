-- ===== src/Sftp/Deploy.antt =====
-- crates/vfs-sftp/src/deploy.rs: how the agent is put on the remote host and started, what it says of itself, and
-- how it is stopped. `as_bytes` is the UTF-8 of a text.
use pfnc.Prelude.{
  ℕ, zero, suc, ◌-◌, ◌^◌, Bool, true, false, Option, none, some, List, [], ◌∷◌, ◌++◌, Str, codes,
  ◌==◌, if◌then◌else◌,
}
use pfnc.Prelude.Decimal.{parse_unsigned, to_digits}
use pfnc.Effect.{M, Result, ok, err, out_of_fuel, pure, map_err, ◌>>=◌, ◌>>◌}
use pfnc.Vfs.{VfsPath, IoError}
use pfnc.Transport.{write_all}
use pfnc.Connect.{trim}
use pfnc.Sftp.{agent_command}
use pfnc.Sftp.Hex.{HexError, Decoded, decoded, refused, from_hex}
use pfnc.Sftp.Session.{SshError, Channel, Host}
use pfnc.Sftp.Connect.{SftpFs}

pub record DeployedAgent : Type 0 where
  pub pid : ℕ
  pub port : ℕ
  pub cert_der : List ℕ

-- The messages of `MalformedOutput`; a line is quoted in the message.
pub data Malformed : Type 0 where
  bad_pid bad_port : Str → Malformed
  bad_cert : HexError → Malformed
  missing_lines : Malformed

-- `panicked` is no `DeployError`: it marks a panic of `from_hex`.
pub data DeployError : Type 0 where
  read_local_binary : VfsPath → IoError → DeployError
  upload : Str → DeployError
  exec : SshError → DeployError
  read_output : IoError → DeployError
  malformed_output : Malformed → DeployError
  kill : ℕ → Str → DeployError
  panicked : DeployError

unfoldable pub strip_prefix : Str → Str → Option Str
strip_prefix [] s = some s
strip_prefix (p ∷ ps) [] = none
strip_prefix (p ∷ ps) (c ∷ s) = let rest = strip_prefix ps s in if p == c then rest else none

-- What the lines so far have told.
pub record Startup : Type 0 where
  pub pid : Option ℕ
  pub port : Option ℕ
  pub cert_der : Option (List ℕ)

abbrev pub nothing_told : Startup
nothing_told = record { pid = none; port = none; cert_der = none }

abbrev pub require : {A : Type 0} → DeployError → Option A → Result DeployError A
require e none = err e
require e (some a) = ok a

-- The certificate; `none` is the panic of `from_hex`.
abbrev pub decode_cert : Option Decoded → Result DeployError (List ℕ)
decode_cert none = err panicked
decode_cert (some (decoded bytes)) = ok bytes
decode_cert (some (refused e)) = err (malformed_output (bad_cert e))

abbrev pub map_ok : {E A B : Type 0} → (A → B) → Result E A → Result E B
map_ok f (ok a) = ok (f a)
map_ok f (err e) = err e
map_ok f out_of_fuel = out_of_fuel

abbrev pub incomplete : {A : Type 0} → Result DeployError A
incomplete = err (malformed_output missing_lines)

unfoldable pub agent_of : Startup → Result DeployError DeployedAgent
agent_of told = elim told.pid [
  | none ↦ incomplete
  | some pid ↦ elim told.port [
    | none ↦ incomplete
    | some port ↦ elim told.cert_der [
      | none ↦ incomplete
      | some cert ↦ ok (record { pid = pid; port = port; cert_der = cert })
    ]
  ]
]

unfoldable pub is_told : Startup → Bool
is_told told = elim told.pid [
  | none ↦ false
  | some _ ↦ elim told.port [
    | none ↦ false
    | some _ ↦ elim told.cert_der [ none ↦ false | some _ ↦ true ]
  ]
]

module _ (as_bytes : Str → List ℕ) where
  unfoldable pub take_pid : Str → Str → Startup → Result DeployError Startup
  take_pid line value told =
      map_ok (λ n. record told { pid = some n })
        (require (malformed_output (bad_pid line)) (parse_unsigned (2 ^ 32 - 1) value))

  unfoldable pub take_port : Str → Str → Startup → Result DeployError Startup
  take_port line value told =
      map_ok (λ n. record told { port = some n })
        (require (malformed_output (bad_port line)) (parse_unsigned 65535 value))

  unfoldable pub take_cert : Str → Startup → Result DeployError Startup
  unfolding from_hex
  take_cert value told =
      map_ok (λ bytes. record told { cert_der = some bytes })
        (decode_cert (from_hex (as_bytes value)))

  -- A line, by what is behind each of the three prefixes.
  unfoldable pub take_value :
      Str → Startup → Option Str → Option Str → Option Str → Result DeployError Startup
  unfolding take_pid take_port take_cert
  take_value line told (some pid) port cert = take_pid line pid told
  take_value line told none (some port) cert = take_port line port told
  take_value line told none none (some cert) = take_cert cert told
  take_value line told none none none = ok told

  -- One line, trimmed.
  unfoldable pub take_line : Str → Startup → Result DeployError Startup
  unfolding take_value strip_prefix
  take_line line told =
      take_value line told (strip_prefix (codes "PFNC-AGENT-PID ") line)
        (strip_prefix (codes "PFNC-AGENT-PORT ") line)
        (strip_prefix (codes "PFNC-AGENT-CERT-HEX ") line)

  module _ {W : Type 0} (read_line : M W IoError Str) where
    -- The result of a line, at the state behind it.
    abbrev pub given : {A : Type 0} → Result DeployError A → M W DeployError A
    given r w = (r, w)

    unfoldable pub after_line :
        (Startup → M W DeployError Startup) → Startup → Str → M W DeployError Startup
    unfolding take_line
    after_line again told [] = pure told
    after_line again told (c ∷ line) = given (take_line (trim (c ∷ line)) told) >>= again

    -- The turns that are left of `for _ in 0..MAX_STARTUP_LINES`.
    unfoldable pub startup_loop : ℕ → Startup → M W DeployError Startup
    unfolding after_line is_told
    startup_loop zero told = pure told
    startup_loop (suc turns) told = elim (is_told told) [
      | true ↦ pure told
      | false ↦ map_err read_output read_line >>= after_line (startup_loop turns) told
    ]

    unfoldable pub parse_startup_lines : M W DeployError DeployedAgent
    unfolding startup_loop agent_of
    parse_startup_lines = startup_loop 50 nothing_told >>= λ told. given (agent_of told)

-- `e.to_string()`.
abbrev pub uploading : {A : Type 0} {W E : Type 0} → (E → Str) → M W E A → M W DeployError A
uploading show m = map_err (λ e. upload (show e)) m

module _ {Tcp W : Type 0} (host : Host Tcp W) (as_bytes : Str → List ℕ) (retries : ℕ) where
  abbrev pub remote_binary : Str → VfsPath
  remote_binary remote_dir = remote_dir ++ codes "/pfnc-agent"

  -- The file is opened with 0o755, written, and closed; `retries` is the fuel of `write_all`.
  unfoldable pub upload_agent : SftpFs Tcp W → List ℕ → VfsPath → M W DeployError (Unit {0})
  unfolding write_all
  upload_agent vfs bytes remote_path = do
    remote_file ← uploading (λ e. e.text) (vfs.sftp.open_truncated remote_path 493)
    uploading (λ e. e.message) (write_all retries remote_file bytes)

  unfoldable pub deploy_and_start :
      SftpFs Tcp W → VfsPath → Str → M W DeployError (DeployedAgent × Channel W)
  unfolding upload_agent agent_command parse_startup_lines
  deploy_and_start vfs local_binary_path remote_dir = do
    bytes ← map_err (read_local_binary local_binary_path) (host.read_bytes local_binary_path)
    upload_agent vfs bytes (remote_binary remote_dir)
    channel ← map_err exec vfs.session.channel_session
    map_err exec (channel.exec (agent_command (remote_binary remote_dir)))
    deployed ← parse_startup_lines as_bytes channel.read_line
    pure (deployed, channel)

abbrev pub killing : {A W : Type 0} → ℕ → M W SshError A → M W DeployError A
killing pid m = map_err (λ e. kill pid e.text) m

unfoldable pub kill_remote_process :
    {Tcp W : Type 0} → SftpFs Tcp W → ℕ → M W DeployError (Unit {0})
unfolding to_digits
kill_remote_process vfs pid = do
  channel ← killing pid vfs.session.channel_session
  killing pid (channel.exec (codes "kill " ++ to_digits 10 pid))
  discard ← map_err (λ e. kill pid e.message) channel.read_to_string
  killing pid channel.wait_close
