-- ===== src/Sftp/HostKey.antt =====
-- crates/vfs-sftp/src/hostkey.rs: the key of the host against the file of known hosts.
use pfnc.Prelude.{
  ℕ, Bool, true, false, Option, none, some, List, [], ◌++◌, Str, codes, ◌==◌, if◌then◌else◌,
}
use pfnc.Effect.{M, pure, fail, total, map_err, ignore, ◌>>=◌, ◌>>◌}
use pfnc.Vfs.{VfsPath}
use pfnc.Vfs.Interface.{PathLib}
use pfnc.Connect.{show_port}
use pfnc.Sftp.Hex.{to_hex}
use pfnc.Sftp.Session.{
  SshError, CheckResult, check_match, check_mismatch, check_not_found, check_failure, KnownHosts,
  Session, Host,
}

-- Decides about a host that is not in `known_hosts`, by its name, its port and the print of its key.
pub record HostKeyPolicy (W : Type 0) : Type 0 where
  pub accept_unknown_host : Str → ℕ → Str → W → Bool × W

abbrev pub accept_new_policy : {W : Type 0} → HostKeyPolicy W
accept_new_policy = record { accept_unknown_host = λ _ _ _ w. (true, w) }

abbrev pub reject_unknown_policy : {W : Type 0} → HostKeyPolicy W
reject_unknown_policy = record { accept_unknown_host = λ _ _ _ w. (false, w) }

unfoldable pub host_key_id : Str → ℕ → Str
host_key_id host port =
    if port == 22 then host else codes "[" ++ host ++ codes "]:" ++ show_port port

abbrev pub print_of : Option (List ℕ) → Str
unfolding to_hex
print_of none = codes "<unavailable>"
print_of (some hash) = codes "SHA256:" ++ to_hex hash

-- The message in front of an error of ssh2.
abbrev pub because : Str → SshError → Str
because what e = what ++ codes ": " ++ e.text

abbrev pub is_changed : Str → VfsPath → Str
is_changed id path =
    codes "host key for "
    ++ id
    ++ codes " does not match the one in "
    ++ path
    ++ codes " — possible man-in-the-middle attack, refusing to connect"

module _ {Tcp W : Type 0} (host : Host Tcp W) (paths : PathLib) where
  unfoldable pub default_known_hosts_path : W → VfsPath × W
  default_known_hosts_path w =
      let (home, w') = host.var (codes "HOME") w in
      (
        paths.join (paths.join (elim home [ none ↦ [] | some dir ↦ dir ]) (codes ".ssh"))
            (codes "known_hosts"),
        w',
      )

  abbrev pub create_parent : Option VfsPath → M W Str (Unit {0})
  create_parent none = pure tt
  create_parent (some parent) = ignore (host.create_dir_all parent)

  -- The case `NotFound` behind the policy.
  abbrev pub record_host : KnownHosts W → Str → (List ℕ × ℕ) → VfsPath → M W Str (Unit {0})
  record_host known id key path = do
    map_err (because (codes "could not record host key")) (known.add id key.0 [] key.1)
    create_parent (paths.parent path)
    map_err (because (codes "could not save " ++ path)) (known.write_file path)

  module _ (session : Session Tcp W) (name : Str) (port : ℕ) (policy : HostKeyPolicy W)
      (path : VfsPath) where
    abbrev pub load_known : KnownHosts W → M W Str (Unit {0})
    load_known known = total (host.exists path) >>= λ here. elim here [
      | true ↦ map_err (because (codes "could not read " ++ path)) (known.read_file path)
      | false ↦ pure tt
    ]

    abbrev pub require_key : Option (List ℕ × ℕ) → M W Str (List ℕ × ℕ)
    require_key none = fail (codes "server did not present a host key")
    require_key (some key) = pure key

    unfoldable pub heed : KnownHosts W → (List ℕ × ℕ) → Bool → M W Str (Unit {0})
    unfolding host_key_id
    heed known key true = record_host known (host_key_id name port) key path
    heed known key false =
        fail (codes "host key for " ++ host_key_id name port ++ codes " rejected by policy")

    unfoldable pub with_print : KnownHosts W → (List ℕ × ℕ) → Option (List ℕ) → M W Str (Unit {0})
    unfolding heed
    with_print known key hash =
        total (policy.accept_unknown_host name port (print_of hash)) >>= heed known key

    unfoldable pub ask_policy : KnownHosts W → (List ℕ × ℕ) → M W Str (Unit {0})
    unfolding with_print
    ask_policy known key = total session.host_key_hash >>= with_print known key

    unfoldable pub judge : KnownHosts W → (List ℕ × ℕ) → CheckResult → M W Str (Unit {0})
    unfolding host_key_id ask_policy
    judge known key check_match = pure tt
    judge known key check_mismatch = fail (is_changed (host_key_id name port) path)
    judge known key check_failure = fail (codes "host key check failed")
    judge known key check_not_found = ask_policy known key

    unfoldable pub verify_host_key : M W Str (Unit {0})
    unfolding judge host_key_id
    verify_host_key = do
      known ← map_err (because (codes "could not initialize known_hosts")) session.known_hosts
      load_known known
      presented ← total session.host_key
      key ← require_key presented
      result ← total (known.check (host_key_id name port) key.0)
      judge known key result
