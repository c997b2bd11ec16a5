-- ===== src/Sftp/Auth.antt =====
-- crates/vfs-sftp/src/auth.rs: the ways to prove who the user is.
use pfnc.Prelude.{true, false, Option, none, some, List, [], ◌∷◌, Str, codes, map}
use pfnc.Effect.{M, Result, ok, err, out_of_fuel, fail, total, map_err, ◌>>=◌}
use pfnc.Vfs.{VfsPath}
use pfnc.Vfs.Interface.{PathLib}
use pfnc.Registry.{AuthMethod, agent, key_file, password_only, keyboard_interactive, auto}
use pfnc.Sftp.Session.{SshError, Session, Host}
use pfnc.Sftp.HostKey.{because}

-- `SinglePasswordPrompter`: the password answers every prompt.
abbrev pub answer_all : Str → List Str → List Str
answer_all password prompts = map (λ _. password) prompts

abbrev pub all_failed : Str
all_failed = codes "all authentication methods failed (agent, default keys, password)"

module _ {Tcp W : Type 0} (host : Host Tcp W) (paths : PathLib) where
  abbrev pub key_files_in : Option Str → List VfsPath
  key_files_in none = []
  key_files_in (some home) =
      map (λ name. paths.join (paths.join home (codes ".ssh")) name)
        (codes "id_ed25519" ∷ codes "id_rsa" ∷ codes "id_ecdsa" ∷ [])

  unfoldable pub default_key_files : W → List VfsPath × W
  default_key_files w = let (home, w') = host.var (codes "HOME") w in (key_files_in home, w')

  module _ (session : Session Tcp W) (username : Str) where
    -- `if m.is_ok() { return Ok(()); }`, and what comes next.
    abbrev pub or_else_run :
        Result SshError (Unit {0}) × W → M W Str (Unit {0}) → Result Str (Unit {0}) × W
    or_else_run (ok _, w) next = (ok tt, w)
    or_else_run (err _, w) next = next w
    or_else_run (out_of_fuel, w) next = (out_of_fuel, w)

    abbrev pub or_else : M W SshError (Unit {0}) → M W Str (Unit {0}) → M W Str (Unit {0})
    or_else m next w = or_else_run (m w) next

    unfoldable pub try_keys : List VfsPath → M W Str (Unit {0}) → M W Str (Unit {0})
    try_keys [] next = next
    try_keys (key ∷ keys) next =
        let rest = try_keys keys next in
        total (host.exists key) >>= λ here. elim here [
          | true ↦ or_else (session.userauth_pubkey_file username none key none) rest
          | false ↦ rest
        ]

    abbrev pub try_password : Option Str → M W Str (Unit {0})
    try_password none = fail all_failed
    try_password (some password) = or_else (session.userauth_password username password) (
        or_else (session.userauth_keyboard_interactive username (answer_all password))
          (fail all_failed))

    unfoldable pub auto_authenticate : Option Str → M W Str (Unit {0})
    unfolding default_key_files try_keys
    auto_authenticate password =
        or_else (session.userauth_agent username)
          (total default_key_files >>= λ keys. try_keys keys (try_password password))

    unfoldable pub authenticate : AuthMethod → M W Str (Unit {0})
    unfolding auto_authenticate
    authenticate agent =
        map_err (because (codes "agent auth failed")) (session.userauth_agent username)
    authenticate (key_file private_key public_key passphrase) =
        map_err (because (codes "key auth failed"))
          (session.userauth_pubkey_file username public_key private_key passphrase)
    authenticate (password_only password) =
        map_err (because (codes "password auth failed"))
          (session.userauth_password username password)
    authenticate (keyboard_interactive password) =
        map_err (because (codes "keyboard-interactive auth failed"))
          (session.userauth_keyboard_interactive username (answer_all password))
    authenticate (auto password) = auto_authenticate password
