-- ===== src/Sftp/Login.antt =====
-- crates/vfs-sftp/src/lib.rs, hostkey.rs and auth.rs: which hosts are sent credentials.
use pfnc.Prelude.{◌≡◌, ℕ, false, Option, none, some, List, Str}
use pfnc.Effect.{M}
use pfnc.Effect.Hoare.{Any, Leaves}
use pfnc.Vfs.{VfsPath}
use pfnc.Vfs.Interface.{PathLib}
use pfnc.Sftp.Session.{
  CheckResult, check_match, check_mismatch, check_not_found, check_failure, KnownHosts, Session,
  Host,
}
use pfnc.Sftp.HostKey.{HostKeyPolicy}

-- No run succeeds, and `P` is kept.
abbrev pub Refused : {W E A : Type 0} → (W → Type 0) → M W E A → Type 0
Refused P m = Leaves P (λ _. ⊥) m

module _ {Tcp W : Type 0} (host : Host Tcp W) (paths : PathLib) (P : W → Type 0)
    (policy : HostKeyPolicy W) (Offered : List ℕ → Type 0) where
  -- What the file of known hosts says, and the policy about a host that is not in it.
  abbrev pub Distrusts : CheckResult → Type 0
  Distrusts check_match = ⊥
  Distrusts check_mismatch = Unit
  Distrusts check_failure = Unit
  Distrusts check_not_found =
      (name : Str) (port : ℕ) (print : Str) (w : W)
      → P w
      → ((policy.accept_unknown_host name port print w).0 ≡ false)
        × P (policy.accept_unknown_host name port print w).1

  -- `P` stands for what no call changes before a credential is sent, and `Offered` for the keys that the host can
  -- present: of other keys the file may say anything.
  pub record IsUnknown (id : Str) (known : KnownHosts W) : Type 0 where
    pub reads : (path : VfsPath) → Leaves P Any (known.read_file path)
    pub distrusts : (key : List ℕ) (w : W) → Offered key → P w → Distrusts (known.check id key w).0
    pub checks : (key : List ℕ) (w : W) → P w → P (known.check id key w).1

  abbrev pub IsOffered : Option (List ℕ × ℕ) → Type 0
  IsOffered none = Unit
  IsOffered (some (key, _)) = Offered key

  pub record IsDistrusted (id : Str) (session : Session Tcp W) : Type 0 where
    pub streams : (tcp : Tcp) (w : W) → P w → P (session.set_tcp_stream tcp w)
    pub times : (n : ℕ) (w : W) → P w → P (session.set_timeout n w)
    pub shakes : Leaves P Any session.handshake
    pub knows : Leaves P (IsUnknown id) session.known_hosts
    pub presents : (w : W) → P w → P (session.host_key w).1
    pub offers : (w : W) → P w → IsOffered (session.host_key w).0
    pub hashes : (w : W) → P w → P (session.host_key_hash w).1

  pub record MeetsDistrusted (id : Str) : Type 0 where
    pub looks : (path : VfsPath) (w : W) → P w → P (host.exists path w).1
    pub reaches : (addr : Str) → Leaves P Any (host.tcp_connect addr)
    pub hurries : (tcp : Tcp) → Leaves P Any (host.set_nodelay tcp)
    pub opens : Leaves P (IsDistrusted id) host.new_session
