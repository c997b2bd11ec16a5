-- ===== src/Sftp/Quic.antt =====
-- crates/vfs-sftp/src/quic_agent.rs: when the agent is used instead of SFTP, and what an attempt leaves behind.
-- A panic of `deploy_and_start` is an `err` here, which nothing catches: it ends the thread and leaves the lock unset.
-- `connect_quic` is what `connect_quic_agent` does on the network: the handshake and the exchange of versions. It
-- returns the number of the new handle.
use mathlib.Core.Option
use pfnc.Prelude.{ℕ, zero, suc, Bool, true, false, Option, none, some, Str, str_eq, codes, List}
use pfnc.Effect.{M, Result, ok, err, out_of_fuel, pure, ◌>>=◌}
use pfnc.Vfs.{VfsPath}
use pfnc.Vfs.Interface.{PathLib, RemoteFileAgent}
use pfnc.Connect.{trim}
use pfnc.Sftp.Session.{Channel, Host}
use pfnc.Sftp.Connect.{SftpFs}
use pfnc.Sftp.Deploy.{DeployedAgent, DeployError, panicked, deploy_and_start, kill_remote_process}

unfoldable pub os_supports_quic_agent : Str → Bool
os_supports_quic_agent uname_output = str_eq (trim uname_output) (codes "Linux")

-- `.ok()?` on the calls of a function that returns an `Option`: an error is `none`.
abbrev pub or_none_run : {W E A B : Type 0} → Result E A × W → (A → W → Option B × W) → Option B × W
or_none_run (ok a, w) next = next a w
or_none_run (err _, w) next = (none, w)
or_none_run (out_of_fuel, w) next = (none, w)

abbrev pub or_none : {W E A B : Type 0} → M W E A → (A → W → Option B × W) → W → Option B × W
or_none m next w = or_none_run (m w) next

-- The panic of `from_hex`, on its way out of the thread.
pub data Panic : Type 0 where
  hex_panic : Panic

-- `match deploy_and_start(..)`, whose error is only logged.
abbrev pub deployed_run :
    {W A B : Type 0}
    → Result DeployError A × W
    → (A → W → Result Panic (Option B) × W)
    → Result Panic (Option B) × W
deployed_run (ok a, w) next = next a w
deployed_run (err panicked, w) next = (err hex_panic, w)
deployed_run (err _, w) next = (ok none, w)
deployed_run (out_of_fuel, w) next = (out_of_fuel, w)

module _ {Tcp W : Type 0} (host : Host Tcp W) (paths : PathLib) where
  unfoldable pub exec_probe_remote_os : SftpFs Tcp W → W → Option Str × W
  exec_probe_remote_os fs = or_none fs.session.channel_session λ channel.
      or_none (channel.exec (codes "uname -s")) λ _.
        or_none channel.read_to_string
          λ stdout. or_none channel.wait_close λ _ w. (some (trim stdout), w)

  -- `OnceLock::get_or_init`: the probe runs when the lock is not set.
  abbrev pub probe_run : SftpFs Tcp W → Option Str × W → W
  probe_run fs (os, w) =
      fs.place.set_caches (record (fs.place.caches w) { remote_os_cache = some os }) w

  unfoldable pub warm_remote_os_probe : SftpFs Tcp W → W → W
  unfolding exec_probe_remote_os
  warm_remote_os_probe fs w = elim (fs.place.caches w).remote_os_cache [
    | some _ ↦ w
    | none ↦ probe_run fs (exec_probe_remote_os fs w)
  ]

  -- The directory of the program, and the one above it.
  unfoldable pub sibling : ℕ → VfsPath → W → Option VfsPath × W
  sibling zero dir w = (none, w)
  sibling (suc n) dir w =
      let candidate = paths.join dir (codes "pfnc-agent") in
      let (here, w') = host.exists candidate w in
      elim here [
        | true ↦ (some candidate, w')
        | false ↦ elim (paths.parent dir) [ none ↦ (none, w') | some up ↦ sibling n up w' ]
      ]

  unfoldable pub agent_binary_path : W → Option VfsPath × W
  unfolding sibling
  agent_binary_path =
      or_none host.current_exe
        λ exe w. elim (paths.parent exe) [ none ↦ (none, w) | some dir ↦ sibling 2 dir w ]

  module _ (as_bytes : Str → List ℕ) (retries : ℕ)
      (connect_quic : Str → DeployedAgent → Channel W → W → Option ℕ × W) where
    abbrev pub kill_quietly : SftpFs Tcp W → ℕ → W → W
    unfolding kill_remote_process
    kill_quietly fs pid w = (kill_remote_process fs pid w).1

    -- An agent that was started but cannot be reached is killed.
    abbrev pub reached_run : SftpFs Tcp W → ℕ → Option ℕ × W → Result Panic (Option ℕ) × W
    reached_run fs pid (some handle, w) = (ok (some handle), w)
    reached_run fs pid (none, w) = (ok none, kill_quietly fs pid w)

    unfoldable pub deploy_to : SftpFs Tcp W → VfsPath → M W Panic (Option ℕ)
    unfolding deploy_and_start kill_remote_process
    deploy_to fs binary_path w =
        deployed_run (deploy_and_start host as_bytes retries fs binary_path (codes "/tmp") w)
          λ started w'.
            reached_run fs started.0.pid (connect_quic fs.host_name started.0 started.1 w')

    abbrev pub deploy_found : SftpFs Tcp W → Option VfsPath × W → Result Panic (Option ℕ) × W
    unfolding deploy_to
    deploy_found fs (none, w) = (ok none, w)
    deploy_found fs (some binary_path, w) = deploy_to fs binary_path w

    abbrev pub known_os : Option (Option Str) → Option Str
    known_os none = none
    known_os (some os) = os

    abbrev pub deploy_on : SftpFs Tcp W → Option Str → M W Panic (Option ℕ)
    unfolding agent_binary_path os_supports_quic_agent deploy_to
    deploy_on fs none w = (ok none, w)
    deploy_on fs (some uname) w = elim (os_supports_quic_agent uname) [
      | true ↦ deploy_found fs (agent_binary_path w)
      | false ↦ (ok none, w)
    ]

    unfoldable pub deploy_and_connect_quic_agent : SftpFs Tcp W → M W Panic (Option ℕ)
    unfolding warm_remote_os_probe agent_binary_path os_supports_quic_agent deploy_to
    deploy_and_connect_quic_agent fs w =
        let w' = warm_remote_os_probe fs w in
        deploy_on fs (known_os (fs.place.caches w').remote_os_cache) w'

    abbrev pub cache_run : SftpFs Tcp W → Result Panic (Option ℕ) × W → Result Panic (Option ℕ) × W
    cache_run fs (ok agent, w) = (
      ok agent,
      fs.place.set_caches (record (fs.place.caches w) { quic_agent_cache = some agent }) w,
    )
    cache_run fs (err e, w) = (err e, w)
    cache_run fs (out_of_fuel, w) = (out_of_fuel, w)

    unfoldable pub reuse : SftpFs Tcp W → W → Option (Option ℕ) → Result Panic (Option ℕ) × W
    unfolding deploy_and_connect_quic_agent
    reuse fs w (some agent) = (ok agent, w)
    reuse fs w none = cache_run fs (deploy_and_connect_quic_agent fs w)

    -- `get_or_init`: a failure is kept too, but a panic leaves the lock as it was.
    unfoldable pub quic_agent : SftpFs Tcp W → M W Panic (Option ℕ)
    unfolding reuse
    quic_agent fs w = reuse fs w (fs.place.caches w).quic_agent_cache

    unfoldable pub fast_transport : SftpFs Tcp W → M W Panic (Option (RemoteFileAgent W))
    unfolding quic_agent
    fast_transport fs =
        quic_agent fs >>= λ agent. pure (Option.map (λ n. (fs.place.handle n).file_agent) agent)

  -- `Drop::drop`
  unfoldable pub drop_connection : SftpFs Tcp W → W → W
  unfolding kill_remote_process
  drop_connection fs w = elim (fs.place.caches w).quic_agent_cache [
    | none ↦ w
    | some cached ↦ elim cached [
      | none ↦ w
      | some agent ↦ (kill_remote_process fs (fs.place.handle agent).pid w).1
    ]
  ]
