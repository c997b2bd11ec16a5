-- ===== src/Sftp/Once.antt =====
-- crates/vfs-sftp/src/quic_agent.rs, `quic_agent`: the agent is started once for a connection.
use pfnc.Prelude.{◌≡◌, ◌∙◌, ap, sym, subst, Option, some, Option-cases, inl, inr, ℕ, List, Str}
use pfnc.Effect.{Result, ok, err, out_of_fuel, err-ne-ok}
use pfnc.Vfs.Interface.{PathLib}
use pfnc.Sftp.Session.{Channel, Host}
use pfnc.Sftp.Connect.{Locks, SftpFs, SftpCaches}
use pfnc.Sftp.Deploy.{DeployedAgent}
use pfnc.Sftp.Quic.{Panic, quic_agent, reuse, cache_run, deploy_and_connect_quic_agent}

-- What is written to the locks is read back.
abbrev pub AreKept : {W : Type 0} → Locks W → Type 0
AreKept {W} locks = (c : SftpCaches) (w : W) → locks.caches (locks.set_caches c w) ≡ c

module _ {Tcp W : Type 0} (host : Host Tcp W) (paths : PathLib) (as_bytes : Str → List ℕ)
    (retries : ℕ) (connect_quic : Str → DeployedAgent → Channel W → W → Option ℕ × W)
    (fs : SftpFs Tcp W) where
  again_cached :
      (o : Result Panic (Option ℕ) × W) (agent : Option ℕ)
      → AreKept fs.place
      → (cache_run host paths as_bytes retries connect_quic fs o).0 ≡ ok agent
      → quic_agent host paths as_bytes retries connect_quic fs
          (cache_run host paths as_bytes retries connect_quic fs o).1
        ≡ cache_run host paths as_bytes retries connect_quic fs o
  unfolding quic_agent
  again_cached (ok agent, w) _ law returned =
      let c = record (fs.place.caches w) { quic_agent_cache = some agent } in
      ap
        (λ k.
          reuse host paths as_bytes retries connect_quic fs (fs.place.set_caches c w)
            k.quic_agent_cache)
        (law c w)
  again_cached (err e, w) _ law returned = absurd (err-ne-ok returned)
  again_cached (out_of_fuel, w) _ law returned = cc

  kept :
      (w : W) (o : Result Panic (Option ℕ) × W)
      → quic_agent host paths as_bytes retries connect_quic fs w ≡ o
      → quic_agent host paths as_bytes retries connect_quic fs o.1 ≡ o
      → quic_agent host paths as_bytes retries connect_quic fs
          (quic_agent host paths as_bytes retries connect_quic fs w).1
        ≡ quic_agent host paths as_bytes retries connect_quic fs w
  kept w o e again =
      subst (λ r. quic_agent host paths as_bytes retries connect_quic fs r.1 ≡ r) (sym e) again

  -- Once `quic_agent` has returned, and not panicked, every later call returns the same agent, or the same
  -- failure, and does nothing else: nothing is uploaded, started or killed a second time.
  pub quic_agent-quic_agent :
      (w : W) (agent : Option ℕ)
      → AreKept fs.place
      → (quic_agent host paths as_bytes retries connect_quic fs w).0 ≡ ok agent
      → quic_agent host paths as_bytes retries connect_quic fs
          (quic_agent host paths as_bytes retries connect_quic fs w).1
        ≡ quic_agent host paths as_bytes retries connect_quic fs w
  unfolding quic_agent
  quic_agent-quic_agent w agent law returned =
      elim (Option-cases (fs.place.caches w).quic_agent_cache) [
        | inl unset ↦
            let fresh = ap (reuse host paths as_bytes retries connect_quic fs w) unset in
            kept w _ fresh (
              again_cached
                (deploy_and_connect_quic_agent host paths as_bytes retries connect_quic fs w) agent
                law (sym (ap (λ o. o.0) fresh) ∙ returned))
        | inr (cached, set) ↦
            let found = ap (reuse host paths as_bytes retries connect_quic fs w) set in
            kept w _ found found
      ]
