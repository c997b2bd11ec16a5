-- ===== src/Config/Store.antt =====
-- crates/config/src/lib.rs: a file of settings that is written and read again.
use pfnc.Prelude.{◌≡◌, ◌∙◌, refl, sym, ap, true, Str}
use pfnc.Effect.{ok, map_err_run, ok_of_then_run, ok_of_map_err_run, map_err_run_state}
use pfnc.Vfs.{VfsPath}
use pfnc.Config.{
  Config, ConfigIo, ConfigError, load_from, save_to, create_parent, serialize_failed, write_failed,
}

-- What is written is there and is read again, and what toml prints it parses.
pub record IsFaithful {W : Type 0} (io : ConfigIo W) : Type 0 where
  pub written :
      (path : VfsPath) (text : Str) (w : W)
      → (io.write path text w).0 ≡ ok tt
      → (io.exists path (io.write path text w).1).0 ≡ true
  pub read_back :
      (path : VfsPath) (text : Str) (w : W)
      → (io.write path text w).0 ≡ ok tt
      → (io.read_to_string path (io.exists path (io.write path text w).1).1).0 ≡ ok text
  pub parsed : (c : Config) (text : Str) → io.to_string_pretty c ≡ ok text → io.from_str text ≡ ok c

module _ {W : Type 0} (io : ConfigIo W) (faithful : IsFaithful io) where
  load_from-written :
      (path : VfsPath) (c : Config) (text : Str) (w : W)
      → io.to_string_pretty c ≡ ok text
      → (io.write path text w).0 ≡ ok tt
      → (load_from io path (io.write path text w).1).0 ≡ ok c
  unfolding load_from
  load_from-written path c text w shown stored =
      rw
        (
          faithful.written path text w stored,
          faithful.read_back path text w stored,
          faithful.parsed c text shown,
        )
        refl

  -- After `save_to` succeeded, `load_from` of the same path returns the settings that were saved,
  -- if the file system reads what was written to it and toml parses what it printed.
  pub load_from-save_to :
      (path : VfsPath) (c : Config) (w : W)
      → (save_to io path c w).0 ≡ ok tt
      → (load_from io path (save_to io path c w).1).0 ≡ ok c
  unfolding save_to
  load_from-save_to path c w saved =
      let (_, _, prepared) = ok_of_then_run (create_parent io path (io.parent path) w) _ saved in
      let v = (create_parent io path (io.parent path) w).1 in
      let (text, printed, rest) =
        ok_of_then_run (map_err_run {F = ConfigError} serialize_failed (io.to_string_pretty c, v)) _
          (sym (ap (λ o. o.0) prepared) ∙ saved) in
      let v' = (map_err_run {F = ConfigError} serialize_failed (io.to_string_pretty c, v)).1 in
      let whole = prepared ∙ rest in
      let stored =
        ok_of_map_err_run (write_failed path) (io.write path text v')
          (sym (ap (λ o. o.0) whole) ∙ saved) in
      rw (whole, map_err_run_state (write_failed path) (io.write path text v'))
        (load_from-written path c text v'
          (ok_of_map_err_run {F = ConfigError} serialize_failed (io.to_string_pretty c, v) printed)
          stored)
