-- ===== src/App/Panels.antt =====
-- crates/app/src/actions.rs and app.rs: the cursors of the two panels, after keys and after events.

use pfnc.Prelude.{◌<◌, ◌≡◌, refl, inl, inr, List, [], length, arith}
use pfnc.Prelude.Words.{isize_bound}
use pfnc.Effect.{Result, ok, err, out_of_fuel, Result-cases}
use pfnc.Vfs.{VfsPath, VfsError, EntryMeta, Location}
use pfnc.Vfs.Interface.{Vfs}
use pfnc.Keys.{KeyCode}
use pfnc.Panel.{PanelState, IsValid}
use pfnc.Panel.Cursor.{clamp_cursor-IsValid}
use pfnc.Job.Manager.{JobEvent}
use pfnc.Registry.{VfsRegistry, resolve}
use pfnc.App.{
  App, Libs, PaneSide, left_side, right_side, panel_at, put_panel, listed, show_entries, fetch,
  reload, begin_job, probe_quic, spawn_task,
}
use pfnc.App.Start.{spawn_delete, spawn_execute_sync}
use pfnc.App.Dispatch.{handle_key}
use pfnc.App.Events.{handle_job_event}
use pfnc.App.Frame.Reactions.{Reacts, handle_job_event_keeps}
use pfnc.App.Frame.{Rules, Outcome}
use pfnc.App.Frame.Dialogs.{handle_key_keeps}

-- No backend lists as many entries as a `Vec` cannot hold.
abbrev pub AreShort : {W : Type 0} → VfsRegistry W → Type 0
AreShort {W} r =
    (l : Location) (vfs : Vfs W)
    → resolve r l ≡ ok vfs
    → (p : VfsPath) (w : W) (es : List EntryMeta) → (vfs.list_dir p w).0 ≡ ok es
    → length es < isize_bound

abbrev pub IsSound : {W : Type 0} → App W → Type 0
IsSound app = IsValid app.left × IsValid app.right × AreShort app.registry

listed_short :
    (r : Result VfsError (List EntryMeta))
    → ((es : List EntryMeta) → r ≡ ok es → length es < isize_bound)
    → length (listed r) < isize_bound
listed_short (ok es) h = h es refl
listed_short (err e) h = omega arith
listed_short out_of_fuel h = omega arith

module _ {W : Type 0} where
  fetched_short :
      (r : VfsRegistry W) (p : PanelState) (w : W)
      → AreShort r
      → length (listed (fetch r p w).0) < isize_bound
  fetched_short r p w short = elim (Result-cases (resolve r p.location)) [
    | inl (vfs, found) ↦
        rw found (listed_short (vfs.list_dir p.cwd w).0 (short p.location vfs found p.cwd w))
    | inr (inl (e, refused)) ↦ rw refused (omega arith)
    | inr (inr none_left) ↦ rw none_left (omega arith)
  ]

  put_panel-IsSound :
      (side : PaneSide) (p : PanelState) (app : App W)
      → IsValid p
      → IsSound app
      → IsSound (put_panel side p app)
  put_panel-IsSound left_side p app v s = (v, s.1, s.2)
  put_panel-IsSound right_side p app v s = (s.0, v, s.2)

  panel_at-IsValid : (side : PaneSide) (app : App W) → IsSound app → IsValid (panel_at side app)
  panel_at-IsValid left_side app s = s.0
  panel_at-IsValid right_side app s = s.1

  pub reload-IsSound : (side : PaneSide) (app : App W) → IsSound app → IsSound (reload side app)
  unfolding reload
  reload-IsSound side app s =
      let (result, w) = fetch app.registry (panel_at side app) app.world in
      put_panel-IsSound side (show_entries result (panel_at side app)) (record app { world = w })
        (clamp_cursor-IsValid
          (record (panel_at side app) { entries = listed result; selected = [] })
          (fetched_short app.registry (panel_at side app) app.world s.2)
          (panel_at-IsValid side app s).scrolled)
        s

  pub cursor_rules : Rules {W = W} ⊥ IsSound
  unfolding begin_job
  cursor_rules = record {
    sets_mode = λ _ _ _ s. s;
    sets_status = λ _ _ _ _ s. s;
    quits = λ _ s. s;
    switches = λ _ _ s. s;
    requests = λ _ _ s. s;
    cancels = λ _ _ _ _ s. s;
    changes = λ f app keeps s.
        put_panel-IsSound app.active _ app (keeps _ (panel_at-IsValid app.active app s)) s;
    reloads = reload-IsSound;
    acts = λ _ _ _ s. s;
    allocates = λ _ _ _ s. s;
    begins = λ _ _ _ _ _ _ s. s;
  }

  probe_quic-IsSound : (side : PaneSide) (app : App W) → IsSound app → IsSound (probe_quic side app)
  unfolding probe_quic
  probe_quic-IsSound side app s =
      let v = panel_at-IsValid side app s in
      put_panel-IsSound side _ (record app { world = _ })
        (record { on_entry = v.on_entry; listed = v.listed; scrolled = v.scrolled }) s

  cursor_reacts : Reacts {W = W} IsSound
  unfolding spawn_task
  cursor_reacts = record {
    turns = λ side l app s.
        let v = panel_at-IsValid side app s in
        put_panel-IsSound side _ app
          (record { on_entry = inl refl; listed = v.listed; scrolled = v.scrolled }) s;
    probes = probe_quic-IsSound;
    configures = λ _ _ s. s;
    warms = λ _ _ _ _ s. s;
    forgets = λ _ _ _ s. s;
  }

  module _ {Float : Type 0} (libs : Libs Float) where
    -- No key takes the cursor of a panel off its listing, in any mode: with both panels valid, and
    -- backends whose listings fit into a `Vec`, a key that does not panic leaves them so.
    pub handle_key-IsSound :
        (key : KeyCode) (app : App W) → IsSound app → Outcome IsSound (handle_key libs key app)
    unfolding spawn_delete spawn_execute_sync begin_job
    handle_key-IsSound key app s =
        handle_key_keeps libs ⊥ IsSound cursor_rules key app (λ _ _ _. s) (λ _ _ _ _ _. s)
          (λ _ _ _ _ _ _ _. s) (λ _ _ _ _ _ _ _ _ _ _ _ _ p. p) (λ q. absurd q) s

    -- The same holds of every event that a job sends, whatever job it is of.
    pub handle_job_event-IsSound :
        (event : JobEvent) (app : App W) → IsSound app → IsSound (handle_job_event libs event app)
    handle_job_event-IsSound event app s =
        handle_job_event_keeps ⊥ IsSound cursor_rules cursor_reacts libs event app s
