-- ===== src/Main/Drawing.antt =====
-- crates/app/src/ui.rs: what `render` draws, and what it changes.
use mathlib.Core.Option
use mathlib.Core.Option.{some-injective}
use pfnc.Prelude.{ℕ, ◌-◌, ◌^◌, ◌<◌, ◌≡◌, refl, Option, none, some, [], arith, ltb, true, get_elem?}
use pfnc.Panel.{sync_viewport}
use pfnc.Panel.Viewport.{sync_viewport-IsValid}
use pfnc.Tui.Rows.{Draws, render_panel-Draws}
use pfnc.App.{
  App, Libs, Mode, browsing, help, confirm, text_input, connecting, running, left_side, right_side,
}
use pfnc.App.Panels.{IsSound}
use pfnc.Main.{Frame, render, is_side, draw_dialog, hint_row, laid_out, field_column}

-- The drawing of a dialog stays inside of its layout.
draw_dialog_lem : (x : ℕ) (m : Mode) → (cursor : Option ℕ) × (draw_dialog x m ≡ some cursor)
unfolding draw_dialog
draw_dialog_lem x browsing = (none, refl)
draw_dialog_lem x help = (none, refl)
draw_dialog_lem x (confirm _) = (none, refl)
draw_dialog_lem x (running _) = (none, refl)
draw_dialog_lem x (text_input prompt) = (some _, refl)
draw_dialog_lem x (connecting form) =
    let inside : ltb (hint_row form) (laid_out form) ≡ true = ground arith in
    (field_column x (get_elem? form.fields form.focus), rw inside refl)

module _ {W Float : Type 0} (libs : Libs Float) where
  -- What is drawn: of each panel, what it holds when its scroll offset has followed the cursor.
  pub record Drawn (left_height right_height dialog_x : ℕ) (app : App W) (f : Frame) (app' : App W)
      : Type 0 where
    pub of_left :
        Draws libs
          (is_side app.active left_side)
          (left_height - 2)
          (sync_viewport (left_height - 2) app.left)
          f.left
    pub of_right :
        Draws libs
          (is_side app.active right_side)
          (right_height - 2)
          (sync_viewport (right_height - 2) app.right)
          f.right
    pub dialog_drawn : draw_dialog dialog_x app.mode ≡ some f.cursor
    pub only_scrolled : app' ≡ record app {
      left = sync_viewport (left_height - 2) app.left;
      right = sync_viewport (right_height - 2) app.right;
    }

  pub render-Drawn :
      (left_height right_height dialog_x : ℕ) (app : App W)
      → left_height < 2 ^ 16
      → right_height < 2 ^ 16
      → IsSound app
      → (f : Frame) × (app' : App W) × (render libs left_height right_height dialog_x app
          ≡ some (f, app'))
        × Drawn left_height right_height dialog_x app f app'
  unfolding render
  render-Drawn left_height right_height dialog_x app small small' s =
      let (l, le, ld) =
        render_panel-Draws libs (is_side app.active left_side) left_height app.left s.0 small in
      let (r, re, rd) =
        render_panel-Draws libs (is_side app.active right_side) right_height app.right s.1 small' in
      let (cursor, shown) = draw_dialog_lem dialog_x app.mode in
      (
        record {
          left = l;
          right = r;
          status = Option.get_or app.status [];
          mode = app.mode;
          cursor = cursor;
        },
        record app {
          left = sync_viewport (left_height - 2) app.left;
          right = sync_viewport (right_height - 2) app.right;
        },
        rw (le, re, shown) refl,
        record { of_left = ld; of_right = rd; dialog_drawn = shown; only_scrolled = refl },
      )

module _ {W : Type 0} where
  pub synced-IsSound :
      (l r : ℕ) (app : App W)
      → l < 2 ^ 16
      → r < 2 ^ 16
      → IsSound app
      → IsSound (record app { left = sync_viewport l app.left; right = sync_viewport r app.right })
  synced-IsSound l r app small small' s = (
    sync_viewport-IsValid l app.left s.0 (omega arith),
    sync_viewport-IsValid r app.right s.1 (omega arith),
    s.2,
  )
