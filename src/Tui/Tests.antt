-- ===== src/Tui/Tests.antt =====
-- crates/tui/src/panel.rs on a small panel.
use pfnc.Prelude.{◌≡◌, refl, inr, some, [], ◌∷◌, codes, true, arith}
use pfnc.Vfs.{local, remote, archive, dir}
use pfnc.Panel.{PanelState, IsValid, sync_viewport}
use pfnc.Fixtures.{d_meta, f_meta}
use pfnc.App.Tests.{test_libs}
use pfnc.Tui.{DrawnPanel, format_perms, format_size, location_label, location_symbol, render_panel}
use pfnc.Tui.Rows.{Draws, render_panel-Draws}

-- The cursor is below the two rows of the screen.
abbrev three_rows : PanelState
three_rows = record {
  location = local;
  cwd = codes "/d";
  entries = d_meta ∷ f_meta ∷ f_meta ∷ [];
  selected = [];
  cursor = 2;
  scroll_offset = 0;
  viewport_height = 2;
  quic_available = true;
}

test_perms : format_perms (some 420) ≡ codes "rw-r--r--"
unfolding format_perms
test_perms = refl

test_dir : format_size test_libs 4096 dir ≡ codes "<DIR>"
unfolding format_size
test_dir = refl

test_label :
    location_label (archive (remote (codes "nas")) (codes "/a.zip")) ≡ codes "remote:nas::/a.zip"
test_label = refl

test_symbol : location_symbol (archive (remote (codes "nas")) (codes "/a.zip")) true ≡ codes "⚡"
test_symbol = refl

three_rows-IsValid : IsValid three_rows
three_rows-IsValid = record {
  on_entry = inr (omega arith);
  listed = omega arith;
  scrolled = omega arith;
}

render_panel-Draws_example :
    (d : DrawnPanel) × (render_panel test_libs 4 true three_rows
      ≡ some (d, sync_viewport 2 three_rows))
    × Draws test_libs true 2 (sync_viewport 2 three_rows) d
render_panel-Draws_example =
    render_panel-Draws test_libs true 4 three_rows three_rows-IsValid (omega arith)
