-- ===== src/Panel/Viewport.antt =====
-- crates/core/src/panel.rs, `sync_viewport`: the rows on screen and the cursor.
use pfnc.Prelude.{ℕ, ◌+◌, ◌≤◌, ◌<◌, ◌≡◌, ◌⊎◌, length, arith}
use pfnc.Prelude.Words.{isize_bound}
use pfnc.Panel.{PanelState, IsValid, sync_viewport}

-- The cursor's row is on screen, and there are no blank rows while entries are scrolled off the top.
pub record Shows (height : ℕ) (p : PanelState) : Type 0 where
  pub from_top : p.scroll_offset ≤ p.cursor
  pub to_bottom : p.cursor < p.scroll_offset + height
  pub filled : p.scroll_offset ≡ 0 ⊎ p.scroll_offset + height ≤ length p.entries

module _ (height : ℕ) (p : PanelState) (v : IsValid p) (fits : height < isize_bound) where
  -- A panel of at least one row shows its cursor.
  pub sync_viewport-Shows : 0 < height → Shows height (sync_viewport height p)
  unfolding sync_viewport
  sync_viewport-Shows some_rows = ground arith

  -- Drawing a panel, of any height, keeps it valid.
  pub sync_viewport-IsValid : IsValid (sync_viewport height p)
  unfolding sync_viewport
  sync_viewport-IsValid = ground arith
