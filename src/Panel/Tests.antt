-- ===== src/Panel/Tests.antt =====
-- Panels of the unit tests in crates/core/src/panel.rs, and the theorems at such panels.
use pfnc.Prelude.{ℕ, zero, suc, ◌≡◌, inr, refl, List, [], ◌∷◌, codes, arith, false, none, Str}
use pfnc.Prelude.Int.{pos}
use pfnc.Vfs.{EntryMeta, file, local}
use pfnc.Panel.{PanelState, IsValid, sync_viewport, move_cursor, select_by_name}
use pfnc.Panel.Cursor.{cursor-move_cursor}

abbrev entry : Str → EntryMeta
entry n = record {
  name = n;
  path = n;
  kind = file;
  size = 0;
  modified = none;
  permissions = none;
  owner = none;
  group = none;
}

abbrev entries : ℕ → List EntryMeta
entries zero = []
entries (suc n) = entry (n ∷ []) ∷ entries n

abbrev panel : ℕ → ℕ → PanelState
panel count cursor = record {
  location = local;
  cwd = codes "/";
  entries = entries count;
  selected = [];
  cursor = cursor;
  scroll_offset = 0;
  viewport_height = 0;
  quic_available = false;
}

scrolls_down : (sync_viewport 10 (panel 50 20)).scroll_offset ≡ 11
unfolding sync_viewport
scrolls_down = refl

no_blank_rows : (sync_viewport 10 (panel 15 14)).scroll_offset ≡ 5
unfolding sync_viewport
no_blank_rows = refl

five-IsValid : IsValid (panel 5 3)
five-IsValid = record { on_entry = inr (omega arith); listed = omega arith; scrolled = omega arith }

fifteen-IsValid : IsValid (panel 15 14)
fifteen-IsValid = record {
  on_entry = inr (omega arith);
  listed = omega arith;
  scrolled = omega arith;
}

cursor-move_cursor_example : (move_cursor (pos 7) (panel 5 3)).cursor ≡ 4
cursor-move_cursor_example =
    cursor-move_cursor (pos 7) (panel 5 3) five-IsValid (omega arith) (omega arith)

lands_on_the_name : (select_by_name (1 ∷ []) (panel 5 0)).cursor ≡ 3
unfolding select_by_name
lands_on_the_name = refl
