-- ===== src/Tui.antt =====
-- crates/tui/src/panel.rs: what is drawn of a panel. `none` is a slice out of range, which panics; colours and
-- borders are left out, and so is the width of the columns.
pub mod Rows
mod Tests
use pfnc.Prelude.{
  ℕ, suc, ◌-◌, ◌/◌, ◌%◌, Bool, true, false, Option, none, some, List, [], ◌∷◌, ◌++◌, Str, codes,
  length, take, drop, get_elem?, min, leb, ltb, ◌==◌, ◌&&◌, if◌then◌else◌,
}
use mathlib.Core.Option
use pfnc.Prelude.Words.{add_word}
use pfnc.Vfs.{VfsPath, Location, local, remote, archive, EntryMeta, EntryKind, is_dir}
use pfnc.Vfs
use pfnc.Panel.{PanelState, sync_viewport}
use pfnc.App.{Libs}
use pfnc.App.Start.{show_number}
use pfnc.App.Browse.{holds}
use pfnc.App.Events.{scale}

abbrev pub location_label : Location → Str
location_label local = codes "local"
location_label (remote profile_id) = codes "remote:" ++ profile_id
location_label (archive base archive_path) = location_label base ++ (codes "::" ++ archive_path)

abbrev pub location_symbol : Location → Bool → Str
location_symbol local quic_available = codes "⌂"
location_symbol (remote _) quic_available = if quic_available then codes "⚡" else codes "⇄"
location_symbol (archive base _) quic_available = location_symbol base quic_available

abbrev size_units : List Str
size_units = codes "B" ∷ codes "K" ∷ codes "M" ∷ codes "G" ∷ codes "T" ∷ []

unfoldable pub format_size : {Float : Type 0} → Libs Float → ℕ → EntryKind → Str
unfolding scale
format_size libs size kind =
    let (value, unit) = scale libs 4 (libs.as_f64 size) 0 in
    if is_dir kind
    then codes "<DIR>"
    else if unit == 0
    then show_number size ++ codes "B"
    else libs.show_tenths value ++ Option.get_or (get_elem? size_units unit) []

-- `mode & bit != 0`, for a power of two.
abbrev pub has_bit : ℕ → ℕ → Bool
has_bit mode bit = mode / bit % 2 == 1

abbrev pub flag : ℕ → ℕ → ℕ → ℕ
flag mode bit letter = if has_bit mode bit then letter else b'-'

unfoldable pub format_perms : Option ℕ → Str
format_perms none = codes "?????????"
format_perms (some mode) =
    flag mode 256 b'r'
    ∷ flag mode 128 b'w'
    ∷ flag mode 64 b'x'
    ∷ flag mode 32 b'r'
    ∷ flag mode 16 b'w'
    ∷ flag mode 8 b'x'
    ∷ flag mode 4 b'r'
    ∷ flag mode 2 b'w'
    ∷ flag mode 1 b'x'
    ∷ []

abbrev pub shown_name : EntryMeta → Str
shown_name e = elim e.kind [
  | EntryKind.dir ↦ e.name ++ codes "/"
  | EntryKind.symlink _ ↦ e.name ++ codes "@"
  | EntryKind.file ↦ e.name
  | EntryKind.other ↦ e.name
]

-- `is_selected` is the yellow text, `is_cursor` the blue bar.
pub record DrawnRow : Type 0 where
  pub name : Str
  pub size : Str
  pub perms : Str
  pub is_selected : Bool
  pub is_cursor : Bool

pub record DrawnPanel : Type 0 where
  pub title : Str
  pub is_active : Bool
  pub rows : List DrawnRow

-- `&entries[start..end]`
abbrev pub slice : ℕ → ℕ → List EntryMeta → Option (List EntryMeta)
slice start stop entries =
    if leb start stop && leb stop (length entries)
    then some (take (stop - start) (drop start entries))
    else none

abbrev pub panel_title : PanelState → Str
panel_title p =
    codes " "
    ++ (location_symbol p.location p.quic_available
        ++ (codes " " ++ (location_label p.location ++ (codes ":" ++ (p.cwd ++ codes " ")))))

module _ {Float : Type 0} (libs : Libs Float) where
  -- The row of the entry at the place `i` of the listing.
  unfoldable pub draw_row : Bool → PanelState → ℕ → EntryMeta → DrawnRow
  unfolding format_size format_perms
  draw_row is_active p i entry = record {
    name = shown_name entry;
    size = format_size libs entry.size entry.kind;
    perms = format_perms entry.permissions;
    is_selected = holds entry.path p.selected;
    is_cursor = (i == p.cursor) && is_active;
  }

  unfoldable pub draw_rows : Bool → PanelState → ℕ → List EntryMeta → List DrawnRow
  unfolding draw_row
  draw_rows is_active p i [] = []
  draw_rows is_active p i (e ∷ es) = draw_row is_active p i e ∷ draw_rows is_active p (suc i) es

  -- The panel is changed by `sync_viewport` alone. `height` is that of the area, with its border.
  unfoldable pub render_panel : ℕ → Bool → PanelState → Option (DrawnPanel × PanelState)
  unfolding draw_rows sync_viewport
  render_panel height is_active panel =
      let visible_height = height - 2 in
      let p = sync_viewport visible_height panel in
      let stop = min (add_word p.scroll_offset visible_height) (length p.entries) in
      Option.map
        (λ entries. (
          record {
            title = panel_title p;
            is_active = is_active;
            rows = draw_rows is_active p p.scroll_offset entries;
          },
          p,
        ))
        (slice p.scroll_offset stop p.entries)
