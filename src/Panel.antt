-- ===== src/Panel.antt =====
-- crates/core/src/panel.rs: what one pane knows of itself.
pub mod Cursor
pub mod Viewport
mod Tests
use pfnc.Prelude.{
  ℕ, suc, ◌-◌, ◌<◌, ◌≡◌, ◌⊎◌, Bool, false, Option, none, some, List, [], ◌∷◌, ltb, leb,
  if◌then◌else◌, length, get_elem?, is_empty, Str, str_eq,
}
use pfnc.Prelude.Int.{ℤ, pos, negsuc, clamp_ℤ}
use pfnc.Prelude.Words.{isize_bound, add_word, sub_word, as_isize, add_isize, as_usize}
use pfnc.Vfs.{VfsPath, Location, EntryMeta}

-- `selected` is a set: its order means nothing.
pub record PanelState : Type 0 where
  pub location : Location
  pub cwd : VfsPath
  pub entries : List EntryMeta
  pub selected : List VfsPath
  pub cursor : ℕ
  pub scroll_offset : ℕ
  pub viewport_height : ℕ
  pub quic_available : Bool

unfoldable pub new : Location → VfsPath → PanelState
new location cwd = record {
  location = location;
  cwd = cwd;
  entries = [];
  selected = [];
  cursor = 0;
  scroll_offset = 0;
  viewport_height = 0;
  quic_available = false;
}

unfoldable pub cursor_entry : PanelState → Option EntryMeta
cursor_entry p = get_elem? p.entries p.cursor

unfoldable pub move_cursor : ℤ → PanelState → PanelState
move_cursor delta p =
    if is_empty p.entries
    then record p { cursor = 0 }
    else let last = add_isize (as_isize (length p.entries)) (negsuc 0) in
      let next = clamp_ℤ (add_isize (as_isize p.cursor) delta) (pos 0) last in
      record p { cursor = as_usize next }

-- `iter().position(|e| e.name == name)`
position_by_name : Str → List EntryMeta → Option ℕ
position_by_name name [] = none
position_by_name name (e ∷ es) =
    let rest = position_by_name name es in
    if str_eq e.name name then some 0 else elim rest [ none ↦ none | some i ↦ some (suc i) ]

unfoldable pub select_by_name : Str → PanelState → PanelState
unfolding position_by_name
select_by_name name p = elim (position_by_name name p.entries) [
  | none ↦ p
  | some i ↦ record p { cursor = i }
]

unfoldable pub clamp_cursor : PanelState → PanelState
clamp_cursor p =
    if is_empty p.entries
    then record p { cursor = 0 }
    else if leb (length p.entries) p.cursor
    then record p { cursor = length p.entries - 1 }
    else p

-- The offset that brings the cursor into view, and the one that leaves no blank rows at the end.
follow_cursor : ℕ → ℕ → ℕ → ℕ
follow_cursor height cursor offset =
    if ltb cursor offset
    then cursor
    else if leb (add_word offset height) cursor
    then sub_word (add_word cursor 1) height
    else offset

fill_screen : ℕ → ℕ → ℕ → ℕ
fill_screen height count offset =
    let max_offset = count - height in if ltb max_offset offset then max_offset else offset

unfoldable pub sync_viewport : ℕ → PanelState → PanelState
unfolding follow_cursor fill_screen
sync_viewport height p =
    if leb height 0 then record p { viewport_height = height; scroll_offset = 0 } else record p {
      viewport_height = height;
      scroll_offset =
          fill_screen height (length p.entries) (follow_cursor height p.cursor p.scroll_offset);
    }

-- The cursor is on an entry, or on 0 where there is none; a `Vec` is shorter than `isize::MAX`, and so is what
-- is scrolled off the top.
pub record IsValid (p : PanelState) : Type 0 where
  pub on_entry : p.cursor ≡ 0 ⊎ p.cursor < length p.entries
  pub listed : length p.entries < isize_bound
  pub scrolled : p.scroll_offset < isize_bound
