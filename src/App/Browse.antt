-- ===== src/App/Browse.antt =====
-- crates/app/src/actions.rs: the keys of the panels.
use mathlib.Core.Option
use pfnc.Prelude.{
  zero, suc, Bool, true, false, not, Option, none, some, List, [], ◌∷◌, Str, str_eq, codes, max,
  ◌==◌, if◌then◌else◌, filter,
}
use pfnc.Prelude.Int.{ℤ, pos, negsuc}
use pfnc.Prelude.Words.{as_isize, wrap_isize}
use pfnc.Vfs.{VfsPath, Location, archive, EntryMeta, is_dir}
use pfnc.Panel.{PanelState, cursor_entry, move_cursor, select_by_name}
use pfnc.Keys.{
  KeyCode, f_key, char, esc, enter, tab, backspace, left, right, up, down, home, end_key, page_up,
  page_down, unnamed,
}
use pfnc.Keymap.{action_for}
use pfnc.Archive.{root_path}
use pfnc.Archive.Fs.{detect_format}
use pfnc.App.{App, Libs, help, active_panel, change_active, other_side, reload, is_some}
use pfnc.App.Start.{
  start_open_archive, start_copy, start_move, start_edit, start_mkdir, start_delete, start_connect,
  start_sync,
}

-- `-z` of an `isize`.
abbrev pub neg_isize : ℤ → ℤ
neg_isize (pos zero) = pos zero
neg_isize (pos (suc n)) = negsuc n
neg_isize (negsuc n) = wrap_isize (pos (suc n))

abbrev pub page_size : PanelState → ℤ
page_size p = as_isize (max p.viewport_height 1)

abbrev pub holds : VfsPath → List VfsPath → Bool
holds path [] = false
holds path (p ∷ ps) = let rest = holds path ps in if str_eq p path then true else rest

-- `HashSet::remove`, and `insert` when it was not there.
abbrev pub toggle : VfsPath → List VfsPath → List VfsPath
toggle path selected =
    if holds path selected then filter (λ p. not (str_eq p path)) selected else path ∷ selected

unfoldable pub toggle_entry : Option EntryMeta → PanelState → PanelState
unfolding move_cursor
toggle_entry none p = p
toggle_entry (some entry) p =
    move_cursor (pos 1) (record p { selected = toggle entry.path p.selected })

unfoldable pub select_named : Option Str → PanelState → PanelState
unfolding select_by_name
select_named none p = p
select_named (some name) p = select_by_name name p

abbrev pub placed : Location → VfsPath → PanelState → PanelState
placed location cwd p = record p { location = location; cwd = cwd; cursor = 0 }

module _ {W : Type 0} where
  unfoldable pub toggle_selection : App W → App W
  unfolding cursor_entry toggle_entry
  toggle_selection app = change_active (λ p. toggle_entry (cursor_entry p) p) app

  -- The active panel at another place, its listing read again.
  unfoldable pub go_to : Location → VfsPath → App W → App W
  unfolding reload
  go_to location cwd app = reload app.active (change_active (placed location cwd) app)

  -- The same, with the cursor on the entry of that name.
  unfoldable pub leave_to : Location → VfsPath → Option Str → App W → App W
  unfolding go_to select_named
  leave_to location cwd name app = change_active (select_named name) (go_to location cwd app)

  module _ {Float : Type 0} (libs : Libs Float) where
    unfoldable pub open_entry : Option EntryMeta → App W → App W
    unfolding go_to start_open_archive detect_format
    open_entry none app = app
    open_entry (some entry) app =
        if is_dir entry.kind
        then go_to (active_panel app).location entry.path app
        else if is_some (detect_format libs.paths entry.path)
        then start_open_archive (archive (active_panel app).location entry.path) app
        else app

    unfoldable pub descend : App W → App W
    unfolding cursor_entry open_entry
    descend app = open_entry (cursor_entry (active_panel app)) app

    unfoldable pub ascend_from : Option VfsPath → App W → App W
    unfolding leave_to
    ascend_from none app = app
    ascend_from (some parent) app =
        let p = active_panel app in
        if str_eq parent p.cwd
        then app
        else leave_to p.location parent (libs.paths.file_name p.cwd) app

    -- At the root of an archive, up is where the archive lies.
    unfoldable pub ascend_out : Location → App W → App W
    unfolding leave_to
    ascend_out (archive base path) app =
        leave_to base (Option.get_or (libs.paths.parent path) root_path) (libs.paths.file_name path)
          app
    ascend_out _ app = ascend_from (libs.paths.parent (active_panel app).cwd) app

    unfoldable pub ascend : App W → App W
    unfolding ascend_out ascend_from
    ascend app =
        if str_eq (active_panel app).cwd root_path
        then ascend_out (active_panel app).location app
        else ascend_from (libs.paths.parent (active_panel app).cwd) app

    -- The actions that a key can be bound to.
    unfoldable pub run_action : Str → App W → Option (App W)
    unfolding start_edit start_copy start_move start_mkdir start_delete start_connect start_sync
    run_action action app =
        if str_eq action (codes "quit")
        then some (record app { should_quit = true })
        else if str_eq action (codes "edit")
        then some (start_edit app)
        else if str_eq action (codes "copy")
        then some (start_copy libs app)
        else if str_eq action (codes "move")
        then some (start_move libs app)
        else if str_eq action (codes "mkdir")
        then some (start_mkdir app)
        else if str_eq action (codes "delete")
        then some (start_delete libs app)
        else if str_eq action (codes "connect")
        then some (start_connect libs app)
        else if str_eq action (codes "sync")
        then some (start_sync libs app)
        else if str_eq action (codes "help")
        then some (record app { mode = help })
        else none

    -- The aliases that cannot be bound to anything else.
    unfoldable pub fixed_key : KeyCode → App W → App W
    unfolding move_cursor toggle_selection descend ascend
    fixed_key (char c) app =
        if c == b'q'
        then record app { should_quit = true }
        else if c == b'k'
        then change_active (move_cursor (negsuc 0)) app
        else if c == b'j'
        then change_active (move_cursor (pos 1)) app
        else if c == b' '
        then toggle_selection app
        else app
    fixed_key esc app = record app { should_quit = true }
    fixed_key tab app = record app { active = other_side app.active }
    fixed_key up app = change_active (move_cursor (negsuc 0)) app
    fixed_key down app = change_active (move_cursor (pos 1)) app
    fixed_key page_up app = change_active (λ p. move_cursor (neg_isize (page_size p)) p) app
    fixed_key page_down app = change_active (λ p. move_cursor (page_size p) p) app
    fixed_key enter app = descend app
    fixed_key backspace app = ascend app
    fixed_key left app = ascend app
    fixed_key right app = app
    fixed_key home app = app
    fixed_key end_key app = app
    fixed_key (f_key _) app = app
    fixed_key (unnamed _) app = app

    unfoldable pub after_action : KeyCode → Option (App W) → App W → App W
    unfolding fixed_key
    after_action key (some app') app = app'
    after_action key none app = fixed_key key app

    unfoldable pub handle_browsing_key : KeyCode → App W → App W
    unfolding run_action after_action action_for
    handle_browsing_key key app =
        after_action key
          (Option.bind (action_for libs.bindings_order app.keymap key)
            λ action. run_action action app)
          app
