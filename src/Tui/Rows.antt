-- ===== src/Tui/Rows.antt =====
-- crates/tui/src/panel.rs: the rows that a panel shows.
use mathlib.Core.Option
use mathlib.Core.Option.{some-injective}
use pfnc.Prelude.{
  ℕ, zero, suc, ◌+◌, ◌-◌, ◌≤◌, ◌<◌, ◌≡◌, ◌⊎◌, inl, inr, ◌^◌, ◌∙◌, refl, sym, ap, Bool, some, List,
  [], ◌∷◌, length, take, drop, get_elem?, get_elem?-drop, get_elem?-take, get_elem?_lt, length-take,
  length-drop, lt_of_get_elem?, min, arith,
}
use pfnc.Prelude.Words.{isize_bound, add_word}
use pfnc.Vfs.{EntryMeta}
use pfnc.Panel.{PanelState, IsValid, sync_viewport}
use pfnc.Panel.Viewport.{Shows, sync_viewport-Shows, sync_viewport-IsValid}
use pfnc.App.{Libs}
use pfnc.Tui.{DrawnRow, DrawnPanel, slice, panel_title, draw_row, draw_rows, render_panel}

slice-some :
    (start stop : ℕ) (es : List EntryMeta)
    → start ≤ stop
    → stop ≤ length es
    → slice start stop es ≡ some (take (stop - start) (drop start es))
slice-some start stop es h g = ground arith

module _ {Float : Type 0} (libs : Libs Float) (is_active : Bool) where
  length-draw_rows :
      (p : PanelState) (i : ℕ) (es : List EntryMeta)
      → length (draw_rows libs is_active p i es) ≡ length es
  unfolding draw_rows
  length-draw_rows p i [] = refl
  length-draw_rows p i (e ∷ es) = omega (arith, length-draw_rows p (suc i) es)

  get_elem?-draw_rows :
      (p : PanelState) (i k : ℕ) (es : List EntryMeta)
      → get_elem? (draw_rows libs is_active p i es) k
        ≡ Option.map (draw_row libs is_active p (i + k)) (get_elem? es k)
  unfolding draw_rows
  get_elem?-draw_rows p i k [] = refl
  get_elem?-draw_rows p i zero (e ∷ es) =
      let same : i ≡ i + 0 = omega arith in ap (λ j. some (draw_row libs is_active p j e)) same
  get_elem?-draw_rows p i (suc k) (e ∷ es) =
      let same : suc i + k ≡ i + suc k = omega arith in
      get_elem?-draw_rows p (suc i) k es
      ∙ ap (λ j. Option.map (draw_row libs is_active p j) (get_elem? es k)) same

  -- What a panel that holds `p` shows: at most `height` rows, one for each entry from the scroll offset on, and
  -- among them, if there is a row at all, the one of the entry under the cursor. Entries are scrolled off the top
  -- only if the rows fill the panel.
  pub record Draws (height : ℕ) (p : PanelState) (d : DrawnPanel) : Type 0 where
    pub rows_fit : length d.rows ≤ height
    pub no_blank : p.scroll_offset ≡ 0 ⊎ length d.rows ≡ height
    pub row_of :
        (k : ℕ) (row : DrawnRow)
        → get_elem? d.rows k ≡ some row
        → (e : EntryMeta) × (get_elem? p.entries (p.scroll_offset + k) ≡ some e)
          × (row ≡ draw_row libs is_active p (p.scroll_offset + k) e)
    pub cursor_shown :
        (e : EntryMeta)
        → 0 < height
        → get_elem? p.entries p.cursor ≡ some e
        → (k : ℕ) × (k < height)
          × (get_elem? d.rows k ≡ some (draw_row libs is_active p p.cursor e))

  module _ (height : ℕ) (panel : PanelState) (v : IsValid panel) (fits : height < isize_bound) where
    abbrev synced : PanelState
    synced = sync_viewport height panel

    in_range : synced.scroll_offset ≤ length synced.entries
    unfolding sync_viewport
    in_range = ground arith

    filled : synced.scroll_offset ≡ 0 ⊎ synced.scroll_offset + height ≤ length synced.entries
    unfolding sync_viewport
    filled = ground arith

    synced-Shows : 0 < height → Shows height synced
    synced-Shows some_rows = sync_viewport-Shows height panel v fits some_rows

    abbrev last_row : ℕ
    last_row = min (add_word synced.scroll_offset height) (length synced.entries)

    row_count : last_row - synced.scroll_offset ≤ height
    row_count =
        let s = sync_viewport-IsValid height panel v fits in omega (arith, in_range, s.scrolled)

    row_range : synced.scroll_offset ≤ last_row
    row_range =
        let s = sync_viewport-IsValid height panel v fits in omega (arith, in_range, s.scrolled)

    abbrev visible : List EntryMeta
    visible = take (last_row - synced.scroll_offset) (drop synced.scroll_offset synced.entries)

    get_elem?-visible :
        (k : ℕ)
        → k < last_row - synced.scroll_offset
        → get_elem? visible k ≡ get_elem? synced.entries (synced.scroll_offset + k)
    get_elem?-visible k h =
        get_elem?-take (last_row - synced.scroll_offset) k
          (drop synced.scroll_offset synced.entries) h
        ∙ get_elem?-drop synced.scroll_offset k synced.entries

    length-visible : length visible ≡ last_row - synced.scroll_offset
    length-visible =
        length-take (last_row - synced.scroll_offset) (drop synced.scroll_offset synced.entries)
        ∙ omega (arith, length-drop synced.scroll_offset synced.entries, row_range)

    abbrev drawn : DrawnPanel
    drawn = record {
      title = panel_title synced;
      is_active = is_active;
      rows = draw_rows libs is_active synced synced.scroll_offset visible;
    }

    row_at :
        (k : ℕ) (e : EntryMeta)
        → get_elem? visible k ≡ some e
        → get_elem? drawn.rows k
          ≡ some (draw_row libs is_active synced (synced.scroll_offset + k) e)
    row_at k e at =
        get_elem?-draw_rows synced synced.scroll_offset k visible
        ∙ ap (Option.map (draw_row libs is_active synced (synced.scroll_offset + k))) at

    drawn_from :
        (k : ℕ) (row : DrawnRow)
        → get_elem? drawn.rows k ≡ some row
        → (e : EntryMeta) × (get_elem? synced.entries (synced.scroll_offset + k) ≡ some e)
          × (row ≡ draw_row libs is_active synced (synced.scroll_offset + k) e)
    drawn_from k row found =
        let within : k < length visible = omega (
          arith,
          lt_of_get_elem? drawn.rows k found,
          length-draw_rows synced synced.scroll_offset visible,
        ) in
        let (e, at) = get_elem?_lt visible k within in
        (
          e,
          sym (get_elem?-visible k (omega (arith, length-visible))) ∙ at,
          some-injective row (draw_row libs is_active synced (synced.scroll_offset + k) e)
              (sym found ∙ row_at k e at),
        )

    cursor_drawn :
        (e : EntryMeta)
        → 0 < height
        → get_elem? synced.entries synced.cursor ≡ some e
        → (k : ℕ) × (k < height)
          × (get_elem? drawn.rows k ≡ some (draw_row libs is_active synced synced.cursor e))
    cursor_drawn e some_rows at =
        let shown = synced-Shows some_rows in
        let s = sync_viewport-IsValid height panel v fits in
        let in_list = lt_of_get_elem? synced.entries synced.cursor at in
        let k = synced.cursor - synced.scroll_offset in
        let here : synced.scroll_offset + k ≡ synced.cursor = omega (arith, shown.from_top) in
        let on_screen : k < last_row - synced.scroll_offset =
          omega (arith, shown.from_top, shown.to_bottom, in_list, s.scrolled) in
        (
          k,
          omega (arith, shown.from_top, shown.to_bottom),
          row_at k e (get_elem?-visible k on_screen ∙ ap (get_elem? synced.entries) here ∙ at)
              ∙ ap (λ i. some (draw_row libs is_active synced i e)) here,
        )

    row_total : length drawn.rows ≡ last_row - synced.scroll_offset
    row_total = length-draw_rows synced synced.scroll_offset visible ∙ length-visible

    drawn_filled : synced.scroll_offset ≡ 0 ⊎ length drawn.rows ≡ height
    drawn_filled = elim filled [
      | inl top ↦ inl top
      | inr full ↦
          let s = sync_viewport-IsValid height panel v fits in
          inr (omega (arith, row_total, full, s.scrolled))
    ]

    drawn-Draws : Draws height synced drawn
    drawn-Draws = record {
      rows_fit = omega (arith, row_total, row_count);
      no_blank = drawn_filled;
      row_of = drawn_from;
      cursor_shown = cursor_drawn;
    }

  -- Drawing a valid panel, in an area of any height, does not panic. It shows no more rows than fit inside
  -- the border, each of them the entry that many places after the scroll offset; where there is room for a
  -- row, the entry under the cursor is among them; and no row is blank while entries are scrolled off.
  pub render_panel-Draws :
      (height : ℕ) (panel : PanelState)
      → IsValid panel
      → height < 2 ^ 16
      → (d : DrawnPanel) × (render_panel libs height is_active panel
          ≡ some (d, sync_viewport (height - 2) panel))
        × Draws (height - 2) (sync_viewport (height - 2) panel) d
  unfolding render_panel
  render_panel-Draws height panel v small =
      let fits : height - 2 < isize_bound = omega arith in
      (
        drawn (height - 2) panel v fits,
        rw
            (slice-some (sync_viewport (height - 2) panel).scroll_offset
              (last_row (height - 2) panel v fits) (sync_viewport (height - 2) panel).entries
              (row_range (height - 2) panel v fits) (omega arith))
            refl,
        drawn-Draws (height - 2) panel v fits,
      )
