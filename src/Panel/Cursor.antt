-- ===== src/Panel/Cursor.antt =====
-- crates/core/src/panel.rs: where the cursor is after each operation.
use pfnc.Prelude.{
  ℕ, zero, suc, ◌+◌, ◌-◌, ◌≤◌, ◌<◌, ◌≡◌, ◌⊎◌, inl, inr, refl, none, some, List, [], ◌∷◌, length,
  get_elem?, take, All, Str, str_eq, str_eq_iff, min, arith, ◌≢◌, Bool-cases, Option-cases, subst,
  lt_of_get_elem?,
}
use pfnc.Prelude.Int.{ℤ, pos, negsuc, pos_part, neg_part}
use pfnc.Prelude.Words.{isize_bound}
use pfnc.Vfs.{EntryMeta}
use pfnc.Panel.{PanelState, IsValid, move_cursor, clamp_cursor, select_by_name, position_by_name}

-- Every move leaves the panel valid, also one that would overflow `isize`.
pub move_cursor-IsValid : (delta : ℤ) (p : PanelState) → IsValid p → IsValid (move_cursor delta p)
unfolding move_cursor
move_cursor-IsValid delta p v = ground arith

-- The row `delta` away from `cursor`, or the nearest of `count` rows.
abbrev pub target : ℤ → ℕ → ℕ → ℕ
target (pos k) cursor count = min (cursor + k) (count - 1)
target (negsuc k) cursor count = cursor - (k + 1)

-- For a valid panel and a move that does not overflow `isize`, the cursor goes by exactly `delta`
-- rows, or stops at the first or the last row.
pub cursor-move_cursor :
    (delta : ℤ) (p : PanelState)
    → IsValid p
    → p.cursor + pos_part delta < isize_bound
    → neg_part delta ≤ isize_bound
    → (move_cursor delta p).cursor ≡ target delta p.cursor (length p.entries)
unfolding move_cursor
cursor-move_cursor (pos k) p v h g = ground arith
cursor-move_cursor (negsuc k) p v h g = ground arith

-- A listing of any length, with any cursor, is mended.
pub clamp_cursor-IsValid :
    (p : PanelState)
    → length p.entries < isize_bound
    → p.scroll_offset < isize_bound
    → IsValid (clamp_cursor p)
unfolding clamp_cursor
clamp_cursor-IsValid p h o = ground arith

-- `i` is the index of the first entry of that name.
abbrev pub FirstNamed : Str → List EntryMeta → ℕ → Type 0
FirstNamed name es i =
    (e : EntryMeta) × (get_elem? es i ≡ some e)
    × (e.name ≡ name)
    × All (λ d. d.name ≢ name) (take i es)

position_by_name_first :
    (name : Str) (es : List EntryMeta) (i : ℕ)
    → position_by_name name es ≡ some i
    → FirstNamed name es i
unfolding position_by_name
position_by_name_first name [] i h = cc
position_by_name_first name (e ∷ es) i h = elim (Bool-cases (str_eq e.name name)) [
  | inl same ↦
      subst (FirstNamed name (e ∷ es)) {x = zero} (ground arith)
        (e, refl, (str_eq_iff e.name name).0 same, tt)
  | inr differ ↦ elim (Option-cases (position_by_name name es)) [
    | inl absent ↦ ground arith
    | inr (j, found) ↦
        let (x, at, named, before) = position_by_name_first name es j found in
        subst (FirstNamed name (e ∷ es)) {x = suc j} (ground arith)
          (x, at, named, (ground (arith, str_eq_iff e.name name), before))
  ]
]

position_by_name-none :
    (name : Str) (es : List EntryMeta)
    → position_by_name name es ≡ none
    → All (λ d. d.name ≢ name) es
unfolding position_by_name
position_by_name-none name [] h = tt
position_by_name-none name (e ∷ es) h =
    ground (arith, str_eq_iff e.name name, position_by_name-none name es)

-- The cursor lands on the first entry of the name; without one nothing changes.
pub select_by_name_lem :
    (name : Str) (p : PanelState)
    → FirstNamed name p.entries (select_by_name name p).cursor
        × (select_by_name name p ≡ record p { cursor = (select_by_name name p).cursor })
      ⊎ All (λ d. d.name ≢ name) p.entries × (select_by_name name p ≡ p)
unfolding select_by_name
select_by_name_lem name p = elim (Option-cases (position_by_name name p.entries)) [
  | inl absent ↦ inr (position_by_name-none name p.entries absent, rw (absent, select_by_name))
  | inr (i, found) ↦
      rw (found, select_by_name) (inl (position_by_name_first name p.entries i found, refl))
]

pub select_by_name-IsValid :
    (name : Str) (p : PanelState) → IsValid p → IsValid (select_by_name name p)
select_by_name-IsValid name p v = elim (select_by_name_lem name p) [
  | inl ((e, at, _, _), same) ↦
      rw same (ground (arith, lt_of_get_elem? p.entries (select_by_name name p).cursor at))
  | inr (_, same) ↦ rw same v
]
