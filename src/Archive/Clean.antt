-- ===== src/Archive/Clean.antt =====
-- crates/vfs-archive/src/index.rs, `sanitize_path`: the paths that it returns, component by component.
use mathlib.Core.Option
use mathlib.Core.Bool.{true≢false}
use mathlib.Core.Option.{some-injective, none-ne-some}
use pfnc.Prelude.{
  ℕ, ◌≡◌, ◌∙◌, refl, ap, sym, subst, false, Bool-cases, inl, inr, Option-cases, some, List, [], ◌∷◌,
  ◌++◌, Str, ◌==◌, is_empty, All, split, join_with, trim_end, push_front,
}
use pfnc.Vfs.{VfsPath}
use pfnc.Archive.{
  sanitize_path, clean_components, is_skipped, is_up, rooted, as_path, slash, root_path,
}

abbrev pub Slashless : Str → Type 0
Slashless = All (λ c. (c == slash) ≡ false)

-- A component that names an entry: not empty, neither `.` nor `..`, and without `/`.
pub record IsName (c : Str) : Type 0 where
  pub not_skipped : is_skipped c ≡ false
  pub not_up : is_up c ≡ false
  pub slashless : Slashless c

push_front-Slashless :
    (x : ℕ) (ps : List Str)
    → (x == slash) ≡ false
    → All Slashless ps
    → All Slashless (push_front x ps)
push_front-Slashless x [] kept free = ((kept, tt), tt)
push_front-Slashless x (p ∷ ps) kept free = ((kept, free.0), free.1)

split-Slashless : (s : Str) → All Slashless (split slash s)
split-Slashless [] = (tt, tt)
split-Slashless (x ∷ s) = elim (Bool-cases (x == slash)) [
  | inl cut ↦ rw cut (tt, split-Slashless s)
  | inr kept ↦ rw kept (push_front-Slashless x (split slash s) kept (split-Slashless s))
]

clean_components-IsName :
    (cs ds : List Str) → All Slashless cs → clean_components cs ≡ some ds → All IsName ds
unfolding clean_components
clean_components-IsName [] ds free done = subst (All IsName) (some-injective [] ds done) tt
clean_components-IsName (c ∷ cs) ds free done = elim (Bool-cases (is_skipped c)) [
  | inl skipped ↦ clean_components-IsName cs ds free.1 (rw skipped at done)
  | inr shown ↦ elim (Bool-cases (is_up c)) [
    | inl up ↦ absurd (none-ne-some ds (rw (shown, up) at done))
    | inr level ↦ elim (Option-cases (clean_components cs)) [
      | inl refused ↦ absurd (none-ne-some ds (rw (shown, level, refused) at done))
      | inr (es, rest) ↦
          subst (All IsName) (some-injective (c ∷ es) ds (rw (shown, level, rest) at done)) (
            record { not_skipped = shown; not_up = level; slashless = free.0 },
            clean_components-IsName cs es free.1 rest,
          )
    ]
  ]
]

-- Names joined with `/` are split into themselves again.
push_fronts : Str → List Str → List Str
push_fronts c [] = c ∷ []
push_fronts c (p ∷ ps) = (c ++ p) ∷ ps

split-name : (c : Str) → Slashless c → split slash c ≡ c ∷ []
split-name [] free = refl
split-name (x ∷ c) free = rw (free.0, split-name c free.1) refl

split-names : (c s : Str) → Slashless c → split slash (c ++ (slash ∷ s)) ≡ c ∷ split slash s
split-names [] s free = refl
split-names (x ∷ c) s free = rw (free.0, split-names c s free.1) refl

split-join_with :
    (c : Str) (cs : List Str)
    → All IsName (c ∷ cs)
    → split slash (join_with root_path (c ∷ cs)) ≡ c ∷ cs
split-join_with c [] named = split-name c named.0.slashless
split-join_with c (d ∷ cs) named =
    split-names c (join_with root_path (d ∷ cs)) named.0.slashless
    ∙ ap (c ∷◌) (split-join_with d cs named.1)

clean_components-names : (cs : List Str) → All IsName cs → clean_components cs ≡ some cs
unfolding clean_components
clean_components-names [] named = refl
clean_components-names (c ∷ cs) named =
    rw (named.0.not_skipped, named.0.not_up, clean_components-names cs named.1) refl

-- Nothing is trimmed off a text that ends with a name.
record Ends (s : Str) : Type 0 where
  ends_kept : trim_end slash s ≡ s
  ends_some : is_empty s ≡ false

Ends-cons : (x : ℕ) (s : Str) → Ends s → Ends (x ∷ s)
Ends-cons x [] ends = absurd (true≢false ends.ends_some)
Ends-cons x (y ∷ s) ends = record { ends_kept = rw ends.ends_kept refl; ends_some = refl }

Ends-Slashless : (x : ℕ) (c : Str) → Slashless (x ∷ c) → Ends (x ∷ c)
Ends-Slashless x [] free = record { ends_kept = rw free.0 refl; ends_some = refl }
Ends-Slashless x (y ∷ c) free = Ends-cons x (y ∷ c) (Ends-Slashless y c free.1)

Ends-name : (c : Str) → IsName c → Ends c
Ends-name [] named = absurd (true≢false named.not_skipped)
Ends-name (x ∷ c) named = Ends-Slashless x c named.slashless

Ends-append : (s t : Str) → Ends t → Ends (s ++ t)
Ends-append [] t ends = ends
Ends-append (x ∷ s) t ends = Ends-cons x (s ++ t) (Ends-append s t ends)

Ends-join_with :
    (c : Str) (cs : List Str) → All IsName (c ∷ cs) → Ends (join_with root_path (c ∷ cs))
Ends-join_with c [] named = Ends-name c named.0
Ends-join_with c (d ∷ cs) named = Ends-append c _ (Ends-cons slash _ (Ends-join_with d cs named.1))

-- A path made of names is kept as it is.
sanitize_path-rooted :
    (c : Str) (cs : List Str)
    → All IsName (c ∷ cs)
    → sanitize_path (rooted (c ∷ cs)) ≡ some (rooted (c ∷ cs))
unfolding sanitize_path clean_components Option.bind
sanitize_path-rooted c cs named =
    let ends = Ends-cons slash _ (Ends-join_with c cs named) in
    rw
      (
        ends.ends_kept,
        split-join_with c cs named,
        clean_components-names cs named.1,
        named.0.not_skipped,
        named.0.not_up,
      )
      refl

as_path-IsName :
    (ds : List Str) (p : VfsPath)
    → All IsName ds
    → as_path ds ≡ some p
    → (c : Str) × (cs : List Str) × (p ≡ rooted (c ∷ cs)) × All IsName (c ∷ cs)
as_path-IsName [] p named done = absurd (none-ne-some p done)
as_path-IsName (c ∷ cs) p named done = (c, cs, sym (some-injective (rooted (c ∷ cs)) p done), named)

-- A path that `sanitize_path` returns consists of at least one component, each of which names an entry:
-- none is empty, `.` or `..`, or has a `/` in it. When it is sanitized again it stays as it is.
pub sanitize_path-IsName :
    (raw : Str) (p : VfsPath)
    → sanitize_path raw ≡ some p
    → (c : Str) × (cs : List Str) × (p ≡ rooted (c ∷ cs))
      × All IsName (c ∷ cs)
      × (sanitize_path p ≡ some p)
unfolding sanitize_path Option.bind
sanitize_path-IsName raw p done = elim (Bool-cases (is_empty (trim_end slash raw))) [
  | inl none_left ↦ absurd (none-ne-some p (rw none_left at done))
  | inr some_left ↦ elim (Option-cases (clean_components (split slash (trim_end slash raw)))) [
    | inl refused ↦ absurd (none-ne-some p (rw (some_left, refused) at done))
    | inr (ds, kept) ↦
        let (c, cs, e, named) =
          as_path-IsName ds p
            (clean_components-IsName _ ds (split-Slashless (trim_end slash raw)) kept)
            (rw (some_left, kept) at done) in
        (c, cs, e, named, rw e (sanitize_path-rooted c cs named))
  ]
]
