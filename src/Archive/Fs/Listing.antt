-- ===== src/Archive/Fs/Listing.antt =====
-- crates/vfs-archive/src/lib.rs, the operations of `ArchiveFs` on an index that `build_index` made.

use pfnc.Prelude.{
  ◌≡◌, ◌∙◌, refl, ap, sym, true, false, not, Bool-cases, inl, inr, Option-cases, some, List, [],
  ◌∷◌, ◌++◌, map, map-append, filter, All, str_eq, str_eq_iff, str_eq_refl,
}
use pfnc.Effect.{ok}
use pfnc.Vfs.{VfsPath}
use pfnc.Archive.{RawEntry, ArchiveEntry, sanitize_path}
use pfnc.Archive.Index.{insert, insert_at, insert_raws, raw_kind}
use pfnc.Archive.Fs.{Member, extract_from, is_at, find_in}

-- Members at other paths than `p`.
abbrev pub Elsewhere : VfsPath → List Member → Type 0
Elsewhere p = All (λ m. is_at p (sanitize_path m.raw.raw_path) ≡ false)

extract_from-Elsewhere :
    (p : VfsPath) (before rest : List Member)
    → Elsewhere p before
    → extract_from (before ++ rest) p ≡ extract_from rest p
unfolding extract_from
extract_from-Elsewhere p [] rest away = refl
extract_from-Elsewhere p (m ∷ before) rest away = elim (Bool-cases m.raw.is_dir) [
  | inl skipped ↦ rw skipped (extract_from-Elsewhere p before rest away.1)
  | inr tried ↦ rw (tried, away.0) (extract_from-Elsewhere p before rest away.1)
]

find_in-filter :
    (p q : VfsPath) (es : List ArchiveEntry)
    → str_eq q p ≡ false
    → find_in (filter (λ x. not (str_eq x.path q)) es) p ≡ find_in es p
find_in-filter p q [] other = refl
find_in-filter p q (e ∷ es) other = elim (Bool-cases (str_eq e.path q)) [
  | inl cut ↦
      let elsewhere : str_eq e.path p ≡ false =
        ap (λ r. str_eq r p) ((str_eq_iff e.path q).0 cut) ∙ other in
      rw (cut, elsewhere) (find_in-filter p q es other)
  | inr kept ↦ rw (kept, find_in-filter p q es other) refl
]

find_in-append_other :
    (p : VfsPath) (es : List ArchiveEntry) (e : ArchiveEntry)
    → str_eq e.path p ≡ false
    → find_in (es ++ (e ∷ [])) p ≡ find_in es p
find_in-append_other p [] e other = rw other refl
find_in-append_other p (x ∷ es) e other = rw (find_in-append_other p es e other) refl

find_in-insert_same :
    (p : VfsPath) (es : List ArchiveEntry) (e : ArchiveEntry)
    → str_eq e.path p ≡ true
    → find_in (insert e es) p ≡ ok e
find_in-insert_same p [] e same = rw same refl
find_in-insert_same p (x ∷ es) e same = elim (Bool-cases (str_eq x.path e.path)) [
  | inl replaced ↦ rw replaced (find_in-insert_same p es e same)
  | inr kept ↦
      let elsewhere : str_eq x.path p ≡ false =
        ap (str_eq x.path) (sym ((str_eq_iff e.path p).0 same)) ∙ kept in
      rw (kept, elsewhere) (find_in-insert_same p es e same)
]

find_in-insert_raws :
    (p : VfsPath) (after : List Member) (es : List ArchiveEntry)
    → Elsewhere p after
    → find_in (insert_raws (map (λ m. m.raw) after) es) p ≡ find_in es p
unfolding insert_raws
find_in-insert_raws p [] es away = refl
find_in-insert_raws p (m ∷ after) es away = elim (Option-cases (sanitize_path m.raw.raw_path)) [
  | inl refused ↦ rw (insert_raws, refused) (find_in-insert_raws p after es away.1)
  | inr (q, at) ↦
      let other : str_eq q p ≡ false = rw at at away.0 in
      rw (insert_raws, at)
        (find_in-insert_raws p after (insert_at m.raw (some q) es) away.1
          ∙ find_in-append_other p (filter (λ x. not (str_eq x.path q)) es) _ other
          ∙ find_in-filter p q es other)
]

insert_raws-append :
    (xs ys : List RawEntry) (es : List ArchiveEntry)
    → insert_raws (xs ++ ys) es ≡ insert_raws ys (insert_raws xs es)
unfolding insert_raws
insert_raws-append [] ys es = refl
insert_raws-append (x ∷ xs) ys es =
    insert_raws-append xs ys (insert_at x (sanitize_path x.raw_path) es)

-- A file of the archive whose path no other member has: `extract_from` returns its bytes, and the map
-- that `build_index` makes of the members has an entry for it, with the size and kind from its header.
pub extract_from-insert_raws :
    (before after : List Member) (m : Member) (p : VfsPath)
    → sanitize_path m.raw.raw_path ≡ some p
    → m.raw.is_dir ≡ false
    → Elsewhere p before
    → Elsewhere p after
    → (extract_from (before ++ (m ∷ after)) p ≡ ok m.bytes)
      × (find_in (insert_raws (map (λ x. x.raw) (before ++ (m ∷ after))) []) p
          ≡ ok (record {
            path = p;
            kind = raw_kind m.raw;
            size = m.raw.size;
            modified = m.raw.modified;
            permissions = m.raw.permissions;
          }))
unfolding extract_from insert_raws
extract_from-insert_raws before after m p at is_file away away' = (
  extract_from-Elsewhere p before (m ∷ after) away ∙ rw (is_file, at, str_eq_refl p) refl,
  rw (map-append (λ x. x.raw) before (m ∷ after), insert_raws-append)
      (rw (insert_raws, at)
        (find_in-insert_raws p after _ away' ∙ find_in-insert_same p _ _ (str_eq_refl p))),
)
