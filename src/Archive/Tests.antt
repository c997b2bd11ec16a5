-- ===== src/Archive/Tests.antt =====
-- Archives with a file in a directory that has no entry of its own.
use mathlib.Core.Option
use mathlib.Core.Option.{some-injective, none-ne-some}
use pfnc.Prelude.{
  ℕ, suc, ◌≤◌, ◌<◌, ◌≡◌, refl, true, false, ◌==◌, Bool-cases, Option-cases, inl, inr, Option, none,
  some, List, [], ◌∷◌, ◌++◌, codes, Str, length, arith, subst, All, if◌then◌else◌,
}
use pfnc.Effect.{ok}
use pfnc.Vfs.{VfsPath, file}
use pfnc.Vfs.Interface.{PathLib}
use pfnc.Archive.{RawEntry, ArchiveEntry, sanitize_path, rooted, root_path, slash}
use pfnc.Archive.Clean.{IsName, sanitize_path-IsName}
use pfnc.Archive.Index.{build_index, contains_key, insert_raws}
use pfnc.Archive.Index.Anchored.{Anchored, build_index-Anchored}
use pfnc.Archive.Fs.{Member, extract_from, find_in, detect_format, zip}
use pfnc.Archive.Fs.Listing.{extract_from-insert_raws}

abbrev raw_file : Str → ℕ → RawEntry
raw_file p size = record {
  raw_path = p;
  is_dir = false;
  is_symlink = false;
  symlink_target = none;
  size = size;
  modified = none;
  permissions = none;
}

refuses_traversal : sanitize_path (codes "../../etc/passwd") ≡ none
unfolding sanitize_path Option.bind
refuses_traversal = refl

cleans : sanitize_path (codes "./a//b/") ≡ some (codes "/a/b")
unfolding sanitize_path Option.bind
cleans = refl

sanitize_path-IsName_example :
    (c : Str) × (cs : List Str) × (codes "/a/b" ≡ rooted (c ∷ cs))
    × All IsName (c ∷ cs)
    × (sanitize_path (codes "/a/b") ≡ some (codes "/a/b"))
sanitize_path-IsName_example = sanitize_path-IsName (codes "./a//b/") (codes "/a/b") cleans

-- The parent of an absolute path: what stands before its last slash.
abbrev before_slash : Str → Option Str
before_slash [] = none
before_slash (c ∷ s) = elim (before_slash s) [
  | some t ↦ some (c ∷ t)
  | none ↦ if c == slash then some [] else none
]

abbrev slashes : PathLib
slashes = record {
  join = λ p n. p ++ (root_path ++ n);
  file_name = λ p. some p;
  parent = before_slash;
}

before_slash-length : (p d : VfsPath) → before_slash p ≡ some d → length d < length p
before_slash-length [] d h = absurd (cc)
before_slash-length (c ∷ s) d h = elim (Option-cases (before_slash s)) [
  | inl none_there ↦ elim (Bool-cases (c == slash)) [
    | inl here ↦
        subst (λ x. length x < suc (length s)) (some-injective [] d (rw (none_there, here) at h))
          (omega arith)
    | inr further ↦ absurd (none-ne-some d (rw (none_there, further) at h))
  ]
  | inr (t, there) ↦
      subst (λ x. length x < suc (length s)) (some-injective (c ∷ t) d (rw there at h))
        (omega (arith, before_slash-length s t there))
]

abbrev one_file : List RawEntry
one_file = raw_file (codes "a/b/c.txt") 3 ∷ []

build_index-Anchored_example :
    (n : ℕ) × ((fuel : ℕ)
      → n ≤ fuel
      → (entries : List ArchiveEntry) × (build_index slashes
            (λ es. es)
            (λ _ _. true)
            (suc fuel)
            one_file
          ≡ some entries)
        × Anchored slashes entries
        × ((p : VfsPath)
            → contains_key p (insert_raws one_file []) ≡ true
            → contains_key p entries ≡ true))
build_index-Anchored_example =
    build_index-Anchored slashes (λ es. es) (λ _ _. true) one_file before_slash-length
      (λ p es. refl)

abbrev a_member : Member
a_member = record { raw = raw_file (codes "a") 2; bytes = 7 ∷ 8 ∷ [] }

abbrev b_member : Member
b_member = record { raw = raw_file (codes "b") 1; bytes = 9 ∷ [] }

extract_from-insert_raws_example :
    (extract_from (b_member ∷ a_member ∷ []) (codes "/a") ≡ ok (7 ∷ 8 ∷ []))
    × (find_in (insert_raws (b_member.raw ∷ a_member.raw ∷ []) []) (codes "/a")
        ≡ ok (record {
          path = codes "/a";
          kind = file;
          size = 2;
          modified = none;
          permissions = none;
        }))
unfolding sanitize_path Option.bind
extract_from-insert_raws_example =
    extract_from-insert_raws (b_member ∷ []) [] a_member (codes "/a") refl refl (refl, tt) tt

-- An archive with two members at one path, as appending to a tar file makes it.
abbrev older : Member
older = record { raw = raw_file (codes "a") 1; bytes = 9 ∷ [] }

shows_the_last_reads_the_first :
    (extract_from (older ∷ a_member ∷ []) (codes "/a") ≡ ok (9 ∷ []))
    × (find_in (insert_raws (older.raw ∷ a_member.raw ∷ []) []) (codes "/a")
        ≡ ok (record {
          path = codes "/a";
          kind = file;
          size = 2;
          modified = none;
          permissions = none;
        }))
unfolding extract_from insert_raws sanitize_path Option.bind
shows_the_last_reads_the_first = (refl, refl)

upper_case_zip : detect_format slashes (codes "/a/b.ZIP") ≡ some zip
unfolding detect_format Option.bind
upper_case_zip = refl
