-- ===== src/Sftp/Listing/Tests.antt =====
-- crates/vfs-sftp/src/lib.rs, `list_dir` on a directory of three entries.
use pfnc.Prelude.{
  ℕ, ◌+◌, ◌^◌, ◌≡◌, refl, leb, Bool, true, ◌⊎◌, none, some, List, [], ◌∷◌, Str, codes, length,
  arith,
}
use pfnc.Prelude.Sorting.{IsOrder}
use pfnc.Effect.{ok}
use pfnc.Vfs.{EntryKind, dir, file, EntryMeta}
use pfnc.Fixtures.{test_paths}
use pfnc.Sftp.Connect.{new_caches}
use pfnc.Sftp.Fs.{list_dir}
use pfnc.Sftp.Listing.{Listed, list_dir-Listed}
use pfnc.Sftp.Fake.{fake_fs}

-- The shorter name first.
abbrev shorter : Str → Str → Bool
shorter a b = leb (length a) (length b)

shorter-IsOrder : IsOrder shorter
shorter-IsOrder = record {
  total = λ a b. lengths_total (length a) (length b);
  transitive = λ a b c. lengths_through (length a) (length b) (length c);
}
  where
    lengths_total : (m n : ℕ) → (leb m n ≡ true) ⊎ (leb n m ≡ true)
    lengths_total m n = ground arith

    lengths_through : (k m n : ℕ) → leb k m ≡ true → leb m n ≡ true → leb k n ≡ true
    lengths_through k m n e e' = ground arith

abbrev meta_at : Str → EntryKind → EntryMeta
meta_at name kind = record {
  name = name;
  path = name;
  kind = kind;
  size = 3;
  modified = some (100 + 10 ^ 9);
  permissions = none;
  owner = none;
  group = none;
}

-- The directory first, although its name comes last.
abbrev small_listing : List EntryMeta
small_listing = meta_at (codes "zz") dir ∷ meta_at (codes "a") file ∷ []

lists_small :
    (list_dir test_paths shorter 100 fake_fs (codes "/d") ([], new_caches)).0 ≡ ok small_listing
unfolding list_dir
lists_small = refl

list_dir-Listed_example :
    Listed test_paths shorter 100 fake_fs (codes "/d") ([], new_caches) small_listing
list_dir-Listed_example =
    list_dir-Listed test_paths shorter 100 fake_fs (codes "/d") ([], new_caches) small_listing
      shorter-IsOrder lists_small
