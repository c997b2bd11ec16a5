-- ===== src/Local/Tests.antt =====
-- crates/vfs-local/src/lib.rs on a small file.
use pfnc.Prelude.{
  ℕ, ◌*◌, ◌≡◌, refl, some, true, List, [], ◌∷◌, ◌++◌, codes, append-nil, append_assoc, length,
  arith,
}
use pfnc.Effect.{ok, pure, fail}
use pfnc.Vfs.{IoError, kind_not_found}
use pfnc.Vfs.Interface.{Reader}
use pfnc.Fixtures.{test_paths}
use pfnc.Local.{StdFs, quick_hash}
use pfnc.Local.Hash.{Hasher}
use pfnc.Local.Contents.{IsStreaming, Opens, quick_hash_lem}

-- The state is what is still to be read, one byte at a time; the hash is the number of bytes.
abbrev next_byte : Reader (List ℕ)
next_byte = record { read = λ _ w. elim w [ [] ↦ (ok [], []) | b ∷ bytes ↦ (ok (b ∷ []), bytes) ] }

abbrev counter : Hasher (List ℕ)
counter = record { new = λ _. []; update = λ h bytes. h ++ bytes; digest = length }

abbrev no_file : IoError
no_file = record { error_kind = kind_not_found; message = [] }

abbrev one_file : StdFs (List ℕ)
one_file = record {
  read_dir = λ _. pure [];
  symlink_metadata = λ _. fail no_file;
  read_link = λ _. fail no_file;
  open_file = λ _. pure next_byte;
  open_with = λ _ _. fail no_file;
  create_dir_all = λ _. pure tt;
  set_permissions = λ _ _. pure tt;
  remove_file = λ _. pure tt;
  remove_dir = λ _. pure tt;
  remove_dir_all = λ _. pure tt;
  rename = λ _ _. pure tt;
  symlink = λ _ _. pure tt;
}

counter-IsStreaming : IsStreaming counter
counter-IsStreaming = record { joins = λ h a b. append_assoc h a b; starts = λ h. append-nil h }

abbrev first_piece : List ℕ → List ℕ
first_piece [] = []
first_piece (b ∷ _) = b ∷ []

reads_piece : (w : List ℕ) → (next_byte.read (64 * 1024) w).0 ≡ ok (first_piece w)
reads_piece [] = refl
reads_piece (b ∷ bytes) = refl

splits_piece : (w : List ℕ) → first_piece w ++ (next_byte.read (64 * 1024) w).1 ≡ w
splits_piece [] = refl
splits_piece (b ∷ bytes) = refl

ends_piece : (w : List ℕ) → first_piece w ≡ [] → w ≡ []
ends_piece [] e = refl
ends_piece (b ∷ bytes) e = cc

abbrev file_of : List ℕ
file_of = 7 ∷ 8 ∷ 9 ∷ []

file_of-Opens : Opens one_file (codes "/d/f") file_of file_of
file_of-Opens = record {
  file = next_byte;
  pending = λ w. w;
  serves = record {
    piece = first_piece;
    reads = reads_piece;
    splits = splits_piece;
    ends = ends_piece;
  };
  opened = file_of;
  opens = refl;
  whole = refl;
}

quick_hash_lem_example :
    (quick_hash one_file test_paths (λ _ _. true) counter 4 (codes "/d/f") file_of).0 ≡ ok (some 3)
quick_hash_lem_example =
    quick_hash_lem one_file test_paths (λ _ _. true) counter 4 (codes "/d/f") file_of file_of
      counter-IsStreaming file_of-Opens (omega arith)
