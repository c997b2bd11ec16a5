-- ===== src/Fixtures.antt =====
-- A small world for the tests: a token, a progress cell, the bytes of one source file and those written,
-- and a disk with a fixed directory.
use pfnc.Prelude.{
  ℕ, ◌≡◌, Bool, true, none, some, List, [], ◌∷◌, ◌++◌, length, take, drop, Str, str_eq, codes,
  if◌then◌else◌,
}
use pfnc.Effect.{pure, fail}
use pfnc.Vfs.{VfsPath, not_found, EntryKind, EntryMeta, file, dir}
use pfnc.Vfs.Interface.{Vfs, Reader, Writer, RemoteFileAgent, PathLib}
use pfnc.Job.{JobProgress, Env, no_progress}
use pfnc.Transport.Quic.{StaysCancelled}

pub record World : Type 0 where
  pub progress : JobProgress
  pub pending : List ℕ
  pub stored : List ℕ
  pub stop : Bool

abbrev pub test_env : Env World
test_env = record {
  is_cancelled = λ w. (w.stop, w);
  report = λ _ w. w;
  load = λ w. w.progress;
  store = λ p w. record w { progress = p };
}

abbrev pub test_reader : Reader World
test_reader = record {
  read = λ n w. pure (take n w.pending) (record w { pending = drop n w.pending });
}

abbrev pub test_writer : Writer World
test_writer = record {
  write = λ buf w. pure (length buf) (record w { stored = w.stored ++ buf });
  flush = λ w. pure tt w;
}

abbrev pub meta_of : Str → VfsPath → EntryKind → EntryMeta
meta_of name path kind = record {
  name = name;
  path = path;
  kind = kind;
  size = 3;
  modified = none;
  permissions = none;
  owner = none;
  group = none;
}

-- `/d` holds the file `/d/f`.
abbrev pub d_meta : EntryMeta
d_meta = meta_of (codes "d") (codes "/d") dir

abbrev pub f_meta : EntryMeta
f_meta = meta_of (codes "f") (codes "/d/f") file

abbrev pub disk : {W : Type 0} → Reader W → Writer W → Vfs W
disk reader writer = record {
  list_dir = λ p w. if str_eq p (codes "/d") then pure (f_meta ∷ []) w else fail (not_found p) w;
  stat = λ p w.
      if str_eq p (codes "/d")
      then pure d_meta w
      else if str_eq p (codes "/d/f")
      then pure f_meta w
      else fail (not_found p) w;
  open_read = λ _ w. pure reader w;
  create_write = λ _ _ w. pure writer w;
  mkdir = λ _ _ w. pure tt w;
  remove_file = λ _ w. pure tt w;
  remove_dir = λ _ _ w. pure tt w;
  rename = λ _ _ w. pure tt w;
  set_permissions = λ _ _ w. pure tt w;
  symlink = λ _ _ w. pure tt w;
  capabilities = record {
    can_write = true;
    can_set_permissions = true;
    can_symlink = true;
    can_rename = true;
  };
  root = codes "/";
  quick_hash = λ _ w. pure none w;
  fast_transport = λ w. (none, w);
}

abbrev pub test_vfs : Vfs World
test_vfs = disk test_reader test_writer

abbrev pub test_agent : RemoteFileAgent World
test_agent = record { read_file = λ _ _ w. pure 0 w; write_file = λ _ _ _ w. pure tt w }

abbrev pub test_paths : PathLib
test_paths = record {
  join = λ p n. p ++ (codes "/" ++ n);
  file_name = λ p. some p;
  parent = λ _. some (codes "/");
}

abbrev pub fresh_world : List ℕ → Bool → World
fresh_world bytes stop = record {
  progress = no_progress;
  pending = bytes;
  stored = [];
  stop = stop;
}

abbrev pub Stopped : World → Type 0
Stopped w = w.stop ≡ true

pub test_stays : StaysCancelled test_env Stopped
test_stays = record { set = λ w h. h; stays = λ w h. h }
