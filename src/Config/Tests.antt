-- ===== src/Config/Tests.antt =====
-- crates/config/src/lib.rs on a disk with one file.
use mathlib.Core.Logic.{ite, if_pos, if_neg}
use pfnc.Prelude.{
  ◌≡◌, refl, ap, sym, true, false, Option, none, some, [], ◌∷◌, Str, codes, str_eq, if◌then◌else◌,
}
use native.Mathlib.Decide.{ℕ_discrete}
use pfnc.Effect.{Result, ok, err, err-ne-ok, pure}
use pfnc.Vfs.{IoError, kind_not_found}
use pfnc.Config.{
  Config, ConnectionProfileConfig, ConfigIo, default_config, upsert_profile, load_from, save_to,
}
use pfnc.Config.Profiles.{lookup_profile, upsert_profile_lem, AreDistinct}
use pfnc.Config.Store.{IsFaithful, load_from-save_to}

abbrev host_a : ConnectionProfileConfig
host_a = record { id = codes "u@a:22"; host = codes "a"; port = 22; username = codes "u" }

abbrev host_b : ConnectionProfileConfig
host_b = record { id = codes "u@b:22"; host = codes "b"; port = 22; username = codes "u" }

abbrev saved_config : Config
saved_config = record default_config { profiles = host_a ∷ [] }

pub Config-discrete : Discrete Config
Config-discrete = hlevel ℕ_discrete

-- A printer for one configuration, and its parser.
abbrev print_only : Config → Config → Result Str Str
print_only kept c = ite (Config-discrete c kept) (ok (codes "saved")) (err (codes "other"))

parsed_only :
    (kept c : Config) (text : Str)
    → print_only kept c ≡ ok text
    → ◌≡◌ {A = Result Str Config} (ok kept) (ok c)
parsed_only kept c text h = elim (Config-discrete c kept) [
  | yes same ↦ ap ok (sym same)
  | no different ↦ absurd (err-ne-ok (rw (if_neg _ different) at h))
]

abbrev not_there : IoError
not_there = record { error_kind = kind_not_found; message = [] }

abbrev pub file_of : Config → ConfigIo (Option Str)
file_of kept = record {
  exists = λ _ w. elim w [ none ↦ (false, none) | some text ↦ (true, some text) ];
  read_to_string =
      λ _ w. elim w [ none ↦ (err not_there, none) | some text ↦ (ok text, some text) ];
  create_dir_all = λ _. pure tt;
  write = λ _ text _. (ok tt, some text);
  parent = λ _. none;
  from_str = λ _. ok kept;
  to_string_pretty = print_only kept;
}

pub file_of-IsFaithful : (kept : Config) → IsFaithful (file_of kept)
file_of-IsFaithful kept = record {
  written = λ _ _ _ _. refl;
  read_back = λ _ _ _ _. refl;
  parsed = parsed_only kept;
}

abbrev one_file : ConfigIo (Option Str)
one_file = file_of saved_config

pub save_to-file_of :
    (kept : Config) (path : Str) (w : Option Str) → (save_to (file_of kept) path kept w).0 ≡ ok tt
unfolding save_to
save_to-file_of kept path w = rw (if_pos (Config-discrete kept kept) refl) refl

pub save_to-file_of_state :
    (kept : Config) (path : Str) (w : Option Str)
    → (save_to (file_of kept) path kept w).1 ≡ some (codes "saved")
unfolding save_to
save_to-file_of_state kept path w = rw (if_pos (Config-discrete kept kept) refl) refl

load_from-save_to_example :
    (load_from one_file (codes "c") (save_to one_file (codes "c") saved_config none).1).0
    ≡ ok saved_config
load_from-save_to_example =
    load_from-save_to one_file (file_of-IsFaithful saved_config) (codes "c") saved_config none
      (save_to-file_of saved_config (codes "c") none)

test_first_run : (load_from one_file (codes "c") none).0 ≡ ok default_config
unfolding load_from
test_first_run = refl

test_upsert :
    (upsert_profile host_a (record default_config { profiles = host_b ∷ host_a ∷ [] })).profiles
    ≡ host_b ∷ host_a ∷ []
unfolding upsert_profile
test_upsert = refl

upsert_profile_lem_example :
    (lookup_profile (codes "u@a:22") (upsert_profile host_b saved_config).profiles ≡ (
      if str_eq (codes "u@b:22") (codes "u@a:22")
      then some host_b
      else lookup_profile (codes "u@a:22") (host_a ∷ [])))
    × AreDistinct (upsert_profile host_b saved_config).profiles
upsert_profile_lem_example = upsert_profile_lem host_b saved_config (codes "u@a:22") (refl, tt)
