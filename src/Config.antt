-- ===== src/Config.antt =====
-- crates/config/src/lib.rs: the settings, the saved profiles and the session, and how they are kept in a file. The
-- `HashMap` of key bindings is a list of pairs; serde and toml, and the calls of std::fs, are `ConfigIo`.
mod Profiles
pub mod Store
pub mod Tests
use pfnc.Prelude.{
  ℕ, Bool, true, false, Option, none, some, List, [], ◌∷◌, Str, str_eq, if◌then◌else◌,
}
use pfnc.Effect.{M, pure, fail, Result, ok, err, out_of_fuel, map_err, total, ◌>>=◌, ◌>>◌}
use pfnc.Vfs.{IoError, VfsPath}

pub record GeneralConfig : Type 0 where
  pub confirm_delete : Bool
  pub show_hidden : Bool
  pub sync_delete_extraneous : Bool
  pub enable_quic_fast_path : Bool

abbrev pub default_general : GeneralConfig
default_general = record {
  confirm_delete = true;
  show_hidden = false;
  sync_delete_extraneous = false;
  enable_quic_fast_path = false;
}

pub record ConnectionProfileConfig : Type 0 where
  pub id : Str
  pub host : Str
  pub port : ℕ
  pub username : Str

pub data PanelLocationConfig : Type 0 where
  local : PanelLocationConfig
  remote : Str → PanelLocationConfig

pub record PanelSessionConfig : Type 0 where
  pub location : PanelLocationConfig
  pub cwd : Str

pub record SessionConfig : Type 0 where
  pub left : Option PanelSessionConfig
  pub right : Option PanelSessionConfig

pub record Config : Type 0 where
  pub general : GeneralConfig
  pub keybindings : List (Str × Str)
  pub profiles : List ConnectionProfileConfig
  pub session : SessionConfig

-- `HashMap::get`.
abbrev pub binding_of : List (Str × Str) → Str → Option Str
binding_of [] action = none
binding_of ((a, key) ∷ rest) action =
    let later = binding_of rest action in if str_eq a action then some key else later

abbrev pub default_config : Config
default_config = record {
  general = default_general;
  keybindings = [];
  profiles = [];
  session = record { left = none; right = none };
}

-- The first profile of that id is replaced; without one, the profile comes last.
unfoldable pub upsert :
    ConnectionProfileConfig → List ConnectionProfileConfig → List ConnectionProfileConfig
upsert profile [] = profile ∷ []
upsert profile (p ∷ ps) =
    let rest = upsert profile ps in if str_eq p.id profile.id then profile ∷ ps else p ∷ rest

unfoldable pub upsert_profile : ConnectionProfileConfig → Config → Config
unfolding upsert
upsert_profile profile c = record c { profiles = upsert profile c.profiles }

-- `ConfigError`, without the missing directory; the text is that of the error of toml.
pub data ConfigError : Type 0 where
  read_failed write_failed : VfsPath → IoError → ConfigError
  parse_failed : VfsPath → Str → ConfigError
  serialize_failed : Str → ConfigError

pub record ConfigIo (W : Type 0) : Type 0 where
  pub exists : VfsPath → W → Bool × W
  pub read_to_string : VfsPath → M W IoError Str
  pub create_dir_all : VfsPath → M W IoError (Unit {0})
  pub write : VfsPath → Str → M W IoError (Unit {0})
  pub parent : VfsPath → Option VfsPath
  pub from_str : Str → Result Str Config
  pub to_string_pretty : Config → Result Str Str

module _ {W : Type 0} (io : ConfigIo W) where
  unfoldable pub load_from : VfsPath → M W ConfigError Config
  load_from path = total (io.exists path) >>= λ here. elim here [
    | false ↦ pure default_config
    | true ↦ do
      text ← map_err (read_failed path) (io.read_to_string path)
      map_err (parse_failed path) (λ w. (io.from_str text, w))
  ]

  abbrev pub create_parent : VfsPath → Option VfsPath → M W ConfigError (Unit {0})
  create_parent path none = pure tt
  create_parent path (some parent) = map_err (write_failed path) (io.create_dir_all parent)

  unfoldable pub save_to : VfsPath → Config → M W ConfigError (Unit {0})
  save_to path c = do
    create_parent path (io.parent path)
    text ← map_err serialize_failed (λ w. (io.to_string_pretty c, w))
    map_err (write_failed path) (io.write path text)
