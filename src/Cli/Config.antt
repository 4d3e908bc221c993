-- ===== src/Cli/Config.antt =====
-- The configuration of the CLI, in cli/src/main.rs: its data, its location, and `load_config`. The
-- file system and the YAML reader are parameters.
pub mod Loading
pub mod Stored
use brewmble.Prelude.{
  ◌>>=◌, Bool, List, Option, Result, Text, [], false, if◌then◌else◌, is_empty, lit, map, none, not,
  ok, some, true, ◌++◌, ◌∷◌,
}
use brewmble.Prelude.Dict.{Dict, get, insert, map_values, contains_key}
use brewmble.Cli.Sanitize.{sanitize_display}

pub record NodeConfig : Type 0 where
  pub name : Option Text
  pub address : Text
  pub fingerprint : Option Text

pub record ProfileConfig : Type 0 where
  pub nodes : List NodeConfig

pub record Config : Type 0 where
  pub active_profile : Text
  pub profiles : Dict ProfileConfig
  pub nodes : List NodeConfig

abbrev pub default_profile_name : Text
default_profile_name = lit "default"

abbrev pub empty_profile : ProfileConfig
empty_profile = record { nodes = [] }

-- `Config::default`.
abbrev pub default_config : Config
default_config = record {
  active_profile = default_profile_name;
  profiles = (default_profile_name, empty_profile) ∷ [];
  nodes = [];
}

-- `map.entry(name).or_insert_with(ProfileConfig::default)`: the profile of that name.
abbrev pub or_default : Option ProfileConfig → ProfileConfig
or_default none = empty_profile
or_default (some p) = p

abbrev pub entry : Text → Dict ProfileConfig → ProfileConfig
entry name profiles = or_default (get name profiles)

abbrev home_path : Text → Text
home_path home = home ++ lit "/.brewmble.yaml"

-- `resolve_config_path_inner`, with the test that a path exists: the path, and whether a file was
-- set or found.
unfoldable pub resolve_config_path_inner :
    (Text → Bool) → Option Text → Option Text → Text → Text × Bool
resolve_config_path_inner exists (some path) home_dir local_path = (path, true)
resolve_config_path_inner exists none (some home) local_path =
    if exists (home_path home)
    then (home_path home, true)
    else if exists local_path
    then (local_path, true)
    else (home_path home, false)
resolve_config_path_inner exists none none local_path =
    if exists local_path then (local_path, true) else (local_path, false)

-- `resolve_config_path`.
unfoldable pub resolve_config_path : (Text → Bool) → Option Text → Option Text → Text × Bool
unfolding resolve_config_path_inner
resolve_config_path exists explicit_path home_dir =
    resolve_config_path_inner exists explicit_path home_dir (lit ".brewmble.yaml")

-- The nodes of older versions go to the default profile.
unfoldable pub migrate : Config → Config
migrate config = if is_empty config.nodes then config else record config {
  profiles =
      insert default_profile_name
        (record { nodes = (entry default_profile_name config.profiles).nodes ++ config.nodes })
        config.profiles;
  nodes = [];
}

abbrev sanitize_name : Option Text → Option Text
sanitize_name none = none
sanitize_name (some name) = some (sanitize_display name)

abbrev pub sanitize_node : NodeConfig → NodeConfig
sanitize_node node = record node { name = sanitize_name node.name }

abbrev pub sanitize_profile : ProfileConfig → ProfileConfig
sanitize_profile p = record { nodes = map sanitize_node p.nodes }

unfoldable pub sanitize_names : Config → Config
sanitize_names config = record config { profiles = map_values sanitize_profile config.profiles }

unfoldable pub ensure_active : Config → Config
ensure_active config =
    if contains_key config.active_profile config.profiles
    then config
    else record config { profiles = insert config.active_profile empty_profile config.profiles }

-- `load_config`: whether the file exists, its content, and the YAML reader.
unfoldable pub load_config :
    Bool → Result Text Text → (Text → Result Text Config) → Result Text Config
unfolding migrate sanitize_names ensure_active
load_config exists content from_yaml = if not exists then ok default_config else do
  text ← content
  config ← from_yaml text
  ok (ensure_active (sanitize_names (migrate config)))
