-- ===== src/Cli/Config/Stored.antt =====
-- The configurations that the CLI, cli/src/main.rs, keeps in memory and in its file, and what
-- `load_config` makes of one that was stored.
use brewmble.Prelude.{
  All, List, Option, Result, Text, [], arith, map, none, ok, some, true, ◌∷◌, ◌≡◌, refl,
  eq_text_refl, subst, ◌∙◌, lit, ap, false, ok-injective, Result-cases, Bool-cases, inl, inr, err,
  Bool, eq_text,
}
use brewmble.Prelude.Dict.{
  Dict, get, insert, contains_key, get-insert, map_values, Values, Values-insert,
}
use brewmble.Cli.Sanitize.{sanitize_display_of_IsClean}
use brewmble.Cli.Config.{
  NodeConfig, ProfileConfig, Config, default_config, empty_profile, migrate, sanitize_name,
  sanitize_names, sanitize_node, sanitize_profile, ensure_active, load_config,
}
use brewmble.Cli.Config.Loading.{
  IsCleanName, HasCleanNames, sanitize_profile_clean, ensure_active_active, migrate_nodes,
  ensure_active_nodes,
}

-- The active profile is there, no node is left outside the profiles, and no name of a node has a
-- control character.
pub record IsStored (config : Config) : Type 0 where
  pub active : contains_key config.active_profile config.profiles ≡ true
  pub migrated : config.nodes ≡ []
  pub clean : Values HasCleanNames config.profiles

-- A stored configuration is not changed by `load_config`.
sanitize_name_clean : (name : Option Text) → IsCleanName name → sanitize_name name ≡ name
sanitize_name_clean none h = refl
sanitize_name_clean (some n) h = ap some (sanitize_display_of_IsClean n h)

sanitize_nodes_clean :
    (nodes : List NodeConfig)
    → All (λ (n : NodeConfig). IsCleanName n.name) nodes
    → map sanitize_node nodes ≡ nodes
sanitize_nodes_clean [] h = refl
sanitize_nodes_clean (n ∷ ns) h =
    rw (sanitize_name_clean n.name h.0, sanitize_nodes_clean ns h.1) refl

sanitize_profiles_clean :
    (d : Dict ProfileConfig) → Values HasCleanNames d → map_values sanitize_profile d ≡ d
unfolding map_values
sanitize_profiles_clean [] h = refl
sanitize_profiles_clean ((k, p) ∷ d) h =
    rw (sanitize_nodes_clean p.nodes h.0, sanitize_profiles_clean d h.1) refl

prepared_stored :
    (config : Config) → IsStored config → ensure_active (sanitize_names (migrate config)) ≡ config
unfolding migrate sanitize_names ensure_active
prepared_stored config h =
    ground (arith, h.active, h.migrated, sanitize_profiles_clean config.profiles h.clean)

-- What `load_config` returns may be stored.
sanitized-Values : (d : Dict ProfileConfig) → Values HasCleanNames (map_values sanitize_profile d)
unfolding map_values
sanitized-Values [] = tt
sanitized-Values ((k, p) ∷ d) = (sanitize_profile_clean p.nodes, sanitized-Values d)

ensure_active-Values :
    (config : Config)
    → Values HasCleanNames config.profiles
    → Values HasCleanNames (ensure_active config).profiles
unfolding ensure_active
ensure_active-Values config h =
    elim (Bool-cases (contains_key config.active_profile config.profiles)) [
      | inl e ↦ rw e h
      | inr e ↦
          rw e
            (Values-insert HasCleanNames config.active_profile empty_profile config.profiles tt h)
    ]

prepared-IsStored : (config : Config) → IsStored (ensure_active (sanitize_names (migrate config)))
prepared-IsStored config = record {
  active = ensure_active_active (sanitize_names (migrate config));
  migrated =
      ensure_active_nodes (sanitize_names (migrate config))
      ∙ (unfold sanitize_names in migrate_nodes config);
  clean =
      ensure_active-Values (sanitize_names (migrate config))
        (unfold sanitize_names in sanitized-Values (migrate config).profiles);
}

pub IsStored-default : IsStored default_config
unfolding get lit eq_text
IsStored-default = record { active = refl; migrated = refl; clean = (tt, tt) }

-- Whatever the file holds, what `load_config` returns may be stored.
pub load_config-IsStored :
    (exists : Bool) (content : Result Text Text) (from_yaml : Text → Result Text Config)
    (config : Config)
    → load_config exists content from_yaml ≡ ok config
    → IsStored config
unfolding load_config
load_config-IsStored false content from_yaml config h =
    subst IsStored (ok-injective h) IsStored-default
load_config-IsStored true (err e) from_yaml config h = cc
load_config-IsStored true (ok text) from_yaml config h = elim (Result-cases (from_yaml text)) [
  | inl (raw, e) ↦ subst IsStored (ok-injective (rw e at h)) (prepared-IsStored raw)
  | inr (x, e) ↦ cc
]

-- A configuration that is stored is loaded as it was, if the reader of YAML reads back what the
-- writer has written.
pub load_config-stored :
    (from_yaml : Text → Result Text Config) (text : Text) (config : Config)
    → IsStored config
    → from_yaml text ≡ ok config
    → load_config true (ok text) from_yaml ≡ ok config
unfolding load_config
load_config-stored from_yaml text config h e = rw (e, prepared_stored config h) refl

-- A change to the nodes of the active profile that keeps their names clean keeps all that.
pub with_active-IsStored :
    (config : Config) (nodes : List NodeConfig)
    → IsStored config
    → HasCleanNames (record { nodes = nodes })
    → IsStored (record config {
      profiles = insert config.active_profile (record { nodes = nodes }) config.profiles;
    })
with_active-IsStored config nodes h k = record {
  active = simp (get-insert, eq_text_refl);
  migrated = h.migrated;
  clean = Values-insert HasCleanNames config.active_profile _ config.profiles k h.clean;
}
