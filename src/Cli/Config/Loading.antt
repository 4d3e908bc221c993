-- ===== src/Cli/Config/Loading.antt =====
-- What `load_config` of cli/src/main.rs guarantees of a configuration that it returns.
use brewmble.Prelude.{
  All, List, Option, Text, [], arith, eq_text, lit, map, none, some, true, ◌∷◌, ◌≡◌, Bool,
  Bool-cases, Result, Result-cases, eq_text_refl, err, false, if◌then◌else◌, inl, inr, ok,
  ok-injective, refl, some-injective, subst, sym, ◌++◌, ◌∙◌, append-nil, eq_text_iff,
}
use brewmble.Prelude.Dict.{get, contains_key, get-insert, get-map_values, mapped}
use brewmble.Cli.Sanitize.{IsClean, sanitize_display-IsClean}
use brewmble.Cli.Config.{
  NodeConfig, ProfileConfig, Config, default_config, default_profile_name, entry, empty_profile,
  migrate, sanitize_name, sanitize_names, sanitize_node, sanitize_profile, ensure_active,
  load_config,
}

abbrev pub IsCleanName : Option Text → Type 0
IsCleanName none = Unit
IsCleanName (some s) = IsClean s

abbrev pub HasCleanNames : ProfileConfig → Type 0
HasCleanNames p = All (λ (node : NodeConfig). IsCleanName node.name) p.nodes

-- The active profile is there, no node is left outside the profiles, and no name of a node in a
-- profile has a control character.
pub record IsLoaded (config : Config) : Type 0 where
  pub active : contains_key config.active_profile config.profiles ≡ true
  pub migrated : config.nodes ≡ []
  pub clean : (k : Text) (p : ProfileConfig) → get k config.profiles ≡ some p → HasCleanNames p

sanitize_name-IsCleanName : (name : Option Text) → IsCleanName (sanitize_name name)
sanitize_name-IsCleanName none = tt
sanitize_name-IsCleanName (some n) = sanitize_display-IsClean n

pub sanitize_profile_clean :
    (nodes : List NodeConfig) → HasCleanNames (record { nodes = map sanitize_node nodes })
sanitize_profile_clean [] = tt
sanitize_profile_clean (node ∷ nodes) =
    (sanitize_name-IsCleanName node.name, sanitize_profile_clean nodes)

pub migrate_nodes : (config : Config) → (migrate config).nodes ≡ []
unfolding migrate
migrate_nodes config = ground arith

mapped_clean :
    (o : Option ProfileConfig) (p : ProfileConfig)
    → mapped sanitize_profile o ≡ some p
    → HasCleanNames p
mapped_clean none p h = cc
mapped_clean (some q) p h =
    subst HasCleanNames (some-injective _ _ h) (sanitize_profile_clean q.nodes)

sanitize_names_clean :
    (config : Config) (k : Text) (p : ProfileConfig)
    → get k (sanitize_names config).profiles ≡ some p
    → HasCleanNames p
unfolding sanitize_names
sanitize_names_clean config k p h =
    mapped_clean (get k config.profiles) p
      (sym (get-map_values sanitize_profile k config.profiles) ∙ h)

pub ensure_active_active :
    (config : Config)
    → contains_key (ensure_active config).active_profile (ensure_active config).profiles ≡ true
unfolding ensure_active
ensure_active_active config =
    elim (Bool-cases (contains_key config.active_profile config.profiles)) [
      | inl h ↦ rw h h
      | inr h ↦ rw h (simp (get-insert, eq_text_refl))
    ]

ensured_clean :
    (b : Bool) (o : Option ProfileConfig) (p : ProfileConfig)
    → ((p : ProfileConfig) → o ≡ some p → HasCleanNames p)
    → (if b then some empty_profile else o) ≡ some p
    → HasCleanNames p
ensured_clean true o p h e = subst HasCleanNames (some-injective _ _ e) tt
ensured_clean false o p h e = h p e

ensure_active_clean :
    (config : Config) (k : Text) (p : ProfileConfig)
    → ((p : ProfileConfig) → get k config.profiles ≡ some p → HasCleanNames p)
    → get k (ensure_active config).profiles ≡ some p
    → HasCleanNames p
unfolding ensure_active
ensure_active_clean config k p h e =
    elim (Bool-cases (contains_key config.active_profile config.profiles)) [
      | inl c ↦ h p (rw c at e)
      | inr c ↦
          ensured_clean (eq_text config.active_profile k) (get k config.profiles) p h
            (sym (get-insert config.active_profile k empty_profile config.profiles) ∙ (rw c at e))
    ]

pub ensure_active_nodes : (config : Config) → (ensure_active config).nodes ≡ config.nodes
unfolding ensure_active
ensure_active_nodes config = ground arith

prepared-IsLoaded : (config : Config) → IsLoaded (ensure_active (sanitize_names (migrate config)))
prepared-IsLoaded config = record {
  active = ensure_active_active (sanitize_names (migrate config));
  migrated =
      ensure_active_nodes (sanitize_names (migrate config))
      ∙ (unfold sanitize_names in migrate_nodes config);
  clean = λ k p.
      ensure_active_clean (sanitize_names (migrate config)) k p
        (sanitize_names_clean (migrate config) k);
}

IsLoaded-default : IsLoaded default_config
unfolding get lit eq_text
IsLoaded-default = record {
  active = refl;
  migrated = refl;
  clean = λ k p h. ensured_clean (eq_text (lit "default") k) none p (λ p e. cc) h;
}

-- Whatever the file holds, a configuration that `load_config` returns has its active profile, no
-- node outside a profile, and no control character in the name of a node.
pub load_config-IsLoaded :
    (exists : Bool) (content : Result Text Text) (from_yaml : Text → Result Text Config)
    (config : Config)
    → load_config exists content from_yaml ≡ ok config
    → IsLoaded config
unfolding load_config
load_config-IsLoaded false content from_yaml config h =
    subst IsLoaded (ok-injective h) IsLoaded-default
load_config-IsLoaded true (err e) from_yaml config h = cc
load_config-IsLoaded true (ok text) from_yaml config h = elim (Result-cases (from_yaml text)) [
  | inl (raw, e) ↦ subst IsLoaded (ok-injective (rw e at h)) (prepared-IsLoaded raw)
  | inr (x, e) ↦ cc
]

-- The nodes of an older file are appended to those of the default profile, and every other profile
-- keeps its nodes.
pub migrate_profiles :
    (config : Config) (k : Text)
    → (entry k (migrate config).profiles).nodes ≡ (
        if eq_text default_profile_name k
        then (entry k config.profiles).nodes ++ config.nodes
        else (entry k config.profiles).nodes)
unfolding migrate
migrate_profiles config k = ground (
  arith,
  eq_text_iff default_profile_name k,
  append-nil (entry k config.profiles).nodes,
  get-insert default_profile_name k
      (record { nodes = (entry default_profile_name config.profiles).nodes ++ config.nodes })
      config.profiles,
)
