-- ===== src/Cli/Status/Targets.antt =====
-- `run_status` of cli/src/main.rs up to its requests: the targets, without duplicates, and the
-- nodes whose pins are checked.
use brewmble.Prelude.{
  Bool, List, Option, Text, [], eq_name, eq_text, filter, find, if◌then◌else◌, is_empty, none, not,
  some, ◌&&◌, ◌||◌, ◌∷◌,
}
use brewmble.Prelude.Dict.{get}
use brewmble.Prelude.Sets.{set_insert, member}
use brewmble.Cli.Config.{NodeConfig, ProfileConfig, Config}
use brewmble.Cli.Merge.{has_address}

-- A target: its address, and its name if it has one.
abbrev pub Target : Type 0
Target = Text × Option Text

abbrev nodes_of : Option ProfileConfig → List NodeConfig
nodes_of none = []
nodes_of (some p) = p.nodes

unfoldable pub profile_nodes : Config → List NodeConfig
profile_nodes config = nodes_of (get config.active_profile config.profiles)

-- A target on the command line is an address, or the name of a node.
abbrev is_meant : Text → NodeConfig → Bool
is_meant t n = eq_text n.address t || eq_name n.name (some t)

abbrev address_or : Text → Option NodeConfig → Text
address_or t none = t
address_or t (some n) = n.address

unfoldable pub target_address : List NodeConfig → Text → Text
target_address nodes t = address_or t (find (is_meant t) nodes)

unfoldable pub insert_targets : List NodeConfig → List Text → List Text → List Text
unfolding target_address
insert_targets nodes [] seen = seen
insert_targets nodes (t ∷ ts) seen =
    insert_targets nodes ts (set_insert (target_address nodes t) seen).1

unfoldable pub insert_nodes : List NodeConfig → List Text → List Text
insert_nodes [] seen = seen
insert_nodes (n ∷ ns) seen = insert_nodes ns (set_insert n.address seen).1

-- Without a target on the command line and without discovery, the nodes of the profile.
unfoldable pub initial_targets : Bool → List Text → List NodeConfig → List Text
unfolding insert_targets insert_nodes
initial_targets discover_all targets nodes =
    let given = insert_targets nodes targets [] in
    if is_empty given && not discover_all then insert_nodes nodes given else given

unfoldable pub nodes_to_validate : Bool → List Text → List NodeConfig → List NodeConfig
nodes_to_validate discover_all initial nodes =
    if is_empty initial && discover_all
    then []
    else if is_empty initial
    then nodes
    else filter (λ n. member n.address initial) nodes

abbrev name_at : Option NodeConfig → Option Text
name_at none = none
name_at (some n) = n.name

-- What is sent to the workers before the discovery.
unfoldable pub queue : List NodeConfig → List Text → List Target
queue nodes [] = []
queue nodes (addr ∷ addrs) = (addr, name_at (find (has_address addr) nodes)) ∷ queue nodes addrs
