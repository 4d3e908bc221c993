-- ===== src/Cli/Merge.antt =====
-- `merge_nodes` of cli/src/main.rs: nodes that were discovered on the network are merged into the
-- active profile. The warnings on standard error are left out.
pub mod Fingerprints
pub mod Settled
use brewmble.Prelude.{
  ℕ, Bool, List, Option, Text, [], eq_name, eq_text, false, if◌then◌else◌, none, not, some, true,
  ◌++◌, ◌||◌, ◌∷◌,
}
use brewmble.Prelude.Dict.{insert}
use brewmble.Prelude.Positions.{position, get_elem?, set}
use brewmble.Cli.Config.{NodeConfig, Config, entry}

abbrev pub has_name : Text → NodeConfig → Bool
has_name name node = eq_name node.name (some name)

abbrev pub has_address : Text → NodeConfig → Bool
has_address address node = eq_text node.address address

-- An empty identifier counts as no name.
abbrev pub name_of_id : Text → Option Text
name_of_id [] = none
name_of_id (c ∷ s) = some (c ∷ s)

-- The position of the entry to update: by name first, then by address.
abbrev pub find_by_name : Option Text → List NodeConfig → Option ℕ
find_by_name none nodes = none
find_by_name (some name) nodes = position (has_name name) nodes

abbrev pub or_else : Option ℕ → Option ℕ → Option ℕ
or_else none b = b
or_else (some i) b = some i

unfoldable pub found_index : Text → Option Text → List NodeConfig → Option ℕ
found_index addr new_name nodes =
    or_else (find_by_name new_name nodes) (position (has_address addr) nodes)

-- An entry whose address changes loses its fingerprint.
unfoldable pub move_to : Text → NodeConfig → NodeConfig × Bool
move_to addr node =
    if not (eq_text node.address addr)
    then (record node { address = addr; fingerprint = none }, true)
    else (node, false)

unfoldable pub rename : Option Text → NodeConfig → NodeConfig × Bool
rename new_name node =
    if not (eq_name node.name new_name)
    then (record node { name = new_name }, true)
    else (node, false)

unfoldable pub update_node : Text → Option Text → NodeConfig → NodeConfig × Bool
unfolding move_to rename
update_node addr new_name node =
    let (moved, m) = move_to addr node in
    let (renamed, r) = rename new_name moved in (renamed, m || r)

-- An index that was found is in bounds; the last case is not reached.
abbrev pub write_back :
    List NodeConfig → ℕ → Text → Option Text → Option NodeConfig → List NodeConfig × Bool
write_back nodes index addr new_name none = (nodes, false)
write_back nodes index addr new_name (some node) =
    let (node', changed) = update_node addr new_name node in (set nodes index node', changed)

abbrev pub new_node : Text → Option Text → NodeConfig
new_node addr new_name = record { name = new_name; address = addr; fingerprint = none }

-- One round of the loop.
unfoldable pub merge_node : List NodeConfig → Text × Text → List NodeConfig × Bool
merge_node nodes (addr, id) = elim (found_index addr (name_of_id id) nodes) [
  | some index ↦ write_back nodes index addr (name_of_id id) (get_elem? nodes index)
  | none ↦ (nodes ++ (new_node addr (name_of_id id) ∷ []), true)
]

unfoldable pub merge_all : List NodeConfig → List (Text × Text) → List NodeConfig × Bool
merge_all nodes [] = (nodes, false)
merge_all nodes (d ∷ ds) =
    let (nodes', changed) = merge_node nodes d in
    let (nodes'', more) = merge_all nodes' ds in (nodes'', changed || more)

unfoldable pub merge_nodes : Config → List (Text × Text) → Config × Bool
unfolding merge_all
merge_nodes config discovered =
    let (nodes, updated) =
      merge_all (entry config.active_profile config.profiles).nodes discovered in
    (
      record config {
        profiles = insert config.active_profile (record { nodes = nodes }) config.profiles;
      },
      updated,
    )
