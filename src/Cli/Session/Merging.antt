-- ===== src/Cli/Session/Merging.antt =====
-- `merge_nodes` of cli/src/main.rs keeps what a stored configuration is, if the identifiers that
-- were discovered have no control character, and those that `run_discover` collects have none.
use brewmble.Prelude.{
  All, All-append, List, Option, Option-cases, Text, [], inl, inr, none, refl, some, ℕ, ◌∷◌, ◌≡◌,
  arith, zero, suc, subst, sym, some-injective, ◌⊎◌, Bool-cases,
}
use brewmble.Prelude.Dict.{get, Values-get}
use brewmble.Prelude.Positions.{get_elem?, set}
use brewmble.Cli.Sanitize.{IsClean, sanitize_display-IsClean}
use brewmble.Cli.Config.{NodeConfig, ProfileConfig, Config, entry, or_default}
use brewmble.Cli.Config.Loading.{IsCleanName, HasCleanNames}
use brewmble.Cli.Config.Stored.{IsStored, with_active-IsStored}
use brewmble.Prelude.Sets.{set_insert}
use brewmble.Cli.Discover.{
  ResolvedService, ServiceEvent, service_resolved, search_stopped, other, entry_id, Discovered,
  on_discovered, property, first_node,
}
use brewmble.Cli.Merge.{
  found_index, name_of_id, update_node, write_back, new_node, merge_node, merge_all, merge_nodes,
}

abbrev HasCleanName : NodeConfig → Type 0
HasCleanName n = IsCleanName n.name

abbrev pub HasCleanIds : List (Text × Text) → Type 0
HasCleanIds = All (λ d. IsClean d.1)

name_of_id-IsCleanName : (id : Text) → IsClean id → IsCleanName (name_of_id id)
name_of_id-IsCleanName [] h = tt
name_of_id-IsCleanName (c ∷ s) h = h

All-set :
    (nodes : List NodeConfig) (i : ℕ) (n : NodeConfig)
    → All HasCleanName nodes
    → HasCleanName n
    → All HasCleanName (set nodes i n)
All-set [] i n h k = h
All-set (m ∷ ms) zero n h k = (k, h.1)
All-set (m ∷ ms) (suc i) n h k = (h.0, All-set ms i n h.1 k)

All-get_elem? :
    (nodes : List NodeConfig) (i : ℕ) (n : NodeConfig)
    → All HasCleanName nodes
    → get_elem? nodes i ≡ some n
    → HasCleanName n
All-get_elem? [] i n h e = cc
All-get_elem? (m ∷ ms) zero n h e = subst HasCleanName (some-injective m n e) h.0
All-get_elem? (m ∷ ms) (suc i) n h e = All-get_elem? ms i n h.1 e

update_node_name :
    (addr : Text) (name : Option Text) (n : NodeConfig)
    → ((update_node addr name n).0.name ≡ n.name) ⊎ ((update_node addr name n).0.name ≡ name)
unfolding update_node
update_node_name addr name n = ground arith

update_node-HasCleanName :
    (addr : Text) (name : Option Text) (n : NodeConfig)
    → HasCleanName n
    → IsCleanName name
    → HasCleanName (update_node addr name n).0
update_node-HasCleanName addr name n h k = elim (update_node_name addr name n) [
  | inl e ↦ subst IsCleanName (sym e) h
  | inr e ↦ subst IsCleanName (sym e) k
]

write_back-HasCleanName :
    (nodes : List NodeConfig) (i : ℕ) (addr : Text) (name : Option Text) (o : Option NodeConfig)
    → get_elem? nodes i ≡ o
    → All HasCleanName nodes
    → IsCleanName name
    → All HasCleanName (write_back nodes i addr name o).0
write_back-HasCleanName nodes i addr name none e h k = h
write_back-HasCleanName nodes i addr name (some n) e h k =
    All-set nodes i (update_node addr name n).0 h
      (update_node-HasCleanName addr name n (All-get_elem? nodes i n h e) k)

merge_node-HasCleanName :
    (nodes : List NodeConfig) (addr id : Text)
    → All HasCleanName nodes
    → IsClean id
    → All HasCleanName (merge_node nodes (addr, id)).0
unfolding merge_node
merge_node-HasCleanName nodes addr id h k =
    let named = name_of_id-IsCleanName id k in
    elim (Option-cases (found_index addr (name_of_id id) nodes)) [
      | inl e ↦
          rw (e, merge_node)
            (All-append HasCleanName nodes (new_node addr (name_of_id id) ∷ []) h (named, tt))
      | inr (i, e) ↦
          rw (e, merge_node)
            (write_back-HasCleanName nodes i addr (name_of_id id) (get_elem? nodes i) refl h named)
    ]

merge_all-HasCleanName :
    (nodes : List NodeConfig) (discovered : List (Text × Text))
    → All HasCleanName nodes
    → HasCleanIds discovered
    → All HasCleanName (merge_all nodes discovered).0
unfolding merge_all
merge_all-HasCleanName nodes [] h k = h
merge_all-HasCleanName nodes ((addr, id) ∷ ds) h k =
    merge_all-HasCleanName (merge_node nodes (addr, id)).0 ds
      (merge_node-HasCleanName nodes addr id h k.0) k.1

entry_clean :
    (config : Config) (o : Option ProfileConfig)
    → get config.active_profile config.profiles ≡ o
    → IsStored config
    → HasCleanNames (or_default o)
entry_clean config none e h = tt
entry_clean config (some p) e h =
    Values-get HasCleanNames config.active_profile p config.profiles h.clean e

pub merge_nodes-IsStored :
    (config : Config) (discovered : List (Text × Text))
    → IsStored config
    → HasCleanIds discovered
    → IsStored (merge_nodes config discovered).0
unfolding merge_nodes
merge_nodes-IsStored config discovered h k =
    with_active-IsStored config
      (merge_all (entry config.active_profile config.profiles).nodes discovered).0 h
      (merge_all-HasCleanName (entry config.active_profile config.profiles).nodes discovered
        (entry_clean config (get config.active_profile config.profiles) refl h) k)

property-IsClean :
    (f : Text → Text) (o : Option (Text × Text))
    → ((v : Text) → IsClean (f v))
    → IsClean (property f o)
property-IsClean f none h = tt
property-IsClean f (some (k, v)) h = h v

entry_id-IsClean : (info : ResolvedService) → IsClean (entry_id info)
unfolding entry_id
entry_id-IsClean info = property-IsClean _ _ (λ v. sanitize_display-IsClean _)

first_node-HasCleanIds :
    (info : ResolvedService) (addrs : List Text) → HasCleanIds (first_node info addrs)
first_node-HasCleanIds info [] = tt
first_node-HasCleanIds info (addr ∷ addrs) = (entry_id-IsClean info, tt)

pub on_discovered-HasCleanIds :
    (e : ServiceEvent) (d : Discovered)
    → HasCleanIds d.nodes
    → HasCleanIds (on_discovered e d).nodes
unfolding on_discovered
on_discovered-HasCleanIds (service_resolved info) d h =
    elim (Bool-cases (set_insert info.fullname d.seen).0) [
      | inl e ↦ rw e (
          All-append (λ d. IsClean d.1) d.nodes (first_node info info.addresses) h
            (first_node-HasCleanIds info info.addresses))
      | inr e ↦ rw e h
    ]
on_discovered-HasCleanIds (search_stopped s) d h = h
on_discovered-HasCleanIds other d h = h
