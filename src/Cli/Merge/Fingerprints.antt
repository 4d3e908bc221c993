-- ===== src/Cli/Merge/Fingerprints.antt =====
-- What `merge_nodes` of cli/src/main.rs does to the stored fingerprints.
use brewmble.Prelude.{
  List, Option, Option-cases, Text, [], arith, eq_text_refl, inl, inr, none, refl, some, ℕ, ◌++◌,
  ◌∷◌, ◌≡◌,
}
use brewmble.Prelude.Positions.{get_elem?, Any}
use brewmble.Prelude.Positions.Laws.{Any-get_elem?, Any-set, Any-append}
use brewmble.Cli.Config.{NodeConfig, Config, entry}
use brewmble.Prelude.Dict.{get-insert}
use brewmble.Cli.Merge.{
  found_index, name_of_id, update_node, write_back, new_node, merge_node, merge_all, merge_nodes,
}

-- Some entry has this address with this fingerprint.
abbrev pub IsPinned : Text → Text → List NodeConfig → Type 0
IsPinned addr fp = Any (λ n. (n.address ≡ addr) × (n.fingerprint ≡ some fp))

none-some : {fp : Text} → ◌≡◌ {A = Option Text} none (some fp) → ⊥
none-some h = cc

module _ (addr fp : Text) where
  update_node-IsPinned :
      (a : Text) (name : Option Text) (n : NodeConfig)
      → ((update_node a name n).0.address ≡ addr) × ((update_node a name n).0.fingerprint ≡ some fp)
      → (n.address ≡ addr) × (n.fingerprint ≡ some fp)
  unfolding update_node
  update_node-IsPinned a name n h = ground arith

  write_back-IsPinned :
      (nodes : List NodeConfig) (i : ℕ) (a : Text) (name : Option Text) (o : Option NodeConfig)
      → get_elem? nodes i ≡ o
      → IsPinned addr fp (write_back nodes i a name o).0
      → IsPinned addr fp nodes
  write_back-IsPinned nodes i a name none e h = h
  write_back-IsPinned nodes i a name (some n) e h =
      elim (Any-set _ nodes i (update_node a name n).0 h) [
        | inl p ↦ Any-get_elem? _ nodes i n e (update_node-IsPinned a name n p)
        | inr k ↦ k
      ]

  merge_node-IsPinned :
      (nodes : List NodeConfig) (a id : Text)
      → IsPinned addr fp (merge_node nodes (a, id)).0
      → IsPinned addr fp nodes
  unfolding merge_node
  merge_node-IsPinned nodes a id h = elim (Option-cases (found_index a (name_of_id id) nodes)) [
    | inl e ↦ new_entry (rw (e, merge_node) at h)
    | inr (i, e) ↦
        write_back-IsPinned nodes i a (name_of_id id) (get_elem? nodes i) refl
          (rw (e, merge_node) at h)
  ]
    where
      new_entry :
          IsPinned addr fp (nodes ++ (new_node a (name_of_id id) ∷ [])) → IsPinned addr fp nodes
      new_entry k = elim (Any-append _ nodes (new_node a (name_of_id id) ∷ []) k) [
        | inl p ↦ p
        | inr (inl (_, q)) ↦ absurd (none-some q)
        | inr (inr q) ↦ absurd q
      ]

  merge_all-IsPinned :
      (nodes : List NodeConfig) (discovered : List (Text × Text))
      → IsPinned addr fp (merge_all nodes discovered).0
      → IsPinned addr fp nodes
  unfolding merge_all
  merge_all-IsPinned nodes [] h = h
  merge_all-IsPinned nodes ((a, id) ∷ ds) h =
      merge_node-IsPinned nodes a id (merge_all-IsPinned (merge_node nodes (a, id)).0 ds h)

-- Whatever is discovered, an address that has a fingerprint in the active profile afterwards had
-- that same fingerprint there before: an entry that moves loses its pin.
pub merge_nodes-IsPinned :
    (config : Config) (discovered : List (Text × Text)) (addr fp : Text)
    → IsPinned addr fp
        (entry config.active_profile (merge_nodes config discovered).0.profiles).nodes
    → IsPinned addr fp (entry config.active_profile config.profiles).nodes
unfolding merge_nodes
merge_nodes-IsPinned config discovered addr fp h =
    merge_all-IsPinned addr fp (entry config.active_profile config.profiles).nodes discovered
      (simp (get-insert, eq_text_refl) at h)
