-- ===== src/Cli/Merge/Settled.antt =====
-- What one round of `merge_nodes` of cli/src/main.rs reports and leaves behind.
use brewmble.Prelude.{
  List, Option, Option-cases, Text, arith, eq_name_iff, eq_text_iff, false, inl, inr, none, some, ℕ,
  ◌∙◌, ◌≡◌, [], eq_text_refl, length, refl, true, ◌++◌, ◌∷◌,
}
use brewmble.Prelude.Positions.{position, get_elem?, set, Any}
use brewmble.Prelude.Positions.Laws.{
  position_found, set_same, get_elem?-set_self, position-set, position-append_new,
  get_elem?-append_new, Any-get_elem?, Any-append_new,
}
use brewmble.Cli.Config.{NodeConfig}
use brewmble.Cli.Merge.{
  has_name, has_address, found_index, name_of_id, update_node, write_back, new_node, merge_node,
  merge_all,
}

-- Nothing is written exactly if nothing changes.
update_node_same :
    (a : Text) (name : Option Text) (n : NodeConfig)
    → (update_node a name n).1 ≡ false
    → (update_node a name n).0 ≡ n
unfolding update_node
update_node_same a name n h = ground arith

update_node_result :
    (a : Text) (name : Option Text) (n : NodeConfig)
    → ((update_node a name n).0.address ≡ a) × ((update_node a name n).0.name ≡ name)
unfolding update_node
update_node_result a name n = ground (arith, eq_text_iff n.address a, eq_name_iff n.name name)

update_node_settled :
    (a : Text) (name : Option Text) (n : NodeConfig)
    → n.address ≡ a
    → n.name ≡ name
    → update_node a name n ≡ (n, false)
unfolding update_node
update_node_settled a name n h k = ground (arith, eq_text_iff n.address a, eq_name_iff n.name name)

-- The entry that `found_index` finds is there.
found_entry :
    (a : Text) (name : Option Text) (nodes : List NodeConfig) (i : ℕ)
    → found_index a name nodes ≡ some i
    → (n : NodeConfig) × (get_elem? nodes i ≡ some n)
unfolding found_index
found_entry a none nodes i h = let (n, e, _) = position_found (has_address a) nodes i h in (n, e)
found_entry a (some s) nodes i h = elim (Option-cases (position (has_name s) nodes)) [
  | inl e ↦ let (n, g, _) = position_found (has_address a) nodes i (rw e at h) in (n, g)
  | inr (j, e) ↦ let (n, g, _) = position_found (has_name s) nodes i (e ∙ (rw e at h)) in (n, g)
]

-- An entry that fits both, written where the search ended, is what the search finds again.
found_index-set :
    (a : Text) (name : Option Text) (nodes : List NodeConfig) (i : ℕ) (n y : NodeConfig)
    → get_elem? nodes i ≡ some n
    → found_index a name nodes ≡ some i
    → y.address ≡ a
    → y.name ≡ name
    → found_index a name (set nodes i y) ≡ some i
unfolding found_index
found_index-set a none nodes i n y g h p q =
    position-set (has_address a) nodes i n y g (inl h) ((eq_text_iff y.address a).1 p)
found_index-set a (some s) nodes i n y g h p q =
    let named : has_name s y ≡ true = (eq_name_iff y.name (some s)).1 q in
    elim (Option-cases (position (has_name s) nodes)) [
      | inl e ↦ rw (position-set (has_name s) nodes i n y g (inr e) named)
      | inr (j, e) ↦
          let same : position (has_name s) nodes ≡ some i = e ∙ (rw e at h) in
          rw (position-set (has_name s) nodes i n y g (inl same) named)
    ]

found_index-append_new :
    (a : Text) (name : Option Text) (nodes : List NodeConfig)
    → found_index a name nodes ≡ none
    → found_index a name (nodes ++ (new_node a name ∷ [])) ≡ some (length nodes)
unfolding found_index
found_index-append_new a none nodes h =
    position-append_new (has_address a) nodes (new_node a none) h (eq_text_refl a)
found_index-append_new a (some s) nodes h = elim (Option-cases (position (has_name s) nodes)) [
  | inl e ↦ rw (
      position-append_new (has_name s) nodes (new_node a (some s)) e
        ((eq_name_iff (some s) (some s)).1 refl))
  | inr (j, e) ↦ absurd (some_none (rw e at h))
]
  where
    some_none : {j : ℕ} → ◌≡◌ {A = Option ℕ} (some j) none → ⊥
    some_none x = cc

merge_node_settled :
    (nodes : List NodeConfig) (a id : Text) (i : ℕ) (n : NodeConfig)
    → found_index a (name_of_id id) nodes ≡ some i
    → get_elem? nodes i ≡ some n
    → n.address ≡ a
    → n.name ≡ name_of_id id
    → merge_node nodes (a, id) ≡ (nodes, false)
unfolding merge_node
merge_node_settled nodes a id i n h g p q =
    rw (h, merge_node)
      (rw (g, write_back)
        (rw (update_node_settled a (name_of_id id) n p q) (rw (set_same nodes i n g))))

module _ (nodes : List NodeConfig) (a id : Text) where
  -- The three outcomes of a round.
  merge_node_pushed :
      found_index a (name_of_id id) nodes ≡ none
      → merge_node nodes (a, id) ≡ (nodes ++ (new_node a (name_of_id id) ∷ []), true)
  unfolding merge_node
  merge_node_pushed e = rw (e, merge_node)

  merge_node_updated :
      (i : ℕ) (n : NodeConfig)
      → found_index a (name_of_id id) nodes ≡ some i
      → get_elem? nodes i ≡ some n
      → merge_node nodes (a, id)
        ≡ (set nodes i (update_node a (name_of_id id) n).0, (update_node a (name_of_id id) n).1)
  unfolding merge_node
  merge_node_updated i n e g = rw (e, merge_node) (rw (g, write_back))

  -- A round that reports no change makes none.
  pub merge_node_same : (merge_node nodes (a, id)).1 ≡ false → (merge_node nodes (a, id)).0 ≡ nodes
  merge_node_same h = elim (Option-cases (found_index a (name_of_id id) nodes)) [
    | inl e ↦ cc (merge_node_pushed e)
    | inr (i, e) ↦
        let (n, g) = found_entry a (name_of_id id) nodes i e in
        let r = merge_node_updated i n e g in
        rw r (rw (update_node_same a (name_of_id id) n (rw r at h)) (set_same nodes i n g))
  ]

  -- Afterwards an entry has the address and the name that were discovered.
  pub merge_node_entry :
      Any (λ n. (n.address ≡ a) × (n.name ≡ name_of_id id)) (merge_node nodes (a, id)).0
  merge_node_entry = elim (Option-cases (found_index a (name_of_id id) nodes)) [
    | inl e ↦ rw (merge_node_pushed e) (Any-append_new _ nodes _ (refl, refl))
    | inr (i, e) ↦
        let (n, g) = found_entry a (name_of_id id) nodes i e in
        rw (merge_node_updated i n e g) (
          Any-get_elem? _ _ i _ (get_elem?-set_self nodes i n _ g)
            (update_node_result a (name_of_id id) n))
  ]

  -- The same discovery a second time changes nothing and reports no change.
  pub merge_node_idem :
      merge_node (merge_node nodes (a, id)).0 (a, id) ≡ ((merge_node nodes (a, id)).0, false)
  merge_node_idem = elim (Option-cases (found_index a (name_of_id id) nodes)) [
    | inl e ↦ rw (merge_node_pushed e) (
        merge_node_settled _ a id (length nodes) (new_node a (name_of_id id))
          (found_index-append_new a (name_of_id id) nodes e)
          (get_elem?-append_new nodes (new_node a (name_of_id id))) refl refl)
    | inr (i, e) ↦
        let (n, g) = found_entry a (name_of_id id) nodes i e in
        let (p, q) = update_node_result a (name_of_id id) n in
        rw (merge_node_updated i n e g) (
          merge_node_settled _ a id i (update_node a (name_of_id id) n).0
            (found_index-set a (name_of_id id) nodes i n _ g e p q)
            (get_elem?-set_self nodes i n _ g) p q)
  ]

-- A merge that reports no update leaves every entry as it was.
pub merge_all_same :
    (nodes : List NodeConfig) (discovered : List (Text × Text))
    → (merge_all nodes discovered).1 ≡ false
    → (merge_all nodes discovered).0 ≡ nodes
unfolding merge_all
merge_all_same nodes [] h = refl
merge_all_same nodes ((a, id) ∷ ds) h =
    let first : (merge_node nodes (a, id)).1 ≡ false = ground arith in
    let rest : (merge_all (merge_node nodes (a, id)).0 ds).1 ≡ false = ground arith in
    merge_all_same (merge_node nodes (a, id)).0 ds rest ∙ merge_node_same nodes a id first
