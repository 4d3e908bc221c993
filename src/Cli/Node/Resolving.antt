-- ===== src/Cli/Node/Resolving.antt =====
-- Which nodes a command of the CLI is about (`resolve_profile_nodes`, cli/src/main.rs).
use brewmble.Prelude.{
  List, Text, [], arith, none, Option, find, eq_name, eq_text_iff, ap, Bool-cases, inl, inr, true,
  false, ◌⊎◌, ok, refl, some, ◌↔◌, ◌∷◌, ◌≡◌,
}
use brewmble.Prelude.Dict.{get}
use brewmble.Cli.Config.{NodeConfig, ProfileConfig, Config}
use brewmble.Cli.Node.{named_exactly, match_nodes, select, resolve_profile_nodes}

-- A name stands for a node that has this name, or that has no name and this address.
abbrev pub Means : Text → NodeConfig → Type 0
Means wanted n = (n.name ≡ some wanted) ⊎ ((n.name ≡ none) × (n.address ≡ wanted))

-- The first of the nodes that a name stands for.
abbrev pub IsFirst : Text → List NodeConfig → NodeConfig → Type 0
IsFirst wanted [] found = ⊥
IsFirst wanted (n ∷ ns) found =
    (Means wanted n × (n ≡ found)) ⊎ (¬ Means wanted n × IsFirst wanted ns found)

-- The nodes that were found, one for each wanted name in order: each is the first of the profile
-- that the name stands for.
abbrev pub Resolves : List NodeConfig → List Text → List NodeConfig → Type 0
Resolves candidates [] [] = Unit
Resolves candidates (w ∷ ws) (n ∷ ns) = IsFirst w candidates n × Resolves candidates ws ns
Resolves candidates [] (n ∷ ns) = ⊥
Resolves candidates (w ∷ ws) [] = ⊥

meant :
    (wanted address : Text) (name fingerprint : Option Text)
    → let n : NodeConfig = record { name = name; address = address; fingerprint = fingerprint } in
      (named_exactly wanted n ≡ true) ↔ Means wanted n
unfolding eq_name
meant wanted address none fingerprint = ground (arith, eq_text_iff address wanted)
meant wanted address (some name) fingerprint = ground (arith, eq_text_iff name wanted)

named_exactly-Means : (w : Text) (n : NodeConfig) → (named_exactly w n ≡ true) ↔ Means w n
named_exactly-Means w n = meant w n.address n.name n.fingerprint

not_meant : (w : Text) (n : NodeConfig) → named_exactly w n ≡ false → ¬ Means w n
not_meant w n h k = let e = (named_exactly-Means w n).1 k in absurd (ground arith)

find-IsFirst :
    (w : Text) (candidates : List NodeConfig) (found : NodeConfig)
    → (find (named_exactly w) candidates ≡ some found) ↔ IsFirst w candidates found
find-IsFirst w [] found = ground arith
find-IsFirst w (n ∷ ns) found = elim (Bool-cases (named_exactly w n)) [
  | inl h ↦
      let m = (named_exactly-Means w n).0 h in
      rw h (
        λ e. inl (m, ground arith),
        λ k. elim k [ inl (_, e) ↦ ap some e | inr (refuted, _) ↦ absurd (refuted m) ],
      )
  | inr h ↦
      let no_match = not_meant w n h in
      let (f, g) = find-IsFirst w ns found in
      rw h (
        λ e. inr (no_match, f e),
        λ k. elim k [ inl (m, _) ↦ absurd (no_match m) | inr (_, e) ↦ g e ],
      )
]

-- Each name is searched for by the test of the code.
abbrev Finds : List NodeConfig → List Text → List NodeConfig → Type 0
Finds candidates [] [] = Unit
Finds candidates (w ∷ ws) (n ∷ ns) =
    (find (named_exactly w) candidates ≡ some n) × Finds candidates ws ns
Finds candidates [] (n ∷ ns) = ⊥
Finds candidates (w ∷ ws) [] = ⊥

Finds-Resolves :
    (candidates : List NodeConfig) (names : List Text) (found : List NodeConfig)
    → Finds candidates names found ↔ Resolves candidates names found
Finds-Resolves candidates [] [] = (λ h. h, λ h. h)
Finds-Resolves candidates [] (n ∷ ns) = (λ h. h, λ h. h)
Finds-Resolves candidates (w ∷ ws) [] = (λ h. h, λ h. h)
Finds-Resolves candidates (w ∷ ws) (n ∷ ns) =
    let (f, g) = find-IsFirst w candidates n in
    let (p, q) = Finds-Resolves candidates ws ns in (λ (h, k). (f h, p k), λ (h, k). (g h, q k))

match_nodes_sound :
    (profile : Text) (candidates : List NodeConfig) (names : List Text) (found : List NodeConfig)
    → match_nodes profile candidates names ≡ ok found
    → Finds candidates names found
unfolding match_nodes
match_nodes_sound profile candidates [] [] h = tt
match_nodes_sound profile candidates [] (n ∷ ns) h = absurd (ground arith)
match_nodes_sound profile candidates (w ∷ ws) [] h = absurd (ground arith)
match_nodes_sound profile candidates (w ∷ ws) (n ∷ ns) h =
    ground (arith, match_nodes_sound profile candidates ws ns)

match_nodes_complete :
    (profile : Text) (candidates : List NodeConfig) (names : List Text) (found : List NodeConfig)
    → Finds candidates names found
    → match_nodes profile candidates names ≡ ok found
unfolding match_nodes
match_nodes_complete profile candidates [] [] h = refl
match_nodes_complete profile candidates [] (n ∷ ns) h = absurd h
match_nodes_complete profile candidates (w ∷ ws) [] h = absurd h
match_nodes_complete profile candidates (w ∷ ws) (n ∷ ns) (h, k) =
    ground (arith, match_nodes_complete profile candidates ws ns k)

-- With names given and the active profile there, the command is about exactly the nodes that the
-- names stand for, in their order, and fails if one of them stands for none: a name stands for the
-- first node that has this name, or has no name and this address.
pub resolve_profile_nodes_iff :
    (config : Config) (p : ProfileConfig) (w : Text) (ws : List Text) (found : List NodeConfig)
    → get config.active_profile config.profiles ≡ some p
    → (resolve_profile_nodes (w ∷ ws) config ≡ ok found) ↔ Resolves p.nodes (w ∷ ws) found
unfolding resolve_profile_nodes
resolve_profile_nodes_iff config p w ws found h =
    let (to, from) = Finds-Resolves p.nodes (w ∷ ws) found in
    rw (h, select)
      (
        λ e. to (match_nodes_sound config.active_profile p.nodes (w ∷ ws) found e),
        λ r. match_nodes_complete config.active_profile p.nodes (w ∷ ws) found (from r),
      )
