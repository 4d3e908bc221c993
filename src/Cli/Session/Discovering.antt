-- ===== src/Cli/Session/Discovering.antt =====
-- `run_discover` of cli/src/main.rs keeps what a stored configuration is.
use brewmble.Prelude.{
  Bool, List, Option, Result, Result-cases, Text, err, inl, inr, lit, none, ok, some, ℕ, ◌+◌, ◌≡◌,
  refl, true, false, subst, sym,
}
use brewmble.Prelude.Exec.{if_keeps}
use brewmble.Cli.Config.{Config}
use brewmble.Cli.Config.Stored.{IsStored}
use brewmble.Cli.Merge.{merge_nodes}
use brewmble.Cli.Discover.{
  Round, Discovered, nothing_discovered, on_discovered, update_config, rows_after, after_listening,
  run_discover,
}
use brewmble.Cli.Discover.Listening.{listen_keeps}
use brewmble.Cli.Session.{Session}
use brewmble.Cli.Session.Keeping.{IsKept, with_config-IsKept, save_config-Keeps}
use brewmble.Cli.Session.Merging.{HasCleanIds, merge_nodes-IsStored, on_discovered-HasCleanIds}

-- Where the discovery ends, the session that it leaves is kept.
abbrev pub IsLeftKept : Option (Result Text (List Text) × Session) → Type 0
IsLeftKept none = Unit
IsLeftKept (some (r, s)) = IsKept s

module _ (write : Config → Result Text (Unit {0})) (load : Result Text Config)
    (loads : (c : Config) → load ≡ ok c → IsStored c) where
  update_config-IsKept :
      (nodes : List (Text × Text)) (s : Session)
      → HasCleanIds nodes
      → IsKept s
      → IsKept (update_config write load nodes s).1
  unfolding update_config
  update_config-IsKept nodes s k h = elim (Result-cases load) [
    | inl (c, e) ↦
        let stored =
          with_config-IsKept s (merge_nodes c nodes).0 h
            (merge_nodes-IsStored c nodes (loads c e) k) in
        rw (e, update_config)
          (if_keeps IsKept (merge_nodes c nodes).1 _ _ (save_config-Keeps write _ stored) stored)
    | inr (x, e) ↦ rw (e, update_config) h
  ]

  rows_after-state :
      (rows : List Text) (x : Result Text (Unit {0}) × Session)
      → (rows_after write load rows x).1 ≡ x.1
  rows_after-state rows (ok u, s) = refl
  rows_after-state rows (err e, s) = refl

  after_listening-IsKept :
      (update : Bool) (o : Option (Result Text Discovered × ℕ)) (s : Session)
      → ((d : Discovered) (t : ℕ) → o ≡ some (ok d, t) → HasCleanIds d.nodes)
      → IsKept s
      → IsLeftKept (after_listening write load update o s)
  after_listening-IsKept update none s k h = tt
  after_listening-IsKept update (some (err x, t)) s k h = h
  after_listening-IsKept false (some (ok d, t)) s k h = h
  after_listening-IsKept true (some (ok d, t)) s k h =
      subst IsKept (sym (rows_after-state d.rows (update_config write load d.nodes s)))
        (update_config-IsKept d.nodes s (k d t refl) h)

  pub run_discover-IsKept :
      (resolver : Result Text (Unit {0})) (receive : ℕ → ℕ → Round) (fuel now timeout : ℕ)
      (update : Bool) (s : Session)
      → IsKept s
      → IsLeftKept (run_discover write load resolver receive fuel now timeout update s)
  unfolding run_discover
  run_discover-IsKept (err e) receive fuel now timeout update s h = h
  run_discover-IsKept (ok u) receive fuel now timeout update s h =
      after_listening-IsKept update _ s
        (listen_keeps receive (now + timeout) on_discovered (lit "browse: receiver disconnected")
          (λ d. HasCleanIds d.nodes) on_discovered-HasCleanIds fuel 0 now nothing_discovered tt)
        h
