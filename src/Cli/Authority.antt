-- ===== src/Cli/Authority.antt =====
-- `run_ca` of cli/src/main.rs. What a command prints is its result; the fingerprint of a
-- certificate and the generation of keys are parameters.
pub mod Init
use brewmble.Prelude.{
  Bool, List, Result, Text, [], decimal, err, if◌then◌else◌, is_ok, length, lit, map, not, ok, zero,
  suc, ℕ, ◌&&◌, ◌++◌, ◌-◌, ◌∷◌,
}
use brewmble.Prelude.Exec.{Exec, ◌>>=◌, ◌>>◌, fail}
use brewmble.Cli.Ca.Generation.{ca_validity_days}
use brewmble.Cli.Ca.{
  CredentialStore, LegacyStore, MigrationEntry, account_ca_cert, account_ca_key, ca_ready,
  display_status, ensure_ca_with_store, migrate_ca_with_stores,
}
use brewmble.Cli.Ca.Credentials.{ca_root_pem}

pub data CaCommands : Type 0 where
  init : Bool → CaCommands
  show : CaCommands
  migrate : Bool → CaCommands

-- `let _ = operation`: its error is dropped.
abbrev pub ignore : {S : Type 0} → Exec S (Unit {0}) → Exec S (Unit {0})
ignore act s = (ok tt, (act s).1)

abbrev spaces : ℕ → Text
spaces zero = []
spaces (suc n) = 32 ∷ spaces n

-- `{:<18} {}`.
abbrev entry_line : MigrationEntry → Text
entry_line e = e.account ++ (spaces (18 - length e.account) ++ (lit " " ++ display_status e.status))

abbrev migration_lines : Bool → List MigrationEntry → List Text
migration_lines dry_run entries =
    (if dry_run then lit "Dry run — no changes written." ∷ [] else []) ++ map entry_line entries

abbrev pub created_details : Text → List Text
created_details fp =
    lit "  CN:   brewmble-cluster-ca"
    ∷ (lit "  Days: " ++ decimal ca_validity_days)
    ∷ (lit "  SHA256 fingerprint: " ++ fp)
    ∷ []

module _ {S : Type 0} (keychain : CredentialStore S) (delete : Text → Exec S (Unit {0}))
    (generate_ca : Result Text (Text × Text)) (fingerprint : Text → Result Text Text) where
  -- With force the authority's accounts are deleted first.
  abbrev delete_first : Bool → Exec S (Unit {0})
  delete_first force s =
      if force
      then (ignore (delete account_ca_cert) >> ignore (delete account_ca_key)) s
      else (ok tt, s)

  abbrev created_lines : Text × Text → Exec S (List Text)
  created_lines ca s = elim (fingerprint ca.0) [
    | err e ↦ (err e, s)
    | ok fp ↦ (ok (lit "Cluster CA created." ∷ created_details fp), s)
  ]

  unfoldable pub init_ca : Bool → Exec S (List Text)
  init_ca force s =
      if not force && is_ok (ca_root_pem keychain s)
      then fail (lit "cluster CA already exists; use --force to overwrite") s
      else (delete_first force >> ensure_ca_with_store keychain generate_ca >>= created_lines) s

  unfoldable pub show_ca : Exec S (List Text)
  show_ca s = elim (ca_root_pem keychain s) [
    | err e ↦ (err e, s)
    | ok cert ↦ elim (fingerprint cert) [
      | err e ↦ (err e, s)
      | ok fp ↦ (ok (cert ∷ (lit "Fingerprint: " ++ fp) ∷ []), s)
    ]
  ]

  -- The lines are printed even if an error is returned after them, which the model leaves out.
  abbrev after_migration : Bool → List MigrationEntry × S → Result Text (List Text) × S
  after_migration dry_run (entries, s) =
      if ca_ready entries then (ok (migration_lines dry_run entries), s) else (
        err (lit "CA certificate or key still missing after migration; run `brewmble ca init`"),
        s,
      )

  unfoldable pub run_ca : LegacyStore S → CaCommands → Exec S (List Text)
  unfolding init_ca show_ca
  run_ca legacy (init force) s = init_ca force s
  run_ca legacy show s = show_ca s
  run_ca legacy (migrate dry_run) s =
      after_migration dry_run (migrate_ca_with_stores keychain legacy dry_run s)
