-- ===== src/Cli/Certificates.antt =====
-- `run_cert` of cli/src/main.rs. A disk maps paths to contents, and paths to the modes that were
-- set. What a command prints is its result. Whether an operation of the system succeeds, the path
-- of a file in a directory, the fingerprint and the making of certificates are parameters.
pub mod Issued
use brewmble.Prelude.{
  Bool, List, Option, Result, Text, [], decimal, err, if◌then◌else◌, is_ok, lit, none, not, ok,
  some, ℕ, ◌&&◌, ◌++◌, ◌||◌, ◌∷◌,
}
use brewmble.Prelude.Dict.{Dict, contains_key, insert}
use brewmble.Prelude.Exec.{Exec, ◌>>=◌, ◌>>◌, fail}
use brewmble.Cli.Ca.Generation.{leaf_validity_days}
use brewmble.Cli.Ca.{
  CredentialStore, LeafKind, daemon, client, ensure_ca_with_store, issue_leaf_with_store,
}
use brewmble.Cli.Ca.Credentials.{client_cert_pem}

pub data CertCommands : Type 0 where
  issue : LeafKind → Option Text → Option Text → Bool → CertCommands

-- The credential stores, the files, and the modes of files.
pub record Machine (S : Type 0) : Type 0 where
  pub stores : S
  pub disk : Dict Text
  pub modes : Dict ℕ

-- How the operations of the system end, what a failed write leaves of a file's content (nothing is
-- said of a file that could not be opened), and `Path::join`.
pub record Files : Type 0 where
  pub create_dir_all : Text → Result Text (Unit {0})
  pub write : Text → Result Text (Unit {0})
  pub partial : Text → Text → Option Text
  pub metadata : Text → Result Text (Unit {0})
  pub set_permissions : Text → Result Text (Unit {0})
  pub join_path : Text → Text → Text

abbrev pub ca_path : Files → Text → Text
ca_path files dir = files.join_path dir (lit "ca.pem")

abbrev pub cert_path : Files → Text → Text
cert_path files dir = files.join_path dir (lit "daemon.pem")

abbrev pub key_path : Files → Text → Text
key_path files dir = files.join_path dir (lit "daemon-key.pem")

-- `std::fs::write`: one that fails leaves the file as it was, or truncated and partly written.
abbrev pub left_by_write : Text → Option Text → Dict Text → Dict Text
left_by_write path none d = d
left_by_write path (some content) d = insert path content d

module _ {S : Type 0} (files : Files) where
  abbrev write : Text → Text → Exec (Machine S) (Unit {0})
  write path content m = elim (files.write path) [
    | err e ↦ (err e, record m { disk = left_by_write path (files.partial path content) m.disk })
    | ok _ ↦ (ok tt, record m { disk = insert path content m.disk })
  ]

  abbrev set_mode : Text → ℕ → Exec (Machine S) (Unit {0})
  set_mode path mode m = elim (files.set_permissions path) [
    | err e ↦ (err e, m)
    | ok _ ↦ (ok tt, record m { modes = insert path mode m.modes })
  ]

  abbrev in_files : Result Text (Unit {0}) → Exec (Machine S) (Unit {0})
  in_files r m = (r, m)

  unfoldable pub write_files : Text → Text → Text × Text → Exec (Machine S) (Unit {0})
  write_files dir ca_cert leaf = do
    write (ca_path files dir) ca_cert
    write (cert_path files dir) leaf.0
    write (key_path files dir) leaf.1
    in_files (files.metadata (key_path files dir))
    set_mode (key_path files dir) 0o600

abbrev pub in_stores : {S A : Type 0} → Exec S A → Exec (Machine S) A
in_stores act m = let (r, s) = act m.stores in (r, record m { stores = s })

module _ {S : Type 0} (keychain : CredentialStore S) (files : Files)
    (generate_ca : Result Text (Text × Text))
    (generate_leaf : Text → LeafKind → Text → Text → Result Text (Text × Text))
    (fingerprint : Text → Result Text Text) (hostname : Text) where
  unfoldable pub any_exists : Text → Machine S → Bool
  any_exists dir m =
      contains_key (ca_path files dir) m.disk
      || contains_key (cert_path files dir) m.disk
      || contains_key (key_path files dir) m.disk

  abbrev details : Text → Text → Text → Text → List Text
  details first cn usage fp =
      first
      ∷ (lit "  CN:   " ++ cn)
      ∷ (lit "  SAN:  DNS:" ++ cn)
      ∷ (lit "  EKU:  " ++ usage)
      ∷ (lit "  Days: " ++ decimal leaf_validity_days)
      ∷ (lit "  SHA256 fingerprint: " ++ fp)
      ∷ []

  abbrev described : Text → Text → Text → Text → Exec (Machine S) (List Text)
  described first cn usage cert m = elim (fingerprint cert) [
    | err e ↦ (err e, m)
    | ok fp ↦ (ok (details first cn usage fp), m)
  ]

  abbrev issued_daemon : Text → Text → Exec (Machine S) (List Text)
  issued_daemon cn dir = do
    ca ← in_stores (ensure_ca_with_store keychain generate_ca)
    leaf ← in_stores (issue_leaf_with_store keychain generate_ca generate_leaf cn daemon)
    write_files files dir ca.0 leaf
    described (lit "Daemon certificate written to " ++ dir) cn (lit "ServerAuth") leaf.0

  unfoldable pub issue_daemon : Option Text → Option Text → Bool → Exec (Machine S) (List Text)
  unfolding any_exists write_files
  issue_daemon none out_dir force m = fail (lit "--cn is required for daemon certificates") m
  issue_daemon (some cn) none force m = fail (lit "--out-dir is required for daemon certificates") m
  issue_daemon (some cn) (some dir) force m = elim (files.create_dir_all dir) [
    | err e ↦ (err e, m)
    | ok _ ↦
        if not force && any_exists dir m
        then fail (lit "output files already exist; use --force to overwrite") m
        else issued_daemon cn dir m
  ]

  unfoldable pub issue_client : Bool → Exec (Machine S) (List Text)
  issue_client force m =
      if not force && is_ok (client_cert_pem keychain m.stores)
      then fail (lit "client certificate already exists; use --force to re-issue") m
      else (do
        leaf ← in_stores (issue_leaf_with_store keychain generate_ca generate_leaf hostname client)
        described (lit "Client certificate issued and stored in the keyring.") hostname
            (lit "ClientAuth") leaf.0)
          m

  unfoldable pub run_cert : CertCommands → Exec (Machine S) (List Text)
  unfolding issue_daemon issue_client
  run_cert (issue daemon cn out_dir force) = issue_daemon cn out_dir force
  run_cert (issue client cn out_dir force) = issue_client force
