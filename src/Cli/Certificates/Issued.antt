-- ===== src/Cli/Certificates/Issued.antt =====
-- What `run_cert` of cli/src/main.rs keeps and what it writes.
use brewmble.Prelude.{
  Bool, List, Result, Option, Text, ok, err, some, none, true, false, lit, eq_text, eq_text_refl,
  ◌≡◌, refl, arith, inl, inr, Result-cases,
}
use brewmble.Prelude.Dict.{get, get-insert}
use brewmble.Cli.Ca.{
  CredentialStore, account_client_cert, LeafKind, daemon, client, ensure_ca_with_store,
  issue_leaf_with_store,
}
use brewmble.Cli.Ca.Credentials.{client_cert_pem}
use brewmble.Cli.Certificates.{
  Files, Machine, issue, ca_path, cert_path, key_path, write_files, any_exists, issue_daemon,
  issue_client, run_cert,
}

-- The three paths in a directory are different.
pub record IsJoin (files : Files) (dir : Text) : Type 0 where
  pub cert_ca : eq_text (cert_path files dir) (ca_path files dir) ≡ false
  pub key_ca : eq_text (key_path files dir) (ca_path files dir) ≡ false
  pub key_cert : eq_text (key_path files dir) (cert_path files dir) ≡ false

module _ {S : Type 0} (files : Files) where
  write_files-get :
      (dir ca_cert : Text) (leaf : Text × Text) (m : Machine S)
      → IsJoin files dir
      → (write_files files dir ca_cert leaf m).0 ≡ ok tt
      → let m' = (write_files files dir ca_cert leaf m).1 in
        (get (ca_path files dir) m'.disk ≡ some ca_cert)
        × (get (cert_path files dir) m'.disk ≡ some leaf.0)
        × (get (key_path files dir) m'.disk ≡ some leaf.1)
        × (get (key_path files dir) m'.modes ≡ some 0o600)
        × (m'.stores ≡ m.stores)
  unfolding write_files
  write_files-get dir ca_cert leaf m paths h = grind (arith, get-insert, eq_text_refl)

module _ {S : Type 0} (keychain : CredentialStore S) (files : Files)
    (generate_ca : Result Text (Text × Text))
    (generate_leaf : Text → LeafKind → Text → Text → Result Text (Text × Text))
    (fingerprint : Text → Result Text Text) (hostname : Text) where
  -- The files that are written into a directory.
  pub data IsOutput (dir : Text) : Text → Type 0 where
    ca_output : IsOutput dir (ca_path files dir)
    cert_output : IsOutput dir (cert_path files dir)
    key_output : IsOutput dir (key_path files dir)

  -- There is something that the command would overwrite: one of the three files of the directory is
  -- on the disk, or the keyring has a client's certificate.
  pub data IsTaken (m : Machine S) : LeafKind → Option Text → Type 0 where
    file :
        (dir path content : Text)
        → IsOutput dir path
        → get path m.disk ≡ some content
        → IsTaken m daemon (some dir)
    certificate :
        (pem : Text) (out_dir : Option Text)
        → keychain.fetch m.stores account_client_cert ≡ ok (some pem)
        → IsTaken m client out_dir

  IsOutput-exists :
      (dir path content : Text) (m : Machine S)
      → IsOutput dir path
      → get path m.disk ≡ some content
      → any_exists keychain files generate_ca generate_leaf fingerprint hostname dir m ≡ true
  unfolding any_exists
  IsOutput-exists dir _ content m ca_output h = ground arith
  IsOutput-exists dir _ content m cert_output h = ground arith
  IsOutput-exists dir _ content m key_output h = ground arith

  -- Without force, if one of the three files of a daemon's certificate is on the disk, or the keyring
  -- has a client's certificate, then the command that would overwrite it fails, and changes neither a
  -- file nor the keyring.
  pub run_cert_keeps :
      (kind : LeafKind) (cn out_dir : Option Text) (m : Machine S)
      → IsTaken m kind out_dir
      → (e : Text) × (run_cert keychain files generate_ca generate_leaf fingerprint hostname
            (issue kind cn out_dir false)
            m
          ≡ (err e, m))
  unfolding run_cert issue_daemon issue_client client_cert_pem
  run_cert_keeps daemon none (some dir) m (file _ path content out h) =
      (lit "--cn is required for daemon certificates", refl)
  run_cert_keeps daemon (some cn) (some dir) m (file _ path content out h) =
      let exists = IsOutput-exists dir path content m out h in
      elim (Result-cases (files.create_dir_all dir)) [
        | inl (u, e) ↦ (lit "output files already exist; use --force to overwrite", ground arith)
        | inr (x, e) ↦ (x, ground arith)
      ]
  run_cert_keeps daemon none none m x = elim x [ ]
  run_cert_keeps daemon (some cn) none m x = elim x [ ]
  run_cert_keeps client cn out_dir m (certificate pem _ h) =
      (lit "client certificate already exists; use --force to re-issue", ground arith)

  -- If the paths in the directory are different, then after a command that issues a daemon's
  -- certificate successfully, the three files hold the authority's certificate and the leaf that
  -- was issued, the key's file has the mode 0600, and the stores are as the issuing has left them.
  pub issue_daemon_writes :
      (cn dir : Text) (force : Bool) (m : Machine S) (printed : List Text)
      → IsJoin files dir
      → (issue_daemon keychain files generate_ca generate_leaf fingerprint hostname
          (some cn)
          (some dir)
          force
          m).0
        ≡ ok printed
      → let m' =
          (issue_daemon keychain files generate_ca generate_leaf fingerprint hostname
            (some cn)
            (some dir)
            force
            m).1 in
        (ca : Text × Text) × (leaf : Text × Text) × ((ensure_ca_with_store keychain generate_ca
            m.stores).0
          ≡ ok ca)
        × ((issue_leaf_with_store keychain generate_ca generate_leaf cn daemon
              (ensure_ca_with_store keychain generate_ca m.stores).1).0
            ≡ ok leaf)
        × (get (ca_path files dir) m'.disk ≡ some ca.0)
        × (get (cert_path files dir) m'.disk ≡ some leaf.0)
        × (get (key_path files dir) m'.disk ≡ some leaf.1)
        × (get (key_path files dir) m'.modes ≡ some 0o600)
        × (m'.stores
            ≡ (issue_leaf_with_store keychain generate_ca generate_leaf cn daemon
                (ensure_ca_with_store keychain generate_ca m.stores).1).1)
  unfolding issue_daemon
  issue_daemon_writes cn dir force m printed paths h =
      let s1 = (ensure_ca_with_store keychain generate_ca m.stores).1 in
      let s2 = (issue_leaf_with_store keychain generate_ca generate_leaf cn daemon s1).1 in
      let m2 : Machine S = record m { stores = s2 } in
      elim (Result-cases (ensure_ca_with_store keychain generate_ca m.stores).0) [
        | inr (x, e) ↦ absurd (ground arith)
        | inl (ca, e) ↦
            elim (Result-cases
              (issue_leaf_with_store keychain generate_ca generate_leaf cn daemon s1).0) [
                | inr (x, f) ↦ absurd (ground arith)
                | inl (leaf, f) ↦ elim (Result-cases (write_files files dir ca.0 leaf m2).0) [
                  | inr (x, g) ↦ absurd (ground arith)
                  | inl (u, g) ↦
                      let stored = write_files-get files dir ca.0 leaf m2 paths g in
                      (
                        ca,
                        leaf,
                        e,
                        f,
                        ground (arith, stored),
                        ground (arith, stored),
                        ground (arith, stored),
                        ground (arith, stored),
                        ground (arith, stored),
                      )
                ]
              ]
      ]
