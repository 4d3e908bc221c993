-- ===== src/Cli/Ca.antt =====
-- The credential stores, the migration and the issuing of certificates of cli/src/ca.rs. The
-- platform's keychain and the generation of keys and certificates are parameters.
pub mod Migration
pub mod Authority
pub mod Credentials
pub mod Legacy
pub mod Generation
pub mod Platform
use brewmble.Prelude.{
  Bool, List, Option, Result, Text, [], all, eq_text, err, false, filter, if◌then◌else◌, lit, none,
  ok, some, true, ◌++◌, ◌||◌, ◌∷◌, ◌≡◌,
}
use brewmble.Prelude.Exec.{Exec, ◌>>=◌, ◌>>◌, pure}

abbrev pub account_ca_cert : Text
account_ca_cert = lit "cluster-ca-cert"

abbrev pub account_ca_key : Text
account_ca_key = lit "cluster-ca-key"

abbrev pub account_client_cert : Text
account_client_cert = lit "client-cert"

abbrev pub account_client_key : Text
account_client_key = lit "client-key"

abbrev pub migration_accounts : List Text
migration_accounts =
    account_ca_cert ∷ account_ca_key ∷ account_client_cert ∷ account_client_key ∷ []

pub data LeafKind : Type 0 where
  daemon : LeafKind
  client : LeafKind

-- A store over the state `S`. A failed operation may leave any state behind.
pub record CredentialStore (S : Type 0) : Type 0 where
  pub fetch : S → Text → Result Text (Option Text)
  pub store : Text → Text → Exec S (Unit {0})

pub record LegacyStore (S : Type 0) : Type 0 where
  pub read : S → Text → Result Text (Option Text)
  pub delete : Text → Exec S (Unit {0})

pub data MigrationStatus : Type 0 where
  already_present : MigrationStatus
  migrated : MigrationStatus
  not_found : MigrationStatus
  conflict : MigrationStatus
  failed : Text → MigrationStatus

abbrev pub display_status : MigrationStatus → Text
display_status already_present = lit "already present"
display_status migrated = lit "migrated"
display_status not_found = lit "not found in legacy store"
display_status conflict = lit "conflict (different value in new store)"
display_status (failed e) = lit "failed: " ++ e

pub record MigrationEntry : Type 0 where
  pub account : Text
  pub status : MigrationStatus

-- The status of an account that is ready to be used.
abbrev pub is_ready : MigrationStatus → Bool
is_ready already_present = true
is_ready migrated = true
is_ready not_found = false
is_ready conflict = false
is_ready (failed e) = false

abbrev pub is_authority : MigrationEntry → Bool
is_authority e = eq_text e.account account_ca_cert || eq_text e.account account_ca_key

unfoldable pub ca_ready : List MigrationEntry → Bool
ca_ready entries = all (λ e. is_ready e.status) (filter is_authority entries)

module _ {S : Type 0} (keychain : CredentialStore S) (legacy : LegacyStore S) where
  abbrev written : Result Text (Unit {0}) × S → MigrationStatus × S
  written (ok _, s) = (migrated, s)
  written (err e, s) = (failed e, s)

  abbrev deleted : Text → Text → Result Text (Unit {0}) × S → MigrationStatus × S
  deleted account value (ok _, s) = written (keychain.store account value s)
  deleted account value (err e, s) = (failed (lit "legacy delete: " ++ e), s)

  -- What is done with a value that only the legacy store has.
  unfoldable pub move_value : Text → Text → Bool → S → MigrationStatus × S
  move_value account value dry_run s =
      if dry_run then (migrated, s) else deleted account value (legacy.delete account s)

  unfoldable pub migrate_found : Text → Bool → Option Text → Option Text → S → MigrationStatus × S
  unfolding move_value
  migrate_found account dry_run (some current) (some value) s =
      (if eq_text current value then already_present else conflict, s)
  migrate_found account dry_run (some current) none s = (already_present, s)
  migrate_found account dry_run none none s = (not_found, s)
  migrate_found account dry_run none (some value) s = move_value account value dry_run s

  unfoldable pub migrate_account : Text → Bool → S → MigrationStatus × S
  unfolding migrate_found
  migrate_account account dry_run s = elim (keychain.fetch s account) [
    | err e ↦ (failed e, s)
    | ok current ↦ elim (legacy.read s account) [
      | err e ↦ (failed e, s)
      | ok value ↦ migrate_found account dry_run current value s
    ]
  ]

  unfoldable pub migrate_accounts : List Text → Bool → S → List MigrationEntry × S
  migrate_accounts [] dry_run s = ([], s)
  migrate_accounts (a ∷ more) dry_run s =
      let (status, s') = migrate_account a dry_run s in
      let (entries, s'') = migrate_accounts more dry_run s' in
      (record { account = a; status = status } ∷ entries, s'')

  unfoldable pub migrate_ca_with_stores : Bool → S → List MigrationEntry × S
  unfolding migrate_accounts
  migrate_ca_with_stores dry_run s = migrate_accounts migration_accounts dry_run s

-- What the platform documents: a value that was stored is fetched again, and the accounts do not
-- touch each other.
pub record IsStore {S : Type 0} (keychain : CredentialStore S) (legacy : LegacyStore S)
    : Type 0 where
  pub fetch-store :
      (account value : Text) (s : S)
      → (keychain.store account value s).0 ≡ ok tt
      → keychain.fetch (keychain.store account value s).1 account ≡ ok (some value)
  pub fetch-store_other :
      (account other value : Text) (s : S)
      → eq_text account other ≡ false
      → keychain.fetch (keychain.store account value s).1 other ≡ keychain.fetch s other
  pub fetch-delete :
      (account other : Text) (s : S)
      → eq_text account other ≡ false
      → keychain.fetch (legacy.delete account s).1 other ≡ keychain.fetch s other

-- Whether a fetch found a value.
abbrev pub found : Result Text (Option Text) → Bool
found (ok (some _)) = true
found (ok none) = false
found (err e) = false

module _ {S : Type 0} (keychain : CredentialStore S) (generate_ca : Result Text (Text × Text)) where
  -- A new authority is stored as a certificate and a key.
  unfoldable pub store_ca : Exec S (Text × Text)
  store_ca s = elim generate_ca [
    | err e ↦ (err e, s)
    | ok pair ↦
        (do keychain.store account_ca_cert pair.0; keychain.store account_ca_key pair.1; pure pair)
          s
  ]

  abbrev stored_or_new : Option Text → Option Text → Exec S (Text × Text)
  stored_or_new (some cert) (some key) s = (ok (cert, key), s)
  stored_or_new none _ s = store_ca s
  stored_or_new (some cert) none s = store_ca s

  unfoldable pub ensure_ca_with_store : Exec S (Text × Text)
  unfolding store_ca
  ensure_ca_with_store s = elim (keychain.fetch s account_ca_cert) [
    | err e ↦ (err e, s)
    | ok cert ↦ elim (keychain.fetch s account_ca_key) [
      | err e ↦ (err e, s)
      | ok key ↦ stored_or_new cert key s
    ]
  ]

  abbrev keep_leaf : LeafKind → Text × Text → Exec S (Text × Text)
  keep_leaf daemon leaf = pure leaf
  keep_leaf client leaf = do
    keychain.store account_client_cert leaf.0
    keychain.store account_client_key leaf.1
    pure leaf

  -- The leaf is made for the common name and the kind, and signed by the authority.
  unfoldable pub issue_leaf_with_store :
      (Text → LeafKind → Text → Text → Result Text (Text × Text))
      → Text
      → LeafKind
      → Exec S (Text × Text)
  issue_leaf_with_store generate_leaf cn kind = do
    ca ← ensure_ca_with_store
    λ s. elim (generate_leaf cn kind ca.0 ca.1) [
      | err e ↦ (err e, s)
      | ok leaf ↦ keep_leaf kind leaf s
    ]
