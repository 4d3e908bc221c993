-- ===== src/Cli/Ca/Migration.antt =====
-- What the migration of cli/src/ca.rs does to the stores.
use brewmble.Prelude.{
  Bool, List, Result, Text, [], arith, eq_text, err, false, none, ok, refl, some, true, ◌∙◌, ◌∷◌,
  ◌≡◌, Option, lit, is_ok,
}
use brewmble.Cli.Ca.{
  CredentialStore, LegacyStore, failed, migrated, move_value, migrate_found, migrate_account,
  migrate_accounts, migrate_ca_with_stores, ca_ready, found, IsStore, is_ready, migration_accounts,
  account_ca_cert, account_ca_key, account_client_cert, account_client_key, ensure_ca_with_store,
  store_ca,
}

abbrev value_or_empty : Result Text (Option Text) → Text
value_or_empty (ok (some v)) = v
value_or_empty (ok none) = []
value_or_empty (err e) = []

accounts_differ :
    (eq_text account_client_key account_ca_cert ≡ false)
    × (eq_text account_client_cert account_ca_cert ≡ false)
    × (eq_text account_ca_key account_ca_cert ≡ false)
    × (eq_text account_client_key account_ca_key ≡ false)
    × (eq_text account_client_cert account_ca_key ≡ false)
unfolding eq_text lit
accounts_differ = (refl, refl, refl, refl, refl)

module _ {S : Type 0} (keychain : CredentialStore S) (legacy : LegacyStore S) where
  migrate_account_dry :
      (account : Text) (s : S) → (migrate_account keychain legacy account true s).1 ≡ s
  unfolding migrate_account migrate_found move_value
  migrate_account_dry account s = ground arith

  migrate_accounts_dry :
      (accounts : List Text) (s : S) → (migrate_accounts keychain legacy accounts true s).1 ≡ s
  unfolding migrate_accounts
  migrate_accounts_dry [] s = refl
  migrate_accounts_dry (a ∷ more) s =
      migrate_accounts_dry more (migrate_account keychain legacy a true s).1
      ∙ migrate_account_dry a s

  -- A dry run of the migration changes nothing.
  pub migrate_ca_dry : (s : S) → (migrate_ca_with_stores keychain legacy true s).1 ≡ s
  unfolding migrate_ca_with_stores
  migrate_ca_dry s = migrate_accounts_dry migration_accounts s

  -- An account that the new store has a value for is left alone in both stores, whatever the old
  -- store has, and it is not reported as migrated.
  pub migrate_account_keeps :
      (account : Text) (dry_run : Bool) (current : Text) (s : S)
      → keychain.fetch s account ≡ ok (some current)
      → ((migrate_account keychain legacy account dry_run s).1 ≡ s)
        × ¬ ((migrate_account keychain legacy account dry_run s).0 ≡ migrated)
  unfolding migrate_account migrate_found
  migrate_account_keeps account dry_run current s h = ground arith

  -- If the old store has the only copy of a value, and its deletion succeeds but the writing to the
  -- new store fails, then the state after the migration is the one that the failed writing leaves:
  -- the deletion is not undone.
  migrate_account_loses :
      (account value e : Text) (s : S)
      → keychain.fetch s account ≡ ok none
      → legacy.read s account ≡ ok (some value)
      → (legacy.delete account s).0 ≡ ok tt
      → (keychain.store account value (legacy.delete account s).1).0 ≡ err e
      → migrate_account keychain legacy account false s
        ≡ (failed e, (keychain.store account value (legacy.delete account s).1).1)
  unfolding migrate_account migrate_found move_value
  migrate_account_loses account value e s h k d w = ground arith

  migrate_account_other :
      IsStore keychain legacy
      → (account other : Text) (s : S) → eq_text account other ≡ false
      → keychain.fetch (migrate_account keychain legacy account false s).1 other
        ≡ keychain.fetch s other
  unfolding migrate_account migrate_found move_value
  migrate_account_other laws account other s h =
      let d = laws.fetch-delete account other s h in
      let w =
        laws.fetch-store_other account other (value_or_empty (legacy.read s account))
          (legacy.delete account s).1 h in
      ground arith

  -- For stores that behave as documented, an account that a migration, which is no dry run,
  -- reports as migrated has in the new store afterwards the value that the old store had.
  pub migrate_account_value :
      (account : Text) (s : S)
      → IsStore keychain legacy
      → (migrate_account keychain legacy account false s).0 ≡ migrated
      → (keychain.fetch (migrate_account keychain legacy account false s).1 account
          ≡ legacy.read s account)
        × (found (legacy.read s account) ≡ true)
  unfolding migrate_account migrate_found move_value
  migrate_account_value account s laws h =
      let value = value_or_empty (legacy.read s account) in
      let w = laws.fetch-store account value (legacy.delete account s).1 in ground arith

  migrate_account_ready :
      IsStore keychain legacy
      → (account : Text) (s : S)
      → is_ready (migrate_account keychain legacy account false s).0 ≡ true
      → found (keychain.fetch (migrate_account keychain legacy account false s).1 account) ≡ true
  unfolding migrate_account migrate_found move_value
  migrate_account_ready laws account s h =
      let value = value_or_empty (legacy.read s account) in
      let w = laws.fetch-store account value (legacy.delete account s).1 in ground arith

  -- For stores that behave as documented, if a migration that is no dry run reports the authority
  -- as ready, then afterwards its certificate and key are in the new store, and asking for the
  -- authority succeeds and changes nothing, whatever would be generated.
  pub migrate_ca-ready :
      (generate_ca : Result Text (Text × Text)) (s : S)
      → IsStore keychain legacy
      → ca_ready (migrate_ca_with_stores keychain legacy false s).0 ≡ true
      → let s' = (migrate_ca_with_stores keychain legacy false s).1 in
        (found (keychain.fetch s' account_ca_cert) ≡ true)
        × (found (keychain.fetch s' account_ca_key) ≡ true)
        × ((ensure_ca_with_store keychain generate_ca s').1 ≡ s')
        × (is_ok (ensure_ca_with_store keychain generate_ca s').0 ≡ true)
  unfolding migrate_ca_with_stores migrate_accounts ca_ready ensure_ca_with_store store_ca eq_text
      lit
  migrate_ca-ready generate_ca s laws h =
      let s1 = (migrate_account keychain legacy account_ca_cert false s).1 in
      let s2 = (migrate_account keychain legacy account_ca_key false s1).1 in
      let s3 = (migrate_account keychain legacy account_client_cert false s2).1 in
      let s4 = (migrate_account keychain legacy account_client_key false s3).1 in
      let (k1, k2, k3, k4, k5) = accounts_differ in
      let cert =
        migrate_account_other laws account_client_key account_ca_cert s3 k1
        ∙ (migrate_account_other laws account_client_cert account_ca_cert s2 k2
            ∙ migrate_account_other laws account_ca_key account_ca_cert s1 k3) in
      let key =
        migrate_account_other laws account_client_key account_ca_key s3 k4
        ∙ migrate_account_other laws account_client_cert account_ca_key s2 k5 in
      let ready_cert = migrate_account_ready laws account_ca_cert s in
      let ready_key = migrate_account_ready laws account_ca_key s1 in ground arith
