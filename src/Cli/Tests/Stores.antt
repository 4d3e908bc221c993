-- ===== src/Cli/Tests/Stores.antt =====
-- The credential stores and the authority at concrete inputs: a new store and an old one.
use brewmble.Prelude.{
  Result, Text, [], eq_text, eq_text_refl, err, false, is_ok, lit, ok, refl, some, true, ◌++◌, ◌∷◌,
  ◌≡◌,
}
use brewmble.Prelude.Dict.{Dict, get, insert, remove, get-insert}
use brewmble.Cli.Ca.{
  migrate_accounts, migrate_found, move_value, ca_ready, CredentialStore, LegacyStore, LeafKind,
  client, IsStore, found, account_ca_cert, account_ca_key, migrated, migrate_account,
  migrate_ca_with_stores, ensure_ca_with_store, issue_leaf_with_store,
}
use brewmble.Cli.Ca.Migration.{migrate_ca-ready}

-- The new store and the old one are two dictionaries.
abbrev Stores : Type 0
Stores = Dict Text × Dict Text

abbrev keychain : CredentialStore Stores
keychain = record {
  fetch = λ s account. ok (get account s.0);
  store = λ account value s. (ok tt, (insert account value s.0, s.1));
}

abbrev legacy : LegacyStore Stores
legacy = record {
  read = λ s account. ok (get account s.1);
  delete = λ account s. (ok tt, (s.0, remove account s.1));
}

IsStore-keychain : IsStore keychain legacy
IsStore-keychain = record {
  fetch-store = λ account value s h. simp (get-insert, eq_text_refl);
  fetch-store_other = λ account other value s h. rw (get-insert account other value s.0, h) refl;
  fetch-delete = λ account other s h. refl;
}

abbrev old : Stores
old = ([], (account_ca_cert, lit "CERT") ∷ (account_ca_key, lit "KEY") ∷ [])

abbrev new : Stores
new = ((account_ca_cert, lit "CERT") ∷ (account_ca_key, lit "KEY") ∷ [], [])

new_cert : keychain.fetch new account_ca_cert ≡ ok (some (lit "CERT"))
unfolding get eq_text lit
new_cert = refl

old_migrated : (migrate_account keychain legacy account_ca_cert false old).0 ≡ migrated
unfolding migrate_account migrate_found move_value get insert remove eq_text lit
old_migrated = refl

old_ready : ca_ready (migrate_ca_with_stores keychain legacy false old).0 ≡ true
unfolding migrate_ca_with_stores migrate_accounts migrate_account migrate_found move_value ca_ready
    get insert remove eq_text lit
old_ready = refl

migrate_ca-ready_example :
    let s = (migrate_ca_with_stores keychain legacy false old).1 in
    (found (keychain.fetch s account_ca_cert) ≡ true)
    × (found (keychain.fetch s account_ca_key) ≡ true)
    × ((ensure_ca_with_store keychain (err []) s).1 ≡ s)
    × (is_ok (ensure_ca_with_store keychain (err []) s).0 ≡ true)
migrate_ca-ready_example = migrate_ca-ready keychain legacy (err []) old IsStore-keychain old_ready

abbrev pair : Text × Text
pair = (lit "CERT", lit "KEY")

ensures_stored : (ensure_ca_with_store keychain (err []) new).0 ≡ ok pair
unfolding ensure_ca_with_store get eq_text lit
ensures_stored = refl

abbrev sign : Text → LeafKind → Text → Text → Result Text (Text × Text)
sign cn kind cert key = ok (cn ++ cert, cn ++ key)

abbrev issued : Text × Text
issued = (lit "cli" ++ lit "CERT", lit "cli" ++ lit "KEY")

issues : (issue_leaf_with_store keychain (err []) sign (lit "cli") client new).0 ≡ ok issued
unfolding issue_leaf_with_store ensure_ca_with_store get eq_text lit
issues = refl
