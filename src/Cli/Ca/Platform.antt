-- ===== src/Cli/Ca/Platform.antt =====
-- The stores of the platforms in cli/src/ca.rs: the keychain of macOS, the old store, and the
-- functions that work on them. The keychain's items and the command `security` are parameters.
pub mod Documented
use brewmble.Prelude.{Bool, List, Option, Result, Text, [], err, none, ok, some, ℕ, ◌∷◌}
use brewmble.Prelude.Exec.{Exec}
use brewmble.Cli.Ca.{
  CredentialStore, LegacyStore, LeafKind, MigrationEntry, ensure_ca_with_store,
  issue_leaf_with_store, migrate_ca_with_stores,
}
use brewmble.Cli.Ca.Legacy.{Found, read_legacy, delete_legacy}

-- An error of the keychain: -25300, which says that there is no such item, or another one.
pub data SecError : Type 0 where
  item_not_found : Text → SecError
  other : Text → SecError

-- An item that a search gives: the text of its bytes, if they are one, or something else.
pub data SearchResult : Type 0 where
  bytes : Result Text Text → SearchResult
  reference : SearchResult

-- The generic passwords of the service, by their accounts. A search is for one item.
pub record SecItems (S : Type 0) : Type 0 where
  pub search : S → Text → Result SecError (List SearchResult)
  pub update_item : Text → Text → S → Result SecError (Unit {0}) × S
  pub add : Text → Text → S → Result SecError (Unit {0}) × S
  pub delete : Text → S → Result SecError (Unit {0}) × S

abbrev error_text : SecError → Text
error_text (item_not_found e) = e
error_text (other e) = e

abbrev first_result : List SearchResult → Result Text (Option Text)
first_result [] = ok none
first_result (reference ∷ rs) = ok none
first_result (bytes (ok t) ∷ rs) = ok (some t)
first_result (bytes (err e) ∷ rs) = err e

abbrev pub found_items : Result SecError (List SearchResult) → Result Text (Option Text)
found_items (ok results) = first_result results
found_items (err (item_not_found e)) = ok none
found_items (err (other e)) = err e

module _ {S : Type 0} (items : SecItems S) where
  unfoldable pub macos_sec_item_get : S → Text → Result Text (Option Text)
  macos_sec_item_get s account = found_items (items.search s account)

  abbrev pub texts : Result SecError (Unit {0}) × S → Result Text (Unit {0}) × S
  texts (ok _, s) = (ok tt, s)
  texts (err e, s) = (err (error_text e), s)

  -- An item that is there is updated, else one is added.
  abbrev pub or_added : Text → Text → Result SecError (Unit {0}) × S → Result Text (Unit {0}) × S
  or_added account value (ok _, s) = (ok tt, s)
  or_added account value (err (item_not_found e), s) = texts (items.add account value s)
  or_added account value (err (other e), s) = (err e, s)

  unfoldable pub macos_sec_item_set : Text → Text → Exec S (Unit {0})
  macos_sec_item_set account value s = or_added account value (items.update_item account value s)

  unfoldable pub macos_sec_item_delete : Text → Exec S (Unit {0})
  macos_sec_item_delete account s = texts (items.delete account s)

  -- `KeyringStore` on macOS.
  unfoldable pub macos_store : CredentialStore S
  unfolding macos_sec_item_get macos_sec_item_set
  macos_store = record { fetch = macos_sec_item_get; store = macos_sec_item_set }

-- The command `security`: it finds a password, or deletes one.
pub record Security (S : Type 0) : Type 0 where
  pub find_generic_password : S → Text → Result Text Found
  pub delete_generic_password : Text → S → Result Text Found × S

module _ {S : Type 0} (security : Security S) (from_utf8 : List ℕ → Option Text) where
  abbrev pub deleted_legacy : Result Text Found × S → Result Text (Unit {0}) × S
  deleted_legacy (r, s) = (delete_legacy r, s)

  -- `PlatformLegacyStore` on macOS.
  unfoldable pub platform_legacy_store : LegacyStore S
  platform_legacy_store = record {
    read = λ s account. read_legacy from_utf8 (security.find_generic_password s account);
    delete = λ account s. deleted_legacy (security.delete_generic_password account s);
  }

-- `PlatformLegacyStore` elsewhere: it has nothing.
unfoldable pub no_legacy_store : {S : Type 0} → LegacyStore S
no_legacy_store = record { read = λ s account. ok none; delete = λ account s. (ok tt, s) }

-- The functions of the program, on the stores of its platform.
module _ {S : Type 0} (keyring_store : CredentialStore S) (legacy : LegacyStore S)
    (generate_ca : Result Text (Text × Text))
    (generate_leaf : Text → LeafKind → Text → Text → Result Text (Text × Text)) where
  abbrev pub ensure_ca : Exec S (Text × Text)
  ensure_ca = ensure_ca_with_store keyring_store generate_ca

  abbrev pub issue_leaf : Text → LeafKind → Exec S (Text × Text)
  issue_leaf = issue_leaf_with_store keyring_store generate_ca generate_leaf

  abbrev pub migrate_ca : Bool → S → List MigrationEntry × S
  migrate_ca = migrate_ca_with_stores keyring_store legacy
