-- ===== src/Cli/Ca/Platform/Documented.antt =====
-- The stores of the platforms in cli/src/ca.rs do what the rest of the program asks of a store, if
-- the keychain and the keyring behave as their systems document.
use brewmble.Prelude.{
  List, Option, Result, Text, [], arith, eq_text, err, false, ok, refl, some, ◌∷◌, ◌≡◌, ℕ, subst,
  sym, ◌∙◌, Result-cases, inl, inr, ap,
}
use brewmble.Cli.Ca.{IsStore}
use brewmble.Cli.Ca.Legacy.{Found}
use brewmble.Cli.Ca.Credentials.{Keyring, value, keyring_get, keyring_set, keyring_store}
use brewmble.Cli.Ca.Platform.{
  SecError, item_not_found, other, bytes, SecItems, Security, found_items, texts, deleted_legacy,
  or_added, macos_store, platform_legacy_store, no_legacy_store,
}

-- An item that was updated or added is found; the accounts do not touch each other, also where an
-- operation fails, and where the command deletes a password.
pub record IsKeychain {S : Type 0} (items : SecItems S) (security : Security S) : Type 0 where
  pub search-update :
      (account text : Text) (s : S)
      → (items.update_item account text s).0 ≡ ok tt
      → items.search (items.update_item account text s).1 account ≡ ok (bytes (ok text) ∷ [])
  pub search-add :
      (account text : Text) (s : S)
      → (items.add account text s).0 ≡ ok tt
      → items.search (items.add account text s).1 account ≡ ok (bytes (ok text) ∷ [])
  pub search-update_other :
      (account another text : Text) (s : S)
      → eq_text account another ≡ false
      → items.search (items.update_item account text s).1 another ≡ items.search s another
  pub search-add_other :
      (account another text : Text) (s : S)
      → eq_text account another ≡ false
      → items.search (items.add account text s).1 another ≡ items.search s another
  pub search-delete_other :
      (account another : Text) (s : S)
      → eq_text account another ≡ false
      → items.search (security.delete_generic_password account s).1 another ≡ items.search s another

module _ {S : Type 0} (items : SecItems S) (security : Security S)
    (from_utf8 : List ℕ → Option Text) (laws : IsKeychain items security) where
  texts-state : (u : Result SecError (Unit {0}) × S) → (texts items u).1 ≡ u.1
  texts-state (ok x, t) = refl
  texts-state (err x, t) = refl

  texts-ok : (u : Result SecError (Unit {0}) × S) → (texts items u).0 ≡ ok tt → u.0 ≡ ok tt
  texts-ok (ok x, t) h = refl
  texts-ok (err x, t) h = cc

  deleted-state : (u : Result Text Found × S) → (deleted_legacy security from_utf8 u).1 ≡ u.1
  deleted-state (r, t) = refl

  updated-other :
      (account another text : Text) (s : S) (u : Result SecError (Unit {0}) × S)
      → items.update_item account text s ≡ u
      → eq_text account another ≡ false
      → items.search u.1 another ≡ items.search s another
  updated-other account another text s u e h =
      subst
        (λ (v : Result SecError (Unit {0}) × S). items.search v.1 another ≡ items.search s another)
        e (laws.search-update_other account another text s h)

  or_added-found :
      (account text : Text) (s : S) (u : Result SecError (Unit {0}) × S)
      → items.update_item account text s ≡ u
      → (or_added items account text u).0 ≡ ok tt
      → items.search (or_added items account text u).1 account ≡ ok (bytes (ok text) ∷ [])
  or_added-found account text s (ok x, t) e h =
      subst
        (λ (v : Result SecError (Unit {0}) × S).
          items.search v.1 account ≡ ok (bytes (ok text) ∷ []))
        e (laws.search-update account text s (ap (λ (v : Result SecError (Unit {0}) × S). v.0) e))
  or_added-found account text s (err (item_not_found x), t) e h =
      subst (λ t'. items.search t' account ≡ ok (bytes (ok text) ∷ []))
        (sym (texts-state (items.add account text t)))
        (laws.search-add account text t (texts-ok (items.add account text t) h))
  or_added-found account text s (err (other x), t) e h = cc

  or_added-other :
      (account another text : Text) (s : S) (u : Result SecError (Unit {0}) × S)
      → items.update_item account text s ≡ u
      → eq_text account another ≡ false
      → items.search (or_added items account text u).1 another ≡ items.search s another
  or_added-other account another text s (ok x, t) e h =
      updated-other account another text s (ok x, t) e h
  or_added-other account another text s (err (item_not_found x), t) e h =
      ap (λ t'. items.search t' another) (texts-state (items.add account text t))
      ∙ laws.search-add_other account another text t h
      ∙ updated-other account another text s (err (item_not_found x), t) e h
  or_added-other account another text s (err (other x), t) e h =
      updated-other account another text s (err (other x), t) e h

  -- If the keychain behaves as documented, then the store of macOS does: a value that was stored is
  -- fetched again, and no account touches another one, whether an item was updated, added or
  -- deleted by the command.
  pub macos_store-IsStore : IsStore (macos_store items) (platform_legacy_store security from_utf8)
  unfolding macos_store platform_legacy_store
  macos_store-IsStore = record {
    fetch-store = λ account text s h.
        ap found_items (or_added-found account text s (items.update_item account text s) refl h);
    fetch-store_other = λ account another text s h.
        ap found_items
          (or_added-other account another text s (items.update_item account text s) refl h);
    fetch-delete = λ account another s h.
        ap (λ t. found_items (items.search t another))
          (deleted-state (security.delete_generic_password account s))
        ∙ ap found_items (laws.search-delete_other account another s h);
  }

-- A password that was set is got; the accounts do not touch each other, and whether an entry can be
-- made does not depend on what was set.
pub record IsKeyring {S : Type 0} (keyring : Keyring S) : Type 0 where
  pub get-set :
      (account text : Text) (s : S)
      → (keyring.set_password account text s).0 ≡ ok tt
      → keyring.get_password (keyring.set_password account text s).1 account ≡ value text
  pub get-set_other :
      (account another text : Text) (s : S)
      → eq_text account another ≡ false
      → keyring.get_password (keyring.set_password account text s).1 another
        ≡ keyring.get_password s another
  pub entry-set :
      (account another text : Text) (s : S)
      → keyring.new_entry (keyring.set_password account text s).1 another
        ≡ keyring.new_entry s another

module _ {S : Type 0} (keyring : Keyring S) (laws : IsKeyring keyring) where
  keyring-fetch :
      (account text : Text) (s : S)
      → (keyring_set keyring account text s).0 ≡ ok tt
      → keyring_get keyring (keyring_set keyring account text s).1 account ≡ ok (some text)
  unfolding keyring_set keyring_get
  keyring-fetch account text s h = elim (Result-cases (keyring.new_entry s account)) [
    | inl (u, e) ↦
        ground (arith, laws.entry-set account account text s, laws.get-set account text s)
    | inr (x, e) ↦ absurd (ground arith)
  ]

  keyring-fetch_other :
      (account another text : Text) (s : S)
      → eq_text account another ≡ false
      → keyring_get keyring (keyring_set keyring account text s).1 another
        ≡ keyring_get keyring s another
  unfolding keyring_set keyring_get
  keyring-fetch_other account another text s h = elim (Result-cases (keyring.new_entry s account)) [
    | inl (u, e) ↦
        ground (
          arith,
          laws.entry-set account another text s,
          laws.get-set_other account another text s h,
        )
    | inr (x, e) ↦ rw e refl
  ]

  -- If the keyring behaves as documented, then so does the store of the other platforms.
  pub keyring_store-IsStore : IsStore (keyring_store keyring) no_legacy_store
  unfolding keyring_store no_legacy_store
  keyring_store-IsStore = record {
    fetch-store = keyring-fetch;
    fetch-store_other = λ account another text s h. keyring-fetch_other account another text s h;
    fetch-delete = λ account another s h. refl;
  }
