-- ===== src/Cli/Ca/Authority.antt =====
-- The authority of cli/src/ca.rs: what is stored when certificates are issued.
use brewmble.Prelude.{Result, Text, arith, eq_text, false, lit, ok, refl, some, ◌≡◌}
use brewmble.Cli.Ca.{
  CredentialStore, LegacyStore, LeafKind, daemon, client, IsStore, account_ca_cert, account_ca_key,
  account_client_cert, account_client_key, ensure_ca_with_store, store_ca, issue_leaf_with_store,
}

accounts_differ :
    (eq_text account_ca_key account_ca_cert ≡ false)
    × (eq_text account_client_key account_client_cert ≡ false)
unfolding eq_text lit
accounts_differ = (refl, refl)

module _ {S : Type 0} (keychain : CredentialStore S) (legacy : LegacyStore S)
    (generate_ca : Result Text (Text × Text)) where
  -- For stores that behave as documented, if asking for the authority returns a pair, then asking
  -- again returns the same pair and changes nothing, even if another one would be generated.
  pub ensure_ca-stable :
      (generate_again : Result Text (Text × Text)) (s : S) (pair : Text × Text)
      → IsStore keychain legacy
      → (ensure_ca_with_store keychain generate_ca s).0 ≡ ok pair
      → let s' = (ensure_ca_with_store keychain generate_ca s).1 in
        ensure_ca_with_store keychain generate_again s' ≡ (ok pair, s')
  unfolding ensure_ca_with_store store_ca
  ensure_ca-stable generate_again s pair laws h =
      let s1 = (keychain.store account_ca_cert pair.0 s).1 in
      let w1 = laws.fetch-store account_ca_cert pair.0 s in
      let w2 = laws.fetch-store account_ca_key pair.1 s1 in
      let w3 = laws.fetch-store_other account_ca_key account_ca_cert pair.1 s1 accounts_differ.0 in
      ground arith

  -- A daemon's certificate is not stored: only the authority may have been.
  pub issue_leaf_daemon :
      (generate_leaf : Text → LeafKind → Text → Text → Result Text (Text × Text)) (cn : Text)
      (s : S)
      → (issue_leaf_with_store keychain generate_ca generate_leaf cn daemon s).1
        ≡ (ensure_ca_with_store keychain generate_ca s).1
  unfolding issue_leaf_with_store
  issue_leaf_daemon generate_leaf cn s = ground arith

  -- For stores that behave as documented, a client's certificate that is issued is signed by the
  -- authority that the store returns, and its two parts are stored under their accounts.
  pub issue_leaf_client :
      (generate_leaf : Text → LeafKind → Text → Text → Result Text (Text × Text)) (cn : Text)
      (s : S) (leaf : Text × Text)
      → IsStore keychain legacy
      → (issue_leaf_with_store keychain generate_ca generate_leaf cn client s).0 ≡ ok leaf
      → let s' = (issue_leaf_with_store keychain generate_ca generate_leaf cn client s).1 in
        ((ca : Text × Text) × ((ensure_ca_with_store keychain generate_ca s).0 ≡ ok ca)
          × (generate_leaf cn client ca.0 ca.1 ≡ ok leaf))
        × (keychain.fetch s' account_client_cert ≡ ok (some leaf.0))
        × (keychain.fetch s' account_client_key ≡ ok (some leaf.1))
  unfolding issue_leaf_with_store
  issue_leaf_client generate_leaf cn s leaf laws h =
      let s0 = (ensure_ca_with_store keychain generate_ca s).1 in
      let s1 = (keychain.store account_client_cert leaf.0 s0).1 in
      let w1 = laws.fetch-store account_client_cert leaf.0 s0 in
      let w2 = laws.fetch-store account_client_key leaf.1 s1 in
      let w3 =
        laws.fetch-store_other account_client_key account_client_cert leaf.1 s1 accounts_differ.1 in
      ground arith
