-- ===== src/Cli/Authority/Init.antt =====
-- `brewmble ca init` of cli/src/main.rs.
use brewmble.Prelude.{
  inl, inr, Result-cases, List, Result, Text, ◌∷◌, err, ok, some, none, true, false, lit, eq_text,
  ◌≡◌, refl, arith, ◌⊎◌,
}
use brewmble.Prelude.Exec.{Exec}
use brewmble.Cli.Ca.{
  CredentialStore, LegacyStore, IsStore, account_ca_cert, account_ca_key, ensure_ca_with_store,
  store_ca,
}
use brewmble.Cli.Ca.Credentials.{ca_root_pem}
use brewmble.Cli.Authority.{init_ca, created_details}

-- What the platform documents of a deletion: one that succeeds leaves no value, one where there is no
-- value leaves none either, though it may report an error, and other accounts are not touched.
pub record IsDelete {S : Type 0} (keychain : CredentialStore S) (delete : Text → Exec S (Unit {0}))
    : Type 0 where
  pub fetch-delete :
      (account : Text) (s : S)
      → (delete account s).0 ≡ ok tt
      → keychain.fetch (delete account s).1 account ≡ ok none
  pub fetch-delete_absent :
      (account : Text) (s : S)
      → keychain.fetch s account ≡ ok none
      → keychain.fetch (delete account s).1 account ≡ ok none
  pub fetch-delete_other :
      (account other : Text) (s : S)
      → eq_text account other ≡ false
      → keychain.fetch (delete account s).1 other ≡ keychain.fetch s other

key_differs : eq_text account_ca_key account_ca_cert ≡ false
unfolding eq_text lit
key_differs = refl

module _ {S : Type 0} (keychain : CredentialStore S) (delete : Text → Exec S (Unit {0}))
    (generate_ca : Result Text (Text × Text)) (fingerprint : Text → Result Text Text) where
  -- Without force, an authority whose certificate is stored is not touched: the command fails and
  -- changes nothing.
  pub init_ca_keeps :
      (s : S) (cert : Text)
      → keychain.fetch s account_ca_cert ≡ ok (some cert)
      → init_ca keychain delete generate_ca fingerprint false s
        ≡ (err (lit "cluster CA already exists; use --force to overwrite"), s)
  unfolding init_ca ca_root_pem
  init_ca_keeps s cert h = ground arith

  -- With force, if the stores cannot delete and the deletions change nothing, the old authority
  -- stays, and the command says all the same that it has created one.
  pub init_ca_forced_keeps :
      (s : S) (cert key fp : Text)
      → ((account : Text) → (delete account s).1 ≡ s)
      → keychain.fetch s account_ca_cert ≡ ok (some cert)
      → keychain.fetch s account_ca_key ≡ ok (some key)
      → fingerprint cert ≡ ok fp
      → (printed : List Text) × (init_ca keychain delete generate_ca fingerprint true s
          ≡ (ok (lit "Cluster CA created." ∷ printed), s))
  unfolding init_ca ensure_ca_with_store
  init_ca_forced_keeps s cert key fp h c k f =
      let ensured : ensure_ca_with_store keychain generate_ca s ≡ (ok (cert, key), s) =
        ground arith in
      (created_details fp, rw (h account_ca_cert, h account_ca_key, ensured) (ground arith))

  store_ca_keeps :
      (legacy : LegacyStore S) (s : S) (pair : Text × Text)
      → IsStore keychain legacy
      → (store_ca keychain generate_ca s).0 ≡ ok pair
      → (generate_ca ≡ ok pair)
        × (keychain.fetch (store_ca keychain generate_ca s).1 account_ca_cert ≡ ok (some pair.0))
        × (keychain.fetch (store_ca keychain generate_ca s).1 account_ca_key ≡ ok (some pair.1))
  unfolding store_ca
  store_ca_keeps legacy s pair laws h =
      let s1 = (keychain.store account_ca_cert pair.0 s).1 in
      let w1 = laws.fetch-store account_ca_cert pair.0 s in
      let w2 = laws.fetch-store account_ca_key pair.1 s1 in
      let w3 = laws.fetch-store_other account_ca_key account_ca_cert pair.1 s1 key_differs in
      ground arith

  -- A deletion succeeds, or there is nothing to delete.
  abbrev pub Clears : Text → S → Type 0
  Clears account s = ((delete account s).0 ≡ ok tt) ⊎ (keychain.fetch s account ≡ ok none)

  cleared :
      (account : Text) (s : S)
      → IsDelete keychain delete
      → Clears account s
      → keychain.fetch (delete account s).1 account ≡ ok none
  cleared account s deletes (inl h) = deletes.fetch-delete account s h
  cleared account s deletes (inr h) = deletes.fetch-delete_absent account s h

  -- For stores that behave as documented, a command with force that succeeds, and each of whose two
  -- deletions succeeds or has nothing to delete, has stored the authority that was generated.
  pub init_ca_renews :
      (legacy : LegacyStore S) (s : S) (printed : List Text)
      → IsStore keychain legacy
      → IsDelete keychain delete
      → Clears account_ca_cert s
      → Clears account_ca_key (delete account_ca_cert s).1
      → (init_ca keychain delete generate_ca fingerprint true s).0 ≡ ok printed
      → let s' = (init_ca keychain delete generate_ca fingerprint true s).1 in
        (pair : Text × Text) × (generate_ca ≡ ok pair)
        × (keychain.fetch s' account_ca_cert ≡ ok (some pair.0))
        × (keychain.fetch s' account_ca_key ≡ ok (some pair.1))
  unfolding init_ca ensure_ca_with_store
  init_ca_renews legacy s printed laws deletes clears_cert clears_key h =
      let s1 = (delete account_ca_cert s).1 in
      let s2 = (delete account_ca_key s1).1 in
      let gone_key = cleared account_ca_key s1 deletes clears_key in
      let gone_cert = cleared account_ca_cert s deletes clears_cert in
      let still_gone = deletes.fetch-delete_other account_ca_key account_ca_cert s1 key_differs in
      let ensured : ensure_ca_with_store keychain generate_ca s2
          ≡ store_ca keychain generate_ca s2 =
        ground arith in
      elim (Result-cases (store_ca keychain generate_ca s2).0) [
        | inl (pair, e) ↦
            let stored = store_ca_keeps legacy s2 pair laws e in
            (pair, stored.0, ground (arith, stored.1), ground (arith, stored.2))
        | inr (x, e) ↦ absurd (ground arith)
      ]
