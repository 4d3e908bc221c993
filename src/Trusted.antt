-- ===== src/Trusted.antt =====
-- When the daemon accepts a certificate that the CLI has issued: cli/src/ca.rs and
-- daemon/src/config.rs together. Their clocks count the same seconds. That a parser reads what was
-- signed is the documented behaviour of the X.509 libraries, which `ReadsSigned` states.
use brewmble.Prelude.{
  Bool, List, Text, [], arith, false, ok, some, true, refl, ℕ, ◌+◌, ◌≤◌, ◌↔◌, ◌∷◌, ◌≡◌,
  Result-cases, inl, inr, bind-ok, some-injective, subst,
}
use brewmble.Daemon.Config.{Leaf, Host, ValidationReport, is_valid, leaf_of, check_leaf}
use brewmble.Daemon.Config.Validity.{IsCurrent, check_leaf-valid}
use brewmble.Cli.Ca.{
  CredentialStore, LeafKind, daemon, client, ensure_ca_with_store, issue_leaf_with_store,
}
use brewmble.Cli.Ca.Generation.{
  days, ExtendedKeyUsagePurpose, for_server_auth, for_client_auth, CertificateParams, Rcgen,
  named_ca, leaf_params, generate_ca, generate_leaf,
}

abbrev pub allows_server : List ExtendedKeyUsagePurpose → Bool
allows_server [] = false
allows_server (for_server_auth ∷ us) = true
allows_server (for_client_auth ∷ us) = allows_server us

abbrev pub leaf_of_params : CertificateParams → Leaf
leaf_of_params p = record {
  not_before = p.not_before;
  not_after = p.not_after;
  server_auth = allows_server p.extended_key_usages;
}

-- The parser reads the validity and the usages of a certificate that was signed.
abbrev pub ReadsSigned : {Key : Type 0} → Rcgen Key → Host → Type 0
ReadsSigned {Key} rcgen host =
    (p : CertificateParams) (key : Key) (issuer : CertificateParams × Key) (cert : Text)
    → rcgen.signed_by p key issuer ≡ ok cert
    → host.parse_leaf cert ≡ some (leaf_of_params p)

-- When the leaf that was asked for is current.
leaf_params-IsCurrent :
    (now : ℕ) (host : Host) (cn name : Text) (kind : LeafKind) (p : CertificateParams)
    → days 1 ≤ now
    → IsCurrent host (leaf_of_params (leaf_params now cn name kind p))
      ↔ (kind ≡ daemon) × (now ≤ host.now + days 1) × (host.now ≤ now + days 396)
leaf_params-IsCurrent now host cn name daemon p h = (
  λ c. (refl, omega (arith, c.started), omega (arith, c.unexpired)),
  λ c. record { started = omega arith; unexpired = omega arith; server = refl },
)
leaf_params-IsCurrent now host cn name client p h =
    (λ c. absurd (ground (arith, c.server)), λ c. absurd (ground (arith, c.0)))

module _ {Key : Type 0} (rcgen : Rcgen Key) (now : ℕ) where
  generate_leaf-signed :
      (cn : Text) (kind : LeafKind) (ca_cert ca_key : Text) (leaf : Text × Text)
      → generate_leaf rcgen now cn kind ca_cert ca_key ≡ ok leaf
      → (name : Text) × (p : CertificateParams) × (key : Key) × (issuer : CertificateParams × Key)
        × (rcgen.signed_by (leaf_params now cn name kind p) key issuer ≡ ok leaf.0)
  unfolding generate_leaf
  generate_leaf-signed cn kind ca_cert ca_key leaf h =
      let (ca_key', _, h1) = bind-ok (rcgen.from_pem ca_key) _ leaf h in
      let (issuer, _, h2) = bind-ok (rcgen.new_params []) _ leaf h1 in
      let (leaf_key, _, h3) = bind-ok rcgen.generate_for _ leaf h2 in
      let (p, _, h4) = bind-ok (rcgen.new_params []) _ leaf h3 in
      let (name, _, h5) = bind-ok (rcgen.parse_name cn) _ leaf h4 in
      let (cert, e, h6) = bind-ok (rcgen.signed_by _ leaf_key _) _ leaf h5 in
      (name, p, leaf_key, (named_ca issuer, ca_key'), ground (arith, e, h6))

  module _ {S : Type 0} (keychain : CredentialStore S) where
    issue_leaf-made :
        (cn : Text) (kind : LeafKind) (s : S) (leaf : Text × Text)
        → (issue_leaf_with_store keychain
            (generate_ca rcgen now)
            (generate_leaf rcgen now)
            cn
            kind
            s).0
          ≡ ok leaf
        → (ca : Text × Text) × (generate_leaf rcgen now cn kind ca.0 ca.1 ≡ ok leaf)
    unfolding issue_leaf_with_store
    issue_leaf-made cn daemon s leaf h =
        let act = ensure_ca_with_store keychain (generate_ca rcgen now) s in
        elim (Result-cases act.0) [
          | inl (ca, g) ↦ (ca, ground (arith, g, h))
          | inr (e, g) ↦ absurd (ground (arith, g, h))
        ]
    issue_leaf-made cn client s leaf h =
        let act = ensure_ca_with_store keychain (generate_ca rcgen now) s in
        elim (Result-cases act.0) [
          | inl (ca, g) ↦ (ca, ground (arith, g, h))
          | inr (e, g) ↦ absurd (ground (arith, g, h))
        ]

    -- If the parser reads what was signed, the clock is past its first day, and the daemon's file
    -- holds a certificate that the tool has issued, then the daemon's check of its leaf passes
    -- exactly if nothing was wrong before, it was issued for a daemon, and the daemon's clock is at
    -- most one day behind the time at which it was issued and at most 396 days after it.
    pub issued_accepted :
        (host : Host) (path cn : Text) (kind : LeafKind) (s : S) (leaf : Text × Text)
        (r : ValidationReport)
        → ReadsSigned rcgen host
        → days 1 ≤ now
        → (issue_leaf_with_store keychain
            (generate_ca rcgen now)
            (generate_leaf rcgen now)
            cn
            kind
            s).0
          ≡ ok leaf
        → host.read path ≡ ok leaf.0
        → is_valid (check_leaf host path r) ≡ true
          ↔ (is_valid r ≡ true)
            × (kind ≡ daemon)
            × (now ≤ host.now + days 1)
            × (host.now ≤ now + days 396)
    issued_accepted host path cn kind s leaf r reads h0 h1 h2 =
        let (ca, g) = issue_leaf-made cn kind s leaf h1 in
        let (name, p, key, issuer, e) = generate_leaf-signed cn kind ca.0 ca.1 leaf g in
        let read = reads (leaf_params now cn name kind p) key issuer leaf.0 e in
        let at : leaf_of host path ≡ some (leaf_of_params (leaf_params now cn name kind p)) =
          rw (leaf_of, h2) read in
        let valid = check_leaf-valid host path r in
        let current = leaf_params-IsCurrent now host cn name kind p h0 in
        (
          λ h. let c = current.0 ((valid.0 h).1 _ at) in ((valid.0 h).0, c.0, c.1, c.2),
          λ h. valid.1 (
            h.0,
            λ l f.
                subst (IsCurrent host) (some-injective _ _ (ground (arith, at, f)))
                  (current.1 (h.1, h.2, h.3)),
          ),
        )
