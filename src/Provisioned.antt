-- ===== src/Provisioned.antt =====
-- A daemon that runs with what the CLI has issued for it, and a client whose certificate the CLI
-- has issued too: cli/src/main.rs, cli/src/ca.rs and daemon/src/main.rs together. The daemon reads
-- the files where the CLI has written them.
use brewmble.Prelude.{
  Bool, List, Result, Text, [], arith, ok, some, refl, ◌∷◌, ◌≡◌, ◌∙◌, ap, sym, ok-injective, subst,
}
use brewmble.Prelude.Dict.{Dict, get}
use brewmble.Daemon.Tls.{TlsLibrary, server_config, load_parts, load_tls_config}
use brewmble.Cli.Ca.{
  CredentialStore, LegacyStore, LeafKind, daemon, client, IsStore, ensure_ca_with_store,
  issue_leaf_with_store,
}
use brewmble.Cli.Ca.Authority.{ensure_ca-stable, issue_leaf_daemon}
use brewmble.Cli.Certificates.{Files, Machine, ca_path, cert_path, key_path, issue_daemon}
use brewmble.Cli.Certificates.Issued.{IsJoin, issue_daemon_writes}

-- The daemon reads what the disk holds.
abbrev pub Reads : TlsLibrary → Dict Text → Type 0
Reads tls disk = (path content : Text) → get path disk ≡ some content → tls.read path ≡ ok content

-- The library takes the certificate of an authority, and the certificate and the key of a leaf.
pub record IsAccepted (tls : TlsLibrary) (ca_pem : Text) (leaf : Text × Text) (root : Text)
    (first : Text) (others : List Text) (key : Text) : Type 0 where
  pub roots : tls.certificates ca_pem ≡ ok (root ∷ [])
  pub root_added : tls.add_root root ≡ ok tt
  pub verifier : tls.build_verifier (root ∷ []) ≡ ok tt
  pub chain : tls.certificates leaf.0 ≡ ok (first ∷ others)
  pub private_key : tls.private_key leaf.1 ≡ ok (some key)
  pub pair : tls.with_single_cert (first ∷ others) key ≡ ok tt

load_parts_accepted :
    (tls : TlsLibrary) (ca_pem : Text) (leaf : Text × Text) (root first : Text) (others : List Text)
    (key : Text)
    → IsAccepted tls ca_pem leaf root first others key
    → load_parts tls ca_pem leaf.0 leaf.1 ≡ ok (server_config root (first ∷ others) key)
unfolding load_parts
load_parts_accepted tls ca_pem leaf root first others key a =
    rw (a.roots, a.root_added, a.chain, a.private_key, a.verifier, a.pair) refl

module _ {S : Type 0} (keychain : CredentialStore S) (legacy : LegacyStore S)
    (generate_ca : Result Text (Text × Text))
    (generate_leaf : Text → LeafKind → Text → Text → Result Text (Text × Text)) where
  -- Where the authority is there already, a leaf is made by it.
  issue_leaf-by :
      (cn : Text) (kind : LeafKind) (s : S) (ca leaf : Text × Text)
      → ensure_ca_with_store keychain generate_ca s ≡ (ok ca, s)
      → (issue_leaf_with_store keychain generate_ca generate_leaf cn kind s).0 ≡ ok leaf
      → generate_leaf cn kind ca.0 ca.1 ≡ ok leaf
  unfolding issue_leaf_with_store
  issue_leaf-by cn daemon s ca leaf e h = ground arith
  issue_leaf-by cn client s ca leaf e h = ground arith

  module _ (files : Files) (fingerprint : Text → Result Text Text) (hostname : Text)
      (tls : TlsLibrary) where
    -- If the stores behave as documented, the paths in the directory are different, the tool issues
    -- a daemon's certificate successfully, the TLS library takes what was issued and the daemon
    -- reads the files as they were written, then its TLS configuration is loaded: it trusts the
    -- authority and no other and has the leaf and its key; and a client's certificate that is
    -- issued afterwards is made by the same authority as the daemon's.
    pub issued_pair_trusted :
        (cn dir : Text) (force : Bool) (m : Machine S) (printed : List Text)
        (ca leaf client_leaf : Text × Text) (root first : Text) (others : List Text) (key : Text)
        → IsStore keychain legacy
        → IsJoin files dir
        → (ensure_ca_with_store keychain generate_ca m.stores).0 ≡ ok ca
        → (issue_leaf_with_store keychain generate_ca generate_leaf cn daemon
            (ensure_ca_with_store keychain generate_ca m.stores).1).0
          ≡ ok leaf
        → (issue_daemon keychain files generate_ca generate_leaf fingerprint hostname
            (some cn)
            (some dir)
            force
            m).0
          ≡ ok printed
        → IsAccepted tls ca.0 leaf root first others key
        → let m' =
            (issue_daemon keychain files generate_ca generate_leaf fingerprint hostname
              (some cn)
              (some dir)
              force
              m).1 in
          Reads tls m'.disk
          → (issue_leaf_with_store keychain generate_ca generate_leaf hostname client m'.stores).0
            ≡ ok client_leaf
          → (load_tls_config tls (ca_path files dir) (cert_path files dir) (key_path files dir)
              ≡ ok (server_config root (first ∷ others) key))
            × (generate_leaf cn daemon ca.0 ca.1 ≡ ok leaf)
            × (generate_leaf hostname client ca.0 ca.1 ≡ ok client_leaf)
    unfolding load_tls_config
    issued_pair_trusted cn dir force m printed ca leaf client_leaf root first others key laws paths
          made leaf_made h accepted reads client_made =
        let (ca', leaf', e, f, at_ca, at_cert, at_key, mode, left) =
          issue_daemon_writes keychain files generate_ca generate_leaf fingerprint hostname cn dir
            force m printed paths h in
        let same_ca : ca' ≡ ca = ok-injective (sym e ∙ made) in
        let same_leaf : leaf' ≡ leaf = ok-injective (sym f ∙ leaf_made) in
        let s1 = (ensure_ca_with_store keychain generate_ca m.stores).1 in
        let stable : ensure_ca_with_store keychain generate_ca s1 ≡ (ok ca, s1) =
          ensure_ca-stable keychain legacy generate_ca generate_ca m.stores ca laws made in
        let stores =
          left
          ∙ issue_leaf_daemon keychain legacy generate_ca generate_leaf cn s1
          ∙ ap (λ (x : Result Text (Text × Text) × S). x.1) stable in
        (
          rw
              (
                reads (ca_path files dir) ca.0 (rw same_ca at at_ca),
                reads (cert_path files dir) leaf.0 (rw same_leaf at at_cert),
                reads (key_path files dir) leaf.1 (rw same_leaf at at_key),
              )
              (load_parts_accepted tls ca.0 leaf root first others key accepted),
          issue_leaf-by cn daemon s1 ca leaf stable leaf_made,
          issue_leaf-by hostname client s1 ca client_leaf stable (
              subst
                (λ s.
                  (issue_leaf_with_store keychain generate_ca generate_leaf hostname client s).0
                  ≡ ok client_leaf)
                stores client_made),
        )
