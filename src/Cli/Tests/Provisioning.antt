-- ===== src/Cli/Tests/Provisioning.antt =====
-- A daemon and a client that are provisioned at concrete inputs.
use brewmble.Prelude.{
  List, Option, Result, Text, [], err, lit, none, ok, some, refl, ◌∷◌, ◌≡◌, false, eq_text, decimal,
}
use brewmble.Prelude.Dict.{get, insert}
use brewmble.Daemon.Tls.{TlsLibrary, server_config, load_tls_config}
use brewmble.Cli.Ca.{client, daemon, ensure_ca_with_store, issue_leaf_with_store}
use brewmble.Cli.Certificates.{
  Machine, ca_path, cert_path, key_path, issue_daemon, any_exists, write_files,
}
use brewmble.Cli.Certificates.Issued.{IsJoin}
use brewmble.Provisioned.{IsAccepted, Reads, issued_pair_trusted}
use brewmble.Cli.Tests.Keys.{
  Keys, keychain, keychain-IsStore, nothing_legacy, generated, leaf_of, fingerprint, files, machine,
}

abbrev issued : Result Text (List Text) × Machine Keys
issued =
    issue_daemon keychain files generated leaf_of fingerprint (lit "host") (some (lit "node1"))
      (some (lit "/new")) false machine

abbrev or_gone : Option Text → Result Text Text
or_gone none = err (lit "no such file")
or_gone (some t) = ok t

abbrev tls : TlsLibrary
tls = record {
  read = λ p. or_gone (get p issued.1.disk);
  certificates = λ t. ok (t ∷ []);
  private_key = λ t. ok (some t);
  add_root = λ t. ok tt;
  build_verifier = λ ts. ok tt;
  with_single_cert = λ ts t. ok tt;
}

new-IsJoin : IsJoin files (lit "/new")
unfolding eq_text lit
new-IsJoin = record { cert_ca = refl; key_ca = refl; key_cert = refl }

Reads-issued : Reads tls issued.1.disk
Reads-issued path content e = rw e refl

ensured : (ensure_ca_with_store keychain generated machine.stores).0 ≡ ok (lit "OLD", lit "OLD KEY")
unfolding ensure_ca_with_store get eq_text lit
ensured = refl

abbrev leaf : Text × Text
leaf = (lit "node1", lit "OLD KEY")

abbrev printed : List Text
printed =
    lit "Daemon certificate written to /new"
    ∷ lit "  CN:   node1"
    ∷ lit "  SAN:  DNS:node1"
    ∷ lit "  EKU:  ServerAuth"
    ∷ lit "  Days: 397"
    ∷ lit "  SHA256 fingerprint: node1"
    ∷ []

leaf_issued :
    (issue_leaf_with_store keychain generated leaf_of
      (lit "node1")
      daemon
      (ensure_ca_with_store keychain generated machine.stores).1).0
    ≡ ok leaf
unfolding issue_leaf_with_store ensure_ca_with_store get eq_text lit
leaf_issued = refl

has_issued : issued.0 ≡ ok printed
unfolding issue_daemon any_exists write_files issue_leaf_with_store ensure_ca_with_store get insert
    eq_text lit decimal
has_issued = refl

accepted : IsAccepted tls (lit "OLD") leaf (lit "OLD") (lit "node1") [] (lit "OLD KEY")
accepted = record {
  roots = refl;
  root_added = refl;
  verifier = refl;
  chain = refl;
  private_key = refl;
  pair = refl;
}

client_issued :
    (issue_leaf_with_store keychain generated leaf_of (lit "host") client issued.1.stores).0
    ≡ ok (lit "host", lit "OLD KEY")
unfolding issue_daemon any_exists write_files issue_leaf_with_store ensure_ca_with_store get insert
    eq_text lit decimal
client_issued = refl

issued_pair_trusted_example :
    (load_tls_config tls
        (ca_path files (lit "/new"))
        (cert_path files (lit "/new"))
        (key_path files (lit "/new"))
      ≡ ok (server_config (lit "OLD") (lit "node1" ∷ []) (lit "OLD KEY")))
    × (leaf_of (lit "node1") daemon (lit "OLD") (lit "OLD KEY") ≡ ok leaf)
    × (leaf_of (lit "host") client (lit "OLD") (lit "OLD KEY") ≡ ok (lit "host", lit "OLD KEY"))
issued_pair_trusted_example =
    issued_pair_trusted keychain nothing_legacy generated leaf_of files fingerprint (lit "host") tls
      (lit "node1") (lit "/new") false machine printed (lit "OLD", lit "OLD KEY") leaf
      (lit "host", lit "OLD KEY") (lit "OLD") (lit "node1") [] (lit "OLD KEY") keychain-IsStore
      new-IsJoin ensured leaf_issued has_issued accepted Reads-issued client_issued
