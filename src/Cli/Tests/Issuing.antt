-- ===== src/Cli/Tests/Issuing.antt =====
-- A certificate that is issued and read at concrete inputs: its text is its validity and its usage.
use brewmble.Prelude.{
  Bool, Option, Text, [], decimal, false, lit, none, ok, refl, some, true, arith, ℕ, ◌∷◌, ◌≡◌, ◌↔◌,
  ◌≤◌, ◌+◌, ◌==◌, subst, ok-injective,
}
use brewmble.Prelude.Dict.{get, insert}
use brewmble.Daemon.Config.{Leaf, Host, empty_report, is_valid, check_leaf}
use brewmble.Cli.Ca.{daemon, ensure_ca_with_store, store_ca, issue_leaf_with_store}
use brewmble.Cli.Ca.Generation.{CertificateParams, Rcgen, days, generate_ca, generate_leaf}
use brewmble.Cli.Tests.Keys.{keychain}
use brewmble.Trusted.{allows_server, leaf_of_params, ReadsSigned, issued_accepted}

abbrev number_of : Bool → ℕ
number_of true = 1
number_of false = 0

abbrev signed : CertificateParams → Text
signed p = p.not_before ∷ p.not_after ∷ number_of (allows_server p.extended_key_usages) ∷ []

abbrev parse_leaf : Text → Option Leaf
parse_leaf (b ∷ a ∷ u ∷ rest) =
    some (record { not_before = b; not_after = a; server_auth = u == 1 })
parse_leaf [] = none
parse_leaf (b ∷ []) = none
parse_leaf (b ∷ a ∷ []) = none

abbrev rcgen : Rcgen Text
rcgen = record {
  generate_for = ok (lit "KEY");
  from_pem = λ pem. ok pem;
  serialize_pem = λ key. key;
  new_params = λ names. ok (record {
    common_name = [];
    is_ca = false;
    key_usages = [];
    subject_alt_names = names;
    extended_key_usages = [];
    not_before = 0;
    not_after = 0;
  });
  parse_name = λ cn. ok cn;
  self_signed = λ p key. ok (signed p);
  signed_by = λ p key issuer. ok (signed p);
}

-- It was issued at 1,000,000, from 913,600 on, for 397 days.
abbrev pem : Text
pem = 913_600 ∷ 35_214_400 ∷ 1 ∷ []

abbrev host : Host
host = record {
  exists = λ p. true;
  read = λ p. ok pem;
  certificates = λ t. ok 1;
  private_key = λ t. ok true;
  mode = λ p. some 384;
  load_tls_config = λ tls. ok tt;
  parse_leaf = parse_leaf;
  now = 2_000_000;
  display_time = decimal;
}

number_of-is_one : (b : Bool) → (number_of b == 1) ≡ b
number_of-is_one true = refl
number_of-is_one false = refl

rcgen-ReadsSigned : ReadsSigned rcgen host
rcgen-ReadsSigned p key issuer cert e =
    subst (λ c. parse_leaf c ≡ some (leaf_of_params p)) (ok-injective e)
      (rw (number_of-is_one (allows_server p.extended_key_usages)) refl)

issued :
    (issue_leaf_with_store keychain
      (generate_ca rcgen 1_000_000)
      (generate_leaf rcgen 1_000_000)
      (lit "node1")
      daemon
      []).0
    ≡ ok (pem, lit "KEY")
unfolding issue_leaf_with_store ensure_ca_with_store store_ca generate_ca generate_leaf get insert
issued = refl

issued_accepted_example :
    is_valid (check_leaf host (lit "daemon.pem") empty_report) ≡ true
    ↔ (is_valid empty_report ≡ true)
      × (daemon ≡ daemon)
      × (1_000_000 ≤ host.now + days 1)
      × (host.now ≤ 1_000_000 + days 396)
issued_accepted_example =
    issued_accepted rcgen 1_000_000 keychain host (lit "daemon.pem") (lit "node1") daemon []
      (pem, lit "KEY") empty_report rcgen-ReadsSigned (omega arith) issued refl
