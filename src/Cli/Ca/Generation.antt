-- ===== src/Cli/Ca/Generation.antt =====
-- `generate_ca` and `generate_leaf` of cli/src/ca.rs. The library that makes keys and signs
-- certificates is a parameter. Times are seconds since the epoch, on whose first day nothing runs.
use brewmble.Prelude.{Bool, List, Result, Text, [], lit, ok, true, ℕ, ◌*◌, ◌+◌, ◌-◌, ◌>>=◌, ◌∷◌}
use brewmble.Cli.Ca.{LeafKind, daemon, client}

abbrev ca_cn : Text
ca_cn = lit "brewmble-cluster-ca"

abbrev pub ca_validity_days : ℕ
ca_validity_days = 365 * 10

abbrev pub leaf_validity_days : ℕ
leaf_validity_days = 397

-- `Duration::days`, in seconds.
abbrev pub days : ℕ → ℕ
days n = n * 86_400

pub data KeyUsagePurpose : Type 0 where
  key_cert_sign : KeyUsagePurpose
  crl_sign : KeyUsagePurpose

pub data ExtendedKeyUsagePurpose : Type 0 where
  for_server_auth : ExtendedKeyUsagePurpose
  for_client_auth : ExtendedKeyUsagePurpose

pub record CertificateParams : Type 0 where
  pub common_name : Text
  pub is_ca : Bool
  pub key_usages : List KeyUsagePurpose
  pub subject_alt_names : List Text
  pub extended_key_usages : List ExtendedKeyUsagePurpose
  pub not_before : ℕ
  pub not_after : ℕ

-- The library. A certificate is the text of its PEM.
pub record Rcgen (Key : Type 0) : Type 0 where
  pub generate_for : Result Text Key
  pub from_pem : Text → Result Text Key
  pub serialize_pem : Key → Text
  pub new_params : List Text → Result Text CertificateParams
  pub parse_name : Text → Result Text Text
  pub self_signed : CertificateParams → Key → Result Text Text
  pub signed_by : CertificateParams → Key → CertificateParams × Key → Result Text Text

-- What a certificate is for.
abbrev pub usages_of : LeafKind → List ExtendedKeyUsagePurpose
usages_of daemon = for_server_auth ∷ []
usages_of client = for_client_auth ∷ []

abbrev with_validity : ℕ → ℕ → CertificateParams → CertificateParams
with_validity now validity_days params =
    let not_before = now - days 1 in
    record params { not_before = not_before; not_after = not_before + days validity_days }

abbrev pub named_ca : CertificateParams → CertificateParams
named_ca params = record params { common_name = ca_cn; is_ca = true }

abbrev ca_params : ℕ → CertificateParams → CertificateParams
ca_params now params =
    with_validity now ca_validity_days
      (record (named_ca params) { key_usages = key_cert_sign ∷ crl_sign ∷ [] })

abbrev pub leaf_params : ℕ → Text → Text → LeafKind → CertificateParams → CertificateParams
leaf_params now cn name kind params = with_validity now leaf_validity_days (record params {
  common_name = cn;
  subject_alt_names = name ∷ [];
  extended_key_usages = usages_of kind;
})

module _ {Key : Type 0} (rcgen : Rcgen Key) (now : ℕ) where
  unfoldable pub generate_ca : Result Text (Text × Text)
  generate_ca = do
    key ← rcgen.generate_for
    params ← rcgen.new_params []
    cert ← rcgen.self_signed (ca_params now params) key
    ok (cert, rcgen.serialize_pem key)

  -- The certificate of the authority is not read.
  unfoldable pub generate_leaf : Text → LeafKind → Text → Text → Result Text (Text × Text)
  generate_leaf cn kind ca_cert_pem ca_key_pem = do
    ca_key ← rcgen.from_pem ca_key_pem
    issuer ← rcgen.new_params []
    leaf_key ← rcgen.generate_for
    params ← rcgen.new_params []
    name ← rcgen.parse_name cn
    cert ← rcgen.signed_by (leaf_params now cn name kind params) leaf_key (named_ca issuer, ca_key)
    ok (cert, rcgen.serialize_pem leaf_key)
