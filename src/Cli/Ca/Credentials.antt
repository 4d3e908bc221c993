-- ===== src/Cli/Ca/Credentials.antt =====
-- The keyring of cli/src/ca.rs as a credential store, what is read from it, and `build_client`. The
-- keyring's own operations and the readers of certificates are parameters.
use brewmble.Prelude.{
  List, Option, Result, Text, [], err, is_whitespace, join, lit, map, none, ok, some, trim_end_by,
  ℕ, hex_byte, ◌++◌, ◌>>=◌, ◌∷◌,
}
use brewmble.Prelude.Exec.{Exec}
use brewmble.Cli.Ca.{CredentialStore, account_ca_cert, account_client_cert, account_client_key}

-- The outcome of `get_password`: a value, the error `NoEntry`, or another error.
pub data Password : Type 0 where
  value : Text → Password
  no_entry : Password
  other : Text → Password

-- The keyring: `Entry::new`, and the operations on an entry.
pub record Keyring (S : Type 0) : Type 0 where
  pub new_entry : S → Text → Result Text (Unit {0})
  pub get_password : S → Text → Password
  pub set_password : Text → Text → Exec S (Unit {0})
  pub delete_credential : Text → Exec S (Unit {0})

abbrev of_password : Password → Result Text (Option Text)
of_password (value v) = ok (some v)
of_password no_entry = ok none
of_password (other e) = err e

module _ {S : Type 0} (keyring : Keyring S) where
  unfoldable pub keyring_get : S → Text → Result Text (Option Text)
  keyring_get s account = do
    _ ← keyring.new_entry s account
    of_password (keyring.get_password s account)

  abbrev with_entry : Result Text (Unit {0}) → Exec S (Unit {0}) → Exec S (Unit {0})
  with_entry (ok _) act s = act s
  with_entry (err e) act s = (err e, s)

  unfoldable pub keyring_set : Text → Text → Exec S (Unit {0})
  keyring_set account v s =
      with_entry (keyring.new_entry s account) (keyring.set_password account v) s

  -- `macos_sec_item_delete`, where it is not that of macOS.
  unfoldable pub delete_credential : Text → Exec S (Unit {0})
  delete_credential account s =
      with_entry (keyring.new_entry s account) (keyring.delete_credential account) s

  unfoldable pub keyring_store : CredentialStore S
  unfolding keyring_get keyring_set
  keyring_store = record { fetch = keyring_get; store = keyring_set }

abbrev or_missing : Text → Option Text → Result Text Text
or_missing message none = err message
or_missing message (some text) = ok text

module _ {S : Type 0} (keychain : CredentialStore S) where
  unfoldable pub ca_root_pem : S → Result Text Text
  ca_root_pem s = do
    cert ← keychain.fetch s account_ca_cert
    or_missing (lit "no cluster CA found") cert

  unfoldable pub client_cert_pem : S → Result Text Text
  client_cert_pem s = do
    cert ← keychain.fetch s account_client_cert
    or_missing (lit "no client certificate found") cert

  unfoldable pub client_key_pem : S → Result Text Text
  client_key_pem s = do
    key ← keychain.fetch s account_client_key
    or_missing (lit "no client key found") key

  abbrev pub trim_end : Text → Text
  trim_end s = trim_end_by is_whitespace s

  -- The certificate and the key that the identity is read from.
  unfoldable pub identity_bundle : S → Result Text Text
  unfolding client_cert_pem client_key_pem
  identity_bundle s = do
    cert ← client_cert_pem s
    key ← client_key_pem s
    ok (trim_end cert ++ (lit "\n" ++ trim_end key))

-- The readers of an identity and of a certificate, and the builder of the client.
pub record ClientBuilder (Identity Certificate Client : Type 0) : Type 0 where
  pub identity_from_pem : Text → Result Text Identity
  pub certificate_from_pem : Text → Result Text Certificate
  pub build : Identity → Certificate → Result Text Client

abbrev pub no_identity : Text
no_identity =
    lit
      "no client certificate found — run `brewmble ca init` and `brewmble cert issue --kind client`"

abbrev pub no_authority : Text
no_authority = lit "no cluster CA found — run `brewmble ca init`"

abbrev replace_err : {A : Type 0} → Text → Result Text A → Result Text A
replace_err message (ok a) = ok a
replace_err message (err e) = err message

module _ {S Identity Certificate Client : Type 0} (keychain : CredentialStore S)
    (builder : ClientBuilder Identity Certificate Client) where
  unfoldable pub client_identity : S → Result Text Identity
  unfolding identity_bundle
  client_identity s = do bundle ← identity_bundle keychain s; builder.identity_from_pem bundle

  unfoldable pub ca_root : S → Result Text Certificate
  unfolding ca_root_pem
  ca_root s = do pem ← ca_root_pem keychain s; builder.certificate_from_pem pem

  unfoldable pub build_client : S → Result Text Client
  unfolding client_identity ca_root
  build_client s = do
    identity ← replace_err no_identity (client_identity s)
    ca ← replace_err no_authority (ca_root s)
    builder.build identity ca

-- `fingerprint`: of the first certificate. The certificates of a text and the digest are
-- parameters.
abbrev first_certificate : List Text → Result Text Text
first_certificate [] = err (lit "no certificate found in PEM")
first_certificate (c ∷ cs) = ok c

unfoldable pub fingerprint :
    (Text → Result Text (List Text)) → (Text → List ℕ) → Text → Result Text Text
fingerprint certificates sha256 cert_pem = do
  certs ← certificates cert_pem
  cert ← first_certificate certs
  ok (join (lit ":") (map hex_byte (sha256 cert)))
