-- ===== src/Cli/Pin/Fetching.antt =====
-- `fetch_fingerprint` of cli/src/pin.rs, down to the TLS connection: what a connection does, and
-- the readers of names, addresses and certificates, are parameters. The verifier keeps the last
-- certificate that it has accepted; all addresses share it. A handshake that took too long is taken
-- to have verified its certificate, if it does, before the next connection is made.
use brewmble.Prelude.{
  List, Option, Result, Text, [], decimal, err, lit, none, ok, some, trim_end_matches,
  trim_start_matches, ℕ, ◌++◌, ◌>>=◌, ◌∷◌, kept,
}
use brewmble.Cli.Ca.{CredentialStore}
use brewmble.Cli.Ca.Credentials.{ca_root_pem, client_cert_pem, client_key_pem}
use brewmble.Cli.Url.{parse_host_port}
use brewmble.Cli.Pin.{format_fingerprint}

-- How the exchange on a connection ends after the certificate was accepted, if one was shown: the
-- request was answered, it broke, or it took too long.
pub data Exchange : Type 0 where
  answered : Exchange
  broken : Text → Exchange
  late : Exchange

-- A connection to an address: whether it is made, the certificate that the server shows, which is
-- none if the session is resumed, and how the exchange ends.
pub record Connection : Type 0 where
  pub connect : Result Text (Unit {0})
  pub shown : Option Text
  pub exchange : Exchange

abbrev pub ok_or_err : Text → Option Text → Result Text Text
ok_or_err message none = err message
ok_or_err message (some text) = ok text

module _ (verify : Text → Result Text (Unit {0})) where
  -- `verify_server_cert`: the leaf is kept only if it was accepted.
  unfoldable pub verify_server_cert : Text → Option Text → Result Text (Unit {0}) × Option Text
  verify_server_cert leaf kept = elim (verify leaf) [
    | err e ↦ (err e, kept)
    | ok _ ↦ (ok tt, some leaf)
  ]

  abbrev verified : Exchange → Result Text (Unit {0}) × Option Text → Exchange × Option Text
  verified exchange (ok _, kept) = (exchange, kept)
  verified exchange (err e, kept) = (broken (lit "tls handshake: " ++ e), kept)

  unfoldable pub handshake : Option Text → Exchange → Option Text → Exchange × Option Text
  unfolding verify_server_cert
  handshake none exchange kept = (exchange, kept)
  handshake (some leaf) exchange kept = verified exchange (verify_server_cert leaf kept)

module _ (verify : Text → Result Text (Unit {0})) (sha256 : Text → List ℕ) (timed_out : Text) where
  -- `take_leaf` leaves no certificate behind.
  abbrev taken : Option Text → Result Text Text × Option Text
  taken none = (err (lit "no leaf certificate captured"), none)
  taken (some leaf) = (ok (format_fingerprint sha256 leaf), none)

  abbrev after_exchange : Exchange × Option Text → Result Text Text × Option Text
  after_exchange (answered, kept) = taken kept
  after_exchange (broken e, kept) = (err e, kept)
  after_exchange (late, kept) = (err (lit "pin check timed out after " ++ timed_out), kept)

  unfoldable pub try_fetch_at_address : Connection → Option Text → Result Text Text × Option Text
  unfolding handshake
  try_fetch_at_address c kept = elim c.connect [
    | err e ↦ (err e, kept)
    | ok _ ↦ after_exchange (handshake verify c.shown c.exchange kept)
  ]

  abbrev last_error : Option Text → Result Text Text
  last_error none = err (lit "all addresses failed")
  last_error (some e) = err e

  -- The loop over the addresses, with the certificate that the verifier keeps.
  unfoldable pub fetch_from : List Connection → Option Text → Option Text → Result Text Text
  unfolding try_fetch_at_address
  fetch_from [] last_err kept = last_error last_err
  fetch_from (c ∷ cs) last_err kept =
      let (r, kept') = try_fetch_at_address c kept in
      elim r [ ok fp ↦ ok fp | err e ↦ fetch_from cs (some e) kept' ]

-- What the libraries read.
pub record PinLibrary : Type 0 where
  pub server_name : Text → Result Text Text
  pub socket_addrs : Text → ℕ → Result Text (List Text)
  pub certificates : Text → Result Text (List Text)
  pub private_key : Text → Result Text (Option Text)
  pub add_root : Text → Result Text (Unit {0})
  pub build_verifier : List Text → Result Text (Unit {0})
  pub client_config : List Text → Text → Result Text (Unit {0})
  pub verify : List Text → Text → Text → Result Text (Unit {0})
  pub connection : Text → Connection

abbrev pub resolution_host : Text → Text
resolution_host host = trim_end_matches b']' (trim_start_matches b'[' host)

module _ (library : PinLibrary) where
  abbrev some_address : Text → ℕ → Text → List Text → Result Text (Text × List Text)
  some_address host port name [] =
      err (lit "could not resolve " ++ (host ++ (lit ":" ++ decimal port)))
  some_address host port name (a ∷ addrs) = ok (name, a ∷ addrs)

  -- The name of the server, and its addresses.
  unfoldable pub resolve_url_addresses : Text → Result Text (Text × List Text)
  resolve_url_addresses url = do
    (host, port) ← parse_host_port url
    name ← library.server_name (resolution_host host)
    addrs ← library.socket_addrs (resolution_host host) port
    some_address host port name addrs

  abbrev some_key : Option Text → Result Text Text
  some_key none = err (lit "no client private key found in keyring")
  some_key (some key) = ok key

  unfoldable pub load_client_cert :
      {S : Type 0} → CredentialStore S → S → Result Text (List Text × Text)
  load_client_cert keychain s = do
    cert_pem ← client_cert_pem keychain s
    key_pem ← client_key_pem keychain s
    certs ← library.certificates cert_pem
    found ← library.private_key key_pem
    key ← some_key found
    ok (certs, key)

  unfoldable pub add_roots : List Text → Result Text (Unit {0})
  add_roots [] = ok tt
  add_roots (c ∷ cs) = do _ ← library.add_root c; add_roots cs

  abbrev connections : List Text → List Connection
  connections [] = []
  connections (a ∷ addrs) = library.connection a ∷ connections addrs

  module _ (sha256 : Text → List ℕ) (timed_out : Text) where
    unfoldable pub fetch_fingerprint_with_addrs :
        Text → List Text → Text → List Text × Text → Result Text Text
    unfolding add_roots
    fetch_fingerprint_with_addrs name addrs ca_pem client = do
      roots ← library.certificates ca_pem
      _ ← add_roots roots
      _ ← library.build_verifier roots
      _ ← library.client_config client.0 client.1
      fetch_from (library.verify roots name) sha256 timed_out (connections addrs) none none

    unfoldable pub fetch_fingerprint_with_certs : Text → Text → List Text × Text → Result Text Text
    unfolding resolve_url_addresses fetch_fingerprint_with_addrs
    fetch_fingerprint_with_certs url ca_pem client = do
      (name, addrs) ← resolve_url_addresses url
      fetch_fingerprint_with_addrs name addrs ca_pem client

    unfoldable pub fetch_fingerprint :
        {S : Type 0} → CredentialStore S → Text → S → Result Text Text
    unfolding load_client_cert fetch_fingerprint_with_certs
    fetch_fingerprint keychain url s = do
      ca_pem ← ca_root_pem keychain s
      client ← load_client_cert keychain s
      fetch_fingerprint_with_certs url ca_pem client
