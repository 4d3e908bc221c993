-- ===== src/Cli/Tests/Keys.antt =====
-- The commands on the authority and on certificates at concrete inputs: a keyring is a dictionary.
use brewmble.Prelude.{
  inl, if◌then◌else◌, arith, All, List, Option, Result, Text, [], decimal, eq_text, eq_text_refl,
  err, false, hex_byte, hex_digit, is_whitespace, lit, none, ok, refl, some, suc, trim, trim_end_by,
  trim_start_by, true, zero, ℕ, ◌∷◌, ◌<◌, ◌≡◌, ◌++◌,
}
use brewmble.Prelude.Dict.{contains_key, Dict, get, insert, remove, get-insert, get-remove}
use brewmble.Prelude.Exec.{Exec}
use brewmble.Cli.Ca.{
  CredentialStore, LegacyStore, LeafKind, daemon, IsStore, account_ca_cert, account_ca_key,
  ensure_ca_with_store, store_ca,
}
use brewmble.Cli.Ca.Legacy.{hex_text}
use brewmble.Cli.Authority.{init_ca}
use brewmble.Cli.Authority.Init.{Clears, IsDelete, init_ca_forced_keeps, init_ca_renews}
use brewmble.Cli.Certificates.{Files, Machine, issue, run_cert}
use brewmble.Cli.Certificates.Issued.{IsTaken, ca_output, file, run_cert_keeps}
use brewmble.Cli.Pin.{format_fingerprint}
use brewmble.Cli.Pin.Fetching.{
  Connection, answered, broken, fetch_from, try_fetch_at_address, handshake, verify_server_cert,
}
use brewmble.Cli.Pin.Accepted.{IsShown, fetch_from-IsShown}

abbrev pub Keys : Type 0
Keys = Dict Text

abbrev pub keychain : CredentialStore Keys
keychain = record {
  fetch = λ s account. ok (get account s);
  store = λ account value s. (ok tt, insert account value s);
}

abbrev pub nothing_legacy : LegacyStore Keys
nothing_legacy = record { read = λ s account. ok none; delete = λ account s. (ok tt, s) }

pub keychain-IsStore : IsStore keychain nothing_legacy
keychain-IsStore = record {
  fetch-store = λ account value s h. simp (get-insert, eq_text_refl);
  fetch-store_other = λ account other value s h. rw (get-insert account other value s, h) refl;
  fetch-delete = λ account other s h. refl;
}

-- A deletion of what is not there is an error.
abbrev pub deletes : Text → Exec Keys (Unit {0})
deletes account s =
    if contains_key account s then (ok tt, remove account s) else (err (lit "NoEntry"), s)

deletes-IsDelete : IsDelete keychain deletes
deletes-IsDelete = record {
  fetch-delete = λ account s h. ground (arith, get-remove account account s, eq_text_refl account);
  fetch-delete_absent = λ account s h. ground (arith, get-remove account account s);
  fetch-delete_other = λ account other s h. ground (arith, get-remove account other s);
}

abbrev old_keys : Keys
old_keys = (account_ca_cert, lit "OLD") ∷ (account_ca_key, lit "OLD KEY") ∷ []

abbrev pub generated : Result Text (Text × Text)
generated = ok (lit "NEW", lit "NEW KEY")

abbrev pub fingerprint : Text → Result Text Text
fingerprint cert = ok cert

abbrev renewed : List Text
renewed =
    lit "Cluster CA created."
    ∷ lit "  CN:   brewmble-cluster-ca"
    ∷ lit "  Days: 3650"
    ∷ lit "  SHA256 fingerprint: NEW"
    ∷ []

renews : (init_ca keychain deletes generated fingerprint true old_keys).0 ≡ ok renewed
unfolding init_ca ensure_ca_with_store store_ca get insert remove eq_text lit decimal
renews = refl

cert_cleared : Clears keychain deletes generated fingerprint account_ca_cert old_keys
unfolding get eq_text lit
cert_cleared = inl refl

key_cleared :
    Clears keychain deletes generated fingerprint account_ca_key
      (deletes account_ca_cert old_keys).1
unfolding get remove eq_text lit
key_cleared = inl refl

init_ca_renews_example :
    let s' = (init_ca keychain deletes generated fingerprint true old_keys).1 in
    (pair : Text × Text) × (generated ≡ ok pair)
    × (keychain.fetch s' account_ca_cert ≡ ok (some pair.0))
    × (keychain.fetch s' account_ca_key ≡ ok (some pair.1))
init_ca_renews_example =
    init_ca_renews keychain deletes generated fingerprint nothing_legacy old_keys renewed
      keychain-IsStore deletes-IsDelete cert_cleared key_cleared renews

-- A keyring that is locked deletes nothing.
abbrev locked : Text → Exec Keys (Unit {0})
locked account s = (err (lit "keyring is locked"), s)

old_cert : keychain.fetch old_keys account_ca_cert ≡ ok (some (lit "OLD"))
unfolding get eq_text lit
old_cert = refl

old_key : keychain.fetch old_keys account_ca_key ≡ ok (some (lit "OLD KEY"))
unfolding get eq_text lit
old_key = refl

init_ca_forced_keeps_example :
    (printed : List Text) × (init_ca keychain locked generated fingerprint true old_keys
      ≡ (ok (lit "Cluster CA created." ∷ printed), old_keys))
init_ca_forced_keeps_example =
    init_ca_forced_keeps keychain locked generated fingerprint old_keys (lit "OLD") (lit "OLD KEY")
      (lit "OLD") (λ account. refl) old_cert old_key refl

abbrev pub files : Files
files = record {
  create_dir_all = λ p. ok tt;
  write = λ p. ok tt;
  partial = λ p content. none;
  metadata = λ p. ok tt;
  set_permissions = λ p. ok tt;
  join_path = λ dir name. dir ++ (lit "/" ++ name);
}

abbrev pub machine : Machine Keys
machine = record { stores = old_keys; disk = (lit "/out/ca.pem", lit "OLD") ∷ []; modes = [] }

abbrev pub leaf_of : Text → LeafKind → Text → Text → Result Text (Text × Text)
leaf_of cn kind cert key = ok (cn, key)

out-IsTaken :
    IsTaken keychain files generated leaf_of fingerprint
      (lit "host")
      machine
      daemon
      (some (lit "/out"))
unfolding get eq_text lit
out-IsTaken = file (lit "/out") (lit "/out/ca.pem") (lit "OLD") ca_output refl

run_cert_keeps_example :
    (e : Text) × (run_cert keychain files generated leaf_of fingerprint
        (lit "host")
        (issue daemon (some (lit "node1")) (some (lit "/out")) false)
        machine
      ≡ (err e, machine))
run_cert_keeps_example =
    run_cert_keeps keychain files generated leaf_of fingerprint (lit "host") daemon
      (some (lit "node1")) (some (lit "/out")) machine out-IsTaken

-- Twenty letters.
abbrev letters : ℕ → List ℕ
letters zero = []
letters (suc n) = 65 ∷ letters n

letters_bytes : (n : ℕ) → All (λ b. b < 256) (letters n)
letters_bytes zero = tt
letters_bytes (suc n) = (omega arith, letters_bytes n)

abbrev ascii : List ℕ → Option Text
ascii bs = some bs

letters_trimmed : trim (hex_text (letters 20) ++ lit "\n") ≡ hex_text (letters 20)
unfolding hex_byte hex_digit lit trim_start_by trim_end_by is_whitespace
letters_trimmed = refl

-- The first connection breaks after its certificate was shown; the second one is answered.
abbrev connections : List Connection
connections =
    record { connect = ok tt; shown = some (lit "A"); exchange = broken (lit "reset") }
    ∷ record { connect = ok tt; shown = some (lit "B"); exchange = answered }
    ∷ []

abbrev digest : Text → List ℕ
digest der = 171 ∷ []

abbrev accepts : Text → Result Text (Unit {0})
accepts leaf = ok tt

fetched :
    fetch_from accepts digest (lit "60s") connections none none
    ≡ ok (format_fingerprint digest (lit "B"))
unfolding fetch_from try_fetch_at_address handshake verify_server_cert
fetched = refl

fetch_from-IsShown_example :
    (leaf : Text) × (format_fingerprint digest (lit "B") ≡ format_fingerprint digest leaf)
    × (accepts leaf ≡ ok tt)
    × IsShown leaf connections
fetch_from-IsShown_example =
    fetch_from-IsShown accepts digest (lit "60s") connections (format_fingerprint digest (lit "B"))
      fetched
