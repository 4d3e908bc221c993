-- ===== src/Cli/Pin.antt =====
-- cli/src/pin.rs: the check of a node's certificate against the stored fingerprint. The digest and
-- the TLS connection are parameters.
pub mod Fingerprint
pub mod Checks
pub mod Fetching
pub mod Accepted
use brewmble.Prelude.{
  ◌>>=◌, List, Option, Result, Text, eq_ignore_ascii_case, err, hex_byte, if◌then◌else◌, join, lit,
  map, none, ok, some, ℕ, ◌++◌,
}
use brewmble.Cli.Config.{NodeConfig}

-- The digest's bytes in hexadecimal, two digits each, joined by colons.
unfoldable pub format_bytes : List ℕ → Text
format_bytes bytes = join (lit ":") (map hex_byte bytes)

unfoldable pub format_fingerprint : (Text → List ℕ) → Text → Text
unfolding format_bytes
format_fingerprint sha256 der = format_bytes (sha256 der)

pub data PinOutcome : Type 0 where
  learned : Text → PinOutcome
  matched : PinOutcome

abbrev pub or_address : Option Text → Text → Text
or_address none address = address
or_address (some name) address = name

abbrev pub node_name : NodeConfig → Text
node_name node = or_address node.name node.address

unfoldable pub mismatch : NodeConfig → Text → Text → Text
mismatch node expected observed =
    lit "fingerprint mismatch for "
    ++ (node_name node
        ++ (lit ": expected "
            ++ (expected
                ++ (lit ", got "
                    ++ (observed
                        ++ (lit "; run 'brewmble node --repin "
                            ++ (node_name node ++ lit "' to accept the new identity")))))))

abbrev compare_pin : NodeConfig → Option Text → Text → Result Text PinOutcome
compare_pin node none observed = ok (learned observed)
compare_pin node (some expected) observed =
    if eq_ignore_ascii_case expected observed
    then ok matched
    else err (mismatch node expected observed)

-- `check_pin_with_fetcher`, with `resolve_url` and the fetch of the fingerprint.
unfoldable pub check_pin_with_fetcher :
    (Text → Text) → NodeConfig → Text → (Text → Result Text Text) → Result Text PinOutcome
check_pin_with_fetcher resolve_url node address fetch = do
  observed ← fetch (resolve_url address)
  compare_pin node node.fingerprint observed
