-- ===== src/Cli/Pin/Accepted.antt =====
-- Which certificate a fingerprint of cli/src/pin.rs is of.
use brewmble.Prelude.{
  Option-cases, Result-cases, List, Option, Result, Text, [], ◌∷◌, ok, some, none, ℕ, ◌≡◌, arith,
  ◌⊎◌, inl, inr, kept,
}
use brewmble.Cli.Pin.{format_fingerprint}
use brewmble.Cli.Pin.Fetching.{
  Connection, verify_server_cert, handshake, try_fetch_at_address, fetch_from,
}

-- The certificate was shown on one of the connections.
abbrev pub IsShown : Text → List Connection → Type 0
IsShown leaf [] = ⊥
IsShown leaf (c ∷ cs) = (c.shown ≡ some leaf) ⊎ IsShown leaf cs

module _ (verify : Text → Result Text (Unit {0})) (sha256 : Text → List ℕ) (timed_out : Text) where
  -- A certificate that is kept after an attempt was kept before, or was shown in it and accepted.
  try_fetch-kept :
      (c : Connection) (kept : Option Text) (leaf : Text)
      → (try_fetch_at_address verify sha256 timed_out c kept).1 ≡ some leaf
      → ((verify leaf ≡ ok tt) × (c.shown ≡ some leaf)) ⊎ (kept ≡ some leaf)
  unfolding try_fetch_at_address handshake verify_server_cert
  try_fetch-kept c kept leaf h = ground arith

  try_fetch-of :
      (c : Connection) (kept : Option Text) (fp : Text)
      → (try_fetch_at_address verify sha256 timed_out c kept).0 ≡ ok fp
      → (leaf : Text) × (fp ≡ format_fingerprint sha256 leaf)
        × (((verify leaf ≡ ok tt) × (c.shown ≡ some leaf)) ⊎ (kept ≡ some leaf))
  unfolding try_fetch_at_address handshake verify_server_cert
  try_fetch-of c kept fp h = elim (Option-cases (handshake verify c.shown c.exchange kept).1) [
    | inl e ↦ absurd (ground arith)
    | inr (leaf, e) ↦ (leaf, ground arith, ground arith)
  ]

  fetch_from-of :
      (cs : List Connection) (last_err kept : Option Text) (fp : Text)
      → fetch_from verify sha256 timed_out cs last_err kept ≡ ok fp
      → (leaf : Text) × (fp ≡ format_fingerprint sha256 leaf)
        × (((verify leaf ≡ ok tt) × IsShown leaf cs) ⊎ (kept ≡ some leaf))
  unfolding fetch_from
  fetch_from-of [] last_err kept fp h =
      absurd (elim last_err [ none ↦ ground arith | some x ↦ ground arith ])
  fetch_from-of (c ∷ cs) last_err kept fp h =
      elim (Result-cases (try_fetch_at_address verify sha256 timed_out c kept).0) [
        | inl (got, e) ↦
            let (leaf, f, g) = try_fetch-of c kept got e in (leaf, ground arith, ground arith)
        | inr (x, e) ↦
            let (leaf, f, g) =
              fetch_from-of cs (some x) (try_fetch_at_address verify sha256 timed_out c kept).1 fp
                (ground arith) in
            let k = try_fetch-kept c kept leaf in (leaf, f, ground arith)
      ]

  -- A fingerprint that is fetched is that of a certificate that a server showed on a connection to
  -- one of the addresses, and that the verifier accepted, whatever broke on the others.
  pub fetch_from-IsShown :
      (cs : List Connection) (fp : Text)
      → fetch_from verify sha256 timed_out cs none none ≡ ok fp
      → (leaf : Text) × (fp ≡ format_fingerprint sha256 leaf)
        × (verify leaf ≡ ok tt)
        × IsShown leaf cs
  fetch_from-IsShown cs fp h =
      let (leaf, f, g) = fetch_from-of cs none none fp h in (leaf, f, ground arith, ground arith)
