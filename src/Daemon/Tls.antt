-- ===== src/Daemon/Tls.antt =====
-- `load_tls_config` of daemon/src/main.rs. The files and the readers of the libraries rustls and
-- rustls_pemfile are parameters; a certificate and a key are texts here.
use brewmble.Prelude.{
  List, Option, Result, Text, [], err, is_empty, lit, none, ok, some, ◌++◌, ◌>>=◌, ◌∷◌, ◌≡◌, arith,
  refl, bind-ok, Result-cases, inl, inr, false,
}

pub record TlsLibrary : Type 0 where
  pub read : Text → Result Text Text
  pub certificates : Text → Result Text (List Text)
  pub private_key : Text → Result Text (Option Text)
  pub add_root : Text → Result Text (Unit {0})
  pub build_verifier : List Text → Result Text (Unit {0})
  pub with_single_cert : List Text → Text → Result Text (Unit {0})

-- The certificates that a client's certificate is verified against, the daemon's own chain and key,
-- and the protocols of the layer above.
pub record ServerConfig : Type 0 where
  pub roots : List Text
  pub chain : List Text
  pub key : Text
  pub alpn_protocols : List Text

abbrev replace_err : {A : Type 0} → Text → Result Text A → Result Text A
replace_err before (ok a) = ok a
replace_err before (err e) = err (before ++ e)

abbrev read_error : Text → Text → Text
read_error what path = lit "failed to read " ++ (what ++ (lit " file '" ++ (path ++ lit "': ")))

abbrev first_of : List Text → Result Text Text
first_of [] = err (lit "CA cert file is empty")
first_of (c ∷ cs) = ok c

abbrev some_certificate : List Text → Result Text (List Text)
some_certificate [] = err (lit "daemon cert file is empty")
some_certificate (c ∷ cs) = ok (c ∷ cs)

abbrev some_key : Option Text → Result Text Text
some_key none = err (lit "daemon key file is empty or unparseable")
some_key (some key) = ok key

abbrev pub server_config : Text → List Text → Text → ServerConfig
server_config root chain key = record {
  roots = root ∷ [];
  chain = chain;
  key = key;
  alpn_protocols = lit "h2" ∷ lit "http/1.1" ∷ [];
}

module _ (tls : TlsLibrary) where
  abbrev read_pem : Text → Text → Result Text Text
  read_pem what path = replace_err (read_error what path) (tls.read path)

  -- The first certificate of the authority's file.
  unfoldable pub load_root : Text → Result Text Text
  load_root ca_pem = do
    ca_certs ← replace_err (lit "failed to parse CA cert: ") (tls.certificates ca_pem)
    ca_cert ← first_of ca_certs
    _ ← tls.add_root ca_cert
    ok ca_cert

  unfoldable pub load_chain : Text → Result Text (List Text)
  load_chain cert_pem = do
    certs ← replace_err (lit "failed to parse daemon cert: ") (tls.certificates cert_pem)
    some_certificate certs

  unfoldable pub load_key : Text → Result Text Text
  load_key key_pem = do key ← tls.private_key key_pem; some_key key

  abbrev built : Text → List Text → Text → Result Text ServerConfig
  built root chain key = do
    _ ← tls.build_verifier (root ∷ [])
    _ ← tls.with_single_cert chain key
    ok (server_config root chain key)

  unfoldable pub load_parts : Text → Text → Text → Result Text ServerConfig
  unfolding load_root load_chain load_key
  load_parts ca_pem cert_pem key_pem = do
    root ← load_root ca_pem
    chain ← load_chain cert_pem
    key ← load_key key_pem
    built root chain key

  unfoldable pub load_tls_config : Text → Text → Text → Result Text ServerConfig
  unfolding load_parts
  load_tls_config ca_path cert_path key_path = do
    ca_pem ← read_pem (lit "CA cert") ca_path
    cert_pem ← read_pem (lit "daemon cert") cert_path
    key_pem ← read_pem (lit "daemon key") key_path
    load_parts ca_pem cert_pem key_pem

  -- What a configuration that was made of three texts stands on.
  pub record IsMade (ca_pem cert_pem key_pem : Text) (config : ServerConfig) : Type 0 where
    pub root : Text
    pub others : List Text
    pub ca_certificates : tls.certificates ca_pem ≡ ok (root ∷ others)
    pub roots : config.roots ≡ root ∷ []
    pub chain : tls.certificates cert_pem ≡ ok config.chain
    pub some_chain : is_empty config.chain ≡ false
    pub key : tls.private_key key_pem ≡ ok (some config.key)

  -- The three files are read, and a configuration is made of their texts.
  pub record IsLoaded (ca_path cert_path key_path : Text) (config : ServerConfig) : Type 0 where
    pub ca_pem : Text
    pub cert_pem : Text
    pub key_pem : Text
    pub read_ca : tls.read ca_path ≡ ok ca_pem
    pub read_cert : tls.read cert_path ≡ ok cert_pem
    pub read_key : tls.read key_path ≡ ok key_pem
    pub made : IsMade ca_pem cert_pem key_pem config

replace_err-ok :
    {A : Type 0} (before : Text) (r : Result Text A) (a : A)
    → replace_err before r ≡ ok a
    → r ≡ ok a
replace_err-ok before (ok b) a h = h
replace_err-ok before (err e) a h = absurd (ground arith)

first_of-ok : (cs : List Text) (c : Text) → first_of cs ≡ ok c → (ds : List Text) × (cs ≡ c ∷ ds)
first_of-ok [] c h = absurd (ground arith)
first_of-ok (d ∷ ds) c h = (ds, ground arith)

some_certificate-ok :
    (cs ds : List Text) → some_certificate cs ≡ ok ds → (cs ≡ ds) × (is_empty ds ≡ false)
some_certificate-ok [] ds h = absurd (ground arith)
some_certificate-ok (c ∷ cs) ds h = ground arith

some_key-ok : (k : Option Text) (key : Text) → some_key k ≡ ok key → k ≡ some key
some_key-ok none key h = absurd (ground arith)
some_key-ok (some k) key h = ground arith

module _ (tls : TlsLibrary) where
  load_root-of :
      (pem root : Text) (certs : List Text)
      → tls.certificates pem ≡ ok certs
      → load_root tls pem ≡ ok root
      → (others : List Text) × (tls.certificates pem ≡ ok (root ∷ others))
  unfolding load_root
  load_root-of pem root [] e h = absurd (ground arith)
  load_root-of pem root (c ∷ cs) e h = (cs, ground arith)

  load_root-ok :
      (pem root : Text)
      → load_root tls pem ≡ ok root
      → (others : List Text) × (tls.certificates pem ≡ ok (root ∷ others))
  unfolding load_root
  load_root-ok pem root h = elim (Result-cases (tls.certificates pem)) [
    | inl (certs, e) ↦ load_root-of pem root certs e h
    | inr (x, e) ↦ absurd (ground arith)
  ]

  load_chain-ok :
      (pem : Text) (chain : List Text)
      → load_chain tls pem ≡ ok chain
      → (tls.certificates pem ≡ ok chain) × (is_empty chain ≡ false)
  unfolding load_chain
  load_chain-ok pem chain h =
      let (certs, e, k) = bind-ok _ _ chain h in
      let (same, non_empty) = some_certificate-ok certs chain k in
      (
        rw same at
            (replace_err-ok (lit "failed to parse daemon cert: ") (tls.certificates pem) certs e),
        non_empty,
      )

  load_key-ok : (pem key : Text) → load_key tls pem ≡ ok key → tls.private_key pem ≡ ok (some key)
  unfolding load_key
  load_key-ok pem key h = ground arith

  built-ok :
      (root : Text) (chain : List Text) (key : Text) (config : ServerConfig)
      → built tls root chain key ≡ ok config
      → server_config root chain key ≡ config
  built-ok root chain key config h = ground arith

  parts-IsMade :
      (ca_pem cert_pem key_pem root : Text) (chain : List Text) (key : Text) (config : ServerConfig)
      → load_root tls ca_pem ≡ ok root
      → load_chain tls cert_pem ≡ ok chain
      → load_key tls key_pem ≡ ok key
      → server_config root chain key ≡ config
      → IsMade tls ca_pem cert_pem key_pem config
  parts-IsMade ca_pem cert_pem key_pem root chain key config e1 e2 e3 made =
      let (others, first) = load_root-ok ca_pem root e1 in
      let (certs, non_empty) = load_chain-ok cert_pem chain e2 in
      record {
        root = root;
        others = others;
        ca_certificates = first;
        roots = rw (← made) refl;
        chain = rw (← made) certs;
        some_chain = rw (← made) non_empty;
        key = rw (← made) (load_key-ok key_pem key e3);
      }

  load_parts-IsMade :
      (ca_pem cert_pem key_pem : Text) (config : ServerConfig)
      → load_parts tls ca_pem cert_pem key_pem ≡ ok config
      → IsMade tls ca_pem cert_pem key_pem config
  unfolding load_parts
  load_parts-IsMade ca_pem cert_pem key_pem config h =
      let (root, e1, h1) = bind-ok _ _ config h in
      let (chain, e2, h2) = bind-ok _ _ config h1 in
      let (key, e3, h3) = bind-ok _ _ config h2 in
      parts-IsMade ca_pem cert_pem key_pem root chain key config e1 e2 e3
        (built-ok root chain key config h3)

  -- A configuration that is loaded trusts the first certificate of the authority's file and no
  -- other, and has the daemon's certificates, of which there is one, and its key as the files hold
  -- them.
  pub load_tls_config-IsLoaded :
      (ca_path cert_path key_path : Text) (config : ServerConfig)
      → load_tls_config tls ca_path cert_path key_path ≡ ok config
      → IsLoaded tls ca_path cert_path key_path config
  unfolding load_tls_config
  load_tls_config-IsLoaded ca_path cert_path key_path config h =
      let (ca_pem, e1, h1) = bind-ok _ _ config h in
      let (cert_pem, e2, h2) = bind-ok _ _ config h1 in
      let (key_pem, e3, h3) = bind-ok _ _ config h2 in
      record {
        ca_pem = ca_pem;
        cert_pem = cert_pem;
        key_pem = key_pem;
        read_ca = replace_err-ok (read_error (lit "CA cert") ca_path) (tls.read ca_path) ca_pem e1;
        read_cert =
            replace_err-ok (read_error (lit "daemon cert") cert_path) (tls.read cert_path) cert_pem
              e2;
        read_key =
            replace_err-ok (read_error (lit "daemon key") key_path) (tls.read key_path) key_pem e3;
        made = load_parts-IsMade ca_pem cert_pem key_pem config h3;
      }
