-- ===== src/Daemon/Config/Validity.antt =====
-- When a configuration of the daemon is accepted, after daemon/src/config.rs.
use brewmble.Prelude.{
  Bool, List, Option, Text, [], arith, false, is_empty, none, ok, refl, some, suc, true, ℕ, ◌++◌,
  ◌↔◌, ◌∷◌, ◌≡◌, ◌≤◌, some-injective, subst,
}
use brewmble.Daemon.Config.{
  TlsConfig, DaemonConfig, ValidationReport, empty_report, is_valid, push_error, push_warning, Leaf,
  Host, check_port, certificate_error, key_error, warn_mode, report_file, report_key, check_tls,
  check_dates, check_usage, leaf_of, check_parsed, check_leaf, validate_config, ensure_valid_config,
}

push_error-invalid : (e : Text) (r : ValidationReport) → is_valid (push_error e r) ≡ false
unfolding push_error
push_error-invalid e r = at_end r.errors
  where
    at_end : (es : List Text) → is_empty (es ++ (e ∷ [])) ≡ false
    at_end [] = refl
    at_end (x ∷ es) = refl

push_warning-valid : (w : Text) (r : ValidationReport) → is_valid (push_warning w r) ≡ is_valid r
unfolding push_warning
push_warning-valid w r = refl

module _ (host : Host) where
  pub record HasCertificates (path : Text) : Type 0 where
    pub pem : Text
    pub count : ℕ
    pub present : host.exists path ≡ true
    pub readable : host.read path ≡ ok pem
    pub certified : host.certificates pem ≡ ok (suc count)

  pub record HasKey (path : Text) : Type 0 where
    pub pem : Text
    pub present : host.exists path ≡ true
    pub readable : host.read path ≡ ok pem
    pub keyed : host.private_key pem ≡ ok true

  -- A leaf that serves now.
  pub record IsCurrent (leaf : Leaf) : Type 0 where
    pub started : leaf.not_before ≤ host.now
    pub unexpired : host.now ≤ leaf.not_after
    pub server : leaf.server_auth ≡ true

  pub record IsServable (config : DaemonConfig) : Type 0 where
    pub port : ¬ (config.server.port ≡ some 0)
    pub ca_cert : HasCertificates config.tls.ca_cert
    pub cert : HasCertificates config.tls.cert
    pub key : HasKey config.tls.key
    pub loads : host.load_tls_config config.tls ≡ ok tt
    pub leaf : (leaf : Leaf) → leaf_of host config.tls.cert ≡ some leaf → IsCurrent leaf

  check_port-valid :
      (p : Option ℕ) (r : ValidationReport)
      → is_valid (check_port host p r) ≡ true ↔ (is_valid r ≡ true) × ¬ (p ≡ some 0)
  unfolding check_port
  check_port-valid p r = grind (arith, push_error-invalid, push_warning-valid)

  certificate_error-none : (path : Text) → certificate_error host path ≡ none ↔ HasCertificates path
  unfolding certificate_error
  certificate_error-none path = grind (arith, push_error-invalid, push_warning-valid)

  key_error-none : (path : Text) → key_error host path ≡ none ↔ HasKey path
  unfolding key_error
  key_error-none path = grind (arith, push_error-invalid, push_warning-valid)

  report_file-valid :
      (what path : Text) (e : Option Text) (r : ValidationReport)
      → is_valid (report_file host what path e r) ≡ true ↔ (is_valid r ≡ true) × (e ≡ none)
  report_file-valid what path none r = grind (arith, push_error-invalid, push_warning-valid)
  report_file-valid what path (some how) r = grind (arith, push_error-invalid, push_warning-valid)

  warn_mode-valid :
      (path : Text) (mode : Option ℕ) (r : ValidationReport)
      → is_valid (warn_mode host path mode r) ≡ is_valid r
  unfolding warn_mode
  warn_mode-valid path mode r = grind (arith, push_error-invalid, push_warning-valid)

  report_key-valid :
      (path : Text) (e : Option Text) (r : ValidationReport)
      → is_valid (report_key host path e r) ≡ true ↔ (is_valid r ≡ true) × (e ≡ none)
  report_key-valid path none r = ground (arith, warn_mode-valid path (host.mode path) r)
  report_key-valid path (some how) r = grind (arith, push_error-invalid, push_warning-valid)

  check_tls-valid :
      (tls : TlsConfig) (r : ValidationReport)
      → is_valid (check_tls host tls r) ≡ true
        ↔ (is_valid r ≡ true) × (host.load_tls_config tls ≡ ok tt)
  unfolding check_tls
  check_tls-valid tls r = grind (arith, push_error-invalid, push_warning-valid)

  check_dates-valid :
      (leaf : Leaf) (r : ValidationReport)
      → is_valid (check_dates host leaf r) ≡ true
        ↔ (is_valid r ≡ true) × (leaf.not_before ≤ host.now) × (host.now ≤ leaf.not_after)
  unfolding check_dates
  check_dates-valid leaf r = grind (arith, push_error-invalid, push_warning-valid)

  check_usage-valid :
      (leaf : Leaf) (r : ValidationReport)
      → is_valid (check_usage host leaf r) ≡ true ↔ (is_valid r ≡ true) × (leaf.server_auth ≡ true)
  unfolding check_usage
  check_usage-valid leaf r = grind (arith, push_error-invalid, push_warning-valid)

  check_parsed-valid :
      (leaf : Option Leaf) (r : ValidationReport)
      → is_valid (check_parsed host leaf r) ≡ true
        ↔ (is_valid r ≡ true) × ((l : Leaf) → leaf ≡ some l → IsCurrent l)
  check_parsed-valid none r = (λ h. (h, λ l e. absurd (ground arith)), λ h. h.0)
  check_parsed-valid (some leaf) r = (forth, back)
    where
      forth :
          is_valid (check_usage host leaf (check_dates host leaf r)) ≡ true
          → (is_valid r ≡ true) × ((l : Leaf) → some leaf ≡ some l → IsCurrent l)
      forth h =
          let (a, u) = (check_usage-valid leaf (check_dates host leaf r)).0 h in
          let (v, s, x) = (check_dates-valid leaf r).0 a in
          (
            v,
            λ l e.
                subst IsCurrent (some-injective _ _ e)
                  (record { started = s; unexpired = x; server = u }),
          )

      back :
          (is_valid r ≡ true) × ((l : Leaf) → some leaf ≡ some l → IsCurrent l)
          → is_valid (check_usage host leaf (check_dates host leaf r)) ≡ true
      back (v, current) =
          let c = current leaf refl in
          (check_usage-valid leaf (check_dates host leaf r)).1
            ((check_dates-valid leaf r).1 (v, c.started, c.unexpired), c.server)

  check_leaf_checks :
      (path : Text) (r : ValidationReport)
      → (is_valid r ≡ true → check_leaf host path r ≡ check_parsed host (leaf_of host path) r)
        × (is_valid r ≡ false → check_leaf host path r ≡ r)
  unfolding check_leaf
  check_leaf_checks path r = (λ e. rw e refl, λ e. rw e refl)

  pub check_leaf-valid :
      (path : Text) (r : ValidationReport)
      → is_valid (check_leaf host path r) ≡ true
        ↔ (is_valid r ≡ true) × ((l : Leaf) → leaf_of host path ≡ some l → IsCurrent l)
  check_leaf-valid path r = by_validity (is_valid r) refl
    where
      by_validity :
          (b : Bool)
          → is_valid r ≡ b
          → is_valid (check_leaf host path r) ≡ true
            ↔ (is_valid r ≡ true) × ((l : Leaf) → leaf_of host path ≡ some l → IsCurrent l)
      by_validity true e =
          rw ((check_leaf_checks path r).0 e) (check_parsed-valid (leaf_of host path) r)
      by_validity false e =
          rw ((check_leaf_checks path r).1 e)
            (λ h. absurd (ground arith), λ h. absurd (ground arith))

  validate_config_iff :
      (config : DaemonConfig) → is_valid (validate_config host config) ≡ true ↔ IsServable config
  unfolding validate_config
  validate_config_iff config = (forth, back)
    where
      forth : is_valid (validate_config host config) ≡ true → IsServable config
      forth h =
          let (h5, leaf) = (check_leaf-valid config.tls.cert _).0 h in
          let (h4, loads) = (check_tls-valid config.tls _).0 h5 in
          let (h3, key) = (report_key-valid config.tls.key _ _).0 h4 in
          let (h2, cert) = (report_file-valid _ config.tls.cert _ _).0 h3 in
          let (h1, ca) = (report_file-valid _ config.tls.ca_cert _ _).0 h2 in
          record {
            port = ((check_port-valid config.server.port empty_report).0 h1).1;
            ca_cert = (certificate_error-none config.tls.ca_cert).0 ca;
            cert = (certificate_error-none config.tls.cert).0 cert;
            key = (key_error-none config.tls.key).0 key;
            loads = loads;
            leaf = leaf;
          }

      back : IsServable config → is_valid (validate_config host config) ≡ true
      back s = (check_leaf-valid config.tls.cert _).1 (
        (check_tls-valid config.tls _).1 (
          (report_key-valid config.tls.key _ _).1 (
            (report_file-valid _ config.tls.cert _ _).1 (
              (report_file-valid _ config.tls.ca_cert _ _).1 (
                (check_port-valid config.server.port empty_report).1 (refl, s.port),
                (certificate_error-none config.tls.ca_cert).1 s.ca_cert,
              ),
              (certificate_error-none config.tls.cert).1 s.cert,
            ),
            (key_error-none config.tls.key).1 s.key,
          ),
          s.loads,
        ),
        s.leaf,
      )

  -- A configuration is accepted exactly if its port is not 0, its files hold certificates and a key
  -- and can be loaded together, and the leaf certificate, if it can be read, has started, has not
  -- expired and is for servers; permissions and a near expiry only warn.
  pub ensure_valid_config_iff :
      (config : DaemonConfig) → ensure_valid_config host config ≡ ok tt ↔ IsServable config
  unfolding ensure_valid_config
  ensure_valid_config_iff config =
      let (f, g) = validate_config_iff config in
      (λ h. f (ground arith), λ s. let e = g s in ground arith)
