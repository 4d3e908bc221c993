-- ===== src/Announced.antt =====
-- What the CLI shows of a daemon that has announced itself: daemon/src/main.rs and cli/src/main.rs
-- together. That the network carries an announcement unchanged, and that a service's full name is
-- its instance name in front of its type, is the library's, which `Carries` states.
use brewmble.Prelude.{
  ◌==◌, split_by, split_on, cons_head, ℕ, Text, lit, List, [], ◌∷◌, ◌++◌, Option, none, some, ◌≡◌,
  refl, arith, strip_prefix, strip_suffix, eq_text, eq_text_refl, eq_text_iff, Bool, Bool-cases, ap,
  false, inl, inr, is_empty, length, length-append, trim_end_by, All-append, trim_end_matches,
}
use brewmble.Rest.{service_full_type, txt_tls_value}
use brewmble.Daemon.Announce.{
  register_mdns_info, first_or, Mdns, ServiceInfo, service_info, instance_hostname, mdns_host_name,
  mdns_properties, register_mdns,
}
use brewmble.Cli.Sanitize.{
  sanitize_display-IsClean, is_control, sanitize_display, IsClean, sanitize_display_of_IsClean,
}
use brewmble.Cli.Discover.{
  service_name, ResolvedService, clean_node_id, entry_id, entry_tls, entry_instance, entry_host,
}

-- A service as another host resolves it from an announcement.
pub record Carries (info : ServiceInfo) (s : ResolvedService) : Type 0 where
  pub fullname : s.fullname ≡ info.instance_name ++ (lit "." ++ info.service_type)
  pub host : s.host ≡ info.host_name
  pub port : s.port ≡ info.port
  pub properties : s.txt_properties ≡ info.properties

longer : (p : Text) (c : ℕ) (s : Text) → eq_text p (c ∷ (s ++ p)) ≡ false
longer p c s = elim (Bool-cases (eq_text p (c ∷ (s ++ p)))) [
  | inl e ↦
      let lengths : length p ≡ length (c ∷ (s ++ p)) =
        ap length ((eq_text_iff p (c ∷ (s ++ p))).0 e) in
      absurd (omega (arith, length-append s p))
  | inr e ↦ e
]

strip_suffix-append : (s p : Text) → strip_suffix p (s ++ p) ≡ some s
unfolding strip_suffix
strip_suffix-append [] [] = refl
strip_suffix-append [] (c ∷ p) = rw (eq_text_refl (c ∷ p)) refl
strip_suffix-append (c ∷ s) p = rw (longer p c s, strip_suffix-append s p) refl

append_some : (s t : Text) → is_empty t ≡ false → is_empty (s ++ t) ≡ false
append_some [] t h = h
append_some (c ∷ s) t h = refl

trim_end_by-append :
    (test : ℕ → Bool) (s t : Text)
    → is_empty (trim_end_by test t) ≡ false
    → trim_end_by test (s ++ t) ≡ s ++ trim_end_by test t
unfolding trim_end_by
trim_end_by-append test [] t h = refl
trim_end_by-append test (c ∷ s) t h =
    rw (trim_end_by-append test s t h) (ground (arith, append_some s (trim_end_by test t)))

-- The first label of a hostname without control characters has none either.
cons_head-IsClean :
    (c : ℕ) (ps : List Text) (t : Text)
    → is_control c ≡ false
    → IsClean (first_or [] ps)
    → IsClean (first_or t (cons_head c ps))
cons_head-IsClean c [] t h k = (h, tt)
cons_head-IsClean c (p ∷ ps) t h k = (h, k)

first_part-IsClean : (sep : ℕ) (t s : Text) → IsClean s → IsClean (first_or t (split_on sep s))
unfolding split_by
first_part-IsClean sep t [] h = tt
first_part-IsClean sep t (c ∷ s) h = elim (Bool-cases (c == sep)) [
  | inl e ↦ rw e tt
  | inr e ↦ rw e (cons_head-IsClean c (split_on sep s) t h.0 (first_part-IsClean sep [] s h.1))
]

first_label-IsClean : (hostname : Text) → IsClean hostname → IsClean (instance_hostname hostname)
unfolding instance_hostname
first_label-IsClean hostname h = first_part-IsClean b'.' hostname hostname h

shown_id :
    (s : ResolvedService) (hostname : Text)
    → s.txt_properties ≡ mdns_properties hostname
    → IsClean hostname
    → strip_prefix (lit "id=") hostname ≡ none
    → (entry_id s ≡ hostname) × (entry_tls s ≡ txt_tls_value)
unfolding entry_id entry_tls mdns_properties clean_node_id lit eq_text sanitize_display
shown_id s hostname e clean h = rw (e, h, sanitize_display_of_IsClean hostname clean) (refl, refl)

service_name_full : service_name ≡ service_full_type
unfolding lit trim_end_by
service_name_full = refl

shown_instance :
    (s : ResolvedService) (label : Text)
    → s.fullname ≡ (lit "brewmbled-" ++ label) ++ (lit "." ++ service_full_type)
    → IsClean label
    → entry_instance s ≡ lit "brewmbled-" ++ label
unfolding entry_instance lit sanitize_display
shown_instance s label e clean =
    rw
      (
        e,
        service_name_full,
        strip_suffix-append (lit "brewmbled-" ++ label) (lit "." ++ service_full_type),
        sanitize_display_of_IsClean label clean,
      )
      refl

host_trimmed :
    (label : Text)
    → trim_end_matches b'.' (lit "brewmbled-" ++ (label ++ lit ".local."))
      ≡ lit "brewmbled-" ++ (label ++ lit ".local")
unfolding lit trim_end_by
host_trimmed label =
    trim_end_by-append (λ c. c == b'.') (lit "brewmbled-" ++ label) (lit ".local.") refl

host-IsClean :
    (label : Text) → IsClean label → IsClean (lit "brewmbled-" ++ (label ++ lit ".local"))
unfolding lit sanitize_display
host-IsClean label h =
    All-append (λ c. is_control c ≡ false) (lit "brewmbled-") (label ++ lit ".local")
      (sanitize_display-IsClean (lit "brewmbled-"))
      (All-append (λ c. is_control c ≡ false) label (lit ".local") h
        (sanitize_display-IsClean (lit ".local")))

shown_host :
    (s : ResolvedService) (label : Text)
    → s.host ≡ lit "brewmbled-" ++ (label ++ lit ".local.")
    → IsClean label
    → entry_host s ≡ lit "brewmbled-" ++ (label ++ lit ".local")
unfolding entry_host
shown_host s label e clean =
    rw (e, host_trimmed label) (sanitize_display_of_IsClean _ (host-IsClean label clean))

-- If the daemon registers its announcement and the network carries it, and the hostname has no
-- control character and does not begin with "id=", then the CLI shows the hostname as the
-- identifier, "brewmbled-" and the first label of the hostname as the instance, the same with
-- ".local" after it as the host, the port, and that mutual TLS is used.
pub announced_shown :
    (mdns : Mdns) (port : ℕ) (hostname : Text) (ip : Option Text) (info : ServiceInfo)
    (s : ResolvedService)
    → register_mdns mdns port hostname ip ≡ some info
    → Carries info s
    → IsClean hostname
    → strip_prefix (lit "id=") hostname ≡ none
    → (entry_id s ≡ hostname)
      × (entry_tls s ≡ txt_tls_value)
      × (entry_instance s ≡ lit "brewmbled-" ++ instance_hostname hostname)
      × (entry_host s ≡ lit "brewmbled-" ++ (instance_hostname hostname ++ lit ".local"))
      × (s.port ≡ port)
unfolding service_info mdns_host_name
announced_shown mdns port hostname ip info s r c clean h =
    let e = register_mdns_info mdns port hostname ip info r in
    let label = first_label-IsClean hostname clean in
    let (id, tls) = shown_id s hostname (rw (← e) at c.properties) clean h in
    (
      id,
      tls,
      shown_instance s (instance_hostname hostname) (rw (← e) at c.fullname) label,
      shown_host s (instance_hostname hostname) (rw (← e) at c.host) label,
      (rw (← e) at c.port),
    )
