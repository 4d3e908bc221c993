-- ===== src/Cli/Url/Roundtrip.antt =====
-- A target's host and port, and the URL that `resolve_url` makes of it, read back by
-- `parse_host_port` when the pin is checked.
use brewmble.Prelude.{
  NoneOf, Text, [], decimal, false, lit, ok, refl, starts_with, ℕ, ◌++◌, ◌<◌, ◌==◌, ◌^◌, ◌∷◌, ◌≡◌,
  all, arith, is_digit, none, some, split_once-append, split_once_absent, strip_prefix,
  strip_prefix-append, true, decimal_digits, parse_u16-decimal,
}
use brewmble.Cli.Url.{
  v4, v6, ip6, AddressReader, count_colons, host_of, port_of, bracketed, plain, resolve_ipv6,
  resolve_name, has_scheme, resolve_url, read_port, parse_ipv6_rest, parse_name_rest,
  parse_host_port,
}
use brewmble.Cli.Url.Splitting.{host_of-concat, port_of-concat, contains_colon}

abbrev pub NoColon : Text → Type 0
NoColon s = NoneOf (λ c. c == b':') s

-- Only what the host begins with decides whether the rest of a URL begins with a bracket.
no_bracket :
    (host s : Text)
    → starts_with (lit "[") host ≡ false
    → strip_prefix (lit "[") (host ++ (lit ":" ++ s)) ≡ none
unfolding lit strip_prefix
no_bracket [] s k = refl
no_bracket (c ∷ host) s k = ground arith

parse_name_rest_lem :
    (host : Text) (port : ℕ)
    → NoColon host
    → port < 2 ^ 16
    → parse_name_rest (host ++ (lit ":" ++ decimal port)) ≡ ok (host, port)
unfolding parse_name_rest lit
parse_name_rest_lem host port h l =
    rw (split_once-append b':' [] host (decimal port) h, parse_name_rest)
      (rw (parse_u16-decimal port l, read_port))

parse_ipv6_rest_lem :
    (host : Text) (port : ℕ)
    → NoneOf (λ c. c == b']') host
    → port < 2 ^ 16
    → parse_ipv6_rest (host ++ (lit "]:" ++ decimal port)) ≡ ok (lit "[" ++ (host ++ lit "]"), port)
unfolding parse_ipv6_rest lit
parse_ipv6_rest_lem host port h l =
    rw (split_once-append b']' (b':' ∷ []) host (decimal port) h, parse_ipv6_rest)
      (rw (parse_u16-decimal port l, read_port))

parse_host_port-plain :
    (host : Text) (port : ℕ)
    → NoColon host
    → starts_with (lit "[") host ≡ false
    → port < 2 ^ 16
    → parse_host_port (plain host (decimal port)) ≡ ok (host, port)
unfolding parse_host_port
parse_host_port-plain host port h k l =
    rw (strip_prefix-append (lit "https://") (host ++ (lit ":" ++ decimal port)), parse_host_port)
      (rw (no_bracket host (decimal port) k) (parse_name_rest_lem host port h l))

https_bracket :
    (s : Text) → strip_prefix (lit "https://") (lit "https://[" ++ s) ≡ some (lit "[" ++ s)
unfolding lit strip_prefix
https_bracket s = refl

parse_host_port-bracketed :
    (host : Text) (port : ℕ)
    → NoneOf (λ c. c == b']') host
    → port < 2 ^ 16
    → parse_host_port (bracketed host (decimal port)) ≡ ok (lit "[" ++ (host ++ lit "]"), port)
unfolding parse_host_port
parse_host_port-bracketed host port h l =
    rw (https_bracket (host ++ (lit "]:" ++ decimal port)), parse_host_port)
      (rw (strip_prefix-append (lit "[") (host ++ (lit "]:" ++ decimal port)))
        (parse_ipv6_rest_lem host port h l))

resolve_name-port :
    (host : Text) (port : ℕ)
    → NoColon host
    → resolve_name (host ++ (b':' ∷ decimal port)) ≡ plain host (decimal port)
unfolding resolve_name lit
resolve_name-port host port h = rw (contains_colon host (decimal port)) (
    rw (port_of-concat host (decimal port) (decimal_digits port)) (
      rw (decimal_digits port) (
        rw (host_of-concat host (decimal port) (decimal_digits port))
          (rw (split_once_absent b':' [] host h)))))

resolve_ipv6_cut_lem :
    (target ip before group : Text)
    → target ≡ before ++ (b':' ∷ group)
    → all is_digit group ≡ true
    → 2 < count_colons target
    → resolve_ipv6 target ip ≡ bracketed before group
unfolding resolve_ipv6
resolve_ipv6_cut_lem target ip before group e d c =
    let p : port_of target ≡ group = rw e (port_of-concat before group d) in
    let h : host_of target ≡ before = rw e (host_of-concat before group d) in
    rw (p, h, d) (ground arith)

module _ (reader : AddressReader) (target : Text) where
  -- A target that names a host and a port below 2 ^ 16, without a scheme, and that the standard
  -- library does not read as an address, is contacted at that host and port, if the host has no
  -- colon and does not begin with a bracket.
  pub parse_host_port-resolve_name :
      (host : Text) (port : ℕ)
      → target ≡ host ++ (b':' ∷ decimal port)
      → NoColon host
      → starts_with (lit "[") host ≡ false
      → port < 2 ^ 16
      → has_scheme target ≡ false
      → reader.socket_addr target ≡ none
      → reader.ip_addr target ≡ none
      → parse_host_port (resolve_url reader target) ≡ ok (host, port)
  unfolding resolve_url
  parse_host_port-resolve_name host port e h k l s a i =
      rw (s, a, i)
        (rw e (rw (resolve_name-port host port h) (parse_host_port-plain host port h k l)))

  -- An IPv4 socket address is contacted at that address and port.
  pub parse_host_port-resolve_v4 :
      (ip : Text) (port : ℕ)
      → has_scheme target ≡ false
      → reader.socket_addr target ≡ some (v4 ip port)
      → NoColon ip
      → starts_with (lit "[") ip ≡ false
      → port < 2 ^ 16
      → parse_host_port (resolve_url reader target) ≡ ok (ip, port)
  unfolding resolve_url
  parse_host_port-resolve_v4 ip port s a h k l = rw (s, a) (parse_host_port-plain ip port h k l)

  -- An IPv6 socket address is contacted at that address, in brackets, and port.
  pub parse_host_port-resolve_v6 :
      (ip : Text) (port : ℕ)
      → has_scheme target ≡ false
      → reader.socket_addr target ≡ some (v6 ip port)
      → NoneOf (λ c. c == b']') ip
      → port < 2 ^ 16
      → parse_host_port (resolve_url reader target) ≡ ok (lit "[" ++ (ip ++ lit "]"), port)
  unfolding resolve_url
  parse_host_port-resolve_v6 ip port s a h l = rw (s, a) (parse_host_port-bracketed ip port h l)

  -- An IPv6 address with no port, three colons or more, and a last group of decimal digits is cut:
  -- the last group is taken for a port.
  pub resolve_ipv6_cut :
      (ip before group : Text)
      → has_scheme target ≡ false
      → reader.socket_addr target ≡ none
      → reader.ip_addr target ≡ some (ip6 ip)
      → target ≡ before ++ (b':' ∷ group)
      → all is_digit group ≡ true
      → 2 < count_colons target
      → resolve_url reader target ≡ bracketed before group
  unfolding resolve_url
  resolve_ipv6_cut ip before group s a i e d c =
      rw (s, a, i) (resolve_ipv6_cut_lem target ip before group e d c)
