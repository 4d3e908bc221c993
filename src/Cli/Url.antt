-- ===== src/Cli/Url.antt =====
-- `resolve_url` of cli/src/main.rs and `parse_host_port` of cli/src/pin.rs. The standard library's
-- readers of IP addresses are parameters.
pub mod Splitting
pub mod Roundtrip
use brewmble.Prelude.{
  ℕ, Bool, List, Option, Result, Text, [], all, contains, decimal, err, if◌then◌else◌, is_digit,
  join, lit, ltb, none, not, ok, parse_u16, some, split_on, split_once, starts_with, strip_prefix,
  strip_suffix, suc, trim_end_matches, ◌&&◌, ◌++◌, ◌==◌, ◌||◌, ◌∷◌,
}

pub data SocketAddr : Type 0 where
  v4 : Text → ℕ → SocketAddr
  v6 : Text → ℕ → SocketAddr

pub data IpAddr : Type 0 where
  ip4 : Text → IpAddr
  ip6 : Text → IpAddr

-- `parse::<SocketAddr>()` and `parse::<IpAddr>()`; an address is given by its `Display` text.
pub record AddressReader : Type 0 where
  pub socket_addr : Text → Option SocketAddr
  pub ip_addr : Text → Option IpAddr

-- All but the last part, and the last part, of a split, which is never empty.
abbrev pub all_but_last : List Text → List Text
all_but_last [] = []
all_but_last (p ∷ []) = []
all_but_last (p ∷ q ∷ ps) = p ∷ all_but_last (q ∷ ps)

abbrev pub last : List Text → Text
last [] = []
last (p ∷ []) = p
last (p ∷ q ∷ ps) = last (q ∷ ps)

-- `matches(':').count()`.
abbrev pub count_colons : Text → ℕ
count_colons [] = 0
count_colons (c ∷ s) = if c == b':' then suc (count_colons s) else count_colons s

unfoldable pub host_of : Text → Text
host_of target = join (lit ":") (all_but_last (split_on b':' target))

unfoldable pub port_of : Text → Text
port_of target = last (split_on b':' target)

abbrev pub bracketed : Text → Text → Text
bracketed host port = lit "https://[" ++ (host ++ (lit "]:" ++ port))

abbrev pub plain : Text → Text → Text
plain host port = lit "https://" ++ (host ++ (lit ":" ++ port))

-- The target reads as an IPv6 address: the code guesses whether its last group is a port.
unfoldable pub resolve_ipv6 : Text → Text → Text
resolve_ipv6 target ip =
    if ltb 2 (count_colons target) && all is_digit (port_of target)
    then bracketed (host_of target) (port_of target)
    else lit "https://[" ++ (ip ++ lit "]")

unfoldable pub resolve_name : Text → Text
resolve_name target =
    if contains (lit ":") target && all is_digit (port_of target)
    then (if contains (lit ":") (host_of target) && not (starts_with (lit "[") (host_of target))
        then bracketed (host_of target) (port_of target)
        else plain (host_of target) (port_of target))
    else lit "https://" ++ trim_end_matches b'/' target

abbrev pub has_scheme : Text → Bool
has_scheme target = starts_with (lit "http://") target || starts_with (lit "https://") target

module _ (reader : AddressReader) where
  abbrev resolve_ip : Text → Option IpAddr → Text
  resolve_ip target (some (ip6 ip)) = resolve_ipv6 target ip
  resolve_ip target (some (ip4 ip)) = resolve_name target
  resolve_ip target none = resolve_name target

  abbrev resolve_addr : Text → Option SocketAddr → Text
  resolve_addr target (some (v6 ip port)) = bracketed ip (decimal port)
  resolve_addr target (some (v4 ip port)) = plain ip (decimal port)
  resolve_addr target none = resolve_ip target (reader.ip_addr target)

  unfoldable pub resolve_url : Text → Text
  unfolding resolve_ipv6 resolve_name
  resolve_url target =
      if has_scheme target
      then trim_end_matches b'/' target
      else resolve_addr target (reader.socket_addr target)

abbrev bracket : Text → Text
bracket host = lit "[" ++ (host ++ lit "]")

abbrev bad_port : Text
bad_port = lit "invalid port"

-- `parse_host_port`. The text of a `ParseIntError` is not modelled.
abbrev pub read_port : Text → Text → Result Text (Text × ℕ)
read_port host port = elim (parse_u16 port) [ some n ↦ ok (host, n) | none ↦ err bad_port ]

unfoldable pub parse_ipv6_rest : Text → Result Text (Text × ℕ)
parse_ipv6_rest inner = elim (split_once (lit "]:") inner) [
  | some (h, p) ↦ read_port (bracket h) p
  | none ↦ elim (strip_suffix (lit "]") inner) [
    | some h ↦ read_port (bracket h) (lit "443")
    | none ↦ err (lit "invalid IPv6 URL")
  ]
]

unfoldable pub parse_name_rest : Text → Result Text (Text × ℕ)
parse_name_rest rest = elim (split_once (lit ":") rest) [
  | some (host, port) ↦ read_port host port
  | none ↦ read_port rest (lit "443")
]

unfoldable pub parse_host_port : Text → Result Text (Text × ℕ)
unfolding parse_ipv6_rest parse_name_rest
parse_host_port url = elim (strip_prefix (lit "https://") url) [
  | none ↦ err (lit "url must use https scheme")
  | some rest ↦ elim (strip_prefix (lit "[") rest) [
    | some inner ↦ parse_ipv6_rest inner
    | none ↦ parse_name_rest rest
  ]
]
