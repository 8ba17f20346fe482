-- ===== src/Values/Addresses.antt =====
-- config/parser.rs: ports, endpoints, listen addresses and upstreams, and CIDR networks of config/ast.rs. The
-- parsers of IP addresses are the standard library's: a section's parameter.
use raddy.Base.{
  ℕ, ◌-◌, ◌/◌, ◌^◌, List, [], ◌∷◌, Option, none, some, Bool, true, false, ◌||◌, any, ltb, ◌==◌,
  if◌then◌else◌,
}
use raddy.Base.Map.{map_option}
use raddy.ByteRange.{split_once}
use raddy.Config.Wildcard.{strip_prefix, is_empty}
use raddy.Values.{
  Text, codes, about, Result, ok, ◌>>=◌, ◌>>◌, reject_if, ok_or, parse_uint, u16_limit,
}

-- An IP address, by its value in network order.
pub data IpAddr : Type 0 where
  v4 v6 : (bits : ℕ) → IpAddr

-- A socket address of the standard library; one of IPv4 has no flow information and no scope: 0.
pub record SocketAddr : Type 0 where
  pub ip : IpAddr
  pub port : ℕ
  pub flowinfo : ℕ
  pub scope_id : ℕ

-- `SocketAddr::new`.
abbrev pub socket_addr : IpAddr → ℕ → SocketAddr
socket_addr ip port = record { ip = ip; port = port; flowinfo = 0; scope_id = 0 }

-- `[0, 0, 0, 0]`.
abbrev pub unspecified : IpAddr
unspecified = v4 0

pub record L4Upstream : Type 0 where
  pub host : Text
  pub port : ℕ

pub data UpstreamHttpVersion : Type 0 where
  auto h2 h2c : UpstreamHttpVersion

pub record Upstream : Type 0 where
  pub host : Text
  pub port : ℕ
  pub tls : Bool
  pub http_version : UpstreamHttpVersion
  pub resolved : Option SocketAddr

unfoldable pub parse_port_str : Text → Result ℕ
unfolding parse_uint
parse_port_str s = do
  port ← ok_or (parse_uint u16_limit s) (about "invalid port '" s "'")
  reject_if (port == 0) (codes "port must be in 1..=65535")
  ok port

unfoldable pub parse_port : Text → Result ℕ
unfolding parse_uint
parse_port s = do
  port ← ok_or (parse_uint u16_limit s) (about "invalid port '" s "'")
  reject_if (port == 0) (codes "port must be in 1..=65535")
  ok port

-- `rsplit_once` at a character.
unfoldable pub rsplit_once : ℕ → Text → Option (Text × Text)
rsplit_once b [] = none
rsplit_once b (c ∷ text) = elim (rsplit_once b text) [
  | some parts ↦ some (c ∷ parts.0, parts.1)
  | none ↦ if c == b then some ([], text) else none
]

-- `split_once` at a text.
unfoldable pub split_once_at : Text → Text → Option (Text × Text)
unfolding strip_prefix
split_once_at pattern [] = none
split_once_at pattern (c ∷ text) = elim (strip_prefix pattern (c ∷ text)) [
  | some rest ↦ some ([], rest)
  | none ↦ map_option (λ p. (c ∷ p.0, p.1)) (split_once_at pattern text)
]

-- Behind the `[`: the host up to the `]`, and the port.
abbrev pub bracketed : Text → Text → Result (Text × ℕ)
bracketed s rest = do
  (host, behind) ← ok_or (split_once b']' rest) (about "unclosed '[' in address '" s "'")
  port_part ←
      ok_or (strip_prefix (codes ":") behind) (about "address '" s "' is missing a port after ']'")
  port ← parse_port_str port_part
  ok (host, port)

abbrev pub unbracketed : Text → Result (Text × ℕ)
unbracketed s = do
  (host, port_part) ← ok_or (rsplit_once b':' s) (about "address '" s "' must be host:port")
  reject_if (is_empty host) (about "address '" s "' has an empty host")
  reject_if (any (λ c. c == b':') host) (about "IPv6 addresses must be bracketed: [" host "]:port")
  port ← parse_port_str port_part
  ok (host, port)

unfoldable pub split_host_port : Text → Result (Text × ℕ)
unfolding strip_prefix split_once rsplit_once parse_port_str
split_host_port s = elim (strip_prefix (codes "[") s) [
  | some rest ↦ bracketed s rest
  | none ↦ unbracketed s
]

unfoldable pub parse_l4_upstream : Text → Result L4Upstream
unfolding split_host_port
parse_l4_upstream s = do
  (host, port) ← split_host_port s
  reject_if (is_empty host) (about "upstream '" s "' must be host:port")
  ok (record { host = host; port = port })

-- The schemes of `parse_upstream`, in the order of their tests.
abbrev pub schemes : List (Text × Bool × UpstreamHttpVersion)
schemes =
    (codes "h2://", true, h2)
    ∷ (codes "h2c://", false, h2c)
    ∷ (codes "https://", true, auto)
    ∷ (codes "http://", false, auto)
    ∷ []

unfoldable pub strip_scheme :
    List (Text × Bool × UpstreamHttpVersion) → Text → Bool × UpstreamHttpVersion × Text
unfolding strip_prefix
strip_scheme [] s = (false, auto, s)
strip_scheme ((scheme, tls, version) ∷ table) s = elim (strip_prefix scheme s) [
  | some rest ↦ (tls, version, rest)
  | none ↦ strip_scheme table s
]

abbrev pub upstream_ipv6 : Text → Text → Result (Text × Text)
upstream_ipv6 s rest = do
  (host, port) ←
      ok_or (split_once_at (codes "]:") rest) (about "upstream '" s "' must be [host]:port")
  reject_if (is_empty host || (any (λ c. c == b'[') host || any (λ c. c == b']') host))
      (about "upstream '" s "' has an invalid IPv6 host")
  ok (host, port)

abbrev pub upstream_parts : Text → Text → Result (Text × Text)
upstream_parts s rest = elim (strip_prefix (codes "[") rest) [
  | some behind ↦ upstream_ipv6 s behind
  | none ↦ ok_or (rsplit_once b':' rest) (about "upstream '" s "' must be host:port")
]

unfoldable pub parse_upstream : Text → Result Upstream
unfolding strip_scheme strip_prefix split_once_at rsplit_once parse_port
parse_upstream s = do
  let (tls, http_version, rest) = strip_scheme schemes s
  (host, port_str) ← upstream_parts s rest
  reject_if (is_empty host) (codes "empty host in upstream address")
  port ← parse_port port_str
  ok (record { host = host; port = port; tls = tls; http_version = http_version; resolved = none })

pub record Cidr : Type 0 where
  pub network : IpAddr
  pub prefix : ℕ

abbrev pub max_prefix : IpAddr → ℕ
max_prefix (v4 bits) = 32
max_prefix (v6 bits) = 128

-- The message quotes the prefix as it is written.
abbrev pub prefix_length : Option Text → ℕ → Result ℕ
prefix_length none longest = ok longest
prefix_length (some p) longest = do
  n ← ok_or (parse_uint (2 ^ 8) p) (about "invalid CIDR prefix '" p "'")
  reject_if (ltb longest n) (about "CIDR prefix " p " is too large for this address")
  ok n

abbrev pub cidr_parts : Text → Option (Text × Text) → Text × Option Text
cidr_parts raw none = (raw, none)
cidr_parts raw (some (addr, p)) = (addr, some p)

-- `u32::from(net) & mask`: the bits in front of the last `w - prefix`, by what is left of a division.
abbrev pub same_bits : ℕ → ℕ → ℕ → ℕ → Bool
same_bits width prefix net ip = net / 2 ^ (width - prefix) == ip / 2 ^ (width - prefix)

unfoldable pub contains : Cidr → IpAddr → Bool
contains cidr ip = elim cidr.network [
  | v4 net ↦ elim ip [ v4 bits ↦ same_bits 32 cidr.prefix net bits | v6 bits ↦ false ]
  | v6 net ↦ elim ip [ v4 bits ↦ false | v6 bits ↦ same_bits 128 cidr.prefix net bits ]
]

module _ (parse_ip : Text → Option IpAddr) where
  unfoldable pub parse_cidr : Text → Result Cidr
  unfolding split_once parse_uint
  parse_cidr raw = do
    let (addr_str, prefix) = cidr_parts raw (split_once b'/' raw)
    address ← ok_or (parse_ip addr_str) (about "invalid IP address '" addr_str "'")
    n ← prefix_length prefix (max_prefix address)
    ok (record { network = address; prefix = n })

  abbrev pub listen_host : Text → Result SocketAddr
  listen_host s = do
    (host, port) ← split_host_port s
    ip ← ok_or (parse_ip host) (
        about "listen address '" s
          "' must be an IP literal (e.g. :3306, 127.0.0.1:3306, [::1]:3306)")
    ok (socket_addr ip port)

  unfoldable pub parse_listen_address : Text → Result SocketAddr
  unfolding strip_prefix parse_port_str split_host_port
  parse_listen_address s = elim (strip_prefix (codes ":") s) [
    | some port ↦ parse_port_str port >>= λ p. ok (socket_addr unspecified p)
    | none ↦ listen_host s
  ]
