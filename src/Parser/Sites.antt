-- ===== src/Parser/Sites.antt =====
-- config/parser.rs: site addresses, directive blocks and the file.
use raddy.Base.{
  ℕ, ◌-◌, List, [], ◌∷◌, ◌++◌, Option, none, some, Bool, true, false, not, length, drop, take,
  if◌then◌else◌,
}
use raddy.Compression.{split}
use raddy.Config.{SiteKey, named, catch_all}
use raddy.Config.Wildcard.{strip_prefix, text_eq, is_empty}
use raddy.SiteSelection.{first_is, last_is}
use raddy.Values.{Text, codes, is, Result, ok, err, ◌>>=◌, ◌>>◌, reject_if, ok_or}
use raddy.Values.Addresses.{IpAddr, parse_port, split_host_port, rsplit_once}
use raddy.Values.HostNames.{normalize_host_name}

-- What the parser takes from the standard library: `IpAddr` and `Ipv6Addr` from text, and an IPv6
-- address as text.
pub record Std : Type 0 where
  pub parse_ip : Text → Option IpAddr
  pub parse_ipv6 : Text → Option ℕ
  pub print_ipv6 : ℕ → Text

abbrev pub named_site_default_port : ℕ
named_site_default_port = 443

abbrev pub empty_address : Text
empty_address = codes "empty site address in comma-separated list"

-- The loop over one token: the addresses between its commas. Behind the last comma nothing needs to stand.
unfoldable pub token_addresses : List Text → List Text → Bool → Result (List Text × Bool)
token_addresses [] addresses need_address = ok (addresses, need_address)
token_addresses (tail ∷ []) addresses need_address =
    if is_empty tail
    then ok (addresses, need_address)
    else reject_if (not need_address) (codes "multiple site addresses must be separated by commas")
      >> ok (addresses ++ tail ∷ [], false)
token_addresses (address ∷ part ∷ parts) addresses need_address = do
  reject_if (not need_address) (codes "multiple site addresses must be separated by commas")
  reject_if (is_empty address) empty_address
  token_addresses (part ∷ parts) (addresses ++ address ∷ []) true

abbrev pub one_token : Text → List Text → Bool → Result (List Text × Bool)
one_token token addresses need_address =
    if is "," token
    then reject_if need_address empty_address >> ok (addresses, true)
    else token_addresses (split b',' token) addresses need_address

unfoldable pub all_tokens : List Text → List Text → Bool → Result (List Text)
unfolding text_eq split token_addresses
all_tokens [] addresses need_address = do
  reject_if need_address (codes "site address list must not end with a comma")
  ok addresses
all_tokens (token ∷ words) addresses need_address =
    one_token token addresses need_address >>= λ s. all_tokens words s.0 s.1

unfoldable pub site_addresses : List Text → Result (List Text)
unfolding all_tokens
site_addresses [] = err (codes "expected a site address such as ':8080' or 'example.com'")
site_addresses (w ∷ words) = all_tokens (w ∷ words) [] true

abbrev pub port_site : Text → Option (Text × Text) → Result SiteKey
port_site addr none = do host ← normalize_host_name addr; ok (named host named_site_default_port)
port_site addr (some (host, port_str)) = do
  reject_if (is_empty host) (codes "empty host in site address")
  port ← parse_port port_str
  name ← normalize_host_name host
  ok (named name port)

module _ (std : Std) where
  -- The brackets' inside and the port.
  abbrev pub ipv6_parts : Text → Result (Text × ℕ)
  ipv6_parts addr =
      if last_is b']' addr
      then ok (take (length addr - 2) (drop 1 addr), named_site_default_port)
      else split_host_port addr

  abbrev pub ipv6_site : Text → Result SiteKey
  ipv6_site addr = do
    (host, port) ← ipv6_parts addr
    ip ←
        ok_or (std.parse_ipv6 host)
          (codes "HTTP IPv6 site addresses must contain a valid IPv6 literal")
    ok (named (b'[' ∷ (std.print_ipv6 ip ++ b']' ∷ [])) port)

  abbrev pub host_site : Text → Result SiteKey
  host_site addr =
      if first_is b'[' addr then ipv6_site addr else port_site addr (rsplit_once b':' addr)

  unfoldable pub parse_site_key : Text → Result SiteKey
  unfolding strip_prefix split_host_port rsplit_once parse_port normalize_host_name
  parse_site_key addr = elim (strip_prefix (codes ":") addr) [
    | some port_str ↦ parse_port port_str >>= λ port. ok (catch_all port)
    | none ↦ host_site addr
  ]

  unfoldable pub parse_keys : List Text → Result (List SiteKey)
  unfolding parse_site_key
  parse_keys [] = ok []
  parse_keys (a ∷ addresses) =
      parse_site_key a >>= λ key. parse_keys addresses >>= λ keys. ok (key ∷ keys)

  unfoldable pub parse_site_keys : List Text → Result (List SiteKey)
  unfolding site_addresses parse_keys
  parse_site_keys words = site_addresses words >>= parse_keys
