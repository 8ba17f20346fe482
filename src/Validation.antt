-- ===== src/Validation.antt =====
-- config/validate.rs: the checks of the global options, of the TLS options and of the layer-4 listeners, with
-- cert_key_from_pem of tls/mod.rs. Files, PEM and the printing of addresses are parameters; an error is its message.
pub mod Compile
pub mod Layer4
pub mod Sites
pub mod Sound
pub mod Tests
pub mod Upstreams
use raddy.Base.{
  ℕ, List, [], ◌∷◌, ◌++◌, Option, none, some, Bool, true, false, not, ◌&&◌, ◌||◌, any, ltb, ◌==◌,
  is_some, if◌then◌else◌,
}
use raddy.Config.{port_of}
use raddy.Config.Source.{
  GlobalConfig, Site, Layer4Listener, tcp, udp, TlsConfig, TlsSource, acme, internal, static,
  TlsVersion, tls_12, tls_13, ClientAuth, TcpProxyConfig, SniRoute,
}
use raddy.Config.Wildcard.{is_empty}
use raddy.Values.{Text, codes, about, Result, ok, err, ◌>>=◌, ◌>>◌, reject_if}
use raddy.Values.Addresses.{IpAddr, v4, v6, SocketAddr}

abbrev pub contains_at : Text → Bool
contains_at email = any (λ c. c == b'@') email

abbrev pub check_email : Option Text → Result (Unit {0})
check_email none = ok tt
check_email (some email) =
    reject_if (not (contains_at email)) (about "invalid acme_email '" email "'")

unfoldable pub validate_global : GlobalConfig → Result (Unit {0})
validate_global global = do
  reject_if (is_some global.dns_challenge && global.tls_alpn_challenge)
      (codes "dns_challenge and tls_alpn_challenge are mutually exclusive")
  check_email global.acme_email

pub data SocketTransport : Type 0 where
  over_tcp over_udp : SocketTransport

abbrev pub same_transport : SocketTransport → SocketTransport → Bool
same_transport over_tcp over_tcp = true
same_transport over_udp over_udp = true
same_transport _ _ = false

abbrev pub transport_name : SocketTransport → Text
transport_name over_tcp = codes "Tcp"
transport_name over_udp = codes "Udp"

-- The transport and the address of a listener.
abbrev pub endpoint : Layer4Listener → SocketTransport × SocketAddr
endpoint (tcp config) = (over_tcp, config.listen)
endpoint (udp config) = (over_udp, config.listen)

abbrev pub is_unspecified : IpAddr → Bool
is_unspecified (v4 bits) = bits == 0
is_unspecified (v6 bits) = bits == 0

abbrev pub same_ip : IpAddr → IpAddr → Bool
same_ip (v4 a) (v4 b) = a == b
same_ip (v6 a) (v6 b) = a == b
same_ip _ _ = false

unfoldable pub binds_overlap : SocketAddr → SocketAddr → Bool
binds_overlap a b =
    if not (a.port == b.port)
    then false
    else is_unspecified a.ip || (is_unspecified b.ip || same_ip a.ip b.ip)

module _ (display : SocketAddr → Text) (print_number : ℕ → Text) where
  -- Raw TCP and the HTTP sites listen on one set of ports.
  unfoldable pub check_sites : SocketAddr → List Site → Result (Unit {0})
  check_sites address [] = ok tt
  check_sites address (site ∷ sites) =
      let rest = check_sites address sites in
      reject_if (port_of site.key == address.port) (
        about "layer-4 TCP listener " (display address) " conflicts with HTTP site on port "
        ++ print_number (port_of site.key))
      >> rest

  unfoldable pub check_seen :
      SocketTransport × SocketAddr → List (SocketTransport × SocketAddr) → Result (Unit {0})
  unfolding binds_overlap
  check_seen here [] = ok tt
  check_seen here (other ∷ seen) =
      let rest = check_seen here seen in
      reject_if (same_transport other.0 here.0 && binds_overlap other.1 here.1) (
        about "duplicate or overlapping " (transport_name here.0) " listener on " ++ display here.1)
      >> rest

  abbrev pub check_namespace : SocketTransport × SocketAddr → List Site → Result (Unit {0})
  check_namespace (over_tcp, address) sites = check_sites address sites
  check_namespace (over_udp, address) sites = ok tt

  unfoldable pub check_listeners :
      List Site → List (SocketTransport × SocketAddr) → List Layer4Listener → Result (Unit {0})
  unfolding check_sites check_seen
  check_listeners sites seen [] = ok tt
  check_listeners sites seen (listener ∷ listeners) =
      let rest = check_listeners sites (seen ++ (endpoint listener ∷ [])) listeners in
      check_namespace (endpoint listener) sites >> check_seen (endpoint listener) seen >> rest

abbrev pub rank : TlsVersion → ℕ
rank tls_12 = 0
rank tls_13 = 1

abbrev pub above : Option TlsVersion → Option TlsVersion → Bool
above (some min) (some max) = ltb (rank max) (rank min)
above _ _ = false

abbrev pub with_prefix : {A : Type 0} → Text → Result A → Result A
with_prefix message (ok a) = ok a
with_prefix message (err e) = err (message ++ e)

abbrev pub is_acme : TlsSource → Bool
is_acme acme = true
is_acme _ = false

abbrev pub has_routes : List SniRoute → Bool
has_routes [] = false
has_routes (r ∷ routes) = true

module _ {X509 : Type 0} {PKey : Type 0} (read_to_string : Text → Result Text)
    (stack_from_pem : Text → Result (List X509)) (private_key_from_pem : Text → Result PKey) where
  abbrev pub no_certificates : List X509 → Bool
  no_certificates [] = true
  no_certificates (c ∷ certs) = false

  unfoldable pub cert_key_from_pem : Text → Text → Result (List X509 × PKey)
  cert_key_from_pem cert_chain_pem key_pem = do
    certs ←
        with_prefix (codes "failed to parse certificate chain: ") (stack_from_pem cert_chain_pem)
    reject_if (no_certificates certs) (codes "certificate chain is empty")
    key ← with_prefix (codes "failed to parse private key: ") (private_key_from_pem key_pem)
    ok (certs, key)

  unfoldable pub check_source : TlsSource → Result (Unit {0})
  unfolding cert_key_from_pem
  check_source (static cert_file key_file) = do
    cert_pem ←
        with_prefix (about "failed to read certificate " cert_file ": ") (read_to_string cert_file)
    key_pem ← with_prefix (about "failed to read key " key_file ": ") (read_to_string key_file)
    pair ← with_prefix (codes "invalid tls certificate: ") (cert_key_from_pem cert_pem key_pem)
    ok tt
  check_source acme = ok tt
  check_source internal = ok tt

  abbrev pub check_client_auth : Option ClientAuth → Result (Unit {0})
  check_client_auth none = ok tt
  check_client_auth (some auth) = do
    ca_pem ←
        with_prefix (about "failed to read CA file " auth.ca_file ": ")
          (read_to_string auth.ca_file)
    certs ← with_prefix (about "invalid CA file " auth.ca_file ": ") (stack_from_pem ca_pem)
    ok tt

  unfoldable pub validate_tls_config : TlsConfig → Result (Unit {0})
  unfolding check_source
  validate_tls_config config = do
    check_source config.source
    check_client_auth config.client_auth
    reject_if (above config.min_version config.max_version)
        (codes "tls min_version must not exceed max_version")

  unfoldable pub check_termination : TcpProxyConfig → Option TlsConfig → Result (Unit {0})
  unfolding validate_tls_config
  check_termination config none = ok tt
  check_termination config (some tls) = do
    reject_if (is_acme tls.source)
        (codes "TCP TLS termination requires internal or a static certificate pair")
    validate_tls_config tls
    reject_if (has_routes config.sni_routes)
        (codes "TCP TLS termination cannot be combined with SNI routing")

  unfoldable pub check_listener_tls : Layer4Listener → Result (Unit {0})
  unfolding check_termination
  check_listener_tls (udp config) = ok tt
  check_listener_tls (tcp config) = check_termination config config.tls_config

  unfoldable pub check_tls : List Layer4Listener → Result (Unit {0})
  unfolding check_listener_tls
  check_tls [] = ok tt
  check_tls (listener ∷ listeners) =
      let rest = check_tls listeners in check_listener_tls listener >> rest

  unfoldable pub validate_layer4 :
      (SocketAddr → Text)
      → (ℕ → Text)
      → List Site
      → List Layer4Listener
      → Result (List Layer4Listener)
  unfolding check_listeners check_tls
  validate_layer4 display print_number sites layer4 = do
    check_listeners display print_number sites [] layer4
    check_tls layer4
    ok layer4
