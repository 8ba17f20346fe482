-- ===== src/Parser/Layer4/Tcp.antt =====
-- config/parser.rs: the `tcp` listener block.
use raddy.Base.{
  ℕ, List, [], ◌∷◌, ◌++◌, Option, none, some, Bool, true, false, not, ◌&&◌, ◌||◌, is_some, length,
  any, ◌==◌, if◌then◌else◌, ◌*◌,
}
use raddy.Config.{LbPolicy, round_robin}
use raddy.Config.Source.{
  TcpProxyConfig, HealthCheckSpec, SniRoute, TlsConfig, TlsSource, acme, internal, static,
  tls_default, from_secs,
}
use raddy.Config.Wildcard.{text_eq}
use raddy.Parser.{Method, pure, ◌>>=◌, ◌>>◌, or_fail, fail, refuse_if, block}
use raddy.Parser.Arguments.{parse_lb_policy}
use raddy.Parser.Health.{unwrap_or, parse_l4_health_check}
use raddy.Parser.Layer4.{l4_targets, no_upstreams, second_word}
use raddy.Parser.Settings.{parse_tls}
use raddy.Values.{Text, codes, is, about, first_word, Result, ok, err, parse_duration, parse_count}
use raddy.Values.Addresses.{IpAddr, SocketAddr, L4Upstream, parse_listen_address, parse_l4_upstream}
use raddy.Values.HostNames.{normalize_host_name}

pub record TcpSlots : Type 0 where
  pub upstreams : List L4Upstream
  pub lb_policy : Option LbPolicy
  pub connect_timeout : Option ℕ
  pub idle_timeout : Option ℕ
  pub max_connections : Option ℕ
  pub health_check : Option HealthCheckSpec
  pub sni_routes : List SniRoute
  pub sni_fallback : Option L4Upstream
  pub tls_config : Option TlsConfig
  pub transparent : Bool

abbrev pub no_tcp_slots : TcpSlots
no_tcp_slots = record {
  upstreams = [];
  lb_policy = none;
  connect_timeout = none;
  idle_timeout = none;
  max_connections = none;
  health_check = none;
  sni_routes = [];
  sni_fallback = none;
  tls_config = none;
  transparent = false;
}

abbrev pub or_new {ℓ} : {A : Type ℓ} → Option A → Option A → Option A
or_new old none = old
or_new old (some a) = some a

abbrev pub merged_source : TlsSource → TlsSource → TlsSource
merged_source old acme = old
merged_source old internal = internal
merged_source old (static cert key) = static cert key

unfoldable pub merge_tls_config : Option TlsConfig → TlsConfig → TlsConfig
merge_tls_config target config =
    let old = unwrap_or target tls_default in
    record {
      source = merged_source old.source config.source;
      min_version = or_new old.min_version config.min_version;
      max_version = or_new old.max_version config.max_version;
      ciphers = or_new old.ciphers config.ciphers;
      client_auth = or_new old.client_auth config.client_auth;
    }

abbrev pub sni_name : Result Text → Result Text
sni_name (ok name) = ok name
sni_name (err m) = err (codes "invalid sni name")

abbrev pub sni_route : TcpSlots → List Text → Method TcpSlots
sni_route s (_ ∷ raw ∷ target ∷ []) = do
  name ← or_fail (sni_name (normalize_host_name raw))
  or_fail (
      if any (λ r. text_eq r.name name) s.sni_routes
      then err (about "duplicate sni route for '" name "'")
      else ok tt)
  upstream ← or_fail (parse_l4_upstream target)
  pure (record s { sni_routes = s.sni_routes ++ record { name = name; upstream = upstream } ∷ [] })
sni_route s line = fail (codes "sni requires: sni <name> <host:port>")

abbrev pub fallback_route : TcpSlots → List Text → Method TcpSlots
fallback_route s (_ ∷ target ∷ []) = do
  refuse_if (is_some s.sni_fallback) "duplicate fallback"
  upstream ← or_fail (parse_l4_upstream target)
  pure (record s { sni_fallback = some upstream })
fallback_route s line = fail (codes "fallback requires: fallback <host:port>")

abbrev pub tcp_option : TcpSlots → Text → List Text → Bool → Method TcpSlots
tcp_option s name line nested =
    if is "to" name
    then (do
      refuse_if nested "unexpected '{' after to"
      us ← l4_targets line
      pure (record s { upstreams = s.upstreams ++ us }))
    else if is "lb_policy" name
    then (do
      refuse_if nested "unexpected '{' after lb_policy"
      refuse_if (is_some s.lb_policy) "duplicate lb_policy"
      policy ← or_fail (parse_lb_policy line)
      pure (record s { lb_policy = some policy }))
    else if is "connect_timeout" name
    then (do
      refuse_if nested "unexpected '{' after connect_timeout"
      refuse_if (is_some s.connect_timeout) "duplicate connect_timeout"
      n ← or_fail (parse_duration line)
      pure (record s { connect_timeout = some n }))
    else if is "idle_timeout" name
    then (do
      refuse_if nested "unexpected '{' after idle_timeout"
      refuse_if (is_some s.idle_timeout) "duplicate idle_timeout"
      n ← or_fail (parse_duration line)
      pure (record s { idle_timeout = some n }))
    else if is "max_connections" name
    then (do
      refuse_if nested "unexpected '{' after max_connections"
      refuse_if (is_some s.max_connections) "duplicate max_connections"
      n ← or_fail (parse_count line (codes "max_connections"))
      pure (record s { max_connections = some n }))
    else if is "health_check" name
    then (do
      refuse_if (is_some s.health_check) "duplicate health_check"
      spec ← parse_l4_health_check nested
      pure (record s { health_check = some spec }))
    else if is "sni" name
    then (do refuse_if nested "unexpected '{' after sni"; sni_route s line)
    else if is "fallback" name
    then (do refuse_if nested "unexpected '{' after fallback"; fallback_route s line)
    else if is "tls" name
    then (do
      config ← or_fail (parse_tls line nested)
      pure (record s { tls_config = some (merge_tls_config s.tls_config config) }))
    else if is "transparent" name
    then (do
      refuse_if nested "unexpected '{' after transparent"
      refuse_if (not (length line == 1)) "transparent takes no arguments"
      pure (record s { transparent = true }))
    else fail (about "unknown tcp directive '" name "'")

unfoldable pub tcp_line : TcpSlots → List Text → Bool → Method TcpSlots
unfolding text_eq l4_targets parse_lb_policy parse_duration parse_count parse_l4_health_check
    normalize_host_name parse_l4_upstream parse_tls merge_tls_config
tcp_line s line nested = tcp_option s (first_word line) line nested

abbrev pub no_routes : List SniRoute → Bool
no_routes [] = true
no_routes (r ∷ routes) = false

-- Which settings exclude one another.
abbrev pub check_modes : TcpSlots → Method (Unit {0})
check_modes s =
    if not (no_routes s.sni_routes)
    then (do
      refuse_if (is_some s.tls_config) "TLS termination cannot be combined with SNI routing"
      refuse_if (not (no_upstreams s.upstreams)) "sni routing cannot be combined with `to`"
      refuse_if (is_some s.health_check)
          "sni routing does not support health_check (per-route health is planned)"
      refuse_if s.transparent "transparent mode cannot be combined with SNI routing")
    else (do
      refuse_if (is_some s.sni_fallback) "fallback requires sni routing"
      refuse_if (no_upstreams s.upstreams)
          "tcp requires at least one upstream (to <host>:<port> ... or sni ...)")

abbrev pub tcp_config : SocketAddr → TcpSlots → TcpProxyConfig
tcp_config listen s = record {
  listen = listen;
  tls_config = s.tls_config;
  transparent = s.transparent;
  upstreams = s.upstreams;
  lb_policy = unwrap_or s.lb_policy round_robin;
  connect_timeout = unwrap_or s.connect_timeout (from_secs 5);
  idle_timeout = unwrap_or s.idle_timeout (from_secs (5 * 60));
  max_connections = unwrap_or s.max_connections 10_000;
  health_check = s.health_check;
  sni_routes = s.sni_routes;
  sni_fallback = s.sni_fallback;
}

-- The tests behind the loop.
unfoldable pub finish_tcp : SocketAddr → TcpSlots → Method TcpProxyConfig
finish_tcp listen s = do
  check_modes s
  refuse_if (s.transparent && is_some s.tls_config)
      "transparent mode cannot be combined with TLS termination"
  let tcp = tcp_config listen s
  refuse_if (tcp.connect_timeout == 0 || tcp.idle_timeout == 0)
      "tcp connect_timeout and idle_timeout must be greater than zero"
  pure tcp

unfoldable pub parse_layer4_tcp : (Text → Option IpAddr) → List Text → Bool → Method TcpProxyConfig
unfolding block tcp_line finish_tcp parse_listen_address
parse_layer4_tcp parse_ip words block_open = do
  refuse_if (not block_open) "tcp requires a block: tcp <address> { ... }"
  refuse_if (not (length words == 2)) "tcp requires exactly one listen address, e.g. tcp :3306"
  listen ← or_fail (parse_listen_address parse_ip (second_word words))
  s ← block (codes "unexpected end of file in tcp block") tcp_line no_tcp_slots
  finish_tcp listen s
