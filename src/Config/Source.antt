-- ===== src/Config/Source.antt =====
-- config/ast.rs: the source AST that the parser builds.
use raddy.Base.{ℕ, ◌*◌, List, [], Option, none, Bool, false}
use raddy.Compression.{Encoding}
use raddy.Config.{SiteKey, RateUnit, LbPolicy}
use raddy.Dns.{DnsChallenge}
use raddy.Values.{Text}
use raddy.Values.Addresses.{SocketAddr, Upstream, L4Upstream, Cidr}
use raddy.Values.Templates.{ValueTemplate}

pub data RateLimitKey : Type 0 where
  remote_ip : RateLimitKey
  header : (name : Text) → RateLimitKey

pub record RateLimitSpec : Type 0 where
  pub key : RateLimitKey
  pub count : ℕ
  pub unit : RateUnit
  pub burst : ℕ

pub data AccessLogFormat : Type 0 where
  json common : AccessLogFormat

pub data AccessLogDirective : Type 0 where
  off : AccessLogDirective
  file : (path : Text) (format : AccessLogFormat) → AccessLogDirective

pub data LogLevel : Type 0 where
  debug info warn error : LogLevel

pub record GlobalConfig : Type 0 where
  pub acme_email : Option Text
  pub log_level : Option LogLevel
  pub trusted_proxies : List Cidr
  pub dns_challenge : Option DnsChallenge
  pub tls_alpn_challenge : Bool
  pub access_log : Option AccessLogDirective

abbrev pub global_default : GlobalConfig
global_default = record {
  acme_email = none;
  log_level = none;
  trusted_proxies = [];
  dns_challenge = none;
  tls_alpn_challenge = false;
  access_log = none;
}

pub record ProxyTlsConfig : Type 0 where
  pub servername : Option Text
  pub skip_verify : Bool
  pub ca_files : List Text
  pub cert_file : Option Text
  pub key_file : Option Text

abbrev pub proxy_tls_default : ProxyTlsConfig
proxy_tls_default = record {
  servername = none;
  skip_verify = false;
  ca_files = [];
  cert_file = none;
  key_file = none;
}

pub data TlsSource : Type 0 where
  acme internal : TlsSource
  static : (cert_file key_file : Text) → TlsSource

pub data TlsVersion : Type 0 where
  tls_12 tls_13 : TlsVersion

pub data ClientAuthMode : Type 0 where
  optional require : ClientAuthMode

pub record ClientAuth : Type 0 where
  pub mode : ClientAuthMode
  pub ca_file : Text

pub record TlsConfig : Type 0 where
  pub source : TlsSource
  pub min_version : Option TlsVersion
  pub max_version : Option TlsVersion
  pub ciphers : Option Text
  pub client_auth : Option ClientAuth

abbrev pub tls_default : TlsConfig
tls_default = record {
  source = acme;
  min_version = none;
  max_version = none;
  ciphers = none;
  client_auth = none;
}

pub data Protocol : Type 0 where
  http https : Protocol

pub data Matcher : Type 0 where
  path_is : (path : Text) → Matcher
  host_is : (host : Text) → Matcher
  method_is : (method : Text) → Matcher
  header_is : (name value : Text) → Matcher
  query_is : (key value : Text) → Matcher
  remote_ip_in : (networks : List Cidr) → Matcher
  protocol_is : (protocol : Protocol) → Matcher
  negation : (matcher : Matcher) → Matcher

-- Durations are in nanoseconds.
pub record HealthCheckSpec : Type 0 where
  pub interval : ℕ
  pub timeout : ℕ
  pub consecutive_failures : ℕ
  pub consecutive_successes : ℕ

abbrev pub from_secs : ℕ → ℕ
from_secs n = n * 1_000_000_000

abbrev pub health_check_default : HealthCheckSpec
health_check_default = record {
  interval = from_secs 5;
  timeout = from_secs 2;
  consecutive_failures = 3;
  consecutive_successes = 2;
}

mutual
  pub data Directive : Type 0 where
    reverse_proxy :
        (matcher : List Matcher) (to : List Upstream) (lb_policy : LbPolicy)
        (health_check : Option HealthCheckSpec) (tls : ProxyTlsConfig)
        → Directive
    handle handle_path : (matcher : List Matcher) (directives : Directives) → Directive
    header_up header_down : (name : Text) (value : ValueTemplate) → Directive
    file_server : Directive
    root : (path : Text) → Directive
    encode : (algorithms : List Encoding) → Directive
    redir : (to : Text) (code : ℕ) → Directive
    rewrite : (to : ValueTemplate) → Directive
    respond : (matcher : List Matcher) (status : ℕ) (body : Option Text) → Directive
    error_page : (matcher : List Matcher) (status : Option ℕ) (message : Option Text) → Directive
    basic_auth : (user hash : Text) → Directive
    forward_auth : (target : Text) → Directive
    access_log_off : Directive
    trusted_proxies : (networks : List Cidr) → Directive
    rate_limit : (spec : RateLimitSpec) → Directive
    tls : (config : TlsConfig) → Directive

  pub data Directives : Type 0 where
    nil : Directives
    cons : (directive : Directive) (directives : Directives) → Directives

pub record SniRoute : Type 0 where
  pub name : Text
  pub upstream : L4Upstream

pub record TcpProxyConfig : Type 0 where
  pub listen : SocketAddr
  pub tls_config : Option TlsConfig
  pub transparent : Bool
  pub upstreams : List L4Upstream
  pub lb_policy : LbPolicy
  pub connect_timeout : ℕ
  pub idle_timeout : ℕ
  pub max_connections : ℕ
  pub health_check : Option HealthCheckSpec
  pub sni_routes : List SniRoute
  pub sni_fallback : Option L4Upstream

pub record UdpProxyConfig : Type 0 where
  pub listen : SocketAddr
  pub upstreams : List L4Upstream
  pub lb_policy : LbPolicy
  pub idle_timeout : ℕ
  pub max_flows : ℕ
  pub max_datagram_size : ℕ
  pub recv_buffer : ℕ
  pub send_buffer : ℕ

pub data Layer4Listener : Type 0 where
  tcp : (config : TcpProxyConfig) → Layer4Listener
  udp : (config : UdpProxyConfig) → Layer4Listener

pub record Site : Type 0 where
  pub key : SiteKey
  pub directives : Directives

pub record Raddexfile : Type 0 where
  pub global : GlobalConfig
  pub sites : List Site
  pub layer4 : List Layer4Listener
