-- ===== src/Validation/Compile.antt =====
-- config/validate.rs: a site is compiled to its terminals and modifiers (compile_site, compile_handle_block,
-- compile_reverse_proxy_terminal, merge_tls, validate_header_name, validate_encodings) and config/ast.rs: what it is
-- compiled to.
pub mod Order
pub mod Guards
pub mod Scopes
use raddy.Base.{
  ℕ, List, [], ◌∷◌, ◌++◌, Option, none, some, Bool, true, false, not, ◌&&◌, ◌||◌, any, leb, ◌==◌,
  is_some, if◌then◌else◌,
}
use raddy.Base.Ascii.{is_digit}
use raddy.Compression.{Encoding, gzip, zstd, brotli}
use raddy.Config.{SiteKey, LbPolicy}
use raddy.Config.Source.{
  Site, Directive, Directives, nil, cons, reverse_proxy, handle, handle_path, header_up,
  header_down, file_server, root, encode, redir, rewrite, respond, error_page, basic_auth,
  forward_auth, access_log_off, trusted_proxies, rate_limit, tls, Matcher, path_is, HealthCheckSpec,
  ProxyTlsConfig, RateLimitSpec, TlsConfig, TlsSource, acme, internal, static, tls_default,
}
use raddy.Validation.{validate_tls_config}
use raddy.Validation.Upstreams.{
  UpstreamPeer, UpstreamTls, resolve_upstreams, build_upstream_tls, is_nil,
}
use raddy.Values.{Text, codes, about, Result, ok, err, ◌>>=◌, ◌>>◌, reject_if, ok_or}
use raddy.Values.Addresses.{SocketAddr, Upstream, Cidr}
use raddy.Values.Templates.{ValueTemplate, parse_template}

pub data Modifier : Type 0 where
  header_up_modifier header_down_modifier : (name : Text) (value : ValueTemplate) → Modifier
  encode_modifier : (algorithms : List Encoding) → Modifier
  rate_limit_modifier : (spec : RateLimitSpec) → Modifier
  rewrite_modifier : (to : ValueTemplate) → Modifier
  basic_auth_modifier : (users : List (Text × Text)) → Modifier
  forward_auth_modifier : (target : Text) → Modifier

pub data TerminalKind (X509 PKey : Type 0) : Type 0 where
  reverse_proxy_terminal :
      (upstreams : List UpstreamPeer) (lb_policy : LbPolicy) (health_check : Option HealthCheckSpec)
      (options : Option (UpstreamTls X509 PKey))
      → TerminalKind X509 PKey
  file_server_terminal : (root : Text) → TerminalKind X509 PKey
  redir_terminal : (to : ValueTemplate) (code : ℕ) → TerminalKind X509 PKey
  respond_terminal : (status : ℕ) (body : Option Text) → TerminalKind X509 PKey
  error_terminal : (status : ℕ) (message : Option Text) → TerminalKind X509 PKey

pub record Terminal (X509 PKey : Type 0) : Type 0 where
  pub matchers : List Matcher
  pub kind : TerminalKind X509 PKey
  pub modifiers : List Modifier
  pub strip_prefix : Option Text

pub record CompiledSite (X509 PKey : Type 0) : Type 0 where
  pub key : SiteKey
  pub terminals : List (Terminal X509 PKey)
  pub modifiers : List Modifier
  pub trusted : Option (List Cidr)
  pub tls_config : Option TlsConfig
  pub log_off : Bool

abbrev pub is_alphanumeric : ℕ → Bool
is_alphanumeric c = is_digit c || (leb b'a' c && leb c b'z') || (leb b'A' c && leb c b'Z')

abbrev pub is_header_byte : ℕ → Bool
is_header_byte c = is_alphanumeric c || any (λ b. b == c) (codes "!#$%&'*+-.^_`|~")

unfoldable pub validate_header_name : Text → Result (Unit {0})
validate_header_name name =
    reject_if (is_nil name || any (λ c. not (is_header_byte c)) name)
      (about "invalid header name '" name "'")

abbrev pub same_encoding : Encoding → Encoding → Bool
same_encoding gzip gzip = true
same_encoding zstd zstd = true
same_encoding brotli brotli = true
same_encoding _ _ = false

unfoldable pub no_duplicates : List Encoding → List Encoding → Result (Unit {0})
no_duplicates seen [] = ok tt
no_duplicates seen (alg ∷ algorithms) =
    let rest = no_duplicates (alg ∷ seen) algorithms in
    reject_if (any (same_encoding alg) seen) (codes "duplicate encode algorithm") >> rest

unfoldable pub validate_encodings : List Encoding → Result (Unit {0})
unfolding no_duplicates
validate_encodings algorithms = do
  reject_if (is_nil algorithms) (codes "encode requires at least one algorithm")
  no_duplicates [] algorithms

abbrev pub or_keep {ℓ} : {A : Type ℓ} → Option A → Option A → Option A
or_keep none old = old
or_keep (some new) old = some new

abbrev pub merged_source : TlsSource → TlsSource → TlsSource
merged_source acme old = old
merged_source new old = new

abbrev pub or_default : Option TlsConfig → TlsConfig
or_default none = tls_default
or_default (some config) = config

unfoldable pub merge_tls : Option TlsConfig → TlsConfig → Option TlsConfig
merge_tls site_tls config =
    let target = or_default site_tls in
    some (record {
      source = merged_source config.source target.source;
      min_version = or_keep config.min_version target.min_version;
      max_version = or_keep config.max_version target.max_version;
      ciphers = or_keep config.ciphers target.ciphers;
      client_auth = or_keep config.client_auth target.client_auth;
    })

-- What the directives of a block give, in write order; the root is the last one.
pub record Scope (X509 PKey : Type 0) : Type 0 where
  pub terminals : List (Terminal X509 PKey)
  pub modifiers : List Modifier
  pub last_root : Option Text
  pub basic_users : List (Text × Text)
  pub delegate : Option Text

abbrev pub users_modifier : List (Text × Text) → List Modifier
users_modifier [] = []
users_modifier (u ∷ users) = basic_auth_modifier (u ∷ users) ∷ []

abbrev pub delegate_modifier : Option Text → List Modifier
delegate_modifier none = []
delegate_modifier (some target) = forward_auth_modifier target ∷ []

abbrev pub or_500 : Option ℕ → ℕ
or_500 none = 500
or_500 (some status) = status

unfoldable pub first_path : List Matcher → Option Text
first_path [] = none
first_path (path_is prefix ∷ matchers) = some prefix
first_path (m ∷ matchers) = first_path matchers
