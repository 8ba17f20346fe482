-- ===== src/Parser/Settings.antt =====
-- config/parser.rs: the lines of TLS, of rate limits and of logs.
use raddy.Base.{ℕ, List, [], ◌∷◌, none, some, Bool, true, false, drop, ltb, if◌then◌else◌}
use raddy.Config.Source.{
  Directive, access_log_off, rate_limit, RateLimitKey, remote_ip, header, TlsConfig, tls_default,
  internal, static, TlsVersion, tls_12, tls_13, ClientAuthMode, optional, require, AccessLogFormat,
  json, common, AccessLogDirective, off, file, LogLevel, debug, info, warn, error,
}
use raddy.Config.Wildcard.{strip_prefix, text_eq}
use raddy.Dns.{join}
use raddy.Values.{
  Text, codes, is, about, Result, ok, err, ◌>>=◌, ◌>>◌, reject_if, ok_or, parse_uint, u64_limit,
  parse_rate,
}

abbrev pub parse_version : Text → Result TlsVersion
parse_version v =
    if is "1.2" v
    then ok tls_12
    else if is "1.3" v
    then ok tls_13
    else err (about "invalid TLS version '" v "' (expected 1.2 or 1.3)")

abbrev pub parse_mode : Text → Result ClientAuthMode
parse_mode mode =
    if is "optional" mode
    then ok optional
    else if is "require" mode
    then ok require
    else err (about "invalid client_auth mode '" mode "' (expected optional or require)")

abbrev pub tls_internal : List Text → Result TlsConfig
tls_internal [] = ok (record tls_default { source = internal })
tls_internal args = err (codes "tls internal takes no arguments")

abbrev pub tls_min_version : List Text → Result TlsConfig
tls_min_version (v ∷ []) =
    parse_version v >>= λ version. ok (record tls_default { min_version = some version })
tls_min_version args = err (codes "tls min_version requires exactly one version")

abbrev pub tls_max_version : List Text → Result TlsConfig
tls_max_version (v ∷ []) =
    parse_version v >>= λ version. ok (record tls_default { max_version = some version })
tls_max_version args = err (codes "tls max_version requires exactly one version")

abbrev pub tls_ciphers : List Text → Result TlsConfig
tls_ciphers [] = err (codes "tls ciphers requires a cipher list")
tls_ciphers (c ∷ list) = ok (record tls_default { ciphers = some (join (codes ":") (c ∷ list)) })

abbrev pub tls_client_auth : List Text → Result TlsConfig
tls_client_auth (mode ∷ ca ∷ []) = parse_mode mode >>= λ m.
    ok (record tls_default { client_auth = some (record { mode = m; ca_file = ca }) })
tls_client_auth args =
    err (codes "tls client_auth expects: client_auth <optional|require> <ca-file>")

abbrev pub tls_static : Text → List Text → Result TlsConfig
tls_static cert (key ∷ []) = ok (record tls_default { source = static cert key })
tls_static cert args = err (
    codes
      "tls expects: internal | <cert-file> <key-file> | min_version/max_version/ciphers/client_auth")

abbrev pub tls_args : List Text → Result TlsConfig
tls_args [] = ok tls_default
tls_args (first ∷ args) =
    if is "internal" first
    then tls_internal args
    else if is "min_version" first
    then tls_min_version args
    else if is "max_version" first
    then tls_max_version args
    else if is "ciphers" first
    then tls_ciphers args
    else if is "client_auth" first
    then tls_client_auth args
    else tls_static first args

-- The configuration of the directive that the source returns.
unfoldable pub parse_tls : List Text → Bool → Result TlsConfig
unfolding text_eq join
parse_tls words block_open = do
  reject_if block_open (codes "unexpected '{' after tls")
  tls_args (drop 1 words)

abbrev pub burst_of : ℕ → List Text → Result ℕ
burst_of count [] = ok count
burst_of count (arg ∷ _) = elim (strip_prefix (codes "burst=") arg) [
  | none ↦ err (about "unexpected argument '" arg "' (expected 'burst=<n>')")
  | some value ↦ ok_or (parse_uint u64_limit value) (about "invalid burst '" value "'") >>= λ burst.
      reject_if (ltb burst 1) (codes "burst must be >= 1") >> ok burst
]

-- What stands behind the key.
abbrev pub rate_args : RateLimitKey → List Text → Result Directive
rate_args key [] = err (codes "rate_limit requires a rate after the key")
rate_args key (rate ∷ args) = do
  (count, unit) ← parse_rate rate
  burst ← burst_of count args
  ok (rate_limit (record { key = key; count = count; unit = unit; burst = burst }))

abbrev pub header_rate : List Text → Result Directive
header_rate (name ∷ rate ∷ args) = rate_args (header name) (rate ∷ args)
header_rate args = err (codes "rate_limit header expects: header <name> <rate>")

abbrev pub rate_key : Text → List Text → Result Directive
rate_key kind args =
    if is "remote_ip" kind
    then rate_args remote_ip args
    else if is "header" kind
    then header_rate args
    else err (about "unknown rate_limit key '" kind "' (expected 'remote_ip' or 'header <name>')")

unfoldable pub parse_rate_limit : List Text → Bool → Result Directive
unfolding text_eq strip_prefix parse_uint parse_rate
parse_rate_limit words true = err (codes "unexpected '{' after rate_limit")
parse_rate_limit (_ ∷ kind ∷ arg ∷ args) false = rate_key kind (arg ∷ args)
parse_rate_limit words false = err (codes "rate_limit expects: rate_limit <key> <rate> [burst=<n>]")

abbrev pub log_format : Text → Result AccessLogFormat
log_format arg = elim (strip_prefix (codes "format=") arg) [
  | none ↦ err (about "unexpected argument '" arg "' (expected 'format=<json|common>')")
  | some format ↦
      if is "json" format
      then ok json
      else if is "common" format
      then ok common
      else err (about "invalid access_log format '" format "' (expected json or common)")
]

unfoldable pub parse_access_log_directive : List Text → Result AccessLogDirective
unfolding text_eq strip_prefix
parse_access_log_directive (_ ∷ path ∷ []) = if is "off" path then ok off else ok (file path json)
parse_access_log_directive (_ ∷ path ∷ arg ∷ []) =
    log_format arg >>= λ format. ok (file path format)
parse_access_log_directive words =
    err (codes "access_log expects: access_log <path> [format=<json|common>] | access_log off")

unfoldable pub parse_access_log : List Text → Bool → Result Directive
unfolding text_eq
parse_access_log words true = err (codes "unexpected '{' after access_log")
parse_access_log (_ ∷ value ∷ []) false =
    if is "off" value
    then ok access_log_off
    else err (codes "site-block access_log only supports 'off'")
parse_access_log words false = err (codes "site-block access_log only supports 'off'")

unfoldable pub parse_log_level : Text → Result LogLevel
unfolding text_eq
parse_log_level level =
    if is "debug" level
    then ok debug
    else if is "info" level
    then ok info
    else if is "warn" level
    then ok warn
    else if is "error" level
    then ok error
    else err (about "invalid log_level '" level "' (expected debug, info, warn, error)")
