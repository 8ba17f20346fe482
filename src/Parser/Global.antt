-- ===== src/Parser/Global.antt =====
-- config/parser.rs: the global block and its `dns_challenge`.
use raddy.Base.{
  List, [], ◌∷◌, ◌++◌, Option, none, some, Bool, true, false, not, ◌&&◌, any, length, ◌==◌,
  if◌then◌else◌,
}
use raddy.Config.Source.{GlobalConfig}
use raddy.Config.Wildcard.{text_eq}
use raddy.Dns.{DnsCredentials, DnsProviderSpec, DnsChallenge, lookup, keywords, validate}
use raddy.Parser.{Method, pure, ◌>>=◌, ◌>>◌, or_fail, fail, refuse_if, block}
use raddy.Parser.Arguments.{parse_networks}
use raddy.Parser.Layer4.{second_word}
use raddy.Parser.Settings.{parse_access_log_directive, parse_log_level}
use raddy.Values.{Text, codes, is, about, first_word, Result, err, ok, reject_if, ok_or}
use raddy.Values.Addresses.{IpAddr}

abbrev pub credential : Text → DnsCredentials → List Text → Result DnsCredentials
credential keyword entries (name ∷ value ∷ []) =
    if any (λ e. text_eq e.0 name) entries
    then err (about "duplicate dns_challenge " keyword " credential '" ++ about "" name "'")
    else ok (entries ++ (name, value) ∷ [])
credential keyword entries line = err (
    about "dns_challenge " keyword " credential '"
    ++ about "" (first_word line) "' takes exactly one value")

unfoldable pub credential_line : Text → DnsCredentials → List Text → Bool → Method DnsCredentials
unfolding text_eq
credential_line keyword entries line nested = do
  or_fail (reject_if nested (about "unexpected '{' in dns_challenge " keyword " block"))
  or_fail (credential keyword entries line)

unfoldable pub parse_dns_credentials : Text → Method DnsCredentials
unfolding block credential_line
parse_dns_credentials keyword =
    block (about "unexpected end of file in dns_challenge " keyword " block")
      (credential_line keyword) []

abbrev pub third_word : List Text → Text
third_word (_ ∷ _ ∷ w ∷ words) = w
third_word words = []

abbrev pub shorthand : Text → List Text → Option Text → Result DnsCredentials
shorthand keyword words none = err (
    about "dns_challenge " keyword " needs several credentials: use the block form "
    ++ about "'dns_challenge " keyword " { ... }'")
shorthand keyword words (some field) =
    if not (length words == 3)
    then err
        (about "dns_challenge " keyword " takes one argument (" ++ about "" field "), or a block")
    else ok ((field, third_word words) ∷ [])

abbrev pub challenge_entries : Text → DnsProviderSpec → List Text → Bool → Method DnsCredentials
challenge_entries keyword spec words true =
    or_fail (
      reject_if (not (length words == 2))
        (about "dns_challenge " keyword " takes no arguments before '{'"))
    >> parse_dns_credentials keyword
challenge_entries keyword spec words false = or_fail (shorthand keyword words spec.shorthand_field)

abbrev pub challenge_provider : List Text → Result DnsProviderSpec
challenge_provider (_ ∷ keyword ∷ args) =
    ok_or (lookup keyword)
      (about "invalid dns_challenge provider '" keyword "' (expected " ++ keywords ++ codes ")")
challenge_provider words = err (about "dns_challenge requires a provider (expected " keywords ")")

unfoldable pub parse_dns_challenge : List Text → Bool → Method DnsChallenge
unfolding lookup keywords validate parse_dns_credentials
parse_dns_challenge words block_open = do
  spec ← or_fail (challenge_provider words)
  credentials ← challenge_entries (second_word words) spec words block_open
  or_fail (validate spec credentials)
  pure (record { provider = spec; credentials = credentials })

abbrev pub global_option :
    (Text → Option IpAddr) → GlobalConfig → Text → List Text → Bool → Method GlobalConfig
global_option parse_ip global name words block_open =
    if is "acme_email" name
    then (do
      refuse_if (not (length words == 2)) "acme_email requires exactly one argument"
      pure (record global { acme_email = some (second_word words) }))
    else if is "log_level" name
    then (do
      refuse_if (not (length words == 2)) "log_level requires exactly one argument"
      level ← or_fail (parse_log_level (second_word words))
      pure (record global { log_level = some level }))
    else if is "trusted_proxies" name
    then (do
      networks ← or_fail (parse_networks parse_ip words)
      pure (record global { trusted_proxies = networks }))
    else if is "dns_challenge" name
    then (do
      challenge ← parse_dns_challenge words block_open
      pure (record global { dns_challenge = some challenge }))
    else if is "tls_alpn_challenge" name
    then (do
      refuse_if (not (length words == 1)) "tls_alpn_challenge takes no arguments"
      pure (record global { tls_alpn_challenge = true }))
    else if is "access_log" name
    then (do
      log ← or_fail (parse_access_log_directive words)
      pure (record global { access_log = some log }))
    else fail (about "unknown global directive '" name "'")

unfoldable pub apply_global :
    (Text → Option IpAddr) → GlobalConfig → List Text → Bool → Method GlobalConfig
unfolding text_eq parse_networks parse_log_level parse_dns_challenge parse_access_log_directive
apply_global parse_ip global words block_open = do
  or_fail (
      reject_if (block_open && not (is "dns_challenge" (first_word words)))
        (about "unexpected '{' after " (first_word words) " in global block"))
  global_option parse_ip global (first_word words) words block_open
