-- ===== src/Parser/Proxy.antt =====
-- config/parser.rs: the `reverse_proxy` directive.
use raddy.Base.{
  List, [], ◌∷◌, ◌++◌, Option, none, some, Bool, true, false, not, is_some, length, drop, ◌==◌,
  if◌then◌else◌,
}
use raddy.Config.{LbPolicy, round_robin}
use raddy.Config.Source.{
  Directive, reverse_proxy, Matcher, HealthCheckSpec, ProxyTlsConfig, proxy_tls_default,
}
use raddy.Config.Wildcard.{text_eq}
use raddy.Parser.{Method, pure, ◌>>=◌, ◌>>◌, or_fail, fail, refuse_if, block}
use raddy.Parser.Arguments.{each, parse_lb_policy}
use raddy.Parser.Health.{unwrap_or, parse_health_check}
use raddy.Parser.Layer4.{second_word}
use raddy.Parser.Matchers.{parse_matchers}
use raddy.Values.{Text, codes, is, about, first_word}
use raddy.Values.Addresses.{IpAddr, parse_upstream}

pub record ProxySlots : Type 0 where
  pub targets : List Text
  pub lb_policy : Option LbPolicy
  pub health_check : Option HealthCheckSpec
  pub tls : ProxyTlsConfig

abbrev pub no_proxy_slots : ProxySlots
no_proxy_slots = record {
  targets = [];
  lb_policy = none;
  health_check = none;
  tls = proxy_tls_default;
}

abbrev pub certificate : ProxySlots → List Text → Method ProxySlots
certificate s (_ ∷ cert ∷ key ∷ []) =
    pure (record s { tls = record s.tls { cert_file = some cert; key_file = some key } })
certificate s line = fail (codes "tls_cert requires a certificate and a key file")

abbrev pub proxy_option : ProxySlots → Text → List Text → Bool → Method ProxySlots
proxy_option s name line nested =
    if is "to" name
    then (do
      refuse_if nested "unexpected '{' after 'to'"
      pure (record s { targets = s.targets ++ drop 1 line }))
    else if is "lb_policy" name
    then (do
      refuse_if nested "unexpected '{' after lb_policy"
      refuse_if (is_some s.lb_policy) "duplicate lb_policy"
      policy ← or_fail (parse_lb_policy line)
      pure (record s { lb_policy = some policy }))
    else if is "health_check" name
    then (do
      refuse_if (is_some s.health_check) "duplicate health_check"
      spec ← parse_health_check nested
      pure (record s { health_check = some spec }))
    else if is "tls_servername" name
    then (do
      refuse_if nested "unexpected '{' after tls_servername"
      refuse_if (is_some s.tls.servername) "duplicate tls_servername"
      refuse_if (not (length line == 2)) "tls_servername requires exactly one argument"
      pure (record s { tls = record s.tls { servername = some (second_word line) } }))
    else if is "tls_skip_verify" name
    then (do
      refuse_if nested "unexpected '{' after tls_skip_verify"
      refuse_if (not (length line == 1)) "tls_skip_verify takes no arguments"
      pure (record s { tls = record s.tls { skip_verify = true } }))
    else if is "tls_ca" name
    then (do
      refuse_if nested "unexpected '{' after tls_ca"
      refuse_if (not (length line == 2)) "tls_ca requires exactly one argument"
      pure (record s { tls = record s.tls { ca_files = s.tls.ca_files ++ second_word line ∷ [] } }))
    else if is "tls_cert" name
    then (do refuse_if nested "unexpected '{' after tls_cert"; certificate s line)
    else fail (about "unexpected directive '" name "' in reverse_proxy block")

unfoldable pub proxy_line : ProxySlots → List Text → Bool → Method ProxySlots
unfolding text_eq parse_lb_policy parse_health_check
proxy_line s line nested = proxy_option s (first_word line) line nested

abbrev pub proxy_eof : Text
proxy_eof = codes "unexpected end of file in reverse_proxy block"

-- The settings: of the block, or the one target of the line.
abbrev pub proxy_slots : List Text → Bool → Method ProxySlots
proxy_slots rest true = block proxy_eof proxy_line no_proxy_slots
proxy_slots (target ∷ []) false = pure (record no_proxy_slots { targets = target ∷ [] })
proxy_slots rest false = fail (codes "reverse_proxy requires exactly one target")

abbrev pub no_words : List Text → Bool
no_words [] = true
no_words (w ∷ words) = false

unfoldable pub finish_proxy : List Matcher → ProxySlots → Method Directive
unfolding each parse_upstream
finish_proxy matcher s = do
  refuse_if (no_words s.targets) "reverse_proxy requires at least one upstream target"
  to ← or_fail (each parse_upstream s.targets)
  pure (reverse_proxy matcher to (unwrap_or s.lb_policy round_robin) s.health_check s.tls)

unfoldable pub parse_reverse_proxy : (Text → Option IpAddr) → List Text → Bool → Method Directive
unfolding block proxy_line finish_proxy parse_matchers
parse_reverse_proxy parse_ip words block_open = do
  parsed ← or_fail (parse_matchers parse_ip (drop 1 words))
  s ← proxy_slots parsed.1 block_open
  finish_proxy parsed.0 s
