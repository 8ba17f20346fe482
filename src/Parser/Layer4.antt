-- ===== src/Parser/Layer4.antt =====
-- config/parser.rs: the `udp` listener block.
pub mod Tcp
use raddy.Base.{
  ℕ, List, [], ◌∷◌, ◌++◌, Option, none, some, Bool, true, false, not, ◌&&◌, ◌||◌, is_some, length,
  drop, ltb, ◌==◌, if◌then◌else◌,
}
use raddy.Config.{LbPolicy, round_robin}
use raddy.Config.Source.{UdpProxyConfig, from_secs}
use raddy.Config.Wildcard.{text_eq}
use raddy.Parser.{Method, pure, ◌>>=◌, ◌>>◌, or_fail, fail, refuse_if, block}
use raddy.Parser.Arguments.{each, parse_lb_policy}
use raddy.Parser.Health.{unwrap_or}
use raddy.Values.{
  Text, codes, is, about, first_word, Result, err, parse_duration, parse_count, parse_bytes,
}
use raddy.Values.Addresses.{IpAddr, SocketAddr, L4Upstream, parse_listen_address, parse_l4_upstream}

pub record UdpSlots : Type 0 where
  pub upstreams : List L4Upstream
  pub lb_policy : Option LbPolicy
  pub idle_timeout : Option ℕ
  pub max_flows : Option ℕ
  pub max_datagram_size : Option ℕ
  pub recv_buffer : Option ℕ
  pub send_buffer : Option ℕ

abbrev pub no_udp_slots : UdpSlots
no_udp_slots = record {
  upstreams = [];
  lb_policy = none;
  idle_timeout = none;
  max_flows = none;
  max_datagram_size = none;
  recv_buffer = none;
  send_buffer = none;
}

-- The upstreams of a `to` line.
unfoldable pub l4_targets : List Text → Method (List L4Upstream)
unfolding each parse_l4_upstream
l4_targets line = do
  refuse_if (ltb (length line) 2) "to requires at least one upstream"
  or_fail (each parse_l4_upstream (drop 1 line))

-- The one value of a size's line.
abbrev pub size_value : Text → List Text → Result ℕ
size_value name (_ ∷ value ∷ []) = parse_bytes value
size_value name line = err (about "" name " requires exactly one value")

abbrev pub udp_option : UdpSlots → Text → List Text → Method UdpSlots
udp_option s name line =
    if is "to" name
    then (do us ← l4_targets line; pure (record s { upstreams = s.upstreams ++ us }))
    else if is "lb_policy" name
    then (do
      refuse_if (is_some s.lb_policy) "duplicate lb_policy"
      policy ← or_fail (parse_lb_policy line)
      pure (record s { lb_policy = some policy }))
    else if is "idle_timeout" name
    then (do
      refuse_if (is_some s.idle_timeout) "duplicate idle_timeout"
      n ← or_fail (parse_duration line)
      pure (record s { idle_timeout = some n }))
    else if is "max_flows" name
    then (do
      refuse_if (is_some s.max_flows) "duplicate max_flows"
      n ← or_fail (parse_count line (codes "max_flows"))
      pure (record s { max_flows = some n }))
    else if is "max_datagram_size" name
    then (do
      refuse_if (is_some s.max_datagram_size) "duplicate max_datagram_size"
      n ← or_fail (size_value (codes "max_datagram_size") line)
      pure (record s { max_datagram_size = some n }))
    else if is "recv_buffer" name
    then (do
      refuse_if (is_some s.recv_buffer) "duplicate recv_buffer"
      n ← or_fail (size_value (codes "recv_buffer") line)
      pure (record s { recv_buffer = some n }))
    else if is "send_buffer" name
    then (do
      refuse_if (is_some s.send_buffer) "duplicate send_buffer"
      n ← or_fail (size_value (codes "send_buffer") line)
      pure (record s { send_buffer = some n }))
    else fail (about "unknown udp directive '" name "'")

unfoldable pub udp_line : UdpSlots → List Text → Bool → Method UdpSlots
unfolding text_eq l4_targets parse_lb_policy parse_duration parse_count parse_bytes
udp_line s line nested = do
  refuse_if nested "unexpected '{' in udp block"
  udp_option s (first_word line) line

abbrev pub udp_config : SocketAddr → UdpSlots → UdpProxyConfig
udp_config listen s = record {
  listen = listen;
  upstreams = s.upstreams;
  lb_policy = unwrap_or s.lb_policy round_robin;
  idle_timeout = unwrap_or s.idle_timeout (from_secs 30);
  max_flows = unwrap_or s.max_flows 50_000;
  max_datagram_size = unwrap_or s.max_datagram_size 4096;
  recv_buffer = unwrap_or s.recv_buffer 0;
  send_buffer = unwrap_or s.send_buffer 0;
}

abbrev pub no_upstreams : List L4Upstream → Bool
no_upstreams [] = true
no_upstreams (u ∷ us) = false

-- The tests behind the loop.
unfoldable pub finish_udp : SocketAddr → UdpSlots → Method UdpProxyConfig
finish_udp listen s = do
  refuse_if (no_upstreams s.upstreams) "udp requires at least one upstream (to <host>:<port> ...)"
  let udp = udp_config listen s
  refuse_if (udp.idle_timeout == 0 || (udp.max_flows == 0 || udp.max_datagram_size == 0))
      "udp idle_timeout, max_flows, and max_datagram_size must be greater than zero"
  pure udp

abbrev pub second_word : List Text → Text
second_word (_ ∷ w ∷ words) = w
second_word words = []

unfoldable pub parse_layer4_udp : (Text → Option IpAddr) → List Text → Bool → Method UdpProxyConfig
unfolding block udp_line finish_udp parse_listen_address
parse_layer4_udp parse_ip words block_open = do
  refuse_if (not block_open) "udp requires a block: udp <address> { ... }"
  refuse_if (not (length words == 2)) "udp requires exactly one listen address, e.g. udp :53"
  listen ← or_fail (parse_listen_address parse_ip (second_word words))
  s ← block (codes "unexpected end of file in udp block") udp_line no_udp_slots
  finish_udp listen s
