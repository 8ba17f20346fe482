-- ===== src/Parser/Safety/Blocks.antt =====
-- config/parser.rs: the blocks with settings are safe.
use raddy.Base.{ℕ, List, [], ◌∷◌, Option, Bool, true, false}
use raddy.Config.Source.{GlobalConfig, Matcher}
use raddy.Dns.{DnsCredentials, DnsProviderSpec}
use raddy.Parser.Global.{
  credential_line, parse_dns_credentials, challenge_entries, parse_dns_challenge, global_option,
  apply_global,
}
use raddy.Parser.Health.{
  HealthSlots, health_line, health_option, parse_health_check, parse_l4_health_check,
}
use raddy.Parser.Layer4.{UdpSlots, l4_targets, udp_option, udp_line, finish_udp, parse_layer4_udp}
use raddy.Parser.Layer4.Tcp.{
  TcpSlots, sni_route, fallback_route, tcp_option, tcp_line, finish_tcp, check_modes,
  parse_layer4_tcp,
}
use raddy.Parser.Proxy.{
  ProxySlots, certificate, proxy_option, proxy_line, proxy_slots, finish_proxy, parse_reverse_proxy,
}
use raddy.Parser.Safety.{IsSafe, safe, pure-IsSafe, or_fail-IsSafe, bind-IsSafe}
use raddy.Parser.Safety.Statements.{block-IsSafe}
use raddy.Values.{Text, first_word}
use raddy.Values.Addresses.{IpAddr, SocketAddr}

module _ {name : Text} {IsSpot : ℕ × ℕ → Type 0} {n : ℕ} where
  health_option-IsSafe :
      (s : HealthSlots) (w : Text) (line : List Text)
      → IsSafe name IsSpot n (health_option s w line)
  health_option-IsSafe s w line = search safe depth 30 fits 4000

  l4_targets-IsSafe : (line : List Text) → IsSafe name IsSpot n (l4_targets line)
  unfolding l4_targets
  l4_targets-IsSafe line = search safe

  sni_route-IsSafe : (s : TcpSlots) (line : List Text) → IsSafe name IsSpot n (sni_route s line)
  sni_route-IsSafe s [] = search safe
  sni_route-IsSafe s (w ∷ []) = search safe
  sni_route-IsSafe s (w ∷ raw ∷ []) = search safe
  sni_route-IsSafe s (w ∷ raw ∷ target ∷ []) = search safe depth 30 fits 4000
  sni_route-IsSafe s (w ∷ raw ∷ target ∷ x ∷ rest) = search safe

  fallback_route-IsSafe :
      (s : TcpSlots) (line : List Text) → IsSafe name IsSpot n (fallback_route s line)
  fallback_route-IsSafe s [] = search safe
  fallback_route-IsSafe s (w ∷ []) = search safe
  fallback_route-IsSafe s (w ∷ target ∷ []) = search safe depth 30 fits 4000
  fallback_route-IsSafe s (w ∷ target ∷ x ∷ rest) = search safe

  certificate-IsSafe :
      (s : ProxySlots) (line : List Text) → IsSafe name IsSpot n (certificate s line)
  certificate-IsSafe s [] = search safe
  certificate-IsSafe s (w ∷ []) = search safe
  certificate-IsSafe s (w ∷ cert ∷ []) = search safe
  certificate-IsSafe s (w ∷ cert ∷ key ∷ []) = search safe
  certificate-IsSafe s (w ∷ cert ∷ key ∷ x ∷ rest) = search safe

  udp_option-IsSafe :
      (s : UdpSlots) (w : Text) (line : List Text) → IsSafe name IsSpot n (udp_option s w line)
  udp_option-IsSafe s w line = search (safe, l4_targets-IsSafe) depth 40 fits 4000

  check_modes-IsSafe : (s : TcpSlots) → IsSafe name IsSpot n (check_modes s)
  check_modes-IsSafe s = search safe depth 30 fits 4000

module _ {name : Text} {IsSpot : ℕ × ℕ → Type 0} where
  health_line-IsSafe :
      (n : ℕ) (s : HealthSlots) (line : List Text) (nested : Bool)
      → IsSafe name IsSpot n (health_line s line nested)
  unfolding health_line
  health_line-IsSafe n s line nested = search (safe, health_option-IsSafe)

  udp_line-IsSafe :
      (n : ℕ) (s : UdpSlots) (line : List Text) (nested : Bool)
      → IsSafe name IsSpot n (udp_line s line nested)
  unfolding udp_line
  udp_line-IsSafe n s line nested = search (safe, udp_option-IsSafe)

  credential_line-IsSafe :
      (keyword : Text) (n : ℕ) (s : DnsCredentials) (line : List Text) (nested : Bool)
      → IsSafe name IsSpot n (credential_line keyword s line nested)
  unfolding credential_line
  credential_line-IsSafe keyword n s line nested = search safe

module _ {name : Text} {IsSpot : ℕ × ℕ → Type 0} {n : ℕ} where
  parse_l4_health_check-IsSafe :
      (block_open : Bool) → IsSafe name IsSpot n (parse_l4_health_check block_open)
  unfolding parse_l4_health_check
  parse_l4_health_check-IsSafe false = pure-IsSafe _
  parse_l4_health_check-IsSafe true =
      bind-IsSafe (block-IsSafe _ _ health_line-IsSafe _) (λ s. search safe)

  parse_health_check-IsSafe :
      (block_open : Bool) → IsSafe name IsSpot n (parse_health_check block_open)
  unfolding parse_health_check
  parse_health_check-IsSafe false = pure-IsSafe _
  parse_health_check-IsSafe true =
      bind-IsSafe (block-IsSafe _ _ health_line-IsSafe _) (λ s. search safe)

  tcp_option-IsSafe :
      (s : TcpSlots) (w : Text) (line : List Text) (nested : Bool)
      → IsSafe name IsSpot n (tcp_option s w line nested)
  tcp_option-IsSafe s w line nested =
      search
        (
          safe, l4_targets-IsSafe, parse_l4_health_check-IsSafe, sni_route-IsSafe,
          fallback_route-IsSafe,
        )
        depth 50 fits 8000

  proxy_option-IsSafe :
      (s : ProxySlots) (w : Text) (line : List Text) (nested : Bool)
      → IsSafe name IsSpot n (proxy_option s w line nested)
  proxy_option-IsSafe s w line nested =
      search (safe, parse_health_check-IsSafe, certificate-IsSafe) depth 50 fits 8000

module _ {name : Text} {IsSpot : ℕ × ℕ → Type 0} where
  tcp_line-IsSafe :
      (n : ℕ) (s : TcpSlots) (line : List Text) (nested : Bool)
      → IsSafe name IsSpot n (tcp_line s line nested)
  unfolding tcp_line
  tcp_line-IsSafe n s line nested = tcp_option-IsSafe s (first_word line) line nested

  proxy_line-IsSafe :
      (n : ℕ) (s : ProxySlots) (line : List Text) (nested : Bool)
      → IsSafe name IsSpot n (proxy_line s line nested)
  unfolding proxy_line
  proxy_line-IsSafe n s line nested = proxy_option-IsSafe s (first_word line) line nested

module _ {name : Text} {IsSpot : ℕ × ℕ → Type 0} {n : ℕ} where
  finish_udp-IsSafe :
      (listen : SocketAddr) (s : UdpSlots) → IsSafe name IsSpot n (finish_udp listen s)
  unfolding finish_udp
  finish_udp-IsSafe listen s = search safe depth 20

  finish_tcp-IsSafe :
      (listen : SocketAddr) (s : TcpSlots) → IsSafe name IsSpot n (finish_tcp listen s)
  unfolding finish_tcp
  finish_tcp-IsSafe listen s = search (safe, check_modes-IsSafe) depth 20

  finish_proxy-IsSafe :
      (matcher : List Matcher) (s : ProxySlots) → IsSafe name IsSpot n (finish_proxy matcher s)
  unfolding finish_proxy
  finish_proxy-IsSafe matcher s = search safe depth 20

  proxy_slots-IsSafe :
      (rest : List Text) (block_open : Bool) → IsSafe name IsSpot n (proxy_slots rest block_open)
  proxy_slots-IsSafe rest true = block-IsSafe _ _ proxy_line-IsSafe _
  proxy_slots-IsSafe [] false = search safe
  proxy_slots-IsSafe (w ∷ []) false = search safe
  proxy_slots-IsSafe (w ∷ v ∷ rest) false = search safe

  challenge_entries-IsSafe :
      (keyword : Text) (spec : DnsProviderSpec) (words : List Text) (block_open : Bool)
      → IsSafe name IsSpot n (challenge_entries keyword spec words block_open)
  unfolding parse_dns_credentials
  challenge_entries-IsSafe keyword spec words true =
      bind-IsSafe (or_fail-IsSafe _) (λ u. block-IsSafe _ _ (credential_line-IsSafe keyword) _)
  challenge_entries-IsSafe keyword spec words false = or_fail-IsSafe _

  parse_dns_challenge-IsSafe :
      (words : List Text) (block_open : Bool)
      → IsSafe name IsSpot n (parse_dns_challenge words block_open)
  unfolding parse_dns_challenge
  parse_dns_challenge-IsSafe words block_open = search (safe, challenge_entries-IsSafe) depth 20

  global_option-IsSafe :
      (parse_ip : Text → Option IpAddr) (global : GlobalConfig) (w : Text) (words : List Text)
      (block_open : Bool)
      → IsSafe name IsSpot n (global_option parse_ip global w words block_open)
  global_option-IsSafe parse_ip global w words block_open =
      search (safe, parse_dns_challenge-IsSafe) depth 40 fits 4000

  pub parse_layer4_udp-IsSafe :
      (parse_ip : Text → Option IpAddr) (words : List Text) (block_open : Bool)
      → IsSafe name IsSpot n (parse_layer4_udp parse_ip words block_open)
  unfolding parse_layer4_udp
  parse_layer4_udp-IsSafe parse_ip words block_open = bind-IsSafe (or_fail-IsSafe _) (λ a.
      bind-IsSafe (or_fail-IsSafe _) (λ b.
        bind-IsSafe (or_fail-IsSafe _)
          (λ listen. bind-IsSafe (block-IsSafe _ _ udp_line-IsSafe _) (finish_udp-IsSafe listen))))

  pub parse_layer4_tcp-IsSafe :
      (parse_ip : Text → Option IpAddr) (words : List Text) (block_open : Bool)
      → IsSafe name IsSpot n (parse_layer4_tcp parse_ip words block_open)
  unfolding parse_layer4_tcp
  parse_layer4_tcp-IsSafe parse_ip words block_open = bind-IsSafe (or_fail-IsSafe _) (λ a.
      bind-IsSafe (or_fail-IsSafe _) (λ b.
        bind-IsSafe (or_fail-IsSafe _)
          (λ listen. bind-IsSafe (block-IsSafe _ _ tcp_line-IsSafe _) (finish_tcp-IsSafe listen))))

  pub parse_reverse_proxy-IsSafe :
      (parse_ip : Text → Option IpAddr) (words : List Text) (block_open : Bool)
      → IsSafe name IsSpot n (parse_reverse_proxy parse_ip words block_open)
  unfolding parse_reverse_proxy
  parse_reverse_proxy-IsSafe parse_ip words block_open = bind-IsSafe (or_fail-IsSafe _) (λ parsed.
      bind-IsSafe (proxy_slots-IsSafe parsed.1 block_open) (finish_proxy-IsSafe parsed.0))

module _ {name : Text} {IsSpot : ℕ × ℕ → Type 0} where
  pub apply_global-IsSafe :
      (parse_ip : Text → Option IpAddr) (n : ℕ) (global : GlobalConfig) (words : List Text)
      (block_open : Bool)
      → IsSafe name IsSpot n (apply_global parse_ip global words block_open)
  unfolding apply_global
  apply_global-IsSafe parse_ip n global words block_open = search (safe, global_option-IsSafe)
