-- ===== src/Parser/Yields/Layer4.antt =====
-- config/parser.rs: the listeners that are accepted can be served.
pub mod Tcp
use raddy.Base.{
  ℕ, ◌+◌, ◌-◌, ◌*◌, ◌<◌, ◌≤◌, List, [], ◌∷◌, ◌++◌, Option, none, some, Bool, true, false, not, ◌&&◌,
  ◌||◌, is_some, any, map, drop, ltb, ◌==◌, All, All-append, ◌≡◌, refl, arith, if◌then◌else◌,
  Option-cases, Bool-cases, inl, inr, ltb→lt,
}
use raddy.Base.Ascii.{is_digit}
use raddy.ByteRange.{split_once}
use raddy.Config.Source.{UdpProxyConfig, from_secs}
use raddy.Config.Wildcard.{is_empty, strip_prefix}
use raddy.Parser.{Parser, Ended, done, Method, block, pure, ◌>>=◌, or_fail}
use raddy.Parser.Arguments.{each}
use raddy.Parser.Health.{unwrap_or}
use raddy.Parser.Layer4.{
  UdpSlots, no_udp_slots, l4_targets, udp_option, udp_line, udp_config, no_upstreams, finish_udp,
  parse_layer4_udp,
}
use raddy.Parser.Yields.{
  Holds, HoldsOk, ok-HoldsOk, bind-HoldsOk, any-HoldsOk, Yields, pure-Yields, or_fail-Yields,
  fail-Yields, if-Yields, bind-Yields, any-Yields, refuse-Yields, block-Yields, done-Yields,
}
use raddy.Values
use raddy.Values.{
  Text, codes, about, first_word, Result, ok, err, digits_below, parse_uint, u16_limit, ok_or,
  reject_if,
}
use raddy.Values.Addresses.{
  IpAddr, SocketAddr, L4Upstream, parse_port_str, split_host_port, parse_l4_upstream, bracketed,
  unbracketed, rsplit_once,
}

digits_below-lt :
    (limit n : ℕ) (text : Text) (k : ℕ) → n < limit → digits_below limit n text ≡ some k → k < limit
unfolding digits_below
digits_below-lt limit n [] k small h = ground arith
digits_below-lt limit n (c ∷ text) k small h =
    elim (Bool-cases (is_digit c && ltb (n * 10 + (c - b'0')) limit)) [
      | inl e ↦
          digits_below-lt limit (n * 10 + (c - b'0')) text k (ground arith)
            (rw (e, digits_below) at h)
      | inr e ↦ absurd (let gone = rw (e, digits_below) at h in cc)
    ]

pub parse_uint-lt :
    (limit : ℕ) (text : Text) (k : ℕ) → 0 < limit → parse_uint limit text ≡ some k → k < limit
unfolding parse_uint
parse_uint-lt limit [] k small h = absurd cc
parse_uint-lt limit (c ∷ []) k small h = digits_below-lt limit 0 (c ∷ []) k small h
parse_uint-lt limit (c ∷ d ∷ text) k small h = elim (Bool-cases (c == b'+')) [
  | inl e ↦ digits_below-lt limit 0 (d ∷ text) k small (rw (e, parse_uint) at h)
  | inr e ↦ digits_below-lt limit 0 (c ∷ d ∷ text) k small (rw (e, parse_uint) at h)
]

abbrev pub IsPort : ℕ → Type 0
IsPort n = (0 < n) × (n < u16_limit)

parse_port_str-IsPort : (s : Text) → HoldsOk IsPort (parse_port_str s)
unfolding parse_port_str
parse_port_str-IsPort s = elim (Option-cases (parse_uint u16_limit s)) [
  | inl e ↦ record { holds = rw (e, parse_port_str) tt }
  | inr (k, e) ↦ elim (Bool-cases (k == 0)) [
    | inl z ↦ record { holds = rw (e, z, parse_port_str) tt }
    | inr z ↦
        let small = parse_uint-lt u16_limit s k (omega arith) e in
        record { holds = rw (e, z, parse_port_str) (ground arith, small) }
  ]
]

port-HoldsOk :
    {B : Type 0} {P : B → Type 0} (s : Text) (f : ℕ → Result B)
    → ((n : ℕ) → IsPort n → HoldsOk P (f n))
    → HoldsOk P (Values.◌>>=◌ (parse_port_str s) f)
port-HoldsOk s f next = bind-HoldsOk IsPort (parse_port_str s) f (parse_port_str-IsPort s) next

bracketed-IsPort : (s rest : Text) → HoldsOk (λ e. IsPort e.1) (bracketed s rest)
bracketed-IsPort s rest = search (port-HoldsOk, any-HoldsOk, ok-HoldsOk) depth 12

unbracketed-IsPort : (s : Text) → HoldsOk (λ e. IsPort e.1) (unbracketed s)
unbracketed-IsPort s = search (port-HoldsOk, any-HoldsOk, ok-HoldsOk) depth 12

split_host_port-IsPort : (s : Text) → HoldsOk (λ e. IsPort e.1) (split_host_port s)
unfolding split_host_port
split_host_port-IsPort s = elim (Option-cases (strip_prefix (codes "[") s)) [
  | inl e ↦ rw (e, split_host_port) (unbracketed-IsPort s)
  | inr (rest, e) ↦ rw (e, split_host_port) (bracketed-IsPort s rest)
]

-- A host and a port that can be connected to.
abbrev pub IsUpstream : L4Upstream → Type 0
IsUpstream u = (is_empty u.host ≡ false) × IsPort u.port

reject_if-HoldsOk : (b : Bool) (m : Text) → HoldsOk (λ u. b ≡ false) (reject_if b m)
reject_if-HoldsOk true m = record { holds = tt }
reject_if-HoldsOk false m = ok-HoldsOk refl

parse_l4_upstream-IsUpstream : (s : Text) → HoldsOk IsUpstream (parse_l4_upstream s)
unfolding parse_l4_upstream
parse_l4_upstream-IsUpstream s =
    bind-HoldsOk (λ e. IsPort e.1) _ _ (split_host_port-IsPort s)
      (λ e port.
        bind-HoldsOk (λ u. is_empty e.0 ≡ false) _ _ (reject_if-HoldsOk (is_empty e.0) _)
          (λ u host. ok-HoldsOk (host, port)))

pub each-HoldsOk :
    {A : Type 0} (P : A → Type 0) (f : Text → Result A)
    → ((w : Text) → HoldsOk P (f w))
    → (words : List Text) → HoldsOk (All P) (each f words)
unfolding each
each-HoldsOk P f h [] = ok-HoldsOk tt
each-HoldsOk P f h (w ∷ words) =
    bind-HoldsOk P _ _ (h w)
      (λ a ha. bind-HoldsOk (All P) _ _ (each-HoldsOk P f h words) (λ rest hr. ok-HoldsOk (ha, hr)))

l4_targets-Yields : (line : List Text) → Yields (All IsUpstream) (l4_targets line)
unfolding l4_targets
l4_targets-Yields line = any-Yields _ (λ u.
    or_fail-Yields _
      (each-HoldsOk IsUpstream parse_l4_upstream parse_l4_upstream-IsUpstream (drop 1 line)))

abbrev UdpKept : UdpSlots → Type 0
UdpKept s = All IsUpstream s.upstreams

pub targets-Yields :
    {B : Type 0} {P : B → Type 0} (line : List Text) {f : List L4Upstream → Method B}
    → ((us : List L4Upstream) → All IsUpstream us → Yields P (f us))
    → Yields P (l4_targets line >>= f)
targets-Yields line next = bind-Yields (All IsUpstream) (l4_targets-Yields line) next

udp_option-Yields :
    (s : UdpSlots) (w : Text) (line : List Text) → UdpKept s → Yields UdpKept (udp_option s w line)
udp_option-Yields s w line h =
    search
      (if-Yields, fail-Yields, targets-Yields, any-Yields, pure-Yields, All-append IsUpstream, h)
      depth 40 fits 8000

udp_line-Yields :
    (s : UdpSlots) (line : List Text) (nested : Bool)
    → UdpKept s
    → Yields UdpKept (udp_line s line nested)
unfolding udp_line
udp_line-Yields s line nested h = any-Yields _ (λ u. udp_option-Yields s (first_word line) line h)

-- What a `udp` listener promises to the proxy.
pub record IsServable (c : UdpProxyConfig) : Type 0 where
  pub some_upstream : no_upstreams c.upstreams ≡ false
  pub upstreams : All IsUpstream c.upstreams
  pub expires : 0 < c.idle_timeout
  pub flows : 0 < c.max_flows
  pub datagrams : 0 < c.max_datagram_size

finish_udp-Yields :
    (listen : SocketAddr) (s : UdpSlots) → UdpKept s → Yields IsServable (finish_udp listen s)
unfolding finish_udp
finish_udp-Yields listen s h = refuse-Yields (no_upstreams s.upstreams) _ _ (λ given.
    refuse-Yields
      ((udp_config listen s).idle_timeout == 0
        || ((udp_config listen s).max_flows == 0 || (udp_config listen s).max_datagram_size == 0))
      _ _
      (λ positive. pure-Yields (record {
        some_upstream = given;
        upstreams = h;
        expires = ground arith;
        flows = ground arith;
        datagrams = ground arith;
      })))

udp_block-Yields :
    {B : Type 0} {P : B → Type 0} (eof : Text) (f : UdpSlots → Method B)
    → ((s : UdpSlots) → UdpKept s → Yields P (f s))
    → Yields P (block eof udp_line no_udp_slots >>= f)
udp_block-Yields eof f next =
    bind-Yields UdpKept (block-Yields eof udp_line udp_line-Yields no_udp_slots tt) next

pub parse_layer4_udp-Yields :
    (parse_ip : Text → Option IpAddr) (words : List Text) (block_open : Bool)
    → Yields IsServable (parse_layer4_udp parse_ip words block_open)
unfolding parse_layer4_udp
parse_layer4_udp-Yields parse_ip words block_open =
    search (udp_block-Yields, finish_udp-Yields, any-Yields) depth 20

-- A `udp` listener that is accepted has an upstream, every upstream of it has a host and a port
-- from 1 to 65535, and its idle timeout, its limit of flows and its size of a datagram are
-- positive.
parse_layer4_udp-IsServable :
    (parse_ip : Text → Option IpAddr) (words : List Text) (block_open : Bool) (p q : Parser)
    (c : UdpProxyConfig)
    → parse_layer4_udp parse_ip words block_open p ≡ done c q
    → IsServable c
parse_layer4_udp-IsServable parse_ip words block_open p q c h =
    done-Yields p c q (parse_layer4_udp-Yields parse_ip words block_open) h
