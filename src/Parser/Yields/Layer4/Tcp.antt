-- ===== src/Parser/Yields/Layer4/Tcp.antt =====
-- config/parser.rs: what the parser accepts as a `tcp` listener.
use raddy.Base.{
  ◌<◌, List, [], ◌∷◌, ◌++◌, Option, none, some, Bool, true, false, not, ◌&&◌, ◌||◌, is_some, any,
  ◌==◌, All, All-append, ◌≡◌, refl, arith, if◌then◌else◌, Bool-cases, inl, inr, ◌⊎◌,
}
use raddy.Config.Source.{TcpProxyConfig, SniRoute}
use raddy.Config.Wildcard.{text_eq, text_eq-≡, text_eq_refl}
use raddy.Parser.{Parser, done, Method, block, ◌>>=◌, or_fail}
use raddy.Parser.Layer4.{no_upstreams}
use raddy.Parser.Layer4.Tcp.{
  TcpSlots, no_tcp_slots, sni_route, fallback_route, tcp_option, tcp_line, no_routes, check_modes,
  tcp_config, finish_tcp, parse_layer4_tcp,
}
use raddy.Parser.Yields.{
  Yields, pure-Yields, or_fail-Yields, fail-Yields, if-Yields, bind-Yields, any-Yields,
  refuse-Yields, refuse-last, block-Yields, done-Yields,
}
use raddy.Parser.Yields.Layer4.{IsUpstream, parse_l4_upstream-IsUpstream, targets-Yields}
use raddy.Values.{Text, first_word, ok, err}
use raddy.Values.Addresses.{IpAddr, SocketAddr, L4Upstream, parse_l4_upstream}

abbrev pub IsRoute : SniRoute → Type 0
IsRoute r = IsUpstream r.upstream

abbrev pub FallbackIsUpstream : Option L4Upstream → Type 0
FallbackIsUpstream none = Unit
FallbackIsUpstream (some u) = IsUpstream u

abbrev pub is_routed : Text → List SniRoute → Bool
is_routed name routes = any (λ r. text_eq r.name name) routes

-- No two routes of one name.
abbrev pub OneRouteEach : List SniRoute → Type 0
OneRouteEach [] = Unit
OneRouteEach (r ∷ routes) = (is_routed r.name routes ≡ false) × OneRouteEach routes

text_eq_sym : (a b : Text) → text_eq a b ≡ false → text_eq b a ≡ false
text_eq_sym a b h = elim (Bool-cases (text_eq b a)) [
  | inl e ↦ absurd (let same = text_eq-≡ b a e in let again = text_eq_refl a in cc)
  | inr e ↦ e
]

is_routed-append :
    (name : Text) (routes : List SniRoute) (r : SniRoute)
    → is_routed name routes ≡ false
    → text_eq r.name name ≡ false
    → is_routed name (routes ++ r ∷ []) ≡ false
is_routed-append name [] r h hr = ground arith
is_routed-append name (q ∷ routes) r h hr =
    let rest = is_routed-append name routes r (ground arith) hr in ground arith

OneRouteEach-append :
    (routes : List SniRoute) (r : SniRoute)
    → OneRouteEach routes
    → is_routed r.name routes ≡ false
    → OneRouteEach (routes ++ r ∷ [])
OneRouteEach-append [] r h new = (refl, tt)
OneRouteEach-append (q ∷ routes) r h new =
    let other : text_eq q.name r.name ≡ false = ground arith in
    let rest : is_routed r.name routes ≡ false = ground arith in
    (
      is_routed-append q.name routes r h.0 (text_eq_sym q.name r.name other),
      OneRouteEach-append routes r h.1 rest,
    )

abbrev TcpKept : TcpSlots → Type 0
TcpKept s =
    All IsUpstream s.upstreams
    × All IsRoute s.sni_routes
    × FallbackIsUpstream s.sni_fallback
    × OneRouteEach s.sni_routes

upstream-Yields :
    {B : Type 0} {P : B → Type 0} (target : Text) (f : L4Upstream → Method B)
    → ((u : L4Upstream) → IsUpstream u → Yields P (f u))
    → Yields P (or_fail (parse_l4_upstream target) >>= f)
upstream-Yields target f next =
    bind-Yields IsUpstream
      (or_fail-Yields (parse_l4_upstream target) (parse_l4_upstream-IsUpstream target)) next

-- Behind the search for a route of the name, there is none.
new_route-Yields :
    {B : Type 0} {P : B → Type 0} (b : Bool) (message : Text) (f : Unit {0} → Method B)
    → (b ≡ false → Yields P (f tt))
    → Yields P (or_fail (if b then err message else ok tt) >>= f)
unfolding or_fail
new_route-Yields true message f next = record { yields = λ p. tt }
new_route-Yields false message f next = record { yields = λ p. (next refl).yields p }

add_route-TcpKept :
    (s : TcpSlots) (name : Text) (u : L4Upstream)
    → TcpKept s
    → is_routed name s.sni_routes ≡ false
    → IsUpstream u
    → TcpKept (record s { sni_routes = s.sni_routes ++ record { name = name; upstream = u } ∷ [] })
add_route-TcpKept s name u h new hu = (
  h.0,
  All-append IsRoute s.sni_routes (record { name = name; upstream = u } ∷ []) h.1 (hu, tt),
  h.2,
  OneRouteEach-append s.sni_routes (record { name = name; upstream = u }) h.3 new,
)

sni_route-Yields : (s : TcpSlots) (line : List Text) → TcpKept s → Yields TcpKept (sni_route s line)
sni_route-Yields s [] h = fail-Yields _
sni_route-Yields s (w ∷ []) h = fail-Yields _
sni_route-Yields s (w ∷ raw ∷ []) h = fail-Yields _
sni_route-Yields s (w ∷ raw ∷ target ∷ []) h =
    search (any-Yields, new_route-Yields, upstream-Yields, pure-Yields, add_route-TcpKept, h) depth
      12
sni_route-Yields s (w ∷ raw ∷ target ∷ x ∷ rest) h = fail-Yields _

fallback_route-Yields :
    (s : TcpSlots) (line : List Text) → TcpKept s → Yields TcpKept (fallback_route s line)
fallback_route-Yields s [] h = fail-Yields _
fallback_route-Yields s (w ∷ []) h = fail-Yields _
fallback_route-Yields s (w ∷ target ∷ []) h =
    any-Yields _ (λ a. upstream-Yields target _ (λ u hu. pure-Yields (h.0, h.1, hu, h.3)))
fallback_route-Yields s (w ∷ target ∷ x ∷ rest) h = fail-Yields _

targets-TcpKept :
    (s : TcpSlots) (us : List L4Upstream)
    → TcpKept s
    → All IsUpstream us
    → TcpKept (record s { upstreams = s.upstreams ++ us })
targets-TcpKept s us h hu = (All-append IsUpstream s.upstreams us h.0 hu, h.1, h.2, h.3)

tcp_option-Yields :
    (s : TcpSlots) (w : Text) (line : List Text) (nested : Bool)
    → TcpKept s
    → Yields TcpKept (tcp_option s w line nested)
tcp_option-Yields s w line nested h =
    search
      (
        if-Yields, fail-Yields, targets-Yields, sni_route-Yields, fallback_route-Yields, any-Yields,
        pure-Yields, targets-TcpKept, h,
      )
      depth 50 fits 20000

tcp_line-Yields :
    (s : TcpSlots) (line : List Text) (nested : Bool)
    → TcpKept s
    → Yields TcpKept (tcp_line s line nested)
unfolding tcp_line
tcp_line-Yields s line nested h = tcp_option-Yields s (first_word line) line nested h

tcp_block-Yields :
    {B : Type 0} {P : B → Type 0} (eof : Text) (f : TcpSlots → Method B)
    → ((s : TcpSlots) → TcpKept s → Yields P (f s))
    → Yields P (block eof tcp_line no_tcp_slots >>= f)
tcp_block-Yields eof f next =
    bind-Yields TcpKept (block-Yields eof tcp_line tcp_line-Yields no_tcp_slots (tt, tt, tt, tt))
      next

-- One set of upstreams for every connection.
pub record IsShared (c : TcpProxyConfig) : Type 0 where
  pub unrouted : no_routes c.sni_routes ≡ true
  pub some_upstream : no_upstreams c.upstreams ≡ false
  pub no_fallback : is_some c.sni_fallback ≡ false

-- Upstreams by the name that the client asks for.
pub record IsRouted (c : TcpProxyConfig) : Type 0 where
  pub routed : no_routes c.sni_routes ≡ false
  pub no_shared : no_upstreams c.upstreams ≡ true
  pub passed_through : is_some c.tls_config ≡ false
  pub unchecked : is_some c.health_check ≡ false
  pub opaque : c.transparent ≡ false

pub record IsServableTcp (c : TcpProxyConfig) : Type 0 where
  pub mode : IsShared c ⊎ IsRouted c
  pub one_owner : (c.transparent && is_some c.tls_config) ≡ false
  pub connects : 0 < c.connect_timeout
  pub expires : 0 < c.idle_timeout
  pub upstreams : All IsUpstream c.upstreams
  pub routes : All IsRoute c.sni_routes
  pub fallback : FallbackIsUpstream c.sni_fallback
  pub one_each : OneRouteEach c.sni_routes

check_modes-Yields :
    (listen : SocketAddr) (s : TcpSlots)
    → Yields (λ u. IsShared (tcp_config listen s) ⊎ IsRouted (tcp_config listen s)) (check_modes s)
check_modes-Yields listen s = elim (Bool-cases (no_routes s.sni_routes)) [
  | inl e ↦ rw e (
      refuse-Yields (is_some s.sni_fallback) _ _ (λ f.
        refuse-last (no_upstreams s.upstreams) _
          (λ u. inl (record { unrouted = e; some_upstream = u; no_fallback = f }))))
  | inr e ↦ rw e (
      refuse-Yields (is_some s.tls_config) _ _ (λ t.
        refuse-Yields (not (no_upstreams s.upstreams)) _ _ (λ u.
          refuse-Yields (is_some s.health_check) _ _ (λ hc. refuse-last s.transparent _ (λ o.
            inr (record {
              routed = e;
              no_shared = ground arith;
              passed_through = t;
              unchecked = hc;
              opaque = o;
            }))))))
]

finish_tcp-Yields :
    (listen : SocketAddr) (s : TcpSlots) → TcpKept s → Yields IsServableTcp (finish_tcp listen s)
unfolding finish_tcp
finish_tcp-Yields listen s h =
    bind-Yields (λ u. IsShared (tcp_config listen s) ⊎ IsRouted (tcp_config listen s))
      (check_modes-Yields listen s)
      (λ u mode. refuse-Yields (s.transparent && is_some s.tls_config) _ _ (λ owner.
        refuse-Yields
          ((tcp_config listen s).connect_timeout == 0 || (tcp_config listen s).idle_timeout == 0) _
          _
          (λ positive. pure-Yields (record {
            mode = mode;
            one_owner = owner;
            connects = ground arith;
            expires = ground arith;
            upstreams = h.0;
            routes = h.1;
            fallback = h.2;
            one_each = h.3;
          }))))

pub parse_layer4_tcp-Yields :
    (parse_ip : Text → Option IpAddr) (words : List Text) (block_open : Bool)
    → Yields IsServableTcp (parse_layer4_tcp parse_ip words block_open)
unfolding parse_layer4_tcp
parse_layer4_tcp-Yields parse_ip words block_open =
    search (tcp_block-Yields, finish_tcp-Yields, any-Yields) depth 20

-- A `tcp` listener that is accepted either has upstreams and neither routes by name nor a
-- fallback, or it has routes by name and no upstreams of its own, no TLS, no health check and no
-- transparent mode; transparent mode and TLS exclude one another, both timeouts are positive,
-- every upstream, route and fallback has a host and a port from 1 to 65535, and no two routes
-- have one name.
parse_layer4_tcp-IsServableTcp :
    (parse_ip : Text → Option IpAddr) (words : List Text) (block_open : Bool) (p q : Parser)
    (c : TcpProxyConfig)
    → parse_layer4_tcp parse_ip words block_open p ≡ done c q
    → IsServableTcp c
parse_layer4_tcp-IsServableTcp parse_ip words block_open p q c h =
    done-Yields p c q (parse_layer4_tcp-Yields parse_ip words block_open) h
