-- ===== src/Validation/Layer4.antt =====
-- config/validate.rs: what validate_layer4 accepts. Sockets are told apart by what they take: a transport, an IP
-- address and a port.
use raddy.Base.{
  ℕ, List, [], ◌∷◌, ◌++◌, Option, none, some, Bool, true, false, ◌&&◌, ◌||◌, ◌==◌, ◌≡◌, ◌≢◌, ◌⊎◌,
  inl, inr, refl, sym, ◌∙◌, map, All, arith,
}
use raddy.Config.{port_of}
use raddy.Config.Source.{
  Site, Layer4Listener, tcp, udp, TlsConfig, TlsSource, acme, TcpProxyConfig, SniRoute,
}
use raddy.Validation.{
  SocketTransport, over_tcp, over_udp, same_transport, endpoint, is_unspecified, same_ip,
  binds_overlap, check_sites, check_seen, check_namespace, check_listeners, check_termination,
  check_listener_tls, check_tls, validate_layer4, is_acme, has_routes, validate_tls_config,
}
use raddy.Values.{Text, Result, ok, ◌>>◌}
use raddy.Values.Addresses.{IpAddr, v4, v6, SocketAddr}
use raddy.Values.Results.{>>=-ok, reject_if-ok, reject_if-last, ok_inj}

-- A bind takes a port on its address, or on every address where its own is unspecified.
abbrev pub Takes : SocketTransport × SocketAddr → SocketTransport → IpAddr → ℕ → Type 0
Takes (bound, address) transport ip port =
    (bound ≡ transport)
    × (address.port ≡ port)
    × ((is_unspecified address.ip ≡ true) ⊎ (address.ip ≡ ip))

-- The two take no socket in common.
pub record AreApart (a b : SocketTransport × SocketAddr) : Type 0 where
  pub apart :
      (transport : SocketTransport) (ip : IpAddr) (port : ℕ)
      → Takes a transport ip port
      → Takes b transport ip port
      → ⊥

abbrev pub Pairwise : List (SocketTransport × SocketAddr) → Type 0
Pairwise [] = Unit
Pairwise (x ∷ xs) = All (AreApart x) xs × Pairwise xs

-- Raw TCP has no port of a site.
abbrev pub IsClear : List Site → SocketTransport × SocketAddr → Type 0
IsClear sites (over_tcp, address) = All (λ site. port_of site.key ≢ address.port) sites
IsClear sites (over_udp, address) = Unit

abbrev pub Terminates : TcpProxyConfig → Option TlsConfig → Type 0
Terminates config none = Unit
Terminates config (some tls) = (tls.source ≢ acme) × (config.sni_routes ≡ [])

abbrev pub IsTerminable : Layer4Listener → Type 0
IsTerminable (udp config) = Unit
IsTerminable (tcp config) = Terminates config config.tls_config

pub record IsExclusive (sites : List Site) (listeners : List Layer4Listener) : Type 0 where
  pub pairwise : Pairwise (map endpoint listeners)
  pub clear : All (λ l. IsClear sites (endpoint l)) listeners
  pub terminable : All IsTerminable listeners

same_transport_refl : (t : SocketTransport) → same_transport t t ≡ true
same_transport_refl over_tcp = refl
same_transport_refl over_udp = refl

pub same_ip_refl : (a : IpAddr) → same_ip a a ≡ true
same_ip_refl (v4 a) = ground arith
same_ip_refl (v6 a) = ground arith

or_last : (a b c : Bool) → c ≡ true → (a || (b || c)) ≡ true
or_last a b c h = ground arith

or_first : (a b : Bool) → a ≡ true → (a || b) ≡ true
or_first a b h = ground arith

or_second : (a b c : Bool) → b ≡ true → (a || (b || c)) ≡ true
or_second a b c h = ground arith

-- Two binds of a port that share an address are found to overlap.
binds_overlap-shared :
    (a b : SocketAddr) (ip : IpAddr)
    → a.port ≡ b.port
    → (is_unspecified a.ip ≡ true) ⊎ (a.ip ≡ ip)
    → (is_unspecified b.ip ≡ true) ⊎ (b.ip ≡ ip)
    → binds_overlap a b ≡ true
unfolding binds_overlap
binds_overlap-shared a b ip h (inl wild) y =
    rw h
      (let any = or_first _ (is_unspecified b.ip || same_ip a.ip b.ip) wild in ground (arith, any))
binds_overlap-shared a b ip h (inr x) (inl wild) =
    rw h
      (let any = or_second (is_unspecified a.ip) _ (same_ip a.ip b.ip) wild in ground (arith, any))
binds_overlap-shared a b ip h (inr x) (inr y) =
    let same : same_ip a.ip b.ip ≡ true = rw (x, y) (same_ip_refl ip) in
    rw h
      (let any = or_last (is_unspecified a.ip) (is_unspecified b.ip) _ same in ground (arith, any))

-- The test of a round.
AreApart-tested :
    (a b : SocketTransport × SocketAddr)
    → (same_transport a.0 b.0 && binds_overlap a.1 b.1) ≡ false
    → AreApart a b
AreApart-tested a b h = record {
  apart = λ transport ip port x y.
      let one : same_transport a.0 b.0 ≡ true = rw (x.0, y.0) (same_transport_refl transport) in
      let two = binds_overlap-shared a.1 b.1 ip (x.1 ∙ sym y.1) x.2 y.2 in
      let found : (same_transport a.0 b.0 && binds_overlap a.1 b.1) ≡ true = rw (one, two) refl in
      absurd cc;
}

module _ (display : SocketAddr → Text) (print_number : ℕ → Text) where
  check_sites-Clear :
      (address : SocketAddr) (sites : List Site)
      → check_sites display print_number address sites ≡ ok tt
      → All (λ site. port_of site.key ≢ address.port) sites
  unfolding check_sites
  check_sites-Clear address [] h = tt
  check_sites-Clear address (site ∷ sites) h =
      let (here, rest) = reject_if-ok (port_of site.key == address.port) _ _ h in
      ((λ e. ground (arith, here, e)), check_sites-Clear address sites rest)

  check_namespace-IsClear :
      (here : SocketTransport × SocketAddr) (sites : List Site)
      → check_namespace display print_number here sites ≡ ok tt
      → IsClear sites here
  check_namespace-IsClear (over_tcp, address) sites h = check_sites-Clear address sites h
  check_namespace-IsClear (over_udp, address) sites h = tt

  check_seen-AreApart :
      (here : SocketTransport × SocketAddr) (seen : List (SocketTransport × SocketAddr))
      → check_seen display print_number here seen ≡ ok tt
      → All (λ other. AreApart other here) seen
  unfolding check_seen
  check_seen-AreApart here [] h = tt
  check_seen-AreApart here (other ∷ seen) h =
      let (tested, rest) =
        reject_if-ok (same_transport other.0 here.0 && binds_overlap other.1 here.1) _ _ h in
      (AreApart-tested other here tested, check_seen-AreApart here seen rest)

All-snoc :
    (P : SocketTransport × SocketAddr → Type 0) (xs : List (SocketTransport × SocketAddr))
    (y : SocketTransport × SocketAddr)
    → All P (xs ++ (y ∷ []))
    → All P xs × P y
All-snoc P [] y h = (tt, h.0)
All-snoc P (x ∷ xs) y h = let (front, last) = All-snoc P xs y h.1 in ((h.0, front), last)

-- What holds of every listener behind one that joins those seen.
seen_split :
    (seen : List (SocketTransport × SocketAddr)) (e : SocketTransport × SocketAddr)
    (listeners : List Layer4Listener)
    → All (λ l. All (λ o. AreApart o (endpoint l)) (seen ++ (e ∷ []))) listeners
    → All (λ l. All (λ o. AreApart o (endpoint l)) seen) listeners
      × All (AreApart e) (map endpoint listeners)
seen_split seen e [] h = (tt, tt)
seen_split seen e (l ∷ listeners) h =
    let (front, last) = All-snoc (λ o. AreApart o (endpoint l)) seen e h.0 in
    let (fronts, lasts) = seen_split seen e listeners h.1 in ((front, fronts), (last, lasts))

module _ (display : SocketAddr → Text) (print_number : ℕ → Text) where
  check_listeners-Exclusive :
      (sites : List Site) (seen : List (SocketTransport × SocketAddr))
      (listeners : List Layer4Listener)
      → check_listeners display print_number sites seen listeners ≡ ok tt
      → All (λ l. IsClear sites (endpoint l)) listeners
        × Pairwise (map endpoint listeners)
        × All (λ l. All (λ o. AreApart o (endpoint l)) seen) listeners
  unfolding check_listeners
  check_listeners-Exclusive sites seen [] h = (tt, tt, tt)
  check_listeners-Exclusive sites seen (l ∷ listeners) h =
      let first = check_namespace display print_number (endpoint l) sites in
      let second = check_seen display print_number (endpoint l) seen in
      let (_, both, rest) = >>=-ok (first >> second) _ h in
      let (_, clear, tested) = >>=-ok first _ both in
      let (clears, pairs, aparts) =
        check_listeners-Exclusive sites (seen ++ (endpoint l ∷ [])) listeners rest in
      let (before, here) = seen_split seen (endpoint l) listeners aparts in
      (
        (check_namespace-IsClear display print_number (endpoint l) sites clear, clears),
        (here, pairs),
        (check_seen-AreApart display print_number (endpoint l) seen tested, before),
      )

pub is_acme-differs : (source : TlsSource) → is_acme source ≡ false → source ≢ acme
is_acme-differs source h e = let found : is_acme source ≡ true = rw e refl in absurd cc

has_routes-nil : (routes : List SniRoute) → has_routes routes ≡ false → routes ≡ []
has_routes-nil [] h = refl
has_routes-nil (r ∷ routes) h = absurd cc

module _ {X509 : Type 0} {PKey : Type 0} (read_to_string : Text → Result Text)
    (stack_from_pem : Text → Result (List X509)) (private_key_from_pem : Text → Result PKey) where
  check_termination-Terminates :
      (config : TcpProxyConfig) (tls : Option TlsConfig)
      → check_termination read_to_string stack_from_pem private_key_from_pem config tls ≡ ok tt
      → Terminates config tls
  unfolding check_termination
  check_termination-Terminates config none h = tt
  check_termination-Terminates config (some tls) h =
      let (asked, more) = reject_if-ok (is_acme tls.source) _ _ h in
      let (_, _, last) =
        >>=-ok (validate_tls_config read_to_string stack_from_pem private_key_from_pem tls) _
          more in
      let bare = reject_if-last (has_routes config.sni_routes) _ last in
      (is_acme-differs tls.source asked, has_routes-nil config.sni_routes bare)

  check_tls-IsTerminable :
      (listeners : List Layer4Listener)
      → check_tls read_to_string stack_from_pem private_key_from_pem listeners ≡ ok tt
      → All IsTerminable listeners
  unfolding check_tls check_listener_tls
  check_tls-IsTerminable [] h = tt
  check_tls-IsTerminable (udp config ∷ listeners) h = (tt, check_tls-IsTerminable listeners h)
  check_tls-IsTerminable (tcp config ∷ listeners) h =
      let (_, here, rest) =
        >>=-ok
          (check_termination read_to_string stack_from_pem private_key_from_pem config
            config.tls_config)
          _ h in
      (
        check_termination-Terminates config config.tls_config here,
        check_tls-IsTerminable listeners rest,
      )

  -- Where the layer-4 listeners of a configuration are accepted they are kept as they are, no two
  -- of them take one transport, IP address and port, where a bind on an unspecified address takes
  -- its port on every address, none for TCP has the port of a site, and one that terminates TLS
  -- has its certificates from elsewhere than ACME and no routes by name.
  pub validate_layer4-IsExclusive :
      (display : SocketAddr → Text) (print_number : ℕ → Text) (sites : List Site)
      (listeners accepted : List Layer4Listener)
      → validate_layer4 read_to_string stack_from_pem private_key_from_pem display print_number
          sites listeners
        ≡ ok accepted
      → (accepted ≡ listeners) × IsExclusive sites listeners
  unfolding validate_layer4
  validate_layer4-IsExclusive display print_number sites listeners accepted h =
      let (_, free, more) = >>=-ok (check_listeners display print_number sites [] listeners) _ h in
      let (_, tested, rest) =
        >>=-ok (check_tls read_to_string stack_from_pem private_key_from_pem listeners) _ more in
      let (clear, pairs, _) =
        check_listeners-Exclusive display print_number sites [] listeners free in
      (
        sym (ok_inj rest),
        record {
          pairwise = pairs;
          clear = clear;
          terminable = check_tls-IsTerminable listeners tested;
        },
      )
