-- ===== src/Validation/Upstreams/Peers.antt =====
-- config/validate.rs: the peers that resolve_upstreams finds, as a set.
use raddy.Base.{
  ℕ, List, [], ◌∷◌, ◌++◌, true, false, any, ◌≡◌, ◌≢◌, ◌⊎◌, ◌↔◌, inl, inr, refl, sym, ap, ◌∙◌, subst,
  All, All-append, arith, Bool-cases,
}
use raddy.Validation.Upstreams.{
  UpstreamPeer, same_peer, peer_of, push_new, push_addrs, is_nil, resolve_from, resolve_upstreams,
}
use raddy.Validation.Upstreams.Same.{same_peer-≡, same_peer_refl}
use raddy.Values.{Text, Result, ok}
use raddy.Values.Addresses.{SocketAddr, Upstream}
use raddy.Values.Results.{>>=-ok, reject_if-ok, ok_inj}

abbrev pub IsIn : {A : Type 0} → A → List A → Type 0
IsIn x [] = ⊥
IsIn x (y ∷ ys) = (x ≡ y) ⊎ IsIn x ys

abbrev pub IsNodup : {A : Type 0} → List A → Type 0
IsNodup [] = Unit
IsNodup (x ∷ xs) = All (λ y. x ≢ y) xs × IsNodup xs

IsIn-append : {A : Type 0} (x : A) (xs ys : List A) → IsIn x xs → IsIn x (xs ++ ys)
IsIn-append x [] ys h = absurd h
IsIn-append x (y ∷ xs) ys (inl e) = inl e
IsIn-append x (y ∷ xs) ys (inr h) = inr (IsIn-append x xs ys h)

IsIn-last : {A : Type 0} (x : A) (xs : List A) → IsIn x (xs ++ (x ∷ []))
IsIn-last x [] = inl refl
IsIn-last x (y ∷ xs) = inr (IsIn-last x xs)

IsIn-snoc : {A : Type 0} (x y : A) (xs : List A) → IsIn x (xs ++ (y ∷ [])) → IsIn x xs ⊎ (x ≡ y)
IsIn-snoc x y [] (inl e) = inr e
IsIn-snoc x y [] (inr h) = absurd h
IsIn-snoc x y (z ∷ xs) (inl e) = inl (inl e)
IsIn-snoc x y (z ∷ xs) (inr h) = elim (IsIn-snoc x y xs h) [
  | inl found ↦ inl (inr found)
  | inr e ↦ inr e
]

IsNodup-snoc :
    {A : Type 0} (xs : List A) (y : A) → All (λ x. x ≢ y) xs → IsNodup xs → IsNodup (xs ++ (y ∷ []))
IsNodup-snoc [] y h u = (tt, tt)
IsNodup-snoc (x ∷ xs) y h u =
    (All-append (λ z. x ≢ z) xs (y ∷ []) u.0 (h.0, tt), IsNodup-snoc xs y h.1 u.1)

any-IsIn :
    (new : UpstreamPeer) (resolved : List UpstreamPeer)
    → any (λ peer. same_peer peer new) resolved ≡ true
    → IsIn new resolved
any-IsIn new [] h = absurd cc
any-IsIn new (peer ∷ resolved) h = elim (Bool-cases (same_peer peer new)) [
  | inl e ↦ inl (sym (same_peer-≡ peer new e))
  | inr e ↦ inr (any-IsIn new resolved (ground (arith, e, h)))
]

any-differs :
    (new : UpstreamPeer) (resolved : List UpstreamPeer)
    → any (λ peer. same_peer peer new) resolved ≡ false
    → All (λ peer. peer ≢ new) resolved
any-differs new [] h = tt
any-differs new (peer ∷ resolved) h =
    let here : same_peer peer new ≡ false = ground (arith, h) in
    let others : any (λ peer. same_peer peer new) resolved ≡ false = ground (arith, h) in
    (
      (λ e. absurd (let same : same_peer peer new ≡ true = rw e (same_peer_refl new) in cc)),
      any-differs new resolved others,
    )

-- The peers after some more are pushed: those before, those pushed, and none twice.
record Extends (before after : List UpstreamPeer) (Pushed : UpstreamPeer → Type 0) : Type 0 where
  pub nodup : IsNodup after
  pub kept : (p : UpstreamPeer) → IsIn p before → IsIn p after
  pub pushed : (p : UpstreamPeer) → Pushed p → IsIn p after
  pub origin : (p : UpstreamPeer) → IsIn p after → IsIn p before ⊎ Pushed p

push_new-Extends :
    (resolved : List UpstreamPeer) (new : UpstreamPeer)
    → IsNodup resolved
    → Extends resolved (push_new resolved new) (λ p. p ≡ new)
unfolding push_new
push_new-Extends resolved new u = elim (Bool-cases (any (λ peer. same_peer peer new) resolved)) [
  | inl old ↦ rw old (record {
    nodup = u;
    kept = λ p h. h;
    pushed = λ p e. subst (λ q. IsIn q resolved) (sym e) (any-IsIn new resolved old);
    origin = λ p h. inl h;
  })
  | inr fresh ↦ rw fresh (record {
    nodup = IsNodup-snoc resolved new (any-differs new resolved fresh) u;
    kept = λ p h. IsIn-append p resolved (new ∷ []) h;
    pushed = λ p e. subst (λ q. IsIn q (resolved ++ (new ∷ []))) (sym e) (IsIn-last new resolved);
    origin = λ p h. IsIn-snoc p new resolved h;
  })
]

-- A peer at an address, with the scheme, the version and the host of an upstream.
pub record IsAt (upstream : Upstream) (addr : SocketAddr) (p : UpstreamPeer) : Type 0 where
  pub addr_is : p.addr ≡ addr
  pub tls_is : p.tls ≡ upstream.tls
  pub version_is : p.http_version ≡ upstream.http_version
  pub host_is : p.host ≡ upstream.host

-- A peer of one of the addresses that an upstream resolves to.
abbrev pub PeerAt : Upstream → List SocketAddr → UpstreamPeer → Type 0
PeerAt upstream addrs p = (addr : SocketAddr) × IsIn addr addrs × IsAt upstream addr p

peer_of-IsAt :
    (upstream : Upstream) (addr : SocketAddr) (p : UpstreamPeer)
    → p ≡ peer_of upstream addr
    → IsAt upstream addr p
peer_of-IsAt upstream addr p e =
    subst (IsAt upstream addr) (sym e)
      (record { addr_is = refl; tls_is = refl; version_is = refl; host_is = refl })

IsAt-peer_of :
    (upstream : Upstream) (addr : SocketAddr) (p : UpstreamPeer)
    → IsAt upstream addr p
    → p ≡ peer_of upstream addr
IsAt-peer_of upstream addr p at =
    let a = at.addr_is in let t = at.tls_is in let v = at.version_is in let h = at.host_is in cc

push_addrs-Extends :
    (resolved : List UpstreamPeer) (upstream : Upstream) (addrs : List SocketAddr)
    → IsNodup resolved
    → Extends resolved (push_addrs resolved upstream addrs) (PeerAt upstream addrs)
unfolding push_addrs
push_addrs-Extends resolved upstream [] u = record {
  nodup = u;
  kept = λ p h. h;
  pushed = λ p h. absurd h.1;
  origin = λ p h. inl h;
}
push_addrs-Extends resolved upstream (addr ∷ addrs) u =
    let new = peer_of upstream addr in
    let first = push_new-Extends resolved new u in
    let rest = push_addrs-Extends (push_new resolved new) upstream addrs first.nodup in
    record {
      nodup = rest.nodup;
      kept = λ p h. rest.kept p (first.kept p h);
      pushed = λ p h. elim h.1 [
        | inl e ↦
            rest.kept p (first.pushed p (IsAt-peer_of upstream h.0 p h.2 ∙ ap (peer_of upstream) e))
        | inr there ↦ rest.pushed p (h.0, there, h.2)
      ];
      origin = λ p h. elim (rest.origin p h) [
        | inl before ↦ elim (first.origin p before) [
          | inl old ↦ inl old
          | inr e ↦ inr (addr, inl refl, peer_of-IsAt upstream addr p e)
        ]
        | inr at ↦ inr (at.0, inr at.1, at.2)
      ];
    }

module _ (resolver : Text → ℕ → Result (List SocketAddr)) where
  -- Abstractly a peer belongs to a proxy when an upstream of it resolves to its address, with the scheme, the
  -- version and the host of that upstream.
  abbrev pub Belongs : List Upstream → UpstreamPeer → Type 0
  Belongs [] p = ⊥
  Belongs (upstream ∷ to) p =
      ((addrs : List SocketAddr) × (resolver upstream.host upstream.port ≡ ok addrs)
        × PeerAt upstream addrs p)
      ⊎ Belongs to p

  abbrev pub Resolves : Upstream → Type 0
  Resolves upstream =
      (addr : SocketAddr) × (addrs : List SocketAddr) × (resolver upstream.host upstream.port
        ≡ ok (addr ∷ addrs))

  pub record ArePeers (to : List Upstream) (peers : List UpstreamPeer) : Type 0 where
    pub nodup : IsNodup peers
    pub members : (p : UpstreamPeer) → IsIn p peers ↔ Belongs to p
    pub resolve : All Resolves to

module _ (resolver : Text → ℕ → Result (List SocketAddr)) (print_number : ℕ → Text) where
  Resolves-of_ok :
      (upstream : Upstream) (addrs : List SocketAddr)
      → resolver upstream.host upstream.port ≡ ok addrs
      → is_nil addrs ≡ false
      → Resolves resolver upstream
  Resolves-of_ok upstream [] found h = absurd cc
  Resolves-of_ok upstream (addr ∷ addrs) found h = (addr, addrs, found)

  resolve_from-Extends :
      (resolved : List UpstreamPeer) (to : List Upstream) (peers : List UpstreamPeer)
      → IsNodup resolved
      → resolve_from resolver print_number resolved to ≡ ok peers
      → Extends resolved peers (Belongs resolver to) × All (Resolves resolver) to
  unfolding resolve_from
  resolve_from-Extends resolved [] peers u h = (
    subst (λ after. Extends resolved after (Belongs resolver [])) (ok_inj h)
        (record {
          nodup = u;
          kept = λ p found. found;
          pushed = λ p none_here. absurd none_here;
          origin = λ p found. inl found;
        }),
    tt,
  )
  resolve_from-Extends resolved (upstream ∷ to) peers u h =
      let (addrs, found, more) = >>=-ok (resolver upstream.host upstream.port) _ h in
      let (given, last) = reject_if-ok (is_nil addrs) _ _ more in
      let first = push_addrs-Extends resolved upstream addrs u in
      let (rest, resolve) =
        resolve_from-Extends (push_addrs resolved upstream addrs) to peers first.nodup last in
      (
        record {
          nodup = rest.nodup;
          kept = λ p before. rest.kept p (first.kept p before);
          pushed = λ p belongs. elim belongs [
            | inl here ↦ rest.kept p (
                first.pushed p
                  (subst (λ at. PeerAt upstream at p) (ok_inj (sym here.1 ∙ found)) here.2))
            | inr there ↦ rest.pushed p there
          ];
          origin = λ p after. elim (rest.origin p after) [
            | inl before ↦ elim (first.origin p before) [
              | inl old ↦ inl old
              | inr here ↦ inr (inl (addrs, found, here))
            ]
            | inr there ↦ inr (inr there)
          ];
        },
        (Resolves-of_ok upstream addrs found given, resolve),
      )

  -- For any resolver, where the upstreams of a proxy resolve, each of them resolves to at least
  -- one address, no peer stands twice, and the peers are, as a set, those that an upstream gives
  -- at an address that it resolves to, with its scheme, version and host.
  pub resolve_upstreams-ArePeers :
      (to : List Upstream) (peers : List UpstreamPeer)
      → resolve_upstreams resolver print_number to ≡ ok peers
      → ArePeers resolver to peers
  unfolding resolve_upstreams
  resolve_upstreams-ArePeers to peers h =
      let (extends, resolve) = resolve_from-Extends [] to peers tt h in
      record {
        nodup = extends.nodup;
        members = λ p. (
          (λ found. elim (extends.origin p found) [
            | inl nothing ↦ absurd nothing
            | inr belongs ↦ belongs
          ]),
          extends.pushed p,
        );
        resolve = resolve;
      }
