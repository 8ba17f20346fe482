-- ===== src/Balance/Picks.antt =====
-- layer4/balance.rs: `select` picks a healthy backend whenever there is one.
use raddy.Base.{
  ℕ, ◌+◌, ◌%◌, ◌≤◌, ◌<◌, ◌≡◌, refl, sym, ap, ◌∙◌, List, [], Option, none, some, true, false, arith,
  inl, inr, Option-cases, List-cases, length, if◌then◌else◌, get_elem?, get_elem?_of_lt,
  get_elem?-lt,
}
use raddy.Config.{LbPolicy, round_robin, random, ip_hash}
use raddy.Balance.{
  Backend, Balancer, RingNode, healthy_at, hashed_at, first_healthy_from, select_hashed, select,
  select_by, scrambled, partition_point, fnv1a, word, ring_walk, is_empty,
}
use raddy.Balance.Walk.{find_map-Walked, turn}
use native.Mathlib.Nat.{mod-lt, mod-eq_of_lt}

module _ (SocketAddr : Type 0) where
  -- The ring points into the backends, and has every backend where it is used.
  pub record IsValid (b : Balancer SocketAddr) : Type 0 where
    pub inside :
        (p : ℕ) (node : RingNode)
        → get_elem? b.ring p ≡ some node
        → node.backend < length b.backends
    pub covers :
        b.policy ≡ ip_hash
        → (i : ℕ) → i < length b.backends
        → (p : ℕ) × (node : RingNode) × (get_elem? b.ring p ≡ some node) × (node.backend ≡ i)

  -- Where a walk over the backends starts.
  abbrev pub start_for : LbPolicy → Balancer SocketAddr → ℕ
  start_for ip_hash b = 0
  start_for round_robin b = b.cursor
  start_for random b = scrambled SocketAddr b.cursor

  pub record Picks (b : Balancer SocketAddr) (start : ℕ) (r : Option SocketAddr) : Type 0 where
    pub found :
        (a : SocketAddr)
        → r ≡ some a
        → (i : ℕ) × (backend : Backend SocketAddr) × (get_elem? b.backends i ≡ some backend)
          × (backend.healthy ≡ true)
          × (backend.addr ≡ a)
    pub nothing :
        start + length b.backends ≤ word
        → r ≡ none
        → (i : ℕ) (backend : Backend SocketAddr) → get_elem? b.backends i ≡ some backend
        → backend.healthy ≡ false

  pub healthy_at-there :
      (b : Balancer SocketAddr) (i : ℕ)
      → i < length b.backends
      → (o : Option SocketAddr) × (healthy_at SocketAddr b i ≡ some o)
  unfolding healthy_at
  healthy_at-there b i h =
      let (backend, at) = get_elem?_of_lt b.backends i h in
      ((if backend.healthy then some backend.addr else none), rw (at, healthy_at) refl)

  healthy_at-found :
      (b : Balancer SocketAddr) (i : ℕ) (a : SocketAddr)
      → healthy_at SocketAddr b i ≡ some (some a)
      → (backend : Backend SocketAddr) × (get_elem? b.backends i ≡ some backend)
        × (backend.healthy ≡ true)
        × (backend.addr ≡ a)
  unfolding healthy_at
  healthy_at-found b i a h = elim (Option-cases (get_elem? b.backends i)) [
    | inl absent ↦ absurd (ground arith)
    | inr (backend, at) ↦ (backend, at, ground arith, ground arith)
  ]

  healthy_at-nothing :
      (b : Balancer SocketAddr) (i : ℕ) (backend : Backend SocketAddr)
      → healthy_at SocketAddr b i ≡ some none
      → get_elem? b.backends i ≡ some backend
      → backend.healthy ≡ false
  unfolding healthy_at
  healthy_at-nothing b i backend h at = ground arith

  pub first_healthy_from-Picks :
      (b : Balancer SocketAddr) (start : ℕ)
      → (r : Option SocketAddr) × (first_healthy_from SocketAddr b start ≡ some r) × Picks b start r
  unfolding first_healthy_from
  first_healthy_from-Picks b start =
      let n = length b.backends in
      let there = λ (j : ℕ) (p : 0 ≤ j) (q : j < 0 + n).
        healthy_at-there b ((start + j) % word % n)
          (mod-lt ((start + j) % word) {m = n} (omega arith)) in
      let (r, eq, w) =
        find_map-Walked (λ offset. healthy_at SocketAddr b ((start + offset) % word % n)) n 0
          there in
      (
        r,
        eq,
        record {
          found = λ a h.
              let (j, p, q, at) = w.found a h in
              let (backend, here, up, same) = healthy_at-found b ((start + j) % word % n) a at in
              ((start + j) % word % n, backend, here, up, same);
          nothing = λ fits h i backend at.
              let (j, q, lands) = turn start n i (get_elem?-lt b.backends i backend at) in
              let whole : (start + j) % word % n ≡ i =
                ap (λ x. x % n) (mod-eq_of_lt (omega arith)) ∙ lands in
              healthy_at-nothing b i backend
                (sym (ap (healthy_at SocketAddr b) whole)
                  ∙ w.nothing h j (omega arith) (omega arith))
                at;
        },
      )

  hashed_at-node :
      (b : Balancer SocketAddr) (p : ℕ) (node : RingNode)
      → get_elem? b.ring p ≡ some node
      → hashed_at SocketAddr b p ≡ healthy_at SocketAddr b node.backend
  unfolding hashed_at
  hashed_at-node b p node at = rw (at, hashed_at) refl

  hashed_at-there :
      (b : Balancer SocketAddr) (p : ℕ)
      → IsValid b
      → p < length b.ring
      → (o : Option SocketAddr) × (hashed_at SocketAddr b p ≡ some o)
  hashed_at-there b p v h =
      let (node, at) = get_elem?_of_lt b.ring p h in
      let (o, here) = healthy_at-there b node.backend (v.inside p node at) in
      (o, hashed_at-node b p node at ∙ here)

  ring_walk-node :
      (b : Balancer SocketAddr) (key : List ℕ) (offset : ℕ)
      → IsValid b
      → 0 < length b.ring
      → (o : Option SocketAddr) × (ring_walk SocketAddr b key offset ≡ some o)
  unfolding ring_walk
  ring_walk-node b key offset v h =
      hashed_at-there b _ v
        (mod-lt (partition_point (fnv1a key) b.ring % length b.ring + offset) {m = length b.ring} h)

  -- What the walk finds stands behind a node of the ring.
  ring_walk-found :
      (b : Balancer SocketAddr) (key : List ℕ) (offset : ℕ) (a : SocketAddr)
      → 0 < length b.ring
      → ring_walk SocketAddr b key offset ≡ some (some a)
      → (i : ℕ) × (backend : Backend SocketAddr) × (get_elem? b.backends i ≡ some backend)
        × (backend.healthy ≡ true)
        × (backend.addr ≡ a)
  unfolding ring_walk
  ring_walk-found b key offset a h found =
      let p = (partition_point (fnv1a key) b.ring % length b.ring + offset) % length b.ring in
      let (node, at) = get_elem?_of_lt b.ring p (mod-lt _ {m = length b.ring} h) in
      let (backend, here, up, same) =
        healthy_at-found b node.backend a (sym (hashed_at-node b p node at) ∙ found) in
      (node.backend, backend, here, up, same)

  ring_walk-nothing :
      (b : Balancer SocketAddr) (key : List ℕ) (i : ℕ) (backend : Backend SocketAddr)
      → IsValid b
      → b.policy ≡ ip_hash
      → ((j : ℕ) → 0 ≤ j → j < 0 + length b.ring → ring_walk SocketAddr b key j ≡ some none)
      → get_elem? b.backends i ≡ some backend
      → backend.healthy ≡ false
  unfolding ring_walk
  ring_walk-nothing b key i backend v hashed none_found at =
      let (p, node, there, owned) = v.covers hashed i (get_elem?-lt b.backends i backend at) in
      let start = partition_point (fnv1a key) b.ring % length b.ring in
      let (j, q, lands) = turn start (length b.ring) p (get_elem?-lt b.ring p node there) in
      let none_here = none_found j (omega arith) (omega arith) in
      healthy_at-nothing b i backend
        (ap (healthy_at SocketAddr b) (sym owned)
          ∙ sym (hashed_at-node b p node there)
          ∙ ap (hashed_at SocketAddr b) (sym lands)
          ∙ none_here)
        at

  pub select_hashed-Picks :
      (b : Balancer SocketAddr) (key : List ℕ)
      → IsValid b
      → b.policy ≡ ip_hash
      → (r : Option SocketAddr) × (select_hashed SocketAddr b key ≡ some r) × Picks b 0 r
  unfolding select_hashed
  select_hashed-Picks b key v hashed = elim (List-cases b.ring) [
    | inl empty ↦
        let (r, eq, w) = first_healthy_from-Picks b 0 in
        let none_there : is_empty b.ring ≡ true = ap is_empty empty in
        (r, rw (none_there, select_hashed) eq, w)
    | inr (x, xs, full) ↦
        let some_there : is_empty b.ring ≡ false = ap is_empty full in
        let h : 0 < length b.ring = omega (arith, ap length full) in
        let (r, eq, w) =
          find_map-Walked (ring_walk SocketAddr b key) (length b.ring) 0
            (λ j p q. ring_walk-node b key j v h) in
        (
          r,
          rw (some_there, select_hashed) eq,
          record {
            found = λ a e. let (j, p, q, at) = w.found a e in ring_walk-found b key j a h at;
            nothing =
                λ _ e i backend at. ring_walk-nothing b key i backend v hashed (w.nothing e) at;
          },
        )
  ]

  pub select-some :
      (b : Balancer SocketAddr) (key : List ℕ)
      → 0 < length b.backends
      → select SocketAddr b key ≡ select_by SocketAddr b.policy b key
  unfolding select
  select-some b key some_one = elim (List-cases b.backends) [
    | inl empty ↦ absurd (omega (arith, ap length empty))
    | inr (x, xs, full) ↦
        ap (λ e. if e then (b, some none) else select_by SocketAddr b.policy b key)
          (ap is_empty full)
  ]

  -- What a selection from the balancer must give.
  pub record Selects (start : ℕ) (b : Balancer SocketAddr)
      (out : Balancer SocketAddr × Option (Option SocketAddr)) : Type 0 where
    pub answer : (r : Option SocketAddr) × (out.1 ≡ some r) × Picks b start r
    pub backends : out.0.backends ≡ b.backends

  select_by-Selects :
      (p : LbPolicy) (b : Balancer SocketAddr) (key : List ℕ)
      → IsValid b
      → b.policy ≡ p
      → Selects (start_for p b) b (select_by SocketAddr p b key)
  unfolding select_by
  select_by-Selects ip_hash b key v h = record {
    answer = select_hashed-Picks b key v h;
    backends = refl;
  }
  select_by-Selects round_robin b key v h = record {
    answer = first_healthy_from-Picks b b.cursor;
    backends = refl;
  }
  select_by-Selects random b key v h = record {
    answer = first_healthy_from-Picks b (scrambled SocketAddr b.cursor);
    backends = refl;
  }

  no_backends-Picks : (b : Balancer SocketAddr) (start : ℕ) → b.backends ≡ [] → Picks b start none
  no_backends-Picks b start empty = record {
    found = λ a h. absurd (cc);
    nothing = λ _ _ i backend at.
        absurd (omega (arith, get_elem?-lt b.backends i backend at, ap length empty));
  }

  -- On a balancer whose ring points into its backends, and has all of them under `ip_hash`, a
  -- selection of any policy returns without a panic and leaves the backends as they are; an
  -- address that it gives is that of a healthy backend; and it gives none only when every backend
  -- is unhealthy, if the start of the walk and the number of backends together do not exceed
  -- 2^64.
  pub select-Selects :
      (b : Balancer SocketAddr) (key : List ℕ)
      → IsValid b
      → Selects (start_for b.policy b) b (select SocketAddr b key)
  unfolding select
  select-Selects b key v = elim (List-cases b.backends) [
    | inl empty ↦
        let no_one : is_empty b.backends ≡ true = ap is_empty empty in
        rw (no_one, select)
          (record { answer = (none, refl, no_backends-Picks b _ empty); backends = refl })
    | inr (x, xs, full) ↦
        rw (select-some b key (omega (arith, ap length full)))
          (select_by-Selects b.policy b key v refl)
  ]
