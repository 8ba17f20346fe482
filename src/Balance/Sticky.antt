-- ===== src/Balance/Sticky.antt =====
-- layer4/balance.rs: `ip_hash` keeps its clients when other backends fail.
use raddy.Base.{
  ℕ, zero, suc, ◌+◌, ◌%◌, ◌<◌, ◌≡◌, ◌≢◌, refl, sym, ap, ◌∙◌, List, [], ◌∷◌, Option, none, some,
  false, arith, inl, inr, ◌⊎◌, if◌then◌else◌, List-cases, Option-cases, length, get_elem?,
}
use raddy.Config.{ip_hash}
use raddy.Balance.{
  RingNode, Backend, Balancer, healthy_at, hashed_at, ring_walk, first_healthy_from, select_hashed,
  select, select_by, find_map, is_empty, partition_point, fnv1a,
}
use raddy.Balance.Picks.{select-some}

-- What a position gives now: what it gave, or nothing where it had something else.
abbrev Keeps {ℓ} : {A : Type ℓ} → A → Option (Option A) → Option (Option A) → Type ℓ
Keeps a before now = (now ≡ before) ⊎ ((now ≡ some none) × (before ≢ some (some a)))

find_map-Keeps {ℓ} :
    {A : Type ℓ} (f g : ℕ → Option (Option A)) (a : A) (left offset : ℕ)
    → ((j : ℕ) → Keeps a (f j) (g j))
    → find_map f left offset ≡ some (some a)
    → find_map g left offset ≡ some (some a)
unfolding find_map
find_map-Keeps f g a zero offset keeps h = h
find_map-Keeps f g a (suc left) offset keeps h =
    let rest = find_map-Keeps f g a left (offset + 1) keeps in
    elim (Option-cases (f offset)) [
      | inl nowhere ↦ absurd (let h' = rw (nowhere, find_map) at h in cc)
      | inr (o, there) ↦ elim (Option-cases o) [
        | inl empty ↦
            let found = rest (rw (there ∙ ap some empty, find_map) at h) in
            let now : g offset ≡ some none = elim (keeps offset) [
              | inl same ↦ same ∙ there ∙ ap some empty
              | inr (gone, _) ↦ gone
            ] in
            rw (now, find_map) found
        | inr (x, full) ↦
            let found = rw (there ∙ ap some full, find_map) at h in
            elim (keeps offset) [
              | inl same ↦ rw (same ∙ there ∙ ap some full, find_map) found
              | inr (_, other) ↦ absurd (other (there ∙ ap some full ∙ found))
            ]
      ]
    ]

module _ (SocketAddr : Type 0) where
  -- Backends with other addresses have become unhealthy, and nothing else has changed.
  abbrev pub OthersFail :
      SocketAddr → List (Backend SocketAddr) → List (Backend SocketAddr) → Type 0
  OthersFail a [] [] = Unit {0}
  OthersFail a (x ∷ xs) (y ∷ ys) =
      (y.addr ≡ x.addr)
      × ((y.healthy ≡ x.healthy) ⊎ ((x.addr ≢ a) × (y.healthy ≡ false)))
      × OthersFail a xs ys
  OthersFail a _ _ = ⊥

  -- A place in both lists.
  record Pair (a : SocketAddr) (xs ys : List (Backend SocketAddr)) (i : ℕ) : Type 0 where
    old : Backend SocketAddr
    new : Backend SocketAddr
    was : get_elem? xs i ≡ some old
    is : get_elem? ys i ≡ some new
    same : new.addr ≡ old.addr
    health : (new.healthy ≡ old.healthy) ⊎ ((old.addr ≢ a) × (new.healthy ≡ false))

  OthersFail-at :
      (a : SocketAddr) (xs ys : List (Backend SocketAddr)) (i : ℕ)
      → OthersFail a xs ys
      → ((get_elem? xs i ≡ none) × (get_elem? ys i ≡ none)) ⊎ Pair a xs ys i
  OthersFail-at a [] [] i v = inl (refl, refl)
  OthersFail-at a [] (y ∷ ys) i v = elim v [ ]
  OthersFail-at a (x ∷ xs) [] i v = elim v [ ]
  OthersFail-at a (x ∷ xs) (y ∷ ys) zero v =
      inr (record { old = x; new = y; was = refl; is = refl; same = v.0; health = v.1 })
  OthersFail-at a (x ∷ xs) (y ∷ ys) (suc i) v = elim (OthersFail-at a xs ys i v.2) [
    | inl both ↦ inl both
    | inr p ↦ inr (record {
      old = p.old;
      new = p.new;
      was = p.was;
      is = p.is;
      same = p.same;
      health = p.health;
    })
  ]

  healthy_at-value :
      (b : Balancer SocketAddr) (i : ℕ) (x : Backend SocketAddr)
      → get_elem? b.backends i ≡ some x
      → healthy_at SocketAddr b i ≡ some (if x.healthy then some x.addr else none)
  unfolding healthy_at
  healthy_at-value b i x at = rw (at, healthy_at) refl

  healthy_at-Keeps :
      (a : SocketAddr) (b b' : Balancer SocketAddr) (i : ℕ)
      → OthersFail a b.backends b'.backends
      → Keeps a (healthy_at SocketAddr b i) (healthy_at SocketAddr b' i)
  unfolding healthy_at
  healthy_at-Keeps a b b' i v = elim (OthersFail-at a b.backends b'.backends i v) [
    | inl (gone, gone') ↦ inl (rw (gone, gone', healthy_at) refl)
    | inr p ↦
        let was = healthy_at-value b i p.old p.was in
        let is = healthy_at-value b' i p.new p.is in
        elim p.health [
          | inl equal ↦ inl (
              is
              ∙ ap (λ h. some (if h then some p.new.addr else none)) equal
              ∙ ap (λ x. some (if p.old.healthy then some x else none)) p.same
              ∙ sym was)
          | inr (other, down) ↦ inr (
            is ∙ ap (λ h. some (if h then some p.new.addr else none)) down,
            λ picked. other (ground arith),
          )
        ]
  ]

  hashed_at-none :
      (b : Balancer SocketAddr) (i : ℕ)
      → get_elem? b.ring i ≡ none
      → hashed_at SocketAddr b i ≡ none
  unfolding hashed_at
  hashed_at-none b i gone = rw (gone, hashed_at) refl

  hashed_at-node :
      (b : Balancer SocketAddr) (i : ℕ) (node : RingNode)
      → get_elem? b.ring i ≡ some node
      → hashed_at SocketAddr b i ≡ healthy_at SocketAddr b node.backend
  unfolding hashed_at
  hashed_at-node b i node at = rw (at, hashed_at) refl

  hashed_at-Keeps :
      (a : SocketAddr) (b : Balancer SocketAddr) (ys : List (Backend SocketAddr)) (i : ℕ)
      → OthersFail a b.backends ys
      → Keeps a (hashed_at SocketAddr b i) (hashed_at SocketAddr (record b { backends = ys }) i)
  hashed_at-Keeps a b ys i v = elim (Option-cases (get_elem? b.ring i)) [
    | inl gone ↦
        inl (hashed_at-none (record b { backends = ys }) i gone ∙ sym (hashed_at-none b i gone))
    | inr (node, at) ↦
        let was = hashed_at-node b i node at in
        let is = hashed_at-node (record b { backends = ys }) i node at in
        elim (healthy_at-Keeps a b (record b { backends = ys }) node.backend v) [
          | inl same ↦ inl (is ∙ same ∙ sym was)
          | inr (gone, other) ↦ inr (is ∙ gone, λ picked. other (sym was ∙ picked))
        ]
  ]

  select-walk :
      (b : Balancer SocketAddr) (key : List ℕ)
      → b.policy ≡ ip_hash
      → 0 < length b.ring
      → 0 < length b.backends
      → (select SocketAddr b key).1 ≡ find_map (ring_walk SocketAddr b key) (length b.ring) 0
  unfolding select_hashed select_by
  select-walk b key hashed nodes some_one =
      ap (λ r. r.1)
        (select-some SocketAddr b key some_one ∙ ap (λ p. select_by SocketAddr p b key) hashed)
      ∙ elim (List-cases b.ring) [
        | inl empty ↦ absurd (omega (arith, ap length empty))
        | inr (x, xs, full) ↦
            ap
              (λ e.
                if e
                then first_healthy_from SocketAddr b 0
                else find_map (ring_walk SocketAddr b key) (length b.ring) 0)
              (ap is_empty full)
      ]

  length-OthersFail :
      (a : SocketAddr) (xs ys : List (Backend SocketAddr))
      → OthersFail a xs ys
      → length ys ≡ length xs
  length-OthersFail a [] [] v = refl
  length-OthersFail a [] (y ∷ ys) v = elim v [ ]
  length-OthersFail a (x ∷ xs) [] v = elim v [ ]
  length-OthersFail a (x ∷ xs) (y ∷ ys) v = ap suc (length-OthersFail a xs ys v.2)

  -- Under `ip_hash`, with backends and a ring that is not empty, a key that is given an address
  -- keeps it when any backends with other addresses become unhealthy.
  pub select-sticky :
      (a : SocketAddr) (b : Balancer SocketAddr) (ys : List (Backend SocketAddr)) (key : List ℕ)
      → b.policy ≡ ip_hash
      → 0 < length b.ring
      → 0 < length b.backends
      → OthersFail a b.backends ys
      → (select SocketAddr b key).1 ≡ some (some a)
      → (select SocketAddr (record b { backends = ys }) key).1 ≡ some (some a)
  unfolding ring_walk
  select-sticky a b ys key hashed nodes some_one v h =
      let n = length b.ring in
      let start = partition_point (fnv1a key) b.ring % n in
      select-walk (record b { backends = ys }) key hashed nodes
        (omega (arith, length-OthersFail a b.backends ys v))
      ∙ find_map-Keeps (ring_walk SocketAddr b key)
          (ring_walk SocketAddr (record b { backends = ys }) key) a n 0
          (λ j. hashed_at-Keeps a b ys ((start + j) % n) v)
          (sym (select-walk b key hashed nodes some_one) ∙ h)
