-- ===== src/Balance/Ring.antt =====
-- layer4/balance.rs: the ring is in order and has every backend.
use raddy.Base.{
  ℕ, zero, suc, ◌+◌, ◌≤◌, ◌<◌, ◌≡◌, refl, ◌∙◌, some, get_elem?, All, ap, subst, List, [], ◌∷◌,
  Option, arith, inl, inr, length, map, All-append,
}
use raddy.Config.{LbPolicy, round_robin, random, ip_hash}
use raddy.Balance.{
  TcpHealthCheckSpec, RingNode, Balancer, new, new_backend, build_ring, vnodes, all_vnodes,
  vnodes_per_backend,
}
use raddy.Balance.Nodes.{node_at, IsNode, all_vnodes-All, all_vnodes-IsIn, nodes_of-all_vnodes}
use raddy.Balance.Picks.{IsValid}
use raddy.Balance.Sorting.{
  Has, Inside, IsSorted, sort_by_hash-All, sort_by_hash-IsSorted, IsIn, sort_by_hash-IsIn, nodes_of,
  nodes_of-sort_by_hash, sort_by_hash-Has, Has-at, Inside-at, Has-append,
}

module _ (SocketAddr : Type 0) (show : SocketAddr → List ℕ) where
  vnodes-Inside :
      (addr : SocketAddr) (i n vnode left : ℕ)
      → i < n
      → Inside n (vnodes SocketAddr show addr i vnode left)
  unfolding vnodes
  vnodes-Inside addr i n vnode zero h = tt
  vnodes-Inside addr i n vnode (suc left) h = (h, vnodes-Inside addr i n (vnode + 1) left h)

  all_vnodes-Inside :
      (i n : ℕ) (upstreams : List SocketAddr)
      → i + length upstreams ≤ n
      → Inside n (all_vnodes SocketAddr show i upstreams)
  unfolding all_vnodes
  all_vnodes-Inside i n [] h = tt
  all_vnodes-Inside i n (addr ∷ rest) h =
      All-append (λ node. node.backend < n) (vnodes SocketAddr show addr i 0 vnodes_per_backend)
        (all_vnodes SocketAddr show (i + 1) rest)
        (vnodes-Inside addr i n 0 vnodes_per_backend (omega arith))
        (all_vnodes-Inside (i + 1) n rest (omega arith))

  vnodes-Has :
      (addr : SocketAddr) (i vnode left : ℕ)
      → 0 < left
      → Has i (vnodes SocketAddr show addr i vnode left)
  unfolding vnodes
  vnodes-Has addr i vnode zero h = absurd (omega arith)
  vnodes-Has addr i vnode (suc left) h = inl refl

  all_vnodes-Has :
      (i j : ℕ) (upstreams : List SocketAddr)
      → j < length upstreams
      → Has (i + j) (all_vnodes SocketAddr show i upstreams)
  unfolding all_vnodes
  all_vnodes-Has i j [] h = absurd (omega arith)
  all_vnodes-Has i zero (addr ∷ rest) h =
      let own : Has (i + 0) (vnodes SocketAddr show addr i 0 vnodes_per_backend) =
        subst (λ k. Has k (vnodes SocketAddr show addr i 0 vnodes_per_backend)) (omega arith)
          (vnodes-Has addr i 0 vnodes_per_backend (omega arith)) in
      Has-append (i + 0) (vnodes SocketAddr show addr i 0 vnodes_per_backend)
        (all_vnodes SocketAddr show (i + 1) rest) (inl own)
  all_vnodes-Has i (suc j) (addr ∷ rest) h =
      let others : Has (i + suc j) (all_vnodes SocketAddr show (i + 1) rest) =
        subst (λ k. Has k (all_vnodes SocketAddr show (i + 1) rest)) (omega arith)
          (all_vnodes-Has (i + 1) j rest (omega arith)) in
      Has-append (i + suc j) (vnodes SocketAddr show addr i 0 vnodes_per_backend)
        (all_vnodes SocketAddr show (i + 1) rest) (inr others)

  length-map_new :
      (upstreams : List SocketAddr)
      → length (map (new_backend SocketAddr) upstreams) ≡ length upstreams
  length-map_new [] = refl
  length-map_new (x ∷ upstreams) = ap suc (length-map_new upstreams)

  -- The ring of `ip_hash`: the nodes of each backend, 160 for each, and no other.
  pub record IsRing (upstreams : List SocketAddr) (ring : List RingNode) : Type 0 where
    pub all_there :
        (i : ℕ) (addr : SocketAddr) (v : ℕ)
        → get_elem? upstreams i ≡ some addr
        → v < vnodes_per_backend
        → IsIn (node_at show addr i v) ring
    pub no_other : All (IsNode show upstreams) ring
    pub as_many : (i : ℕ) → i < length upstreams → nodes_of i ring ≡ vnodes_per_backend

  build_ring-IsRing :
      (upstreams : List SocketAddr) → IsRing upstreams (build_ring SocketAddr show upstreams)
  unfolding build_ring
  build_ring-IsRing upstreams =
      let every = all_vnodes SocketAddr show 0 upstreams in
      record {
        all_there = λ i addr v at low. sort_by_hash-IsIn (node_at show addr i v) every (
            subst (λ k. IsIn (node_at show addr k v) every) (omega arith)
              (all_vnodes-IsIn show 0 upstreams i addr v at low));
        no_other = sort_by_hash-All (IsNode show upstreams) every (
            all_vnodes-All show (IsNode show upstreams) 0 upstreams (λ j addr v at low.
              (j, addr, v, at, low, ap (λ k. node_at show addr k v) (omega arith))));
        as_many = λ i h.
            nodes_of-sort_by_hash i every
            ∙ (subst (λ k. nodes_of k every ≡ vnodes_per_backend) (omega arith)
                (nodes_of-all_vnodes show 0 i upstreams h));
      }

  -- What `new` promises.
  pub record IsBuilt (upstreams : List SocketAddr) (b : Balancer SocketAddr) : Type 0 where
    pub valid : IsValid SocketAddr b
    pub sorted : IsSorted b.ring
    pub nodes : b.policy ≡ ip_hash → IsRing upstreams b.ring

  -- A new balancer has a sorted ring that points into its backends. Under `ip_hash` every backend
  -- stands in it: it has, for each address and each number below 160, the node with the index of
  -- the address, at the FNV-1a hash of the address, a `#` and the number, no node of another
  -- form, and 160 nodes of each index.
  pub new-IsBuilt :
      (upstreams : List SocketAddr) (policy : LbPolicy) (health_check : Option TcpHealthCheckSpec)
      → IsBuilt upstreams (new SocketAddr show upstreams policy health_check)
  unfolding new build_ring
  new-IsBuilt upstreams ip_hash health_check = record {
    valid = record {
      inside = λ p node at. rw (length-map_new upstreams) (
          Inside-at (length upstreams) (build_ring SocketAddr show upstreams) p node
            (sort_by_hash-All (λ n. n.backend < length upstreams)
              (all_vnodes SocketAddr show 0 upstreams)
              (all_vnodes-Inside 0 (length upstreams) upstreams (omega arith)))
            at);
      covers = λ _ i h. Has-at i (build_ring SocketAddr show upstreams) (
          sort_by_hash-Has i (all_vnodes SocketAddr show 0 upstreams) (
            subst (λ k. Has k (all_vnodes SocketAddr show 0 upstreams)) (omega arith)
              (all_vnodes-Has 0 i upstreams (omega (arith, h, length-map_new upstreams)))));
    };
    sorted = sort_by_hash-IsSorted (all_vnodes SocketAddr show 0 upstreams);
    nodes = λ _. build_ring-IsRing upstreams;
  }
  new-IsBuilt upstreams round_robin health_check = record {
    valid = record { inside = λ p node at. absurd (cc); covers = λ other. absurd (cc) };
    sorted = tt;
    nodes = λ other. absurd (cc);
  }
  new-IsBuilt upstreams random health_check = record {
    valid = record { inside = λ p node at. absurd (cc); covers = λ other. absurd (cc) };
    sorted = tt;
    nodes = λ other. absurd (cc);
  }
