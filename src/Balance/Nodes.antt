-- ===== src/Balance/Nodes.antt =====
-- layer4/balance.rs: the nodes of the ring.
use raddy.Base.{
  ℕ, zero, suc, ◌+◌, ◌≤◌, ◌<◌, ◌≡◌, refl, ap, ◌∙◌, subst, List, [], ◌∷◌, ◌++◌, some, arith, inl,
  inr, length, get_elem?, All, All-append, ◌==◌, true, false,
}
use raddy.Balance.{RingNode, fnv1a, show_vnode, vnodes, all_vnodes, vnodes_per_backend}
use raddy.Balance.Sorting.{IsIn, IsIn-append, nodes_of, nodes_of-append}

module _ {SocketAddr : Type 0} (show : SocketAddr → List ℕ) where
  -- A node of a backend: at the hash of its address, a `#` and a number, with its index.
  abbrev pub node_at : SocketAddr → ℕ → ℕ → RingNode
  node_at addr index v = record { hash = fnv1a (show addr ++ b'#' ∷ show_vnode v); backend = index }

  abbrev pub IsNode : List SocketAddr → RingNode → Type 0
  IsNode upstreams node =
      (i : ℕ) × (addr : SocketAddr) × (v : ℕ) × (get_elem? upstreams i ≡ some addr)
      × (v < vnodes_per_backend)
      × (node ≡ node_at addr i v)

  vnodes-All :
      (P : RingNode → Type 0) (addr : SocketAddr) (i bound vnode left : ℕ)
      → ((v : ℕ) → v < bound → P (node_at addr i v))
      → vnode + left ≤ bound
      → All P (vnodes SocketAddr show addr i vnode left)
  unfolding vnodes
  vnodes-All P addr i bound vnode zero h fits = tt
  vnodes-All P addr i bound vnode (suc left) h fits =
      (h vnode (omega arith), vnodes-All P addr i bound (vnode + 1) left h (omega arith))

  pub all_vnodes-All :
      (P : RingNode → Type 0) (i : ℕ) (upstreams : List SocketAddr)
      → ((j : ℕ) (addr : SocketAddr) (v : ℕ)
          → get_elem? upstreams j ≡ some addr
          → v < vnodes_per_backend
          → P (node_at addr (i + j) v))
      → All P (all_vnodes SocketAddr show i upstreams)
  unfolding all_vnodes
  all_vnodes-All P i [] h = tt
  all_vnodes-All P i (addr ∷ rest) h =
      All-append P (vnodes SocketAddr show addr i 0 vnodes_per_backend)
        (all_vnodes SocketAddr show (i + 1) rest)
        (vnodes-All P addr i vnodes_per_backend 0 vnodes_per_backend
          (λ v low. subst (λ k. P (node_at addr k v)) (omega arith) (h 0 addr v refl low))
          (omega arith))
        (all_vnodes-All P (i + 1) rest
          (λ j a v at low. subst (λ k. P (node_at a k v)) (omega arith) (h (suc j) a v at low)))

  vnodes-IsIn :
      (addr : SocketAddr) (i vnode left k : ℕ)
      → k < left
      → IsIn (node_at addr i (vnode + k)) (vnodes SocketAddr show addr i vnode left)
  unfolding vnodes
  vnodes-IsIn addr i vnode zero k h = absurd (omega arith)
  vnodes-IsIn addr i vnode (suc left) zero h = inl (ap (node_at addr i) (omega arith))
  vnodes-IsIn addr i vnode (suc left) (suc k) h = inr (
      subst (λ v. IsIn (node_at addr i v) (vnodes SocketAddr show addr i (vnode + 1) left))
        (omega arith) (vnodes-IsIn addr i (vnode + 1) left k (omega arith)))

  pub all_vnodes-IsIn :
      (i : ℕ) (upstreams : List SocketAddr) (j : ℕ) (addr : SocketAddr) (v : ℕ)
      → get_elem? upstreams j ≡ some addr
      → v < vnodes_per_backend
      → IsIn (node_at addr (i + j) v) (all_vnodes SocketAddr show i upstreams)
  unfolding all_vnodes
  all_vnodes-IsIn i [] j addr v at low = absurd cc
  all_vnodes-IsIn i (a ∷ rest) zero addr v at low =
      let same : a ≡ addr = cc in
      let here = vnodes-IsIn a i 0 vnodes_per_backend v low in
      IsIn-append _ (vnodes SocketAddr show a i 0 vnodes_per_backend)
        (all_vnodes SocketAddr show (i + 1) rest)
        (inl (
          subst (λ n. IsIn n (vnodes SocketAddr show a i 0 vnodes_per_backend))
            (ap (λ x. node_at x i (0 + v)) same
              ∙ ap (node_at addr i) (omega arith)
              ∙ ap (λ k. node_at addr k v) (omega arith))
            here))
  all_vnodes-IsIn i (a ∷ rest) (suc j) addr v at low =
      IsIn-append _ (vnodes SocketAddr show a i 0 vnodes_per_backend)
        (all_vnodes SocketAddr show (i + 1) rest)
        (inr (
          subst (λ k. IsIn (node_at addr k v) (all_vnodes SocketAddr show (i + 1) rest))
            (omega arith) (all_vnodes-IsIn (i + 1) rest j addr v at low)))

  nodes_of-vnodes :
      (addr : SocketAddr) (i vnode left : ℕ)
      → nodes_of i (vnodes SocketAddr show addr i vnode left) ≡ left
  unfolding vnodes nodes_of
  nodes_of-vnodes addr i vnode zero = refl
  nodes_of-vnodes addr i vnode (suc left) =
      let rest = nodes_of-vnodes addr i (vnode + 1) left in
      let own : (i == i) ≡ true = ground arith in rw own (omega arith)

  nodes_of-vnodes_other :
      (addr : SocketAddr) (i k vnode left : ℕ)
      → (i == k) ≡ false
      → nodes_of k (vnodes SocketAddr show addr i vnode left) ≡ 0
  unfolding vnodes nodes_of
  nodes_of-vnodes_other addr i k vnode zero h = refl
  nodes_of-vnodes_other addr i k vnode (suc left) h =
      let rest = nodes_of-vnodes_other addr i k (vnode + 1) left h in rw h (omega arith)

  nodes_of-behind :
      (i k : ℕ) (upstreams : List SocketAddr)
      → k < i
      → nodes_of k (all_vnodes SocketAddr show i upstreams) ≡ 0
  unfolding all_vnodes nodes_of
  nodes_of-behind i k [] h = refl
  nodes_of-behind i k (addr ∷ rest) h =
      let own = nodes_of-vnodes_other addr i k 0 vnodes_per_backend (ground arith) in
      let others = nodes_of-behind (i + 1) k rest (omega arith) in
      let both =
        nodes_of-append k (vnodes SocketAddr show addr i 0 vnodes_per_backend)
          (all_vnodes SocketAddr show (i + 1) rest) in
      omega arith

  pub nodes_of-all_vnodes :
      (i j : ℕ) (upstreams : List SocketAddr)
      → j < length upstreams
      → nodes_of (i + j) (all_vnodes SocketAddr show i upstreams) ≡ vnodes_per_backend
  unfolding all_vnodes
  nodes_of-all_vnodes i j [] h = absurd (omega arith)
  nodes_of-all_vnodes i zero (addr ∷ rest) h =
      let own = nodes_of-vnodes addr i 0 vnodes_per_backend in
      let others = nodes_of-behind (i + 1) i rest (omega arith) in
      let both =
        nodes_of-append i (vnodes SocketAddr show addr i 0 vnodes_per_backend)
          (all_vnodes SocketAddr show (i + 1) rest) in
      let found : nodes_of i (all_vnodes SocketAddr show i (addr ∷ rest)) ≡ vnodes_per_backend =
        omega arith in
      let same : i ≡ i + 0 = omega arith in
      subst (λ k. nodes_of k (all_vnodes SocketAddr show i (addr ∷ rest)) ≡ vnodes_per_backend) same
        found
  nodes_of-all_vnodes i (suc j) (addr ∷ rest) h =
      let own = nodes_of-vnodes_other addr i (i + suc j) 0 vnodes_per_backend (ground arith) in
      let others : nodes_of (i + suc j) (all_vnodes SocketAddr show (i + 1) rest)
          ≡ vnodes_per_backend =
        subst (λ k. nodes_of k (all_vnodes SocketAddr show (i + 1) rest) ≡ vnodes_per_backend)
          (omega arith) (nodes_of-all_vnodes (i + 1) j rest (omega arith)) in
      let both =
        nodes_of-append (i + suc j) (vnodes SocketAddr show addr i 0 vnodes_per_backend)
          (all_vnodes SocketAddr show (i + 1) rest) in
      omega arith
