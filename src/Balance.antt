-- ===== src/Balance.antt =====
-- layer4/balance.rs: upstream selection and health checking of a layer-4 listener. Counters and hashes
-- are `usize` and `u64`, which wrap. An atomic is read and written in one step, and a probe round sees
-- the results of its connects as a list. `none` is a panic, where a function returns an Option of an
-- Option.
pub mod Walk
pub mod Sorting
pub mod Nodes
pub mod Ring
pub mod Picks
pub mod Fair
pub mod Sticky
pub mod Damping
mod Tests
use raddy.Base.{
  ℕ, zero, suc, ◌+◌, ◌*◌, ◌/◌, ◌%◌, ◌^◌, bit_xor, List, [], ◌∷◌, ◌++◌, Option, none, some, Bool,
  true, false, ◌&&◌, map, length, get_elem?, ltb, leb, if◌then◌else◌,
}
use raddy.Config.{LbPolicy, round_robin, random, ip_hash}

abbrev pub vnodes_per_backend : ℕ
vnodes_per_backend = 160

abbrev pub is_empty {ℓ} : {A : Type ℓ} → List A → Bool
is_empty [] = true
is_empty (x ∷ xs) = false

abbrev pub word : ℕ
word = 2 ^ 64

-- The thresholds; the timing of the probes is left out.
pub record TcpHealthCheckSpec : Type 0 where
  pub consecutive_failures : ℕ
  pub consecutive_successes : ℕ

pub record RingNode : Type 0 where
  pub hash : ℕ
  pub backend : ℕ

-- One round of FNV-1a, and the finalizer.
abbrev mix : ℕ → ℕ → ℕ
mix hash byte = bit_xor hash byte * 0x0000_0100_0000_01b3 % word

abbrev fold_high : ℕ → ℕ
fold_high hash = bit_xor hash (hash / 2 ^ 33)

unfoldable pub fnv_rounds : ℕ → List ℕ → ℕ
fnv_rounds hash [] = hash
fnv_rounds hash (byte ∷ bytes) = fnv_rounds (mix hash byte) bytes

unfoldable pub fnv1a : List ℕ → ℕ
unfolding fnv_rounds
fnv1a bytes = fold_high (
    fold_high (fold_high (fnv_rounds 0xcbf2_9ce4_8422_2325 bytes) * 0xff51_afd7_ed55_8ccd % word)
    * 0xc4ce_b9fe_1a85_ec53
    % word)

-- `(0..n).find_map(f)`, with `left` rounds to go.
unfoldable pub find_map {ℓ} : {A : Type ℓ} → (ℕ → Option (Option A)) → ℕ → ℕ → Option (Option A)
find_map f zero offset = some none
find_map f (suc left) offset = elim (f offset) [
  | none ↦ none
  | some found ↦ elim found [ some a ↦ some (some a) | none ↦ find_map f left (offset + 1) ]
]

-- `sort_unstable_by_key`: nodes of one hash stand in the order in which they came, one of the orders
-- that it may give.
unfoldable pub sorted_insert : RingNode → List RingNode → List RingNode
sorted_insert node [] = node ∷ []
sorted_insert node (x ∷ xs) =
    if leb node.hash x.hash then node ∷ x ∷ xs else x ∷ sorted_insert node xs

unfoldable pub sort_by_hash : List RingNode → List RingNode
sort_by_hash [] = []
sort_by_hash (x ∷ xs) = sorted_insert x (sort_by_hash xs)

-- The number of nodes in front whose hash is below the key's.
unfoldable pub partition_point : ℕ → List RingNode → ℕ
partition_point hash [] = 0
partition_point hash (x ∷ xs) = if ltb x.hash hash then suc (partition_point hash xs) else 0

-- `vnode`, in decimal: below 160.
abbrev pub digit : ℕ → ℕ
digit n = b'0' + n % 10

unfoldable pub show_vnode : ℕ → List ℕ
show_vnode n =
    if ltb n 10
    then digit n ∷ []
    else if ltb n 100
    then digit (n / 10) ∷ digit n ∷ []
    else digit (n / 100) ∷ digit (n / 10) ∷ digit n ∷ []

module _ (SocketAddr : Type 0) where
  pub record Backend : Type 0 where
    pub addr : SocketAddr
    pub healthy : Bool
    pub failures : ℕ
    pub successes : ℕ

  pub record Balancer : Type 0 where
    pub backends : List Backend
    pub policy : LbPolicy
    pub ring : List RingNode
    pub cursor : ℕ
    pub health_check : Option TcpHealthCheckSpec

  abbrev pub new_backend : SocketAddr → Backend
  new_backend addr = record { addr = addr; healthy = true; failures = 0; successes = 0 }

  -- What `backends[index]` gives to a selection.
  unfoldable pub healthy_at : Balancer → ℕ → Option (Option SocketAddr)
  healthy_at b index = elim (get_elem? b.backends index) [
    | none ↦ none
    | some backend ↦ some (if backend.healthy then some backend.addr else none)
  ]

  unfoldable pub first_healthy_from : Balancer → ℕ → Option (Option SocketAddr)
  first_healthy_from b start =
      find_map (λ offset. healthy_at b ((start + offset) % word % length b.backends))
        (length b.backends) 0

  unfoldable pub hashed_at : Balancer → ℕ → Option (Option SocketAddr)
  hashed_at b position = elim (get_elem? b.ring position) [
    | none ↦ none
    | some node ↦ healthy_at b node.backend
  ]

  -- The walk of `select_hashed` over the ring.
  unfoldable pub ring_walk : Balancer → List ℕ → ℕ → Option (Option SocketAddr)
  ring_walk b key offset =
      hashed_at b ((partition_point (fnv1a key) b.ring % length b.ring + offset) % length b.ring)

  unfoldable pub select_hashed : Balancer → List ℕ → Option (Option SocketAddr)
  select_hashed b key =
      if is_empty b.ring
      then first_healthy_from b 0
      else find_map (ring_walk b key) (length b.ring) 0

  abbrev pub advanced : Balancer → Balancer
  advanced b = record b { cursor = (b.cursor + 1) % word }

  abbrev pub scrambled : ℕ → ℕ
  scrambled c = (c * 1_103_515_245 % word + 12_345) % word

  -- The pick, and the balancer after it.
  unfoldable pub select_by : LbPolicy → Balancer → List ℕ → Balancer × Option (Option SocketAddr)
  select_by ip_hash b key = (b, select_hashed b key)
  select_by round_robin b key = (advanced b, first_healthy_from b b.cursor)
  select_by random b key = (advanced b, first_healthy_from b (scrambled b.cursor))

  unfoldable pub select : Balancer → List ℕ → Balancer × Option (Option SocketAddr)
  select b key = if is_empty b.backends then (b, some none) else select_by b.policy b key

  -- What one connect does to its backend.
  unfoldable pub probe_one : TcpHealthCheckSpec → Backend → Bool → Backend
  probe_one hc backend true =
      let successes = (backend.successes + 1) % word in
      record backend {
        failures = 0;
        successes = successes;
        healthy = if leb hc.consecutive_successes successes then true else backend.healthy;
      }
  probe_one hc backend false =
      let failures = (backend.failures + 1) % word in
      record backend {
        successes = 0;
        failures = failures;
        healthy = if leb hc.consecutive_failures failures then false else backend.healthy;
      }

  -- The backends whose connect has returned, in order.
  unfoldable pub probe_all : TcpHealthCheckSpec → List Backend → List Bool → List Backend
  probe_all hc [] results = []
  probe_all hc (backend ∷ rest) [] = backend ∷ rest
  probe_all hc (backend ∷ rest) (reachable ∷ results) =
      probe_one hc backend reachable ∷ probe_all hc rest results

  unfoldable pub probe : Balancer → List Bool → Balancer
  probe b results = elim b.health_check [
    | none ↦ b
    | some hc ↦ record b { backends = probe_all hc b.backends results }
  ]

  -- `Display` of an address.
  module _ (show : SocketAddr → List ℕ) where
    unfoldable pub vnodes : SocketAddr → ℕ → ℕ → ℕ → List RingNode
    vnodes addr index vnode zero = []
    vnodes addr index vnode (suc left) =
        record { hash = fnv1a (show addr ++ b'#' ∷ show_vnode vnode); backend = index }
        ∷ vnodes addr index (vnode + 1) left

    unfoldable pub all_vnodes : ℕ → List SocketAddr → List RingNode
    all_vnodes index [] = []
    all_vnodes index (addr ∷ rest) =
        vnodes addr index 0 vnodes_per_backend ++ all_vnodes (index + 1) rest

    unfoldable pub build_ring : List SocketAddr → List RingNode
    build_ring upstreams = sort_by_hash (all_vnodes 0 upstreams)

    unfoldable pub new : List SocketAddr → LbPolicy → Option TcpHealthCheckSpec → Balancer
    new upstreams policy health_check = record {
      backends = map new_backend upstreams;
      policy = policy;
      ring = elim policy [ ip_hash ↦ build_ring upstreams | _ ↦ [] ];
      cursor = 0;
      health_check = health_check;
    }
