-- ===== src/Balance/Tests.antt =====
-- layer4/balance.rs: selections and probes at concrete balancers. Addresses are numbers.
use raddy.Base.{
  ℕ, ◌%◌, ◌≡◌, refl, List, [], ◌∷◌, none, some, true, false, arith, get_elem?, inl, inr,
}
use raddy.Config.{round_robin, ip_hash}
use raddy.Balance.{
  Backend, Balancer, TcpHealthCheckSpec, find_map, healthy_at, first_healthy_from, select,
  new_backend, select_by, select_hashed, ring_walk, hashed_at, partition_point, fnv1a, fnv_rounds,
  new, probe, probe_one, probe_all,
}
use raddy.Balance.Picks.{Selects, start_for, select-Selects}
use raddy.Balance.Ring.{IsBuilt, new-IsBuilt}
use raddy.Balance.Fair.{selections, selections-round_robin}
use raddy.Balance.Sticky.{select-sticky}
use raddy.Balance.Damping.{damped, streak, rounds, rounds-damped}

abbrev show : ℕ → List ℕ
show = λ n. n ∷ []

abbrev hc : TcpHealthCheckSpec
hc = record { consecutive_failures = 2; consecutive_successes = 1 }

abbrev turns : Balancer ℕ
turns = new ℕ show (10 ∷ 20 ∷ 30 ∷ []) round_robin (some hc)

abbrev hashed : Balancer ℕ
hashed = new ℕ show (10 ∷ 20 ∷ []) ip_hash none

runs : Unit {0}
unfolding find_map healthy_at first_healthy_from select select_by new probe probe_one probe_all
    rounds damped streak
runs = tt

down_test :
    first_healthy_from ℕ (rounds ℕ hc ((false ∷ true ∷ []) ∷ (false ∷ true ∷ []) ∷ []) turns) 0
    ≡ some (some 20)
unfolding runs
down_test = refl

-- A walk that crosses the end of `usize` starts again at the first backend, and misses the last of three.
abbrev last_up : Balancer ℕ
last_up = record {
  backends =
      record { addr = 10; healthy = false; failures = 2; successes = 0 }
      ∷ record { addr = 20; healthy = false; failures = 2; successes = 0 }
      ∷ record { addr = 30; healthy = true; failures = 0; successes = 1 }
      ∷ [];
  policy = round_robin;
  ring = [];
  cursor = 18_446_744_073_709_551_615;
  health_check = some hc;
}

wrap_test : (select ℕ last_up []).1 ≡ some none
unfolding runs
wrap_test = refl

new-IsBuilt_example : IsBuilt ℕ show (10 ∷ 20 ∷ []) hashed
new-IsBuilt_example = new-IsBuilt ℕ show (10 ∷ 20 ∷ []) ip_hash none

select-Selects_example : Selects ℕ (start_for ℕ ip_hash hashed) hashed (select ℕ hashed (7 ∷ []))
unfolding new
select-Selects_example =
    select-Selects ℕ hashed (7 ∷ []) (new-IsBuilt ℕ show (10 ∷ 20 ∷ []) ip_hash none).valid

selections-round_robin_example :
    (backend : Backend ℕ) × (get_elem? turns.backends (4 % 3) ≡ some backend)
    × (get_elem? (selections ℕ 5 turns []) 4 ≡ some (some (some backend.addr)))
unfolding new
selections-round_robin_example =
    selections-round_robin ℕ 5 4 turns [] refl (refl, (refl, (refl, tt))) (omega arith)
      (omega arith) (omega arith)

-- A ring of three nodes, in which the first backend fails.
abbrev small : Balancer ℕ
small = record {
  backends = new_backend ℕ 10 ∷ new_backend ℕ 20 ∷ [];
  policy = ip_hash;
  ring =
      record { hash = 5; backend = 0 }
      ∷ record { hash = 9_000_000_000_000_000_000; backend = 1 }
      ∷ record { hash = 18_000_000_000_000_000_000; backend = 1 }
      ∷ [];
  cursor = 0;
  health_check = none;
}

abbrev first_down : List (Backend ℕ)
first_down =
    record { addr = 10; healthy = false; failures = 2; successes = 0 } ∷ new_backend ℕ 20 ∷ []

select-sticky_example :
    (select ℕ (record small { backends = first_down }) (7 ∷ [])).1 ≡ some (some 20)
unfolding runs select_hashed ring_walk hashed_at partition_point fnv1a fnv_rounds
select-sticky_example =
    select-sticky ℕ 20 small first_down (7 ∷ []) refl (omega arith) (omega arith)
      ((refl, inr ((λ same. absurd (omega arith)), refl), (refl, inl refl, tt))) refl

rounds-damped_example :
    (b : Backend ℕ) × (get_elem? (rounds ℕ hc ((true ∷ []) ∷ (false ∷ []) ∷ []) turns).backends 0
      ≡ some b)
    × (b.addr ≡ 10)
    × (b.healthy ≡ damped hc (true ∷ false ∷ []))
rounds-damped_example =
    rounds-damped ℕ hc show (10 ∷ 20 ∷ 30 ∷ []) round_robin 0 10 ((true ∷ []) ∷ (false ∷ []) ∷ [])
      (true ∷ false ∷ []) refl (refl, (refl, tt)) (omega arith)
