-- ===== src/Issuance/Tests.antt =====
-- server/issuance_queue.rs: runs of the queue, and the theorems at concrete states. Hosts are numbers.
use raddy.Base.{
  ℕ, ◌-◌, ◌≤◌, ◌<◌, ◌≡◌, ◌≢◌, refl, [], ◌∷◌, none, some, true, false, arith, ◌⊎◌, nat_eq,
  ℕ_discrete,
}
use raddy.Base.Map.{get, insert, remove, retain, modify, find_key}
use raddy.Issuance.{
  RequestKind, new, renew, HostState, default_state, Inner, QueuedRequest, queued, duplicate,
  upgrade_forced, in_cooldown, enqueue, complete, next_round, pop_due_forced, initial,
  wait_duration, max_wait,
}
use raddy.Issuance.Coherence.{Inv, initial-Inv}
use raddy.Issuance.Invariant.{enqueue-Inv, next_round-Inv, complete-Inv}
use raddy.Issuance.Outcomes.{Means, enqueue-Means}
use raddy.Issuance.System.{
  System, enqueues, takes, finishes, Reach, here, next, started, IsSound, Reach-IsSound,
}
use raddy.Issuance.Renewal.{owed, Visits, owed-Reach, IsCovered}
use raddy.Issuance.Cooldown.{ReachBefore, begin, also, after_failure, failed-backoff}
use raddy.Issuance.Backoff.{enqueue-IsCovered, wait_duration-due, enqueue_after_churn}

runs : Unit {0}
unfolding initial enqueue next_round complete pop_due_forced wait_duration get insert remove retain
    modify find_key ℕ_discrete
runs = tt

abbrev empty_queue : Inner ℕ
empty_queue = initial 4 4 600

-- A `New` for host 7, then a `Renew` that upgrades it.
abbrev upgraded : Inner ℕ
upgraded = (enqueue (enqueue empty_queue 7 new 0).0 7 renew 0).0

-- The worker takes the `New`, and it fails at time 5.
abbrev taken : Inner ℕ
taken = (next_round upgraded 1).0

abbrev failed : Inner ℕ
failed = complete taken 7 false 5

upgrade_test :
    ((enqueue (enqueue empty_queue 7 new 0).0 7 renew 0).1 ≡ upgrade_forced)
    × ((enqueue upgraded 7 renew 0).1 ≡ duplicate)
unfolding runs
upgrade_test = (refl, refl)

forced_test :
    ((next_round failed 604).1 ≡ none)
    × ((next_round failed 605).1 ≡ some (record { host = 7; kind = renew }))
unfolding runs
forced_test = (refl, refl)

upgraded-Inv : Inv upgraded
upgraded-Inv = enqueue-Inv _ 7 renew 0 (enqueue-Inv empty_queue 7 new 0 (initial-Inv 4 4 600))

enqueue-Means_example :
    Means upgraded 8 new 2
      (get 8 upgraded.states)
      (enqueue upgraded 8 new 2).0
      (enqueue upgraded 8 new 2).1
enqueue-Means_example = enqueue-Means upgraded 8 new 2 upgraded-Inv

abbrev upgraded_system : System ℕ
upgraded_system = record { inner = upgraded; current = none }

abbrev history : Reach (started 4 4 600) upgraded_system
history = next (next here (enqueues 7 new 0)) (enqueues 7 renew 0)

Reach-IsSound_example : IsSound upgraded_system
Reach-IsSound_example = Reach-IsSound 4 4 600 upgraded_system history

abbrev taken_system : System ℕ
taken_system = record { inner = taken; current = (next_round upgraded 1).1 }

abbrev failed_system : System ℕ
failed_system = record { inner = failed; current = none }

failing : Reach upgraded_system failed_system
unfolding runs
failing = next (next here (takes 1 refl)) (finishes (record { host = 7; kind = new }) false 5 refl)

owed-Reach_example :
    (owed (get 7 failed_system.inner.states) ≡ true) ⊎ Visits 7 upgraded_system failed_system
unfolding runs
owed-Reach_example =
    owed-Reach 7 upgraded_system failed_system (Reach-IsSound 4 4 600 upgraded_system history) refl
      failing

enqueue-IsCovered_example : IsCovered (get 7 (enqueue upgraded 7 renew 3).0.states)
unfolding runs
enqueue-IsCovered_example = enqueue-IsCovered upgraded 7 3 upgraded-Inv (λ c. cc) (λ c. cc)

abbrev running_state : HostState
running_state = record {
  pending = false;
  in_flight = true;
  current_kind = some new;
  force_owed = true;
  cooldown_until = none;
}

taken-Inv : Inv taken
taken-Inv = next_round-Inv upgraded 1 upgraded-Inv

abbrev taken_request : QueuedRequest ℕ
taken_request = record { host = 7; kind = new }

-- Behind the failure, a `New` of host 8 is queued and taken.
abbrev busy_system : System ℕ
busy_system = record {
  inner = (next_round (enqueue failed 8 new 100).0 200).0;
  current = (next_round (enqueue failed 8 new 100).0 200).1;
}

taken_system-IsSound : IsSound taken_system
taken_system-IsSound = Reach-IsSound 4 4 600 taken_system (next history (takes 1 refl))

-- Host 8 runs in the cooldown of host 7.
cooling_run : ReachBefore 605 (after_failure taken_system taken_request 5) busy_system
unfolding runs
cooling_run = also (also begin (enqueues 8 new 100) (omega arith)) (takes 200 refl) (omega arith)

failed-backoff_example :
    ((k : RequestKind) → (enqueue busy_system.inner 7 k 300).1 ≡ in_cooldown)
    × ((q : QueuedRequest ℕ) → (next_round busy_system.inner 300).1 ≡ some q → q.host ≢ 7)
    × ((q : QueuedRequest ℕ) → busy_system.current ≡ some q → q.host ≢ 7)
unfolding runs
failed-backoff_example =
    failed-backoff taken_system busy_system taken_request 5 300 taken_system-IsSound refl
      cooling_run (omega arith)

abbrev cooled : ℕ → HostState
cooled until = record default_state { cooldown_until = some until }

abbrev failed_state : HostState
failed_state = record (cooled 605) { force_owed = true }

failed-Inv : Inv failed
unfolding runs
failed-Inv = complete-Inv taken 7 false 5 running_state refl refl taken-Inv

wait_duration-due_example :
    (until : ℕ) × (failed_state.cooldown_until ≡ some until)
    × (590 < until)
    × (wait_duration failed 590 ≤ until - 590)
    × (wait_duration failed 590 ≤ max_wait)
unfolding runs
wait_duration-due_example =
    wait_duration-due failed 590 7 failed_state failed-Inv refl refl refl refl

-- A table of two hosts, full, whose entries have cooled down.
abbrev churned : Inner ℕ
churned = record {
  queue = [];
  states = (1, cooled 50) ∷ (2, cooled 60) ∷ [];
  capacity = 1;
  max_hosts = 2;
  cooldown = 600;
}

enqueue_after_churn_example : (enqueue churned 3 new 60).1 ≡ queued
unfolding runs
enqueue_after_churn_example =
    enqueue_after_churn churned 3 new 60 refl (refl, (refl, tt)) (omega arith) (omega arith)
