-- ===== src/Balance/Damping.antt =====
-- layer4/balance.rs: flap damping, by the history of the probes.
use raddy.Base.{
  ℕ, zero, suc, ◌+◌, ◌%◌, ◌≤◌, ◌<◌, ◌≡◌, refl, ap, ◌∙◌, List, [], ◌∷◌, Bool, true, false, arith,
  inl, inr, Bool-cases, length, map, get_elem?, some, leb, if◌then◌else◌,
}
use raddy.Config.{LbPolicy}
use raddy.Balance.{
  TcpHealthCheckSpec, Backend, Balancer, new, new_backend, probe_one, probe_all, probe, word,
}
use native.Mathlib.Nat.{mod-eq_of_lt}

-- How many of the latest probes in a row had a result; the latest comes first.
abbrev pub same_result : Bool → Bool → Bool
same_result true r = r
same_result false true = false
same_result false false = true

unfoldable pub streak : Bool → List Bool → ℕ
streak r [] = 0
streak r (x ∷ history) = if same_result x r then suc (streak r history) else 0

streak-le : (r : Bool) (history : List Bool) → streak r history ≤ length history
unfolding streak
streak-le r [] = omega arith
streak-le r (x ∷ history) = elim (Bool-cases (same_result x r)) [
  | inl same ↦ rw (same, streak) (omega (arith, streak-le r history))
  | inr other ↦ rw (other, streak) (omega arith)
]

-- The probes in a row that a result needs to count.
abbrev pub threshold : TcpHealthCheckSpec → Bool → ℕ
threshold hc true = hc.consecutive_successes
threshold hc false = hc.consecutive_failures

-- The health that a history of probes means: the latest result once it has come often enough in a
-- row, and before that what it was.
unfoldable pub damped : TcpHealthCheckSpec → List Bool → Bool
unfolding streak
damped hc [] = true
damped hc (r ∷ history) =
    if leb (threshold hc r) (streak r (r ∷ history)) then r else damped hc history

module _ (SocketAddr : Type 0) (hc : TcpHealthCheckSpec) where
  -- A backend after the probes of a history.
  unfoldable pub after : SocketAddr → List Bool → Backend SocketAddr
  after addr [] = new_backend SocketAddr addr
  after addr (r ∷ history) = probe_one SocketAddr hc (after addr history) r

  after-addr : (addr : SocketAddr) (history : List Bool) → (after addr history).addr ≡ addr
  unfolding after probe_one
  after-addr addr [] = refl
  after-addr addr (true ∷ history) = after-addr addr history
  after-addr addr (false ∷ history) = after-addr addr history

  record Counts (b : Backend SocketAddr) (history : List Bool) : Type 0 where
    failures : b.failures ≡ streak false history
    successes : b.successes ≡ streak true history
    health : b.healthy ≡ damped hc history

  after-Counts :
      (addr : SocketAddr) (history : List Bool)
      → length history < word
      → Counts (after addr history) history
  unfolding after probe_one damped streak
  after-Counts addr [] short = record { failures = refl; successes = refl; health = refl }
  after-Counts addr (true ∷ history) short =
      let c = after-Counts addr history (omega arith) in
      let next : ((after addr history).successes + 1) % word ≡ suc (streak true history) =
        mod-eq_of_lt (omega (arith, c.successes, streak-le true history))
        ∙ (omega (arith, c.successes)) in
      record {
        failures = refl;
        successes = next;
        health =
            ap (λ n. if leb hc.consecutive_successes n then true else (after addr history).healthy)
              next
            ∙ ap (λ h. if leb hc.consecutive_successes (suc (streak true history)) then true else h)
                c.health;
      }
  after-Counts addr (false ∷ history) short =
      let c = after-Counts addr history (omega arith) in
      let next : ((after addr history).failures + 1) % word ≡ suc (streak false history) =
        mod-eq_of_lt (omega (arith, c.failures, streak-le false history))
        ∙ (omega (arith, c.failures)) in
      record {
        failures = next;
        successes = refl;
        health =
            ap (λ n. if leb hc.consecutive_failures n then false else (after addr history).healthy)
              next
            ∙ ap
                (λ h. if leb hc.consecutive_failures (suc (streak false history)) then false else h)
                c.health;
      }

  -- A balancer after rounds of probes, the latest first.
  unfoldable pub rounds : List (List Bool) → Balancer SocketAddr → Balancer SocketAddr
  rounds [] b = b
  rounds (results ∷ earlier) b = probe SocketAddr (rounds earlier b) results

  -- What the rounds found at one backend.
  abbrev pub Column : ℕ → List (List Bool) → List Bool → Type 0
  Column i [] [] = Unit {0}
  Column i (results ∷ earlier) (r ∷ history) =
      (get_elem? results i ≡ some r) × Column i earlier history
  Column i _ _ = ⊥

  probe_all-at :
      (bs : List (Backend SocketAddr)) (results : List Bool) (i : ℕ) (b : Backend SocketAddr)
      (r : Bool)
      → get_elem? bs i ≡ some b
      → get_elem? results i ≡ some r
      → get_elem? (probe_all SocketAddr hc bs results) i ≡ some (probe_one SocketAddr hc b r)
  unfolding probe_all
  probe_all-at [] results i b r h g = absurd (cc)
  probe_all-at (x ∷ bs) [] i b r h g = absurd (cc)
  probe_all-at (x ∷ bs) (y ∷ results) zero b r h g = cc
  probe_all-at (x ∷ bs) (y ∷ results) (suc i) b r h g = probe_all-at bs results i b r h g

  record Stays (b b' : Balancer SocketAddr) (results : List Bool) : Type 0 where
    probed : b'.backends ≡ probe_all SocketAddr hc b.backends results
    still : b'.health_check ≡ some hc

  probe-Stays :
      (b : Balancer SocketAddr) (results : List Bool)
      → b.health_check ≡ some hc
      → Stays b (probe SocketAddr b results) results
  unfolding probe
  probe-Stays b results on = record { probed = rw (on, probe) refl; still = rw (on, probe) on }

  get_elem?-new :
      (upstreams : List SocketAddr) (i : ℕ) (addr : SocketAddr)
      → get_elem? upstreams i ≡ some addr
      → get_elem? (map (new_backend SocketAddr) upstreams) i ≡ some (new_backend SocketAddr addr)
  get_elem?-new [] i addr h = absurd (cc)
  get_elem?-new (x ∷ upstreams) zero addr h = cc
  get_elem?-new (x ∷ upstreams) (suc i) addr h = get_elem?-new upstreams i addr h

  module _ (show : SocketAddr → List ℕ) (upstreams : List SocketAddr) (policy : LbPolicy) where
    abbrev start : Balancer SocketAddr
    start = new SocketAddr show upstreams policy (some hc)

    still-on : (rs : List (List Bool)) → (rounds rs start).health_check ≡ some hc
    unfolding rounds new
    still-on [] = refl
    still-on (results ∷ earlier) =
        (probe-Stays (rounds earlier start) results (still-on earlier)).still

    rounds-after :
        (i : ℕ) (addr : SocketAddr) (rs : List (List Bool)) (history : List Bool)
        → get_elem? upstreams i ≡ some addr
        → Column i rs history
        → get_elem? (rounds rs start).backends i ≡ some (after addr history)
    unfolding rounds after new
    rounds-after i addr [] [] h c = get_elem?-new upstreams i addr h
    rounds-after i addr [] (r ∷ history) h c = elim c [ ]
    rounds-after i addr (results ∷ earlier) [] h c = elim c [ ]
    rounds-after i addr (results ∷ earlier) (r ∷ history) h (here, before) =
        ap (λ bs. get_elem? bs i)
          (probe-Stays (rounds earlier start) results (still-on earlier)).probed
        ∙ probe_all-at (rounds earlier start).backends results i (after addr history) r
            (rounds-after i addr earlier history h before) here

    -- After fewer than 2^64 rounds of probes of a new balancer with a health check, each with a
    -- result for a backend, that backend is as healthy as its own history of results says: the
    -- latest result counts once it has come in a row as often as its threshold, before that the
    -- health is what it was, and at first it is healthy.
    pub rounds-damped :
        (i : ℕ) (addr : SocketAddr) (rs : List (List Bool)) (history : List Bool)
        → get_elem? upstreams i ≡ some addr
        → Column i rs history
        → length history < word
        → (b : Backend SocketAddr) × (get_elem? (rounds rs start).backends i ≡ some b)
          × (b.addr ≡ addr)
          × (b.healthy ≡ damped hc history)
    rounds-damped i addr rs history h c short = (
      after addr history,
      rounds-after i addr rs history h c,
      after-addr addr history,
      (after-Counts addr history short).health,
    )
