-- ===== src/Issuance/System.antt =====
-- server/issuance_queue.rs with its single worker (server/acme.rs: `spawn_issuance_worker` and
-- `process_attempt`). Producers enqueue at any moment; the worker takes a request when it has none
-- and completes the one that it runs. Each step is what one thread does under the mutex.
use raddy.Base.{
  ℕ, ◌≡◌, refl, Option, none, some, Bool, true, false, inl, inr, arith, Eq, ap, ◌∙◌, Option-cases,
}
use raddy.Base.Map.{get}
use raddy.Issuance.{
  RequestKind, HostState, Inner, QueuedRequest, initial, enqueue, complete, next_round,
}
use raddy.Issuance.Coherence.{Inv, initial-Inv}
use raddy.Issuance.Invariant.{enqueue-Inv, next_round-Inv, complete-Inv}
use raddy.Issuance.Running.{
  in_flight_of, enqueue-in_flight, is_running, next_round-in_flight, get-complete_self,
  get-complete_ne, completed-in_flight,
}

-- The queue, and the request that the worker runs.
pub record System (Host : Type 0) : Type 0 where
  pub inner : Inner Host
  pub current : Option (QueuedRequest Host)

module _ {Host : Type 0} ⦃e : Eq Host⦄ where
  abbrev pub started : ℕ → ℕ → ℕ → System Host
  started capacity max_hosts cooldown = record {
    inner = initial capacity max_hosts cooldown;
    current = none;
  }

  -- One step of a producer or of the worker, at any time `now`. A `takes` that finds nothing is a
  -- round of waiting.
  pub data Step (s : System Host) : System Host → Type 0 where
    enqueues :
        (host : Host) (k : RequestKind) (now : ℕ)
        → Step s (record s { inner = (enqueue s.inner host k now).0 })
    takes :
        (now : ℕ)
        → s.current ≡ none
        → Step s
            (record { inner = (next_round s.inner now).0; current = (next_round s.inner now).1 })
    finishes :
        (r : QueuedRequest Host) (success : Bool) (now : ℕ)
        → s.current ≡ some r
        → Step s (record { inner = complete s.inner r.host success now; current = none })

  pub data Reach (s : System Host) : System Host → Type 0 where
    here : Reach s s
    next : {t u : System Host} → Reach s t → Step t u → Reach s u

  -- Exactly the worker's host is marked as running.
  pub record IsSound (s : System Host) : Type 0 where
    pub inv : Inv s.inner
    pub runs : (h : Host) → in_flight_of (get h s.inner.states) ≡ is_running h s.current

  pub running-found :
      (s : System Host) (r : QueuedRequest Host)
      → IsSound s
      → s.current ≡ some r
      → (st : HostState) × (get r.host s.inner.states ≡ some st) × (st.in_flight ≡ true)
  running-found s r v busy = elim (Option-cases (get r.host s.inner.states)) [
    | inl absent ↦ absurd (ground (arith, v.runs r.host))
    | inr (st, found) ↦ (st, found, ground (arith, v.runs r.host))
  ]

  finished :
      (s : System Host) (r : QueuedRequest Host) (success : Bool) (now : ℕ) (st : HostState)
      → get r.host s.inner.states ≡ some st
      → IsSound s
      → s.current ≡ some r
      → (h : Host) → in_flight_of (get h (complete s.inner r.host success now).states) ≡ false
  finished s r success now st found v busy h = elim (e.dec r.host h) [
    | yes same ↦
        rw (← same, get-complete_self s.inner r.host success now st found v.inv)
          (completed-in_flight s.inner st success now)
    | no other ↦ rw (get-complete_ne s.inner r.host h success now other) (ground (arith, v.runs h))
  ]

  pub Step-IsSound : {s t : System Host} → IsSound s → Step s t → IsSound t
  Step-IsSound {s} v (enqueues host k now) = record {
    inv = enqueue-Inv s.inner host k now v.inv;
    runs = λ h. enqueue-in_flight s.inner host h k now v.inv ∙ v.runs h;
  }
  Step-IsSound {s} v (takes now idle) = record {
    inv = next_round-Inv s.inner now v.inv;
    runs = λ h. next_round-in_flight s.inner now h v.inv (v.runs h ∙ ap (is_running h) idle);
  }
  Step-IsSound {s} v (finishes r success now busy) =
      let (st, found, runs_now) = running-found s r v busy in
      record {
        inv = complete-Inv s.inner r.host success now st found runs_now v.inv;
        runs = λ h. finished s r success now st found v busy h;
      }

  started-IsSound :
      (capacity max_hosts cooldown : ℕ) → IsSound (started capacity max_hosts cooldown)
  unfolding initial get
  started-IsSound capacity max_hosts cooldown = record {
    inv = initial-Inv capacity max_hosts cooldown;
    runs = λ h. refl;
  }

  Reach-IsSound_from : {s t : System Host} → IsSound s → Reach s t → IsSound t
  Reach-IsSound_from v here = v
  Reach-IsSound_from v (next r st) = Step-IsSound (Reach-IsSound_from v r) st

  -- Whatever the producers and the worker do, in any order and at any times: the queue and the
  -- table of hosts stay within their capacities, a host stands in the queue once, with the kind
  -- of its table entry, if that entry is pending and not at all otherwise, no host is queued and
  -- running at once, a forced attempt is owed beside a live one only if that is a `New`, and the
  -- one host marked as running is the one whose request the worker has.
  pub Reach-IsSound :
      (capacity max_hosts cooldown : ℕ) (s : System Host)
      → Reach (started capacity max_hosts cooldown) s
      → IsSound s
  Reach-IsSound capacity max_hosts cooldown s r =
      Reach-IsSound_from (started-IsSound capacity max_hosts cooldown) r
