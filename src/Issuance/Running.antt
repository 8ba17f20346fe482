-- ===== src/Issuance/Running.antt =====
-- server/issuance_queue.rs: which host is marked as running, under each operation.
use raddy.Base.{
  ℕ, ◌≡◌, ◌≢◌, refl, List, ◌∷◌, Option, none, some, Bool, true, false, inl, inr, arith, Eq, ite,
  if◌then◌else◌, ltb, length, ◌+◌, Option-cases, List-cases,
}
use raddy.Base.Map.{
  get, modify, find_key, keep, get-modify, get-insert_ne, get-insert_self, get-remove_ne,
  get-remove_self, get-find_key,
}
use raddy.Issuance.{
  RequestKind, renew, HostState, Inner, QueuedRequest, EnqueueOutcome, queued, duplicate,
  upgrade_forced, in_cooldown, queue_full, keeps, enqueue, pop, pop_due_forced, complete,
  next_round, start_attempt, start_forced, ended, is_due,
}
use raddy.Issuance.Coherence.{Inv}
use raddy.Issuance.Outcomes.{Means, enqueue-Means, enqueue-frame}

abbrev pub in_flight_of : Option HostState → Bool
in_flight_of none = false
in_flight_of (some st) = st.in_flight

in_flight-keep :
    (now : ℕ) (o : Option HostState) → in_flight_of (keep (keeps now) o) ≡ in_flight_of o
in_flight-keep now none = refl
in_flight-keep now (some st) = ground arith

module _ {Host : Type 0} ⦃e : Eq Host⦄ where
  Means-in_flight :
      (s s' : Inner Host) (host : Host) (k : RequestKind) (now : ℕ) (o : EnqueueOutcome)
      → Means s host k now (get host s.states) s' o
      → in_flight_of (get host s'.states) ≡ in_flight_of (get host s.states)
  Means-in_flight s s' host k now queued m = ground arith
  Means-in_flight s s' host k now duplicate m = ground arith
  Means-in_flight s s' host k now upgrade_forced m = ground arith
  Means-in_flight s s' host k now in_cooldown m = ground arith
  Means-in_flight s s' host k now queue_full m = ground arith

  pub enqueue-in_flight :
      (s : Inner Host) (host h : Host) (k : RequestKind) (now : ℕ)
      → Inv s
      → in_flight_of (get h (enqueue s host k now).0.states) ≡ in_flight_of (get h s.states)
  enqueue-in_flight s host h k now v = elim (e.dec host h) [
    | yes same ↦ rw (← same) (
        Means-in_flight s (enqueue s host k now).0 host k now (enqueue s host k now).1
          (enqueue-Means s host k now v))
    | no other ↦ elim (enqueue-frame s host h k now v other) [
      | inl kept ↦ rw kept
      | inr swept ↦ rw swept (in_flight-keep now (get h s.states))
    ]
  ]

  -- The host that the worker runs.
  abbrev pub is_running : Host → Option (QueuedRequest Host) → Bool
  is_running h none = false
  is_running h (some r) = ite (e.dec r.host h) true false

  start-in_flight :
      (s : Inner Host) (host h : Host) (k : RequestKind) (st : HostState)
      → get host s.states ≡ some st
      → in_flight_of (get h s.states) ≡ false
      → in_flight_of (get h (modify host (start_attempt k) s.states))
        ≡ is_running h (some (record { host = host; kind = k }))
  start-in_flight s host h k st found idle =
      rw (get-modify host h (start_attempt k) s.states) (ground arith)

  force-in_flight :
      (s : Inner Host) (host h : Host) (st : HostState)
      → get host s.states ≡ some st
      → in_flight_of (get h s.states) ≡ false
      → in_flight_of (get h (modify host start_forced s.states))
        ≡ is_running h (some (record { host = host; kind = renew }))
  force-in_flight s host h st found idle =
      rw (get-modify host h start_forced s.states) (ground arith)

  queued-found :
      (s : Inner Host) (r : QueuedRequest Host) (rest : List (QueuedRequest Host))
      → s.queue ≡ r ∷ rest
      → Inv s
      → (st : HostState) × (get r.host s.states ≡ some st)
  queued-found s r rest same v = ground (arith, v.hosts r.host)

  pop-in_flight :
      (s : Inner Host) (r : QueuedRequest Host) (rest : List (QueuedRequest Host)) (h : Host)
      → s.queue ≡ r ∷ rest
      → Inv s
      → in_flight_of (get h s.states) ≡ false
      → in_flight_of (get h (pop s).0.states) ≡ is_running h (pop s).1
  unfolding pop
  pop-in_flight s r rest h same v idle =
      let (st, found) = queued-found s r rest same v in
      ground (arith, start-in_flight s r.host h r.kind st found idle)

  pop_due_forced-in_flight :
      (s : Inner Host) (now : ℕ) (h : Host)
      → Inv s
      → in_flight_of (get h s.states) ≡ false
      → in_flight_of (get h (pop_due_forced s now).0.states) ≡ is_running h (pop_due_forced s now).1
  unfolding pop_due_forced
  pop_due_forced-in_flight s now h v idle = elim (Option-cases (find_key (is_due now) s.states)) [
    | inl nobody ↦ ground arith
    | inr (host, here) ↦
        let (st, found, due) = get-find_key (is_due now) host s.states v.table here in
        ground (arith, force-in_flight s host h st found idle)
  ]

  pub next_round-in_flight :
      (s : Inner Host) (now : ℕ) (h : Host)
      → Inv s
      → in_flight_of (get h s.states) ≡ false
      → in_flight_of (get h (next_round s now).0.states) ≡ is_running h (next_round s now).1
  unfolding next_round
  next_round-in_flight s now h v idle = elim (List-cases s.queue) [
    | inl empty ↦ ground (arith, pop_due_forced-in_flight s now h v idle)
    | inr (r, rest, same) ↦ ground (arith, pop-in_flight s r rest h same v idle)
  ]

  -- What a completion leaves under its host.
  abbrev pub completed : Inner Host → HostState → Bool → ℕ → Option HostState
  completed s st false now = some (record (ended st) { cooldown_until = some (now + s.cooldown) })
  completed s st true now =
      if st.force_owed
      then (if ltb (length s.queue) s.capacity
          then some
              (record (ended st) { pending = true; force_owed = false; current_kind = some renew })
          else some (ended st))
      else none

  pub get-complete_self :
      (s : Inner Host) (host : Host) (success : Bool) (now : ℕ) (st : HostState)
      → get host s.states ≡ some st
      → Inv s
      → get host (complete s host success now).states ≡ completed s st success now
  unfolding complete
  get-complete_self s host true now st found v = ground (
    arith,
    get-remove_self host s.states v.table,
    get-insert_self host (ended st) s.states,
    get-insert_self host
        (record (ended st) { pending = true; force_owed = false; current_kind = some renew })
        s.states,
  )
  get-complete_self s host false now st found v = ground (
    arith,
    get-insert_self host (record (ended st) { cooldown_until = some (now + s.cooldown) }) s.states,
  )

  pub get-complete_ne :
      (s : Inner Host) (host h : Host) (success : Bool) (now : ℕ)
      → host ≢ h
      → get h (complete s host success now).states ≡ get h s.states
  unfolding complete
  get-complete_ne s host h success now other = elim (Option-cases (get host s.states)) [
    | inl absent ↦ ground arith
    | inr (st, found) ↦ ground (
      arith,
      get-remove_ne host h s.states other,
      get-insert_ne host h (ended st) s.states other,
      get-insert_ne host h
          (record (ended st) { pending = true; force_owed = false; current_kind = some renew })
          s.states other,
      get-insert_ne host h (record (ended st) { cooldown_until = some (now + s.cooldown) }) s.states
          other,
    )
  ]

  pub completed-in_flight :
      (s : Inner Host) (st : HostState) (success : Bool) (now : ℕ)
      → in_flight_of (completed s st success now) ≡ false
  completed-in_flight s st true now = ground arith
  completed-in_flight s st false now = refl
