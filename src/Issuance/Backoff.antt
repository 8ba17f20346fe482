-- ===== src/Issuance/Backoff.antt =====
-- server/issuance_queue.rs: what a renewal is covered by, the worker's wait, and room for new hosts.
use raddy.Base.{
  ℕ, ◌-◌, ◌≤◌, ◌<◌, ◌≡◌, ◌≢◌, refl, List, [], ◌∷◌, Option, none, some, Bool, true, false, ◌⊎◌, inl,
  inr, arith, Eq, Option-cases, List-cases, Bool-cases, min, ltb, All, length,
}
use raddy.Base.Map.{HashMap, get, retain, find_key, find_key-none}
use raddy.Issuance.{
  RequestKind, new, renew, HostState, Inner, EnqueueOutcome, queued, duplicate, upgrade_forced,
  in_cooldown, queue_full, or_default, keeps, cooling, live, enqueue, enqueue_entry, pop,
  pop_due_forced, next_round, is_due, max_wait, next_expiry, wait_duration, reclaim_expired_idle,
}
use raddy.Issuance.Coherence.{Inv, HostOk}
use raddy.Issuance.Outcomes.{Means, enqueue-Means}
use raddy.Issuance.Renewal.{IsCovered}

duplicate-IsCovered :
    (o : Option HostState) (ks : List RequestKind)
    → HostOk o ks
    → (live (or_default o) ≡ true) ⊎ ((or_default o).force_owed ≡ true)
    → renew ≢ new
    → (renew ≡ new)
      ⊎ (((or_default o).force_owed ≡ true) ⊎ ((or_default o).current_kind ≢ some new))
    → IsCovered o
duplicate-IsCovered none ks h l d m = absurd (ground arith)
duplicate-IsCovered (some st) ks h l d (inl n) = absurd (d n)
duplicate-IsCovered (some st) ks h l d (inr (inl owes)) = inl owes
duplicate-IsCovered (some st) ks h (inr owes) d (inr (inr other)) = inl owes
duplicate-IsCovered (some st) ks h (inl alive) d (inr (inr other)) =
    renew-IsCovered st.current_kind refl
  where
    renew-IsCovered : (c : Option RequestKind) → st.current_kind ≡ c → IsCovered (some st)
    renew-IsCovered none same = absurd (ground arith)
    renew-IsCovered (some new) same = absurd (other same)
    renew-IsCovered (some renew) same = inr (rw same)

idle-pending : (st : HostState) → HostOk (some st) [] → st.pending ≡ false
idle-pending st h = ground arith

module _ {Host : Type 0} ⦃e : Eq Host⦄ where
  Means-IsCovered :
      (s s' : Inner Host) (host : Host) (now : ℕ) (o : EnqueueOutcome)
      → Means s host renew now (get host s.states) s' o
      → Inv s
      → o ≢ in_cooldown
      → o ≢ queue_full
      → IsCovered (get host s'.states)
  Means-IsCovered s s' host now queued m v a b = ground arith
  Means-IsCovered s s' host now duplicate m v a b =
      rw m.1 (duplicate-IsCovered (get host s.states) _ (v.hosts host) m.2 (λ n. cc) m.3)
  Means-IsCovered s s' host now upgrade_forced m v a b = ground arith
  Means-IsCovered s s' host now in_cooldown m v a b = absurd (a refl)
  Means-IsCovered s s' host now queue_full m v a b = absurd (b refl)

  -- In a state that satisfies the invariant, a `Renew` that is neither rejected for a cooldown
  -- nor for want of room is covered: right after `enqueue` a renewal of its host is queued or
  -- runs, or a forced attempt is owed.
  pub enqueue-IsCovered :
      (s : Inner Host) (host : Host) (now : ℕ)
      → Inv s
      → (enqueue s host renew now).1 ≢ in_cooldown
      → (enqueue s host renew now).1 ≢ queue_full
      → IsCovered (get host (enqueue s host renew now).0.states)
  enqueue-IsCovered s host now v a b =
      Means-IsCovered s (enqueue s host renew now).0 host now (enqueue s host renew now).1
        (enqueue-Means s host renew now v) v a b

  next_expiry-le :
      (now until : ℕ) (host : Host) (st : HostState) (m : HashMap Host HostState)
      → get host m ≡ some st
      → st.cooldown_until ≡ some until
      → now < until
      → (d : ℕ) × (next_expiry now m ≡ some d) × (d ≤ until - now)
  unfolding next_expiry get
  next_expiry-le now until host st [] found u h = absurd (cc)
  next_expiry-le now until host st ((j, w) ∷ m) found u h = elim (e.dec j host) [
    | yes here ↦
        let same : w ≡ st = ground arith in
        elim (Option-cases (next_expiry now m)) [
          | inl last ↦ (until - now, ground arith, ground arith)
          | inr (d, more) ↦ (min (until - now) d, ground arith, omega arith)
        ]
    | no there ↦
        let (d, eq, le) = next_expiry-le now until host st m (ground arith) u h in
        elim (Option-cases w.cooldown_until) [
          | inl none_w ↦ (d, ground arith, le)
          | inr (u', some_w) ↦ elim (Bool-cases (ltb now u')) [
            | inl ahead ↦ (min (u' - now) d, ground arith, omega arith)
            | inr past ↦ (d, ground arith, le)
          ]
        ]
  ]

  nothing-cooling :
      (s : Inner Host) (now : ℕ) (host : Host) (st : HostState)
      → Inv s
      → get host s.states ≡ some st
      → st.force_owed ≡ true
      → st.in_flight ≡ false
      → (next_round s now).1 ≡ none
      → cooling st.cooldown_until now ≡ true
  unfolding next_round pop pop_due_forced
  nothing-cooling s now host st v found owes idle nothing = elim (List-cases s.queue) [
    | inl empty ↦ elim (Option-cases (find_key (is_due now) s.states)) [
      | inl nobody ↦
          let not_due = find_key-none (is_due now) host st s.states nobody found in
          ground (arith, idle-pending st, v.hosts host)
      | inr (h, at) ↦ absurd (ground arith)
    ]
    | inr (r, rest, same) ↦ absurd (ground arith)
  ]

  retain_nothing :
      (p : HostState → Bool) (m : HashMap Host HostState)
      → All (λ entry. p entry.1 ≡ false) m
      → retain p m ≡ []
  unfolding retain
  retain_nothing p [] h = refl
  retain_nothing p ((j, w) ∷ m) h = rw h.0 (retain_nothing p m h.1)

  -- The worker does not oversleep: if a round at `now` finds nothing while a forced attempt is
  -- owed to a host that is not running, that host is cooling down, and the wait ends at or before
  -- the end of its cooldown, and within `max_wait`.
  pub wait_duration-due :
      (s : Inner Host) (now : ℕ) (host : Host) (st : HostState)
      → Inv s
      → get host s.states ≡ some st
      → st.force_owed ≡ true
      → st.in_flight ≡ false
      → (next_round s now).1 ≡ none
      → (until : ℕ) × (st.cooldown_until ≡ some until)
        × (now < until)
        × (wait_duration s now ≤ until - now)
        × (wait_duration s now ≤ max_wait)
  unfolding wait_duration
  wait_duration-due s now host st v found owes idle nothing =
      let cold = nothing-cooling s now host st v found owes idle nothing in
      elim (Option-cases st.cooldown_until) [
        | inl never ↦ absurd (ground arith)
        | inr (until, ends) ↦
            let (d, eq, le) = next_expiry-le now until host st s.states found ends (ground arith) in
            (until, ends, ground arith, ground arith, ground arith)
      ]

  -- Room for a new host: if no entry of the table is pending, running, owed an attempt or cooling
  -- down, the table may hold some host and the queue has room, a request for a host outside the
  -- table is queued, however full the table is.
  pub enqueue_after_churn :
      (s : Inner Host) (host : Host) (k : RequestKind) (now : ℕ)
      → get host s.states ≡ none
      → All (λ entry. keeps now entry.1 ≡ false) s.states
      → 0 < s.max_hosts
      → length s.queue < s.capacity
      → (enqueue s host k now).1 ≡ queued
  unfolding enqueue enqueue_entry reclaim_expired_idle
  enqueue_after_churn s host k now absent idle some_host room =
      ground (arith, retain_nothing (keeps now) s.states idle)
