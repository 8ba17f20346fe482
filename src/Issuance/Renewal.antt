-- ===== src/Issuance/Renewal.antt =====
-- server/issuance_queue.rs: a renewal that was accepted is not lost, the backoff after a failure is
-- kept, and the worker wakes in time for a forced attempt.
use raddy.Base.{
  ℕ, ◌≡◌, Option, none, some, Bool, true, false, ◌⊎◌, inl, inr, arith, Eq, Option-cases, List-cases,
}
use raddy.Base.Map.{HashMap, get, modify, find_key, keep, get-modify}
use raddy.Issuance.{
  RequestKind, HostState, Inner, EnqueueOutcome, queued, duplicate, upgrade_forced, in_cooldown,
  queue_full, keeps, enqueue, pop, pop_due_forced, complete, next_round, start_attempt,
  start_forced, is_due,
}
use raddy.Issuance.Coherence.{Inv, renewing}
use raddy.Issuance.Outcomes.{Means, enqueue-Means, enqueue-frame}
use raddy.Issuance.Running.{completed, get-complete_self, get-complete_ne}
use raddy.Issuance.System.{
  System, Step, enqueues, takes, finishes, Reach, here, next, IsSound, Step-IsSound,
}

-- A forced attempt is owed to the host.
abbrev pub owed : Option HostState → Bool
owed none = false
owed (some st) = st.force_owed

-- A renewal of the host is queued or runs.
abbrev pub renews : Option HostState → Bool
renews none = false
renews (some st) = renewing st.current_kind

-- A renewal of the host lies ahead or is under way.
abbrev pub IsCovered : Option HostState → Type 0
IsCovered o = (owed o ≡ true) ⊎ (renews o ≡ true)

owed-keep : (now : ℕ) (o : Option HostState) → owed o ≡ true → owed (keep (keeps now) o) ≡ true
owed-keep now none h = h
owed-keep now (some st) h = ground arith

module _ {Host : Type 0} ⦃e : Eq Host⦄ where
  Means-owed :
      (s s' : Inner Host) (host : Host) (k : RequestKind) (now : ℕ) (o : EnqueueOutcome)
      → Means s host k now (get host s.states) s' o
      → owed (get host s.states) ≡ true
      → owed (get host s'.states) ≡ true
  Means-owed s s' host k now queued m h = ground arith
  Means-owed s s' host k now duplicate m h = ground arith
  Means-owed s s' host k now upgrade_forced m h = ground arith
  Means-owed s s' host k now in_cooldown m h = ground arith
  Means-owed s s' host k now queue_full m h = ground arith

  enqueue-owed :
      (s : Inner Host) (host h : Host) (k : RequestKind) (now : ℕ)
      → Inv s
      → owed (get h s.states) ≡ true
      → owed (get h (enqueue s host k now).0.states) ≡ true
  enqueue-owed s host h k now v o = elim (e.dec host h) [
    | yes same ↦ rw (← same) (
        Means-owed s (enqueue s host k now).0 host k now (enqueue s host k now).1
          (enqueue-Means s host k now v) (rw same o))
    | no other ↦ elim (enqueue-frame s host h k now v other) [
      | inl kept ↦ rw kept o
      | inr swept ↦ rw swept (owed-keep now (get h s.states) o)
    ]
  ]

  start-owed :
      (host h : Host) (k : RequestKind) (m : HashMap Host HostState)
      → owed (get h m) ≡ true
      → owed (get h (modify host (start_attempt k) m)) ≡ true
  start-owed host h k m o = rw (get-modify host h (start_attempt k) m) (ground arith)

  force-IsCovered :
      (host h : Host) (m : HashMap Host HostState)
      → owed (get h m) ≡ true
      → IsCovered (get h (modify host start_forced m))
  force-IsCovered host h m o = rw (get-modify host h start_forced m) (ground arith)

  next_round-IsCovered :
      (s : Inner Host) (now : ℕ) (h : Host)
      → owed (get h s.states) ≡ true
      → IsCovered (get h (next_round s now).0.states)
  unfolding next_round pop pop_due_forced
  next_round-IsCovered s now h o = elim (List-cases s.queue) [
    | inl empty ↦ elim (Option-cases (find_key (is_due now) s.states)) [
      | inl nobody ↦ ground arith
      | inr (host, found) ↦ ground (arith, force-IsCovered host h s.states o)
    ]
    | inr (r, rest, same) ↦ ground (arith, start-owed r.host h r.kind s.states o)
  ]

  complete-IsCovered :
      (s : Inner Host) (host h : Host) (success : Bool) (now : ℕ)
      → Inv s
      → owed (get h s.states) ≡ true
      → IsCovered (get h (complete s host success now).states)
  complete-IsCovered s host h success now v o = elim (e.dec host h) [
    | yes same ↦ elim (Option-cases (get host s.states)) [
      | inl absent ↦ ground arith
      | inr (st, found) ↦
          rw (← same, get-complete_self s host success now st found v)
            (completed-IsCovered st success (ground arith))
    ]
    | no other ↦ rw (get-complete_ne s host h success now other) (inl o)
  ]
    where
      completed-IsCovered :
          (st : HostState) (success : Bool)
          → st.force_owed ≡ true
          → IsCovered (completed s st success now)
      completed-IsCovered st true o = ground arith
      completed-IsCovered st false o = inl o

  -- One step: what is owed stays owed, or its renewal is queued or runs.
  Step-IsCovered :
      {s t : System Host} (h : Host)
      → IsSound s
      → Step s t
      → owed (get h s.inner.states) ≡ true
      → IsCovered (get h t.inner.states)
  Step-IsCovered {s} h v (enqueues host k now) o = inl (enqueue-owed s.inner host h k now v.inv o)
  Step-IsCovered {s} h v (takes now idle) o = next_round-IsCovered s.inner now h o
  Step-IsCovered {s} h v (finishes r success now busy) o =
      complete-IsCovered s.inner r.host h success now v.inv o

  -- The run passed through a state in which a renewal of the host was queued or ran.
  pub data Visits (h : Host) (s : System Host) : System Host → Type 0 where
    now_at : {t : System Host} → renews (get h t.inner.states) ≡ true → Visits h s t
    before : {t u : System Host} → Visits h s t → Step t u → Visits h s u

  Reach-IsSound_after : {s t : System Host} → IsSound s → Reach s t → IsSound t
  Reach-IsSound_after v here = v
  Reach-IsSound_after v (next r st) = Step-IsSound (Reach-IsSound_after v r) st

  -- An owed forced attempt is never dropped: from a sound state in which it is owed to a host,
  -- every run of the producers and the worker either still owes it at its end, or has passed
  -- through a state in which a renewal of that host was queued or ran.
  pub owed-Reach :
      (h : Host) (s t : System Host)
      → IsSound s
      → owed (get h s.inner.states) ≡ true
      → Reach s t
      → (owed (get h t.inner.states) ≡ true) ⊎ Visits h s t
  owed-Reach h s t v o here = inl o
  owed-Reach h s t v o (next {t = m} r st) = elim (owed-Reach h s m v o r) [
    | inl still ↦ elim (Step-IsCovered h (Reach-IsSound_after v r) st still) [
      | inl later ↦ inl later
      | inr starts ↦ inr (now_at starts)
    ]
    | inr seen ↦ inr (before seen st)
  ]
