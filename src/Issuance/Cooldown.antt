-- ===== src/Issuance/Cooldown.antt =====
-- server/issuance_queue.rs: the backoff after a failure, whatever the threads do until it ends.
use raddy.Base.{
  List, if_pos, if_neg, subst, ℕ, ◌+◌, ◌<◌, ◌≡◌, ◌≢◌, refl, sym, ap, ◌∙◌, ◌∷◌, Option, none, some,
  true, false, inl, inr, arith, Eq, Option-cases, List-cases, lt→ltb,
}
use raddy.Base.Map.{HashMap, get, find_key, modify, get-modify, get-find_key, keep}
use raddy.Issuance.{
  RequestKind, HostState, Inner, QueuedRequest, in_cooldown, cooling, live, keeps, is_due, enqueue,
  enqueue_entry, pop, pop_due_forced, complete, next_round, start_attempt, start_forced,
}
use raddy.Issuance.Coherence.{Inv, HostOk, requests_of, pending_kinds}
use raddy.Issuance.Outcomes.{enqueue-frame}
use raddy.Issuance.Running.{get-complete_self, get-complete_ne, in_flight_of, is_running}
use raddy.Issuance.System.{
  System, Step, enqueues, takes, finishes, IsSound, Step-IsSound, running-found,
}

-- The host is idle and cools down until the given time.
pub record Cools (until : ℕ) (o : Option HostState) : Type 0 where
  pub st : HostState
  pub found : o ≡ some st
  pub idle : live st ≡ false
  pub cooldown : st.cooldown_until ≡ some until

cold_at :
    (until now : ℕ) (st : HostState)
    → st.cooldown_until ≡ some until
    → now < until
    → cooling st.cooldown_until now ≡ true
cold_at until now st ends early = rw ends (lt→ltb now until early)

keep-Cools :
    (now until : ℕ) (o : Option HostState)
    → Cools until o
    → now < until
    → Cools until (keep (keeps now) o)
keep-Cools now until o c early =
    let cold = cold_at until now c.st c.cooldown early in
    rw c.found (record { st = c.st; found = ground arith; idle = c.idle; cooldown = c.cooldown })

option_inj : {A : Type 0} {x y : A} → some x ≡ some y → x ≡ y
option_inj h = cc

module _ {Host : Type 0} ⦃e : Eq Host⦄ where
  -- The moment of a step.
  abbrev pub time_of : {s t : System Host} → Step s t → ℕ
  time_of (enqueues host k now) = now
  time_of (takes now idle) = now
  time_of (finishes r success now busy) = now

  -- A run whose steps are all before the given time, in any order.
  pub data ReachBefore (until : ℕ) (s : System Host) : System Host → Type 0 where
    begin : ReachBefore until s s
    also :
        {t u : System Host}
        → ReachBefore until s t
        → (st : Step t u) → time_of st < until
        → ReachBefore until s u

  enqueue_entry-Cools :
      (s : Inner Host) (is_new_host : _) (host : Host) (k : RequestKind) (now : ℕ) (st : HostState)
      → live st ≡ false
      → cooling st.cooldown_until now ≡ true
      → enqueue_entry s is_new_host host k now st ≡ (s, in_cooldown)
  unfolding enqueue_entry
  enqueue_entry-Cools s is_new_host host k now st idle cold = ground arith

  enqueue-Cools :
      (s : Inner Host) (host : Host) (k : RequestKind) (now until : ℕ)
      → Cools until (get host s.states)
      → now < until
      → enqueue s host k now ≡ (s, in_cooldown)
  unfolding enqueue
  enqueue-Cools s host k now until c early =
      rw (c.found, enqueue)
        (enqueue_entry-Cools s false host k now c.st c.idle
          (cold_at until now c.st c.cooldown early))

  enqueue-Cools_any :
      (s : Inner Host) (host h : Host) (k : RequestKind) (now until : ℕ)
      → Inv s
      → Cools until (get h s.states)
      → now < until
      → Cools until (get h (enqueue s host k now).0.states)
  enqueue-Cools_any s host h k now until v c early = elim (e.dec host h) [
    | yes same ↦
        let there : Cools until (get host s.states) = rw same c in
        rw (enqueue-Cools s host k now until there early) c
    | no other ↦ elim (enqueue-frame s host h k now v other) [
      | inl kept ↦ rw kept c
      | inr swept ↦ rw swept (keep-Cools now until (get h s.states) c early)
    ]
  ]

  modify-Cools :
      (k h : Host) (f : HostState → HostState) (m : HashMap Host HostState) (until : ℕ)
      → k ≢ h
      → Cools until (get h m)
      → Cools until (get h (modify k f m))
  modify-Cools k h f m until other c = rw (get-modify k h f m, if_neg (e.dec k h) other) c

  due-other :
      (m : HashMap Host HostState) (k h : Host) (now until : ℕ) (st : HostState)
      → get k m ≡ some st
      → is_due now st ≡ true
      → Cools until (get h m)
      → now < until
      → k ≢ h
  due-other m k h now until st found due c early same =
      let cold = cold_at until now c.st c.cooldown early in
      let there : get h m ≡ some st = rw same at found in
      let e : c.st ≡ st = option_inj (sym c.found ∙ there) in
      let due' : is_due now c.st ≡ true = subst (λ x. is_due now x ≡ true) (sym e) due in
      ground arith

  queued-other :
      (r : QueuedRequest Host) (rest : List (QueuedRequest Host)) (h : Host) (until : ℕ)
      (s : Inner Host)
      → Inv s
      → s.queue ≡ r ∷ rest
      → Cools until (get h s.states)
      → r.host ≢ h
  queued-other r rest h until s v queue c same =
      let ok : HostOk (some c.st) (requests_of h s.queue) =
        subst (λ o. HostOk o (requests_of h s.queue)) c.found (v.hosts h) in
      let kinds : requests_of h (r ∷ rest) ≡ pending_kinds c.st = rw queue at ok.1 in
      let kinds' : (r.kind ∷ requests_of h rest) ≡ pending_kinds c.st =
        sym (if_pos (e.dec r.host h) same (r.kind ∷ requests_of h rest) (requests_of h rest))
        ∙ kinds in
      let idle = c.idle in ground arith

  -- What a round takes is another host's.
  next_round-Cools :
      (s : Inner Host) (h : Host) (now until : ℕ)
      → Inv s
      → Cools until (get h s.states)
      → now < until
      → Cools until (get h (next_round s now).0.states)
        × ((r : QueuedRequest Host) → (next_round s now).1 ≡ some r → r.host ≢ h)
  unfolding next_round pop pop_due_forced
  next_round-Cools s h now until v c early = elim (List-cases s.queue) [
    | inl empty ↦ elim (Option-cases (find_key (is_due now) s.states)) [
      | inl nobody ↦ rw (empty, next_round) (rw (nobody, pop_due_forced) (c, λ r taken. absurd cc))
      | inr (host, at) ↦
          let (st, found, due) = get-find_key (is_due now) host s.states v.table at in
          let other = due-other s.states host h now until st found due c early in
          rw (empty, next_round)
            (rw (at, pop_due_forced)
              (
                modify-Cools host h start_forced s.states until other c,
                λ r taken same. other (ap (λ q. q.host) (option_inj taken) ∙ same),
              ))
    ]
    | inr (r, rest, queue) ↦
        let other = queued-other r rest h until s v queue c in
        rw (queue, next_round)
          (rw (queue, pop)
            (
              modify-Cools r.host h (start_attempt r.kind) s.states until other c,
              λ q taken same. other (ap (λ x. x.host) (option_inj taken) ∙ same),
            ))
  ]

  running-other :
      (s : System Host) (r : QueuedRequest Host) (h : Host) (until : ℕ)
      → IsSound s
      → s.current ≡ some r
      → Cools until (get h s.inner.states)
      → r.host ≢ h
  running-other s r h until v busy c same =
      let runs : in_flight_of (get h s.inner.states) ≡ is_running h (some r) =
        v.runs h ∙ ap (is_running h) busy in
      let runs' : in_flight_of (some c.st) ≡ is_running h (some r) =
        subst (λ o. in_flight_of o ≡ is_running h (some r)) c.found runs in
      let idle = c.idle in ground arith

  Step-Cools :
      {s t : System Host} (h : Host) (until : ℕ)
      → IsSound s
      → Cools until (get h s.inner.states)
      → (st : Step s t) → time_of st < until
      → Cools until (get h t.inner.states)
  Step-Cools {s} h until v c (enqueues host k now) early =
      enqueue-Cools_any s.inner host h k now until v.inv c early
  Step-Cools {s} h until v c (takes now idle) early =
      (next_round-Cools s.inner h now until v.inv c early).0
  Step-Cools {s} h until v c (finishes r success now busy) early =
      rw (get-complete_ne s.inner r.host h success now (running-other s r h until v busy c)) c

  ReachBefore-Cools :
      (until : ℕ) {s t : System Host} (h : Host)
      → IsSound s
      → Cools until (get h s.inner.states)
      → ReachBefore until s t
      → IsSound t × Cools until (get h t.inner.states)
  ReachBefore-Cools until h v c begin = (v, c)
  ReachBefore-Cools until h v c (also run st early) =
      let (v', c') = ReachBefore-Cools until h v c run in
      (Step-IsSound v' st, Step-Cools h until v' c' st early)

  -- The state behind a failed attempt of the worker's request.
  abbrev pub after_failure : System Host → QueuedRequest Host → ℕ → System Host
  after_failure s r now = record { inner = complete s.inner r.host false now; current = none }

  failed-Cools :
      (s : System Host) (r : QueuedRequest Host) (now : ℕ)
      → IsSound s
      → s.current ≡ some r
      → Cools (now + s.inner.cooldown) (get r.host (after_failure s r now).inner.states)
  failed-Cools s r now v busy =
      let (st, found, running) = running-found s r v busy in
      rw (get-complete_self s.inner r.host false now st found v.inv)
        (record { st = _; found = refl; idle = refl; cooldown = refl })

  -- After a failed attempt of the worker, at time `now`, in a sound state, whatever the producers
  -- and the worker do before `now + cooldown`, in any order: at any time before then, every
  -- request for the host is answered as in its cooldown, no round takes a request of it, and it
  -- is not the host that the worker runs.
  pub failed-backoff :
      (s t : System Host) (r : QueuedRequest Host) (now later : ℕ)
      → IsSound s
      → s.current ≡ some r
      → ReachBefore (now + s.inner.cooldown) (after_failure s r now) t
      → later < now + s.inner.cooldown
      → ((k : RequestKind) → (enqueue t.inner r.host k later).1 ≡ in_cooldown)
        × ((q : QueuedRequest Host) → (next_round t.inner later).1 ≡ some q → q.host ≢ r.host)
        × ((q : QueuedRequest Host) → t.current ≡ some q → q.host ≢ r.host)
  failed-backoff s t r now later v busy run early =
      let until = now + s.inner.cooldown in
      let (v', c) =
        ReachBefore-Cools until r.host (Step-IsSound v (finishes r false now busy))
          (failed-Cools s r now v busy) run in
      (
        (λ k. ap (λ x. x.1) (enqueue-Cools t.inner r.host k later until c early)),
        (next_round-Cools t.inner r.host later until v'.inv c early).1,
        λ q busy'. running-other t q r.host until v' busy' c,
      )
