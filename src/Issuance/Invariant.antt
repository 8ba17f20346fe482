-- ===== src/Issuance/Invariant.antt =====
-- server/issuance_queue.rs: what every operation of the state machine keeps.
use raddy.Base.{
  ℕ, ◌+◌, ◌<◌, ◌≡◌, refl, List, ◌∷◌, Option, none, some, Bool, true, false, inl, inr, arith, length,
  Eq, ap, Option-cases, List-cases,
}
use raddy.Base.Map.{
  get, insert, retain, modify, find_key, get-insert, get-insert_self, get-modify, insert-IsMap,
  modify-IsMap, length-insert_new, length-modify, get-find_key, get-retain-none, map_option,
}
use raddy.Issuance.{
  RequestKind, new, renew, QueuedRequest, HostState, Inner, default_state, live, enqueue,
  enqueue_entry, keeps, pop, pop_due_forced, complete, next_round, start_attempt, start_forced,
  is_due, merge,
}
use raddy.Issuance.Coherence.{
  requests_of, pending_kinds, IsCoherent, HostOk, Inv, reclaim_expired_idle-Inv, write-Inv,
  push-Inv, remove-Inv,
}

merge-IsCoherent :
    (k : RequestKind) (st : HostState)
    → IsCoherent st
    → live st ≡ true
    → IsCoherent (merge k st).0 × (pending_kinds st ≡ pending_kinds (merge k st).0)
unfolding merge
merge-IsCoherent new st c l = (c, refl)
merge-IsCoherent renew st c l = ground arith

start-HostOk :
    (o : Option HostState) (k : RequestKind) (ks : List RequestKind)
    → HostOk o (k ∷ ks)
    → HostOk (map_option (start_attempt k) o) ks
start-HostOk none k ks h = absurd (cc)
start-HostOk (some st) k ks h = ground arith

due-HostOk :
    (now : ℕ) (o : Option HostState) (ks : List RequestKind) (st : HostState)
    → o ≡ some st
    → is_due now st ≡ true
    → HostOk o ks
    → HostOk (map_option start_forced o) ks
due-HostOk now none ks st f d h = absurd (cc)
due-HostOk now (some st') ks st f d h = ground arith

module _ {Host : Type 0} ⦃e : Eq Host⦄ where
  enqueue_entry-Inv :
      (s : Inner Host) (is_new_host : Bool) (host : Host) (k : RequestKind) (now : ℕ)
      (st : HostState)
      → get host s.states ≡ some st
      → (is_new_host ≡ true → st ≡ default_state)
      → Inv s
      → Inv (enqueue_entry s is_new_host host k now st).0
  unfolding enqueue_entry
  enqueue_entry-Inv s is_new_host host k now st found fresh v =
      let here = v.hosts host in
      let c : IsCoherent st = ground (arith, here) in
      ground (
        arith,
        write-Inv s host st (merge k st).0 found,
        merge-IsCoherent k st c,
        push-Inv s host k st (record st { pending = true; current_kind = some k }) found,
        remove-Inv s host st found,
      )

  -- `entry(host).or_default()` for a host that the table does not have.
  new_entry-Inv :
      (s : Inner Host) (host : Host)
      → get host s.states ≡ none
      → length s.states < s.max_hosts
      → Inv s
      → Inv (record s { states = insert host default_state s.states })
  new_entry-Inv s host absent room v = record {
    table = insert-IsMap host default_state s.states v.table;
    queue_fits = v.queue_fits;
    table_fits = omega (arith, length-insert_new host default_state s.states absent, room);
    hosts = λ h.
        rw (get-insert host h default_state s.states) (ground (arith, v.hosts h, v.hosts host));
  }

  enqueue_new-Inv :
      (r : Inner Host) (host : Host) (k : RequestKind) (now : ℕ)
      → get host r.states ≡ none
      → length r.states < r.max_hosts
      → Inv r
      → Inv
          (enqueue_entry
            (record r { states = insert host default_state r.states })
            true
            host
            k
            now
            default_state).0
  enqueue_new-Inv r host k now absent room v =
      enqueue_entry-Inv (record r { states = insert host default_state r.states }) true host k now
        default_state (get-insert_self host default_state r.states) (λ _. refl)
        (new_entry-Inv r host absent room v)

  pub enqueue-Inv :
      (s : Inner Host) (host : Host) (k : RequestKind) (now : ℕ)
      → Inv s
      → Inv (enqueue s host k now).0
  unfolding enqueue
  enqueue-Inv s host k now v = elim (Option-cases (get host s.states)) [
    | inl absent ↦ ground (
      arith,
      reclaim_expired_idle-Inv s now v,
      get-retain-none (keeps now) host s.states absent,
      enqueue_new-Inv (record s { states = retain (keeps now) s.states }) host k now,
    )
    | inr (st, found) ↦
        ground (arith, enqueue_entry-Inv s false host k now st found (λ t. absurd (cc)) v)
  ]

  pop_cons-Inv :
      (s : Inner Host) (r : QueuedRequest Host) (rest : List (QueuedRequest Host))
      → s.queue ≡ r ∷ rest
      → Inv s
      → Inv (record s { queue = rest; states = modify r.host (start_attempt r.kind) s.states })
  pop_cons-Inv s r rest same v = record {
    table = modify-IsMap r.host (start_attempt r.kind) s.states v.table;
    queue_fits = omega (arith, ap length same, v.queue_fits);
    table_fits = omega (arith, length-modify r.host (start_attempt r.kind) s.states, v.table_fits);
    hosts = λ h.
        rw (get-modify r.host h (start_attempt r.kind) s.states)
          (ground (arith, v.hosts h, start-HostOk (get h s.states) r.kind (requests_of h rest)));
  }

  pub pop-Inv : (s : Inner Host) → Inv s → Inv (pop s).0
  unfolding pop
  pop-Inv s v = elim (List-cases s.queue) [
    | inl empty ↦ ground (arith, v)
    | inr (r, rest, same) ↦ ground (arith, pop_cons-Inv s r rest same v)
  ]

  due-Inv :
      (s : Inner Host) (host : Host) (now : ℕ) (st : HostState)
      → get host s.states ≡ some st
      → is_due now st ≡ true
      → Inv s
      → Inv (record s { states = modify host start_forced s.states })
  due-Inv s host now st found due v = record {
    table = modify-IsMap host start_forced s.states v.table;
    queue_fits = v.queue_fits;
    table_fits = omega (arith, length-modify host start_forced s.states, v.table_fits);
    hosts = λ h.
        rw (get-modify host h start_forced s.states)
          (ground (arith, v.hosts h, due-HostOk now (get h s.states) (requests_of h s.queue) st));
  }

  pub pop_due_forced-Inv : (s : Inner Host) (now : ℕ) → Inv s → Inv (pop_due_forced s now).0
  unfolding pop_due_forced
  pop_due_forced-Inv s now v = elim (Option-cases (find_key (is_due now) s.states)) [
    | inl nobody ↦ ground (arith, v)
    | inr (host, here) ↦
        let (st, found, due) = get-find_key (is_due now) host s.states v.table here in
        ground (arith, due-Inv s host now st found due v)
  ]

  pub next_round-Inv : (s : Inner Host) (now : ℕ) → Inv s → Inv (next_round s now).0
  unfolding next_round
  next_round-Inv s now v = ground (arith, pop-Inv s v, pop_due_forced-Inv s now v)

  -- Completion of a request that is running.
  pub complete-Inv :
      (s : Inner Host) (host : Host) (success : Bool) (now : ℕ) (st : HostState)
      → get host s.states ≡ some st
      → st.in_flight ≡ true
      → Inv s
      → Inv (complete s host success now)
  unfolding complete
  complete-Inv s host success now st found running v =
      let here = v.hosts host in
      ground (
        arith,
        here,
        remove-Inv s host st found,
        push-Inv s host renew st
            (record st {
              pending = true;
              in_flight = false;
              force_owed = false;
              current_kind = some renew;
            })
            found,
        write-Inv s host st (record st { pending = false; in_flight = false; current_kind = none })
            found,
        write-Inv s host st
            (record st {
              pending = false;
              in_flight = false;
              current_kind = none;
              cooldown_until = some (now + s.cooldown);
            })
            found,
      )
