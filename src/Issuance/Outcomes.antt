-- ===== src/Issuance/Outcomes.antt =====
-- server/issuance_queue.rs: what each outcome of `enqueue` means for the queue and for the hosts.
use raddy.Base.{
  ℕ, ◌<◌, ◌≡◌, ◌≢◌, refl, [], ◌∷◌, ◌++◌, Option, none, some, Bool, true, false, ◌⊎◌, inl, inr,
  arith, length, Eq, Option-cases,
}
use raddy.Base.Map.{
  get, insert, retain, keep, get-insert_self, get-insert_ne, get-remove_ne, get-remove_self,
  get-retain, get-retain-none, insert-IsMap, retain-IsMap, IsMap,
}
use raddy.Issuance.{
  RequestKind, new, renew, HostState, Inner, EnqueueOutcome, queued, duplicate, upgrade_forced,
  in_cooldown, queue_full, default_state, or_default, live, cooling, enqueue, enqueue_entry,
  reclaim_expired_idle, keeps, merge,
}
use raddy.Issuance.Coherence.{Inv}

module _ {Host : Type 0} ⦃e : Eq Host⦄ where
  -- The meaning of an outcome, for a host whose table entry was `before`.
  abbrev pub Means :
      Inner Host → Host → RequestKind → ℕ → Option HostState → Inner Host → EnqueueOutcome → Type 0
  Means s host k now before s' queued =
      (s'.queue ≡ s.queue ++ record { host = host; kind = k } ∷ [])
      × (get host s'.states
          ≡ some (record (or_default before) { pending = true; current_kind = some k }))
      × (live (or_default before) ≡ false)
      × (cooling (or_default before).cooldown_until now ≡ false)
      × ((or_default before).force_owed ≡ false)
      × (length s.queue < s.capacity)
  Means s host k now before s' duplicate =
      (s'.queue ≡ s.queue)
      × (get host s'.states ≡ before)
      × ((live (or_default before) ≡ true) ⊎ ((or_default before).force_owed ≡ true))
      × ((k ≡ new)
          ⊎ (((or_default before).force_owed ≡ true)
              ⊎ ((or_default before).current_kind ≢ some new)))
  Means s host k now before s' upgrade_forced =
      (s'.queue ≡ s.queue)
      × (k ≡ renew)
      × ((or_default before).current_kind ≡ some new)
      × (live (or_default before) ≡ true)
      × (get host s'.states ≡ some (record (or_default before) { force_owed = true }))
  Means s host k now before s' in_cooldown =
      (s'.queue ≡ s.queue)
      × (get host s'.states ≡ before)
      × (cooling (or_default before).cooldown_until now ≡ true)
  Means s host k now before s' queue_full =
      (s'.queue ≡ s.queue) × (get host s'.states ≡ before) × (live (or_default before) ≡ false)

  enqueue_entry-Means :
      (s : Inner Host) (is_new_host : Bool) (host : Host) (k : RequestKind) (now : ℕ)
      (st : HostState) (before : Option HostState)
      → get host s.states ≡ some st
      → IsMap s.states
      → or_default before ≡ st
      → (is_new_host ≡ true → before ≡ none)
      → (is_new_host ≡ false → before ≡ some st)
      → Means s host k now before
          (enqueue_entry s is_new_host host k now st).0
          (enqueue_entry s is_new_host host k now st).1
  unfolding enqueue_entry
  enqueue_entry-Means s is_new_host host new now st before found table same fresh old = ground (
    arith,
    get-insert_self host st s.states,
    get-insert_self host (record st { pending = true; current_kind = some new }) s.states,
    get-remove_self host s.states table,
  )
  enqueue_entry-Means s is_new_host host renew now st before found table same fresh old = ground (
    arith,
    get-insert_self host st s.states,
    get-insert_self host (record st { force_owed = true }) s.states,
    get-insert_self host (record st { pending = true; current_kind = some renew }) s.states,
    get-remove_self host s.states table,
  )

  enqueue_new-Means :
      (r : Inner Host) (host : Host) (k : RequestKind) (now : ℕ)
      → IsMap r.states
      → Means r host k now none
          (enqueue_entry
            (record r { states = insert host default_state r.states })
            true
            host
            k
            now
            default_state).0
          (enqueue_entry
            (record r { states = insert host default_state r.states })
            true
            host
            k
            now
            default_state).1
  enqueue_new-Means r host k now table =
      enqueue_entry-Means (record r { states = insert host default_state r.states }) true host k now
        default_state none (get-insert_self host default_state r.states)
        (insert-IsMap host default_state r.states table) refl (λ _. refl) (λ b. absurd (cc))

  -- In a state that satisfies the invariant, the outcome of `enqueue` tells what happened, on
  -- every branch: only `queued` appends the request, and marks its idle host pending;
  -- `upgrade_forced` answers a `Renew` that meets a live `New`, and marks the host as owed a
  -- forced attempt; every other outcome leaves the queue and the host's entry as they were, so
  -- that a full queue or table leaves no entry of the host behind.
  pub enqueue-Means :
      (s : Inner Host) (host : Host) (k : RequestKind) (now : ℕ)
      → Inv s
      → Means s host k now (get host s.states) (enqueue s host k now).0 (enqueue s host k now).1
  unfolding enqueue reclaim_expired_idle
  enqueue-Means s host k now v = elim (Option-cases (get host s.states)) [
    | inl absent ↦ ground (
      arith,
      get-retain-none (keeps now) host s.states absent,
      enqueue_new-Means (record s { states = retain (keeps now) s.states }) host k now
          (retain-IsMap (keeps now) s.states v.table),
    )
    | inr (st, found) ↦ ground (
      arith,
      enqueue_entry-Means s false host k now st (some st) found v.table refl (λ b. absurd (cc))
          (λ _. refl),
    )
  ]

  enqueue_entry-frame :
      (s : Inner Host) (is_new_host : Bool) (host h : Host) (k : RequestKind) (now : ℕ)
      (st : HostState)
      → host ≢ h
      → get h (enqueue_entry s is_new_host host k now st).0.states ≡ get h s.states
  unfolding enqueue_entry
  enqueue_entry-frame s is_new_host host h k now st other = ground (
    arith,
    get-insert_ne host h (merge k st).0 s.states other,
    get-insert_ne host h (record st { pending = true; current_kind = some k }) s.states other,
    get-remove_ne host h s.states other,
  )

  -- The entries of the other hosts stay, but for those that are reclaimed.
  pub enqueue-frame :
      (s : Inner Host) (host h : Host) (k : RequestKind) (now : ℕ)
      → Inv s
      → host ≢ h
      → (get h (enqueue s host k now).0.states ≡ get h s.states)
        ⊎ (get h (enqueue s host k now).0.states ≡ keep (keeps now) (get h s.states))
  unfolding enqueue reclaim_expired_idle
  enqueue-frame s host h k now v other = elim (Option-cases (get host s.states)) [
    | inl absent ↦
        let r : Inner Host = record s { states = retain (keeps now) s.states } in
        let r' : Inner Host = record r { states = insert host default_state r.states } in
        ground (
          arith,
          get-retain (keeps now) h s.states v.table,
          enqueue_entry-frame r' true host h k now default_state other,
          get-insert_ne host h default_state r.states other,
        )
    | inr (st, found) ↦ ground (arith, enqueue_entry-frame s false host h k now st other)
  ]
