-- ===== src/Issuance/Coherence.antt =====
-- server/issuance_queue.rs: the invariant of the state machine, and the writes that keep it.
use raddy.Base.{
  ℕ, ◌≤◌, ◌<◌, ◌≡◌, refl, List, [], ◌∷◌, ◌++◌, Option, none, some, Bool, true, false, ◌&&◌, arith,
  length, length-append, Eq, ite, if_pos, if_neg, append-nil, is_some,
}
use raddy.Base.Map.{
  get, insert, remove, IsMap, keep, get-insert, get-remove_ne, get-remove_self, get-retain,
  insert-IsMap, remove-IsMap, retain-IsMap, length-insert_old, length-remove-le, length-retain-le,
}
use raddy.Issuance.{
  RequestKind, renew, QueuedRequest, HostState, Inner, live, initial, reclaim_expired_idle, keeps,
}

-- The kinds queued for a host, in order.
module _ {Host : Type 0} ⦃e : Eq Host⦄ where
  abbrev pub requests_of : Host → List (QueuedRequest Host) → List RequestKind
  requests_of h [] = []
  requests_of h (r ∷ rs) = ite (e.dec r.host h) (r.kind ∷ requests_of h rs) (requests_of h rs)

  pub requests_of-append :
      (h : Host) (xs ys : List (QueuedRequest Host))
      → requests_of h (xs ++ ys) ≡ requests_of h xs ++ requests_of h ys
  requests_of-append h [] ys = refl
  requests_of-append h (x ∷ xs) ys = ground (arith, requests_of-append h xs ys)

-- The queue entries that a host's state accounts for.
abbrev pub pending_kinds : HostState → List RequestKind
pending_kinds st = elim st.pending [
  | true ↦ elim st.current_kind [ none ↦ [] | some k ↦ k ∷ [] ]
  | false ↦ []
]

abbrev pub renewing : Option RequestKind → Bool
renewing (some renew) = true
renewing _ = false

-- A live host has a kind, an idle one has none; no host is queued and running at once; a forced
-- attempt is owed beside a live one only if that is a `New`.
pub record IsCoherent (st : HostState) : Type 0 where
  pub kind : is_some st.current_kind ≡ live st
  pub once : (st.pending && st.in_flight) ≡ false
  pub covered : (st.force_owed && renewing st.current_kind) ≡ false

-- A host's table entry and its entries in the queue fit together.
abbrev pub HostOk : Option HostState → List RequestKind → Type 0
HostOk none ks = ks ≡ []
HostOk (some st) ks = IsCoherent st × (ks ≡ pending_kinds st)

reclaimed-HostOk :
    (now : ℕ) (o : Option HostState) (ks : List RequestKind)
    → HostOk o ks
    → HostOk (keep (keeps now) o) ks
reclaimed-HostOk now none ks h = h
reclaimed-HostOk now (some st) ks h = ground arith

module _ {Host : Type 0} ⦃e : Eq Host⦄ where
  pub record Inv (s : Inner Host) : Type 0 where
    pub table : IsMap s.states
    pub queue_fits : length s.queue ≤ s.capacity
    pub table_fits : length s.states ≤ s.max_hosts
    pub hosts : (h : Host) → HostOk (get h s.states) (requests_of h s.queue)

  pub initial-Inv : (capacity max_hosts cooldown : ℕ) → Inv (initial capacity max_hosts cooldown)
  unfolding initial get
  initial-Inv capacity max_hosts cooldown = record {
    table = tt;
    queue_fits = omega arith;
    table_fits = omega arith;
    hosts = λ h. refl;
  }

  pub reclaim_expired_idle-Inv :
      (s : Inner Host) (now : ℕ) → Inv s → Inv (reclaim_expired_idle s now)
  unfolding reclaim_expired_idle
  reclaim_expired_idle-Inv s now v = record {
    table = retain-IsMap (keeps now) s.states v.table;
    queue_fits = v.queue_fits;
    table_fits = omega (arith, length-retain-le (keeps now) s.states, v.table_fits);
    hosts = λ h.
        rw (get-retain (keeps now) h s.states v.table)
          (reclaimed-HostOk now (get h s.states) _ (v.hosts h));
  }

  -- Writing a host's entry, with its queue entries to match, keeps the other hosts.
  update-HostOk :
      (s : Inner Host) (host : Host) (st : HostState) (ks : List RequestKind)
      → ((h : Host) → HostOk (get h s.states) (requests_of h s.queue))
      → HostOk (some st) (requests_of host s.queue ++ ks)
      → (h : Host)
      → HostOk (get h (insert host st s.states)) (requests_of h s.queue ++ ite (e.dec host h) ks [])
  update-HostOk s host st ks all one h = elim (e.dec host h) [
    | yes p ↦
        rw (get-insert host h st s.states, if_pos (e.dec host h) p, if_pos (e.dec host h) p)
          (rw (← p) one)
    | no p ↦
        rw
          (
            get-insert host h st s.states,
            if_neg (e.dec host h) p,
            if_neg (e.dec host h) p,
            append-nil (requests_of h s.queue),
          )
          (all h)
  ]

  -- Writing the entry of a host that is in the table.
  pub write-Inv :
      (s : Inner Host) (host : Host) (st st' : HostState)
      → get host s.states ≡ some st
      → IsCoherent st'
      → pending_kinds st ≡ pending_kinds st'
      → Inv s
      → Inv (record s { states = insert host st' s.states })
  write-Inv s host st st' found c same v = record {
    table = insert-IsMap host st' s.states v.table;
    queue_fits = v.queue_fits;
    table_fits = omega (arith, length-insert_old host st' st s.states found, v.table_fits);
    hosts = λ h. rw (get-insert host h st' s.states) (ground (arith, v.hosts h, v.hosts host));
  }

  -- The same with one more entry in the queue.
  pub push-Inv :
      (s : Inner Host) (host : Host) (k : RequestKind) (st st' : HostState)
      → get host s.states ≡ some st
      → IsCoherent st'
      → pending_kinds st ≡ []
      → pending_kinds st' ≡ k ∷ []
      → length s.queue < s.capacity
      → Inv s
      → Inv (record s {
        queue = s.queue ++ record { host = host; kind = k } ∷ [];
        states = insert host st' s.states;
      })
  push-Inv s host k st st' found c idle one room v = record {
    table = insert-IsMap host st' s.states v.table;
    queue_fits = omega (arith, length-append s.queue (record { host = host; kind = k } ∷ []), room);
    table_fits = omega (arith, length-insert_old host st' st s.states found, v.table_fits);
    hosts = λ h.
        rw (requests_of-append h s.queue (record { host = host; kind = k } ∷ []))
          (update-HostOk s host st' (k ∷ []) v.hosts (c, ground (arith, v.hosts host)) h);
  }

  pub remove-Inv :
      (s : Inner Host) (host : Host) (st : HostState)
      → get host s.states ≡ some st
      → pending_kinds st ≡ []
      → Inv s
      → Inv (record s { states = remove host s.states })
  remove-Inv s host st found idle v = record {
    table = remove-IsMap host s.states v.table;
    queue_fits = v.queue_fits;
    table_fits = omega (arith, length-remove-le host s.states, v.table_fits);
    hosts = λ h. elim (e.dec host h) [
      | yes p ↦ ground (arith, v.hosts h, get-remove_self h s.states v.table)
      | no p ↦ rw (get-remove_ne host h s.states p) (v.hosts h)
    ];
  }
