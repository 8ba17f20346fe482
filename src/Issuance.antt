-- ===== src/Issuance.antt =====
-- server/issuance_queue.rs: the bounded ACME issuance queue. `Inner` is the state machine behind
-- the mutex; `System` adds the one worker that the queue serves. Times are counted from one epoch.
pub mod Coherence
pub mod Invariant
pub mod Outcomes
pub mod Running
pub mod System
pub mod Renewal
pub mod Backoff
pub mod Cooldown
mod Tests
use raddy.Base.{
  ℕ, ◌+◌, ◌-◌, ◌≡◌, List, [], ◌∷◌, ◌++◌, Option, none, some, Bool, true, false, not, ◌&&◌, ◌||◌,
  if◌then◌else◌, ltb, leb, is_some, length, min, Eq,
}
use raddy.Base.Map.{HashMap, get, insert, remove, retain, modify, find_key}

-- COOLDOWN and MAX_WAIT, in seconds.
abbrev pub default_cooldown : ℕ
default_cooldown = 600

abbrev pub max_wait : ℕ
max_wait = 30

pub data RequestKind : Type 0 where
  new renew : RequestKind

abbrev pub force : RequestKind → Bool
force new = false
force renew = true

pub data EnqueueOutcome : Type 0 where
  queued duplicate upgrade_forced in_cooldown queue_full : EnqueueOutcome

pub record QueuedRequest (Host : Type 0) : Type 0 where
  pub host : Host
  pub kind : RequestKind

pub record HostState : Type 0 where
  pub pending : Bool
  pub in_flight : Bool
  pub current_kind : Option RequestKind
  pub force_owed : Bool
  pub cooldown_until : Option ℕ

abbrev pub default_state : HostState
default_state = record {
  pending = false;
  in_flight = false;
  current_kind = none;
  force_owed = false;
  cooldown_until = none;
}

pub record Inner (Host : Type 0) : Type 0 where
  pub queue : List (QueuedRequest Host)
  pub states : HashMap Host HostState
  pub capacity : ℕ
  pub max_hosts : ℕ
  pub cooldown : ℕ

-- `cooldown_until.is_some_and(|until| now < until)`; `is_none_or(now >= until)` is its negation.
abbrev pub cooling : Option ℕ → ℕ → Bool
cooling none now = false
cooling (some until) now = ltb now until

-- A request is queued or running.
abbrev pub live : HostState → Bool
live st = st.pending || st.in_flight

abbrev pub or_default : Option HostState → HostState
or_default none = default_state
or_default (some st) = st

-- What a request does that meets a live attempt.
unfoldable pub merge : RequestKind → HostState → HostState × EnqueueOutcome
merge new st = (st, duplicate)
merge renew st = elim st.current_kind [
  | some new ↦
      if not st.force_owed
      then (record st { force_owed = true }, upgrade_forced)
      else (st, duplicate)
  | _ ↦ (st, duplicate)
]

abbrev pub keeps : ℕ → HostState → Bool
keeps now st = live st || (st.force_owed || cooling st.cooldown_until now)

abbrev pub is_due : ℕ → HostState → Bool
is_due now st =
    st.force_owed && (not st.pending && (not st.in_flight && not (cooling st.cooldown_until now)))

abbrev pub start_attempt : RequestKind → HostState → HostState
start_attempt k st = record st { pending = false; in_flight = true; current_kind = some k }

abbrev pub start_forced : HostState → HostState
start_forced st = record st { force_owed = false; in_flight = true; current_kind = some renew }

abbrev pub ended : HostState → HostState
ended st = record st { pending = false; in_flight = false; current_kind = none }

-- The least remaining cooldown, if some cooldown lies ahead.
unfoldable pub next_expiry : {Host : Type 0} → ℕ → HashMap Host HostState → Option ℕ
next_expiry now [] = none
next_expiry now ((h, st) ∷ m) = elim st.cooldown_until [
  | none ↦ next_expiry now m
  | some until ↦
      if ltb now until
      then elim (next_expiry now m) [
        | none ↦ some (until - now)
        | some d ↦ some (min (until - now) d)
      ]
      else next_expiry now m
]

module _ {Host : Type 0} ⦃e : Eq Host⦄ where
  pub initial : ℕ → ℕ → ℕ → Inner Host
  initial capacity max_hosts cooldown = record {
    queue = [];
    states = [];
    capacity = capacity;
    max_hosts = max_hosts;
    cooldown = cooldown;
  }

  -- Idle hosts whose cooldown has elapsed leave the table.
  unfoldable pub reclaim_expired_idle : Inner Host → ℕ → Inner Host
  reclaim_expired_idle s now = record s { states = retain (keeps now) s.states }

  -- The part of `enqueue` behind `entry(host).or_default()`, for the state of that entry; `s` has
  -- the table with the entry.
  unfoldable pub enqueue_entry :
      Inner Host → Bool → Host → RequestKind → ℕ → HostState → Inner Host × EnqueueOutcome
  unfolding merge
  enqueue_entry s is_new_host host kind now st =
      let (merged, outcome) = merge kind st in
      if live st
      then (record s { states = insert host merged s.states }, outcome)
      else if cooling st.cooldown_until now
      then (s, in_cooldown)
      else if st.force_owed
      then (s, duplicate)
      else if leb s.capacity (length s.queue)
      then ((if is_new_host then record s { states = remove host s.states } else s), queue_full)
      else (
        record s {
          queue = s.queue ++ record { host = host; kind = kind } ∷ [];
          states = insert host (record st { pending = true; current_kind = some kind }) s.states;
        },
        queued,
      )

  unfoldable pub enqueue : Inner Host → Host → RequestKind → ℕ → Inner Host × EnqueueOutcome
  unfolding reclaim_expired_idle enqueue_entry
  enqueue s host kind now = elim (get host s.states) [
    | some st ↦ enqueue_entry s false host kind now st
    | none ↦
        let r = reclaim_expired_idle s now in
        if leb r.max_hosts (length r.states)
        then (r, queue_full)
        else enqueue_entry (record r { states = insert host default_state r.states }) true host kind
            now default_state
  ]

  unfoldable pub pop : Inner Host → Inner Host × Option (QueuedRequest Host)
  pop s = elim s.queue [
    | [] ↦ (s, none)
    | request ∷ rest ↦ (
      record s { queue = rest; states = modify request.host (start_attempt request.kind) s.states },
      some request,
    )
  ]

  unfoldable pub pop_due_forced : Inner Host → ℕ → Inner Host × Option (QueuedRequest Host)
  pop_due_forced s now = elim (find_key (is_due now) s.states) [
    | none ↦ (s, none)
    | some host ↦ (
      record s { states = modify host start_forced s.states },
      some (record { host = host; kind = renew }),
    )
  ]

  unfoldable pub complete : Inner Host → Host → Bool → ℕ → Inner Host
  complete s host success now = elim (get host s.states) [
    | none ↦ s
    | some st ↦
        if success
        then (if st.force_owed
            then (if ltb (length s.queue) s.capacity
                then record s {
                  queue = s.queue ++ record { host = host; kind = renew } ∷ [];
                  states =
                      insert host
                        (record st {
                          pending = true;
                          in_flight = false;
                          force_owed = false;
                          current_kind = some renew;
                        })
                        s.states;
                }
                else record s { states = insert host (ended st) s.states })
            else record s { states = remove host s.states })
        else record s {
          states =
              insert host (record (ended st) { cooldown_until = some (now + s.cooldown) }) s.states;
        }
  ]

  unfoldable pub wait_duration : Inner Host → ℕ → ℕ
  unfolding next_expiry
  wait_duration s now = elim (next_expiry now s.states) [
    | none ↦ max_wait
    | some d ↦ min d max_wait
  ]

  -- One round of the loop of `next_request`, under the lock.
  unfoldable pub next_round : Inner Host → ℕ → Inner Host × Option (QueuedRequest Host)
  unfolding pop pop_due_forced
  next_round s now = elim s.queue [ [] ↦ pop_due_forced s now | request ∷ rest ↦ pop s ]
