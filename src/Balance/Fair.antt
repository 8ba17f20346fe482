-- ===== src/Balance/Fair.antt =====
-- layer4/balance.rs: the turns of `round_robin`.
use raddy.Base.{
  ℕ, zero, suc, ◌+◌, ◌%◌, ◌≤◌, ◌<◌, ◌≡◌, refl, ap, ◌∙◌, List, [], ◌∷◌, Option, some, true, arith,
  length, All, All-at, get_elem?, get_elem?_of_lt,
}
use raddy.Config.{round_robin}
use raddy.Balance.{
  Backend, Balancer, advanced, healthy_at, first_healthy_from, select, select_by, word, find_map,
}
use raddy.Balance.Picks.{select-some}
use native.Mathlib.Nat.{mod-lt, mod-eq_of_lt}

find_map-first {ℓ} :
    {A : Type ℓ} (f : ℕ → Option (Option A)) (left offset : ℕ) (a : A)
    → 0 < left
    → f offset ≡ some (some a)
    → find_map f left offset ≡ some (some a)
unfolding find_map
find_map-first f zero offset a h here = absurd (omega arith)
find_map-first f (suc left) offset a h here = rw (here, find_map) refl

module _ (SocketAddr : Type 0) where
  -- Every backend is healthy.
  abbrev pub AllHealthy : Balancer SocketAddr → Type 0
  AllHealthy b = All (λ backend. backend.healthy ≡ true) b.backends

  healthy_at-up :
      (b : Balancer SocketAddr) (i : ℕ) (backend : Backend SocketAddr)
      → get_elem? b.backends i ≡ some backend
      → backend.healthy ≡ true
      → healthy_at SocketAddr b i ≡ some (some backend.addr)
  unfolding healthy_at
  healthy_at-up b i backend at up = rw (at, healthy_at) (rw up refl)

  first_healthy_from-start :
      (b : Balancer SocketAddr) (start : ℕ) (backend : Backend SocketAddr)
      → start < word
      → 0 < length b.backends
      → get_elem? b.backends (start % length b.backends) ≡ some backend
      → backend.healthy ≡ true
      → first_healthy_from SocketAddr b start ≡ some (some backend.addr)
  unfolding first_healthy_from
  first_healthy_from-start b start backend small some_one at up =
      let n = length b.backends in
      let same : (start + 0) % word % n ≡ start % n =
        ap (λ x. x % n) (ap (λ x. x % word) (omega arith) ∙ mod-eq_of_lt small) in
      find_map-first (λ offset. healthy_at SocketAddr b ((start + offset) % word % n)) n 0
        backend.addr some_one
        (ap (healthy_at SocketAddr b) same ∙ healthy_at-up b (start % n) backend at up)

  -- The picks of one selection after the other.
  pub selections : ℕ → Balancer SocketAddr → List ℕ → List (Option (Option SocketAddr))
  selections zero b key = []
  selections (suc k) b key =
      (select SocketAddr b key).1 ∷ selections k (select SocketAddr b key).0 key

  select-round_robin :
      (b : Balancer SocketAddr) (key : List ℕ)
      → b.policy ≡ round_robin
      → 0 < length b.backends
      → select SocketAddr b key ≡ (advanced SocketAddr b, first_healthy_from SocketAddr b b.cursor)
  unfolding select_by
  select-round_robin b key turns some_one =
      select-some SocketAddr b key some_one ∙ ap (λ p. select_by SocketAddr p b key) turns

  -- Under `round_robin`, with every backend healthy and at least one, selections in a row go
  -- through the backends in turn: the j-th of k gives the backend at the position (cursor + j)
  -- modulo their number, as long as cursor + k does not exceed 2^64.
  pub selections-round_robin :
      (k j : ℕ) (b : Balancer SocketAddr) (key : List ℕ)
      → b.policy ≡ round_robin
      → AllHealthy b
      → 0 < length b.backends
      → b.cursor + k ≤ word
      → j < k
      → (backend : Backend SocketAddr) × (get_elem? b.backends ((b.cursor + j) % length b.backends)
          ≡ some backend)
        × (get_elem? (selections k b key) j ≡ some (some (some backend.addr)))
  unfolding selections
  selections-round_robin zero j b key turns up some_one fits h = absurd (omega arith)
  selections-round_robin (suc k) zero b key turns up some_one fits h =
      let (backend, at) =
        get_elem?_of_lt b.backends (b.cursor % length b.backends)
          (mod-lt b.cursor {m = length b.backends} some_one) in
      (
        backend,
        ap (λ x. get_elem? b.backends (x % length b.backends)) (omega arith) ∙ at,
        ap (λ r. some r.1) (select-round_robin b key turns some_one)
            ∙ ap some (
                first_healthy_from-start b b.cursor backend (omega arith) some_one at
                  (All-at (λ x. x.healthy ≡ true) b.backends _ backend up at)),
      )
  selections-round_robin (suc k) (suc j) b key turns up some_one fits h =
      let next : (b.cursor + 1) % word ≡ b.cursor + 1 = mod-eq_of_lt (omega arith) in
      let (backend, at, rest) =
        selections-round_robin k j (advanced SocketAddr b) key turns up some_one
          (omega (arith, next)) (omega arith) in
      (
        backend,
        ap (λ x. get_elem? b.backends (x % length b.backends)) (omega (arith, next)) ∙ at,
        ap (λ r. get_elem? (selections k r.0 key) j) (select-round_robin b key turns some_one)
            ∙ rest,
      )
