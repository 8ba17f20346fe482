-- ===== src/RateLimit/Burst.antt =====
-- proxy/ratelimit.rs: what a new key may do at one instant.
use raddy.Base.{
  ℕ, zero, suc, ◌+◌, ◌-◌, ◌≤◌, ◌<◌, ◌^◌, ◌≡◌, refl, List, [], ◌∷◌, ◌++◌, none, some, Bool, true,
  false, arith, replicate, ap, ◌∙◌, sym,
}
use raddy.Base.Map.{get, insert, get-insert_self}
use raddy.Config.{RateSpec, secs}
use raddy.RateLimit.{
  Float, BucketKey, bucket_key_eq, Bucket, Shard, hit, miss, allow_shard, refill, with_room,
}

module _ (f : Float) (key : BucketKey) (now : ℕ) (spec : RateSpec) where
  -- The answers to one request after the other, all at the same instant.
  pub answers : ℕ → Shard f → List Bool
  answers zero s = []
  answers (suc n) s = (allow_shard f s key now spec).1 ∷ answers n (allow_shard f s key now spec).0

  -- The key's bucket holds `t` tokens, counted at this instant.
  record Holds (t : ℕ) (s : Shard f) : Type 0 where
    used : Bool
    there : get key s.table ≡ some (record { tokens = f.of_nat t; last = some now; used = used })

  abbrev full_rate : f.F
  full_rate = f.div (f.of_nat spec.rate_count) (f.of_nat (secs spec.unit))

  refill_now :
      (t : ℕ)
      → t ≤ spec.burst
      → spec.burst < 2 ^ 53
      → refill f (f.of_nat t) (some now) now spec ≡ f.of_nat t
  unfolding refill
  refill_now t fits exact =
      let still : now - now ≡ 0 = omega arith in
      ap (λ d. f.fmin (f.add (f.of_nat t) (f.mul (f.as_secs d) full_rate)) (f.of_nat spec.burst))
        still
      ∙ ap (λ x. f.fmin x (f.of_nat spec.burst)) (f.add-no_time t full_rate)
      ∙ f.fmin-exact t spec.burst fits exact

  abbrev bucket : ℕ → Bool → Bucket f
  bucket t used = record { tokens = f.of_nat t; last = some now; used = used }

  hit_pass :
      (t : ℕ) (s : Shard f) (used : Bool)
      → suc t ≤ spec.burst
      → spec.burst < 2 ^ 53
      → hit f s key (bucket (suc t) used) now spec
        ≡ (record s { table = insert key (bucket t true) s.table }, true)
  unfolding hit
  hit_pass t s used fits exact =
      let known = refill_now (suc t) fits exact in
      let enough : f.le (f.of_nat 1) (f.of_nat (suc t)) ≡ true =
        f.le-exact 1 (suc t) (omega arith) (omega arith) ∙ (ground arith) in
      let less : f.sub (f.of_nat (suc t)) (f.of_nat 1) ≡ f.of_nat t =
        ap (λ n. f.sub (f.of_nat n) (f.of_nat 1)) (omega arith) ∙ f.sub_one-exact t (omega arith) in
      rw (known, hit) (rw (enough, hit) (rw less refl))

  hit_deny :
      (s : Shard f) (used : Bool)
      → spec.burst < 2 ^ 53
      → hit f s key (bucket 0 used) now spec
        ≡ (record s { table = insert key (bucket 0 true) s.table }, false)
  unfolding hit
  hit_deny s used exact =
      let known = refill_now 0 (omega arith) exact in
      let short : f.le (f.of_nat 1) (f.of_nat 0) ≡ false =
        f.le-exact 1 0 (omega arith) (omega arith) ∙ (ground arith) in
      rw (known, hit) (rw (short, hit) refl)

  allow_shard-hit :
      (s : Shard f) (b : Bucket f)
      → get key s.table ≡ some b
      → allow_shard f s key now spec ≡ hit f s key b now spec
  unfolding allow_shard
  allow_shard-hit s b there = rw (there, allow_shard) refl

  denied :
      (m : ℕ) (s : Shard f) (used : Bool)
      → spec.burst < 2 ^ 53
      → get key s.table ≡ some (bucket 0 used)
      → answers m s ≡ replicate m false
  unfolding answers
  denied zero s used exact there = refl
  denied (suc m) s used exact there =
      let step = allow_shard-hit s (bucket 0 used) there ∙ hit_deny s used exact in
      let rest =
        denied m (record s { table = insert key (bucket 0 true) s.table }) true exact
          (get-insert_self key (bucket 0 true) s.table) in
      ap (λ r. r.1 ∷ answers m r.0) step ∙ ap (λ l. false ∷ l) rest

  drained :
      (t m : ℕ) (s : Shard f) (used : Bool)
      → t ≤ spec.burst
      → spec.burst < 2 ^ 53
      → get key s.table ≡ some (bucket t used)
      → answers (t + m) s ≡ replicate t true ++ replicate m false
  unfolding answers
  drained zero m s used fits exact there =
      ap (λ n. answers n s) (omega arith) ∙ denied m s used exact there
  drained (suc t) m s used fits exact there =
      let step = allow_shard-hit s (bucket (suc t) used) there ∙ hit_pass t s used fits exact in
      let rest =
        drained t m (record s { table = insert key (bucket t true) s.table }) true (omega arith)
          exact (get-insert_self key (bucket t true) s.table) in
      let count_one : suc t + m ≡ suc (t + m) = omega arith in
      ap (λ n. answers n s) count_one
      ∙ ap (λ r. r.1 ∷ answers (t + m) r.0) step
      ∙ ap (λ l. true ∷ l) rest

  -- The shard after the first request of a new key.
  abbrev started : ℕ → Shard f → Shard f
  started b s = record {
    table = insert key (bucket b false) (with_room f s).table;
    recency = (with_room f s).recency ++ key ∷ [];
  }

  allow_shard-miss :
      (b : ℕ) (s : Shard f)
      → spec.burst ≡ suc b
      → spec.burst < 2 ^ 53
      → get key s.table ≡ none
      → allow_shard f s key now spec ≡ (started b s, true)
  unfolding allow_shard miss refill
  allow_shard-miss b s whole exact absent =
      let first : f.sub (f.of_nat spec.burst) (f.of_nat 1) ≡ f.of_nat b =
        ap (λ n. f.sub (f.of_nat n) (f.of_nat 1)) (omega (arith, whole))
        ∙ f.sub_one-exact b (omega (arith, whole, exact)) in
      rw (absent, allow_shard) (rw first refl)

  -- A key that has no bucket in the shard passes exactly as many requests at one instant as the
  -- burst allows, for a burst of at least one and below 2^53: the first `burst` requests are let
  -- through and every further one is denied.
  pub answers_burst :
      (b m : ℕ) (s : Shard f)
      → spec.burst ≡ suc b
      → spec.burst < 2 ^ 53
      → get key s.table ≡ none
      → answers (spec.burst + m) s ≡ replicate spec.burst true ++ replicate m false
  unfolding answers
  answers_burst b m s whole exact absent =
      let step = allow_shard-miss b s whole exact absent in
      let rest =
        drained b m (started b s) false (omega arith) exact
          (get-insert_self key (bucket b false) (with_room f s).table) in
      let count_one : spec.burst + m ≡ suc (b + m) = omega arith in
      ap (λ n. answers n s) count_one
      ∙ ap (λ r. r.1 ∷ answers (b + m) r.0) step
      ∙ ap (λ l. true ∷ l) rest
      ∙ ap (λ n. replicate n true ++ replicate m false) (sym whole)
