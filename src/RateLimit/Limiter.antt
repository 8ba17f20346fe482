-- ===== src/RateLimit/Limiter.antt =====
-- proxy/ratelimit.rs: the limiter under any requests.
use raddy.Base.{
  ℕ, suc, ◌+◌, ◌*◌, ◌≤◌, ◌<◌, ◌≡◌, refl, ap, List, [], ◌∷◌, some, Bool, arith, length, get_elem?,
  set, length-set, get_elem?_of_lt, get_elem?-set_self, get_elem?-set_ne, get_elem?-lt,
  get_elem?-replicate, ℕ_discrete, ◌∙◌, sym, subst,
}
use raddy.Config.{SiteKey, RateSpec}
use raddy.RateLimit.{
  Float, BucketKey, Shard, RateLimiter, new_limiter, allow, allow_shard, bucket_key, shard_index,
  shards, max_buckets, per_shard_cap,
}
use raddy.RateLimit.Bounds.{IsBounded, allow_shard-IsBounded, empty-IsBounded}

module _ (f : Float) where
  -- All buckets of some shards.
  pub total : List (Shard f) → ℕ
  total [] = 0
  total (s ∷ rest) = length s.table + total rest

  abbrev EachBounded : List (Shard f) → Type 0
  EachBounded l = (i : ℕ) (s : Shard f) → get_elem? l i ≡ some s → IsBounded f s

  total-le : (l : List (Shard f)) → EachBounded l → total l ≤ length l * per_shard_cap
  unfolding total
  total-le [] each = omega arith
  total-le (s ∷ rest) each =
      let here = (each 0 s refl).fits in
      let there = total-le rest (λ i r at. each (suc i) r at) in omega (arith, here, there)

  pub record IsLimiter (l : RateLimiter f) : Type 0 where
    pub width : length l.all_shards ≡ shards
    pub each : (i : ℕ) (s : Shard f) → get_elem? l.all_shards i ≡ some s → IsBounded f s

  pub new_limiter-IsLimiter : IsLimiter (new_limiter f)
  unfolding new_limiter
  new_limiter-IsLimiter = record {
    width = refl;
    each = λ i s at.
        subst (IsBounded f)
          (sym (get_elem?-replicate shards i (record { table = []; recency = [] }) s at))
          (empty-IsBounded f);
  }

  set-IsLimiter :
      (l : RateLimiter f) (i : ℕ) (s : Shard f)
      → IsLimiter l
      → IsBounded f s
      → IsLimiter (record { all_shards = set l.all_shards i s })
  set-IsLimiter l i s v b = record {
    width = length-set l.all_shards i s ∙ v.width;
    each = λ j r at. elim (ℕ_discrete i j) [
      | yes same ↦
          let inside : i < length l.all_shards = omega (
            arith,
            get_elem?-lt (set l.all_shards i s) j r at,
            length-set l.all_shards i s,
            same,
          ) in
          let self = get_elem?-set_self l.all_shards i s inside in
          let both : some s ≡ some r = sym self ∙ ap (get_elem? (set l.all_shards i s)) same ∙ at in
          subst (IsBounded f) (cc) b
      | no other ↦ v.each j r (sym (get_elem?-set_ne l.all_shards i j s other) ∙ at)
    ];
  }

  module _ (hash_text : List ℕ → ℕ) (hash_key : BucketKey → ℕ) where
    -- The limiters that requests lead to.
    pub data Reach : RateLimiter f → Type 0 where
      fresh : Reach (new_limiter f)
      request :
          {l l' : RateLimiter f} {answer : Bool}
          → Reach l
          → (site : SiteKey) (terminal directive : ℕ) (key : List ℕ) (now : ℕ) (spec : RateSpec)
          → allow f hash_text hash_key l site terminal directive key now spec ≡ some (l', answer)
          → Reach l'

    shard_index-lt : (k : BucketKey) → shard_index f hash_text hash_key k < shards
    shard_index-lt k = omega arith

    -- A request is answered from the key's shard, which is the only one that changes.
    allow-IsLimiter :
        (l : RateLimiter f) (site : SiteKey) (terminal directive : ℕ) (key : List ℕ) (now : ℕ)
        (spec : RateSpec)
        → IsLimiter l
        → (r : RateLimiter f × Bool) × (allow f hash_text hash_key l site terminal directive key now
              spec
            ≡ some r)
          × IsLimiter r.0
    unfolding allow
    allow-IsLimiter l site terminal directive key now spec v =
        let k = bucket_key f hash_text hash_key site terminal directive key in
        let i = shard_index f hash_text hash_key k in
        let (s, at) = get_elem?_of_lt l.all_shards i (omega (arith, shard_index-lt k, v.width)) in
        let r = allow_shard f s k now spec in
        (
          (record { all_shards = set l.all_shards i r.0 }, r.1),
          rw (at, allow) refl,
          set-IsLimiter l i r.0 v (allow_shard-IsBounded f s k now spec (v.each i s at)),
        )

    Reach-IsLimiter : (l : RateLimiter f) → Reach l → IsLimiter l
    Reach-IsLimiter _ fresh = new_limiter-IsLimiter
    Reach-IsLimiter _ (request {l} {l'} {answer} before site terminal directive key now spec step) =
        let (r, answered, v) =
          allow-IsLimiter l site terminal directive key now spec (Reach-IsLimiter l before) in
        let same : some r ≡ some (l', answer) = sym answered ∙ step in
        let pair : r ≡ (l', answer) = cc in subst IsLimiter (ap (λ p. p.0) pair) v

    -- Whatever requests a limiter has seen since its start, it has its 64 shards, in each of them
    -- the recency queue holds exactly the keys of the table, each once, and at most 1562 buckets
    -- stand in it; all shards together hold at most 100000 buckets; and the next request,
    -- whatever it is, is answered without a shard out of range.
    pub Reach-total :
        (l : RateLimiter f)
        → Reach l
        → IsLimiter l
          × (total l.all_shards ≤ max_buckets)
          × ((site : SiteKey) (terminal directive : ℕ) (key : List ℕ) (now : ℕ) (spec : RateSpec)
              → (r : RateLimiter f × Bool) × (allow f hash_text hash_key l site terminal directive
                    key now spec
                  ≡ some r))
    Reach-total l reach =
        let v = Reach-IsLimiter l reach in
        (
          v,
          omega (arith, total-le l.all_shards v.each, v.width),
          λ site terminal directive key now spec.
              let (r, answered, _) = allow-IsLimiter l site terminal directive key now spec v in
              (r, answered),
        )
