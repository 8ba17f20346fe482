-- ===== src/RateLimit/Tests.antt =====
-- proxy/ratelimit.rs: runs of the limiter with whole numbers for `f64`, and the theorems at them.
use raddy.Base.{
  ℕ, ◌+◌, ◌-◌, ◌*◌, ◌/◌, ◌≤◌, ◌<◌, ◌⊎◌, ◌≡◌, ◌≢◌, refl, List, [], ◌∷◌, none, some, Bool, true,
  false, arith, min, leb, ℕ_discrete, ap, length, set,
}
use raddy.Base.Map.{get, insert, modify, remove}
use raddy.Config.{SiteKey, catch_all, SiteKey-discrete, RateSpec, second}
use raddy.RateLimit.{
  per_shard_cap, Float, BucketKey, bucket_key_eq, BucketKey-discrete, Shard, RateLimiter,
  new_limiter, allow, allow_shard, max_buckets, miss, hit, refill, evict_one, with_room,
}
use raddy.RateLimit.Eviction.{cleared, evict_one-second_chance}
use raddy.RateLimit.Bounds.{
  IsBounded, empty-IsBounded, allow_shard-IsBounded, Spares, allow_shard-frame,
}
use raddy.RateLimit.Burst.{answers, answers_burst}
use raddy.RateLimit.Limiter.{total, IsLimiter, Reach, fresh, request, Reach-total}

abbrev whole : Float
whole = record {
  F = ℕ;
  of_nat = λ n. n;
  as_secs = λ n. n;
  add = λ x y. x + y;
  sub = λ x y. x - y;
  mul = λ x y. x * y;
  div = λ x y. x / y;
  fmin = λ x y. min x y;
  le = leb;
  fmin-le = λ x y. ground arith;
  le-refl = λ x. ground arith;
  le-trans = λ x y z p q. ground arith;
  sub_one-le = λ x. ground arith;
  sub_one-exact = λ n h. omega arith;
  le-exact = λ m n p q. refl;
  fmin-exact = λ m n p q. omega arith;
  add-no_time = λ n r. omega arith;
}

abbrev spec : RateSpec
spec = record { rate_count = 10; unit = second; burst = 3 }

abbrev key : ℕ → BucketKey
key n = record { site = catch_all 80; terminal = 0; directive = 0; digest = n }

abbrev no_buckets : Shard whole
no_buckets = record { table = []; recency = [] }

abbrev one_bucket : Shard whole
one_bucket = (allow_shard whole no_buckets (key 1) 0 spec).0

abbrev two_buckets : Shard whole
two_buckets = (allow_shard whole one_bucket (key 2) 0 spec).0

two_buckets-IsBounded : IsBounded whole two_buckets
two_buckets-IsBounded =
    allow_shard-IsBounded whole one_bucket (key 2) 0 spec
      (allow_shard-IsBounded whole no_buckets (key 1) 0 spec (empty-IsBounded whole))

keys : Unit {0}
unfolding get insert modify remove SiteKey-discrete BucketKey-discrete ℕ_discrete allow_shard miss
    hit refill with_room evict_one
keys = tt

answers_burst_example :
    answers whole (key 3) 0 spec 5 two_buckets ≡ true ∷ true ∷ true ∷ false ∷ false ∷ []
unfolding keys
answers_burst_example = answers_burst whole (key 3) 0 spec 2 2 two_buckets refl (omega arith) refl

allow_shard-frame_example :
    ((get (key 2) two_buckets.table ≢ none) ⊎ (length two_buckets.table < per_shard_cap)
      → get (key 1) (allow_shard whole two_buckets (key 2) 5 spec).0.table
        ≡ get (key 1) two_buckets.table)
    × Spares whole
        (get (key 1) two_buckets.table)
        (get (key 1) (allow_shard whole two_buckets (key 2) 5 spec).0.table)
    × (length two_buckets.table ≤ length (allow_shard whole two_buckets (key 2) 5 spec).0.table)
unfolding keys
allow_shard-frame_example =
    allow_shard-frame whole two_buckets (key 2) (key 1) 5 spec two_buckets-IsBounded
      (λ same. let number = ap (λ k. k.digest) same in absurd (omega arith))

-- Key 1 is asked again, which sets its bit.
abbrev used_front : Shard whole
used_front = (allow_shard whole two_buckets (key 1) 1 spec).0

used_front-IsBounded : IsBounded whole used_front
used_front-IsBounded = allow_shard-IsBounded whole two_buckets (key 1) 1 spec two_buckets-IsBounded

abbrev hash_text : List ℕ → ℕ
hash_text = λ l. length l

abbrev hash_key : BucketKey → ℕ
hash_key = λ k. k.digest

abbrev first_limiter : RateLimiter whole
first_limiter = record {
  all_shards =
      set (new_limiter whole).all_shards 1
        (allow_shard whole no_buckets
          (record { site = catch_all 80; terminal = 0; directive = 0; digest = 1 }) 0 spec).0;
}

first_request :
    allow whole hash_text hash_key (new_limiter whole) (catch_all 80) 0 0 (7 ∷ []) 0 spec
    ≡ some (first_limiter, true)
unfolding keys allow new_limiter
first_request = refl

abbrev history : Reach whole hash_text hash_key first_limiter
history = request fresh (catch_all 80) 0 0 (7 ∷ []) 0 spec first_request

Reach-total_example :
    IsLimiter whole first_limiter
    × (total whole first_limiter.all_shards ≤ max_buckets)
    × ((site : SiteKey) (terminal directive : ℕ) (k : List ℕ) (now : ℕ) (s : RateSpec)
        → (r : RateLimiter whole × Bool) × (allow whole hash_text hash_key first_limiter site
              terminal directive k now s
            ≡ some r))
Reach-total_example = Reach-total whole hash_text hash_key first_limiter history

-- The front has its bit, the one behind it has not.
evict_one-second_chance_example : evict_one whole used_front ≡ record {
  table = remove (key 2) (cleared whole (key 1 ∷ []) used_front.table);
  recency = key 1 ∷ [];
}
unfolding keys
evict_one-second_chance_example =
    evict_one-second_chance whole used_front (key 1 ∷ []) (key 2) []
      (record { tokens = 2; last = some 0; used = false }) (omega arith) used_front-IsBounded.exact
      refl ((record { tokens = 2; last = some 1; used = true }, refl, refl), tt) refl refl
