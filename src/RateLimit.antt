-- ===== src/RateLimit.antt =====
-- proxy/ratelimit.rs: the token buckets of `rate_limit`, in shards of bounded size. The arithmetic on
-- `f64` and the hash are parameters; `Instant` is a number of nanoseconds.
pub mod Eviction
pub mod Bounds
pub mod Burst
pub mod Limiter
mod Tests
use raddy.Base.{
  ℕ, zero, suc, ◌+◌, ◌-◌, ◌*◌, ◌/◌, ◌%◌, ◌^◌, ◌≤◌, ◌<◌, ◌≡◌, List, [], ◌∷◌, ◌++◌, Option, none,
  some, Bool, true, false, Eq, ℕ_discrete, length, leb, ltb, if◌then◌else◌, get_elem?, set,
  replicate,
}
use raddy.Base.Map.{HashMap, get, insert, remove, modify}
use raddy.Config.{SiteKey, SiteKey-discrete, RateSpec, secs}

abbrev pub shards : ℕ
shards = 64

abbrev pub max_buckets : ℕ
max_buckets = 100_000

abbrev pub per_shard_cap : ℕ
per_shard_cap = max_buckets / shards

abbrev pub evict_scan_bound : ℕ
evict_scan_bound = 64

-- `f64`: the operations that the limiter uses, on the values that are no NaN, and what IEEE 754 says of
-- them: whole numbers below 2^53 are exact, `min` is at most its second argument, subtracting one
-- gives nothing larger, and adding a product with zero changes nothing.
pub record Float : Type 1 where
  pub F : Type 0
  pub of_nat : ℕ → F
  pub as_secs : ℕ → F
  pub add : F → F → F
  pub sub : F → F → F
  pub mul : F → F → F
  pub div : F → F → F
  pub fmin : F → F → F
  pub le : F → F → Bool
  pub fmin-le : (x y : F) → le (fmin x y) y ≡ true
  pub le-refl : (x : F) → le x x ≡ true
  pub le-trans : (x y z : F) → le x y ≡ true → le y z ≡ true → le x z ≡ true
  pub sub_one-le : (x : F) → le (sub x (of_nat 1)) x ≡ true
  pub sub_one-exact : (n : ℕ) → n + 1 < 2 ^ 53 → sub (of_nat (n + 1)) (of_nat 1) ≡ of_nat n
  pub le-exact : (m n : ℕ) → m < 2 ^ 53 → n < 2 ^ 53 → le (of_nat m) (of_nat n) ≡ leb m n
  pub fmin-exact : (m n : ℕ) → m ≤ n → n < 2 ^ 53 → fmin (of_nat m) (of_nat n) ≡ of_nat m
  pub add-no_time : (n : ℕ) (r : F) → add (of_nat n) (mul (as_secs 0) r) ≡ of_nat n

pub record BucketKey : Type 0 where
  pub site : SiteKey
  pub terminal : ℕ
  pub directive : ℕ
  pub digest : ℕ

unfoldable pub BucketKey-discrete : Discrete BucketKey
BucketKey-discrete = hlevel (ℕ_discrete, SiteKey-discrete)

instance abbrev pub bucket_key_eq : Eq BucketKey
bucket_key_eq = record { dec = BucketKey-discrete }

module _ (f : Float) where
  open f use {F, of_nat, as_secs, add, sub, mul, div, fmin, le}

  pub record Bucket : Type 0 where
    pub tokens : F
    pub last : Option ℕ
    pub used : Bool

  pub record Shard : Type 0 where
    pub table : HashMap BucketKey Bucket
    pub recency : List BucketKey

  abbrev pub clear_used : Bucket → Bucket
  clear_used b = record b { used = false }

  abbrev pub tokens_per_second : RateSpec → F
  tokens_per_second spec = div (of_nat spec.rate_count) (of_nat (secs spec.unit))

  pub refill : F → Option ℕ → ℕ → RateSpec → F
  refill tokens none now spec = of_nat spec.burst
  refill tokens (some last) now spec =
      fmin (add tokens (mul (as_secs (now - last)) (tokens_per_second spec))) (of_nat spec.burst)

  -- The front candidate goes, whatever its bit.
  abbrev pub drop_front : Shard → Shard
  drop_front s = elim s.recency [
    | [] ↦ s
    | key ∷ rest ↦ record { table = remove key s.table; recency = rest }
  ]

  -- The rounds left of the scan of `evict_one`.
  pub evict_scan : ℕ → Shard → Shard
  evict_scan zero s = drop_front s
  evict_scan (suc rounds) s = elim s.recency [
    | [] ↦ s
    | key ∷ rest ↦ elim (get key s.table) [
      | none ↦ evict_scan rounds (record s { recency = rest })
      | some bucket ↦ elim bucket.used [
        | true ↦
            evict_scan rounds
              (record { table = modify key clear_used s.table; recency = rest ++ key ∷ [] })
        | false ↦ record { table = remove key s.table; recency = rest }
      ]
    ]
  ]

  pub evict_one : Shard → Shard
  evict_one s = evict_scan evict_scan_bound s

  -- A hit: the bucket is refilled, marked, and asked for a token.
  pub hit : Shard → BucketKey → Bucket → ℕ → RateSpec → Shard × Bool
  hit s key bucket now spec =
      let tokens = refill bucket.tokens bucket.last now spec in
      if le (of_nat 1) tokens
      then (
        record s {
          table =
              insert key (record { tokens = sub tokens (of_nat 1); last = some now; used = true })
                s.table;
        },
        true,
      )
      else (
        record s {
          table = insert key (record { tokens = tokens; last = some now; used = true }) s.table;
        },
        false,
      )

  -- A miss: room is made in a full shard, and a full bucket gives its first token.
  pub with_room : Shard → Shard
  with_room s = if leb per_shard_cap (length s.table) then evict_one s else s

  pub miss : Shard → BucketKey → ℕ → RateSpec → Shard × Bool
  miss s key now spec = (
    record {
      table =
          insert key
            (record {
              tokens = sub (refill (of_nat 0) none now spec) (of_nat 1);
              last = some now;
              used = false;
            })
            (with_room s).table;
      recency = (with_room s).recency ++ key ∷ [];
    },
    true,
  )

  -- The answer, and the shard after it.
  pub allow_shard : Shard → BucketKey → ℕ → RateSpec → Shard × Bool
  allow_shard s key now spec = elim (get key s.table) [
    | some bucket ↦ hit s key bucket now spec
    | none ↦ miss s key now spec
  ]

  pub record RateLimiter : Type 0 where
    pub all_shards : List Shard

  pub new_limiter : RateLimiter
  new_limiter = record { all_shards = replicate shards (record { table = []; recency = [] }) }

  -- `state.hash_one` on the key material, and on a bucket's key.
  module _ (hash_text : List ℕ → ℕ) (hash_key : BucketKey → ℕ) where
    abbrev pub shard_index : BucketKey → ℕ
    shard_index key = hash_key key % shards

    abbrev pub bucket_key : SiteKey → ℕ → ℕ → List ℕ → BucketKey
    bucket_key site terminal directive key = record {
      site = site;
      terminal = terminal;
      directive = directive;
      digest = hash_text key;
    }

    -- `none` is a panic: a shard out of range.
    pub allow : RateLimiter → SiteKey → ℕ → ℕ → List ℕ → ℕ → RateSpec → Option (RateLimiter × Bool)
    allow l site terminal directive key now spec =
        let k = bucket_key site terminal directive key in
        elim (get_elem? l.all_shards (shard_index k)) [
          | none ↦ none
          | some s ↦
              let (s', answer) = allow_shard s k now spec in
              some (record { all_shards = set l.all_shards (shard_index k) s' }, answer)
        ]
