-- ===== src/RateLimit/Bounds.antt =====
-- proxy/ratelimit.rs: the shards stay exact and within their capacity under every request.
use raddy.Base.{
  ℕ, suc, ◌≤◌, ◌<◌, ◌≡◌, ◌≢◌, refl, ap, ◌∙◌, false, [], ◌∷◌, ◌++◌, Option, none, some, Bool, true,
  arith, count-append, length, length-append, Option-cases, Bool-cases, inl, inr, ◌⊎◌, leb,
}
use raddy.Base.Map.{
  get, insert, get-insert, get-insert_ne, insert-IsMap, length-insert_new, length-insert_old,
  map_option,
}
use raddy.Config.{RateSpec}
use raddy.RateLimit.{
  Float, BucketKey, bucket_key_eq, Bucket, Shard, clear_used, evict_one, hit, miss, with_room,
  allow_shard, per_shard_cap, refill,
}
use raddy.RateLimit.Eviction.{IsExact, Evicts, evict_one-Evicts}

module _ (f : Float) where
  pub record IsBounded (s : Shard f) : Type 0 where
    pub exact : IsExact f s
    pub fits : length s.table ≤ per_shard_cap

  pub empty-IsBounded : IsBounded (record { table = []; recency = [] })
  unfolding get
  empty-IsBounded = record {
    exact = record { table = tt; queue = λ k. refl; size = refl };
    fits = omega arith;
  }

  -- A write to a bucket that is there.
  hit-IsExact :
      (s : Shard f) (key : BucketKey) (b b' : Bucket f)
      → get key s.table ≡ some b
      → IsExact f s
      → IsExact f (record s { table = insert key b' s.table })
  hit-IsExact s key b b' found v = record {
    table = insert-IsMap key b' s.table v.table;
    queue = λ k. rw (get-insert key k b' s.table) (ground (arith, v.queue k));
    size = omega (arith, length-insert_old key b' b s.table found, v.size);
  }

  -- A new bucket, with its key at the back of the queue.
  miss-IsExact :
      (s : Shard f) (key : BucketKey) (b : Bucket f)
      → get key s.table ≡ none
      → IsExact f s
      → IsExact f (record { table = insert key b s.table; recency = s.recency ++ key ∷ [] })
  miss-IsExact s key b absent v = record {
    table = insert-IsMap key b s.table v.table;
    queue = λ k.
        rw (get-insert key k b s.table)
          (ground (arith, v.queue k, v.queue key, count-append k s.recency (key ∷ [])));
    size =
        omega (
          arith,
          length-insert_new key b s.table absent,
          length-append s.recency (key ∷ []),
          v.size,
        );
  }

  -- Room for one more, made by an eviction if need be.
  record HasRoom (s r : Shard f) (key : BucketKey) : Type 0 where
    exact : IsExact f r
    room : length r.table < per_shard_cap
    absent : get key r.table ≡ none

  evicted-absent :
      (s t : Shard f) (key : BucketKey)
      → Evicts f s t
      → get key s.table ≡ none
      → get key t.table ≡ none
  evicted-absent s t key w absent = ground (arith, w.others key)

  recency-ne-nil : (s : Shard f) → IsExact f s → 0 < length s.table → s.recency ≢ []
  recency-ne-nil s v some_key empty = omega (arith, ap length empty, v.size)

  room-HasRoom :
      (s : Shard f) (key : BucketKey)
      → IsBounded s
      → get key s.table ≡ none
      → HasRoom s (with_room f s) key
  unfolding with_room
  room-HasRoom s key v absent = elim (Bool-cases (leb per_shard_cap (length s.table))) [
    | inl full ↦
        let w = evict_one-Evicts f s v.exact (recency-ne-nil s v.exact (ground arith)) in
        rw full (record {
          exact = w.exact;
          room = omega (arith, w.one_less, v.fits);
          absent = evicted-absent s (evict_one f s) key w absent;
        })
    | inr room ↦ rw room (record { exact = v.exact; room = ground arith; absent = absent })
  ]

  hit-IsBounded :
      (s : Shard f) (key : BucketKey) (b b' : Bucket f)
      → get key s.table ≡ some b
      → IsBounded s
      → IsBounded (record s { table = insert key b' s.table })
  hit-IsBounded s key b b' found v = record {
    exact = hit-IsExact s key b b' found v.exact;
    fits = omega (arith, length-insert_old key b' b s.table found, v.fits);
  }

  miss-IsBounded :
      (s r : Shard f) (key : BucketKey) (b : Bucket f)
      → HasRoom s r key
      → IsBounded (record { table = insert key b r.table; recency = r.recency ++ key ∷ [] })
  miss-IsBounded s r key b w = record {
    exact = miss-IsExact r key b w.absent w.exact;
    fits = omega (arith, length-insert_new key b r.table w.absent, w.room);
  }

  -- The two ways through `allow_shard`.
  allow_shard-cases {ℓ} :
      (P : Shard f × Bool → Type ℓ) (s : Shard f) (key : BucketKey) (now : ℕ) (spec : RateSpec)
      → (get key s.table ≡ none → P (miss f s key now spec))
      → ((b : Bucket f) → get key s.table ≡ some b → P (hit f s key b now spec))
      → P (allow_shard f s key now spec)
  unfolding allow_shard
  allow_shard-cases P s key now spec missed found = elim (Option-cases (get key s.table)) [
    | inl absent ↦ rw (absent, allow_shard) (missed absent)
    | inr (b, there) ↦ rw (there, allow_shard) (found b there)
  ]

  hit-table :
      (s : Shard f) (key : BucketKey) (b : Bucket f) (now : ℕ) (spec : RateSpec)
      → (b' : Bucket f) × ((hit f s key b now spec).0 ≡ record s { table = insert key b' s.table })
  unfolding hit
  hit-table s key b now spec =
      elim (Bool-cases (f.le (f.of_nat 1) (refill f b.tokens b.last now spec))) [
        | inl enough ↦ (
          record {
            tokens = f.sub (refill f b.tokens b.last now spec) (f.of_nat 1);
            last = some now;
            used = true;
          },
          rw (enough, hit),
        )
        | inr short ↦ (
          record { tokens = refill f b.tokens b.last now spec; last = some now; used = true },
          rw (short, hit),
        )
      ]

  pub allow_shard-IsBounded :
      (s : Shard f) (key : BucketKey) (now : ℕ) (spec : RateSpec)
      → IsBounded s
      → IsBounded (allow_shard f s key now spec).0
  unfolding miss
  allow_shard-IsBounded s key now spec v =
      allow_shard-cases (λ r. IsBounded r.0) s key now spec
        (λ absent. miss-IsBounded s (with_room f s) key _ (room-HasRoom s key v absent))
        (λ b found.
          let (b', same) = hit-table s key b now spec in rw same (hit-IsBounded s key b b' found v))

  -- What a request may do to another key's bucket.
  abbrev pub Spares : Option (Bucket f) → Option (Bucket f) → Type 0
  Spares before after =
      (after ≡ none) ⊎ ((after ≡ before) ⊎ (after ≡ map_option (clear_used f) before))

  with_room-Spares :
      (s : Shard f) (k : BucketKey)
      → IsBounded s
      → Spares (get k s.table) (get k (with_room f s).table)
  unfolding with_room
  with_room-Spares s k v = elim (Bool-cases (leb per_shard_cap (length s.table))) [
    | inl full ↦
        let w = evict_one-Evicts f s v.exact (recency-ne-nil s v.exact (ground arith)) in
        rw (full, with_room) (w.others k)
    | inr room ↦ rw (room, with_room) (inr (inl refl))
  ]

  length-with_room :
      (s : Shard f) → IsBounded s → length s.table ≤ suc (length (with_room f s).table)
  unfolding with_room
  length-with_room s v = elim (Bool-cases (leb per_shard_cap (length s.table))) [
    | inl full ↦
        let w = evict_one-Evicts f s v.exact (recency-ne-nil s v.exact (ground arith)) in
        rw (full, with_room) (omega (arith, w.one_less))
    | inr room ↦ rw (room, with_room) (omega arith)
  ]

  with_room-same : (s : Shard f) → length s.table < per_shard_cap → with_room f s ≡ s
  unfolding with_room
  with_room-same s room =
      let low : leb per_shard_cap (length s.table) ≡ false = ground arith in
      rw (low, with_room) refl

  -- In a shard whose queue is exact and that is within its capacity, a request for one key does
  -- nothing to the bucket of another key if its own bucket is there or if the shard is not full;
  -- and in any case the other bucket is unchanged, or has lost its second-chance bit, or is
  -- evicted, and the shard has no fewer buckets than before: at most one is evicted, and no
  -- tokens are ever moved.
  pub allow_shard-frame :
      (s : Shard f) (key k : BucketKey) (now : ℕ) (spec : RateSpec)
      → IsBounded s
      → key ≢ k
      → ((get key s.table ≢ none) ⊎ (length s.table < per_shard_cap)
          → get k (allow_shard f s key now spec).0.table ≡ get k s.table)
        × Spares (get k s.table) (get k (allow_shard f s key now spec).0.table)
        × (length s.table ≤ length (allow_shard f s key now spec).0.table)
  unfolding miss
  allow_shard-frame s key k now spec v other =
      allow_shard-cases
        (λ r.
          ((get key s.table ≢ none) ⊎ (length s.table < per_shard_cap)
            → get k r.0.table ≡ get k s.table)
          × Spares (get k s.table) (get k r.0.table)
          × (length s.table ≤ length r.0.table))
        s key now spec
        (λ absent. (
          λ spared. elim spared [
            | inl there ↦ absurd (there absent)
            | inr room ↦
                get-insert_ne key k _ (with_room f s).table other
                ∙ ap (λ x. get k x.table) (with_room-same s room)
          ],
          rw (get-insert_ne key k _ (with_room f s).table other) (with_room-Spares s k v),
          omega (
            arith,
            length-insert_new key _ (with_room f s).table (room-HasRoom s key v absent).absent,
            length-with_room s v,
          ),
        ))
        (λ b found.
          let (b', same) = hit-table s key b now spec in
          let kept = get-insert_ne key k b' s.table other in
          rw same
            ((λ _. kept), inr (inl kept), omega (arith, length-insert_old key b' b s.table found)))
