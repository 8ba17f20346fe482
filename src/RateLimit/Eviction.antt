-- ===== src/RateLimit/Eviction.antt =====
-- proxy/ratelimit.rs: `evict_one` keeps the recency queue exact, and removes one bucket.
use raddy.Base.{
  ℕ, zero, suc, ◌≤◌, ◌<◌, ◌≡◌, ◌≢◌, refl, ap, List, [], ◌∷◌, ◌++◌, Option, none, some, true, false,
  arith, count, count-append, length, length-append, Option-cases, List-cases, Bool-cases, ◌⊎◌, inl,
  inr, All, append_assoc, append-nil, ◌∙◌, nat_eq,
}
use raddy.Base.Map.{
  get, modify, remove, IsMap, get-modify, get-remove_self, get-remove_ne, modify-IsMap,
  remove-IsMap, length-modify, length-remove_old, map_option, HashMap,
}
use raddy.RateLimit.{
  Float, BucketKey, bucket_key_eq, Bucket, Shard, clear_used, evict_scan, evict_one,
  evict_scan_bound,
}

abbrev pub present {ℓ} : {A : Type ℓ} → Option A → ℕ
present none = 0
present (some a) = 1

module _ (f : Float) where
  -- The recency queue holds exactly the keys of the table, each once.
  pub record IsExact (s : Shard f) : Type 0 where
    pub table : IsMap s.table
    pub queue : (k : BucketKey) → count k s.recency ≡ present (get k s.table)
    pub size : length s.recency ≡ length s.table

  pub front-found :
      (s : Shard f) (key : BucketKey) (rest : List BucketKey)
      → s.recency ≡ key ∷ rest
      → IsExact s
      → (b : Bucket f) × (get key s.table ≡ some b)
  front-found s key rest front v = elim (Option-cases (get key s.table)) [
    | inl absent ↦ absurd (ground (arith, v.queue key))
    | inr there ↦ there
  ]

  present-map : (o : Option (Bucket f)) → present (map_option (clear_used f) o) ≡ present o
  present-map none = refl
  present-map (some b) = refl

  pub rotate-IsExact :
      (s : Shard f) (key : BucketKey) (rest : List BucketKey)
      → s.recency ≡ key ∷ rest
      → IsExact s
      → IsExact (record { table = modify key (clear_used f) s.table; recency = rest ++ key ∷ [] })
  rotate-IsExact s key rest front v = record {
    table = modify-IsMap key (clear_used f) s.table v.table;
    queue = λ k.
        rw (get-modify key k (clear_used f) s.table)
          (ground (arith, v.queue k, count-append k rest (key ∷ []), present-map (get k s.table)));
    size = omega (
      arith,
      length-modify key (clear_used f) s.table,
      length-append rest (key ∷ []),
      ap length front,
      v.size,
    );
  }

  pub drop-IsExact :
      (s : Shard f) (key : BucketKey) (rest : List BucketKey)
      → s.recency ≡ key ∷ rest
      → IsExact s
      → IsExact (record { table = remove key s.table; recency = rest })
  drop-IsExact s key rest front v =
      let (b, found) = front-found s key rest front v in
      record {
        table = remove-IsMap key s.table v.table;
        queue = λ k. elim (bucket_key_eq.dec key k) [
          | yes same ↦ ground (arith, v.queue k, get-remove_self k s.table v.table)
          | no other ↦ rw (get-remove_ne key k s.table other) (ground (arith, v.queue k))
        ];
        size = omega (arith, length-remove_old key b s.table found, ap length front, v.size);
      }

  abbrev pub rotated : Shard f → BucketKey → List BucketKey → Shard f
  rotated s key rest = record {
    table = modify key (clear_used f) s.table;
    recency = rest ++ key ∷ [];
  }

  abbrev pub dropped : Shard f → BucketKey → List BucketKey → Shard f
  dropped s key rest = record { table = remove key s.table; recency = rest }

  pub evict_scan-used :
      (n : ℕ) (s : Shard f) (key : BucketKey) (rest : List BucketKey) (b : Bucket f)
      → s.recency ≡ key ∷ rest
      → get key s.table ≡ some b
      → b.used ≡ true
      → evict_scan f (suc n) s ≡ evict_scan f n (rotated s key rest)
  unfolding evict_scan
  evict_scan-used n s key rest b front found used = ground arith

  pub evict_scan-unused :
      (n : ℕ) (s : Shard f) (key : BucketKey) (rest : List BucketKey) (b : Bucket f)
      → s.recency ≡ key ∷ rest
      → get key s.table ≡ some b
      → b.used ≡ false
      → evict_scan f (suc n) s ≡ dropped s key rest
  unfolding evict_scan
  evict_scan-unused n s key rest b front found used = ground arith

  evict_scan-empty : (n : ℕ) (s : Shard f) → s.recency ≡ [] → evict_scan f n s ≡ s
  unfolding evict_scan
  evict_scan-empty zero s empty = ground arith
  evict_scan-empty (suc n) s empty = ground arith

  evict_scan-last :
      (s : Shard f) (key : BucketKey) (rest : List BucketKey)
      → s.recency ≡ key ∷ rest
      → evict_scan f zero s ≡ dropped s key rest
  unfolding evict_scan
  evict_scan-last s key rest front = ground arith

  rotated-ne-nil : (key : BucketKey) (rest : List BucketKey) → rest ++ key ∷ [] ≢ []
  rotated-ne-nil key [] e = cc
  rotated-ne-nil key (k ∷ rest) e = cc

  -- A rule for the scan: what holds of a dropped shard, and passes back over a reprieve, holds of
  -- the result on a shard that is exact and not empty.
  evict_scan-induction {ℓ} :
      (P : Shard f → Shard f → Type ℓ)
      → ((s : Shard f) (key : BucketKey) (rest : List BucketKey) (b : Bucket f)
          → s.recency ≡ key ∷ rest
          → get key s.table ≡ some b
          → IsExact s
          → P s (dropped s key rest))
      → ((s t : Shard f) (key : BucketKey) (rest : List BucketKey)
          → s.recency ≡ key ∷ rest
          → IsExact s
          → P (rotated s key rest) t
          → P s t)
      → (n : ℕ) (s : Shard f) → IsExact s
      → s.recency ≢ []
      → P s (evict_scan f n s)
  evict_scan-induction P drops rotates zero s v some_key = elim (List-cases s.recency) [
    | inl empty ↦ absurd (some_key empty)
    | inr (key, rest, front) ↦
        let (b, found) = front-found s key rest front v in
        rw (evict_scan-last s key rest front) (drops s key rest b front found v)
  ]
  evict_scan-induction P drops rotates (suc n) s v some_key = elim (List-cases s.recency) [
    | inl empty ↦ absurd (some_key empty)
    | inr (key, rest, front) ↦
        let (b, found) = front-found s key rest front v in
        elim (Bool-cases b.used) [
          | inl used ↦ rw (evict_scan-used n s key rest b front found used) (
              rotates s (evict_scan f n (rotated s key rest)) key rest front v (
                evict_scan-induction P drops rotates n (rotated s key rest)
                  (rotate-IsExact s key rest front v) (rotated-ne-nil key rest)))
          | inr unused ↦
              rw (evict_scan-unused n s key rest b front found unused)
                (drops s key rest b front found v)
        ]
  ]

  -- What an eviction does to a shard that is exact and not empty.
  pub record Evicts (s t : Shard f) : Type 0 where
    pub exact : IsExact t
    pub one_less : suc (length t.table) ≡ length s.table
    pub others :
        (k : BucketKey)
        → (get k t.table ≡ none)
          ⊎ ((get k t.table ≡ get k s.table)
              ⊎ (get k t.table ≡ map_option (clear_used f) (get k s.table)))

  dropped-Evicts :
      (s : Shard f) (key : BucketKey) (rest : List BucketKey) (b : Bucket f)
      → s.recency ≡ key ∷ rest
      → get key s.table ≡ some b
      → IsExact s
      → Evicts s (dropped s key rest)
  dropped-Evicts s key rest b front found v = record {
    exact = drop-IsExact s key rest front v;
    one_less = length-remove_old key b s.table found;
    others = λ k. elim (bucket_key_eq.dec key k) [
      | yes same ↦ inl (rw (← same) (get-remove_self key s.table v.table))
      | no other ↦ inr (inl (get-remove_ne key k s.table other))
    ];
  }

  clear-clear :
      (o : Option (Bucket f))
      → map_option (clear_used f) (map_option (clear_used f) o) ≡ map_option (clear_used f) o
  clear-clear none = refl
  clear-clear (some b) = refl

  rotated-Evicts :
      (s t : Shard f) (key : BucketKey) (rest : List BucketKey)
      → s.recency ≡ key ∷ rest
      → IsExact s
      → Evicts (rotated s key rest) t
      → Evicts s t
  rotated-Evicts s t key rest front v w = record {
    exact = w.exact;
    one_less = omega (arith, w.one_less, length-modify key (clear_used f) s.table);
    others = λ k.
        ground
          (arith, w.others k, get-modify key k (clear_used f) s.table, clear-clear (get k s.table));
  }

  -- An eviction from an exact shard that is not empty removes one bucket and keeps the shard exact.
  pub evict_one-Evicts : (s : Shard f) → IsExact s → s.recency ≢ [] → Evicts s (evict_one f s)
  unfolding evict_one
  evict_one-Evicts s v some_key =
      evict_scan-induction Evicts dropped-Evicts rotated-Evicts evict_scan_bound s v some_key

  -- Entries in front that are marked used.
  abbrev pub AllUsed : Shard f → List BucketKey → Type 0
  AllUsed s = All (λ k. (b : Bucket f) × (get k s.table ≡ some b) × (b.used ≡ true))

  -- The table with the bits of some keys cleared.
  abbrev pub cleared : List BucketKey → HashMap BucketKey (Bucket f) → HashMap BucketKey (Bucket f)
  cleared [] m = m
  cleared (k ∷ ks) m = cleared ks (modify k (clear_used f) m)

  rotated-AllUsed :
      (s : Shard f) (u : BucketKey) (rest ks : List BucketKey)
      → count u ks ≡ 0
      → AllUsed s ks
      → AllUsed (rotated s u rest) ks
  rotated-AllUsed s u rest [] c a = tt
  rotated-AllUsed s u rest (k ∷ ks) c ((b, found, used), a) = (
    (b, ground (arith, get-modify u k (clear_used f) s.table), used),
    rotated-AllUsed s u rest ks (ground arith) a,
  )

  present-le {ℓ} : {A : Type ℓ} (o : Option A) → present o ≤ 1
  present-le none = omega arith
  present-le (some a) = omega arith

  second_chance :
      (n : ℕ) (s : Shard f) (us : List BucketKey) (key : BucketKey) (rest : List BucketKey)
      (b : Bucket f)
      → length us < n
      → IsExact s
      → s.recency ≡ us ++ key ∷ rest
      → AllUsed s us
      → get key s.table ≡ some b
      → b.used ≡ false
      → evict_scan f n s ≡ record { table = remove key (cleared us s.table); recency = rest ++ us }
  second_chance zero s us key rest b h v front a found unused = absurd (omega arith)
  second_chance (suc n) s [] key rest b h v front a found unused =
      evict_scan-unused n s key rest b front found unused ∙ rw (append-nil rest)
  second_chance (suc n) s (u ∷ us) key rest b h v front ((c, c_found, c_used), a) found unused =
      let others : List BucketKey = us ++ key ∷ rest in
      let twice = v.queue u in
      let split = count-append u us (key ∷ rest) in
      let once = present-le (get u s.table) in
      let alone : count u us ≡ 0 = ground arith in
      let next : (us ++ key ∷ rest) ++ u ∷ [] ≡ us ++ key ∷ (rest ++ u ∷ []) =
        append_assoc us (key ∷ rest) (u ∷ []) in
      let found' : get key (rotated s u others).table ≡ some b =
        ground (arith, get-modify u key (clear_used f) s.table) in
      evict_scan-used n s u others c front c_found c_used
      ∙ (second_chance n (rotated s u others) us key (rest ++ u ∷ []) b (omega arith)
            (rotate-IsExact s u others front v) next (rotated-AllUsed s u others us alone a) found'
            unused
          ∙ rw (append_assoc rest (u ∷ []) us))

  -- An eviction from an exact shard whose queue begins with fewer than 64 keys that are marked
  -- used, and then a key that is not, removes that first unmarked key, clears the bits of those
  -- before it and moves them, in order, to the back of the queue.
  pub evict_one-second_chance :
      (s : Shard f) (us : List BucketKey) (key : BucketKey) (rest : List BucketKey) (b : Bucket f)
      → length us < evict_scan_bound
      → IsExact s
      → s.recency ≡ us ++ key ∷ rest
      → AllUsed s us
      → get key s.table ≡ some b
      → b.used ≡ false
      → evict_one f s ≡ record { table = remove key (cleared us s.table); recency = rest ++ us }
  unfolding evict_one
  evict_one-second_chance s us key rest b = second_chance evict_scan_bound s us key rest b
