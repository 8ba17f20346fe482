-- ===== src/Balance/Sorting.antt =====
-- layer4/balance.rs: sorting the ring.
use raddy.Base.{
  ℕ, zero, suc, ◌+◌, ◌==◌, if◌then◌else◌, ◌≤◌, ◌<◌, ◌≡◌, refl, ap, subst, ◌∙◌, List, [], ◌∷◌, ◌++◌,
  some, arith, inl, inr, ◌⊎◌, Bool-cases, get_elem?, All, leb,
}
use raddy.Balance.{RingNode, sort_by_hash, sorted_insert}

-- A node of a backend stands in a ring.
abbrev pub Has : ℕ → List RingNode → Type 0
Has i [] = ⊥
Has i (x ∷ xs) = (x.backend ≡ i) ⊎ Has i xs

abbrev pub Inside : ℕ → List RingNode → Type 0
Inside n = All (λ node. node.backend < n)

abbrev pub IsSorted : List RingNode → Type 0
IsSorted [] = Unit {0}
IsSorted (x ∷ xs) = All (λ node. x.hash ≤ node.hash) xs × IsSorted xs

module _ (P : RingNode → Type 0) where
  sorted_insert-All :
      (x : RingNode) (xs : List RingNode) → P x → All P xs → All P (sorted_insert x xs)
  unfolding sorted_insert
  sorted_insert-All x [] p ps = (p, ps)
  sorted_insert-All x (y ∷ xs) p ps = elim (Bool-cases (leb x.hash y.hash)) [
    | inl low ↦ rw (low, sorted_insert) (p, ps)
    | inr high ↦ rw (high, sorted_insert) (ps.0, sorted_insert-All x xs p ps.1)
  ]

  pub sort_by_hash-All : (xs : List RingNode) → All P xs → All P (sort_by_hash xs)
  unfolding sort_by_hash
  sort_by_hash-All [] ps = ps
  sort_by_hash-All (x ∷ xs) ps =
      sorted_insert-All x (sort_by_hash xs) ps.0 (sort_by_hash-All xs ps.1)

All-weaken :
    (a b : ℕ) (xs : List RingNode)
    → a ≤ b
    → All (λ node. b ≤ node.hash) xs
    → All (λ node. a ≤ node.hash) xs
All-weaken a b [] h ps = tt
All-weaken a b (x ∷ xs) h ps = (omega (arith, ps.0), All-weaken a b xs h ps.1)

sorted_insert-IsSorted :
    (x : RingNode) (xs : List RingNode) → IsSorted xs → IsSorted (sorted_insert x xs)
unfolding sorted_insert
sorted_insert-IsSorted x [] v = (tt, tt)
sorted_insert-IsSorted x (y ∷ xs) v = elim (Bool-cases (leb x.hash y.hash)) [
  | inl low ↦
      rw (low, sorted_insert) ((ground arith, All-weaken x.hash y.hash xs (ground arith) v.0), v)
  | inr high ↦
      rw (high, sorted_insert)
        (
          sorted_insert-All (λ node. y.hash ≤ node.hash) x xs (ground arith) v.0,
          sorted_insert-IsSorted x xs v.1,
        )
]

pub sort_by_hash-IsSorted : (xs : List RingNode) → IsSorted (sort_by_hash xs)
unfolding sort_by_hash
sort_by_hash-IsSorted [] = tt
sort_by_hash-IsSorted (x ∷ xs) =
    sorted_insert-IsSorted x (sort_by_hash xs) (sort_by_hash-IsSorted xs)

sorted_insert-Has :
    (i : ℕ) (x : RingNode) (xs : List RingNode) → Has i (x ∷ xs) → Has i (sorted_insert x xs)
unfolding sorted_insert
sorted_insert-Has i x [] h = h
sorted_insert-Has i x (y ∷ xs) h = elim (Bool-cases (leb x.hash y.hash)) [
  | inl low ↦ rw (low, sorted_insert) h
  | inr high ↦
      rw (high, sorted_insert)
        (elim h [
          | inl here ↦ inr (sorted_insert-Has i x xs (inl here))
          | inr (inl next) ↦ inl next
          | inr (inr later) ↦ inr (sorted_insert-Has i x xs (inr later))
        ])
]

pub sort_by_hash-Has : (i : ℕ) (xs : List RingNode) → Has i xs → Has i (sort_by_hash xs)
unfolding sort_by_hash
sort_by_hash-Has i [] h = elim h [ ]
sort_by_hash-Has i (x ∷ xs) (inl here) = sorted_insert-Has i x (sort_by_hash xs) (inl here)
sort_by_hash-Has i (x ∷ xs) (inr there) =
    sorted_insert-Has i x (sort_by_hash xs) (inr (sort_by_hash-Has i xs there))

-- A node stands in a ring.
abbrev pub IsIn : RingNode → List RingNode → Type 0
IsIn node [] = ⊥
IsIn node (x ∷ xs) = (x ≡ node) ⊎ IsIn node xs

pub IsIn-append :
    (node : RingNode) (xs ys : List RingNode) → IsIn node xs ⊎ IsIn node ys → IsIn node (xs ++ ys)
IsIn-append node [] ys (inl h) = absurd h
IsIn-append node [] ys (inr h) = h
IsIn-append node (x ∷ xs) ys (inl (inl here)) = inl here
IsIn-append node (x ∷ xs) ys (inl (inr there)) = inr (IsIn-append node xs ys (inl there))
IsIn-append node (x ∷ xs) ys (inr h) = inr (IsIn-append node xs ys (inr h))

sorted_insert-IsIn :
    (node x : RingNode) (xs : List RingNode) → IsIn node (x ∷ xs) → IsIn node (sorted_insert x xs)
unfolding sorted_insert
sorted_insert-IsIn node x [] h = h
sorted_insert-IsIn node x (y ∷ xs) h = elim (Bool-cases (leb x.hash y.hash)) [
  | inl low ↦ rw (low, sorted_insert) h
  | inr high ↦
      rw (high, sorted_insert)
        (elim h [
          | inl here ↦ inr (sorted_insert-IsIn node x xs (inl here))
          | inr (inl next) ↦ inl next
          | inr (inr later) ↦ inr (sorted_insert-IsIn node x xs (inr later))
        ])
]

pub sort_by_hash-IsIn :
    (node : RingNode) (xs : List RingNode) → IsIn node xs → IsIn node (sort_by_hash xs)
unfolding sort_by_hash
sort_by_hash-IsIn node [] h = absurd h
sort_by_hash-IsIn node (x ∷ xs) (inl here) = sorted_insert-IsIn node x (sort_by_hash xs) (inl here)
sort_by_hash-IsIn node (x ∷ xs) (inr there) =
    sorted_insert-IsIn node x (sort_by_hash xs) (inr (sort_by_hash-IsIn node xs there))

-- How many nodes of a backend a ring has.
unfoldable pub nodes_of : ℕ → List RingNode → ℕ
nodes_of i [] = 0
nodes_of i (x ∷ xs) = (if x.backend == i then 1 else 0) + nodes_of i xs

pub nodes_of-append :
    (i : ℕ) (xs ys : List RingNode) → nodes_of i (xs ++ ys) ≡ nodes_of i xs + nodes_of i ys
unfolding nodes_of
nodes_of-append i [] ys = omega arith
nodes_of-append i (x ∷ xs) ys = omega (arith, nodes_of-append i xs ys)

nodes_of-sorted_insert :
    (i : ℕ) (x : RingNode) (xs : List RingNode)
    → nodes_of i (sorted_insert x xs) ≡ nodes_of i (x ∷ xs)
unfolding sorted_insert nodes_of
nodes_of-sorted_insert i x [] = refl
nodes_of-sorted_insert i x (y ∷ xs) = elim (Bool-cases (leb x.hash y.hash)) [
  | inl low ↦ rw (low, sorted_insert) refl
  | inr high ↦ rw (high, sorted_insert) (omega (arith, nodes_of-sorted_insert i x xs))
]

pub nodes_of-sort_by_hash :
    (i : ℕ) (xs : List RingNode) → nodes_of i (sort_by_hash xs) ≡ nodes_of i xs
unfolding sort_by_hash nodes_of
nodes_of-sort_by_hash i [] = refl
nodes_of-sort_by_hash i (x ∷ xs) =
    nodes_of-sorted_insert i x (sort_by_hash xs)
    ∙ ap (λ n. (if x.backend == i then 1 else 0) + n) (nodes_of-sort_by_hash i xs)

pub Has-at :
    (i : ℕ) (xs : List RingNode)
    → Has i xs
    → (p : ℕ) × (node : RingNode) × (get_elem? xs p ≡ some node) × (node.backend ≡ i)
Has-at i [] h = elim h [ ]
Has-at i (x ∷ xs) (inl here) = (0, x, refl, here)
Has-at i (x ∷ xs) (inr there) =
    let (p, node, at, same) = Has-at i xs there in (suc p, node, at, same)

pub Inside-at :
    (n : ℕ) (xs : List RingNode) (p : ℕ) (node : RingNode)
    → Inside n xs
    → get_elem? xs p ≡ some node
    → node.backend < n
Inside-at n [] p node v h = absurd (cc)
Inside-at n (x ∷ xs) zero node v h = let same : x ≡ node = cc in subst (λ m. m.backend < n) same v.0
Inside-at n (x ∷ xs) (suc p) node v h = Inside-at n xs p node v.1 h

pub Has-append : (i : ℕ) (xs ys : List RingNode) → Has i xs ⊎ Has i ys → Has i (xs ++ ys)
Has-append i [] ys (inl h) = elim h [ ]
Has-append i [] ys (inr h) = h
Has-append i (x ∷ xs) ys (inl (inl here)) = inl here
Has-append i (x ∷ xs) ys (inl (inr there)) = inr (Has-append i xs ys (inl there))
Has-append i (x ∷ xs) ys (inr h) = inr (Has-append i xs ys (inr h))
