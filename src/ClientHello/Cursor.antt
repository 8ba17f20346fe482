-- ===== src/ClientHello/Cursor.antt =====
-- layer4/tls.rs: reading a buffer at an index, by what stands behind the index.
use raddy.Base.{
  ℕ, zero, suc, ◌+◌, ◌-◌, ◌/◌, ◌%◌, ◌≤◌, ◌≡◌, refl, ap, List, [], ◌∷◌, ◌++◌, some, arith, length,
  length-append, length-drop, get_elem?, take, drop,
}
use raddy.ClientHello.{slice, u16_at}

-- A number as two bytes, before `rest`.
abbrev pub u16_before : ℕ → List ℕ → List ℕ
u16_before n rest = (n / 256) ∷ (n % 256) ∷ rest

-- Reading at an index, by what stands behind it.
drop-tail {ℓ} :
    {A : Type ℓ} (xs : List A) (i : ℕ) (x : A) (r : List A)
    → drop i xs ≡ x ∷ r
    → drop (suc i) xs ≡ r
drop-tail [] zero x r h = absurd (cc)
drop-tail [] (suc i) x r h = absurd (cc)
drop-tail (y ∷ xs) zero x r h = ground arith
drop-tail (y ∷ xs) (suc i) x r h = drop-tail xs i x r h

pub drop-suc {ℓ} :
    {A : Type ℓ} (xs : List A) (i : ℕ) (x : A) (r : List A)
    → drop i xs ≡ x ∷ r
    → drop (i + 1) xs ≡ r
drop-suc xs i x r h = let e : i + 1 ≡ suc i = omega arith in rw e (drop-tail xs i x r h)

pub drop-head {ℓ} :
    {A : Type ℓ} (xs : List A) (i : ℕ) (x : A) (r : List A)
    → drop i xs ≡ x ∷ r
    → get_elem? xs i ≡ some x
drop-head [] zero x r h = absurd (cc)
drop-head [] (suc i) x r h = absurd (cc)
drop-head (y ∷ xs) zero x r h = ground arith
drop-head (y ∷ xs) (suc i) x r h = drop-head xs i x r h

pub drop-append {ℓ} :
    {A : Type ℓ} (xs : List A) (i j : ℕ) (ys r : List A)
    → j ≡ i + length ys
    → drop i xs ≡ ys ++ r
    → drop j xs ≡ r
drop-append xs i j [] r e h = let e' : j ≡ i = omega arith in rw e' h
drop-append xs i j (y ∷ ys) r e h =
    drop-append xs (i + 1) j ys r (omega arith) (drop-suc xs i y (ys ++ r) h)

pub drop-u16 :
    (xs : List ℕ) (i n : ℕ) (r : List ℕ)
    → drop i xs ≡ u16_before n r
    → (u16_at xs i ≡ some n) × (drop (i + 2) xs ≡ r)
unfolding u16_at
drop-u16 xs i n r h =
    let next = drop-suc xs i (n / 256) _ h in
    let e : i + 2 ≡ i + 1 + 1 = omega arith in
    (
      ground (arith, drop-head xs i (n / 256) _ h, drop-head xs (i + 1) (n % 256) r next),
      rw e (drop-suc xs (i + 1) (n % 256) r next),
    )

pub drop-length {ℓ} :
    {A : Type ℓ} (xs : List A) (i : ℕ) (x : A) (r : List A)
    → drop i xs ≡ x ∷ r
    → length xs ≡ i + 1 + length r
drop-length xs i x r h = omega (arith, ap length h, length-drop i xs)

take-append {ℓ} : {A : Type ℓ} (ys r : List A) (n : ℕ) → n ≡ length ys → take n (ys ++ r) ≡ ys
take-append [] r zero h = refl
take-append [] r (suc n) h = absurd (omega arith)
take-append (y ∷ ys) r zero h = absurd (omega arith)
take-append (y ∷ ys) r (suc n) h = ap (◌∷◌ y) (take-append ys r n (omega arith))

pub slice-append :
    (xs : List ℕ) (i j : ℕ) (ys r : List ℕ)
    → i ≤ length xs
    → j ≡ i + length ys
    → drop i xs ≡ ys ++ r
    → slice xs i j ≡ some ys
unfolding slice
slice-append xs i j ys r inside e h =
    let len : length ys + length r ≡ length xs - i =
      omega (arith, ap length h, length-drop i xs, length-append ys r) in
    rw h (ground (arith, take-append ys r (j - i)))
