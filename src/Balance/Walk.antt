-- ===== src/Balance/Walk.antt =====
-- layer4/balance.rs: what a walk over positions finds.
use raddy.Base.{
  ℕ, zero, suc, ◌+◌, ◌-◌, ◌%◌, ◌≤◌, ◌<◌, ◌≡◌, refl, sym, ap, ◌∙◌, Option, none, some, arith, inl,
  inr, Option-cases, dec_lt,
}
use raddy.Balance.{find_map}
use native.Mathlib.Nat.{mod-lt, add-mod_right, mod-eq_of_lt, mod-add-mod}

module _ {ℓ} {A : Type ℓ} where
  -- A walk over positions that are all there ends, and what it finds stands at one of them; when it
  -- finds nothing there is nothing at any.
  pub record Walked (f : ℕ → Option (Option A)) (left offset : ℕ) (r : Option A) : Type ℓ where
    pub found :
        (a : A) → r ≡ some a → (j : ℕ) × (offset ≤ j) × (j < offset + left) × (f j ≡ some (some a))
    pub nothing : r ≡ none → (j : ℕ) → offset ≤ j → j < offset + left → f j ≡ some none

  pub find_map-Walked :
      (f : ℕ → Option (Option A)) (left offset : ℕ)
      → ((j : ℕ) → offset ≤ j → j < offset + left → (o : Option A) × (f j ≡ some o))
      → (r : Option A) × (find_map f left offset ≡ some r) × Walked f left offset r
  unfolding find_map
  find_map-Walked f zero offset there =
      (none, refl, record { found = λ a h. absurd (cc); nothing = λ _ j p q. absurd (omega arith) })
  find_map-Walked f (suc left) offset there =
      let (o, here) = there offset (omega arith) (omega arith) in
      elim (Option-cases o) [
        | inl empty ↦
            let (r, eq, w) =
              find_map-Walked f left (offset + 1) (λ j p q. there j (omega arith) (omega arith)) in
            (
              r,
              rw (here ∙ ap some empty, find_map) eq,
              record {
                found = λ a h. let (j, p, q, at) = w.found a h in (j, omega arith, omega arith, at);
                nothing = λ h j p q. elim (dec_lt offset j) [
                  | yes later ↦ w.nothing h j (omega arith) (omega arith)
                  | no first ↦
                      let same : j ≡ offset = omega arith in ap f same ∙ here ∙ ap some empty
                ];
              },
            )
        | inr (a, full) ↦ (
          some a,
          rw (here ∙ ap some full, find_map) refl,
          record {
            found = λ x h. (offset, omega arith, omega arith, here ∙ ap some (full ∙ h));
            nothing = λ h. absurd (cc);
          },
        )
      ]

-- From any start a full turn meets every position.
pub turn : (start n p : ℕ) → p < n → (offset : ℕ) × (offset < n) × ((start + offset) % n ≡ p)
turn start n p h = elim (dec_lt p (start % n)) [
  | yes before ↦
      let low = mod-lt start {m = n} (omega arith) in
      (
        p + n - start % n,
        omega arith,
        sym (mod-add-mod start n (p + n - start % n))
            ∙ ap (λ x. x % n) (omega arith)
            ∙ add-mod_right p n
            ∙ mod-eq_of_lt h,
      )
  | no after ↦ (
    p - start % n,
    omega arith,
    sym (mod-add-mod start n (p - start % n)) ∙ ap (λ x. x % n) (omega arith) ∙ mod-eq_of_lt h,
  )
]
