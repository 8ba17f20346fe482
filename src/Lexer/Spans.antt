-- ===== src/Lexer/Spans.antt =====
-- config/lexer.rs: what the inner loops take and leave.
use raddy.Base.{
  ℕ, ◌≡◌, refl, ap, List, [], ◌∷◌, ◌++◌, Bool, true, false, ◌==◌, any, arith, inl, inr, Bool-cases,
}
use raddy.Base.Ascii.{is_white}
use raddy.Lexer.{take_while, drop_while, is_placeholder, placeholder, behind_placeholder}

pub while-append : (p : ℕ → Bool) (text : List ℕ) → take_while p text ++ drop_while p text ≡ text
unfolding take_while drop_while
while-append p [] = refl
while-append p (c ∷ text) = elim (Bool-cases (p c)) [
  | inl yes_p ↦ rw (yes_p, take_while, drop_while) (ap (λ t. c ∷ t) (while-append p text))
  | inr no_p ↦ rw (no_p, take_while, drop_while) refl
]

-- What is taken has nothing that ends the loop.
pub any-take_while :
    (p q : ℕ → Bool) (text : List ℕ)
    → ((c : ℕ) → p c ≡ true → q c ≡ false)
    → any q (take_while p text) ≡ false
unfolding take_while
any-take_while p q [] h = refl
any-take_while p q (c ∷ text) h = elim (Bool-cases (p c)) [
  | inl yes_p ↦ rw (yes_p, take_while) (rw (h c yes_p) (any-take_while p q text h))
  | inr no_p ↦ rw (no_p, take_while) refl
]

pub placeholder-append : (text : List ℕ) → placeholder text ++ behind_placeholder text ≡ text
unfolding placeholder behind_placeholder
placeholder-append [] = refl
placeholder-append (c ∷ text) = elim (Bool-cases (c == b'}')) [
  | inl end ↦ rw (end, placeholder, behind_placeholder) refl
  | inr more ↦
      rw (more, placeholder, behind_placeholder) (ap (λ t. c ∷ t) (placeholder-append text))
]

pub placeholder-white :
    (text : List ℕ) → is_placeholder text ≡ true → any is_white (placeholder text) ≡ false
unfolding is_placeholder placeholder
placeholder-white [] h = refl
placeholder-white (c ∷ text) h = elim (Bool-cases (c == b'}')) [
  | inl end ↦ rw (end, placeholder) (ground arith)
  | inr more ↦
      let h' = rw (more, is_placeholder) at h in
      let black : is_white c ≡ false = ground arith in
      let rest : is_placeholder text ≡ true = ground arith in
      rw (more, placeholder) (rw black (placeholder-white text rest))
]
