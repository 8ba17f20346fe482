-- ===== src/Config/Wildcard.antt =====
-- config/ast.rs: one-label wildcard host patterns.
use raddy.Base.{
  ◌>>=◌, length, any, not, ◌||◌, is_some, ◌++◌, ◌≡◌, refl, arith, ap, sym, Bool-cases, Option-cases,
  inl, inr, length-append, ◌<◌, ℕ, List, [], ◌∷◌, Option, none, some, Bool, true, false, ◌&&◌, ◌==◌,
  if◌then◌else◌,
}

-- `str::strip_prefix`.
unfoldable pub strip_prefix : List ℕ → List ℕ → Option (List ℕ)
strip_prefix [] text = some text
strip_prefix (p ∷ ps) [] = none
strip_prefix (p ∷ ps) (c ∷ text) = if p == c then strip_prefix ps text else none

-- Equality of texts.
unfoldable pub text_eq : List ℕ → List ℕ → Bool
text_eq [] [] = true
text_eq (a ∷ rest) (b ∷ others) = a == b && text_eq rest others
text_eq _ _ = false

abbrev pub push_front : ℕ → Option (List ℕ) → Option (List ℕ)
push_front c none = none
push_front c (some text) = some (c ∷ text)

-- `str::strip_suffix`: the text before the suffix.
unfoldable pub strip_suffix : List ℕ → List ℕ → Option (List ℕ)
unfolding text_eq
strip_suffix suffix [] = if text_eq [] suffix then some [] else none
strip_suffix suffix (c ∷ text) =
    if text_eq (c ∷ text) suffix then some [] else push_front c (strip_suffix suffix text)

-- `label.contains('.')`.
abbrev pub has_dot : List ℕ → Bool
has_dot label = any (λ c. c == b'.') label

abbrev pub is_empty : List ℕ → Bool
is_empty [] = true
is_empty (c ∷ text) = false

unfoldable pub wildcard_match_specificity : List ℕ → List ℕ → Option ℕ
unfolding strip_prefix strip_suffix
wildcard_match_specificity pattern host = do
  suffix ← strip_prefix (b'*' ∷ b'.' ∷ []) pattern
  prefix ← strip_suffix suffix host
  label ← strip_suffix (b'.' ∷ []) prefix
  if not (is_empty label) && not (has_dot label) then some (length suffix) else none

pub host_pattern_matches : List ℕ → List ℕ → Bool
host_pattern_matches pattern host =
    text_eq pattern host || is_some (wildcard_match_specificity pattern host)

-- A host is what is in front of its suffix, and the suffix.
pub text_eq-≡ : (a b : List ℕ) → text_eq a b ≡ true → a ≡ b
unfolding text_eq
text_eq-≡ [] [] h = refl
text_eq-≡ [] (y ∷ b) h = absurd (cc)
text_eq-≡ (x ∷ a) [] h = absurd (cc)
text_eq-≡ (x ∷ a) (y ∷ b) h = ground (arith, text_eq-≡ a b)

pub text_eq_refl : (a : List ℕ) → text_eq a a ≡ true
unfolding text_eq
text_eq_refl [] = refl
text_eq_refl (x ∷ a) = ground (arith, text_eq_refl a)

pub strip_suffix-append :
    (suffix text front : List ℕ) → strip_suffix suffix text ≡ some front → front ++ suffix ≡ text
unfolding strip_suffix
strip_suffix-append suffix [] front h = elim (Bool-cases (text_eq [] suffix)) [
  | inl same ↦
      let here : some [] ≡ some front = rw (same, strip_suffix) at h in
      let empty : [] ≡ front = cc in rw⁻¹ empty (sym (text_eq-≡ [] suffix same))
  | inr other ↦ absurd (let gone = rw (other, strip_suffix) at h in cc)
]
strip_suffix-append suffix (c ∷ text) front h = elim (Bool-cases (text_eq (c ∷ text) suffix)) [
  | inl same ↦
      let here : some [] ≡ some front = rw (same, strip_suffix) at h in
      let empty : [] ≡ front = cc in rw⁻¹ empty (sym (text_eq-≡ (c ∷ text) suffix same))
  | inr other ↦
      let later = rw (other, strip_suffix) at h in
      elim (Option-cases (strip_suffix suffix text)) [
        | inl none_there ↦ absurd (let gone = rw none_there at later in cc)
        | inr (f, found) ↦
            let here : some (c ∷ f) ≡ some front = rw found at later in
            let same : c ∷ f ≡ front = cc in
            rw⁻¹ same (ap (λ t. c ∷ t) (strip_suffix-append suffix text f found))
      ]
]

text_eq_longer : (suffix text : List ℕ) → length suffix < length text → text_eq text suffix ≡ false
text_eq_longer suffix text longer = elim (Bool-cases (text_eq text suffix)) [
  | inl same ↦ absurd (omega (arith, ap length (text_eq-≡ text suffix same)))
  | inr other ↦ other
]

pub append-strip_suffix :
    (suffix front : List ℕ) → strip_suffix suffix (front ++ suffix) ≡ some front
unfolding strip_suffix
append-strip_suffix [] [] = refl
append-strip_suffix (s ∷ suffix) [] = rw (text_eq_refl (s ∷ suffix), strip_suffix) refl
append-strip_suffix suffix (c ∷ front) =
    let longer =
      text_eq_longer suffix (c ∷ front ++ suffix) (omega (arith, length-append front suffix)) in
    rw (longer, strip_suffix) (ap (push_front c) (append-strip_suffix suffix front))
