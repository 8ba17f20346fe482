-- ===== src/Config/Patterns.antt =====
-- config/ast.rs: which hosts a wildcard pattern matches.
use raddy.Base.{
  ℕ, ◌<◌, List, [], ◌∷◌, ◌++◌, some, false, ◌≡◌, ◌↔◌, ◌∙◌, refl, sym, ap, arith, Option-cases, inl,
  inr, length, length-append, append_assoc,
}
use raddy.Config.Wildcard.{
  strip_prefix, strip_suffix, wildcard_match_specificity, has_dot, is_empty, strip_suffix-append,
  append-strip_suffix,
}

pub strip_prefix-append :
    (p text rest : List ℕ) → strip_prefix p text ≡ some rest → text ≡ p ++ rest
unfolding strip_prefix
strip_prefix-append [] text rest h = cc
strip_prefix-append (x ∷ p) [] rest h = absurd (cc)
strip_prefix-append (x ∷ p) (c ∷ text) rest h = ground (arith, strip_prefix-append p text rest)

append-strip_prefix : (p rest : List ℕ) → strip_prefix p (p ++ rest) ≡ some rest
unfolding strip_prefix
append-strip_prefix [] rest = refl
append-strip_prefix (x ∷ p) rest = ground (arith, append-strip_prefix p rest)

abbrev star : List ℕ
star = b'*' ∷ b'.' ∷ []

abbrev dot : List ℕ
dot = b'.' ∷ []

-- A host that is one label and what the pattern has behind its star.
pub record Splits (pattern host : List ℕ) (n : ℕ) : Type 0 where
  pub label : List ℕ
  pub suffix : List ℕ
  pub shape : pattern ≡ b'*' ∷ b'.' ∷ suffix
  pub whole : host ≡ label ++ b'.' ∷ suffix
  pub some_label : is_empty label ≡ false
  pub one_label : has_dot label ≡ false
  pub count : n ≡ length suffix

pub wildcard_match_specificity-Splits :
    (pattern host : List ℕ) (n : ℕ)
    → wildcard_match_specificity pattern host ≡ some n
    → Splits pattern host n
unfolding wildcard_match_specificity
wildcard_match_specificity-Splits pattern host n h =
    elim (Option-cases (strip_prefix star pattern)) [
      | inl gone ↦ absurd (let bad = rw (gone, wildcard_match_specificity) at h in cc)
      | inr (suffix, at_suffix) ↦
          let h1 = rw (at_suffix, wildcard_match_specificity) at h in
          elim (Option-cases (strip_suffix suffix host)) [
            | inl gone ↦ absurd (let bad = rw gone at h1 in cc)
            | inr (front, at_front) ↦
                let h2 = rw at_front at h1 in
                elim (Option-cases (strip_suffix dot front)) [
                  | inl gone ↦ absurd (let bad = rw gone at h2 in cc)
                  | inr (label, at_label) ↦
                      let h3 = rw at_label at h2 in
                      record {
                        label = label;
                        suffix = suffix;
                        shape = strip_prefix-append star pattern suffix at_suffix;
                        whole =
                            sym (strip_suffix-append suffix host front at_front)
                            ∙ ap (λ t. t ++ suffix)
                                (sym (strip_suffix-append dot front label at_label))
                            ∙ append_assoc label dot suffix;
                        some_label = ground arith;
                        one_label = ground arith;
                        count = ground arith;
                      }
                ]
          ]
    ]

pub Splits-wildcard_match_specificity :
    (pattern host : List ℕ) (n : ℕ)
    → Splits pattern host n
    → wildcard_match_specificity pattern host ≡ some n
unfolding wildcard_match_specificity
Splits-wildcard_match_specificity pattern host n v =
    let p1 : strip_prefix star pattern ≡ some v.suffix =
      ap (strip_prefix star) v.shape ∙ append-strip_prefix star v.suffix in
    let p2 : strip_suffix v.suffix host ≡ some (v.label ++ dot) =
      ap (strip_suffix v.suffix) (v.whole ∙ sym (append_assoc v.label dot v.suffix))
      ∙ append-strip_suffix v.suffix (v.label ++ dot) in
    let p3 = append-strip_suffix dot v.label in
    rw (p1, wildcard_match_specificity) (rw p2 (rw p3 (ground arith)))

-- A pattern matches a host as a wildcard, with a suffix of some length, exactly when the pattern
-- is a star, a dot and that suffix, and the host is one label, a dot and the same suffix, where
-- the label is not empty and has no dot.
pub wildcard_match_specificity_iff :
    (pattern host : List ℕ) (n : ℕ)
    → (wildcard_match_specificity pattern host ≡ some n) ↔ Splits pattern host n
wildcard_match_specificity_iff pattern host n = (
  wildcard_match_specificity-Splits pattern host n,
  Splits-wildcard_match_specificity pattern host n,
)

pub suffix-lt : (pattern host : List ℕ) (n : ℕ) → Splits pattern host n → n < length host
suffix-lt pattern host n v =
    omega (arith, v.count, ap length v.whole, length-append v.label (b'.' ∷ v.suffix))
