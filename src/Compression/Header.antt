-- ===== src/Compression/Header.antt =====
-- proxy/compress.rs: what an Accept-Encoding header says.
use raddy.Base.{
  ℕ, ◌≡◌, ◌⊎◌, refl, ap, ◌∙◌, subst, List, [], ◌∷◌, ◌++◌, Option, none, some, false, inl, inr,
  Bool-cases, Option-cases, any, ◌==◌, arith,
}
use raddy.ByteRange.{trim, split_once}
use raddy.Config.Wildcard.{strip_prefix}
use raddy.Compression.{split, put_front}

abbrev pub Lacks : ℕ → List ℕ → Type 0
Lacks b text = any (λ c. c == b) text ≡ false

-- The parts of a header, which its commas divide.
pub data Parts : List ℕ → List (List ℕ) → Type 0 where
  last : (part : List ℕ) → Lacks b',' part → Parts part (part ∷ [])
  more :
      (part rest header : List ℕ) (parts : List (List ℕ))
      → Lacks b',' part
      → part ++ (b',' ∷ rest) ≡ header
      → Parts rest parts
      → Parts header (part ∷ parts)

-- The name in front of the first semicolon, and what is behind it.
pub data Cut (text : List ℕ) : List ℕ → Option (List ℕ) → Type 0 where
  uncut : Lacks b';' text → Cut text text none
  cut :
      (name rest : List ℕ)
      → text ≡ name ++ (b';' ∷ rest)
      → Lacks b';' name
      → Cut text name (some rest)

-- The text of a weight, behind `q=` or `Q=`.
abbrev pub HasValue : List ℕ → List ℕ → Type 0
HasValue rest value = (trim rest ≡ b'q' ∷ b'=' ∷ value) ⊎ (trim rest ≡ b'Q' ∷ b'=' ∷ value)

put_front-Parts :
    (c : ℕ) (text : List ℕ) (parts : List (List ℕ))
    → (c == b',') ≡ false
    → Parts text parts
    → Parts (c ∷ text) (put_front c parts)
put_front-Parts c text [] other h = elim h [ ]
put_front-Parts c text (p ∷ ps) other (last part clean) = last (c ∷ part) (ground (arith, clean))
put_front-Parts c text (p ∷ ps) other (more part rest header parts clean whole others) =
    more (c ∷ part) rest (c ∷ text) parts (ground (arith, clean)) (ap (λ t. c ∷ t) whole) others

pub split-Parts : (header : List ℕ) → Parts header (split b',' header)
unfolding split
split-Parts [] = last [] refl
split-Parts (c ∷ text) = elim (Bool-cases (c == b',')) [
  | inl comma ↦
      let same : b',' ≡ c = ground arith in
      rw (comma, split)
        (more [] text (c ∷ text) (split b',' text) refl (ap (λ d. d ∷ text) same)
          (split-Parts text))
  | inr other ↦
      rw (other, split) (put_front-Parts c text (split b',' text) other (split-Parts text))
]

split_once-none : (b : ℕ) (text : List ℕ) → split_once b text ≡ none → Lacks b text
unfolding split_once
split_once-none b [] h = refl
split_once-none b (c ∷ text) h = elim (Bool-cases (c == b)) [
  | inl here ↦ absurd (let h' = rw (here, split_once) at h in cc)
  | inr other ↦ elim (Option-cases (split_once b text)) [
    | inl gone ↦ let rest = split_once-none b text gone in ground arith
    | inr (p, there) ↦
        absurd (let h' = rw (other, split_once) at h in let h'' = rw there at h' in cc)
  ]
]

split_once-some :
    (b : ℕ) (text : List ℕ) (name rest : List ℕ)
    → split_once b text ≡ some (name, rest)
    → (text ≡ name ++ (b ∷ rest)) × Lacks b name
unfolding split_once
split_once-some b [] name rest h = absurd cc
split_once-some b (c ∷ text) name rest h = elim (Bool-cases (c == b)) [
  | inl here ↦
      let h' : some ([], text) ≡ some (name, rest) = rw (here, split_once) at h in
      let n : [] ≡ name = cc in
      let r : text ≡ rest = cc in
      let same : c ≡ b = ground arith in
      (rw (← n, ← r) (ap (λ d. d ∷ text) same), subst (Lacks b) n refl)
  | inr other ↦ elim (Option-cases (split_once b text)) [
    | inl gone ↦ absurd (let h' = rw (other, split_once) at h in let h'' = rw gone at h' in cc)
    | inr ((front, back), there) ↦
        let h' = rw (other, split_once) at h in
        let h'' : some (c ∷ front, back) ≡ some (name, rest) = rw there at h' in
        let n : c ∷ front ≡ name = cc in
        let r : back ≡ rest = cc in
        let (whole, clean) = split_once-some b text front back there in
        let lacks : Lacks b (c ∷ front) = ground (arith, clean) in
        (
          ap (λ t. c ∷ t) whole ∙ ap (λ x. x ++ (b ∷ back)) n ∙ ap (λ y. name ++ (b ∷ y)) r,
          subst (Lacks b) n lacks,
        )
  ]
]

pub Cut-split_once :
    (text : List ℕ)
    → ((split_once b';' text ≡ none) × Cut text text none)
      ⊎ ((name : List ℕ) × (rest : List ℕ) × (split_once b';' text ≡ some (name, rest))
          × Cut text name (some rest))
Cut-split_once text = elim (Option-cases (split_once b';' text)) [
  | inl gone ↦ inl (gone, uncut (split_once-none b';' text gone))
  | inr ((name, rest), there) ↦
      let (whole, clean) = split_once-some b';' text name rest there in
      inr (name, rest, there, cut name rest whole clean)
]

pub strip_prefix-two :
    (a b : ℕ) (text value : List ℕ)
    → strip_prefix (a ∷ b ∷ []) text ≡ some value
    → text ≡ a ∷ b ∷ value
unfolding strip_prefix
strip_prefix-two a b [] value h = absurd cc
strip_prefix-two a b (c ∷ []) value h = ground (arith, h)
strip_prefix-two a b (c ∷ d ∷ text) value h = ground (arith, h)

pub two-strip_prefix :
    (a b : ℕ) (value : List ℕ) → strip_prefix (a ∷ b ∷ []) (a ∷ b ∷ value) ≡ some value
unfolding strip_prefix
two-strip_prefix a b value = ground arith
