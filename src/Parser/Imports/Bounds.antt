-- ===== src/Parser/Imports/Bounds.antt =====
-- config/parser.rs: a captured block and the statement behind a word are shorter than the tokens, so one file's
-- expansion has fuel enough.
use raddy.Base.{
  ℕ, zero, suc, ◌+◌, ◌≤◌, ◌<◌, List, [], ◌∷◌, ◌++◌, Option, none, some, Bool, true, false, length,
  any, leb, ◌≡◌, refl, subst, arith, Bool-cases, Option-cases, inl, inr, ◌⊎◌,
}
use raddy.Config.Wildcard.{text_eq}
use raddy.Lexer.{Token, TokenKind, word, l_brace, r_brace, newline}
use raddy.Parser.Files.{max_block_depth}
use raddy.Parser.Imports.{
  captured, capture_from, capture_block, Snippets, Expanded, spliced, refused, spent, then_expand,
  in_front, leading_words, behind_open, or_unclosed, defined, definition, import_target,
  checked_file, splice, import_or_words, expand_loop, max_import_depth, snippet, closing_brace,
}
use raddy.Values.{Text, Result, ok, err}

TokenKind-cases :
    (k : TokenKind) → (k ≡ l_brace) ⊎ (k ≡ r_brace) ⊎ (k ≡ newline) ⊎ ((w : Text) × (k ≡ word w))
TokenKind-cases l_brace = inl refl
TokenKind-cases r_brace = inr (inl refl)
TokenKind-cases newline = inr (inr (inl refl))
TokenKind-cases (word w) = inr (inr (inr (w, refl)))

-- A block and what is behind it, in fewer than `n` tokens.
abbrev Fits : ℕ → Option (List Token × List Token) → Type 0
Fits n none = Unit
Fits n (some (content, behind)) = length content + length behind < n

Fits-found :
    (n : ℕ) (o : Option (List Token × List Token)) (block : List Token × List Token)
    → o ≡ some block
    → Fits n o
    → length block.0 + length block.1 < n
Fits-found n o block e h = subst (Fits n) e h

captured-Fits :
    (n : ℕ) (t : Token) (o : Option (List Token × List Token))
    → Fits n o
    → Fits (suc n) (captured t o)
captured-Fits n t none h = tt
captured-Fits n t (some (c, b)) h = omega arith

capture_from-Fits : (depth : ℕ) (ts : List Token) → Fits (length ts) (capture_from depth ts)
unfolding capture_from
capture_from-Fits depth [] = tt
capture_from-Fits zero (t ∷ ts) = tt
capture_from-Fits (suc zero) (t ∷ ts) = elim (TokenKind-cases t.kind) [
  | inl e ↦ rw (e, capture_from) (captured-Fits (length ts) t _ (capture_from-Fits 2 ts))
  | inr (inl e) ↦ rw (e, capture_from) (omega arith)
  | inr (inr (inl e)) ↦
      rw (e, capture_from) (captured-Fits (length ts) t _ (capture_from-Fits 1 ts))
  | inr (inr (inr (w, e))) ↦
      rw (e, capture_from) (captured-Fits (length ts) t _ (capture_from-Fits 1 ts))
]
capture_from-Fits (suc (suc d)) (t ∷ ts) = elim (TokenKind-cases t.kind) [
  | inl e ↦
      rw (e, capture_from)
        (captured-Fits (length ts) t _ (capture_from-Fits (suc (suc (suc d))) ts))
  | inr (inl e) ↦
      rw (e, capture_from) (captured-Fits (length ts) t _ (capture_from-Fits (suc d) ts))
  | inr (inr (inl e)) ↦
      rw (e, capture_from) (captured-Fits (length ts) t _ (capture_from-Fits (suc (suc d)) ts))
  | inr (inr (inr (w, e))) ↦
      rw (e, capture_from) (captured-Fits (length ts) t _ (capture_from-Fits (suc (suc d)) ts))
]

capture_block-Fits : (ts : List Token) → Fits (length ts) (capture_block ts)
unfolding capture_block
capture_block-Fits ts = capture_from-Fits 1 ts

length-leading_words : (ts : List Token) → length (leading_words ts).1 ≤ length ts
unfolding leading_words
length-leading_words [] = omega arith
length-leading_words (t ∷ ts) = ground (arith, length-leading_words ts)

-- The statement's words are taken from the tokens.
length-leading_words_lt :
    (t : Token) (ts : List Token) (w : Text)
    → t.kind ≡ word w
    → length (leading_words (t ∷ ts)).1 ≤ length ts
unfolding leading_words
length-leading_words_lt t ts w h = rw h (length-leading_words ts)

abbrev Leaves : ℕ → Option (Text × List Token × List Token) → Type 0
Leaves n none = Unit
Leaves n (some (name, content, behind)) = length behind ≤ n

or_unclosed-length :
    (n : ℕ) (behind : List Token) (o : Option (List Token × List Token))
    → length behind ≤ n
    → Fits (length behind) o
    → length (or_unclosed behind o).1 ≤ n
or_unclosed-length n behind none h f = h
or_unclosed-length n behind (some (c, b)) h f = omega arith

defined-Leaves :
    (n : ℕ) (name : Option Text) (rest : Option (List Token))
    → ((behind : List Token) → rest ≡ some behind → length behind ≤ n)
    → Leaves n (defined name rest)
defined-Leaves n none rest h = tt
defined-Leaves n (some name) none h = tt
defined-Leaves n (some name) (some behind) h =
    or_unclosed-length n behind (capture_block behind) (h behind refl) (capture_block-Fits behind)

behind_open-length :
    (ts behind : List Token) → behind_open ts ≡ some behind → length behind ≤ length ts
behind_open-length [] behind h = absurd cc
behind_open-length (t ∷ ts) behind h = ground arith

definition-Leaves :
    (top_level : Bool) (words : List (Text × Token)) (rest : List Token)
    → Leaves (length rest) (definition top_level words rest)
unfolding definition
definition-Leaves false words rest = tt
definition-Leaves true [] rest = tt
definition-Leaves true ((w, t) ∷ []) rest =
    defined-Leaves (length rest) _ _ (behind_open-length rest)
definition-Leaves true (a ∷ b ∷ words) rest = tt

-- The expansion does not run out of fuel.
abbrev pub Settles : Expanded → Type 0
Settles (spliced tokens snippets) = Unit
Settles (refused message) = Unit
Settles spent = ⊥

in_front-Settles : (front : List Token) (e : Expanded) → Settles e → Settles (in_front front e)
in_front-Settles front (spliced tokens snippets) h = tt
in_front-Settles front (refused message) h = tt
in_front-Settles front spent h = h

then_expand-Settles :
    (e : Expanded) (f : List Token → Snippets → Expanded)
    → Settles e
    → ((tokens : List Token) (snippets : Snippets) → Settles (f tokens snippets))
    → Settles (then_expand e f)
then_expand-Settles (spliced tokens snippets) f h next = next tokens snippets
then_expand-Settles (refused message) f h next = tt
then_expand-Settles spent f h next = h

module _ (read : Text → Text → Result (Text × Text)) (file : Text) (stack : List Text)
    (import_file : Text → Text → Snippets → Expanded)
    (settles : leb max_import_depth (length stack) ≡ false
      → (path text : Text) (known : Snippets) → Settles (import_file path text known)) where
  checked_file-Settles :
      (snippets : Snippets) (r : Result (Text × Text))
      → leb max_import_depth (length stack) ≡ false
      → Settles (checked_file read file stack import_file snippets r)
  checked_file-Settles snippets (err message) h = tt
  checked_file-Settles snippets (ok (path, text)) h = elim (Bool-cases (any (text_eq path) stack)) [
    | inl e ↦ rw e tt
    | inr e ↦ rw e (settles h path text snippets)
  ]

  splice-Settles :
      (target : Text) (snippets : Snippets) (o : Option (List Token))
      → Settles (splice read file stack import_file target snippets o)
  splice-Settles target snippets (some tokens) = tt
  splice-Settles target snippets none = elim (Bool-cases (leb max_import_depth (length stack))) [
    | inl e ↦ rw e tt
    | inr e ↦ rw e (checked_file-Settles snippets (read file target) e)
  ]

  import_or_words-Settles :
      (words : List (Text × Token)) (snippets : Snippets) (o : Option Text)
      → Settles (import_or_words read file stack import_file words snippets o)
  import_or_words-Settles words snippets none = tt
  import_or_words-Settles words snippets (some target) =
      splice-Settles target snippets (snippet target snippets)

  pub expand_loop-Settles :
      (fuel : ℕ) (top_level : Bool) (depth : ℕ) (snippets : Snippets) (tokens : List Token)
      → length tokens < fuel
      → Settles (expand_loop read file stack import_file fuel top_level depth snippets tokens)
  unfolding expand_loop
  expand_loop-Settles zero top_level depth snippets tokens h = absurd (omega arith)
  expand_loop-Settles (suc fuel) top_level depth snippets [] h = tt
  expand_loop-Settles (suc fuel) top_level depth snippets (t ∷ tokens) h =
      elim (TokenKind-cases t.kind) [
        | inl e ↦ elim (Bool-cases (leb max_block_depth depth)) [
          | inl deep ↦ rw (e, expand_loop, deep) tt
          | inr fits ↦ elim (Option-cases (capture_block tokens)) [
            | inl none_here ↦
                rw (e, expand_loop, fits, none_here)
                  (in_front-Settles (t ∷ []) _
                    (expand_loop-Settles fuel top_level depth snippets tokens (omega arith)))
            | inr (block, found) ↦
                rw (e, expand_loop, fits, found)
                  (let fit =
                      Fits-found (length tokens) (capture_block tokens) block found
                        (capture_block-Fits tokens) in
                    then_expand-Settles _ _
                      (expand_loop-Settles fuel false (depth + 1) snippets block.0 (omega arith))
                      (λ inside known.
                        in_front-Settles (t ∷ (inside ++ closing_brace tokens block.0)) _
                          (expand_loop-Settles fuel top_level depth known block.1 (omega arith))))
          ]
        ]
        | inr (inl e) ↦
            rw (e, expand_loop)
              (in_front-Settles (t ∷ []) _
                (expand_loop-Settles fuel top_level depth snippets tokens (omega arith)))
        | inr (inr (inl e)) ↦
            rw (e, expand_loop)
              (in_front-Settles (t ∷ []) _
                (expand_loop-Settles fuel top_level depth snippets tokens (omega arith)))
        | inr (inr (inr (w, e))) ↦
            let words = (leading_words (t ∷ tokens)).0 in
            let rest = (leading_words (t ∷ tokens)).1 in
            let shorter = length-leading_words_lt t tokens w e in
            elim (Option-cases (definition top_level words rest)) [
              | inl none_here ↦
                  rw (e, expand_loop, none_here)
                    (then_expand-Settles _ _
                      (import_or_words-Settles words snippets (import_target words))
                      (λ front known.
                        in_front-Settles front _
                          (expand_loop-Settles fuel top_level depth known rest (omega arith))))
              | inr ((name, content, behind), found) ↦
                  let fewer =
                    subst (Leaves (length rest)) found (definition-Leaves top_level words rest) in
                  rw (e, expand_loop, found)
                    (expand_loop-Settles fuel top_level depth ((name, content) ∷ snippets) behind
                      (omega arith))
            ]
      ]
