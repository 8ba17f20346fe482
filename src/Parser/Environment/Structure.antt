-- ===== src/Parser/Environment/Structure.antt =====
-- config/parser.rs: an environment variable's value stays inside of a word.
use raddy.Base.{
  ℕ, zero, suc, List, [], ◌∷◌, Option, none, some, Bool, true, false, ◌&&◌, length, drop, is_some,
  ◌≡◌, refl, sym, ap, ◌∙◌, subst, arith, Bool-cases, inl, inr,
}
use raddy.Lexer.{Token, word}
use raddy.Parser.Environment.{
  word_of, adjacent, left_run, continues, end_of, right_run, run_value, run_of, is_reference,
  reversed, expand_from_token, expand_env_tokens,
}
use raddy.Values.Results.{>>=-ok, ok_inj}
use raddy.Values.{Text, ok}

-- The braces and the ends of lines, where they stand.
unfoldable pub structure : List Token → List Token
structure [] = []
structure (t ∷ ts) = elim (word_of t.kind) [ some w ↦ structure ts | none ↦ t ∷ structure ts ]

abbrev is_word : Token → Bool
is_word t = is_some (word_of t.kind)

structure-word :
    (t : Token) (ts : List Token) → is_word t ≡ true → structure (t ∷ ts) ≡ structure ts
unfolding structure
structure-word t ts h = ground arith

structure-cons :
    (t : Token) (xs ys : List Token)
    → structure xs ≡ structure ys
    → structure (t ∷ xs) ≡ structure (t ∷ ys)
unfolding structure
structure-cons t xs ys h = ground arith

structure-reversed :
    (out xs ys : List Token)
    → structure xs ≡ structure ys
    → structure (reversed out xs) ≡ structure (reversed out ys)
structure-reversed [] xs ys h = h
structure-reversed (t ∷ out) xs ys h =
    structure-reversed out (t ∷ xs) (t ∷ ys) (structure-cons t xs ys h)

abbrev words_first : ℕ → List Token → Bool
words_first zero out = true
words_first (suc k) [] = true
words_first (suc k) (t ∷ out) = is_word t && words_first k out

structure-drop :
    (k : ℕ) (out xs : List Token)
    → words_first k out ≡ true
    → structure (reversed (drop k out) xs) ≡ structure (reversed out xs)
structure-drop zero out xs h = refl
structure-drop (suc k) [] xs h = refl
structure-drop (suc k) (t ∷ out) xs h =
    let rest = structure-drop k out xs (ground arith) in
    let same = structure-word t xs (ground arith) in
    rest ∙ structure-reversed out xs (t ∷ xs) (sym same)

-- What the loop keeps: the fragments on the left of a token were pushed as they are, and the tokens that are
-- skipped are the rest of a run.
unfoldable Inv : ℕ → List Token → List Token → List Token → Type 0
Inv zero seen out [] = Unit
Inv zero seen out (cur ∷ tokens) = words_first (length (left_run cur seen)) out ≡ true
Inv (suc skip) seen out tokens =
    (prev : Token) × (is_word prev ≡ true)
    × (suc skip ≡ length (right_run prev.line (end_of prev) tokens))

adjacent-continues :
    (prev next : Token)
    → is_word prev ≡ true
    → continues (word_of next.kind) next prev.line (end_of prev) ≡ false
    → adjacent prev next ≡ false
unfolding adjacent end_of
adjacent-continues prev next h c = ground arith

run-Inv :
    (token : Token) (seen out tokens : List Token)
    → is_word token ≡ true
    → Inv (length (right_run token.line (end_of token) tokens)) (token ∷ seen) out tokens
unfolding Inv right_run left_run
run-Inv token seen out [] h = tt
run-Inv token seen out (next ∷ tokens) h =
    elim (Bool-cases (continues (word_of next.kind) next token.line (end_of token))) [
      | inl e ↦
          let longer : length (right_run token.line (end_of token) (next ∷ tokens))
              ≡ suc (length (right_run token.line (end_of next) tokens)) =
            rw e refl in
          subst (λ k. Inv k (token ∷ seen) out (next ∷ tokens)) (sym longer) (token, h, sym longer)
      | inr e ↦
          let over : length (right_run token.line (end_of token) (next ∷ tokens)) ≡ 0 = rw e refl in
          let apart = adjacent-continues token next h e in
          subst (λ k. Inv k (token ∷ seen) out (next ∷ tokens)) (sym over) (rw apart refl)
    ]

continues-word :
    (t : Token) (line end : ℕ)
    → continues (word_of t.kind) t line end ≡ true
    → (is_word t ≡ true) × (t.line ≡ line)
continues-word t line end h = ground arith

start-Inv : (tokens : List Token) → Inv zero [] [] tokens
unfolding Inv left_run
start-Inv [] = tt
start-Inv (t ∷ tokens) = refl

-- A skipped token is a word, and the next of the run.
skip-Inv :
    (skip : ℕ) (token : Token) (seen out tokens : List Token)
    → Inv (suc skip) seen out (token ∷ tokens)
    → (is_word token ≡ true) × Inv skip (token ∷ seen) out tokens
unfolding Inv right_run
skip-Inv skip token seen out tokens (prev, h, more) =
    elim (Bool-cases (continues (word_of token.kind) token prev.line (end_of prev))) [
      | inl e ↦
          let longer : length (right_run prev.line (end_of prev) (token ∷ tokens))
              ≡ suc (length (right_run prev.line (end_of token) tokens)) =
            rw e refl in
          let (here, line) = continues-word token prev.line (end_of prev) e in
          let same : skip ≡ length (right_run token.line (end_of token) tokens) =
            rw line (omega arith) in
          (
            here,
            subst (λ k. Inv k (token ∷ seen) out tokens) (sym same)
                (run-Inv token seen out tokens here),
          )
      | inr e ↦
          let over : length (right_run prev.line (end_of prev) (token ∷ tokens)) ≡ 0 = rw e refl in
          absurd (omega arith)
    ]

adjacent-word : (t next : Token) → adjacent t next ≡ true → is_word t ≡ true
unfolding adjacent
adjacent-word t next h = ground arith

-- The word that a run becomes.
abbrev merged : Text → Token → Token
merged value t = record { kind = word value; line = t.line; col = t.col }

structure-merged :
    (value : Text) (token : Token) (out tokens : List Token) (k : ℕ)
    → is_word token ≡ true
    → words_first k out ≡ true
    → structure (reversed (merged value token ∷ drop k out) tokens)
      ≡ structure (reversed out (token ∷ tokens))
structure-merged value token out tokens k h first =
    structure-drop k out (merged value token ∷ tokens) first
    ∙ structure-reversed out (merged value token ∷ tokens) (token ∷ tokens)
        (structure-word (merged value token) tokens refl ∙ sym (structure-word token tokens h))

plain-Inv :
    (token : Token) (seen out tokens : List Token)
    → Inv zero seen out (token ∷ tokens)
    → Inv zero (token ∷ seen) (token ∷ out) tokens
unfolding Inv left_run
plain-Inv token seen out [] h = tt
plain-Inv token seen out (next ∷ tokens) h = elim (Bool-cases (adjacent token next)) [
  | inl e ↦
      let kept : words_first (length (left_run token seen)) out ≡ true = h in
      let here = adjacent-word token next e in rw e (ground arith)
  | inr e ↦ rw e refl
]

module _ (env : Text → Option Text) where
  reference-word : (t : Token) → is_reference (word_of t.kind) ≡ true → is_word t ≡ true
  reference-word t h = ground arith

  expand_from_token-structure :
      (skip : ℕ) (tokens seen out result : List Token)
      → Inv skip seen out tokens
      → expand_from_token env skip seen out tokens ≡ ok result
      → structure result ≡ structure (reversed out tokens)
  unfolding expand_from_token Inv
  expand_from_token-structure skip [] seen out result inv h = ap structure (sym (ok_inj h))
  expand_from_token-structure (suc skip) (token ∷ tokens) seen out result inv h =
      let (here, rest) = skip-Inv skip token seen out tokens inv in
      expand_from_token-structure skip tokens (token ∷ seen) out result rest h
      ∙ structure-reversed out tokens (token ∷ tokens) (sym (structure-word token tokens here))
  expand_from_token-structure zero (token ∷ tokens) seen out result inv h =
      elim (Bool-cases (is_reference (word_of token.kind))) [
        | inl e ↦
            let (value, found, rest) =
              >>=-ok (run_value env (run_of seen token tokens)) _
                (rw (e, expand_from_token) at h) in
            let here = reference-word token e in
            expand_from_token-structure (length (right_run token.line (end_of token) tokens)) tokens
              (token ∷ seen) (merged value token ∷ drop (length (left_run token seen)) out) result
              (run-Inv token seen (merged value token ∷ drop (length (left_run token seen)) out)
                tokens here)
              rest
            ∙ structure-merged value token out tokens (length (left_run token seen)) here inv
        | inr e ↦
            let rest : expand_from_token env zero (token ∷ seen) (token ∷ out) tokens ≡ ok result =
              rw (e, expand_from_token) at h in
            expand_from_token-structure zero tokens (token ∷ seen) (token ∷ out) result
              (plain-Inv token seen out tokens inv) rest
      ]

  -- For any environment, where the expansion of environment variables in tokens succeeds, the
  -- braces and the ends of lines are the same tokens as before, in the same order.
  pub expand_env_tokens-structure :
      (tokens result : List Token)
      → expand_env_tokens env tokens ≡ ok result
      → structure result ≡ structure tokens
  unfolding expand_env_tokens
  expand_env_tokens-structure tokens result h =
      expand_from_token-structure zero tokens [] [] result (start-Inv tokens) h
