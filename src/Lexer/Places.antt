-- ===== src/Lexer/Places.antt =====
-- config/lexer.rs: where a token stands, and what makes it proper.
use raddy.Base.{
  ℕ, ◌+◌, ◌%◌, ◌^◌, ◌≡◌, ◌≢◌, refl, ap, ◌∙◌, List, [], ◌∷◌, ◌++◌, true, false, length, ◌==◌, any,
  arith, if◌then◌else◌,
}
use raddy.Base.Ascii.{is_white}
use raddy.Config.Wildcard.{is_empty}
use raddy.Lexer.{TokenKind, word, l_brace, r_brace, newline, Token}

-- The line and the column behind a text, from those in front of it.
unfoldable pub advance : List ℕ → ℕ × ℕ → ℕ × ℕ
advance [] p = p
advance (c ∷ text) (line, col) = advance text (if c == 10 then (line + 1, 1) else (line, col + 1))

abbrev pub text_of : TokenKind → List ℕ
text_of (word text) = text
text_of l_brace = b'{' ∷ []
text_of r_brace = b'}' ∷ []
text_of newline = 10 ∷ []

-- A word is not empty and has no white space.
abbrev pub IsProper : TokenKind → Type 0
IsProper (word text) = (is_empty text ≡ false) × (any is_white text ≡ false)
IsProper _ = Unit {0}

-- The token is a part of the input, at its line and column, modulo 2^32.
pub record Located (input : List ℕ) (t : Token) : Type 0 where
  pub before : List ℕ
  pub after : List ℕ
  pub whole : input ≡ before ++ (text_of t.kind ++ after)
  pub line_is : t.line ≡ (advance before (1, 1)).0 % 2 ^ 32
  pub col_is : t.col ≡ (advance before (1, 1)).1 % 2 ^ 32
  pub proper : IsProper t.kind

-- A text begins a new line, or ends.
abbrev pub IsLineEnd : List ℕ → Type 0
IsLineEnd [] = Unit {0}
IsLineEnd (c ∷ text) = c ≡ 10

-- What stands between tokens: a white space but a newline, or a comment up to the end of its line.
pub data IsGap : List ℕ → List ℕ → Type 0 where
  white : (c : ℕ) (rest : List ℕ) → is_white c ≡ true → c ≢ 10 → IsGap (c ∷ []) rest
  comment :
      (body rest : List ℕ)
      → any (λ c. c == 10) body ≡ false
      → IsLineEnd rest
      → IsGap (b'#' ∷ body) rest

-- The input is its tokens, in order, with gaps between them.
pub data Covers : List ℕ → List Token → Type 0 where
  nothing : Covers [] []
  gap :
      (taken rest input : List ℕ) (tokens : List Token)
      → IsGap taken rest
      → taken ++ rest ≡ input
      → Covers rest tokens
      → Covers input tokens
  next_token :
      (t : Token) (rest input : List ℕ) (tokens : List Token)
      → text_of t.kind ++ rest ≡ input
      → Covers rest tokens
      → Covers input (t ∷ tokens)

pub advance-append : (a b : List ℕ) (p : ℕ × ℕ) → advance (a ++ b) p ≡ advance b (advance a p)
unfolding advance
advance-append [] b p = refl
advance-append (c ∷ a) b (line, col) =
    advance-append a b (if c == 10 then (line + 1, 1) else (line, col + 1))

pub advance-plain :
    (a : List ℕ) (line col : ℕ)
    → any (λ c. c == 10) a ≡ false
    → advance a (line, col) ≡ (line, col + length a)
unfolding advance
advance-plain [] line col h = ap (λ k. (line, k)) (omega arith)
advance-plain (c ∷ a) line col h =
    let other : (c == 10) ≡ false = ground arith in
    let rest : any (λ d. d == 10) a ≡ false = ground arith in
    rw (other, advance) (advance-plain a line (col + 1) rest ∙ ap (λ k. (line, k)) (omega arith))

pub white-newline : (a : List ℕ) → any is_white a ≡ false → any (λ c. c == 10) a ≡ false
white-newline [] h = refl
white-newline (c ∷ a) h =
    let rest = white-newline a (ground arith) in
    let here : is_white c ≡ false = ground arith in ground arith
