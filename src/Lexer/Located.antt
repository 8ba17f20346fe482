-- ===== src/Lexer/Located.antt =====
-- config/lexer.rs: every token stands where it says.
use raddy.Base.{
  ℕ, zero, suc, ◌%◌, ◌^◌, ◌<◌, ◌≡◌, refl, sym, ap, ◌∙◌, List, [], ◌∷◌, ◌++◌, Option, none, some,
  length, length-append, append_assoc, All, arith,
}
use raddy.Base.Map.{map_option}
use raddy.Lexer.{Token, Round, round, push, lex_from, lex}
use raddy.Lexer.Places.{advance, Located, Covers, nothing, gap, next_token, advance-append}
use raddy.Lexer.Rounds.{Takes, round-Takes}

pushed-Located :
    (input before : List ℕ) (c : ℕ) (text : List ℕ) (line col : ℕ) (r : Round)
    (pushed : Option Token) (tokens : List Token)
    → r.pushed ≡ pushed
    → input ≡ before ++ (c ∷ text)
    → advance before (1, 1) ≡ (line, col)
    → Takes c text line col r
    → All (Located input) tokens
    → All (Located input) (push pushed tokens)
pushed-Located input before c text line col r none tokens same split here v rest = rest
pushed-Located input before c text line col r (some t) tokens same split here v rest =
    let (body, at_line, at_col, proper) = v.token t same in
    (
      record {
        before = before;
        after = r.left;
        whole =
            split
            ∙ ap (λ x. before ++ x) (sym v.whole)
            ∙ ap (λ x. before ++ (x ++ r.left)) (sym body);
        line_is = at_line ∙ ap (λ p. p.0 % 2 ^ 32) (sym here);
        col_is = at_col ∙ ap (λ p. p.1 % 2 ^ 32) (sym here);
        proper = proper;
      },
      rest,
    )

pushed-Covers :
    (c : ℕ) (text : List ℕ) (line col : ℕ) (r : Round) (pushed : Option Token) (tokens : List Token)
    → r.pushed ≡ pushed
    → Takes c text line col r
    → Covers r.left tokens
    → Covers (c ∷ text) (push pushed tokens)
pushed-Covers c text line col r none tokens same v rest =
    gap v.taken r.left (c ∷ text) tokens (v.skipped same) v.whole rest
pushed-Covers c text line col r (some t) tokens same v rest =
    next_token t r.left (c ∷ text) tokens (ap (λ x. x ++ r.left) (v.token t same).0 ∙ v.whole) rest

lex_from-Located :
    (fuel : ℕ) (input before text : List ℕ) (line col : ℕ)
    → length text < fuel
    → input ≡ before ++ text
    → advance before (1, 1) ≡ (line, col)
    → (tokens : List Token) × (lex_from fuel text (line % 2 ^ 32) (col % 2 ^ 32) ≡ some tokens)
      × All (Located input) tokens
      × Covers text tokens
unfolding lex_from
lex_from-Located zero input before text line col enough split here = absurd (omega arith)
lex_from-Located (suc fuel) input before [] line col enough split here = ([], refl, tt, nothing)
lex_from-Located (suc fuel) input before (c ∷ text) line col enough split here =
    let r = round c text (line % 2 ^ 32) (col % 2 ^ 32) in
    let v = round-Takes c text line col in
    let (line', col') = advance v.taken (line, col) in
    let (tokens, lexed, all, covers) =
      lex_from-Located fuel input (before ++ v.taken) r.left line' col'
        (omega (arith, ap length v.whole, length-append v.taken r.left, v.some_taken))
        (split ∙ ap (λ x. before ++ x) (sym v.whole) ∙ sym (append_assoc before v.taken r.left))
        (advance-append before v.taken (1, 1) ∙ ap (advance v.taken) here) in
    let moved =
      ap (λ l. lex_from fuel r.left l r.col) v.line_moves
      ∙ ap (lex_from fuel r.left (line' % 2 ^ 32)) v.col_moves in
    (
      push r.pushed tokens,
      ap (map_option (push r.pushed)) (moved ∙ lexed),
      pushed-Located input before c text line col r r.pushed tokens refl split here v all,
      pushed-Covers c text line col r r.pushed tokens refl v covers,
    )

-- On every input the lexer ends and gives its tokens, with line and column as numbers that wrap
-- at 2^32. The input is the texts of the tokens in their order, with nothing between them but
-- white space other than newlines, and comments from a `#` to the end of the line. Each token is
-- a part of the input, and its line and column are those where it stands there, counted from one,
-- modulo 2^32. A word, a placeholder included, is never empty and has no white space.
pub lex-Located :
    (input : List ℕ)
    → (tokens : List Token) × (lex input ≡ some tokens)
      × All (Located input) tokens
      × Covers input tokens
unfolding lex advance
lex-Located input = lex_from-Located (suc (length input)) input [] input 1 1 (omega arith) refl refl
