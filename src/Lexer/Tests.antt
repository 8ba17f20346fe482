-- ===== src/Lexer/Tests.antt =====
-- config/lexer.rs: the tokens of small inputs.
use raddy.Base.{ℕ, ◌≡◌, refl, List, [], ◌∷◌, some, All}
use raddy.Lexer.{
  Token, word, l_brace, r_brace, newline, lex, lex_from, round, brace_round, take_while, drop_while,
  is_placeholder, placeholder, behind_placeholder,
}
use raddy.Lexer.Places.{Located, Covers}
use raddy.Lexer.Located.{lex-Located}

-- `a {`, a line with `{b}#c`, and `}`.
abbrev input : List ℕ
input = b'a' ∷ 32 ∷ b'{' ∷ 10 ∷ b'{' ∷ b'b' ∷ b'}' ∷ b'#' ∷ b'c' ∷ 10 ∷ b'}' ∷ []

lex_test :
    lex input
    ≡ some (
        record { kind = word (b'a' ∷ []); line = 1; col = 1 }
        ∷ record { kind = l_brace; line = 1; col = 3 }
        ∷ record { kind = newline; line = 1; col = 4 }
        ∷ record { kind = word (b'{' ∷ b'b' ∷ b'}' ∷ []); line = 2; col = 1 }
        ∷ record { kind = newline; line = 2; col = 6 }
        ∷ record { kind = r_brace; line = 3; col = 1 }
        ∷ [])
unfolding lex lex_from round brace_round take_while drop_while is_placeholder placeholder
    behind_placeholder
lex_test = refl

lex-Located_example :
    (tokens : List Token) × (lex input ≡ some tokens)
    × All (Located input) tokens
    × Covers input tokens
lex-Located_example = lex-Located input
