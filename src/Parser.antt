-- ===== src/Parser.antt =====
-- config/parser.rs: the parser's state, its errors and its statements. The cursor is the list of the tokens
-- that are left, and where the last token of the file stands. A loop is on fuel; that each one is given
-- enough is proved.
pub mod Matchers
pub mod Arguments
pub mod Settings
pub mod Health
pub mod Layer4
pub mod Proxy
pub mod Global
pub mod Sites
pub mod Files
pub mod Environment
pub mod Imports
pub mod Safety
pub mod Outcomes
pub mod Yields
mod Tests
use Prim.Native.String.{String}
use raddy.Base.{
  ℕ, zero, suc, ◌+◌, List, [], ◌∷◌, Option, none, some, Bool, true, false, length, if◌then◌else◌,
}
use raddy.Lexer.{Token, TokenKind, word, l_brace, r_brace, newline}
use raddy.Values.{Text, Result, ok, err, reject_if, codes}

-- `ConfigError::Parse`.
pub record ConfigError : Type 0 where
  pub file : Text
  pub line : ℕ
  pub col : ℕ
  pub message : Text

pub record Parser : Type 0 where
  pub file : Text
  pub tokens : List Token
  pub last : ℕ × ℕ
  pub stmt_pos : ℕ × ℕ
  pub depth : ℕ

-- How a method of the parser ends.
pub data Ended (A : Type 0) : Type 0 where
  done : (value : A) (parser : Parser) → Ended A
  failed : (error : ConfigError) → Ended A
  out_of_fuel : Ended A

abbrev pub Method : Type 0 → Type 0
Method A = Parser → Ended A

abbrev pub pure : {A : Type 0} → A → Method A
pure a p = done a p

abbrev pub and_then : {A B : Type 0} → Ended A → (A → Method B) → Ended B
and_then (done a p) f = f a p
and_then (failed e) f = failed e
and_then out_of_fuel f = out_of_fuel

infixl 5 ◌>>=◌ ◌>>◌
abbrev pub ◌>>=◌ : {A B : Type 0} → Method A → (A → Method B) → Method B
◌>>=◌ m f p = and_then (m p) f

abbrev pub ◌>>◌ : {B : Type 0} → Method (Unit {0}) → Method B → Method B
m >> k = m >>= λ _. k

-- `err`: the error stands where the statement begins.
unfoldable pub error_at : Text → Parser → ConfigError
error_at message p = record {
  file = p.file;
  line = p.stmt_pos.0;
  col = p.stmt_pos.1;
  message = message;
}

-- A value, or the message at the statement. A method that only reads the parser, for its errors, is a
-- `Result` here.
unfoldable pub or_fail : {A : Type 0} → Result A → Method A
or_fail (ok a) p = done a p
or_fail (err message) p = failed (error_at message p)

abbrev pub fail : {A : Type 0} → Text → Method A
fail message = or_fail (err message)

abbrev pub refuse_if : Bool → String → Method (Unit {0})
refuse_if refused message = or_fail (reject_if refused (codes message))

-- The parser behind its next token.
abbrev pub at_tokens : Parser → List Token → Parser
at_tokens p tokens = record p { tokens = tokens }

-- `pos`: where the current token stands, or the last one.
abbrev pub position_of : List Token → ℕ × ℕ → ℕ × ℕ
position_of [] last = last
position_of (t ∷ tokens) last = (t.line, t.col)

abbrev pub is_newline : TokenKind → Bool
is_newline newline = true
is_newline _ = false

unfoldable pub skip_newlines : List Token → List Token
skip_newlines [] = []
skip_newlines (t ∷ tokens) = elim (is_newline t.kind) [
  | true ↦ skip_newlines tokens
  | false ↦ t ∷ tokens
]

-- One line: its words, whether a `{` ends it, and the tokens that are left.
pub record Line : Type 0 where
  pub words : List Text
  pub block_open : Bool
  pub left : List Token

abbrev pub add_word : Text → Line → Line
add_word w line = record line { words = w ∷ line.words }

unfoldable pub read_line : List Token → Line
read_line [] = record { words = []; block_open = false; left = [] }
read_line (t ∷ tokens) = elim t.kind [
  | word w ↦ add_word w (read_line tokens)
  | l_brace ↦ record { words = []; block_open = true; left = tokens }
  | newline ↦ record { words = []; block_open = false; left = tokens }
  | r_brace ↦ record { words = []; block_open = false; left = t ∷ tokens }
]

unfoldable pub parse_statement : Method (List Text × Bool)
unfolding skip_newlines read_line
parse_statement p =
    let tokens = skip_newlines p.tokens in
    let line = read_line tokens in
    done (line.words, line.block_open)
      (record p { tokens = line.left; stmt_pos = position_of tokens p.last })

-- What the loop of a block finds before a statement.
pub data Peeked : Type 0 where
  at_end : Peeked
  at_close : (behind : List Token) → Peeked
  at_open : (behind : List Token) → Peeked
  at_other : Peeked

unfoldable pub peek : List Token → Peeked
peek [] = at_end
peek (t ∷ tokens) = elim t.kind [
  | r_brace ↦ at_close tokens
  | l_brace ↦ at_open tokens
  | word w ↦ at_other
  | newline ↦ at_other
]

-- The loop of a block: statements up to its `}`, each with what has been read so far.
module _ {S : Type 0} (eof : Text) (step : S → List Text → Bool → Method S) where
  abbrev pub statement_step : S → List Text × Bool → Method S
  statement_step s ([], nested) = pure s
  statement_step s (name ∷ args, nested) = step s (name ∷ args) nested

  unfoldable pub block_loop : ℕ → S → Method S
  unfolding parse_statement peek
  block_loop zero s p = out_of_fuel
  block_loop (suc fuel) s p = elim (peek p.tokens) [
    | at_close behind ↦ done s (at_tokens p behind)
    | at_end ↦ failed (error_at eof p)
    | at_open behind ↦ (parse_statement >>= statement_step s >>= block_loop fuel) p
    | at_other ↦ (parse_statement >>= statement_step s >>= block_loop fuel) p
  ]

  -- A round takes a token, so that many rounds are enough.
  unfoldable pub block : S → Method S
  unfolding block_loop
  block s p = block_loop (suc (length p.tokens)) s p
