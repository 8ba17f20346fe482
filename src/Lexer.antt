-- ===== src/Lexer.antt =====
-- config/lexer.rs: the tokens of a configuration file. A text is a list of code points; lines and columns
-- wrap at 2^32, as `u32` does without overflow checks. `none` is a loop that runs out of fuel.
pub mod Spans
pub mod Places
pub mod Rounds
pub mod Located
mod Tests
use raddy.Base.{
  ℕ, zero, suc, ◌+◌, ◌%◌, ◌^◌, ◌∙◌, List, [], ◌∷◌, ◌++◌, Option, none, some, Bool, true, false, not,
  ◌&&◌, ◌||◌, length, ◌==◌, if◌then◌else◌, leb,
}
use raddy.Base.Map.{map_option}
use raddy.Base.Ascii.{is_white}

pub data TokenKind : Type 0 where
  word : (text : List ℕ) → TokenKind
  l_brace r_brace newline : TokenKind

pub record Token : Type 0 where
  pub kind : TokenKind
  pub line : ℕ
  pub col : ℕ

-- What a loop over `peek` takes while a test holds, and what it leaves.
unfoldable pub take_while : (ℕ → Bool) → List ℕ → List ℕ
take_while p [] = []
take_while p (c ∷ text) = if p c then c ∷ take_while p text else []

unfoldable pub drop_while : (ℕ → Bool) → List ℕ → List ℕ
drop_while p [] = []
drop_while p (c ∷ text) = elim (p c) [ true ↦ drop_while p text | false ↦ c ∷ text ]

-- The lookahead from just past a `{`.
unfoldable pub is_placeholder : List ℕ → Bool
is_placeholder [] = false
is_placeholder (c ∷ text) = elim (c == b'}') [
  | true ↦ true
  | false ↦ if is_white c || c == b'{' then false else is_placeholder text
]

-- A placeholder behind its `{`: up to its `}`, and what is left.
unfoldable pub placeholder : List ℕ → List ℕ
placeholder [] = []
placeholder (c ∷ text) = if c == b'}' then c ∷ [] else c ∷ placeholder text

unfoldable pub behind_placeholder : List ℕ → List ℕ
behind_placeholder [] = []
behind_placeholder (c ∷ text) = elim (c == b'}') [ true ↦ text | false ↦ behind_placeholder text ]

abbrev pub in_comment : ℕ → Bool
in_comment c = not (c == 10)

abbrev pub in_word : ℕ → Bool
in_word c = not (is_white c || (c == b'{' || (c == b'}' || c == b'#')))

-- One round of the loop: the token that it pushes, and where it leaves the cursor.
pub record Round : Type 0 where
  pub pushed : Option Token
  pub left : List ℕ
  pub line : ℕ
  pub col : ℕ

unfoldable pub brace_round : List ℕ → ℕ → ℕ → Round
brace_round text line col =
    if is_placeholder text
    then record {
      pushed = some (record { kind = word (b'{' ∷ placeholder text); line = line; col = col });
      left = behind_placeholder text;
      line = line;
      col = (col + 1 + length (placeholder text)) % 2 ^ 32;
    }
    else record {
      pushed = some (record { kind = l_brace; line = line; col = col });
      left = text;
      line = line;
      col = (col + 1) % 2 ^ 32;
    }

-- The arms for what begins with `c`.
unfoldable pub round : ℕ → List ℕ → ℕ → ℕ → Round
round c text line col =
    if c == 10
    then record {
      pushed = some (record { kind = newline; line = line; col = col });
      left = text;
      line = (line + 1) % 2 ^ 32;
      col = 1;
    }
    else if is_white c
    then record { pushed = none; left = text; line = line; col = (col + 1) % 2 ^ 32 }
    else if c == b'{'
    then brace_round text line col
    else if c == b'}'
    then record {
      pushed = some (record { kind = r_brace; line = line; col = col });
      left = text;
      line = line;
      col = (col + 1) % 2 ^ 32;
    }
    else if c == b'#'
    then record {
      pushed = none;
      left = drop_while in_comment (c ∷ text);
      line = line;
      col = (col + length (take_while in_comment (c ∷ text))) % 2 ^ 32;
    }
    else record {
      pushed =
          some (record { kind = word (take_while in_word (c ∷ text)); line = line; col = col });
      left = drop_while in_word (c ∷ text);
      line = line;
      col = (col + length (take_while in_word (c ∷ text))) % 2 ^ 32;
    }

abbrev pub push : Option Token → List Token → List Token
push none tokens = tokens
push (some t) tokens = t ∷ tokens

unfoldable pub lex_from : ℕ → List ℕ → ℕ → ℕ → Option (List Token)
lex_from zero text line col = none
lex_from (suc fuel) [] line col = some []
lex_from (suc fuel) (c ∷ text) line col =
    let r = round c text line col in map_option (push r.pushed) (lex_from fuel r.left r.line r.col)

unfoldable pub lex : List ℕ → Option (List Token)
unfolding lex_from
lex input = lex_from (suc (length input)) input 1 1
