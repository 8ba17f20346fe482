-- ===== src/Parser/Imports.antt =====
-- config/parser.rs: snippets and imports, and the whole of `parse`. The environment and the file system
-- are parameters.
pub mod Bounds
pub mod Tests
pub mod Total
use raddy.Base.{
  ℕ, zero, suc, ◌+◌, ◌-◌, List, [], ◌∷◌, ◌++◌, Option, none, some, Bool, true, false, ◌&&◌, length,
  drop, take, any, leb, ◌==◌, if◌then◌else◌,
}
use raddy.Base.Map.{map_option}
use raddy.Config.Source.{Raddexfile}
use raddy.Config.Wildcard.{strip_prefix, strip_suffix, text_eq, is_empty}
use raddy.Dns.{find}
use raddy.Lexer.{Token, TokenKind, word, l_brace, r_brace, newline, lex}
use raddy.Parser.{ConfigError, Ended, done, failed, out_of_fuel}
use raddy.Parser.Environment.{expand_env_tokens, word_of}
use raddy.Parser.Files.{max_block_depth, parse_tokens}
use raddy.Parser.Sites.{Std}
use raddy.Values.{Text, codes, is, Result, ok, err, ◌>>=◌, ◌>>◌, reject_if}

abbrev pub max_import_depth : ℕ
max_import_depth = 32

abbrev pub non_empty : Text → Option Text
non_empty [] = none
non_empty (c ∷ name) = some (c ∷ name)

abbrev pub without_close : Option Text → Option Text
without_close none = none
without_close (some rest) = elim (strip_suffix (codes ")") rest) [
  | some name ↦ non_empty name
  | none ↦ none
]

unfoldable pub strip_snippet_name : Text → Option Text
unfolding strip_prefix strip_suffix
strip_snippet_name token = without_close (strip_prefix (codes "(") token)

-- The tokens behind a `{`, up to the `}` that closes it, and what is left behind that.
abbrev pub captured : Token → Option (List Token × List Token) → Option (List Token × List Token)
captured t none = none
captured t (some (content, behind)) = some (t ∷ content, behind)

unfoldable pub capture_from : ℕ → List Token → Option (List Token × List Token)
capture_from depth [] = none
capture_from zero (t ∷ tokens) = none
capture_from (suc depth) (t ∷ tokens) = elim t.kind [
  | l_brace ↦ captured t (capture_from (suc (suc depth)) tokens)
  | r_brace ↦ elim depth [
    | zero ↦ some ([], tokens)
    | suc d ↦ captured t (capture_from (suc d) tokens)
  ]
  | word w ↦ captured t (capture_from (suc depth) tokens)
  | newline ↦ captured t (capture_from (suc depth) tokens)
]

-- `capture_block` on the tokens behind the `{`; `none` is a block that is not closed.
unfoldable pub capture_block : List Token → Option (List Token × List Token)
unfolding capture_from
capture_block behind = capture_from 1 behind

-- The `}` behind the content of a block.
abbrev pub closing_brace : List Token → List Token → List Token
closing_brace tokens content = take 1 (drop (length content) tokens)

-- The snippets, the last defined first.
abbrev pub Snippets : Type 0
Snippets = List (Text × List Token)

abbrev pub snippet : Text → Snippets → Option (List Token)
snippet name snippets = map_option (λ s. s.1) (find (λ s. text_eq s.0 name) snippets)

-- What is spliced and the snippets that are known then, a message, or a run out of fuel.
pub data Expanded : Type 0 where
  spliced : (tokens : List Token) (snippets : Snippets) → Expanded
  refused : (message : Text) → Expanded
  spent : Expanded

abbrev pub then_expand : Expanded → (List Token → Snippets → Expanded) → Expanded
then_expand (spliced tokens snippets) f = f tokens snippets
then_expand (refused message) f = refused message
then_expand spent f = spent

abbrev pub in_front : List Token → Expanded → Expanded
in_front front (spliced tokens snippets) = spliced (front ++ tokens) snippets
in_front front (refused message) = refused message
in_front front spent = spent

-- The words that a statement begins with, and what is behind them.
unfoldable pub leading_words : List Token → List (Text × Token) × List Token
leading_words [] = ([], [])
leading_words (t ∷ tokens) = elim (word_of t.kind) [
  | some w ↦ let rest = leading_words tokens in ((w, t) ∷ rest.0, rest.1)
  | none ↦ ([], t ∷ tokens)
]

abbrev pub behind_open : List Token → Option (List Token)
behind_open [] = none
behind_open (t ∷ tokens) = elim t.kind [
  | l_brace ↦ some tokens
  | r_brace ↦ none
  | newline ↦ none
  | word w ↦ none
]

-- A definition of a snippet: its name, its tokens, and what is behind it. Of a block that is not closed only
-- the `{` is taken.
abbrev pub or_unclosed : List Token → Option (List Token × List Token) → List Token × List Token
or_unclosed behind none = ([], behind)
or_unclosed behind (some block) = block

abbrev pub defined : Option Text → Option (List Token) → Option (Text × List Token × List Token)
defined (some name) (some behind) =
    let block = or_unclosed behind (capture_block behind) in some (name, block.0, block.1)
defined _ _ = none

unfoldable pub definition :
    Bool → List (Text × Token) → List Token → Option (Text × List Token × List Token)
unfolding strip_snippet_name capture_block
definition true ((w, t) ∷ []) rest = defined (strip_snippet_name w) (behind_open rest)
definition top_level words rest = none

abbrev pub import_target : List (Text × Token) → Option Text
import_target ((first, t) ∷ (target, u) ∷ []) = if is "import" first then some target else none
import_target words = none

-- `read` is `read_imported`; `import_file` expands the text of a file.
module _ (read : Text → Text → Result (Text × Text)) (file : Text) (stack : List Text)
    (import_file : Text → Text → Snippets → Expanded) where
  abbrev pub checked_file : Snippets → Result (Text × Text) → Expanded
  checked_file snippets (err message) = refused message
  checked_file snippets (ok (path, text)) =
      if any (text_eq path) stack
      then refused (codes "import cycle involving " ++ path)
      else import_file path text snippets

  abbrev pub splice : Text → Snippets → Option (List Token) → Expanded
  splice target snippets (some tokens) = spliced tokens snippets
  splice target snippets none =
      if leb max_import_depth (length stack)
      then refused (codes "import nesting exceeds 32 levels")
      else checked_file snippets (read file target)

  abbrev pub word_tokens : List (Text × Token) → List Token
  word_tokens [] = []
  word_tokens ((w, t) ∷ words) = t ∷ word_tokens words

  abbrev pub import_or_words : List (Text × Token) → Snippets → Option Text → Expanded
  import_or_words words snippets none = spliced (word_tokens words) snippets
  import_or_words words snippets (some target) = splice target snippets (snippet target snippets)

  unfoldable pub expand_loop : ℕ → Bool → ℕ → Snippets → List Token → Expanded
  unfolding leading_words definition find text_eq capture_block
  expand_loop zero top_level depth snippets tokens = spent
  expand_loop (suc fuel) top_level depth snippets [] = spliced [] snippets
  expand_loop (suc fuel) top_level depth snippets (t ∷ tokens) = elim t.kind [
    | newline ↦ in_front (t ∷ []) (expand_loop fuel top_level depth snippets tokens)
    | r_brace ↦ in_front (t ∷ []) (expand_loop fuel top_level depth snippets tokens)
    | l_brace ↦
        if leb max_block_depth depth
        then refused (codes "block nesting exceeds 100 levels")
        else (elim (capture_block tokens) [
          | none ↦ in_front (t ∷ []) (expand_loop fuel top_level depth snippets tokens)
          | some (content, behind) ↦
              then_expand (expand_loop fuel false (depth + 1) snippets content) (λ inside known.
                in_front (t ∷ (inside ++ closing_brace tokens content))
                  (expand_loop fuel top_level depth known behind))
        ])
    | word w ↦
        (let (words, rest) = leading_words (t ∷ tokens) in
          elim (definition top_level words rest) [
            | some (name, content, behind) ↦
                expand_loop fuel top_level depth ((name, content) ∷ snippets) behind
            | none ↦
                then_expand (import_or_words words snippets (import_target words))
                  (λ front known. in_front front (expand_loop fuel top_level depth known rest))
          ])
  ]

-- An error in an imported file, behind its path.
abbrev pub in_file : Text → Result (List Token) → (List Token → Expanded) → Expanded
in_file path (err message) f = refused (path ++ codes ": " ++ message)
in_file path (ok tokens) f = f tokens

abbrev pub lexed : Option (List Token) → (List Token → Expanded) → Expanded
lexed none f = spent
lexed (some tokens) f = f tokens

module _ (env : Text → Option Text) (read : Text → Text → Result (Text × Text)) where
  -- `levels` are the imports that may still be nested: those up to `max_import_depth` that the stack leaves.
  unfoldable pub expand_imports : ℕ → Text → List Text → Bool → ℕ → Snippets → List Token → Expanded
  unfolding expand_loop expand_env_tokens lex
  expand_imports zero file stack top_level depth snippets tokens =
      expand_loop read file stack (λ path text known. spent) (suc (length tokens)) top_level depth
        snippets tokens
  expand_imports (suc levels) file stack top_level depth snippets tokens =
      expand_loop read file stack
        (λ path text known. lexed (lex text) (λ raw.
          in_file path (expand_env_tokens env raw)
            (λ imported. expand_imports levels path (path ∷ stack) true 0 known imported)))
        (suc (length tokens)) top_level depth snippets tokens

  abbrev pub at_start : Text → Text → ConfigError
  at_start file message = record { file = file; line = 1; col = 1; message = message }

  abbrev pub parse_expanded : Std → Text → Expanded → Ended Raddexfile
  parse_expanded std file (spliced tokens snippets) = parse_tokens std file tokens
  parse_expanded std file (refused message) = failed (at_start file message)
  parse_expanded std file spent = out_of_fuel

  abbrev pub parse_environment : Std → Text → Result (List Token) → Ended Raddexfile
  parse_environment std file (err message) = failed (at_start file message)
  parse_environment std file (ok tokens) =
      parse_expanded std file (expand_imports max_import_depth file [] true 0 [] tokens)

  abbrev pub parse_lexed : Std → Text → Option (List Token) → Ended Raddexfile
  parse_lexed std file none = out_of_fuel
  parse_lexed std file (some tokens) = parse_environment std file (expand_env_tokens env tokens)

  unfoldable pub parse : Std → Text → Text → Ended Raddexfile
  unfolding lex expand_env_tokens expand_imports parse_tokens
  parse std file input = parse_lexed std file (lex input)
