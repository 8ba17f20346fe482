-- ===== src/Parser/Imports/Total.antt =====
-- config/parser.rs: the expansion of imports ends, and so does `parse`.
use raddy.Base.{
  ℕ, zero, suc, ◌+◌, ◌≤◌, List, [], ◌∷◌, Option, Bool, true, length, ◌≡◌, refl, arith, inr, ◌⊎◌,
}
use raddy.Config.Source.{Raddexfile}
use raddy.Lexer.{Token, lex}
use raddy.Lexer.Located.{lex-Located}
use raddy.Parser.{ConfigError, Parser, Ended, done, failed}
use raddy.Parser.Environment.{expand_env_tokens}
use raddy.Parser.Imports.{
  Snippets, Expanded, spliced, refused, spent, in_file, lexed, max_import_depth, expand_imports,
  parse_expanded, parse_environment, parse,
}
use raddy.Parser.Outcomes.{parse_tokens-total}
use raddy.Parser.Sites.{Std}
use raddy.Values.{Text, Result, ok, err}
use raddy.Parser.Imports.Bounds.{Settles, expand_loop-Settles}

in_file-Settles :
    (path : Text) (r : Result (List Token)) (f : List Token → Expanded)
    → ((imported : List Token) → Settles (f imported))
    → Settles (in_file path r f)
in_file-Settles path (err message) f h = tt
in_file-Settles path (ok tokens) f h = h tokens

-- A text has tokens, so what runs on them settles where it does for any tokens.
lexed-Settles :
    (text : Text) (f : List Token → Expanded)
    → ((tokens : List Token) → Settles (f tokens))
    → Settles (lexed (lex text) f)
lexed-Settles text f h = let (tokens, found, _, _) = lex-Located text in rw found (h tokens)

module _ (env : Text → Option Text) (read : Text → Text → Result (Text × Text)) where
  -- The levels that are left and the files on the stack are the deepest nesting.
  expand_imports-Settles :
      (levels : ℕ) (file : Text) (stack : List Text) (top_level : Bool) (depth : ℕ)
      (snippets : Snippets) (tokens : List Token)
      → max_import_depth ≤ levels + length stack
      → Settles (expand_imports env read levels file stack top_level depth snippets tokens)
  unfolding expand_imports
  expand_imports-Settles zero file stack top_level depth snippets tokens h =
      expand_loop-Settles read file stack (λ path text known. spent)
        (λ shallow path text known. ground (arith, shallow, h)) (suc (length tokens)) top_level
        depth snippets tokens (omega arith)
  expand_imports-Settles (suc levels) file stack top_level depth snippets tokens h =
      expand_loop-Settles read file stack _
        (λ shallow path text known. lexed-Settles text _ (λ raw.
          in_file-Settles path (expand_env_tokens env raw) _ (λ imported.
            expand_imports-Settles levels path (path ∷ stack) true 0 known imported (omega arith))))
        (suc (length tokens)) top_level depth snippets tokens (omega arith)

  abbrev Concludes : Ended Raddexfile → Type 0
  Concludes e =
      ((r : Raddexfile) × (p : Parser) × (e ≡ done r p)) ⊎ ((x : ConfigError) × (e ≡ failed x))

  parse_expanded-Concludes :
      (std : Std) (file : Text) (e : Expanded)
      → Settles e
      → Concludes (parse_expanded env read std file e)
  parse_expanded-Concludes std file (spliced tokens snippets) h = parse_tokens-total std file tokens
  parse_expanded-Concludes std file (refused message) h = inr (_, refl)
  parse_expanded-Concludes std file spent h = absurd h

  parse_environment-Concludes :
      (std : Std) (file : Text) (r : Result (List Token))
      → Concludes (parse_environment env read std file r)
  parse_environment-Concludes std file (err message) = inr (_, refl)
  parse_environment-Concludes std file (ok tokens) =
      parse_expanded-Concludes std file _
        (expand_imports-Settles max_import_depth file [] true 0 [] tokens (omega arith))

  -- For any text, environment and file system, the parsing of a configuration ends in a file or
  -- in an error: neither the lexer, nor the expansion of snippets and of imports up to the
  -- deepest nesting, nor the grammar runs out of its fuel.
  pub parse-total :
      (std : Std) (file input : Text)
      → ((r : Raddexfile) × (p : Parser) × (parse env read std file input ≡ done r p))
        ⊎ ((e : ConfigError) × (parse env read std file input ≡ failed e))
  unfolding parse
  parse-total std file input =
      let (tokens, found, _, _) = lex-Located input in
      rw found (parse_environment-Concludes std file (expand_env_tokens env tokens))
