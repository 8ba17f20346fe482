-- ===== src/Parser/Environment.antt =====
-- config/parser.rs: environment variables in the tokens of a configuration. `std::env::var` is a parameter.
pub mod Structure
use raddy.Base.{
  ℕ, zero, suc, ◌+◌, List, [], ◌∷◌, ◌++◌, Option, none, some, Bool, true, false, not, ◌&&◌, length,
  drop, ltb, ◌==◌, if◌then◌else◌, is_some,
}
use raddy.Config.Wildcard.{is_empty, strip_prefix}
use raddy.Lexer.{Token, TokenKind, word, l_brace, r_brace, newline}
use raddy.Values.{Text, codes, about, Result, ok, err, ◌>>=◌, ok_or}
use raddy.Values.Addresses.{split_once_at}

-- `str::len`: the bytes of a text in UTF-8.
abbrev pub utf8_len : ℕ → ℕ
utf8_len c = if ltb c 0x80 then 1 else if ltb c 0x800 then 2 else if ltb c 0x1_0000 then 3 else 4

unfoldable pub len : Text → ℕ
len [] = 0
len (c ∷ text) = utf8_len c + len text

abbrev pub word_of : TokenKind → Option Text
word_of (word w) = some w
word_of _ = none

abbrev pub references : Text → Bool
references w = is_some (split_once_at (codes "{$") w)

abbrev pub touches : Option Text → Option Text → Token → Token → Bool
touches (some pw) (some w) prev cur = prev.line == cur.line && prev.col + len pw == cur.col
touches _ _ prev cur = false

-- Two words with nothing between them.
unfoldable pub adjacent : Token → Token → Bool
unfolding len
adjacent prev cur = touches (word_of prev.kind) (word_of cur.kind) prev cur

-- The fragments on the left of a token, the nearest first; `seen` has the tokens before it so.
unfoldable pub left_run : Token → List Token → List Token
unfolding adjacent
left_run cur [] = []
left_run cur (prev ∷ seen) = if adjacent prev cur then prev ∷ left_run prev seen else []

abbrev pub continues : Option Text → Token → ℕ → ℕ → Bool
continues none next line end = false
continues (some nw) next line end = next.line == line && next.col == end

abbrev pub end_of : Token → ℕ
unfolding len
end_of t = elim (word_of t.kind) [ some w ↦ t.col + len w | none ↦ t.col ]

-- The fragments on the right, from where the run ends.
unfoldable pub right_run : ℕ → ℕ → List Token → List Token
unfolding end_of
right_run line end [] = []
right_run line end (next ∷ tokens) =
    if continues (word_of next.kind) next line end
    then next ∷ right_run line (end_of next) tokens
    else []

abbrev pub is_reference : Option Text → Bool
is_reference none = false
is_reference (some w) = references w

abbrev pub reversed : List Token → List Token → List Token
reversed [] onto = onto
reversed (t ∷ ts) onto = reversed ts (t ∷ onto)

-- The run around a token, in the order of the file.
abbrev pub run_of : List Token → Token → List Token → List Token
run_of seen token tokens =
    reversed (left_run token seen) (token ∷ right_run token.line (end_of token) tokens)

-- Whether a `{$` is open, and its name so far. What has no `}` is kept.
module _ (env : Text → Option Text) where
  abbrev pub value_of : Text → Result Text
  value_of [] = ok (codes "{$}")
  value_of (c ∷ name) =
      ok_or (env (c ∷ name)) (about "environment variable '" (c ∷ name) "' is not set")

  unfoldable pub expand_from : Option Text → Text → Result Text
  expand_from none [] = ok []
  expand_from (some name) [] = ok (codes "{$" ++ name)
  expand_from none (c ∷ []) = ok (c ∷ [])
  expand_from none (c ∷ d ∷ text) = elim (c == b'{' && d == b'$') [
    | true ↦ expand_from (some []) text
    | false ↦ expand_from none (d ∷ text) >>= λ rest. ok (c ∷ rest)
  ]
  expand_from (some name) (c ∷ text) = elim (c == b'}') [
    | true ↦ value_of name >>= λ value. expand_from none text >>= λ rest. ok (value ++ rest)
    | false ↦ expand_from (some (name ++ c ∷ [])) text
  ]

  unfoldable pub expand_env_in_word : Text → Result Text
  unfolding expand_from
  expand_env_in_word w = expand_from none w

  abbrev pub fragment : Option Text → Result Text
  fragment none = ok []
  fragment (some w) = if references w then expand_env_in_word w else ok w

  -- The text of a run.
  unfoldable pub run_value : List Token → Result Text
  unfolding expand_env_in_word split_once_at
  run_value [] = ok []
  run_value (t ∷ run) = do
    value ← fragment (word_of t.kind)
    rest ← run_value run
    ok (value ++ rest)

  -- `seen` has the tokens before the current one and `out` what was pushed, the last first. The tokens of a
  -- run on the right are skipped, which `skip` counts.
  unfoldable pub expand_from_token : ℕ → List Token → List Token → List Token → Result (List Token)
  unfolding left_run right_run end_of run_value split_once_at
  expand_from_token skip seen out [] = ok (reversed out [])
  expand_from_token (suc skip) seen out (token ∷ tokens) =
      expand_from_token skip (token ∷ seen) out tokens
  expand_from_token zero seen out (token ∷ tokens) = elim (is_reference (word_of token.kind)) [
    | false ↦ expand_from_token zero (token ∷ seen) (token ∷ out) tokens
    | true ↦ run_value (run_of seen token tokens) >>= λ value.
        expand_from_token (length (right_run token.line (end_of token) tokens)) (token ∷ seen)
          (record { kind = word value; line = token.line; col = token.col }
            ∷ drop (length (left_run token seen)) out)
          tokens
  ]

  unfoldable pub expand_env_tokens : List Token → Result (List Token)
  unfolding expand_from_token
  expand_env_tokens tokens = expand_from_token 0 [] [] tokens
