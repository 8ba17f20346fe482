-- ===== src/Parser/Safety.antt =====
-- config/parser.rs: methods that end, with fuel left, in a value or in an error at a token of the input.
pub mod Statements
pub mod Blocks
pub mod Files
use raddy.Base.{
  ℕ, zero, suc, ◌+◌, ◌≤◌, ◌<◌, List, [], ◌∷◌, Option, none, some, Bool, true, false, length, All,
  ◌≡◌, refl, arith, Bool-cases, inl, inr, if◌then◌else◌,
}
use raddy.Lexer.{Token, TokenKind, word, l_brace, r_brace, newline}
use raddy.Parser.{
  Parser, ConfigError, Ended, done, failed, out_of_fuel, Method, pure, and_then, ◌>>=◌, ◌>>◌,
  error_at, or_fail, at_tokens, position_of, is_newline, skip_newlines, Line, add_word, read_line,
  parse_statement, peek, at_end, at_close, at_open, at_other, statement_step, block_loop, block,
}
use raddy.Values.{Text, Result, ok, err}

-- `IsSpot` says where an error of the file may stand.
module _ (name : Text) (IsSpot : ℕ × ℕ → Type 0) where
  abbrev pub TokenSpot : Token → Type 0
  TokenSpot t = IsSpot (t.line, t.col)

  pub record IsReady (p : Parser) : Type 0 where
    pub same_file : p.file ≡ name
    pub spots : All TokenSpot p.tokens
    pub last_spot : IsSpot p.last
    pub stmt_spot : IsSpot p.stmt_pos

  -- An end with at most `k` tokens left.
  abbrev pub Ends : {A : Type 0} → ℕ → Ended A → Type 0
  Ends k (done a q) = IsReady q × (length q.tokens ≤ k)
  Ends k (failed e) = (e.file ≡ name) × IsSpot (e.line, e.col)
  Ends k out_of_fuel = ⊥

  -- Safe on fewer than `n` tokens.
  pub record IsSafe {A : Type 0} (n : ℕ) (m : Method A) : Type 0 where
    pub ends : (p : Parser) → IsReady p → length p.tokens < n → Ends (length p.tokens) (m p)

module _ (name : Text) (IsSpot : ℕ × ℕ → Type 0) where
  pub weaken-Ends :
      {A : Type 0} (k n : ℕ) (e : Ended A) → k ≤ n → Ends name IsSpot k e → Ends name IsSpot n e
  weaken-Ends k n (done a q) h (r, b) = (r, omega arith)
  weaken-Ends k n (failed e) h s = s
  weaken-Ends k n out_of_fuel h s = absurd s

  pub and_then-Ends :
      {A B : Type 0} (k : ℕ) (e : Ended A) (f : A → Method B)
      → Ends name IsSpot k e
      → ((a : A) (q : Parser)
          → IsReady name IsSpot q
          → length q.tokens ≤ k
          → Ends name IsSpot k (f a q))
      → Ends name IsSpot k (and_then e f)
  and_then-Ends k (done a q) f (r, b) next = next a q r b
  and_then-Ends k (failed e) f s next = s
  and_then-Ends k out_of_fuel f s next = absurd s

module _ {name : Text} {IsSpot : ℕ × ℕ → Type 0} where
  pub error_at-spot :
      (message : Text) (p : Parser)
      → IsReady name IsSpot p
      → ((error_at message p).file ≡ name)
        × IsSpot ((error_at message p).line, (error_at message p).col)
  unfolding error_at
  error_at-spot message p r = (r.same_file, r.stmt_spot)

  pub pure-IsSafe : {A : Type 0} {n : ℕ} (a : A) → IsSafe name IsSpot n (pure a)
  pure-IsSafe a = record { ends = λ p r h. (r, omega arith) }

  pub or_fail-IsSafe : {A : Type 0} {n : ℕ} (x : Result A) → IsSafe name IsSpot n (or_fail x)
  unfolding or_fail
  or_fail-IsSafe (ok a) = record { ends = λ p r h. (r, omega arith) }
  or_fail-IsSafe (err message) = record { ends = λ p r h. error_at-spot message p r }

  pub bind-IsSafe :
      {A B : Type 0} {n : ℕ} {m : Method A} {f : A → Method B}
      → IsSafe name IsSpot n m
      → ((a : A) → IsSafe name IsSpot n (f a))
      → IsSafe name IsSpot n (m >>= f)
  bind-IsSafe {m = m} {f} hm hf = record {
    ends = λ p r h.
        and_then-Ends name IsSpot (length p.tokens) (m p) f (hm.ends p r h) (λ a q rq bound.
          weaken-Ends name IsSpot (length q.tokens) (length p.tokens) (f a q) bound
            ((hf a).ends q rq (omega arith)));
  }

  pub if-IsSafe :
      {A : Type 0} {n : ℕ} (b : Bool) {x y : Method A}
      → IsSafe name IsSpot n x
      → IsSafe name IsSpot n y
      → IsSafe name IsSpot n (if b then x else y)
  if-IsSafe true hx hy = hx
  if-IsSafe false hx hy = hy

  pub weaken-IsSafe :
      {A : Type 0} (k n : ℕ) {m : Method A}
      → k ≤ n
      → IsSafe name IsSpot n m
      → IsSafe name IsSpot k m
  weaken-IsSafe k n le hm = record { ends = λ p r h. hm.ends p r (omega arith) }

pub ruleset safe = (pure-IsSafe, or_fail-IsSafe, bind-IsSafe, if-IsSafe)
