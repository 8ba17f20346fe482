-- ===== src/Parser/Safety/Statements.antt =====
-- config/parser.rs: a statement takes a token, and so the loop of a block ends.
use raddy.Base.{
  ◌⊎◌, inl, inr, ℕ, zero, suc, ◌≤◌, ◌<◌, List, [], ◌∷◌, Bool, true, false, length, All, ◌≡◌, refl,
  arith,
}
use raddy.Lexer.{Token}
use raddy.Parser.{
  Parser, Method, ◌>>=◌, at_tokens, position_of, skip_newlines, read_line, parse_statement, Peeked,
  peek, at_end, at_close, at_open, at_other, statement_step, block_loop, block,
}
use raddy.Parser.Safety.{
  TokenSpot, pure-IsSafe, bind-IsSafe, IsSafe, IsReady, Ends, weaken-Ends, error_at-spot,
}
use raddy.Values.{Text}

abbrev pub stops : Peeked → Bool
stops at_end = true
stops (at_close behind) = true
stops _ = false

length-skip_newlines : (ts : List Token) → length (skip_newlines ts) ≤ length ts
unfolding skip_newlines
length-skip_newlines [] = omega arith
length-skip_newlines (t ∷ ts) = ground (arith, length-skip_newlines ts)

length-read_line : (ts : List Token) → length (read_line ts).left ≤ length ts
unfolding read_line
length-read_line [] = omega arith
length-read_line (t ∷ ts) = ground (arith, length-read_line ts)

pub length-statement : (ts : List Token) → length (read_line (skip_newlines ts)).left ≤ length ts
length-statement ts = omega (arith, length-skip_newlines ts, length-read_line (skip_newlines ts))

pub length-statement_lt :
    (ts : List Token)
    → stops (peek ts) ≡ false
    → length (read_line (skip_newlines ts)).left < length ts
unfolding peek skip_newlines read_line
length-statement_lt [] h = absurd cc
length-statement_lt (t ∷ ts) h = ground (arith, length-read_line ts, length-statement ts)

module _ (IsSpot : ℕ × ℕ → Type 0) where
  abbrev Spots : List Token → Type 0
  Spots = All (λ t. IsSpot (t.line, t.col))

  skip_newlines-Spots : (ts : List Token) → Spots ts → Spots (skip_newlines ts)
  unfolding skip_newlines
  skip_newlines-Spots [] h = h
  skip_newlines-Spots (t ∷ ts) h = ground (arith, skip_newlines-Spots ts)

  read_line-Spots : (ts : List Token) → Spots ts → Spots (read_line ts).left
  unfolding read_line
  read_line-Spots [] h = h
  read_line-Spots (t ∷ ts) h = ground (arith, read_line-Spots ts)

  position_of-spot :
      (ts : List Token) (last : ℕ × ℕ) → Spots ts → IsSpot last → IsSpot (position_of ts last)
  position_of-spot [] last h hl = hl
  position_of-spot (t ∷ ts) last h hl = h.0

-- The parser behind a statement.
abbrev pub behind_statement : Parser → Parser
unfolding skip_newlines read_line
behind_statement p = record p {
  tokens = (read_line (skip_newlines p.tokens)).left;
  stmt_pos = position_of (skip_newlines p.tokens) p.last;
}

pub Peeked-cases :
    (k : Peeked)
    → (k ≡ at_end)
      ⊎ ((behind : List Token) × (k ≡ at_close behind))
      ⊎ ((behind : List Token) × (k ≡ at_open behind))
      ⊎ (k ≡ at_other)
Peeked-cases at_end = inl refl
Peeked-cases (at_close behind) = inr (inl (behind, refl))
Peeked-cases (at_open behind) = inr (inr (inl (behind, refl)))
Peeked-cases at_other = inr (inr (inr refl))

pub close-tokens :
    (ts behind : List Token) → peek ts ≡ at_close behind → (t : Token) × (ts ≡ t ∷ behind)
unfolding peek
close-tokens [] behind h = absurd cc
close-tokens (t ∷ ts) behind h = (t, ground arith)

pub open-tokens :
    (ts behind : List Token) → peek ts ≡ at_open behind → (t : Token) × (ts ≡ t ∷ behind)
unfolding peek
open-tokens [] behind h = absurd cc
open-tokens (t ∷ ts) behind h = (t, ground arith)

module _ {name : Text} {IsSpot : ℕ × ℕ → Type 0} where
  pub behind_statement-IsReady :
      (p : Parser) → IsReady name IsSpot p → IsReady name IsSpot (behind_statement p)
  unfolding behind_statement
  behind_statement-IsReady p r =
      let skipped = skip_newlines-Spots IsSpot p.tokens r.spots in
      record {
        same_file = r.same_file;
        spots = read_line-Spots IsSpot (skip_newlines p.tokens) skipped;
        last_spot = r.last_spot;
        stmt_spot = position_of-spot IsSpot (skip_newlines p.tokens) p.last skipped r.last_spot;
      }

  pub skipped-IsReady :
      (p : Parser)
      → IsReady name IsSpot p
      → IsReady name IsSpot (at_tokens p (skip_newlines p.tokens))
        × (length (skip_newlines p.tokens) ≤ length p.tokens)
  skipped-IsReady p r = (
    record {
      same_file = r.same_file;
      spots = skip_newlines-Spots IsSpot p.tokens r.spots;
      last_spot = r.last_spot;
      stmt_spot = r.stmt_spot;
    },
    length-skip_newlines p.tokens,
  )

  -- The token that a block stops at, or begins with, is taken.
  pub tail-IsReady :
      (p : Parser) (t : Token) (behind : List Token)
      → p.tokens ≡ t ∷ behind
      → IsReady name IsSpot p
      → IsReady name IsSpot (at_tokens p behind) × (length behind < length p.tokens)
  tail-IsReady p t behind h r =
      let spots : All (TokenSpot name IsSpot) (t ∷ behind) = rw h at r.spots in
      (
        record {
          same_file = r.same_file;
          spots = spots.1;
          last_spot = r.last_spot;
          stmt_spot = r.stmt_spot;
        },
        rw h (omega arith),
      )

  -- What is done behind a statement that takes a token, on fewer tokens.
  pub and_then_statement-Ends :
      {A : Type 0} (n : ℕ) (f : List Text × Bool → Method A) (p : Parser)
      → IsReady name IsSpot p
      → length p.tokens < suc n
      → stops (peek p.tokens) ≡ false
      → ((w : List Text × Bool) → IsSafe name IsSpot n (f w))
      → Ends name IsSpot (length p.tokens) ((parse_statement >>= f) p)
  unfolding parse_statement
  and_then_statement-Ends n f p r h more hf =
      let fewer = length-statement_lt p.tokens more in
      weaken-Ends name IsSpot (length (behind_statement p).tokens) (length p.tokens) _ (omega arith)
        ((hf _).ends (behind_statement p) (behind_statement-IsReady p r) (omega arith))

  module _ {S : Type 0} (eof : Text) (step : S → List Text → Bool → Method S)
      (step_safe : (n : ℕ) (s : S) (line : List Text) (nested : Bool)
        → IsSafe name IsSpot n (step s line nested)) where
    step_end :
        (n : ℕ) (s : S) (w : List Text × Bool) → IsSafe name IsSpot n (statement_step eof step s w)
    step_end n s ([], nested) = pure-IsSafe s
    step_end n s (w ∷ words, nested) = step_safe n s (w ∷ words) nested

    pub block_loop-IsSafe :
        (fuel : ℕ) (s : S) → IsSafe name IsSpot fuel (block_loop eof step fuel s)
    unfolding block_loop
    block_loop-IsSafe zero s = record { ends = λ p r h. absurd (omega arith) }
    block_loop-IsSafe (suc fuel) s = record {
      ends = λ p r h. elim (Peeked-cases (peek p.tokens)) [
        | inl e ↦ rw (e, block_loop) (error_at-spot eof p r)
        | inr (inl (behind, e)) ↦
            let (t, whole) = close-tokens p.tokens behind e in
            let (ready, fewer) = tail-IsReady p t behind whole r in
            rw (e, block_loop) (ready, omega arith)
        | inr (inr (inl (behind, e))) ↦
            rw (e, block_loop)
              (and_then_statement-Ends fuel _ p r h (rw e refl)
                (λ w. bind-IsSafe (step_end fuel s w) (block_loop-IsSafe fuel)))
        | inr (inr (inr e)) ↦
            rw (e, block_loop)
              (and_then_statement-Ends fuel _ p r h (rw e refl)
                (λ w. bind-IsSafe (step_end fuel s w) (block_loop-IsSafe fuel)))
      ];
    }

    pub block-IsSafe : {n : ℕ} (s : S) → IsSafe name IsSpot n (block eof step s)
    unfolding block
    block-IsSafe s = record {
      ends = λ p r h. (block_loop-IsSafe (suc (length p.tokens)) s).ends p r (omega arith);
    }
