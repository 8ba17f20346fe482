-- ===== src/Parser/Yields.antt =====
-- config/parser.rs: what holds of the value that a method ends with.
pub mod Layer4
pub mod Files
pub mod Challenges
use raddy.Base.{
  ℕ, zero, suc, List, [], ◌∷◌, Bool, true, false, length, ◌≡◌, refl, subst, if◌then◌else◌, inl, inr,
  ◌⊎◌,
}
use raddy.Lexer.{Token}
use raddy.Parser.{
  Parser, Ended, done, failed, out_of_fuel, Method, pure, and_then, ◌>>=◌, or_fail, at_tokens,
  parse_statement, peek, at_end, at_close, at_open, at_other, statement_step, block_loop, block,
}
use raddy.Parser.Safety.Statements.{Peeked-cases}
use raddy.Values
use raddy.Values.{Text, Result, ok, err, reject_if}

module _ {A : Type 0} (P : A → Type 0) where
  abbrev pub Holds : Ended A → Type 0
  Holds (done a p) = P a
  Holds (failed e) = Unit
  Holds out_of_fuel = Unit

  pub record Yields (m : Method A) : Type 0 where
    pub yields : (p : Parser) → Holds (m p)

  abbrev pub ResultHolds : Result A → Type 0
  ResultHolds (ok a) = P a
  ResultHolds (err message) = Unit

  pub record HoldsOk (r : Result A) : Type 0 where
    pub holds : ResultHolds r

module _ {A : Type 0} {P : A → Type 0} where
  pub ok-HoldsOk : {a : A} → P a → HoldsOk P (ok a)
  ok-HoldsOk h = record { holds = h }

module _ {A B : Type 0} {P : B → Type 0} where
  pub bind-HoldsOk :
      (Q : A → Type 0) (r : Result A) (f : A → Result B)
      → HoldsOk Q r
      → ((a : A) → Q a → HoldsOk P (f a))
      → HoldsOk P (Values.◌>>=◌ r f)
  bind-HoldsOk Q (ok a) f h next = next a h.holds
  bind-HoldsOk Q (err m) f h next = record { holds = tt }

  pub any-HoldsOk :
      (r : Result A) (f : A → Result B) → ((a : A) → HoldsOk P (f a)) → HoldsOk P (Values.◌>>=◌ r f)
  any-HoldsOk (ok a) f next = next a
  any-HoldsOk (err m) f next = record { holds = tt }

module _ {A : Type 0} {P : A → Type 0} where
  pub pure-Yields : {a : A} → P a → Yields P (pure a)
  pure-Yields h = record { yields = λ p. h }

  pub or_fail-Yields : (r : Result A) → HoldsOk P r → Yields P (or_fail r)
  unfolding or_fail
  or_fail-Yields (ok a) h = record { yields = λ p. h.holds }
  or_fail-Yields (err message) h = record { yields = λ p. tt }

  pub fail-Yields : (message : Text) → Yields P (or_fail (err message))
  unfolding or_fail
  fail-Yields message = record { yields = λ p. tt }

  pub if-Yields :
      (b : Bool) {x y : Method A} → Yields P x → Yields P y → Yields P (if b then x else y)
  if-Yields true hx hy = hx
  if-Yields false hx hy = hy

  pub done-Yields :
      {m : Method A} (p : Parser) (a : A) (q : Parser) → Yields P m → m p ≡ done a q → P a
  done-Yields {m} p a q h e = subst (Holds P) e (h.yields p)

module _ {A B : Type 0} {P : B → Type 0} where
  and_then-Holds :
      (Q : A → Type 0) (e : Ended A) (f : A → Method B)
      → Holds Q e
      → ((a : A) → Q a → Yields P (f a))
      → Holds P (and_then e f)
  and_then-Holds Q (done a p) f h next = (next a h).yields p
  and_then-Holds Q (failed x) f h next = tt
  and_then-Holds Q out_of_fuel f h next = tt

  pub bind-Yields :
      (Q : A → Type 0) {m : Method A} {f : A → Method B}
      → Yields Q m
      → ((a : A) → Q a → Yields P (f a))
      → Yields P (m >>= f)
  bind-Yields Q {m} {f} hm hf = record { yields = λ p. and_then-Holds Q (m p) f (hm.yields p) hf }

  and_then-any :
      (e : Ended A) (f : A → Method B) → ((a : A) → Yields P (f a)) → Holds P (and_then e f)
  and_then-any (done a p) f next = (next a).yields p
  and_then-any (failed x) f next = tt
  and_then-any out_of_fuel f next = tt

  -- Where nothing has to be known of the first value.
  pub any-Yields :
      (m : Method A) {f : A → Method B} → ((a : A) → Yields P (f a)) → Yields P (m >>= f)
  any-Yields m {f} hf = record { yields = λ p. and_then-any (m p) f hf }

-- Behind a test that refuses, its condition does not hold.
module _ {B : Type 0} {P : B → Type 0} where
  pub refuse-Yields :
      (c : Bool) (message : Text) (f : Unit {0} → Method B)
      → (c ≡ false → Yields P (f tt))
      → Yields P (or_fail (reject_if c message) >>= f)
  unfolding or_fail
  refuse-Yields true message f next = record { yields = λ p. tt }
  refuse-Yields false message f next = record { yields = λ p. (next refl).yields p }

module _ {P : Unit {0} → Type 0} where
  pub refuse-last :
      (c : Bool) (message : Text) → (c ≡ false → P tt) → Yields P (or_fail (reject_if c message))
  unfolding or_fail
  refuse-last true message next = record { yields = λ p. tt }
  refuse-last false message next = record { yields = λ p. next refl }

-- What every line of a block keeps holds behind it.
module _ {S : Type 0} {P : S → Type 0} (eof : Text) (step : S → List Text → Bool → Method S)
    (kept : (s : S) (line : List Text) (nested : Bool) → P s → Yields P (step s line nested)) where
  step-Yields : (s : S) (w : List Text × Bool) → P s → Yields P (statement_step eof step s w)
  step-Yields s ([], nested) h = pure-Yields h
  step-Yields s (w ∷ words, nested) h = kept s (w ∷ words) nested h

  block_loop-Yields : (fuel : ℕ) (s : S) → P s → Yields P (block_loop eof step fuel s)
  unfolding block_loop parse_statement
  block_loop-Yields zero s h = record { yields = λ p. tt }
  block_loop-Yields (suc fuel) s h = record {
    yields = λ p.
        let rounds : Yields P
            (parse_statement >>= statement_step eof step s >>= block_loop eof step fuel) =
          bind-Yields P (any-Yields parse_statement (λ w. step-Yields s w h))
            (block_loop-Yields fuel) in
        elim (Peeked-cases (peek p.tokens)) [
          | inl e ↦ rw (e, block_loop) tt
          | inr (inl (behind, e)) ↦ rw (e, block_loop) h
          | inr (inr (inl (behind, e))) ↦ rw (e, block_loop) (rounds.yields p)
          | inr (inr (inr e)) ↦ rw (e, block_loop) (rounds.yields p)
        ];
  }

  pub block-Yields : (s : S) → P s → Yields P (block eof step s)
  unfolding block
  block-Yields s h = record {
    yields = λ p. (block_loop-Yields (suc (length p.tokens)) s h).yields p;
  }
