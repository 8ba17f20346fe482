-- ===== src/Parser/Outcomes.antt =====
-- config/parser.rs: how the parser of a file ends.
use raddy.Base.{
  ℕ, zero, suc, List, [], ◌∷◌, some, length, All, ◌≡◌, refl, get_elem?, drop, inl, inr, ◌⊎◌,
}
use raddy.Config.Source.{Raddexfile}
use raddy.Lexer.{Token}
use raddy.Parser.{Parser, ConfigError, Ended, done, failed, out_of_fuel}
use raddy.Parser.Files.{last_position, initial, parse_tokens}
use raddy.Parser.Safety.Files.{parse_raddexfile-Ends}
use raddy.Parser.Safety.{Ends}
use raddy.Parser.Sites.{Std}
use raddy.Values.{Text}

Ends-end :
    (name : Text) (IsSpot : ℕ × ℕ → Type 0) (k : ℕ) (e : Ended Raddexfile)
    → Ends name IsSpot k e
    → ((r : Raddexfile) × (p : Parser) × (e ≡ done r p)) ⊎ ((x : ConfigError) × (e ≡ failed x))
Ends-end name IsSpot k (done r p) h = inl (r, p, refl)
Ends-end name IsSpot k (failed x) h = inr (x, refl)
Ends-end name IsSpot k out_of_fuel h = absurd h

-- Where an error may stand: at a token, or at the beginning of the file.
unfoldable pub IsPlace : List Token → ℕ × ℕ → Type 0
IsPlace tokens pos =
    (pos ≡ (1, 1))
    ⊎ ((i : ℕ) × (t : Token) × (get_elem? tokens i ≡ some t) × (pos ≡ (t.line, t.col)))

drop-cons :
    (xs : List Token) (k : ℕ) (x : Token) (rest : List Token)
    → drop k xs ≡ x ∷ rest
    → (get_elem? xs k ≡ some x) × (drop (suc k) xs ≡ rest)
drop-cons [] zero x rest h = absurd cc
drop-cons [] (suc k) x rest h = absurd cc
drop-cons (y ∷ xs) zero x rest h = (cc, cc)
drop-cons (y ∷ xs) (suc k) x rest h = drop-cons xs k x rest h

places :
    (tokens part : List Token) (k : ℕ)
    → drop k tokens ≡ part
    → All (λ t. IsPlace tokens (t.line, t.col)) part
unfolding IsPlace
places tokens [] k h = tt
places tokens (t ∷ part) k h =
    let (found, rest) = drop-cons tokens k t part h in
    (inr (k, t, found, refl), places tokens part (suc k) rest)

last_position-IsPlace :
    (tokens part : List Token) (last : ℕ × ℕ)
    → All (λ t. IsPlace tokens (t.line, t.col)) part
    → IsPlace tokens last
    → IsPlace tokens (last_position part last)
last_position-IsPlace tokens [] last h hl = hl
last_position-IsPlace tokens (t ∷ part) last h hl =
    last_position-IsPlace tokens part (t.line, t.col) h.1 h.0

parse_tokens-Ends :
    (std : Std) (file : Text) (tokens : List Token)
    → Ends file (IsPlace tokens) (length tokens) (parse_tokens std file tokens)
unfolding parse_tokens IsPlace
parse_tokens-Ends std file tokens =
    let spots = places tokens tokens 0 refl in
    parse_raddexfile-Ends std (initial file tokens) (record {
      same_file = refl;
      spots = spots;
      last_spot = last_position-IsPlace tokens tokens (1, 1) spots (inl refl);
      stmt_spot = inl refl;
    })

-- For any tokens, the parser of a configuration file ends in a file or in an error: no loop over
-- statements, blocks or sites runs out of the fuel that is the number of its tokens and one.
pub parse_tokens-total :
    (std : Std) (file : Text) (tokens : List Token)
    → ((r : Raddexfile) × (p : Parser) × (parse_tokens std file tokens ≡ done r p))
      ⊎ ((e : ConfigError) × (parse_tokens std file tokens ≡ failed e))
parse_tokens-total std file tokens =
    Ends-end file (IsPlace tokens) (length tokens) _ (parse_tokens-Ends std file tokens)
