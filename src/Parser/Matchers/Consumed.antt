-- ===== src/Parser/Matchers/Consumed.antt =====
-- config/parser.rs: how many tokens a matcher takes.
use raddy.Base.{
  ℕ, zero, suc, ◌+◌, ◌≤◌, ◌<◌, List, [], ◌∷◌, Option, none, some, Bool, any, length, drop,
  length-drop, ltb, ◌||◌, ◌≡◌, refl, subst, arith, Bool-cases, inl, inr, ◌⊎◌,
}
use raddy.Config.Source.{Matcher}
use raddy.Config.Wildcard.{text_eq, strip_prefix}
use raddy.Parser.Matchers.{
  keywords, negation_of, negate_if, unary, fixed_matcher, leading_cidrs, some_networks,
  remote_ip_matcher, any_matcher, keyword_matcher, parse_one_matcher, matchers_from,
}
use raddy.SiteSelection.{first_is}
use raddy.Values.{Text, codes, is, Result, ok, err, ◌>>=◌}
use raddy.Values.Addresses.{IpAddr, Cidr}

-- `k` tokens of `n`, and one at least.
abbrev pub IsTaken : ℕ → ℕ → Type 0
IsTaken k n = (1 ≤ k) × (k ≤ n)

abbrev TakesOk : {A : Type 0} → ℕ → Result (A × ℕ) → Type 0
TakesOk n (ok p) = IsTaken p.1 n
TakesOk n (err m) = Unit

abbrev TakesSome : {A : Type 0} → ℕ → Result (Option (A × ℕ)) → Type 0
TakesSome n (ok none) = Unit
TakesSome n (ok (some p)) = IsTaken p.1 n
TakesSome n (err m) = Unit

One-cases :
    (r : Result (Option (Matcher × ℕ)))
    → ((m : Text) × (r ≡ err m))
      ⊎ (r ≡ ok none)
      ⊎ ((m : Matcher) × (k : ℕ) × (r ≡ ok (some (m, k))))
One-cases (err m) = inl (m, refl)
One-cases (ok none) = inr (inl refl)
One-cases (ok (some (m, k))) = inr (inr (m, k, refl))

unary-Takes : (n : ℕ) (r : Result Matcher) → 1 ≤ n → TakesOk n (r >>= λ m. ok (m, 1))
unary-Takes n (ok m) h = (omega arith, h)
unary-Takes n (err m) h = tt

fixed_matcher-Takes :
    (kind : Text) (args : List Text) → TakesOk (length args) (fixed_matcher kind args)
unfolding fixed_matcher
fixed_matcher-Takes kind [] = tt
fixed_matcher-Takes kind (a ∷ []) = elim (Bool-cases (is "header" kind || is "query" kind)) [
  | inl e ↦ rw e tt
  | inr e ↦ rw e (unary-Takes 1 (unary kind a) (omega arith))
]
fixed_matcher-Takes kind (a ∷ b ∷ args) = elim (Bool-cases (is "header" kind || is "query" kind)) [
  | inl e ↦ rw e (omega arith, omega arith)
  | inr e ↦ rw e (unary-Takes (suc (suc (length args))) (unary kind a) (omega arith))
]

module _ (parse_ip : Text → Option IpAddr) where
  length-leading_cidrs : (args : List Text) → length (leading_cidrs parse_ip args) ≤ length args
  unfolding leading_cidrs
  length-leading_cidrs [] = omega arith
  length-leading_cidrs (a ∷ args) = ground (arith, length-leading_cidrs args)

  some_networks-Takes : (n : ℕ) (cs : List Cidr) → length cs ≤ n → TakesOk n (some_networks cs)
  some_networks-Takes n [] h = tt
  some_networks-Takes n (c ∷ cs) h = (omega arith, h)

  remote_ip_matcher-Takes :
      (args : List Text) → TakesOk (length args) (remote_ip_matcher parse_ip args)
  unfolding remote_ip_matcher
  remote_ip_matcher-Takes [] = tt
  remote_ip_matcher-Takes (a ∷ args) =
      some_networks-Takes (length (a ∷ args)) (leading_cidrs parse_ip (a ∷ args))
        (length-leading_cidrs (a ∷ args))

  any_matcher-Takes :
      (kind : Text) (args : List Text) → TakesOk (length args) (any_matcher parse_ip kind args)
  any_matcher-Takes kind args = elim (Bool-cases (is "remote_ip" kind)) [
    | inl e ↦ rw e (remote_ip_matcher-Takes args)
    | inr e ↦ rw e (fixed_matcher-Takes kind args)
  ]

  one_more :
      (n : ℕ) (r : Result (Matcher × ℕ)) (negated : Bool)
      → TakesOk n r
      → TakesSome (suc n) (r >>= λ m. ok (some (negate_if negated m.0, m.1 + 1)))
  one_more n (ok p) negated h = (omega arith, omega arith)
  one_more n (err m) negated h = tt

  keyword_matcher-Takes :
      (negated : Bool) (kind : Text) (args : List Text)
      → TakesSome (suc (length args)) (keyword_matcher parse_ip negated kind args)
  keyword_matcher-Takes negated kind args = elim (Bool-cases (any (text_eq kind) keywords)) [
    | inl e ↦ rw e (
        one_more (length args) (any_matcher parse_ip kind args) negated
          (any_matcher-Takes kind args))
    | inr e ↦ rw e tt
  ]

  parse_one_matcher-Takes :
      (tokens : List Text) → TakesSome (length tokens) (parse_one_matcher parse_ip tokens)
  unfolding parse_one_matcher
  parse_one_matcher-Takes [] = tt
  parse_one_matcher-Takes (first ∷ args) = elim (Bool-cases (first_is b'/' first)) [
    | inl e ↦ elim (Bool-cases (ltb (length first) 2)) [
      | inl short ↦ rw (e, short) tt
      | inr long ↦ rw (e, long) (omega arith, omega arith)
    ]
    | inr e ↦
        let (negated, kind) = negation_of first (strip_prefix (codes "!") first) in
        rw e (keyword_matcher-Takes negated kind args)
  ]

  -- The slices of the tokens are in range.
  pub parse_one_matcher-IsTaken :
      (tokens : List Text) (m : Matcher) (k : ℕ)
      → parse_one_matcher parse_ip tokens ≡ ok (some (m, k))
      → IsTaken k (length tokens)
  parse_one_matcher-IsTaken tokens m k h =
      subst (TakesSome (length tokens)) h (parse_one_matcher-Takes tokens)

  matchers_from-some :
      (fuel : ℕ) (rest : List Text)
      → length rest < fuel
      → (r : Result (List Matcher × List Text)) × (matchers_from parse_ip fuel rest ≡ some r)
  unfolding matchers_from
  matchers_from-some zero rest h = absurd (omega arith)
  matchers_from-some (suc fuel) rest h = elim (One-cases (parse_one_matcher parse_ip rest)) [
    | inl (m, e) ↦ rw (e, matchers_from) (err m, refl)
    | inr (inl e) ↦ rw (e, matchers_from) (ok ([], rest), refl)
    | inr (inr (m, k, e)) ↦
        let taken = parse_one_matcher-IsTaken rest m k e in
        let fewer : length (drop k rest) < fuel = omega (arith, length-drop k rest) in
        let (r, found) = matchers_from-some fuel (drop k rest) fewer in
        rw (e, found, matchers_from) (_, refl)
  ]

  -- The fuel that `parse_matchers` gives is enough.
  pub matchers_from_enough :
      (tokens : List Text)
      → (r : Result (List Matcher × List Text)) × (matchers_from parse_ip
            (suc (length tokens))
            tokens
          ≡ some r)
  matchers_from_enough tokens = matchers_from-some (suc (length tokens)) tokens (omega arith)
