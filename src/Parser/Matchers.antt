-- ===== src/Parser/Matchers.antt =====
-- config/parser.rs: matcher terms, and the directives that begin with them.
mod Consumed
use raddy.Base.{
  ℕ, zero, suc, ◌+◌, ◌^◌, List, [], ◌∷◌, ◌++◌, Option, none, some, Bool, true, false, not, ◌&&◌,
  ◌||◌, length, get_elem?, drop, any, leb, ltb, ◌==◌, if◌then◌else◌, is_some,
}
use raddy.Config.Source.{
  Matcher, path_is, host_is, method_is, header_is, query_is, remote_ip_in, protocol_is, negation,
  Protocol, http, https, Directive, respond, error_page,
}
use raddy.Config.Wildcard.{strip_prefix, text_eq, is_empty}
use raddy.SiteSelection.{first_is}
use raddy.Values.{
  Text, codes, is, about, first_word, Result, ok, err, ◌>>=◌, ◌>>◌, reject_if, ok_or, parse_uint,
  u16_limit,
}
use raddy.Values.Addresses.{IpAddr, Cidr, parse_cidr}
use raddy.Values.HostNames.{strip_matcher_wildcard}

abbrev pub keywords : List Text
keywords =
    codes "path"
    ∷ codes "host"
    ∷ codes "method"
    ∷ codes "header"
    ∷ codes "query"
    ∷ codes "remote_ip"
    ∷ codes "protocol"
    ∷ []

-- Whether a `!` stands in front, and the keyword behind it.
abbrev pub negation_of : Text → Option Text → Bool × Text
negation_of first none = (false, first)
negation_of first (some kind) = (true, kind)

abbrev pub negate_if : Bool → Matcher → Matcher
negate_if true m = negation m
negate_if false m = m

abbrev pub parse_protocol : Text → Result Matcher
parse_protocol value =
    if is "http" value
    then ok (protocol_is http)
    else if is "https" value
    then ok (protocol_is https)
    else err (about "invalid protocol '" value "' (expected http or https)")

-- A keyword with one argument.
abbrev pub unary : Text → Text → Result Matcher
unary kind a =
    if is "path" kind
    then ok (path_is (strip_matcher_wildcard a))
    else if is "host" kind
    then ok (host_is a)
    else if is "method" kind
    then ok (method_is a)
    else parse_protocol a

-- A keyword with two.
abbrev pub binary : Text → Text → Text → Matcher
binary kind a b = if is "header" kind then header_is a b else query_is a b

abbrev pub missing : {A : Type 0} → Text → Result A
missing kind = err (about "matcher '" kind "' is missing arguments")

-- The keyword's arity is checked before its arguments are read.
unfoldable pub fixed_matcher : Text → List Text → Result (Matcher × ℕ)
unfolding text_eq
fixed_matcher kind [] = missing kind
fixed_matcher kind (a ∷ []) =
    if is "header" kind || is "query" kind then missing kind else unary kind a >>= λ m. ok (m, 1)
fixed_matcher kind (a ∷ b ∷ args) =
    if is "header" kind || is "query" kind
    then ok (binary kind a b, 2)
    else unary kind a >>= λ m. ok (m, 1)

abbrev pub some_networks : List Cidr → Result (Matcher × ℕ)
some_networks [] = err (codes "matcher 'remote_ip' requires at least one CIDR")
some_networks (c ∷ cidrs) = ok (remote_ip_in (c ∷ cidrs), length (c ∷ cidrs))

abbrev pub push_matcher : Matcher → List Matcher × List Text → List Matcher × List Text
push_matcher m parsed = (m ∷ parsed.0, parsed.1)

abbrev pub or_no_matchers :
    Option (Result (List Matcher × List Text)) → Result (List Matcher × List Text)
or_no_matchers none = err []
or_no_matchers (some r) = r

abbrev pub in_status : ℕ → Bool
in_status code = leb 100 code && leb code 599

-- The status and the body behind the matchers.
abbrev pub status_and_body : List Matcher → Text → Option Text → Result Directive
status_and_body matcher code body = do
  status ← ok_or (parse_uint u16_limit code) (about "invalid respond status '" code "'")
  reject_if (not (in_status status)) (codes "respond status must be between 100 and 599")
  ok (respond matcher status body)

abbrev pub respond_rest : List Matcher × List Text → Result Directive
respond_rest (matcher, code ∷ []) = status_and_body matcher code none
respond_rest (matcher, code ∷ body ∷ []) = status_and_body matcher code (some body)
respond_rest (matcher, _) = err (codes "respond expects: respond <matcher> <status> [<body>]")

-- One argument of `error`: a status, if it reads as one, or the message.
abbrev pub error_arg : Option ℕ → Text → Option ℕ → Option Text → Result (Option ℕ × Option Text)
error_arg (some code) arg status message = do
  reject_if (is_some status) (codes "duplicate error status")
  reject_if (not (in_status code)) (codes "error status must be between 100 and 599")
  ok (some code, message)
error_arg none arg status message = do
  reject_if (is_some message) (codes "duplicate error message")
  ok (status, some arg)

unfoldable pub error_args : List Text → Option ℕ → Option Text → Result (Option ℕ × Option Text)
unfolding parse_uint
error_args [] status message = ok (status, message)
error_args (arg ∷ rest) status message =
    error_arg (parse_uint u16_limit arg) arg status message >>= λ s. error_args rest s.0 s.1

module _ (parse_ip : Text → Option IpAddr) where
  -- The arguments from the first on that are networks.
  unfoldable pub leading_cidrs : List Text → List Cidr
  unfolding parse_cidr
  leading_cidrs [] = []
  leading_cidrs (a ∷ args) =
      let rest = leading_cidrs args in
      elim (parse_cidr parse_ip a) [ ok cidr ↦ cidr ∷ rest | err m ↦ [] ]

  unfoldable pub remote_ip_matcher : List Text → Result (Matcher × ℕ)
  unfolding leading_cidrs
  remote_ip_matcher [] = err (codes "matcher 'remote_ip' is missing arguments")
  remote_ip_matcher (a ∷ args) = some_networks (leading_cidrs (a ∷ args))

  abbrev pub any_matcher : Text → List Text → Result (Matcher × ℕ)
  any_matcher kind args =
      if is "remote_ip" kind then remote_ip_matcher args else fixed_matcher kind args

  abbrev pub keyword_matcher : Bool → Text → List Text → Result (Option (Matcher × ℕ))
  keyword_matcher negated kind args =
      if not (any (text_eq kind) keywords)
      then ok none
      else any_matcher kind args >>= λ m. ok (some (negate_if negated m.0, m.1 + 1))

  -- The matcher that the tokens begin with, and how many of them it takes.
  unfoldable pub parse_one_matcher : List Text → Result (Option (Matcher × ℕ))
  unfolding text_eq strip_prefix remote_ip_matcher fixed_matcher strip_matcher_wildcard
  parse_one_matcher [] = ok none
  parse_one_matcher (first ∷ args) =
      if first_is b'/' first
      then (if ltb (length first) 2
          then err (codes "path matcher must not be empty")
          else ok (some (path_is (strip_matcher_wildcard first), 1)))
      else (let (negated, kind) = negation_of first (strip_prefix (codes "!") first) in
          keyword_matcher negated kind args)

  -- The fuel counts the tokens: a matcher takes one at least.
  unfoldable pub matchers_from : ℕ → List Text → Option (Result (List Matcher × List Text))
  unfolding parse_one_matcher
  matchers_from zero rest = none
  matchers_from (suc fuel) rest = elim (parse_one_matcher rest) [
    | err m ↦ some (err m)
    | ok none ↦ some (ok ([], rest))
    | ok (some (m, consumed)) ↦ elim (matchers_from fuel (drop consumed rest)) [
      | none ↦ none
      | some r ↦ some (r >>= λ parsed. ok (push_matcher m parsed))
    ]
  ]

  unfoldable pub parse_matchers : List Text → Result (List Matcher × List Text)
  unfolding matchers_from
  parse_matchers tokens = or_no_matchers (matchers_from (suc (length tokens)) tokens)

  unfoldable pub parse_respond : List Text → Bool → Result Directive
  unfolding parse_matchers parse_uint
  parse_respond words block_open = do
    reject_if block_open (codes "unexpected '{' after respond")
    parsed ← parse_matchers (drop 1 words)
    respond_rest parsed

  unfoldable pub parse_error : List Text → Bool → Result Directive
  unfolding parse_matchers error_args
  parse_error words block_open = do
    reject_if block_open (codes "unexpected '{' after error")
    (matcher, rest) ← parse_matchers (drop 1 words)
    (status, message) ← error_args rest none none
    ok (error_page matcher status message)
