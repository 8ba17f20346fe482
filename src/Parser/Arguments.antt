-- ===== src/Parser/Arguments.antt =====
-- config/parser.rs: the directives whose arguments stand on their line. Each takes the line's words, its
-- name first, and whether a `{` ends it.
use raddy.Base.{
  ℕ, ◌-◌, List, [], ◌∷◌, ◌++◌, Option, none, some, Bool, true, false, not, length, drop, take, any,
  ltb, ◌==◌, if◌then◌else◌,
}
use raddy.Config.{LbPolicy, round_robin, random, ip_hash}
use raddy.Config.Source.{
  Directive, header_up, header_down, file_server, root, encode, redir, rewrite, basic_auth,
  forward_auth, trusted_proxies,
}
use raddy.Compression.{Encoding, gzip, zstd, brotli}
use raddy.Config.Wildcard.{text_eq, is_empty}
use raddy.SiteSelection.{first_is}
use raddy.Values.{
  Text, codes, is, about, Result, ok, err, ◌>>=◌, ◌>>◌, reject_if, parse_redirect_code,
}
use raddy.Values.Addresses.{IpAddr, Cidr, parse_cidr}
use raddy.Values.Templates.{parse_template}

abbrev pub concat_tokens : List Text → Text
concat_tokens [] = []
concat_tokens (t ∷ tokens) = t ++ concat_tokens tokens

unfoldable pub parse_lb_policy : List Text → Result LbPolicy
unfolding text_eq
parse_lb_policy (_ ∷ policy ∷ []) =
    if is "round_robin" policy
    then ok round_robin
    else if is "random" policy
    then ok random
    else if is "ip_hash" policy
    then ok ip_hash
    else err (about "unknown lb_policy '" policy "' (expected round_robin, random, or ip_hash)")
parse_lb_policy line = err (codes "lb_policy requires exactly one argument")

abbrev pub header_name : Bool → Text
header_name is_up = if is_up then codes "header_up" else codes "header_down"

unfoldable pub parse_header : List Text → Bool → Bool → Result Directive
unfolding parse_template
parse_header words true is_up = err (codes "unexpected '{' after header directive")
parse_header (_ ∷ name ∷ part ∷ parts) false is_up =
    parse_template (concat_tokens (part ∷ parts)) >>= λ value.
    ok (if is_up then header_up name value else header_down name value)
parse_header words false is_up =
    err (about "" (header_name is_up) " requires a header name and value")

unfoldable pub parse_file_server : List Text → Bool → Result Directive
parse_file_server words block_open = do
  reject_if block_open (codes "unexpected '{' after file_server")
  reject_if (not (length words == 1)) (codes "file_server takes no arguments")
  ok file_server

unfoldable pub parse_root : List Text → Bool → Result Directive
parse_root words true = err (codes "unexpected '{' after root")
parse_root (_ ∷ (c ∷ path) ∷ []) false = ok (root (c ∷ path))
parse_root words false = err (codes "root requires exactly one non-empty path")

unfoldable pub algorithm : Text → Result Encoding
unfolding text_eq
algorithm alg =
    if is "gzip" alg
    then ok gzip
    else if is "zstd" alg
    then ok zstd
    else if is "br" alg
    then ok brotli
    else err (about "unknown encode algorithm '" alg "' (expected gzip, zstd, or br)")

-- The values of all of the words, or the first error (`collect`).
unfoldable pub each : {A : Type 0} → (Text → Result A) → List Text → Result (List A)
each f [] = ok []
each f (w ∷ words) = f w >>= λ a. each f words >>= λ rest. ok (a ∷ rest)

unfoldable pub parse_encode : List Text → Bool → Result Directive
unfolding each algorithm
parse_encode words block_open = do
  reject_if block_open (codes "unexpected '{' after encode")
  reject_if (ltb (length words) 2) (codes "encode requires at least one algorithm (gzip, zstd, br)")
  algorithms ← each algorithm (drop 1 words)
  ok (encode algorithms)

abbrev pub redir_default_code : ℕ
redir_default_code = 308

abbrev pub last_word : List Text → Text
last_word [] = []
last_word (w ∷ []) = w
last_word (w ∷ v ∷ words) = last_word (v ∷ words)

-- Three words or more: the last is a code, or a part of the target where it is a placeholder.
abbrev pub coded_target : List Text → Text → Option ℕ → Result (Text × ℕ)
coded_target words last (some code) =
    ok (concat_tokens (drop 1 (take (length words - 1) words)), code)
coded_target words last none =
    if first_is b'{' last
    then ok (concat_tokens (drop 1 words), redir_default_code)
    else err (
        about "invalid redirect code '" last
          "' (expected a 3xx number, 'permanent', or 'temporary')")

abbrev pub redir_target : List Text → Result (Text × ℕ)
redir_target words =
    if length words == 2
    then ok (concat_tokens (drop 1 words), redir_default_code)
    else coded_target words (last_word words) (parse_redirect_code (last_word words))

unfoldable pub parse_redir : List Text → Bool → Result Directive
unfolding parse_redirect_code
parse_redir words block_open = do
  reject_if block_open (codes "unexpected '{' after redir")
  reject_if (ltb (length words) 2) (codes "redir requires a target")
  (target, code) ← redir_target words
  reject_if (is_empty target) (codes "redir target must not be empty")
  ok (redir target code)

unfoldable pub parse_rewrite : List Text → Bool → Result Directive
unfolding parse_template
parse_rewrite words block_open = do
  reject_if block_open (codes "unexpected '{' after rewrite")
  reject_if (ltb (length words) 2) (codes "rewrite requires a target")
  reject_if (is_empty (concat_tokens (drop 1 words))) (codes "rewrite target must not be empty")
  to ← parse_template (concat_tokens (drop 1 words))
  ok (rewrite to)

unfoldable pub parse_basic_auth : List Text → Bool → Result Directive
parse_basic_auth words true = err (codes "unexpected '{' after basic_auth")
parse_basic_auth (_ ∷ user ∷ hash ∷ []) false = ok (basic_auth user hash)
parse_basic_auth words false = err (codes "basic_auth expects: basic_auth <user> <bcrypt-hash>")

unfoldable pub parse_forward_auth : List Text → Bool → Result Directive
parse_forward_auth words true = err (codes "unexpected '{' after forward_auth")
parse_forward_auth (_ ∷ target ∷ []) false =
    if any (λ c. c == b':') target
    then ok (forward_auth target)
    else err (codes "forward_auth target must be <host:port>")
parse_forward_auth words false = err (codes "forward_auth expects: forward_auth <host:port>")

unfoldable pub parse_networks : (Text → Option IpAddr) → List Text → Result (List Cidr)
unfolding each parse_cidr
parse_networks parse_ip words = do
  reject_if (ltb (length words) 2) (codes "trusted_proxies requires at least one CIDR")
  each (parse_cidr parse_ip) (drop 1 words)

unfoldable pub parse_trusted_proxies : (Text → Option IpAddr) → List Text → Bool → Result Directive
unfolding parse_networks
parse_trusted_proxies parse_ip words block_open = do
  reject_if block_open (codes "unexpected '{' after trusted_proxies")
  networks ← parse_networks parse_ip words
  ok (trusted_proxies networks)
