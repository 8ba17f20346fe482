-- ===== src/Values/HostNames.antt =====
-- config/parser.rs: the host names of sites and of SNI routes, and the paths of matchers.
mod Labels
pub mod Canonical
use raddy.Base.{
  ℕ, List, [], ◌∷◌, ◌++◌, Option, none, some, Bool, true, false, not, ◌&&◌, ◌||◌, any, all, length,
  leb, ltb, ◌==◌, if◌then◌else◌,
}
use raddy.Base.Ascii.{is_white, is_digit, is_ascii, to_ascii_lowercase}
use raddy.Compression.{split}
use raddy.Config.Wildcard.{strip_prefix, is_empty}
use raddy.SiteSelection.{first_is, last_is, without_dot}
use raddy.Values.{Text, codes, Result, ok, err, ◌>>=◌, ◌>>◌, reject_if}

abbrev pub is_ascii_alphanumeric : ℕ → Bool
is_ascii_alphanumeric b = is_digit b || ((leb b'A' b && leb b b'Z') || (leb b'a' b && leb b b'z'))

unfoldable pub check_label : Text → Result (Unit {0})
check_label label = do
  reject_if (is_empty label) (codes "site hostname contains an empty label")
  reject_if (ltb 63 (length label)) (codes "site hostname label is too long (max 63 chars)")
  reject_if (not (all (λ b. is_ascii_alphanumeric b || b == b'-') label))
      (codes "site hostname contains an invalid character")
  reject_if (first_is b'-' label || last_is b'-' label)
      (codes "site hostname label must not start or end with '-'")

unfoldable pub check_labels : List Text → Result (Unit {0})
unfolding check_label
check_labels [] = ok tt
check_labels (label ∷ labels) = check_label label >> check_labels labels

-- Whether a `*.` stood in front, and the host behind it.
abbrev pub wildcard_of : Text → Option Text → Result (Bool × Text)
wildcard_of host none = ok (false, host)
wildcard_of host (some suffix) =
    if is_empty suffix
    then err (codes "wildcard site hostname must include a suffix")
    else ok (true, suffix)

-- The host without its last dot, which is not empty and not too long.
unfoldable pub normalize_labels : Text → Result Text
unfolding strip_prefix check_labels split
normalize_labels whole = do
  (wildcard, host) ← wildcard_of whole (strip_prefix (codes "*.") whole)
  reject_if (any (λ c. c == b'*') host) (codes "wildcard is only allowed as the leading '*.' label")
  check_labels (split b'.' host)
  let normalized = to_ascii_lowercase host
  ok (if wildcard then codes "*." ++ normalized else normalized)

unfoldable pub normalize_host_name : Text → Result Text
unfolding normalize_labels without_dot is_ascii
normalize_host_name host = do
  reject_if (any is_white host) (codes "site hostname must not contain whitespace")
  reject_if (not (all is_ascii host)) (codes "site hostname must be ASCII")
  let whole = without_dot host
  reject_if (is_empty whole) (codes "site hostname must not be empty")
  reject_if (ltb 253 (length whole)) (codes "site hostname is too long (max 253 chars)")
  normalize_labels whole

-- `trim_end_matches` of a character.
unfoldable pub trim_end_matches : ℕ → Text → Text
trim_end_matches b [] = []
trim_end_matches b (c ∷ text) =
    let rest = trim_end_matches b text in if is_empty rest && c == b then [] else c ∷ rest

unfoldable pub strip_matcher_wildcard : Text → Text
unfolding trim_end_matches
strip_matcher_wildcard path =
    let prefix = trim_end_matches b'/' (trim_end_matches b'*' path) in
    if is_empty prefix then codes "/" else prefix
