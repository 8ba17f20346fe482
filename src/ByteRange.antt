-- ===== src/ByteRange.antt =====
-- proxy/fs.rs: the byte range that a request names (`parse_range`), and the stream of a response body
-- without compression. A text is a list of code points, a file a list of bytes.
pub mod Requested
pub mod Canonical
pub mod Body
mod Tests
use raddy.Base.{
  ℕ, zero, suc, ◌+◌, ◌-◌, ◌*◌, ◌^◌, List, [], ◌∷◌, ◌++◌, Option, none, some, Bool, true, false, not,
  ◌&&◌, ◌||◌, length, take, drop, min, any, ltb, leb, ◌==◌, if◌then◌else◌,
}
use raddy.Base.Map.{map_option}
use raddy.Base.Ascii.{is_white, is_digit, to_ascii_lowercase}
use raddy.Config.Wildcard.{text_eq, is_empty}

pub data RangeSpec : Type 0 where
  no_range : RangeSpec
  satisfiable : (start end : ℕ) → RangeSpec
  unsatisfiable : RangeSpec

unfoldable pub trim_start : List ℕ → List ℕ
trim_start [] = []
trim_start (c ∷ text) = elim (is_white c) [ true ↦ trim_start text | false ↦ c ∷ text ]

unfoldable pub trim_end : List ℕ → List ℕ
trim_end [] = []
trim_end (c ∷ text) =
    let rest = trim_end text in if is_empty rest && is_white c then [] else c ∷ rest

unfoldable pub trim : List ℕ → List ℕ
unfolding trim_start trim_end
trim text = trim_end (trim_start text)

-- `parse::<u64>` behind the sign: digits whose value fits.
unfoldable pub parse_digits : ℕ → List ℕ → Option ℕ
parse_digits n [] = some n
parse_digits n (c ∷ text) =
    let rest = parse_digits (n * 10 + (c - b'0')) text in
    if is_digit c && ltb (n * 10 + (c - b'0')) (2 ^ 64) then rest else none

unfoldable pub parse_u64 : List ℕ → Option ℕ
unfolding parse_digits
parse_u64 [] = none
parse_u64 (c ∷ []) = parse_digits 0 (c ∷ [])
parse_u64 (c ∷ d ∷ text) =
    if c == b'+' then parse_digits 0 (d ∷ text) else parse_digits 0 (c ∷ d ∷ text)

unfoldable pub split_once : ℕ → List ℕ → Option (List ℕ × List ℕ)
split_once b [] = none
split_once b (c ∷ text) = elim (c == b) [
  | true ↦ some ([], text)
  | false ↦ map_option (λ p. (c ∷ p.0, p.1)) (split_once b text)
]

abbrev pub saturating_add : ℕ → ℕ → ℕ
saturating_add a b = min (a + b) (2 ^ 64 - 1)

-- `-n`: the last bytes.
abbrev pub suffix_range : Option ℕ → ℕ → RangeSpec
suffix_range none size = unsatisfiable
suffix_range (some n) size =
    if n == 0 || size == 0 then unsatisfiable else satisfiable (size - min n size) size

-- The exclusive end, for the text behind the dash.
abbrev pub range_end : List ℕ → ℕ → Option ℕ
range_end [] size = some size
range_end (c ∷ text) size = map_option (λ i. min (saturating_add i 1) size) (parse_u64 (c ∷ text))

abbrev pub between : ℕ → Option ℕ → RangeSpec
between start none = unsatisfiable
between start (some end) = if leb end start then unsatisfiable else satisfiable start end

-- `start-end` and `start-`.
abbrev pub first_range : Option ℕ → List ℕ → ℕ → RangeSpec
first_range none end_part size = unsatisfiable
first_range (some start) end_part size =
    if leb size start then unsatisfiable else between start (range_end end_part size)

abbrev pub split_range : Option (List ℕ × List ℕ) → ℕ → RangeSpec
split_range none size = unsatisfiable
split_range (some (start, end)) size = first_range (parse_u64 (trim start)) (trim end) size

-- What is left of the header behind its unit, trimmed.
abbrev pub trimmed_range : List ℕ → ℕ → RangeSpec
trimmed_range [] size = unsatisfiable
trimmed_range (c ∷ spec) size =
    if c == b'-'
    then suffix_range (parse_u64 (trim spec)) size
    else split_range (split_once b'-' (c ∷ spec)) size

abbrev pub bytes_unit : List ℕ
bytes_unit = b'b' ∷ b'y' ∷ b't' ∷ b'e' ∷ b's' ∷ b'=' ∷ []

-- The header's text, where it is UTF-8. Its first six bytes are the unit exactly when its first six
-- code points are.
unfoldable pub parse_range : Option (Option (List ℕ)) → ℕ → RangeSpec
unfolding trim text_eq
parse_range none size = no_range
parse_range (some none) size = unsatisfiable
parse_range (some (some value)) size =
    if text_eq (to_ascii_lowercase (take 6 value)) bytes_unit
    then (if any (λ c. c == b',') (drop 6 value)
        then unsatisfiable
        else trimmed_range (trim (drop 6 value)) size)
    else no_range

abbrev pub chunk_size : ℕ
chunk_size = 64 * 1024

pub data Streamed : Type 0 where
  sent : (chunks : List (List ℕ × Bool)) → Streamed
  truncated : (chunks : List (List ℕ × Bool)) → Streamed
  stuck : Streamed

abbrev pub push : List ℕ × Bool → Streamed → Streamed
push chunk (sent chunks) = sent (chunk ∷ chunks)
push chunk (truncated chunks) = truncated (chunk ∷ chunks)
push chunk stuck = stuck

-- What a read gives at most: the size of a list, or all that is asked for behind its end.
abbrev pub most : List ℕ → ℕ → ℕ
most [] want = want
most (r ∷ reads) want = min r want

abbrev pub later_reads : List ℕ → List ℕ
later_reads [] = []
later_reads (r ∷ reads) = reads

-- The loop over the body; `file` is what is left of it behind the position.
unfoldable pub stream : ℕ → List ℕ → List ℕ → ℕ → Streamed
stream zero reads file remaining = stuck
stream (suc fuel) reads file remaining =
    let n = min (most reads (min remaining chunk_size)) (length file) in
    let rest = stream fuel (later_reads reads) (drop n file) (remaining - n) in
    if n == 0 && ltb 0 remaining
    then truncated []
    else if remaining - n == 0
    then sent ((take n file, true) ∷ [])
    else push (take n file, false) rest
