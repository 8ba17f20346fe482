-- ===== src/Values.antt =====
-- config/parser.rs: the values of a directive's arguments: durations, counters, rates, sizes and codes. A
-- text is a list of code points. A duration is a number of nanoseconds.
pub mod Addresses
pub mod HostNames
pub mod Templates
pub mod Printed
pub mod Results
use Prim.Native.Char.{code}
use Prim.Native.String.{String}
use raddy.Base.{
  ℕ, ◌+◌, ◌-◌, ◌*◌, ◌^◌, List, [], ◌∷◌, ◌++◌, Option, none, some, Bool, true, false, ◌&&◌, ltb, leb,
  ◌==◌, if◌then◌else◌,
}
use raddy.Base.Ascii.{is_digit}
use raddy.Config.{RateUnit, second, minute, hour, day}
use raddy.Config.Wildcard.{strip_suffix, text_eq}

abbrev pub Text : Type 0
Text = List ℕ

-- The code points of a literal.
abbrev pub codes : String → Text
codes String.[] = []
codes (String.◌∷◌ c s) = code c ∷ codes s

-- Whether a text is the literal.
abbrev pub is : String → Text → Bool
is s text = text_eq text (codes s)

-- A value, or the message of the error.
pub data Result (A : Type 0) : Type 0 where
  ok : A → Result A
  err : (message : Text) → Result A

infixl 5 ◌>>=◌ ◌>>◌
abbrev pub ◌>>=◌ : {A B : Type 0} → Result A → (A → Result B) → Result B
ok a >>= f = f a
err message >>= f = err message

abbrev pub ◌>>◌ : {B : Type 0} → Result (Unit {0}) → Result B → Result B
m >> k = m >>= λ _. k

abbrev pub reject_if : Bool → Text → Result (Unit {0})
reject_if true message = err message
reject_if false message = ok tt

abbrev pub ok_or : {A : Type 0} → Option A → Text → Result A
ok_or none message = err message
ok_or (some a) message = ok a

-- A message with a text between its two parts.
abbrev pub about : String → Text → String → Text
about before text behind = codes before ++ text ++ codes behind

-- `str::parse` to an unsigned type with the values below `limit`.
unfoldable pub digits_below : ℕ → ℕ → Text → Option ℕ
digits_below limit n [] = some n
digits_below limit n (c ∷ text) =
    let rest = digits_below limit (n * 10 + (c - b'0')) text in
    if is_digit c && ltb (n * 10 + (c - b'0')) limit then rest else none

unfoldable pub parse_uint : ℕ → Text → Option ℕ
parse_uint limit [] = none
parse_uint limit (c ∷ []) = digits_below limit 0 (c ∷ [])
parse_uint limit (c ∷ d ∷ text) =
    if c == b'+' then digits_below limit 0 (d ∷ text) else digits_below limit 0 (c ∷ d ∷ text)

abbrev pub u16_limit : ℕ
u16_limit = 2 ^ 16

abbrev pub u64_limit : ℕ
u64_limit = 2 ^ 64

-- The first suffix of a table that a text has: what stands before it, and its unit.
unfoldable pub by_suffix : {U : Type 0} → List (Text × U) → Text → Option (Text × U)
by_suffix [] text = none
by_suffix ((suffix, unit) ∷ table) text = elim (strip_suffix suffix text) [
  | some before ↦ some (before, unit)
  | none ↦ by_suffix table text
]

abbrev pub or_bare : Text → Option (Text × ℕ) → ℕ → Text × ℕ
or_bare text none unit = (text, unit)
or_bare text (some split) unit = split

abbrev pub checked_mul : ℕ → ℕ → Text → Result ℕ
checked_mul n factor message = if ltb (n * factor) u64_limit then ok (n * factor) else err message

abbrev pub time_units : List (Text × ℕ)
time_units =
    (codes "ms", 1_000_000)
    ∷ (codes "s", 1_000_000_000)
    ∷ (codes "m", 60 * 1_000_000_000)
    ∷ (codes "h", 3600 * 1_000_000_000)
    ∷ []

-- The name of a line's directive; a line has one.
abbrev pub first_word : List Text → Text
first_word [] = []
first_word (name ∷ args) = name

unfoldable pub duration_value : Text → Result ℕ
unfolding by_suffix
duration_value s = do
  let (num, factor_nanos) = or_bare s (by_suffix time_units s) 1_000_000_000
  n ← ok_or (parse_uint u64_limit num) (about "invalid duration '" s "'")
  checked_mul n factor_nanos (about "duration '" s "' is too large")

unfoldable pub parse_duration : List Text → Result ℕ
parse_duration (name ∷ s ∷ []) = duration_value s
parse_duration line = err (about "'" (first_word line) "' requires exactly one duration value")

unfoldable pub parse_count : List Text → Text → Result ℕ
parse_count (_ ∷ v ∷ []) name = do
  n ← ok_or (parse_uint u64_limit v) (about "invalid " name (" value '") ++ v ++ codes "'")
  reject_if (n == 0) (name ++ codes " must be >= 1")
  ok n
parse_count line name = err (about "'" name "' requires exactly one integer value")

abbrev pub rate_units : List (Text × RateUnit)
rate_units =
    (codes "r/s", second) ∷ (codes "r/m", minute) ∷ (codes "r/h", hour) ∷ (codes "r/d", day) ∷ []

unfoldable pub parse_rate : Text → Result (ℕ × RateUnit)
unfolding by_suffix
parse_rate token = do
  (count_str, unit) ←
      ok_or (by_suffix rate_units token)
        (about "invalid rate '" token "' (expected <count>r/<s|m|h|d>)")
  count ← ok_or (parse_uint u64_limit count_str) (about "invalid rate '" token "'")
  reject_if (ltb count 1) (about "rate count must be >= 1: '" token "'")
  ok (count, unit)

abbrev pub size_units : List (Text × ℕ)
size_units =
    (codes "KiB", 1024)
    ∷ (codes "MiB", 1024 * 1024)
    ∷ (codes "GiB", 1024 * 1024 * 1024)
    ∷ (codes "kB", 1000)
    ∷ (codes "MB", 1000 * 1000)
    ∷ (codes "GB", 1000 * 1000 * 1000)
    ∷ []

-- `usize` has 64 bits.
unfoldable pub parse_bytes : Text → Result ℕ
unfolding by_suffix
parse_bytes s = do
  let (num, mult) = or_bare s (by_suffix size_units s) 1
  n ← ok_or (parse_uint u64_limit num) (about "invalid byte size '" s "'")
  checked_mul n mult (about "byte size '" s "' is too large")

abbrev pub redirect_in_range : Option ℕ → Option ℕ
redirect_in_range none = none
redirect_in_range (some c) = if leb 300 c && leb c 399 then some c else none

unfoldable pub parse_redirect_code : Text → Option ℕ
unfolding text_eq parse_uint
parse_redirect_code s =
    if is "permanent" s
    then some 308
    else if is "temporary" s
    then some 302
    else redirect_in_range (parse_uint u16_limit s)
