-- ===== src/Values/Printed.antt =====
-- config/parser.rs: durations and sizes read back what is printed.
use raddy.Base.{
  ℕ, ◌+◌, ◌-◌, ◌*◌, ◌^◌, ◌<◌, ◌≤◌, List, [], ◌∷◌, ◌++◌, Option, none, some, Bool, true, false, not,
  any, ltb, ◌||◌, Option-cases, ◌==◌, if◌then◌else◌, append-nil, ◌≡◌, refl, arith, Bool-cases, inl,
  inr, ltb→lt,
}
use raddy.Base.Ascii.{is_digit}
use raddy.ByteRange.Canonical.{IsNumber}
use raddy.Config.Wildcard.{strip_suffix, text_eq, push_front}
use raddy.SiteSelection.{decimal}
use native.Mathlib.Nat.{mul-le-mul_left}
use raddy.Values.{
  ok_or, Text, codes, Result, ok, err, ◌>>=◌, digits_below, parse_uint, u64_limit, by_suffix,
  or_bare, checked_mul, time_units, duration_value, parse_duration, size_units, parse_bytes,
}

decimal_le : (n : ℕ) (text : Text) → n ≤ decimal n text
unfolding decimal
decimal_le n [] = omega arith
decimal_le n (c ∷ text) = omega (arith, decimal_le (n * 10 + (c - b'0')) text)

digits_below-decimal :
    (limit n : ℕ) (text : Text)
    → any (λ c. not (is_digit c)) text ≡ false
    → decimal n text < limit
    → digits_below limit n text ≡ some (decimal n text)
unfolding digits_below decimal
digits_below-decimal limit n [] h small = refl
digits_below-decimal limit n (c ∷ text) h small =
    let above = decimal_le (n * 10 + (c - b'0')) text in
    let rest = digits_below-decimal limit (n * 10 + (c - b'0')) text (ground arith) small in
    ground arith

-- A number of digits is read as its value, if that is below the limit.
pub parse_uint-decimal :
    (limit : ℕ) (text : Text)
    → IsNumber text
    → decimal 0 text < limit
    → parse_uint limit text ≡ some (decimal 0 text)
unfolding parse_uint
parse_uint-decimal limit [] h small = absurd (let e = h.some_digit in cc)
parse_uint-decimal limit (c ∷ []) h small = digits_below-decimal limit 0 (c ∷ []) h.digits small
parse_uint-decimal limit (c ∷ d ∷ text) h small =
    let digits = h.digits in
    let rest = digits_below-decimal limit 0 (c ∷ d ∷ text) digits small in
    let no_sign : (c == b'+') ≡ false = ground arith in rw (no_sign) rest

-- A value from the limit on is not read.
digits_below-none :
    (limit n : ℕ) (text : Text)
    → n < limit
    → limit ≤ decimal n text
    → digits_below limit n text ≡ none
unfolding digits_below decimal
digits_below-none limit n [] small large = absurd (omega arith)
digits_below-none limit n (c ∷ text) small large =
    elim (Bool-cases (ltb (n * 10 + (c - b'0')) limit)) [
      | inl e ↦
          let rest = digits_below-none limit (n * 10 + (c - b'0')) text (ltb→lt _ _ e) large in
          ground arith
      | inr e ↦ ground arith
    ]

parse_uint-none :
    (limit : ℕ) (text : Text)
    → IsNumber text
    → 0 < limit
    → limit ≤ decimal 0 text
    → parse_uint limit text ≡ none
unfolding parse_uint
parse_uint-none limit [] h small large = absurd (let e = h.some_digit in cc)
parse_uint-none limit (c ∷ []) h small large = digits_below-none limit 0 (c ∷ []) small large
parse_uint-none limit (c ∷ d ∷ text) h small large =
    let digits = h.digits in
    let rest = digits_below-none limit 0 (c ∷ d ∷ text) small large in
    let no_sign : (c == b'+') ≡ false = ground arith in rw (no_sign) rest

abbrev prepend : Text → Option Text → Option Text
prepend digits none = none
prepend digits (some text) = some (digits ++ text)

abbrev begins_with_digit : Text → Bool
begins_with_digit [] = true
begins_with_digit (c ∷ text) = is_digit c

prepend_nil : (o : Option Text) → o ≡ prepend [] o
prepend_nil none = refl
prepend_nil (some text) = refl

prepend_cons :
    (c : ℕ) (digits : Text) (o : Option Text)
    → push_front c (prepend digits o) ≡ prepend (c ∷ digits) o
prepend_cons c digits none = refl
prepend_cons c digits (some text) = refl

-- No suffix begins within the digits.
strip_suffix-number :
    (suffix digits other : Text)
    → begins_with_digit suffix ≡ false
    → any (λ c. not (is_digit c)) digits ≡ false
    → strip_suffix suffix (digits ++ other) ≡ prepend digits (strip_suffix suffix other)
unfolding strip_suffix text_eq
strip_suffix-number suffix [] other h hd = prepend_nil (strip_suffix suffix other)
strip_suffix-number [] (c ∷ digits) other h hd = absurd cc
strip_suffix-number (s ∷ suffix) (c ∷ digits) other h hd =
    let rest = strip_suffix-number (s ∷ suffix) digits other h (ground arith) in
    let differs : (c == s) ≡ false = ground arith in
    rw (differs, rest) (prepend_cons c digits (strip_suffix (s ∷ suffix) other))

abbrev prepend_first : Text → Option (Text × ℕ) → Option (Text × ℕ)
prepend_first digits none = none
prepend_first digits (some (text, unit)) = some (digits ++ text, unit)

abbrev begin_with_digits : List (Text × ℕ) → Bool
begin_with_digits [] = false
begin_with_digits ((suffix, unit) ∷ table) = begins_with_digit suffix || begin_with_digits table

by_suffix-number :
    (table : List (Text × ℕ)) (digits other : Text)
    → begin_with_digits table ≡ false
    → any (λ c. not (is_digit c)) digits ≡ false
    → by_suffix table (digits ++ other) ≡ prepend_first digits (by_suffix table other)
unfolding by_suffix
by_suffix-number [] digits other h hd = refl
by_suffix-number ((suffix, unit) ∷ table) digits other h hd =
    let here = strip_suffix-number suffix digits other (ground arith) hd in
    let rest = by_suffix-number table digits other (ground arith) hd in
    elim (Option-cases (strip_suffix suffix other)) [
      | inl e ↦ rw (here, e, rest, by_suffix) refl
      | inr (before, e) ↦ rw (here, e, by_suffix) refl
    ]

-- The units of a duration as they are written, and their nanoseconds.
pub data TimeUnit : Type 0 where
  milliseconds seconds minutes hours bare : TimeUnit

abbrev pub suffix_of : TimeUnit → Text
suffix_of milliseconds = codes "ms"
suffix_of seconds = codes "s"
suffix_of minutes = codes "m"
suffix_of hours = codes "h"
suffix_of bare = []

abbrev pub nanos_of : TimeUnit → ℕ
nanos_of milliseconds = 1_000_000
nanos_of seconds = 1_000_000_000
nanos_of minutes = 60_000_000_000
nanos_of hours = 3_600_000_000_000
nanos_of bare = 1_000_000_000

nanos_of_pos : (u : TimeUnit) → 0 < nanos_of u
nanos_of_pos milliseconds = omega arith
nanos_of_pos seconds = omega arith
nanos_of_pos minutes = omega arith
nanos_of_pos hours = omega arith
nanos_of_pos bare = omega arith

time_unit :
    (u : TimeUnit) (digits : Text)
    → any (λ c. not (is_digit c)) digits ≡ false
    → or_bare (digits ++ suffix_of u) (by_suffix time_units (digits ++ suffix_of u)) 1_000_000_000
      ≡ (digits, nanos_of u)
unfolding by_suffix strip_suffix text_eq
time_unit milliseconds digits h =
    rw (by_suffix-number time_units digits (suffix_of milliseconds) refl h, append-nil digits) refl
time_unit seconds digits h =
    rw (by_suffix-number time_units digits (suffix_of seconds) refl h, append-nil digits) refl
time_unit minutes digits h =
    rw (by_suffix-number time_units digits (suffix_of minutes) refl h, append-nil digits) refl
time_unit hours digits h =
    rw (by_suffix-number time_units digits (suffix_of hours) refl h, append-nil digits) refl
time_unit bare digits h =
    rw (by_suffix-number time_units digits (suffix_of bare) refl h, append-nil digits) refl

-- The value of a result, without the message.
abbrev pub value_of : {A : Type 0} → Result A → Option A
value_of (ok a) = some a
value_of (err message) = none

-- A value that fits into 64 bits.
abbrev pub fitting : ℕ → Option ℕ
fitting n = if ltb n u64_limit then some n else none

-- A number that is read, times its unit.
scaled :
    (digits : Text) (n : ℕ) (invalid large : Text)
    → IsNumber digits
    → 0 < n
    → value_of (ok_or (parse_uint u64_limit digits) invalid >>= λ v. checked_mul v n large)
      ≡ fitting (decimal 0 digits * n)
scaled digits n invalid large number positive =
    elim (Bool-cases (ltb (decimal 0 digits) u64_limit)) [
      | inl e ↦
          rw (parse_uint-decimal u64_limit digits number (ltb→lt _ _ e))
            (elim (Bool-cases (ltb (decimal 0 digits * n) u64_limit)) [
              | inl f ↦ rw f refl
              | inr f ↦ rw f refl
            ])
      | inr e ↦
          let beyond : u64_limit ≤ decimal 0 digits = ground arith in
          let product : ltb (decimal 0 digits * n) u64_limit ≡ false =
            ground (arith, mul-le-mul_left (decimal 0 digits) positive) in
          rw (parse_uint-none u64_limit digits number (omega arith) beyond, product) refl
    ]

-- For a number of any length and any of the units of time, or none, the duration that is read is
-- the number times the nanoseconds of the unit where that is below 2^64, and none is read
-- otherwise.
pub parse_duration-printed :
    (name digits : Text) (u : TimeUnit)
    → IsNumber digits
    → value_of (parse_duration (name ∷ (digits ++ suffix_of u) ∷ []))
      ≡ fitting (decimal 0 digits * nanos_of u)
unfolding parse_duration duration_value
parse_duration-printed name digits u number =
    rw (time_unit u digits number.digits) (scaled digits (nanos_of u) _ _ number (nanos_of_pos u))

-- The units of a size, and their bytes.
pub data SizeUnit : Type 0 where
  kibibytes mebibytes gibibytes kilobytes megabytes gigabytes bytes : SizeUnit

abbrev pub size_suffix : SizeUnit → Text
size_suffix kibibytes = codes "KiB"
size_suffix mebibytes = codes "MiB"
size_suffix gibibytes = codes "GiB"
size_suffix kilobytes = codes "kB"
size_suffix megabytes = codes "MB"
size_suffix gigabytes = codes "GB"
size_suffix bytes = []

abbrev pub bytes_of : SizeUnit → ℕ
bytes_of kibibytes = 2 ^ 10
bytes_of mebibytes = 2 ^ 20
bytes_of gibibytes = 2 ^ 30
bytes_of kilobytes = 10 ^ 3
bytes_of megabytes = 10 ^ 6
bytes_of gigabytes = 10 ^ 9
bytes_of bytes = 1

bytes_of_pos : (u : SizeUnit) → 0 < bytes_of u
bytes_of_pos kibibytes = omega arith
bytes_of_pos mebibytes = omega arith
bytes_of_pos gibibytes = omega arith
bytes_of_pos kilobytes = omega arith
bytes_of_pos megabytes = omega arith
bytes_of_pos gigabytes = omega arith
bytes_of_pos bytes = omega arith

size_unit :
    (u : SizeUnit) (digits : Text)
    → any (λ c. not (is_digit c)) digits ≡ false
    → or_bare (digits ++ size_suffix u) (by_suffix size_units (digits ++ size_suffix u)) 1
      ≡ (digits, bytes_of u)
unfolding by_suffix strip_suffix text_eq
size_unit kibibytes digits h =
    rw (by_suffix-number size_units digits (size_suffix kibibytes) refl h, append-nil digits) refl
size_unit mebibytes digits h =
    rw (by_suffix-number size_units digits (size_suffix mebibytes) refl h, append-nil digits) refl
size_unit gibibytes digits h =
    rw (by_suffix-number size_units digits (size_suffix gibibytes) refl h, append-nil digits) refl
size_unit kilobytes digits h =
    rw (by_suffix-number size_units digits (size_suffix kilobytes) refl h, append-nil digits) refl
size_unit megabytes digits h =
    rw (by_suffix-number size_units digits (size_suffix megabytes) refl h, append-nil digits) refl
size_unit gigabytes digits h =
    rw (by_suffix-number size_units digits (size_suffix gigabytes) refl h, append-nil digits) refl
size_unit bytes digits h =
    rw (by_suffix-number size_units digits (size_suffix bytes) refl h, append-nil digits) refl

-- A size of digits and a unit is read as its value where that fits.
pub parse_bytes-printed :
    (digits : Text) (u : SizeUnit)
    → IsNumber digits
    → value_of (parse_bytes (digits ++ size_suffix u)) ≡ fitting (decimal 0 digits * bytes_of u)
unfolding parse_bytes
parse_bytes-printed digits u number =
    rw (size_unit u digits number.digits) (scaled digits (bytes_of u) _ _ number (bytes_of_pos u))
