-- ===== src/ByteRange/Tests.antt =====
-- proxy/fs.rs: ranges and streams at concrete files.
use raddy.Base.{
  ◌+◌, ◌≡◌, refl, [], ◌∷◌, ◌++◌, some, false, ◌&&◌, arith, min, ltb, leb, if◌then◌else◌,
}
use raddy.Base.Ascii.{lower, is_ascii_uppercase}
use raddy.Config.Wildcard.{text_eq}
use raddy.ByteRange.{
  satisfiable, unsatisfiable, truncated, stream, parse_range, parse_u64, parse_digits, split_once,
  trim, trim_start, trim_end, bytes_unit,
}
use raddy.ByteRange.Canonical.{parse_range-first_last}

runs : Unit {0}
unfolding parse_range parse_u64 parse_digits split_once trim trim_start trim_end text_eq lower
    is_ascii_uppercase stream
runs = tt

-- `Bytes= 2 - ` and `bytes=-3` of ten bytes.
range_test :
    (parse_range
        (some (some (b'B' ∷ b'y' ∷ b't' ∷ b'e' ∷ b's' ∷ b'=' ∷ 32 ∷ b'2' ∷ 32 ∷ b'-' ∷ 32 ∷ [])))
        10
      ≡ satisfiable 2 10)
    × (parse_range (some (some (bytes_unit ++ b'-' ∷ b'3' ∷ []))) 10 ≡ satisfiable 7 10)
unfolding runs
range_test = (refl, refl)

-- A file that shrank.
shrunk_test : stream 9 [] (1 ∷ 2 ∷ []) 3 ≡ truncated ((1 ∷ 2 ∷ [], false) ∷ [])
unfolding runs
shrunk_test = refl

parse_range-first_last_example :
    parse_range (some (some (bytes_unit ++ (b'2' ∷ []) ++ b'-' ∷ b'5' ∷ []))) 10
    ≡ (if ltb 2 10 && leb 2 5 then satisfiable 2 (min (5 + 1) 10) else unsatisfiable)
unfolding runs
parse_range-first_last_example =
    parse_range-first_last (b'2' ∷ []) (b'5' ∷ []) 2 5 10
      (record { some_digit = refl; digits = refl }) (record { some_digit = refl; digits = refl })
      refl refl (omega arith)
