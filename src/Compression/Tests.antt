-- ===== src/Compression/Tests.antt =====
-- proxy/compress.rs: choices for small headers. A weight is a number, and the parser knows one digit.
use raddy.Base.{ℕ, ◌-◌, ◌≡◌, refl, List, [], ◌∷◌, Option, none, some, Bool, ltb}
use raddy.Base.Ascii.{lower, is_ascii_uppercase}
use raddy.Config.Wildcard.{text_eq, strip_prefix}
use raddy.ByteRange.{trim, trim_start, trim_end, split_once}
use raddy.Compression.{
  Entry, gzip, zstd, zstd_algo, choose, choose_from, accepted, find_entry, parse_accept_encoding,
  parse_entries, parse_entry, parse_q, split,
}
use raddy.Compression.Entries.{Describes}
use raddy.Compression.First.{Chooses, choose-Chooses}

abbrev positive : ℕ → Bool
positive = λ n. ltb 0 n

abbrev one_digit : List ℕ → Option ℕ
one_digit [] = none
one_digit (c ∷ text) = some (c - b'0')

-- `gzip;q=0, *`.
abbrev header : List ℕ
header = b'g' ∷ b'z' ∷ b'i' ∷ b'p' ∷ b';' ∷ b'q' ∷ b'=' ∷ b'0' ∷ b',' ∷ 32 ∷ b'*' ∷ []

choose_test : choose ℕ 1 positive one_digit (gzip ∷ zstd ∷ []) (some (some header)) ≡ some zstd_algo
unfolding choose choose_from accepted find_entry parse_accept_encoding parse_entries parse_entry
    parse_q split trim trim_start trim_end split_once text_eq strip_prefix lower is_ascii_uppercase
choose_test = refl

choose-Chooses_example :
    (entries : List (Entry ℕ 1 positive one_digit)) × Describes ℕ 1 positive one_digit header
      entries
    × Chooses ℕ 1 positive one_digit entries
        (gzip ∷ zstd ∷ [])
        (choose ℕ 1 positive one_digit (gzip ∷ zstd ∷ []) (some (some header)))
choose-Chooses_example = choose-Chooses ℕ 1 positive one_digit (gzip ∷ zstd ∷ []) header
