-- ===== src/ByteRange/Requested.antt =====
-- proxy/fs.rs: the ranges that `parse_range` gives.
use raddy.Base.{
  ℕ, ◌≤◌, ◌<◌, ◌≡◌, refl, List, [], ◌∷◌, Option, none, some, ◌||◌, take, drop, any, leb, ◌==◌,
  arith, inl, inr, Bool-cases, Option-cases,
}
use raddy.Base.Ascii.{to_ascii_lowercase}
use raddy.Config.Wildcard.{text_eq}
use raddy.ByteRange.{
  RangeSpec, no_range, satisfiable, unsatisfiable, trim, parse_u64, split_once, suffix_range,
  range_end, between, first_range, split_range, trimmed_range, parse_range, bytes_unit,
}

-- A range that is served is not empty and lies within the file.
abbrev pub IsWithin : ℕ → RangeSpec → Type 0
IsWithin size no_range = Unit {0}
IsWithin size (satisfiable start end) = (start < end) × (end ≤ size)
IsWithin size unsatisfiable = Unit {0}

suffix_range-IsWithin : (n : Option ℕ) (size : ℕ) → IsWithin size (suffix_range n size)
suffix_range-IsWithin none size = tt
suffix_range-IsWithin (some n) size = elim (Bool-cases (n == 0 || size == 0)) [
  | inl bad ↦ rw bad tt
  | inr fine ↦ rw fine (ground arith)
]

range_end-le : (text : List ℕ) (size end : ℕ) → range_end text size ≡ some end → end ≤ size
range_end-le [] size end h = ground arith
range_end-le (c ∷ text) size end h = elim (Option-cases (parse_u64 (c ∷ text))) [
  | inl gone ↦ absurd (ground arith)
  | inr (i, there) ↦ ground arith
]

between-IsWithin :
    (start size : ℕ) (end : Option ℕ)
    → ((e : ℕ) → end ≡ some e → e ≤ size)
    → IsWithin size (between start end)
between-IsWithin start size none h = tt
between-IsWithin start size (some end) h = elim (Bool-cases (leb end start)) [
  | inl bad ↦ rw bad tt
  | inr fine ↦ rw fine (ground arith, h end refl)
]

first_range-IsWithin :
    (start : Option ℕ) (end_part : List ℕ) (size : ℕ)
    → IsWithin size (first_range start end_part size)
first_range-IsWithin none end_part size = tt
first_range-IsWithin (some start) end_part size = elim (Bool-cases (leb size start)) [
  | inl bad ↦ rw bad tt
  | inr fine ↦
      rw fine (between-IsWithin start size (range_end end_part size) (range_end-le end_part size))
]

split_range-IsWithin :
    (parts : Option (List ℕ × List ℕ)) (size : ℕ) → IsWithin size (split_range parts size)
split_range-IsWithin none size = tt
split_range-IsWithin (some (start, end)) size =
    first_range-IsWithin (parse_u64 (trim start)) (trim end) size

trimmed_range-IsWithin : (spec : List ℕ) (size : ℕ) → IsWithin size (trimmed_range spec size)
trimmed_range-IsWithin [] size = tt
trimmed_range-IsWithin (c ∷ spec) size = elim (Bool-cases (c == b'-')) [
  | inl suffix ↦ rw suffix (suffix_range-IsWithin (parse_u64 (trim spec)) size)
  | inr other ↦ rw other (split_range-IsWithin (split_once b'-' (c ∷ spec)) size)
]

-- Whatever the header and the size of the file, a range that is given is not empty and ends
-- within the file.
pub parse_range-IsWithin :
    (header : Option (Option (List ℕ))) (size : ℕ) → IsWithin size (parse_range header size)
unfolding parse_range
parse_range-IsWithin none size = tt
parse_range-IsWithin (some none) size = tt
parse_range-IsWithin (some (some value)) size =
    elim (Bool-cases (text_eq (to_ascii_lowercase (take 6 value)) bytes_unit)) [
      | inr other ↦ rw (other, parse_range) tt
      | inl unit ↦ elim (Bool-cases (any (λ c. c == b',') (drop 6 value))) [
        | inl many ↦ rw (unit, parse_range) (rw many tt)
        | inr one ↦
            rw (unit, parse_range) (rw one (trimmed_range-IsWithin (trim (drop 6 value)) size))
      ]
    ]
