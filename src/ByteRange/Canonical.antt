-- ===== src/ByteRange/Canonical.antt =====
-- proxy/fs.rs: ranges of the form `bytes=first-last`.
use raddy.Base.{
  ℕ, ◌+◌, ◌^◌, ◌<◌, ◌≡◌, refl, ap, ◌∙◌, List, [], ◌∷◌, ◌++◌, some, Bool, true, false, not, ◌&&◌,
  min, any, ltb, leb, ◌==◌, if◌then◌else◌, arith,
}
use raddy.Base.Map.{map_option}
use raddy.Base.Ascii.{is_white, is_digit, lower, is_ascii_uppercase}
use raddy.Config.Wildcard.{text_eq, is_empty}
use raddy.ByteRange.{
  satisfiable, unsatisfiable, trim, trim_start, trim_end, parse_u64, split_once, range_end, between,
  first_range, trimmed_range, split_range, parse_range, bytes_unit, saturating_add,
}

-- Digits, and at least one.
pub record IsNumber (text : List ℕ) : Type 0 where
  pub some_digit : is_empty text ≡ false
  pub digits : any (λ c. not (is_digit c)) text ≡ false

trim_start-plain : (text : List ℕ) → any is_white text ≡ false → trim_start text ≡ text
unfolding trim_start
trim_start-plain [] h = refl
trim_start-plain (c ∷ text) h =
    let black : is_white c ≡ false = ground arith in rw (black, trim_start) refl

trim_end-plain : (text : List ℕ) → any is_white text ≡ false → trim_end text ≡ text
unfolding trim_end
trim_end-plain [] h = refl
trim_end-plain (c ∷ text) h =
    let black : is_white c ≡ false = ground arith in
    let rest = trim_end-plain text (ground arith) in
    let kept : (is_empty (trim_end text) && is_white c) ≡ false = ground arith in
    rw (kept, trim_end) (ap (λ t. c ∷ t) rest)

trim-plain : (text : List ℕ) → any is_white text ≡ false → trim text ≡ text
unfolding trim
trim-plain text h = ap trim_end (trim_start-plain text h) ∙ trim_end-plain text h

-- What no digit is does not stand in a number.
any-number :
    (p : ℕ → Bool) (text : List ℕ)
    → ((c : ℕ) → is_digit c ≡ true → p c ≡ false)
    → any (λ c. not (is_digit c)) text ≡ false
    → any p text ≡ false
any-number p [] other h = refl
any-number p (c ∷ text) other h =
    let rest = any-number p text other (ground arith) in
    let here = other c (ground arith) in ground arith

any-append :
    (p : ℕ → Bool) (a b : List ℕ) → any p a ≡ false → any p b ≡ false → any p (a ++ b) ≡ false
any-append p [] b ha hb = hb
any-append p (c ∷ a) b ha hb =
    let here : p c ≡ false = ground arith in
    let rest = any-append p a b (ground arith) hb in ground arith

split_once-number :
    (a b : List ℕ)
    → any (λ c. not (is_digit c)) a ≡ false
    → split_once b'-' (a ++ b'-' ∷ b) ≡ some (a, b)
unfolding split_once
split_once-number [] b h = refl
split_once-number (c ∷ a) b h =
    let other : (c == b'-') ≡ false = ground arith in
    rw (other, split_once)
      (ap (map_option (λ p. (c ∷ p.0, p.1))) (split_once-number a b (ground arith)))

white-digit : (c : ℕ) → is_digit c ≡ true → is_white c ≡ false
white-digit c h = ground arith

range-plain :
    (p : ℕ → Bool) (a b : List ℕ)
    → ((c : ℕ) → is_digit c ≡ true → p c ≡ false)
    → p b'-' ≡ false
    → IsNumber a
    → IsNumber b
    → any p (a ++ b'-' ∷ b) ≡ false
range-plain p a b other dash va vb =
    let back = any-number p b other vb.digits in
    any-append p a (b'-' ∷ b) (any-number p a other va.digits) (ground arith)

range_end-number :
    (b : List ℕ) (y size : ℕ)
    → IsNumber b
    → parse_u64 b ≡ some y
    → size < 2 ^ 64
    → range_end b size ≡ some (min (y + 1) size)
range_end-number [] y size v h small = absurd (ground (arith, v.some_digit))
range_end-number (c ∷ b) y size v h small =
    ap (map_option (λ i. min (saturating_add i 1) size)) h ∙ ap some (omega arith)

trimmed_range-number :
    (a b : List ℕ) (size : ℕ)
    → IsNumber a
    → trimmed_range (a ++ b'-' ∷ b) size ≡ split_range (some (a, b)) size
trimmed_range-number [] b size v = absurd (ground (arith, v.some_digit))
trimmed_range-number (c ∷ a) b size v =
    let other : (c == b'-') ≡ false = ground (arith, v.digits) in
    rw other (ap (λ p. split_range p size) (split_once-number (c ∷ a) b v.digits))

-- For a file of less than 2^64 bytes and two numbers in digits that parse as u64, the header
-- `bytes=first-last` gives the range from the first byte to just behind the last, cut off at the
-- end of the file, when the first lies within the file and is not above the last, and is
-- unsatisfiable otherwise.
pub parse_range-first_last :
    (a b : List ℕ) (x y size : ℕ)
    → IsNumber a
    → IsNumber b
    → parse_u64 a ≡ some x
    → parse_u64 b ≡ some y
    → size < 2 ^ 64
    → parse_range (some (some (bytes_unit ++ (a ++ b'-' ∷ b)))) size
      ≡ (if ltb x size && leb x y then satisfiable x (min (y + 1) size) else unsatisfiable)
unfolding parse_range text_eq lower is_ascii_uppercase
parse_range-first_last a b x y size va vb ha hb small =
    let text = a ++ b'-' ∷ b in
    let single : any (λ c. c == b',') text ≡ false =
      range-plain (λ c. c == b',') a b (λ c h. ground arith) refl va vb in
    let plain = trim-plain text (range-plain is_white a b white-digit refl va vb) in
    let trim_a = trim-plain a (any-number is_white a white-digit va.digits) in
    let trim_b = trim-plain b (any-number is_white b white-digit vb.digits) in
    rw (single, parse_range)
      (ap (λ t. trimmed_range t size) plain
        ∙ trimmed_range-number a b size va
        ∙ ap (λ t. first_range (parse_u64 t) (trim b) size) trim_a
        ∙ ap (λ t. first_range (parse_u64 a) t size) trim_b
        ∙ ap (λ s. first_range s b size) ha
        ∙ ap (λ e. if leb size x then unsatisfiable else between x e)
            (range_end-number b y size vb hb small)
        ∙ (ground arith))
