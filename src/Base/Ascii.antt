-- ===== src/Base/Ascii.antt =====
-- Bytes of text: ASCII classes, lower case, and well-formed UTF-8 (`std::str::from_utf8`).
use Prim.Native.Nat.{ℕ, zero, suc, ◌+◌}
use mathlib.Core.Path.{◌≡◌, refl}
use mathlib.Core.Bool.{Bool, true, false, ◌&&◌, ◌||◌}
use mathlib.Core.List.{List, [], ◌∷◌, map}
use native.Mathlib.Omega.{arith}
use raddy.Base.Tests.{ltb, leb, ◌==◌, if◌then◌else◌}
use raddy.Base.Lists.{all}

unfoldable pub is_ascii_uppercase : ℕ → Bool
is_ascii_uppercase b = leb b'A' b && leb b b'Z'

unfoldable pub is_ascii_digit : ℕ → Bool
is_ascii_digit b = leb b'0' b && leb b b'9'

unfoldable pub is_ascii : ℕ → Bool
is_ascii b = ltb b 128

-- `to_ascii_lowercase` on one byte, and on a text.
unfoldable pub lower : ℕ → ℕ
unfolding is_ascii_uppercase
lower b = if is_ascii_uppercase b then b + 32 else b

abbrev pub to_ascii_lowercase : List ℕ → List ℕ
to_ascii_lowercase = map lower

-- The continuation bytes due after a first byte, and the range of the first of them. A byte that
-- starts no character has an empty range.
abbrev pub due : ℕ → ℕ
due b = if ltb b 0x80 then 0 else if ltb b 0xe0 then 1 else if ltb b 0xf0 then 2 else 3

abbrev pub is_start : ℕ → Bool
is_start b = if ltb b 0x80 then true else leb 0xc2 b && leb b 0xf4

abbrev pub first_lo : ℕ → ℕ
first_lo b = if b == 0xe0 then 0xa0 else if b == 0xf0 then 0x90 else 0x80

abbrev pub first_hi : ℕ → ℕ
first_hi b = if b == 0xed then 0x9f else if b == 0xf4 then 0x8f else 0xbf

is_utf8_from : ℕ → ℕ → ℕ → List ℕ → Bool
is_utf8_from zero lo hi [] = true
is_utf8_from (suc more) lo hi [] = false
is_utf8_from zero lo hi (b ∷ bs) = is_start b && is_utf8_from (due b) (first_lo b) (first_hi b) bs
is_utf8_from (suc more) lo hi (b ∷ bs) = leb lo b && (leb b hi && is_utf8_from more 0x80 0xbf bs)

unfoldable pub is_utf8 : List ℕ → Bool
unfolding is_utf8_from
is_utf8 bs = is_utf8_from 0 0 0 bs

lower-lower : (b : ℕ) → lower (lower b) ≡ lower b
unfolding lower
lower-lower b = ground arith

pub to_ascii_lowercase_idem :
    (bs : List ℕ) → to_ascii_lowercase (to_ascii_lowercase bs) ≡ to_ascii_lowercase bs
to_ascii_lowercase_idem [] = refl
to_ascii_lowercase_idem (b ∷ bs) = rw (lower-lower b, to_ascii_lowercase_idem bs)

is_utf8_from-ascii :
    (lo hi : ℕ) (bs : List ℕ) → all is_ascii bs ≡ true → is_utf8_from 0 lo hi bs ≡ true
unfolding is_utf8_from is_ascii
is_utf8_from-ascii lo hi [] h = refl
is_utf8_from-ascii lo hi (b ∷ bs) h =
    ground (arith, is_utf8_from-ascii (first_lo b) (first_hi b) bs)

pub is_utf8_of_ascii : (bs : List ℕ) → all is_ascii bs ≡ true → is_utf8 bs ≡ true
unfolding is_utf8
is_utf8_of_ascii bs h = is_utf8_from-ascii 0 0 bs h

utf8_tests :
    (is_utf8 (0xc3 ∷ 0xa9 ∷ b'a' ∷ []) ≡ true)
    × (is_utf8 (0xe2 ∷ 0x82 ∷ []) ≡ false)
    × (is_utf8 (0xed ∷ 0xa0 ∷ 0x80 ∷ []) ≡ false)
    × (is_utf8 (0xf0 ∷ 0x9f ∷ 0x98 ∷ 0x80 ∷ []) ≡ true)
unfolding is_utf8
utf8_tests = (refl, refl, refl, refl)

abbrev pub is_digit : ℕ → Bool
is_digit c = leb b'0' c && leb c b'9'

-- `char::is_whitespace`.
abbrev pub is_white : ℕ → Bool
is_white c =
    (leb 9 c && leb c 13)
    || (c == 32
        || (c == 0x85
            || (c == 0xa0
                || (c == 0x1680
                    || ((leb 0x2000 c && leb c 0x200a)
                        || (c == 0x2028
                            || (c == 0x2029 || (c == 0x202f || (c == 0x205f || c == 0x3000)))))))))
