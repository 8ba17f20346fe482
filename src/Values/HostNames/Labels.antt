-- ===== src/Values/HostNames/Labels.antt =====
-- config/parser.rs: the labels of a host name, in lower case and at its end.
use raddy.Base.{
  ◌⊎◌, ◌≢◌, Option-cases, ℕ, suc, List, [], ◌∷◌, ◌++◌, Bool, true, false, ◌||◌, any, all, map,
  length, ltb, ◌==◌, ◌≡◌, refl, subst, sym, ap, ◌∙◌, arith, Bool-cases, inl, inr, ==_iff,
}
use raddy.Base.Ascii.{lower, is_ascii_uppercase, to_ascii_lowercase}
use raddy.Compression.{split, put_front}
use raddy.Config.Wildcard.{is_empty, strip_suffix, strip_suffix-append}
use raddy.SiteSelection.{first_is, last_is, without_dot}
use raddy.Values.{Text, Result, ok, err}
use raddy.Values.HostNames.{is_ascii_alphanumeric, check_label, check_labels}

-- What the checks of a label let through.
pub record IsLabel (label : Text) : Type 0 where
  pub some_char : is_empty label ≡ false
  pub short : ltb 63 (length label) ≡ false
  pub chars : all (λ b. is_ascii_alphanumeric b || b == b'-') label ≡ true
  pub no_dash : (first_is b'-' label || last_is b'-' label) ≡ false

abbrev pub in_label : ℕ → Bool
in_label b = is_ascii_alphanumeric b || b == b'-'

pub check_label-IsLabel : (label : Text) → check_label label ≡ ok tt → IsLabel label
unfolding check_label
check_label-IsLabel label h = ground arith

pub IsLabel-check_label : (label : Text) → IsLabel label → check_label label ≡ ok tt
unfolding check_label
IsLabel-check_label label h = rw (h.some_char, h.short, h.chars, h.no_dash) refl

lower-in_label : (c : ℕ) → in_label c ≡ true → in_label (lower c) ≡ true
unfolding lower is_ascii_uppercase
lower-in_label c h = ground arith

pub lower-lower : (c : ℕ) → lower (lower c) ≡ lower c
unfolding lower is_ascii_uppercase
lower-lower c = ground arith

lower_dot : (c : ℕ) → (lower c == b'.') ≡ (c == b'.')
unfolding lower is_ascii_uppercase
lower_dot c = ground arith

lower_dash : (c : ℕ) → (lower c == b'-') ≡ (c == b'-')
unfolding lower is_ascii_uppercase
lower_dash c = ground arith

all-lower : (t : Text) → all in_label t ≡ true → all in_label (to_ascii_lowercase t) ≡ true
all-lower [] h = refl
all-lower (c ∷ t) h =
    let rest = all-lower t (ground arith) in
    let here = lower-in_label c (ground arith) in ground arith

pub length-lower : (t : Text) → length (to_ascii_lowercase t) ≡ length t
length-lower [] = refl
length-lower (c ∷ t) = ap suc (length-lower t)

first_is-lower : (t : Text) → first_is b'-' (to_ascii_lowercase t) ≡ first_is b'-' t
first_is-lower [] = refl
first_is-lower (c ∷ t) = lower_dash c

last_is-lower : (t : Text) → last_is b'-' (to_ascii_lowercase t) ≡ last_is b'-' t
last_is-lower [] = refl
last_is-lower (c ∷ []) = lower_dash c
last_is-lower (c ∷ d ∷ t) = last_is-lower (d ∷ t)

is_empty-lower : (t : Text) → is_empty (to_ascii_lowercase t) ≡ is_empty t
is_empty-lower [] = refl
is_empty-lower (c ∷ t) = refl

IsLabel-lower : (t : Text) → IsLabel t → IsLabel (to_ascii_lowercase t)
IsLabel-lower t l = record {
  some_char = is_empty-lower t ∙ l.some_char;
  short = rw (length-lower t) l.short;
  chars = all-lower t l.chars;
  no_dash = rw (first_is-lower t, last_is-lower t) l.no_dash;
}

put_front-lower :
    (c : ℕ) (parts : List Text)
    → map to_ascii_lowercase (put_front c parts)
      ≡ put_front (lower c) (map to_ascii_lowercase parts)
put_front-lower c [] = refl
put_front-lower c (p ∷ parts) = refl

-- Lower case keeps the labels apart.
pub split-lower :
    (t : Text) → split b'.' (to_ascii_lowercase t) ≡ map to_ascii_lowercase (split b'.' t)
unfolding split
split-lower [] = refl
split-lower (c ∷ t) = elim (Bool-cases (c == b'.')) [
  | inl e ↦ rw (lower_dot c, e) (ap (λ x. [] ∷ x) (split-lower t))
  | inr e ↦ rw (lower_dot c, e, split-lower t) (sym (put_front-lower c (split b'.' t)))
]

Result-cases : (r : Result (Unit {0})) → (r ≡ ok tt) ⊎ ((m : Text) × (r ≡ err m))
Result-cases (ok tt) = inl refl
Result-cases (err m) = inr (m, refl)

abbrev is_cons : List Text → Bool
is_cons [] = false
is_cons (l ∷ ls) = true

check_labels-cons :
    (l : Text) (ls : List Text)
    → check_labels (l ∷ ls) ≡ ok tt
    → IsLabel l × (check_labels ls ≡ ok tt)
unfolding check_labels
check_labels-cons l ls h = elim (Result-cases (check_label l)) [
  | inl e ↦ (check_label-IsLabel l e, let rest = rw e at h in rest)
  | inr (m, e) ↦ absurd (let gone = rw e at h in cc)
]

pub check_labels-lower :
    (ls : List Text) → check_labels ls ≡ ok tt → check_labels (map to_ascii_lowercase ls) ≡ ok tt
unfolding check_labels
check_labels-lower [] h = refl
check_labels-lower (l ∷ ls) h =
    let (here, rest) = check_labels-cons l ls h in
    rw (IsLabel-check_label _ (IsLabel-lower l here)) (check_labels-lower ls rest)

put_front-append :
    (c : ℕ) (parts others : List Text)
    → is_cons parts ≡ true
    → put_front c (parts ++ others) ≡ put_front c parts ++ others
put_front-append c [] others h = absurd cc
put_front-append c (p ∷ parts) others h = refl

put_front-is_cons : (c : ℕ) (parts : List Text) → is_cons (put_front c parts) ≡ true
put_front-is_cons c [] = refl
put_front-is_cons c (p ∷ parts) = refl

split-is_cons : (b : ℕ) (t : Text) → is_cons (split b t) ≡ true
unfolding split
split-is_cons b [] = refl
split-is_cons b (c ∷ t) = elim (Bool-cases (c == b)) [
  | inl e ↦ rw e refl
  | inr e ↦ rw e (put_front-is_cons c (split b t))
]

-- A dot at the end leaves an empty label.
split-last : (b : ℕ) (t : Text) → split b (t ++ b ∷ []) ≡ split b t ++ [] ∷ []
unfolding split
split-last b [] = rw ((==_iff b b).1 refl) refl
split-last b (c ∷ t) = elim (Bool-cases (c == b)) [
  | inl e ↦ rw (e, split-last b t) refl
  | inr e ↦ rw (e, split-last b t) (put_front-append c (split b t) ([] ∷ []) (split-is_cons b t))
]

check_labels-last : (ls : List Text) → check_labels (ls ++ [] ∷ []) ≢ ok tt
unfolding check_labels check_label
check_labels-last [] h = cc
check_labels-last (l ∷ ls) h = check_labels-last ls (check_labels-cons l (ls ++ [] ∷ []) h).1

last_is-front : (b : ℕ) (t : Text) → last_is b t ≡ true → (f : Text) × (t ≡ f ++ b ∷ [])
last_is-front b [] h = absurd cc
last_is-front b (c ∷ []) h = let same = (==_iff c b).0 h in ([], rw same refl)
last_is-front b (c ∷ d ∷ t) h = let (f, e) = last_is-front b (d ∷ t) h in (c ∷ f, ap (λ x. c ∷ x) e)

last_is-append : (b : ℕ) (f : Text) → last_is b (f ++ b ∷ []) ≡ true
last_is-append b [] = (==_iff b b).1 refl
last_is-append b (c ∷ []) = (==_iff b b).1 refl
last_is-append b (c ∷ d ∷ f) = last_is-append b (d ∷ f)

pub no_last_dot : (t : Text) → check_labels (split b'.' t) ≡ ok tt → last_is b'.' t ≡ false
no_last_dot t h = elim (Bool-cases (last_is b'.' t)) [
  | inl e ↦
      let (f, whole) = last_is-front b'.' t e in
      absurd (check_labels-last (split b'.' f) (rw⁻¹ (split-last b'.' f) (rw⁻¹ whole h)))
  | inr e ↦ e
]

pub without_dot_same : (t : Text) → last_is b'.' t ≡ false → without_dot t ≡ t
unfolding without_dot
without_dot_same t h = elim (Option-cases (strip_suffix (b'.' ∷ []) t)) [
  | inl e ↦ rw (e, without_dot) refl
  | inr (f, e) ↦
      let whole = strip_suffix-append (b'.' ∷ []) t f e in
      absurd (
        let dotted : last_is b'.' t ≡ true =
          subst (λ x. last_is b'.' x ≡ true) whole (last_is-append b'.' f) in
        cc)
]

abbrev pub in_host : ℕ → Bool
in_host c = in_label c || c == b'.'

check_labels-chars : (ls : List Text) → check_labels ls ≡ ok tt → all (all in_label) ls ≡ true
check_labels-chars [] h = refl
check_labels-chars (l ∷ ls) h =
    let (here, rest) = check_labels-cons l ls h in
    let chars = here.chars in let more = check_labels-chars ls rest in ground arith

put_front-chars :
    (c : ℕ) (parts : List Text)
    → all (all in_label) (put_front c parts) ≡ true
    → (in_label c ≡ true) × (all (all in_label) parts ≡ true)
put_front-chars c [] h = (ground arith, refl)
put_front-chars c (p ∷ parts) h = (ground arith, ground arith)

split-chars : (t : Text) → all (all in_label) (split b'.' t) ≡ true → all in_host t ≡ true
unfolding split
split-chars [] h = refl
split-chars (c ∷ t) h = elim (Bool-cases (c == b'.')) [
  | inl e ↦
      let parts : all (all in_label) ([] ∷ split b'.' t) ≡ true = rw (e, split) at h in
      let rest = split-chars t parts in ground arith
  | inr e ↦
      let parts : all (all in_label) (put_front c (split b'.' t)) ≡ true = rw (e, split) at h in
      let (here, more) = put_front-chars c (split b'.' t) parts in
      let rest = split-chars t more in ground arith
]

pub host_chars : (t : Text) → check_labels (split b'.' t) ≡ ok tt → all in_host t ≡ true
host_chars t h = split-chars t (check_labels-chars (split b'.' t) h)

-- What is not in a host name is not among its characters.
pub any-host :
    (p : ℕ → Bool) (t : Text)
    → ((c : ℕ) → in_host c ≡ true → p c ≡ false)
    → all in_host t ≡ true
    → any p t ≡ false
any-host p [] other h = refl
any-host p (c ∷ t) other h =
    let rest = any-host p t other (ground arith) in
    let here = other c (ground arith) in ground arith

pub all-host :
    (p : ℕ → Bool) (t : Text)
    → ((c : ℕ) → in_host c ≡ true → p c ≡ true)
    → all in_host t ≡ true
    → all p t ≡ true
all-host p [] other h = refl
all-host p (c ∷ t) other h =
    let rest = all-host p t other (ground arith) in
    let here = other c (ground arith) in ground arith
