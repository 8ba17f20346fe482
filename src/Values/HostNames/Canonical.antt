-- ===== src/Values/HostNames/Canonical.antt =====
-- config/parser.rs: a normalized host name is normal.
use raddy.Base.{
  Option-cases, ℕ, [], ◌∷◌, ◌++◌, none, Bool, true, false, not, any, all, length, ltb, ◌==◌,
  if◌then◌else◌, ◌≡◌, refl, subst, sym, ap, ◌∙◌, arith, Bool-cases, inl, inr,
}
use raddy.Base.Ascii.{is_white, is_ascii, to_ascii_lowercase}
use raddy.Compression.{split}
use raddy.Config.Wildcard.{is_empty, strip_prefix}
use raddy.Config.Patterns.{strip_prefix-append}
use raddy.SiteSelection.{without_dot, last_is}
use raddy.Values.{Text, codes, ok}
use raddy.Values.Results.{>>=-ok, reject_if-ok, ok_inj}
use raddy.Values.HostNames.{check_labels, wildcard_of, normalize_labels, normalize_host_name}
use raddy.Values.HostNames.Labels.{
  in_host, host_chars, any-host, all-host, no_last_dot, without_dot_same, check_labels-lower,
  split-lower, lower-lower, length-lower,
}

-- Labels in lower case, a star in front of them or none.
abbrev pub star_name : Bool → Text → Text
star_name wildcard host = if wildcard then codes "*." ++ host else host

pub record IsNormal (n : Text) : Type 0 where
  pub wildcard : Bool
  pub host : Text
  pub shape : n ≡ star_name wildcard host
  pub labels : check_labels (split b'.' host) ≡ ok tt
  pub lower_case : to_ascii_lowercase host ≡ host
  pub short : ltb 253 (length n) ≡ false

no_white : (c : ℕ) → in_host c ≡ true → is_white c ≡ false
no_white c h = ground arith

no_star : (c : ℕ) → in_host c ≡ true → (c == b'*') ≡ false
no_star c h = ground arith

all_ascii : (c : ℕ) → in_host c ≡ true → is_ascii c ≡ true
unfolding is_ascii
all_ascii c h = ground arith

some_label : (t : Text) → check_labels (split b'.' t) ≡ ok tt → is_empty t ≡ false
unfolding split check_labels
some_label [] h = absurd cc
some_label (c ∷ t) h = refl

no_star_prefix : (t : Text) → any (λ c. c == b'*') t ≡ false → strip_prefix (codes "*.") t ≡ none
unfolding strip_prefix
no_star_prefix [] h = refl
no_star_prefix (c ∷ t) h = ground arith

normalize_labels-fixed :
    (wildcard : Bool) (host : Text)
    → check_labels (split b'.' host) ≡ ok tt
    → to_ascii_lowercase host ≡ host
    → normalize_labels (star_name wildcard host) ≡ ok (star_name wildcard host)
unfolding normalize_labels strip_prefix
normalize_labels-fixed true host h l =
    let stars = any-host (λ c. c == b'*') host no_star (host_chars host h) in
    rw (some_label host h, stars, h, l) refl
normalize_labels-fixed false host h l =
    let stars = any-host (λ c. c == b'*') host no_star (host_chars host h) in
    rw (no_star_prefix host stars, stars, h, l, normalize_labels) refl

lower_idem : (t : Text) → to_ascii_lowercase (to_ascii_lowercase t) ≡ to_ascii_lowercase t
lower_idem [] = refl
lower_idem (c ∷ t) = rw (lower-lower c, lower_idem t) refl

star_name-chars :
    (p : ℕ → Bool) (wildcard : Bool) (host : Text)
    → p b'*' ≡ false
    → ((c : ℕ) → in_host c ≡ true → p c ≡ false)
    → all in_host host ≡ true
    → any p (star_name wildcard host) ≡ false
star_name-chars p true host star other h =
    let rest = any-host p host other h in let dot = other b'.' refl in ground arith
star_name-chars p false host star other h = any-host p host other h

star_name-ascii :
    (wildcard : Bool) (host : Text)
    → all in_host host ≡ true
    → all is_ascii (star_name wildcard host) ≡ true
unfolding is_ascii
star_name-ascii true host h = all-host is_ascii host all_ascii h
star_name-ascii false host h = all-host is_ascii host all_ascii h

star_name-last :
    (wildcard : Bool) (host : Text)
    → is_empty host ≡ false
    → last_is b'.' host ≡ false
    → last_is b'.' (star_name wildcard host) ≡ false
star_name-last wildcard [] e h = absurd cc
star_name-last true (c ∷ host) e h = h
star_name-last false (c ∷ host) e h = h

star_name-some :
    (wildcard : Bool) (host : Text)
    → is_empty host ≡ false
    → is_empty (star_name wildcard host) ≡ false
star_name-some true host h = refl
star_name-some false host h = h

-- A normal name is left as it is.
IsNormal-normalize_host_name : (n : Text) → IsNormal n → normalize_host_name n ≡ ok n
unfolding normalize_host_name
IsNormal-normalize_host_name n r =
    let chars = host_chars r.host r.labels in
    let whole = some_label r.host r.labels in
    let white : any is_white n ≡ false =
      rw r.shape (star_name-chars is_white r.wildcard r.host refl no_white chars) in
    let ascii : all is_ascii n ≡ true = rw r.shape (star_name-ascii r.wildcard r.host chars) in
    let nonempty : is_empty n ≡ false = rw r.shape (star_name-some r.wildcard r.host whole) in
    let dot : last_is b'.' n ≡ false =
      rw r.shape (star_name-last r.wildcard r.host whole (no_last_dot r.host r.labels)) in
    let fixed : normalize_labels n ≡ ok n =
      rw r.shape (normalize_labels-fixed r.wildcard r.host r.labels r.lower_case) in
    rw (white, ascii, without_dot_same n dot, nonempty, r.short, fixed, normalize_host_name) refl

wildcard_of-shape :
    (whole : Text) (wildcard : Bool) (host : Text)
    → wildcard_of whole (strip_prefix (codes "*.") whole) ≡ ok (wildcard, host)
    → whole ≡ star_name wildcard host
wildcard_of-shape whole wildcard host h = elim (Option-cases (strip_prefix (codes "*.") whole)) [
  | inl e ↦
      let found : ok (false, whole) ≡ ok (wildcard, host) = rw e at h in
      subst (λ q. whole ≡ star_name q.0 q.1) (ok_inj found) refl
  | inr (suffix, e) ↦
      let front = strip_prefix-append (codes "*.") whole suffix e in
      elim (Bool-cases (is_empty suffix)) [
        | inl none_there ↦ absurd (let gone = rw (e, none_there) at h in cc)
        | inr some_there ↦
            let found : ok (true, suffix) ≡ ok (wildcard, host) = rw (e, some_there) at h in
            subst (λ q. whole ≡ star_name q.0 q.1) (ok_inj found) front
      ]
]

length-star_name :
    (wildcard : Bool) (host : Text)
    → length (star_name wildcard (to_ascii_lowercase host)) ≡ length (star_name wildcard host)
length-star_name true host = omega (arith, length-lower host)
length-star_name false host = length-lower host

lower-IsNormal :
    (wildcard : Bool) (host whole n : Text)
    → whole ≡ star_name wildcard host
    → ltb 253 (length whole) ≡ false
    → check_labels (split b'.' host) ≡ ok tt
    → star_name wildcard (to_ascii_lowercase host) ≡ n
    → IsNormal n
lower-IsNormal wildcard host whole n shape short labels e =
    let same : length n ≡ length whole =
      sym (ap length e) ∙ length-star_name wildcard host ∙ sym (ap length shape) in
    record {
      wildcard = wildcard;
      host = to_ascii_lowercase host;
      shape = sym e;
      labels = rw (split-lower host) (check_labels-lower (split b'.' host) labels);
      lower_case = lower_idem host;
      short = rw same short;
    }

normalize_labels-IsNormal :
    (whole n : Text) → ltb 253 (length whole) ≡ false → normalize_labels whole ≡ ok n → IsNormal n
unfolding normalize_labels
normalize_labels-IsNormal whole n short h =
    let ((wildcard, host), found, rest) =
      >>=-ok (wildcard_of whole (strip_prefix (codes "*.") whole)) _ h in
    let (stars, checked) = reject_if-ok (any (λ c. c == b'*') host) _ _ rest in
    let (u, labels, last) = >>=-ok (check_labels (split b'.' host)) _ checked in
    let shape = wildcard_of-shape whole wildcard host found in
    lower-IsNormal wildcard host whole n shape short labels (ok_inj last)

normalize_host_name-IsNormal : (host n : Text) → normalize_host_name host ≡ ok n → IsNormal n
unfolding normalize_host_name
normalize_host_name-IsNormal host n h =
    let (white, h1) = reject_if-ok (any is_white host) _ _ h in
    let (ascii, h2) = reject_if-ok (not (all is_ascii host)) _ _ h1 in
    let (whole, h3) = reject_if-ok (is_empty (without_dot host)) _ _ h2 in
    let (short, h4) = reject_if-ok (ltb 253 (length (without_dot host))) _ _ h3 in
    normalize_labels-IsNormal (without_dot host) n short h4

-- The name that a host is normalized to is accepted, and is normalized to itself.
pub normalize_host_name_idem :
    (host n : Text) → normalize_host_name host ≡ ok n → normalize_host_name n ≡ ok n
normalize_host_name_idem host n h =
    IsNormal-normalize_host_name n (normalize_host_name-IsNormal host n h)
