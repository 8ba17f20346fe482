-- ===== src/SiteSelection/Hosts.antt =====
-- proxy/site.rs: what a Host header normalizes to.
use raddy.Base.{
  ℕ, suc, ◌+◌, ◌≡◌, refl, sym, ap, ◌∙◌, List, [], ◌∷◌, ◌++◌, none, some, Bool, true, false, not,
  length, append_assoc, take, drop, any, ◌==◌, arith, inl, inr, Option-cases,
}
use raddy.Base.Ascii.{is_digit, is_ascii, to_ascii_lowercase}
use raddy.Config.Wildcard.{is_empty, strip_suffix, append-strip_suffix, strip_suffix-append}
use raddy.SiteSelection.{
  matchable, rposition, is_valid_port, first_is, last_is, without_dot, normalize_name,
  normalize_parts, normalize_host,
}

-- A host name: not empty, in ASCII, with no colon, no bracket in front and no dot at its end.
pub record IsName (host : List ℕ) : Type 0 where
  pub some_byte : is_empty host ≡ false
  pub ascii : any (λ c. not (is_ascii c)) host ≡ false
  pub no_colon : any (λ c. c == b':') host ≡ false
  pub no_dot : last_is b'.' host ≡ false
  pub no_bracket : first_is b'[' host ≡ false

-- The port of a valid one has no colon.
any_weaken :
    (port : List ℕ) → any (λ c. not (is_digit c)) port ≡ false → any (λ c. c == b':') port ≡ false
any_weaken [] h = refl
any_weaken (c ∷ port) h = ground (arith, any_weaken port)

rposition-none : (b : ℕ) (text : List ℕ) → any (λ c. c == b) text ≡ false → rposition b text ≡ none
unfolding rposition
rposition-none b [] h = refl
rposition-none b (c ∷ text) h = ground (arith, rposition-none b text)

rposition-append :
    (b : ℕ) (front back : List ℕ)
    → any (λ c. c == b) back ≡ false
    → rposition b (front ++ b ∷ back) ≡ some (length front)
unfolding rposition
rposition-append b [] back h = ground (arith, rposition-none b back)
rposition-append b (c ∷ front) back h = ground (arith, rposition-append b front back)

take_append : (front back : List ℕ) → take (length front) (front ++ back) ≡ front
take_append [] back = refl
take_append (c ∷ front) back = ap (λ t. c ∷ t) (take_append front back)

drop_append : (front back : List ℕ) (c : ℕ) → drop (length front + 1) (front ++ c ∷ back) ≡ back
drop_append [] back c = refl
drop_append (d ∷ front) back c =
    let one : suc (length front) + 1 ≡ suc (length front + 1) = omega arith in
    ap (λ n. drop n (d ∷ (front ++ c ∷ back))) one ∙ drop_append front back c

normalize_name-IsName :
    (host : List ℕ) → IsName host → normalize_name host ≡ matchable (to_ascii_lowercase host)
unfolding normalize_name
normalize_name-IsName host v = rw (v.some_byte, normalize_name) (rw v.no_colon (rw v.ascii refl))

without_dot-dot : (host : List ℕ) → without_dot (host ++ b'.' ∷ []) ≡ host
unfolding without_dot
without_dot-dot host = rw (append-strip_suffix (b'.' ∷ []) host, without_dot) refl

is_valid_port-digits :
    (port : List ℕ) → is_valid_port port ≡ true → any (λ c. not (is_digit c)) port ≡ false
unfolding is_valid_port
is_valid_port-digits port h = ground arith

last_is-dot : (front : List ℕ) → last_is b'.' (front ++ b'.' ∷ []) ≡ true
last_is-dot [] = refl
last_is-dot (c ∷ []) = refl
last_is-dot (c ∷ d ∷ front) = last_is-dot (d ∷ front)

without_dot-none : (host : List ℕ) → last_is b'.' host ≡ false → without_dot host ≡ host
unfolding without_dot
without_dot-none host h = elim (Option-cases (strip_suffix (b'.' ∷ []) host)) [
  | inl gone ↦ rw (gone, without_dot) refl
  | inr (front, found) ↦
      let whole = strip_suffix-append (b'.' ∷ []) host front found in
      let dotted : last_is b'.' host ≡ true = ap (last_is b'.') (sym whole) ∙ last_is-dot front in
      absurd (ground arith)
]

first_is-append :
    (b : ℕ) (host text : List ℕ)
    → is_empty host ≡ false
    → first_is b (host ++ text) ≡ first_is b host
first_is-append b [] text h = absurd (cc)
first_is-append b (c ∷ host) text h = refl

any-append-none :
    (host : List ℕ)
    → any (λ c. c == b':') host ≡ false
    → any (λ c. c == b':') (host ++ b'.' ∷ []) ≡ false
any-append-none [] h = refl
any-append-none (c ∷ host) h = ground (arith, any-append-none host)

module _ (parses_ipv6 : List ℕ → Bool) where
  with_port :
      (name port : List ℕ)
      → first_is b'[' (name ++ b':' ∷ port) ≡ false
      → is_valid_port port ≡ true
      → normalize_host parses_ipv6 (name ++ b':' ∷ port) ≡ normalize_name (without_dot name)
  unfolding normalize_host normalize_parts
  with_port name port no_bracket valid =
      let found =
        rposition-append b':' name port (any_weaken port (is_valid_port-digits port valid)) in
      rw (no_bracket, normalize_host)
        (rw found (
          rw (take_append name (b':' ∷ port))
            (rw (drop_append name port b':') (rw (valid, normalize_parts) refl))))

  no_port :
      (name : List ℕ)
      → first_is b'[' name ≡ false
      → any (λ c. c == b':') name ≡ false
      → normalize_host parses_ipv6 name ≡ normalize_name (without_dot name)
  unfolding normalize_host normalize_parts
  no_port name no_bracket no_colon =
      rw (no_bracket, normalize_host) (rw (rposition-none b':' name no_colon) refl)

  -- A host name that is not empty, is ASCII, has no colon, does not begin with a bracket and does
  -- not end in a dot normalizes to itself in lower case, and so does each of its spellings with a
  -- dot at the end, with a valid port, and with both.
  pub normalize_host-spellings :
      (host port : List ℕ)
      → IsName host
      → is_valid_port port ≡ true
      → (normalize_host parses_ipv6 host ≡ matchable (to_ascii_lowercase host))
        × (normalize_host parses_ipv6 (host ++ b'.' ∷ []) ≡ matchable (to_ascii_lowercase host))
        × (normalize_host parses_ipv6 (host ++ b':' ∷ port) ≡ matchable (to_ascii_lowercase host))
        × (normalize_host parses_ipv6 ((host ++ b'.' ∷ []) ++ b':' ∷ port)
            ≡ matchable (to_ascii_lowercase host))
  normalize_host-spellings host port v valid =
      let plain =
        ap normalize_name (without_dot-none host v.no_dot) ∙ normalize_name-IsName host v in
      let dotted = ap normalize_name (without_dot-dot host) ∙ normalize_name-IsName host v in
      let front = λ (text : List ℕ). first_is-append b'[' host text v.some_byte ∙ v.no_bracket in
      (
        no_port host v.no_bracket v.no_colon ∙ plain,
        no_port (host ++ b'.' ∷ []) (front (b'.' ∷ [])) (any-append-none host v.no_colon) ∙ dotted,
        with_port host port (front (b':' ∷ port)) valid ∙ plain,
        with_port (host ++ b'.' ∷ []) port
              (ap (first_is b'[') (append_assoc host (b'.' ∷ []) (b':' ∷ port))
                ∙ front (b'.' ∷ b':' ∷ port))
              valid
            ∙ dotted,
      )
