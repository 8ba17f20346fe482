-- ===== src/SiteSelection.antt =====
-- proxy/site.rs: the site that serves a request. A text is a list of bytes; the parser of IPv6 addresses
-- is a parameter, and so is what a compiled site has beside its key.
pub mod Ranks
pub mod Best
pub mod Hosts
mod Tests
use raddy.Base.{
  ℕ, zero, suc, ◌+◌, ◌-◌, ◌*◌, ◌≤◌, List, [], ◌∷◌, ◌++◌, Option, none, some, Bool, true, false, not,
  ◌&&◌, ◌||◌, length, take, drop, all, any, ltb, leb, ◌==◌, if◌then◌else◌,
}
use raddy.Base.Map.{map_option}
use raddy.Base.Ascii.{is_digit, is_utf8, is_ascii, to_ascii_lowercase}
use raddy.Config.{SiteKey, named, catch_all, port_of}
use raddy.Config.Wildcard.{text_eq, strip_suffix, wildcard_match_specificity, is_empty}

pub data Normalized : Type 0 where
  matchable : (host : List ℕ) → Normalized
  empty_host non_ascii invalid_port invalid_host : Normalized

-- `position` and `rposition` of a byte.
unfoldable pub position : ℕ → List ℕ → Option ℕ
position b [] = none
position b (c ∷ text) = elim (c == b) [ true ↦ some 0 | false ↦ map_option suc (position b text) ]

unfoldable pub rposition : ℕ → List ℕ → Option ℕ
rposition b [] = none
rposition b (c ∷ text) = elim (rposition b text) [
  | some i ↦ some (suc i)
  | none ↦ if c == b then some 0 else none
]

-- `parse::<u32>` of a text of digits that is short enough not to overflow.
unfoldable pub decimal : ℕ → List ℕ → ℕ
decimal n [] = n
decimal n (c ∷ text) = decimal (n * 10 + (c - b'0')) text

unfoldable pub is_valid_port : List ℕ → Bool
is_valid_port text =
    if is_empty text || (ltb 5 (length text) || any (λ c. not (is_digit c)) text)
    then false
    else leb 1 (decimal 0 text) && leb (decimal 0 text) 65_535

abbrev pub first_is : ℕ → List ℕ → Bool
first_is b [] = false
first_is b (c ∷ text) = c == b

abbrev pub last_is : ℕ → List ℕ → Bool
last_is b [] = false
last_is b (c ∷ []) = c == b
last_is b (c ∷ d ∷ text) = last_is b (d ∷ text)

-- `strip_suffix(b".")`, or the host itself.
unfoldable pub without_dot : List ℕ → List ℕ
without_dot host = elim (strip_suffix (b'.' ∷ []) host) [ some front ↦ front | none ↦ host ]

-- The part of `normalize_host` behind the check of the port.
unfoldable pub normalize_name : List ℕ → Normalized
normalize_name host =
    if is_empty host
    then empty_host
    else if any (λ c. c == b':') host && not (first_is b'[' host && last_is b']' host)
    then invalid_host
    else if any (λ c. not (is_ascii c)) host
    then non_ascii
    else matchable (to_ascii_lowercase host)

unfoldable pub normalize_parts : List ℕ → Option (List ℕ) → Normalized
normalize_parts host none = normalize_name (without_dot host)
normalize_parts host (some port) =
    if is_valid_port port then normalize_name (without_dot host) else invalid_port

module _ (parses_ipv6 : List ℕ → Bool) where
  -- Behind the bracket that closes an address.
  abbrev pub bracket_suffix : List ℕ → List ℕ → Normalized
  bracket_suffix host [] = normalize_parts host none
  bracket_suffix host (c ∷ port) =
      if c == b':' then normalize_parts host (some port) else invalid_host

  unfoldable pub normalize_bracket : List ℕ → Normalized
  unfolding position
  normalize_bracket raw = elim (position b']' raw) [
    | none ↦ invalid_host
    | some close ↦
        let inner = take (close - 1) (drop 1 raw) in
        if is_empty inner || not (is_utf8 inner && parses_ipv6 inner)
        then invalid_host
        else bracket_suffix (take (close + 1) raw) (drop (close + 1) raw)
  ]

  unfoldable pub normalize_host : List ℕ → Normalized
  unfolding rposition
  normalize_host raw =
      if first_is b'[' raw then normalize_bracket raw else (elim (rposition b':' raw) [
        | some index ↦ normalize_parts (take index raw) (some (drop (index + 1) raw))
        | none ↦ normalize_parts raw none
      ])

-- The suffix that a wildcard site matches by; 0 for none.
unfoldable pub suffix_len : Option (List ℕ) → List ℕ → ℕ
suffix_len none name = 0
suffix_len (some host) name = elim (wildcard_match_specificity name host) [ some n ↦ n | none ↦ 0 ]

module _ (Rest : Type 0) where
  pub record CompiledSite : Type 0 where
    pub key : SiteKey
    pub rest : Rest

  pub data IndexedSelection : Type 0 where
    site : (index : ℕ) → CompiledSite → IndexedSelection
    bad_request not_found : IndexedSelection

  pub record Candidates : Type 0 where
    pub catch_all_site : Option (ℕ × CompiledSite)
    pub wildcard : Option (ℕ × CompiledSite)
    pub wildcard_suffix_len : ℕ

  -- The site is on the port and has the very name.
  unfoldable pub is_exact : Option (List ℕ) → ℕ → CompiledSite → Bool
  is_exact none port s = false
  is_exact (some host) port s = elim s.key [
    | named name p ↦ (p == port) && text_eq host name
    | catch_all p ↦ false
  ]

  -- What a site that is passed by leaves behind.
  unfoldable pub update : Option (List ℕ) → ℕ → ℕ → CompiledSite → Candidates → Candidates
  update host port index s c = elim s.key [
    | named name p ↦
        if p == port
        then (if ltb c.wildcard_suffix_len (suffix_len host name)
            then record c { wildcard = some (index, s); wildcard_suffix_len = suffix_len host name }
            else c)
        else c
    | catch_all p ↦ if p == port then record c { catch_all_site = some (index, s) } else c
  ]

  unfoldable pub choose : Candidates → IndexedSelection
  choose c = elim c.wildcard [
    | some (index, s) ↦ site index s
    | none ↦ elim c.catch_all_site [ some (index, s) ↦ site index s | none ↦ not_found ]
  ]

  unfoldable pub scan_sites :
      Option (List ℕ) → ℕ → List CompiledSite → ℕ → Candidates → IndexedSelection
  scan_sites host port [] index c = choose c
  scan_sites host port (s ∷ rest) index c = elim (is_exact host port s) [
    | true ↦ site index s
    | false ↦ scan_sites host port rest (index + 1) (update host port index s c)
  ]

  abbrev pub no_candidates : Candidates
  no_candidates = record { catch_all_site = none; wildcard = none; wildcard_suffix_len = 0 }

  -- `normalized.as_deref()`, or what is a bad request.
  abbrev pub host_of : Normalized → Option (Option (List ℕ))
  host_of (matchable host) = some (some host)
  host_of non_ascii = some none
  host_of _ = none

  -- The selection behind the normalized host; `none` is a bad request.
  unfoldable pub select_for : Option (Option (List ℕ)) → List CompiledSite → ℕ → IndexedSelection
  select_for none sites port = bad_request
  select_for (some host) sites port = scan_sites host port sites 0 no_candidates

  module _ (parses_ipv6 : List ℕ → Bool) where
    unfoldable pub select_with_index : List CompiledSite → ℕ → Option (List ℕ) → IndexedSelection
    select_with_index sites port none = bad_request
    select_with_index sites port (some raw) =
        select_for (host_of (normalize_host parses_ipv6 raw)) sites port
