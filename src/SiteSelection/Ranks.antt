-- ===== src/SiteSelection/Ranks.antt =====
-- proxy/site.rs: how well a site fits a request, and what the scan makes of it.
use raddy.Base.{
  ℕ, suc, ◌+◌, ◌≤◌, ◌<◌, ◌≡◌, refl, subst, ◌∙◌, List, Option, none, some, true, false, arith, inl,
  inr, Bool-cases, Option-cases, length, ltb, ◌==◌, if◌then◌else◌,
}
use raddy.Config.{SiteKey, named, catch_all}
use raddy.Config.Wildcard.{text_eq, wildcard_match_specificity}
use raddy.Config.Patterns.{wildcard_match_specificity-Splits, suffix-lt}
use raddy.SiteSelection.{CompiledSite, Candidates, is_exact, suffix_len, update}

-- 0 for no match, 1 for the catch-all, then the wildcards by the length of their suffix, and the very
-- name above all of them.
abbrev wildcard_rank : ℕ → ℕ
wildcard_rank n = if ltb 0 n then suc n else 0

abbrev name_rank : Option (List ℕ) → List ℕ → ℕ
name_rank none name = 0
name_rank (some host) name =
    if text_eq host name then length host + 2 else wildcard_rank (suffix_len (some host) name)

unfoldable pub rank_key : Option (List ℕ) → ℕ → SiteKey → ℕ
rank_key host port (named name p) = if p == port then name_rank host name else 0
rank_key host port (catch_all p) = if p == port then 1 else 0

abbrev pub top : Option (List ℕ) → ℕ
top none = 2
top (some host) = length host + 2

suffix_len-le : (host name : List ℕ) → suffix_len (some host) name ≤ length host
unfolding suffix_len
suffix_len-le host name = elim (Option-cases (wildcard_match_specificity name host)) [
  | inl gone ↦ rw (gone, suffix_len) (omega arith)
  | inr (n, found) ↦
      rw (found, suffix_len)
        (omega (arith, suffix-lt name host n (wildcard_match_specificity-Splits name host n found)))
]

pub rank_key-le :
    (host : Option (List ℕ)) (port : ℕ) (key : SiteKey) → rank_key host port key ≤ top host
unfolding rank_key
rank_key-le none port (named name p) = ground arith
rank_key-le none port (catch_all p) = ground arith
rank_key-le (some host) port (named name p) = ground (arith, suffix_len-le host name)
rank_key-le (some host) port (catch_all p) = ground arith

module _ (Rest : Type 0) where
  abbrev site_with : SiteKey → Rest → CompiledSite Rest
  site_with key rest = record { key = key; rest = rest }

  pub exact_key-rank :
      (host : Option (List ℕ)) (port : ℕ) (key : SiteKey) (r : Rest)
      → is_exact Rest host port (site_with key r) ≡ true
      → rank_key host port key ≡ top host
  unfolding rank_key is_exact
  exact_key-rank none port key r h = absurd (cc)
  exact_key-rank (some host) port (named name p) r h = ground arith
  exact_key-rank (some host) port (catch_all p) r h = absurd (cc)

  -- How well the candidates fit.
  unfoldable pub strength : Candidates Rest → ℕ
  strength c = elim c.wildcard [
    | some w ↦ suc c.wildcard_suffix_len
    | none ↦ elim c.catch_all_site [ some w ↦ 1 | none ↦ 0 ]
  ]

  abbrev pub rank : Option (List ℕ) → ℕ → CompiledSite Rest → ℕ
  rank host port s = rank_key host port s.key

  -- The candidates are sites that were passed by, with the length of the suffix they match by.
  pub record Holds (From : ℕ → CompiledSite Rest → Type 0) (host : Option (List ℕ)) (port : ℕ)
      (c : Candidates Rest) : Type 0 where
    pub wild :
        (i : ℕ) (s : CompiledSite Rest)
        → c.wildcard ≡ some (i, s)
        → From i s × (rank host port s ≡ suc c.wildcard_suffix_len) × (0 < c.wildcard_suffix_len)
    pub none_wild : c.wildcard ≡ none → c.wildcard_suffix_len ≡ 0
    pub every :
        (i : ℕ) (s : CompiledSite Rest)
        → c.catch_all_site ≡ some (i, s)
        → From i s × (rank host port s ≡ 1)

  pub record Passes (From : ℕ → CompiledSite Rest → Type 0) (host : Option (List ℕ)) (port : ℕ)
      (key : SiteKey) (c c' : Candidates Rest) : Type 0 where
    pub holds : Holds From host port c'
    pub grows : strength c ≤ strength c'
    pub covers : rank_key host port key ≤ strength c'

  strength-wild :
      (From : ℕ → CompiledSite Rest → Type 0) (host : Option (List ℕ)) (port : ℕ)
      (c : Candidates Rest)
      → Holds From host port c
      → 0 < c.wildcard_suffix_len
      → strength c ≡ suc c.wildcard_suffix_len
  unfolding strength
  strength-wild From host port c v some_len = elim (Option-cases c.wildcard) [
    | inl gone ↦ absurd (omega (arith, v.none_wild gone))
    | inr (w, there) ↦ rw (there, strength) refl
  ]

  same-Passes :
      (From : ℕ → CompiledSite Rest → Type 0) (host : Option (List ℕ)) (port : ℕ) (key : SiteKey)
      (c : Candidates Rest)
      → Holds From host port c
      → rank_key host port key ≤ strength c
      → Passes From host port key c c
  same-Passes From host port key c v low = record { holds = v; grows = omega arith; covers = low }

  every-Passes :
      (From : ℕ → CompiledSite Rest → Type 0) (host : Option (List ℕ)) (port index : ℕ)
      (s : CompiledSite Rest) (c : Candidates Rest)
      → Holds From host port c
      → From index s
      → rank host port s ≡ 1
      → Passes From host port s.key c (record c { catch_all_site = some (index, s) })
  unfolding strength
  every-Passes From host port index s c v from one = record {
    holds = record {
      wild = v.wild;
      none_wild = v.none_wild;
      every = λ i t same.
          let pair : ◌≡◌ {A = ℕ × CompiledSite Rest} (index, s) (i, t) = cc in
          subst (λ x. From x.0 x.1 × (rank host port x.1 ≡ 1)) pair (from, one);
    };
    grows = elim (Option-cases c.wildcard) [
      | inl gone ↦ rw (gone, strength) (ground arith)
      | inr (w, there) ↦ rw (there, strength) (omega arith)
    ];
    covers = elim (Option-cases c.wildcard) [
      | inl gone ↦ rw (gone, strength) (omega (arith, one))
      | inr (w, there) ↦ rw (there, strength) (omega (arith, one))
    ];
  }

  wild-Passes :
      (From : ℕ → CompiledSite Rest → Type 0) (host : Option (List ℕ)) (port index n : ℕ)
      (s : CompiledSite Rest) (c : Candidates Rest)
      → Holds From host port c
      → From index s
      → rank host port s ≡ suc n
      → c.wildcard_suffix_len < n
      → Passes From host port s.key c
          (record c { wildcard = some (index, s); wildcard_suffix_len = n })
  unfolding strength
  wild-Passes From host port index n s c v from fits longer = record {
    holds = record {
      wild = λ i t same.
          let pair : ◌≡◌ {A = ℕ × CompiledSite Rest} (index, s) (i, t) = cc in
          let more : 0 < n = omega arith in
          subst (λ x. From x.0 x.1 × (rank host port x.1 ≡ suc n) × (0 < n)) pair
            (from, fits, more);
      none_wild = λ gone. absurd (cc);
      every = v.every;
    };
    grows = elim (Option-cases c.wildcard) [
      | inl gone ↦ rw (gone, strength) (ground arith)
      | inr (w, there) ↦ rw (there, strength) (omega arith)
    ];
    covers = omega (arith, fits);
  }

  named-Passes :
      (From : ℕ → CompiledSite Rest → Type 0) (host : Option (List ℕ)) (port index : ℕ)
      (s : CompiledSite Rest) (c : Candidates Rest)
      → (n : ℕ) → Holds From host port c
      → From index s
      → rank host port s ≡ wildcard_rank n
      → Passes From host port s.key c (
          if ltb c.wildcard_suffix_len n
          then record c { wildcard = some (index, s); wildcard_suffix_len = n }
          else c)
  named-Passes From host port index s c n v from fits =
      elim (Bool-cases (ltb c.wildcard_suffix_len n)) [
        | inl longer ↦
            rw longer
              (wild-Passes From host port index n s c v from (fits ∙ (ground arith)) (ground arith))
        | inr short ↦ rw short (
            same-Passes From host port s.key c v (elim (Bool-cases (ltb 0 n)) [
              | inl more ↦ ground (arith, fits, strength-wild From host port c v)
              | inr none_more ↦ ground (arith, fits)
            ]))
      ]

  unfit-rank :
      (host : Option (List ℕ)) (port p : ℕ) (name : List ℕ) (r : Rest)
      → is_exact Rest host port (site_with (named name p) r) ≡ false
      → (p == port) ≡ true
      → rank_key host port (named name p) ≡ wildcard_rank (suffix_len host name)
  unfolding rank_key is_exact suffix_len
  unfit-rank none port p name r h on = ground arith
  unfit-rank (some host) port p name r h on = ground arith

  pub update-Passes :
      (From : ℕ → CompiledSite Rest → Type 0) (host : Option (List ℕ)) (port index : ℕ)
      (key : SiteKey) (r : Rest) (c : Candidates Rest)
      → Holds From host port c
      → From index (site_with key r)
      → is_exact Rest host port (site_with key r) ≡ false
      → Passes From host port key c (update Rest host port index (site_with key r) c)
  unfolding update rank_key
  update-Passes From host port index (catch_all p) r c v from h = elim (Bool-cases (p == port)) [
    | inl on ↦
        rw (on, update)
          (every-Passes From host port index (site_with (catch_all p) r) c v from (rw on refl))
    | inr off ↦
        rw (off, update) (same-Passes From host port (catch_all p) c v (rw off (omega arith)))
  ]
  update-Passes From host port index (named name p) r c v from h = elim (Bool-cases (p == port)) [
    | inl on ↦
        rw (on, update)
          (named-Passes From host port index (site_with (named name p) r) c (suffix_len host name) v
            from (unfit-rank host port p name r h on))
    | inr off ↦
        rw (off, update) (same-Passes From host port (named name p) c v (rw off (omega arith)))
  ]
