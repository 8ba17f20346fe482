-- ===== src/SiteSelection/Best.antt =====
-- proxy/site.rs: the site that is selected fits best.
use raddy.Base.{
  ℕ, zero, suc, ◌+◌, ◌≤◌, ◌<◌, ◌≡◌, refl, ap, subst, ◌∙◌, List, [], ◌∷◌, Option, none, some, Bool,
  arith, inl, inr, Bool-cases, Option-cases, get_elem?,
}
use raddy.SiteSelection.{
  CompiledSite, Candidates, IndexedSelection, site, not_found, bad_request, is_exact, update,
  choose, scan_sites, no_candidates, host_of, normalize_host, select_for, select_with_index,
}
use raddy.SiteSelection.Ranks.{
  rank, rank_key-le, top, exact_key-rank, strength, Holds, update-Passes,
}

module _ (Rest : Type 0) (host : Option (List ℕ)) (port : ℕ) where
  -- No site of the list fits better than a bound.
  abbrev Below : ℕ → List (CompiledSite Rest) → Type 0
  Below n sites =
      (j : ℕ) (t : CompiledSite Rest) → get_elem? sites j ≡ some t → rank Rest host port t ≤ n

  abbrev Outcome :
      (ℕ → CompiledSite Rest → Type 0)
      → ℕ
      → List (CompiledSite Rest)
      → IndexedSelection Rest
      → Type 0
  Outcome From low sites (site i s) =
      From i s
      × (0 < rank Rest host port s)
      × (low ≤ rank Rest host port s)
      × Below (rank Rest host port s) sites
  Outcome From low sites not_found = (low ≡ 0) × Below 0 sites
  Outcome From low sites bad_request = ⊥

  choose-Outcome :
      (From : ℕ → CompiledSite Rest → Type 0) (c : Candidates Rest)
      → Holds Rest From host port c
      → Outcome From (strength Rest c) [] (choose Rest c)
  unfolding choose strength
  choose-Outcome From c v = elim (Option-cases c.wildcard) [
    | inr ((i, s), there) ↦
        let (from, fits, more) = v.wild i s there in
        rw (there, choose, strength)
          (from, omega (arith, fits), omega (arith, fits), λ j t h. absurd (cc))
    | inl gone ↦ elim (Option-cases c.catch_all_site) [
      | inr ((i, s), there) ↦
          let (from, fits) = v.every i s there in
          rw (gone, there, choose, strength)
            (from, omega (arith, fits), omega (arith, fits), λ j t h. absurd (cc))
      | inl none_there ↦ rw (gone, none_there, choose, strength) (refl, λ j t h. absurd (cc))
    ]
  ]

  Below-cons :
      (n : ℕ) (s : CompiledSite Rest) (rest : List (CompiledSite Rest))
      → rank Rest host port s ≤ n
      → Below n rest
      → Below n (s ∷ rest)
  Below-cons n s rest low below zero t h =
      let same : s ≡ t = cc in subst (λ x. rank Rest host port x ≤ n) same low
  Below-cons n s rest low below (suc j) t h = below j t h

  strength-le :
      (From : ℕ → CompiledSite Rest → Type 0) (c : Candidates Rest)
      → Holds Rest From host port c
      → strength Rest c ≤ top host
  unfolding strength
  strength-le From c v = elim (Option-cases c.wildcard) [
    | inr ((i, s), there) ↦
        let (from, fits, more) = v.wild i s there in
        rw (there, strength) (omega (arith, fits, rank_key-le host port s.key))
    | inl gone ↦ elim (Option-cases c.catch_all_site) [
      | inr ((i, s), there) ↦
          let (from, fits) = v.every i s there in
          rw (gone, there, strength) (omega (arith, fits, rank_key-le host port s.key))
      | inl none_there ↦ rw (gone, none_there, strength) (omega arith)
    ]
  ]

  top-lt : 0 < top host
  top-lt = elim host as (λ h. 0 < top h) [ none ↦ omega arith | some h ↦ omega arith ]

  -- One more site in front.
  Outcome-cons :
      (From : ℕ → CompiledSite Rest → Type 0) (low low' : ℕ) (s : CompiledSite Rest)
      (rest : List (CompiledSite Rest)) (r : IndexedSelection Rest)
      → low ≤ low'
      → rank Rest host port s ≤ low'
      → Outcome From low' rest r
      → Outcome From low (s ∷ rest) r
  Outcome-cons From low low' s rest (site i t) grows covers (from, more, above, below) =
      (from, more, omega arith, Below-cons (rank Rest host port t) s rest (omega arith) below)
  Outcome-cons From low low' s rest not_found grows covers (zero_low, below) =
      (omega (arith, zero_low), Below-cons 0 s rest (omega arith) below)
  Outcome-cons From low low' s rest bad_request grows covers v = elim v [ ]

  scan_sites-Outcome :
      (From : ℕ → CompiledSite Rest → Type 0) (sites : List (CompiledSite Rest)) (index : ℕ)
      (c : Candidates Rest)
      → Holds Rest From host port c
      → ((j : ℕ) (s : CompiledSite Rest) → get_elem? sites j ≡ some s → From (index + j) s)
      → Outcome From (strength Rest c) sites (scan_sites Rest host port sites index c)
  unfolding scan_sites
  scan_sites-Outcome From [] index c v from = choose-Outcome From c v
  scan_sites-Outcome From (s ∷ rest) index c v from =
      let here : From index s = subst (λ i. From i s) (omega arith) (from 0 s refl) in
      elim (Bool-cases (is_exact Rest host port s)) [
        | inl exact ↦
            rw (exact, scan_sites)
              (
                here,
                omega (arith, exact_key-rank Rest host port s.key s.rest exact, top-lt),
                omega
                    (arith, exact_key-rank Rest host port s.key s.rest exact, strength-le From c v),
                λ j t at. omega (
                  arith,
                  exact_key-rank Rest host port s.key s.rest exact,
                  rank_key-le host port t.key,
                ),
              )
        | inr other ↦
            let p = update-Passes Rest From host port index s.key s.rest c v here other in
            rw (other, scan_sites)
              (Outcome-cons From (strength Rest c) (strength Rest (update Rest host port index s c))
                s rest
                (scan_sites Rest host port rest (index + 1) (update Rest host port index s c))
                p.grows p.covers
                (scan_sites-Outcome From rest (index + 1) (update Rest host port index s c) p.holds
                  (λ j t at. subst (λ i. From i t) (omega arith) (from (suc j) t at))))
      ]

  -- The answer for a host: a site of the list that no other fits better than, or none where none fits.
  abbrev pub Fits : List (CompiledSite Rest) → IndexedSelection Rest → Type 0
  Fits sites (site i s) =
      (get_elem? sites i ≡ some s)
      × (0 < rank Rest host port s)
      × ((j : ℕ) (t : CompiledSite Rest)
          → get_elem? sites j ≡ some t
          → rank Rest host port t ≤ rank Rest host port s)
  Fits sites not_found =
      (j : ℕ) (t : CompiledSite Rest) → get_elem? sites j ≡ some t → rank Rest host port t ≡ 0
  Fits sites bad_request = ⊥

  Outcome-Fits :
      (sites : List (CompiledSite Rest)) (r : IndexedSelection Rest)
      → Outcome (λ i s. get_elem? sites i ≡ some s) 0 sites r
      → Fits sites r
  Outcome-Fits sites (site i s) (at, more, _, below) = (at, more, below)
  Outcome-Fits sites not_found (_, below) = λ j t at. omega (arith, below j t at)
  Outcome-Fits sites bad_request v = elim v [ ]

  scan_sites-Fits :
      (sites : List (CompiledSite Rest))
      → Fits sites (scan_sites Rest host port sites 0 (no_candidates Rest))
  unfolding strength
  scan_sites-Fits sites =
      Outcome-Fits sites (scan_sites Rest host port sites 0 (no_candidates Rest)) (
        scan_sites-Outcome (λ i s. get_elem? sites i ≡ some s) sites 0 (no_candidates Rest)
          (record {
            wild = λ i s h. absurd (cc);
            none_wild = λ _. refl;
            every = λ i s h. absurd (cc);
          })
          (λ j s at. ap (get_elem? sites) (omega arith) ∙ at))

module _ (Rest : Type 0) where
  -- What a request must be answered with, by its host; no host is a bad request.
  abbrev pub Answers :
      Option (Option (List ℕ)) → List (CompiledSite Rest) → ℕ → IndexedSelection Rest → Type 0
  Answers none sites port r = r ≡ bad_request
  Answers (some host) sites port r = Fits Rest host port sites r

  abbrev pub requested : (List ℕ → Bool) → Option (List ℕ) → Option (Option (List ℕ))
  requested parses_ipv6 none = none
  requested parses_ipv6 (some raw) = host_of Rest (normalize_host parses_ipv6 raw)

  select_for-Answers :
      (host : Option (Option (List ℕ))) (sites : List (CompiledSite Rest)) (port : ℕ)
      → Answers host sites port (select_for Rest host sites port)
  unfolding select_for
  select_for-Answers none sites port = refl
  select_for-Answers (some host) sites port = scan_sites-Fits Rest host port sites

  -- For any sites, port and Host header, the selection is a bad request when there is no host or
  -- it does not normalize, and otherwise the index and the site of a site of the list that fits
  -- and that no other site fits better, or not found where none fits: on its port the very name
  -- ranks above every wildcard, a wildcard by the length of its suffix, and the catch-all below
  -- them all.
  pub select_with_index-Answers :
      (parses_ipv6 : List ℕ → Bool) (sites : List (CompiledSite Rest)) (port : ℕ)
      (host : Option (List ℕ))
      → Answers
          (requested parses_ipv6 host)
          sites
          port
          (select_with_index Rest parses_ipv6 sites port host)
  unfolding select_with_index
  select_with_index-Answers parses_ipv6 sites port none = refl
  select_with_index-Answers parses_ipv6 sites port (some raw) =
      select_for-Answers (host_of Rest (normalize_host parses_ipv6 raw)) sites port
