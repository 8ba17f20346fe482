-- ===== src/SiteSelection/Tests.antt =====
-- proxy/site.rs: selections at concrete sites, and the theorems at them.
use raddy.Base.{ℕ, ◌≡◌, ◌↔◌, refl, List, [], ◌∷◌, ◌++◌, some, Bool, false}
use raddy.Base.Ascii.{is_ascii, lower, to_ascii_lowercase}
use raddy.Config.{named, catch_all}
use raddy.Config.Wildcard.{wildcard_match_specificity, strip_prefix, strip_suffix, text_eq}
use raddy.Config.Patterns.{Splits, wildcard_match_specificity_iff}
use raddy.SiteSelection.{
  CompiledSite, site, not_found, bad_request, select_with_index, select_for, scan_sites, update,
  choose, is_exact, suffix_len, normalize_host, normalize_parts, normalize_name, without_dot,
  is_valid_port, decimal, position, rposition, normalize_bracket, matchable,
}
use raddy.SiteSelection.Best.{Answers, requested, select_with_index-Answers}
use raddy.SiteSelection.Hosts.{normalize_host-spellings}

abbrev no_ipv6 : List ℕ → Bool
no_ipv6 = λ text. false

-- `a.b`, `*.b` and the catch-all on port 80.
abbrev exact : CompiledSite ℕ
exact = record { key = named (b'a' ∷ b'.' ∷ b'b' ∷ []) 80; rest = 0 }

abbrev wild : CompiledSite ℕ
wild = record { key = named (b'*' ∷ b'.' ∷ b'b' ∷ []) 80; rest = 1 }

abbrev fallback : CompiledSite ℕ
fallback = record { key = catch_all 80; rest = 2 }

abbrev sites : List (CompiledSite ℕ)
sites = fallback ∷ wild ∷ exact ∷ []

runs : Unit {0}
unfolding select_with_index select_for scan_sites update choose is_exact suffix_len normalize_host
    normalize_parts normalize_name without_dot is_valid_port decimal position rposition
    normalize_bracket wildcard_match_specificity strip_prefix strip_suffix text_eq is_ascii lower
runs = tt

select_test :
    (select_with_index ℕ no_ipv6 sites 80 (some (b'A' ∷ b'.' ∷ b'b' ∷ [])) ≡ site 2 exact)
    × (select_with_index ℕ no_ipv6 sites 80 (some (b'c' ∷ b'.' ∷ b'b' ∷ [])) ≡ site 1 wild)
    × (select_with_index ℕ no_ipv6 sites 80 (some (b'b' ∷ [])) ≡ site 0 fallback)
    × (select_with_index ℕ no_ipv6 sites 81 (some (b'b' ∷ [])) ≡ not_found)
    × (select_with_index ℕ no_ipv6 sites 80 (some (b'b' ∷ b':' ∷ b'x' ∷ [])) ≡ bad_request)
unfolding runs
select_test = (refl, refl, refl, refl, refl)

select_with_index-Answers_example :
    Answers ℕ
      (requested ℕ no_ipv6 (some (b'c' ∷ b'.' ∷ b'b' ∷ [])))
      sites
      80
      (select_with_index ℕ no_ipv6 sites 80 (some (b'c' ∷ b'.' ∷ b'b' ∷ [])))
select_with_index-Answers_example =
    select_with_index-Answers ℕ no_ipv6 sites 80 (some (b'c' ∷ b'.' ∷ b'b' ∷ []))

wildcard_match_specificity_iff_example :
    (wildcard_match_specificity (b'*' ∷ b'.' ∷ b'b' ∷ []) (b'c' ∷ b'.' ∷ b'b' ∷ []) ≡ some 1)
    ↔ Splits (b'*' ∷ b'.' ∷ b'b' ∷ []) (b'c' ∷ b'.' ∷ b'b' ∷ []) 1
wildcard_match_specificity_iff_example =
    wildcard_match_specificity_iff (b'*' ∷ b'.' ∷ b'b' ∷ []) (b'c' ∷ b'.' ∷ b'b' ∷ []) 1

abbrev name : List ℕ
name = b'A' ∷ b'.' ∷ b'b' ∷ []

abbrev port : List ℕ
port = b'8' ∷ b'0' ∷ []

normalize_host-spellings_example :
    (normalize_host no_ipv6 name ≡ matchable (to_ascii_lowercase name))
    × (normalize_host no_ipv6 (name ++ b'.' ∷ []) ≡ matchable (to_ascii_lowercase name))
    × (normalize_host no_ipv6 (name ++ b':' ∷ port) ≡ matchable (to_ascii_lowercase name))
    × (normalize_host no_ipv6 ((name ++ b'.' ∷ []) ++ b':' ∷ port)
        ≡ matchable (to_ascii_lowercase name))
unfolding runs
normalize_host-spellings_example =
    normalize_host-spellings no_ipv6 name port
      (record { some_byte = refl; ascii = refl; no_colon = refl; no_dot = refl; no_bracket = refl })
      refl
