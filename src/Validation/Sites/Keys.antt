-- ===== src/Validation/Sites/Keys.antt =====
-- config/validate.rs: the checks of the keys of sites, and what they mean for issuance.
use raddy.Base.{
  ℕ, List, [], ◌∷◌, Option, none, some, Bool, true, false, not, ◌&&◌, ◌==◌, is_some, ◌≡◌, ◌≢◌, ◌⊎◌,
  inl, inr, refl, All, arith, Bool-cases,
}
use raddy.Config.{SiteKey, named, catch_all}
use raddy.Config.Source.{GlobalConfig, Site, TlsConfig, acme}
use raddy.Config.Wildcard.{strip_prefix}
use raddy.Validation.Layer4.{is_acme-differs}
use raddy.Validation.Sites.{
  contains_key, issued_by_acme, is_tls_site, starts_with, check_key, is_off_port,
}
use raddy.Values.{Text, codes, ok}
use raddy.Values.Results.{reject_if-ok, reject_if-last}

-- The certificate comes from a file or from the server itself.
abbrev pub IsOwn : Option TlsConfig → Type 0
IsOwn tls = (config : TlsConfig) × (tls ≡ some config) × (config.source ≢ acme)

-- A port other than 443, and no TLS options of its own.
abbrev pub IsPlain : ℕ → Option TlsConfig → Type 0
IsPlain port tls = (port ≢ 443) × (tls ≡ none)

abbrev pub IsLiteral : Text → Type 0
IsLiteral host = (rest : Text) × (host ≡ b'[' ∷ rest)

abbrev pub IsWildcard : Text → Type 0
IsWildcard host = (rest : Text) × (host ≡ b'*' ∷ b'.' ∷ rest)

-- ACME can issue for a site wherever it has to.
abbrev pub IsIssuable : GlobalConfig → SiteKey → Option TlsConfig → Type 0
IsIssuable global (catch_all port) tls = Unit
IsIssuable global (named host port) tls =
    IsOwn tls
    ⊎ (IsPlain port tls
        ⊎ ((¬ (IsLiteral host)) × ((¬ (IsWildcard host)) ⊎ (is_some global.dns_challenge ≡ true))))

-- What the TLS-ALPN challenge asks of a site.
abbrev pub IsOnPort : SiteKey → Option TlsConfig → Type 0
IsOnPort (catch_all port) tls = Unit
IsOnPort (named host port) tls = IsOwn tls ⊎ (port ≡ 443)

-- No site key stands twice.
abbrev pub IsDistinct : List Site → Type 0
IsDistinct [] = Unit
IsDistinct (site ∷ sites) = All (λ other. site.key ≢ other.key) sites × IsDistinct sites

pub contains_key-differs :
    (key other : SiteKey) (seen : List SiteKey)
    → contains_key key (other ∷ seen) ≡ false
    → (other ≢ key) × (contains_key key seen ≡ false)
unfolding contains_key
contains_key-differs key other seen h = ground arith

pub IsOwn-of_acme : (tls : Option TlsConfig) → issued_by_acme tls ≡ false → IsOwn tls
IsOwn-of_acme none h = absurd cc
IsOwn-of_acme (some config) h = (config, refl, is_acme-differs config.source h)

starts_with-IsLiteral : (host : Text) → starts_with (codes "[") host ≡ false → ¬ (IsLiteral host)
unfolding starts_with strip_prefix
starts_with-IsLiteral host h (rest, e) =
    absurd (let found : starts_with (codes "[") host ≡ true = rw e refl in cc)

starts_with-IsWildcard : (host : Text) → starts_with (codes "*.") host ≡ false → ¬ (IsWildcard host)
unfolding starts_with strip_prefix
starts_with-IsWildcard host h (rest, e) =
    absurd (let found : starts_with (codes "*.") host ≡ true = rw e refl in cc)

is_tls_site-IsPlain :
    (port : ℕ) (tls : Option TlsConfig) → is_tls_site port tls ≡ false → IsPlain port tls
is_tls_site-IsPlain port none h = (λ e. ground (arith, e, h), refl)
is_tls_site-IsPlain port (some config) h = absurd (ground (arith, h))

-- The two tests on the key of a site that ACME issues for.
tested_issuable :
    (literal wildcard dns : Bool) (A B : Type 0)
    → (literal ≡ false → A)
    → (wildcard ≡ false → B)
    → literal ≡ false
    → (wildcard && not dns) ≡ false
    → A × (B ⊎ (dns ≡ true))
tested_issuable literal wildcard false A B a b p q = (a p, inl (b (ground arith)))
tested_issuable literal wildcard true A B a b p q = (a p, inr refl)

module _ (print_number : ℕ → Text) where
  pub check_key-IsIssuable :
      (global : GlobalConfig) (key : SiteKey) (tls : Option TlsConfig)
      → check_key print_number global key tls ≡ ok tt
      → IsIssuable global key tls
  unfolding check_key
  check_key-IsIssuable global (catch_all port) tls h = tt
  check_key-IsIssuable global (named host port) tls h = elim (Bool-cases (issued_by_acme tls)) [
    | inr own ↦ inl (IsOwn-of_acme tls own)
    | inl acme_here ↦ elim (Bool-cases (is_tls_site port tls)) [
      | inr plain ↦ inr (inl (is_tls_site-IsPlain port tls plain))
      | inl served ↦
          let (p, more) =
            reject_if-ok
              (is_tls_site port tls && (issued_by_acme tls && starts_with (codes "[") host)) _ _
              h in
          let q =
            reject_if-last
              (is_tls_site port tls
                && (issued_by_acme tls
                    && (starts_with (codes "*.") host && not (is_some global.dns_challenge))))
              _ more in
          inr (
            inr (
              tested_issuable (starts_with (codes "[") host) (starts_with (codes "*.") host)
                (is_some global.dns_challenge) _ _ (starts_with-IsLiteral host)
                (starts_with-IsWildcard host) (rw (served, acme_here) at p)
                (rw (served, acme_here) at q)))
    ]
  ]

-- The keys behind one that is seen differ from it.
pub seen_split :
    (key : SiteKey) (seen : List SiteKey) (sites : List Site)
    → All (λ site. contains_key site.key (key ∷ seen) ≡ false) sites
    → All (λ other. key ≢ other.key) sites × All (λ site. contains_key site.key seen ≡ false) sites
seen_split key seen [] h = (tt, tt)
seen_split key seen (site ∷ sites) h =
    let (differs, unseen) = contains_key-differs site.key key seen h.0 in
    let (others, rest) = seen_split key seen sites h.1 in ((differs, others), (unseen, rest))

pub is_off_port-IsOnPort :
    (key : SiteKey) (tls : Option TlsConfig) → is_off_port key tls ≡ false → IsOnPort key tls
is_off_port-IsOnPort (catch_all port) tls h = tt
is_off_port-IsOnPort (named host port) tls h = elim (Bool-cases (issued_by_acme tls)) [
  | inr own ↦ inl (IsOwn-of_acme tls own)
  | inl acme_here ↦
      let bare : (not (port == 443) && true) ≡ false = rw acme_here at h in
      inr (ground (arith, bare))
]
