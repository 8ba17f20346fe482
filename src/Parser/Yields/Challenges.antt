-- ===== src/Parser/Yields/Challenges.antt =====
-- server/dns/mod.rs and config/parser.rs: the DNS-01 provider of a configuration that is accepted.
use raddy.Base.{
  List, [], ◌∷◌, Option, none, some, Bool, false, ◌≡◌, refl, sym, subst, Bool-cases, Option-cases,
  inl, inr,
}
use raddy.Config.Source.{GlobalConfig, global_default}
use raddy.Config.Wildcard.{text_eq, is_empty}
use raddy.Dns.{
  DnsCredentials, DnsProviderSpec, DnsChallenge, Cloudflare, cloudflare, client, build_cloudflare,
  lookup, find, get, require_credential, validate, check_names, check_fields,
}
use raddy.Parser.{Method, or_fail, ◌>>=◌, block}
use raddy.Parser.Global.{challenge_provider, parse_dns_challenge, global_option, apply_global}
use raddy.Parser.Yields.{
  Yields, HoldsOk, pure-Yields, or_fail-Yields, fail-Yields, if-Yields, bind-Yields, any-Yields,
  block-Yields,
}
use raddy.Values.{Text, Result, ok, err, codes}
use raddy.Values.Addresses.{IpAddr}
use raddy.Values.Results.{>>=-ok}

-- The provider builds its client, with a token that is not empty.
pub record Builds (challenge : DnsChallenge) : Type 0 where
  pub made : Cloudflare
  pub built : client challenge.provider challenge.credentials ≡ ok made
  pub some_token : is_empty made.api_token ≡ false

abbrev pub ChallengeBuilds : GlobalConfig → Type 0
ChallengeBuilds global = elim global.dns_challenge [ none ↦ Unit {0} | some c ↦ Builds c ]

lookup-cloudflare :
    (keyword : Text) (spec : DnsProviderSpec) → lookup keyword ≡ some spec → cloudflare ≡ spec
unfolding lookup find
lookup-cloudflare keyword spec h = elim (Bool-cases (text_eq (codes "cloudflare") keyword)) [
  | inl same ↦ let found = rw (same, lookup) at h in cc
  | inr other ↦ absurd (let gone = rw (other, lookup) at h in cc)
]

token-Builds :
    (entries : DnsCredentials) (token : Option Text)
    → get (codes "api_token") entries ≡ token
    → check_fields cloudflare cloudflare.fields entries ≡ ok tt
    → Builds (record { provider = cloudflare; credentials = entries })
unfolding client build_cloudflare require_credential check_fields
token-Builds entries none e h = absurd (let h' = rw (e, check_fields) at h in cc)
token-Builds entries (some []) e h = absurd (let h' = rw (e, check_fields) at h in cc)
token-Builds entries (some (c ∷ token)) e h = record {
  made = record { api_token = c ∷ token };
  built = rw (e, build_cloudflare) refl;
  some_token = refl;
}

validate-Builds :
    (entries : DnsCredentials)
    → validate cloudflare entries ≡ ok tt
    → Builds (record { provider = cloudflare; credentials = entries })
unfolding validate
validate-Builds entries h =
    let (u, _, later) = >>=-ok (check_names cloudflare entries) _ h in
    token-Builds entries (get (codes "api_token") entries) refl later

provider-HoldsOk :
    (words : List Text) → HoldsOk (λ spec. cloudflare ≡ spec) (challenge_provider words)
provider-HoldsOk [] = record { holds = tt }
provider-HoldsOk (word ∷ []) = record { holds = tt }
provider-HoldsOk (word ∷ keyword ∷ args) = elim (Option-cases (lookup keyword)) [
  | inl gone ↦ rw gone (record { holds = tt })
  | inr (spec, there) ↦ rw there (record { holds = lookup-cloudflare keyword spec there })
]

-- Behind a test, what passed it.
passed-Yields :
    {B : Type 0} {P : B → Type 0} (r : Result (Unit {0})) (f : Unit {0} → Method B)
    → (r ≡ ok tt → Yields P (f tt))
    → Yields P (or_fail r >>= f)
unfolding or_fail
passed-Yields (ok u) f next = record { yields = λ p. (next refl).yields p }
passed-Yields (err message) f next = record { yields = λ p. tt }

challenge-Builds :
    (spec : DnsProviderSpec) (entries : DnsCredentials)
    → cloudflare ≡ spec
    → validate spec entries ≡ ok tt
    → Builds (record { provider = spec; credentials = entries })
challenge-Builds spec entries known valid =
    subst (λ s. Builds (record { provider = s; credentials = entries })) known
      (validate-Builds entries (subst (λ s. validate s entries ≡ ok tt) (sym known) valid))

parse_dns_challenge-Yields :
    (words : List Text) (block_open : Bool) → Yields Builds (parse_dns_challenge words block_open)
unfolding parse_dns_challenge
parse_dns_challenge-Yields words block_open =
    bind-Yields (λ spec. cloudflare ≡ spec)
      (or_fail-Yields (challenge_provider words) (provider-HoldsOk words))
      (λ spec known. any-Yields _ (λ entries.
        passed-Yields (validate spec entries) _
          (λ valid. pure-Yields (challenge-Builds spec entries known valid))))

set_challenge-Yields :
    {B : Type 0} {P : B → Type 0} (words : List Text) (block_open : Bool)
    (f : DnsChallenge → Method B)
    → ((c : DnsChallenge) → Builds c → Yields P (f c))
    → Yields P (parse_dns_challenge words block_open >>= f)
set_challenge-Yields words block_open f next =
    bind-Yields Builds (parse_dns_challenge-Yields words block_open) next

module _ (parse_ip : Text → Option IpAddr) where
  global_option-Yields :
      (global : GlobalConfig) (name : Text) (words : List Text) (block_open : Bool)
      → ChallengeBuilds global
      → Yields ChallengeBuilds (global_option parse_ip global name words block_open)
  global_option-Yields global name words block_open h =
      search (if-Yields, fail-Yields, set_challenge-Yields, any-Yields, pure-Yields, h) depth 30

  apply_global-Yields :
      (global : GlobalConfig) (words : List Text) (block_open : Bool)
      → ChallengeBuilds global
      → Yields ChallengeBuilds (apply_global parse_ip global words block_open)
  unfolding apply_global
  apply_global-Yields global words block_open h =
      search (any-Yields, global_option-Yields, h) depth 10

  pub global-Yields :
      (eof : Text) → Yields ChallengeBuilds (block eof (apply_global parse_ip) global_default)
  global-Yields eof = block-Yields eof (apply_global parse_ip) apply_global-Yields global_default tt
