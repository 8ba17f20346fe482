-- ===== src/Dns.antt =====
-- server/dns/mod.rs: the registry of DNS-01 providers, and the check of a provider's credentials. A client
-- is the token that it is built with.
use raddy.Base.{
  List, [], ◌∷◌, ◌++◌, Option, none, some, Bool, true, false, map, is_some, not, if◌then◌else◌,
}
use raddy.Base.Map.{map_option}
use raddy.Config.Wildcard.{text_eq, is_empty}
use raddy.Values.{Text, codes, about, Result, ok, err, ◌>>=◌, ◌>>◌, reject_if, ok_or}

pub record DnsCredentialField : Type 0 where
  pub name : Text
  pub required : Bool
  pub description : Text

abbrev pub DnsCredentials : Type 0
DnsCredentials = List (Text × Text)

pub record Cloudflare : Type 0 where
  pub api_token : Text

pub record DnsProviderSpec : Type 0 where
  pub keyword : Text
  pub fields : List DnsCredentialField
  pub shorthand_field : Option Text
  pub build : DnsCredentials → Result Cloudflare

pub record DnsChallenge : Type 0 where
  pub provider : DnsProviderSpec
  pub credentials : DnsCredentials

unfoldable pub find {ℓ} : {A : Type ℓ} → (A → Bool) → List A → Option A
find p [] = none
find p (x ∷ xs) = elim (p x) [ true ↦ some x | false ↦ find p xs ]

-- The texts with a separator between each two.
unfoldable pub join : Text → List Text → Text
join separator [] = []
join separator (t ∷ []) = t
join separator (t ∷ u ∷ texts) = t ++ separator ++ join separator (u ∷ texts)

unfoldable pub get : Text → DnsCredentials → Option Text
unfolding find text_eq
get name entries = map_option (λ e. e.1) (find (λ e. text_eq e.0 name) entries)

-- `require`: what a provider's construction reads.
unfoldable pub require_credential : Text → DnsCredentials → Result Text
unfolding get
require_credential name entries =
    ok_or (get name entries) (about "missing required credential '" name "'")

unfoldable pub field : DnsProviderSpec → Text → Option DnsCredentialField
unfolding find text_eq
field spec name = find (λ f. text_eq f.name name) spec.fields

abbrev pub field_names : DnsProviderSpec → Text
field_names spec = join (codes ", ") (map (λ f. f.name) spec.fields)

-- The first loop of `validate`: every name is a field's.
unfoldable pub check_names : DnsProviderSpec → DnsCredentials → Result (Unit {0})
unfolding field join
check_names spec [] = ok tt
check_names spec ((name, value) ∷ entries) = do
  reject_if (not (is_some (field spec name))) (
      about "unknown " spec.keyword " credential '"
      ++ about "" name "' (expected "
      ++ field_names spec
      ++ codes ")")
  check_names spec entries

abbrev pub check_field : DnsProviderSpec → DnsCredentialField → Option Text → Result (Unit {0})
check_field spec f none = err (
    about "dns_challenge " spec.keyword " requires '"
    ++ about "" f.name "' ("
    ++ about "" f.description ")")
check_field spec f (some value) =
    reject_if (is_empty value)
      (about "dns_challenge " spec.keyword " requires a non-empty '" ++ about "" f.name "'")

-- The second loop: the required fields.
unfoldable pub check_fields :
    DnsProviderSpec → List DnsCredentialField → DnsCredentials → Result (Unit {0})
unfolding get
check_fields spec [] entries = ok tt
check_fields spec (f ∷ fields) entries = do
  if f.required then check_field spec f (get f.name entries) else ok tt
  check_fields spec fields entries

unfoldable pub validate : DnsProviderSpec → DnsCredentials → Result (Unit {0})
unfolding check_names check_fields
validate spec entries = check_names spec entries >> check_fields spec spec.fields entries

unfoldable pub client : DnsProviderSpec → DnsCredentials → Result Cloudflare
client spec entries = spec.build entries

unfoldable pub build_cloudflare : DnsCredentials → Result Cloudflare
unfolding require_credential
build_cloudflare entries = do
  token ← require_credential (codes "api_token") entries
  ok (record { api_token = token })

abbrev pub cloudflare : DnsProviderSpec
cloudflare = record {
  keyword = codes "cloudflare";
  fields =
      record {
        name = codes "api_token";
        required = true;
        description = codes "a Cloudflare API token with Zone:DNS:Edit on the zone";
      }
      ∷ [];
  shorthand_field = some (codes "api_token");
  build = build_cloudflare;
}

abbrev pub registry : List DnsProviderSpec
registry = cloudflare ∷ []

unfoldable pub lookup : Text → Option DnsProviderSpec
unfolding find text_eq
lookup keyword = find (λ spec. text_eq spec.keyword keyword) registry

unfoldable pub keywords : Text
unfolding join
keywords = join (codes ", ") (map (λ spec. spec.keyword) registry)
