-- ===== src/Validation/Sites.antt =====
-- config/validate.rs: validate_and_compile, with the checks of the keys of the sites.
pub mod Keys
use raddy.Base.{
  ℕ, List, [], ◌∷◌, ◌++◌, Option, none, some, Bool, true, false, not, ◌&&◌, ◌||◌, any, ◌==◌,
  is_some, ite,
}
use raddy.Config.{SiteKey, named, catch_all, SiteKey-discrete}
use raddy.Config.Source.{Raddexfile, GlobalConfig, Site, Layer4Listener, TlsConfig}
use raddy.Config.Wildcard.{strip_prefix}
use raddy.Validation.{validate_global, validate_layer4, is_acme}
use raddy.Validation.Compile.{CompiledSite}
use raddy.Validation.Compile.Scopes.{compile_site}
use raddy.Validation.Upstreams.{is_nil}
use raddy.Values.{Text, codes, about, Result, ok, err, ◌>>=◌, ◌>>◌, reject_if}
use raddy.Values.Addresses.{SocketAddr}

unfoldable pub contains_key : SiteKey → List SiteKey → Bool
contains_key key [] = false
contains_key key (k ∷ seen) = ite (SiteKey-discrete k key) true (contains_key key seen)

-- `is_none_or(|tls| tls.source == TlsSource::Acme)`.
abbrev pub issued_by_acme : Option TlsConfig → Bool
issued_by_acme none = true
issued_by_acme (some tls) = is_acme tls.source

abbrev pub is_tls_site : ℕ → Option TlsConfig → Bool
is_tls_site port tls = port == 443 || is_some tls

unfoldable pub starts_with : Text → Text → Bool
unfolding strip_prefix
starts_with prefix text = is_some (strip_prefix prefix text)

module _ (print_number : ℕ → Text) where
  abbrev pub describe : SiteKey → Text
  describe (named host port) = host ++ (codes ":" ++ print_number port)
  describe (catch_all port) = codes ":" ++ print_number port

  unfoldable pub check_key : GlobalConfig → SiteKey → Option TlsConfig → Result (Unit {0})
  unfolding starts_with
  check_key global (catch_all port) tls = ok tt
  check_key global (named host port) tls = do
    reject_if (is_tls_site port tls && (issued_by_acme tls && starts_with (codes "[") host)) (
        about "IP-literal site '" (describe (named host port))
          "' requires `tls internal` or a static certificate")
    reject_if
        (is_tls_site port tls
          && (issued_by_acme tls
              && (starts_with (codes "*.") host && not (is_some global.dns_challenge))))
        (about "wildcard site '" (describe (named host port))
          "' requires the existing DNS-01 challenge configuration")

-- An ACME site that is not on the port of TLS.
abbrev pub is_off_port : SiteKey → Option TlsConfig → Bool
is_off_port (named host port) tls = not (port == 443) && issued_by_acme tls
is_off_port (catch_all port) tls = false

pub record CompiledConfig (X509 PKey : Type 0) : Type 0 where
  pub global : GlobalConfig
  pub sites : List (CompiledSite X509 PKey)
  pub layer4 : List Layer4Listener

module _ {X509 : Type 0} {PKey : Type 0} (read_to_string : Text → Result Text)
    (stack_from_pem : Text → Result (List X509)) (private_key_from_pem : Text → Result PKey)
    (resolver : Text → ℕ → Result (List SocketAddr)) (print_number : ℕ → Text) where
  unfoldable pub compile_sites :
      GlobalConfig → List SiteKey → List Site → Result (List (CompiledSite X509 PKey))
  unfolding contains_key compile_site check_key
  compile_sites global seen [] = ok []
  compile_sites global seen (site ∷ sites) = do
    reject_if (contains_key site.key seen)
        (about "duplicate site '" (describe print_number site.key) "'")
    compiled ←
        compile_site read_to_string stack_from_pem private_key_from_pem resolver print_number site
    check_key print_number global compiled.key compiled.tls_config
    rest ← compile_sites global (site.key ∷ seen) sites
    ok (compiled ∷ rest)

  -- `display` prints the address of a listener.
  unfoldable pub validate_and_compile :
      (SocketAddr → Text) → Raddexfile → Result (CompiledConfig X509 PKey)
  unfolding validate_global compile_sites validate_layer4
  validate_and_compile display raddexfile = do
    validate_global raddexfile.global
    reject_if (is_nil raddexfile.sites && is_nil raddexfile.layer4)
        (codes "no sites or layer-4 listeners defined")
    sites ← compile_sites raddexfile.global [] raddexfile.sites
    reject_if
        (raddexfile.global.tls_alpn_challenge
          && any (λ site. is_off_port site.key site.tls_config) sites)
        (codes "TLS-ALPN-01 requires ACME sites to use the standard TLS port 443")
    layer4 ←
        validate_layer4 read_to_string stack_from_pem private_key_from_pem display print_number
          raddexfile.sites raddexfile.layer4
    ok (record { global = raddexfile.global; sites = sites; layer4 = layer4 })
