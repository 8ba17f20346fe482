-- ===== src/Validation/Sound.antt =====
-- config/validate.rs: what validate_and_compile accepts, and what it makes of it.
use raddy.Base.{
  ℕ, List, [], ◌∷◌, none, Bool, true, false, ◌&&◌, any, is_some, ◌≡◌, ◌⊎◌, inl, inr, refl, sym, ap,
  subst, All, arith, Option-cases,
}
use raddy.Config.{SiteKey}
use raddy.Config.Source.{Raddexfile, GlobalConfig, Site}
use raddy.Validation.{validate_global, validate_layer4, check_email}
use raddy.Validation.Compile.{CompiledSite}
use raddy.Validation.Compile.Scopes.{
  compile_site, site_loop, check_site_tls, in_site, scoped_modifiers, no_site_scope,
}
use raddy.Validation.Layer4.{IsExclusive, validate_layer4-IsExclusive}
use raddy.Validation.Sites.{
  contains_key, check_key, is_off_port, CompiledConfig, compile_sites, validate_and_compile,
}
use raddy.Validation.Sites.Keys.{
  IsIssuable, IsOnPort, IsDistinct, check_key-IsIssuable, seen_split, is_off_port-IsOnPort,
}
use raddy.Validation.Upstreams.{is_nil}
use raddy.Values.{Text, Result, ok}
use raddy.Values.Addresses.{SocketAddr}
use raddy.Values.Results.{>>=-ok, reject_if-ok, ok_inj}

module _ {X509 : Type 0} {PKey : Type 0} where
  any_off_port-IsOnPort :
      (sites : List (CompiledSite X509 PKey))
      → any (λ site. is_off_port site.key site.tls_config) sites ≡ false
      → All (λ site. IsOnPort site.key site.tls_config) sites
  any_off_port-IsOnPort [] h = tt
  any_off_port-IsOnPort (site ∷ sites) h =
      let first : is_off_port site.key site.tls_config ≡ false = ground (arith, h) in
      let others : any (λ site. is_off_port site.key site.tls_config) sites ≡ false =
        ground (arith, h) in
      (is_off_port-IsOnPort site.key site.tls_config first, any_off_port-IsOnPort sites others)

module _ {X509 : Type 0} {PKey : Type 0} (read_to_string : Text → Result Text)
    (stack_from_pem : Text → Result (List X509)) (private_key_from_pem : Text → Result PKey)
    (resolver : Text → ℕ → Result (List SocketAddr)) (print_number : ℕ → Text) where
  -- Each site is compiled, in order, and keeps its key.
  abbrev pub AreCompiled : List Site → List (CompiledSite X509 PKey) → Type 0
  AreCompiled [] [] = Unit
  AreCompiled (site ∷ sites) (c ∷ compiled) =
      (compile_site read_to_string stack_from_pem private_key_from_pem resolver print_number site
        ≡ ok c)
      × (c.key ≡ site.key)
      × AreCompiled sites compiled
  AreCompiled _ _ = ⊥

  compile_site-key :
      (site : Site) (c : CompiledSite X509 PKey)
      → compile_site read_to_string stack_from_pem private_key_from_pem resolver print_number site
        ≡ ok c
      → c.key ≡ site.key
  unfolding compile_site
  compile_site-key site c h =
      let (s, _, more) =
        >>=-ok
          (site_loop read_to_string stack_from_pem private_key_from_pem resolver print_number
            (no_site_scope read_to_string stack_from_pem private_key_from_pem resolver print_number)
            site.directives)
          _ h in
      let (_, _, rest) =
        >>=-ok
          (check_site_tls read_to_string stack_from_pem private_key_from_pem resolver print_number
            s.tls_config)
          _ more in
      let (_, _, last) =
        >>=-ok (in_site (scoped_modifiers s.scope) s.scope.last_root s.scope.terminals) _ rest in
      ap (λ site. site.key) (sym (ok_inj last))

  compile_sites-AreCompiled :
      (global : GlobalConfig) (seen : List SiteKey) (sites : List Site)
      (compiled : List (CompiledSite X509 PKey))
      → compile_sites read_to_string stack_from_pem private_key_from_pem resolver print_number
          global seen sites
        ≡ ok compiled
      → AreCompiled sites compiled
        × IsDistinct sites
        × All (λ c. IsIssuable global c.key c.tls_config) compiled
        × All (λ site. contains_key site.key seen ≡ false) sites
  unfolding compile_sites
  compile_sites-AreCompiled global seen [] [] h = (tt, tt, tt, tt)
  compile_sites-AreCompiled global seen [] (c ∷ compiled) h = absurd cc
  compile_sites-AreCompiled global seen (site ∷ sites) compiled h =
      let (unseen, one) = reject_if-ok (contains_key site.key seen) _ _ h in
      let (c, made, two) =
        >>=-ok
          (compile_site read_to_string stack_from_pem private_key_from_pem resolver print_number
            site)
          _ one in
      let (_, checked, three) = >>=-ok (check_key print_number global c.key c.tls_config) _ two in
      let (cs, found, last) =
        >>=-ok
          (compile_sites read_to_string stack_from_pem private_key_from_pem resolver print_number
            global (site.key ∷ seen) sites)
          _ three in
      let (all_compiled, distinct, issuable, fresh) =
        compile_sites-AreCompiled global (site.key ∷ seen) sites cs found in
      let (differs, rest) = seen_split site.key seen sites fresh in
      subst
        (λ compiled.
          AreCompiled (site ∷ sites) compiled
          × IsDistinct (site ∷ sites)
          × All (λ c. IsIssuable global c.key c.tls_config) compiled
          × All (λ site. contains_key site.key seen ≡ false) (site ∷ sites))
        (ok_inj last)
        (
          (made, compile_site-key site c made, all_compiled),
          (differs, distinct),
          (check_key-IsIssuable print_number global c.key c.tls_config checked, issuable),
          (unseen, rest),
        )

  -- What a configuration that is accepted promises.
  pub record IsSound (file : Raddexfile) (config : CompiledConfig X509 PKey) : Type 0 where
    pub global_kept : config.global ≡ file.global
    pub one_challenge :
        (file.global.dns_challenge ≡ none) ⊎ (file.global.tls_alpn_challenge ≡ false)
    pub serves : ¬ ((file.sites ≡ []) × (file.layer4 ≡ []))
    pub compiled : AreCompiled file.sites config.sites
    pub distinct : IsDistinct file.sites
    pub issuable : All (λ c. IsIssuable file.global c.key c.tls_config) config.sites
    pub on_port :
        (file.global.tls_alpn_challenge ≡ false)
        ⊎ All (λ c. IsOnPort c.key c.tls_config) config.sites
    pub listeners_kept : config.layer4 ≡ file.layer4
    pub exclusive : IsExclusive file.sites file.layer4

  one_challenge_of :
      (global : GlobalConfig)
      → validate_global global ≡ ok tt
      → (global.dns_challenge ≡ none) ⊎ (global.tls_alpn_challenge ≡ false)
  unfolding validate_global
  one_challenge_of global h = elim (Option-cases global.dns_challenge) [
    | inl absent ↦ inl absent
    | inr (challenge, given) ↦
        let (tested, _) =
          reject_if-ok (is_some global.dns_challenge && global.tls_alpn_challenge) _
            (check_email global.acme_email) h in
        inr (rw given at tested)
  ]

  IsOnPort-of_alpn :
      (alpn : Bool) (sites : List (CompiledSite X509 PKey))
      → (alpn && any (λ site. is_off_port site.key site.tls_config) sites) ≡ false
      → (alpn ≡ false) ⊎ All (λ c. IsOnPort c.key c.tls_config) sites
  IsOnPort-of_alpn false sites h = inl refl
  IsOnPort-of_alpn true sites h = inr (any_off_port-IsOnPort sites h)

  -- Where a configuration is accepted, it has a site or a listener, its global options and its
  -- listeners are kept and the listeners are exclusive, each site is compiled in order and keeps
  -- its key, no key stands twice, and not both challenges are chosen. A named site has a
  -- certificate from elsewhere than ACME, or stands off port 443 with no TLS options, or is no IP
  -- literal and, if it is a wildcard, there is a DNS challenge; and where the TLS-ALPN challenge
  -- is chosen, each named site has a certificate from elsewhere than ACME or port 443.
  pub validate_and_compile-IsSound :
      (display : SocketAddr → Text) (file : Raddexfile) (config : CompiledConfig X509 PKey)
      → validate_and_compile read_to_string stack_from_pem private_key_from_pem resolver
          print_number display file
        ≡ ok config
      → IsSound file config
  unfolding validate_and_compile
  validate_and_compile-IsSound display file config h =
      let (_, valid, one) = >>=-ok (validate_global file.global) _ h in
      let (serving, two) = reject_if-ok (is_nil file.sites && is_nil file.layer4) _ _ one in
      let (sites, found, three) =
        >>=-ok
          (compile_sites read_to_string stack_from_pem private_key_from_pem resolver print_number
            file.global [] file.sites)
          _ two in
      let (ported, four) =
        reject_if-ok
          (file.global.tls_alpn_challenge
            && any (λ site. is_off_port site.key site.tls_config) sites)
          _ _ three in
      let (layer4, accepted, last) =
        >>=-ok
          (validate_layer4 read_to_string stack_from_pem private_key_from_pem display print_number
            file.sites file.layer4)
          _ four in
      let (compiled, distinct, issuable, _) =
        compile_sites-AreCompiled file.global [] file.sites sites found in
      let (kept, exclusive) =
        validate_layer4-IsExclusive read_to_string stack_from_pem private_key_from_pem display
          print_number file.sites file.layer4 layer4 accepted in
      subst (IsSound file) (ok_inj last) (record {
        global_kept = refl;
        one_challenge = one_challenge_of file.global valid;
        serves = λ empty. absurd (
            let nothing : (is_nil file.sites && is_nil file.layer4) ≡ true =
              rw (empty.0, empty.1) refl in
            cc);
        compiled = compiled;
        distinct = distinct;
        issuable = issuable;
        on_port = IsOnPort-of_alpn file.global.tls_alpn_challenge sites ported;
        listeners_kept = kept;
        exclusive = exclusive;
      })
