-- ===== src/Validation/Compile/Scopes.antt =====
-- config/validate.rs: compile_reverse_proxy_terminal, compile_handle_block and compile_site.
use raddy.Base.{ℕ, List, [], ◌∷◌, ◌++◌, Option, none, some, Bool, true, false, any}
use raddy.Config.{LbPolicy}
use raddy.Config.Source.{
  Site, Directive, Directives, nil, cons, reverse_proxy, handle, handle_path, header_up,
  header_down, file_server, root, encode, redir, rewrite, respond, error_page, basic_auth,
  forward_auth, access_log_off, trusted_proxies, rate_limit, tls, Matcher, HealthCheckSpec,
  ProxyTlsConfig, TlsConfig,
}
use raddy.Validation.{validate_tls_config}
use raddy.Validation.Compile.{
  Modifier, header_up_modifier, header_down_modifier, encode_modifier, rate_limit_modifier,
  rewrite_modifier, TerminalKind, reverse_proxy_terminal, file_server_terminal, redir_terminal,
  respond_terminal, error_terminal, Terminal, CompiledSite, validate_header_name,
  validate_encodings, merge_tls, Scope, users_modifier, delegate_modifier, or_500, first_path,
}
use raddy.Validation.Upstreams.{resolve_upstreams, build_upstream_tls}
use raddy.Values.{Text, codes, Result, ok, err, ◌>>=◌, ◌>>◌, ok_or}
use raddy.Values.Addresses.{SocketAddr, Upstream, Cidr}
use raddy.Values.Templates.{parse_template}

abbrev pub required_root : Option Text → Result Text
required_root last_root =
    ok_or last_root (codes "file_server requires a 'root' directive in its scope")

abbrev pub strip_of : Bool → List Matcher → Option Text
strip_of true matcher = first_path matcher
strip_of false matcher = none

module _ {X509 : Type 0} {PKey : Type 0} where
  abbrev pub no_scope : Scope X509 PKey
  no_scope = record {
    terminals = [];
    modifiers = [];
    last_root = none;
    basic_users = [];
    delegate = none;
  }

  abbrev pub push_terminal : Scope X509 PKey → Terminal X509 PKey → Scope X509 PKey
  push_terminal s t = record s { terminals = s.terminals ++ (t ∷ []) }

  abbrev pub push_modifier : Scope X509 PKey → Modifier → Scope X509 PKey
  push_modifier s m = record s { modifiers = s.modifiers ++ (m ∷ []) }

  abbrev pub terminal : List Matcher → Option Text → TerminalKind X509 PKey → Terminal X509 PKey
  terminal matchers strip kind = record {
    matchers = matchers;
    kind = kind;
    modifiers = [];
    strip_prefix = strip;
  }

  -- The modifiers of a block with its guards behind them.
  abbrev pub scoped_modifiers : Scope X509 PKey → List Modifier
  scoped_modifiers s = s.modifiers ++ (users_modifier s.basic_users ++ delegate_modifier s.delegate)

  unfoldable pub handle_root :
      Option Text → TerminalKind X509 PKey → Result (TerminalKind X509 PKey)
  handle_root last_root (file_server_terminal path) =
      required_root last_root >>= λ found. ok (file_server_terminal found)
  handle_root last_root kind = ok kind

  unfoldable pub site_root : Option Text → TerminalKind X509 PKey → Result (TerminalKind X509 PKey)
  site_root last_root (file_server_terminal []) =
      required_root last_root >>= λ found. ok (file_server_terminal found)
  site_root last_root kind = ok kind

  -- A handle's modifiers stand behind those that the terminal has, a site's in front.
  unfoldable pub in_handle :
      List Modifier → Option Text → List (Terminal X509 PKey) → Result (List (Terminal X509 PKey))
  unfolding handle_root
  in_handle scoped last_root [] = ok []
  in_handle scoped last_root (t ∷ terminals) = do
    kind ← handle_root last_root t.kind
    rest ← in_handle scoped last_root terminals
    ok (record t { kind = kind; modifiers = t.modifiers ++ scoped } ∷ rest)

  unfoldable pub in_site :
      List Modifier → Option Text → List (Terminal X509 PKey) → Result (List (Terminal X509 PKey))
  unfolding site_root
  in_site modifiers last_root [] = ok []
  in_site modifiers last_root (t ∷ terminals) = do
    kind ← site_root last_root t.kind
    rest ← in_site modifiers last_root terminals
    ok (record t { kind = kind; modifiers = modifiers ++ t.modifiers } ∷ rest)

-- What a site's directives give beside its scope.
pub record SiteScope (X509 PKey : Type 0) : Type 0 where
  pub scope : Scope X509 PKey
  pub trusted : Option (List Cidr)
  pub tls_config : Option TlsConfig
  pub log_off : Bool

module _ {X509 : Type 0} {PKey : Type 0} (read_to_string : Text → Result Text)
    (stack_from_pem : Text → Result (List X509)) (private_key_from_pem : Text → Result PKey)
    (resolver : Text → ℕ → Result (List SocketAddr)) (print_number : ℕ → Text) where
  unfoldable pub compile_reverse_proxy_terminal :
      List Matcher
      → Option Text
      → List Upstream
      → LbPolicy
      → Option HealthCheckSpec
      → ProxyTlsConfig
      → Result (Terminal X509 PKey)
  unfolding resolve_upstreams build_upstream_tls
  compile_reverse_proxy_terminal matchers strip to lb_policy health_check config = do
    upstreams ← resolve_upstreams resolver print_number to
    options ←
        build_upstream_tls read_to_string stack_from_pem private_key_from_pem config
          (any (λ u. u.tls) to)
    ok (terminal matchers strip (reverse_proxy_terminal upstreams lb_policy health_check options))

  -- One directive of a handle. A site treats it alike, with no matcher and no prefix, but for those that are refused
  -- here, which it takes itself.
  unfoldable pub shared_step :
      List Matcher → Option Text → Scope X509 PKey → Directive → Result (Scope X509 PKey)
  unfolding compile_reverse_proxy_terminal validate_header_name validate_encodings parse_template
  shared_step matcher strip s (reverse_proxy inline to lb_policy health_check config) =
      compile_reverse_proxy_terminal (matcher ++ inline) strip to lb_policy health_check config
      >>= λ t. ok (push_terminal s t)
  shared_step matcher strip s file_server =
      ok (push_terminal s (terminal matcher strip (file_server_terminal [])))
  shared_step matcher strip s (redir to code) = parse_template to >>= λ target.
      ok (push_terminal s (terminal matcher strip (redir_terminal target code)))
  shared_step matcher strip s (respond inline status body) =
      ok (push_terminal s (terminal (matcher ++ inline) strip (respond_terminal status body)))
  shared_step matcher strip s (error_page inline status message) = ok (
      push_terminal s (terminal (matcher ++ inline) strip (error_terminal (or_500 status) message)))
  shared_step matcher strip s (rewrite to) = ok (push_modifier s (rewrite_modifier to))
  shared_step matcher strip s (root path) = ok (record s { last_root = some path })
  shared_step matcher strip s (header_up name value) =
      validate_header_name name >> ok (push_modifier s (header_up_modifier name value))
  shared_step matcher strip s (header_down name value) =
      validate_header_name name >> ok (push_modifier s (header_down_modifier name value))
  shared_step matcher strip s (encode algorithms) =
      validate_encodings algorithms >> ok (push_modifier s (encode_modifier algorithms))
  shared_step matcher strip s (rate_limit spec) = ok (push_modifier s (rate_limit_modifier spec))
  shared_step matcher strip s (basic_auth user hash) =
      ok (record s { basic_users = s.basic_users ++ ((user, hash) ∷ []) })
  shared_step matcher strip s (forward_auth target) = ok (record s { delegate = some target })
  shared_step matcher strip s (trusted_proxies networks) =
      err (codes "trusted_proxies is only allowed at the global or site-block level")
  shared_step matcher strip s (tls config) =
      err (codes "tls is only allowed at the site-block level")
  shared_step matcher strip s access_log_off =
      err (codes "access_log is only allowed at the global or site-block level")
  shared_step matcher strip s (handle m ds) =
      err (codes "nested handle blocks are not supported in v0.1")
  shared_step matcher strip s (handle_path m ds) =
      err (codes "nested handle blocks are not supported in v0.1")

  unfoldable pub handle_loop :
      List Matcher → Option Text → Scope X509 PKey → Directives → Result (Scope X509 PKey)
  unfolding shared_step
  handle_loop matcher strip s nil = ok s
  handle_loop matcher strip s (cons d ds) =
      shared_step matcher strip s d >>= λ next. handle_loop matcher strip next ds

  -- The terminals of the block, which the source pushes on `out`.
  unfoldable pub compile_handle_block :
      List Matcher → Bool → Directives → Result (List (Terminal X509 PKey))
  unfolding handle_loop in_handle first_path
  compile_handle_block matcher strip directives =
      handle_loop matcher (strip_of strip matcher) no_scope directives >>= λ s.
      in_handle (scoped_modifiers s) s.last_root s.terminals

  abbrev pub with_block : SiteScope X509 PKey → List (Terminal X509 PKey) → SiteScope X509 PKey
  with_block s block = record s {
    scope = record s.scope { terminals = s.scope.terminals ++ block };
  }

  unfoldable pub site_step : SiteScope X509 PKey → Directive → Result (SiteScope X509 PKey)
  unfolding compile_handle_block shared_step merge_tls
  site_step s (handle matcher ds) =
      compile_handle_block matcher false ds >>= λ block. ok (with_block s block)
  site_step s (handle_path matcher ds) =
      compile_handle_block matcher true ds >>= λ block. ok (with_block s block)
  site_step s (trusted_proxies networks) = ok (record s { trusted = some networks })
  site_step s (tls config) = ok (record s { tls_config = merge_tls s.tls_config config })
  site_step s access_log_off = ok (record s { log_off = true })
  site_step s d = shared_step [] none s.scope d >>= λ next. ok (record s { scope = next })

  unfoldable pub site_loop : SiteScope X509 PKey → Directives → Result (SiteScope X509 PKey)
  unfolding site_step
  site_loop s nil = ok s
  site_loop s (cons d ds) = site_step s d >>= λ next. site_loop next ds

  abbrev pub no_site_scope : SiteScope X509 PKey
  no_site_scope = record { scope = no_scope; trusted = none; tls_config = none; log_off = false }

  unfoldable pub check_site_tls : Option TlsConfig → Result (Unit {0})
  unfolding validate_tls_config
  check_site_tls none = ok tt
  check_site_tls (some config) =
      validate_tls_config read_to_string stack_from_pem private_key_from_pem config

  unfoldable pub compile_site : Site → Result (CompiledSite X509 PKey)
  unfolding site_loop check_site_tls in_site
  compile_site site = do
    s ← site_loop no_site_scope site.directives
    check_site_tls s.tls_config
    terminals ← in_site (scoped_modifiers s.scope) s.scope.last_root s.scope.terminals
    ok (record {
      key = site.key;
      terminals = terminals;
      modifiers = scoped_modifiers s.scope;
      trusted = s.trusted;
      tls_config = s.tls_config;
      log_off = s.log_off;
    })
