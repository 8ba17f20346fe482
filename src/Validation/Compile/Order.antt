-- ===== src/Validation/Compile/Order.antt =====
-- config/validate.rs: what guards the terminals of a handle block.
use raddy.Base.{
  ℕ, List, [], ◌∷◌, ◌++◌, Option, Bool, ◌≡◌, refl, sym, ap, ◌∙◌, subst, append_assoc, append-nil,
  All, All-append,
}
use raddy.Config.Source.{
  Directive, Directives, nil, cons, reverse_proxy, handle, handle_path, header_up, header_down,
  file_server, root, encode, redir, rewrite, respond, error_page, basic_auth, forward_auth,
  access_log_off, trusted_proxies, rate_limit, tls, Matcher,
}
use raddy.Validation.Compile.{
  Modifier, Terminal, TerminalKind, Scope, users_modifier, delegate_modifier, validate_header_name,
  validate_encodings, redir_terminal, reverse_proxy_terminal,
}
use raddy.Validation.Compile.Scopes.{
  shared_step, handle_loop, in_handle, handle_root, compile_handle_block, strip_of, no_scope,
  compile_reverse_proxy_terminal, push_terminal,
}
use raddy.Validation.Upstreams.{resolve_upstreams, build_upstream_tls}
use raddy.Values.{Text, Result, ok}
use raddy.Values.Addresses.{SocketAddr}
use raddy.Values.Results.{>>=-ok, ok_inj}
use raddy.Values.Templates.{parse_template}

-- The users that the directives of a block name, in order.
abbrev pub named_users : Directive → List (Text × Text)
named_users (basic_auth user hash) = (user, hash) ∷ []
named_users _ = []

unfoldable pub users_of : Directives → List (Text × Text)
users_of nil = []
users_of (cons d ds) = named_users d ++ users_of ds

module _ {X509 : Type 0} {PKey : Type 0} where
  -- The matchers of the block come first, and it strips the block's prefix.
  pub record IsWithin (matcher : List Matcher) (strip : Option Text) (t : Terminal X509 PKey)
      : Type 0 where
    pub rest : List Matcher
    pub matched : t.matchers ≡ matcher ++ rest
    pub stripped : t.strip_prefix ≡ strip
    pub fresh : t.modifiers ≡ []

  record Grows (matcher : List Matcher) (strip : Option Text) (s next : Scope X509 PKey)
      (users : List (Text × Text)) : Type 0 where
    pub users_grow : next.basic_users ≡ s.basic_users ++ users
    pub within :
        All (IsWithin matcher strip) s.terminals → All (IsWithin matcher strip) next.terminals

  pushed :
      (matcher matchers inline : List Matcher) (strip : Option Text) (s next : Scope X509 PKey)
      (kind : TerminalKind X509 PKey)
      → matchers ≡ matcher ++ inline
      → push_terminal s
          (record { matchers = matchers; kind = kind; modifiers = []; strip_prefix = strip })
        ≡ next
      → Grows matcher strip s next []
  pushed matcher matchers inline strip s next kind e h =
      subst (λ n. Grows matcher strip s n []) h
        (record {
          users_grow = sym (append-nil s.basic_users);
          within = λ w.
              All-append (IsWithin matcher strip) s.terminals _ w
                (record { rest = inline; matched = e; stripped = refl; fresh = refl }, tt);
        })

  kept :
      (matcher : List Matcher) (strip : Option Text) (s next found : Scope X509 PKey)
      → s.basic_users ≡ found.basic_users
      → s.terminals ≡ found.terminals
      → found ≡ next
      → Grows matcher strip s next []
  kept matcher strip s next found a b h =
      subst (λ n. Grows matcher strip s n []) h
        (record {
          users_grow = sym a ∙ sym (append-nil s.basic_users);
          within = λ w. subst (All (IsWithin matcher strip)) b w;
        })

module _ {X509 : Type 0} {PKey : Type 0} (read_to_string : Text → Result Text)
    (stack_from_pem : Text → Result (List X509)) (private_key_from_pem : Text → Result PKey)
    (resolver : Text → ℕ → Result (List SocketAddr)) (print_number : ℕ → Text) where
  shared_step-Grows :
      (matcher : List Matcher) (strip : Option Text) (s next : Scope X509 PKey) (d : Directive)
      → shared_step read_to_string stack_from_pem private_key_from_pem resolver print_number matcher
          strip s d
        ≡ ok next
      → Grows matcher strip s next (named_users d)
  unfolding shared_step compile_reverse_proxy_terminal
  shared_step-Grows matcher strip s next (reverse_proxy inline to lb_policy health_check config) h =
      let (t, made, more) =
        >>=-ok
          (compile_reverse_proxy_terminal read_to_string stack_from_pem private_key_from_pem
            resolver print_number (matcher ++ inline) strip to lb_policy health_check config)
          _ h in
      let (peers, _, built) = >>=-ok (resolve_upstreams resolver print_number to) _ made in
      let (options, _, last) =
        >>=-ok (build_upstream_tls read_to_string stack_from_pem private_key_from_pem config _) _
          built in
      pushed matcher (matcher ++ inline) inline strip s next
        (reverse_proxy_terminal peers lb_policy health_check options) refl
        (ap (push_terminal s) (ok_inj last) ∙ ok_inj more)
  shared_step-Grows matcher strip s next file_server h =
      pushed matcher matcher [] strip s next _ (sym (append-nil matcher)) (ok_inj h)
  shared_step-Grows matcher strip s next (redir to code) h =
      let (target, _, more) = >>=-ok (parse_template to) _ h in
      pushed matcher matcher [] strip s next (redir_terminal target code) (sym (append-nil matcher))
        (ok_inj more)
  shared_step-Grows matcher strip s next (respond inline status body) h =
      pushed matcher (matcher ++ inline) inline strip s next _ refl (ok_inj h)
  shared_step-Grows matcher strip s next (error_page inline status message) h =
      pushed matcher (matcher ++ inline) inline strip s next _ refl (ok_inj h)
  shared_step-Grows matcher strip s next (rewrite to) h =
      kept matcher strip s next _ refl refl (ok_inj h)
  shared_step-Grows matcher strip s next (root path) h =
      kept matcher strip s next _ refl refl (ok_inj h)
  shared_step-Grows matcher strip s next (rate_limit spec) h =
      kept matcher strip s next _ refl refl (ok_inj h)
  shared_step-Grows matcher strip s next (forward_auth target) h =
      kept matcher strip s next _ refl refl (ok_inj h)
  shared_step-Grows matcher strip s next (header_up name value) h =
      let (_, _, more) = >>=-ok (validate_header_name name) _ h in
      kept matcher strip s next _ refl refl (ok_inj more)
  shared_step-Grows matcher strip s next (header_down name value) h =
      let (_, _, more) = >>=-ok (validate_header_name name) _ h in
      kept matcher strip s next _ refl refl (ok_inj more)
  shared_step-Grows matcher strip s next (encode algorithms) h =
      let (_, _, more) = >>=-ok (validate_encodings algorithms) _ h in
      kept matcher strip s next _ refl refl (ok_inj more)
  shared_step-Grows matcher strip s next (basic_auth user hash) h =
      subst (λ n. Grows matcher strip s n ((user, hash) ∷ [])) (ok_inj h)
        (record { users_grow = refl; within = λ w. w })
  shared_step-Grows matcher strip s next (trusted_proxies networks) h = absurd cc
  shared_step-Grows matcher strip s next (tls config) h = absurd cc
  shared_step-Grows matcher strip s next access_log_off h = absurd cc
  shared_step-Grows matcher strip s next (handle m ds) h = absurd cc
  shared_step-Grows matcher strip s next (handle_path m ds) h = absurd cc

  handle_loop-Grows :
      (matcher : List Matcher) (strip : Option Text) (s next : Scope X509 PKey) (ds : Directives)
      → handle_loop read_to_string stack_from_pem private_key_from_pem resolver print_number matcher
          strip s ds
        ≡ ok next
      → Grows matcher strip s next (users_of ds)
  unfolding handle_loop users_of
  handle_loop-Grows matcher strip s next nil h = kept matcher strip s next s refl refl (ok_inj h)
  handle_loop-Grows matcher strip s next (cons d ds) h =
      let (mid, one, more) =
        >>=-ok
          (shared_step read_to_string stack_from_pem private_key_from_pem resolver print_number
            matcher strip s d)
          _ h in
      let here = shared_step-Grows matcher strip s mid d one in
      let behind = handle_loop-Grows matcher strip mid next ds more in
      record {
        users_grow =
            behind.users_grow
            ∙ ap (λ u. u ++ users_of ds) here.users_grow
            ∙ append_assoc s.basic_users (named_users d) (users_of ds);
        within = λ w. behind.within (here.within w);
      }

-- What a terminal of a block has: the block's matchers first, its prefix, and the table of all its users.
pub record IsInside {X509 PKey : Type 0} (matcher : List Matcher) (strip : Option Text)
    (users : List (Text × Text)) (t : Terminal X509 PKey) : Type 0 where
  pub rest : List Matcher
  pub matched : t.matchers ≡ matcher ++ rest
  pub stripped : t.strip_prefix ≡ strip
  pub front : List Modifier
  pub back : List Modifier
  pub guarded : t.modifiers ≡ front ++ (users_modifier users ++ back)

module _ {X509 : Type 0} {PKey : Type 0} where
  in_handle-IsInside :
      (matcher : List Matcher) (strip : Option Text) (users : List (Text × Text))
      (front back : List Modifier) (last_root : Option Text)
      (terminals result : List (Terminal X509 PKey))
      → All (IsWithin matcher strip) terminals
      → in_handle (front ++ (users_modifier users ++ back)) last_root terminals ≡ ok result
      → All (IsInside matcher strip users) result
  unfolding in_handle
  in_handle-IsInside matcher strip users front back last_root [] result w h =
      subst (All (IsInside matcher strip users)) (ok_inj h) tt
  in_handle-IsInside matcher strip users front back last_root (t ∷ terminals) result w h =
      let (kind, _, more) = >>=-ok (handle_root last_root t.kind) _ h in
      let (others, found, last) =
        >>=-ok (in_handle (front ++ (users_modifier users ++ back)) last_root terminals) _ more in
      subst (All (IsInside matcher strip users)) (ok_inj last) (
        record {
          rest = w.0.rest;
          matched = w.0.matched;
          stripped = w.0.stripped;
          front = front;
          back = back;
          guarded = ap (λ m. m ++ (front ++ (users_modifier users ++ back))) w.0.fresh;
        },
        in_handle-IsInside matcher strip users front back last_root terminals others w.1 found,
      )

module _ {X509 : Type 0} {PKey : Type 0} (read_to_string : Text → Result Text)
    (stack_from_pem : Text → Result (List X509)) (private_key_from_pem : Text → Result PKey)
    (resolver : Text → ℕ → Result (List SocketAddr)) (print_number : ℕ → Text) where
  pub compile_handle_block-IsInside :
      (matcher : List Matcher) (strip : Bool) (ds : Directives) (result : List (Terminal X509 PKey))
      → compile_handle_block read_to_string stack_from_pem private_key_from_pem resolver
          print_number matcher strip ds
        ≡ ok result
      → All (IsInside matcher (strip_of strip matcher) (users_of ds)) result
  unfolding compile_handle_block
  compile_handle_block-IsInside matcher strip ds result h =
      let (s, looped, more) =
        >>=-ok
          (handle_loop read_to_string stack_from_pem private_key_from_pem resolver print_number
            matcher (strip_of strip matcher) no_scope ds)
          _ h in
      let grown =
        handle_loop-Grows read_to_string stack_from_pem private_key_from_pem resolver print_number
          matcher (strip_of strip matcher) no_scope s ds looped in
      subst (λ users. All (IsInside matcher (strip_of strip matcher) users) result) grown.users_grow
        (in_handle-IsInside matcher (strip_of strip matcher) s.basic_users s.modifiers
          (delegate_modifier s.delegate) s.last_root s.terminals result (grown.within tt) more)
