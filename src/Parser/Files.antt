-- ===== src/Parser/Files.antt =====
-- config/parser.rs: directive blocks, sites and the file.
use raddy.Base.{
  ℕ, zero, suc, ◌+◌, ◌-◌, List, [], ◌∷◌, ◌++◌, Bool, true, false, not, length, map, drop, ltb,
  if◌then◌else◌,
}
use raddy.Config.Source.{
  Directive, Directives, nil, cons, handle, handle_path, Matcher, tls, Site, Layer4Listener, tcp,
  udp, GlobalConfig, global_default, Raddexfile,
}
use raddy.Config.Wildcard.{text_eq}
use raddy.Lexer.{Token}
use raddy.Parser.{
  Parser, Ended, done, failed, out_of_fuel, Method, pure, and_then, ◌>>=◌, ◌>>◌, error_at, or_fail,
  fail, refuse_if, at_tokens, skip_newlines, parse_statement, peek, Peeked, at_end, at_close,
  at_open, at_other, block,
}
use raddy.Parser.Arguments.{
  parse_header, parse_file_server, parse_root, parse_encode, parse_redir, parse_rewrite,
  parse_basic_auth, parse_forward_auth, parse_trusted_proxies,
}
use raddy.Parser.Global.{apply_global}
use raddy.Parser.Layer4.{parse_layer4_udp}
use raddy.Parser.Layer4.Tcp.{parse_layer4_tcp}
use raddy.Parser.Matchers.{parse_matchers, parse_respond, parse_error}
use raddy.Parser.Proxy.{parse_reverse_proxy}
use raddy.Parser.Settings.{parse_tls, parse_rate_limit, parse_access_log}
use raddy.Parser.Sites.{Std, parse_site_keys}
use raddy.Values.{Text, codes, is, about, first_word}

abbrev pub max_block_depth : ℕ
max_block_depth = 100

abbrev pub leave : Directives → Method Directives
leave ds p = done ds (record p { depth = p.depth - 1 })

-- The guard of `parse_directive_block` around its body.
unfoldable pub guarded : Method Directives → Method Directives
guarded body p =
    let p' = record p { depth = p.depth + 1 } in
    if ltb max_block_depth p'.depth
    then failed (error_at (codes "block nesting exceeds 100 levels") p')
    else and_then (body p') leave

abbrev pub no_matcher : List Matcher → Bool
no_matcher [] = true
no_matcher (m ∷ ms) = false

abbrev pub unexpected_rest : List Text → Method (Unit {0})
unexpected_rest [] = pure tt
unexpected_rest (extra ∷ rest) = fail (about "unexpected '" extra "' after the handle matcher")

pub record Blocks : Type 0 where
  pub sites : List Site
  pub layer4 : List Layer4Listener

-- Where the last token stands.
abbrev pub last_position : List Token → ℕ × ℕ → ℕ × ℕ
last_position [] last = last
last_position (t ∷ tokens) last = last_position tokens (t.line, t.col)

-- The parser of `parse`, once the tokens are expanded.
abbrev pub initial : Text → List Token → Parser
initial file tokens = record {
  file = file;
  tokens = tokens;
  last = last_position tokens (1, 1);
  stmt_pos = (1, 1);
  depth = 0;
}

module _ (std : Std) where
  -- `inner` parses a directive block.
  unfoldable pub parse_handle : Method Directives → List Text → Bool → Bool → Method Directive
  unfolding parse_matchers
  parse_handle inner words block_open strip = do
    (matcher, rest) ← or_fail (parse_matchers std.parse_ip (drop 1 words))
    refuse_if (no_matcher matcher) "handle requires a matcher"
    unexpected_rest rest
    refuse_if (not block_open) "handle requires a block"
    directives ← inner
    pure (if strip then handle_path matcher directives else handle matcher directives)

  abbrev pub named_directive : Method Directives → Text → List Text → Bool → Method Directive
  named_directive inner name words block_open =
      if is "reverse_proxy" name
      then parse_reverse_proxy std.parse_ip words block_open
      else if is "handle" name
      then parse_handle inner words block_open false
      else if is "handle_path" name
      then parse_handle inner words block_open true
      else if is "header_up" name
      then or_fail (parse_header words block_open true)
      else if is "header_down" name
      then or_fail (parse_header words block_open false)
      else if is "file_server" name
      then or_fail (parse_file_server words block_open)
      else if is "root" name
      then or_fail (parse_root words block_open)
      else if is "encode" name
      then or_fail (parse_encode words block_open)
      else if is "redir" name
      then or_fail (parse_redir words block_open)
      else if is "rewrite" name
      then or_fail (parse_rewrite words block_open)
      else if is "respond" name
      then or_fail (parse_respond std.parse_ip words block_open)
      else if is "error" name
      then or_fail (parse_error std.parse_ip words block_open)
      else if is "basic_auth" name
      then or_fail (parse_basic_auth words block_open)
      else if is "forward_auth" name
      then or_fail (parse_forward_auth words block_open)
      else if is "access_log" name
      then or_fail (parse_access_log words block_open)
      else if is "rate_limit" name
      then or_fail (parse_rate_limit words block_open)
      else if is "trusted_proxies" name
      then or_fail (parse_trusted_proxies std.parse_ip words block_open)
      else if is "tls" name
      then (or_fail (parse_tls words block_open) >>= λ config. pure (tls config))
      else fail (about "unknown directive '" name "'")

  unfoldable pub dispatch : Method Directives → List Text → Bool → Method Directive
  unfolding text_eq parse_reverse_proxy parse_handle parse_header parse_file_server parse_root
      parse_encode parse_redir parse_rewrite parse_respond parse_error parse_basic_auth
      parse_forward_auth parse_access_log parse_rate_limit parse_trusted_proxies parse_tls
  dispatch inner words block_open = named_directive inner (first_word words) words block_open

  -- A statement of a block: nothing, or a directive in front of the rest.
  abbrev pub directive_statement :
      Method Directives → Method Directives → List Text × Bool → Method Directives
  directive_statement inner rest ([], block_open) = rest
  directive_statement inner rest (name ∷ args, block_open) = do
    d ← dispatch inner (name ∷ args) block_open
    ds ← rest
    pure (cons d ds)

  unfoldable pub parse_directive_block_body : ℕ → Method Directives
  unfolding peek parse_statement dispatch guarded
  parse_directive_block_body zero p = out_of_fuel
  parse_directive_block_body (suc fuel) p =
      let rest = parse_directive_block_body fuel in
      elim (peek p.tokens) [
        | at_close behind ↦ done nil (at_tokens p behind)
        | at_open behind ↦ failed (error_at (codes "unexpected '{'") p)
        | at_end ↦ failed (error_at (codes "unexpected end of file inside block") p)
        | at_other ↦ (parse_statement >>= directive_statement (guarded rest) rest) p
      ]

  -- A round takes a token, and so does a block inside it.
  unfoldable pub parse_directive_block : Method Directives
  unfolding parse_directive_block_body guarded
  parse_directive_block p = guarded (parse_directive_block_body (suc (length p.tokens))) p

  unfoldable pub parse_site : List Text → Bool → Method (List Site)
  unfolding parse_site_keys parse_directive_block
  parse_site words block_open = do
    refuse_if (not block_open) "expected '{' after site address"
    keys ← or_fail (parse_site_keys std words)
    ds ← parse_directive_block
    pure (map (λ key. record { key = key; directives = ds }) keys)

  abbrev pub add_block : Blocks → Text → List Text → Bool → Method Blocks
  add_block b name words block_open =
      if is "tcp" name
      then (parse_layer4_tcp std.parse_ip words block_open >>= λ l.
          pure (record b { layer4 = b.layer4 ++ tcp l ∷ [] }))
      else if is "udp" name
      then (parse_layer4_udp std.parse_ip words block_open >>= λ l.
          pure (record b { layer4 = b.layer4 ++ udp l ∷ [] }))
      else (parse_site words block_open >>= λ sites. pure (record b { sites = b.sites ++ sites }))

  abbrev pub file_statement : Blocks → List Text × Bool → Method Blocks
  file_statement b ([], block_open) = pure b
  file_statement b (name ∷ args, block_open) = add_block b name (name ∷ args) block_open

  -- The loop over the blocks of a file.
  unfoldable pub parse_blocks : ℕ → Blocks → Method Blocks
  unfolding text_eq skip_newlines peek parse_statement parse_layer4_tcp parse_layer4_udp parse_site
  parse_blocks zero b p = out_of_fuel
  parse_blocks (suc fuel) b p =
      let q = at_tokens p (skip_newlines p.tokens) in
      elim (peek q.tokens) [
        | at_end ↦ done b q
        | at_close behind ↦ failed (error_at (codes "unexpected '}'") q)
        | at_open behind ↦ (parse_statement >>= file_statement b >>= parse_blocks fuel) q
        | at_other ↦ (parse_statement >>= file_statement b >>= parse_blocks fuel) q
      ]

  abbrev pub global_eof : Text
  global_eof = codes "unexpected end of file in global block"

  -- A leading `{` begins the global block.
  abbrev pub global_block : Peeked → Method GlobalConfig
  global_block (at_open behind) p =
      block global_eof (apply_global std.parse_ip) global_default (at_tokens p behind)
  global_block _ p = done global_default p

  abbrev pub all_blocks : Method Blocks
  all_blocks p = parse_blocks (suc (length p.tokens)) (record { sites = []; layer4 = [] }) p

  abbrev pub file_of : GlobalConfig → Method Raddexfile
  file_of global =
      all_blocks >>= λ b. pure (record { global = global; sites = b.sites; layer4 = b.layer4 })

  unfoldable pub parse_raddexfile : Method Raddexfile
  unfolding skip_newlines peek block apply_global parse_blocks
  parse_raddexfile p =
      let q = at_tokens p (skip_newlines p.tokens) in (global_block (peek q.tokens) >>= file_of) q

  unfoldable pub parse_tokens : Text → List Token → Ended Raddexfile
  unfolding parse_raddexfile
  parse_tokens file tokens = parse_raddexfile (initial file tokens)
