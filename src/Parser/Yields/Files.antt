-- ===== src/Parser/Yields/Files.antt =====
-- config/parser.rs: the listeners and the DNS provider of a file that the parser accepts.
use raddy.Base.{
  ℕ, zero, suc, List, [], ◌∷◌, Option, none, some, All, All-append, length, ◌≡◌, subst, inl, inr,
}
use raddy.Config.Source.{Layer4Listener, tcp, udp, GlobalConfig, Raddexfile}
use raddy.Lexer.{Token, lex}
use raddy.Parser.{
  Parser, done, ◌>>=◌, at_tokens, parse_statement, peek, Peeked, at_end, at_close, at_open,
  at_other, skip_newlines,
}
use raddy.Parser.Environment.{expand_env_tokens}
use raddy.Parser.Files.{
  Blocks, add_block, file_statement, parse_blocks, all_blocks, global_block, global_eof, file_of,
  parse_raddexfile, parse_tokens, parse_site, initial,
}
use raddy.Parser.Imports.{
  Expanded, spliced, refused, spent, parse_expanded, parse_environment, parse_lexed, parse,
}
use raddy.Parser.Safety.Statements.{Peeked-cases}
use raddy.Parser.Sites.{Std}
use raddy.Parser.Yields.{Yields, Holds, pure-Yields, if-Yields, bind-Yields, any-Yields}
use raddy.Parser.Yields.Challenges.{ChallengeBuilds, global-Yields}
use raddy.Parser.Yields.Layer4.{IsServable, parse_layer4_udp-Yields}
use raddy.Parser.Yields.Layer4.Tcp.{IsServableTcp, parse_layer4_tcp-Yields}
use raddy.Values.{Text, Result, ok, err, is}

abbrev pub IsListener : Layer4Listener → Type 0
IsListener (tcp config) = IsServableTcp config
IsListener (udp config) = IsServable config

-- Blocks whose listeners can be served.
abbrev pub BlocksServe : Blocks → Type 0
BlocksServe b = All IsListener b.layer4

-- Files whose listeners can be served and whose DNS provider, if any, builds its client.
abbrev pub FileServes : Raddexfile → Type 0
FileServes file = ChallengeBuilds file.global × All IsListener file.layer4

module _ (std : Std) where
  add_block-Yields :
      (b : Blocks) (name : Text) (words : List Text) (block_open : _)
      → BlocksServe b
      → Yields BlocksServe (add_block std b name words block_open)
  add_block-Yields b name words block_open h =
      if-Yields (is "tcp" name)
        (bind-Yields IsServableTcp (parse_layer4_tcp-Yields std.parse_ip words block_open)
          (λ l hl. pure-Yields (All-append IsListener b.layer4 (tcp l ∷ []) h (hl, tt))))
        (if-Yields (is "udp" name)
          (bind-Yields IsServable (parse_layer4_udp-Yields std.parse_ip words block_open)
            (λ l hl. pure-Yields (All-append IsListener b.layer4 (udp l ∷ []) h (hl, tt))))
          (any-Yields (parse_site std words block_open) (λ sites. pure-Yields h)))

  file_statement-Yields :
      (b : Blocks) (line : List Text × _)
      → BlocksServe b
      → Yields BlocksServe (file_statement std b line)
  file_statement-Yields b ([], block_open) h = pure-Yields h
  file_statement-Yields b (name ∷ args, block_open) h =
      add_block-Yields b name (name ∷ args) block_open h

  parse_blocks-Yields :
      (fuel : ℕ) (b : Blocks) → BlocksServe b → Yields BlocksServe (parse_blocks std fuel b)
  unfolding parse_blocks
  parse_blocks-Yields zero b h = record { yields = λ p. tt }
  parse_blocks-Yields (suc fuel) b h = record {
    yields = λ p.
        let q = at_tokens p (skip_newlines p.tokens) in
        let rounds : Yields BlocksServe
            (parse_statement >>= file_statement std b >>= parse_blocks std fuel) =
          bind-Yields BlocksServe (any-Yields parse_statement (λ w. file_statement-Yields b w h))
            (parse_blocks-Yields fuel) in
        elim (Peeked-cases (peek q.tokens)) [
          | inl e ↦ rw (e, parse_blocks) h
          | inr (inl (behind, e)) ↦ rw (e, parse_blocks) tt
          | inr (inr (inl (behind, e))) ↦ rw (e, parse_blocks) (rounds.yields q)
          | inr (inr (inr e)) ↦ rw (e, parse_blocks) (rounds.yields q)
        ];
  }

  all_blocks-Yields : Yields BlocksServe (all_blocks std)
  all_blocks-Yields = record {
    yields = λ p.
        (parse_blocks-Yields (suc (length p.tokens)) (record { sites = []; layer4 = [] }) tt).yields
          p;
  }

  file_of-Yields :
      (global : GlobalConfig) → ChallengeBuilds global → Yields FileServes (file_of std global)
  file_of-Yields global built =
      bind-Yields BlocksServe all_blocks-Yields (λ b h. pure-Yields (built, h))

  global_block-Yields : (found : Peeked) → Yields ChallengeBuilds (global_block std found)
  global_block-Yields (at_open behind) = record {
    yields = λ p. (global-Yields std.parse_ip (global_eof std)).yields (at_tokens p behind);
  }
  global_block-Yields (at_close behind) = record { yields = λ p. tt }
  global_block-Yields at_end = record { yields = λ p. tt }
  global_block-Yields at_other = record { yields = λ p. tt }

  parse_tokens-Holds :
      (file : Text) (tokens : List Token) → Holds FileServes (parse_tokens std file tokens)
  unfolding parse_tokens parse_raddexfile
  parse_tokens-Holds file tokens =
      let p = initial file tokens in
      let q = at_tokens p (skip_newlines p.tokens) in
      (bind-Yields ChallengeBuilds (global_block-Yields (peek q.tokens)) file_of-Yields).yields q

  module _ (env : Text → Option Text) (read : Text → Text → Result (Text × Text)) where
    parse_expanded-Holds :
        (file : Text) (e : Expanded) → Holds FileServes (parse_expanded env read std file e)
    parse_expanded-Holds file (spliced tokens snippets) = parse_tokens-Holds file tokens
    parse_expanded-Holds file (refused message) = tt
    parse_expanded-Holds file spent = tt

    parse_environment-Holds :
        (file : Text) (r : Result (List Token))
        → Holds FileServes (parse_environment env read std file r)
    parse_environment-Holds file (err message) = tt
    parse_environment-Holds file (ok tokens) = parse_expanded-Holds file _

    parse_lexed-Holds :
        (file : Text) (o : Option (List Token)) → Holds FileServes (parse_lexed env read std file o)
    parse_lexed-Holds file none = tt
    parse_lexed-Holds file (some tokens) =
        parse_environment-Holds file (expand_env_tokens env tokens)

    -- For any environment and any files that are imported, each layer-4 listener of a
    -- configuration that is accepted can be served, and its DNS provider, if it has one, builds
    -- its client, with a token that is not empty. A `tcp` listener either has upstreams and
    -- neither routes by name nor a fallback, or it has routes by name and no upstreams of its
    -- own, no TLS, no health check and no transparent mode; transparent mode and TLS exclude one
    -- another, both timeouts are positive, and no two routes have one name. A `udp` listener has
    -- an upstream, and its idle timeout, its limit of flows and its size of a datagram are
    -- positive. Every upstream, route and fallback has a host and a port from 1 to 65535.
    pub parse-FileServes :
        (file input : Text) (r : Raddexfile) (q : Parser)
        → parse env read std file input ≡ done r q
        → FileServes r
    unfolding parse
    parse-FileServes file input r q h =
        subst (Holds FileServes) h (parse_lexed-Holds file (lex input))
