-- ===== src/Parser/Imports/Tests.antt =====
-- Runs of the expansion of a configuration, and of the whole of `parse`.
use raddy.Base.{Bool, List, [], ◌∷◌, ◌++◌, Option, none, some, ◌≡◌, refl, if◌then◌else◌, ◌⊎◌}
use raddy.Config.{round_robin}
use raddy.Config.Source.{Raddexfile, global_default, tcp, udp}
use raddy.Dns.{cloudflare}
use raddy.Parser.Yields.Files.{FileServes, parse-FileServes}
use raddy.Lexer.{
  Token, word, l_brace, lex, round, brace_round, is_placeholder, placeholder, behind_placeholder,
  take_while, drop_while,
}
use raddy.Parser.{Parser, ConfigError, done, failed, Ended, out_of_fuel}
use raddy.Parser.Environment.{expand_env_tokens}
use raddy.Parser.Environment.Structure.{structure, expand_env_tokens-structure}
use raddy.Parser.Imports.{parse}
use raddy.Parser.Imports.Total.{parse-total}
use raddy.Parser.Sites.{Std}
use raddy.Values.{Text, codes, is, Result, ok, err}
use raddy.Values.Addresses.{socket_addr, v4}

abbrev std : Std
std = record {
  parse_ip = λ text. if is "127.0.0.1" text then some (v4 2_130_706_433) else none;
  parse_ipv6 = λ text. if is "::1" text then some 1 else none;
  print_ipv6 = λ n. codes "::1";
}

abbrev env : Text → Option Text
env name = if is "PORT" name then some (codes "80 {") else none

-- A file that imports itself, and one with a root.
abbrev read : Text → Text → Result (Text × Text)
read file target =
    if is "loop" target
    then ok (codes "/loop", codes "import loop")
    else ok (codes "/root", codes "root /srv")

abbrev lines : List Text → Text
lines [] = []
lines (t ∷ ts) = t ++ 10 ∷ lines ts

abbrev site_file : Text
site_file = lines (
    codes "(common) {"
    ∷ codes "import root"
    ∷ codes "}"
    ∷ codes ":80 {"
    ∷ codes "import common"
    ∷ codes "}"
    ∷ [])

abbrev good_file : Text
good_file = lines (codes ":8080 {" ∷ codes "import root" ∷ codes "}" ∷ [])

parse-total_example :
    ((r : Raddexfile) × (p : Parser) × (parse env read std (codes "f") good_file ≡ done r p))
    ⊎ ((e : ConfigError) × (parse env read std (codes "f") good_file ≡ failed e))
parse-total_example = parse-total env read std (codes "f") good_file

abbrev message_of : Ended Raddexfile → Text
message_of (done r p) = codes "done"
message_of (failed e) = e.message
message_of out_of_fuel = codes "fuel"

imported : message_of (parse env read std (codes "f") good_file) ≡ codes "done"
unfolding parse round drop_while brace_round is_placeholder behind_placeholder take_while
    placeholder raddy.Parser.or_fail raddy.Values.digits_below raddy.Parser.error_at
imported = refl

cyclic :
    message_of (parse env read std (codes "f") (codes "import loop"))
    ≡ codes "import cycle involving /loop"
unfolding parse round drop_while brace_round is_placeholder behind_placeholder take_while
    placeholder raddy.Parser.or_fail raddy.Values.digits_below raddy.Parser.error_at
cyclic = refl

-- A value with a brace stays in its argument.
spliced_value :
    message_of (parse env read std (codes "f") (codes ":{$PORT} {")) ≡ codes "invalid port '80 {'"
unfolding parse round drop_while brace_round is_placeholder behind_placeholder take_while
    placeholder raddy.Parser.or_fail raddy.Values.digits_below raddy.Parser.error_at
spliced_value = refl

-- An `import` in a snippet is not expanded.
in_snippet :
    message_of (parse env read std (codes "f") site_file) ≡ codes "unknown directive 'import'"
unfolding parse round drop_while brace_round is_placeholder behind_placeholder take_while
    placeholder raddy.Parser.or_fail raddy.Values.digits_below raddy.Parser.error_at
in_snippet = refl

unclosed : message_of (parse env read std (codes "f") (codes "(a) {")) ≡ codes "done"
unfolding parse round drop_while brace_round is_placeholder behind_placeholder take_while
    placeholder raddy.Parser.or_fail raddy.Values.digits_below raddy.Parser.error_at
unclosed = refl

abbrev tokenize : Text → List Token
tokenize text = elim (lex text) [ none ↦ [] | some tokens ↦ tokens ]

abbrev address : List Token
address =
    record { kind = word (codes ":"); line = 1; col = 1 }
    ∷ record { kind = word (codes "{$PORT}"); line = 1; col = 2 }
    ∷ record { kind = l_brace; line = 1; col = 10 }
    ∷ []

expand_env_tokens-structure_example :
    structure (
      record { kind = word (codes ":80 {"); line = 1; col = 2 }
      ∷ record { kind = l_brace; line = 1; col = 10 }
      ∷ [])
    ≡ structure address
unfolding expand_env_tokens raddy.Config.Wildcard.text_eq
expand_env_tokens-structure_example = expand_env_tokens-structure env address _ refl

abbrev listener_file : Text
listener_file = lines (
    codes "{"
    ∷ codes "dns_challenge cloudflare secret"
    ∷ codes "}"
    ∷ codes "tcp :443 {"
    ∷ codes "sni A.example c:443"
    ∷ codes "fallback d:443"
    ∷ codes "}"
    ∷ codes "udp :53 {"
    ∷ codes "to a:1 b:2"
    ∷ codes "idle_timeout 500ms"
    ∷ codes "}"
    ∷ [])

abbrev listeners : Raddexfile
listeners = record {
  global = record global_default {
    dns_challenge =
        some (record {
          provider = cloudflare;
          credentials = (codes "api_token", codes "secret") ∷ [];
        });
  };
  sites = [];
  layer4 =
      tcp (record {
        listen = socket_addr (v4 0) 443;
        tls_config = none;
        transparent = Bool.false;
        upstreams = [];
        lb_policy = round_robin;
        connect_timeout = 5_000_000_000;
        idle_timeout = 300_000_000_000;
        max_connections = 10_000;
        health_check = none;
        sni_routes =
            record { name = codes "a.example"; upstream = record { host = codes "c"; port = 443 } }
            ∷ [];
        sni_fallback = some (record { host = codes "d"; port = 443 });
      })
      ∷ udp (record {
        listen = socket_addr (v4 0) 53;
        upstreams =
            record { host = codes "a"; port = 1 } ∷ record { host = codes "b"; port = 2 } ∷ [];
        lb_policy = round_robin;
        idle_timeout = 500_000_000;
        max_flows = 50_000;
        max_datagram_size = 4096;
        recv_buffer = 0;
        send_buffer = 0;
      })
      ∷ [];
}

-- Behind the last brace.
abbrev at_last : Parser
at_last = record { file = codes "f"; tokens = []; last = (11, 2); stmt_pos = (10, 1); depth = 0 }

parse-FileServes_example : FileServes listeners
unfolding parse round drop_while brace_round is_placeholder behind_placeholder take_while
    placeholder raddy.Parser.or_fail raddy.Values.digits_below raddy.Parser.error_at
    raddy.Values.duration_value raddy.Config.Wildcard.strip_suffix raddy.Base.Ascii.lower
parse-FileServes_example =
    parse-FileServes std env read (codes "f") listener_file listeners at_last refl
