-- ===== src/Parser/Tests.antt =====
-- Runs of the parser.
use raddy.Base.{List, [], ◌∷◌, ◌++◌, Option, none, some, ◌≡◌, refl, if◌then◌else◌}
use raddy.Lexer.{Token, lex}
use raddy.Parser.Sites.{Std}
use raddy.SiteSelection.{decimal}
use raddy.Base.Ascii.{lower}
use raddy.Config.Wildcard.{strip_suffix}
use raddy.Values.{Text, codes, is, ok, parse_duration}
use raddy.Values.Addresses.{v4}
use raddy.Values.HostNames.{normalize_host_name}
use raddy.Values.HostNames.Canonical.{normalize_host_name_idem}
use raddy.Values.Printed.{milliseconds, value_of, parse_duration-printed}
use raddy.Values.Templates.{parse_template, literal, var, host}
use raddy.Values.Templates.RoundTrip.{print, print-parse_template}

abbrev std : Std
std = record {
  parse_ip = λ text. if is "127.0.0.1" text then some (v4 2_130_706_433) else none;
  parse_ipv6 = λ text. if is "::1" text then some 1 else none;
  print_ipv6 = λ n. codes "::1";
}

abbrev lines : List Text → Text
lines [] = []
lines (t ∷ ts) = t ++ 10 ∷ lines ts

abbrev tokens_of : Option (List Token) → List Token
tokens_of none = []
tokens_of (some tokens) = tokens

tokenize : Text → List Token
unfolding lex
tokenize text = tokens_of (lex text)

abbrev site_file : Text
site_file = lines (
    codes "{"
    ∷ codes "acme_email a@b"
    ∷ codes "}"
    ∷ codes ":8080, Example.com {"
    ∷ codes "handle /x {"
    ∷ codes "respond 200 hi"
    ∷ codes "}"
    ∷ codes "}"
    ∷ [])

parse_duration-printed_example :
    value_of (parse_duration (codes "timeout" ∷ codes "500ms" ∷ [])) ≡ some 500_000_000
unfolding decimal
parse_duration-printed_example =
    parse_duration-printed (codes "timeout") (codes "500") milliseconds
      (record { some_digit = refl; digits = refl })

normalize_host_name_idem_example : normalize_host_name (codes "*.a-b.com") ≡ ok (codes "*.a-b.com")
unfolding normalize_host_name strip_suffix lower
normalize_host_name_idem_example =
    normalize_host_name_idem (codes "*.A-b.COM.") (codes "*.a-b.com") refl

print-parse_template_example :
    print (literal (codes "https://") ∷ var host ∷ literal (codes "/x") ∷ [])
    ≡ codes "https://{host}/x"
unfolding parse_template
print-parse_template_example = print-parse_template (codes "https://{host}/x") refl
