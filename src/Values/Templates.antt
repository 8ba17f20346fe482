-- ===== src/Values/Templates.antt =====
-- config/ast.rs: values with placeholders (`ValueTemplate`).
pub mod RoundTrip
use raddy.Base.{ℕ, List, [], ◌∷◌, ◌++◌, Option, none, some, Bool, true, false, ◌==◌, if◌then◌else◌}
use raddy.Config.Wildcard.{text_eq}
use raddy.Values.{Text, codes, is, about, Result, ok, err, ◌>>=◌}

pub data Variable : Type 0 where
  host uri remote_host : Variable

pub data TemplatePart : Type 0 where
  literal : (text : Text) → TemplatePart
  var : (variable : Variable) → TemplatePart

abbrev pub ValueTemplate : Type 0
ValueTemplate = List TemplatePart

unfoldable pub variable_of : Text → Result Variable
unfolding text_eq
variable_of name =
    if is "host" name
    then ok host
    else if is "uri" name
    then ok uri
    else if is "remote_host" name
    then ok remote_host
    else err (about "unknown placeholder '{" name "}'")

-- The literal that is due before a part, which is pushed where it is not empty.
abbrev pub flush : Text → ValueTemplate → ValueTemplate
flush [] parts = parts
flush (c ∷ text) parts = literal (c ∷ text) ∷ parts

abbrev pub push_var : Text → Variable → Result ValueTemplate → Result ValueTemplate
push_var pending variable (err message) = err message
push_var pending variable (ok parts) = ok (flush pending (var variable ∷ parts))

-- `pending` is the literal since the last part. The placeholder's name is `some` between its braces.
unfoldable pub template_from : Option Text → Text → Text → Result ValueTemplate
unfolding variable_of
template_from none pending [] = ok (flush pending [])
template_from (some name) pending [] = err (codes "unclosed '{' in value")
template_from none pending (c ∷ text) = elim (c == b'{') [
  | true ↦ template_from (some []) pending text
  | false ↦ template_from none (pending ++ c ∷ []) text
]
template_from (some name) pending (c ∷ text) = elim (c == b'}') [
  | true ↦ variable_of name >>= λ v. push_var pending v (template_from none [] text)
  | false ↦ template_from (some (name ++ c ∷ [])) pending text
]

unfoldable pub parse_template : Text → Result ValueTemplate
unfolding template_from
parse_template raw = template_from none [] raw
