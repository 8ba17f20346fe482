-- ===== src/Values/Templates/RoundTrip.antt =====
-- config/ast.rs: a parsed value prints as the text that it was read from.
use raddy.Base.{
  [], ◌∷◌, ◌++◌, Option, none, some, ◌==◌, ==_iff, ◌≡◌, refl, sym, ap, ◌∙◌, inl, inr, arith,
  append_assoc, Bool-cases,
}
use raddy.Config.Wildcard.{text_eq-≡}
use raddy.Values.{Text, codes, Result, ok, err, ◌>>=◌}
use raddy.Values.Results.{ok_inj}
use raddy.Values.Templates.{
  Variable, host, uri, remote_host, literal, var, ValueTemplate, variable_of, flush, push_var,
  template_from, parse_template,
}

-- The text of a value, with its placeholders as they are written.
abbrev pub name_of : Variable → Text
name_of host = codes "host"
name_of uri = codes "uri"
name_of remote_host = codes "remote_host"

unfoldable pub print : ValueTemplate → Text
print [] = []
print (literal text ∷ parts) = text ++ print parts
print (var v ∷ parts) = b'{' ∷ (name_of v ++ (b'}' ∷ print parts))

print-flush : (text : Text) (parts : ValueTemplate) → print (flush text parts) ≡ text ++ print parts
unfolding print
print-flush [] parts = refl
print-flush (c ∷ text) parts = refl

variable_of-name_of : (name : Text) (v : Variable) → variable_of name ≡ ok v → name_of v ≡ name
unfolding variable_of
variable_of-name_of name v h = ground (
  arith,
  text_eq-≡ name (codes "host"),
  text_eq-≡ name (codes "uri"),
  text_eq-≡ name (codes "remote_host"),
)

push_var-parts :
    (r : Result Variable) (pending : Text) (s : Result ValueTemplate) {t : ValueTemplate}
    → (r >>= λ v. push_var pending v s) ≡ ok t
    → (v : Variable) × (parts : ValueTemplate) × (r ≡ ok v)
      × (s ≡ ok parts)
      × (t ≡ flush pending (var v ∷ parts))
push_var-parts (ok v) pending (ok parts) h = (v, parts, refl, refl, sym (ok_inj h))
push_var-parts (ok v) pending (err m) h = absurd cc
push_var-parts (err m) pending s h = absurd cc

-- What was read so far, in front of what is left.
abbrev pub read : Option Text → Text → Text → Text
read none pending text = pending ++ text
read (some name) pending text = pending ++ (b'{' ∷ (name ++ text))

print-template_from :
    (mode : Option Text) (pending text : Text) {t : ValueTemplate}
    → template_from mode pending text ≡ ok t
    → print t ≡ read mode pending text
unfolding template_from print
print-template_from none pending [] h =
    let same : flush pending [] ≡ _ = ok_inj h in ap print (sym same) ∙ print-flush pending []
print-template_from (some name) pending [] h = absurd cc
print-template_from none pending (c ∷ text) {t} h = elim (Bool-cases (c == b'{')) [
  | inl e ↦
      let c_is : c ≡ b'{' = (==_iff c b'{').0 e in
      let rest : template_from (some []) pending text ≡ ok t = rw (e, template_from) at h in
      rw c_is (print-template_from (some []) pending text rest)
  | inr e ↦
      let rest : template_from none (pending ++ c ∷ []) text ≡ ok t = rw (e, template_from) at h in
      print-template_from none (pending ++ c ∷ []) text rest ∙ append_assoc pending (c ∷ []) text
]
print-template_from (some name) pending (c ∷ text) {t} h = elim (Bool-cases (c == b'}')) [
  | inl e ↦
      let c_is : c ≡ b'}' = (==_iff c b'}').0 e in
      let rest = rw (e, template_from) at h in
      let (v, parts, named, more, whole) =
        push_var-parts (variable_of name) pending (template_from none [] text) rest in
      let tail = print-template_from none [] text more in
      let front = print-flush pending (var v ∷ parts) in
      rw (whole, front, tail, variable_of-name_of name v named, c_is) refl
  | inr e ↦
      let rest : template_from (some (name ++ c ∷ [])) pending text ≡ ok t =
        rw (e, template_from) at h in
      print-template_from (some (name ++ c ∷ [])) pending text rest
      ∙ ap (λ x. pending ++ b'{' ∷ x) (append_assoc name (c ∷ []) text)
]

-- A value that parses as a template prints, with its placeholders in braces, as the text that it
-- was parsed from.
pub print-parse_template :
    (raw : Text) {t : ValueTemplate} → parse_template raw ≡ ok t → print t ≡ raw
unfolding parse_template
print-parse_template raw h = print-template_from none [] raw h
