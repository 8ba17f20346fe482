-- ===== src/StaticFiles/Headers.antt =====
-- proxy/handler.rs: the header of a response: `header_down` and `Vary`. What http says of names and values
-- is a parameter.
use raddy.Base.{
  List, [], ◌∷◌, ◌++◌, Option, none, some, Bool, true, false, any, ◌&&◌, if◌then◌else◌,
}
use raddy.Base.Ascii.{to_ascii_lowercase}
use raddy.ByteRange.{trim}
use raddy.Compression.{split}
use raddy.Config.Wildcard.{text_eq, is_empty}
use raddy.Validation.Compile.{Modifier, header_up_modifier, header_down_modifier}
use raddy.Values.{Text, codes}
use raddy.Values.Templates.{Variable, host, uri, remote_host, literal, var, ValueTemplate}

pub data RequestMethod : Type 0 where
  get head other_method : RequestMethod

-- What is read of a request. The header of a range and of the encodings is its text, where it is one.
pub record Session : Type 0 where
  pub method : RequestMethod
  pub host_field : Option Text
  pub authority : Option Text
  pub path_and_query : Option Text
  pub path : Text
  pub client_ip : Option Text
  pub range : Option (Option Text)
  pub accept_encoding : Option (Option Text)

abbrev pub or_else_text : Option Text → Option Text → Option Text
or_else_text none other = other
or_else_text (some a) other = some a

abbrev pub or_empty : Option Text → Text
or_empty none = []
or_empty (some text) = text

abbrev pub first_part : List Text → Text
first_part [] = []
first_part (part ∷ parts) = part

abbrev pub host_header : Session → Option Text
host_header session = or_else_text session.host_field session.authority

unfoldable pub host_value : Session → Text
unfolding split
host_value session = first_part (split b':' (or_empty (host_header session)))

unfoldable pub uri_value : Session → Text
uri_value session = elim session.path_and_query [ some text ↦ text | none ↦ session.path ]

unfoldable pub remote_host_value : Session → Text
remote_host_value session = or_empty session.client_ip

abbrev pub variable_value : Session → Variable → Text
variable_value session host = host_value session
variable_value session uri = uri_value session
variable_value session remote_host = remote_host_value session

unfoldable pub expand_template : Session → ValueTemplate → Text
unfolding host_value uri_value remote_host_value
expand_template session [] = []
expand_template session (literal text ∷ parts) = text ++ expand_template session parts
expand_template session (var v ∷ parts) = variable_value session v ++ expand_template session parts

abbrev pub Headers : Type 0
Headers = List (Text × Text)

-- `eq_ignore_ascii_case`, which is also how names of fields compare.
unfoldable pub same_name : Text → Text → Bool
unfolding text_eq
same_name a b = text_eq (to_ascii_lowercase a) (to_ascii_lowercase b)

-- `headers.get`.
unfoldable pub header_field : Text → Headers → Option Text
unfolding same_name
header_field name [] = none
header_field name ((n, v) ∷ headers) = elim (same_name n name) [
  | true ↦ some v
  | false ↦ header_field name headers
]

unfoldable pub remove_header : Text → Headers → Headers
unfolding same_name
remove_header name [] = []
remove_header name ((n, v) ∷ headers) =
    let rest = remove_header name headers in if same_name n name then rest else (n, v) ∷ rest

-- A field replaces all fields of its name.
unfoldable pub insert_header : Text → Text → Headers → Headers
unfolding remove_header
insert_header name value headers = (name, value) ∷ remove_header name headers

-- `headers.get_all`.
unfoldable pub get_all : Text → Headers → List Text
unfolding same_name
get_all name [] = []
get_all name ((n, v) ∷ headers) =
    let rest = get_all name headers in if same_name n name then v ∷ rest else rest

-- What http takes as a name and as a value, and which values are visible ASCII (`to_str`).
pub record Http : Type 0 where
  pub is_name : Text → Bool
  pub is_value : Text → Bool
  pub is_visible : Text → Bool

abbrev pub is_header_down : Modifier → Bool
is_header_down (header_down_modifier name value) = true
is_header_down _ = false

abbrev pub has_header_down : List Modifier → Bool
has_header_down modifiers = any is_header_down modifiers

-- The rewrite that a modifier asks for.
abbrev pub header_op : Bool → Modifier → Option (Text × ValueTemplate)
header_op true (header_up_modifier name value) = some (name, value)
header_op false (header_down_modifier name value) = some (name, value)
header_op _ _ = none

unfoldable pub header_ops : List Modifier → Bool → Session → List (Text × Text)
unfolding expand_template
header_ops [] up session = []
header_ops (modifier ∷ modifiers) up session =
    let rest = header_ops modifiers up session in
    elim (header_op up modifier) [
      | none ↦ rest
      | some (name, value) ↦ (name, expand_template session value) ∷ rest
    ]

-- Invalid names and values are skipped.
unfoldable pub apply_header_ops : Http → List (Text × Text) → Headers → Headers
unfolding insert_header
apply_header_ops http [] headers = headers
apply_header_ops http ((name, value) ∷ ops) headers =
    apply_header_ops http ops (
      if http.is_name name && http.is_value value
      then insert_header name value headers
      else headers)

unfoldable pub apply_header_down : Http → List Modifier → Session → Headers → Headers
unfolding header_ops apply_header_ops
apply_header_down http modifiers session headers =
    if has_header_down modifiers
    then apply_header_ops http (header_ops modifiers false session) headers
    else headers

pub record Vary : Type 0 where
  pub tokens : List Text
  pub has_accept_encoding : Bool

-- One token of a `Vary` field, trimmed.
unfoldable pub vary_token : Vary → Text → Vary
unfolding same_name
vary_token v token =
    if is_empty token
    then v
    else if same_name token (codes "accept-encoding")
    then record v { has_accept_encoding = true }
    else if any (λ t. same_name t token) v.tokens
    then v
    else record v { tokens = v.tokens ++ token ∷ [] }

unfoldable pub vary_tokens : Vary → List Text → Vary
unfolding vary_token trim
vary_tokens v [] = v
vary_tokens v (token ∷ tokens) = vary_tokens (vary_token v (trim token)) tokens

unfoldable pub vary_values : Http → Vary → List Text → Vary
unfolding vary_tokens split
vary_values http v [] = v
vary_values http v (value ∷ values) =
    vary_values http (if http.is_visible value then vary_tokens v (split b',' value) else v) values

-- `tokens.join(", ")`.
unfoldable pub join_tokens : List Text → Text
join_tokens [] = []
join_tokens (token ∷ []) = token
join_tokens (token ∷ next ∷ tokens) = token ++ codes ", " ++ join_tokens (next ∷ tokens)

abbrev pub merged_vary : Http → Text → Headers → Headers
merged_vary http merged headers =
    if http.is_value merged
    then insert_header (codes "Vary") merged (remove_header (codes "Vary") headers)
    else remove_header (codes "Vary") headers

unfoldable pub merge_vary_accept_encoding : Http → Headers → Headers
unfolding get_all vary_values join_tokens insert_header remove_header
merge_vary_accept_encoding http headers =
    let v =
      vary_values http (record { tokens = []; has_accept_encoding = false })
        (get_all (codes "Vary") headers) in
    if v.has_accept_encoding
    then headers
    else merged_vary http (join_tokens (v.tokens ++ codes "Accept-Encoding" ∷ [])) headers
