-- ===== src/StaticFiles/Head.antt =====
-- proxy/fs.rs: the reply to a request for the head.
use raddy.Base.{
  ℕ, ◌≡◌, refl, sym, ap, ◌∙◌, List, [], ◌∷◌, ◌++◌, Option, none, some, Bool, true, false, ltb, ◌||◌,
  ◌==◌, if◌then◌else◌, ◌>>=◌, inl, inr, Bool-cases, Option-cases,
}
use raddy.ByteRange.{RangeSpec, no_range, satisfiable, unsatisfiable, parse_range, Streamed}
use raddy.Compression.{Encoding, Algo, choose}
use raddy.Validation.Compile.{Modifier}
use raddy.Values.{Text}
use raddy.Values.Templates.{ValueTemplate, literal, var, Variable, host, uri, remote_host}
use raddy.StaticFiles.{resolve}
use raddy.StaticFiles.Headers.{
  get, head, Session, Headers, expand_template, variable_value, host_value, uri_value,
  remote_host_value, header_ops, header_op, apply_header_down, apply_header_ops, has_header_down,
}
use raddy.StaticFiles.Reply.{
  Opened, Disk, Response, Reply, headers_only, with_body, Plan, Library, algo_for, own_headers,
  reply_with, response_of, full_plan, partial_plan, respond_plan, respond_range, respond_stat,
  with_size, serve, is_head, not_open, min_compress_bytes,
}

-- A reply without its body.
abbrev pub header_of : Reply → Reply
header_of (with_body response body) = headers_only response
header_of reply = reply

abbrev pub heads : Session → Session
heads session = record session { method = head }

abbrev pub gets : Session → Session
gets session = record session { method = get }

variable_value-heads :
    (session : Session) (v : Variable)
    → variable_value (heads session) v ≡ variable_value (gets session) v
unfolding host_value uri_value remote_host_value
variable_value-heads session host = refl
variable_value-heads session uri = refl
variable_value-heads session remote_host = refl

expand_template-heads :
    (session : Session) (parts : ValueTemplate)
    → expand_template (heads session) parts ≡ expand_template (gets session) parts
unfolding expand_template
expand_template-heads session [] = refl
expand_template-heads session (literal text ∷ parts) =
    ap (λ t. text ++ t) (expand_template-heads session parts)
expand_template-heads session (var v ∷ parts) =
    ap (λ t. t ++ expand_template (heads session) parts) (variable_value-heads session v)
    ∙ ap (λ t. variable_value (gets session) v ++ t) (expand_template-heads session parts)

header_ops-heads :
    (modifiers : List Modifier) (up : Bool) (session : Session)
    → header_ops modifiers up (heads session) ≡ header_ops modifiers up (gets session)
unfolding header_ops
header_ops-heads [] up session = refl
header_ops-heads (modifier ∷ modifiers) up session = elim (Option-cases (header_op up modifier)) [
  | inl gone ↦ rw (gone, header_ops) (header_ops-heads modifiers up session)
  | inr ((name, value), there) ↦
      rw (there, header_ops)
        (ap (λ v. (name, v) ∷ header_ops modifiers up (heads session))
            (expand_template-heads session value)
          ∙ ap (λ rest. (name, expand_template (gets session) value) ∷ rest)
              (header_ops-heads modifiers up session))
]

header_of-reply_with :
    (b : Bool) (response : Response) (body : Streamed)
    → header_of (reply_with b response body) ≡ headers_only response
header_of-reply_with true response body = refl
header_of-reply_with false response body = refl

module _ {F E : Type 0} (lib : Library F E) where
  apply_header_down-heads :
      (modifiers : List Modifier) (session : Session) (headers : Headers)
      → apply_header_down lib.http modifiers (heads session) headers
        ≡ apply_header_down lib.http modifiers (gets session) headers
  unfolding apply_header_down
  apply_header_down-heads modifiers session headers =
      ap
        (λ ops.
          if has_header_down modifiers then apply_header_ops lib.http ops headers else headers)
        (header_ops-heads modifiers false session)

  algo_for-heads :
      (encode : List Encoding) (session : Session) (plan : Plan)
      → algo_for lib encode (heads session) plan ≡ none
  unfolding algo_for
  algo_for-heads encode session plan = elim (Bool-cases (plan.status == 206)) [
    | inl partial ↦ rw (partial, algo_for) refl
    | inr full ↦ rw (full, algo_for) refl
  ]

  algo_for-nil : (session : Session) (plan : Plan) → algo_for lib [] session plan ≡ none
  unfolding algo_for choose
  algo_for-nil session plan =
      elim (Bool-cases
        (plan.status == 206 || is_head session.method || ltb plan.body_len min_compress_bytes)) [
          | inl bare ↦ rw (bare, algo_for) refl
          | inr open_ended ↦ rw (open_ended, algo_for) refl
        ]

  own_headers-heads :
      (encode : List Encoding) (session : Session) (file : Text) (size : ℕ) (plan : Plan)
      (algo : Option Algo)
      → own_headers lib encode (heads session) file size plan algo
        ≡ own_headers lib [] (gets session) file size plan algo
  unfolding own_headers
  own_headers-heads encode session file size plan algo = elim (Bool-cases (plan.status == 200)) [
    | inl full ↦ rw (full, own_headers) refl
    | inr partial ↦ rw (partial, own_headers) refl
  ]

  response_of-heads :
      (encode : List Encoding) (modifiers : List Modifier) (session : Session) (file : Text)
      (size : ℕ) (plan : Plan) (algo : Option Algo)
      → response_of lib encode modifiers (heads session) file size plan algo
        ≡ response_of lib [] modifiers (gets session) file size plan algo
  response_of-heads encode modifiers session file size plan algo =
      ap (λ headers. record { status = plan.status; headers = headers })
        (apply_header_down-heads modifiers session _
          ∙ ap (apply_header_down lib.http modifiers (gets session))
              (own_headers-heads encode session file size plan algo))

  respond_plan-heads :
      (encode : List Encoding) (modifiers : List Modifier) (session : Session) (file : Text)
      (size : ℕ) (opened unopened : Opened) (plan : Plan)
      → respond_plan lib encode modifiers (heads session) file size unopened plan
        ≡ header_of (respond_plan lib [] modifiers (gets session) file size opened plan)
  unfolding respond_plan
  respond_plan-heads encode modifiers session file size opened unopened plan =
      let response : Option Algo → Reply =
        λ algo. headers_only (response_of lib [] modifiers (gets session) file size plan algo) in
      ap headers_only (response_of-heads encode modifiers session file size plan _)
      ∙ ap response (algo_for-heads encode session plan ∙ sym (algo_for-nil (gets session) plan))
      ∙ sym (header_of-reply_with _ _ _)

  respond_range-heads :
      (encode : List Encoding) (modifiers : List Modifier) (session : Session) (file : Text)
      (size : ℕ) (opened unopened : Opened) (range : RangeSpec)
      → respond_range lib encode modifiers (heads session) file size unopened range
        ≡ header_of (respond_range lib [] modifiers (gets session) file size opened range)
  unfolding respond_range
  respond_range-heads encode modifiers session file size opened unopened no_range =
      respond_plan-heads encode modifiers session file size opened unopened (full_plan size)
  respond_range-heads encode modifiers session file size opened unopened (satisfiable start end) =
      respond_plan-heads encode modifiers session file size opened unopened (partial_plan start end)
  respond_range-heads encode modifiers session file size opened unopened unsatisfiable =
      ap (λ headers. headers_only (record { status = 416; headers = headers }))
        (apply_header_down-heads modifiers session _)

  -- The size of the file, as it is read of the open file.
  respond_size-heads :
      (encode : List Encoding) (modifiers : List Modifier) (session : Session) (file : Text)
      (opened : Opened) (size : Option ℕ)
      → respond_stat lib encode modifiers (heads session) file (with_size not_open size)
        ≡ header_of (respond_stat lib [] modifiers (gets session) file (with_size opened size))
  respond_size-heads encode modifiers session file opened none = refl
  respond_size-heads encode modifiers session file opened (some n) =
      respond_range-heads encode modifiers session file n opened not_open
        (parse_range session.range n)

  respond_stat-heads :
      (encode : List Encoding) (modifiers : List Modifier) (session : Session) (file : Text)
      (opened : Option Opened)
      → respond_stat lib encode modifiers
          (heads session)
          file
          (with_size not_open (opened >>= λ o. o.size))
        ≡ header_of
            (respond_stat lib [] modifiers (gets session) file (opened >>= λ o. with_size o o.size))
  respond_stat-heads encode modifiers session file none = refl
  respond_stat-heads encode modifiers session file (some opened) =
      respond_size-heads encode modifiers session file opened opened.size

  -- Where the size of a file is the one that is read of it when it is open, the reply to a
  -- request for the head is, whatever the encodings and the modifiers, the reply to the get
  -- without its body as it is without encodings.
  pub serve-heads :
      (disk : Disk) (root path : Text) (encode : List Encoding) (modifiers : List Modifier)
      (session : Session)
      → ((file : Text) → disk.metadata file ≡ (disk.open_file file >>= λ opened. opened.size))
      → serve lib disk root path encode modifiers (heads session)
        ≡ header_of (serve lib disk root path [] modifiers (gets session))
  unfolding serve
  serve-heads disk root path encode modifiers session same =
      elim (Option-cases (resolve disk.canonicalize disk.is_dir root path)) [
        | inl gone ↦ rw (gone, serve) refl
        | inr (file, there) ↦
            rw (there, serve)
              (rw (same file)
                (respond_stat-heads encode modifiers session file (disk.open_file file)))
      ]
