-- ===== src/StaticFiles/Fields.antt =====
-- proxy/fs.rs: the fields that frame the body of a reply.
use raddy.Base.{
  ℕ, ◌-◌, ◌≡◌, refl, List, [], Option, none, some, Bool, true, false, not, ◌&&◌, inl, inr,
  Bool-cases,
}
use raddy.Base.Ascii.{lower, is_ascii_uppercase}
use raddy.ByteRange.{trim, trim_start, trim_end}
use raddy.Compression.{Encoding, Algo, token, split}
use raddy.Config.Wildcard.{text_eq}
use raddy.Validation.Compile.{Modifier}
use raddy.Values.{Text, codes}
use raddy.StaticFiles.Headers.{
  Session, Headers, same_name, header_field, remove_header, insert_header, get_all, vary_token,
  vary_tokens, vary_values, join_tokens, merge_vary_accept_encoding, apply_header_down,
  has_header_down,
}
use raddy.StaticFiles.Reply.{
  Plan, Library, own_headers, response_of, full_plan, partial_plan, is_head, no_encodings,
  with_vary, content_range,
}

-- The length, the encoding and the range that a header states.
pub record HasFields (headers : Headers) (len encoding range : Option Text) : Type 0 where
  pub len_field : header_field (codes "Content-Length") headers ≡ len
  pub encoding_field : header_field (codes "Content-Encoding") headers ≡ encoding
  pub range_field : header_field (codes "Content-Range") headers ≡ range

runs : Unit {0}
unfolding same_name header_field remove_header insert_header get_all vary_token vary_tokens
    vary_values join_tokens merge_vary_accept_encoding text_eq lower is_ascii_uppercase split trim
    trim_start trim_end
runs = tt

module _ {F E : Type 0} (lib : Library F E) where
  with_vary-HasFields :
      (b : Bool) (headers : Headers) (len encoding range : Option Text)
      → get_all (codes "Vary") headers ≡ []
      → remove_header (codes "Vary") headers ≡ headers
      → HasFields headers len encoding range
      → HasFields (with_vary lib b headers) len encoding range
  unfolding runs
  with_vary-HasFields false headers len encoding range none_set kept v = v
  with_vary-HasFields true headers len encoding range none_set kept v =
      rw (none_set, merge_vary_accept_encoding)
        (elim (Bool-cases (lib.http.is_value (codes "Accept-Encoding"))) [
          | inl good ↦ rw good (
              rw kept (
                rw kept (record {
                  len_field = v.len_field;
                  encoding_field = v.encoding_field;
                  range_field = v.range_field;
                })))
          | inr bad ↦ rw bad (rw kept v)
        ])

  pub full_plan-HasFields :
      (encode : List Encoding) (session : Session) (file : Text) (size : ℕ)
      → HasFields
          (own_headers lib encode session file size (full_plan size) none)
          (some (lib.print_number size))
          none
          none
  unfolding runs own_headers
  full_plan-HasFields encode session file size =
      with_vary-HasFields (not (is_head session.method) && not (no_encodings encode)) _ _ _ _ refl
        refl (record { len_field = refl; encoding_field = refl; range_field = refl })

  pub partial_plan-HasFields :
      (encode : List Encoding) (session : Session) (file : Text) (size start end : ℕ)
      → HasFields
          (own_headers lib encode session file size (partial_plan start end) none)
          (some (lib.print_number (end - start)))
          none
          (some (content_range lib start end size))
  unfolding runs own_headers
  partial_plan-HasFields encode session file size start end = record {
    len_field = refl;
    encoding_field = refl;
    range_field = refl;
  }

  pub encoded-HasFields :
      (encode : List Encoding) (session : Session) (file : Text) (size : ℕ) (algo : Algo)
      → HasFields
          (own_headers lib encode session file size (full_plan size) (some algo))
          none
          (some (token algo))
          none
  unfolding runs own_headers
  encoded-HasFields encode session file size algo =
      with_vary-HasFields (not (is_head session.method) && not (no_encodings encode)) _ _ _ _ refl
        refl (record { len_field = refl; encoding_field = refl; range_field = refl })

  -- Without rewrites, the fields stay.
  pub response_of-HasFields :
      (encode : List Encoding) (modifiers : List Modifier) (session : Session) (file : Text)
      (size : ℕ) (plan : Plan) (algo : Option Algo) (len encoding range : Option Text)
      → has_header_down modifiers ≡ false
      → HasFields (own_headers lib encode session file size plan algo) len encoding range
      → HasFields
          (response_of lib encode modifiers session file size plan algo).headers
          len
          encoding
          range
  unfolding apply_header_down
  response_of-HasFields encode modifiers session file size plan algo len encoding range plain v =
      rw (plain, apply_header_down) v
