-- ===== src/StaticFiles/Reply.antt =====
-- proxy/fs.rs: the reply to a request for a file (`serve`). The codecs, the types of files and the file
-- system are parameters.
use raddy.Base.{
  ℕ, suc, ◌+◌, ◌-◌, List, [], ◌∷◌, ◌++◌, Option, none, some, Bool, true, false, not, drop, length,
  ltb, ◌&&◌, ◌||◌, ◌==◌, if◌then◌else◌, ◌>>=◌,
}
use raddy.Base.Map.{map_option}
use raddy.ByteRange.{
  RangeSpec, no_range, satisfiable, unsatisfiable, parse_range, Streamed, sent, truncated, stuck,
  stream,
}
use raddy.Compression.{Encoding, Algo, token, choose}
use raddy.Compression.Encoders.{Bytes, Codec, Encoder, encoder_new, encoder_write, encoder_finish}
use raddy.Validation.Compile.{Modifier}
use raddy.Values.{Text, codes}
use raddy.StaticFiles.{resolve}
use raddy.StaticFiles.Headers.{
  RequestMethod, head, other_method, Session, Headers, Http, insert_header, apply_header_down,
  merge_vary_accept_encoding,
}

module _ {E : Type 0} (codec : Codec E) where
  -- The last chunk has what finishes the stream behind it.
  abbrev pub encoded_chunk : Encoder E → Bytes × Bool → Option ((Bytes × Bool) × Encoder E)
  encoded_chunk encoder (raw, false) = do
    (out, next) ← encoder_write codec encoder raw
    some ((out, false), next)
  encoded_chunk encoder (raw, true) = do
    (out, next) ← encoder_write codec encoder raw
    tail ← encoder_finish codec next
    some ((out ++ tail, true), next)

  -- The chunks of a body through the encoder, and whether the codec failed.
  unfoldable pub encode_chunks : Encoder E → List (Bytes × Bool) → List (Bytes × Bool) × Bool
  unfolding encoder_write encoder_finish
  encode_chunks encoder [] = ([], false)
  encode_chunks encoder (chunk ∷ chunks) = elim (encoded_chunk encoder chunk) [
    | none ↦ ([], true)
    | some (out, next) ↦ let rest = encode_chunks next chunks in (out ∷ rest.0, rest.1)
  ]

  abbrev pub unless_failed : List (Bytes × Bool) × Bool → Streamed
  unless_failed (chunks, false) = sent chunks
  unless_failed (chunks, true) = truncated chunks

  -- A body that ends early is `truncated`, for whatever reason.
  unfoldable pub encode_stream : Encoder E → Streamed → Streamed
  unfolding encode_chunks
  encode_stream encoder (sent chunks) = unless_failed (encode_chunks encoder chunks)
  encode_stream encoder (truncated chunks) = truncated (encode_chunks encoder chunks).0
  encode_stream encoder stuck = stuck

-- A file that is open: its size, where it can be read, its bytes, and how much each read gives at most.
pub record Opened : Type 0 where
  pub size : Option ℕ
  pub contents : Bytes
  pub reads : List ℕ

pub record Disk : Type 0 where
  pub canonicalize : Text → Option Text
  pub is_dir : Text → Bool
  pub metadata : Text → Option ℕ
  pub open_file : Text → Option Opened

pub record Response : Type 0 where
  pub status : ℕ
  pub headers : Headers

pub data Reply : Type 0 where
  respond_error : (code : ℕ) → Reply
  headers_only : (response : Response) → Reply
  with_body : (response : Response) (body : Streamed) → Reply

-- The status, the bytes of the body, and the part of the file.
pub record Plan : Type 0 where
  pub status : ℕ
  pub body_len : ℕ
  pub stream_range : Option (ℕ × ℕ)

abbrev pub min_compress_bytes : ℕ
min_compress_bytes = 64

abbrev pub is_head : RequestMethod → Bool
is_head head = true
is_head _ = false

abbrev pub start_of : Option (ℕ × ℕ) → ℕ
start_of none = 0
start_of (some (start, end)) = start

abbrev pub no_encodings : List Encoding → Bool
no_encodings [] = true
no_encodings (e ∷ encode) = false

abbrev pub no_algo : Option Algo → Bool
no_algo none = true
no_algo (some algo) = false

abbrev pub not_open : Opened
not_open = record { size = none; contents = []; reads = [] }

abbrev pub with_size : Opened → Option ℕ → Option (Opened × ℕ)
with_size opened size = map_option (λ n. (opened, n)) size

-- The file and its size: what a head reads of it, and what a get opens.
abbrev pub stat : Disk → RequestMethod → Text → Option (Opened × ℕ)
stat disk head file = with_size not_open (disk.metadata file)
stat disk _ file = disk.open_file file >>= λ opened. with_size opened opened.size

abbrev pub is_served : RequestMethod → Bool
is_served other_method = false
is_served _ = true

-- The loop over the body runs behind the seek to the start.
abbrev pub raw_body : Opened → Plan → Streamed
raw_body opened plan =
    stream (suc plan.body_len) opened.reads (drop (start_of plan.stream_range) opened.contents)
      plan.body_len

abbrev pub reply_with : Bool → Response → Streamed → Reply
reply_with true response body = headers_only response
reply_with false response body = with_body response body

abbrev pub full_plan : ℕ → Plan
full_plan size = record { status = 200; body_len = size; stream_range = none }

abbrev pub partial_plan : ℕ → ℕ → Plan
partial_plan start end = record {
  status = 206;
  body_len = end - start;
  stream_range = some (start, end);
}

-- The libraries: the weights, the codecs, http, the types of files and numbers.
pub record Library (F E : Type 0) : Type 0 where
  pub one : F
  pub is_positive : F → Bool
  pub parse_f32 : Text → Option F
  pub codec : Codec E
  pub http : Http
  pub mime : Text → Text
  pub print_number : ℕ → Text

module _ {F E : Type 0} (lib : Library F E) where
  abbrev pub unsatisfied : ℕ → Headers
  unsatisfied size =
      insert_header (codes "Accept-Ranges") (codes "bytes")
        (insert_header (codes "Content-Range") (codes "bytes */" ++ lib.print_number size) [])

  abbrev pub content_range : ℕ → ℕ → ℕ → Text
  content_range start end size =
      codes "bytes "
      ++ lib.print_number start
      ++ codes "-"
      ++ lib.print_number (end - 1)
      ++ codes "/"
      ++ lib.print_number size

  unfoldable pub algo_for : List Encoding → Session → Plan → Option Algo
  unfolding choose
  algo_for encode session plan =
      if plan.status == 206 || is_head session.method || ltb plan.body_len min_compress_bytes
      then none
      else choose F lib.one lib.is_positive lib.parse_f32 encode session.accept_encoding

  abbrev pub with_length : Option Algo → ℕ → Headers → Headers
  with_length none body_len headers =
      insert_header (codes "Content-Length") (lib.print_number body_len) headers
  with_length (some algo) body_len headers =
      insert_header (codes "Content-Encoding") (token algo) headers

  abbrev pub with_range : Option (ℕ × ℕ) → ℕ → Headers → Headers
  with_range none size headers = headers
  with_range (some (start, end)) size headers =
      insert_header (codes "Content-Range") (content_range start end size) headers

  abbrev pub with_vary : Bool → Headers → Headers
  with_vary true headers = merge_vary_accept_encoding lib.http headers
  with_vary false headers = headers

  -- The headers that the code sets, before the rewrites.
  unfoldable pub own_headers : List Encoding → Session → Text → ℕ → Plan → Option Algo → Headers
  unfolding insert_header merge_vary_accept_encoding
  own_headers encode session file size plan algo =
      with_vary (plan.status == 200 && not (is_head session.method) && not (no_encodings encode)) (
        with_range plan.stream_range size (
          with_length algo plan.body_len (
            insert_header (codes "Accept-Ranges") (codes "bytes")
              (insert_header (codes "Content-Type") (lib.mime file) []))))

  abbrev pub encoded_body : Option (Encoder E) → Streamed → Streamed
  encoded_body none body = truncated []
  encoded_body (some encoder) body = encode_stream lib.codec encoder body

  abbrev pub body_of : Option Algo → Opened → Plan → Streamed
  body_of none opened plan = raw_body opened plan
  body_of (some algo) opened plan = encoded_body (encoder_new lib.codec algo) (raw_body opened plan)

  -- The reply once the range is known; a request for the head has no open file.
  abbrev pub response_of :
      List Encoding → List Modifier → Session → Text → ℕ → Plan → Option Algo → Response
  response_of encode modifiers session file size plan algo = record {
    status = plan.status;
    headers =
        apply_header_down lib.http modifiers session
          (own_headers encode session file size plan algo);
  }

  abbrev pub reply_for :
      List Encoding → List Modifier → Session → Text → ℕ → Opened → Plan → Option Algo → Reply
  reply_for encode modifiers session file size opened plan algo =
      reply_with (is_head session.method || (plan.body_len == 0 && no_algo algo))
        (response_of encode modifiers session file size plan algo) (body_of algo opened plan)

  unfoldable pub respond_plan :
      List Encoding → List Modifier → Session → Text → ℕ → Opened → Plan → Reply
  unfolding algo_for own_headers stream encode_stream encoder_new apply_header_down
  respond_plan encode modifiers session file size opened plan =
      reply_for encode modifiers session file size opened plan (algo_for encode session plan)

  unfoldable pub respond_range :
      List Encoding → List Modifier → Session → Text → ℕ → Opened → RangeSpec → Reply
  unfolding respond_plan insert_header apply_header_down
  respond_range encode modifiers session file size opened no_range =
      respond_plan encode modifiers session file size opened (full_plan size)
  respond_range encode modifiers session file size opened (satisfiable start end) =
      respond_plan encode modifiers session file size opened (partial_plan start end)
  respond_range encode modifiers session file size opened unsatisfiable = headers_only (record {
    status = 416;
    headers = apply_header_down lib.http modifiers session (unsatisfied size);
  })

  abbrev pub respond_stat :
      List Encoding → List Modifier → Session → Text → Option (Opened × ℕ) → Reply
  respond_stat encode modifiers session file none = respond_error 404
  respond_stat encode modifiers session file (some (opened, size)) =
      respond_range encode modifiers session file size opened (parse_range session.range size)

  abbrev pub respond_file : Disk → List Encoding → List Modifier → Session → Option Text → Reply
  respond_file disk encode modifiers session none = respond_error 404
  respond_file disk encode modifiers session (some file) =
      respond_stat encode modifiers session file (stat disk session.method file)

  unfoldable pub serve : Disk → Text → Text → List Encoding → List Modifier → Session → Reply
  unfolding resolve respond_range parse_range
  serve disk root path encode modifiers session =
      if is_served session.method
      then respond_file disk encode modifiers session
          (resolve disk.canonicalize disk.is_dir root path)
      else respond_error 405

-- `bytes_written`.
abbrev pub chunk_bytes : List (Bytes × Bool) → ℕ
chunk_bytes [] = 0
chunk_bytes ((chunk, last) ∷ chunks) = length chunk + chunk_bytes chunks

abbrev pub bytes_written : Reply → ℕ
bytes_written (with_body response (sent chunks)) = chunk_bytes chunks
bytes_written (with_body response (truncated chunks)) = chunk_bytes chunks
bytes_written _ = 0
