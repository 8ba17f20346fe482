-- ===== src/StaticFiles/Answers.antt =====
-- proxy/fs.rs: the replies of `serve` to every request.
use raddy.Base.{ℕ, ◌-◌, ◌≤◌, ◌<◌, ◌≡◌, ◌⊎◌, List, ◌++◌, none, some, Bool, take, drop, length, All}
use raddy.ByteRange.{RangeSpec, no_range, satisfiable, unsatisfiable, parse_range, Streamed, sent}
use raddy.ByteRange.Body.{joined, EndsOnce, Whole}
use raddy.Compression.Encoders.{encoder_new}
use raddy.Compression.{Encoding, Algo, token, choose}
use raddy.Validation.Compile.{Modifier}
use raddy.Values.{Text, codes}
use raddy.StaticFiles.{resolve}
use raddy.StaticFiles.Headers.{get, head, other_method, Session, header_field}
use raddy.StaticFiles.Reply.{
  Opened, Disk, Response, Reply, respond_error, headers_only, with_body, Library, encoded_body,
  stat, min_compress_bytes, content_range,
}

-- What is read of an open file: every read gives a byte until the end, and the size is the file's.
pub record IsSteady (opened : Opened) (size : ℕ) : Type 0 where
  pub positive : All (λ r. 0 < r) opened.reads
  pub whole_size : size ≡ length opened.contents

module _ {F E : Type 0} (lib : Library F E) where
  -- The first byte that a reply is about and how many they are, in a file of the size, and what its
  -- header says of them.
  pub data Describes (size : ℕ) (response : Response) : RangeSpec → ℕ → ℕ → Type 0 where
    whole :
        response.status ≡ 200
        → header_field (codes "Content-Range") response.headers ≡ none
        → Describes size response no_range 0 size
    part :
        (start end : ℕ)
        → start < end
        → end ≤ size
        → response.status ≡ 206
        → header_field (codes "Content-Range") response.headers
          ≡ some (content_range lib start end size)
        → Describes size response (satisfiable start end) start (end - start)

  -- The header gives the length of a body that is not encoded.
  pub record HasLength (response : Response) (len : ℕ) : Type 0 where
    pub len_field :
        header_field (codes "Content-Length") response.headers ≡ some (lib.print_number len)
    pub encoding_field : header_field (codes "Content-Encoding") response.headers ≡ none

  module _ (disk : Disk) (root path : Text) (encode : List Encoding) (modifiers : List Modifier)
      (session : Session) where
    pub record Found (file : Text) (opened : Opened) (size : ℕ) : Type 0 where
      pub resolved : resolve disk.canonicalize disk.is_dir root path ≡ some file
      pub stated : stat disk session.method file ≡ some (opened, size)

    -- The encoding that is chosen for a whole file, and the header that says so.
    pub record IsEncoded (size : ℕ) (response : Response) (algo : Algo) : Type 0 where
      pub no_range_asked : parse_range session.range size ≡ no_range
      pub large : min_compress_bytes ≤ size
      pub chosen :
          choose F lib.one lib.is_positive lib.parse_f32 encode session.accept_encoding ≡ some algo
      pub status_ok : response.status ≡ 200
      pub no_len : header_field (codes "Content-Length") response.headers ≡ none
      pub encoding_field :
          header_field (codes "Content-Encoding") response.headers ≡ some (token algo)

    -- Why a body is not encoded.
    abbrev pub IsPlain : Response → ℕ → Type 0
    IsPlain response len =
        (response.status ≡ 206)
        ⊎ ((len < min_compress_bytes)
            ⊎ (choose F lib.one lib.is_positive lib.parse_f32 encode session.accept_encoding
                ≡ none))

    pub data Answers : Reply → Type 0 where
      refused : session.method ≡ other_method → Answers (respond_error 405)
      missing :
          ((file : Text)
            → resolve disk.canonicalize disk.is_dir root path ≡ some file
            → stat disk session.method file ≡ none)
          → Answers (respond_error 404)
      out_of_range :
          (file : Text) (opened : Opened) (size : ℕ) (response : Response)
          → Found file opened size
          → parse_range session.range size ≡ unsatisfiable
          → response.status ≡ 416
          → header_field (codes "Content-Range") response.headers
            ≡ some (codes "bytes */" ++ lib.print_number size)
          → Answers (headers_only response)
      bodyless :
          (file : Text) (opened : Opened) (size start len : ℕ) (response : Response)
          → Found file opened size
          → (session.method ≡ head) ⊎ (len ≡ 0)
          → Describes size response (parse_range session.range size) start len
          → HasLength response len
          → Answers (headers_only response)
      plain :
          (file : Text) (opened : Opened) (size start len : ℕ) (response : Response)
          (body : Streamed)
          → Found file opened size
          → session.method ≡ get
          → Describes size response (parse_range session.range size) start len
          → HasLength response len
          → IsPlain response len
          → Whole (take len (drop start opened.contents)) body
          → Answers (with_body response body)
      encoded :
          (file : Text) (opened : Opened) (size : ℕ) (response : Response) (algo : Algo)
          (chunks : List (List ℕ × Bool))
          → Found file opened size
          → session.method ≡ get
          → IsEncoded size response algo
          → joined chunks ≡ opened.contents
          → EndsOnce chunks
          → Answers
              (with_body response (encoded_body lib (encoder_new lib.codec algo) (sent chunks)))
