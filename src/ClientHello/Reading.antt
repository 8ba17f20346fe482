-- ===== src/ClientHello/Reading.antt =====
-- layer4/tls.rs: the reader finds the server name however the stream is cut into reads, keeps every
-- byte that it read, and returns within its bound.
use raddy.Base.{
  ℕ, ◌+◌, ◌≤◌, ◌<◌, ◌≡◌, refl, ap, ◌∙◌, List, [], ◌∷◌, ◌++◌, Option, some, arith, length,
  length-append, append_assoc, All, leb, leb→le, Bool-cases, Option-cases, inl, inr,
}
use raddy.Base.Ascii.{to_ascii_lowercase}
use raddy.ClientHello.{
  ParseOutcome, sni, no_sni, need_more, malformed, parse_client_hello_sni, Read, bytes, eof, error,
  timeout, InspectOutcome, sni_found, no_sni_found, malformed_hello, decide, inspect, read_from,
  read_client_hello, max_client_hello_bytes,
}
use raddy.ClientHello.RoundTrip.{Hello, IsWellFormed, encode_hello, encode_record}
use raddy.ClientHello.Total.{parse_client_hello_sni-total}
use raddy.ClientHello.Prefix.{parse-prefix, parse_complete}

abbrev pub received : List (ℕ × List ℕ) → List ℕ
received [] = []
received ((b, chunk) ∷ chunks) = b ∷ (chunk ++ received chunks)

-- Reads of at least one byte each.
abbrev pub reads_of : List (ℕ × List ℕ) → List Read → List Read
reads_of [] more = more
reads_of ((b, chunk) ∷ chunks) more = bytes (b ∷ chunk) ∷ reads_of chunks more

inspect-prefix :
    (buf more hello rest : List ℕ) (max_bytes : ℕ) (next : Option InspectOutcome)
    → buf ++ more ≡ encode_record hello rest
    → length buf < 9 + length hello
    → 9 + length hello ≤ max_client_hello_bytes
    → 9 + length hello ≤ max_bytes
    → inspect buf max_bytes next ≡ next
unfolding inspect
inspect-prefix buf more hello rest max_bytes next e short fits bound =
    rw (parse-prefix buf more hello rest e short fits) (ground arith)

inspect_complete :
    (h : Hello) (buf more rest : List ℕ) (max_bytes : ℕ) (next : Option InspectOutcome)
    → IsWellFormed h
    → buf ++ more ≡ encode_record (encode_hello h) rest
    → 9 + length (encode_hello h) ≤ length buf
    → inspect buf max_bytes next ≡ some (sni_found (to_ascii_lowercase h.name) buf)
unfolding inspect
inspect_complete h buf more rest max_bytes next w e long =
    rw (parse_complete h buf more rest w e long)

-- What the reader is to return: the name, and bytes that the stream begins with, the record whole.
abbrev pub Finds : Hello → List ℕ → Option InspectOutcome → Type 0
Finds h stream r =
    (buffered : List ℕ) × (more : List ℕ) × (r
      ≡ some (sni_found (to_ascii_lowercase h.name) buffered))
    × (buffered ++ more ≡ stream)
    × (9 + length (encode_hello h) ≤ length buffered)

module _ (h : Hello) (w : IsWellFormed h) (rest : List ℕ) (max_bytes : ℕ)
    (fits : 9 + length (encode_hello h) ≤ max_client_hello_bytes)
    (bound : 9 + length (encode_hello h) ≤ max_bytes) where
  complete-Finds :
      (buf more : List ℕ) (next : Option InspectOutcome)
      → buf ++ more ≡ encode_record (encode_hello h) rest
      → 9 + length (encode_hello h) ≤ length buf
      → Finds h (encode_record (encode_hello h) rest) (inspect buf max_bytes next)
  complete-Finds buf more next e long =
      (buf, more, inspect_complete h buf more rest max_bytes next w e long, e, long)

  read_from_complete :
      (reads : List Read) (buf more : List ℕ)
      → buf ++ more ≡ encode_record (encode_hello h) rest
      → 9 + length (encode_hello h) ≤ length buf
      → Finds h (encode_record (encode_hello h) rest) (read_from reads buf max_bytes)
  unfolding read_from
  read_from_complete [] buf more e long = complete-Finds buf more _ e long
  read_from_complete (bytes [] ∷ reads) buf more e long = complete-Finds buf more _ e long
  read_from_complete (bytes (b ∷ chunk) ∷ reads) buf more e long = complete-Finds buf more _ e long
  read_from_complete (eof ∷ reads) buf more e long = complete-Finds buf more _ e long
  read_from_complete (error ∷ reads) buf more e long = complete-Finds buf more _ e long
  read_from_complete (timeout ∷ reads) buf more e long = complete-Finds buf more _ e long

  read_from-Finds :
      (chunks : List (ℕ × List ℕ)) (more : List Read) (buf : List ℕ)
      → buf ++ received chunks ≡ encode_record (encode_hello h) rest
      → Finds h
          (encode_record (encode_hello h) rest)
          (read_from (reads_of chunks more) buf max_bytes)
  unfolding read_from
  read_from-Finds [] more buf e =
      let size = length-append (encode_hello h) rest in
      let sizes = length-append buf [] in
      read_from_complete more buf [] e (omega (arith, ap length e))
  read_from-Finds ((b, chunk) ∷ chunks) more buf e =
      let now_rest = read_from (reads_of chunks more) (buf ++ b ∷ chunk) max_bytes in
      elim (Bool-cases (leb (9 + length (encode_hello h)) (length buf))) [
        | inl long ↦
            complete-Finds buf (received ((b, chunk) ∷ chunks)) now_rest e
              (leb→le (9 + length (encode_hello h)) (length buf) long)
        | inr short ↦
            rw
              (inspect-prefix buf (received ((b, chunk) ∷ chunks)) (encode_hello h) rest max_bytes
                now_rest e (ground arith) fits bound)
              (read_from-Finds chunks more (buf ++ b ∷ chunk)
                (append_assoc buf (b ∷ chunk) (received chunks) ∙ e))
      ]

-- However a stream that begins with a well-formed ClientHello, in one record and within both
-- bounds, is cut into reads of at least one byte, the reader returns the server name in lower
-- case, with a buffer that is the first bytes of the stream and holds the whole record.
pub read_client_hello-Finds :
    (h : Hello) (rest : List ℕ) (max_bytes : ℕ) (chunks : List (ℕ × List ℕ)) (more : List Read)
    → IsWellFormed h
    → 9 + length (encode_hello h) ≤ max_client_hello_bytes
    → 9 + length (encode_hello h) ≤ max_bytes
    → received chunks ≡ encode_record (encode_hello h) rest
    → Finds h
        (encode_record (encode_hello h) rest)
        (read_client_hello (reads_of chunks more) max_bytes)
unfolding read_client_hello
read_client_hello-Finds h rest max_bytes chunks more w fits bound e =
    read_from-Finds h w rest max_bytes fits bound chunks more [] e

-- The bytes that an inspection hands on.
abbrev pub handed_on : InspectOutcome → List ℕ
handed_on (sni_found name buffered) = buffered
handed_on (no_sni_found buffered) = buffered
handed_on (malformed_hello buffered) = buffered

-- The bytes of all reads.
abbrev pub all_bytes : List Read → List ℕ
all_bytes [] = []
all_bytes (bytes chunk ∷ reads) = chunk ++ all_bytes reads
all_bytes (_ ∷ reads) = all_bytes reads

-- Every read gives at most a chunk of 1024 bytes.
abbrev pub IsChunk : Read → Type 0
IsChunk (bytes chunk) = length chunk ≤ 1024
IsChunk _ = Unit {0}

-- An outcome is returned, its bytes are the first ones that the stream gave, and they are bounded.
abbrev pub Returns : List ℕ → ℕ → Option InspectOutcome → Type 0
Returns stream bound r =
    (outcome : InspectOutcome) × (later : List ℕ) × (r ≡ some outcome)
    × (handed_on outcome ++ later ≡ stream)
    × (length (handed_on outcome) ≤ bound)

inspect-Returns :
    (buf later : List ℕ) (max_bytes bound : ℕ) (next : Option InspectOutcome)
    → length buf ≤ bound
    → (length buf < max_bytes → Returns (buf ++ later) bound next)
    → Returns (buf ++ later) bound (inspect buf max_bytes next)
unfolding inspect
inspect-Returns buf later max_bytes bound next h go =
    elim (Option-cases (parse_client_hello_sni buf)) [
      | inl panics ↦ absurd (parse_client_hello_sni-total buf panics)
      | inr (o, done) ↦ rw done (decide-Returns o)
    ]
  where
    decide-Returns : (o : ParseOutcome) → Returns (buf ++ later) bound (decide o buf max_bytes next)
    decide-Returns (sni name) = (sni_found name buf, later, refl, refl, h)
    decide-Returns no_sni = (no_sni_found buf, later, refl, refl, h)
    decide-Returns malformed = (malformed_hello buf, later, refl, refl, h)
    decide-Returns need_more = elim (Bool-cases (leb max_bytes (length buf))) [
      | inl full ↦ rw full (malformed_hello buf, later, refl, refl, h)
      | inr room ↦ rw room (go (ground arith))
    ]

read_from-Returns :
    (reads : List Read) (buf : List ℕ) (max_bytes : ℕ)
    → All IsChunk reads
    → length buf ≤ max_bytes + 1023
    → Returns (buf ++ all_bytes reads) (max_bytes + 1023) (read_from reads buf max_bytes)
unfolding read_from
read_from-Returns [] buf max_bytes c h =
    inspect-Returns buf [] max_bytes _ _ h (λ _. (malformed_hello buf, [], refl, refl, h))
read_from-Returns (bytes [] ∷ reads) buf max_bytes c h =
    inspect-Returns buf _ max_bytes _ _ h (λ _. (malformed_hello buf, _, refl, refl, h))
read_from-Returns (bytes (b ∷ chunk) ∷ reads) buf max_bytes c h =
    inspect-Returns buf ((b ∷ chunk) ++ all_bytes reads) max_bytes _ _ h (λ room.
      rw (← append_assoc buf (b ∷ chunk) (all_bytes reads)) (
        read_from-Returns reads (buf ++ b ∷ chunk) max_bytes c.1
          (omega (arith, length-append buf (b ∷ chunk), c.0, room))))
read_from-Returns (eof ∷ reads) buf max_bytes c h =
    inspect-Returns buf _ max_bytes _ _ h (λ _. (malformed_hello buf, _, refl, refl, h))
read_from-Returns (error ∷ reads) buf max_bytes c h =
    inspect-Returns buf _ max_bytes _ _ h (λ _. (malformed_hello buf, _, refl, refl, h))
read_from-Returns (timeout ∷ reads) buf max_bytes c h =
    inspect-Returns buf _ max_bytes _ _ h (λ _. (malformed_hello buf, _, refl, refl, h))

-- Whatever the reads give, in chunks of at most 1024 bytes, the reader returns an outcome whose
-- buffer is exactly the first bytes that the stream gave, unchanged and in order, and holds at
-- most 1023 bytes more than its bound.
pub read_client_hello-Returns :
    (reads : List Read) (max_bytes : ℕ)
    → All IsChunk reads
    → Returns (all_bytes reads) (max_bytes + 1023) (read_client_hello reads max_bytes)
unfolding read_client_hello
read_client_hello-Returns reads max_bytes c = read_from-Returns reads [] max_bytes c (omega arith)
