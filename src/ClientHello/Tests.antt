-- ===== src/ClientHello/Tests.antt =====
-- layer4/tls.rs: runs of the parser and the reader, and the theorems at a concrete ClientHello.
use raddy.Base.{ℕ, ◌+◌, ◌≡◌, ◌≢◌, refl, List, [], ◌∷◌, ◌++◌, none, some, arith, replicate, length}
use raddy.Base.Ascii.{is_utf8, lower, to_ascii_lowercase}
use raddy.ClientHello.{
  sni, need_more, malformed, parse_client_hello_sni, bytes, eof, read_client_hello, slice, u16_at,
  hello_message, parse_hello, session_id, cipher_suites, compression_methods, extensions,
  extensions_from, extension, parse_server_name, name_list, name_entries, name_entry,
}
use raddy.ClientHello.Total.{parse_client_hello_sni-total}
use raddy.ClientHello.RoundTrip.{Hello, IsWellFormed, encode_hello, encode_record, parse-encode}
use raddy.ClientHello.Reading.{Finds, read_client_hello-Finds, Returns, read_client_hello-Returns}

runs : Unit {0}
unfolding parse_client_hello_sni hello_message parse_hello session_id cipher_suites
    compression_methods extensions extensions_from extension parse_server_name name_list
    name_entries name_entry slice u16_at is_utf8 lower read_client_hello
runs = tt

-- One cipher suite, the null compression, an extension of type 10, then the name "Ab".
abbrev sample : Hello
sample = record {
  prologue = replicate 34 3;
  session = [];
  ciphers = 0x13 ∷ 0x01 ∷ [];
  compressions = 0 ∷ [];
  before = (10, 0 ∷ 1 ∷ []) ∷ [];
  name = b'A' ∷ b'b' ∷ [];
  after = 0 ∷ 16 ∷ 0 ∷ 0 ∷ [];
}

sample-IsWellFormed : IsWellFormed sample
unfolding runs
sample-IsWellFormed = record {
  prologue = refl;
  types = ((λ e. omega arith), tt);
  utf8 = refl;
  fits = omega arith;
}

abbrev wire : List ℕ
wire = encode_record (encode_hello sample) (9 ∷ [])

parse_tests :
    (parse_client_hello_sni wire ≡ some (sni (b'a' ∷ b'b' ∷ [])))
    × (parse_client_hello_sni (0x16 ∷ 3 ∷ 1 ∷ 0 ∷ []) ≡ some need_more)
    × (parse_client_hello_sni (0x17 ∷ 3 ∷ 1 ∷ 0 ∷ 0 ∷ []) ≡ some malformed)
unfolding runs
parse_tests = (refl, refl, refl)

parse_client_hello_sni-total_example :
    parse_client_hello_sni (0x16 ∷ 3 ∷ 1 ∷ 0 ∷ 9 ∷ 1 ∷ 0 ∷ 0 ∷ 200 ∷ []) ≢ none
parse_client_hello_sni-total_example =
    parse_client_hello_sni-total (0x16 ∷ 3 ∷ 1 ∷ 0 ∷ 9 ∷ 1 ∷ 0 ∷ 0 ∷ 200 ∷ [])

parse-encode_example :
    parse_client_hello_sni (encode_record (encode_hello sample) (9 ∷ []))
    ≡ some (sni (to_ascii_lowercase (b'A' ∷ b'b' ∷ [])))
parse-encode_example = parse-encode sample (9 ∷ []) sample-IsWellFormed

-- The stream in two reads, the first of seven bytes.
abbrev chunks : List (ℕ × List ℕ)
chunks =
    (0x16, 3 ∷ 1 ∷ 0 ∷ (4 + length (encode_hello sample)) ∷ 1 ∷ 0 ∷ [])
    ∷ (0, length (encode_hello sample) ∷ (encode_hello sample ++ 9 ∷ []))
    ∷ []

read_client_hello-Finds_example : Finds sample wire (
    read_client_hello
      (bytes (0x16 ∷ 3 ∷ 1 ∷ 0 ∷ (4 + length (encode_hello sample)) ∷ 1 ∷ 0 ∷ [])
        ∷ bytes (0 ∷ length (encode_hello sample) ∷ (encode_hello sample ++ 9 ∷ []))
        ∷ eof
        ∷ [])
      65_536)
unfolding runs
read_client_hello-Finds_example =
    read_client_hello-Finds sample (9 ∷ []) 65_536 chunks (eof ∷ []) sample-IsWellFormed
      (omega arith) (omega arith) refl

read_client_hello-Returns_example :
    Returns
      (0x16 ∷ 3 ∷ 7 ∷ [])
      (4 + 1023)
      (read_client_hello (bytes (0x16 ∷ 3 ∷ []) ∷ bytes (7 ∷ []) ∷ eof ∷ []) 4)
read_client_hello-Returns_example =
    read_client_hello-Returns (bytes (0x16 ∷ 3 ∷ []) ∷ bytes (7 ∷ []) ∷ eof ∷ []) 4
      (omega arith, (omega arith, (tt, tt)))
