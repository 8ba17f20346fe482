-- ===== src/ClientHello/RoundTrip.antt =====
-- layer4/tls.rs against the wire format (RFC 8446 section 4.1.2, RFC 6066 section 3): a ClientHello
-- as it is written, and what the parser reads from it.
use raddy.Base.{
  ℕ, zero, suc, ◌+◌, ◌*◌, ◌/◌, ◌%◌, ◌<◌, ◌≡◌, ◌≢◌, refl, sym, ap, ◌∙◌, List, [], ◌∷◌, ◌++◌, some,
  true, arith, length, length-append, drop, append-nil, All,
}
use raddy.Base.Ascii.{is_utf8, to_ascii_lowercase}
use raddy.ClientHello.{
  sni, slice, u16_at, name_entry, name_entries, name_list, extension, parse_server_name,
  extensions_from, extensions, compression_methods, cipher_suites, session_id, parse_hello,
  hello_message, parse_client_hello_sni,
}
use raddy.ClientHello.Cursor.{
  u16_before, drop-suc, drop-head, drop-append, drop-u16, drop-length, slice-append,
}

-- The names of a server_name extension: one host name.
abbrev pub encode_names : List ℕ → List ℕ
encode_names name = 0 ∷ u16_before (length name) name

abbrev pub encode_server_name : List ℕ → List ℕ
encode_server_name name = u16_before (length (encode_names name)) (encode_names name)

-- An extension: its type, the length of its payload, the payload.
abbrev pub encode_extensions : List (ℕ × List ℕ) → List ℕ → List ℕ
encode_extensions [] rest = rest
encode_extensions ((ext_type, payload) ∷ exts) rest =
    u16_before ext_type (u16_before (length payload) (payload ++ encode_extensions exts rest))

-- What a ClientHello holds: 34 bytes of version and random, three lists, other extensions, the
-- server name, and the bytes of the extensions behind it.
pub record Hello : Type 0 where
  pub prologue : List ℕ
  pub session : List ℕ
  pub ciphers : List ℕ
  pub compressions : List ℕ
  pub before : List (ℕ × List ℕ)
  pub name : List ℕ
  pub after : List ℕ

abbrev pub encoded_extensions : Hello → List ℕ
encoded_extensions h =
    encode_extensions h.before (encode_extensions ((0, encode_server_name h.name) ∷ []) h.after)

abbrev pub encode_hello : Hello → List ℕ
encode_hello h =
    h.prologue
    ++ (length h.session
        ∷ (h.session
            ++ u16_before (length h.ciphers) (
                h.ciphers
                ++ (length h.compressions
                    ∷ (h.compressions
                        ++ u16_before (length (encoded_extensions h)) (encoded_extensions h))))))

-- The message in one handshake record, before `rest`.
abbrev pub encode_record : List ℕ → List ℕ → List ℕ
encode_record hello rest =
    0x16
    ∷ 3
    ∷ 1
    ∷ u16_before (4 + length hello) (
        1
        ∷ (length hello / 65_536)
        ∷ (length hello / 256 % 256)
        ∷ (length hello % 256)
        ∷ (hello ++ rest))

pub record IsWellFormed (h : Hello) : Type 0 where
  pub prologue : length h.prologue ≡ 34
  pub types : All (λ ext. ext.0 ≢ 0) h.before
  pub utf8 : is_utf8 h.name ≡ true
  pub fits : 4 + length (encode_hello h) < 65_536

name_entries-host_name :
    (fuel : ℕ) (name : List ℕ)
    → is_utf8 name ≡ true
    → name_entries (suc fuel) (encode_names name) 0 ≡ some (sni (to_ascii_lowercase name))
unfolding name_entries name_entry
name_entries-host_name fuel name u =
    let (len, after) = drop-u16 (encode_names name) 1 (length name) name refl in
    ground (
      arith,
      len,
      slice-append (encode_names name) 3 (3 + length name) name [] (omega arith) (omega arith)
          (sym (append-nil name)),
    )

parse_server_name-encode :
    (name : List ℕ)
    → is_utf8 name ≡ true
    → parse_server_name (encode_server_name name) ≡ some (sni (to_ascii_lowercase name))
unfolding parse_server_name name_list
parse_server_name-encode name u =
    let list : List ℕ = encode_names name in
    let (len, after) = drop-u16 (encode_server_name name) 0 (length list) list refl in
    ground (
      arith,
      len,
      name_entries-host_name (length list) name u,
      slice-append (encode_server_name name) 2 (2 + length list) list [] (omega arith) (omega arith)
          (sym (append-nil list)),
    )

-- One extension at a cursor: its type and length, and the cursor behind its payload.
record IsAt (hello : List ℕ) (i ext_type : ℕ) (payload rest : List ℕ) : Type 0 where
  kind : u16_at hello i ≡ some ext_type
  len : u16_at hello (i + 2) ≡ some (length payload)
  body : slice hello (i + 4) (i + 4 + length payload) ≡ some payload
  behind : drop (i + 4 + length payload) hello ≡ rest
  inside : i + 4 + length payload + length rest ≡ length hello

extension-IsAt :
    (hello : List ℕ) (i ext_type : ℕ) (payload rest : List ℕ)
    → drop i hello ≡ u16_before ext_type (u16_before (length payload) (payload ++ rest))
    → IsAt hello i ext_type payload rest
extension-IsAt hello i ext_type payload rest h =
    let (kind_at, after) = drop-u16 hello i ext_type _ h in
    let (len_at, behind_len) = drop-u16 hello (i + 2) (length payload) _ after in
    let e : i + 4 ≡ i + 2 + 2 = omega arith in
    let there : drop (i + 4) hello ≡ payload ++ rest = rw e behind_len in
    let total = drop-length hello i _ _ h in
    let sum = length-append payload rest in
    record {
      kind = kind_at;
      len = len_at;
      body =
          slice-append hello (i + 4) (i + 4 + length payload) payload rest (omega arith) refl there;
      behind = drop-append hello (i + 4) (i + 4 + length payload) payload rest refl there;
      inside = omega arith;
    }

extensions_from-encode :
    (fuel : ℕ) (hello : List ℕ) (i : ℕ) (exts : List (ℕ × List ℕ)) (name after : List ℕ)
    → length hello < i + fuel
    → All (λ ext. ext.0 ≢ 0) exts
    → is_utf8 name ≡ true
    → drop i hello
      ≡ encode_extensions exts (encode_extensions ((0, encode_server_name name) ∷ []) after)
    → extensions_from fuel hello (length hello) i ≡ some (sni (to_ascii_lowercase name))
unfolding extensions_from extension
extensions_from-encode zero hello i [] name after f types u h =
    absurd (omega (arith, drop-length hello i _ _ h))
extensions_from-encode zero hello i ((t, p) ∷ exts) name after f types u h =
    absurd (omega (arith, drop-length hello i _ _ h))
extensions_from-encode (suc fuel) hello i [] name after f types u h =
    let at = extension-IsAt hello i 0 (encode_server_name name) after h in
    ground (arith, at, parse_server_name-encode name u)
extensions_from-encode (suc fuel) hello i ((t, p) ∷ exts) name after f types u h =
    let at = extension-IsAt hello i t p _ h in
    ground (
      arith,
      at,
      types.0,
      extensions_from-encode fuel hello (i + 4 + length p) exts name after (omega arith) types.1 u
          at.behind,
    )

-- The lists before the extensions, each at its cursor.
session_id-skip :
    (hello : List ℕ) (i : ℕ) (xs rest : List ℕ)
    → drop i hello ≡ length xs ∷ (xs ++ rest)
    → (session_id hello i ≡ cipher_suites hello (i + 1 + length xs))
      × (compression_methods hello i ≡ extensions hello (i + 1 + length xs))
      × (drop (i + 1 + length xs) hello ≡ rest)
unfolding session_id compression_methods
session_id-skip hello i xs rest h =
    let total = drop-length hello i _ _ h in
    let sum = length-append xs rest in
    let head = drop-head hello i (length xs) (xs ++ rest) h in
    (
      ground (arith, total, sum, head),
      ground (arith, total, sum, head),
      drop-append hello (i + 1) (i + 1 + length xs) xs rest refl (drop-suc hello i _ _ h),
    )

cipher_suites-skip :
    (hello : List ℕ) (i : ℕ) (xs rest : List ℕ)
    → drop i hello ≡ u16_before (length xs) (xs ++ rest)
    → (cipher_suites hello i ≡ compression_methods hello (i + 2 + length xs))
      × (drop (i + 2 + length xs) hello ≡ rest)
unfolding cipher_suites
cipher_suites-skip hello i xs rest h =
    let total = drop-length hello i _ _ h in
    let sum = length-append xs rest in
    let (len, after) = drop-u16 hello i (length xs) (xs ++ rest) h in
    (
      ground (arith, total, sum, len),
      drop-append hello (i + 2) (i + 2 + length xs) xs rest refl after,
    )

extensions-encode :
    (hello : List ℕ) (i : ℕ) (exts : List (ℕ × List ℕ)) (name after : List ℕ)
    → All (λ ext. ext.0 ≢ 0) exts
    → is_utf8 name ≡ true
    → (body : List ℕ)
    → body ≡ encode_extensions exts (encode_extensions ((0, encode_server_name name) ∷ []) after)
    → drop i hello ≡ u16_before (length body) body
    → extensions hello i ≡ some (sni (to_ascii_lowercase name))
unfolding extensions
extensions-encode hello i exts name after types u body is_body h =
    let total = drop-length hello i _ _ h in
    let (len, behind) = drop-u16 hello i (length body) body h in
    let loop =
      extensions_from-encode (suc (length hello)) hello (i + 2) exts name after (omega arith) types
        u (behind ∙ is_body) in
    let e : i + 2 + length body ≡ length hello = omega arith in
    ground
      (arith, len, loop, total, ap (λ n. extensions_from (suc (length hello)) hello n (i + 2)) e)

parse_hello-encode :
    (h : Hello)
    → IsWellFormed h
    → parse_hello (encode_hello h) ≡ some (sni (to_ascii_lowercase h.name))
unfolding parse_hello
parse_hello-encode h w =
    let hello = encode_hello h in
    let at_session = drop-append hello 0 34 h.prologue _ (omega (arith, w.prologue)) refl in
    let (one, _, at_ciphers) = session_id-skip hello 34 h.session _ at_session in
    let (two, at_compressions) =
      cipher_suites-skip hello (34 + 1 + length h.session) h.ciphers _ at_ciphers in
    let (_, three, at_extensions) =
      session_id-skip hello (34 + 1 + length h.session + 2 + length h.ciphers) h.compressions
        (u16_before (length (encoded_extensions h)) (encoded_extensions h)) at_compressions in
    let four =
      extensions-encode hello
        (34 + 1 + length h.session + 2 + length h.ciphers + 1 + length h.compressions) h.before
        h.name h.after w.types w.utf8 (encoded_extensions h) refl at_extensions in
    let total = drop-length hello 34 _ _ at_session in
    ground (arith, one ∙ (two ∙ (three ∙ four)), total)

-- The parser reads back what the wire format writes: for a ClientHello of 34 bytes of version and
-- random, any session, cipher suites, compression methods, extensions of other types and a server
-- name in UTF-8, written in one record of less than 65536 bytes and followed by any bytes, it
-- returns the server name in lower case.
pub parse-encode :
    (h : Hello) (rest : List ℕ)
    → IsWellFormed h
    → parse_client_hello_sni (encode_record (encode_hello h) rest)
      ≡ some (sni (to_ascii_lowercase h.name))
unfolding parse_client_hello_sni hello_message u16_at
parse-encode h rest w =
    let hello : List ℕ = encode_hello h in
    let n : ℕ = length hello in
    let whole : 65_536 * (n / 65_536) + 256 * (n / 256 % 256) + n % 256 ≡ n = omega arith in
    let body : slice (encode_record hello rest) 9 (9 + n) ≡ some hello =
      slice-append (encode_record hello rest) 9 (9 + n) hello rest (omega arith) refl refl in
    ground (arith, whole, body, w.fits, length-append hello rest, parse_hello-encode h w)
