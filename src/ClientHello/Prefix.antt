-- ===== src/ClientHello/Prefix.antt =====
-- layer4/tls.rs: what the parser answers on the prefixes of a record.
use raddy.Base.{
  ℕ, zero, suc, ◌+◌, ◌*◌, ◌/◌, ◌%◌, ◌≤◌, ◌<◌, ◌≡◌, refl, sym, ap, ◌∙◌, List, [], ◌∷◌, ◌++◌, some,
  arith, length, length-append, get_elem?, drop, append-nil, leb, leb→le, Bool-cases, inl, inr,
}
use raddy.Base.Ascii.{to_ascii_lowercase}
use raddy.ClientHello.{
  sni, need_more, u16_at, hello_message, parse_client_hello_sni, max_client_hello_bytes,
}
use raddy.ClientHello.RoundTrip.{Hello, IsWellFormed, encode_hello, encode_record, parse-encode}

get_elem?-append {ℓ} :
    {A : Type ℓ} (xs ys : List A) (i : ℕ) → i < length xs → get_elem? (xs ++ ys) i ≡ get_elem? xs i
get_elem?-append [] ys i h = absurd (omega arith)
get_elem?-append (x ∷ xs) ys zero h = refl
get_elem?-append (x ∷ xs) ys (suc i) h = get_elem?-append xs ys i (omega arith)

prefix-get :
    (buf more xs : List ℕ) (i b : ℕ)
    → buf ++ more ≡ xs
    → get_elem? xs i ≡ some b
    → i < length buf
    → get_elem? buf i ≡ some b
prefix-get buf more xs i b e at h =
    sym (get_elem?-append buf more i h) ∙ (ap (λ (l : List ℕ). get_elem? l i) e ∙ at)

prefix-split :
    (buf more ys rest : List ℕ)
    → buf ++ more ≡ ys ++ rest
    → length ys ≤ length buf
    → buf ≡ ys ++ drop (length ys) buf
prefix-split buf more [] rest e h = refl
prefix-split [] more (y ∷ ys) rest e h = absurd (omega arith)
prefix-split (x ∷ buf) more (y ∷ ys) rest e h =
    let ih = prefix-split buf more ys rest (ground arith) (omega arith) in ground arith

hello_message-prefix :
    (buf more hello rest : List ℕ)
    → buf ++ more ≡ encode_record hello rest
    → 9 ≤ length buf
    → length buf < 9 + length hello
    → 9 + length hello ≤ max_client_hello_bytes
    → hello_message buf ≡ some need_more
unfolding hello_message
hello_message-prefix buf more hello rest e long short fits =
    let xs : List ℕ = encode_record hello rest in
    let n : ℕ = length hello in
    let whole : 65_536 * (n / 65_536) + 256 * (n / 256 % 256) + n % 256 ≡ n = omega arith in
    let b6 = prefix-get buf more xs 6 (n / 65_536) e refl (omega arith) in
    let b7 = prefix-get buf more xs 7 (n / 256 % 256) e refl (omega arith) in
    let b8 = prefix-get buf more xs 8 (n % 256) e refl (omega arith) in
    rw (b6, b7, b8) (ground (arith, whole))

parse-header :
    (buf more hello rest : List ℕ)
    → buf ++ more ≡ encode_record hello rest
    → 5 ≤ length buf
    → (get_elem? buf 0 ≡ some 0x16) × (u16_at buf 3 ≡ some (4 + length hello))
unfolding u16_at
parse-header buf more hello rest e long =
    let xs : List ℕ = encode_record hello rest in
    let n : ℕ = length hello in
    let b3 = prefix-get buf more xs 3 ((4 + n) / 256) e refl (omega arith) in
    let b4 = prefix-get buf more xs 4 ((4 + n) % 256) e refl (omega arith) in
    (prefix-get buf more xs 0 0x16 e refl (omega arith), ground (arith, b3, b4))

-- Every proper prefix of a record asks for more bytes.
pub parse-prefix :
    (buf more hello rest : List ℕ)
    → buf ++ more ≡ encode_record hello rest
    → length buf < 9 + length hello
    → 9 + length hello ≤ max_client_hello_bytes
    → parse_client_hello_sni buf ≡ some need_more
unfolding parse_client_hello_sni
parse-prefix buf more hello rest e short fits = elim (Bool-cases (leb 9 (length buf))) [
  | inl long ↦
      let (b0, len) =
        parse-header buf more hello rest e (omega (arith, leb→le 9 (length buf) long)) in
      let b5 =
        prefix-get buf more (encode_record hello rest) 5 1 e refl
          (omega (arith, leb→le 9 (length buf) long)) in
      ground (
        arith,
        b0,
        len,
        b5,
        hello_message-prefix buf more hello rest e (leb→le 9 (length buf) long) short fits,
      )
  | inr not_long ↦ ground (arith, parse-header buf more hello rest e)
]

-- A buffer that holds the whole record gives the name.
pub parse_complete :
    (h : Hello) (buf more rest : List ℕ)
    → IsWellFormed h
    → buf ++ more ≡ encode_record (encode_hello h) rest
    → 9 + length (encode_hello h) ≤ length buf
    → parse_client_hello_sni buf ≡ some (sni (to_ascii_lowercase h.name))
parse_complete h buf more rest w e long =
    let hello : List ℕ = encode_hello h in
    let left : List ℕ = drop (length (encode_record hello [])) buf in
    let same : encode_record hello rest ≡ encode_record hello [] ++ rest =
      ground (arith, append-nil hello) in
    let size : length (encode_record hello []) ≡ 9 + length hello =
      omega (arith, length-append hello []) in
    let split : buf ≡ encode_record hello [] ++ left =
      prefix-split buf more (encode_record hello []) rest (e ∙ same) (omega arith) in
    let whole : buf ≡ encode_record hello left = ground (arith, append-nil hello) in
    rw whole (parse-encode h left w)

-- The bytes of the reads, in order.
