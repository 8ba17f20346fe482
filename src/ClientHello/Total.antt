-- ===== src/ClientHello/Total.antt =====
-- layer4/tls.rs: the parser and the reader return on every input, with no panic.
use raddy.Base.{
  ℕ, zero, suc, ◌+◌, ◌≤◌, ◌<◌, ◌≡◌, ◌≢◌, List, [], ◌∷◌, Option, none, arith, length, get_elem?, inl,
  inr, Option-cases, Bool-cases, leb, leb→le, get_elem?_of_lt, ◌*◌,
}
use raddy.ClientHello.{
  ParseOutcome, slice, u16_at, name_entry, name_entries, name_list, extension, parse_server_name,
  extensions_from, extensions, compression_methods, cipher_suites, session_id, parse_hello,
  hello_message, parse_client_hello_sni,
}

-- An index that panics is past the end.
pub get_elem?-none {ℓ} : {A : Type ℓ} (xs : List A) (i : ℕ) → get_elem? xs i ≡ none → length xs ≤ i
get_elem?-none [] i h = omega arith
get_elem?-none (x ∷ xs) zero h = absurd (cc)
get_elem?-none (x ∷ xs) (suc i) h = omega (arith, get_elem?-none xs i h)

pub u16_at-none : (xs : List ℕ) (i : ℕ) → u16_at xs i ≡ none → length xs ≤ i + 1
unfolding u16_at
u16_at-none xs i h = ground (arith, get_elem?-none xs i, get_elem?-none xs (i + 1))

pub slice-none : (xs : List ℕ) (i n : ℕ) → slice xs i (i + n) ≡ none → length xs < i + n
unfolding slice
slice-none xs i n h = ground arith

name_entry-total :
    (xs : List ℕ) (i : ℕ) (again : ℕ → Option ParseOutcome)
    → i + 3 ≤ length xs
    → ((j : ℕ) → i + 3 ≤ j → j ≤ length xs → again j ≢ none)
    → name_entry xs i again ≢ none
unfolding name_entry
name_entry-total xs i again h rest e = elim (Option-cases (u16_at xs (i + 1))) [
  | inl missing ↦ absurd (omega (arith, u16_at-none xs (i + 1) missing))
  | inr (n, len) ↦
      absurd (ground (arith, get_elem?-none xs i, slice-none xs (i + 3) n, rest (i + 3 + n)))
]

name_entries-total :
    (fuel : ℕ) (xs : List ℕ) (i : ℕ)
    → 0 < fuel
    → length xs < i + fuel
    → name_entries fuel xs i ≢ none
unfolding name_entries
name_entries-total zero xs i p h e = absurd (omega arith)
name_entries-total (suc fuel) xs i p h e = elim (Bool-cases (leb (i + 3) (length xs))) [
  | inl more ↦
      name_entry-total xs i (name_entries fuel xs) (leb→le (i + 3) (length xs) more)
        (λ j a b.
          name_entries-total fuel xs j (omega (arith, leb→le (i + 3) (length xs) more))
            (omega arith))
        (rw more at e)
  | inr done ↦ absurd (ground arith)
]

parse_server_name-total : (xs : List ℕ) → parse_server_name xs ≢ none
unfolding parse_server_name name_list
parse_server_name-total xs e = elim (Option-cases (u16_at xs 0)) [
  | inl missing ↦ absurd (ground (arith, u16_at-none xs 0))
  | inr (n, len) ↦ elim (Option-cases (slice xs 2 (2 + n))) [
    | inl short ↦ absurd (ground arith)
    | inr (list, there) ↦
        absurd (
          ground (arith, name_entries-total (suc (length list)) list 0 (omega arith) (omega arith)))
  ]
]

extension-total :
    (hello : List ℕ) (ext_end i : ℕ) (again : ℕ → Option ParseOutcome)
    → i + 4 ≤ ext_end
    → ext_end ≤ length hello
    → ((j : ℕ) → i + 4 ≤ j → j ≤ ext_end → again j ≢ none)
    → extension hello ext_end i again ≢ none
unfolding extension
extension-total hello ext_end i again h inside rest e = elim (Option-cases (u16_at hello (i + 2))) [
  | inl missing ↦ absurd (omega (arith, u16_at-none hello (i + 2) missing))
  | inr (n, len) ↦ elim (Option-cases (slice hello (i + 4) (i + 4 + n))) [
    | inl short ↦
        absurd (ground (arith, u16_at-none hello i, slice-none hello (i + 4) n, rest (i + 4 + n)))
    | inr (payload, there) ↦
        absurd
          (ground (arith, u16_at-none hello i, parse_server_name-total payload, rest (i + 4 + n)))
  ]
]

extensions_from-total :
    (fuel : ℕ) (hello : List ℕ) (ext_end i : ℕ)
    → 0 < fuel
    → ext_end < i + fuel
    → ext_end ≤ length hello
    → extensions_from fuel hello ext_end i ≢ none
unfolding extensions_from
extensions_from-total zero hello ext_end i p h inside e = absurd (omega arith)
extensions_from-total (suc fuel) hello ext_end i p h inside e =
    elim (Bool-cases (leb (i + 4) ext_end)) [
      | inl more ↦
          let le = leb→le (i + 4) ext_end more in
          extension-total hello ext_end i (extensions_from fuel hello ext_end) le inside
            (λ j a b. extensions_from-total fuel hello ext_end j (omega arith) (omega arith) inside)
            (rw more at e)
      | inr done ↦ absurd (ground arith)
    ]

extensions-total : (hello : List ℕ) (i : ℕ) → extensions hello i ≢ none
unfolding extensions
extensions-total hello i e = elim (Option-cases (u16_at hello i)) [
  | inl missing ↦ absurd (ground (arith, u16_at-none hello i))
  | inr (n, len) ↦
      absurd (ground (arith, extensions_from-total (suc (length hello)) hello (i + 2 + n) (i + 2)))
]

compression_methods-total : (hello : List ℕ) (i : ℕ) → compression_methods hello i ≢ none
unfolding compression_methods
compression_methods-total hello i e = elim (Option-cases (get_elem? hello i)) [
  | inl missing ↦ absurd (ground (arith, get_elem?-none hello i))
  | inr (n, len) ↦ absurd (ground (arith, extensions-total hello (i + 1 + n)))
]

cipher_suites-total : (hello : List ℕ) (i : ℕ) → cipher_suites hello i ≢ none
unfolding cipher_suites
cipher_suites-total hello i e = elim (Option-cases (u16_at hello i)) [
  | inl missing ↦ absurd (ground (arith, u16_at-none hello i))
  | inr (n, len) ↦ absurd (ground (arith, compression_methods-total hello (i + 2 + n)))
]

session_id-total : (hello : List ℕ) (i : ℕ) → session_id hello i ≢ none
unfolding session_id
session_id-total hello i e = elim (Option-cases (get_elem? hello i)) [
  | inl missing ↦ absurd (ground (arith, get_elem?-none hello i))
  | inr (n, len) ↦ absurd (ground (arith, cipher_suites-total hello (i + 1 + n)))
]

parse_hello-total : (hello : List ℕ) → parse_hello hello ≢ none
unfolding parse_hello
parse_hello-total hello = ground (arith, session_id-total hello 34)

hello_message-total : (buf : List ℕ) → 9 ≤ length buf → hello_message buf ≢ none
unfolding hello_message
hello_message-total buf h e =
    let (b6, e6) = get_elem?_of_lt buf 6 (omega arith) in
    let (b7, e7) = get_elem?_of_lt buf 7 (omega arith) in
    let (b8, e8) = get_elem?_of_lt buf 8 (omega arith) in
    let n : ℕ = 65_536 * b6 + 256 * b7 + b8 in
    elim (Option-cases (slice buf 9 (9 + n))) [
      | inl short ↦ absurd (ground (arith, slice-none buf 9 n short))
      | inr (hello, there) ↦ absurd (ground (arith, parse_hello-total hello))
    ]

-- On every buffer the parser returns an outcome: no index and no slice is out of bounds, and both
-- loops end within their fuel.
pub parse_client_hello_sni-total : (buf : List ℕ) → parse_client_hello_sni buf ≢ none
unfolding parse_client_hello_sni
parse_client_hello_sni-total buf =
    ground (
      arith,
      get_elem?-none buf 0,
      get_elem?-none buf 5,
      u16_at-none buf 3,
      hello_message-total buf,
    )
