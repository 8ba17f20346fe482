-- ===== src/Compression.antt =====
-- proxy/compress.rs: the encoding of a response (`choose`). The `f32` weights and their parser are
-- parameters; a header is its text, where it has only visible ASCII.
pub mod Header
pub mod Entries
pub mod First
pub mod Encoders
mod Tests
use raddy.Base.{ℕ, List, [], ◌∷◌, Option, none, some, Bool, true, false, if◌then◌else◌, ◌==◌}
use raddy.Base.Ascii.{to_ascii_lowercase}
use raddy.Config.Wildcard.{text_eq, is_empty, strip_prefix}
use raddy.ByteRange.{trim, split_once}

pub data Encoding : Type 0 where
  gzip zstd brotli : Encoding

pub data Algo : Type 0 where
  gzip_algo zstd_algo brotli_algo : Algo

abbrev pub token : Algo → List ℕ
token gzip_algo = b'g' ∷ b'z' ∷ b'i' ∷ b'p' ∷ []
token zstd_algo = b'z' ∷ b's' ∷ b't' ∷ b'd' ∷ []
token brotli_algo = b'b' ∷ b'r' ∷ []

abbrev pub algo_of : Encoding → Algo
algo_of gzip = gzip_algo
algo_of zstd = zstd_algo
algo_of brotli = brotli_algo

abbrev pub star : List ℕ
star = b'*' ∷ []

abbrev pub put_front : ℕ → List (List ℕ) → List (List ℕ)
put_front c [] = (c ∷ []) ∷ []
put_front c (part ∷ parts) = (c ∷ part) ∷ parts

-- `split`.
unfoldable pub split : ℕ → List ℕ → List (List ℕ)
split b [] = [] ∷ []
split b (c ∷ text) = let rest = split b text in if c == b then [] ∷ rest else put_front c rest

-- `or_else` on an option.
abbrev pub or_else : Option (List ℕ) → Option (List ℕ) → Option (List ℕ)
or_else none other = other
or_else (some a) other = some a

module _ (F : Type 0) (one : F) (is_positive : F → Bool) (parse_f32 : List ℕ → Option F) where
  pub record Entry : Type 0 where
    pub name : List ℕ
    pub q : F

  abbrev pub weight : Option (List ℕ) → F
  weight none = one
  weight (some v) = elim (parse_f32 (trim v)) [ none ↦ one | some q ↦ q ]

  unfoldable pub parse_q : List ℕ → F
  unfolding trim strip_prefix
  parse_q rest = weight (
      or_else (strip_prefix (b'q' ∷ b'=' ∷ []) (trim rest))
        (strip_prefix (b'Q' ∷ b'=' ∷ []) (trim rest)))

  abbrev pub weight_of : Option (List ℕ) → F
  weight_of none = one
  weight_of (some rest) = parse_q rest

  abbrev pub entry_of : List ℕ → Option (List ℕ) → Option Entry
  entry_of name rest =
      if is_empty (trim name)
      then none
      else some (record { name = to_ascii_lowercase (trim name); q = weight_of rest })

  abbrev pub entry_parts : List ℕ → Option (List ℕ × List ℕ) → Option Entry
  entry_parts text none = entry_of text none
  entry_parts text (some (name, rest)) = entry_of name (some rest)

  -- One part of the header.
  unfoldable pub parse_entry : List ℕ → Option Entry
  unfolding split_once
  parse_entry part =
      if is_empty (trim part) then none else entry_parts (trim part) (split_once b';' (trim part))

  -- `filter_map`.
  unfoldable pub parse_entries : List (List ℕ) → List Entry
  parse_entries [] = []
  parse_entries (part ∷ parts) = elim (parse_entry part) [
    | none ↦ parse_entries parts
    | some entry ↦ entry ∷ parse_entries parts
  ]

  unfoldable pub parse_accept_encoding : List ℕ → List Entry
  unfolding split
  parse_accept_encoding header = parse_entries (split b',' header)

  unfoldable pub find_entry : List ℕ → List Entry → Option Entry
  find_entry name [] = none
  find_entry name (entry ∷ entries) =
      if text_eq entry.name name then some entry else find_entry name entries

  unfoldable pub accepted : List Entry → List ℕ → Bool
  accepted entries name = elim (find_entry name entries) [
    | some entry ↦ is_positive entry.q
    | none ↦ elim (find_entry star entries) [ some entry ↦ is_positive entry.q | none ↦ false ]
  ]

  -- The loop over the configured encodings.
  unfoldable pub choose_from : List Entry → List Encoding → Option Algo
  choose_from entries [] = none
  choose_from entries (enc ∷ encode) = elim (accepted entries (token (algo_of enc))) [
    | true ↦ some (algo_of enc)
    | false ↦ choose_from entries encode
  ]

  unfoldable pub choose : List Encoding → Option (Option (List ℕ)) → Option Algo
  choose [] accept_encoding = none
  choose (enc ∷ encode) none = none
  choose (enc ∷ encode) (some none) = none
  choose (enc ∷ encode) (some (some header)) =
      choose_from (parse_accept_encoding header) (enc ∷ encode)
