-- ===== src/ClientHello.antt =====
-- layer4/tls.rs: the server name in a TLS ClientHello. Bytes are numbers. `none` is a panic: an index
-- or a slice out of bounds, or a loop that runs out of fuel.
pub mod Total
pub mod Cursor
pub mod RoundTrip
pub mod Prefix
pub mod Reading
mod Tests
use raddy.Base.{
  ◌>>=◌, ℕ, zero, suc, ◌+◌, ◌*◌, ◌-◌, ◌%◌, List, [], ◌∷◌, ◌++◌, map, Option, none, some, Bool, true,
  false, ◌&&◌, if◌then◌else◌, ltb, leb, ◌==◌, not, length, get_elem?, take, drop,
}
use raddy.Base.Ascii.{is_utf8, to_ascii_lowercase}

abbrev pub max_client_hello_bytes : ℕ
max_client_hello_bytes = 65_536

pub data ParseOutcome : Type 0 where
  sni : List ℕ → ParseOutcome
  no_sni need_more malformed : ParseOutcome

-- `&buf[i..j]`.
pub slice : List ℕ → ℕ → ℕ → Option (List ℕ)
slice buf i j = if leb i j && leb j (length buf) then some (take (j - i) (drop i buf)) else none

-- `u16::from_be_bytes([buf[i], buf[i + 1]])`.
pub u16_at : List ℕ → ℕ → Option ℕ
u16_at buf i = do hi ← get_elem? buf i; lo ← get_elem? buf (i + 1); some (256 * hi + lo)

-- One entry of a name list; `again` goes on behind it.
name_entry : List ℕ → ℕ → (ℕ → Option ParseOutcome) → Option ParseOutcome
name_entry list i again = do
  name_type ← get_elem? list i
  name_len ← u16_at list (i + 1)
  if ltb (length list) (i + 3 + name_len)
      then some malformed
      else if name_type == 0
      then (do
        name ← slice list (i + 3) (i + 3 + name_len)
        if is_utf8 name then some (sni (to_ascii_lowercase name)) else some malformed)
      else again (i + 3 + name_len)

-- The loop over the entries; `i + 3 <= list.len()` is its test.
name_entries : ℕ → List ℕ → ℕ → Option ParseOutcome
name_entries zero list i = none
name_entries (suc fuel) list i =
    if leb (i + 3) (length list) then name_entry list i (name_entries fuel list) else some no_sni

-- `data.get(2..2 + list_len)` is checked: out of bounds is malformed, and no panic.
name_list : Option (List ℕ) → Option ParseOutcome
name_list none = some malformed
name_list (some list) = name_entries (suc (length list)) list 0

pub parse_server_name : List ℕ → Option ParseOutcome
parse_server_name data_bytes =
    if ltb (length data_bytes) 2
    then some malformed
    else (do list_len ← u16_at data_bytes 0; name_list (slice data_bytes 2 (2 + list_len)))

-- One extension; `again` goes on behind it.
extension : List ℕ → ℕ → ℕ → (ℕ → Option ParseOutcome) → Option ParseOutcome
extension hello ext_end i again = do
  ext_type ← u16_at hello i
  len ← u16_at hello (i + 2)
  if ltb ext_end (i + 4 + len)
      then some malformed
      else if ext_type == 0
      then (do payload ← slice hello (i + 4) (i + 4 + len); parse_server_name payload)
      else again (i + 4 + len)

-- The loop over the extensions; `i + 4 <= ext_end` is its test.
extensions_from : ℕ → List ℕ → ℕ → ℕ → Option ParseOutcome
extensions_from zero hello ext_end i = none
extensions_from (suc fuel) hello ext_end i =
    if leb (i + 4) ext_end
    then extension hello ext_end i (extensions_from fuel hello ext_end)
    else some no_sni

extensions : List ℕ → ℕ → Option ParseOutcome
extensions hello i = if ltb (length hello) (i + 2) then some no_sni else (do
  ext_len ← u16_at hello i
  if ltb (length hello) (i + 2 + ext_len)
      then some malformed
      else extensions_from (suc (length hello)) hello (i + 2 + ext_len) (i + 2))

compression_methods : List ℕ → ℕ → Option ParseOutcome
compression_methods hello i = if ltb (length hello) (i + 1) then some malformed else (do
  cm_len ← get_elem? hello i
  if ltb (length hello) (i + 1 + cm_len) then some malformed else extensions hello (i + 1 + cm_len))

cipher_suites : List ℕ → ℕ → Option ParseOutcome
cipher_suites hello i = if ltb (length hello) (i + 2) then some malformed else (do
  cs_len ← u16_at hello i
  if ltb (length hello) (i + 2 + cs_len)
      then some malformed
      else compression_methods hello (i + 2 + cs_len))

session_id : List ℕ → ℕ → Option ParseOutcome
session_id hello i = if ltb (length hello) (i + 1) then some malformed else (do
  sid_len ← get_elem? hello i
  if ltb (length hello) (i + 1 + sid_len)
      then some malformed
      else cipher_suites hello (i + 1 + sid_len))

pub parse_hello : List ℕ → Option ParseOutcome
parse_hello hello = if ltb (length hello) 34 then some malformed else session_id hello 34

-- `hello_len` and the message behind it.
hello_message : List ℕ → Option ParseOutcome
hello_message buf = do
  b6 ← get_elem? buf 6
  b7 ← get_elem? buf 7
  b8 ← get_elem? buf 8
  let total = 5 + 4 + (65_536 * b6 + 256 * b7 + b8)
  if ltb (length buf) total
      then (if ltb max_client_hello_bytes total then some malformed else some need_more)
      else (do hello ← slice buf 9 total; parse_hello hello)

pub parse_client_hello_sni : List ℕ → Option ParseOutcome
parse_client_hello_sni buf = if ltb (length buf) 5 then some need_more else (do
  content_type ← get_elem? buf 0
  if not (content_type == 0x16) then some malformed else (do
    record_len ← u16_at buf 3
    if ltb max_client_hello_bytes record_len
        then some malformed
        else if ltb (length buf) (5 + 4)
        then some need_more
        else (do
          handshake ← get_elem? buf 5
          if not (handshake == 0x01) then some malformed else hello_message buf)))

-- The results of the reads, in order; where the list ends, the next read times out.
pub data Read : Type 0 where
  bytes : List ℕ → Read
  eof error timeout : Read

pub data InspectOutcome : Type 0 where
  sni_found : (name buffered : List ℕ) → InspectOutcome
  no_sni_found malformed_hello : (buffered : List ℕ) → InspectOutcome

-- What a round of the loop returns, or `more` where it reads on.
abbrev pub decide : ParseOutcome → List ℕ → ℕ → Option InspectOutcome → Option InspectOutcome
decide (sni name) buf max_bytes more = some (sni_found name buf)
decide no_sni buf max_bytes more = some (no_sni_found buf)
decide malformed buf max_bytes more = some (malformed_hello buf)
decide need_more buf max_bytes more =
    if leb max_bytes (length buf) then some (malformed_hello buf) else more

pub inspect : List ℕ → ℕ → Option InspectOutcome → Option InspectOutcome
inspect buf max_bytes more = do
  outcome ← parse_client_hello_sni buf
  decide outcome buf max_bytes more

-- A read of no bytes is the end of the stream.
pub read_from : List Read → List ℕ → ℕ → Option InspectOutcome
unfolding inspect parse_client_hello_sni
read_from [] buf max_bytes = inspect buf max_bytes (some (malformed_hello buf))
read_from (bytes [] ∷ reads) buf max_bytes = inspect buf max_bytes (some (malformed_hello buf))
read_from (bytes (b ∷ chunk) ∷ reads) buf max_bytes =
    let rest = read_from reads (buf ++ b ∷ chunk) max_bytes in inspect buf max_bytes rest
read_from (failure ∷ reads) buf max_bytes = inspect buf max_bytes (some (malformed_hello buf))

pub read_client_hello : List Read → ℕ → Option InspectOutcome
unfolding read_from
read_client_hello reads max_bytes = read_from reads [] max_bytes
