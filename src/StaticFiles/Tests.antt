-- ===== src/StaticFiles/Tests.antt =====
-- proxy/fs.rs: files of a small file system. The root is `/www`; its file `a` has three bytes, `d` is a
-- directory, whose `index.html` is one too, and `x` is a link to `/etc/x`.
use raddy.Base.{
  ℕ, ◌+◌, ◌≡◌, ◌↔◌, refl, subst, List, [], ◌∷◌, ◌++◌, Option, none, some, Bool, true, ltb, ◌||◌,
  if◌then◌else◌,
}
use raddy.Base.Ascii.{lower, is_ascii_uppercase}
use raddy.ByteRange.{
  bytes_unit, parse_range, parse_u64, parse_digits, split_once, stream, trim, trim_start, trim_end,
  sent, Streamed,
}
use raddy.Compression.{Encoding, gzip, split, choose}
use raddy.Compression.Encoders.{Codec}
use raddy.Config.Wildcard.{text_eq, text_eq-≡}
use raddy.Values.{Text, codes, is}
use raddy.StaticFiles.{
  resolve, named, later_components, components, is_prefix, path_starts_with, same_component,
  needs_separator, join, trim_slashes,
}
use raddy.StaticFiles.Answers.{Answers}
use raddy.StaticFiles.Head.{header_of, heads, gets, serve-heads}
use raddy.StaticFiles.Headers.{
  Session, get, header_field, same_name, insert_header, remove_header, get_all,
  merge_vary_accept_encoding, vary_token, vary_tokens, vary_values, join_tokens, apply_header_down,
}
use raddy.StaticFiles.Reply.{
  Disk, Opened, Library, Reply, headers_only, with_body, respond_error, serve, bytes_written,
  respond_range, respond_plan, own_headers, algo_for,
}
use raddy.StaticFiles.Served.{HasPlainIndexes, IsServed, resolve-IsServed}

abbrev canonicalize : Text → Option Text
canonicalize path = if is "/www/x" path then some (codes "/etc/x") else some path

abbrev is_dir : Text → Bool
is_dir path = is "/www/d" path || is "/www/d/index.html" path

abbrev opened : Opened
opened = record { size = some 3; contents = 1 ∷ 2 ∷ 3 ∷ []; reads = 2 ∷ [] }

abbrev disk : Disk
disk = record {
  canonicalize = canonicalize;
  is_dir = is_dir;
  metadata = λ file. some 3;
  open_file = λ file. some opened;
}

-- A codec that keeps the bytes.
abbrev codec : Codec Text
codec = record {
  new = λ algo. some [];
  write_all = λ e chunk. some (e ++ chunk);
  flush = some;
  finish = some;
  take_output = λ e. (e, []);
}

abbrev lib : Library ℕ Text
lib = record {
  one = 1;
  is_positive = λ n. ltb 0 n;
  parse_f32 = λ text. none;
  codec = codec;
  http = record { is_name = λ n. true; is_value = λ v. true; is_visible = λ v. true };
  mime = λ file. codes "text/plain";
  print_number = λ n. (b'0' + n) ∷ [];
}

abbrev session : Session
session = record {
  method = get;
  host_field = none;
  authority = none;
  path_and_query = none;
  path = codes "/a";
  client_ip = none;
  range = some (some (bytes_unit ++ codes "1-2"));
  accept_encoding = none;
}

abbrev encode : List Encoding
encode = gzip ∷ []

runs : Unit {0}
unfolding resolve named later_components components is_prefix path_starts_with same_component
    needs_separator join trim_slashes split text_eq parse_range parse_u64 parse_digits split_once
    stream trim trim_start trim_end lower is_ascii_uppercase header_field same_name insert_header
    remove_header get_all merge_vary_accept_encoding vary_token vary_tokens vary_values join_tokens
    apply_header_down serve respond_range respond_plan own_headers algo_for choose
runs = tt

-- Parents, hidden names and links out of the root are refused.
refused_test :
    (resolve canonicalize is_dir (codes "/www") (codes "/a/../b") ≡ none)
    × (resolve canonicalize is_dir (codes "/www") (codes "/.env") ≡ none)
    × (resolve canonicalize is_dir (codes "/www") (codes "/x") ≡ none)
    × (resolve canonicalize is_dir (codes "/www") (codes "//.well-known/a")
        ≡ some (codes "/www/.well-known/a"))
unfolding runs
refused_test = (refl, refl, refl, refl)

-- The index of a directory is served, also where it is a directory.
index_directory :
    (resolve canonicalize is_dir (codes "/www") (codes "/d") ≡ some (codes "/www/d/index.html"))
    × (is_dir (codes "/www/d/index.html") ≡ true)
unfolding runs
index_directory = (refl, refl)

abbrev vary_of : Reply → Option Text
unfolding header_field
vary_of (respond_error code) = none
vary_of (headers_only response) = header_field (codes "Vary") response.headers
vary_of (with_body response body) = header_field (codes "Vary") response.headers

abbrev sends : Reply → Option Streamed
sends (with_body response body) = some body
sends _ = none

-- `bytes=1-2` gives two bytes.
part_test :
    let reply = serve lib disk (codes "/www") (codes "/a") encode [] session in
    (sends reply ≡ some (sent ((2 ∷ 3 ∷ [], true) ∷ []))) × (bytes_written reply ≡ 2)
unfolding runs
part_test = (refl, refl)

abbrev whole : Session
whole = record session { range = none }

-- With an encoding configured, a get varies and the request for its head does not.
head_without_vary :
    (vary_of (serve lib disk (codes "/www") (codes "/a") encode [] (gets whole))
      ≡ some (codes "Accept-Encoding"))
    × (vary_of (serve lib disk (codes "/www") (codes "/a") encode [] (heads whole)) ≡ none)
unfolding runs
head_without_vary = (refl, refl)

-- A directory with an index that is a file.
abbrev only_d : Text → Bool
only_d path = is "/www/d" path

only_d-HasPlainIndexes : HasPlainIndexes canonicalize only_d
unfolding join text_eq
only_d-HasPlainIndexes dir index there at =
    let named_d : dir ≡ codes "/www/d" = text_eq-≡ dir (codes "/www/d") there in
    let found : canonicalize (join (codes "/www/d") (codes "index.html")) ≡ some index =
      subst (λ d. canonicalize (join d (codes "index.html")) ≡ some index) named_d at in
    let is_it : some (codes "/www/d/index.html") ≡ some index = found in
    let same : codes "/www/d/index.html" ≡ index = cc in
    subst (λ p. only_d p ≡ Bool.false) same refl

resolve-IsServed_example :
    (resolve canonicalize only_d (codes "/www") (codes "/d") ≡ some (codes "/www/d/index.html"))
    ↔ IsServed canonicalize only_d (codes "/www") (codes "/d") (codes "/www/d/index.html")
resolve-IsServed_example =
    resolve-IsServed canonicalize only_d (codes "/www") (codes "/d") (codes "/www/d/index.html")
      only_d-HasPlainIndexes

serve-heads_example :
    serve lib disk (codes "/www") (codes "/a") encode [] (heads session)
    ≡ header_of (serve lib disk (codes "/www") (codes "/a") [] [] (gets session))
serve-heads_example =
    serve-heads lib disk (codes "/www") (codes "/a") encode [] session (λ file. refl)
