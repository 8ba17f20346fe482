-- ===== src/StaticFiles.antt =====
-- proxy/fs.rs: the file that a request path names (`resolve`). The file system is a parameter, and stays
-- the same during a request. A path is a text of Unix.
pub mod Segments
pub mod Served
pub mod Headers
pub mod Reply
pub mod Head
pub mod Fields
pub mod Answers
pub mod Plans
pub mod Sound
mod Tests
use raddy.Base.{
  ℕ, List, [], ◌∷◌, ◌++◌, Option, none, some, Bool, true, false, not, any, ◌&&◌, ◌==◌,
  if◌then◌else◌, ◌>>=◌,
}
use raddy.Compression.{split}
use raddy.Config.Wildcard.{text_eq, is_empty}
use raddy.Values.{Text, codes}

-- `std::path::Component`.
pub data Component : Type 0 where
  root_dir cur_dir parent_dir : Component
  normal : (name : Text) → Component

abbrev pub slash : ℕ
slash = b'/'

abbrev pub starts_dot : Text → Bool
starts_dot [] = false
starts_dot (c ∷ text) = c == b'.'

unfoldable pub same_component : Component → Component → Bool
unfolding text_eq
same_component root_dir root_dir = true
same_component cur_dir cur_dir = true
same_component parent_dir parent_dir = true
same_component (normal a) (normal b) = text_eq a b
same_component _ _ = false

-- The component of a name: an empty one and `.` have none.
unfoldable pub named : Text → List Component
unfolding text_eq
named name =
    if is_empty name
    then []
    else if text_eq name (codes ".")
    then []
    else if text_eq name (codes "..")
    then parent_dir ∷ []
    else normal name ∷ []

unfoldable pub later_components : List Text → List Component
unfolding named
later_components [] = []
later_components (name ∷ names) = named name ++ later_components names

-- Only the first name of a relative path can be `.`.
abbrev pub first_components : List Text → List Component
first_components [] = []
first_components (name ∷ names) =
    if text_eq name (codes ".")
    then cur_dir ∷ later_components names
    else later_components (name ∷ names)

-- `Path::components`.
unfoldable pub components : Text → List Component
unfolding split later_components
components [] = []
components (c ∷ path) =
    if c == slash
    then root_dir ∷ later_components (split slash path)
    else first_components (split slash (c ∷ path))

unfoldable pub is_prefix : List Component → List Component → Bool
unfolding same_component
is_prefix [] cs = true
is_prefix (b ∷ base) [] = false
is_prefix (b ∷ base) (c ∷ cs) = same_component b c && is_prefix base cs

-- `Path::starts_with`.
unfoldable pub path_starts_with : Text → Text → Bool
unfolding components is_prefix
path_starts_with path base = is_prefix (components base) (components path)

-- Whether a separator is due behind a path.
unfoldable pub needs_separator : Text → Bool
needs_separator [] = false
needs_separator (c ∷ []) = not (c == slash)
needs_separator (c ∷ d ∷ path) = needs_separator (d ∷ path)

-- `Path::join` with a relative path, which may be empty.
unfoldable pub join : Text → Text → Text
unfolding needs_separator
join base rel = if needs_separator base then base ++ slash ∷ rel else base ++ rel

-- `trim_start_matches('/')`.
unfoldable pub trim_slashes : Text → Text
trim_slashes [] = []
trim_slashes (c ∷ path) = elim (c == slash) [ true ↦ trim_slashes path | false ↦ c ∷ path ]

abbrev pub is_parent : Text → Bool
is_parent seg = text_eq seg (codes "..")

abbrev pub is_hidden : Text → Bool
is_hidden seg = not (is_empty seg) && starts_dot seg && not (text_eq seg (codes ".well-known"))

abbrev pub under_root : Text → Text → Option Text
under_root canonical_root path = if path_starts_with path canonical_root then some path else none

module _ (canonicalize : Text → Option Text) (is_dir : Text → Bool) where
  -- A directory stands for its index.
  abbrev pub file_or_index : Text → Text → Option Text
  file_or_index canonical_root canonical =
      if is_dir canonical
      then (canonicalize (join canonical (codes "index.html")) >>= under_root canonical_root)
      else some canonical

  unfoldable pub resolve : Text → Text → Option Text
  unfolding split text_eq trim_slashes join path_starts_with
  resolve root request_path =
      if any is_parent (split slash request_path)
      then none
      else if any is_hidden (split slash request_path)
      then none
      else do
        canonical_root ← canonicalize root
        candidate ← canonicalize (join root (trim_slashes request_path))
        canonical ← under_root canonical_root candidate
        file_or_index canonical_root canonical
