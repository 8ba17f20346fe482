-- ===== src/Validation/Compile/Guards.antt =====
-- config/validate.rs: the prefix and the guard of the terminals of a handle block.
use raddy.Base.{
  ℕ, List, [], ◌∷◌, ◌++◌, Option, none, some, Bool, true, false, ◌≡◌, ◌≢◌, ◌⊎◌, inl, inr, refl, ap,
  All,
}
use raddy.Config.Source.{
  Directives, Matcher, path_is, host_is, method_is, header_is, query_is, remote_ip_in, protocol_is,
  negation,
}
use raddy.Validation.Compile.{Modifier, Terminal, users_modifier, basic_auth_modifier, first_path}
use raddy.Validation.Compile.Order.{IsInside, users_of, compile_handle_block-IsInside}
use raddy.Validation.Compile.Scopes.{strip_of, compile_handle_block}
use raddy.Values.{Text, Result, ok}
use raddy.Values.Addresses.{SocketAddr}

-- A matcher that is not one of a path.
abbrev pub IsNoPath : Matcher → Type 0
IsNoPath m = (path : Text) → m ≢ path_is path

-- The prefix that a block strips: that of its first path, where it strips one and has a path.
pub data Strips (matcher : List Matcher) : Bool → Option Text → Type 0 where
  keeps_all : Strips matcher false none
  no_path : All IsNoPath matcher → Strips matcher true none
  path_stripped :
      (front back : List Matcher) (path : Text)
      → matcher ≡ front ++ (path_is path ∷ back)
      → All IsNoPath front
      → Strips matcher true (some path)

-- The modifiers have the guard with these users.
abbrev pub HasGuard : List (Text × Text) → List Modifier → Type 0
HasGuard users modifiers =
    (front : List Modifier) × (back : List Modifier) × (modifiers
      ≡ front ++ (basic_auth_modifier users ∷ back))

-- What a terminal of a block has: the block's matchers first, its prefix, and the guard of all its users.
pub record IsGuarded {X509 PKey : Type 0} (matcher : List Matcher) (strip : Bool)
    (users : List (Text × Text)) (t : Terminal X509 PKey) : Type 0 where
  pub rest : List Matcher
  pub matched : t.matchers ≡ matcher ++ rest
  pub stripped : Strips matcher strip t.strip_prefix
  pub guard : (users ≡ []) ⊎ HasGuard users t.modifiers

Strips-cons :
    (m : Matcher) (matcher : List Matcher) (r : Option Text)
    → IsNoPath m
    → Strips matcher true r
    → Strips (m ∷ matcher) true r
Strips-cons m matcher none other (no_path others) = no_path (other, others)
Strips-cons m matcher (some p) other (path_stripped front back path split before) =
    path_stripped (m ∷ front) back path (ap (λ l. m ∷ l) split) (other, before)

first_path-Strips : (matcher : List Matcher) → Strips matcher true (first_path matcher)
unfolding first_path
first_path-Strips [] = no_path tt
first_path-Strips (path_is path ∷ matcher) = path_stripped [] matcher path refl tt
first_path-Strips (host_is h ∷ matcher) =
    Strips-cons _ matcher (first_path matcher) (λ path same. absurd cc) (first_path-Strips matcher)
first_path-Strips (method_is m ∷ matcher) =
    Strips-cons _ matcher (first_path matcher) (λ path same. absurd cc) (first_path-Strips matcher)
first_path-Strips (header_is n v ∷ matcher) =
    Strips-cons _ matcher (first_path matcher) (λ path same. absurd cc) (first_path-Strips matcher)
first_path-Strips (query_is k v ∷ matcher) =
    Strips-cons _ matcher (first_path matcher) (λ path same. absurd cc) (first_path-Strips matcher)
first_path-Strips (remote_ip_in ns ∷ matcher) =
    Strips-cons _ matcher (first_path matcher) (λ path same. absurd cc) (first_path-Strips matcher)
first_path-Strips (protocol_is p ∷ matcher) =
    Strips-cons _ matcher (first_path matcher) (λ path same. absurd cc) (first_path-Strips matcher)
first_path-Strips (negation m ∷ matcher) =
    Strips-cons _ matcher (first_path matcher) (λ path same. absurd cc) (first_path-Strips matcher)

strip_of-Strips :
    (strip : Bool) (matcher : List Matcher) → Strips matcher strip (strip_of strip matcher)
strip_of-Strips true matcher = first_path-Strips matcher
strip_of-Strips false matcher = keeps_all

users_modifier-HasGuard :
    (users : List (Text × Text)) (front back : List Modifier)
    → (users ≡ []) ⊎ HasGuard users (front ++ (users_modifier users ++ back))
users_modifier-HasGuard [] front back = inl refl
users_modifier-HasGuard (u ∷ users) front back = inr (front, back, refl)

module _ {X509 : Type 0} {PKey : Type 0} where
  IsInside-IsGuarded :
      (matcher : List Matcher) (strip : Bool) (users : List (Text × Text)) (t : Terminal X509 PKey)
      → IsInside matcher (strip_of strip matcher) users t
      → IsGuarded matcher strip users t
  IsInside-IsGuarded matcher strip users t v = record {
    rest = v.rest;
    matched = v.matched;
    stripped = rw v.stripped (strip_of-Strips strip matcher);
    guard = rw v.guarded (users_modifier-HasGuard users v.front v.back);
  }

  All-IsGuarded :
      (matcher : List Matcher) (strip : Bool) (users : List (Text × Text))
      (terminals : List (Terminal X509 PKey))
      → All (IsInside matcher (strip_of strip matcher) users) terminals
      → All (IsGuarded matcher strip users) terminals
  All-IsGuarded matcher strip users [] v = tt
  All-IsGuarded matcher strip users (t ∷ terminals) v = (
    IsInside-IsGuarded matcher strip users t v.0,
    All-IsGuarded matcher strip users terminals v.1,
  )

module _ {X509 : Type 0} {PKey : Type 0} (read_to_string : Text → Result Text)
    (stack_from_pem : Text → Result (List X509)) (private_key_from_pem : Text → Result PKey)
    (resolver : Text → ℕ → Result (List SocketAddr)) (print_number : ℕ → Text) where
  -- Where a handle block compiles, each of its terminals begins with the matchers of the block
  -- and strips the prefix that the block strips: that of the first path among its matchers if it
  -- is a block that strips one and has a path, and none otherwise. And where the block names
  -- users, wherever in the block that is, the modifiers of the terminal have the guard with all
  -- these users in order.
  pub compile_handle_block-IsGuarded :
      (matcher : List Matcher) (strip : Bool) (ds : Directives) (result : List (Terminal X509 PKey))
      → compile_handle_block read_to_string stack_from_pem private_key_from_pem resolver
          print_number matcher strip ds
        ≡ ok result
      → All (IsGuarded matcher strip (users_of ds)) result
  compile_handle_block-IsGuarded matcher strip ds result h =
      All-IsGuarded matcher strip (users_of ds) result (
        compile_handle_block-IsInside read_to_string stack_from_pem private_key_from_pem resolver
          print_number matcher strip ds result h)
