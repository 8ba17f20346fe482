-- ===== src/Compression/Entries.antt =====
-- proxy/compress.rs: the entries of an Accept-Encoding header.
use raddy.Base.{
  ℕ, ◌≡◌, ◌≢◌, refl, subst, List, [], ◌∷◌, Option, none, some, Bool, true, false, inl, inr,
  Bool-cases, Option-cases,
}
use raddy.Base.Ascii.{to_ascii_lowercase}
use raddy.ByteRange.{trim}
use raddy.Config.Wildcard.{is_empty, strip_prefix}
use raddy.Compression.{
  split, Entry, weight, parse_q, weight_of, entry_of, parse_entry, parse_entries,
  parse_accept_encoding,
}
use raddy.Compression.Header.{
  Parts, Cut, uncut, HasValue, split-Parts, Cut-split_once, strip_prefix-two, two-strip_prefix,
}

is_empty-nil : (text : List ℕ) → is_empty text ≡ true → text ≡ []
is_empty-nil [] h = refl
is_empty-nil (c ∷ text) h = absurd cc

is_empty-cons : (text : List ℕ) → is_empty text ≡ false → text ≢ []
is_empty-cons text h e = let empty : is_empty text ≡ true = rw e refl in cc

module _ (F : Type 0) (one : F) (is_positive : F → Bool) (parse_f32 : List ℕ → Option F) where
  -- The weight of a part: what its parameter says where that can be read, and otherwise one.
  pub data Weighed : Option (List ℕ) → F → Type 0 where
    no_parameter : Weighed none one
    given :
        (rest value : List ℕ) (q : F)
        → HasValue rest value
        → parse_f32 (trim value) ≡ some q
        → Weighed (some rest) q
    unreadable :
        (rest value : List ℕ)
        → HasValue rest value
        → parse_f32 (trim value) ≡ none
        → Weighed (some rest) one
    no_weight :
        (rest : List ℕ) → ((value : List ℕ) → HasValue rest value → ⊥) → Weighed (some rest) one

  -- What a part says: nothing without a name, and otherwise its name in lower case and its weight.
  pub data Reads (part : List ℕ) : Option (Entry F one is_positive parse_f32) → Type 0 where
    nameless :
        (name : List ℕ) (rest : Option (List ℕ))
        → Cut (trim part) name rest
        → trim name ≡ []
        → Reads part none
    named_part :
        (name : List ℕ) (rest : Option (List ℕ)) (q : F)
        → Cut (trim part) name rest
        → trim name ≢ []
        → Weighed rest q
        → Reads part (some (record { name = to_ascii_lowercase (trim name); q = q }))

  abbrev pub listed :
      Option (Entry F one is_positive parse_f32)
      → List (Entry F one is_positive parse_f32)
      → List (Entry F one is_positive parse_f32)
  listed none entries = entries
  listed (some entry) entries = entry ∷ entries

  pub data Entries : List (List ℕ) → List (Entry F one is_positive parse_f32) → Type 0 where
    no_part : Entries [] []
    first_part :
        (part : List ℕ) (parts : List (List ℕ)) (r : Option (Entry F one is_positive parse_f32))
        (entries : List (Entry F one is_positive parse_f32))
        → Reads part r
        → Entries parts entries
        → Entries (part ∷ parts) (listed r entries)

  -- What a header says, part by part.
  abbrev pub Describes : List ℕ → List (Entry F one is_positive parse_f32) → Type 0
  Describes header entries = (parts : List (List ℕ)) × Parts header parts × Entries parts entries

  weight-Weighed :
      (rest value : List ℕ)
      → HasValue rest value
      → Weighed (some rest) (weight F one is_positive parse_f32 (some value))
  weight-Weighed rest value has = elim (Option-cases (parse_f32 (trim value))) [
    | inl unread ↦ rw (unread, weight) (unreadable rest value has unread)
    | inr (q, there) ↦ rw (there, weight) (given rest value q has there)
  ]

  parse_q-Weighed : (rest : List ℕ) → Weighed (some rest) (parse_q F one is_positive parse_f32 rest)
  unfolding parse_q
  parse_q-Weighed rest = elim (Option-cases (strip_prefix (b'q' ∷ b'=' ∷ []) (trim rest))) [
    | inr (v, low) ↦
        rw (low, parse_q)
          (weight-Weighed rest v (inl (strip_prefix-two b'q' b'=' (trim rest) v low)))
    | inl no_low ↦ elim (Option-cases (strip_prefix (b'Q' ∷ b'=' ∷ []) (trim rest))) [
      | inr (v, high) ↦
          rw (no_low, parse_q)
            (rw high (weight-Weighed rest v (inr (strip_prefix-two b'Q' b'=' (trim rest) v high))))
      | inl no_high ↦
          rw (no_low, parse_q)
            (rw no_high (
              no_weight rest (λ v has. elim has [
                | inl e ↦
                    absurd
                      (let h = rw e at no_low in let there = two-strip_prefix b'q' b'=' v in cc)
                | inr e ↦
                    absurd
                      (let h = rw e at no_high in let there = two-strip_prefix b'Q' b'=' v in cc)
              ])))
    ]
  ]

  weight_of-Weighed :
      (rest : Option (List ℕ)) → Weighed rest (weight_of F one is_positive parse_f32 rest)
  weight_of-Weighed none = no_parameter
  weight_of-Weighed (some rest) = parse_q-Weighed rest

  entry_of-Reads :
      (part name : List ℕ) (rest : Option (List ℕ))
      → Cut (trim part) name rest
      → Reads part (entry_of F one is_positive parse_f32 name rest)
  entry_of-Reads part name rest at = elim (Bool-cases (is_empty (trim name))) [
    | inl blank ↦ rw blank (nameless name rest at (is_empty-nil (trim name) blank))
    | inr present ↦ rw present (
        named_part name rest (weight_of F one is_positive parse_f32 rest) at
          (is_empty-cons (trim name) present) (weight_of-Weighed rest))
  ]

  trim_nil : (text : List ℕ) → text ≡ [] → trim text ≡ []
  unfolding trim
  trim_nil text e = rw e refl

  parse_entry-Reads : (part : List ℕ) → Reads part (parse_entry F one is_positive parse_f32 part)
  unfolding parse_entry
  parse_entry-Reads part = elim (Bool-cases (is_empty (trim part))) [
    | inl blank ↦
        let nothing = is_empty-nil (trim part) blank in
        rw (blank, parse_entry)
          (nameless (trim part) none (uncut (rw nothing refl)) (trim_nil (trim part) nothing))
    | inr present ↦ elim (Cut-split_once (trim part)) [
      | inl (bare, at) ↦
          rw (present, parse_entry) (rw bare (entry_of-Reads part (trim part) none at))
      | inr (name, rest, there, at) ↦
          rw (present, parse_entry) (rw there (entry_of-Reads part name (some rest) at))
    ]
  ]

  parse_entries-Entries :
      (parts : List (List ℕ)) → Entries parts (parse_entries F one is_positive parse_f32 parts)
  unfolding parse_entries
  parse_entries-Entries [] = no_part
  parse_entries-Entries (part ∷ parts) =
      let reads = parse_entry-Reads part in
      let others = parse_entries-Entries parts in
      elim (Option-cases (parse_entry F one is_positive parse_f32 part)) [
        | inl nothing ↦
            rw (nothing, parse_entries)
              (first_part part parts none (parse_entries F one is_positive parse_f32 parts)
                (subst (Reads part) nothing reads) others)
        | inr (entry, there) ↦
            rw (there, parse_entries)
              (first_part part parts (some entry) (parse_entries F one is_positive parse_f32 parts)
                (subst (Reads part) there reads) others)
      ]

  pub parse_accept_encoding-Describes :
      (header : List ℕ)
      → Describes header (parse_accept_encoding F one is_positive parse_f32 header)
  unfolding parse_accept_encoding
  parse_accept_encoding-Describes header =
      (split b',' header, split-Parts header, parse_entries-Entries (split b',' header))
