-- ===== src/Compression/First.antt =====
-- proxy/compress.rs: the first encoding that the client accepts is chosen.
use raddy.Base.{
  ℕ, ◌≡◌, ◌≢◌, refl, sym, subst, false, ap, ◌∙◌, List, [], ◌∷◌, ◌++◌, Option, none, some, Bool,
  true, All, inl, inr, Bool-cases, Option-cases,
}
use raddy.Config.Wildcard.{text_eq, text_eq-≡, text_eq_refl}
use raddy.Compression.Entries.{Describes, parse_accept_encoding-Describes}
use raddy.Compression.{
  Encoding, Algo, token, algo_of, Entry, star, parse_accept_encoding, find_entry, accepted,
  choose_from, choose,
}

module _ (F : Type 0) (one : F) (is_positive : F → Bool) (parse_f32 : List ℕ → Option F) where
  -- The first entry of a name.
  pub record IsFirst (name : List ℕ) (entries : List (Entry F one is_positive parse_f32))
      (entry : Entry F one is_positive parse_f32) : Type 0 where
    pub front : List (Entry F one is_positive parse_f32)
    pub back : List (Entry F one is_positive parse_f32)
    pub split : entries ≡ front ++ (entry ∷ back)
    pub named_so : entry.name ≡ name
    pub none_before : All (λ e. e.name ≢ name) front

  -- The weight that counts for a name: that of its first entry, or else that of the first star.
  pub data Weighs (entries : List (Entry F one is_positive parse_f32)) (name : List ℕ) (q : F)
      : Type 0 where
    named :
        (entry : Entry F one is_positive parse_f32)
        → IsFirst name entries entry
        → entry.q ≡ q
        → Weighs entries name q
    starred :
        (entry : Entry F one is_positive parse_f32)
        → All (λ e. e.name ≢ name) entries
        → IsFirst star entries entry
        → entry.q ≡ q
        → Weighs entries name q

  differs : (a b : List ℕ) → text_eq a b ≡ false → a ≢ b
  differs a b h e =
      let same : text_eq a b ≡ true = subst (λ x. text_eq a x ≡ true) e (text_eq_refl a) in cc

  unequal : (a b : List ℕ) → a ≢ b → text_eq a b ≡ false
  unequal a b h = elim (Bool-cases (text_eq a b)) [
    | inl same ↦ absurd (h (text_eq-≡ a b same))
    | inr other ↦ other
  ]

  find_entry-none :
      (name : List ℕ) (entries : List (Entry F one is_positive parse_f32))
      → find_entry F one is_positive parse_f32 name entries ≡ none
      → All (λ e. e.name ≢ name) entries
  unfolding find_entry
  find_entry-none name [] h = tt
  find_entry-none name (e ∷ entries) h = elim (Bool-cases (text_eq e.name name)) [
    | inl same ↦ absurd (let h' = rw (same, find_entry) at h in cc)
    | inr other ↦
        (differs e.name name other, find_entry-none name entries (rw (other, find_entry) at h))
  ]

  find_entry-absent :
      (name : List ℕ) (entries : List (Entry F one is_positive parse_f32))
      → All (λ e. e.name ≢ name) entries
      → find_entry F one is_positive parse_f32 name entries ≡ none
  unfolding find_entry
  find_entry-absent name [] h = refl
  find_entry-absent name (e ∷ entries) h =
      rw (unequal e.name name h.0, find_entry) (find_entry-absent name entries h.1)

  find_entry-IsFirst :
      (name : List ℕ) (entries : List (Entry F one is_positive parse_f32))
      (entry : Entry F one is_positive parse_f32)
      → find_entry F one is_positive parse_f32 name entries ≡ some entry
      → IsFirst name entries entry
  unfolding find_entry
  find_entry-IsFirst name [] entry h = absurd cc
  find_entry-IsFirst name (e ∷ entries) entry h = elim (Bool-cases (text_eq e.name name)) [
    | inl same ↦
        let h' : some e ≡ some entry = rw (same, find_entry) at h in
        let it : e ≡ entry = cc in
        record {
          front = [];
          back = entries;
          split = ap (λ x. x ∷ entries) it;
          named_so = ap (λ x. x.name) (sym it) ∙ text_eq-≡ e.name name same;
          none_before = tt;
        }
    | inr other ↦
        let v = find_entry-IsFirst name entries entry (rw (other, find_entry) at h) in
        record {
          front = e ∷ v.front;
          back = v.back;
          split = ap (λ l. e ∷ l) v.split;
          named_so = v.named_so;
          none_before = (differs e.name name other, v.none_before);
        }
  ]

  find_entry-front :
      (name : List ℕ) (front back : List (Entry F one is_positive parse_f32))
      (entry : Entry F one is_positive parse_f32)
      → entry.name ≡ name
      → All (λ e. e.name ≢ name) front
      → find_entry F one is_positive parse_f32 name (front ++ (entry ∷ back)) ≡ some entry
  unfolding find_entry
  find_entry-front name [] back entry same h =
      let found : text_eq entry.name name ≡ true =
        subst (λ x. text_eq entry.name x ≡ true) same (text_eq_refl entry.name) in
      rw (found, find_entry) refl
  find_entry-front name (e ∷ front) back entry same h =
      rw (unequal e.name name h.0, find_entry) (find_entry-front name front back entry same h.1)

  IsFirst-find_entry :
      (name : List ℕ) (entries : List (Entry F one is_positive parse_f32))
      (entry : Entry F one is_positive parse_f32)
      → IsFirst name entries entry
      → find_entry F one is_positive parse_f32 name entries ≡ some entry
  IsFirst-find_entry name entries entry v =
      ap (find_entry F one is_positive parse_f32 name) v.split
      ∙ find_entry-front name v.front v.back entry v.named_so v.none_before

  abbrev pub Accepts : List (Entry F one is_positive parse_f32) → List ℕ → Type 0
  Accepts entries name = (q : F) × Weighs entries name q × (is_positive q ≡ true)

  accepted-Accepts :
      (entries : List (Entry F one is_positive parse_f32)) (name : List ℕ)
      → accepted F one is_positive parse_f32 entries name ≡ true
      → Accepts entries name
  unfolding accepted
  accepted-Accepts entries name h =
      elim (Option-cases (find_entry F one is_positive parse_f32 name entries)) [
        | inr (entry, there) ↦ (
          entry.q,
          named entry (find_entry-IsFirst name entries entry there) refl,
          rw (there, accepted) at h,
        )
        | inl gone ↦ elim (Option-cases (find_entry F one is_positive parse_f32 star entries)) [
          | inr (entry, there) ↦
              let h' = rw (gone, accepted) at h in
              (
                entry.q,
                starred entry (find_entry-none name entries gone)
                    (find_entry-IsFirst star entries entry there) refl,
                rw there at h',
              )
          | inl none_there ↦
              absurd (let h' = rw (gone, accepted) at h in let h'' = rw none_there at h' in cc)
        ]
      ]

  Accepts-accepted :
      (entries : List (Entry F one is_positive parse_f32)) (name : List ℕ)
      → Accepts entries name
      → accepted F one is_positive parse_f32 entries name ≡ true
  unfolding accepted
  Accepts-accepted entries name (q, named entry first same, positive) =
      rw (IsFirst-find_entry name entries entry first, accepted) (ap is_positive same ∙ positive)
  Accepts-accepted entries name (q, starred entry gone first same, positive) =
      rw (find_entry-absent name entries gone, accepted)
        (rw (IsFirst-find_entry star entries entry first) (ap is_positive same ∙ positive))

  -- The choice among the encodings, in the order of the configuration.
  abbrev pub Chooses :
      List (Entry F one is_positive parse_f32) → List Encoding → Option Algo → Type 0
  Chooses entries encode none = All (λ enc. Accepts entries (token (algo_of enc)) → ⊥) encode
  Chooses entries encode (some algo) =
      (front : List Encoding) × (enc : Encoding) × (back : List Encoding) × (encode
        ≡ front ++ (enc ∷ back))
      × (algo_of enc ≡ algo)
      × Accepts entries (token algo)
      × All (λ e. Accepts entries (token (algo_of e)) → ⊥) front

  Chooses-cons :
      (entries : List (Entry F one is_positive parse_f32)) (enc : Encoding) (encode : List Encoding)
      (r : Option Algo)
      → (Accepts entries (token (algo_of enc)) → ⊥)
      → Chooses entries encode r
      → Chooses entries (enc ∷ encode) r
  Chooses-cons entries enc encode none not_it v = (not_it, v)
  Chooses-cons entries enc encode (some algo) not_it (front, e, back, split, same, fits, before) =
      (enc ∷ front, e, back, ap (λ l. enc ∷ l) split, same, fits, (not_it, before))

  choose_from-Chooses :
      (entries : List (Entry F one is_positive parse_f32)) (encode : List Encoding)
      → Chooses entries encode (choose_from F one is_positive parse_f32 entries encode)
  unfolding choose_from
  choose_from-Chooses entries [] = tt
  choose_from-Chooses entries (enc ∷ encode) =
      elim (Bool-cases (accepted F one is_positive parse_f32 entries (token (algo_of enc)))) [
        | inl fits ↦
            rw (fits, choose_from)
              ([], enc, encode, refl, refl, accepted-Accepts entries (token (algo_of enc)) fits, tt)
        | inr other ↦
            rw (other, choose_from)
              (Chooses-cons entries enc encode
                (choose_from F one is_positive parse_f32 entries encode)
                (λ v. absurd (let yes_v = Accepts-accepted entries (token (algo_of enc)) v in cc))
                (choose_from-Chooses entries encode))
      ]

  -- For any configured encodings and header, the choice is the first configured encoding that the
  -- client accepts, and none when it accepts none of them; it accepts one when the weight that
  -- counts is positive: that of the first entry of its name, or, where it has no entry, that of
  -- the first star. The entries are those of the parts that the commas of the header divide, in
  -- order: a part without a name has none, and any other has its trimmed name, up to a semicolon,
  -- in lower case, and the weight behind `q=` or `Q=`, or one where there is none or it cannot be
  -- read.
  pub choose-Chooses :
      (encode : List Encoding) (header : List ℕ)
      → (entries : List (Entry F one is_positive parse_f32)) × Describes F one is_positive parse_f32
          header entries
        × Chooses entries encode (choose F one is_positive parse_f32 encode (some (some header)))
  unfolding choose
  choose-Chooses [] header = (
    parse_accept_encoding F one is_positive parse_f32 header,
    parse_accept_encoding-Describes F one is_positive parse_f32 header,
    tt,
  )
  choose-Chooses (enc ∷ encode) header = (
    parse_accept_encoding F one is_positive parse_f32 header,
    parse_accept_encoding-Describes F one is_positive parse_f32 header,
    choose_from-Chooses (parse_accept_encoding F one is_positive parse_f32 header) (enc ∷ encode),
  )
