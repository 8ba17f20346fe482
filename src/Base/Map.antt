-- ===== src/Base/Map.antt =====
-- `std::collections::HashMap`: an association list whose order stands for the iteration order.
use mathlib.Core.Path.{◌≡◌, refl}
use mathlib.Core.Logic.{◌≢◌, ite, inl, inr}
use mathlib.Core.Bool.{Bool, true, false}
use mathlib.Core.List.{List, [], ◌∷◌}
use mathlib.Core.Option.{Option, none, some}
use native.Mathlib.Omega.{arith}
use Prim.Native.Nat.{suc, ◌≤◌}
use raddy.Base.Tests.{Eq, if◌then◌else◌, Bool-cases}
use raddy.Base.Lists.{length}

abbrev pub HashMap : Type 0 → Type 0 → Type 0
HashMap K V = List (K × V)

-- What `retain` leaves under a key.
abbrev pub keep {ℓ} : {V : Type ℓ} → (V → Bool) → Option V → Option V
keep p none = none
keep p (some v) = if p v then some v else none

abbrev pub map_option {ℓ κ} : {A : Type ℓ} {B : Type κ} → (A → B) → Option A → Option B
map_option f none = none
map_option f (some a) = some (f a)

module _ {K V : Type 0} ⦃e : Eq K⦄ where
  unfoldable pub get : K → HashMap K V → Option V
  get k [] = none
  get k ((j, v) ∷ m) = ite (e.dec j k) (some v) (get k m)

  -- `insert`, and the write through `get_mut` or `entry`.
  unfoldable pub insert : K → V → HashMap K V → HashMap K V
  insert k v [] = (k, v) ∷ []
  insert k v ((j, w) ∷ m) = ite (e.dec j k) ((k, v) ∷ m) ((j, w) ∷ insert k v m)

  unfoldable pub remove : K → HashMap K V → HashMap K V
  remove k [] = []
  remove k ((j, w) ∷ m) = ite (e.dec j k) m ((j, w) ∷ remove k m)

  unfoldable pub retain : (V → Bool) → HashMap K V → HashMap K V
  retain p [] = []
  retain p ((j, w) ∷ m) = if p w then (j, w) ∷ retain p m else retain p m

  -- No key stands twice.
  abbrev pub IsMap : HashMap K V → Type 0
  IsMap [] = Unit {0}
  IsMap ((k, v) ∷ m) = (get k m ≡ none) × IsMap m

  pub get-insert_self : (k : K) (v : V) (m : HashMap K V) → get k (insert k v m) ≡ some v
  unfolding get insert
  get-insert_self k v [] = ground arith
  get-insert_self k v ((j, w) ∷ m) = ground (arith, get-insert_self k v m)

  pub get-insert_ne : (k j : K) (v : V) (m : HashMap K V) → k ≢ j → get j (insert k v m) ≡ get j m
  unfolding get insert
  get-insert_ne k j v [] h = ground arith
  get-insert_ne k j v ((i, w) ∷ m) h = ground (arith, get-insert_ne k j v m h)

  pub get-insert :
      (k j : K) (v : V) (m : HashMap K V)
      → get j (insert k v m) ≡ ite (e.dec k j) (some v) (get j m)
  unfolding get insert
  get-insert k j v [] = ground arith
  get-insert k j v ((i, w) ∷ m) = ground (arith, get-insert k j v m)

  pub get-remove_ne : (k j : K) (m : HashMap K V) → k ≢ j → get j (remove k m) ≡ get j m
  unfolding get remove
  get-remove_ne k j [] h = refl
  get-remove_ne k j ((i, w) ∷ m) h = ground (arith, get-remove_ne k j m h)

  pub get-remove_self : (k : K) (m : HashMap K V) → IsMap m → get k (remove k m) ≡ none
  unfolding get remove
  get-remove_self k [] h = refl
  get-remove_self k ((i, w) ∷ m) h = ground (arith, get-remove_self k m h.1)

  pub length-insert_new :
      (k : K) (v : V) (m : HashMap K V) → get k m ≡ none → length (insert k v m) ≡ suc (length m)
  unfolding get insert
  length-insert_new k v [] h = refl
  length-insert_new k v ((i, w) ∷ m) h = ground (arith, length-insert_new k v m)

  pub length-insert_old :
      (k : K) (v w : V) (m : HashMap K V) → get k m ≡ some w → length (insert k v m) ≡ length m
  unfolding get insert
  length-insert_old k v w [] h = cc
  length-insert_old k v w ((i, x) ∷ m) h = ground (arith, length-insert_old k v w m)

  pub length-remove_old :
      (k : K) (w : V) (m : HashMap K V) → get k m ≡ some w → suc (length (remove k m)) ≡ length m
  unfolding get remove
  length-remove_old k w [] h = cc
  length-remove_old k w ((i, x) ∷ m) h = ground (arith, length-remove_old k w m)

  pub remove_absent : (k : K) (m : HashMap K V) → get k m ≡ none → remove k m ≡ m
  unfolding get remove
  remove_absent k [] h = refl
  remove_absent k ((i, x) ∷ m) h = ground (arith, remove_absent k m)

  pub length-remove-le : (k : K) (m : HashMap K V) → length (remove k m) ≤ length m
  unfolding remove
  length-remove-le k [] = omega arith
  length-remove-le k ((i, x) ∷ m) = ground (arith, length-remove-le k m)

  pub length-retain-le : (p : V → Bool) (m : HashMap K V) → length (retain p m) ≤ length m
  unfolding retain
  length-retain-le p [] = omega arith
  length-retain-le p ((i, x) ∷ m) = ground (arith, length-retain-le p m)

  pub insert-IsMap : (k : K) (v : V) (m : HashMap K V) → IsMap m → IsMap (insert k v m)
  unfolding get insert
  insert-IsMap k v [] h = ground arith
  insert-IsMap k v ((i, x) ∷ m) h = elim (e.dec i k) [
    | yes p ↦ ground arith
    | no p ↦ ground (arith, insert-IsMap k v m h.1, get-insert_ne k i v m)
  ]

  pub get-remove-none : (k j : K) (m : HashMap K V) → get j m ≡ none → get j (remove k m) ≡ none
  unfolding get remove
  get-remove-none k j [] h = refl
  get-remove-none k j ((i, x) ∷ m) h = ground (arith, get-remove-none k j m)

  pub remove-IsMap : (k : K) (m : HashMap K V) → IsMap m → IsMap (remove k m)
  unfolding remove
  remove-IsMap k [] h = tt
  remove-IsMap k ((i, x) ∷ m) h = ground (arith, remove-IsMap k m h.1, get-remove-none k i m)

  pub get-retain-none :
      (p : V → Bool) (j : K) (m : HashMap K V) → get j m ≡ none → get j (retain p m) ≡ none
  unfolding get retain
  get-retain-none p j [] h = refl
  get-retain-none p j ((i, x) ∷ m) h = ground (arith, get-retain-none p j m)

  pub retain-IsMap : (p : V → Bool) (m : HashMap K V) → IsMap m → IsMap (retain p m)
  unfolding retain
  retain-IsMap p [] h = tt
  retain-IsMap p ((i, x) ∷ m) h = ground (arith, retain-IsMap p m h.1, get-retain-none p i m)

  pub get-retain :
      (p : V → Bool) (j : K) (m : HashMap K V) → IsMap m → get j (retain p m) ≡ keep p (get j m)
  unfolding get retain
  get-retain p j [] h = refl
  get-retain p j ((i, x) ∷ m) h = ground (arith, get-retain p j m h.1, get-retain-none p j m)

  -- `if let Some(v) = map.get_mut(k) { *v = f(*v) }`.
  unfoldable pub modify : K → (V → V) → HashMap K V → HashMap K V
  modify k f [] = []
  modify k f ((j, w) ∷ m) = ite (e.dec j k) ((j, f w) ∷ m) ((j, w) ∷ modify k f m)

  pub get-modify :
      (k j : K) (f : V → V) (m : HashMap K V)
      → get j (modify k f m) ≡ ite (e.dec k j) (map_option f (get j m)) (get j m)
  unfolding get modify
  get-modify k j f [] = ground arith
  get-modify k j f ((i, w) ∷ m) = ground (arith, get-modify k j f m)

  pub length-modify : (k : K) (f : V → V) (m : HashMap K V) → length (modify k f m) ≡ length m
  unfolding modify
  length-modify k f [] = refl
  length-modify k f ((i, w) ∷ m) = ground (arith, length-modify k f m)

  pub modify-IsMap : (k : K) (f : V → V) (m : HashMap K V) → IsMap m → IsMap (modify k f m)
  unfolding modify
  modify-IsMap k f [] h = tt
  modify-IsMap k f ((i, w) ∷ m) h = ground (arith, modify-IsMap k f m h.1, get-modify k i f m)

  -- The first key, in iteration order, whose value passes a test.
  unfoldable pub find_key : (V → Bool) → HashMap K V → Option K
  find_key p [] = none
  find_key p ((j, w) ∷ m) = if p w then some j else find_key p m

  pub get-find_key :
      (p : V → Bool) (k : K) (m : HashMap K V)
      → IsMap m
      → find_key p m ≡ some k
      → (v : V) × (get k m ≡ some v) × (p v ≡ true)
  unfolding get find_key
  get-find_key p k [] u h = absurd (cc)
  get-find_key p k ((j, w) ∷ m) u h = elim (Bool-cases (p w)) [
    | inl yes_w ↦ (w, ground arith, yes_w)
    | inr no_w ↦ let (v, found, pv) = get-find_key p k m u.1 (rw no_w at h) in (v, ground arith, pv)
  ]

  pub find_key-none :
      (p : V → Bool) (k : K) (v : V) (m : HashMap K V)
      → find_key p m ≡ none
      → get k m ≡ some v
      → p v ≡ false
  unfolding get find_key
  find_key-none p k v [] h g = absurd (cc)
  find_key-none p k v ((j, w) ∷ m) h g = ground (arith, find_key-none p k v m)
