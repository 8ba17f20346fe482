-- ===== src/StaticFiles/Segments.antt =====
-- proxy/fs.rs: the segments of a request path, and paths under a base.
use raddy.Base.{
  ◌≡◌, ◌≢◌, ◌↔◌, inl, inr, refl, ap, ◌∙◌, List, [], ◌∷◌, ◌++◌, some, true, false, any, All, ◌==◌,
  subst, sym, arith, Bool-cases,
}
use raddy.Config.Wildcard.{text_eq-≡, text_eq_refl}
use raddy.Values.{Text, codes}
use raddy.StaticFiles.{
  Component, root_dir, cur_dir, parent_dir, normal, same_component, components, is_prefix,
  path_starts_with, is_parent, is_hidden, under_root,
}

-- The components of a path begin with those of the base.
abbrev pub IsUnder : Text → Text → Type 0
IsUnder base path = (rest : List Component) × (components path ≡ components base ++ rest)

-- A segment that may stand in a request path.
pub record IsPublic (seg : Text) : Type 0 where
  pub no_parent : seg ≢ codes ".."
  pub no_dot : (rest : Text) → seg ≡ b'.' ∷ rest → seg ≡ codes ".well-known"

same_component-≡ : (a b : Component) → same_component a b ≡ true → a ≡ b
unfolding same_component
same_component-≡ root_dir root_dir h = refl
same_component-≡ root_dir cur_dir h = absurd (cc)
same_component-≡ root_dir parent_dir h = absurd (cc)
same_component-≡ root_dir (normal b) h = absurd (cc)
same_component-≡ cur_dir root_dir h = absurd (cc)
same_component-≡ cur_dir cur_dir h = refl
same_component-≡ cur_dir parent_dir h = absurd (cc)
same_component-≡ cur_dir (normal b) h = absurd (cc)
same_component-≡ parent_dir root_dir h = absurd (cc)
same_component-≡ parent_dir cur_dir h = absurd (cc)
same_component-≡ parent_dir parent_dir h = refl
same_component-≡ parent_dir (normal b) h = absurd (cc)
same_component-≡ (normal a) root_dir h = absurd (cc)
same_component-≡ (normal a) cur_dir h = absurd (cc)
same_component-≡ (normal a) parent_dir h = absurd (cc)
same_component-≡ (normal a) (normal b) h = ap normal (text_eq-≡ a b h)

same_component_refl : (a : Component) → same_component a a ≡ true
unfolding same_component
same_component_refl root_dir = refl
same_component_refl cur_dir = refl
same_component_refl parent_dir = refl
same_component_refl (normal a) = text_eq_refl a

is_prefix-split :
    (base cs : List Component)
    → is_prefix base cs ≡ true
    → (rest : List Component) × (cs ≡ base ++ rest)
unfolding is_prefix
is_prefix-split [] cs h = (cs, refl)
is_prefix-split (b ∷ base) [] h = absurd (cc)
is_prefix-split (b ∷ base) (c ∷ cs) h =
    let same : same_component b c ≡ true = ground arith in
    let (rest, e) = is_prefix-split base cs (ground arith) in
    let first = same_component-≡ b c same in (rest, cc)

is_prefix-append : (base rest : List Component) → is_prefix base (base ++ rest) ≡ true
unfolding is_prefix
is_prefix-append [] rest = refl
is_prefix-append (b ∷ base) rest =
    let first = same_component_refl b in let behind = is_prefix-append base rest in ground arith

pub path_starts_with-IsUnder :
    (path base : Text) → (path_starts_with path base ≡ true) ↔ IsUnder base path
unfolding path_starts_with
path_starts_with-IsUnder path base = (
  λ h. is_prefix-split (components base) (components path) h,
  λ (rest, e).
      subst (λ cs. is_prefix (components base) cs ≡ true) (sym e)
        (is_prefix-append (components base) rest),
)

allowed-IsPublic : (seg : Text) → is_parent seg ≡ false → is_hidden seg ≡ false → IsPublic seg
allowed-IsPublic seg parent hidden = record {
  no_parent = λ e.
      let same = text_eq_refl (codes "..") in
      let other = subst (λ s. is_parent s ≡ false) e parent in cc;
  no_dot = λ rest e.
      let known : is_hidden (b'.' ∷ rest) ≡ false = subst (λ s. is_hidden s ≡ false) e hidden in
      e ∙ text_eq-≡ (b'.' ∷ rest) (codes ".well-known") (ground arith);
}

parent-allowed : (seg : Text) → IsPublic seg → is_parent seg ≡ false
parent-allowed seg v = elim (Bool-cases (is_parent seg)) [
  | inl same ↦ absurd (v.no_parent (text_eq-≡ seg (codes "..") same))
  | inr other ↦ other
]

hidden-allowed : (seg : Text) → IsPublic seg → is_hidden seg ≡ false
hidden-allowed [] v = refl
hidden-allowed (c ∷ rest) v = elim (Bool-cases (c == b'.')) [
  | inl dot ↦
      let first : c ≡ b'.' = ground arith in
      let known = v.no_dot rest (ap (λ d. d ∷ rest) first) in
      rw known (ground (arith, text_eq_refl (codes ".well-known")))
  | inr other ↦ ground arith
]

IsPublic-allowed : (seg : Text) → IsPublic seg → (is_parent seg ≡ false) × (is_hidden seg ≡ false)
IsPublic-allowed seg v = (parent-allowed seg v, hidden-allowed seg v)

pub All-allowed :
    (segs : List Text) → any is_parent segs ≡ false → any is_hidden segs ≡ false → All IsPublic segs
All-allowed [] parent hidden = tt
All-allowed (seg ∷ segs) parent hidden = (
  allowed-IsPublic seg (ground arith) (ground arith),
  All-allowed segs (ground arith) (ground arith),
)

pub allowed-All :
    (segs : List Text)
    → All IsPublic segs
    → (any is_parent segs ≡ false) × (any is_hidden segs ≡ false)
allowed-All [] v = (refl, refl)
allowed-All (seg ∷ segs) (v, vs) =
    let (p, h) = IsPublic-allowed seg v in
    let (ps, hs) = allowed-All segs vs in (ground arith, ground arith)

pub under_root-ok :
    (root path file : Text) → under_root root path ≡ some file → IsUnder root path × (file ≡ path)
under_root-ok root path file h = elim (Bool-cases (path_starts_with path root)) [
  | inl there ↦
      let same : some path ≡ some file = rw there at h in
      ((path_starts_with-IsUnder path root).0 there, cc)
  | inr out ↦ absurd (let gone = rw out at h in cc)
]

pub IsUnder-under_root : (root path : Text) → IsUnder root path → under_root root path ≡ some path
IsUnder-under_root root path v = rw ((path_starts_with-IsUnder path root).1 v) refl
