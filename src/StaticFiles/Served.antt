-- ===== src/StaticFiles/Served.antt =====
-- proxy/fs.rs: the files that are served stand under the root.
use raddy.Base.{
  ◌≡◌, ◌↔◌, inl, inr, ap, ◌∙◌, Option, some, Bool, true, false, any, All, subst, sym, ◌>>=◌,
  Bool-cases, Option-cases,
}
use raddy.Compression.{split}
use raddy.Values.{Text, codes}
use raddy.StaticFiles.{
  slash, join, trim_slashes, is_parent, is_hidden, under_root, file_or_index, resolve,
}
use raddy.StaticFiles.Segments.{
  IsUnder, IsPublic, All-allowed, allowed-All, under_root-ok, IsUnder-under_root,
}

module _ (canonicalize : Text → Option Text) (is_dir : Text → Bool) where
  -- The file that a request path names, or the index of the directory that it names.
  pub data Names (candidate file : Text) : Type 0 where
    itself : is_dir candidate ≡ false → file ≡ candidate → Names candidate file
    its_index :
        is_dir candidate ≡ true
        → canonicalize (join candidate (codes "index.html")) ≡ some file
        → Names candidate file

  pub record IsServed (root path file : Text) : Type 0 where
    pub segments : All IsPublic (split slash path)
    pub canonical_root : Text
    pub candidate : Text
    pub root_found : canonicalize root ≡ some canonical_root
    pub found : canonicalize (join root (trim_slashes path)) ≡ some candidate
    pub candidate_under : IsUnder canonical_root candidate
    pub file_under : IsUnder canonical_root file
    pub names : Names candidate file
    pub plain : is_dir file ≡ false

  -- The index of a directory is no directory.
  abbrev pub HasPlainIndexes : Type 0
  HasPlainIndexes =
      (dir index : Text)
      → is_dir dir ≡ true
      → canonicalize (join dir (codes "index.html")) ≡ some index
      → is_dir index ≡ false

  Names-plain :
      (candidate file : Text) → HasPlainIndexes → Names candidate file → is_dir file ≡ false
  Names-plain candidate file indexes (itself plain e) = ap is_dir e ∙ plain
  Names-plain candidate file indexes (its_index dir there) = indexes candidate file dir there

  file_or_index-Names :
      (canonical_root candidate file : Text)
      → IsUnder canonical_root candidate
      → file_or_index canonicalize is_dir canonical_root candidate ≡ some file
      → IsUnder canonical_root file × Names candidate file
  file_or_index-Names canonical_root candidate file under h = elim (Bool-cases (is_dir candidate)) [
    | inr plain ↦
        let same : some candidate ≡ some file = rw plain at h in
        let e : file ≡ candidate = cc in
        (subst (IsUnder canonical_root) (sym e) under, itself plain e)
    | inl dir ↦ elim (Option-cases (canonicalize (join candidate (codes "index.html")))) [
      | inl gone ↦ absurd (let h' = rw dir at h in let h'' = rw gone at h' in cc)
      | inr (index, there) ↦
          let h' = rw dir at h in
          let h'' = rw there at h' in
          let (under_index, e) = under_root-ok canonical_root index file h'' in
          (
            subst (IsUnder canonical_root) (sym e) under_index,
            its_index dir (there ∙ ap some (sym e)),
          )
    ]
  ]

  Names-file_or_index :
      (canonical_root candidate file : Text)
      → IsUnder canonical_root file
      → Names candidate file
      → file_or_index canonicalize is_dir canonical_root candidate ≡ some file
  Names-file_or_index canonical_root candidate file under (itself plain e) =
      rw plain (ap some (sym e))
  Names-file_or_index canonical_root candidate file under (its_index dir there) =
      rw dir (rw there (IsUnder-under_root canonical_root file under))

  found-IsServed :
      (root path file : Text)
      → HasPlainIndexes
      → All IsPublic (split slash path)
      → (do
        canonical_root ← canonicalize root
        candidate ← canonicalize (join root (trim_slashes path))
        canonical ← under_root canonical_root candidate
        file_or_index canonicalize is_dir canonical_root canonical)
        ≡ some file
      → IsServed root path file
  found-IsServed root path file indexes v h = elim (Option-cases (canonicalize root)) [
    | inl gone ↦ absurd (let h' = rw gone at h in cc)
    | inr (canonical_root, at_root) ↦
        let h1 = rw at_root at h in
        elim (Option-cases (canonicalize (join root (trim_slashes path)))) [
          | inl gone ↦ absurd (let h' = rw gone at h1 in cc)
          | inr (candidate, there) ↦
              let h2 = rw there at h1 in
              elim (Option-cases (under_root canonical_root candidate)) [
                | inl out ↦ absurd (let h' = rw out at h2 in cc)
                | inr (canonical, within) ↦
                    let h3 = rw within at h2 in
                    let (under, e) = under_root-ok canonical_root candidate canonical within in
                    let under' = subst (IsUnder canonical_root) (sym e) under in
                    let (file_under, names) =
                      file_or_index-Names canonical_root canonical file under' h3 in
                    record {
                      segments = v;
                      canonical_root = canonical_root;
                      candidate = candidate;
                      root_found = at_root;
                      found = there;
                      candidate_under = under;
                      file_under = file_under;
                      names = subst (λ c. Names c file) e names;
                      plain = Names-plain canonical file indexes names;
                    }
              ]
        ]
  ]

  resolve-found :
      (root path file : Text)
      → HasPlainIndexes
      → resolve canonicalize is_dir root path ≡ some file
      → IsServed root path file
  unfolding resolve
  resolve-found root path file indexes h = elim (Bool-cases (any is_parent (split slash path))) [
    | inl parent ↦ absurd (let gone = rw (parent, resolve) at h in cc)
    | inr no_parent ↦ elim (Bool-cases (any is_hidden (split slash path))) [
      | inl hidden ↦
          absurd (let h' = rw (no_parent, resolve) at h in let gone = rw hidden at h' in cc)
      | inr no_hidden ↦
          let h' = rw (no_parent, resolve) at h in
          found-IsServed root path file indexes (All-allowed (split slash path) no_parent no_hidden)
            (rw no_hidden at h')
    ]
  ]

  IsServed-resolve :
      (root path file : Text)
      → IsServed root path file
      → resolve canonicalize is_dir root path ≡ some file
  unfolding resolve
  IsServed-resolve root path file v =
      let (no_parent, no_hidden) = allowed-All (split slash path) v.segments in
      rw (no_parent, resolve)
        (rw no_hidden (
          rw v.root_found (
            rw v.found (
              rw (IsUnder-under_root v.canonical_root v.candidate v.candidate_under)
                (Names-file_or_index v.canonical_root v.candidate file v.file_under v.names)))))

  -- For any file system in which the index of a directory is no directory, a request path
  -- resolves to a path exactly when that is the path of no directory, none of its segments is the
  -- parent or begins with a dot, but for `.well-known`, the root and the path joined to it have
  -- canonical paths, the result stands under the canonical root, and so does the canonical path,
  -- which is the result itself or a directory whose index is the result.
  pub resolve-IsServed :
      (root path file : Text)
      → HasPlainIndexes
      → (resolve canonicalize is_dir root path ≡ some file) ↔ IsServed root path file
  resolve-IsServed root path file indexes =
      (resolve-found root path file indexes, IsServed-resolve root path file)
