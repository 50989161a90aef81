-- ===== src/Ingest/Isolation/Steps.antt =====
-- internal/ingest/ingest.go and versions.go: what the publisher does to the files of a site keeps
-- each file that lies apart from its directories.
use gotifacts.Prelude.{
  arith, ℕ, zero, suc, ◌-◌, ◌≡◌, refl, ◌∙◌, Bool, true, false, not, ◌||◌, List, [], ◌∷◌, ◌++◌,
  Option, none, some, Bool-cases, Option-cases, Result-cases, inl, inr, ok, err, leb, take, length,
  if◌then◌else◌,
}
use gotifacts.Text.{Text}
use gotifacts.Router.SitePath.{SitePath}
use gotifacts.Files.{
  FilePath, Node, Disk, path_eq, below, is_below, parent, lookup, mkdir_all, remove_all, rename,
  remove,
}
use gotifacts.Files.Frames.{
  apart, apart-below, is_below-apart, above-apart, above-parent, ne_path, lookup-remove_if,
  lookup-remove_all, lookup-remove, lookup-mkdir_all, lookup-rename, path_eq→eq,
}
use gotifacts.Ingest.{
  Settings, content_path, sites_dir, versions_dir, tmp_dir, Step, then_files, prune_up,
  prune_empty_dirs,
}
use gotifacts.Ingest.Versions.{
  list_versions, remove_each, prune_versions, put, copy_entries, archive_version, make_room, swap,
  promote, new_stage_dir,
}
use gotifacts.Ingest.Trash.{move_tree}

-- What stands at `q` is `o`.
module _ (q : FilePath) (o : Option Node) where
  abbrev pub Keeps : Disk → Type 0
  Keeps d = lookup d q ≡ o

  pub then_files-Keeps :
      (s : Step) (next : Disk → Step)
      → Keeps s.0
      → ((d : Disk) → Keeps d → Keeps (next d).0)
      → Keeps (then_files s next).0
  unfolding then_files
  then_files-Keeps (d, err e) next h k = h
  then_files-Keeps (d, ok u) next h k = k d h

  pub choice-Keeps : (b : Bool) (s t : Step) → Keeps s.0 → Keeps t.0 → Keeps (if b then s else t).0
  choice-Keeps true s t h k = h
  choice-Keeps false s t h k = k

  -- A path that `q` is neither at nor above.
  abbrev pub Clear : FilePath → Type 0
  Clear p = is_below q p ≡ false

  pub remove_all-Keeps :
      (d : Disk) (p : FilePath) → apart p q ≡ true → Keeps d → Keeps (remove_all d p)
  remove_all-Keeps d p a k = lookup-remove_all d p q (is_below-apart p q a) ∙ k

  pub mkdir_all-Keeps : (d : Disk) (p : FilePath) → Clear p → Keeps d → Keeps (mkdir_all d p).0
  mkdir_all-Keeps d p c k = lookup-mkdir_all d p q c ∙ k

  pub rename-Keeps :
      (d : Disk) (a b : FilePath)
      → apart a q ≡ true
      → apart b q ≡ true
      → Keeps d
      → Keeps (rename d a b).0
  rename-Keeps d a b x y k = lookup-rename a b q (is_below-apart a q x) (is_below-apart b q y) d ∙ k

  prune_up-Keeps :
      (n : ℕ) (d : Disk) (p stop : FilePath) → Clear p → Keeps d → Keeps (prune_up n d p stop)
  unfolding prune_up
  prune_up-Keeps zero d p stop c k = k
  prune_up-Keeps (suc n) d p stop c k =
      let removed : Keeps (remove d p).0 = lookup-remove d p q (ne_path p q c) ∙ k in
      let above = prune_up-Keeps n (remove d p).0 (parent p) stop (above-parent q p c) removed in
      elim (Bool-cases (path_eq p stop || not (is_below stop p))) [
        | inl e ↦ rw e k
        | inr e ↦ elim (Result-cases (remove d p).1) [
          | inl (x, r) ↦ rw (e, r) removed
          | inr (u, r) ↦ rw (e, r) above
        ]
      ]

  pub prune_empty_dirs-Keeps :
      (d : Disk) (p stop : FilePath) → Clear p → Keeps d → Keeps (prune_empty_dirs d p stop)
  unfolding prune_empty_dirs
  prune_empty_dirs-Keeps d p stop c k = prune_up-Keeps (length p) d p stop c k

  pub parent_cases : (p : FilePath) → apart p q ≡ true → Clear (parent p)
  parent_cases p a = above-parent q p (above-apart p q a)

  pub move_tree-Keeps :
      (d : Disk) (src dst stop : FilePath)
      → apart src q ≡ true
      → apart dst q ≡ true
      → Keeps d
      → Keeps (move_tree d src dst stop).0
  unfolding move_tree
  move_tree-Keeps d src dst stop a b k = elim (Option-cases (lookup d src)) [
    | inl e ↦ rw (e, move_tree) k
    | inr (n, e) ↦
        rw (e, move_tree)
          (then_files-Keeps (mkdir_all d (parent dst)) _
            (mkdir_all-Keeps d (parent dst) (parent_cases dst b) k)
            (λ d1 k1.
              then_files-Keeps (rename (remove_all d1 dst) src dst) _
                (rename-Keeps (remove_all d1 dst) src dst a b (remove_all-Keeps d1 dst b k1))
                (λ d2 k2. prune_empty_dirs-Keeps d2 (parent src) stop (parent_cases src a) k2)))
  ]

  pub put-Keeps :
      (d : Disk) (p : FilePath) (n : Node) → apart p q ≡ true → Keeps d → Keeps (put d p n)
  unfolding put lookup
  put-Keeps d p n a k =
      let other = ne_path p q (above-apart p q a) in
      rw other (
        lookup-remove_if (λ (e : FilePath × Node). path_eq p e.0) q
          (λ e h. rw (path_eq→eq e.0 q h) other) d
        ∙ k)

  pub copy_entries-Keeps :
      (d es : Disk) (src dst : FilePath)
      → apart dst q ≡ true
      → Keeps d
      → Keeps (copy_entries d es src dst)
  unfolding copy_entries
  copy_entries-Keeps d [] src dst a k = k
  copy_entries-Keeps d ((p, n) ∷ es) src dst a k =
      let rest = copy_entries-Keeps d es src dst a k in
      elim (Option-cases (below src p)) [
        | inl e ↦ rw (e, copy_entries) rest
        | inr (r, e) ↦ rw (e, copy_entries) (put-Keeps _ (dst ++ r) n (apart-below dst q r a) rest)
      ]

  remove_each-Keeps :
      (d : Disk) (root : FilePath) (vs : List Text)
      → apart root q ≡ true
      → Keeps d
      → Keeps (remove_each d root vs)
  unfolding remove_each
  remove_each-Keeps d root [] a k = k
  remove_each-Keeps d root (v ∷ vs) a k =
      remove_each-Keeps (remove_all d (root ++ v ∷ [])) root vs a
        (remove_all-Keeps d (root ++ v ∷ []) (apart-below root q (v ∷ []) a) k)

  pub prune_versions-Keeps :
      (cfg : Settings) (d : Disk) (root : FilePath)
      → apart root q ≡ true
      → Keeps d
      → Keeps (prune_versions cfg d root).0
  unfolding prune_versions
  prune_versions-Keeps cfg d root a k = elim (Result-cases (list_versions d root)) [
    | inl (e, h) ↦ rw (h, prune_versions) k
    | inr (vs, h) ↦ elim (Bool-cases (leb (length vs) cfg.versioning_keep)) [
      | inl e ↦ rw (h, prune_versions, e) k
      | inr e ↦
          rw (h, prune_versions, e)
            (remove_each-Keeps d root (take (length vs - cfg.versioning_keep) vs) a k)
    ]
  ]

  module _ (stamp : ℕ → Text) (cfg : Settings) (sp : SitePath) (now : ℕ) where
    module _ (w : apart (content_path versions_dir sp) q ≡ true) where
      pub archive_version-Keeps :
          (d : Disk) (live : FilePath)
          → apart live q ≡ true
          → Keeps d
          → Keeps (archive_version stamp cfg d live sp now).0
      unfolding archive_version
      archive_version-Keeps d live a k =
          let root = content_path versions_dir sp in
          then_files-Keeps _ _ (mkdir_all-Keeps d root (above-apart root q w) k) (λ d1 k1.
            then_files-Keeps _ _
              (rename-Keeps d1 live (root ++ stamp now ∷ []) a
                (apart-below root q (stamp now ∷ []) w) k1)
              (λ d2 k2. prune_versions-Keeps cfg d2 root w k2))

      pub make_room-Keeps :
          (d : Disk) (live : FilePath)
          → apart live q ≡ true
          → Keeps d
          → Keeps (make_room stamp cfg d live sp now).0
      unfolding make_room
      make_room-Keeps d live a k = elim (Option-cases (lookup d live)) [
        | inl e ↦ rw (e, make_room) k
        | inr (n, e) ↦
            rw (e, make_room)
              (choice-Keeps cfg.versioning_enabled (archive_version stamp cfg d live sp now)
                (remove_all d live, ok tt) (archive_version-Keeps d live a k)
                (remove_all-Keeps d live a k))
      ]

      pub swap-Keeps :
          (d : Disk) (stage live : FilePath)
          → apart stage q ≡ true
          → apart live q ≡ true
          → Keeps d
          → Keeps (swap stamp cfg d stage live sp now).0
      unfolding swap
      swap-Keeps d stage live s a k =
          then_files-Keeps _ _ (mkdir_all-Keeps d (parent live) (parent_cases live a) k) (λ d1 k1.
            then_files-Keeps _ _ (make_room-Keeps d1 live a k1)
              (λ d2 k2. rename-Keeps d2 stage live s a k2))

      pub promote-Keeps :
          (d : Disk) (version : Text)
          → apart (content_path sites_dir sp) q ≡ true
          → Keeps d
          → Keeps (promote stamp cfg d sp version now).0
      unfolding promote
      promote-Keeps d version a k =
          let live = content_path sites_dir sp in
          then_files-Keeps _ _ (archived (lookup d live)) (λ d1 k1.
            then_files-Keeps _ _ (mkdir_all-Keeps d1 (parent live) (parent_cases live a) k1)
              (λ d2 k2.
                rename-Keeps d2 (content_path versions_dir sp ++ version ∷ []) live
                  (apart-below (content_path versions_dir sp) q (version ∷ []) w) a k2))
        where
          archived :
              (found : Option Node)
              → Keeps
                  (let s : Step = elim found [
                    | none ↦ (d, ok tt)
                    | some _ ↦ archive_version stamp cfg d (content_path sites_dir sp) sp now
                  ] in
                    s).0
          archived none = k
          archived (some n) = archive_version-Keeps d (content_path sites_dir sp) a k

  pub new_stage_dir-Keeps :
      (d : Disk) (drawn : Option Text)
      → ((x : FilePath) → apart (tmp_dir ++ x) q ≡ true)
      → Keeps d
      → Keeps (new_stage_dir d drawn).0
  unfolding new_stage_dir
  new_stage_dir-Keeps d drawn a k =
      let d1 = (mkdir_all d tmp_dir).0 in
      let made : Keeps d1 = mkdir_all-Keeps d tmp_dir (above-apart tmp_dir q (a [])) k in
      elim (Result-cases (mkdir_all d tmp_dir).1) [
        | inl (e, h) ↦ rw (h, new_stage_dir) made
        | inr (u, h) ↦ elim (Option-cases drawn) [
          | inl n ↦ rw (h, new_stage_dir, n) made
          | inr (x, n) ↦
              let stage = tmp_dir ++ x ∷ [] in
              let ready : Keeps (mkdir_all d1 stage).0 =
                mkdir_all-Keeps d1 stage (above-apart stage q (a (x ∷ []))) made in
              elim (Result-cases (mkdir_all d1 stage).1) [
                | inl (e, m) ↦ rw (h, new_stage_dir, n, m) ready
                | inr (u', m) ↦ rw (h, new_stage_dir, n, m) ready
              ]
        ]
      ]

-- The staging directory has the drawn name.
pub new_stage_dir-eq-ok :
    (d : Disk) (drawn : Option Text) {stage : FilePath}
    → (new_stage_dir d drawn).1 ≡ ok stage
    → (x : Text) × (drawn ≡ some x) × (stage ≡ tmp_dir ++ x ∷ [])
unfolding new_stage_dir
new_stage_dir-eq-ok d none e = absurd (ground (arith))
new_stage_dir-eq-ok d (some x) e = (x, refl, ground (arith))
