-- ===== src/Ingest/Recovery.antt =====
-- internal/ingest/ingest.go: the content of a site that is unpublished comes back with `Restore`.
use gotifacts.Prelude.{
  ℕ, ◌≡◌, refl, ap, ◌∙◌, subst, true, [], ◌++◌, some, Result, ok, err, append-nil,
}
use gotifacts.Text.{Text, text_eq}
use gotifacts.Router.SitePath.{SitePath, new_site_path}
use gotifacts.Store.Site.{StoreError}
use gotifacts.Store.Sites.{Table, soft_delete_site, restore_site}
use gotifacts.Files.{FilePath, Node, Disk, lookup, mkdir_all, remove_all, rename, parent}
use gotifacts.Files.Frames.{apart}
use gotifacts.Files.Moves.{lookup-moved_to, lookup-removed, rename-eq-ok}
use gotifacts.Ingest.{Published, Step, content_path, sites_dir, deleted_dir, finish_files}
use gotifacts.Ingest.Trash.{move_tree, after_row, unpublish, restore}
use gotifacts.Ingest.Swapping.{then_files-eq-ok}
use gotifacts.Ingest.Isolation.Steps.{
  mkdir_all-Keeps, remove_all-Keeps, prune_empty_dirs-Keeps, parent_cases,
}

-- A tree that is there and is moved stands, path by path, at its new place.
move_tree-lookup :
    (d : Disk) (src dst stop : FilePath) (n : Node) (r : FilePath)
    → lookup d src ≡ some n
    → apart src (dst ++ r) ≡ true
    → apart dst (src ++ r) ≡ true
    → (move_tree d src dst stop).1 ≡ ok tt
    → lookup (move_tree d src dst stop).0 (dst ++ r) ≡ lookup d (src ++ r)
unfolding move_tree
move_tree-lookup d src dst stop n r e a b h =
    let made = mkdir_all d (parent dst) in
    let cleared = remove_all made.0 dst in
    let put_there = rename cleared src dst in
    let q = src ++ r in
    let o = lookup d q in
    let (_, e1, h1) = then_files-eq-ok made _ (rw (e, move_tree) at h) in
    let (h2, e2, _) = then_files-eq-ok put_there _ h1 in
    let (e3, _) = rename-eq-ok cleared src dst h2 in
    let kept : lookup cleared q ≡ o =
      remove_all-Keeps q o made.0 dst b
        (mkdir_all-Keeps q o d (parent dst) (parent_cases q o dst b) refl) in
    rw (e, move_tree)
      (ap (λ (z : Step). lookup z.0 (dst ++ r)) (e1 ∙ e2)
        ∙ prune_empty_dirs-Keeps (dst ++ r) (lookup put_there.0 (dst ++ r)) put_there.0 (parent src)
            stop (parent_cases (dst ++ r) (lookup put_there.0 (dst ++ r)) src a) refl
        ∙ ap (λ (z : Disk). lookup z (dst ++ r)) e3
        ∙ lookup-moved_to src dst r cleared (lookup-removed made.0 dst r)
        ∙ kept)

finish_files-eq-ok :
    (t : Table) (s : Step)
    → (finish_files t s).1 ≡ ok tt
    → (s.1 ≡ ok tt) × ((finish_files t s).0.disk ≡ s.0)
unfolding finish_files
finish_files-eq-ok t (d, err e) h = absurd (cc)
finish_files-eq-ok t (d, ok tt) h = (refl, refl)

after_row-eq-ok :
    (d : Disk) (next : Disk → Step) (a : Table × Result StoreError (Unit {0}))
    → (after_row d next a).1 ≡ ok tt
    → ((next d).1 ≡ ok tt) × ((after_row d next a).0.disk ≡ (next d).0)
unfolding after_row
after_row-eq-ok d next (t, err e) h = absurd (cc)
after_row-eq-ok d next (t, ok tt) h = finish_files-eq-ok t (next d) h

module _ (sp : SitePath) where
  abbrev place : FilePath
  place = content_path sites_dir sp

  abbrev grave : FilePath
  grave = content_path deleted_dir sp

  place-apart : (r : FilePath) → apart place (grave ++ r) ≡ true
  unfolding content_path apart text_eq
  place-apart r = refl

  grave-apart : (r : FilePath) → apart grave (place ++ r) ≡ true
  unfolding content_path apart text_eq
  grave-apart r = refl

module _ (group slug : Text) (sp : SitePath) (named : new_site_path group slug ≡ ok sp) where
  unpublish-lookup :
      (p : Published) (now : ℕ) (n : Node) (r : FilePath)
      → lookup p.disk (place sp) ≡ some n
      → (unpublish p group slug now).1 ≡ ok tt
      → lookup (unpublish p group slug now).0.disk (grave sp ++ r) ≡ lookup p.disk (place sp ++ r)
  unfolding unpublish
  unpublish-lookup p now n r e h =
      let move = λ (d : Disk). move_tree d (place sp) (grave sp) sites_dir in
      let (done, disk) =
        after_row-eq-ok p.disk move (soft_delete_site p.sites group slug now)
          (rw (named, unpublish) at h) in
      rw (named, unpublish)
        (ap (λ (z : Disk). lookup z (grave sp ++ r)) disk
          ∙ move_tree-lookup p.disk (place sp) (grave sp) sites_dir n r e (place-apart sp r)
              (grave-apart sp r) done)

  restore-lookup :
      (p : Published) (now : ℕ) (n : Node) (r : FilePath)
      → lookup p.disk (grave sp) ≡ some n
      → (restore p group slug now).1 ≡ ok tt
      → lookup (restore p group slug now).0.disk (place sp ++ r) ≡ lookup p.disk (grave sp ++ r)
  unfolding restore
  restore-lookup p now n r e h =
      let move = λ (d : Disk). move_tree d (grave sp) (place sp) deleted_dir in
      let (done, disk) =
        after_row-eq-ok p.disk move (restore_site p.sites group slug now)
          (rw (named, restore) at h) in
      rw (named, restore)
        (ap (λ (z : Disk). lookup z (place sp ++ r)) disk
          ∙ move_tree-lookup p.disk (grave sp) (place sp) deleted_dir n r e (grave-apart sp r)
              (place-apart sp r) done)

  -- The content of a site that had some, after it was unpublished and restored, both with success,
  -- is path by path what it was.
  pub restore-unpublish :
      (p : Published) (now later : ℕ) (n : Node) (r : FilePath)
      → lookup p.disk (content_path sites_dir sp) ≡ some n
      → (unpublish p group slug now).1 ≡ ok tt
      → (restore (unpublish p group slug now).0 group slug later).1 ≡ ok tt
      → lookup
          (restore (unpublish p group slug now).0 group slug later).0.disk
          (content_path sites_dir sp ++ r)
        ≡ lookup p.disk (content_path sites_dir sp ++ r)
  restore-unpublish p now later n r e h k =
      let p1 = (unpublish p group slug now).0 in
      let bare : lookup p1.disk (grave sp) ≡ lookup p.disk (place sp) =
        subst (λ z. lookup p1.disk z ≡ lookup p.disk (place sp)) (append-nil (grave sp))
          (subst (λ z. lookup p1.disk (grave sp ++ []) ≡ lookup p.disk z) (append-nil (place sp))
            (unpublish-lookup p now n [] e h)) in
      restore-lookup p1 later n r (bare ∙ e) k ∙ unpublish-lookup p now n r e h
