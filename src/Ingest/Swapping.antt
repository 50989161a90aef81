-- ===== src/Ingest/Swapping.antt =====
-- internal/ingest/ingest.go: `swap` puts what was staged at the place of a site's content.
use gotifacts.Prelude.{
  ℕ, ◌≡◌, refl, sym, ap, ◌∙◌, subst, Bool, true, false, [], ◌∷◌, ◌++◌, none, Option-cases, inl, inr,
  if◌then◌else◌, ok, err, append-nil,
}
use gotifacts.Text.{Text, codes, split, text_eq}
use gotifacts.Router.SitePath.{SitePath, content_dir}
use gotifacts.Files.{FilePath, Disk, lookup, mkdir_all, remove_all, rename, parent}
use gotifacts.Files.Frames.{apart, lookup-mkdir_all}
use gotifacts.Ingest.{Settings, Step, then_files, content_path, sites_dir, versions_dir, tmp_dir}
use gotifacts.Ingest.Versions.{swap, make_room, archive_version, prune_versions}
use gotifacts.Ingest.Isolation.Steps.{
  mkdir_all-Keeps, make_room-Keeps, prune_versions-Keeps, parent_cases,
}
use gotifacts.Files.Moves.{
  lookup-moved_to, lookup-moved_from, lookup-removed, rename-eq-ok, not_above_parent,
}

pub then_files-eq-ok :
    (s : Step) (next : Disk → Step)
    → (then_files s next).1 ≡ ok tt
    → (s.1 ≡ ok tt) × (then_files s next ≡ next s.0) × ((next s.0).1 ≡ ok tt)
unfolding then_files
then_files-eq-ok (d, err e) next h = absurd (cc)
then_files-eq-ok (d, ok tt) next h = (refl, refl, h)

module _ (stamp : ℕ → Text) (cfg : Settings) (sp : SitePath) (now : ℕ) where
  abbrev place : FilePath
  place = content_path sites_dir sp

  abbrev versions : FilePath
  versions = content_path versions_dir sp

  at-apart : (p : FilePath) → apart (versions ++ p) place ≡ true
  unfolding content_path apart text_eq
  at-apart p = refl

  versions-apart : (q : FilePath) → apart versions (place ++ q) ≡ true
  unfolding content_path apart text_eq
  versions-apart q = refl

  stage-apart : (x : Text) (r : FilePath) → apart place (tmp_dir ++ x ∷ r) ≡ true
  unfolding content_path apart text_eq
  stage-apart x r = refl

  archive-apart : (x : Text) (r : FilePath) → apart versions (tmp_dir ++ x ∷ r) ≡ true
  unfolding content_path apart text_eq
  archive-apart x r = refl

  -- What stands below the place of the content when room is made for new content.
  archived-gone :
      (d : Disk) (r : FilePath)
      → (archive_version stamp cfg d place sp now).1 ≡ ok tt
      → lookup (archive_version stamp cfg d place sp now).0 (place ++ r) ≡ none
  unfolding archive_version
  archived-gone d r h =
      let (_, e1, h1) = then_files-eq-ok (mkdir_all d versions) _ h in
      let d1 = (mkdir_all d versions).0 in
      let at = versions ++ stamp now ∷ [] in
      let (h2, e2, h3) = then_files-eq-ok (rename d1 place at) _ h1 in
      let (e3, _) = rename-eq-ok d1 place at h2 in
      let gone : lookup (rename d1 place at).0 (place ++ r) ≡ none =
        rw e3 (lookup-moved_from place at r d1 (at-apart (stamp now ∷ []))) in
      let pruned : lookup (prune_versions cfg (rename d1 place at).0 versions).0 (place ++ r)
          ≡ none =
        prune_versions-Keeps (place ++ r) none cfg (rename d1 place at).0 versions
          (versions-apart r) gone in
      subst (λ (z : Step). lookup z.0 (place ++ r) ≡ none) (sym (e1 ∙ e2)) pruned

  chosen :
      (b : Bool) (s : Step) (r : FilePath)
      → (s.1 ≡ ok tt → lookup s.0 (place ++ r) ≡ none)
      → (d : Disk) → (if b then s else (remove_all d place, ok tt)).1 ≡ ok tt
      → lookup (if b then s else (remove_all d place, ok tt)).0 (place ++ r) ≡ none
  chosen true s r k d h = k h
  chosen false s r k d h = lookup-removed d place r

  room-made :
      (d : Disk) (r : FilePath)
      → (lookup d place ≡ none → lookup d (place ++ r) ≡ none)
      → (make_room stamp cfg d place sp now).1 ≡ ok tt
      → lookup (make_room stamp cfg d place sp now).0 (place ++ r) ≡ none
  unfolding make_room
  room-made d r tree h = elim (Option-cases (lookup d place)) [
    | inl e ↦ rw (e, make_room) (tree e)
    | inr (n, e) ↦
        rw (e, make_room)
          (chosen cfg.versioning_enabled (archive_version stamp cfg d place sp now) r
            (archived-gone d r) d (rw (e, make_room) at h))
  ]

  place-kept :
      (d : Disk) (r : FilePath)
      → lookup (mkdir_all d (parent place)).0 (place ++ r) ≡ lookup d (place ++ r)
  unfolding content_path
  place-kept d r =
      lookup-mkdir_all d (parent place) (place ++ r)
        (not_above_parent (codes "sites") (split b'/' (content_dir sp)) r)

  bare : (d : Disk) → lookup (mkdir_all d (parent place)).0 place ≡ lookup d place
  bare d =
      subst (λ z. lookup (mkdir_all d (parent place)).0 z ≡ lookup d z) (append-nil place)
        (place-kept d [])

  -- If the swap succeeds, what stood in the staging directory, path by path, stands at the place of
  -- the content; below a place with no directory the disk must have no entries before.
  pub swap_live :
      (d : Disk) (x : Text) (r : FilePath)
      → (lookup d place ≡ none → lookup d (place ++ r) ≡ none)
      → (swap stamp cfg d (tmp_dir ++ x ∷ []) place sp now).1 ≡ ok tt
      → lookup (swap stamp cfg d (tmp_dir ++ x ∷ []) place sp now).0 (place ++ r)
        ≡ lookup d (tmp_dir ++ x ∷ r)
  unfolding swap
  swap_live d x r tree h =
      let stage = tmp_dir ++ x ∷ [] in
      let q = tmp_dir ++ x ∷ r in
      let o = lookup d q in
      let made = mkdir_all d (parent place) in
      let (_, e1, h1) = then_files-eq-ok made _ h in
      let room = make_room stamp cfg made.0 place sp now in
      let (h2, e2, h3) = then_files-eq-ok room _ h1 in
      let (e3, _) = rename-eq-ok room.0 stage place h3 in
      let kept : lookup room.0 q ≡ o =
        make_room-Keeps q o stamp cfg sp now (archive-apart x r) made.0 place (stage-apart x r)
          (mkdir_all-Keeps q o d (parent place) (parent_cases q o place (stage-apart x r)) refl) in
      let tree1 : lookup made.0 place ≡ none → lookup made.0 (place ++ r) ≡ none =
        λ k. place-kept d r ∙ tree (sym (bare d) ∙ k) in
      let free : lookup room.0 (place ++ r) ≡ none = room-made made.0 r tree1 h2 in
      ap (λ (z : Step). lookup z.0 (place ++ r)) (e1 ∙ e2)
      ∙ ap (λ (z : Disk). lookup z (place ++ r)) e3
      ∙ lookup-moved_to stage place r room.0 free
      ∙ kept
