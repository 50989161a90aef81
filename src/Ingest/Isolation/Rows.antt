-- ===== src/Ingest/Isolation/Rows.antt =====
-- internal/ingest/ingest.go and versions.go: what the registry is told about one site keeps the row
-- of every other.
use gotifacts.Prelude.{ℕ, ◌≡◌, ◌∙◌, true, Option, Result-cases, inl, inr, Result, ok, err}
use gotifacts.Text.{Text}
use gotifacts.Router.SitePath.{SitePath}
use gotifacts.Store.Site.{Site, StoreError}
use gotifacts.Store.Sites.{Table, upsert_site, upsert_site_touch, set_site_size}
use gotifacts.Store.Sites.Lifecycle.{Op, upsert, touch, resize, icon, run, view}
use gotifacts.Store.Sites.Isolation.{run-other}
use gotifacts.Files.{FilePath, Node, Disk, remove_all, parent, bytes_below}
use gotifacts.Files.Frames.{apart}
use gotifacts.Ingest.{
  Published, IngestError, Step, content_path, sites_dir, deleted_dir, finish_files,
}
use gotifacts.Ingest.Trash.{after_row, drop_quarantine}
use gotifacts.Ingest.Versions.{record_rollback, record_promoted}
use gotifacts.Ingest.Publish.{Meta, Publication, clear_stage, record_publish, site_input}
use gotifacts.Ingest.Isolation.Steps.{Keeps, remove_all-Keeps, prune_empty_dirs-Keeps, parent_cases}
use gotifacts.Ingest.Isolation.Regions.{Tree, quarantine, root_of}

-- What stands at `q` is `o`, and the row of `t` is `v`.
module _ (t : SitePath) (q : FilePath) (o : Option Node) (v : Option Site) where
  abbrev pub Same : Published → Type 0
  Same p = Keeps q o p.disk × (view p.sites t.group t.slug ≡ v)

  abbrev pub OtherKey : Text → Text → Type 0
  OtherKey g s = ¬ ((g ≡ t.group) × (s ≡ t.slug))

  pub run-Same :
      (d : Disk) (x : Table) (g s : Text) (ts : ℕ) (op : Op)
      → OtherKey g s
      → Same (record { disk = d; sites = x })
      → Same (record { disk = d; sites = (run x g s ts op).0 })
  run-Same d x g s ts op ne (k, e) = (k, run-other x g s t.group t.slug ts op ne ∙ e)

  finish_files-Same :
      (x : Table) (s : Step) → Same (record { disk = s.0; sites = x }) → Same (finish_files x s).0
  unfolding finish_files
  finish_files-Same x (d, err e) h = h
  finish_files-Same x (d, ok u) h = h

  pub after_row-Same :
      (d : Disk) (next : Disk → Step) (a : Table × Result StoreError (Unit {0}))
      → Keeps q o (next d).0
      → Same (record { disk = d; sites = a.0 })
      → Same (after_row d next a).0
  unfolding after_row
  after_row-Same d next (x, err e) k h = h
  after_row-Same d next (x, ok u) k (_, e) = finish_files-Same x (next d) (k, e)

  pub clear_stage-Same :
      (stage : FilePath) (a : Published × Result IngestError Publication)
      → apart stage q ≡ true
      → Same a.0
      → Same (clear_stage stage a).0
  unfolding clear_stage
  clear_stage-Same stage (p, r) a (k, e) = (remove_all-Keeps q o p.disk stage a k, e)

  module _ (sp : SitePath) (ne : OtherKey sp.group sp.slug)
      (away : (a : Tree) → apart (content_path (root_of a) sp) q ≡ true) (now : ℕ) where
    pub drop_quarantine-Keeps : (d : Disk) → Keeps q o d → Keeps q o (drop_quarantine d sp)
    unfolding drop_quarantine
    drop_quarantine-Keeps d k =
        let gone = content_path deleted_dir sp in
        prune_empty_dirs-Keeps q o (remove_all d gone) (parent gone) deleted_dir
          (parent_cases q o gone (away quarantine))
          (remove_all-Keeps q o d gone (away quarantine) k)

    module _ (detect_favicon : Disk → FilePath → Text × Text) where
      pub record_rollback-Same :
          (x : Table) (s : Step)
          → Same (record { disk = s.0; sites = x })
          → Same (record_rollback detect_favicon x sp now s).0
      unfolding record_rollback run
      record_rollback-Same x (d, err e) h = h
      record_rollback-Same x (d, ok u) h =
          let live_path = content_path sites_dir sp in
          let touched = run-Same d x sp.group sp.slug now touch ne h in
          let x1 = (upsert_site_touch x sp.group sp.slug now).0 in
          let sized =
            run-Same d x1 sp.group sp.slug now (resize (bytes_below d live_path)) ne touched in
          let x2 = set_site_size x1 sp.group sp.slug (bytes_below d live_path) in
          let found = detect_favicon d live_path in
          let drawn = run-Same d x2 sp.group sp.slug now (icon found.0 found.1) ne sized in
          elim (Result-cases (upsert_site_touch x sp.group sp.slug now).1) [
            | inl (e, r) ↦ rw (r, record_rollback) touched
            | inr (a, r) ↦ rw (r, record_rollback) drawn
          ]

      pub record_publish-Same :
          (date_text : ℕ → Text) (stamp : ℕ → Text) (base : Text) (x : Table) (m : Meta) (s : Step)
          → Same (record { disk = s.0; sites = x })
          → Same (record_publish stamp date_text detect_favicon base x sp m now s).0
      unfolding record_publish run
      record_publish-Same date_text stamp base x m (d, err e) h = h
      record_publish-Same date_text stamp base x m (d, ok u) h =
          let live_path = content_path sites_dir sp in
          let input = site_input m (date_text now) (bytes_below d live_path) in
          let x1 = (upsert_site x sp.group sp.slug input now).0 in
          let written = run-Same d x sp.group sp.slug now (upsert input) ne h in
          let found = detect_favicon d live_path in
          let drawn = run-Same d x1 sp.group sp.slug now (icon found.0 found.1) ne written in
          elim (Result-cases (upsert_site x sp.group sp.slug input now).1) [
            | inl (e, r) ↦ rw (r, record_publish) written
            | inr (a, r) ↦ rw (r, record_publish) drawn
          ]

    pub record_promoted-Same :
        (x : Table) (stage : FilePath) (s : Step)
        → apart stage q ≡ true
        → Same (record { disk = s.0; sites = x })
        → Same (record_promoted x sp stage now s).0
    unfolding record_promoted run
    record_promoted-Same x stage (d, err e) a (k, h) = (remove_all-Keeps q o d stage a k, h)
    record_promoted-Same x stage (d, ok u) a (k, h) =
        let gone = remove_all d stage in
        let touched =
          run-Same gone x sp.group sp.slug now touch ne (remove_all-Keeps q o d stage a k, h) in
        let x1 = (upsert_site_touch x sp.group sp.slug now).0 in
        let sized =
          run-Same gone x1 sp.group sp.slug now (resize (bytes_below d (content_path sites_dir sp)))
            ne touched in
        elim (Result-cases (upsert_site_touch x sp.group sp.slug now).1) [
          | inl (e, r) ↦ rw (r, record_promoted) touched
          | inr (b, r) ↦ rw (r, record_promoted) sized
        ]
