-- ===== src/Ingest/Trash.antt =====
-- internal/ingest/ingest.go: sites go to the quarantine, come back from it, and are purged.
use gotifacts.Prelude.{ℕ, ◌-◌, List, [], ◌∷◌, none, some, if◌then◌else◌, Result, ok, err, leb, ◌+◌}
use gotifacts.Text.{Text}
use gotifacts.Router.SitePath.{SitePath, new_site_path}
use gotifacts.Store.Site.{StoreError, Site}
use gotifacts.Store.Sites.{Table, soft_delete_site, restore_site, purge_deleted_site, delete_site}
use gotifacts.Files.{FilePath, Disk, lookup, parent, mkdir_all, remove_all, rename}
use gotifacts.Ingest.{
  Settings, Published, IngestError, invalid_path, registry, sites_dir, deleted_dir, content_path,
  Step, then_files, prune_empty_dirs, finish_files,
}

-- How `Unpublish` and `Restore` move a directory, if it is there, below another root.
unfoldable pub move_tree : Disk → FilePath → FilePath → FilePath → Step
move_tree d src dst stop = elim (lookup d src) [
  | none ↦ (d, ok tt)
  | some _ ↦ then_files (mkdir_all d (parent dst)) (λ d1.
      then_files (rename (remove_all d1 dst) src dst)
        (λ d2. (prune_empty_dirs d2 (parent src) stop, ok tt)))
]

-- What `Unpublish` and `Restore` do once the registry has answered.
unfoldable pub after_row :
    Disk
    → (Disk → Step)
    → Table × Result StoreError (Unit {0})
    → Published × Result IngestError (Unit {0})
after_row d next (t, err e) = (record { disk = d; sites = t }, err (registry e))
after_row d next (t, ok _) = finish_files t (next d)

-- Publisher.Unpublish
unfoldable pub unpublish : Published → Text → Text → ℕ → Published × Result IngestError (Unit {0})
unpublish p group slug now = elim (new_site_path group slug) [
  | err e ↦ (p, err (invalid_path e))
  | ok sp ↦
      after_row p.disk
        (λ d. move_tree d (content_path sites_dir sp) (content_path deleted_dir sp) sites_dir)
        (soft_delete_site p.sites group slug now)
]

-- Publisher.Restore
unfoldable pub restore : Published → Text → Text → ℕ → Published × Result IngestError (Unit {0})
restore p group slug now = elim (new_site_path group slug) [
  | err e ↦ (p, err (invalid_path e))
  | ok sp ↦
      after_row p.disk
        (λ d. move_tree d (content_path deleted_dir sp) (content_path sites_dir sp) deleted_dir)
        (restore_site p.sites group slug now)
]

-- The end of `Purge`, and of the loop body of `PurgeDeleted`.
unfoldable pub drop_quarantine : Disk → SitePath → Disk
drop_quarantine d sp =
    let gone = content_path deleted_dir sp in
    prune_empty_dirs (remove_all d gone) (parent gone) deleted_dir

-- Publisher.Purge
unfoldable pub purge : Published → Text → Text → Published × Result IngestError (Unit {0})
purge p group slug = elim (new_site_path group slug) [
  | err e ↦ (p, err (invalid_path e))
  | ok sp ↦
      after_row p.disk (λ d. (drop_quarantine d sp, ok tt)) (purge_deleted_site p.sites group slug)
]

-- ListDeletedBefore
unfoldable pub deleted_before : ℕ → List Site → List Site
deleted_before cutoff [] = []
deleted_before cutoff (r ∷ rows) =
    let rest = deleted_before cutoff rows in
    elim r.deleted_at [ none ↦ rest | some ts ↦ if leb ts cutoff then r ∷ rest else rest ]

-- One round of the loop of `PurgeDeleted`, with the number of sites that are purged.
unfoldable pub purge_site : Published × ℕ → Site → Published × ℕ
purge_site (p, n) r = elim (new_site_path r.group r.slug) [
  | err e ↦ (p, n)
  | ok sp ↦
      let (t, done) = delete_site p.sites r.group r.slug in
      (
        record { disk = drop_quarantine p.disk sp; sites = t },
        elim done [ err e ↦ n | ok _ ↦ n + 1 ],
      )
]

unfoldable pub purge_each : Published × ℕ → List Site → Published × ℕ
purge_each s [] = s
purge_each s (r ∷ rows) = purge_each (purge_site s r) rows

-- Publisher.PurgeDeleted
unfoldable pub purge_deleted : Settings → Published → ℕ → Published × ℕ
purge_deleted cfg p now =
    purge_each (p, 0) (deleted_before (now - cfg.deleted_site_ttl) p.sites.rows)
