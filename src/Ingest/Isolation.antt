-- ===== src/Ingest/Isolation.antt =====
-- internal/ingest/ingest.go and versions.go: publishing, rolling back, deleting, restoring or
-- purging one site leaves every other site as it was, its files and its row.
pub mod Regions
pub mod Steps
pub mod Staging
mod Rows
mod Sites
pub use Regions.{Tree, live, archive, quarantine, root_of}
use gotifacts.Prelude.{ℕ, ◌≡◌, Bool, ◌++◌}
use gotifacts.Text.{Text}
use gotifacts.Router.SitePath.{SitePath, IsValid}
use gotifacts.Archive.{Limits}
use gotifacts.Store.Sites.Lifecycle.{view}
use gotifacts.Files.{FilePath, Disk, lookup}
use gotifacts.Ingest.{Settings, Published, content_path}
use gotifacts.Ingest.Trash
use Sites.{publish-Same, unpublish-Same, restore-Same, purge-Same, rollback-Same, rollback_to-Same}
use gotifacts.Ingest.Changes.{
  Change, publishing, unpublishing, restoring, purging, rolling_back, rolling_back_to, run_change,
  Elsewhere,
}

-- An operation on one site, with whatever payload and however it ends, leaves each path in the
-- content, the versions and the quarantine of every other valid site as it was, and its row too.
pub run_change-other :
    (refuses : Text → Bool) (stamp date_text : ℕ → Text)
    (detect_favicon : Disk → FilePath → Text × Text) (cfg : Settings) (lim : Limits) (base : Text)
    (now : ℕ) (p : Published) (t : SitePath) (tree : Tree) (r : FilePath) (c : Change)
    → IsValid t
    → Elsewhere t c
    → (lookup
          (run_change refuses stamp date_text detect_favicon cfg lim base now p c).disk
          (content_path (root_of tree) t ++ r)
        ≡ lookup p.disk (content_path (root_of tree) t ++ r))
      × (view
            (run_change refuses stamp date_text detect_favicon cfg lim base now p c).sites
            t.group
            t.slug
          ≡ view p.sites t.group t.slug)
unfolding run_change
run_change-other f s n i cfg lim b now p t tree r (publishing m payload drawn) w (ne, d) =
    publish-Same f s n i cfg lim b now p t w tree r m payload drawn ne d
run_change-other f s n i cfg lim b now p t tree r (unpublishing g k) w ne =
    unpublish-Same f s n i cfg lim b now p t w tree r g k ne
run_change-other f s n i cfg lim b now p t tree r (restoring g k) w ne =
    restore-Same f s n i cfg lim b now p t w tree r g k ne
run_change-other f s n i cfg lim b now p t tree r (purging g k) w ne =
    purge-Same f s n i cfg lim b now p t w tree r g k ne
run_change-other f s n i cfg lim b now p t tree r (rolling_back sp) w (v, ne) =
    rollback-Same f s n i cfg lim b now p t w tree r sp v ne
run_change-other f s n i cfg lim b now p t tree r (rolling_back_to sp rev drawn) w (v, ne) =
    rollback_to-Same f s n i cfg lim b now p t w tree r sp v ne rev drawn
