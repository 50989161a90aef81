-- ===== src/Ingest/Changes.antt =====
-- internal/ingest/ingest.go and versions.go: the operations on one site, as values, with the state
-- that each leaves.
use gotifacts.Prelude.{ℕ, ◌≢◌, Bool, Option, none, some, ok}
use gotifacts.Text.{Text}
use gotifacts.Router.SitePath.{SitePath, IsValid, new_site_path}
use gotifacts.Archive.{Limits}
use gotifacts.Archive.Paths.{IsName}
use gotifacts.Files.{FilePath, Disk}
use gotifacts.Ingest.{Settings, Published}
use gotifacts.Ingest.Trash
use gotifacts.Ingest.Versions.{rollback, rollback_to}
use gotifacts.Ingest.Publish.{Meta, Payload, publish}

-- The operations that change what a site serves, with their inputs.
pub data Change : Type 0 where
  publishing : Meta → Payload → Option Text → Change
  unpublishing restoring purging : Text → Text → Change
  rolling_back : SitePath → Change
  rolling_back_to : SitePath → Text → Option Text → Change

module _ (refuses : Text → Bool) (stamp date_text : ℕ → Text)
    (detect_favicon : Disk → FilePath → Text × Text) (cfg : Settings) (lim : Limits) (base : Text)
    (now : ℕ) (p : Published) where
  -- The state that an operation leaves.
  unfoldable pub run_change : Change → Published
  run_change (publishing m payload drawn) =
      (publish stamp date_text detect_favicon refuses cfg lim base p m payload drawn now).0
  run_change (unpublishing group slug) = (Trash.unpublish p group slug now).0
  run_change (restoring group slug) = (Trash.restore p group slug now).0
  run_change (purging group slug) = (Trash.purge p group slug).0
  run_change (rolling_back sp) = (rollback stamp detect_favicon cfg p sp now).0
  run_change (rolling_back_to sp rev drawn) = (rollback_to stamp cfg p sp rev drawn now).0

-- The name of a staging directory: hexadecimal digits.
abbrev pub IsDraw : Option Text → Type 0
IsDraw none = Unit
IsDraw (some x) = IsName x

-- An operation that is about another site than `t`, or about none.
abbrev pub Elsewhere : SitePath → Change → Type 0
Elsewhere t (publishing m payload drawn) = (new_site_path m.group m.slug ≢ ok t) × IsDraw drawn
Elsewhere t (unpublishing group slug) = new_site_path group slug ≢ ok t
Elsewhere t (restoring group slug) = new_site_path group slug ≢ ok t
Elsewhere t (purging group slug) = new_site_path group slug ≢ ok t
Elsewhere t (rolling_back sp) = IsValid sp × (sp ≢ t)
Elsewhere t (rolling_back_to sp rev drawn) = IsValid sp × (sp ≢ t)
