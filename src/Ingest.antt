-- ===== src/Ingest.antt =====
-- internal/ingest/ingest.go and versions.go: the state of the publisher, and what its operations
-- share. A time is read once for an operation.
pub mod Versions
pub mod Trash
pub mod Publish
pub mod Changes
pub mod Isolation
pub mod Swapping
pub mod Live
pub mod Recovery
mod Tests
use gotifacts.Prelude.{
  ℕ, zero, suc, ◌-◌, Bool, true, false, not, ◌||◌, List, [], ◌∷◌, ◌++◌, Option, none, some,
  if◌then◌else◌, Result, ok, err, length, leb,
}
use gotifacts.Text.{Text, codes, split}
use gotifacts.Router.SitePath.{SitePath, PathError, content_dir}
use gotifacts.Archive.{ArchiveError}
use gotifacts.Store.Site.{StoreError}
use gotifacts.Store.Sites.{Table}
use gotifacts.Files.{FilePath, Disk, FileError, path_eq, is_below, parent, remove}

-- What internal/config sets for the publisher; the configuration refuses to keep no versions.
pub record Settings : Type 0 where
  pub versioning_enabled : Bool
  pub versioning_keep : ℕ
  pub deleted_site_ttl : ℕ

-- The state that a Publisher changes.
pub record Published : Type 0 where
  pub disk : Disk
  pub sites : Table

pub data IngestError : Type 0 where
  invalid_path : PathError → IngestError
  registry : StoreError → IngestError
  files : FileError → IngestError
  unpacking : ArchiveError → IngestError
  versioning_disabled no_versions revision_not_found no_stage : IngestError

-- Config.SitesDir, VersionsDir, DeletedDir and TmpDir
abbrev pub sites_dir : FilePath
sites_dir = codes "sites" ∷ []

abbrev pub versions_dir : FilePath
versions_dir = codes ".versions" ∷ []

abbrev pub deleted_dir : FilePath
deleted_dir = codes ".deleted" ∷ []

abbrev pub tmp_dir : FilePath
tmp_dir = codes ".tmp" ∷ []

-- filepath.Join(root, filepath.FromSlash(sp.ContentDir()))
unfoldable pub content_path : FilePath → SitePath → FilePath
content_path root sp = root ++ split b'/' (content_dir sp)

-- What calls of `os` leave, and the error that ends them.
abbrev pub Step : Type 0
Step = Disk × Result FileError (Unit {0})

unfoldable pub then_files : Step → (Disk → Step) → Step
then_files (d, err e) next = (d, err e)
then_files (d, ok _) next = next d

-- The loop of `pruneEmptyDirs`. A directory above `stop` has fewer names, so that as many rounds
-- as the first one has names are enough.
unfoldable pub prune_up : ℕ → Disk → FilePath → FilePath → Disk
prune_up zero d dir stop = d
prune_up (suc n) d dir stop =
    if path_eq dir stop || not (is_below stop dir)
    then d
    else let (d', r) = remove d dir in
      let above = prune_up n d' (parent dir) stop in elim r [ err e ↦ d' | ok _ ↦ above ]

-- pruneEmptyDirs
unfoldable pub prune_empty_dirs : Disk → FilePath → FilePath → Disk
prune_empty_dirs d dir stop = prune_up (length dir) d dir stop

-- The result of a step on the files, with the registry as it is.
unfoldable pub finish_files : Table → Step → Published × Result IngestError (Unit {0})
finish_files t (d, err e) = (record { disk = d; sites = t }, err (files e))
finish_files t (d, ok _) = (record { disk = d; sites = t }, ok tt)
