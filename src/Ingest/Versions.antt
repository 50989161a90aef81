-- ===== src/Ingest/Versions.antt =====
-- internal/ingest/ingest.go and versions.go: content goes live, and versions are kept. The name that
-- a time gives to a version, the draw of a name for a staging directory, and `detectFavicon`, which
-- reads the content of a site, are parameters.
use gotifacts.Prelude.{
  ℕ, ◌-◌, Bool, true, false, not, ◌||◌, ◌&&◌, List, [], ◌∷◌, ◌++◌, take, Option, none, some,
  if◌then◌else◌, Result, ok, err, length, leb, ltb,
}
use gotifacts.Prelude.Tables.{remove_if}
use gotifacts.Text.{Text, codes, text_eq, contains_text}
use gotifacts.Router.SitePath.{SitePath}
use gotifacts.Store.Sites.{Table, upsert_site_touch, set_site_size, set_site_favicon}
use gotifacts.Files.{
  FilePath, Node, Disk, FileError, not_exist, not_directory, not_empty, taken_path, path_eq, below,
  lookup, parent, mkdir_all, remove_all, rename, is_dir, read_dirs, bytes_below,
}
use gotifacts.Ingest.{
  Settings, Published, IngestError, registry, files, versioning_disabled, no_versions,
  revision_not_found, no_stage, sites_dir, versions_dir, tmp_dir, content_path, Step, then_files,
}

-- Go's order of strings, by bytes
unfoldable pub text_le : Text → Text → Bool
text_le [] t = true
text_le (c ∷ s) [] = false
text_le (c ∷ s) (d ∷ t) = let rest = text_le s t in ltb c d || (leb c d && rest)

unfoldable pub insert_text : Text → List Text → List Text
insert_text s [] = s ∷ []
insert_text s (t ∷ ts) = let rest = insert_text s ts in if text_le s t then s ∷ t ∷ ts else t ∷ rest

-- sort.Strings
unfoldable pub sort_texts : List Text → List Text
sort_texts [] = []
sort_texts (s ∷ ts) = insert_text s (sort_texts ts)

-- How `listVersions` treats what ReadDir returns.
unfoldable pub listed : Result FileError (List Text) → Result FileError (List Text)
listed (ok names) = ok (sort_texts names)
listed (err not_exist) = ok []
listed (err not_directory) = err not_directory
listed (err not_empty) = err not_empty
listed (err taken_path) = err taken_path

-- listVersions
unfoldable pub list_versions : Disk → FilePath → Result FileError (List Text)
list_versions d root = listed (read_dirs d root)

-- The loop of `pruneVersions`.
unfoldable pub remove_each : Disk → FilePath → List Text → Disk
remove_each d root [] = d
remove_each d root (v ∷ vs) = remove_each (remove_all d (root ++ v ∷ [])) root vs

-- pruneVersions
unfoldable pub prune_versions : Settings → Disk → FilePath → Step
prune_versions cfg d root = elim (list_versions d root) [
  | err e ↦ (d, err e)
  | ok vs ↦
      if leb (length vs) cfg.versioning_keep
      then (d, ok tt)
      else (remove_each d root (take (length vs - cfg.versioning_keep) vs), ok tt)
]

abbrev pub last_text : List Text → Option Text
last_text [] = none
last_text (s ∷ []) = some s
last_text (s ∷ t ∷ ts) = last_text (t ∷ ts)

abbrev pub current_revision : Text
current_revision = codes "current"

-- RevisionDir
unfoldable pub revision_dir : Disk → SitePath → Text → Result IngestError FilePath
revision_dir d sp rev =
    if text_eq rev [] || text_eq rev current_revision
    then if is_dir d (content_path sites_dir sp)
      then ok (content_path sites_dir sp)
      else err revision_not_found
    else elim (list_versions d (content_path versions_dir sp)) [
      | err e ↦ err (files e)
      | ok vs ↦
          if contains_text vs rev
          then ok (content_path versions_dir sp ++ rev ∷ [])
          else err revision_not_found
    ]

-- A directory or a file is put where it goes, in place of a file that is there.
unfoldable pub put : Disk → FilePath → Node → Disk
put d p n = (p, n) ∷ remove_if (λ (e : FilePath × Node). path_eq p e.0) d

-- copyDir into a directory that is there, for the entries of a disk that are given
unfoldable pub copy_entries : Disk → Disk → FilePath → FilePath → Disk
copy_entries d [] src dst = d
copy_entries d ((p, n) ∷ es) src dst =
    let rest = copy_entries d es src dst in
    elim (below src p) [ none ↦ rest | some r ↦ put rest (dst ++ r) n ]

-- newStageDir
unfoldable pub new_stage_dir : Disk → Option Text → Disk × Result IngestError FilePath
new_stage_dir d drawn =
    let (d1, made) = mkdir_all d tmp_dir in
    elim made [
      | err e ↦ (d1, err (files e))
      | ok _ ↦ elim drawn [
        | none ↦ (d1, err no_stage)
        | some x ↦
            let (d2, ready) = mkdir_all d1 (tmp_dir ++ x ∷ []) in
            elim ready [ err e ↦ (d2, err (files e)) | ok _ ↦ (d2, ok (tmp_dir ++ x ∷ [])) ]
      ]
    ]

-- Revision, without its time
pub record Revision : Type 0 where
  pub id : Text
  pub current : Bool
  pub size : ℕ

-- The loop of `ListRevisions` over the versions, from the last to the first.
unfoldable pub archived_revisions : Disk → FilePath → List Text → List Revision → List Revision
archived_revisions d root [] newer = newer
archived_revisions d root (v ∷ vs) newer =
    archived_revisions d root vs
      (record { id = v; current = false; size = bytes_below d (root ++ v ∷ []) } ∷ newer)

-- Publisher.ListRevisions
unfoldable pub list_revisions : Disk → SitePath → Result FileError (List Revision)
list_revisions d sp =
    let live = content_path sites_dir sp in
    let root = content_path versions_dir sp in
    let first =
      if is_dir d live
      then record { id = current_revision; current = true; size = bytes_below d live } ∷ []
      else [] in
    elim (list_versions d root) [
      | err e ↦ err e
      | ok vs ↦ ok (first ++ archived_revisions d root vs [])
    ]

-- The end of `Rollback`: the registry follows the content.
unfoldable pub record_rollback :
    (Disk → FilePath → Text × Text)
    → Table
    → SitePath
    → ℕ
    → Step
    → Published × Result IngestError (Unit {0})
record_rollback detect_favicon t sp now (d, err e) = (record { disk = d; sites = t }, err (files e))
record_rollback detect_favicon t sp now (d, ok _) =
    let live = content_path sites_dir sp in
    let (t1, touched) = upsert_site_touch t sp.group sp.slug now in
    elim touched [
      | err e ↦ (record { disk = d; sites = t1 }, err (registry e))
      | ok _ ↦
          let (icon, content_type) = detect_favicon d live in
          let t2 = set_site_size t1 sp.group sp.slug (bytes_below d live) in
          (
            record { disk = d; sites = set_site_favicon t2 sp.group sp.slug icon content_type },
            ok tt,
          )
    ]

-- The end of `RollbackTo`; the staging directory is removed whatever happens.
unfoldable pub record_promoted :
    Table → SitePath → FilePath → ℕ → Step → Published × Result IngestError (Unit {0})
record_promoted t sp stage now (d, err e) =
    (record { disk = remove_all d stage; sites = t }, err (files e))
record_promoted t sp stage now (d, ok _) =
    let (t1, touched) = upsert_site_touch t sp.group sp.slug now in
    elim touched [
      | err e ↦ (record { disk = remove_all d stage; sites = t1 }, err (registry e))
      | ok _ ↦
          let t2 = set_site_size t1 sp.group sp.slug (bytes_below d (content_path sites_dir sp)) in
          (record { disk = remove_all d stage; sites = t2 }, ok tt)
    ]

module _ (stamp : ℕ → Text) where
  -- archiveVersion
  unfoldable pub archive_version : Settings → Disk → FilePath → SitePath → ℕ → Step
  archive_version cfg d live sp now =
      let root = content_path versions_dir sp in
      then_files (mkdir_all d root) (λ d1.
        then_files (rename d1 live (root ++ stamp now ∷ [])) (λ d2. prune_versions cfg d2 root))

  -- The part of `swap` that makes room.
  unfoldable pub make_room : Settings → Disk → FilePath → SitePath → ℕ → Step
  make_room cfg d live sp now = elim (lookup d live) [
    | none ↦ (d, ok tt)
    | some _ ↦
        if cfg.versioning_enabled
        then archive_version cfg d live sp now
        else (remove_all d live, ok tt)
  ]

  -- swap
  unfoldable pub swap : Settings → Disk → FilePath → FilePath → SitePath → ℕ → Step
  swap cfg d stage live sp now =
      then_files (mkdir_all d (parent live))
        (λ d1. then_files (make_room cfg d1 live sp now) (λ d2. rename d2 stage live))

  -- The middle of `Rollback`, on the files.
  unfoldable pub promote : Settings → Disk → SitePath → Text → ℕ → Step
  promote cfg d sp version now =
      let live = content_path sites_dir sp in
      let archived : Step = elim (lookup d live) [
        | none ↦ (d, ok tt)
        | some _ ↦ archive_version cfg d live sp now
      ] in
      then_files archived (λ d1.
        then_files (mkdir_all d1 (parent live))
          (λ d2. rename d2 (content_path versions_dir sp ++ version ∷ []) live))

  module _ (detect_favicon : Disk → FilePath → Text × Text) where
    -- Publisher.Rollback
    unfoldable pub rollback :
        Settings → Published → SitePath → ℕ → Published × Result IngestError (Unit {0})
    rollback cfg p sp now =
        if not cfg.versioning_enabled
        then (p, err versioning_disabled)
        else elim (list_versions p.disk (content_path versions_dir sp)) [
          | err e ↦ (p, err no_versions)
          | ok vs ↦ elim (last_text vs) [
            | none ↦ (p, err no_versions)
            | some latest ↦
                record_rollback detect_favicon p.sites sp now (promote cfg p.disk sp latest now)
          ]
        ]

  -- Publisher.RollbackTo
  unfoldable pub rollback_to :
      Settings
      → Published
      → SitePath
      → Text
      → Option Text
      → ℕ
      → Published × Result IngestError (Unit {0})
  rollback_to cfg p sp rev drawn now =
      if not cfg.versioning_enabled
      then (p, err versioning_disabled)
      else if text_eq rev [] || text_eq rev current_revision
      then (p, ok tt)
      else elim (revision_dir p.disk sp rev) [
        | err e ↦ (p, err e)
        | ok src ↦
            let (d, staged) = new_stage_dir p.disk drawn in
            elim staged [
              | err e ↦ (record p { disk = d }, err e)
              | ok stage ↦
                  record_promoted p.sites sp stage now
                    (swap cfg (copy_entries d d src stage) stage (content_path sites_dir sp) sp now)
            ]
      ]
