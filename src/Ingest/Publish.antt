-- ===== src/Ingest/Publish.antt =====
-- internal/ingest/ingest.go: an upload is staged, checked and swapped in, and the registry follows;
-- sizes are measured again at start. The archive's readers are those of internal/archive, the texts
-- of times are parameters.
use gotifacts.Prelude.{
  ℕ, ◌==◌, Bool, List, [], ◌∷◌, ◌++◌, Option, none, some, if◌then◌else◌, Result, ok, err,
}
use gotifacts.Text.{Text, codes, text_eq, split}
use gotifacts.Router.SitePath.{SitePath, new_site_path, dir, url}
use gotifacts.Store.Site.{Site, SiteInput, is_deleted}
use gotifacts.Store.Sites.{Table, upsert_site, set_site_size, set_site_favicon}
use gotifacts.Archive.{
  ArchiveError, no_index, bad_archive, Limits, Content, Effect, make_dir, write, Outcome, TarStream,
  ZipEntry, start, extract_tar_gz, extract_zip,
}
use gotifacts.Archive.Writing.{write_single_index}
use gotifacts.Files.{
  to_text, to_path, FilePath, Disk, file, lookup, parent, mkdir_all, remove_all, bytes_below,
}
use gotifacts.Ingest.{
  Settings, Published, IngestError, invalid_path, registry, files, unpacking, sites_dir,
  content_path, Step,
}
use gotifacts.Ingest.Versions.{put, swap, new_stage_dir}

-- Meta
pub record Meta : Type 0 where
  pub group : Text
  pub slug : Text
  pub title : Text
  pub description : Text
  pub date : Text
  pub tags : List Text
  pub repo : Text
  pub preview : Text
  pub hidden : Bool

-- Kind, with the content that its reader gives; `none` if it cannot be opened as a zip archive
pub data Payload : Type 0 where
  bundle : TarStream → Payload
  single_page : Content → Payload
  zip : Option (List ZipEntry) → Payload

-- Result
pub record Publication : Type 0 where
  pub url : Text
  pub group : Text
  pub slug : Text
  pub updated_at : ℕ

-- What an extraction does, on the files: its last effect comes first.
unfoldable pub apply_effect : Effect → Disk → Disk
apply_effect (make_dir path) d = (mkdir_all d (to_path path)).0
apply_effect (write path bytes) d =
    let p = to_path path in put (mkdir_all d (parent p)).0 p (file bytes)

unfoldable pub apply_effects : List Effect → Disk → Disk
apply_effects [] d = d
apply_effects (e ∷ es) d = apply_effect e (apply_effects es d)

-- The switch of `Publish` on the kind of the payload.
unfoldable pub unpack : (Text → Bool) → Limits → Text → Payload → Outcome
unpack refuses lim stage (bundle stream) = extract_tar_gz refuses lim stage stream
unpack refuses lim stage (single_page page) = write_single_index refuses lim.max_bytes stage page
unpack refuses lim stage (zip none) = (start, some bad_archive)
unpack refuses lim stage (zip (some entries)) = extract_zip refuses lim stage entries

-- What `Publish` has staged, if it is to go live.
unfoldable pub staged : FilePath → Disk → Option ArchiveError → Result IngestError (Unit {0})
staged stage d (some e) = err (unpacking e)
staged stage d none = elim (lookup d (stage ++ codes "index.html" ∷ [])) [
  | none ↦ err (unpacking no_index)
  | some _ ↦ ok tt
]

-- The fields of a row that `Publish` writes.
unfoldable pub site_input : Meta → Text → ℕ → SiteInput
site_input m today size = record {
  title = m.title;
  description = m.description;
  date = if text_eq m.date [] then today else m.date;
  tags = m.tags;
  repo = m.repo;
  preview = m.preview;
  hidden = m.hidden;
  size = size;
}

-- The deferred removal of the staging directory.
unfoldable pub clear_stage :
    FilePath
    → Published × Result IngestError Publication
    → Published × Result IngestError Publication
clear_stage stage (p, r) = (record p { disk = remove_all p.disk stage }, r)

module _ (stamp date_text : ℕ → Text) (detect_favicon : Disk → FilePath → Text × Text) where
  -- The end of `Publish`: the registry follows the content.
  unfoldable pub record_publish :
      Text → Table → SitePath → Meta → ℕ → Step → Published × Result IngestError Publication
  record_publish base t sp m now (d, err e) = (record { disk = d; sites = t }, err (files e))
  record_publish base t sp m now (d, ok _) =
      let live = content_path sites_dir sp in
      let (t1, row) =
        upsert_site t sp.group sp.slug (site_input m (date_text now) (bytes_below d live)) now in
      elim row [
        | err e ↦ (record { disk = d; sites = t1 }, err (registry e))
        | ok r ↦
            let (icon, content_type) = detect_favicon d live in
            (
              record { disk = d; sites = set_site_favicon t1 sp.group sp.slug icon content_type },
              ok (record {
                url = url sp base;
                group = sp.group;
                slug = sp.slug;
                updated_at = r.updated_at;
              }),
            )
      ]

  -- The rest of `Publish`, with a staging directory.
  unfoldable pub publish_staged :
      (Text → Bool)
      → Settings
      → Limits
      → Text
      → Published
      → SitePath
      → Meta
      → Payload
      → FilePath
      → ℕ
      → Published × Result IngestError Publication
  publish_staged refuses cfg lim base p sp m payload stage now =
      let (done, failed) = unpack refuses lim (to_text stage) payload in
      let d = apply_effects done.effects p.disk in
      elim (staged stage d failed) [
        | err e ↦ (record p { disk = d }, err e)
        | ok _ ↦
            record_publish base p.sites sp m now
              (swap stamp cfg d stage (content_path sites_dir sp) sp now)
      ]

  -- Publisher.Publish
  unfoldable pub publish :
      (Text → Bool)
      → Settings
      → Limits
      → Text
      → Published
      → Meta
      → Payload
      → Option Text
      → ℕ
      → Published × Result IngestError Publication
  publish refuses cfg lim base p m payload drawn now = elim (new_site_path m.group m.slug) [
    | err e ↦ (p, err (invalid_path e))
    | ok sp ↦
        let (d, made) = new_stage_dir p.disk drawn in
        elim made [
          | err e ↦ (record p { disk = d }, err e)
          | ok stage ↦
              clear_stage stage
                (publish_staged refuses cfg lim base (record p { disk = d }) sp m payload stage now)
        ]
  ]

-- ListSites with hidden sites and no other filter, for a loop in which the order is not seen
unfoldable pub live_sites : List Site → List Site
live_sites [] = []
live_sites (r ∷ rows) = let rest = live_sites rows in if is_deleted r then rest else r ∷ rest

-- One round of the loop of `BackfillSizes`.
unfoldable pub backfill_size : Disk → Table → Site → Table
backfill_size d t r = elim (new_site_path r.group r.slug) [
  | err e ↦ t
  | ok sp ↦
      let at = sites_dir ++ split b'/' (dir sp) in
      elim (lookup d at) [
        | none ↦ t
        | some _ ↦
            let size = bytes_below d at in
            if size == r.size then t else set_site_size t r.group r.slug size
      ]
]

unfoldable pub backfill_each : Disk → Table → List Site → Table
backfill_each d t [] = t
backfill_each d t (r ∷ rows) = backfill_each d (backfill_size d t r) rows

-- Publisher.BackfillSizes
unfoldable pub backfill_sizes : Published → Published
backfill_sizes p = record p { sites = backfill_each p.disk p.sites (live_sites p.sites.rows) }
