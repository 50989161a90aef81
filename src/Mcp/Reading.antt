-- ===== src/Mcp/Reading.antt =====
-- internal/mcpserver/read.go: the tools that read a site for a connection. A file is read at once,
-- from the disk as it is at that time; logging and the texts for a reader are left out.
pub mod Chunk
pub mod Search
pub mod Tools
pub mod Paging
pub mod Matching
pub mod Access
mod Tests
use gotifacts.Prelude.{
  ℕ, ◌+◌, ◌-◌, Bool, true, false, not, ◌&&◌, ◌||◌, List, [], ◌∷◌, ◌++◌, Option, none, some, ltb,
  leb, ◌==◌, if◌then◌else◌, Result, ok, err, length, take, drop,
}
use gotifacts.Prelude.Int.{ℤ, pos, negsuc}
use gotifacts.Text.{Text, codes, text_eq, trim_space, has_suffix, split, join}
use gotifacts.Archive.{clean}
use gotifacts.Keys.{cap_read}
use gotifacts.Auth.{Principal, can}
use gotifacts.Router.SitePath.{SitePath, new_site_path, url}
use gotifacts.Store.Site.{Site, is_deleted}
use gotifacts.Store.Sites.{get_site}
use gotifacts.Files.{FilePath, Node, directory, file, Disk, lookup}
use gotifacts.SiteFs.{SiteFsError, Entry, walk}
use gotifacts.Ingest.{Published, IngestError, revision_not_found}
use gotifacts.Ingest.Versions.{revision_dir, current_revision}

-- What a tool refuses a call with.
pub data ReadError : Type 0 where
  authentication_required empty_slug failed_to_read file_not_found bad_prefix binary_file
        empty_query :
      ReadError
  not_readable : Text → Text → ReadError

-- readTarget
pub record ReadTarget : Type 0 where
  pub group : Text
  pub slug : Text
  pub dir : FilePath

-- The group of a call, or the configured one if it is blank.
unfoldable pub target_group : Text → Text → Text
target_group mcp_group group_in =
    let group = trim_space group_in in if text_eq group [] then mcp_group else group

-- The answer to an error of `RevisionDir`.
unfoldable pub dir_error : Text → Text → IngestError → ReadError
dir_error group slug revision_not_found = not_readable group slug
dir_error group slug e = failed_to_read

-- The last checks of `authorizeRead`, for a caller that may read.
unfoldable pub locate : Published → Text → Text → Result ReadError ReadTarget
locate p group slug = elim (new_site_path group slug) [
  | err e ↦ err (not_readable group slug)
  | ok sp ↦ elim (get_site p.sites sp.group sp.slug) [
    | err e ↦ err (not_readable group slug)
    | ok row ↦ elim (revision_dir p.disk sp current_revision) [
      | err e ↦ err (dir_error group slug e)
      | ok dir ↦ ok (record { group = group; slug = slug; dir = dir })
    ]
  ]
]

-- The checks of `authorizeRead` on a principal.
unfoldable pub authorize_as :
    Published → Text → Principal → Text → Text → Result ReadError ReadTarget
authorize_as p mcp_group who group_in slug_in =
    let group = target_group mcp_group group_in in
    let slug = trim_space slug_in in
    if text_eq slug []
    then err empty_slug
    else if not (can who cap_read group slug)
    then err (not_readable group slug)
    else locate p group slug

-- authorizeRead
unfoldable pub authorize_read :
    Published → Text → Option Principal → Text → Text → Result ReadError ReadTarget
authorize_read p mcp_group none group_in slug_in = err authentication_required
authorize_read p mcp_group (some who) group_in slug_in =
    authorize_as p mcp_group who group_in slug_in

-- clampLimit
unfoldable pub clamp_limit : ℤ → ℕ → ℕ → ℕ
clamp_limit (negsuc n) def limit = def
clamp_limit (pos n) def limit = if n == 0 then def else if leb n limit then n else limit

-- listFilesOutput
pub record FileListing : Type 0 where
  pub files : List Entry
  pub total : ℕ
  pub truncated : Bool

-- walkError
unfoldable pub walk_error : Text → ReadError
walk_error prefix = if text_eq prefix [] then failed_to_read else bad_prefix

-- The loop of `listFiles`.
unfoldable pub list_each : ℕ → List Entry → FileListing → FileListing
list_each limit [] out = out
list_each limit (e ∷ es) out = list_each limit es (record out {
  total = out.total + 1;
  files = if ltb (length out.files) limit then out.files ++ e ∷ [] else out.files;
})

-- listFiles, with its default and its largest limit
unfoldable pub list_files :
    Published → Text → Option Principal → Text → Text → Text → ℤ → Result ReadError FileListing
list_files p mcp_group who group_in slug_in prefix limit =
    elim (authorize_read p mcp_group who group_in slug_in) [
      | err e ↦ err e
      | ok t ↦ elim (walk p.disk t.dir prefix) [
        | err e ↦ err (walk_error prefix)
        | ok es ↦
            let out =
              list_each (clamp_limit limit 500 2000) es
                (record { files = []; total = 0; truncated = false }) in
            ok (record out { truncated = ltb (length out.files) out.total })
      ]
    ]

-- A regular file at a path relative to a directory.
unfoldable pub regular_at : Disk → FilePath → List Text → Option Text
regular_at d root rel = elim (lookup d (root ++ rel)) [
  | none ↦ none
  | some n ↦ elim n [ directory ↦ none | file bytes ↦ some bytes ]
]

unfoldable pub is_directory : Disk → FilePath → Bool
is_directory d p = elim (lookup d p) [
  | none ↦ false
  | some n ↦ elim n [ directory ↦ true | file _ ↦ false ]
]

abbrev index_html : List Text
index_html = codes "index.html" ∷ []

abbrev llms_txt : List Text
llms_txt = codes "llms.txt" ∷ []

abbrev pub is_found : Option Text → Bool
is_found none = false
is_found (some bytes) = true

-- The names of a rooted path, none for the root.
abbrev pub names_of : Text → List Text
names_of s = elim (split b'/' s) [
  | [] ↦ []
  | x ∷ names ↦ elim names [ [] ↦ [] | y ∷ rest ↦ if text_eq y [] then [] else y ∷ rest ]
]

-- resolveReadPath, as the names of the file and its bytes
unfoldable pub resolve_read_path : Disk → FilePath → Text → Option (List Text × Text)
resolve_read_path d root raw =
    let asked = trim_space raw in
    let p =
      if text_eq asked [] && is_found (regular_at d root llms_txt)
      then codes "llms.txt"
      else asked in
    let is_dir = text_eq p [] || has_suffix p (codes "/") in
    let cleaned = names_of (clean (b'/' ∷ p)) in
    let rel = if is_dir || length cleaned == 0 then cleaned ++ index_html else cleaned in
    let rel' = if is_directory d (root ++ rel) then rel ++ index_html else rel in
    elim (regular_at d root rel') [ none ↦ none | some bytes ↦ some (rel', bytes) ]

-- listSitesOutput, with a page of the rows
pub record SiteListing : Type 0 where
  pub sites : List Site
  pub total : ℕ

-- The filter of `listSites` on what the registry has listed.
unfoldable pub readable : Principal → List Site → List Site
readable who [] = []
readable who (r ∷ rows) =
    let rest = readable who rows in if can who cap_read r.group r.slug then r ∷ rest else rest

abbrev least : ℕ → ℕ → ℕ
least a b = if leb a b then a else b

-- listSites, for the rows that ListSites gives it
unfoldable pub list_sites : Option Principal → List Site → ℤ → ℤ → Result ReadError SiteListing
list_sites none rows limit offset = err authentication_required
list_sites (some who) rows limit offset =
    let mine = readable who rows in
    let start = least (elim offset [ pos n ↦ n | negsuc n ↦ 0 ]) (length mine) in
    let end = least (start + clamp_limit limit 50 200) (length mine) in
    ok (record { sites = take (end - start) (drop start mine); total = length mine })
