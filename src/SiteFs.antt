-- ===== src/SiteFs.antt =====
-- internal/sitefs/sitefs.go: paths within published content, the walk over its files, and the test
-- for text. The content sniffing of `net/http` and the parser of `mime` are parameters. The
-- publisher makes directories and regular files only, so that no symbolic link is ever met.
pub mod Joining
mod Tests
use gotifacts.Prelude.{
  ℕ, Bool, true, false, not, ◌&&◌, ◌||◌, List, [], ◌∷◌, ◌++◌, Option, none, some, ◌==◌,
  if◌then◌else◌, ltb, Result, ok, err, ◌>>=◌, ◌>>◌, fail_if, length, take,
}
use gotifacts.Text.{Text, codes, text_eq, has_prefix, trim, split, join, contains_text}
use gotifacts.Text.Utf8.{valid, trim_last, utf_max}
use gotifacts.Archive.{clean, join_path}
use gotifacts.Files.{FilePath, to_text, to_path, Node, directory, file, Disk, below, lookup}

pub data SiteFsError : Type 0 where
  escapes_root missing not_a_directory : SiteFsError

-- SafeJoin
unfoldable pub safe_join : Text → Text → Result SiteFsError Text
safe_join root rel =
    let target = join_path root (clean (b'/' ∷ rel)) in
    if not (text_eq target root) && not (has_prefix target (root ++ b'/' ∷ []))
    then err escapes_root
    else ok target

-- The loop of `checkPrefixDir`, from a directory down the names of a path.
unfoldable pub check_dirs : Disk → FilePath → FilePath → Result SiteFsError (Unit {0})
check_dirs d at [] = ok tt
check_dirs d at (x ∷ rest) =
    let deeper = check_dirs d (at ++ x ∷ []) rest in
    elim (lookup d (at ++ x ∷ [])) [
      | none ↦ err missing
      | some n ↦ elim n [ directory ↦ deeper | file _ ↦ err not_a_directory ]
    ]

-- checkPrefixDir, for a directory that was joined below the root
unfoldable pub check_prefix_dir : Disk → FilePath → FilePath → Result SiteFsError (Unit {0})
check_prefix_dir d root at = elim (below root at) [
  | none ↦ err escapes_root
  | some rest ↦ check_dirs d root rest
]

-- A regular file, with its path relative to the root.
pub record Entry : Type 0 where
  pub rel : Text
  pub bytes : Text

-- Go's order of strings, by bytes
unfoldable pub rel_lt : Text → Text → Bool
rel_lt s [] = false
rel_lt [] (d ∷ t) = true
rel_lt (c ∷ s) (d ∷ t) = let rest = rel_lt s t in ltb c d || (c == d && rest)

unfoldable pub insert_entry : Entry → List Entry → List Entry
insert_entry e [] = e ∷ []
insert_entry e (f ∷ fs) =
    let rest = insert_entry e fs in if rel_lt f.rel e.rel then f ∷ rest else e ∷ f ∷ fs

-- The regular files below a directory, with their paths relative to the root: filepath.WalkDir and
-- the sort of `Walk`.
unfoldable pub files_under : FilePath → FilePath → Disk → List Entry
files_under root at [] = []
files_under root at ((q, directory) ∷ d) = files_under root at d
files_under root at ((q, file bytes) ∷ d) =
    let others = files_under root at d in
    elim (below at q) [
      | none ↦ others
      | some _ ↦ elim (below root q) [
        | none ↦ others
        | some r ↦ insert_entry (record { rel = join b'/' r; bytes = bytes }) others
      ]
    ]

-- The first part of `Walk`: where it starts.
unfoldable pub walk_start : Disk → FilePath → Text → Result SiteFsError FilePath
walk_start d root prefix =
    let p = trim (λ c. c == b'/') prefix in
    if text_eq p [] then ok root else do
      fail_if (contains_text (split b'/' p) (codes "..")) escapes_root
      start ← safe_join (to_text root) p
      check_prefix_dir d root (to_path start)
      ok (to_path start)

-- Walk, as the files that its function is called with, in order
unfoldable pub walk : Disk → FilePath → Text → Result SiteFsError (List Entry)
walk d root prefix = do start ← walk_start d root prefix; ok (files_under root start d)

-- trimPartialRune
unfoldable pub trim_partial_rune : Text → Text
trim_partial_rune b = trim_last utf_max (length b) b

-- sniffLen
abbrev pub sniff_len : ℕ
sniff_len = 512

-- textMIMEs
abbrev text_mimes : List Text
text_mimes =
    codes "application/json"
    ∷ codes "application/ld+json"
    ∷ codes "application/xml"
    ∷ codes "application/xhtml+xml"
    ∷ codes "application/javascript"
    ∷ codes "application/x-javascript"
    ∷ codes "image/svg+xml"
    ∷ []

module _ (detect_content_type : Text → Text) (parse_media_type : Text → Option Text) where
  -- IsText
  unfoldable pub is_text : Text → Text × Bool
  unfolding contains_text has_prefix trim_partial_rune
  is_text head =
      let content_type = detect_content_type (take sniff_len head) in
      let mt : Text = elim (parse_media_type content_type) [ none ↦ content_type | some m ↦ m ] in
      (
        content_type,
        (has_prefix mt (codes "text/") || contains_text text_mimes mt)
            && valid (trim_partial_rune head),
      )
