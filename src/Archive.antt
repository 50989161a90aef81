-- ===== src/Archive.antt =====
-- internal/archive/archive.go: the extraction of archives into a directory. The readers of tar and
-- zip are packages of Go: an archive is what they make of it, entry by entry. Whether the system
-- refuses a path, for a full disk or a directory that stands in its place, is a parameter.
pub mod Paths
pub mod SafeJoin
pub mod Confinement
pub mod Prefix
pub mod Bounds
pub mod Writing
mod Tests
use gotifacts.Prelude.{
  ℕ, ◌+◌, ◌-◌, ◌≤◌, Bool, true, false, not, ◌&&◌, ◌||◌, List, [], ◌∷◌, ◌++◌, Option, none, some,
  reverse, any, leb, ltb, ◌==◌, if◌then◌else◌, Result, ok, err, fail_if, ◌>>◌, ◌>>=◌, drop, take,
  length,
}
use gotifacts.Text.{
  Text, codes, text_eq, has_prefix, trim_prefix, index_byte, split, join, replace_byte,
  contains_text,
}

-- Limits
pub record Limits : Type 0 where
  pub max_bytes : ℕ
  pub max_entries : ℕ

-- The errors of an extraction, with those of the readers and of the system.
pub data ArchiveError : Type 0 where
  too_many_entries too_large unsafe_path unsupported no_index bad_archive refused : ArchiveError

-- The loop of filepath.Clean over the parts of a rooted path, with the parts kept in reverse.
unfoldable pub resolve : List Text → List Text → List Text
resolve kept [] = kept
resolve kept (p ∷ ps) =
    if text_eq p [] || text_eq p (codes ".")
    then resolve kept ps
    else if text_eq p (codes "..")
    then resolve (drop 1 kept) ps
    else resolve (p ∷ kept) ps

-- filepath.Clean of a rooted path
unfoldable pub clean : Text → Text
clean path = b'/' ∷ join b'/' (reverse (resolve [] (split b'/' path)))

-- filepath.Join of a rooted path and a nonempty one
unfoldable pub join_path : Text → Text → Text
join_path dir rel = clean (dir ++ b'/' ∷ rel)

-- strings.ReplaceAll(name, `\`, "/")
abbrev pub slashed : Text → Text
slashed name = replace_byte b'\\' b'/' name

-- cleanRel
unfoldable pub clean_rel : Text → Text
clean_rel name = drop 1 (clean (b'/' ∷ slashed name))

-- The last test of safeJoin.
unfoldable pub confine : Text → Text → Result ArchiveError Text
confine dest target =
    if not (text_eq target dest) && not (has_prefix target (dest ++ codes "/"))
    then err unsafe_path
    else ok target

-- safeJoin, on a system where filepath.IsAbs is a leading slash
unfoldable pub safe_join : Text → Text → Result ArchiveError Text
safe_join dest name = do
  fail_if (has_prefix name (codes "/") || has_prefix (slashed name) (codes "/")) unsafe_path
  fail_if (contains_text (split b'/' (slashed name)) (codes "..")) unsafe_path
  let rel = clean_rel name
  if text_eq rel [] || text_eq rel (codes ".") then ok dest else confine dest (join_path dest rel)

-- The bytes of an entry, and whether they can be read to the end.
pub record Content : Type 0 where
  pub bytes : Text
  pub intact : Bool

-- What an extraction does to the files: MkdirAll, and a file that is created or emptied and
-- written, with the directories above it.
pub data Effect : Type 0 where
  make_dir : Text → Effect
  write : Text → Text → Effect

-- The variables of the loop, and what was done so far, the last thing first.
pub record Progress : Type 0 where
  pub entries : ℕ
  pub written : ℕ
  pub has_index : Bool
  pub effects : List Effect

abbrev pub start : Progress
start = record { entries = 0; written = 0; has_index = false; effects = [] }

-- What a step leaves, and the error that ends the loop.
abbrev pub Outcome : Type 0
Outcome = Progress × Option ArchiveError

-- The loop ends at the first error.
abbrev pub proceed : Outcome → (Progress → Outcome) → Outcome
proceed (p, none) k = k p
proceed (p, some x) k = (p, some x)

-- hdr.Typeflag
pub data TarKind : Type 0 where
  directory regular symbolic_link hard_link other_kind : TarKind

pub record TarEntry : Type 0 where
  pub name : Text
  pub kind : TarKind
  pub content : Content

-- What tar.Reader.Next gives: entries up to the end, or up to an error.
pub data TarStream : Type 0 where
  end broken : TarStream
  entry : TarEntry → TarStream → TarStream

-- zip.File
pub record ZipEntry : Type 0 where
  pub name : Text
  pub is_dir : Bool
  pub is_symlink : Bool
  pub opens : Bool
  pub content : Content

-- The loop of singleRootPrefix, with `root` empty until a directory is seen; `none` is its early
-- return of "".
unfoldable pub root_from : List ZipEntry → Text → Option Text
root_from [] root = some root
root_from (f ∷ fs) root =
    let c = clean_rel f.name in
    if f.is_dir || text_eq c [] || text_eq c (codes ".")
    then root_from fs root
    else elim (index_byte c b'/') [
      | none ↦ none
      | some i ↦
          if text_eq root []
          then root_from fs (take i c)
          else if text_eq root (take i c)
          then root_from fs root
          else none
    ]

-- singleRootPrefix
unfoldable pub single_root_prefix : List ZipEntry → Text
single_root_prefix files = elim (root_from files []) [
  | none ↦ []
  | some root ↦ if text_eq root [] then [] else root ++ b'/' ∷ []
]

module _ (refuses : Text → Bool) (lim : Limits) where
  -- writeFile; it reads one byte more than may be written
  unfoldable pub write_file : Content → Text → Progress → Outcome
  write_file src target p =
      if refuses target
      then (p, some refused)
      else let remaining = lim.max_bytes - p.written in
        let copied = take (remaining + 1) src.bytes in
        let total = p.written + length copied in
        let p' = record p { effects = write target copied ∷ p.effects } in
        if not src.intact && leb (length src.bytes) remaining
        then (p', some bad_archive)
        else if ltb lim.max_bytes total
        then (p', some too_large)
        else (record p' { written = total }, none)

  -- The switch on the type of a tar entry.
  unfoldable pub extract_kind : TarKind → TarEntry → Text → Progress → Outcome
  extract_kind directory e target p =
      if refuses target
      then (p, some refused)
      else (record p { effects = make_dir target ∷ p.effects }, none)
  extract_kind regular e target p =
      write_file e.content target
        (record p { has_index = p.has_index || text_eq (clean_rel e.name) (codes "index.html") })
  extract_kind symbolic_link e target p = (p, some unsupported)
  extract_kind hard_link e target p = (p, some unsupported)
  extract_kind other_kind e target p = (p, none)

  -- The body of the loop of `ExtractTarGz`.
  unfoldable pub tar_entry : Text → TarEntry → Progress → Outcome
  tar_entry dest e p =
      let p' = record p { entries = p.entries + 1 } in
      if ltb lim.max_entries (p.entries + 1)
      then (p', some too_many_entries)
      else elim (safe_join dest e.name) [
        | err x ↦ (p', some x)
        | ok target ↦ extract_kind e.kind e target p'
      ]

  abbrev pub finish : Progress → Outcome
  finish p = (p, if p.has_index then none else some no_index)

  unfoldable pub tar_loop : Text → TarStream → Progress → Outcome
  tar_loop dest end p = finish p
  tar_loop dest broken p = (p, some bad_archive)
  tar_loop dest (entry e rest) p = proceed (tar_entry dest e p) (λ p'. tar_loop dest rest p')

  -- ExtractTarGz
  unfoldable pub extract_tar_gz : Text → TarStream → Outcome
  extract_tar_gz dest stream = tar_loop dest stream start

  -- The rest of that body, once the path in the target directory is known.
  unfoldable pub zip_file : Text → Text → ZipEntry → Progress → Outcome
  zip_file dest rel f p =
      if text_eq rel [] || text_eq rel (codes ".")
      then (p, none)
      else let p' = record p { has_index = p.has_index || text_eq rel (codes "index.html") } in
        if not f.opens then (p', some bad_archive) else write_file f.content (join_path dest rel) p'

  -- The body of the loop of `ExtractZip`, with the prefix that it strips.
  unfoldable pub zip_entry : Text → Text → ZipEntry → Progress → Outcome
  zip_entry dest prefix f p =
      let p' = record p { entries = p.entries + 1 } in
      if ltb lim.max_entries (p.entries + 1)
      then (p', some too_many_entries)
      else if f.is_dir
      then (p', none)
      else if f.is_symlink
      then (p', some unsupported)
      else elim (safe_join dest f.name) [
        | err x ↦ (p', some x)
        | ok _ ↦ zip_file dest (trim_prefix (clean_rel f.name) prefix) f p'
      ]

  unfoldable pub zip_loop : Text → Text → List ZipEntry → Progress → Outcome
  zip_loop dest prefix [] p = finish p
  zip_loop dest prefix (f ∷ fs) p =
      proceed (zip_entry dest prefix f p) (λ p'. zip_loop dest prefix fs p')

  -- ExtractZip
  unfoldable pub extract_zip : Text → List ZipEntry → Outcome
  extract_zip dest files = zip_loop dest (single_root_prefix files) files start
