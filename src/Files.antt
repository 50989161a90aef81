-- ===== src/Files.antt =====
-- The file system below the data directory, as the functions of `os` that internal/ingest calls: a
-- list of the directories and the files, each with its path. The system refuses no call for want
-- of rights or of space. A path is the list of its names below the data directory.
pub mod Frames
pub mod Moves
use gotifacts.Prelude.{
  ℕ, ◌+◌, Bool, true, false, not, ◌&&◌, ◌||◌, List, [], ◌∷◌, ◌++◌, map, Option, none, some,
  if◌then◌else◌, Result, ok, err, any, length,
}
use gotifacts.Prelude.Tables.{remove_if}
use gotifacts.Text.{Text, text_eq, split, join}

abbrev pub FilePath : Type 0
FilePath = List Text

-- A path of the file system as a text, and back.
unfoldable pub to_text : FilePath → Text
to_text p = b'/' ∷ join b'/' p

abbrev pub tail_of : FilePath → FilePath
tail_of [] = []
tail_of (x ∷ p) = p

unfoldable pub to_path : Text → FilePath
to_path s = tail_of (split b'/' s)

pub data Node : Type 0 where
  directory : Node
  file : Text → Node

abbrev pub Disk : Type 0
Disk = List (FilePath × Node)

pub data FileError : Type 0 where
  not_exist not_directory not_empty taken_path : FileError

unfoldable pub path_eq : FilePath → FilePath → Bool
path_eq [] [] = true
path_eq [] (y ∷ q) = false
path_eq (x ∷ p) [] = false
path_eq (x ∷ p) (y ∷ q) = text_eq x y && path_eq p q

-- What is left of a path at or below a directory.
unfoldable pub below : FilePath → FilePath → Option FilePath
below [] p = some p
below (x ∷ d) [] = none
below (x ∷ d) (y ∷ p) = let rest = below d p in if text_eq x y then rest else none

abbrev pub is_some : Option FilePath → Bool
is_some none = false
is_some (some r) = true

unfoldable pub is_below : FilePath → FilePath → Bool
is_below dir p = is_some (below dir p)

-- filepath.Dir
unfoldable pub parent : FilePath → FilePath
parent [] = []
parent (x ∷ []) = []
parent (x ∷ y ∷ p) = x ∷ parent (y ∷ p)

-- os.Stat; `none` if there is no such path
unfoldable pub lookup : Disk → FilePath → Option Node
lookup [] p = none
lookup ((q, n) ∷ d) p = let rest = lookup d p in if path_eq q p then some n else rest

-- os.MkdirAll, from a directory that is there
unfoldable pub mkdir_from : Disk → FilePath → FilePath → Disk × Result FileError (Unit {0})
mkdir_from d here [] = (d, ok tt)
mkdir_from d here (x ∷ rest) =
    let p = here ++ x ∷ [] in
    let made = mkdir_from ((p, directory) ∷ d) p rest in
    let there = mkdir_from d p rest in
    elim (lookup d p) [
      | none ↦ made
      | some n ↦ elim n [ directory ↦ there | file _ ↦ (d, err not_directory) ]
    ]

unfoldable pub mkdir_all : Disk → FilePath → Disk × Result FileError (Unit {0})
mkdir_all d p = mkdir_from d [] p

-- os.RemoveAll
unfoldable pub remove_all : Disk → FilePath → Disk
remove_all d p = remove_if (λ (e : FilePath × Node). is_below p e.0) d

unfoldable pub is_dir : Disk → FilePath → Bool
is_dir d [] = true
is_dir d (x ∷ p) = elim (lookup d (x ∷ p)) [
  | none ↦ false
  | some n ↦ elim n [ directory ↦ true | file _ ↦ false ]
]

-- An entry at or below `a` goes to the same place below `b`.
unfoldable pub moved : FilePath → FilePath → FilePath × Node → FilePath × Node
moved a b (p, n) = elim (below a p) [ none ↦ (p, n) | some r ↦ (b ++ r, n) ]

-- os.Rename of a directory; it never replaces what is there
unfoldable pub rename : Disk → FilePath → FilePath → Disk × Result FileError (Unit {0})
rename d a b = elim (lookup d a) [
  | none ↦ (d, err not_exist)
  | some _ ↦ elim (lookup d b) [
    | some _ ↦ (d, err taken_path)
    | none ↦
        if not (is_dir d (parent b)) || is_below a b
        then (d, err not_exist)
        else (map (moved a b) d, ok tt)
  ]
]

-- os.Remove
unfoldable pub remove : Disk → FilePath → Disk × Result FileError (Unit {0})
remove d p = elim (lookup d p) [
  | none ↦ (d, err not_exist)
  | some _ ↦
      if any (λ (e : FilePath × Node). is_below p e.0 && not (path_eq p e.0)) d
      then (d, err not_empty)
      else (remove_if (λ (e : FilePath × Node). path_eq p e.0) d, ok tt)
]

-- The name of an entry that lies directly in a directory, if it does.
abbrev pub only_name : Option FilePath → List Text
only_name none = []
only_name (some []) = []
only_name (some (x ∷ [])) = x ∷ []
only_name (some (x ∷ y ∷ r)) = []

-- The names of the directories that lie directly in a directory.
unfoldable pub dir_names : Disk → FilePath → List Text
dir_names [] p = []
dir_names ((q, directory) ∷ d) p = only_name (below p q) ++ dir_names d p
dir_names ((q, file s) ∷ d) p = dir_names d p

-- os.ReadDir, as far as the entries are directories
unfoldable pub read_dirs : Disk → FilePath → Result FileError (List Text)
read_dirs d p =
    if is_dir d p
    then ok (dir_names d p)
    else elim (lookup d p) [ none ↦ err not_exist | some _ ↦ err not_directory ]

-- The bytes of the files at or below a path.
unfoldable pub bytes_below : Disk → FilePath → ℕ
bytes_below [] p = 0
bytes_below ((q, directory) ∷ d) p = bytes_below d p
bytes_below ((q, file s) ∷ d) p = (if is_below p q then length s else 0) + bytes_below d p
