-- ===== src/Archive/Writing.antt =====
-- internal/archive/archive.go: the single page that is published without an archive, and the
-- archive that WriteTarGz makes of files in memory. What a tar writer writes, a tar reader gives.
use gotifacts.Prelude.{ℕ, Bool, true, ◌&&◌, ◌||◌, List, [], ◌∷◌, ltb, leb, if◌then◌else◌, some}
use gotifacts.Text.{Text, codes}
use gotifacts.Archive.{
  Content, start, Outcome, TarStream, end, entry, regular, make_dir, join_path, clean_rel,
  write_file, refused,
}

-- WriteSingleIndex
unfoldable pub write_single_index : (Text → Bool) → ℕ → Text → Content → Outcome
write_single_index refuses max_bytes dest page =
    if refuses dest
    then (start, some refused)
    else write_file refuses (record { max_bytes = max_bytes; max_entries = 0 }) page
        (join_path dest (codes "index.html")) (record start { effects = make_dir dest ∷ [] })

-- NamedFile
pub record NamedFile : Type 0 where
  pub name : Text
  pub bytes : Text

-- Go's order of strings, by bytes
unfoldable pub text_lt : Text → Text → Bool
text_lt s [] = Bool.false
text_lt [] (d ∷ t) = true
text_lt (c ∷ s) (d ∷ t) = let rest = text_lt s t in ltb c d || (leb c d && rest)

unfoldable pub insert_file : NamedFile → List NamedFile → List NamedFile
insert_file f [] = f ∷ []
insert_file f (g ∷ gs) =
    let rest = insert_file f gs in if text_lt g.name f.name then g ∷ rest else f ∷ g ∷ gs

-- The call of sort.Slice in `WriteTarGz`, for names that differ.
unfoldable pub sort_files : List NamedFile → List NamedFile
sort_files [] = []
sort_files (f ∷ fs) = insert_file f (sort_files fs)

-- The loop of `WriteTarGz`.
unfoldable pub tar_of : List NamedFile → TarStream
tar_of [] = end
tar_of (f ∷ fs) =
    entry
      (record {
        name = clean_rel f.name;
        kind = regular;
        content = record { bytes = f.bytes; intact = true };
      })
      (tar_of fs)

-- WriteTarGz
unfoldable pub write_tar_gz : List NamedFile → TarStream
write_tar_gz files = tar_of (sort_files files)
