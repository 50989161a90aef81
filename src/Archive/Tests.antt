-- ===== src/Archive/Tests.antt =====
-- The theorems about archives at concrete inputs.
use gotifacts.Prelude.{
  if◌then◌else◌, ◌+◌, ◌≤◌, ◌≡◌, refl, Bool, true, false, List, [], ◌∷◌, arith, ok, err,
}
use gotifacts.Text.{Text, codes, join, joined}
use gotifacts.Archive.{
  Limits, unsafe_path, Content, TarStream, entry, end, regular, ZipEntry, extract_tar_gz,
  extract_zip, safe_join, clean_rel,
}
use gotifacts.Archive.Paths.{IsDestination}
use gotifacts.Archive.SafeJoin.{is_unsafe, below, safe_join_lem}
use gotifacts.Archive.Confinement.{IsConfined, extract_tar_gz-IsConfined, extract_zip-IsConfined}
use gotifacts.Archive.Bounds.{count, volume}
use gotifacts.Archive.Bounds.Loops.{excess, extract_tar_gz_bounded, extract_zip_bounded}

abbrev dest_dir : Text
dest_dir = codes "/data"

dest_dir-IsDestination : IsDestination dest_dir
unfolding join joined
dest_dir-IsDestination = record {
  parts = codes "data" ∷ [];
  nonempty = λ k. absurd (cc);
  named = (
    record {
      nonempty = λ k. absurd (cc);
      not_dot = λ k. absurd (cc);
      not_up = λ k. absurd (cc);
      no_slash = ground arith;
    },
    tt,
  );
  path = refl;
}

abbrev small : Limits
small = record { max_bytes = 2; max_entries = 3 }

abbrev page : Content
page = record { bytes = codes "hello"; intact = true }

abbrev page_stream : TarStream
page_stream =
    entry (record { name = codes "a/index.html"; kind = regular; content = page })
      (entry (record { name = codes "../up"; kind = regular; content = page }) end)

abbrev page_files : List ZipEntry
page_files =
    record {
      name = codes "a/index.html";
      is_dir = false;
      is_symlink = false;
      opens = true;
      content = page;
    }
    ∷ []

abbrev never : Text → Bool
never path = false

safe_join_lem_example : safe_join dest_dir (codes "a/../b") ≡ (
    if is_unsafe (codes "a/../b")
    then err unsafe_path
    else ok (below dest_dir (clean_rel (codes "a/../b"))))
safe_join_lem_example = safe_join_lem dest_dir (codes "a/../b") dest_dir-IsDestination

extract_tar_gz-IsConfined_example :
    IsConfined dest_dir (extract_tar_gz never small dest_dir page_stream).0.effects
extract_tar_gz-IsConfined_example =
    extract_tar_gz-IsConfined never small dest_dir page_stream dest_dir-IsDestination

extract_zip-IsConfined_example :
    IsConfined dest_dir (extract_zip never small dest_dir page_files).0.effects
extract_zip-IsConfined_example =
    extract_zip-IsConfined never small dest_dir page_files dest_dir-IsDestination

extract_tar_gz_bounded_example :
    (count (extract_tar_gz never small dest_dir page_stream).0.effects ≤ 3)
    × (volume (extract_tar_gz never small dest_dir page_stream).0.effects
        ≤ 2 + excess (extract_tar_gz never small dest_dir page_stream).1)
extract_tar_gz_bounded_example = extract_tar_gz_bounded never small dest_dir page_stream

extract_zip_bounded_example :
    (count (extract_zip never small dest_dir page_files).0.effects ≤ 3)
    × (volume (extract_zip never small dest_dir page_files).0.effects
        ≤ 2 + excess (extract_zip never small dest_dir page_files).1)
extract_zip_bounded_example = extract_zip_bounded never small dest_dir page_files
