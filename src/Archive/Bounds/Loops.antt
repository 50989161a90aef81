-- ===== src/Archive/Bounds/Loops.antt =====
-- internal/archive/archive.go: the limits of an extraction hold at all times.
use gotifacts.Prelude.{
  ℕ, ◌+◌, ◌≤◌, ◌≡◌, refl, Bool, false, ◌||◌, List, [], ◌∷◌, arith, Option, none, some, Bool-cases,
  inl, inr, Result-cases, ltb,
}
use gotifacts.Text.{Text, codes, text_eq, trim_prefix}
use gotifacts.Archive.{
  Limits, ArchiveError, bad_archive, too_many_entries, unsupported, Progress, start, Outcome,
  TarEntry, TarStream, end, broken, entry, ZipEntry, tar_entry, tar_loop, extract_tar_gz, zip_entry,
  zip_file, zip_loop, extract_zip, safe_join, clean_rel, single_root_prefix, join_path, proceed,
}
use gotifacts.Archive.Bounds.{
  volume, count, IsCounted, IsBounded, IsOpen, ended-IsBounded, skipped-IsBounded,
  write_file-IsBounded, extract_kind-IsBounded,
}

module _ (refuses : Text → Bool) (lim : Limits) where
  -- The next entry is counted, unless there is no room for one.
  abbrev counted_entry : Progress → Progress
  counted_entry p = record p { entries = p.entries + 1 }

  counted_entry-IsOpen :
      (p : Progress)
      → IsCounted lim p
      → ltb lim.max_entries (p.entries + 1) ≡ false
      → IsOpen lim (counted_entry p)
  counted_entry-IsOpen p h b = record {
    bytes = h.bytes;
    small = h.small;
    effects = let a = h.effects in omega arith;
    few = ground arith;
  }

  full-IsBounded :
      (p : Progress) → IsCounted lim p → IsBounded lim (counted_entry p, some too_many_entries)
  full-IsBounded p h = record {
    bytes = let a = h.bytes in let b = h.small in omega arith;
    effects = let a = h.effects in let b = h.few in omega arith;
    counted = λ k. absurd (cc);
  }

  tar_entry-IsBounded :
      (dest : Text) (e : TarEntry) (p : Progress)
      → IsCounted lim p
      → IsBounded lim (tar_entry refuses lim dest e p)
  unfolding tar_entry
  tar_entry-IsBounded dest e p h = elim (Bool-cases (ltb lim.max_entries (p.entries + 1))) [
    | inl b ↦ rw b (full-IsBounded p h)
    | inr b ↦
        let h' = counted_entry-IsOpen p h b in
        elim (Result-cases (safe_join dest e.name)) [
          | inl (x, k) ↦ rw (b, k) (ended-IsBounded refuses lim (counted_entry p) x h')
          | inr (target, k) ↦
              rw (b, k) (extract_kind-IsBounded refuses lim e.kind e target (counted_entry p) h')
        ]
  ]

  zip_file-IsBounded :
      (dest rel : Text) (f : ZipEntry) (p : Progress)
      → IsOpen lim p
      → IsBounded lim (zip_file refuses lim dest rel f p)
  unfolding zip_file
  zip_file-IsBounded dest rel f p h =
      let p' = record p { has_index = p.has_index || text_eq rel (codes "index.html") } in
      let h' : IsOpen lim p' = record {
        bytes = h.bytes;
        small = h.small;
        effects = h.effects;
        few = h.few;
      } in
      elim (Bool-cases (text_eq rel [] || text_eq rel (codes "."))) [
        | inl b ↦ rw b (skipped-IsBounded refuses lim p h)
        | inr b ↦ elim (Bool-cases f.opens) [
          | inl o ↦
              rw (b, o) (write_file-IsBounded refuses lim f.content (join_path dest rel) p' h')
          | inr o ↦ rw (b, o) (ended-IsBounded refuses lim p' bad_archive h')
        ]
      ]

  zip_entry-IsBounded :
      (dest prefix : Text) (f : ZipEntry) (p : Progress)
      → IsCounted lim p
      → IsBounded lim (zip_entry refuses lim dest prefix f p)
  unfolding zip_entry
  zip_entry-IsBounded dest prefix f p h = elim (Bool-cases (ltb lim.max_entries (p.entries + 1))) [
    | inl b ↦ rw b (full-IsBounded p h)
    | inr b ↦
        let h' = counted_entry-IsOpen p h b in
        elim (Bool-cases f.is_dir) [
          | inl s ↦ rw (b, s) (skipped-IsBounded refuses lim (counted_entry p) h')
          | inr s ↦ elim (Bool-cases f.is_symlink) [
            | inl l ↦ rw (b, s, l) (ended-IsBounded refuses lim (counted_entry p) unsupported h')
            | inr l ↦ elim (Result-cases (safe_join dest f.name)) [
              | inl (x, k) ↦ rw (b, s, l, k) (ended-IsBounded refuses lim (counted_entry p) x h')
              | inr (target, k) ↦
                  rw (b, s, l, k)
                    (zip_file-IsBounded dest (trim_prefix (clean_rel f.name) prefix) f
                      (counted_entry p) h')
            ]
          ]
        ]
  ]

  -- What holds of the end of a loop.
  stopped-IsBounded :
      (p : Progress) (x : Option ArchiveError) → IsCounted lim p → IsBounded lim (p, x)
  stopped-IsBounded p x h = record {
    bytes = let a = h.bytes in let b = h.small in omega arith;
    effects = let a = h.effects in let b = h.few in omega arith;
    counted = λ k. h;
  }

  proceed-IsBounded :
      (o : Outcome) (k : Progress → Outcome)
      → IsBounded lim o
      → ((p : Progress) → IsCounted lim p → IsBounded lim (k p))
      → IsBounded lim (proceed o k)
  proceed-IsBounded (p, none) k h f = f p (h.counted refl)
  proceed-IsBounded (p, some x) k h f = h

  tar_loop-IsBounded :
      (dest : Text) (s : TarStream) (p : Progress)
      → IsCounted lim p
      → IsBounded lim (tar_loop refuses lim dest s p)
  unfolding tar_loop
  tar_loop-IsBounded dest end p h = stopped-IsBounded p (tar_loop refuses lim dest end p).1 h
  tar_loop-IsBounded dest broken p h = stopped-IsBounded p (some bad_archive) h
  tar_loop-IsBounded dest (entry e rest) p h =
      proceed-IsBounded (tar_entry refuses lim dest e p) (λ p'. tar_loop refuses lim dest rest p')
        (tar_entry-IsBounded dest e p h) (λ p' h'. tar_loop-IsBounded dest rest p' h')

  zip_loop-IsBounded :
      (dest prefix : Text) (fs : List ZipEntry) (p : Progress)
      → IsCounted lim p
      → IsBounded lim (zip_loop refuses lim dest prefix fs p)
  unfolding zip_loop
  zip_loop-IsBounded dest prefix [] p h =
      stopped-IsBounded p (zip_loop refuses lim dest prefix [] p).1 h
  zip_loop-IsBounded dest prefix (f ∷ fs) p h =
      proceed-IsBounded (zip_entry refuses lim dest prefix f p)
        (λ p'. zip_loop refuses lim dest prefix fs p') (zip_entry-IsBounded dest prefix f p h)
        (λ p' h'. zip_loop-IsBounded dest prefix fs p' h')

  start-IsCounted : IsCounted lim start
  start-IsCounted = record {
    bytes = refl;
    small = omega arith;
    effects = omega arith;
    few = omega arith;
  }

-- One byte too many is read before an extraction ends with an error.
abbrev pub excess : Option ArchiveError → ℕ
excess none = 0
excess (some x) = 1

within_limits :
    (lim : Limits) (o : Outcome)
    → IsBounded lim o
    → (count o.0.effects ≤ lim.max_entries) × (volume o.0.effects ≤ lim.max_bytes + excess o.1)
within_limits lim (p, none) h =
    let c = h.counted refl in (h.effects, let a = c.bytes in let b = c.small in omega arith)
within_limits lim (p, some x) h = (h.effects, h.bytes)

-- An extraction of a tar archive carries out at most as many entries as their limit, each of them
-- one call that makes a directory or one that writes a file, with the directories above; it writes
-- no more bytes than their limit if it succeeds, and at most one more if it fails.
pub extract_tar_gz_bounded :
    (refuses : Text → Bool) (lim : Limits) (dest : Text) (stream : TarStream)
    → (count (extract_tar_gz refuses lim dest stream).0.effects ≤ lim.max_entries)
      × (volume (extract_tar_gz refuses lim dest stream).0.effects
          ≤ lim.max_bytes + excess (extract_tar_gz refuses lim dest stream).1)
unfolding extract_tar_gz
extract_tar_gz_bounded refuses lim dest stream =
    within_limits lim (tar_loop refuses lim dest stream start)
      (tar_loop-IsBounded refuses lim dest stream start (start-IsCounted refuses lim))

-- An extraction of a zip archive makes no more files than the limit of entries; it writes no more
-- bytes than their limit if it succeeds, and at most one more if it fails.
pub extract_zip_bounded :
    (refuses : Text → Bool) (lim : Limits) (dest : Text) (files : List ZipEntry)
    → (count (extract_zip refuses lim dest files).0.effects ≤ lim.max_entries)
      × (volume (extract_zip refuses lim dest files).0.effects
          ≤ lim.max_bytes + excess (extract_zip refuses lim dest files).1)
unfolding extract_zip
extract_zip_bounded refuses lim dest files =
    within_limits lim (zip_loop refuses lim dest (single_root_prefix files) files start) (
      zip_loop-IsBounded refuses lim dest (single_root_prefix files) files start
        (start-IsCounted refuses lim))
