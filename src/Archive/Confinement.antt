-- ===== src/Archive/Confinement.antt =====
-- internal/archive/archive.go: what an extraction does stays within the destination, whatever the
-- archive holds and however the extraction ends.
use gotifacts.Prelude.{
  ◌+◌, ◌≡◌, ◌≢◌, Bool, ◌||◌, List, [], ◌∷◌, arith, none, some, Bool-cases, inl, inr, ◌⊎◌, All,
  Result-cases, ltb,
}
use gotifacts.Text.{Text, codes, text_eq, join, trim_prefix}
use gotifacts.Archive.{
  Limits, Content, Effect, make_dir, write, Progress, start, Outcome, TarKind, directory, regular,
  symbolic_link, hard_link, other_kind, TarEntry, TarStream, end, broken, entry, ZipEntry,
  write_file, extract_kind, tar_entry, tar_loop, extract_tar_gz, zip_entry, zip_file, zip_loop,
  extract_zip, safe_join, clean_rel, single_root_prefix, join_path, proceed,
}
use gotifacts.Archive.Prefix.{IsPrefix, single_root_prefix-IsPrefix, trim_prefix-IsRelative}
use gotifacts.Archive.Paths.{IsName, IsDestination, join_path-names}
use gotifacts.Archive.SafeJoin.{IsWithin, safe_join→IsWithin}

-- The path that an effect is about.
abbrev pub path_of : Effect → Text
path_of (make_dir path) = path
path_of (write path bytes) = path

abbrev pub IsConfined : Text → List Effect → Type 0
IsConfined dest effects = All (λ e. IsWithin dest (path_of e)) effects

module _ (refuses : Text → Bool) (lim : Limits) (dest : Text) where
  pub write_file-IsConfined :
      (src : Content) (target : Text) (p : Progress)
      → IsWithin dest target
      → IsConfined dest p.effects
      → IsConfined dest (write_file refuses lim src target p).0.effects
  unfolding write_file
  write_file-IsConfined src target p w h = ground (arith, w, h)

  extract_kind-IsConfined :
      (k : TarKind) (e : TarEntry) (target : Text) (p : Progress)
      → IsWithin dest target
      → IsConfined dest p.effects
      → IsConfined dest (extract_kind refuses lim k e target p).0.effects
  unfolding extract_kind
  extract_kind-IsConfined directory e target p w h = ground (arith, w, h)
  extract_kind-IsConfined regular e target p w h = write_file-IsConfined e.content target _ w h
  extract_kind-IsConfined symbolic_link e target p w h = h
  extract_kind-IsConfined hard_link e target p w h = h
  extract_kind-IsConfined other_kind e target p w h = h

  proceed-IsConfined :
      (o : Outcome) (k : Progress → Outcome)
      → IsConfined dest o.0.effects
      → ((p : Progress) → IsConfined dest p.effects → IsConfined dest (k p).0.effects)
      → IsConfined dest (proceed o k).0.effects
  proceed-IsConfined (p, none) k h f = f p h
  proceed-IsConfined (p, some x) k h f = h

  module _ (d : IsDestination dest) where
    tar_entry-IsConfined :
        (e : TarEntry) (p : Progress)
        → IsConfined dest p.effects
        → IsConfined dest (tar_entry refuses lim dest e p).0.effects
    unfolding tar_entry
    tar_entry-IsConfined e p h = elim (Bool-cases (ltb lim.max_entries (p.entries + 1))) [
      | inl b ↦ rw (tar_entry, b) h
      | inr b ↦ elim (Result-cases (safe_join dest e.name)) [
        | inl (x, k) ↦ rw (tar_entry, b, k) h
        | inr (target, k) ↦
            rw (tar_entry, b, k)
              (extract_kind-IsConfined e.kind e target (record p { entries = p.entries + 1 })
                (safe_join→IsWithin dest e.name target d k) h)
      ]
    ]

    tar_loop-IsConfined :
        (s : TarStream) (p : Progress)
        → IsConfined dest p.effects
        → IsConfined dest (tar_loop refuses lim dest s p).0.effects
    unfolding tar_loop
    tar_loop-IsConfined end p h = h
    tar_loop-IsConfined broken p h = h
    tar_loop-IsConfined (entry e rest) p h =
        proceed-IsConfined (tar_entry refuses lim dest e p)
          (λ p'. tar_loop refuses lim dest rest p') (tar_entry-IsConfined e p h)
          (λ p' h'. tar_loop-IsConfined rest p' h')

    zip_file-IsConfined :
        (rel : Text) (f : ZipEntry) (p : Progress)
        → ((rel ≡ []) ⊎ ((ps : List Text) × (ps ≢ []) × All IsName ps × (rel ≡ join b'/' ps)))
        → IsConfined dest p.effects
        → IsConfined dest (zip_file refuses lim dest rel f p).0.effects
    unfolding zip_file
    zip_file-IsConfined rel f p (inl e) h = rw e (unfold text_eq in h)
    zip_file-IsConfined rel f p (inr (ps, ne, n, e)) h =
        let within : IsWithin dest (join_path dest rel) =
          inr (ps, ne, n, rw e (join_path-names dest ps d n ne)) in
        let p' = record p { has_index = p.has_index || text_eq rel (codes "index.html") } in
        elim (Bool-cases (text_eq rel [] || text_eq rel (codes "."))) [
          | inl b ↦ rw b h
          | inr b ↦ elim (Bool-cases f.opens) [
            | inl o ↦ rw (b, o) (write_file-IsConfined f.content (join_path dest rel) p' within h)
            | inr o ↦ rw (b, o) h
          ]
        ]

    zip_entry-IsConfined :
        (prefix : Text) (f : ZipEntry) (p : Progress)
        → IsPrefix prefix
        → IsConfined dest p.effects
        → IsConfined dest (zip_entry refuses lim dest prefix f p).0.effects
    unfolding zip_entry
    zip_entry-IsConfined prefix f p x h =
        elim (Bool-cases (ltb lim.max_entries (p.entries + 1) || f.is_dir || f.is_symlink)) [
          | inl b ↦ ground (arith, h)
          | inr b ↦ elim (Result-cases (safe_join dest f.name)) [
            | inl (y, k) ↦ ground (arith, h, k)
            | inr (target, k) ↦
                let p' = record p { entries = p.entries + 1 } in
                let done =
                  zip_file-IsConfined (trim_prefix (clean_rel f.name) prefix) f p'
                    (trim_prefix-IsRelative f.name prefix x) h in
                ground (arith, k, done)
          ]
        ]

    zip_loop-IsConfined :
        (prefix : Text) (fs : List ZipEntry) (p : Progress)
        → IsPrefix prefix
        → IsConfined dest p.effects
        → IsConfined dest (zip_loop refuses lim dest prefix fs p).0.effects
    unfolding zip_loop
    zip_loop-IsConfined prefix [] p x h = h
    zip_loop-IsConfined prefix (f ∷ fs) p x h =
        proceed-IsConfined (zip_entry refuses lim dest prefix f p)
          (λ p'. zip_loop refuses lim dest prefix fs p') (zip_entry-IsConfined prefix f p x h)
          (λ p' h'. zip_loop-IsConfined prefix fs p' x h')

-- Whatever a tar archive holds, and however its extraction ends, each directory made and each file
-- written is the destination, or is below it behind names none of which is empty, a dot or `..`.
pub extract_tar_gz-IsConfined :
    (refuses : Text → Bool) (lim : Limits) (dest : Text) (stream : TarStream)
    → IsDestination dest
    → IsConfined dest (extract_tar_gz refuses lim dest stream).0.effects
unfolding extract_tar_gz
extract_tar_gz-IsConfined refuses lim dest stream d =
    tar_loop-IsConfined refuses lim dest d stream start tt

-- Whatever a zip archive holds, and however its extraction ends, each file written is the
-- destination, or is below it behind names none of which is empty, a dot or `..`.
pub extract_zip-IsConfined :
    (refuses : Text → Bool) (lim : Limits) (dest : Text) (files : List ZipEntry)
    → IsDestination dest
    → IsConfined dest (extract_zip refuses lim dest files).0.effects
unfolding extract_zip
extract_zip-IsConfined refuses lim dest files d =
    zip_loop-IsConfined refuses lim dest d (single_root_prefix files) files start
      (single_root_prefix-IsPrefix files) tt
