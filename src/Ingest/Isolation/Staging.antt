-- ===== src/Ingest/Isolation/Staging.antt =====
-- internal/ingest/ingest.go: whatever a payload holds, unpacking it writes below the staging
-- directory only, by the confinement of the extractions of internal/archive.
use gotifacts.Prelude.{
  ℕ, ◌≡◌, ◌≢◌, refl, sym, Bool, true, List, [], ◌∷◌, ◌++◌, Option, none, some, arith, All,
  append-nil, Bool-cases, inl, inr,
}
use gotifacts.Text.{Text, codes, split, join, joined}
use gotifacts.Text.Split.{split-append-any, split-join}
use gotifacts.Archive.{Limits, Content, Effect, make_dir, write, join_path}
use gotifacts.Archive.Paths.{IsName, IsDestination, split-destination, no_slashes, join_path-names}
use gotifacts.Archive.SafeJoin.{IsWithin}
use gotifacts.Archive.Confinement.{
  path_of, IsConfined, write_file-IsConfined, extract_tar_gz-IsConfined, extract_zip-IsConfined,
}
use gotifacts.Archive.Writing.{write_single_index}
use gotifacts.Files.{to_text, to_path, FilePath, Node, Disk, file, parent}
use gotifacts.Files.Frames.{apart, apart-below, above-apart}
use gotifacts.Ingest.Publish.{
  Payload, bundle, single_page, zip, apply_effect, apply_effects, unpack,
}
use gotifacts.Ingest.Isolation.Steps.{Keeps, mkdir_all-Keeps, put-Keeps, parent_cases}

module _ (stage : FilePath) (ne : stage ≢ []) (named : All IsName stage) where
  pub stage-IsDestination : IsDestination (to_text stage)
  unfolding to_text
  stage-IsDestination = record { parts = stage; nonempty = ne; named = named; path = refl }

  split-stage : split b'/' (to_text stage) ≡ [] ∷ stage
  unfolding to_text
  split-stage =
      split-destination (to_text stage)
        (record { parts = stage; nonempty = ne; named = named; path = refl })

  -- What lies within the text of the staging directory lies below the directory.
  to_path-within :
      (path : Text) → IsWithin (to_text stage) path → (r : FilePath) × (to_path path ≡ stage ++ r)
  unfolding to_path
  to_path-within path (inl e) = ([], rw (e, split-stage) (sym (append-nil stage)))
  to_path-within path (inr (ps, full, names, e)) = (
    ps,
    rw
        (
          e,
          split-append-any b'/' (to_text stage) (join b'/' ps),
          split-stage,
          split-join b'/' ps full (no_slashes ps names),
        )
        refl,
  )

  module _ (q : FilePath) (o : Option Node) (a : apart stage q ≡ true) where
    apply_effect-Keeps :
        (e : Effect) (d : Disk)
        → IsWithin (to_text stage) (path_of e)
        → Keeps q o d
        → Keeps q o (apply_effect e d)
    unfolding apply_effect
    apply_effect-Keeps (make_dir path) d w k =
        let (r, e) = to_path-within path w in
        rw (e, apply_effect)
          (mkdir_all-Keeps q o d (stage ++ r) (above-apart (stage ++ r) q (apart-below stage q r a))
            k)
    apply_effect-Keeps (write path bytes) d w k =
        let (r, e) = to_path-within path w in
        let b = apart-below stage q r a in
        rw (e, apply_effect)
          (put-Keeps q o _ (stage ++ r) (file bytes) b
            (mkdir_all-Keeps q o d (parent (stage ++ r)) (parent_cases q o (stage ++ r) b) k))

    pub apply_effects-Keeps :
        (es : List Effect) (d : Disk)
        → IsConfined (to_text stage) es
        → Keeps q o d
        → Keeps q o (apply_effects es d)
    unfolding apply_effects
    apply_effects-Keeps [] d c k = k
    apply_effects-Keeps (e ∷ es) d (w, c) k =
        apply_effect-Keeps e (apply_effects es d) w (apply_effects-Keeps es d c k)

index-IsName : IsName (codes "index.html")
index-IsName = record {
  nonempty = λ e. cc;
  not_dot = λ e. cc;
  not_up = λ e. cc;
  no_slash = omega arith;
}

index_path :
    (dest : Text)
    → IsDestination dest
    → join_path dest (codes "index.html") ≡ dest ++ b'/' ∷ join b'/' (codes "index.html" ∷ [])
unfolding join joined
index_path dest d = join_path-names dest (codes "index.html" ∷ []) d (index-IsName, tt) (λ k. cc)

write_single_index-IsConfined :
    (refuses : Text → Bool) (max_bytes : ℕ) (dest : Text) (page : Content)
    → IsDestination dest
    → IsConfined dest (write_single_index refuses max_bytes dest page).0.effects
unfolding write_single_index
write_single_index-IsConfined refuses max_bytes dest page d = elim (Bool-cases (refuses dest)) [
  | inl e ↦ rw e tt
  | inr e ↦ rw e (
      write_file-IsConfined refuses (record { max_bytes = max_bytes; max_entries = 0 }) dest page
        (join_path dest (codes "index.html")) _
        (inr (codes "index.html" ∷ [], (λ k. cc), (index-IsName, tt), index_path dest d))
        (inl refl, tt))
]

-- The effects of unpacking are confined to the staging directory, whatever the payload.
pub unpack-IsConfined :
    (refuses : Text → Bool) (lim : Limits) (dest : Text) (payload : Payload)
    → IsDestination dest
    → IsConfined dest (unpack refuses lim dest payload).0.effects
unfolding unpack
unpack-IsConfined refuses lim dest (bundle s) d = extract_tar_gz-IsConfined refuses lim dest s d
unpack-IsConfined refuses lim dest (single_page p) d =
    write_single_index-IsConfined refuses lim.max_bytes dest p d
unpack-IsConfined refuses lim dest (zip none) d = tt
unpack-IsConfined refuses lim dest (zip (some es)) d = extract_zip-IsConfined refuses lim dest es d
