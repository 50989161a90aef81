-- ===== src/Archive/Paths.antt =====
-- internal/archive/archive.go: what cleaning and joining make of paths.
use gotifacts.Prelude.{
  ◌≡◌, ◌≢◌, refl, sym, ap, ◌∙◌, subst, true, false, ◌||◌, List, [], ◌∷◌, ◌++◌, reverse, drop, arith,
  Bool-cases, inl, inr, All, All-imp, All-append, All-reverse, append_assoc,
}
use mathlib.Core.List.{reverse-reverse, reverse_aux}
use mathlib.Core.Path.{ap₂}
use gotifacts.Text.{Text, codes, text_eq, split, join, joined}
use gotifacts.Text.Equality.{text_eq_refl, text_eq_of_ne}
use gotifacts.Text.Split.{
  Lacks, split-append-any, split-join, All-split, joined-append, split-append,
}
use gotifacts.Archive.{resolve, clean, join_path, clean_rel, slashed}

-- A name that a path may have as a part and that cleaning leaves alone.
pub record IsName (p : Text) : Type 0 where
  pub nonempty : p ≢ []
  pub not_dot : p ≢ codes "."
  pub not_up : p ≢ codes ".."
  pub no_slash : Lacks b'/' p

All-drop : (ps : List Text) → All IsName ps → All IsName (drop 1 ps)
All-drop [] h = tt
All-drop (p ∷ ps) (h, hs) = hs

-- What cleaning keeps are names.
pub resolve-IsName :
    (kept ps : List Text) → All IsName kept → All (Lacks b'/') ps → All IsName (resolve kept ps)
unfolding resolve
resolve-IsName kept [] h l = h
resolve-IsName kept (p ∷ ps) h (l, ls) = elim (Bool-cases (text_eq p [] || text_eq p (codes "."))) [
  | inl e ↦ rw e (resolve-IsName kept ps h ls)
  | inr e ↦ elim (Bool-cases (text_eq p (codes ".."))) [
    | inl d ↦ rw (e, d) (resolve-IsName (drop 1 kept) ps (All-drop kept h) ls)
    | inr d ↦ rw (e, d) (resolve-IsName (p ∷ kept) ps (named e d, h) ls)
  ]
]
  where
    differs : (q : Text) → text_eq p q ≡ false → p ≢ q
    differs q f k =
        let g : text_eq p q ≡ true = subst (λ x. text_eq p x ≡ true) k (text_eq_refl p) in
        absurd (ground arith)

    named :
        (text_eq p [] || text_eq p (codes ".")) ≡ false → text_eq p (codes "..") ≡ false → IsName p
    named e d = record {
      nonempty = differs [] (ground arith);
      not_dot = differs (codes ".") (ground arith);
      not_up = differs (codes "..") d;
      no_slash = l;
    }

-- Cleaning keeps names as they are.
pub resolve_of_names : (kept ps : List Text) → All IsName ps → resolve kept ps ≡ reverse_aux ps kept
unfolding resolve
resolve_of_names kept [] h = refl
resolve_of_names kept (p ∷ ps) (h, hs) =
    rw
      (
        text_eq_of_ne p [] h.nonempty,
        text_eq_of_ne p (codes ".") h.not_dot,
        text_eq_of_ne p (codes "..") h.not_up,
      )
      (resolve_of_names (p ∷ kept) ps hs)

clean_of_names :
    (path : Text) (ps : List Text)
    → All IsName ps
    → split b'/' path ≡ [] ∷ ps
    → clean path ≡ b'/' ∷ join b'/' ps
unfolding clean resolve text_eq
clean_of_names path ps h e = rw (e, resolve_of_names [] ps h, reverse-reverse ps) refl

-- The parts of a cleaned name.
pub clean_rel-names :
    (name : Text) → (ps : List Text) × All IsName ps × (clean_rel name ≡ join b'/' ps)
unfolding clean_rel clean
clean_rel-names name =
    let parts = split b'/' (b'/' ∷ slashed name) in
    let kept = resolve [] parts in
    (
      reverse kept,
      All-reverse IsName kept (resolve-IsName [] parts tt (All-split b'/' (b'/' ∷ slashed name))),
      refl,
    )

-- A clean absolute path other than the root, as filepath.Abs gives for a directory.
pub record IsDestination (dest : Text) : Type 0 where
  pub parts : List Text
  pub nonempty : parts ≢ []
  pub named : All IsName parts
  pub path : dest ≡ b'/' ∷ join b'/' parts

abbrev pub no_slashes : (ps : List Text) → All IsName ps → All (Lacks b'/') ps
no_slashes ps h = All-imp (λ p n. n.no_slash) ps h

pub join-append :
    (ps qs : List Text)
    → ps ≢ []
    → qs ≢ []
    → join b'/' (ps ++ qs) ≡ join b'/' ps ++ b'/' ∷ join b'/' qs
unfolding join joined
join-append [] qs ne ne' = absurd (ne refl)
join-append (p ∷ ps) [] ne ne' = absurd (ne' refl)
join-append (p ∷ ps) (q ∷ qs) ne ne' = rw (joined-append b'/' ps (q ∷ qs), append_assoc) refl

pub split-destination : (dest : Text) (d : IsDestination dest) → split b'/' dest ≡ [] ∷ d.parts
split-destination dest d =
    ap (split b'/') d.path
    ∙ split-append b'/' [] (join b'/' d.parts) tt
    ∙ ap (λ ps. [] ∷ ps) (split-join b'/' d.parts d.nonempty (no_slashes d.parts d.named))

-- Joining names onto a destination appends them.
pub join_path-names :
    (dest : Text) (ps : List Text)
    → IsDestination dest
    → All IsName ps
    → ps ≢ []
    → join_path dest (join b'/' ps) ≡ dest ++ b'/' ∷ join b'/' ps
unfolding join_path
join_path-names dest ps d h ne =
    let parts =
      split-append-any b'/' dest (join b'/' ps)
      ∙ ap₂ (λ (x y : List Text). x ++ y) (split-destination dest d)
          (split-join b'/' ps ne (no_slashes ps h)) in
    clean_of_names (dest ++ b'/' ∷ join b'/' ps) (d.parts ++ ps)
      (All-append IsName d.parts ps d.named h) parts
    ∙ ap (λ x. b'/' ∷ x) (join-append d.parts ps d.nonempty ne)
    ∙ ap (λ x. x ++ b'/' ∷ join b'/' ps) (sym d.path)
