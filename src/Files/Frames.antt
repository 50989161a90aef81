-- ===== src/Files/Frames.antt =====
-- The calls of `os` that internal/ingest makes, on paths that they are not about: what lies apart
-- from the paths of a call is found afterwards as it was.
use gotifacts.Prelude.{
  ◌≡◌, refl, sym, ◌∙◌, subst, Bool, true, false, not, ◌||◌, ◌&&◌, [], ◌∷◌, ◌++◌, map, some, arith,
  Bool-cases, inl, inr, any, append_assoc, append-nil, Option-cases,
}
use gotifacts.Prelude.Tables.{remove_if}
use gotifacts.Text.{text_eq}
use gotifacts.Text.Equality.{text_eq→eq, text_eq_refl}
use gotifacts.Files.{
  FilePath, Node, directory, file, Disk, path_eq, below, is_below, parent, lookup, mkdir_from,
  mkdir_all, remove_all, is_dir, moved, rename, remove,
}

pub path_eq→eq : (p q : FilePath) → path_eq p q ≡ true → p ≡ q
unfolding path_eq
path_eq→eq [] [] h = refl
path_eq→eq [] (y ∷ q) h = cc
path_eq→eq (x ∷ p) [] h = cc
path_eq→eq (x ∷ p) (y ∷ q) h = ground (arith, text_eq→eq x y, path_eq→eq p q)

pub path_eq_refl : (p : FilePath) → path_eq p p ≡ true
unfolding path_eq
path_eq_refl [] = refl
path_eq_refl (x ∷ p) = ground (arith, text_eq_refl x, path_eq_refl p)

-- Two paths that differ at a name: neither lies below the other.
unfoldable pub apart : FilePath → FilePath → Bool
apart [] q = false
apart (x ∷ p) [] = false
apart (x ∷ p) (y ∷ q) = not (text_eq x y) || apart p q

pub apart-append : (p q r s : FilePath) → apart p q ≡ true → apart (p ++ r) (q ++ s) ≡ true
unfolding apart
apart-append [] q r s h = cc
apart-append (x ∷ p) [] r s h = cc
apart-append (x ∷ p) (y ∷ q) r s h = ground (arith, apart-append p q r s)

-- What lies below a path is apart from whatever the path is apart from.
pub apart-below : (p q r : FilePath) → apart p q ≡ true → apart (p ++ r) q ≡ true
unfolding apart
apart-below [] q r h = cc
apart-below (x ∷ p) [] r h = cc
apart-below (x ∷ p) (y ∷ q) r h = ground (arith, apart-below p q r)

pub apart-append_left : (c p q : FilePath) → apart p q ≡ true → apart (c ++ p) (c ++ q) ≡ true
unfolding apart
apart-append_left [] p q h = h
apart-append_left (x ∷ c) p q h = ground (arith, apart-append_left c p q h)

-- What lies apart from a path is not below it, and is not one of the directories above it.
pub is_below-apart : (p q : FilePath) → apart p q ≡ true → is_below p q ≡ false
unfolding apart is_below below
is_below-apart [] q h = cc
is_below-apart (x ∷ p) [] h = cc
is_below-apart (x ∷ p) (y ∷ q) h = elim (Bool-cases (text_eq x y)) [
  | inl e ↦ rw e (is_below-apart p q (rw e at h))
  | inr e ↦ rw e refl
]

pub above-apart : (p q : FilePath) → apart p q ≡ true → is_below q p ≡ false
unfolding apart is_below below
above-apart [] q h = cc
above-apart (x ∷ p) [] h = cc
above-apart (x ∷ p) (y ∷ q) h = elim (Bool-cases (text_eq y x)) [
  | inl e ↦
      let same : text_eq x y ≡ true =
        subst (λ z. text_eq x z ≡ true) (sym (text_eq→eq y x e)) (text_eq_refl x) in
      rw e (above-apart p q (rw same at h))
  | inr e ↦ rw e refl
]

pub is_below_self : (p r : FilePath) → is_below p (p ++ r) ≡ true
unfolding is_below below
is_below_self [] r = refl
is_below_self (x ∷ p) r = rw (text_eq_refl x) (is_below_self p r)

-- A directory above the parent is above the path.
pub above-parent : (q p : FilePath) → is_below q p ≡ false → is_below q (parent p) ≡ false
unfolding is_below below parent
above-parent [] p h = absurd (cc h)
above-parent (y ∷ q) [] h = refl
above-parent (y ∷ q) (x ∷ []) h = refl
above-parent (y ∷ q) (x ∷ z ∷ p) h = elim (Bool-cases (text_eq y x)) [
  | inl e ↦ rw e (above-parent q (z ∷ p) (rw e at h))
  | inr e ↦ rw e refl
]

pub ne_path : (p q : FilePath) → is_below q p ≡ false → path_eq p q ≡ false
ne_path p q h = elim (Bool-cases (path_eq p q)) [
  | inl e ↦ absurd (
      cc (
        h,
        subst (λ z. is_below z p ≡ true) (path_eq→eq p q e)
            (subst (λ z. is_below p z ≡ true) (append-nil p) (is_below_self p [])),
      ))
  | inr e ↦ e
]

-- Entries that are not at the path may go.
pub lookup-remove_if :
    (f : FilePath × Node → Bool) (q : FilePath)
    → ((e : FilePath × Node) → path_eq e.0 q ≡ true → f e ≡ false)
    → (d : Disk) → lookup (remove_if f d) q ≡ lookup d q
unfolding lookup remove_if
lookup-remove_if f q h [] = refl
lookup-remove_if f q h ((p, n) ∷ d) = elim (Bool-cases (path_eq p q)) [
  | inl e ↦ rw (h (p, n) e, e) refl
  | inr e ↦ elim (Bool-cases (f (p, n))) [
    | inl k ↦ rw (k, e) (lookup-remove_if f q h d)
    | inr k ↦ rw (k, e) (lookup-remove_if f q h d)
  ]
]

-- os.RemoveAll
pub lookup-remove_all :
    (d : Disk) (p q : FilePath) → is_below p q ≡ false → lookup (remove_all d p) q ≡ lookup d q
unfolding remove_all
lookup-remove_all d p q h =
    lookup-remove_if (λ e. is_below p e.0) q
      (λ e k. subst (λ z. is_below p z ≡ false) (sym (path_eq→eq e.0 q k)) h) d

-- os.Remove
pub lookup-remove :
    (d : Disk) (p q : FilePath) → path_eq p q ≡ false → lookup (remove d p).0 q ≡ lookup d q
unfolding remove
lookup-remove d p q h = elim (Option-cases (lookup d p)) [
  | inl e ↦ rw (e, remove) refl
  | inr (n, e) ↦
      elim (Bool-cases (any (λ (x : FilePath × Node). is_below p x.0 && not (path_eq p x.0)) d)) [
        | inl k ↦ rw (e, remove, k) refl
        | inr k ↦
            rw (e, remove, k)
              (lookup-remove_if (λ x. path_eq p x.0) q
                (λ x m. subst (λ z. path_eq p z ≡ false) (sym (path_eq→eq x.0 q m)) h) d)
      ]
]

-- The entries that os.MkdirAll makes are at the path or above it.
lookup-mkdir_from :
    (d : Disk) (here rest q : FilePath)
    → is_below q (here ++ rest) ≡ false
    → lookup (mkdir_from d here rest).0 q ≡ lookup d q
unfolding mkdir_from
lookup-mkdir_from d here [] q h = refl
lookup-mkdir_from d here (x ∷ rest) q h =
    let p = here ++ x ∷ [] in
    let h' : is_below q (p ++ rest) ≡ false = rw (append_assoc here (x ∷ []) rest) h in
    let other : path_eq p q ≡ false = elim (Bool-cases (path_eq p q)) [
      | inl e ↦ absurd (
          cc (
            h',
            subst (λ z. is_below z (p ++ rest) ≡ true) (path_eq→eq p q e) (is_below_self p rest),
          ))
      | inr e ↦ e
    ] in
    elim (Option-cases (lookup d p)) [
      | inl e ↦
          rw (e, mkdir_from)
            (lookup-mkdir_from ((p, directory) ∷ d) p rest q h' ∙ unfold lookup in rw other refl)
      | inr (directory, e) ↦ rw (e, mkdir_from) (lookup-mkdir_from d p rest q h')
      | inr (file s, e) ↦ rw (e, mkdir_from) refl
    ]

-- os.MkdirAll
pub lookup-mkdir_all :
    (d : Disk) (p q : FilePath) → is_below q p ≡ false → lookup (mkdir_all d p).0 q ≡ lookup d q
unfolding mkdir_all
lookup-mkdir_all d p q h = lookup-mkdir_from d [] p q h

pub below-eq-some : (a p r : FilePath) → below a p ≡ some r → p ≡ a ++ r
unfolding below
below-eq-some [] p r h = cc
below-eq-some (x ∷ a) [] r h = cc
below-eq-some (x ∷ a) (y ∷ p) r h = elim (Bool-cases (text_eq x y)) [
  | inl e ↦ cc (text_eq→eq x y e, below-eq-some a p r (rw e at h))
  | inr e ↦ cc (rw e at h)
]

module _ (a b q : FilePath) (away : is_below a q ≡ false) (free : is_below b q ≡ false) where
  moved-other : (e : FilePath × Node) → path_eq (moved a b e).0 q ≡ path_eq e.0 q
  unfolding moved
  moved-other (p, n) = elim (Option-cases (below a p)) [
    | inl e ↦ rw (e, moved) refl
    | inr (r, e) ↦
        rw (e, moved)
          (not_at (b ++ r) b r refl free ∙ sym (not_at p a r (below-eq-some a p r e) away))
  ]
    where
      not_at : (p c r : FilePath) → p ≡ c ++ r → is_below c q ≡ false → path_eq p q ≡ false
      not_at p c r e h = elim (Bool-cases (path_eq p q)) [
        | inl k ↦ absurd (
            cc (h, subst (λ z. is_below c z ≡ true) (sym e ∙ path_eq→eq p q k) (is_below_self c r)))
        | inr k ↦ k
      ]

  moved-kept : (e : FilePath × Node) → (moved a b e).1 ≡ e.1
  unfolding moved
  moved-kept (p, n) = elim (Option-cases (below a p)) [
    | inl e ↦ rw (e, moved) refl
    | inr (r, e) ↦ rw (e, moved) refl
  ]

  lookup-map-moved : (d : Disk) → lookup (map (moved a b) d) q ≡ lookup d q
  unfolding lookup
  lookup-map-moved [] = refl
  lookup-map-moved (e ∷ d) = elim (Bool-cases (path_eq e.0 q)) [
    | inl k ↦ rw (moved-other e, k, moved-kept e) refl
    | inr k ↦ rw (moved-other e, k) (lookup-map-moved d)
  ]

  -- os.Rename
  pub lookup-rename : (d : Disk) → lookup (rename d a b).0 q ≡ lookup d q
  unfolding rename
  lookup-rename d = elim (Option-cases (lookup d a)) [
    | inl e ↦ rw (e, rename) refl
    | inr (n, e) ↦ elim (Option-cases (lookup d b)) [
      | inr (m, k) ↦ rw (e, rename, k) refl
      | inl k ↦ elim (Bool-cases (not (is_dir d (parent b)) || is_below a b)) [
        | inl t ↦ rw (e, rename, k, t) refl
        | inr t ↦ rw (e, rename, k, t) (lookup-map-moved d)
      ]
    ]
  ]
