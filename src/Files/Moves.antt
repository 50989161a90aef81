-- ===== src/Files/Moves.antt =====
-- What lies below a directory that is moved or removed.
use gotifacts.Prelude.{
  ◌≡◌, refl, sym, ap, ◌∙◌, subst, true, false, not, ◌||◌, [], ◌∷◌, ◌++◌, map, none, Bool-cases,
  Option-cases, inl, inr, ok,
}
use gotifacts.Prelude.Tables.{remove_if}
use gotifacts.Text.{Text}
use gotifacts.Text.Equality.{text_eq_refl}
use gotifacts.Files.{
  FilePath, Node, Disk, lookup, path_eq, below, is_below, is_some, is_dir, moved, remove_all,
  rename, parent,
}
use gotifacts.Files.Frames.{
  apart, apart-append, below-eq-some, is_below_self, above-apart, ne_path, path_eq→eq,
}

path_eq-append : (c p q : FilePath) → path_eq (c ++ p) (c ++ q) ≡ path_eq p q
unfolding path_eq
path_eq-append [] p q = refl
path_eq-append (x ∷ c) p q = rw (text_eq_refl x) (path_eq-append c p q)

-- A path that is not below a directory is none of those below it.
not_below : (a p r : FilePath) → is_below a p ≡ false → path_eq p (a ++ r) ≡ false
not_below a p r h = elim (Bool-cases (path_eq p (a ++ r))) [
  | inr e ↦ e
  | inl e ↦
      absurd (
        cc
          (h, subst (λ z. is_below a z ≡ true) (sym (path_eq→eq p (a ++ r) e)) (is_below_self a r)))
]

moved_kept : (a b : FilePath) (e : FilePath × Node) → (moved a b e).1 ≡ e.1
unfolding moved
moved_kept a b (p, n) = elim (Option-cases (below a p)) [
  | inl k ↦ rw (k, moved) refl
  | inr (s, k) ↦ rw (k, moved) refl
]

-- What lies at a place below the new directory, that was free, lay at that place below the old.
moved_to :
    (a b r : FilePath) (e : FilePath × Node)
    → path_eq e.0 (b ++ r) ≡ false
    → path_eq (moved a b e).0 (b ++ r) ≡ path_eq e.0 (a ++ r)
unfolding moved is_below
moved_to a b r (p, n) h = elim (Option-cases (below a p)) [
  | inl k ↦ rw (k, moved) (h ∙ sym (not_below a p r (ap is_some k)))
  | inr (s, k) ↦
      rw (k, moved)
        (path_eq-append b s r
          ∙ sym (path_eq-append a s r)
          ∙ ap (λ z. path_eq z (a ++ r)) (sym (below-eq-some a p s k)))
]

moved_from :
    (a b r : FilePath) (e : FilePath × Node)
    → apart b a ≡ true
    → path_eq (moved a b e).0 (a ++ r) ≡ false
unfolding moved is_below
moved_from a b r (p, n) h = elim (Option-cases (below a p)) [
  | inl k ↦ rw (k, moved) (not_below a p r (ap is_some k))
  | inr (s, k) ↦
      rw (k, moved)
        (ne_path (b ++ s) (a ++ r) (above-apart (b ++ s) (a ++ r) (apart-append b a s r h)))
]

-- Where nothing was, a directory that is moved there has what it had.
pub lookup-moved_to :
    (a b r : FilePath) (d : Disk)
    → lookup d (b ++ r) ≡ none
    → lookup (map (moved a b) d) (b ++ r) ≡ lookup d (a ++ r)
unfolding lookup
lookup-moved_to a b r [] h = refl
lookup-moved_to a b r (e ∷ d) h = elim (Bool-cases (path_eq e.0 (b ++ r))) [
  | inl k ↦ absurd (cc (rw k at h))
  | inr k ↦
      let rest = lookup-moved_to a b r d (rw k at h) in
      rw (moved_to a b r e k, moved_kept a b e, rest) refl
]

-- What was moved away is gone.
pub lookup-moved_from :
    (a b r : FilePath) (d : Disk) → apart b a ≡ true → lookup (map (moved a b) d) (a ++ r) ≡ none
unfolding lookup
lookup-moved_from a b r [] h = refl
lookup-moved_from a b r (e ∷ d) h = rw (moved_from a b r e h) (lookup-moved_from a b r d h)

pub lookup-removed : (d : Disk) (p r : FilePath) → lookup (remove_all d p) (p ++ r) ≡ none
unfolding lookup remove_all remove_if
lookup-removed [] p r = refl
lookup-removed ((q, n) ∷ d) p r = elim (Bool-cases (is_below p q)) [
  | inl e ↦ rw e (lookup-removed d p r)
  | inr e ↦ rw (e, not_below p q r e) (lookup-removed d p r)
]

-- A rename that succeeds.
pub rename-eq-ok :
    (d : Disk) (a b : FilePath)
    → (rename d a b).1 ≡ ok tt
    → ((rename d a b).0 ≡ map (moved a b) d) × (lookup d b ≡ none)
unfolding rename
rename-eq-ok d a b h = elim (Option-cases (lookup d a)) [
  | inl e ↦ absurd (cc (rw (e, rename) at h))
  | inr (n, e) ↦ elim (Option-cases (lookup d b)) [
    | inr (m, k) ↦ absurd (cc (rw (e, rename, k) at h))
    | inl k ↦ elim (Bool-cases (not (is_dir d (parent b)) || is_below a b)) [
      | inl t ↦ absurd (cc (rw (e, rename, k, t) at h))
      | inr t ↦ (rw (e, rename, k, t) refl, k)
    ]
  ]
]

-- A directory does not lie below a path that lies in it.
pub not_above_parent : (x : Text) (p r : FilePath) → is_below (x ∷ p ++ r) (parent (x ∷ p)) ≡ false
unfolding is_below below parent
not_above_parent x [] r = refl
not_above_parent x (y ∷ p) r = rw (text_eq_refl x) (not_above_parent y p r)
