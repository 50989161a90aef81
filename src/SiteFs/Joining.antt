-- ===== src/SiteFs/Joining.antt =====
-- internal/sitefs/sitefs.go: `SafeJoin` never fails and never leaves its root.
use gotifacts.Prelude.{
  ◌≡◌, refl, sym, ap, ◌∙◌, subst, true, false, not, ◌&&◌, List, [], ◌∷◌, ◌++◌, All, All-append,
  All-reverse, inl, inr, ok, append-nil, append_assoc, reverse, drop, arith,
}
use mathlib.Core.List.{reverse-reverse}
use gotifacts.Text.{Text, text_eq, has_prefix, split, join}
use gotifacts.Text.Equality.{text_eq_refl}
use gotifacts.Text.Affix.{has_prefix-append}
use gotifacts.Text.Split.{split-append-any, split-append, split-join, All-split}
use gotifacts.Archive.{clean, join_path, resolve}
use gotifacts.Archive.Paths.{
  IsName, IsDestination, split-destination, no_slashes, resolve_of_names, resolve-IsName,
  join-append,
}
use gotifacts.Archive.SafeJoin.{IsWithin}
use gotifacts.SiteFs.{safe_join}

-- An empty part is passed over.
resolve-skip : (kept ps qs : List Text) → resolve kept (ps ++ [] ∷ qs) ≡ resolve kept (ps ++ qs)
unfolding resolve text_eq
resolve-skip kept [] qs = refl
resolve-skip kept (p ∷ ps) qs =
    rw (resolve-skip kept ps qs, resolve-skip (drop 1 kept) ps qs, resolve-skip (p ∷ kept) ps qs)
      refl

module _ (root : Text) (d : IsDestination root) where
  parts_of : (s : Text) → split b'/' (root ++ b'/' ∷ b'/' ∷ s) ≡ ([] ∷ d.parts) ++ [] ∷ split b'/' s
  parts_of s =
      split-append-any b'/' root (b'/' ∷ s)
      ∙ rw (split-destination root d, split-append b'/' [] s tt) refl

  resolve_parts :
      (ps : List Text) → All IsName ps → resolve [] (([] ∷ d.parts) ++ ps) ≡ reverse (d.parts ++ ps)
  unfolding resolve text_eq
  resolve_parts ps h = resolve_of_names [] (d.parts ++ ps) (All-append IsName d.parts ps d.named h)

  -- The names of a cleaned path go behind those of the root.
  join_path-clean :
      (ps : List Text)
      → All IsName ps
      → join_path root (b'/' ∷ join b'/' ps) ≡ b'/' ∷ join b'/' (d.parts ++ ps)
  unfolding join_path clean
  join_path-clean ps h =
      ap (λ (l : List Text). b'/' ∷ join b'/' (reverse l))
        (ap (resolve []) (parts_of (join b'/' ps))
          ∙ resolve-skip [] ([] ∷ d.parts) _
          ∙ resolved ps h)
      ∙ rw (reverse-reverse (d.parts ++ ps)) refl
    where
      resolved :
          (ps : List Text)
          → All IsName ps
          → resolve [] (([] ∷ d.parts) ++ split b'/' (join b'/' ps)) ≡ reverse (d.parts ++ ps)
      resolved [] h = unfold split join in (resolve-skip [] ([] ∷ d.parts) [] ∙ resolve_parts [] tt)
      resolved (p ∷ ps) h =
          rw (split-join b'/' (p ∷ ps) (λ k. cc) (no_slashes (p ∷ ps) h)) (resolve_parts (p ∷ ps) h)

  within : (ps : List Text) → All IsName ps → IsWithin root (b'/' ∷ join b'/' (d.parts ++ ps))
  within [] h = inl (ap (λ (l : List Text). b'/' ∷ join b'/' l) (append-nil d.parts) ∙ sym d.path)
  within (p ∷ ps) h = inr (
    p ∷ ps,
    (λ k. cc),
    h,
    ap (λ x. b'/' ∷ x) (join-append d.parts (p ∷ ps) d.nonempty (λ k. cc))
        ∙ ap (λ x. x ++ b'/' ∷ join b'/' (p ∷ ps)) (sym d.path),
  )

-- The last test of `SafeJoin` lets what lies within the root pass.
passes :
    (root target : Text)
    → IsWithin root target
    → (not (text_eq target root) && not (has_prefix target (root ++ b'/' ∷ []))) ≡ false
passes root target (inl e) = rw (e, text_eq_refl root) refl
passes root target (inr (ps, ne, n, e)) =
    let inside : has_prefix (root ++ b'/' ∷ join b'/' ps) (root ++ b'/' ∷ []) ≡ true =
      subst (λ x. has_prefix x (root ++ b'/' ∷ []) ≡ true)
        (append_assoc root (b'/' ∷ []) (join b'/' ps))
        (has_prefix-append (root ++ b'/' ∷ []) (join b'/' ps)) in
    rw (e, inside) (ground arith)

-- Whatever a caller sends, it is joined to a path within the root, and the last test of the
-- function never refuses it.
pub safe_join-IsWithin :
    (root rel : Text)
    → IsDestination root
    → (target : Text) × (safe_join root rel ≡ ok target) × IsWithin root target
unfolding safe_join
safe_join-IsWithin root rel d =
    let parts = split b'/' (b'/' ∷ rel) in
    let ps = reverse (resolve [] parts) in
    let named =
      All-reverse IsName (resolve [] parts)
        (resolve-IsName [] parts tt (All-split b'/' (b'/' ∷ rel))) in
    let target = b'/' ∷ join b'/' (d.parts ++ ps) in
    let cleaned : clean (b'/' ∷ rel) ≡ b'/' ∷ join b'/' ps = unfold clean in refl in
    let w = within root d ps named in
    (target, rw (cleaned, join_path-clean root d ps named, passes root target w) refl, w)
