-- ===== src/Router/SitePath/Layout.antt =====
-- internal/router/sitepath.go: distinct sites never share a directory, and no content directory
-- lies in another.
use gotifacts.Prelude.{
  ◌≡◌, ◌≢◌, refl, sym, ap, ◌∙◌, List, [], ◌∷◌, ◌++◌, arith, All, append_assoc, subst,
}
use gotifacts.Text.{Text, split, join}
use gotifacts.Text.Split.{split-append-any, split_of_Lacks, split-join, split-ne-nil}
use gotifacts.Router.Label.{is_label, IsLabel}
use gotifacts.Router.SitePath.{SitePath, IsValid, content_leaf, group_segments, dir, content_dir}
use gotifacts.Router.SitePath.Segments.{
  join-group_segments, dir_segments, dir-eq-join, dir_segments-labels, labels-Lacks_slash,
  SitePath-eq,
}

concat-ne-nil : (gs : List Text) (q : Text) → gs ++ q ∷ [] ≢ []
concat-ne-nil [] q h = cc
concat-ne-nil (g ∷ gs) q h = cc

pub split-dir : (s : SitePath) → IsValid s → split b'/' (dir s) ≡ dir_segments s
split-dir s v = rw dir-eq-join (
    split-join b'/' (dir_segments s) (concat-ne-nil (group_segments s) s.slug)
      (labels-Lacks_slash (dir_segments s) (dir_segments-labels s v)))

pub concat-inj :
    (xs ys : List Text) {x y : Text} → xs ++ x ∷ [] ≡ ys ++ y ∷ [] → (xs ≡ ys) × (x ≡ y)
concat-inj [] [] h = (refl, cc)
concat-inj [] (y ∷ []) h = cc
concat-inj [] (y ∷ z ∷ ys) h = cc
concat-inj (x ∷ []) [] h = cc
concat-inj (x ∷ z ∷ xs) [] h = cc
concat-inj (x ∷ xs) (y ∷ ys) h = let (p, q) = concat-inj xs ys (ground arith) in (ground arith, q)

-- Two valid site paths with one directory are the same path.
pub dir_injective : (s t : SitePath) → IsValid s → IsValid t → dir s ≡ dir t → s ≡ t
dir_injective s t v w e =
    let same = sym (split-dir s v) ∙ ap (split b'/') e ∙ split-dir t w in
    let (groups, slugs) = concat-inj (group_segments s) (group_segments t) same in
    SitePath-eq s t (sym (join-group_segments s) ∙ ap (join b'/') groups ∙ join-group_segments t)
      slugs

pub leaf_not_label : (s : Text) → IsLabel s → s ≢ content_leaf
unfolding is_label
leaf_not_label s h e = cc (subst IsLabel e h)

-- The content leaf stands nowhere among labels, so it is the last segment of a content directory.
leaf_last :
    (xs ys zs : List Text)
    → All IsLabel xs
    → xs ++ content_leaf ∷ [] ≡ ys ++ content_leaf ∷ zs
    → (xs ≡ ys) × (zs ≡ [])
leaf_last [] [] zs h e = (refl, cc)
leaf_last [] (y ∷ []) zs h e = cc
leaf_last [] (y ∷ z ∷ ys) zs h e = cc
leaf_last (x ∷ xs) [] zs (p, h) e = absurd (leaf_not_label x p (ground arith))
leaf_last (x ∷ xs) (y ∷ ys) zs (p, h) e =
    let (a, b) = leaf_last xs ys zs h (ground arith) in (ground arith, b)

pub split-content_dir :
    (s : SitePath) → IsValid s → split b'/' (content_dir s) ≡ dir_segments s ++ content_leaf ∷ []
unfolding content_dir
split-content_dir s v =
    rw (split-append-any, split-dir s v, split_of_Lacks b'/' content_leaf (omega arith))

content_dir_injective :
    (s t : SitePath) → IsValid s → IsValid t → content_dir s ≡ content_dir t → s ≡ t
content_dir_injective s t v w e =
    let segs = sym (split-content_dir s v) ∙ ap (split b'/') e ∙ split-content_dir t w in
    let (same, _) = concat-inj (dir_segments s) (dir_segments t) segs in
    dir_injective s t v w (dir-eq-join s ∙ ap (join b'/') same ∙ sym (dir-eq-join t))

not_inside :
    (s t : SitePath)
    → IsValid s
    → IsValid t
    → (rest : Text) → content_dir t ≢ content_dir s ++ b'/' ∷ rest
not_inside s t v w rest e =
    let segs =
      sym (split-content_dir t w)
      ∙ ap (split b'/') e
      ∙ split-append-any b'/' (content_dir s) rest
      ∙ ap (λ l. l ++ split b'/' rest) (split-content_dir s v)
      ∙ append_assoc (dir_segments s) (content_leaf ∷ []) (split b'/' rest) in
    let (_, none_left) =
      leaf_last (dir_segments t) (dir_segments s) _ (dir_segments-labels t w) segs in
    split-ne-nil b'/' rest none_left

-- Two valid site paths with one content directory are the same path, and no content directory lies
-- in another: none is what another, or itself, leads to behind a slash.
pub content_dir_disjoint :
    (s t : SitePath)
    → IsValid s
    → IsValid t
    → (content_dir s ≡ content_dir t → s ≡ t)
      × ((rest : Text) → content_dir t ≢ content_dir s ++ b'/' ∷ rest)
content_dir_disjoint s t v w = (content_dir_injective s t v w, not_inside s t v w)
