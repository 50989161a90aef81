-- ===== src/Ingest/Isolation/Regions.antt =====
-- internal/ingest/ingest.go: the directories that belong to two sites, live, archived or in the
-- quarantine, lie apart from one another and from the staging directories.
use gotifacts.Prelude.{
  ◌≡◌, ◌≢◌, refl, sym, ap, ◌∙◌, true, List, [], ◌∷◌, ◌++◌, arith, All, inl, inr,
}
use gotifacts.Text.{Text, text_eq, split, join}
use gotifacts.Text.Equality.{text_eq_of_ne, Text-cases}
use gotifacts.Router.Label.{IsLabel}
use gotifacts.Router.SitePath.{SitePath, IsValid, content_leaf, content_dir}
use gotifacts.Router.SitePath.Segments.{dir_segments, dir-eq-join, dir_segments-labels}
use gotifacts.Router.SitePath.Layout.{dir_injective, leaf_not_label, split-content_dir}
use gotifacts.Files.{FilePath}
use gotifacts.Files.Frames.{apart, apart-append, apart-append_left}
use gotifacts.Ingest.{sites_dir, versions_dir, deleted_dir, tmp_dir, content_path}

-- The directories of a site: its content, its versions, and its quarantine.
pub data Tree : Type 0 where
  live archive quarantine : Tree

abbrev pub root_of : Tree → FilePath
root_of live = sites_dir
root_of archive = versions_dir
root_of quarantine = deleted_dir

label_ne_leaf : (s : Text) → IsLabel s → text_eq s content_leaf ≡ true → ⊥
label_ne_leaf s h e = absurd (cc (e, text_eq_of_ne s content_leaf (leaf_not_label s h)))

segments-apart :
    (xs ys : List Text)
    → All IsLabel xs
    → All IsLabel ys
    → xs ≢ ys
    → apart (xs ++ content_leaf ∷ []) (ys ++ content_leaf ∷ []) ≡ true
unfolding apart
segments-apart [] [] h k ne = absurd (ne refl)
segments-apart [] (y ∷ ys) h (l, k) ne =
    rw (text_eq_of_ne content_leaf y (λ e. leaf_not_label y l (sym e))) refl
segments-apart (x ∷ xs) [] (l, h) k ne = rw (text_eq_of_ne x content_leaf (leaf_not_label x l)) refl
segments-apart (x ∷ xs) (y ∷ ys) (l, h) (m, k) ne = elim (Text-cases x y) [
  | inl e ↦ ground (arith, segments-apart xs ys h k (λ r. ne (cc (e, r))))
  | inr d ↦ rw (text_eq_of_ne x y d) refl
]

content_path-segments :
    (root : FilePath) (s : SitePath)
    → IsValid s
    → content_path root s ≡ root ++ (dir_segments s ++ content_leaf ∷ [])
unfolding content_path
content_path-segments root s v = rw (split-content_dir s v) refl

dir_segments-inj :
    (s t : SitePath) → IsValid s → IsValid t → dir_segments s ≡ dir_segments t → s ≡ t
dir_segments-inj s t v w e =
    dir_injective s t v w (dir-eq-join s ∙ ap (join b'/') e ∙ sym (dir-eq-join t))

module _ (s t : SitePath) (v : IsValid s) (w : IsValid t) (ne : s ≢ t) where
  same_root : (root : FilePath) → apart (content_path root s) (content_path root t) ≡ true
  same_root root =
      rw (content_path-segments root s v, content_path-segments root t w)
        (apart-append_left root _ _ (
          segments-apart (dir_segments s) (dir_segments t) (dir_segments-labels s v)
            (dir_segments-labels t w) (λ e. ne (dir_segments-inj s t v w e))))

  other_root :
      (a b : FilePath) → apart a b ≡ true → apart (content_path a s) (content_path b t) ≡ true
  unfolding content_path
  other_root a b h = apart-append a b _ _ h

  -- No directory of one site lies in a directory of another.
  pub content_path-apart :
      (a b : Tree) → apart (content_path (root_of a) s) (content_path (root_of b) t) ≡ true
  unfolding apart text_eq
  content_path-apart live live = same_root sites_dir
  content_path-apart live archive = other_root sites_dir versions_dir refl
  content_path-apart live quarantine = other_root sites_dir deleted_dir refl
  content_path-apart archive live = other_root versions_dir sites_dir refl
  content_path-apart archive archive = same_root versions_dir
  content_path-apart archive quarantine = other_root versions_dir deleted_dir refl
  content_path-apart quarantine live = other_root deleted_dir sites_dir refl
  content_path-apart quarantine archive = other_root deleted_dir versions_dir refl
  content_path-apart quarantine quarantine = same_root deleted_dir

-- Nor does a staging directory.
pub tmp-apart :
    (p : FilePath) (b : Tree) (t : SitePath)
    → apart (tmp_dir ++ p) (content_path (root_of b) t) ≡ true
unfolding apart text_eq content_path
tmp-apart p live t = apart-append tmp_dir sites_dir p (split b'/' (content_dir t)) refl
tmp-apart p archive t = apart-append tmp_dir versions_dir p (split b'/' (content_dir t)) refl
tmp-apart p quarantine t = apart-append tmp_dir deleted_dir p (split b'/' (content_dir t)) refl
