-- ===== src/Router/SitePath/Segments.antt =====
-- The group of a site path and its segments determine one another.
use gotifacts.Prelude.{
  ℕ, ◌≡◌, ◌≢◌, refl, sym, List, [], ◌∷◌, ◌++◌, inl, inr, All, All-append, All-imp, append_assoc,
  append-nil,
}
use gotifacts.Text.{Text, split, join, joined}
use gotifacts.Text.Equality.{text_eq_iff, text_eq_of_ne, Text-cases}
use gotifacts.Text.Split.{Lacks, split-head, join-split, split-join, joined-append}
use gotifacts.Router.Label.{IsLabel}
use gotifacts.Router.Label.Bytes.{IsLabel-Lacks_slash, IsLabel-ne-nil}
use gotifacts.Router.SitePath.{SitePath, IsValid, group_segments, dir}

pub group_segments_of_nil : (s : SitePath) → s.group ≡ [] → group_segments s ≡ []
unfolding group_segments
group_segments_of_nil s e = rw ((text_eq_iff s.group []).1 e)

pub group_segments_of_ne : (s : SitePath) → s.group ≢ [] → group_segments s ≡ split b'/' s.group
unfolding group_segments
group_segments_of_ne s h = rw (text_eq_of_ne s.group [] h)

-- Joining the segments gives the group back.
pub join-group_segments : (s : SitePath) → join b'/' (group_segments s) ≡ s.group
unfolding join
join-group_segments s = elim (Text-cases s.group []) [
  | inl e ↦ rw (group_segments_of_nil s e) (sym e)
  | inr h ↦ rw (group_segments_of_ne s h) (join-split b'/' s.group)
]

pub join-concat :
    (sep : ℕ) (p : Text) (ps : List Text) (q : Text)
    → join sep (p ∷ (ps ++ q ∷ [])) ≡ join sep (p ∷ ps) ++ sep ∷ q
unfolding join joined
join-concat sep p ps q = simp (joined-append, append_assoc, append-nil)

abbrev pub dir_segments : SitePath → List Text
dir_segments s = group_segments s ++ s.slug ∷ []

dir_of_ne : (s : SitePath) → s.group ≢ [] → dir s ≡ join b'/' (dir_segments s)
unfolding dir
dir_of_ne s h =
    let (p, ps, e) = split-head b'/' s.group in
    let whole : join b'/' (p ∷ ps) ≡ s.group = rw (← e) (join-split b'/' s.group) in
    rw (text_eq_of_ne s.group [] h, group_segments_of_ne s h, e, join-concat, whole)

-- The directory is the segments of the group and the slug, joined.
pub dir-eq-join : (s : SitePath) → dir s ≡ join b'/' (dir_segments s)
unfolding dir join joined
dir-eq-join s = elim (Text-cases s.group []) [
  | inl e ↦ rw (group_segments_of_nil s e, (text_eq_iff s.group []).1 e) (sym (append-nil s.slug))
  | inr h ↦ dir_of_ne s h
]

pub labels-Lacks_slash : (gs : List Text) → All IsLabel gs → All (Lacks b'/') gs
labels-Lacks_slash gs h = All-imp IsLabel-Lacks_slash gs h

join-ne-nil : (g : Text) (gs : List Text) → IsLabel g → join b'/' (g ∷ gs) ≢ []
unfolding join
join-ne-nil [] gs h e = IsLabel-ne-nil [] h refl
join-ne-nil (c ∷ g) gs h e = cc

-- Labels that are joined to a group are its segments.
pub group_segments-join :
    (s : SitePath) (gs : List Text)
    → s.group ≡ join b'/' gs
    → All IsLabel gs
    → group_segments s ≡ gs
group_segments-join s [] e h = group_segments_of_nil s (unfold join in e)
group_segments-join s (g ∷ gs) e h =
    let ne : s.group ≢ [] = rw e (join-ne-nil g gs h.0) in
    rw (group_segments_of_ne s ne, e)
      (split-join b'/' (g ∷ gs) (cc) (labels-Lacks_slash (g ∷ gs) h))

pub SitePath-eq : (s t : SitePath) → s.group ≡ t.group → s.slug ≡ t.slug → s ≡ t
SitePath-eq s t g h = λ i. record { group = g i; slug = h i }

module _ (s : SitePath) (v : IsValid s) where
  pub dir_segments-labels : All IsLabel (dir_segments s)
  dir_segments-labels = All-append IsLabel _ _ v.group_labels (v.slug_label, tt)
