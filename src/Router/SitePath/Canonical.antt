-- ===== src/Router/SitePath/Canonical.antt =====
-- internal/router/sitepath.go: `NewSitePath` leaves a valid path as it is.
use gotifacts.Prelude.{
  ℕ, ◌≡◌, refl, sym, ap, ◌∙◌, subst, false, Bool, List, [], ◌∷◌, ◌++◌, arith, All, All-imp,
  append_assoc, append-nil, ok, ◌==◌,
}
use gotifacts.Text.{
  Text, is_space, lower_byte, to_lower, trim, trim_space, split, join, joined, text_eq,
}
use gotifacts.Text.Equality.{to_lower_of_IsLower, text_eq_of_ne}
use gotifacts.Text.Split.{split-join, joined-append}
use gotifacts.Text.Trim.{Keeps, trim_of_Keeps, trim_space_of_Keeps, trim_between}
use gotifacts.Text.Bytes.{All-join}
use gotifacts.Router.Label.{IsLabel}
use gotifacts.Router.Label.Bytes.{
  IsLabel-IsLower, IsLabel-Keeps_space, IsLabel-Lacks_slash, IsLabel-ne-nil,
}
use gotifacts.Router.SitePath.{
  SitePath, IsValid, group_segments, drop_empty, raw_site_path, new_site_path,
}
use gotifacts.Router.SitePath.Segments.{join-group_segments, SitePath-eq, labels-Lacks_slash}
use gotifacts.Router.SitePath.Validation.{IsValid→validate, new_site_path-eq-ok}

abbrev pub is_slash : ℕ → Bool
is_slash c = c == b'/'

pub drop_empty-labels : (gs : List Text) → All IsLabel gs → drop_empty gs ≡ gs
unfolding drop_empty
drop_empty-labels [] h = refl
drop_empty-labels (g ∷ gs) (l, h) =
    rw (text_eq_of_ne g [] (IsLabel-ne-nil g l), drop_empty-labels gs h) refl

pub IsLabel-Keeps_slash : (g : Text) → IsLabel g → Keeps is_slash g
IsLabel-Keeps_slash g h = All-imp (λ c ne. ground arith) g (IsLabel-Lacks_slash g h)

-- Either one label, or a first and a last one.
data Ends : List Text → Type 0 where
  single : (g : Text) → Ends (g ∷ [])
  several : (f : Text) (gs : List Text) (l : Text) → Ends (f ∷ (gs ++ l ∷ []))

ends : (g : Text) (gs : List Text) → Ends (g ∷ gs)
ends g [] = single g
ends g (h ∷ gs) = elim (ends h gs) as (λ l e. Ends (g ∷ l)) [
  | single x ↦ several g [] x
  | several f hs x ↦ several g (f ∷ hs) x
]

All-last : (gs : List Text) (x : Text) → All IsLabel (gs ++ x ∷ []) → IsLabel x
All-last [] x (h, _) = h
All-last (g ∷ gs) x (_, h) = All-last gs x h

joined-concat :
    (gs : List Text) (x : Text) → joined b'/' (gs ++ x ∷ []) ≡ (joined b'/' gs ++ b'/' ∷ []) ++ x
unfolding joined
joined-concat gs x = simp (joined-append, append_assoc, append-nil)

Ends-trim : (l : List Text) → Ends l → All IsLabel l → trim is_slash (join b'/' l) ≡ join b'/' l
unfolding join joined
Ends-trim l (single g) h = rw append-nil (trim_of_Keeps is_slash g (IsLabel-Keeps_slash g h.0))
Ends-trim l (several f gs x) h =
    let k = All-last gs x h.1 in
    rw joined-concat (
      trim_between is_slash f (joined b'/' gs ++ b'/' ∷ []) x (IsLabel-ne-nil f h.0)
        (IsLabel-Keeps_slash f h.0) (IsLabel-ne-nil x k) (IsLabel-Keeps_slash x k))

pub trim-join : (gs : List Text) → All IsLabel gs → trim is_slash (join b'/' gs) ≡ join b'/' gs
trim-join [] h = unfold join in trim_of_Keeps is_slash [] tt
trim-join (g ∷ gs) h = Ends-trim (g ∷ gs) (ends g gs) h

pub slash-Keeps_space : is_space b'/' ≡ false
unfolding is_space
slash-Keeps_space = refl

pub slash-IsLower : lower_byte b'/' ≡ b'/'
unfolding lower_byte
slash-IsLower = refl

pub trimmed_group :
    (gs : List Text)
    → All IsLabel gs
    → trim is_slash (to_lower (trim_space (join b'/' gs))) ≡ join b'/' gs
trimmed_group gs h =
    rw
      (
        trim_space_of_Keeps (join b'/' gs)
            (All-join _ b'/' gs slash-Keeps_space (All-imp IsLabel-Keeps_space gs h)),
        to_lower_of_IsLower (join b'/' gs)
            (All-join _ b'/' gs slash-IsLower (All-imp IsLabel-IsLower gs h)),
      )
      (trim-join gs h)

kept_segments : (gs : List Text) → All IsLabel gs → drop_empty (split b'/' (join b'/' gs)) ≡ gs
kept_segments [] h = unfold drop_empty split join text_eq in refl
kept_segments (g ∷ gs) h =
    ap drop_empty (split-join b'/' (g ∷ gs) (cc) (labels-Lacks_slash (g ∷ gs) h))
    ∙ drop_empty-labels (g ∷ gs) h

raw_site_path-IsValid : (s : SitePath) → IsValid s → raw_site_path s.group s.slug ≡ s
unfolding raw_site_path
raw_site_path-IsValid s v =
    let gs = group_segments s in
    let g = join-group_segments s in
    let trimmed =
      subst (λ (u : Text). trim is_slash (to_lower (trim_space u)) ≡ u) g
        (trimmed_group gs v.group_labels) in
    let slug =
      ap to_lower (trim_space_of_Keeps s.slug (IsLabel-Keeps_space s.slug v.slug_label))
      ∙ to_lower_of_IsLower s.slug (IsLabel-IsLower s.slug v.slug_label) in
    SitePath-eq _ s
      (ap (λ u. join b'/' (drop_empty (split b'/' u))) (trimmed ∙ sym g)
        ∙ ap (join b'/') (kept_segments gs v.group_labels)
        ∙ g)
      slug

-- Every valid site path is built from its own group and slug.
pub new_site_path-IsValid : (s : SitePath) → IsValid s → new_site_path s.group s.slug ≡ ok s
unfolding new_site_path
new_site_path-IsValid s v = rw (raw_site_path-IsValid s v, IsValid→validate s v) refl

-- What `NewSitePath` accepts is valid, and building a path again from the result changes nothing.
pub new_site_path_idem :
    (group slug : Text) (sp : SitePath)
    → new_site_path group slug ≡ ok sp
    → IsValid sp × (new_site_path sp.group sp.slug ≡ ok sp)
new_site_path_idem group slug sp e =
    let (v, _) = new_site_path-eq-ok group slug e in (v, new_site_path-IsValid sp v)
