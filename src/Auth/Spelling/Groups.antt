-- ===== src/Auth/Spelling/Groups.antt =====
-- internal/router/sitepath.go: what NewSitePath makes of a group that begins with labels.
use gotifacts.Prelude.{
  ℕ, ◌≡◌, ◌≢◌, ◌⊎◌, inl, inr, refl, sym, ap, ◌∙◌, subst, List, [], ◌∷◌, ◌++◌, append_assoc,
  append-nil, All, All-imp,
}
use gotifacts.Text.{
  Text, is_space, to_lower, lower_byte, trim, trim_space, trim_left, trim_right, split, join,
  joined,
}
use gotifacts.Text.Equality.{text_eq_of_ne, IsLower, to_lower_of_IsLower, to_lower-append}
use gotifacts.Text.Split.{join-split, split-append-any, split-head}
use gotifacts.Text.Bytes.{All-join}
use gotifacts.Text.Trim.{
  Keeps, trim_space_of_Keeps, trim_left-append, trim_right_of_Keeps, trim_right-parts,
}
use gotifacts.Router.Label.{IsLabel}
use gotifacts.Router.Label.Bytes.{IsLabel-IsLower, IsLabel-Keeps_space, IsLabel-ne-nil}
use gotifacts.Router.SitePath.{drop_empty}
use gotifacts.Router.SitePath.Canonical.{
  is_slash, drop_empty-labels, trim-join, IsLabel-Keeps_slash, slash-Keeps_space, slash-IsLower,
}
use gotifacts.Auth.Grants.{join-split-append}

-- The group of the path that `NewSitePath` builds.
abbrev pub built_group : Text → Text
built_group group =
    join b'/' (drop_empty (split b'/' (trim is_slash (to_lower (trim_space group)))))

-- What a part of a group leaves behind labels: nothing, or a slash and more.
abbrev pub IsTail : Text → Type 0
IsTail w = (w ≡ []) ⊎ ((v : Text) × (w ≡ b'/' ∷ v))

IsTail-of_prefix : (w rest cut : Text) → IsTail w → w ≡ rest ++ cut → IsTail rest
IsTail-of_prefix w [] cut t e = inl refl
IsTail-of_prefix w (c ∷ rest) cut (inl h) e = cc
IsTail-of_prefix w (c ∷ rest) cut (inr (v, h)) e = inr (rest, cc)

IsTail-of_lower : (w : Text) → IsTail w → IsTail (to_lower w)
unfolding to_lower lower_byte
IsTail-of_lower w (inl h) = inl (rw h refl)
IsTail-of_lower w (inr (v, h)) = inr (to_lower v, rw h refl)

drop_empty-append :
    (gs hs : List Text) → All IsLabel gs → drop_empty (gs ++ hs) ≡ gs ++ drop_empty hs
unfolding drop_empty
drop_empty-append [] hs h = refl
drop_empty-append (g ∷ gs) hs (l, h) =
    rw (text_eq_of_ne g [] (IsLabel-ne-nil g l), drop_empty-append gs hs h) refl

-- A text whose parts between slashes are labels.
module _ (t : Text) (labels : All IsLabel (split b'/' t)) where
  bytes_of_labels : (P : ℕ → Type 0) → P b'/' → ((l : Text) → IsLabel l → All P l) → All P t
  bytes_of_labels P slash each =
      subst (All P) (join-split b'/' t)
        (All-join P b'/' (split b'/' t) slash (All-imp each (split b'/' t) labels))

  labels-Keeps_space : Keeps is_space t
  labels-Keeps_space = bytes_of_labels _ slash-Keeps_space IsLabel-Keeps_space

  labels-IsLower : IsLower t
  labels-IsLower = bytes_of_labels _ slash-IsLower IsLabel-IsLower

  pub labels-slug : to_lower (trim_space t) ≡ t
  labels-slug =
      ap to_lower (trim_space_of_Keeps t labels-Keeps_space) ∙ to_lower_of_IsLower t labels-IsLower

  join_kept : join b'/' (drop_empty (split b'/' t)) ≡ t
  join_kept = ap (join b'/') (drop_empty-labels (split b'/' t) labels) ∙ join-split b'/' t

  trim_slash : trim is_slash t ≡ t
  trim_slash =
      subst (λ u. trim is_slash u ≡ u) (join-split b'/' t) (trim-join (split b'/' t) labels)

  -- Such a group is built as it is.
  pub labels-group : built_group t ≡ t
  labels-group =
      ap (λ u. join b'/' (drop_empty (split b'/' (trim is_slash u)))) labels-slug
      ∙ ap (λ u. join b'/' (drop_empty (split b'/' u))) trim_slash
      ∙ join_kept

  trim_left-slash : (w : Text) → trim_left is_slash (t ++ w) ≡ t ++ w
  unfolding join
  trim_left-slash w =
      let (f, ps, e) = split-head b'/' t in
      let label : IsLabel f = (subst (All IsLabel) e labels).0 in
      let parts : t ++ w ≡ f ++ (joined b'/' ps ++ w) =
        ap (λ u. u ++ w) (sym (join-split b'/' t) ∙ ap (join b'/') e)
        ∙ append_assoc f (joined b'/' ps) w in
      ap (trim_left is_slash) parts
      ∙ trim_left-append is_slash f (joined b'/' ps ++ w) (IsLabel-ne-nil f label)
          (IsLabel-Keeps_slash f label)
      ∙ sym parts

  trim_right-slash : trim_right is_slash t ≡ t
  unfolding trim
  trim_right-slash =
      ap (trim_right is_slash)
        (sym (append-nil t) ∙ sym (trim_left-slash []) ∙ ap (trim_left is_slash) (append-nil t))
      ∙ trim_slash

  pub nonempty : t ≢ []
  unfolding split
  nonempty e = IsLabel-ne-nil [] (subst (λ u. All IsLabel (split b'/' u)) e labels).0 refl

  trimmed_space : (w : Text) → IsTail w → (w' : Text) × IsTail w' × (trim_space (t ++ w) ≡ t ++ w')
  unfolding trim_space trim
  trimmed_space w tail =
      let (w', cut, k, e) =
        trim_right-parts is_space t w (trim_right_of_Keeps is_space t labels-Keeps_space) in
      (
        w',
        IsTail-of_prefix w w' cut tail k,
        ap (trim_right is_space) (trim_left-append is_space t w nonempty labels-Keeps_space) ∙ e,
      )

  trimmed_slash :
      (w : Text) → IsTail w → (w' : Text) × IsTail w' × (trim is_slash (t ++ w) ≡ t ++ w')
  unfolding trim
  trimmed_slash w tail =
      let (w', cut, k, e) = trim_right-parts is_slash t w trim_right-slash in
      (w', IsTail-of_prefix w w' cut tail k, ap (trim_right is_slash) (trim_left-slash w) ∙ e)

  -- What is built from the segments behind the labels.
  built-IsTail :
      (w : Text)
      → IsTail w
      → (w' : Text) × IsTail w' × (join b'/' (drop_empty (split b'/' (t ++ w))) ≡ t ++ w')
  unfolding drop_empty
  built-IsTail w (inl e) = (
    [],
    inl refl,
    ap (λ u. join b'/' (drop_empty (split b'/' u))) (ap (λ u. t ++ u) e ∙ append-nil t)
        ∙ join_kept
        ∙ sym (append-nil t),
  )
  built-IsTail w (inr (v, e)) =
      let segs : drop_empty (split b'/' (t ++ w)) ≡ split b'/' t ++ drop_empty (split b'/' v) =
        ap (λ u. drop_empty (split b'/' (t ++ u))) e
        ∙ ap drop_empty (split-append-any b'/' t v)
        ∙ drop_empty-append (split b'/' t) (split b'/' v) labels in
      behind (drop_empty (split b'/' v)) segs
    where
      behind :
          (qs : List Text)
          → drop_empty (split b'/' (t ++ w)) ≡ split b'/' t ++ qs
          → (w' : Text) × IsTail w' × (join b'/' (drop_empty (split b'/' (t ++ w))) ≡ t ++ w')
      behind [] segs = (
        [],
        inl refl,
        ap (join b'/') (segs ∙ append-nil (split b'/' t)) ∙ join-split b'/' t ∙ sym (append-nil t),
      )
      behind (q ∷ qs) segs = (
        b'/' ∷ join b'/' (q ∷ qs),
        inr (join b'/' (q ∷ qs), refl),
        ap (join b'/') segs ∙ join-split-append t q qs,
      )

  -- A group that begins with the labels, up to a slash, is built to one that does.
  pub group-IsTail :
      (w : Text) → IsTail w → (w' : Text) × IsTail w' × (built_group (t ++ w) ≡ t ++ w')
  group-IsTail w tail =
      let (a, ta, ea) = trimmed_space w tail in
      let low : to_lower (t ++ a) ≡ t ++ to_lower a =
        to_lower-append t a ∙ ap (λ u. u ++ to_lower a) (to_lower_of_IsLower t labels-IsLower) in
      let (b, tb, eb) = trimmed_slash (to_lower a) (IsTail-of_lower a ta) in
      let (c, tc, ec) = built-IsTail b tb in
      (
        c,
        tc,
        ap (λ u. join b'/' (drop_empty (split b'/' u)))
              (ap (trim is_slash) (ap to_lower ea ∙ low) ∙ eb)
            ∙ ec,
      )
