-- ===== src/Auth/Spelling.antt =====
-- internal/auth/auth.go and internal/router/sitepath.go: Principal.Can compares the group and the
-- slug as a call spells them, before NewSitePath brings them into their one form.
mod Groups
use gotifacts.Prelude.{
  ℕ, ◌≡◌, ◌≢◌, ◌⊎◌, inl, inr, refl, sym, ap, ◌∙◌, subst, true, false, Bool, List, [], ◌∷◌, ◌++◌,
  append_assoc, append-nil, All, All-imp, Bool-cases, if◌then◌else◌, ◌&&◌, ◌||◌, ok,
}
use gotifacts.Text.{
  Text, text_eq, is_space, to_lower, lower_byte, trim, trim_space, trim_left, trim_right, split,
  join, joined, has_prefix,
}
use gotifacts.Text.Equality.{
  text_eq_of_ne, text_eq_refl, text_eq_iff, text_eq→eq, Text-cases, IsLower, to_lower_of_IsLower,
  to_lower-append,
}
use gotifacts.Text.Affix.{has_prefix→append, has_prefix-append}
use gotifacts.Text.Split.{join-split, split-append-any, split-head}
use gotifacts.Text.Bytes.{All-join}
use gotifacts.Text.Trim.{
  Keeps, trim_space_of_Keeps, trim_left-append, trim_right_of_Keeps, trim_right-parts,
}
use gotifacts.Router.Label.{IsLabel}
use gotifacts.Router.Label.Bytes.{IsLabel-IsLower, IsLabel-Keeps_space, IsLabel-ne-nil}
use gotifacts.Router.SitePath.{SitePath, drop_empty, raw_site_path, new_site_path}
use gotifacts.Router.SitePath.Canonical.{
  is_slash, drop_empty-labels, trim-join, IsLabel-Keeps_slash, slash-Keeps_space, slash-IsLower,
}
use gotifacts.Router.SitePath.Validation.{new_site_path-eq-ok}
use gotifacts.Keys.{Capability, has_capability}
use gotifacts.Auth.{
  Grant, Principal, is_api_key, grant_site, site_dir, group_allowed, grant_covers, any_grant, can,
}
use gotifacts.Auth.Grants.{join-split-append, group_allowed-nil}
use Groups.{built_group, IsTail, labels-slug, labels-group, nonempty, group-IsTail}

or_true : (b : Bool) → (b || true) ≡ true
or_true true = refl
or_true false = refl

-- A target whose parts between slashes are labels.
module _ (t : Text) (labels : All IsLabel (split b'/' t)) where
  spelled : (group : Text) → group_allowed t group ≡ true → (w : Text) × IsTail w × (group ≡ t ++ w)
  unfolding group_allowed
  spelled group h = elim (Text-cases group t) [
    | inl e ↦ ([], inl refl, e ∙ sym (append-nil t))
    | inr other ↦
        let (v, e) = has_prefix→append group (t ++ b'/' ∷ []) (
          rw (group_allowed, text_eq_of_ne t [] (nonempty t labels), text_eq_of_ne group t other) at
            h) in
        (b'/' ∷ v, inr (v, refl), e ∙ append_assoc t (b'/' ∷ []) v)
  ]

  allowed_tail : (w : Text) → IsTail w → group_allowed t (t ++ w) ≡ true
  unfolding group_allowed
  allowed_tail w (inl e) =
      rw (e, append-nil t, group_allowed, text_eq_of_ne t [] (nonempty t labels), text_eq_refl t)
        refl
  allowed_tail w (inr (v, e)) =
      let starts : has_prefix (t ++ w) (t ++ b'/' ∷ []) ≡ true =
        subst (λ u. has_prefix u (t ++ b'/' ∷ []) ≡ true)
          (append_assoc t (b'/' ∷ []) v ∙ ap (λ u. t ++ u) (sym e))
          (has_prefix-append (t ++ b'/' ∷ []) v) in
      rw (group_allowed, text_eq_of_ne t [] (nonempty t labels), starts) (or_true _)

  -- A target that allows a group allows what is built from it.
  group_allowed-built :
      (group : Text) → group_allowed t group ≡ true → group_allowed t (built_group group) ≡ true
  group_allowed-built group h =
      let (w, tail, e) = spelled group h in
      let (w', tail', k) = group-IsTail t labels w tail in
      subst (λ u. group_allowed t u ≡ true) (sym (ap built_group e ∙ k)) (allowed_tail w' tail')

All-left : (xs ys : List Text) → All IsLabel (xs ++ ys) → All IsLabel xs
All-left [] ys h = tt
All-left (x ∷ xs) ys (p, h) = (p, All-left xs ys h)

All-right : (xs ys : List Text) → All IsLabel (xs ++ ys) → All IsLabel ys
All-right [] ys h = h
All-right (x ∷ xs) ys (p, h) = All-right xs ys h

built_group-nil : built_group [] ≡ []
unfolding drop_empty split join text_eq trim_space trim trim_right trim_left to_lower
built_group-nil = refl

-- A group and a slug that stand together for labels are built as they are.
built_site :
    (group slug : Text)
    → All IsLabel (split b'/' (site_dir group slug))
    → (built_group group ≡ group) × (to_lower (trim_space slug) ≡ slug)
unfolding site_dir
built_site group slug labels = elim (Text-cases group []) [
  | inl e ↦ (
    ap built_group e ∙ built_group-nil ∙ sym e,
    labels-slug slug (rw (site_dir, e, text_eq_refl []) at labels),
  )
  | inr ne ↦
      let parts : All IsLabel (split b'/' group ++ split b'/' slug) =
        subst (All IsLabel) (split-append-any b'/' group slug)
          (rw (site_dir, text_eq_of_ne group [] ne) at labels) in
      (
        labels-group group (All-left _ _ parts),
        labels-slug slug (All-right (split b'/' group) _ parts),
      )
]

-- The target of a grant as `validateGrantTarget` of internal/mcpserver/consent.go admits it: labels
-- with slashes between them, or for a group also empty.
abbrev pub IsChecked : Grant → Type 0
IsChecked g = ((g.kind ≢ grant_site) × (g.target ≡ [])) ⊎ All IsLabel (split b'/' g.target)

site_kept :
    (g : Grant) (group slug : Text)
    → All IsLabel (split b'/' g.target)
    → site_dir group slug ≡ g.target
    → site_dir (built_group group) (to_lower (trim_space slug)) ≡ g.target
site_kept g group slug labels e =
    let (a, b) = built_site group slug (subst (λ u. All IsLabel (split b'/' u)) (sym e) labels) in
    ap (λ u. site_dir u (to_lower (trim_space slug))) a ∙ ap (site_dir group) b ∙ e

and-both : (a b : Bool) → (a && b) ≡ true → (a ≡ true) × (b ≡ true)
and-both true b h = (refl, h)
and-both false b h = absurd (cc h)

or_else : (b c : Bool) → (b ≡ true) ⊎ (c ≡ true) → (if b then true else c) ≡ true
or_else true c h = refl
or_else false c (inl h) = cc
or_else false c (inr h) = h

-- A grant covers the path that is built from a group and a slug that it covers.
grant_covers-built :
    (g : Grant) (group slug : Text)
    → IsChecked g
    → grant_covers g group slug ≡ true
    → grant_covers g (built_group group) (to_lower (trim_space slug)) ≡ true
unfolding grant_covers
grant_covers-built g group slug (inl (ne, e)) h =
    rw (grant_covers, text_eq_of_ne g.kind grant_site ne, e, group_allowed-nil) refl
grant_covers-built g group slug (inr labels) h = elim (Text-cases g.kind grant_site) [
  | inl e ↦
      let is_site = (text_eq_iff g.kind grant_site).1 e in
      let same = text_eq→eq (site_dir group slug) g.target (rw (grant_covers, is_site) at h) in
      rw (grant_covers, is_site) ((text_eq_iff _ g.target).1 (site_kept g group slug labels same))
  | inr ne ↦
      let other = text_eq_of_ne g.kind grant_site ne in
      let filled = text_eq_of_ne g.target [] (nonempty g.target labels) in
      rw (grant_covers, other, filled)
        (or_else (group_allowed g.target (built_group group)) _
          (elim (Bool-cases (group_allowed g.target group)) [
            | inl a ↦ inl (group_allowed-built g.target labels group a)
            | inr b ↦
                let same =
                  text_eq→eq (site_dir group slug) g.target
                    (rw (grant_covers, other, b, filled) at h) in
                inr ((text_eq_iff _ g.target).1 (site_kept g group slug labels same))
          ]))
]

any_grant-built :
    (gs : List Grant) (c : Capability) (group slug : Text)
    → All IsChecked gs
    → any_grant gs c group slug ≡ true
    → any_grant gs c (built_group group) (to_lower (trim_space slug)) ≡ true
unfolding any_grant
any_grant-built [] c group slug k h = absurd (cc h)
any_grant-built (g ∷ gs) c group slug (checked, k) h =
    elim (Bool-cases (has_capability g.permissions c && grant_covers g group slug)) [
      | inl e ↦
          let (a, b) = and-both (has_capability g.permissions c) _ e in
          rw (any_grant, a, grant_covers-built g group slug checked b) refl
      | inr e ↦ or_else _ _ (inr (any_grant-built gs c group slug k (rw (any_grant, e) at h)))
    ]

raw-eq-built :
    (group slug : Text)
    → raw_site_path group slug
      ≡ record { group = built_group group; slug = to_lower (trim_space slug) }
unfolding raw_site_path
raw-eq-built group slug = refl

-- Whoever may act on a group and slug as they are spelled may act on the site that they name, when
-- the targets of the grants have been checked.
pub can-built :
    (p : Principal) (c : Capability) (group slug : Text) (sp : SitePath)
    → All IsChecked p.grants
    → new_site_path group slug ≡ ok sp
    → can p c group slug ≡ true
    → can p c sp.group sp.slug ≡ true
unfolding can
can-built p c group slug sp k built h =
    let (_, e) = new_site_path-eq-ok group slug built in
    rw (e, raw-eq-built group slug)
      (elim (Bool-cases p.admin) [
        | inl a ↦ rw (can, a) refl
        | inr a ↦ elim (Bool-cases (is_api_key p.source)) [
          | inr b ↦ absurd (cc (rw (can, a, b) at h))
          | inl b ↦ rw (can, a, b) (any_grant-built p.grants c group slug k (rw (can, a, b) at h))
        ]
      ])
