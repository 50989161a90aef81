-- ===== src/Auth/Grants.antt =====
-- internal/auth/auth.go: what a grant covers, in terms of the segments of a site's directory.
use gotifacts.Prelude.{
  ℕ, ◌≡◌, ◌≢◌, ◌↔◌, ◌⊎◌, inl, inr, refl, sym, ap, ◌∙◌, true, false, Bool, List, [], ◌∷◌, ◌++◌,
  append_assoc, append-nil, arith, Any, Bool-cases, if◌then◌else◌, ◌&&◌, not,
}
use gotifacts.Text.{Text, text_eq, split, join, joined}
use gotifacts.Text.Equality.{text_eq_iff, text_eq_of_ne, Text-cases, text_eq→eq}
use gotifacts.Text.Affix.{has_prefix→append, has_prefix-append}
use gotifacts.Text.Split.{join-split, split-append-any, split-head, joined-append}
use gotifacts.Router.SitePath.{SitePath, IsValid, group_segments, dir}
use gotifacts.Router.SitePath.Segments.{
  dir_segments, dir-eq-join, join-group_segments, group_segments_of_ne,
}
use gotifacts.Router.SitePath.Layout.{split-dir, concat-inj}
use gotifacts.Keys.{Capability, has_capability}
use gotifacts.Auth.{
  Grant, Principal, Source, forward_auth_source, api_key_source, is_api_key, grant_site, site_dir,
  group_allowed, grant_covers, any_grant, can,
}

-- The sites at a path and below it, as lists of segments.
abbrev pub IsWithin : List Text → List Text → Type 0
IsWithin target segments = (rest : List Text) × (segments ≡ target ++ rest)

-- The segments of a grant's target; the empty target is the root.
abbrev pub target_segments : Text → List Text
target_segments t = if text_eq t [] then [] else split b'/' t

join-append :
    (sep : ℕ) (ts rs : List Text) (t r : Text)
    → join sep ((t ∷ ts) ++ r ∷ rs) ≡ join sep (t ∷ ts) ++ sep ∷ join sep (r ∷ rs)
unfolding join joined
join-append sep ts rs t r = simp (joined-append, append_assoc)

pub join-split-append :
    (t r : Text) (rs : List Text)
    → join b'/' (split b'/' t ++ r ∷ rs) ≡ t ++ b'/' ∷ join b'/' (r ∷ rs)
join-split-append t r rs =
    let (p, ps, e) = split-head b'/' t in
    ap (λ l. join b'/' (l ++ r ∷ rs)) e
    ∙ join-append b'/' ps rs p r
    ∙ ap (λ u. u ++ b'/' ∷ join b'/' (r ∷ rs)) (ap (join b'/') (sym e) ∙ join-split b'/' t)

site_dir-eq-dir : (s : SitePath) → site_dir s.group s.slug ≡ dir s
unfolding site_dir dir
site_dir-eq-dir s = refl

-- A nonempty list ends in a last member.
init_last : (x : Text) (xs : List Text) → (ys : List Text) × (y : Text) × (x ∷ xs ≡ ys ++ y ∷ [])
init_last x [] = ([], x, refl)
init_last x (z ∷ xs) = let (ys, y, e) = init_last z xs in (x ∷ ys, y, ap (λ l. x ∷ l) e)

append-cons-ne-nil : (t : Text) (x : Text) → t ++ b'/' ∷ x ≢ []
append-cons-ne-nil [] x h = cc
append-cons-ne-nil (c ∷ t) x h = cc

module _ (s : SitePath) (v : IsValid s) (t : Text) (ne : t ≢ []) where
  group-IsWithin : s.group ≡ t → IsWithin (split b'/' t) (dir_segments s)
  group-IsWithin e =
      let segs = group_segments_of_ne s (λ z. ne (sym e ∙ z)) ∙ ap (split b'/') e in
      (s.slug ∷ [], ap (λ l. l ++ s.slug ∷ []) segs)

  prefix-IsWithin : (x : Text) → s.group ≡ t ++ b'/' ∷ x → IsWithin (split b'/' t) (dir_segments s)
  prefix-IsWithin x e =
      let segs =
        group_segments_of_ne s (λ z. append-cons-ne-nil t x (sym e ∙ z))
        ∙ ap (split b'/') e
        ∙ split-append-any b'/' t x in
      (
        split b'/' x ++ s.slug ∷ [],
        ap (λ l. l ++ s.slug ∷ []) segs ∙ append_assoc (split b'/' t) (split b'/' x) (s.slug ∷ []),
      )

  dir-IsWithin : dir s ≡ t → IsWithin (split b'/' t) (dir_segments s)
  dir-IsWithin e = ([], sym (split-dir s v) ∙ ap (split b'/') e ∙ sym (append-nil (split b'/' t)))

  group_of_within :
      (ys : List Text)
      → group_segments s ≡ split b'/' t ++ ys
      → (s.group ≡ t) ⊎ ((x : Text) × (s.group ≡ (t ++ b'/' ∷ []) ++ x))
  group_of_within [] e = inl (
      sym (join-group_segments s)
      ∙ ap (join b'/') (e ∙ append-nil (split b'/' t))
      ∙ join-split b'/' t)
  group_of_within (q ∷ qs) e = inr (
    join b'/' (q ∷ qs),
    sym (join-group_segments s)
        ∙ ap (join b'/') e
        ∙ join-split-append t q qs
        ∙ sym (append_assoc t (b'/' ∷ []) (join b'/' (q ∷ qs))),
  )

  allowed→ :
      group_allowed t s.group ≡ true
      → (s.group ≡ t) ⊎ ((x : Text) × (s.group ≡ (t ++ b'/' ∷ []) ++ x))
  unfolding group_allowed
  allowed→ e = elim (Bool-cases (text_eq s.group t)) [
    | inl same ↦ inl (text_eq→eq s.group t same)
    | inr other ↦
        inr (has_prefix→append s.group (t ++ b'/' ∷ []) (rw (text_eq_of_ne t [] ne, other) at e))
  ]

  allowed← :
      (s.group ≡ t) ⊎ ((x : Text) × (s.group ≡ (t ++ b'/' ∷ []) ++ x))
      → group_allowed t s.group ≡ true
  unfolding group_allowed
  allowed← (inl e) = rw (text_eq_of_ne t [] ne, (text_eq_iff s.group t).1 e) refl
  allowed← (inr (x, e)) =
      rw (text_eq_of_ne t [] ne, e, has_prefix-append (t ++ b'/' ∷ []) x) (ground arith)

  -- The directory, or the group, lies at the target or below.
  covered_iff :
      ((group_allowed t s.group ≡ true) ⊎ (dir s ≡ t)) ↔ IsWithin (split b'/' t) (dir_segments s)
  covered_iff = (
    λ c. elim c [
      | inl allowed ↦ elim (allowed→ allowed) [
        | inl e ↦ group-IsWithin e
        | inr (x, e) ↦ prefix-IsWithin x (e ∙ append_assoc t (b'/' ∷ []) x)
      ]
      | inr e ↦ dir-IsWithin e
    ],
    λ (rest, e). covered rest e,
  )
    where
      covered :
          (rest : List Text)
          → dir_segments s ≡ split b'/' t ++ rest
          → (group_allowed t s.group ≡ true) ⊎ (dir s ≡ t)
      covered [] e =
          inr (dir-eq-join s ∙ ap (join b'/') (e ∙ append-nil (split b'/' t)) ∙ join-split b'/' t)
      covered (r ∷ rs) e =
          let (ys, y, last) = init_last r rs in
          let segs =
            e ∙ ap (λ l. split b'/' t ++ l) last ∙ sym (append_assoc (split b'/' t) ys (y ∷ [])) in
          inl (allowed← (group_of_within ys (concat-inj _ _ segs).0))

-- What a grant promises: a site grant covers one directory, any other covers a subtree.
abbrev pub Covers : Grant → SitePath → Type 0
Covers g s =
    ((g.kind ≡ grant_site) × (dir s ≡ g.target))
    ⊎ ((g.kind ≢ grant_site) × IsWithin (target_segments g.target) (dir_segments s))

covered_of_test :
    (s : SitePath) (b : Bool) (u : Text)
    → (if b then true else text_eq (dir s) u) ≡ true
    → (b ≡ true) ⊎ (dir s ≡ u)
covered_of_test s true u h = inl refl
covered_of_test s false u h = inr (text_eq→eq (dir s) u h)

test_of_covered :
    (s : SitePath) (b : Bool) (u : Text)
    → (b ≡ true) ⊎ (dir s ≡ u)
    → (if b then true else text_eq (dir s) u) ≡ true
test_of_covered s true u e = refl
test_of_covered s false u (inl e) = cc
test_of_covered s false u (inr e) = (text_eq_iff (dir s) u).1 e

target_segments-nil : target_segments [] ≡ []
unfolding text_eq
target_segments-nil = refl

pub group_allowed-nil : (group : Text) → group_allowed [] group ≡ true
unfolding group_allowed text_eq
group_allowed-nil group = refl

group_covers_iff :
    (s : SitePath) (t : Text)
    → IsValid s
    → ((if group_allowed t s.group then true else not (text_eq t []) && text_eq (dir s) t) ≡ true)
      ↔ IsWithin (target_segments t) (dir_segments s)
group_covers_iff s t v = elim (Text-cases t []) [
  | inl e ↦
      rw (e, group_allowed-nil)
        (
          (λ _. (dir_segments s, ap (λ l. l ++ dir_segments s) (sym target_segments-nil))),
          λ _. refl,
        )
  | inr ne ↦
      let (to, from) = covered_iff s v t ne in
      rw (text_eq_of_ne t [] ne) (
        (λ h. to (covered_of_test s (group_allowed t s.group) t h)),
        λ w. test_of_covered s (group_allowed t s.group) t (from w),
      )
]

-- A grant covers exactly the sites that its kind and target describe.
pub grant_covers_iff :
    (g : Grant) (s : SitePath) → IsValid s → (grant_covers g s.group s.slug ≡ true) ↔ Covers g s
unfolding grant_covers
grant_covers_iff g s v = rw site_dir-eq-dir (elim (Text-cases g.kind grant_site) [
  | inl e ↦ rw ((text_eq_iff g.kind grant_site).1 e) (
    (λ h. inl (e, text_eq→eq (dir s) g.target h)),
    λ c. elim c [
      | inl (_, same) ↦ (text_eq_iff (dir s) g.target).1 same
      | inr (other, _) ↦ absurd (other e)
    ],
  )
  | inr ne ↦
      let (to, from) = group_covers_iff s g.target v in
      rw (text_eq_of_ne g.kind grant_site ne)
        ((λ h. inr (ne, to h)), λ c. elim c [ inl (e, _) ↦ absurd (ne e) | inr (_, w) ↦ from w ])
])

abbrev pub Grants : Capability → SitePath → Grant → Type 0
Grants c s g = (has_capability g.permissions c ≡ true) × Covers g s

grant_test :
    (a b r : Bool) → (if a && b then true else r) ≡ true → ((a ≡ true) × (b ≡ true)) ⊎ (r ≡ true)
grant_test true true r h = inl (refl, refl)
grant_test true false r h = inr h
grant_test false b r h = inr h

grant_test_or : (a b r : Bool) → r ≡ true → (if a && b then true else r) ≡ true
grant_test_or true true r h = refl
grant_test_or true false r h = h
grant_test_or false b r h = h

any_grant_iff :
    (gs : List Grant) (c : Capability) (s : SitePath)
    → IsValid s
    → (any_grant gs c s.group s.slug ≡ true) ↔ Any (Grants c s) gs
unfolding any_grant
any_grant_iff [] c s v = ((λ h. absurd (cc)), λ h. elim h [ ])
any_grant_iff (g ∷ gs) c s v =
    let (to, from) = any_grant_iff gs c s v in
    let (cov, uncov) = grant_covers_iff g s v in
    (
      (λ h. elim (grant_test (has_capability g.permissions c) _ _ h) [
        | inl (a, b) ↦ inl (a, cov b)
        | inr r ↦ inr (to r)
      ]),
      λ h. elim h [
        | inl (a, k) ↦ rw (a, uncov k) refl
        | inr r ↦ grant_test_or (has_capability g.permissions c) _ _ (from r)
      ],
    )

-- Who may do what: an administrator anything, an API key what one of its grants covers, and a
-- forward-auth user that is no administrator nothing.
abbrev pub IsPermitted : Principal → Capability → SitePath → Type 0
IsPermitted p c s = (p.admin ≡ true) ⊎ ((p.source ≡ api_key_source) × Any (Grants c s) p.grants)

can_of_source :
    (source : Source) (gs : List Grant) (c : Capability) (s : SitePath)
    → IsValid s
    → ((if not (is_api_key source) then false else any_grant gs c s.group s.slug) ≡ true)
      ↔ ((source ≡ api_key_source) × Any (Grants c s) gs)
can_of_source forward_auth_source gs c s v = ((λ h. absurd (cc)), λ (e, _). cc)
can_of_source api_key_source gs c s v =
    let (to, from) = any_grant_iff gs c s v in ((λ h. (refl, to h)), λ (_, k). from k)

-- `Principal.Can` decides exactly the permission.
pub can_iff :
    (p : Principal) (c : Capability) (s : SitePath)
    → IsValid s
    → (can p c s.group s.slug ≡ true) ↔ IsPermitted p c s
unfolding can
can_iff p c s v = elim (Bool-cases p.admin) [
  | inl yes_admin ↦ rw yes_admin ((λ _. inl refl), λ _. refl)
  | inr no_admin ↦
      let (to, from) = can_of_source p.source p.grants c s v in
      rw no_admin ((λ h. inr (to h)), λ k. elim k [ inl e ↦ absurd (cc) | inr r ↦ from r ])
]
