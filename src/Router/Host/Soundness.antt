-- ===== src/Router/Host/Soundness.antt =====
-- internal/router/sitepath.go: which hosts `ParseHost` maps to a site path.
use mathlib.Core.List.{reverse-cons, reverse-reverse}
use gotifacts.Prelude.{
  ℕ, ◌≡◌, ◌⊎◌, inl, inr, refl, sym, ap, ◌∙◌, subst, true, false, Bool, List, [], ◌∷◌, ◌++◌, reverse,
  append_assoc, arith, All, All-reverse, ok, ltb, fail_if, length, >>=-eq-ok, >>-eq-ok,
}
use gotifacts.Text.{Text, to_lower, has_suffix, trim_suffix, split, join, joined}
use gotifacts.Text.Equality.{Text-cases}
use gotifacts.Text.Affix.{has_suffix→append, trim_suffix-append}
use gotifacts.Text.Split.{Lacks, split-head, join-split, split-join}
use gotifacts.Text.Bytes.{All-split_parts}
use gotifacts.Router.SitePath.{
  SitePath, IsValid, max_depth, group_segments, host, validate, PathError,
}
use gotifacts.Router.SitePath.Segments.{group_segments_of_nil, group_segments_of_ne, join-concat}
use gotifacts.Router.SitePath.Validation.{validate→IsValid}
use gotifacts.Router.Host.{normalize_host, host_labels, site_path_of_labels, parse_host}
use gotifacts.Router.Host.RoundTrip.{site_path_of_labels-concat}

fail_if-ok : (b : Bool) (e : PathError) (u : Unit {0}) → fail_if b e ≡ ok u → b ≡ false
fail_if-ok true e u h = cc
fail_if-ok false e u h = refl

-- The labels come from a host in normal form that ends in the base.
host_labels-eq-ok :
    (h base : Text) (labels : List Text)
    → host_labels h base ≡ ok labels
    → (prefix : Text) × (normalize_host h ≡ prefix ++ b'.' ∷ to_lower base)
      × (labels ≡ split b'.' prefix)
unfolding host_labels
host_labels-eq-ok h base labels e =
    let suffix = b'.' ∷ to_lower base in
    let n = normalize_host h in
    let ends : has_suffix n suffix ≡ true = ground arith in
    let (prefix, p) = has_suffix→append n suffix ends in
    let cut : trim_suffix n suffix ≡ prefix = rw p (trim_suffix-append prefix suffix) in
    (prefix, p, ground arith)

-- The site path of a host whose labels are `slug ∷ ps`.
site_path_of_split :
    (slug : Text) (ps : List Text)
    → site_path_of_labels (slug ∷ ps) ≡ record { group = join b'/' (reverse ps); slug = slug }
site_path_of_split slug ps =
    site_path_of_labels-concat (slug ∷ ps) (reverse ps) slug (reverse-cons slug ps)

join-eq-nil : (gs : List Text) → join b'/' gs ≡ [] → (gs ≡ []) ⊎ (gs ≡ [] ∷ [])
unfolding join
join-eq-nil [] h = inl refl
join-eq-nil ([] ∷ []) h = inr refl
join-eq-nil ([] ∷ g ∷ gs) h = unfold joined in cc
join-eq-nil ((c ∷ p) ∷ gs) h = cc

-- The segments of the group are the labels in reverse, except after a single empty label.
segments_of_split :
    (slug : Text) (ps : List Text)
    → All (Lacks b'/') ps
    → (group_segments (site_path_of_labels (slug ∷ ps)) ≡ reverse ps) ⊎ (ps ≡ [] ∷ [])
segments_of_split slug ps h =
    let s : SitePath = record { group = join b'/' (reverse ps); slug = slug } in
    rw site_path_of_split (elim (Text-cases s.group []) [
      | inl e ↦ elim (join-eq-nil (reverse ps) e) [
        | inl f ↦ inl (group_segments_of_nil s e ∙ sym f)
        | inr f ↦ inr (sym (reverse-reverse ps) ∙ ap reverse f)
      ]
      | inr ne ↦ inl (
          group_segments_of_ne s ne
          ∙ split-join b'/' (reverse ps) (λ f. ne (ap (join b'/') f ∙ unfold join in refl))
              (All-reverse (Lacks b'/') ps h))
    ])

-- The host of a site path that `site_path_of_labels` builds with all labels as segments.
host_of_labels :
    (slug base : Text) (ps : List Text)
    → group_segments (site_path_of_labels (slug ∷ ps)) ≡ reverse ps
    → host (site_path_of_labels (slug ∷ ps)) base ≡ join b'.' (slug ∷ ps) ++ b'.' ∷ base
unfolding host
host_of_labels slug base ps e =
    let sp = site_path_of_split slug ps in
    let same : (site_path_of_labels (slug ∷ ps)).slug ≡ slug = ap (λ (s : SitePath). s.slug) sp in
    rw (e, same, reverse-reverse ps) (join-concat b'.' slug ps base)

parse_host-eq-ok :
    (h base : Text) (sp : SitePath)
    → parse_host h base ≡ ok sp
    → (labels : List Text) × (host_labels h base ≡ ok labels)
      × (site_path_of_labels labels ≡ sp)
      × IsValid sp
unfolding parse_host
parse_host-eq-ok h base sp e =
    let (labels, found, rest) = >>=-eq-ok (host_labels h base) _ e in
    let (shallow, rest') = >>-eq-ok (fail_if (ltb max_depth (length labels)) _) _ rest in
    let (checked, last) = >>-eq-ok (validate (site_path_of_labels labels)) _ rest' in
    let same : site_path_of_labels labels ≡ sp = cc in
    (labels, found, same, subst IsValid same (validate→IsValid _ checked))

-- The two hosts under a base that lead to a site path: its own, and, for a site outside every
-- group, its own with an empty label before the base.
abbrev pub LeadsTo : Text → SitePath → Text → Type 0
LeadsTo h sp base = (h ≡ host sp base) ⊎ ((sp.group ≡ []) × (h ≡ sp.slug ++ b'.' ∷ b'.' ∷ base))

single_label :
    (slug : Text) (sp : SitePath)
    → site_path_of_labels (slug ∷ [] ∷ []) ≡ sp
    → (sp.group ≡ []) × (sp.slug ≡ slug)
unfolding join joined
single_label slug sp e =
    let built = sym e ∙ site_path_of_split slug ([] ∷ []) in
    (ap (λ (s : SitePath). s.group) built, ap (λ (s : SitePath). s.slug) built)

join-single :
    (slug base : Text) → join b'.' (slug ∷ [] ∷ []) ++ b'.' ∷ base ≡ slug ++ b'.' ∷ b'.' ∷ base
unfolding join joined
join-single slug base = append_assoc slug (b'.' ∷ []) (b'.' ∷ base)

split-LeadsTo :
    (h base prefix : Text) (sp : SitePath)
    → h ≡ prefix ++ b'.' ∷ base
    → Lacks b'/' prefix
    → site_path_of_labels (split b'.' prefix) ≡ sp
    → LeadsTo h sp base
split-LeadsTo h base prefix sp e lacks same =
    let (slug, ps, labels) = split-head b'.' prefix in
    let whole = sym (join-split b'.' prefix) ∙ ap (join b'.') labels in
    let bytes = subst (All (Lacks b'/')) labels (All-split_parts _ b'.' prefix lacks) in
    let built : site_path_of_labels (slug ∷ ps) ≡ sp = ap site_path_of_labels (sym labels) ∙ same in
    elim (segments_of_split slug ps bytes.1) [
      | inl all_segments ↦ inl (
          e
          ∙ ap (λ u. u ++ b'.' ∷ base) whole
          ∙ sym (host_of_labels slug base ps all_segments)
          ∙ ap (λ s. host s base) built)
      | inr single ↦
          let (no_group, slug_eq) =
            single_label slug sp (ap (λ l. site_path_of_labels (slug ∷ l)) (sym single) ∙ built) in
          inr (
            no_group,
            e
                ∙ ap (λ u. u ++ b'.' ∷ base) (whole ∙ ap (λ l. join b'.' (slug ∷ l)) single)
                ∙ join-single slug base
                ∙ ap (λ u. u ++ b'.' ∷ b'.' ∷ base) (sym slug_eq),
          )
    ]

All-append_left : (P : ℕ → Type 0) (xs ys : Text) → All P (xs ++ ys) → All P xs
All-append_left P [] ys h = tt
All-append_left P (x ∷ xs) ys (p, h) = (p, All-append_left P xs ys h)

-- A host that parses leads to a valid path by one of its two hosts.
pub parse_host→LeadsTo :
    (h base : Text) (sp : SitePath)
    → Lacks b'/' (normalize_host h)
    → parse_host h base ≡ ok sp
    → IsValid sp × LeadsTo (normalize_host h) sp (to_lower base)
parse_host→LeadsTo h base sp lacks e =
    let (labels, found, same, v) = parse_host-eq-ok h base sp e in
    let (prefix, decomposed, parts) = host_labels-eq-ok h base labels found in
    (
      v,
      split-LeadsTo (normalize_host h) (to_lower base) prefix sp decomposed
          (All-append_left _ prefix _ (subst (Lacks b'/') decomposed lacks))
          (ap site_path_of_labels (sym parts) ∙ same),
    )
