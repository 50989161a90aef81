-- ===== src/Router/Host/RoundTrip.antt =====
-- internal/router/sitepath.go: rendering a site path as a host and parsing it.
use mathlib.Core.List.{reverse-cons, reverse-reverse}
use gotifacts.Prelude.{
  ℕ, ◌-◌, ◌≡◌, ◌≢◌, refl, sym, ap, ◌∙◌, false, List, [], ◌∷◌, ◌++◌, reverse, arith, All-imp, length,
  length-append, length-reverse, take-append, get_or-append, ok, ltb,
}
use gotifacts.Text.{Text, to_lower, split, join}
use gotifacts.Text.Equality.{text_eq_of_ne, to_lower_of_IsLower}
use gotifacts.Text.Affix.{has_suffix-append, trim_suffix-append}
use gotifacts.Text.Split.{split-join}
use gotifacts.Router.Label.Bytes.{IsLabel-Lacks_dot, IsLabel-ne-nil}
use gotifacts.Router.SitePath.{SitePath, IsValid, max_depth, group_segments, host}
use gotifacts.Router.SitePath.Segments.{join-group_segments, SitePath-eq}
use gotifacts.Router.SitePath.Validation.{IsValid→validate}
use gotifacts.Router.Host.{normalize_host, host_labels, site_path_of_labels, parse_host}
use gotifacts.Router.Host.Normal.{
  IsDomain, host_prefix, host-eq-append, labels_of_host, host-IsPlainHost,
  normalize_host_of_IsPlainHost,
}

append-cons-ne : (x : Text) (c : ℕ) (y : Text) → x ++ c ∷ y ≢ y
append-cons-ne x c y e = omega (arith, ap (length {A = ℕ}) e, length-append {A = ℕ} x (c ∷ y))

cons-append-ne-nil : (x : Text) (c : ℕ) (y : Text) → x ++ c ∷ y ≢ []
cons-append-ne-nil [] c y h = cc
cons-append-ne-nil (d ∷ x) c y h = cc

-- The labels of a host that is in normal form and lies under the base.
pub host_labels-append :
    (h prefix base : Text)
    → normalize_host h ≡ prefix ++ b'.' ∷ to_lower base
    → prefix ≢ []
    → host_labels h base ≡ ok (split b'.' prefix)
unfolding host_labels
host_labels-append h prefix base e ne =
    let b = to_lower base in
    rw
      (
        e,
        text_eq_of_ne (prefix ++ b'.' ∷ b) [] (cons-append-ne-nil prefix b'.' b),
        text_eq_of_ne (prefix ++ b'.' ∷ b) b (append-cons-ne prefix b'.' b),
        has_suffix-append prefix (b'.' ∷ b),
        trim_suffix-append prefix (b'.' ∷ b),
        text_eq_of_ne prefix [] ne,
      )
      refl

pub site_path_of_labels-concat :
    (labels gs : List Text) (q : Text)
    → reverse labels ≡ gs ++ q ∷ []
    → site_path_of_labels labels ≡ record { group = join b'/' gs; slug = q }
unfolding site_path_of_labels
site_path_of_labels-concat labels gs q e =
    let n : length (gs ++ q ∷ []) - 1 ≡ length gs = omega (arith, length-append gs (q ∷ [])) in
    rw (e, n, take-append gs (q ∷ []), get_or-append gs q []) refl

module _ (s : SitePath) (v : IsValid s) where
  host_prefix-ne-nil : host_prefix s ≢ []
  unfolding join
  host_prefix-ne-nil = nonempty s.slug _ (IsLabel-ne-nil s.slug v.slug_label)
    where
      nonempty : (x y : Text) → x ≢ [] → x ++ y ≢ []
      nonempty [] y h e = h refl
      nonempty (c ∷ x) y h e = cc

  split-host_prefix : split b'.' (host_prefix s) ≡ s.slug ∷ reverse (group_segments s)
  split-host_prefix =
      split-join b'.' (s.slug ∷ reverse (group_segments s)) (cc)
        (All-imp IsLabel-Lacks_dot (s.slug ∷ reverse (group_segments s)) (labels_of_host s v))

  site_path_of_host : site_path_of_labels (s.slug ∷ reverse (group_segments s)) ≡ s
  site_path_of_host =
      site_path_of_labels-concat (s.slug ∷ reverse (group_segments s)) (group_segments s) s.slug (
        reverse-cons s.slug (reverse (group_segments s))
        ∙ ap (λ l. l ++ s.slug ∷ []) (reverse-reverse (group_segments s)))
      ∙ SitePath-eq _ s (join-group_segments s) refl

  not_too_deep : ltb max_depth (length (s.slug ∷ reverse (group_segments s))) ≡ false
  not_too_deep = let n = length-reverse (group_segments s) in let d = v.shallow in ground arith

  host_labels-host :
      (base : Text)
      → IsDomain base
      → host_labels (host s base) base ≡ ok (s.slug ∷ reverse (group_segments s))
  host_labels-host base d =
      let lowered = to_lower_of_IsLower base d.plain.lower in
      let normal =
        normalize_host_of_IsPlainHost (host s base) (host-IsPlainHost s base v d)
        ∙ host-eq-append s base
        ∙ ap (λ u. host_prefix s ++ b'.' ∷ u) (sym lowered) in
      host_labels-append (host s base) (host_prefix s) base normal host_prefix-ne-nil
      ∙ ap ok split-host_prefix

  -- A valid site path is recovered from its host under any base domain.
  pub parse_host-host : (base : Text) → IsDomain base → parse_host (host s base) base ≡ ok s
  unfolding parse_host
  parse_host-host base d =
      rw (host_labels-host base d, not_too_deep, site_path_of_host, IsValid→validate s v) refl
