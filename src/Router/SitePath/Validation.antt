-- ===== src/Router/SitePath/Validation.antt =====
-- internal/router/sitepath.go: what `Validate` and `NewSitePath` accept.
use gotifacts.Prelude.{subst, ◌≡◌, ◌↔◌, refl, sym, List, [], ◌∷◌, arith, All, ok, >>-eq-ok}
use gotifacts.Text.{Text}
use gotifacts.Text.Equality.{text_eq_iff}
use gotifacts.Router.Label.{IsLabel}
use gotifacts.Router.Label.Bytes.{IsLabel-ne-nil}
use gotifacts.Router.SitePath.{
  SitePath, IsValid, group_segments, check_segments, validate, raw_site_path, new_site_path,
}

check_segments→labels : (gs : List Text) → check_segments gs ≡ ok tt → All IsLabel gs
unfolding check_segments
check_segments→labels [] h = tt
check_segments→labels (g ∷ gs) h = ground (arith, check_segments→labels gs)

labels→check_segments : (gs : List Text) → All IsLabel gs → check_segments gs ≡ ok tt
unfolding check_segments
labels→check_segments [] h = refl
labels→check_segments (g ∷ gs) (p, h) = ground (arith, labels→check_segments gs h)

pub validate→IsValid : (s : SitePath) → validate s ≡ ok tt → IsValid s
unfolding validate
validate→IsValid s h =
    ground (arith, check_segments→labels (group_segments s), text_eq_iff s.slug [])

pub IsValid→validate : (s : SitePath) → IsValid s → validate s ≡ ok tt
unfolding validate
IsValid→validate s v =
    let ne = IsLabel-ne-nil s.slug v.slug_label in
    ground (arith, labels→check_segments (group_segments s) v.group_labels, text_eq_iff s.slug [])

-- `Validate` accepts exactly the valid paths.
pub validate_iff : (s : SitePath) → (validate s ≡ ok tt) ↔ IsValid s
validate_iff s = (validate→IsValid s, IsValid→validate s)

pub new_site_path-eq-ok :
    (group slug : Text) {sp : SitePath}
    → new_site_path group slug ≡ ok sp
    → IsValid sp × (sp ≡ raw_site_path group slug)
unfolding new_site_path
new_site_path-eq-ok group slug h =
    let (checked, e) = >>-eq-ok (validate (raw_site_path group slug)) _ h in
    let same : raw_site_path group slug ≡ _ = cc in
    (subst IsValid same (validate→IsValid _ checked), sym same)
