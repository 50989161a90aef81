-- ===== src/Router/SitePath.antt =====
-- internal/router/sitepath.go: the type `SitePath`, its renderings and its validation.
pub mod Segments
pub mod Layout
pub mod Validation
pub mod Canonical
use gotifacts.Prelude.{
  ℕ, ◌+◌, ◌≤◌, ◌≡◌, Bool, true, false, not, List, [], ◌∷◌, ◌++◌, reverse, ltb, ◌==◌, if◌then◌else◌,
  length, All, Result, ok, err, ◌>>=◌, ◌>>◌, fail_if,
}
use gotifacts.Text.{Text, codes, text_eq, to_lower, trim, trim_space, split, join}
use gotifacts.Router.Label.{is_label, IsLabel}

-- MaxDepth
abbrev pub max_depth : ℕ
max_depth = 3

-- ContentLeaf
abbrev pub content_leaf : Text
content_leaf = codes "@site"

pub data PathError : Type 0 where
  not_base_subdomain empty_host too_deep empty_slug invalid_label : PathError

pub record SitePath : Type 0 where
  pub group : Text
  pub slug : Text

-- SitePath.GroupSegments
unfoldable pub group_segments : SitePath → List Text
group_segments s = if text_eq s.group [] then [] else split b'/' s.group

-- SitePath.Dir
unfoldable pub dir : SitePath → Text
dir s = if text_eq s.group [] then s.slug else s.group ++ b'/' ∷ s.slug

-- SitePath.ContentDir
unfoldable pub content_dir : SitePath → Text
content_dir s = dir s ++ b'/' ∷ content_leaf

-- SitePath.Host: the slug, the group segments from the last to the first, and the base
unfoldable pub host : SitePath → Text → Text
host s base = join b'.' (s.slug ∷ (reverse (group_segments s) ++ base ∷ []))

-- SitePath.URL
unfoldable pub url : SitePath → Text → Text
unfolding host
url s base = codes "https://" ++ host s base

-- The loop of `Validate` over the group segments.
unfoldable pub check_segments : List Text → Result PathError (Unit {0})
check_segments [] = ok tt
check_segments (g ∷ gs) = if not (is_label g) then err invalid_label else check_segments gs

-- SitePath.Validate
unfoldable pub validate : SitePath → Result PathError (Unit {0})
unfolding check_segments
validate s = do
  fail_if (text_eq s.slug []) empty_slug
  let segs = group_segments s
  fail_if (ltb max_depth (length segs + 1)) too_deep
  fail_if (not (is_label s.slug)) invalid_label
  check_segments segs

-- The loop of `NewSitePath` that drops empty segments.
unfoldable pub drop_empty : List Text → List Text
drop_empty [] = []
drop_empty (g ∷ gs) = let rest = drop_empty gs in if text_eq g [] then rest else g ∷ rest

-- The site path that `NewSitePath` builds before it validates it.
unfoldable pub raw_site_path : Text → Text → SitePath
unfolding drop_empty
raw_site_path group slug =
    let trimmed = trim (λ c. c == b'/') (to_lower (trim_space group)) in
    record {
      group = join b'/' (drop_empty (split b'/' trimmed));
      slug = to_lower (trim_space slug);
    }

-- NewSitePath
unfoldable pub new_site_path : Text → Text → Result PathError SitePath
unfolding raw_site_path
new_site_path group slug = do let sp = raw_site_path group slug; validate sp; ok sp

-- What `Validate` accepts: labels throughout, and at most `max_depth` of them.
pub record IsValid (s : SitePath) : Type 0 where
  pub slug_label : IsLabel s.slug
  pub group_labels : All IsLabel (group_segments s)
  pub shallow : length (group_segments s) + 1 ≤ max_depth
