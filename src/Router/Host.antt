-- ===== src/Router/Host.antt =====
-- internal/router/sitepath.go: request hosts, and internal/router/handler.go: the dispatch by host.
pub mod Normal
pub mod RoundTrip
pub mod Soundness
pub mod Sent
pub mod Exact
pub mod Domains
use gotifacts.Prelude.{
  ◌-◌, Bool, false, not, ◌&&◌, ◌||◌, List, [], ◌∷◌, reverse, none, some, ltb, if◌then◌else◌, length,
  take, drop, get_or, Result, ok, ◌>>=◌, ◌>>◌, fail_if,
}
use gotifacts.Text.{
  Text, codes, text_eq, to_lower, trim_space, has_suffix, trim_suffix, contains, last_index_byte,
  split, join,
}
use gotifacts.Router.SitePath.{
  SitePath, PathError, not_base_subdomain, empty_host, too_deep, max_depth, validate,
}

-- The port of `normalizeHost`: from the last colon, unless a bracket follows it.
unfoldable pub strip_port : Text → Text
strip_port host = elim (last_index_byte host b':') [
  | none ↦ host
  | some i ↦ if not (contains (drop i host) (codes "]")) then take i host else host
]

unfoldable pub normalize_host : Text → Text
unfolding strip_port
normalize_host host = trim_suffix (strip_port (to_lower (trim_space host))) (codes ".")

unfoldable pub host_labels : Text → Text → Result PathError (List Text)
host_labels host base = do
  let h = normalize_host host
  fail_if (text_eq h []) empty_host
  let b = to_lower base
  fail_if (text_eq h b) not_base_subdomain
  let suffix = b'.' ∷ b
  fail_if (not (has_suffix h suffix)) not_base_subdomain
  let prefix = trim_suffix h suffix
  fail_if (text_eq prefix []) not_base_subdomain
  ok (split b'.' prefix)

unfoldable pub is_base_host : Text → Text → Bool
is_base_host host base = text_eq (normalize_host host) (to_lower base)

-- `host == d || strings.HasSuffix(host, "."+d)`
unfoldable pub under_domain : Text → Text → Bool
under_domain h d = text_eq h d || has_suffix h (b'.' ∷ d)

-- One round of the loop of `MatchDomain`.
unfoldable pub better_domain : Text → Text → Text → Text
unfolding under_domain
better_domain h best domain =
    let d = to_lower domain in
    if text_eq d []
    then best
    else if under_domain h d && ltb (length best) (length d)
    then d
    else best

unfoldable pub best_domain : Text → Text → List Text → Text
best_domain h best [] = best
best_domain h best (d ∷ ds) = best_domain h (better_domain h best d) ds

unfoldable pub match_domain : Text → List Text → Text × Bool
match_domain host domains =
    let h = normalize_host host in
    let best = best_domain h [] domains in
    if text_eq h [] then ([], false) else (best, not (text_eq best []))

-- The site path of `ParseHost` before validation: the labels reversed, the last of them the slug.
-- The labels are never empty, since a split has a first part.
unfoldable pub site_path_of_labels : List Text → SitePath
site_path_of_labels labels =
    let dir = reverse labels in
    record { group = join b'/' (take (length dir - 1) dir); slug = get_or dir (length dir - 1) [] }

unfoldable pub parse_host : Text → Text → Result PathError SitePath
unfolding site_path_of_labels
parse_host host base = do
  labels ← host_labels host base
  fail_if (ltb max_depth (length labels)) too_deep
  let sp = site_path_of_labels labels
  validate sp
  ok sp

-- The two handlers of `Dispatch`.
pub data Plane : Type 0 where
  apex sites : Plane

-- Dispatch.ServeHTTP
unfoldable pub dispatch : List Text → Text → Plane
dispatch domains host =
    let (base, matched) = match_domain host domains in
    if matched && is_base_host host base then apex else sites
