-- ===== src/Auth.antt =====
-- internal/auth/auth.go and middleware.go: principals, what they may do, and how a request is
-- given one. Addresses belong to Go's `net/netip`, and are a parameter.
pub mod Grants
pub mod Spelling
pub mod Planes
pub mod KeyPlane
mod Tests
use gotifacts.Prelude.{
  ℕ, ◌+◌, ◌-◌, ◌≤◌, Bool, true, false, not, ◌&&◌, ◌||◌, List, [], ◌∷◌, ◌++◌, Option, none, some,
  leb, ltb, if◌then◌else◌, any,
}
use gotifacts.Text.{Text, codes, text_eq, has_prefix}
use gotifacts.Keys.{Capability, cap_publish, has_capability}

-- store.GrantKind: a string type; whatever is not "site" is read as "group"
abbrev pub grant_group : Text
grant_group = codes "group"

abbrev pub grant_site : Text
grant_site = codes "site"

-- store.ParseGrantKind
unfoldable pub parse_grant_kind : Text → Text
parse_grant_kind s = if text_eq s grant_site then grant_site else grant_group

-- store.Grant
pub record Grant : Type 0 where
  pub kind : Text
  pub target : Text
  pub permissions : List Capability

-- auth.Source
pub data Source : Type 0 where
  forward_auth_source api_key_source : Source

abbrev pub is_api_key : Source → Bool
is_api_key forward_auth_source = false
is_api_key api_key_source = true

-- auth.Principal
pub record Principal : Type 0 where
  pub user : Text
  pub admin : Bool
  pub grants : List Grant
  pub source : Source
  pub key_id : ℕ

-- siteDir
unfoldable pub site_dir : Text → Text → Text
site_dir group slug = if text_eq group [] then slug else group ++ b'/' ∷ slug

-- groupAllowed
unfoldable pub group_allowed : Text → Text → Bool
group_allowed restriction target =
    if text_eq restriction []
    then true
    else text_eq target restriction || has_prefix target (restriction ++ b'/' ∷ [])

-- grantCovers
unfoldable pub grant_covers : Grant → Text → Text → Bool
grant_covers g group slug =
    let dir = site_dir group slug in
    if text_eq g.kind grant_site
    then text_eq dir g.target
    else if group_allowed g.target group
    then true
    else not (text_eq g.target []) && text_eq dir g.target

-- The loop of `Principal.Can` over the grants.
unfoldable pub any_grant : List Grant → Capability → Text → Text → Bool
any_grant [] c group slug = false
any_grant (g ∷ gs) c group slug =
    if has_capability g.permissions c && grant_covers g group slug
    then true
    else any_grant gs c group slug

-- Principal.Can
unfoldable pub can : Principal → Capability → Text → Text → Bool
can p c group slug =
    if p.admin
    then true
    else if not (is_api_key p.source)
    then false
    else any_grant p.grants c group slug

-- Principal.CanPublishTo
unfoldable pub can_publish_to : Principal → Text → Text → Bool
can_publish_to p group slug = can p cap_publish group slug
