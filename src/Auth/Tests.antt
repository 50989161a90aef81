-- ===== src/Auth/Tests.antt =====
-- The theorems about principals and grants at concrete inputs.
use gotifacts.Prelude.{
  ◌≡◌, ◌↔◌, refl, true, false, [], ◌∷◌, arith, Option, none, some, if◌then◌else◌,
}
use gotifacts.Text.{
  Text, codes, text_eq, split, equal_fold, to_lower, lower_byte, trim, trim_left, trim_right,
  is_space, trim_space, last_index_byte, contains, has_prefix,
}
use gotifacts.Auth.Planes.{
  Config, Request, get_header, split_host_port, peer_host, count_byte, is_admin_user, trusts_addr,
  peer_addr, trusts_peer, forward_auth, strip_untrusted_identity,
}
use gotifacts.Auth.Planes.Identity.{
  IsTrusted, IsAsserted, forward_auth_iff, strip_untrusted_identity_lem,
}
use gotifacts.Router.Label.{is_label}
use gotifacts.Router.SitePath.{SitePath, IsValid, group_segments}
use gotifacts.Keys.{cap_publish}
use gotifacts.Auth.{
  Grant, Principal, api_key_source, forward_auth_source, grant_group, grant_covers, can,
}
use gotifacts.Auth.Grants.{Covers, IsPermitted, grant_covers_iff, can_iff}

abbrev docs_path : SitePath
docs_path = record { group = codes "team/docs"; slug = codes "guide" }

abbrev team_grant : Grant
team_grant = record { kind = grant_group; target = codes "team"; permissions = cap_publish ∷ [] }

abbrev ci_key : Principal
ci_key = record {
  user = codes "ci";
  admin = false;
  grants = team_grant ∷ [];
  source = api_key_source;
  key_id = 7;
}

docs_path-IsValid : IsValid docs_path
unfolding is_label group_segments split text_eq
docs_path-IsValid = record {
  slug_label = refl;
  group_labels = (refl, (refl, tt));
  shallow = omega arith;
}

grant_covers_iff_example :
    (grant_covers team_grant docs_path.group docs_path.slug ≡ true) ↔ Covers team_grant docs_path
grant_covers_iff_example = grant_covers_iff team_grant docs_path docs_path-IsValid

can_iff_example :
    (can ci_key cap_publish docs_path.group docs_path.slug ≡ true)
    ↔ IsPermitted ci_key cap_publish docs_path
can_iff_example = can_iff ci_key cap_publish docs_path docs_path-IsValid

-- Addresses as text: a concrete stand-in for `net/netip`.
abbrev parse_text : Text → Option Text
parse_text [] = none
parse_text (c ∷ s) = some (c ∷ s)

abbrev same_addr : Text → Text
same_addr a = a

abbrev proxied : Config Text
proxied = record {
  admin_users = codes "ann" ∷ [];
  trusted_proxies = codes "10.0.0.1" ∷ [];
  forward_auth_header = codes "Remote-User";
  mcp_allowed_users = [];
}

abbrev ann_request : Request
ann_request = record {
  remote_addr = codes "10.0.0.1:4711";
  headers = (codes "Remote-User", codes " Ann ") ∷ [];
}

abbrev ann : Principal
ann = record {
  user = codes "Ann";
  admin = true;
  grants = [];
  source = forward_auth_source;
  key_id = 0;
}

ann-forward_auth : forward_auth parse_text same_addr text_eq proxied ann_request ≡ some ann
unfolding forward_auth trusts_peer peer_addr peer_host split_host_port trusts_addr get_header
    is_admin_user count_byte text_eq equal_fold to_lower lower_byte trim trim_left trim_right
    is_space trim_space last_index_byte contains has_prefix
ann-forward_auth = refl

forward_auth_iff_example :
    (forward_auth parse_text same_addr text_eq proxied ann_request ≡ some ann) ↔ (
      IsTrusted parse_text same_addr text_eq proxied ann_request
      × IsAsserted proxied ann_request ann)
forward_auth_iff_example = forward_auth_iff parse_text same_addr text_eq proxied ann_request ann

strip_untrusted_identity_lem_example :
    (get_header
        (strip_untrusted_identity parse_text same_addr text_eq proxied ann_request).headers
        (codes "Remote-User")
      ≡ (if trusts_peer parse_text same_addr text_eq proxied ann_request
          then codes " Ann "
          else []))
    × (forward_auth parse_text same_addr text_eq proxied
          (strip_untrusted_identity parse_text same_addr text_eq proxied ann_request)
        ≡ forward_auth parse_text same_addr text_eq proxied ann_request)
unfolding get_header equal_fold to_lower lower_byte text_eq
strip_untrusted_identity_lem_example =
    strip_untrusted_identity_lem parse_text same_addr text_eq proxied ann_request
