-- ===== src/Router/Tests.antt =====
-- The theorems about site paths and hosts at concrete inputs.
use mathlib.Core.List.{Memᴰ}
use gotifacts.Prelude.{inr, ◌≡◌, ◌≢◌, ◌↔◌, refl, List, [], ◌∷◌, ◌++◌, map, arith, ok}
use gotifacts.Text.{
  last_index_byte, Text, codes, text_eq, to_lower, lower_byte, is_space, has_suffix, has_prefix,
  trim_space, split, join, trim_suffix, contains,
}
use gotifacts.Router.Label.{is_label}
use gotifacts.Router.SitePath.{SitePath, IsValid, group_segments, content_dir, validate}
use gotifacts.Router.SitePath.Layout.{dir_injective, content_dir_disjoint}
use gotifacts.Router.SitePath.Validation.{validate_iff}
use gotifacts.Router.Host.{
  normalize_host, parse_host, match_domain, dispatch, apex, host_labels, site_path_of_labels,
}
use gotifacts.Router.Host.Normal.{IsDomain, IsPlainHost}
use gotifacts.Router.Host.Sent.{IsSent}
use gotifacts.Router.Host.Soundness.{LeadsTo}
use gotifacts.Router.Host.Exact.{parse_host_iff}
use gotifacts.Router.Host.Domains.{MatchSpec, match_domain_lem, dispatch_iff}

abbrev base_domain : Text
base_domain = codes "example.com"

abbrev app_path : SitePath
app_path = record { group = codes "claude/x"; slug = codes "app" }

abbrev nested_path : SitePath
nested_path = record { group = codes "claude/x"; slug = codes "b" }

abbrev domains : List Text
domains = codes "Example.com" ∷ codes "sites.example.com" ∷ []

app_path-IsValid : IsValid app_path
unfolding is_label group_segments split text_eq
app_path-IsValid = record {
  slug_label = refl;
  group_labels = (refl, (refl, tt));
  shallow = omega arith;
}

nested_path-IsValid : IsValid nested_path
unfolding is_label group_segments split text_eq
nested_path-IsValid = record {
  slug_label = refl;
  group_labels = (refl, (refl, tt));
  shallow = omega arith;
}

base_domain-IsDomain : IsDomain base_domain
unfolding lower_byte is_space has_suffix has_prefix
base_domain-IsDomain = record {
  plain = record {
    lower = ground arith;
    no_space = ground arith;
    no_colon = omega arith;
    no_end_dot = refl;
  };
  nonempty = cc;
}

app_host-IsPlainHost : IsPlainHost (codes "app.x.claude.example.com")
unfolding lower_byte is_space has_suffix has_prefix
app_host-IsPlainHost = record {
  lower = ground arith;
  no_space = ground arith;
  no_colon = omega arith;
  no_end_dot = refl;
}

abbrev sent_host : Text
sent_host = codes " APP.x.claude.Example.com.:8080"

sent_host-IsSent : IsSent sent_host (codes "app.x.claude.example.com")
unfolding is_space to_lower lower_byte
sent_host-IsSent = record {
  before = codes " ";
  name = codes "APP.x.claude.Example.com";
  dot = codes ".";
  port = codes ":8080";
  after = [];
  spelled = refl;
  blank_before = (refl, tt);
  blank_after = tt;
  lowered = refl;
  end_dot = inr refl;
  numbered = inr (codes "8080", refl, omega arith);
}

parse_host_iff_example :
    (parse_host sent_host base_domain ≡ ok app_path)
    ↔ (IsValid app_path × LeadsTo (codes "app.x.claude.example.com") app_path base_domain)
parse_host_iff_example =
    parse_host_iff sent_host (codes "app.x.claude.example.com") base_domain app_path
      base_domain-IsDomain app_host-IsPlainHost sent_host-IsSent (omega arith)

-- A port, upper case and a closing dot are normalized away.
parse_host_run : parse_host (codes "APP.x.claude.Example.com:8080") base_domain ≡ ok app_path
unfolding parse_host host_labels normalize_host validate text_eq split is_label group_segments
    has_suffix trim_suffix contains to_lower site_path_of_labels join last_index_byte trim_space
parse_host_run = refl

dir_injective_example : app_path ≡ app_path
dir_injective_example = dir_injective app_path app_path app_path-IsValid app_path-IsValid refl

content_dir_disjoint_example :
    (content_dir app_path ≡ content_dir nested_path → app_path ≡ nested_path)
    × ((rest : Text) → content_dir nested_path ≢ content_dir app_path ++ b'/' ∷ rest)
content_dir_disjoint_example =
    content_dir_disjoint app_path nested_path app_path-IsValid nested_path-IsValid

validate_iff_example : (validate app_path ≡ ok tt) ↔ IsValid app_path
validate_iff_example = validate_iff app_path

match_domain_lem_example :
    MatchSpec
      (normalize_host (codes "demo.sites.example.com"))
      domains
      (match_domain (codes "demo.sites.example.com") domains)
match_domain_lem_example = match_domain_lem (codes "demo.sites.example.com") domains

dispatch_iff_example : (dispatch domains (codes "EXAMPLE.com") ≡ apex) ↔ (
    (normalize_host (codes "EXAMPLE.com") ≢ [])
    × Memᴰ (normalize_host (codes "EXAMPLE.com")) (map to_lower domains))
dispatch_iff_example = dispatch_iff domains (codes "EXAMPLE.com")
