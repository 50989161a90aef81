-- ===== src/Mcp/Tools/Tests.antt =====
-- The theorem about the tools, at a call of purge_site by a key that may purge in its group.
use gotifacts.Prelude.{
  ◌≡◌, All, inr, subst, ℕ, refl, ◌⊎◌, arith, Bool, true, false, [], ◌∷◌, Option, none, some,
}
use gotifacts.Text.{Text, codes, split, text_eq}
use gotifacts.Router.Label.{is_label, IsLabel}
use gotifacts.Router.SitePath.{SitePath, IsValid, group_segments}
use gotifacts.Auth.{Principal, api_key_source}
use gotifacts.Auth.Spelling.{IsChecked}
use gotifacts.Archive.{Limits}
use gotifacts.Files.{FilePath, Disk, file}
use gotifacts.Ingest.{Settings, Published, content_path, sites_dir}
use gotifacts.Ingest.Isolation.{live}
use gotifacts.Mcp.Tools.{ToolCall, call_purge, run_tool}
use gotifacts.Mcp.Tools.Authority.{IsEntitled, Untouched, run_tool-IsEntitled}

abbrev blog : SitePath
blog = record { group = codes "notes"; slug = codes "blog" }

blog-IsValid : IsValid blog
unfolding is_label group_segments split text_eq
blog-IsValid = record { slug_label = refl; group_labels = (refl, tt); shallow = omega arith }

abbrev one_page : Published
one_page = record {
  disk = (content_path sites_dir blog, file (codes "<p>")) ∷ [];
  sites = record { rows = []; next_id = 1 };
}

abbrev no_text : ℕ → Text
no_text n = codes "2026"

abbrev no_icon : Disk → FilePath → Text × Text
no_icon d x = ([], [])

abbrev never : Text → Bool
never x = false

abbrev settings : Settings
settings = record { versioning_enabled = true; versioning_keep = 5; deleted_site_ttl = 100 }

abbrev small : Limits
small = record { max_bytes = 100; max_entries = 10 }

abbrev as_is : Text → Option Text
as_is x = some x

abbrev tagged : Text → Text
tagged x = b'#' ∷ x

abbrev no_number : Text → Option ℕ
no_number x = none

abbrev guest : Principal
guest = record {
  user = codes "guest";
  admin = false;
  grants =
      record { kind = codes "group"; target = codes "notes"; permissions = codes "purge" ∷ [] }
      ∷ [];
  source = api_key_source;
  key_id = 1;
}

abbrev purge_blog : ToolCall
purge_blog =
    call_purge (codes "notes") (codes "blog")
      (record { can_elicit = false; answer = none; request_state = [] })

notes-labels : All IsLabel (split b'/' (codes "notes"))
unfolding is_label split
notes-labels = (refl, tt)

guest-IsChecked :
    (caller : Principal)
    → ◌≡◌ {A = Option Principal} (some guest) (some caller)
    → All IsChecked caller.grants
guest-IsChecked caller e =
    subst (λ (q : Principal). All IsChecked q.grants) (same e) (inr notes-labels, tt)
  where
    same : ◌≡◌ {A = Option Principal} (some guest) (some caller) → guest ≡ caller
    same e = cc

run_tool-IsEntitled_example :
    IsEntitled tagged no_text no_number [] 7 (some guest) purge_blog blog
    ⊎ Untouched no_text no_text no_icon never settings small
        (codes "example.com")
        as_is
        tagged
        no_text
        no_number
        []
        100
        one_page
        7
        blog
        blog-IsValid
        live
        []
        (run_tool no_text no_text no_icon never settings small
          (codes "example.com")
          as_is
          tagged
          no_text
          no_number
          []
          100
          one_page
          7
          (some guest)
          purge_blog).0
run_tool-IsEntitled_example =
    run_tool-IsEntitled no_text no_text no_icon never settings small (codes "example.com") as_is
      tagged no_text no_number [] 100 one_page 7 blog blog-IsValid live [] (some guest) purge_blog
      tt guest-IsChecked
