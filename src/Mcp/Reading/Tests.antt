-- ===== src/Mcp/Reading/Tests.antt =====
-- The theorems about reading published content at concrete inputs. Every file is text.
use gotifacts.Prelude.{List, some, none, false, ◌≡◌, ◌≢◌, refl, Bool, true, [], ◌∷◌, ok}
use gotifacts.Prelude.Int.{pos}
use gotifacts.Text.{Text, codes, trim_space}
use gotifacts.Text.Utf8.{trim_last, valid}
use gotifacts.Router.SitePath.{SitePath, dir}
use gotifacts.Auth.{Principal, forward_auth_source, api_key_source}
use gotifacts.Store.Site.{Site}
use gotifacts.Files.{directory}
use gotifacts.Ingest.{Published, content_path, sites_dir}
use gotifacts.Mcp.Reading.{ReadTarget, target_group, authorize_read}
use gotifacts.Mcp.Reading.Access.{Decided, authorize_read_uniform}
use gotifacts.Mcp.Reading.Chunk.{Page, read_chunk, asked, skipped, page_bytes, trim_incomplete_rune}
use gotifacts.Mcp.Reading.Paging.{IsPage, read_chunk-IsPage}
use gotifacts.Mcp.Reading.Search.{search_all}
use gotifacts.Mcp.Reading.Matching.{first_of_all, all_matches, search_all_lem}
use gotifacts.SiteFs.{Entry}

abbrev all_text : Text → Text × Bool
all_text head = (codes "text/plain", true)

abbrev first_page : Page
first_page = record {
  path = codes "a.txt";
  content_type = codes "text/plain";
  size = 6;
  offset = 0;
  next_offset = 4;
  truncated = true;
  content = codes "page";
}

first_page-returned : read_chunk all_text (codes "a.txt") (codes "pages.") (pos 0) 1 ≡ ok first_page
unfolding read_chunk asked skipped page_bytes trim_incomplete_rune valid trim_last
first_page-returned = refl

read_chunk-IsPage_example : IsPage (pos 0) 1 (codes "pages.") first_page
read_chunk-IsPage_example =
    read_chunk-IsPage all_text (codes "a.txt") (codes "pages.") (pos 0) 1 first_page
      first_page-returned

abbrev two_files : List Entry
two_files =
    record { rel = codes "a.txt"; bytes = codes "One" }
    ∷ record { rel = codes "b.txt"; bytes = codes "once" }
    ∷ []

search_all_lem_example :
    search_all (codes "on") 1 all_text two_files
    ≡ first_of_all 1 (all_matches (codes "on") all_text two_files)
search_all_lem_example = search_all_lem (codes "on") 1 all_text two_files

abbrev reader : Principal
reader = record {
  user = codes "ann";
  admin = true;
  grants = [];
  source = forward_auth_source;
  key_id = 0;
}

abbrev nothing : Published
nothing = record { disk = []; sites = record { rows = []; next_id = 1 } }

demo-named : trim_space (codes "demo") ≢ []
unfolding trim_space
demo-named k = cc

authorize_read_uniform_example :
    Decided nothing reader
      (target_group [] (codes "notes"))
      (trim_space (codes "demo"))
      (authorize_read nothing [] (some reader) (codes "notes") (codes "demo"))
authorize_read_uniform_example =
    authorize_read_uniform nothing [] reader (codes "notes") (codes "demo") demo-named

-- A reader of one group asks for a site in it, in a spelling that NewSitePath cleans.
abbrev notes_reader : Principal
notes_reader = record {
  user = codes "ci";
  admin = false;
  grants =
      record { kind = codes "group"; target = codes "notes"; permissions = codes "read" ∷ [] } ∷ [];
  source = api_key_source;
  key_id = 4;
}

abbrev demo : SitePath
demo = record { group = codes "notes"; slug = codes "demo" }

abbrev demo_row : Site
demo_row = record {
  id = 1;
  group = codes "notes";
  slug = codes "demo";
  title = [];
  description = [];
  date = [];
  tags = [];
  repo = [];
  preview = [];
  hidden = false;
  size = 0;
  favicon = [];
  favicon_type = [];
  created_at = 3;
  updated_at = 3;
  deleted_at = none;
}

abbrev with_demo : Published
with_demo = record {
  disk = (content_path sites_dir demo, directory) ∷ [];
  sites = record { rows = demo_row ∷ []; next_id = 2 };
}

abbrev demo_target : ReadTarget
demo_target = record {
  group = codes "notes//";
  slug = codes "demo";
  dir = content_path sites_dir demo;
}
