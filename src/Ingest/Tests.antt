-- ===== src/Ingest/Tests.antt =====
-- The theorems about the publisher: operations at a registry of two sites, and the first site.
use gotifacts.Prelude.{
  ℕ, ◌≡◌, ◌≢◌, some, refl, arith, ap, err, sym, ◌∙◌, Bool, true, false, [], ◌∷◌, ◌++◌, ok, Result,
}
use gotifacts.Text.{join, trim_space, to_lower, Text, codes, split, text_eq}
use gotifacts.Router.Label.{is_label}
use gotifacts.Router.SitePath.{
  url, dir, content_dir, validate, SitePath, PathError, IsValid, group_segments, new_site_path,
}
use gotifacts.Router.SitePath.Canonical.{new_site_path-IsValid}
use gotifacts.Archive.{resolve, clean, join_path, write_file, Limits}
use gotifacts.Store.Site.{update_rows, is_row, find_row, SiteInput, new_row}
use gotifacts.Store.Sites.Lifecycle.{view}
use gotifacts.Files.{
  remove_all, below, is_below, is_dir, rename, parent, to_text, to_path, path_eq, mkdir_from,
  mkdir_all, FilePath, directory, file, Disk, lookup,
}
use gotifacts.Ingest.{
  finish_files, then_files, Settings, Published, IngestError, content_path, sites_dir,
}
use gotifacts.Archive.Paths.{IsName}
use gotifacts.Ingest.Publish.{
  record_publish, apply_effect, apply_effects, unpack, staged, publish_staged, clear_stage, Meta,
  Payload, single_page, Publication, publish,
}
use gotifacts.Ingest.Trash.{move_tree, after_row, unpublish, restore}
use gotifacts.Files.{moved, remove}
use gotifacts.Ingest.{prune_empty_dirs, prune_up}
use gotifacts.Ingest.Recovery.{restore-unpublish}
use gotifacts.Ingest.Live.{IsLive, publish-IsLive}
use gotifacts.Ingest.Changes.{unpublishing, run_change}
use gotifacts.Ingest.Isolation.{live, root_of, run_change-other}
use gotifacts.Ingest.Versions.{make_room, swap, put, new_stage_dir}
use gotifacts.Archive.Writing.{write_single_index}
use gotifacts.Prelude.Tables.{remove_if}
use gotifacts.Store.Sites.{restore_site, soft_delete_site, insert_or_update, get_site, upsert_site}

abbrev blog : SitePath
blog = record { group = codes "notes"; slug = codes "blog" }

abbrev demo : SitePath
demo = record { group = codes "notes"; slug = codes "demo" }

blog-IsValid : IsValid blog
unfolding is_label group_segments split text_eq
blog-IsValid = record { slug_label = refl; group_labels = (refl, tt); shallow = omega arith }

demo-IsValid : IsValid demo
unfolding is_label group_segments split text_eq
demo-IsValid = record { slug_label = refl; group_labels = (refl, tt); shallow = omega arith }

abbrev demo_input : SiteInput
demo_input = record {
  title = codes "Demo";
  description = [];
  date = [];
  tags = [];
  repo = [];
  preview = [];
  hidden = false;
  size = 7;
}

abbrev two_sites : Published
two_sites = record {
  disk =
      (content_path sites_dir blog, directory)
      ∷ (content_path sites_dir blog ++ codes "index.html" ∷ [], file (codes "<p>"))
      ∷ (content_path sites_dir demo, directory)
      ∷ (content_path sites_dir demo ++ codes "index.html" ∷ [], file (codes "<b>"))
      ∷ [];
  sites = record {
    rows =
        new_row 1 (codes "notes") (codes "blog") demo_input 5
        ∷ new_row 2 (codes "notes") (codes "demo") demo_input 6
        ∷ [];
    next_id = 3;
  };
}

abbrev settings : Settings
settings = record { versioning_enabled = true; versioning_keep = 5; deleted_site_ttl = 100 }

abbrev small : Limits
small = record { max_bytes = 100; max_entries = 10 }

abbrev is_demo : Result PathError SitePath → Bool
is_demo (err e) = false
is_demo (ok sp) = text_eq sp.slug (codes "demo")

demo_ne_blog : new_site_path (codes "notes") (codes "demo") ≢ ok blog
unfolding text_eq
demo_ne_blog e =
    let absurd_eq : true ≡ false = ap is_demo (sym (new_site_path-IsValid demo demo-IsValid) ∙ e) in
    cc

abbrev no_text : ℕ → Text
no_text n = codes "2026"

abbrev no_icon : Disk → FilePath → Text × Text
no_icon d x = ([], [])

abbrev never : Text → Bool
never x = false

abbrev unpublished : Published
unpublished =
    run_change never no_text no_text no_icon settings small (codes "example.com") 9 two_sites
      (unpublishing (codes "notes") (codes "demo"))

run_change-other_example :
    (lookup unpublished.disk (content_path (root_of live) blog ++ codes "index.html" ∷ [])
      ≡ lookup two_sites.disk (content_path (root_of live) blog ++ codes "index.html" ∷ []))
    × (view unpublished.sites (codes "notes") (codes "blog")
        ≡ view two_sites.sites (codes "notes") (codes "blog"))
run_change-other_example =
    run_change-other never no_text no_text no_icon settings small (codes "example.com") 9 two_sites
      blog live (codes "index.html" ∷ []) (unpublishing (codes "notes") (codes "demo")) blog-IsValid
      demo_ne_blog

abbrev nothing : Published
nothing = record { disk = []; sites = record { rows = []; next_id = 1 } }

abbrev blog_meta : Meta
blog_meta = record {
  group = codes "notes";
  slug = codes "blog";
  title = [];
  description = [];
  date = codes "2026";
  tags = [];
  repo = [];
  preview = [];
  hidden = false;
}

abbrev page : Payload
page = single_page (record { bytes = codes "<p>"; intact = true })

abbrev after_publish : Published × Result IngestError Publication
after_publish =
    publish no_text no_text no_icon never settings small (codes "a.b") nothing blog_meta page
      (some (codes "af")) 9

draw-IsName : IsName (codes "af")
draw-IsName = record {
  nonempty = λ k. absurd (cc);
  not_dot = λ k. absurd (cc);
  not_up = λ k. absurd (cc);
  no_slash = ground arith;
}

published :
    after_publish.1
    ≡ ok (record {
      url = codes "https://blog.notes.a.b";
      group = codes "notes";
      slug = codes "blog";
      updated_at = 9;
    })
unfolding publish new_site_path validate text_eq to_lower trim_space group_segments join split
    is_label new_stage_dir mkdir_all mkdir_from lookup path_eq clear_stage publish_staged staged
    unpack write_single_index write_file apply_effects apply_effect put to_path join_path clean
    resolve to_text record_publish swap then_files parent content_path content_dir dir remove_if
    make_room rename is_dir is_below below upsert_site get_site find_row insert_or_update is_row
    new_row url
published = refl

publish-IsLive_example :
    IsLive no_text no_text no_icon never settings small
      (codes "a.b")
      nothing
      blog_meta
      page
      (codes "af")
      9
      after_publish.0.disk
unfolding lookup
publish-IsLive_example =
    publish-IsLive no_text no_text no_icon never settings small (codes "a.b") nothing blog_meta page
      (codes "af") 9 draw-IsName
      (record {
        url = codes "https://blog.notes.a.b";
        group = codes "notes";
        slug = codes "blog";
        updated_at = 9;
      })
      (λ sp named r bare. refl) published

abbrev gone : Published × Result IngestError (Unit {0})
gone = unpublish two_sites (codes "notes") (codes "demo") 9

abbrev back : Published × Result IngestError (Unit {0})
back = restore gone.0 (codes "notes") (codes "demo") 12

is_gone : gone.1 ≡ ok tt
unfolding unpublish new_site_path validate text_eq to_lower trim_space group_segments join split
    is_label after_row soft_delete_site is_row new_row finish_files move_tree lookup path_eq
    content_path content_dir dir then_files mkdir_all mkdir_from parent rename remove_all remove_if
    is_below below is_dir
is_gone = refl

is_back : back.1 ≡ ok tt
unfolding restore new_site_path validate text_eq to_lower trim_space group_segments join split
    is_label after_row restore_site unpublish soft_delete_site is_row new_row finish_files move_tree
    lookup path_eq content_path content_dir dir then_files mkdir_all mkdir_from parent rename
    remove_all remove_if is_below below is_dir moved prune_empty_dirs prune_up remove update_rows
is_back = refl

demo-stands : lookup two_sites.disk (content_path sites_dir demo) ≡ some directory
unfolding lookup path_eq content_path text_eq split content_dir dir
demo-stands = refl

restore-unpublish_example :
    lookup back.0.disk (content_path sites_dir demo ++ codes "index.html" ∷ [])
    ≡ lookup two_sites.disk (content_path sites_dir demo ++ codes "index.html" ∷ [])
restore-unpublish_example =
    restore-unpublish (codes "notes") (codes "demo") demo (new_site_path-IsValid demo demo-IsValid)
      two_sites 9 12 directory (codes "index.html" ∷ []) demo-stands is_gone is_back
