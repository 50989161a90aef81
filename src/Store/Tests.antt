-- ===== src/Store/Tests.antt =====
-- The theorems about the tables of sites and of keys at concrete inputs.
use gotifacts.Prelude.{◌≢◌, ◌++◌, List, none, some}
use gotifacts.Text.{
  Text, contains_text, equal_fold, to_lower, trim, trim_left, trim_right, lower_byte, trim_space,
  is_space,
}
use gotifacts.Keys.{cap_publish, is_capability}
use gotifacts.Auth.{Grant, api_key_source, parse_grant_kind}
use gotifacts.Auth.Planes.{bearer_token, get_header}
use gotifacts.Auth.KeyPlane.{api_key, api_key-create_key}
use gotifacts.Store.ApiKeys.{KeyTables, create_key, find_key_by_hash}
use gotifacts.Store.ApiKeys.Creation.{IsSound, IsStorable, created, find_key_by_hash-create_key}
use gotifacts.Prelude.{◌≡◌, refl, false, [], ◌∷◌, ok, err}
use gotifacts.Text.{codes, text_eq}
use gotifacts.Store.Site.{not_found, Site, SiteInput, is_row, find_row, new_row}
use gotifacts.Store.Site.Rows.{IsUnique}
use gotifacts.Store.Sites.{Table, get_site}
use gotifacts.Store.Sites.Lifecycle.{soft_delete, restore, delete, run, view, upsert}
use gotifacts.Store.Sites.Refinement.{Refines}
use gotifacts.Store.Sites.Isolation.{run-Refines, run-other}
use gotifacts.Store.Sites.Trash.{empty, after, Reachable-IsUnique, restore-soft_delete}

abbrev demo_input : SiteInput
demo_input = record {
  title = codes "Demo";
  description = [];
  date = [];
  tags = [];
  repo = [];
  preview = [];
  hidden = false;
  size = 7;
}

abbrev demo_site : Site
demo_site = new_row 1 [] (codes "demo") demo_input 5

abbrev note_site : Site
note_site = new_row 2 (codes "g") (codes "note") demo_input 6

abbrev two_sites : Table
two_sites = record { rows = demo_site ∷ note_site ∷ []; next_id = 3 }

two_sites-IsUnique : IsUnique two_sites.rows
unfolding find_row is_row text_eq new_row
two_sites-IsUnique = (refl, (refl, tt))

run-Refines_example : Refines two_sites (codes "g") (codes "note") 9 soft_delete
run-Refines_example =
    run-Refines two_sites (codes "g") (codes "note") 9 soft_delete two_sites-IsUnique

demo_ne_note : ¬ ((codes "g" ≡ []) × (codes "note" ≡ codes "demo"))
demo_ne_note (a, b) = absurd (cc)

run-other_example :
    view (run two_sites (codes "g") (codes "note") 9 delete).0 [] (codes "demo")
    ≡ view two_sites [] (codes "demo")
run-other_example =
    run-other two_sites (codes "g") (codes "note") [] (codes "demo") 9 delete demo_ne_note

no_sites : Table
no_sites = record { rows = []; next_id = 1 }

Reachable-IsUnique_example : IsUnique (run no_sites [] (codes "demo") 5 (upsert demo_input)).0.rows
unfolding no_sites
Reachable-IsUnique_example =
    Reachable-IsUnique (run no_sites [] (codes "demo") 5 (upsert demo_input)).0
      (after no_sites [] (codes "demo") 5 (upsert demo_input) (empty 1))

demo_site-found : get_site two_sites [] (codes "demo") ≡ ok demo_site
unfolding get_site find_row is_row text_eq new_row
demo_site-found = refl

restore-soft_delete_example :
    (get_site (run two_sites [] (codes "demo") 8 soft_delete).0 [] (codes "demo") ≡ err not_found)
    × ((run (run two_sites [] (codes "demo") 8 soft_delete).0 [] (codes "demo") 9 soft_delete).1
        ≡ err not_found)
    × (get_site
          (run (run two_sites [] (codes "demo") 8 soft_delete).0 [] (codes "demo") 9 restore).0
          []
          (codes "demo")
        ≡ ok (record demo_site { updated_at = 9 }))
restore-soft_delete_example =
    restore-soft_delete two_sites [] (codes "demo") demo_site 8 9 two_sites-IsUnique demo_site-found

abbrev no_keys : KeyTables
no_keys = record { keys = []; grants = []; next_id = 1 }

no_keys-IsSound : IsSound no_keys
no_keys-IsSound = record { keys = tt; grants = tt }

abbrev docs_grant : Grant
docs_grant = record { kind = codes "site"; target = codes "docs"; permissions = cap_publish ∷ [] }

docs_grant-IsStorable : IsStorable docs_grant
unfolding parse_grant_kind text_eq contains_text is_capability
docs_grant-IsStorable = record {
  kind = refl;
  some_permission = λ k. absurd (cc);
  recognized = (refl, tt);
  distinct = (refl, tt);
}

find_key_by_hash-create_key_example :
    ((create_key no_keys (codes "ci") false (docs_grant ∷ []) none (codes "h") 4).1
      ≡ ok (created no_keys (codes "ci") false (docs_grant ∷ []) none 4))
    × (find_key_by_hash
          (create_key no_keys (codes "ci") false (docs_grant ∷ []) none (codes "h") 4).0
          (codes "h")
        ≡ ok (created no_keys (codes "ci") false (docs_grant ∷ []) none 4))
find_key_by_hash-create_key_example =
    find_key_by_hash-create_key no_keys (codes "ci") false (docs_grant ∷ []) none (codes "h") 4
      no_keys-IsSound (docs_grant-IsStorable, tt) refl

abbrev ci_headers : List (Text × Text)
ci_headers = (codes "authorization", codes "bearer  tok") ∷ []

abbrev plain_hash : Text → Text
plain_hash s = codes "#" ++ s

ci_token : bearer_token ci_headers ≢ []
unfolding bearer_token get_header equal_fold to_lower lower_byte text_eq trim_space trim trim_left
    trim_right is_space
ci_token k = absurd (cc)

api_key-create_key_example :
    (api_key plain_hash
      (create_key no_keys
        (codes "ci")
        false
        (docs_grant ∷ [])
        (some 9)
        (plain_hash (bearer_token ci_headers))
        4).0
      ci_headers
      6
      7).1
    ≡ some (record {
      user = codes "ci";
      admin = false;
      grants = docs_grant ∷ [];
      source = api_key_source;
      key_id = 1;
    })
api_key-create_key_example =
    api_key-create_key plain_hash ci_headers 6 7 no_keys (codes "ci") false (docs_grant ∷ [])
      (some 9) 4 no_keys-IsSound (docs_grant-IsStorable, tt) refl ci_token
