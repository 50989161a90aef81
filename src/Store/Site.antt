-- ===== src/Store/Site.antt =====
-- internal/store/sites.go: a row of the table of sites, and the statements on lists of rows.
-- A time is the number of nanoseconds that the registry's clock shows, and tags are the list that
-- their JSON form stands for.
pub mod Rows
pub mod Deletion
use gotifacts.Prelude.{
  ℕ, zero, suc, ◌+◌, ◌≡◌, Bool, true, false, not, ◌&&◌, ◌||◌, List, [], ◌∷◌, ◌++◌, map, Option,
  none, some, leb, if◌then◌else◌, Result, ok, err, any, length, ◌==◌,
}
use gotifacts.Text.{Text, text_eq, contains_text, trim_space}

-- ErrNotFound
pub data StoreError : Type 0 where
  not_found : StoreError

-- Site, with the columns `favicon` and `favicon_type`
pub record Site : Type 0 where
  pub id : ℕ
  pub group : Text
  pub slug : Text
  pub title : Text
  pub description : Text
  pub date : Text
  pub tags : List Text
  pub repo : Text
  pub preview : Text
  pub hidden : Bool
  pub size : ℕ
  pub favicon : Text
  pub favicon_type : Text
  pub created_at : ℕ
  pub updated_at : ℕ
  pub deleted_at : Option ℕ

-- SiteInput
pub record SiteInput : Type 0 where
  pub title : Text
  pub description : Text
  pub date : Text
  pub tags : List Text
  pub repo : Text
  pub preview : Text
  pub hidden : Bool
  pub size : ℕ

-- SitePatch; a nil field is `none`
pub record SitePatch : Type 0 where
  pub title : Option Text
  pub description : Option Text
  pub date : Option Text
  pub tags : Option (List Text)
  pub repo : Option Text
  pub preview : Option Text
  pub hidden : Option Bool

-- Site.HasFavicon
unfoldable pub has_favicon : Site → Bool
has_favicon r = not (text_eq r.favicon_type [])

-- The loop of `normalizeTags`. `out` holds what the map `seen` holds, in order.
unfoldable pub normalize_tags_from : List Text → List Text → List Text
normalize_tags_from out [] = out
normalize_tags_from out (t ∷ ts) =
    normalize_tags_from
      (if text_eq (trim_space t) [] || contains_text out (trim_space t)
        then out
        else out ++ trim_space t ∷ [])
      ts

-- normalizeTags
unfoldable pub normalize_tags : List Text → List Text
normalize_tags tags = normalize_tags_from [] tags

-- WHERE group_path=? AND slug=?
unfoldable pub is_row : Text → Text → Site → Bool
is_row group slug r = text_eq r.group group && text_eq r.slug slug

abbrev pub is_some {ℓ} : {A : Type ℓ} → Option A → Bool
is_some none = false
is_some (some a) = true

-- deleted_at IS NOT NULL
abbrev pub is_deleted : Site → Bool
is_deleted r = is_some r.deleted_at

-- The first row of a SELECT.
unfoldable pub find_row : (Site → Bool) → List Site → Option Site
find_row p [] = none
find_row p (r ∷ rs) = if p r then some r else find_row p rs

-- UPDATE sites SET ... WHERE
unfoldable pub update_rows : (Site → Bool) → (Site → Site) → List Site → List Site
update_rows p f rows = map (λ r. if p r then f r else r) rows

-- DELETE FROM sites WHERE
unfoldable pub delete_rows : (Site → Bool) → List Site → List Site
delete_rows p [] = []
delete_rows p (r ∷ rs) = let rest = delete_rows p rs in if p r then rest else r ∷ rest

-- DO UPDATE SET, for an upsert that meets its row
unfoldable pub overwrite : SiteInput → ℕ → Site → Site
overwrite input ts r = record r {
  title = input.title;
  description = input.description;
  date = input.date;
  tags = normalize_tags input.tags;
  repo = input.repo;
  preview = input.preview;
  hidden = input.hidden;
  size = input.size;
  updated_at = ts;
  deleted_at = none;
}

-- VALUES, for an upsert that inserts
unfoldable pub new_row : ℕ → Text → Text → SiteInput → ℕ → Site
new_row id group slug input ts = record {
  id = id;
  group = group;
  slug = slug;
  title = input.title;
  description = input.description;
  date = input.date;
  tags = normalize_tags input.tags;
  repo = input.repo;
  preview = input.preview;
  hidden = input.hidden;
  size = input.size;
  favicon = [];
  favicon_type = [];
  created_at = ts;
  updated_at = ts;
  deleted_at = none;
}

abbrev pub or_else {ℓ} : {A : Type ℓ} → Option A → A → A
or_else none a = a
or_else (some b) a = b

-- The fields of a patch, laid over those of a row.
unfoldable pub apply_patch : SitePatch → Site → Site
apply_patch p r = record r {
  title = or_else p.title r.title;
  description = or_else p.description r.description;
  date = or_else p.date r.date;
  tags = elim p.tags [ none ↦ r.tags | some ts ↦ normalize_tags ts ];
  repo = or_else p.repo r.repo;
  preview = or_else p.preview r.preview;
  hidden = or_else p.hidden r.hidden;
}

-- The UPDATE of `PatchSite`: the patched fields of `cur` go into the row.
unfoldable pub write_patch : Site → ℕ → Site → Site
write_patch cur ts r = record r {
  title = cur.title;
  description = cur.description;
  date = cur.date;
  tags = cur.tags;
  repo = cur.repo;
  preview = cur.preview;
  hidden = cur.hidden;
  updated_at = ts;
}
