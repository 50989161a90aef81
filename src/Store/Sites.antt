-- ===== src/Store/Sites.antt =====
-- internal/store/sites.go: the operations on the table of sites, with soft deletion.
-- `ListSites`, with its search by LIKE, is not modelled.
pub mod Lifecycle
pub mod Refinement
pub mod Writes
pub mod Isolation
pub mod Trash
use gotifacts.Prelude.{
  ℕ, ◌+◌, Bool, true, false, not, ◌&&◌, ◌||◌, List, [], ◌∷◌, ◌++◌, Option, none, some,
  if◌then◌else◌, Result, ok, err, any, length, ◌==◌,
}
use gotifacts.Text.{Text, text_eq}
use gotifacts.Store.Site.{
  StoreError, not_found, Site, SiteInput, SitePatch, is_row, is_deleted, find_row, update_rows,
  delete_rows, overwrite, new_row, apply_patch, write_patch,
}

-- The table, and the next AUTOINCREMENT id. The ids that an upsert may skip are not modelled.
pub record Table : Type 0 where
  pub rows : List Site
  pub next_id : ℕ

abbrev pub with_rows : Table → List Site → Table
with_rows t rows = record t { rows = rows }

abbrev pub found : Option Site → Result StoreError Site
found none = err not_found
found (some r) = ok r

-- GetSite
unfoldable pub get_site : Table → Text → Text → Result StoreError Site
get_site t group slug = found (find_row (λ r. is_row group slug r && not (is_deleted r)) t.rows)

-- INSERT ... ON CONFLICT(group_path, slug) DO UPDATE
unfoldable pub insert_or_update : Table → Text → Text → SiteInput → ℕ → Table
insert_or_update t group slug input ts = elim (find_row (is_row group slug) t.rows) [
  | none ↦ record {
    rows = t.rows ++ new_row t.next_id group slug input ts ∷ [];
    next_id = t.next_id + 1;
  }
  | some r ↦ with_rows t (update_rows (is_row group slug) (overwrite input ts) t.rows)
]

-- UpsertSite, at the time `ts`
unfoldable pub upsert_site : Table → Text → Text → SiteInput → ℕ → Table × Result StoreError Site
upsert_site t group slug input ts =
    let t' = insert_or_update t group slug input ts in (t', get_site t' group slug)

-- PatchSite
unfoldable pub patch_site : Table → Text → Text → SitePatch → ℕ → Table × Result StoreError Site
patch_site t group slug p ts = elim (get_site t group slug) [
  | err e ↦ (t, err e)
  | ok cur ↦
      let t' =
        with_rows t (update_rows (is_row group slug) (write_patch (apply_patch p cur) ts) t.rows) in
      (t', get_site t' group slug)
]

-- UpsertSiteTouch
unfoldable pub upsert_site_touch : Table → Text → Text → ℕ → Table × Result StoreError Site
upsert_site_touch t group slug ts =
    let t' = with_rows t (
      update_rows (is_row group slug) (λ r. record r { updated_at = ts; deleted_at = none })
        t.rows) in
    (t', get_site t' group slug)

-- SetSiteSize
unfoldable pub set_site_size : Table → Text → Text → ℕ → Table
set_site_size t group slug size =
    with_rows t (update_rows (is_row group slug) (λ r. record r { size = size }) t.rows)

-- SetSiteFavicon
unfoldable pub set_site_favicon : Table → Text → Text → Text → Text → Table
set_site_favicon t group slug bytes content_type =
    let kind = if length bytes == 0 then [] else content_type in
    with_rows t (
      update_rows (is_row group slug) (λ r. record r { favicon = bytes; favicon_type = kind })
        t.rows)

-- GetSiteFavicon
unfoldable pub get_site_favicon : Table → Text → Text → Result StoreError (Text × Text)
get_site_favicon t group slug = elim (get_site t group slug) [
  | err e ↦ err e
  | ok r ↦
      if length r.favicon == 0 || text_eq r.favicon_type []
      then err not_found
      else ok (r.favicon, r.favicon_type)
]

-- The result of a statement that has to affect a row.
abbrev pub affected : Bool → Result StoreError (Unit {0})
affected true = ok tt
affected false = err not_found

-- SoftDeleteSite
unfoldable pub soft_delete_site : Table → Text → Text → ℕ → Table × Result StoreError (Unit {0})
soft_delete_site t group slug ts =
    let live = λ (r : Site). is_row group slug r && not (is_deleted r) in
    (
      with_rows t (update_rows live (λ r. record r { deleted_at = some ts }) t.rows),
      affected (any live t.rows),
    )

-- RestoreSite
unfoldable pub restore_site : Table → Text → Text → ℕ → Table × Result StoreError (Unit {0})
restore_site t group slug ts =
    let gone = λ (r : Site). is_row group slug r && is_deleted r in
    (
      with_rows t (update_rows gone (λ r. record r { deleted_at = none; updated_at = ts }) t.rows),
      affected (any gone t.rows),
    )

-- DeleteSite
unfoldable pub delete_site : Table → Text → Text → Table × Result StoreError (Unit {0})
delete_site t group slug = (
  with_rows t (delete_rows (is_row group slug) t.rows),
  affected (any (is_row group slug) t.rows),
)

-- PurgeDeletedSite
unfoldable pub purge_deleted_site : Table → Text → Text → Table × Result StoreError (Unit {0})
purge_deleted_site t group slug =
    let gone = λ (r : Site). is_row group slug r && is_deleted r in
    (with_rows t (delete_rows gone t.rows), affected (any gone t.rows))
