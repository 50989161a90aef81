-- ===== src/Store/Sites/Lifecycle.antt =====
-- internal/store/sites.go: the operations on the row of a key, run on the table, and the
-- transitions they are meant to be on the row alone: absent, live or in the trash.
use gotifacts.Prelude.{ℕ, [], Option, none, some, if◌then◌else◌, Result, ok, err, length, ◌==◌}
use gotifacts.Text.{Text}
use gotifacts.Store.Site.{
  StoreError, not_found, Site, SiteInput, SitePatch, is_deleted, overwrite, new_row, apply_patch,
  write_patch,
}
use gotifacts.Store.Site.Rows.{row_at}
use gotifacts.Store.Sites.{
  Table, upsert_site, patch_site, upsert_site_touch, set_site_size, set_site_favicon,
  soft_delete_site, restore_site, delete_site, purge_deleted_site,
}

-- The operations that change the row of a key.
pub data Op : Type 0 where
  upsert : SiteInput → Op
  patch : SitePatch → Op
  touch : Op
  resize : ℕ → Op
  icon : Text → Text → Op
  soft_delete : Op
  restore : Op
  purge : Op
  delete : Op

-- What a call answers: an error, or success, for some with the row.
abbrev pub Answer : Type 0
Answer = Result StoreError (Option Site)

abbrev pub row_answer : Result StoreError Site → Answer
row_answer (err e) = err e
row_answer (ok r) = ok (some r)

abbrev pub plain_answer : Result StoreError (Unit {0}) → Answer
plain_answer (err e) = err e
plain_answer (ok u) = ok none

module _ (t : Table) (group slug : Text) (ts : ℕ) where
  -- The operation as the store runs it, at the time `ts`.
  unfoldable pub run : Op → Table × Answer
  run (upsert input) = let (t', a) = upsert_site t group slug input ts in (t', row_answer a)
  run (patch p) = let (t', a) = patch_site t group slug p ts in (t', row_answer a)
  run touch = let (t', a) = upsert_site_touch t group slug ts in (t', row_answer a)
  run (resize size) = (set_site_size t group slug size, ok none)
  run (icon bytes kind) = (set_site_favicon t group slug bytes kind, ok none)
  run soft_delete = let (t', a) = soft_delete_site t group slug ts in (t', plain_answer a)
  run restore = let (t', a) = restore_site t group slug ts in (t', plain_answer a)
  run purge = let (t', a) = purge_deleted_site t group slug in (t', plain_answer a)
  run delete = let (t', a) = delete_site t group slug in (t', plain_answer a)

-- The row written, which is also the answer.
abbrev pub answered : Site → Option Site × Answer
answered r = (some r, ok (some r))

-- The specification: one key, whose row is absent, live or in the trash.
module _ (id : ℕ) (group slug : Text) (ts : ℕ) where
  abbrev pub step_live : Op → Site → Option Site × Answer
  step_live (upsert input) r = answered (overwrite input ts r)
  step_live (patch p) r = answered (write_patch (apply_patch p r) ts r)
  step_live touch r = answered (record r { updated_at = ts; deleted_at = none })
  step_live (resize size) r = (some (record r { size = size }), ok none)
  step_live (icon bytes kind) r = (
    some (record r { favicon = bytes; favicon_type = if length bytes == 0 then [] else kind }),
    ok none,
  )
  step_live soft_delete r = (some (record r { deleted_at = some ts }), ok none)
  step_live restore r = (some r, err not_found)
  step_live purge r = (some r, err not_found)
  step_live delete r = (none, ok none)

  abbrev pub step_trashed : Op → Site → Option Site × Answer
  step_trashed (patch p) r = (some r, err not_found)
  step_trashed soft_delete r = (some r, err not_found)
  step_trashed restore r = (some (record r { deleted_at = none; updated_at = ts }), ok none)
  step_trashed purge r = (none, ok none)
  step_trashed op r = step_live op r

  abbrev pub step_absent : Op → Option Site × Answer
  step_absent (upsert input) = answered (new_row id group slug input ts)
  step_absent (resize size) = (none, ok none)
  step_absent (icon bytes kind) = (none, ok none)
  step_absent op = (none, err not_found)

  unfoldable pub step : Op → Option Site → Option Site × Answer
  step op none = step_absent op
  step op (some r) = if is_deleted r then step_trashed op r else step_live op r

-- The row of a key, as the map sees the table.
abbrev pub view : Table → Text → Text → Option Site
view t group slug = row_at group slug t.rows
