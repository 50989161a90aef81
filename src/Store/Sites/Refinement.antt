-- ===== src/Store/Sites/Refinement.antt =====
-- internal/store/sites.go: the table refines a map from keys to rows, on which each operation is
-- one transition of the row of its key.
use mathlib.Core.Option
use gotifacts.Prelude.{
  ℕ, ◌≡◌, refl, ap, Bool, not, [], Option, none, some, arith, if◌then◌else◌, ok, length, ◌==◌,
}
use gotifacts.Text.{Text}
use gotifacts.Store.Site.{Site, is_deleted, is_some}
use gotifacts.Store.Site.Rows.{
  IsUnique, kept, holds, on_row, any-at_key, find_row-at_key, row_at-update_at_key,
  row_at-update_key,
}
use gotifacts.Store.Site.Deletion.{row_at-delete_rows, row_at-delete_key, any-is_row}
use gotifacts.Store.Sites.{
  Table, found, affected, get_site, set_site_size, set_site_favicon, soft_delete_site, restore_site,
  delete_site, purge_deleted_site,
}
use gotifacts.Store.Sites.Lifecycle.{
  Op, resize, icon, soft_delete, restore, purge, delete, Answer, plain_answer, run, step, view,
}

abbrev pub is_live : Site → Bool
is_live r = not (is_deleted r)

pub get_site-view :
    (t : Table) (group slug : Text)
    → IsUnique t.rows
    → get_site t group slug ≡ found (kept is_live (view t group slug))
unfolding get_site
get_site-view t group slug u = ap found (find_row-at_key group slug is_live t.rows u)

-- A call leaves the row, and gives the answer, that its transition says.
abbrev pub Refines : Table → Text → Text → ℕ → Op → Type 0
Refines t group slug ts op =
    (view (run t group slug ts op).0 group slug
      ≡ (step t.next_id group slug ts op (view t group slug)).0)
    × ((run t group slug ts op).1 ≡ (step t.next_id group slug ts op (view t group slug)).1)

-- The pair of a row and an answer that a transition gives.
abbrev Gives : Option Site → Answer → Option Site × Answer → Type 0
Gives o a (o', a') = (o ≡ o') × (a ≡ a')

module _ (t : Table) (group slug : Text) (ts : ℕ) (u : IsUnique t.rows) where
  pub soft_delete-Refines : Refines t group slug ts soft_delete
  unfolding run step soft_delete_site
  soft_delete-Refines =
      rw
        (
          any-at_key group slug is_live t.rows u,
          row_at-update_at_key group slug is_live (λ r. record r { deleted_at = some ts }) t.rows
              (λ r. (refl, refl)),
        )
        (by_row (view t group slug))
    where
      by_row :
          (o : Option Site)
          → Gives
              (on_row is_live (λ r. record r { deleted_at = some ts }) o)
              (plain_answer (affected (holds is_live o)))
              (step t.next_id group slug ts soft_delete o)
      by_row none = (refl, refl)
      by_row (some r) = ground arith

  pub restore-Refines : Refines t group slug ts restore
  unfolding run step restore_site
  restore-Refines =
      rw
        (
          any-at_key group slug is_deleted t.rows u,
          row_at-update_at_key group slug is_deleted
              (λ r. record r { deleted_at = none; updated_at = ts }) t.rows (λ r. (refl, refl)),
        )
        (by_row (view t group slug))
    where
      by_row :
          (o : Option Site)
          → Gives
              (on_row is_deleted (λ r. record r { deleted_at = none; updated_at = ts }) o)
              (plain_answer (affected (holds is_deleted o)))
              (step t.next_id group slug ts restore o)
      by_row none = (refl, refl)
      by_row (some r) = ground arith

  pub purge-Refines : Refines t group slug ts purge
  unfolding run step purge_deleted_site
  purge-Refines =
      rw
        (
          any-at_key group slug is_deleted t.rows u,
          row_at-delete_rows group slug is_deleted t.rows u,
        )
        (by_row (view t group slug))
    where
      by_row :
          (o : Option Site)
          → Gives
              (kept is_live o)
              (plain_answer (affected (holds is_deleted o)))
              (step t.next_id group slug ts purge o)
      by_row none = (refl, refl)
      by_row (some r) = ground arith

  pub delete-Refines : Refines t group slug ts delete
  unfolding run step delete_site
  delete-Refines =
      rw (any-is_row group slug t.rows, row_at-delete_key group slug t.rows)
        (by_row (view t group slug))
    where
      by_row :
          (o : Option Site)
          → Gives none (plain_answer (affected (is_some o))) (step t.next_id group slug ts delete o)
      by_row none = (refl, refl)
      by_row (some r) = ground arith

  pub resize-Refines : (size : ℕ) → Refines t group slug ts (resize size)
  unfolding run step set_site_size
  resize-Refines size =
      rw (row_at-update_key group slug (λ r. record r { size = size }) t.rows (λ r. (refl, refl)))
        (by_row (view t group slug))
    where
      by_row :
          (o : Option Site)
          → Gives
              (Option.map (λ (r : Site). record r { size = size }) o)
              (ok none)
              (step t.next_id group slug ts (resize size) o)
      by_row none = (refl, refl)
      by_row (some r) = ground arith

  pub icon-Refines : (bytes kind : Text) → Refines t group slug ts (icon bytes kind)
  unfolding run step set_site_favicon
  icon-Refines bytes kind =
      rw
        (row_at-update_key group slug
          (λ r. record r { favicon = bytes; favicon_type = if length bytes == 0 then [] else kind })
          t.rows (λ r. (refl, refl)))
        (by_row (view t group slug))
    where
      by_row :
          (o : Option Site)
          → Gives
              (Option.map
                (λ (r : Site). record r {
                  favicon = bytes;
                  favicon_type = if length bytes == 0 then [] else kind;
                })
                o)
              (ok none)
              (step t.next_id group slug ts (icon bytes kind) o)
      by_row none = (refl, refl)
      by_row (some r) = ground arith
