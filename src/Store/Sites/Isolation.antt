-- ===== src/Store/Sites/Isolation.antt =====
-- internal/store/sites.go: every operation on one key refines its transition, keeps the keys of the
-- table unique, and leaves the rows of all other keys alone.
use gotifacts.Prelude.{
  ℕ, ◌≡◌, refl, sym, ◌∙◌, subst, Bool, true, false, not, List, [], ◌∷◌, ◌++◌, Option, none, some,
  if◌then◌else◌, Bool-cases, inl, inr, ◌⊎◌, Result, length, ◌==◌, Result-cases,
}
use gotifacts.Text.{Text}
use gotifacts.Store.Site.{
  StoreError, Site, SiteInput, SitePatch, is_row, is_deleted, update_rows, delete_rows, overwrite,
  new_row, apply_patch, write_patch,
}
use gotifacts.Store.Site.Rows.{
  row_at, IsUnique, KeepsKey, at_key, is_row→key, row_at-append, append-IsUnique,
  update_rows-IsUnique, row_at-update_other,
}
use gotifacts.Store.Site.Deletion.{
  delete_rows-IsUnique, row_at-delete_rows_ne, row_at-delete_key_ne,
}
use gotifacts.Store.Sites.{
  Table, get_site, insert_or_update, upsert_site, upsert_site_touch, set_site_size,
  set_site_favicon, soft_delete_site, restore_site, delete_site, purge_deleted_site,
}
use gotifacts.Store.Sites.Lifecycle.{
  Op, upsert, patch, touch, resize, icon, soft_delete, restore, purge, delete, run, view,
}
use gotifacts.Store.Sites.Refinement.{
  Refines, resize-Refines, icon-Refines, soft_delete-Refines, restore-Refines, purge-Refines,
  delete-Refines,
}
use gotifacts.Store.Sites.Writes.{
  touch-Refines, patch-Refines, upsert-Refines, patch_site-refused, patch_site-found,
  insert_or_update-absent, insert_or_update-present,
}

-- Every operation on the table does to the row of its key, and answers, what its transition says,
-- when the keys of the table are unique.
pub run-Refines :
    (t : Table) (group slug : Text) (ts : ℕ) (op : Op)
    → IsUnique t.rows
    → Refines t group slug ts op
run-Refines t g s ts (upsert input) u = upsert-Refines t g s ts u input
run-Refines t g s ts (patch p) u = patch-Refines t g s ts u p
run-Refines t g s ts touch u = touch-Refines t g s ts u
run-Refines t g s ts (resize size) u = resize-Refines t g s ts u size
run-Refines t g s ts (icon bytes kind) u = icon-Refines t g s ts u bytes kind
run-Refines t g s ts soft_delete u = soft_delete-Refines t g s ts u
run-Refines t g s ts restore u = restore-Refines t g s ts u
run-Refines t g s ts purge u = purge-Refines t g s ts u
run-Refines t g s ts delete u = delete-Refines t g s ts u

-- What an operation may do to the rows: update them at its key, delete them there, or add a row.
data Effect (t : Table) (g s : Text) : List Site → Type 0 where
  same : Effect t g s t.rows
  change : (f : Site → Site) → KeepsKey f → Effect t g s (update_rows (is_row g s) f t.rows)
  change_where :
      (q : Site → Bool) (f : Site → Site)
      → KeepsKey f
      → Effect t g s (update_rows (at_key g s q) f t.rows)
  remove : Effect t g s (delete_rows (is_row g s) t.rows)
  remove_where : (q : Site → Bool) → Effect t g s (delete_rows (at_key g s q) t.rows)
  add :
      (x : Site)
      → x.group ≡ g
      → x.slug ≡ s
      → row_at g s t.rows ≡ none
      → Effect t g s (t.rows ++ x ∷ [])

module _ (t : Table) (g s : Text) (ts : ℕ) where
  upsert-Effect : (input : SiteInput) → Effect t g s (run t g s ts (upsert input)).0.rows
  unfolding run upsert_site
  upsert-Effect input = by_row (view t g s) refl
    where
      by_row :
          (o : Option Site) → view t g s ≡ o → Effect t g s (insert_or_update t g s input ts).rows
      by_row none h =
          subst (λ (x : Table). Effect t g s x.rows)
            (sym (insert_or_update-absent t g s ts input h))
            (add (new_row t.next_id g s input ts) (unfold new_row in refl) (unfold new_row in refl)
              h)
      by_row (some r) h =
          subst (λ (x : Table). Effect t g s x.rows)
            (sym (insert_or_update-present t g s ts input r h))
            (change (overwrite input ts)
              (λ x. (unfold overwrite in refl, unfold overwrite in refl)))

  patch-Effect : (p : SitePatch) → Effect t g s (run t g s ts (patch p)).0.rows
  unfolding run
  patch-Effect p = elim (Result-cases (get_site t g s)) [
    | inl (e, h) ↦
        subst (λ (x : Table × Result StoreError Site). Effect t g s x.0.rows)
          (sym (patch_site-refused t g s ts p e h)) same
    | inr (r, h) ↦
        subst (λ (x : Table × Result StoreError Site). Effect t g s x.0.rows)
          (sym (patch_site-found t g s ts p r h))
          (change (write_patch (apply_patch p r) ts)
            (λ x. (unfold write_patch in refl, unfold write_patch in refl)))
  ]

  run-Effect : (op : Op) → Effect t g s (run t g s ts op).0.rows
  unfolding run upsert_site_touch set_site_size set_site_favicon soft_delete_site restore_site
      delete_site purge_deleted_site
  run-Effect (upsert input) = upsert-Effect input
  run-Effect (patch p) = patch-Effect p
  run-Effect touch =
      change (λ r. record r { updated_at = ts; deleted_at = none }) (λ r. (refl, refl))
  run-Effect (resize size) = change (λ r. record r { size = size }) (λ r. (refl, refl))
  run-Effect (icon bytes kind) =
      change
        (λ r. record r { favicon = bytes; favicon_type = if length bytes == 0 then [] else kind })
        (λ r. (refl, refl))
  run-Effect soft_delete =
      change_where (λ r. not (is_deleted r)) (λ r. record r { deleted_at = some ts })
        (λ r. (refl, refl))
  run-Effect restore =
      change_where is_deleted (λ r. record r { deleted_at = none; updated_at = ts })
        (λ r. (refl, refl))
  run-Effect purge = remove_where is_deleted
  run-Effect delete = remove

Effect-IsUnique :
    (t : Table) (g s : Text) (rows : List Site)
    → Effect t g s rows
    → IsUnique t.rows
    → IsUnique rows
Effect-IsUnique t g s rows same u = u
Effect-IsUnique t g s rows (change f k) u = update_rows-IsUnique (is_row g s) f t.rows k u
Effect-IsUnique t g s rows (change_where q f k) u = update_rows-IsUnique (at_key g s q) f t.rows k u
Effect-IsUnique t g s rows remove u = delete_rows-IsUnique (is_row g s) t.rows u
Effect-IsUnique t g s rows (remove_where q) u = delete_rows-IsUnique (at_key g s q) t.rows u
Effect-IsUnique t g s rows (add x a b h) u = append-IsUnique t.rows x u (rw (a, b) h)

-- Every operation keeps the keys of the table unique.
pub run-IsUnique :
    (t : Table) (group slug : Text) (ts : ℕ) (op : Op)
    → IsUnique t.rows
    → IsUnique (run t group slug ts op).0.rows
run-IsUnique t g s ts op u =
    Effect-IsUnique t g s (run t g s ts op).0.rows (run-Effect t g s ts op) u

no_row_of_other :
    (g s g' s' : Text)
    → ¬ ((g ≡ g') × (s ≡ s'))
    → (r : Site) → is_row g' s' r ≡ true
    → is_row g s r ≡ false
no_row_of_other g s g' s' ne r h = elim (Bool-cases (is_row g s r)) [
  | inl e ↦
      let (a, b) = is_row→key g s r e in
      let (a', b') = is_row→key g' s' r h in absurd (ne (sym a ∙ a', sym b ∙ b'))
  | inr e ↦ e
]

module _ (t : Table) (g s g' s' : Text) (ne : ¬ ((g ≡ g') × (s ≡ s'))) where
  at_key-other : (q : Site → Bool) (r : Site) → is_row g' s' r ≡ true → at_key g s q r ≡ false
  at_key-other q r h = rw (no_row_of_other g s g' s' ne r h) refl

  Effect-other : (rows : List Site) → Effect t g s rows → row_at g' s' rows ≡ view t g' s'
  Effect-other rows same = refl
  Effect-other rows (change f k) =
      row_at-update_other (is_row g s) f t.rows g' s' k (no_row_of_other g s g' s' ne)
  Effect-other rows (change_where q f k) =
      row_at-update_other (at_key g s q) f t.rows g' s' k (at_key-other q)
  Effect-other rows remove = row_at-delete_key_ne g s g' s' t.rows (no_row_of_other g s g' s' ne)
  Effect-other rows (remove_where q) =
      row_at-delete_rows_ne g s g' s' q t.rows (no_row_of_other g s g' s' ne)
  Effect-other rows (add x a b h) =
      row_at-append g' s' t.rows x
      ∙ same_row (is_row g' s' x) (elsewhere (Bool-cases (is_row g' s' x))) (row_at g' s' t.rows)
    where
      elsewhere : (is_row g' s' x ≡ true) ⊎ (is_row g' s' x ≡ false) → is_row g' s' x ≡ false
      elsewhere (inl e) =
          let (a', b') = is_row→key g' s' x e in absurd (ne (sym a ∙ a', sym b ∙ b'))
      elsewhere (inr e) = e

      same_row :
          (b : Bool)
          → b ≡ false
          → (o : Option Site) → elim o [ none ↦ if b then some x else none | some r ↦ some r ] ≡ o
      same_row b h none = rw h refl
      same_row b h (some r) = refl

-- An operation leaves the row of every other key as it was.
pub run-other :
    (t : Table) (group slug group' slug' : Text) (ts : ℕ) (op : Op)
    → ¬ ((group ≡ group') × (slug ≡ slug'))
    → view (run t group slug ts op).0 group' slug' ≡ view t group' slug'
run-other t g s g' s' ts op ne =
    Effect-other t g s g' s' ne (run t g s ts op).0.rows (run-Effect t g s ts op)
