-- ===== src/Store/Sites/Writes.antt =====
-- internal/store/sites.go: the operations that answer with the row they have written.
use mathlib.Core.Option
use gotifacts.Prelude.{
  ℕ, ◌+◌, ◌≡◌, refl, ap, ◌∙◌, false, [], ◌∷◌, ◌++◌, Option, none, some, arith, Bool-cases, inl, inr,
  ok, err,
}
use gotifacts.Text.{Text}
use gotifacts.Text.Equality.{text_eq_refl}
use gotifacts.Store.Site.{
  StoreError, not_found, Site, SiteInput, SitePatch, is_row, is_deleted, update_rows, overwrite,
  new_row, apply_patch, write_patch,
}
use gotifacts.Store.Site.Rows.{
  row_at, IsUnique, KeepsKey, kept, row_at-append, append-IsUnique, row_at-update_key,
  update_rows-IsUnique,
}
use gotifacts.Store.Sites.{
  Table, with_rows, found, get_site, insert_or_update, upsert_site, patch_site, upsert_site_touch,
}
use gotifacts.Store.Sites.Lifecycle.{upsert, patch, touch, row_answer, run, step, view}
use gotifacts.Store.Sites.Refinement.{get_site-view, Refines, is_live}

-- The answer of a write that leaves the row live.
pub answer_written :
    (t : Table) (group slug : Text) (r : Site)
    → IsUnique t.rows
    → view t group slug ≡ some r
    → is_deleted r ≡ false
    → row_answer (get_site t group slug) ≡ ok (some r)
answer_written t group slug r u h live = rw (get_site-view t group slug u, h, live) refl

module _ (t : Table) (group slug : Text) (ts : ℕ) where
  -- The table with the row of the key changed.
  abbrev pub updated : (Site → Site) → Table
  updated f = with_rows t (update_rows (is_row group slug) f t.rows)

  pub patch_site-refused :
      (p : SitePatch) (e : StoreError)
      → get_site t group slug ≡ err e
      → patch_site t group slug p ts ≡ (t, err e)
  unfolding patch_site
  patch_site-refused p e h = rw (patch_site, h) refl

  pub patch_site-found :
      (p : SitePatch) (r : Site)
      → get_site t group slug ≡ ok r
      → patch_site t group slug p ts ≡ (
        updated (write_patch (apply_patch p r) ts),
        get_site (updated (write_patch (apply_patch p r) ts)) group slug,
      )
  unfolding patch_site
  patch_site-found p r h = rw (patch_site, h) refl

  abbrev pub inserted : SiteInput → Table
  inserted input = record {
    rows = t.rows ++ new_row t.next_id group slug input ts ∷ [];
    next_id = t.next_id + 1;
  }

  pub insert_or_update-absent :
      (input : SiteInput)
      → view t group slug ≡ none
      → insert_or_update t group slug input ts ≡ inserted input
  unfolding insert_or_update
  insert_or_update-absent input h = rw (insert_or_update, h) refl

  pub insert_or_update-present :
      (input : SiteInput) (r : Site)
      → view t group slug ≡ some r
      → insert_or_update t group slug input ts ≡ updated (overwrite input ts)
  unfolding insert_or_update
  insert_or_update-present input r h = rw (insert_or_update, h) refl

abbrev touched : ℕ → Site → Site
touched ts r = record r { updated_at = ts; deleted_at = none }

module _ (t : Table) (group slug : Text) (ts : ℕ) (u : IsUnique t.rows) where
  updated-view :
      (f : Site → Site)
      → KeepsKey f
      → (o : Option Site) → view t group slug ≡ o
      → view (updated t group slug ts f) group slug ≡ Option.map f o
  updated-view f k o h = row_at-update_key group slug f t.rows k ∙ ap (Option.map f) h

  pub touch-Refines : Refines t group slug ts touch
  unfolding run step upsert_site_touch
  touch-Refines = by_row (view t group slug) refl
    where
      f : Site → Site
      f = touched ts

      by_row : (o : Option Site) → view t group slug ≡ o → Refines t group slug ts touch
      by_row none h =
          rw
            (
              get_site-view (updated t group slug ts f) group slug
                  (update_rows-IsUnique (is_row group slug) f t.rows (λ r. (refl, refl)) u),
              updated-view f (λ r. (refl, refl)) none h,
              h,
            )
            (refl, refl)
      by_row (some r) h =
          rw
            (
              get_site-view (updated t group slug ts f) group slug
                  (update_rows-IsUnique (is_row group slug) f t.rows (λ r. (refl, refl)) u),
              updated-view f (λ r. (refl, refl)) (some r) h,
              h,
            )
            (ground arith)

  -- What an update of the row of the key answers, when it leaves the row live.
  answer_updated :
      (f : Site → Site)
      → KeepsKey f
      → (r : Site) → view t group slug ≡ some r
      → is_deleted (f r) ≡ false
      → (view (updated t group slug ts f) group slug ≡ some (f r))
        × (row_answer (get_site (updated t group slug ts f) group slug) ≡ ok (some (f r)))
  answer_updated f k r h live =
      let seen = updated-view f k (some r) h in
      (
        seen,
        answer_written (updated t group slug ts f) group slug (f r)
            (update_rows-IsUnique (is_row group slug) f t.rows k u) seen live,
      )

  pub patch-Refines : (p : SitePatch) → Refines t group slug ts (patch p)
  unfolding run step
  patch-Refines p = by_row (view t group slug) refl
    where
      seen :
          (o : Option Site) → view t group slug ≡ o → get_site t group slug ≡ found (kept is_live o)
      seen o h = get_site-view t group slug u ∙ ap (λ x. found (kept is_live x)) h

      by_row : (o : Option Site) → view t group slug ≡ o → Refines t group slug ts (patch p)
      by_row none h =
          rw (patch_site-refused t group slug ts p not_found (seen none h), h) (refl, refl)
      by_row (some r) h = elim (Bool-cases (is_deleted r)) [
        | inl e ↦
            rw (patch_site-refused t group slug ts p not_found (seen (some r) h ∙ rw e refl), h, e)
              (refl, refl)
        | inr e ↦
            rw (patch_site-found t group slug ts p r (seen (some r) h ∙ rw e refl), h, e)
              (answer_updated (write_patch (apply_patch p r) ts)
                (λ x. (unfold write_patch in refl, unfold write_patch in refl)) r h
                (unfold write_patch apply_patch in e))
      ]

  pub inserted-view :
      (input : SiteInput)
      → view t group slug ≡ none
      → row_at group slug (t.rows ++ new_row t.next_id group slug input ts ∷ [])
        ≡ some (new_row t.next_id group slug input ts)
  unfolding is_row new_row
  inserted-view input h =
      row_at-append group slug t.rows (new_row t.next_id group slug input ts)
      ∙ rw (h, text_eq_refl group, text_eq_refl slug) refl

  pub upsert-Refines : (input : SiteInput) → Refines t group slug ts (upsert input)
  unfolding run step upsert_site
  upsert-Refines input = by_row (view t group slug) refl
    where
      new : Site
      new = new_row t.next_id group slug input ts

      by_row : (o : Option Site) → view t group slug ≡ o → Refines t group slug ts (upsert input)
      by_row none h =
          rw (insert_or_update-absent t group slug ts input h, h)
            (
              inserted-view input h,
              answer_written (inserted t group slug ts input) group slug new
                  (append-IsUnique t.rows new u (unfold new_row in h)) (inserted-view input h)
                  (unfold new_row in refl),
            )
      by_row (some r) h =
          let done =
            answer_updated (overwrite input ts)
              (λ x. (unfold overwrite in refl, unfold overwrite in refl)) r h
              (unfold overwrite in refl) in
          rw (insert_or_update-present t group slug ts input r h, h)
            (elim (Bool-cases (is_deleted r)) [ inl e ↦ rw e done | inr e ↦ rw e done ])
