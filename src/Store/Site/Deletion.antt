-- ===== src/Store/Site/Deletion.antt =====
-- internal/store/sites.go: what DELETE statements do to the row of a key.
use gotifacts.Prelude.{
  ◌≡◌, refl, sym, ◌∙◌, Bool, true, false, not, List, [], ◌∷◌, none, arith, Bool-cases, inl, inr,
  any,
}
use gotifacts.Text.{Text}
use gotifacts.Store.Site.{Site, is_row, find_row, delete_rows}
use gotifacts.Store.Site.{is_some}
use gotifacts.Store.Site.Rows.{row_at, IsUnique, at_key, same_key, kept}

delete-absent :
    (g s : Text) (p : Site → Bool) (rows : List Site)
    → row_at g s rows ≡ none
    → row_at g s (delete_rows p rows) ≡ none
unfolding find_row delete_rows
delete-absent g s p [] h = refl
delete-absent g s p (r ∷ rs) h = elim (Bool-cases (is_row g s r)) [
  | inl e ↦ absurd (ground arith)
  | inr e ↦ elim (Bool-cases (p r)) [
    | inl k ↦ rw k (delete-absent g s p rs (rw e at h))
    | inr k ↦ rw (k, e) (delete-absent g s p rs (rw e at h))
  ]
]

pub delete_rows-IsUnique :
    (p : Site → Bool) (rows : List Site) → IsUnique rows → IsUnique (delete_rows p rows)
unfolding delete_rows
delete_rows-IsUnique p [] u = tt
delete_rows-IsUnique p (r ∷ rs) (fresh, u) = elim (Bool-cases (p r)) [
  | inl k ↦ rw k (delete_rows-IsUnique p rs u)
  | inr k ↦ rw k (delete-absent r.group r.slug p rs fresh, delete_rows-IsUnique p rs u)
]

-- A deletion at a key removes its row where the condition holds.
pub row_at-delete_rows :
    (g s : Text) (q : Site → Bool) (rows : List Site)
    → IsUnique rows
    → row_at g s (delete_rows (at_key g s q) rows) ≡ kept (λ r. not (q r)) (row_at g s rows)
unfolding find_row delete_rows
row_at-delete_rows g s q [] u = refl
row_at-delete_rows g s q (r ∷ rs) (fresh, u) = elim (Bool-cases (is_row g s r)) [
  | inl e ↦ elim (Bool-cases (q r)) [
    | inl k ↦ rw (e, k) (delete-absent g s (at_key g s q) rs (sym (same_key g s r e rs) ∙ fresh))
    | inr k ↦ rw (e, k) (rw e refl)
  ]
  | inr e ↦ rw e (rw e (row_at-delete_rows g s q rs u))
]

-- It leaves the rows of other keys alone.
pub row_at-delete_rows_ne :
    (g s g' s' : Text) (q : Site → Bool) (rows : List Site)
    → ((r : Site) → is_row g' s' r ≡ true → is_row g s r ≡ false)
    → row_at g' s' (delete_rows (at_key g s q) rows) ≡ row_at g' s' rows
unfolding find_row delete_rows
row_at-delete_rows_ne g s g' s' q [] ne = refl
row_at-delete_rows_ne g s g' s' q (r ∷ rs) ne = elim (Bool-cases (is_row g' s' r)) [
  | inl e ↦ rw (ne r e, e) refl
  | inr e ↦ elim (Bool-cases (at_key g s q r)) [
    | inl k ↦ rw (k, e) (row_at-delete_rows_ne g s g' s' q rs ne)
    | inr k ↦ rw (k, e) (row_at-delete_rows_ne g s g' s' q rs ne)
  ]
]

-- A deletion of every row of a key leaves none.
pub row_at-delete_key :
    (g s : Text) (rows : List Site) → row_at g s (delete_rows (is_row g s) rows) ≡ none
unfolding find_row delete_rows
row_at-delete_key g s [] = refl
row_at-delete_key g s (r ∷ rs) = elim (Bool-cases (is_row g s r)) [
  | inl e ↦ rw e (row_at-delete_key g s rs)
  | inr e ↦ rw e (rw e (row_at-delete_key g s rs))
]

pub row_at-delete_key_ne :
    (g s g' s' : Text) (rows : List Site)
    → ((r : Site) → is_row g' s' r ≡ true → is_row g s r ≡ false)
    → row_at g' s' (delete_rows (is_row g s) rows) ≡ row_at g' s' rows
unfolding find_row delete_rows
row_at-delete_key_ne g s g' s' [] ne = refl
row_at-delete_key_ne g s g' s' (r ∷ rs) ne = elim (Bool-cases (is_row g' s' r)) [
  | inl e ↦ rw (ne r e, e) refl
  | inr e ↦ elim (Bool-cases (is_row g s r)) [
    | inl k ↦ rw (k, e) (row_at-delete_key_ne g s g' s' rs ne)
    | inr k ↦ rw (k, e) (row_at-delete_key_ne g s g' s' rs ne)
  ]
]

pub any-is_row : (g s : Text) (rows : List Site) → any (is_row g s) rows ≡ is_some (row_at g s rows)
unfolding find_row
any-is_row g s [] = refl
any-is_row g s (r ∷ rs) = elim (Bool-cases (is_row g s r)) [
  | inl e ↦ rw e refl
  | inr e ↦ rw e (any-is_row g s rs)
]
