-- ===== src/Store/Site/Rows.antt =====
-- internal/store/sites.go: what the statements on rows do to the row of a key.
use mathlib.Core.Option
use mathlib.Core.Path.{ap₂}
use gotifacts.Prelude.{
  ◌≡◌, refl, sym, ap, ◌∙◌, subst, Bool, true, false, ◌&&◌, ◌||◌, List, [], ◌∷◌, ◌++◌, Option, none,
  some, arith, if◌then◌else◌, Bool-cases, inl, inr, any,
}
use gotifacts.Text.{Text, text_eq}
use gotifacts.Text.Equality.{text_eq_comm, text_eq→eq, text_eq_refl}
use gotifacts.Store.Site.{Site, is_row, find_row, update_rows}

-- The row of a key.
abbrev pub row_at : Text → Text → List Site → Option Site
row_at group slug rows = find_row (is_row group slug) rows

-- A change of a row that leaves its key alone.
abbrev pub KeepsKey : (Site → Site) → Type 0
KeepsKey f = (r : Site) → ((f r).group ≡ r.group) × ((f r).slug ≡ r.slug)

is_row_of_KeepsKey :
    (f : Site → Site) → KeepsKey f → (g s : Text) (r : Site) → is_row g s (f r) ≡ is_row g s r
unfolding is_row
is_row_of_KeepsKey f k g s r = rw ((k r).0, (k r).1) refl

-- What an update does to a row.
abbrev pub changed : (Site → Bool) → (Site → Site) → Site → Site
changed p f r = if p r then f r else r

changed-KeepsKey : (p : Site → Bool) (f : Site → Site) → KeepsKey f → KeepsKey (changed p f)
changed-KeepsKey p f k r = elim (Bool-cases (p r)) [
  | inl e ↦ rw e (k r)
  | inr e ↦ rw e (refl, refl)
]

-- An update changes the row of a key where it meets the condition.
pub row_at-update_rows :
    (p : Site → Bool) (f : Site → Site) (rows : List Site)
    → KeepsKey f
    → (g s : Text) → row_at g s (update_rows p f rows) ≡ Option.map (changed p f) (row_at g s rows)
unfolding find_row update_rows
row_at-update_rows p f [] k g s = refl
row_at-update_rows p f (r ∷ rs) k g s =
    let same = is_row_of_KeepsKey (changed p f) (changed-KeepsKey p f k) g s r in
    let ih = row_at-update_rows p f rs k g s in
    elim (Bool-cases (is_row g s r)) [ inl e ↦ rw (same, e) refl | inr e ↦ rw (same, e) ih ]

-- UNIQUE (group_path, slug)
abbrev pub IsUnique : List Site → Type 0
IsUnique [] = Unit
IsUnique (r ∷ rs) = (row_at r.group r.slug rs ≡ none) × IsUnique rs

is_row_self : (r : Site) → is_row r.group r.slug r ≡ true
unfolding is_row
is_row_self r = rw (text_eq_refl r.group, text_eq_refl r.slug) refl

pub is_row→key : (g s : Text) (r : Site) → is_row g s r ≡ true → (r.group ≡ g) × (r.slug ≡ s)
unfolding is_row
is_row→key g s r h = elim (Bool-cases (text_eq r.group g)) [
  | inl e ↦ (text_eq→eq r.group g e, text_eq→eq r.slug s (rw e at h))
  | inr e ↦ absurd (ground arith)
]

pub update_rows-IsUnique :
    (p : Site → Bool) (f : Site → Site) (rows : List Site)
    → KeepsKey f
    → IsUnique rows
    → IsUnique (update_rows p f rows)
unfolding update_rows
update_rows-IsUnique p f [] k u = tt
update_rows-IsUnique p f (r ∷ rs) k (fresh, u) =
    let (g, s) = changed-KeepsKey p f k r in
    (
      rw (g, s)
          (unfold update_rows in
            row_at-update_rows p f rs k r.group r.slug ∙ ap (Option.map (changed p f)) fresh),
      update_rows-IsUnique p f rs k u,
    )

-- A condition that holds only of rows of one key, where `q` holds of them.
abbrev pub at_key : Text → Text → (Site → Bool) → Site → Bool
at_key g s q r = is_row g s r && q r

pub same_key :
    (g s : Text) (r : Site)
    → is_row g s r ≡ true
    → (rs : List Site) → row_at r.group r.slug rs ≡ row_at g s rs
same_key g s r e rs = let (a, b) = is_row→key g s r e in ap₂ (λ (x y : Text). row_at x y rs) a b

-- Whether a statement at a key affects a row is seen at the row of the key.
abbrev pub holds : (Site → Bool) → Option Site → Bool
holds q none = false
holds q (some r) = q r

any-absent :
    (g s : Text) (q : Site → Bool) (rows : List Site)
    → row_at g s rows ≡ none
    → any (at_key g s q) rows ≡ false
unfolding find_row
any-absent g s q [] h = refl
any-absent g s q (r ∷ rs) h = elim (Bool-cases (is_row g s r)) [
  | inl e ↦ absurd (ground arith)
  | inr e ↦ rw e (any-absent g s q rs (rw e at h))
]

pub any-at_key :
    (g s : Text) (q : Site → Bool) (rows : List Site)
    → IsUnique rows
    → any (at_key g s q) rows ≡ holds q (row_at g s rows)
unfolding find_row
any-at_key g s q [] u = refl
any-at_key g s q (r ∷ rs) (fresh, u) = elim (Bool-cases (is_row g s r)) [
  | inl e ↦ rw (e, any-absent g s q rs (sym (same_key g s r e rs) ∙ fresh)) (or_false (q r))
  | inr e ↦ rw e (any-at_key g s q rs u)
]
  where
    or_false : (b : Bool) → (b || false) ≡ b
    or_false true = refl
    or_false false = refl

-- The row of a key, if `q` holds of it.
abbrev pub kept : (Site → Bool) → Option Site → Option Site
kept q none = none
kept q (some r) = if q r then some r else none

find-absent :
    (g s : Text) (q : Site → Bool) (rows : List Site)
    → row_at g s rows ≡ none
    → find_row (at_key g s q) rows ≡ none
unfolding find_row
find-absent g s q [] h = refl
find-absent g s q (r ∷ rs) h = elim (Bool-cases (is_row g s r)) [
  | inl e ↦ absurd (ground arith)
  | inr e ↦ rw e (find-absent g s q rs (rw e at h))
]

pub find_row-at_key :
    (g s : Text) (q : Site → Bool) (rows : List Site)
    → IsUnique rows
    → find_row (at_key g s q) rows ≡ kept q (row_at g s rows)
unfolding find_row
find_row-at_key g s q [] u = refl
find_row-at_key g s q (r ∷ rs) (fresh, u) = elim (Bool-cases (is_row g s r)) [
  | inl e ↦ rw (e, find-absent g s q rs (sym (same_key g s r e rs) ∙ fresh)) refl
  | inr e ↦ rw e (find_row-at_key g s q rs u)
]

-- The row of a key once a row is added at the end.
pub row_at-append :
    (g s : Text) (rows : List Site) (x : Site)
    → row_at g s (rows ++ x ∷ [])
      ≡ elim (row_at g s rows) [ none ↦ if is_row g s x then some x else none | some r ↦ some r ]
unfolding find_row
row_at-append g s [] x = refl
row_at-append g s (r ∷ rs) x = elim (Bool-cases (is_row g s r)) [
  | inl e ↦ ground arith
  | inr e ↦ ground (arith, row_at-append g s rs x)
]

is_row_comm : (r x : Site) → is_row r.group r.slug x ≡ is_row x.group x.slug r
unfolding is_row
is_row_comm r x = rw (text_eq_comm x.group r.group, text_eq_comm x.slug r.slug) refl

pub append-IsUnique :
    (rows : List Site) (x : Site)
    → IsUnique rows
    → row_at x.group x.slug rows ≡ none
    → IsUnique (rows ++ x ∷ [])
unfolding find_row
append-IsUnique [] x u absent = (refl, tt)
append-IsUnique (r ∷ rs) x (fresh, u) absent = elim (Bool-cases (is_row x.group x.slug r)) [
  | inl e ↦ absurd (ground arith)
  | inr e ↦ (
    row_at-append r.group r.slug rs x ∙ rw (fresh, is_row_comm r x, e) refl,
    append-IsUnique rs x u (rw e at absent),
  )
]

pub row_at→is_row :
    (g s : Text) (rows : List Site) (r : Site) → row_at g s rows ≡ some r → is_row g s r ≡ true
unfolding find_row
row_at→is_row g s [] r h = absurd (cc)
row_at→is_row g s (x ∷ rs) r h = elim (Bool-cases (is_row g s x)) [
  | inl e ↦ subst (λ (y : Site). is_row g s y ≡ true) (ground arith) e
  | inr e ↦ row_at→is_row g s rs r (rw e at h)
]

-- What an update at a key does to its row.
abbrev pub on_row : (Site → Bool) → (Site → Site) → Option Site → Option Site
on_row q f none = none
on_row q f (some r) = some (if q r then f r else r)

on_row_of_changed :
    (g s : Text) (q : Site → Bool) (f : Site → Site) (o : Option Site)
    → ((r : Site) → o ≡ some r → is_row g s r ≡ true)
    → Option.map (changed (at_key g s q) f) o ≡ on_row q f o
on_row_of_changed g s q f none h = refl
on_row_of_changed g s q f (some r) h = rw (h r refl) refl

pub row_at-update_at_key :
    (g s : Text) (q : Site → Bool) (f : Site → Site) (rows : List Site)
    → KeepsKey f
    → row_at g s (update_rows (at_key g s q) f rows) ≡ on_row q f (row_at g s rows)
row_at-update_at_key g s q f rows k =
    row_at-update_rows (at_key g s q) f rows k g s
    ∙ on_row_of_changed g s q f (row_at g s rows) (row_at→is_row g s rows)

map_of_changed :
    (g s : Text) (f : Site → Site) (o : Option Site)
    → ((r : Site) → o ≡ some r → is_row g s r ≡ true)
    → Option.map (changed (is_row g s) f) o ≡ Option.map f o
map_of_changed g s f none h = refl
map_of_changed g s f (some r) h = rw (h r refl) refl

pub row_at-update_key :
    (g s : Text) (f : Site → Site) (rows : List Site)
    → KeepsKey f
    → row_at g s (update_rows (is_row g s) f rows) ≡ Option.map f (row_at g s rows)
row_at-update_key g s f rows k =
    row_at-update_rows (is_row g s) f rows k g s
    ∙ map_of_changed g s f (row_at g s rows) (row_at→is_row g s rows)

-- Two keys that differ have no row in common.
abbrev pub IsOtherKey : Text → Text → Text → Text → Type 0
IsOtherKey g s g' s' = (r : Site) → is_row g' s' r ≡ true → is_row g s r ≡ false

map_of_other :
    (p : Site → Bool) (f : Site → Site) (o : Option Site)
    → ((r : Site) → o ≡ some r → p r ≡ false)
    → Option.map (changed p f) o ≡ o
map_of_other p f none h = refl
map_of_other p f (some r) h = rw (h r refl) refl

-- An update at one key leaves the rows of other keys alone.
pub row_at-update_other :
    (p : Site → Bool) (f : Site → Site) (rows : List Site) (g' s' : Text)
    → KeepsKey f
    → ((r : Site) → is_row g' s' r ≡ true → p r ≡ false)
    → row_at g' s' (update_rows p f rows) ≡ row_at g' s' rows
row_at-update_other p f rows g' s' k ne =
    row_at-update_rows p f rows k g' s'
    ∙ map_of_other p f (row_at g' s' rows) (λ r e. ne r (row_at→is_row g' s' rows r e))
