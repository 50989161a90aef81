-- ===== src/Store/Sites/Trash.antt =====
-- internal/store/sites.go: what sequences of operations do: the tables that the store reaches, and
-- the way of a site into the trash and out of it.
use gotifacts.Prelude.{
  ℕ, ◌≡◌, refl, ◌∙◌, sym, ap, Bool, true, false, not, [], Option, none, some, arith, if◌then◌else◌,
  Result, ok, err,
}
use gotifacts.Text.{Text}
use gotifacts.Store.Site.{StoreError, not_found, Site, is_deleted, is_some}
use gotifacts.Store.Site.Rows.{IsUnique, kept}
use gotifacts.Store.Sites.{Table, found, get_site}
use gotifacts.Store.Sites.Lifecycle.{Op, soft_delete, restore, Answer, run, step, view}
use gotifacts.Store.Sites.Refinement.{get_site-view, is_live}
use gotifacts.Store.Sites.Isolation.{run-Refines, run-IsUnique}

-- The tables that the operations lead to.
pub data Reachable : Table → Type 0 where
  empty : (id : ℕ) → Reachable (record { rows = []; next_id = id })
  after :
      (t : Table) (group slug : Text) (ts : ℕ) (op : Op)
      → Reachable t
      → Reachable (run t group slug ts op).0

-- A table that the operations lead to from the empty one has no two rows with the same key.
pub Reachable-IsUnique : (t : Table) → Reachable t → IsUnique t.rows
Reachable-IsUnique t (empty id) = tt
Reachable-IsUnique t (after t' group slug ts op h) =
    run-IsUnique t' group slug ts op (Reachable-IsUnique t' h)

-- What an operation does and answers, from the transition of the row.
run-step :
    (t : Table) (group slug : Text) (ts : ℕ) (op : Op) (r : Site) (o : Option Site) (a : Answer)
    → IsUnique t.rows
    → view t group slug ≡ some r
    → step t.next_id group slug ts op (some r) ≡ (o, a)
    → (view (run t group slug ts op).0 group slug ≡ o) × ((run t group slug ts op).1 ≡ a)
run-step t group slug ts op r o a u h e =
    let (x, y) = run-Refines t group slug ts op u in
    (
      x ∙ ap (λ z. (step t.next_id group slug ts op z).0) h ∙ ap (λ z. z.0) e,
      y ∙ ap (λ z. (step t.next_id group slug ts op z).1) h ∙ ap (λ z. z.1) e,
    )

get_site-seen :
    (t : Table) (group slug : Text) (o : Option Site)
    → IsUnique t.rows
    → view t group slug ≡ o
    → get_site t group slug ≡ found (kept is_live o)
get_site-seen t group slug o u h = get_site-view t group slug u ∙ ap (λ x. found (kept is_live x)) h

ok-injective : (x r : Site) → ◌≡◌ {A = Result StoreError Site} (ok x) (ok r) → x ≡ r
ok-injective x r h = cc

found-eq-ok :
    (o : Option Site) (r : Site)
    → found (kept is_live o) ≡ ok r
    → (o ≡ some r) × (r.deleted_at ≡ none)
found-eq-ok none r h = absurd (cc)
found-eq-ok (some x) r h = by_mark (is_deleted x) refl h
  where
    unmarked : (d : Option ℕ) → is_some d ≡ false → d ≡ none
    unmarked none e = refl
    unmarked (some d) e = absurd (ground arith)

    by_mark :
        (b : Bool)
        → is_deleted x ≡ b
        → found (if not b then some x else none) ≡ ok r
        → (some x ≡ some r) × (r.deleted_at ≡ none)
    by_mark true e k = absurd (ground arith)
    by_mark false e k =
        let same = ok-injective x r k in
        (ap some same, sym (ap (λ y. y.deleted_at) same) ∙ unmarked x.deleted_at e)

-- A live site that is deleted is no longer found, cannot be deleted again, and comes back with
-- RestoreSite as it was, but for the time of its last change.
pub restore-soft_delete :
    (t : Table) (group slug : Text) (r : Site) (ts ts' : ℕ)
    → IsUnique t.rows
    → get_site t group slug ≡ ok r
    → (get_site (run t group slug ts soft_delete).0 group slug ≡ err not_found)
      × ((run (run t group slug ts soft_delete).0 group slug ts' soft_delete).1 ≡ err not_found)
      × (get_site (run (run t group slug ts soft_delete).0 group slug ts' restore).0 group slug
          ≡ ok (record r { updated_at = ts' }))
restore-soft_delete t g s r ts ts' u h =
    let (seen, unmarked) = found-eq-ok (view t g s) r (sym (get_site-view t g s u) ∙ h) in
    let u' = run-IsUnique t g s ts soft_delete u in
    let trashed = record r { deleted_at = some ts } in
    let (gone, done) =
      run-step t g s ts soft_delete r (some trashed) (ok none) u seen
        (unfold step in rw unmarked refl) in
    let (still, refused) =
      run-step (run t g s ts soft_delete).0 g s ts' soft_delete trashed (some trashed)
        (err not_found) u' gone (unfold step in refl) in
    let back = record r { deleted_at = none; updated_at = ts' } in
    let (home, fine) =
      run-step (run t g s ts soft_delete).0 g s ts' restore trashed (some back) (ok none) u' gone
        (unfold step in refl) in
    (
      get_site-seen (run t g s ts soft_delete).0 g s (some trashed) u' gone,
      refused,
      get_site-seen (run (run t g s ts soft_delete).0 g s ts' restore).0 g s (some back)
            (run-IsUnique (run t g s ts soft_delete).0 g s ts' restore u') home
          ∙ ap (λ d. ok (record r { deleted_at = d; updated_at = ts' })) (sym unmarked),
    )
