-- ===== src/Prelude/Tables.antt =====
-- Tables as lists of rows, searched and cleared by a test.
use mathlib.Core.Path.{◌≡◌, refl, subst}
use mathlib.Core.Logic.{◌⊎◌, inl, inr}
use mathlib.Core.Bool.{Bool, true, false}
use mathlib.Core.Option.{Option, none, some}
use mathlib.Core.List.{List, [], ◌∷◌, ◌++◌}
use gotifacts.Prelude.Tests.{if◌then◌else◌, Bool-cases}
use gotifacts.Prelude.Lists.{any}

module _ {ℓ} {A : Type ℓ} where
  unfoldable pub find_first : (A → Bool) → List A → Option A
  find_first p [] = none
  find_first p (x ∷ xs) = if p x then some x else find_first p xs

  unfoldable pub remove_if : (A → Bool) → List A → List A
  remove_if p [] = []
  remove_if p (x ∷ xs) = let rest = remove_if p xs in if p x then rest else x ∷ rest

  -- What is removed is not found.
  pub find_first-remove_if :
      (p q : A → Bool)
      → ((x : A) → q x ≡ true → p x ≡ true)
      → (xs : List A) → find_first q (remove_if p xs) ≡ none
  unfolding find_first remove_if
  find_first-remove_if p q h [] = refl
  find_first-remove_if p q h (x ∷ xs) = elim (Bool-cases (p x)) [
    | inl e ↦ rw e (find_first-remove_if p q h xs)
    | inr e ↦ rw e (rw (not_found (Bool-cases (q x)) e) (find_first-remove_if p q h xs))
  ]
    where
      not_found : (q x ≡ true) ⊎ (q x ≡ false) → p x ≡ false → q x ≡ false
      not_found (inl k) e = absurd (cc (h x k))
      not_found (inr k) e = k

  -- What is not removed is still found.
  pub find_first-remove_other :
      (p q : A → Bool)
      → ((x : A) → q x ≡ true → p x ≡ false)
      → (xs : List A) → find_first q (remove_if p xs) ≡ find_first q xs
  unfolding find_first remove_if
  find_first-remove_other p q h [] = refl
  find_first-remove_other p q h (x ∷ xs) = elim (Bool-cases (q x)) [
    | inl e ↦ rw (h x e, e) refl
    | inr e ↦ elim (Bool-cases (p x)) [
      | inl k ↦ rw (k, e) (find_first-remove_other p q h xs)
      | inr k ↦ rw (k, e) (find_first-remove_other p q h xs)
    ]
  ]

  pub find_first-append :
      (q : A → Bool) (xs : List A) (y : A)
      → find_first q (xs ++ y ∷ [])
        ≡ elim (find_first q xs) [ none ↦ if q y then some y else none | some x ↦ some x ]
  unfolding find_first
  find_first-append q [] y = refl
  find_first-append q (x ∷ xs) y = elim (Bool-cases (q x)) [
    | inl e ↦ rw e refl
    | inr e ↦ rw e (find_first-append q xs y)
  ]

  -- What is found satisfies the test.
  pub find_first-eq-some :
      (q : A → Bool) (xs : List A) (y : A) → find_first q xs ≡ some y → q y ≡ true
  unfolding find_first
  find_first-eq-some q [] y h = absurd (cc)
  find_first-eq-some q (x ∷ xs) y h = elim (Bool-cases (q x)) [
    | inl e ↦ subst (λ z. q z ≡ true) (cc (rw e at h)) e
    | inr e ↦ find_first-eq-some q xs y (rw e at h)
  ]

  pub find_first-none : (q : A → Bool) (xs : List A) → any q xs ≡ false → find_first q xs ≡ none
  unfolding find_first
  find_first-none q [] h = refl
  find_first-none q (x ∷ xs) h = elim (Bool-cases (q x)) [
    | inl e ↦ absurd (cc (rw e at h))
    | inr e ↦ rw e (find_first-none q xs (rw e at h))
  ]
