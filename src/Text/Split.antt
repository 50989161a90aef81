-- ===== src/Text/Split.antt =====
-- Splitting and joining undo one another.
use gotifacts.Prelude.{
  ℕ, ◌≡◌, ◌≢◌, refl, subst, List, [], ◌∷◌, ◌++◌, append-nil, append_assoc, arith, ◌==◌,
  if◌then◌else◌, All, inl, inr, Bool-cases,
}
use gotifacts.Text.{Text, extend_head, split, joined, join}

abbrev pub Lacks : ℕ → Text → Type 0
Lacks b = All (λ c. c ≢ b)

module _ (sep : ℕ) where
  -- A split has a first part.
  pub split-head : (s : Text) → (p : Text) × (ps : List Text) × (split sep s ≡ p ∷ ps)
  unfolding split
  split-head [] = ([], [], refl)
  split-head (c ∷ s) =
      let (p, ps, e) = split-head s in
      elim (Bool-cases (c == sep)) [
        | inl t ↦ ([], p ∷ ps, ground arith)
        | inr f ↦ (c ∷ p, ps, ground arith)
      ]

  pub split-ne-nil : (s : Text) → split sep s ≢ []
  split-ne-nil s h = let (p, ps, e) = split-head s in cc

  pub join-split : (s : Text) → join sep (split sep s) ≡ s
  unfolding split join
  join-split [] = refl
  join-split (c ∷ s) = let (p, ps, e) = split-head s in let ih = join-split s in ground arith

  All-step :
      (c : ℕ) (p : Text) (ps : List Text)
      → All (Lacks sep) (p ∷ ps)
      → All (Lacks sep) (if c == sep then [] ∷ p ∷ ps else (c ∷ p) ∷ ps)
  All-step c p ps h = ground arith

  pub All-split : (s : Text) → All (Lacks sep) (split sep s)
  unfolding split
  All-split [] = (tt, tt)
  All-split (c ∷ s) =
      let (p, ps, e) = split-head s in
      let ih = All-split s in let step = All-step c p ps (subst (All (Lacks sep)) e ih) in rw e step

  pub split-append : (p s : Text) → Lacks sep p → split sep (p ++ sep ∷ s) ≡ p ∷ split sep s
  unfolding split
  split-append [] s h = ground arith
  split-append (c ∷ p) s (ne, h) = ground (arith, split-append p s h)

  pub split_of_Lacks : (p : Text) → Lacks sep p → split sep p ≡ p ∷ []
  unfolding split
  split_of_Lacks [] h = refl
  split_of_Lacks (c ∷ p) (ne, h) = ground (arith, split_of_Lacks p h)

  pub split-joined :
      (p : Text) (ps : List Text)
      → All (Lacks sep) (p ∷ ps)
      → split sep (p ++ joined sep ps) ≡ p ∷ ps
  unfolding joined
  split-joined p [] (h, _) = rw append-nil (split_of_Lacks p h)
  split-joined p (q ∷ ps) (h, hs) = rw (split-append p _ h, split-joined q ps hs)

  pub split-join : (ps : List Text) → ps ≢ [] → All (Lacks sep) ps → split sep (join sep ps) ≡ ps
  unfolding join
  split-join [] ne h = absurd (ne refl)
  split-join (p ∷ ps) ne h = split-joined p ps h

  pub joined-append : (ps qs : List Text) → joined sep (ps ++ qs) ≡ joined sep ps ++ joined sep qs
  unfolding joined
  joined-append [] qs = refl
  joined-append (p ∷ ps) qs = simp (joined-append ps qs, append_assoc)

  extend_head-append :
      (c : ℕ) (ps qs : List Text) → ps ≢ [] → extend_head c (ps ++ qs) ≡ extend_head c ps ++ qs
  extend_head-append c [] qs h = absurd (h refl)
  extend_head-append c (p ∷ ps) qs h = refl

  -- A split at a separator splits both sides.
  pub split-append-any : (s t : Text) → split sep (s ++ sep ∷ t) ≡ split sep s ++ split sep t
  unfolding split
  split-append-any [] t = ground arith
  split-append-any (c ∷ s) t = ground (
    arith,
    split-append-any s t,
    extend_head-append c (split sep s) (split sep t) (split-ne-nil s),
  )
