-- ===== src/Text/Trim.antt =====
-- Trimming leaves alone a text that has nothing to trim.
use mathlib.Core.List.{reverse-append, reverse-reverse}
use mathlib.Core.Path.{ap₂}
use gotifacts.Prelude.{
  ℕ, ◌≡◌, ◌≢◌, ◌⊎◌, inl, inr, refl, sym, ap, ◌∙◌, Bool, Bool-cases, false, [], ◌∷◌, ◌++◌, reverse,
  append_assoc, append-nil, arith, All, All-reverse,
}
use gotifacts.Text.{Text, trim_left, trim_right, trim, trim_space, is_space}

module _ (p : ℕ → Bool) where
  abbrev pub Keeps : Text → Type 0
  Keeps = All (λ c. p c ≡ false)

  pub trim_left_of_Keeps : (s : Text) → Keeps s → trim_left p s ≡ s
  unfolding trim_left
  trim_left_of_Keeps [] h = refl
  trim_left_of_Keeps (c ∷ s) (e, h) = ground arith

  pub trim_of_Keeps : (s : Text) → Keeps s → trim p s ≡ s
  unfolding trim
  trim_of_Keeps s h =
      rw (trim_left_of_Keeps s h, trim_left_of_Keeps (reverse s) (All-reverse _ s h))
        (reverse-reverse s)

pub trim_space_of_Keeps : (s : Text) → Keeps is_space s → trim_space s ≡ s
unfolding trim_space
trim_space_of_Keeps s h = trim_of_Keeps is_space s h

-- A text that begins and ends with bytes that stay is left alone.
module _ (p : ℕ → Bool) where
  pub trim_left-append : (x y : Text) → x ≢ [] → Keeps p x → trim_left p (x ++ y) ≡ x ++ y
  unfolding trim_left
  trim_left-append [] y ne h = absurd (ne refl)
  trim_left-append (c ∷ x) y ne (e, h) = ground arith

  trim_right-append : (x y : Text) → y ≢ [] → Keeps p y → trim_right p (x ++ y) ≡ x ++ y
  unfolding trim_right
  trim_right-append x y ne h =
      rw
        (
          reverse-append,
          trim_left-append (reverse y) (reverse x)
              (λ e. ne (sym (reverse-reverse y) ∙ ap reverse e)) (All-reverse _ y h),
        )
        (reverse-append (reverse y) (reverse x)
          ∙ ap₂ (λ (a b : Text). a ++ b) (reverse-reverse x) (reverse-reverse y))

  pub trim_between :
      (first middle last : Text)
      → first ≢ []
      → Keeps p first
      → last ≢ []
      → Keeps p last
      → trim p (first ++ (middle ++ last)) ≡ first ++ (middle ++ last)
  unfolding trim
  trim_between first middle last ne h ne' h' =
      rw (trim_left-append first (middle ++ last) ne h, ← append_assoc first middle last)
        (trim_right-append (first ++ middle) last ne' h')

-- Trimming the end of a text whose first part stays leaves a beginning of the second part.
module _ (p : ℕ → Bool) where
  pub trim_right_of_Keeps : (s : Text) → Keeps p s → trim_right p s ≡ s
  unfolding trim_right
  trim_right_of_Keeps s h =
      ap reverse (trim_left_of_Keeps p (reverse s) (All-reverse _ s h)) ∙ reverse-reverse s

  trim_left-parts :
      (a b : Text)
      → (trim_left p (a ++ b) ≡ trim_left p b)
        ⊎ ((rest : Text) × (cut : Text) × (a ≡ cut ++ rest) × (trim_left p (a ++ b) ≡ rest ++ b))
  unfolding trim_left
  trim_left-parts [] b = inl refl
  trim_left-parts (c ∷ a) b = elim (Bool-cases (p c)) [
    | inr e ↦ inr (c ∷ a, [], refl, rw e refl)
    | inl e ↦ rw e (elim (trim_left-parts a b) [
      | inl h ↦ inl h
      | inr (rest, cut, k, h) ↦ inr (rest, c ∷ cut, ap (λ u. c ∷ u) k, h)
    ])
  ]

  pub trim_right-parts :
      (x y : Text)
      → trim_right p x ≡ x
      → (rest : Text) × (cut : Text) × (y ≡ rest ++ cut) × (trim_right p (x ++ y) ≡ x ++ rest)
  unfolding trim_right
  trim_right-parts x y kept =
      let whole = ap (λ u. reverse (trim_left p u)) (reverse-append x y) in
      elim (trim_left-parts (reverse y) (reverse x)) [
        | inl h ↦ ([], y, refl, whole ∙ ap reverse h ∙ kept ∙ sym (append-nil x))
        | inr (rest, cut, k, h) ↦ (
          reverse rest,
          reverse cut,
          sym (reverse-reverse y) ∙ ap reverse k ∙ reverse-append cut rest,
          whole
              ∙ ap reverse h
              ∙ reverse-append rest (reverse x)
              ∙ ap (λ u. u ++ reverse rest) (reverse-reverse x),
        )
      ]
