-- ===== src/Text/Bytes.antt =====
-- What holds of the bytes of a text holds of its parts, and of the texts built from it.
use mathlib.Core.List.{reverse-append, reverse-reverse}
use gotifacts.Prelude.{
  ℕ, ◌≡◌, ◌≢◌, refl, sym, ap, ◌∙◌, true, false, Bool, none, List, [], ◌∷◌, ◌++◌, reverse, arith,
  All, All-append, ◌==◌, if◌then◌else◌, subst,
}
use gotifacts.Text.{Text, last_index_byte, split, joined, join, has_prefix, has_suffix}
use gotifacts.Text.Split.{Lacks, split-head}

pub last_index_byte_of_Lacks : (b : ℕ) (s : Text) → Lacks b s → last_index_byte s b ≡ none
unfolding last_index_byte
last_index_byte_of_Lacks b [] h = refl
last_index_byte_of_Lacks b (c ∷ s) (ne, h) = ground (arith, last_index_byte_of_Lacks b s h)

module _ {κ} (P : ℕ → Type κ) (sep : ℕ) where
  pub All-joined : (ps : List Text) → P sep → All (All P) ps → All P (joined sep ps)
  unfolding joined
  All-joined [] p h = tt
  All-joined (q ∷ ps) p (k, h) = (p, All-append P q _ k (All-joined ps p h))

  pub All-join : (ps : List Text) → P sep → All (All P) ps → All P (join sep ps)
  unfolding join
  All-join [] p h = tt
  All-join (q ∷ ps) p (k, h) = All-append P q _ k (All-joined ps p h)

  parts-step :
      (c : ℕ) (b : Bool) (p : Text) (ps : List Text)
      → P c
      → All (All P) (p ∷ ps)
      → All (All P) (if b then [] ∷ p ∷ ps else (c ∷ p) ∷ ps)
  parts-step c true p ps k h = (tt, h)
  parts-step c false p ps k (hp, h) = ((k, hp), h)

  pub All-split_parts : (s : Text) → All P s → All (All P) (split sep s)
  unfolding split
  All-split_parts [] h = (tt, tt)
  All-split_parts (c ∷ s) (k, h) =
      let (p, ps, e) = split-head sep s in
      rw e (parts-step c (c == sep) p ps k (subst (All (All P)) e (All-split_parts s h)))

has_prefix_first :
    (d : ℕ) (r y : Text) → r ≢ [] → has_prefix (r ++ y) (d ∷ []) ≡ has_prefix r (d ∷ [])
unfolding has_prefix
has_prefix_first d [] y h = absurd (h refl)
has_prefix_first d (c ∷ r) y h = refl

reverse-ne-nil : (s : Text) → s ≢ [] → reverse s ≢ []
reverse-ne-nil s h e = h (sym (reverse-reverse s) ∙ ap reverse e)

-- The last byte of a text is that of its nonempty end.
pub has_suffix_last :
    (d : ℕ) (x y : Text) → y ≢ [] → has_suffix (x ++ y) (d ∷ []) ≡ has_suffix y (d ∷ [])
unfolding has_suffix
has_suffix_last d x y h =
    rw reverse-append (has_prefix_first d (reverse y) (reverse x) (reverse-ne-nil y h))
