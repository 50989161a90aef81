-- ===== src/Mcp/Reading/Paging/Trimming.antt =====
-- internal/mcpserver/read.go: how much trimIncompleteRune and the start of a page cut off.
use gotifacts.Prelude.{
  ℕ, zero, suc, ◌≤◌, ◌<◌, ◌≡◌, refl, sym, true, false, not, [], ◌∷◌, arith, All, Bool-cases, inl,
  inr, ◌⊎◌, length, take, drop, get_or, leb,
}
use gotifacts.Text.{Text}
use gotifacts.Text.Utf8.{rune_start, full_rune, rune_size, trim_last}
use gotifacts.Mcp.Reading.Chunk.{skip_count}
use gotifacts.Mcp.Reading.Paging.Cutting.{take-length}

pub rune_size-le : (c : ℕ) → rune_size c ≤ 4
unfolding rune_size
rune_size-le c = ground arith

pub le→leb : (a b : ℕ) → a ≤ b → leb a b ≡ true
le→leb a b h = ground arith

pub full_rune_of_four : (b : Text) → 4 ≤ length b → full_rune b ≡ true
unfolding full_rune
full_rune_of_four [] h = absurd (omega arith)
full_rune_of_four (c ∷ s) h =
    rw (le→leb (rune_size c) (suc (length s)) (omega (arith, rune_size-le c))) refl

-- What is cut off is a part at the end.
pub trim_last-take : (n i : ℕ) (b : Text) → (k : ℕ) × (trim_last n i b ≡ take k b)
unfolding trim_last
trim_last-take zero i b = (length b, sym (take-length b))
trim_last-take (suc n) zero b = (length b, sym (take-length b))
trim_last-take (suc n) (suc i) b = elim (Bool-cases (rune_start (get_or b i 0))) [
  | inl s ↦ elim (Bool-cases (not (full_rune (drop i b)))) [
    | inl t ↦ (i, rw (s, t) refl)
    | inr t ↦ (length b, rw (s, t) (sym (take-length b)))
  ]
  | inr s ↦ let (k, e) = trim_last-take n i b in (k, rw s e)
]

-- A text that begins with a full rune is not cut to nothing.
pub trim_last-pos :
    (n i : ℕ) (b : Text) → 1 ≤ length b → full_rune b ≡ true → 1 ≤ length (trim_last n i b)
unfolding trim_last
trim_last-pos zero i b h f = h
trim_last-pos (suc n) zero b h f = h
trim_last-pos (suc n) (suc i) b h f = elim (Bool-cases (rune_start (get_or b i 0))) [
  | inl s ↦ elim (Bool-cases (not (full_rune (drop i b)))) [
    | inl t ↦ rw (s, t) (cut i b h f t)
    | inr t ↦ rw (s, t) h
  ]
  | inr s ↦ rw s (trim_last-pos n i b h f)
]
  where
    cut :
        (i : ℕ) (b : Text)
        → 1 ≤ length b
        → full_rune b ≡ true
        → not (full_rune (drop i b)) ≡ true
        → 1 ≤ length (take i b)
    cut zero b h f t = absurd (ground arith)
    cut (suc i) [] h f t = absurd (omega arith)
    cut (suc i) (c ∷ s) h f t = omega arith

pub skip_count-le : (n : ℕ) (s : Text) → skip_count n s ≤ n
unfolding skip_count
skip_count-le zero s = omega arith
skip_count-le (suc n) [] = omega arith
skip_count-le (suc n) (c ∷ s) = ground (arith, skip_count-le n s)

pub skip_count-le-length : (n : ℕ) (s : Text) → skip_count n s ≤ length s
unfolding skip_count
skip_count-le-length zero s = omega arith
skip_count-le-length (suc n) [] = omega arith
skip_count-le-length (suc n) (c ∷ s) = ground (arith, skip_count-le-length n s)

-- The bytes that are passed over continue a rune.
pub skip_count-continues :
    (n : ℕ) (s : Text) → All (λ c. rune_start c ≡ false) (take (skip_count n s) s)
unfolding skip_count
skip_count-continues zero s = tt
skip_count-continues (suc n) [] = tt
skip_count-continues (suc n) (c ∷ s) = elim (Bool-cases (rune_start c)) [
  | inl e ↦ rw e tt
  | inr e ↦ rw e (e, skip_count-continues n s)
]

pub Nat-cases : (n : ℕ) → (n ≡ 0) ⊎ (0 < n)
Nat-cases zero = inl refl
Nat-cases (suc n) = inr (omega arith)
