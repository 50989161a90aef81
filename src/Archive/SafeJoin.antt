-- ===== src/Archive/SafeJoin.antt =====
-- internal/archive/archive.go: what safeJoin accepts, and where the paths that it gives lead.
use gotifacts.Prelude.{
  ℕ, ◌≡◌, ◌≢◌, refl, sym, ap, ◌∙◌, subst, Bool, true, false, not, ◌&&◌, ◌||◌, List, [], ◌∷◌, ◌++◌,
  if◌then◌else◌, Bool-cases, inl, inr, ◌⊎◌, All, append_assoc, Result, ok, err, fail_if, ◌>>◌,
}
use gotifacts.Text.{Text, codes, text_eq, has_prefix, split, join, joined, contains_text}
use gotifacts.Text.Equality.{text_eq_of_ne}
use gotifacts.Text.Affix.{has_prefix-append}
use gotifacts.Text.Split.{split-join}
use gotifacts.Archive.{join_path, clean_rel, safe_join, confine, slashed, ArchiveError, unsafe_path}
use gotifacts.Archive.Paths.{IsName, IsDestination, no_slashes, clean_rel-names, join_path-names}

-- The destination, or a path that leads from it through names only.
abbrev pub IsWithin : Text → Text → Type 0
IsWithin dest path =
    (path ≡ dest)
    ⊎ ((ps : List Text) × (ps ≢ []) × All IsName ps × (path ≡ dest ++ b'/' ∷ join b'/' ps))

confine-within : (dest rel : Text) → confine dest (dest ++ b'/' ∷ rel) ≡ ok (dest ++ b'/' ∷ rel)
unfolding confine
confine-within dest rel =
    let inside : has_prefix (dest ++ b'/' ∷ rel) (dest ++ b'/' ∷ []) ≡ true =
      subst (λ x. has_prefix x (dest ++ b'/' ∷ []) ≡ true) (append_assoc dest (b'/' ∷ []) rel)
        (has_prefix-append (dest ++ b'/' ∷ []) rel) in
    rw inside (passes (not (text_eq (dest ++ b'/' ∷ rel) dest)))
  where
    passes :
        (b : Bool)
        → (if b && false then err unsafe_path else ok (dest ++ b'/' ∷ rel))
          ≡ ok (dest ++ b'/' ∷ rel)
    passes true = refl
    passes false = refl

-- An absolute name, or one with a part `..`.
abbrev pub is_unsafe : Text → Bool
is_unsafe name =
    (has_prefix name (codes "/") || has_prefix (slashed name) (codes "/"))
    || contains_text (split b'/' (slashed name)) (codes "..")

-- The path below a directory that a cleaned name stands for.
abbrev pub below : Text → Text → Text
below dest [] = dest
below dest (c ∷ rel) = dest ++ b'/' ∷ c ∷ rel

join_of_IsName :
    (p : Text) (ps : List Text) → IsName p → (c : ℕ) × (s : Text) × (join b'/' (p ∷ ps) ≡ c ∷ s)
unfolding join joined
join_of_IsName [] ps n = absurd (n.nonempty refl)
join_of_IsName (c ∷ p) ps n = (c, p ++ joined b'/' ps, refl)

-- No path of names is a dot.
pub join_ne_dot : (ps : List Text) → All IsName ps → text_eq (join b'/' ps) (codes ".") ≡ false
unfolding join split
join_ne_dot [] h = unfold text_eq in refl
join_ne_dot (p ∷ ps) (n, h) = text_eq_of_ne (join b'/' (p ∷ ps)) (codes ".") dotted
  where
    dotted : join b'/' (p ∷ ps) ≢ codes "."
    dotted e =
        let parts : codes "." ∷ [] ≡ p ∷ ps =
          sym (ap (split b'/') e)
          ∙ split-join b'/' (p ∷ ps) (λ k. absurd (cc)) (no_slashes (p ∷ ps) (n, h)) in
        n.not_dot (sym (cc parts))

-- What safeJoin makes of the name once it is cleaned.
safe_tail :
    (dest : Text) (ps : List Text)
    → IsDestination dest
    → All IsName ps
    → (if text_eq (join b'/' ps) [] || text_eq (join b'/' ps) (codes ".")
        then ok dest
        else confine dest (join_path dest (join b'/' ps)))
      ≡ ok (below dest (join b'/' ps))
safe_tail dest [] d h = unfold join text_eq in refl
safe_tail dest (p ∷ ps) d (n, h) =
    let (c, s, e) = join_of_IsName p ps n in
    let some_byte : text_eq (join b'/' (p ∷ ps)) [] ≡ false = rw e (unfold text_eq in refl) in
    rw
      (
        some_byte,
        join_ne_dot (p ∷ ps) (n, h),
        join_path-names dest (p ∷ ps) d (n, h) (λ k. absurd (cc)),
      )
      (confine-within dest (join b'/' (p ∷ ps)) ∙ rw e refl)

-- safeJoin refuses the absolute names and those with a part `..`, and no others: its last test
-- always passes. Any other name leads to the cleaned name below the destination.
pub safe_join_lem :
    (dest name : Text)
    → IsDestination dest
    → safe_join dest name
      ≡ (if is_unsafe name then err unsafe_path else ok (below dest (clean_rel name)))
unfolding safe_join
safe_join_lem dest name d =
    let (ps, h, e) = clean_rel-names name in
    by_tests (has_prefix name (codes "/") || has_prefix (slashed name) (codes "/"))
      (contains_text (split b'/' (slashed name)) (codes ".."))
      (subst
        (λ rel.
          (if text_eq rel [] || text_eq rel (codes ".")
            then ok dest
            else confine dest (join_path dest rel))
          ≡ ok (below dest rel))
        (sym e) (safe_tail dest ps d h))
  where
    by_tests :
        (a b : Bool) {r s : Result ArchiveError Text}
        → r ≡ s
        → (fail_if a unsafe_path >> (fail_if b unsafe_path >> r))
          ≡ (if a || b then err unsafe_path else s)
    by_tests true b e = refl
    by_tests false true e = refl
    by_tests false false e = e

below-IsWithin :
    (dest : Text) (ps : List Text) → All IsName ps → IsWithin dest (below dest (join b'/' ps))
below-IsWithin dest [] h = inl (unfold join in refl)
below-IsWithin dest (p ∷ ps) (n, h) =
    let (c, s, e) = join_of_IsName p ps n in inr (p ∷ ps, (λ k. absurd (cc)), (n, h), rw e refl)

-- A path that safeJoin gives lies within the destination.
pub safe_join→IsWithin :
    (dest name target : Text)
    → IsDestination dest
    → safe_join dest name ≡ ok target
    → IsWithin dest target
safe_join→IsWithin dest name target d h = elim (Bool-cases (is_unsafe name)) [
  | inl b ↦ absurd (refused (sym (safe_join_lem dest name d ∙ rw b refl) ∙ h))
  | inr b ↦
      let (ps, n, e) = clean_rel-names name in
      let same : below dest (clean_rel name) ≡ target =
        given (sym (safe_join_lem dest name d ∙ rw b refl) ∙ h) in
      subst (IsWithin dest) same
        (subst (λ rel. IsWithin dest (below dest rel)) (sym e) (below-IsWithin dest ps n))
]
  where
    refused : ◌≡◌ {A = Result ArchiveError Text} (err unsafe_path) (ok target) → ⊥
    refused k = absurd (cc)

    given : {x : Text} → ◌≡◌ {A = Result ArchiveError Text} (ok x) (ok target) → x ≡ target
    given k = cc
