-- ===== src/Text/Affix.antt =====
-- Prefixes and suffixes: the tests decide the decompositions, and trimming takes them off.
use mathlib.Core.List.{reverse-append, reverse-reverse}
use gotifacts.Prelude.{
  ◌-◌, ◌≡◌, refl, sym, ap, ◌∙◌, true, [], ◌∷◌, ◌++◌, reverse, arith, length, take, drop,
  length-append,
}
use gotifacts.Text.{Text, has_prefix, has_suffix, trim_prefix, trim_suffix}

pub has_prefix-append : (p r : Text) → has_prefix (p ++ r) p ≡ true
unfolding has_prefix
has_prefix-append [] r = refl
has_prefix-append (c ∷ p) r = ground (arith, has_prefix-append p r)

pub has_prefix→append : (s p : Text) → has_prefix s p ≡ true → (r : Text) × (s ≡ p ++ r)
unfolding has_prefix
has_prefix→append s [] h = (s, refl)
has_prefix→append [] (d ∷ p) h = absurd (cc)
has_prefix→append (c ∷ s) (d ∷ p) h =
    let (r, e) = has_prefix→append s p (ground arith) in (r, ground arith)

pub drop-append : (p r : Text) → drop (length p) (p ++ r) ≡ r
drop-append [] r = refl
drop-append (c ∷ p) r = drop-append p r

pub take-append : (p r : Text) → take (length p) (p ++ r) ≡ p
take-append [] r = refl
take-append (c ∷ p) r = ap (λ s. c ∷ s) (take-append p r)

pub trim_prefix-append : (p r : Text) → trim_prefix (p ++ r) p ≡ r
unfolding trim_prefix
trim_prefix-append p r = rw has_prefix-append (drop-append p r)

pub has_suffix-append : (r t : Text) → has_suffix (r ++ t) t ≡ true
unfolding has_suffix
has_suffix-append r t = rw reverse-append (has_prefix-append (reverse t) (reverse r))

pub has_suffix→append : (s t : Text) → has_suffix s t ≡ true → (r : Text) × (s ≡ r ++ t)
unfolding has_suffix
has_suffix→append s t h =
    let (r, e) = has_prefix→append (reverse s) (reverse t) h in
    (
      reverse r,
      sym (reverse-reverse s)
          ∙ ap reverse e
          ∙ reverse-append (reverse t) r
          ∙ ap (λ u. reverse r ++ u) (reverse-reverse t),
    )

pub trim_suffix-append : (r t : Text) → trim_suffix (r ++ t) t ≡ r
unfolding trim_suffix
trim_suffix-append r t =
    let e : length (r ++ t) - length t ≡ length r = omega (arith, length-append r t) in
    rw (has_suffix-append, e) (take-append r t)
