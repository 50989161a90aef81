-- ===== src/Archive/Prefix.antt =====
-- internal/archive/archive.go: the prefix that ExtractZip strips, and what is left of a name.
use gotifacts.Prelude.{
  ℕ, suc, ◌≡◌, ◌≢◌, refl, sym, ap, ◌∙◌, subst, false, ◌||◌, List, [], ◌∷◌, ◌++◌, arith, some,
  Bool-cases, inl, inr, ◌⊎◌, All, take, append_assoc, Option-cases, ◌==◌,
}
use gotifacts.Text.{Text, codes, text_eq, join, split, trim_prefix, has_prefix, index_byte}
use gotifacts.Text.Split.{Lacks, split-append, split-join, join-split, split-ne-nil}
use gotifacts.Text.Affix.{has_prefix→append, trim_prefix-append}
use gotifacts.Archive.{ZipEntry, clean_rel, single_root_prefix, root_from}
use gotifacts.Archive.Paths.{IsName, no_slashes, clean_rel-names}

-- Nothing, or one part and a slash.
abbrev pub IsPrefix : Text → Type 0
IsPrefix prefix = (prefix ≡ []) ⊎ ((root : Text) × Lacks b'/' root × (prefix ≡ root ++ b'/' ∷ []))

-- Nothing, or names.
abbrev pub IsRelative : Text → Type 0
IsRelative rel = (rel ≡ []) ⊎ ((ps : List Text) × (ps ≢ []) × All IsName ps × (rel ≡ join b'/' ps))

take_of_index : (c : Text) (i : ℕ) → index_byte c b'/' ≡ some i → Lacks b'/' (take i c)
unfolding index_byte
take_of_index [] i h = absurd (ground arith)
take_of_index (x ∷ c) i h = elim (Bool-cases (x == b'/')) [
  | inl e ↦ let first : 0 ≡ i = ground arith in subst (λ j. Lacks b'/' (take j (x ∷ c))) first tt
  | inr e ↦ elim (Option-cases (index_byte c b'/')) [
    | inl k ↦ absurd (ground arith)
    | inr (j, k) ↦
        let ih = take_of_index c j k in
        let last : suc j ≡ i = ground arith in
        subst (λ n. Lacks b'/' (take n (x ∷ c))) last (ground arith, ih)
  ]
]

root_from-Lacks :
    (files : List ZipEntry) (root r : Text)
    → Lacks b'/' root
    → root_from files root ≡ some r
    → Lacks b'/' r
unfolding root_from
root_from-Lacks [] root r l h = subst (Lacks b'/') (cc) l
root_from-Lacks (f ∷ fs) root r l h =
    elim (Bool-cases
      (f.is_dir || text_eq (clean_rel f.name) [] || text_eq (clean_rel f.name) (codes "."))) [
        | inl b ↦ root_from-Lacks fs root r l (rw b at h)
        | inr b ↦ elim (Option-cases (index_byte (clean_rel f.name) b'/')) [
          | inl k ↦ absurd (ground arith)
          | inr (i, k) ↦ elim (Bool-cases (text_eq root [])) [
            | inl e ↦
                root_from-Lacks fs (take i (clean_rel f.name)) r
                  (take_of_index (clean_rel f.name) i k) (rw (b, k, e) at h)
            | inr e ↦ elim (Bool-cases (text_eq root (take i (clean_rel f.name)))) [
              | inl t ↦ root_from-Lacks fs root r l (rw (b, k, e, t) at h)
              | inr t ↦ absurd (ground arith)
            ]
          ]
        ]
      ]

pub single_root_prefix-IsPrefix : (files : List ZipEntry) → IsPrefix (single_root_prefix files)
unfolding single_root_prefix
single_root_prefix-IsPrefix files = elim (Option-cases (root_from files [])) [
  | inl k ↦ rw (single_root_prefix, k) (inl refl)
  | inr (root, k) ↦ elim (Bool-cases (text_eq root [])) [
    | inl e ↦ rw (single_root_prefix, k, e) (inl refl)
    | inr e ↦ rw (single_root_prefix, k, e) (inr (root, root_from-Lacks files [] root tt k, refl))
  ]
]

join-IsRelative : (ps : List Text) → All IsName ps → IsRelative (join b'/' ps)
join-IsRelative [] h = inl (unfold join in refl)
join-IsRelative (p ∷ ps) h = inr (p ∷ ps, (λ k. absurd (cc)), h, refl)

join-nil_ne : (s r : Text) → join b'/' [] ≢ s ++ b'/' ∷ r
unfolding join
join-nil_ne [] r k = absurd (cc)
join-nil_ne (c ∷ s) r k = absurd (cc)

-- What is left of a path of names behind its first part.
rest_of_names :
    (ps : List Text) (root r : Text)
    → All IsName ps
    → Lacks b'/' root
    → join b'/' ps ≡ root ++ b'/' ∷ r
    → IsRelative r
rest_of_names [] root r h l e = absurd (join-nil_ne root r e)
rest_of_names (q ∷ qs) root r (n, h) l e =
    let parts : q ∷ qs ≡ root ∷ split b'/' r =
      sym (split-join b'/' (q ∷ qs) (λ k. absurd (cc)) (no_slashes (q ∷ qs) (n, h)))
      ∙ ap (split b'/') e
      ∙ split-append b'/' root r l in
    let rest : qs ≡ split b'/' r = cc in
    inr (split b'/' r, split-ne-nil b'/' r, subst (All IsName) rest h, sym (join-split b'/' r))

untrimmed : (s p : Text) → has_prefix s p ≡ false → trim_prefix s p ≡ s
unfolding trim_prefix
untrimmed s p h = rw h refl

pub trim_prefix-IsRelative :
    (name prefix : Text) → IsPrefix prefix → IsRelative (trim_prefix (clean_rel name) prefix)
trim_prefix-IsRelative name prefix (inl e) =
    let (ps, h, c) = clean_rel-names name in
    rw e (
      subst IsRelative (sym c ∙ sym (trim_prefix-append [] (clean_rel name)))
        (join-IsRelative ps h))
trim_prefix-IsRelative name prefix (inr (root, l, e)) =
    let (ps, h, c) = clean_rel-names name in
    elim (Bool-cases (has_prefix (clean_rel name) prefix)) [
      | inl b ↦
          let (r, k) = has_prefix→append (clean_rel name) prefix b in
          let left : trim_prefix (clean_rel name) prefix ≡ r =
            ap (λ s. trim_prefix s prefix) k ∙ trim_prefix-append prefix r in
          subst IsRelative (sym left) (
            rest_of_names ps root r h l
              (sym c ∙ k ∙ ap (λ s. s ++ r) e ∙ append_assoc root (b'/' ∷ []) r))
      | inr b ↦
          let left : trim_prefix (clean_rel name) prefix ≡ clean_rel name =
            untrimmed (clean_rel name) prefix b in
          subst IsRelative (sym c ∙ sym left) (join-IsRelative ps h)
    ]
