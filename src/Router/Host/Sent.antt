-- ===== src/Router/Host/Sent.antt =====
-- internal/router/sitepath.go: what `normalizeHost` takes off a host as a client sends it.
use mathlib.Core.List.{reverse-append, reverse-reverse}
use gotifacts.Prelude.{
  ℕ, ◌≤◌, ◌≡◌, refl, sym, ap, ◌∙◌, subst, Bool, true, false, [], ◌∷◌, ◌++◌, reverse, some, arith,
  All, All-append, All-reverse, append_assoc, append-nil, length, take-append, drop-append, inl,
  inr, ◌⊎◌, ◌==◌,
}
use gotifacts.Text.{
  Text, codes, is_space, lower_byte, to_lower, trim_suffix, trim_left, trim_right, trim, trim_space,
  last_index_byte, contains, has_prefix,
}
use gotifacts.Text.Affix.{trim_suffix-append}
use gotifacts.Text.Equality.{to_lower-append}
use gotifacts.Text.Bytes.{last_index_byte_of_Lacks}
use gotifacts.Text.Split.{Lacks}
use gotifacts.Text.Trim.{Keeps, trim_left_of_Keeps}
use gotifacts.Router.Host.{strip_port, normalize_host, host_labels, parse_host}
use gotifacts.Router.Host.Normal.{
  IsPlainHost, strip_port_of_Lacks, trim_suffix_of_false, normalize_host_of_IsPlainHost,
}

abbrev pub IsDigit : ℕ → Type 0
IsDigit c = (b'0' ≤ c) × (c ≤ b'9')

-- A host that a client sends for `h`: in whatever case, with or without an end dot and a port, and
-- with white space around it.
pub record IsSent (sent h : Text) : Type 0 where
  pub before : Text
  pub name : Text
  pub dot : Text
  pub port : Text
  pub after : Text
  pub spelled : sent ≡ before ++ ((name ++ (dot ++ port)) ++ after)
  pub blank_before : All (λ c. is_space c ≡ true) before
  pub blank_after : All (λ c. is_space c ≡ true) after
  pub lowered : to_lower name ≡ h
  pub end_dot : (dot ≡ []) ⊎ (dot ≡ codes ".")
  pub numbered : (port ≡ []) ⊎ ((digits : Text) × (port ≡ b':' ∷ digits) × All IsDigit digits)

module _ (p : ℕ → Bool) where
  trim_left-blank : (x y : Text) → All (λ c. p c ≡ true) x → trim_left p (x ++ y) ≡ trim_left p y
  unfolding trim_left
  trim_left-blank [] y h = refl
  trim_left-blank (c ∷ x) y (e, h) = rw e (trim_left-blank x y h)

  trim_right-blank : (x y : Text) → Keeps p x → All (λ c. p c ≡ true) y → trim_right p (x ++ y) ≡ x
  unfolding trim_right
  trim_right-blank x y k h =
      ap (λ u. reverse (trim_left p u)) (reverse-append x y)
      ∙ ap reverse (trim_left-blank (reverse y) (reverse x) (All-reverse _ y h))
      ∙ ap reverse (trim_left_of_Keeps p (reverse x) (All-reverse _ x k))
      ∙ reverse-reverse x

  trim-blank :
      (x y z : Text)
      → All (λ c. p c ≡ true) x
      → Keeps p y
      → All (λ c. p c ≡ true) z
      → trim p (x ++ (y ++ z)) ≡ y
  unfolding trim trim_right trim_left
  trim-blank x [] z h k h' =
      ap (trim_right p)
        (trim_left-blank x z h ∙ ap (trim_left p) (sym (append-nil z)) ∙ trim_left-blank z [] h')
  trim-blank x (c ∷ y) z h (e, k) h' =
      ap (trim_right p) {y = (c ∷ y) ++ z} (trim_left-blank x ((c ∷ y) ++ z) h ∙ rw e refl)
      ∙ trim_right-blank (c ∷ y) z (e, k) h'

last_index_byte-append :
    (x y : Text) (b : ℕ) → Lacks b y → last_index_byte (x ++ b ∷ y) b ≡ some (length x)
unfolding last_index_byte
last_index_byte-append [] y b h = rw (last_index_byte_of_Lacks b y h) (ground arith)
last_index_byte-append (c ∷ x) y b h = rw (last_index_byte-append x y b h) refl

digits-Lacks_colon : (ds : Text) → All IsDigit ds → Lacks b':' ds
digits-Lacks_colon [] h = tt
digits-Lacks_colon (d ∷ ds) (e, h) = (ground arith, digits-Lacks_colon ds h)

digits-no_bracket : (ds : Text) → All IsDigit ds → contains ds (codes "]") ≡ false
unfolding contains has_prefix
digits-no_bracket [] h = refl
digits-no_bracket (d ∷ ds) (e, h) =
    let other : (d == b']') ≡ false = ground arith in rw (other, digits-no_bracket ds h) refl

-- A port is cut off.
strip_port-port : (x ds : Text) → All IsDigit ds → strip_port (x ++ b':' ∷ ds) ≡ x
unfolding strip_port contains has_prefix
strip_port-port x ds h =
    rw
      (
        strip_port,
        last_index_byte-append x ds b':' (digits-Lacks_colon ds h),
        drop-append x (b':' ∷ ds),
        digits-no_bracket ds h,
      )
      (take-append x (b':' ∷ ds))

digits-IsLower : (ds : Text) → All IsDigit ds → to_lower ds ≡ ds
unfolding to_lower lower_byte
digits-IsLower [] h = refl
digits-IsLower (d ∷ ds) (e, h) =
    let same : lower_byte d ≡ d = ground arith in rw (same, digits-IsLower ds h) refl

digits-Keeps_space : (ds : Text) → All IsDigit ds → Keeps is_space ds
unfolding is_space
digits-Keeps_space [] h = tt
digits-Keeps_space (d ∷ ds) (e, h) = (ground arith, digits-Keeps_space ds h)

-- Case has no part in what is white space.
lowered-Keeps_space : (x : Text) → Keeps is_space (to_lower x) → Keeps is_space x
unfolding to_lower lower_byte is_space
lowered-Keeps_space [] h = tt
lowered-Keeps_space (c ∷ x) (e, h) = (ground arith, lowered-Keeps_space x h)

module _ {sent h : Text} (p : IsPlainHost h) (s : IsSent sent h) where
  dot_facts :
      (to_lower s.dot ≡ s.dot)
      × Keeps is_space s.dot
      × Lacks b':' s.dot
      × (trim_suffix (h ++ s.dot) (codes ".") ≡ h)
  unfolding to_lower lower_byte is_space
  dot_facts = elim s.end_dot [
    | inl e ↦ rw (e, append-nil h) (refl, tt, tt, trim_suffix_of_false h (codes ".") p.no_end_dot)
    | inr e ↦ rw e (refl, (refl, tt), omega arith, trim_suffix-append h (codes "."))
  ]

  port_facts :
      (to_lower s.port ≡ s.port)
      × Keeps is_space s.port
      × (strip_port ((h ++ s.dot) ++ s.port) ≡ h ++ s.dot)
  unfolding to_lower lower_byte is_space
  port_facts = elim s.numbered [
    | inl e ↦
        let (_, _, lacks, _) = dot_facts in
        rw (e, append-nil (h ++ s.dot))
          (refl, tt, strip_port_of_Lacks _ (All-append _ h s.dot p.no_colon lacks))
    | inr (ds, e, k) ↦ rw e (
      ap (λ u. b':' ∷ u) (digits-IsLower ds k),
      (refl, digits-Keeps_space ds k),
      strip_port-port (h ++ s.dot) ds k,
    )
  ]

  -- What is around the plain host is taken off.
  pub normalize_host_of_IsSent : normalize_host sent ≡ h
  unfolding normalize_host trim_space
  normalize_host_of_IsSent =
      let (dot_low, dot_keep, _, cut) = dot_facts in
      let (port_low, port_keep, strip) = port_facts in
      let core = s.name ++ (s.dot ++ s.port) in
      let name_keep : Keeps is_space s.name =
        lowered-Keeps_space s.name (subst (Keeps is_space) (sym s.lowered) p.no_space) in
      let keep : Keeps is_space core =
        All-append _ s.name _ name_keep (All-append _ s.dot s.port dot_keep port_keep) in
      let trimmed : trim_space sent ≡ core =
        ap trim_space s.spelled
        ∙ trim-blank is_space s.before core s.after s.blank_before keep s.blank_after in
      let low : to_lower core ≡ (h ++ s.dot) ++ s.port =
        to_lower-append s.name (s.dot ++ s.port)
        ∙ rw (s.lowered, to_lower-append s.dot s.port, dot_low, port_low)
            (sym (append_assoc h s.dot s.port)) in
      rw (trimmed, low, strip) cut

-- ParseHost sees of a host only what `normalizeHost` makes of it.
pub parse_host_of_IsSent :
    (sent h base : Text) → IsPlainHost h → IsSent sent h → parse_host sent base ≡ parse_host h base
unfolding parse_host host_labels
parse_host_of_IsSent sent h base p s =
    rw (normalize_host_of_IsSent p s, normalize_host_of_IsPlainHost h p) refl
