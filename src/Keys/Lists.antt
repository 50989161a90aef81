-- ===== src/Keys/Lists.antt =====
-- internal/keys/keys.go: a stored list of capabilities is read back as it was written.
use gotifacts.Prelude.{
  ◌≡◌, ◌≢◌, refl, sym, ap, ◌∙◌, subst, true, false, List, [], ◌∷◌, ◌++◌, append_assoc, append-nil,
  arith, All, All-append, All-imp, ok, inl, inr, Bool-cases, if◌then◌else◌, >>=-eq-ok, if-eq-ok,
}
use gotifacts.Text.{Text, text_eq, contains_text, to_lower, trim_space, split}
use gotifacts.Text.Equality.{text_eq→eq}
use gotifacts.Text.Split.{Lacks, split-join}
use gotifacts.Keys.{
  Capability, is_capability, IsCapability, parse_capability, parse_parts, parse_capabilities,
  join_capabilities, all_capabilities, nonempty_list,
}

-- None of the list is among those before it.
abbrev pub IsFreshAfter : List Text → List Text → Type 0
IsFreshAfter before [] = Unit
IsFreshAfter before (c ∷ cs) = (contains_text before c ≡ false) × IsFreshAfter (before ++ c ∷ []) cs

abbrev pub IsDistinct : List Text → Type 0
IsDistinct = IsFreshAfter []

-- What holds of the six recognized values holds of every capability.
module _ (P : Text → Type 0) where
  each : (cs : List Text) (c : Text) → All P cs → contains_text cs c ≡ true → P c
  unfolding contains_text
  each [] c h e = absurd (cc)
  each (d ∷ cs) c (p, h) e = elim (Bool-cases (text_eq d c)) [
    | inl t ↦ subst P (text_eq→eq d c t) p
    | inr f ↦ each cs c h (ground arith)
  ]

  pub each_capability : (c : Capability) → All P all_capabilities → IsCapability c → P c
  unfolding is_capability
  each_capability c h e = each all_capabilities c h e

-- A capability is its own normal form, and holds no comma.
record IsNormal (c : Text) : Type 0 where
  trimmed : trim_space c ≡ c
  lower : to_lower c ≡ c
  filled : text_eq c [] ≡ false
  no_comma : Lacks b',' c

all_capabilities-IsNormal : All IsNormal all_capabilities
unfolding trim_space to_lower text_eq
all_capabilities-IsNormal = ground arith

IsCapability-IsNormal : (c : Capability) → IsCapability c → IsNormal c
IsCapability-IsNormal c h = each_capability IsNormal c all_capabilities-IsNormal h

parse_capability_self : (c : Capability) → IsCapability c → parse_capability c ≡ ok c
unfolding parse_capability
parse_capability_self c h = let n = IsCapability-IsNormal c h in rw (n.trimmed, n.lower, h) refl

parse_parts_self :
    (out caps : List Capability)
    → All IsCapability caps
    → IsFreshAfter out caps
    → parse_parts out caps ≡ ok (out ++ caps)
unfolding parse_parts
parse_parts_self out [] h f = rw append-nil
parse_parts_self out (c ∷ caps) (k, h) (f, fs) =
    let n = IsCapability-IsNormal c k in
    rw (n.trimmed, n.filled, parse_capability_self c k, f)
      (parse_parts_self (out ++ c ∷ []) caps h fs ∙ ap ok (append_assoc out (c ∷ []) caps))

-- A nonempty list of recognized and distinct capabilities is read back from its stored form as
-- written.
pub parse_capabilities-join_capabilities :
    (caps : List Capability)
    → caps ≢ []
    → All IsCapability caps
    → IsDistinct caps
    → parse_capabilities (join_capabilities caps) ≡ ok caps
unfolding parse_capabilities join_capabilities
parse_capabilities-join_capabilities [] ne h d = absurd (ne refl)
parse_capabilities-join_capabilities (c ∷ caps) ne h d =
    let commas = All-imp (λ x k. (IsCapability-IsNormal x k).no_comma) (c ∷ caps) h in
    rw (split-join b',' (c ∷ caps) ne commas, parse_parts_self [] (c ∷ caps) h d) refl

IsFreshAfter-concat :
    (before cs : List Text) (c : Text)
    → IsFreshAfter before cs
    → contains_text (before ++ cs) c ≡ false
    → IsFreshAfter before (cs ++ c ∷ [])
IsFreshAfter-concat before [] c f e =
    (subst (λ (l : List Text). contains_text l c ≡ false) (append-nil before) e, tt)
IsFreshAfter-concat before (d ∷ cs) c (f, fs) e = (
  f,
  IsFreshAfter-concat (before ++ d ∷ []) cs c fs (
      subst (λ (l : List Text). contains_text l c ≡ false) (sym (append_assoc before (d ∷ []) cs))
        e),
)

pub record IsCapabilityList (caps : List Capability) : Type 0 where
  pub recognized : All IsCapability caps
  pub distinct : IsDistinct caps

pub parse_capability-eq-ok :
    (s : Text) (c : Capability) → parse_capability s ≡ ok c → IsCapability c
unfolding parse_capability
parse_capability-eq-ok s c e =
    let (t, same) = if-eq-ok (is_capability (to_lower (trim_space s))) _ _ e in
    subst IsCapability same t

pub add_capability :
    (out : List Capability) (c : Capability)
    → IsCapability c
    → IsCapabilityList out
    → IsCapabilityList (if contains_text out c then out else out ++ c ∷ [])
add_capability out c k l = elim (Bool-cases (contains_text out c)) [
  | inl e ↦ rw e l
  | inr e ↦ rw e (record {
    recognized = All-append IsCapability out _ l.recognized (k, tt);
    distinct = IsFreshAfter-concat [] out c l.distinct e;
  })
]

parse_parts-eq-ok :
    (parts : List Text) (out caps : List Capability)
    → IsCapabilityList out
    → parse_parts out parts ≡ ok caps
    → IsCapabilityList caps
unfolding parse_parts
parse_parts-eq-ok [] out caps l e = subst IsCapabilityList (cc) l
parse_parts-eq-ok (part ∷ parts) out caps l e = elim (Bool-cases (text_eq (trim_space part) [])) [
  | inl skip ↦ parse_parts-eq-ok parts out caps l (rw skip at e)
  | inr more ↦
      let (c, parsed, rest) = >>=-eq-ok (parse_capability (trim_space part)) _ (rw more at e) in
      parse_parts-eq-ok parts (if contains_text out c then out else out ++ c ∷ []) caps
        (add_capability out c (parse_capability-eq-ok (trim_space part) c parsed) l) rest
]

nonempty_list-eq-ok :
    (out caps : List Capability) → nonempty_list out ≡ ok caps → (out ≡ caps) × (caps ≢ [])
nonempty_list-eq-ok [] caps e = absurd (cc)
nonempty_list-eq-ok (c ∷ out) caps e = (cc, λ z. cc)

-- A parsed list is never empty, and holds recognized capabilities, none of them twice.
pub parse_capabilities-eq-ok :
    (csv : Text) (caps : List Capability)
    → parse_capabilities csv ≡ ok caps
    → (caps ≢ []) × All IsCapability caps × IsDistinct caps
unfolding parse_capabilities
parse_capabilities-eq-ok csv caps e =
    let (out, parsed, filled) = >>=-eq-ok (parse_parts [] (split b',' csv)) _ e in
    let (same, ne) = nonempty_list-eq-ok out caps filled in
    let l =
      parse_parts-eq-ok (split b',' csv) [] out (record { recognized = tt; distinct = tt })
        parsed in
    (ne, subst (All IsCapability) same l.recognized, subst IsDistinct same l.distinct)
