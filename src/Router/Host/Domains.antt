-- ===== src/Router/Host/Domains.antt =====
-- internal/router/sitepath.go and handler.go: which configured domain a host belongs to, and
-- which handler serves it.
use mathlib.Core.List.{Memᴰ}
use gotifacts.Prelude.{
  ℕ, ◌≤◌, ◌≡◌, ◌≢◌, ◌↔◌, ◌⊎◌, inl, inr, refl, sym, ap, ◌∙◌, subst, true, false, Bool, not, List, [],
  ◌∷◌, ◌++◌, map, arith, All, length, length-append, ltb, Bool-cases, ◌&&◌, if◌then◌else◌,
}
use gotifacts.Text.{Text, text_eq, to_lower}
use gotifacts.Text.Equality.{text_eq_iff, text_eq_refl, Text-cases, text_eq_of_ne, to_lower_idem}
use gotifacts.Text.Affix.{has_suffix→append, has_suffix-append}
use gotifacts.Router.Host.{
  normalize_host, under_domain, better_domain, best_domain, match_domain, is_base_host, dispatch,
  Plane, apex, sites,
}

-- The host is the domain, or ends in a dot and the domain.
abbrev pub IsUnder : Text → Text → Type 0
IsUnder h d = (h ≡ d) ⊎ ((x : Text) × (h ≡ x ++ b'.' ∷ d))

pub under_domain-IsUnder : (h d : Text) → under_domain h d ≡ true → IsUnder h d
unfolding under_domain
under_domain-IsUnder h d e = elim (Text-cases h d) [
  | inl same ↦ inl same
  | inr ne ↦ inr (has_suffix→append h (b'.' ∷ d) (rw (text_eq_of_ne h d ne) at e))
]

pub test_of_IsUnder : (h d : Text) → IsUnder h d → under_domain h d ≡ true
unfolding under_domain
test_of_IsUnder h d (inl e) = rw (e, text_eq_refl d)
test_of_IsUnder h d (inr (x, e)) = rw (e, has_suffix-append x (b'.' ∷ d)) (ground arith)

IsUnder-length : (h d : Text) → IsUnder h d → length d ≤ length h
IsUnder-length h d (inl e) = omega (arith, ap (length {A = ℕ}) e)
IsUnder-length h d (inr (x, e)) =
    omega (arith, ap (length {A = ℕ}) e, length-append {A = ℕ} x (b'.' ∷ d))

-- No domain that covers the host is longer than `n`.
abbrev pub Longest : Text → List Text → ℕ → Type 0
Longest h ds n = All (λ d. to_lower d ≢ [] → IsUnder h (to_lower d) → length (to_lower d) ≤ n) ds

-- The loop keeps the longest nonempty domain that covers the host.
record IsBest (h best : Text) (ds : List Text) (r : Text) : Type 0 where
  grows : length best ≤ length r
  chosen : (r ≡ best) ⊎ (Memᴰ r (map to_lower ds) × (r ≢ []) × IsUnder h r)
  longest : Longest h ds (length r)

record IsBetter (h best d r : Text) : Type 0 where
  grows : length best ≤ length r
  chosen : (r ≡ best) ⊎ ((r ≡ to_lower d) × (r ≢ []) × IsUnder h r)
  longest : to_lower d ≢ [] → IsUnder h (to_lower d) → length (to_lower d) ≤ length r

longer-IsBetter :
    (h best d : Text) (longer : Bool)
    → to_lower d ≢ []
    → IsUnder h (to_lower d)
    → ltb (length best) (length (to_lower d)) ≡ longer
    → IsBetter h best d (if longer then to_lower d else best)
longer-IsBetter h best d true ne u e = record {
  grows = ground arith;
  chosen = inr (refl, ne, u);
  longest = λ _ _. omega arith;
}
longer-IsBetter h best d false ne u e = record {
  grows = omega arith;
  chosen = inl refl;
  longest = λ _ _. ground arith;
}

better_domain-IsBetter : (h best d : Text) → IsBetter h best d (better_domain h best d)
unfolding better_domain
better_domain-IsBetter h best d = elim (Text-cases (to_lower d) []) [
  | inl e ↦
      rw ((text_eq_iff (to_lower d) []).1 e)
        (record { grows = omega arith; chosen = inl refl; longest = λ ne _. absurd (ne e) })
  | inr ne ↦
      rw (text_eq_of_ne (to_lower d) [] ne) (elim (Bool-cases (under_domain h (to_lower d))) [
        | inl u ↦ rw u (longer-IsBetter h best d _ ne (under_domain-IsUnder h (to_lower d) u) refl)
        | inr u ↦ rw u (record {
          grows = omega arith;
          chosen = inl refl;
          longest = λ _ k. cc (test_of_IsUnder h (to_lower d) k);
        })
      ])
]

IsBest-cons :
    (h best d : Text) (ds : List Text) (r : Text) (mid : Text)
    → IsBetter h best d mid
    → IsBest h mid ds r
    → IsBest h best (d ∷ ds) r
IsBest-cons h best d ds r mid s t = record {
  grows = omega (arith, s.grows, t.grows);
  chosen = elim t.chosen [
    | inr (m, k, u) ↦ inr (Memᴰ.tail m, k, u)
    | inl e ↦ elim s.chosen [
      | inl e' ↦ inl (e ∙ e')
      | inr (same, ne, u) ↦
          inr (Memᴰ.head (e ∙ same), (λ k. ne (sym e ∙ k)), subst (IsUnder h) (sym e) u)
    ]
  ];
  longest = (λ ne u. omega (arith, s.longest ne u, t.grows), t.longest);
}

best_domain-IsBest : (h best : Text) (ds : List Text) → IsBest h best ds (best_domain h best ds)
unfolding best_domain
best_domain-IsBest h best [] = record { grows = omega arith; chosen = inl refl; longest = tt }
best_domain-IsBest h best (d ∷ ds) =
    IsBest-cons h best d ds _ (better_domain h best d) (better_domain-IsBetter h best d)
      (best_domain-IsBest h (better_domain h best d) ds)

-- A matched domain is configured, covers the host, and is as long as any that does.
pub record IsMatched (h : Text) (domains : List Text) (base : Text) : Type 0 where
  pub configured : Memᴰ base (map to_lower domains)
  pub nonempty : base ≢ []
  pub under : IsUnder h base
  pub longest :
      All
        (λ d. to_lower d ≢ [] → IsUnder h (to_lower d) → length (to_lower d) ≤ length base)
        domains

abbrev pub NoDomain : Text → List Text → Type 0
NoDomain h domains = All (λ d. to_lower d ≢ [] → ¬ IsUnder h (to_lower d)) domains

-- What `MatchDomain` promises of its two results.
abbrev pub MatchSpec : Text → List Text → Text × Bool → Type 0
MatchSpec h domains (base, true) = IsMatched h domains base
MatchSpec h domains (base, false) = (h ≡ []) ⊎ NoDomain h domains

Longest-NoDomain : (h : Text) (ds : List Text) → Longest h ds 0 → NoDomain h ds
Longest-NoDomain h [] k = tt
Longest-NoDomain h (d ∷ ds) (k, ks) =
    (λ ne u. ne (nil_of_length (to_lower d) (k ne u)), Longest-NoDomain h ds ks)
  where
    nil_of_length : (x : Text) → length x ≤ 0 → x ≡ []
    nil_of_length [] e = refl
    nil_of_length (c ∷ x) e = absurd (omega arith)

IsBest-MatchSpec :
    (h best : Text) (ds : List Text)
    → h ≢ []
    → IsBest h [] ds best
    → MatchSpec h ds (best, not (text_eq best []))
IsBest-MatchSpec h best ds ne b = elim (Text-cases best []) [
  | inl e ↦
      rw (e, text_eq_refl [])
        (inr (Longest-NoDomain h ds (subst (λ (r : Text). Longest h ds (length r)) e b.longest)))
  | inr some_best ↦ rw (text_eq_of_ne best [] some_best) (elim b.chosen [
    | inl e ↦ absurd (some_best e)
    | inr (m, k, u) ↦ record { configured = m; nonempty = k; under = u; longest = b.longest }
  ])
]

-- `MatchDomain` returns the longest configured domain that covers the host, and reports a match
-- exactly when there is one.
pub match_domain_lem :
    (host : Text) (domains : List Text)
    → MatchSpec (normalize_host host) domains (match_domain host domains)
unfolding match_domain
match_domain_lem host domains =
    let h = normalize_host host in
    elim (Text-cases h []) [
      | inl e ↦ rw ((text_eq_iff h []).1 e) (inl e)
      | inr ne ↦ rw (text_eq_of_ne h [] ne) (
          IsBest-MatchSpec h (best_domain h [] domains) domains ne
            (best_domain-IsBest h [] domains))
    ]

lower_of_Mem : (b : Text) (ds : List Text) → Memᴰ b (map to_lower ds) → to_lower b ≡ b
lower_of_Mem b [] m = elim m [ ]
lower_of_Mem b (d ∷ ds) (Memᴰ.head e) = ap to_lower e ∙ to_lower_idem d ∙ sym e
lower_of_Mem b (d ∷ ds) (Memᴰ.tail m) = lower_of_Mem b ds m

Longest-Mem :
    (h : Text) (ds : List Text) (n : ℕ) (b : Text)
    → Longest h ds n
    → Memᴰ b (map to_lower ds)
    → b ≢ []
    → IsUnder h b
    → length b ≤ n
Longest-Mem h [] n b k m ne u = elim m [ ]
Longest-Mem h (d ∷ ds) n b (k, ks) (Memᴰ.head e) ne u =
    subst (λ (x : Text). length x ≤ n) (sym e) (k (λ z. ne (e ∙ z)) (subst (IsUnder h) e u))
Longest-Mem h (d ∷ ds) n b (k, ks) (Memᴰ.tail m) ne u = Longest-Mem h ds n b ks m ne u

-- Nothing as long as the host covers it but the host itself.
eq_of_IsUnder : (h d : Text) → IsUnder h d → length h ≤ length d → h ≡ d
eq_of_IsUnder h d (inl e) k = e
eq_of_IsUnder h d (inr (x, e)) k =
    absurd (omega (arith, ap (length {A = ℕ}) e, length-append {A = ℕ} x (b'.' ∷ d)))

-- The host of a request names an apex.
abbrev pub IsApexHost : List Text → Text → Type 0
IsApexHost domains h = (h ≢ []) × Memᴰ h (map to_lower domains)

abbrev dispatch_of : Text → Text × Bool → Plane
dispatch_of host (base, matched) = if matched && is_base_host host base then apex else sites

apex_of_matched :
    (host : Text) (domains : List Text) (base : Text)
    → IsMatched (normalize_host host) domains base
    → (dispatch_of host (base, true) ≡ apex) ↔ IsApexHost domains (normalize_host host)
unfolding is_base_host
apex_of_matched host domains base m =
    let h = normalize_host host in
    let low = lower_of_Mem base domains m.configured in
    (
      λ e.
          let same : h ≡ base = apex_test e ∙ low in
          (
            λ z. m.nonempty (sym same ∙ z),
            subst (λ (x : Text). Memᴰ x (map to_lower domains)) (sym same) m.configured,
          ),
      λ (ne, k).
          let same =
            eq_of_IsUnder h base m.under
              (Longest-Mem h domains (length base) h m.longest k ne (inl refl)) in
          rw ((text_eq_iff h (to_lower base)).1 (same ∙ sym low)) refl,
    )
  where
    apex_test : dispatch_of host (base, true) ≡ apex → normalize_host host ≡ to_lower base
    apex_test e = elim (Bool-cases (text_eq (normalize_host host) (to_lower base))) [
      | inl t ↦ (text_eq_iff _ _).0 t
      | inr f ↦ absurd (ground arith)
    ]

unlisted : (h : Text) (ds : List Text) → NoDomain h ds → h ≢ [] → ¬ Memᴰ h (map to_lower ds)
unlisted h [] n ne m = elim m [ ]
unlisted h (d ∷ ds) (n, ns) ne (Memᴰ.head e) = n (λ z. ne (e ∙ z)) (inl e)
unlisted h (d ∷ ds) (n, ns) ne (Memᴰ.tail m) = unlisted h ds ns ne m

sites_of_unmatched :
    (host : Text) (domains : List Text) (base : Text)
    → (normalize_host host ≡ []) ⊎ NoDomain (normalize_host host) domains
    → (dispatch_of host (base, false) ≡ apex) ↔ IsApexHost domains (normalize_host host)
sites_of_unmatched host domains base (inl e) = (λ z. cc, λ k. absurd (k.0 e))
sites_of_unmatched host domains base (inr none_covers) =
    (λ z. cc, λ k. absurd (unlisted (normalize_host host) domains none_covers k.0 k.1))

dispatch_by_match :
    (host : Text) (domains : List Text) (m : Text × Bool)
    → MatchSpec (normalize_host host) domains m
    → (dispatch_of host m ≡ apex) ↔ IsApexHost domains (normalize_host host)
dispatch_by_match host domains (base, true) s = apex_of_matched host domains base s
dispatch_by_match host domains (base, false) s = sites_of_unmatched host domains base s

-- A request reaches the apex handler exactly when its host, normalized, is one of the configured
-- domains in lower case; every other host is served as a site.
pub dispatch_iff :
    (domains : List Text) (host : Text)
    → (dispatch domains host ≡ apex)
      ↔ ((normalize_host host ≢ []) × Memᴰ (normalize_host host) (map to_lower domains))
unfolding dispatch
dispatch_iff domains host =
    dispatch_by_match host domains (match_domain host domains) (match_domain_lem host domains)
