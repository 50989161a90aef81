-- ===== src/Mcp/Consent/Grants/Forms.antt =====
-- internal/mcpserver/consent.go: the form of the grants that a consent hands on.
use gotifacts.Prelude.{
  ◌+◌, ◌≤◌, ◌<◌, ◌≡◌, ◌≢◌, ◌⊎◌, ap, subst, Bool, true, false, not, ◌&&◌, List, [], ◌∷◌, ◌++◌, arith,
  if◌then◌else◌, Bool-cases, inl, inr, Result, ok, err, fail_if, any, ltb, ◌==◌, length,
  length-append, All, All-append, >>=-eq-ok, >>-eq-ok, if-eq-ok, fail_if-eq-ok,
}
use gotifacts.Text.{Text, text_eq, contains_text, split}
use gotifacts.Text.Equality.{text_eq→eq, text_eq_refl}
use gotifacts.Keys.{Capability, CapabilityError, IsCapability, is_capability, parse_capability}
use gotifacts.Keys.Lists.{IsCapabilityList, add_capability}
use gotifacts.Auth.{Grant, grant_group, grant_site}
use gotifacts.Router.SitePath.{max_depth}
use gotifacts.Router.Label.{is_label, IsLabel}
use gotifacts.Mcp.Consent.Grants.{
  max_consent_grants, consent_capabilities, ConsentGrant, ConsentError, offered, parse_permissions,
  some_permission, parse_consent_caps, normalize_target, validate_grant_target, parse_consent_grant,
  parse_each_grant, parse_consent_grants,
}

offered-eq-ok :
    (r : Result CapabilityError Capability) (c : Capability) → offered r ≡ ok c → IsCapability c
unfolding offered is_capability
offered-eq-ok (err e) c h = absurd (cc)
offered-eq-ok (ok d) c h =
    let (k, e) = if-eq-ok (contains_text consent_capabilities d) d _ h in subst IsCapability e k

parse_permissions-eq-ok :
    (caps : List Capability) (vals : List Text) (out : List Capability)
    → parse_permissions caps vals ≡ ok out
    → IsCapabilityList caps
    → IsCapabilityList out
unfolding parse_permissions
parse_permissions-eq-ok caps [] out h l = subst IsCapabilityList (cc) l
parse_permissions-eq-ok caps (v ∷ vals) out h l =
    let (c, k, h') = >>=-eq-ok (offered (parse_capability v)) _ h in
    parse_permissions-eq-ok (if contains_text caps c then caps else caps ++ c ∷ []) vals out h'
      (add_capability caps c (offered-eq-ok _ c k) l)

some_permission-eq-ok :
    (caps out : List Capability) → some_permission caps ≡ ok out → (caps ≡ out) × (out ≢ [])
some_permission-eq-ok [] out h = absurd (cc)
some_permission-eq-ok (c ∷ cs) out h = (cc, λ e. cc)

-- What a site or group target names: labels, at most `max_depth` of them.
pub record IsTarget (target : Text) : Type 0 where
  pub named : target ≢ []
  pub shallow : length (split b'/' target) ≤ max_depth
  pub labels : All IsLabel (split b'/' target)

-- A grant that a user may give: to a group or a site that can exist, or, if the risk was
-- acknowledged, to all sites.
pub record IsConsented (ack : Bool) (g : Grant) : Type 0 where
  pub target :
      ((g.kind ≡ grant_group) × (g.target ≡ []) × (ack ≡ true))
      ⊎ (((g.kind ≡ grant_group) ⊎ (g.kind ≡ grant_site)) × IsTarget g.target)
  pub given : g.permissions ≢ []
  pub permissions : IsCapabilityList g.permissions

labels_of : (segs : List Text) → any (λ seg. not (is_label seg)) segs ≡ false → All IsLabel segs
labels_of [] h = tt
labels_of (s ∷ segs) h = (ground arith, labels_of segs (ground arith))

kind-cases :
    (kind : Text)
    → (not (text_eq kind grant_group) && not (text_eq kind grant_site)) ≡ false
    → (kind ≡ grant_group) ⊎ (kind ≡ grant_site)
kind-cases kind h = elim (Bool-cases (text_eq kind grant_group)) [
  | inl e ↦ inl (text_eq→eq kind _ e)
  | inr e ↦ inr (text_eq→eq kind _ (ground arith))
]

validate-cases :
    (kind target : Text)
    → validate_grant_target kind target ≡ ok tt
    → ((target ≡ []) × (text_eq kind grant_site ≡ false)) ⊎ IsTarget target
unfolding validate_grant_target
validate-cases kind target h = elim (Bool-cases (text_eq target [])) [
  | inl e ↦ inl (
    text_eq→eq target [] e,
    fail_if-eq-ok (text_eq kind grant_site) _ (rw (validate_grant_target, e) at h),
  )
  | inr e ↦
      let (deep, h') =
        >>-eq-ok (fail_if (ltb max_depth (length (split b'/' target))) _) _
          (rw (validate_grant_target, e) at h) in
      let shallow = fail_if-eq-ok (ltb max_depth (length (split b'/' target))) _ deep in
      inr (record {
        named = λ z. absurd (ground (arith, text_eq_refl [], z));
        shallow = ground arith;
        labels =
            labels_of _ (fail_if-eq-ok (any (λ seg. not (is_label seg)) (split b'/' target)) _ h');
      })
]

consented-IsTarget :
    (kind target : Text) (ack : Bool)
    → (kind ≡ grant_group) ⊎ (kind ≡ grant_site)
    → ((target ≡ []) × (text_eq kind grant_site ≡ false)) ⊎ IsTarget target
    → (text_eq kind grant_group && text_eq target [] && not ack) ≡ false
    → ((kind ≡ grant_group) × (target ≡ []) × (ack ≡ true))
      ⊎ (((kind ≡ grant_group) ⊎ (kind ≡ grant_site)) × IsTarget target)
consented-IsTarget kind target ack k (inr t) a = inr (k, t)
consented-IsTarget kind target ack (inr k) (inl (e, f)) a =
    absurd (ground (arith, ap (λ x. text_eq x grant_site) k, text_eq_refl grant_site))
consented-IsTarget kind target ack (inl k) (inl (e, f)) a =
    let g : text_eq kind grant_group ≡ true = rw k (text_eq_refl grant_group) in
    let e' : text_eq target [] ≡ true = rw e (text_eq_refl []) in inl (k, e, ground arith)

ok_injective : {a b : Grant} → ◌≡◌ {A = Result ConsentError Grant} (ok a) (ok b) → a ≡ b
ok_injective k = cc

list_injective :
    {a b : List Grant} → ◌≡◌ {A = Result ConsentError (List Grant)} (ok a) (ok b) → a ≡ b
list_injective k = cc

parse_consent_grant-eq-ok :
    (c : ConsentGrant) (g : Grant) (ack : Bool)
    → parse_consent_grant c ≡ ok g
    → (text_eq g.kind grant_group && text_eq g.target [] && not ack) ≡ false
    → IsConsented ack g
unfolding parse_consent_grant parse_consent_caps
parse_consent_grant-eq-ok c g ack h a =
    let (k, h1) =
      >>-eq-ok (fail_if (not (text_eq c.kind grant_group) && not (text_eq c.kind grant_site)) _) _
        h in
    let (v, h2) = >>-eq-ok (validate_grant_target c.kind (normalize_target c.target)) _ h1 in
    let (caps, p, h3) = >>=-eq-ok (parse_consent_caps c.permissions) _ h2 in
    let (caps', l, q) = >>=-eq-ok (parse_permissions [] c.permissions) _ p in
    let (same, ne) = some_permission-eq-ok caps' caps q in
    let all = subst IsCapabilityList same (
      parse_permissions-eq-ok [] c.permissions caps' l
        (record { recognized = tt; distinct = tt })) in
    let e = ok_injective h3 in
    let t =
      consented-IsTarget g.kind g.target ack
        (subst (λ (g : Grant). (g.kind ≡ grant_group) ⊎ (g.kind ≡ grant_site)) e
          (kind-cases c.kind (fail_if-eq-ok _ _ k)))
        (subst
          (λ (g : Grant).
            ((g.target ≡ []) × (text_eq g.kind grant_site ≡ false)) ⊎ IsTarget g.target)
          e (validate-cases c.kind _ v))
        a in
    record {
      target = t;
      given = subst (λ (g : Grant). g.permissions ≢ []) e ne;
      permissions = subst (λ (g : Grant). IsCapabilityList g.permissions) e all;
    }

pub parse_each_grant-eq-ok :
    (ack : Bool) (grants : List Grant) (gs : List ConsentGrant) (out : List Grant)
    → parse_each_grant ack grants gs ≡ ok out
    → All (IsConsented ack) grants
    → All (IsConsented ack) out × (length out ≡ length grants + length gs)
unfolding parse_each_grant
parse_each_grant-eq-ok ack grants [] out h l =
    let e = list_injective h in (subst (All (IsConsented ack)) e l, omega (arith, ap length e))
parse_each_grant-eq-ok ack grants (g ∷ gs) out h l =
    let (grant, p, h1) = >>=-eq-ok (parse_consent_grant g) _ h in
    let (a, h2) =
      >>-eq-ok (fail_if (text_eq grant.kind grant_group && text_eq grant.target [] && not ack) _) _
        h1 in
    let (m, n) = parse_each_grant-eq-ok ack (grants ++ grant ∷ []) gs out h2 (
      All-append (IsConsented ack) grants (grant ∷ []) l
        (parse_consent_grant-eq-ok g grant ack p (fail_if-eq-ok _ _ a), tt)) in
    (m, omega (arith, n, length-append grants (grant ∷ [])))

-- The grants that a consent hands on are as many as were chosen, from one to sixteen. Each goes to
-- a group or a site that can exist, or to all sites if the risk was acknowledged, and holds
-- recognized capabilities, at least one and none twice.
pub parse_consent_grants-IsConsented :
    (gs : List ConsentGrant) (ack : Bool) (out : List Grant)
    → parse_consent_grants gs ack ≡ ok out
    → All (IsConsented ack) out
      × (length out ≡ length gs)
      × (0 < length out)
      × (length out ≤ max_consent_grants)
unfolding parse_consent_grants
parse_consent_grants-IsConsented gs ack out h =
    let (a, h1) = >>-eq-ok (fail_if (length gs == 0) _) _ h in
    let (b, h2) = >>-eq-ok (fail_if (ltb max_consent_grants (length gs)) _) _ h1 in
    let (l, n) = parse_each_grant-eq-ok ack [] gs out h2 tt in
    let filled = fail_if-eq-ok (length gs == 0) _ a in
    let few = fail_if-eq-ok (ltb max_consent_grants (length gs)) _ b in
    (l, omega (arith, n), ground (arith, n), ground (arith, n))
