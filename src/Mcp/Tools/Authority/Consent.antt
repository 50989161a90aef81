-- ===== src/Mcp/Tools/Authority/Consent.antt =====
-- internal/mcpserver/mcpserver.go: what lets a call of a tool change a site: the capability of the
-- caller for it and, for a purge, the consent.
use gotifacts.Prelude.{
  ℕ, ◌≡◌, ◌≢◌, refl, sym, ap, ◌∙◌, true, false, ◌*◌, ◌≤◌, ◌⊎◌, inl, inr, Option, some, Bool-cases,
  Result-cases, Option-cases, Result, ok, ltb, tests, take,
}
use gotifacts.Text.{Text, index_byte}
use gotifacts.Text.Equality.{Text-cases, text_eq→eq}
use gotifacts.Keys.{Capability, cap_publish, cap_unpublish, cap_patch, cap_rollback, cap_purge}
use gotifacts.Auth.{Principal, can}
use gotifacts.Router.SitePath.{SitePath, PathError, new_site_path}
use gotifacts.Router.SitePath.Segments.{SitePath-eq}
use gotifacts.Ingest.Changes.{IsDraw}
use gotifacts.Mcp.Reading.{target_group}
use gotifacts.Mcp.Tools.{
  ToolCall, call_publish, call_unpublish, call_restore, call_list_revisions, call_update,
  call_rollback, call_purge,
}
use gotifacts.Mcp.Tools.Confirmation.{
  Confirming, Answer, accept, other_answer, purge_token, purge_token_valid, confirm_purge, proceed,
}

-- The capability, the group and the slug that a call is about.
abbrev pub need : ToolCall → Capability
need (call_publish input drawn) = cap_publish
need (call_unpublish g s) = cap_unpublish
need (call_restore g s) = cap_publish
need (call_list_revisions g s) = cap_rollback
need (call_update g s input) = cap_patch
need (call_rollback g s rev drawn) = cap_rollback
need (call_purge g s c) = cap_purge

module _ (mcp_group : Text) where
  abbrev pub group_of : ToolCall → Text
  group_of (call_publish input drawn) = target_group mcp_group input.group
  group_of (call_unpublish g s) = target_group mcp_group g
  group_of (call_restore g s) = target_group mcp_group g
  group_of (call_list_revisions g s) = target_group mcp_group g
  group_of (call_update g s input) = target_group mcp_group g
  group_of (call_rollback g s rev drawn) = target_group mcp_group g
  group_of (call_purge g s c) = target_group mcp_group g

abbrev pub slug_of : ToolCall → Text
slug_of (call_publish input drawn) = input.slug
slug_of (call_unpublish g s) = s
slug_of (call_restore g s) = s
slug_of (call_list_revisions g s) = s
slug_of (call_update g s input) = s
slug_of (call_rollback g s rev drawn) = s
slug_of (call_purge g s c) = s

-- A staging directory is named with hexadecimal digits.
abbrev pub HasDraw : ToolCall → Type 0
HasDraw (call_publish input drawn) = IsDraw drawn
HasDraw (call_unpublish g s) = Unit
HasDraw (call_restore g s) = Unit
HasDraw (call_list_revisions g s) = Unit
HasDraw (call_update g s input) = Unit
HasDraw (call_rollback g s rev drawn) = Unit
HasDraw (call_purge g s c) = Unit

Answer-cases : (a : Answer) → (a ≡ accept) ⊎ (a ≡ other_answer)
Answer-cases accept = inl refl
Answer-cases other_answer = inr refl

module _ (mac : Text → Text) (format_int : ℕ → Text) (parse_int : Text → Option ℕ)
    (mcp_group : Text) (now : ℕ) where
  -- The client cannot be asked, or it accepted, and sends back the state that was made for this
  -- caller and this site and has not expired.
  abbrev pub HasConsent : Confirming → Text → Text → Text → Type 0
  HasConsent c user group slug =
      (c.can_elicit ≡ false)
      ⊎ (c.answer ≡ some accept)
        × ((exp : ℕ) × (c.request_state ≡ purge_token mac format_int parse_int user group slug exp)
            × (now ≤ exp * 1000000000))

  abbrev pub Consent : ToolCall → Text → Type 0
  Consent (call_publish input drawn) user = Unit
  Consent (call_unpublish g s) user = Unit
  Consent (call_restore g s) user = Unit
  Consent (call_list_revisions g s) user = Unit
  Consent (call_update g s input) user = Unit
  Consent (call_rollback g s rev drawn) user = Unit
  Consent (call_purge g s c) user = HasConsent c user (target_group mcp_group g) s

  -- The call names the site, and its caller holds the capability for it, with the consent that a
  -- purge needs.
  pub record IsAllowed (who : Option Principal) (call : ToolCall) (t : SitePath) : Type 0 where
    pub caller : Principal
    pub known : who ≡ some caller
    pub permitted : can caller (need call) (group_of mcp_group call) (slug_of call) ≡ true
    pub named : new_site_path (group_of mcp_group call) (slug_of call) ≡ ok t
    pub consent : Consent call caller.user

  token-valid :
      (token user group slug : Text)
      → purge_token_valid mac format_int parse_int token user group slug now ≡ true
      → (exp : ℕ) × (token ≡ purge_token mac format_int parse_int user group slug exp)
        × (now ≤ exp * 1000000000)
  unfolding purge_token_valid
  token-valid token user group slug h = elim (Option-cases (index_byte token b'.')) [
    | inl n ↦ absurd (cc (rw (n, purge_token_valid) at h))
    | inr (i, n) ↦ elim (Option-cases (parse_int (take i token))) [
      | inl m ↦ absurd (cc (rw (n, purge_token_valid, m) at h))
      | inr (exp, m) ↦ elim (Bool-cases (ltb (exp * 1000000000) now)) [
        | inl late ↦ absurd (cc (rw (n, purge_token_valid, m, late) at h))
        | inr on_time ↦ (
          exp,
          sym (text_eq→eq _ token (rw (n, purge_token_valid, m, on_time) at h)),
          grind tests,
        )
      ]
    ]
  ]

  pub confirm_purge-HasConsent :
      (c : Confirming) (user group slug : Text)
      → confirm_purge mac format_int parse_int c user group slug now ≡ proceed
      → HasConsent c user group slug
  unfolding confirm_purge
  confirm_purge-HasConsent c user group slug h = elim (Bool-cases c.can_elicit) [
    | inr e ↦ inl e
    | inl e ↦ elim (Option-cases c.answer) [
      | inl n ↦ absurd (cc (rw (e, n, confirm_purge) at h))
      | inr (a, n) ↦
          elim (Bool-cases
            (purge_token_valid mac format_int parse_int c.request_state user group slug now)) [
              | inr v ↦ absurd (cc (rw (e, n, confirm_purge, v) at h))
              | inl v ↦ elim (Answer-cases a) [
                | inl b ↦ inr (n ∙ ap some b, token-valid _ user group slug v)
                | inr b ↦ absurd (cc (rw (e, n, b, confirm_purge, v) at h))
              ]
            ]
    ]
  ]

-- Whether a call is about `t`.
pub names : (g s : Text) (t : SitePath) → (new_site_path g s ≡ ok t) ⊎ (new_site_path g s ≢ ok t)
names g s t = elim (Result-cases (new_site_path g s)) [
  | inl (e, h) ↦ inr (λ k. cc (h, k))
  | inr (sp, h) ↦ elim (Text-cases sp.group t.group) [
    | inr ne ↦ inr (λ k. ne (ap (λ (x : SitePath). x.group) (same h k)))
    | inl a ↦ elim (Text-cases sp.slug t.slug) [
      | inr ne ↦ inr (λ k. ne (ap (λ (x : SitePath). x.slug) (same h k)))
      | inl b ↦ inl (h ∙ ap ok (SitePath-eq sp t a b))
    ]
  ]
]
  where
    same : {r : Result PathError SitePath} {sp t : SitePath} → r ≡ ok sp → r ≡ ok t → sp ≡ t
    same h k = cc
