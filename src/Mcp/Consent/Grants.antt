-- ===== src/Mcp/Consent/Grants.antt =====
-- internal/mcpserver/consent.go: the grants that an approving user chooses.
pub mod Forms
use gotifacts.Prelude.{
  ℕ, Bool, true, false, not, ◌&&◌, ◌||◌, List, [], ◌∷◌, ◌++◌, if◌then◌else◌, Result, ok, err,
  fail_if, ◌>>◌, ◌>>=◌, any, ltb, ◌==◌, length,
}
use gotifacts.Text.{Text, codes, text_eq, contains_text, trim, trim_space, to_lower, split}
use gotifacts.Keys.{
  Capability, CapabilityError, parse_capability, cap_publish, cap_unpublish, cap_rollback,
  cap_patch, cap_purge, cap_read,
}
use gotifacts.Auth.{Grant, grant_group, grant_site}
use gotifacts.Router.SitePath.{max_depth}
use gotifacts.Router.Label.{is_label}

abbrev pub max_consent_grants : ℕ
max_consent_grants = 16

-- consentCapabilities
abbrev pub consent_capabilities : List Capability
consent_capabilities =
    cap_publish ∷ cap_unpublish ∷ cap_rollback ∷ cap_patch ∷ cap_purge ∷ cap_read ∷ []

-- consentGrant
pub record ConsentGrant : Type 0 where
  pub kind : Text
  pub target : Text
  pub permissions : List Text

-- The errors of `parseConsentGrants`, one for each of its texts.
pub data ConsentError : Type 0 where
  no_grant too_many_grants unacknowledged bad_kind site_required too_deep_target bad_label
        bad_capability no_permission :
      ConsentError

-- The two tests on one permission in the loop of `parseConsentCaps`.
unfoldable pub offered : Result CapabilityError Capability → Result ConsentError Capability
offered (err e) = err bad_capability
offered (ok c) = if contains_text consent_capabilities c then ok c else err bad_capability

-- The loop of `parseConsentCaps`.
unfoldable pub parse_permissions :
    List Capability → List Text → Result ConsentError (List Capability)
parse_permissions caps [] = ok caps
parse_permissions caps (v ∷ vals) = do
  c ← offered (parse_capability v)
  parse_permissions (if contains_text caps c then caps else caps ++ c ∷ []) vals

abbrev pub some_permission : List Capability → Result ConsentError (List Capability)
some_permission [] = err no_permission
some_permission (c ∷ cs) = ok (c ∷ cs)

-- parseConsentCaps
unfoldable pub parse_consent_caps : List Text → Result ConsentError (List Capability)
parse_consent_caps vals = do caps ← parse_permissions [] vals; some_permission caps

-- normalizeTarget
unfoldable pub normalize_target : Text → Text
normalize_target t = trim (λ c. c == b'/') (to_lower (trim_space t))

-- validateGrantTarget
unfoldable pub validate_grant_target : Text → Text → Result ConsentError (Unit {0})
validate_grant_target kind target =
    if text_eq target [] then fail_if (text_eq kind grant_site) site_required else do
      fail_if (ltb max_depth (length (split b'/' target))) too_deep_target
      fail_if (any (λ seg. not (is_label seg)) (split b'/' target)) bad_label

-- parseConsentGrant
unfoldable pub parse_consent_grant : ConsentGrant → Result ConsentError Grant
parse_consent_grant g = do
  fail_if (not (text_eq g.kind grant_group) && not (text_eq g.kind grant_site)) bad_kind
  validate_grant_target g.kind (normalize_target g.target)
  caps ← parse_consent_caps g.permissions
  ok (record { kind = g.kind; target = normalize_target g.target; permissions = caps })

-- The loop of `parseConsentGrants`.
unfoldable pub parse_each_grant :
    Bool → List Grant → List ConsentGrant → Result ConsentError (List Grant)
parse_each_grant ack grants [] = ok grants
parse_each_grant ack grants (g ∷ gs) = do
  grant ← parse_consent_grant g
  fail_if (text_eq grant.kind grant_group && text_eq grant.target [] && not ack) unacknowledged
  parse_each_grant ack (grants ++ grant ∷ []) gs

-- parseConsentGrants
unfoldable pub parse_consent_grants : List ConsentGrant → Bool → Result ConsentError (List Grant)
parse_consent_grants gs ack = do
  fail_if (length gs == 0) no_grant
  fail_if (ltb max_consent_grants (length gs)) too_many_grants
  parse_each_grant ack [] gs

-- err.Error()
unfoldable pub error_text : ConsentError → Text
error_text no_grant = codes "select at least one grant"
error_text too_many_grants = codes "too many grants"
error_text unacknowledged = codes "acknowledge the global-scope risk"
error_text bad_kind = codes "grant kind must be group or site"
error_text site_required = codes "a site target is required"
error_text too_deep_target = codes "target is too deep"
error_text bad_label = codes "target contains an invalid label"
error_text bad_capability = codes "invalid capability"
error_text no_permission = codes "each grant needs at least one permission"
