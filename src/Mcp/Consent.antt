-- ===== src/Mcp/Consent.antt =====
-- internal/mcpserver/consent.go: the consent screen. The texts of errors that are not sent on to the
-- client are left out, as is the logging. A URL that is parsed, its query and its
-- printed form with another query are parameters, and so is the code of csrfToken.
pub mod Grants
pub mod Issue
pub mod Errors
use gotifacts.Prelude.{
  ℕ, ◌+◌, ◌*◌, Bool, true, false, not, ◌&&◌, ◌||◌, List, [], ◌∷◌, ◌++◌, Option, none, some,
  if◌then◌else◌, Result, ok, err,
}
use gotifacts.Prelude.Tables.{remove_if}
use gotifacts.Text.{Text, codes, text_eq, trim_space}
use gotifacts.Keys.{Capability}
use gotifacts.Auth.{Grant, Principal}
use gotifacts.Auth.Planes.{Config, mcp_user_allowed}
use gotifacts.Store.OAuth.{
  OAuthTables, OAuthClient, TableError, AuthCode, create_auth_code, get_oauth_client,
}
use gotifacts.Mcp.Service.{Service}
use gotifacts.Mcp.Authorization.{
  AuthParams, AuthError, untrusted, trusted, AuthRequest, check_auth_request,
}
use gotifacts.Mcp.Consent.Grants.{
  ConsentGrant, parse_consent_grants, consent_capabilities, error_text,
}

-- 10 * time.Minute
abbrev pub code_ttl : ℕ
code_ttl = 600000000000

-- consentInfo
pub record ConsentInfo : Type 0 where
  pub client_name : Text
  pub user : Text
  pub base_domain : Text
  pub default_target : Text
  pub capabilities : List Capability
  pub csrf : Text

-- What the handlers write: an error with its status, the screen or its data, or the URL that the
-- browser is sent to.
pub data ConsentReply : Type 0 where
  consent_error : ℕ → ConsentReply
  screen : ConsentReply
  consent_info : ConsentInfo → ConsentReply
  redirect_to : Text → ConsentReply

-- consentRequest
pub record ConsentRequest : Type 0 where
  pub client_id : Text
  pub redirect_uri : Text
  pub code_challenge : Text
  pub code_challenge_method : Text
  pub state : Text
  pub csrf : Text
  pub action : Text
  pub grants : List ConsentGrant
  pub acknowledge_global : Bool

-- The request that `HandleConsentSubmit` checks.
abbrev pub authorization : ConsentRequest → AuthRequest
authorization req = record {
  response_type = codes "code";
  client_id = req.client_id;
  redirect_uri = req.redirect_uri;
  challenge = req.code_challenge;
  method = req.code_challenge_method;
  state = req.state;
}

-- url.Values, one list of values for each key
abbrev pub Values : Type 0
Values = List (Text × List Text)

-- q[k] = v
unfoldable pub set_value : Values → Text → List Text → Values
set_value q k v = remove_if (λ (e : Text × List Text). text_eq e.0 k) q ++ (k, v) ∷ []

-- The loop of `redirectURL`.
unfoldable pub set_values : Values → Values → Values
set_values q [] = q
set_values q ((k, v) ∷ params) = set_values (set_value q k v) params

-- clientDisplayName
unfoldable pub client_display_name : Option OAuthClient → Text
client_display_name none = codes "An MCP client"
client_display_name (some c) =
    if text_eq (trim_space c.name) [] then codes "An MCP client" else c.name

abbrev pub Answer : Type 0
Answer = Service × ConsentReply

-- The last lines of `issueCode` and of `respondRedirect`.
unfoldable pub redirect_reply : Option Text → ConsentReply
redirect_reply none = consent_error 400
redirect_reply (some u) = redirect_to u

-- The clients' part of `HandleConsentInfo`, which gets the client from `checkAuthRequest`.
abbrev client_of : OAuthTables → Text → Option OAuthClient
client_of t client_id = elim (get_oauth_client t client_id) [ err e ↦ none | ok c ↦ some c ]

-- HandleConsentInfo; `base_domain`, `mcp_group` and `csrf_token` are the server's
unfoldable pub handle_consent_info :
    {N : Type 0}
    → Config N
    → Text
    → Text
    → (Text → Text)
    → OAuthTables
    → Principal
    → AuthRequest
    → ConsentReply
handle_consent_info cfg base_domain mcp_group csrf_token t p q =
    if not (mcp_user_allowed cfg p.user) then consent_error 403 else elim (check_auth_request t q) [
      | err e ↦ consent_error 400
      | ok _ ↦ consent_info (record {
        client_name = client_display_name (client_of t q.client_id);
        user = p.user;
        base_domain = base_domain;
        default_target = mcp_group;
        capabilities = consent_capabilities;
        csrf = csrf_token p.user;
      })
    ]

module _ {U : Type 0} (parse_url : Text → Option U) (query : U → Values)
    (print_with : U → Values → Text) where
  -- redirectURL
  unfoldable pub redirect_url : Text → Text → Values → Option Text
  redirect_url uri state params = elim (parse_url uri) [
    | none ↦ none
    | some u ↦
        let q = set_values (query u) params in
        some
          (print_with u (if text_eq state [] then q else set_value q (codes "state") (state ∷ [])))
  ]

  -- errorRedirectURL
  unfoldable pub error_redirect_url : Text → Text → Text → Text → Option Text
  error_redirect_url uri state code desc =
      redirect_url uri state
        ((codes "error", code ∷ []) ∷ (codes "error_description", desc ∷ []) ∷ [])

  -- respondRedirect, and redirectWithError
  unfoldable pub respond_redirect : Text → Text → Text → Text → ConsentReply
  respond_redirect uri state code desc = redirect_reply (error_redirect_url uri state code desc)

  -- The end of `issueCode`: the redirect that carries the code.
  unfoldable pub send_code : AuthParams → Text → ConsentReply
  send_code p code =
      redirect_reply (redirect_url p.redirect_uri p.state ((codes "code", code ∷ []) ∷ []))

  -- The draw of a code in `issueCode`, and what follows.
  unfoldable pub draw_code :
      Service → AuthParams → (Service → Text → Answer) → List (Option Text) → Answer
  draw_code s p next [] = (
    s,
    respond_redirect p.redirect_uri p.state (codes "server_error") (codes "could not issue code"),
  )
  draw_code s p next (none ∷ rest) = (
    record s { random = rest },
    respond_redirect p.redirect_uri p.state (codes "server_error") (codes "could not issue code"),
  )
  draw_code s p next (some x ∷ rest) = next (record s { random = rest }) x

  -- What follows in `issueCode` on the INSERT of the code.
  unfoldable pub code_stored : Service → AuthParams → Text → Result TableError OAuthTables → Answer
  code_stored s p code (err e) = (
    s,
    respond_redirect p.redirect_uri p.state (codes "server_error") (codes "could not persist code"),
  )
  code_stored s p code (ok t) = (record s { tables = t }, send_code p code)

  -- How `HandleAuthorize` and `HandleConsentSubmit` report an error of the authorization request.
  unfoldable pub report : Text → Text → AuthError → ConsentReply
  report uri state untrusted = consent_error 400
  report uri state (trusted code desc) = respond_redirect uri state code desc

  -- HandleAuthorize
  unfoldable pub handle_authorize :
      {N : Type 0} → Config N → OAuthTables → Principal → AuthRequest → ConsentReply
  handle_authorize cfg t p q =
      if not (mcp_user_allowed cfg p.user)
      then consent_error 403
      else elim (check_auth_request t q) [ err e ↦ report q.redirect_uri q.state e | ok _ ↦ screen ]

  module _ (hash csrf_token : Text → Text) where
    -- csrfValid
    unfoldable pub csrf_valid : Text → Text → Bool
    csrf_valid user token = text_eq (csrf_token user) token

    -- The row that `issueCode` writes.
    unfoldable pub code_row : AuthParams → Principal → List Grant → Text → ℕ → AuthCode
    code_row ap p grants code now = record {
      hash = hash code;
      client_id = ap.client_id;
      user = p.user;
      redirect_uri = ap.redirect_uri;
      code_challenge = ap.code_challenge;
      code_challenge_method = ap.code_challenge_method;
      grants = grants;
      expires_at = now + code_ttl;
    }

    -- issueCode
    unfoldable pub issue_code : Service → Principal → AuthParams → List Grant → ℕ → Answer
    issue_code s p ap grants now =
        draw_code s ap
          (λ s' code.
            code_stored s' ap code (create_auth_code s'.tables (code_row ap p grants code now)))
          s.random

    -- The end of `HandleConsentSubmit`, behind the check of the authorization request.
    unfoldable pub decide : Service → Principal → ConsentRequest → AuthParams → ℕ → Answer
    decide s p req ap now =
        if text_eq req.action (codes "deny")
        then (
          s,
          respond_redirect ap.redirect_uri ap.state (codes "access_denied")
              (codes "user denied the request"),
        )
        else elim (parse_consent_grants req.grants req.acknowledge_global) [
          | err e ↦
              (s, respond_redirect ap.redirect_uri ap.state (codes "invalid_scope") (error_text e))
          | ok grants ↦ issue_code s p ap grants now
        ]

    -- HandleConsentSubmit; `body` is `none` if it is not JSON
    unfoldable pub handle_consent_submit :
        {N : Type 0} → Config N → Service → Principal → Option ConsentRequest → ℕ → Answer
    handle_consent_submit cfg s p body now =
        if not (mcp_user_allowed cfg p.user) then (s, consent_error 403) else elim body [
          | none ↦ (s, consent_error 400)
          | some req ↦
              if not (csrf_valid p.user req.csrf)
              then (s, consent_error 400)
              else if not (text_eq req.action (codes "approve"))
                  && not (text_eq req.action (codes "deny"))
              then (s, consent_error 400)
              else elim (check_auth_request s.tables (authorization req)) [
                | err e ↦ (s, report req.redirect_uri req.state e)
                | ok ap ↦ decide s p req ap now
              ]
        ]
