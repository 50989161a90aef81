-- ===== src/Mcp/Token.antt =====
-- internal/mcpserver/oauth.go and mcpserver.go: the token endpoint, and the tokens that the MCP
-- endpoint admits. The hash of keys and the challenge of a PKCE verifier (SHA-256 in base64) are
-- parameters.
pub mod Issue
pub mod Exchange
pub mod Rotation
use gotifacts.Prelude.{
  ℕ, ◌+◌, ◌*◌, ◌/◌, Bool, true, false, not, ◌&&◌, ◌||◌, List, [], ◌∷◌, ◌++◌, Option, none, some,
  if◌then◌else◌, Result, ok, err, fail_if, ◌>>◌, ◌>>=◌, any, ltb, leb,
}
use gotifacts.Text.{Text, codes, text_eq, contains_text, trim_space}
use gotifacts.Keys.{Capability, join_capabilities}
use gotifacts.Auth.{Grant, Principal, api_key_source}
use gotifacts.Mcp.Limiter.{RateLimiter, allow}
use gotifacts.Store.OAuth.{
  OAuthTables, OAuthClient, AuthCode, Token, create_oauth_client, get_oauth_client,
  consume_auth_code, create_token, find_token, delete_token, touch_token,
}
use gotifacts.Mcp.Service.{
  TokenReply, Registered, Reply, method_not_allowed, oauth_error, registered, tokens_issued,
  Service, Handled, server_error, invalid_grant, invalid_request, invalid_client, with_random,
  with_token, form_value, TokenRequest,
}

-- The loops of scopeFromGrants
unfoldable pub scope_caps : List Capability → List Capability → List Capability
scope_caps caps [] = caps
scope_caps caps (c ∷ cs) = scope_caps (if contains_text caps c then caps else caps ++ c ∷ []) cs

unfoldable pub scope_grants : List Capability → List Grant → List Capability
scope_grants caps [] = caps
scope_grants caps (g ∷ gs) = scope_grants (scope_caps caps g.permissions) gs

-- scopeFromGrants
unfoldable pub scope_from_grants : List Grant → Text
scope_from_grants grants = join_capabilities (scope_grants [] grants)

-- The principal of a token.
abbrev pub token_principal : Token → Principal
token_principal k = record {
  user = k.user;
  admin = false;
  grants = k.grants;
  source = api_key_source;
  key_id = 0;
}

module _ (hash : Text → Text) where
  -- The checks of `authenticateClient` on the id and the secret of a client.
  unfoldable pub check_client : OAuthTables → Text → Text → Result Reply Text
  check_client t client_id secret =
      if text_eq client_id [] then err invalid_client else elim (get_oauth_client t client_id) [
        | err e ↦ err invalid_client
        | ok c ↦
            if not (text_eq c.secret_hash [])
              && (text_eq secret [] || not (text_eq (hash secret) c.secret_hash))
            then err invalid_client
            else ok client_id
      ]

  -- The row of a new token, by its hash.
  unfoldable pub new_token : Text → Text → Text → Text → Text → List Grant → ℕ → Token
  new_token plain conn_id kind client_id user grants expires_at = record {
    hash = hash plain;
    conn_id = conn_id;
    kind = kind;
    client_id = client_id;
    user = user;
    grants = grants;
    expires_at = expires_at;
    created_at = 0;
    last_used_at = none;
  }

  -- authenticateClient
  unfoldable pub authenticate_client :
      OAuthTables → List (Text × Text) → Option (Text × Text) → Result Reply Text
  authenticate_client t form basic_auth = elim basic_auth [
    | none ↦
        check_client t (form_value form (codes "client_id"))
          (form_value form (codes "client_secret"))
    | some (u, p) ↦ check_client t u p
  ]

  -- issueTokens
  unfoldable pub issue_tokens : Service → Text → Text → Text → List Grant → ℕ → Handled
  issue_tokens s conn_id client_id user grants now = with_random s (λ s1 access.
      with_random s1 (λ s2 refresh.
        with_token s2
          (new_token access conn_id (codes "access") client_id user grants (now + s.access_ttl)) now
          (λ s3.
            with_token s3
              (new_token refresh conn_id (codes "refresh") client_id user grants
                (now + s.refresh_ttl))
              now
              (λ s4. (
                s4,
                tokens_issued (record {
                  access_token = access;
                  refresh_token = refresh;
                  expires_in = s.access_ttl / 1000000000;
                  scope = scope_from_grants grants;
                }),
              )))))

  -- grantRefreshToken, for a client that is authenticated
  unfoldable pub refresh_grant : Service → Text → List (Text × Text) → ℕ → Handled
  refresh_grant s client_id form now =
      let refresh = form_value form (codes "refresh_token") in
      if text_eq refresh []
      then (s, invalid_request)
      else elim (find_token s.tables (codes "refresh") (hash refresh) now) [
        | err e ↦ (s, invalid_grant)
        | ok k ↦
            if not (text_eq k.client_id client_id)
            then (s, invalid_grant)
            else issue_tokens (record s { tables = delete_token s.tables k.hash }) k.conn_id
                client_id k.user k.grants now
      ]

  module _ (challenge_of : Text → Text) where
    -- pkceVerify
    unfoldable pub pkce_verify : Text → Text → Bool
    pkce_verify verifier challenge = text_eq (challenge_of verifier) challenge

    -- What follows on a code that was consumed.
    unfoldable pub redeem : Service → Text → List (Text × Text) → Text → AuthCode → ℕ → Handled
    redeem s client_id form verifier ac now =
        if not (text_eq ac.client_id client_id)
          || not (text_eq ac.redirect_uri (form_value form (codes "redirect_uri")))
        then (s, invalid_grant)
        else if not (pkce_verify verifier ac.code_challenge)
        then (s, invalid_grant)
        else with_random s (λ s' conn_id. issue_tokens s' conn_id client_id ac.user ac.grants now)

    -- grantAuthorizationCode, for a client that is authenticated
    unfoldable pub code_grant : Service → Text → List (Text × Text) → ℕ → Handled
    code_grant s client_id form now =
        let code = form_value form (codes "code") in
        let verifier = form_value form (codes "code_verifier") in
        if text_eq code [] || text_eq verifier []
        then (s, invalid_request)
        else let (t, consumed) = consume_auth_code s.tables (hash code) now in
          let s' = record s { tables = t } in
          elim consumed [
            | err e ↦ (s', invalid_grant)
            | ok ac ↦ redeem s' client_id form verifier ac now
          ]

    -- grantAuthorizationCode and grantRefreshToken
    unfoldable pub with_client :
        Service → List (Text × Text) → Option (Text × Text) → (Text → Handled) → Handled
    with_client s form basic_auth next = elim (authenticate_client s.tables form basic_auth) [
      | err reply ↦ (s, reply)
      | ok client_id ↦ next client_id
    ]

    -- handleToken, once the form is parsed
    unfoldable pub handle_form : Service → List (Text × Text) → Option (Text × Text) → ℕ → Handled
    handle_form s form basic_auth now =
        let grant_type = form_value form (codes "grant_type") in
        if text_eq grant_type (codes "authorization_code")
        then with_client s form basic_auth (λ client_id. code_grant s client_id form now)
        else if text_eq grant_type (codes "refresh_token")
        then with_client s form basic_auth (λ client_id. refresh_grant s client_id form now)
        else (s, oauth_error 400 (codes "unsupported_grant_type"))

    -- handleToken
    unfoldable pub handle_token : Service → TokenRequest → ℕ → Handled
    handle_token s r now = if not r.is_post then (s, method_not_allowed) else elim r.form [
      | none ↦ (s, invalid_request)
      | some form ↦ handle_form s form r.basic_auth now
    ]

  -- verifyToken: the principal that a bearer token stands for
  unfoldable pub verify_token : OAuthTables → Text → ℕ → OAuthTables × Option Principal
  verify_token t token now = elim (find_token t (codes "access") (hash token) now) [
    | err e ↦ (t, none)
    | ok k ↦ (touch_token t k.hash now, some (token_principal k))
  ]
