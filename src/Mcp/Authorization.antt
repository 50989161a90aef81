-- ===== src/Mcp/Authorization.antt =====
-- internal/mcpserver/oauth.go: the check of an authorization request. The text that
-- describes an error is kept where it is sent on to the client.
pub mod Trust
use gotifacts.Prelude.{◌≡◌, Bool, true, false, not, ◌||◌, [], if◌then◌else◌, Result, ok, err}
use gotifacts.Text.{Text, codes, text_eq, contains_text}
use gotifacts.Store.OAuth.{OAuthTables, OAuthClient, get_oauth_client}

-- authParams
pub record AuthParams : Type 0 where
  pub client_id : Text
  pub redirect_uri : Text
  pub code_challenge : Text
  pub code_challenge_method : Text
  pub state : Text

-- authError; a trusted one has a code and a description
pub data AuthError : Type 0 where
  untrusted : AuthError
  trusted : Text → Text → AuthError

-- An authorization request, as the query or the form gives it.
pub record AuthRequest : Type 0 where
  pub response_type : Text
  pub client_id : Text
  pub redirect_uri : Text
  pub challenge : Text
  pub method : Text
  pub state : Text

-- The checks of `checkAuthRequest` behind that of the redirect URI.
unfoldable pub check_parameters : AuthRequest → Result AuthError AuthParams
check_parameters r =
    let method = if text_eq r.method [] then codes "S256" else r.method in
    if not (text_eq r.response_type (codes "code"))
    then err
        (trusted (codes "unsupported_response_type") (codes "only response_type=code is supported"))
    else if text_eq r.challenge []
    then err (trusted (codes "invalid_request") (codes "code_challenge is required (PKCE)"))
    else if not (text_eq method (codes "S256"))
    then err (trusted (codes "invalid_request") (codes "code_challenge_method must be S256"))
    else ok (record {
      client_id = r.client_id;
      redirect_uri = r.redirect_uri;
      code_challenge = r.challenge;
      code_challenge_method = method;
      state = r.state;
    })

-- checkAuthRequest
unfoldable pub check_auth_request : OAuthTables → AuthRequest → Result AuthError AuthParams
check_auth_request t r =
    if text_eq r.client_id [] then err untrusted else elim (get_oauth_client t r.client_id) [
      | err e ↦ err untrusted
      | ok client ↦
          if text_eq r.redirect_uri [] || not (contains_text client.redirect_uris r.redirect_uri)
          then err untrusted
          else check_parameters r
    ]
