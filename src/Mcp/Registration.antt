-- ===== src/Mcp/Registration.antt =====
-- internal/mcpserver/oauth.go: registration of clients. The parser of URLs and the hash of keys are
-- parameters.
pub mod Uris
use gotifacts.Prelude.{
  ℕ, ◌+◌, ◌*◌, Bool, true, false, not, ◌&&◌, ◌||◌, List, [], ◌∷◌, ◌++◌, Option, none, some,
  if◌then◌else◌, Result, ok, err, fail_if, ◌>>◌, ◌>>=◌, any, ltb, leb,
}
use gotifacts.Text.{Text, codes, text_eq, contains_text, trim_space}
use gotifacts.Keys.{Capability, join_capabilities}
use gotifacts.Auth.{Grant, Principal, api_key_source}
use gotifacts.Mcp.Limiter.{RateLimiter, allow}
use gotifacts.Store.OAuth.{
  OAuthTables, OAuthClient, AuthCode, Token, create_oauth_client, get_oauth_client,
  consume_auth_code, create_token, find_token, delete_token, touch_token,
}
use gotifacts.Mcp.Service.{
  TokenReply, Registered, Reply, method_not_allowed, oauth_error, registered, tokens_issued,
  Service, Handled, server_error, invalid_grant, invalid_request, invalid_client, with_random,
  with_token, form_value, TokenRequest,
}

-- registerRequest
pub record RegisterRequest : Type 0 where
  pub redirect_uris : List Text
  pub client_name : Text
  pub token_auth_method : Text

-- A parsed URL, as much of it as is read
pub record Url : Type 0 where
  pub scheme : Text
  pub hostname : Text
  pub fragment : Text

abbrev pub no_uris : List Text → Bool
no_uris [] = true
no_uris (u ∷ us) = false

module _ (parse_url : Text → Option Url) where
  -- validRedirectURI
  unfoldable pub valid_redirect_uri : Text → Bool
  valid_redirect_uri raw = elim (parse_url raw) [
    | none ↦ false
    | some u ↦
        if not (text_eq u.fragment [])
        then false
        else if text_eq u.scheme (codes "https")
        then true
        else text_eq u.scheme (codes "http")
          && (text_eq u.hostname (codes "localhost")
              || text_eq u.hostname (codes "127.0.0.1")
              || text_eq u.hostname (codes "::1"))
  ]

  -- The checks of `handleRegister` on its body.
  unfoldable pub check_registration : RegisterRequest → Bool
  check_registration req =
      not (no_uris req.redirect_uris)
      && not (any (λ u. not (valid_redirect_uri u)) req.redirect_uris)

  module _ (hash : Text → Text) where
    -- The end of `handleRegister`, with the ids that were drawn.
    unfoldable pub store_client :
        Service → RegisterRequest → Text → Text → Text → Text → ℕ → Handled
    store_client s req client_id secret secret_hash method now =
        elim (create_oauth_client s.tables
          (record {
            client_id = client_id;
            secret_hash = secret_hash;
            name = req.client_name;
            redirect_uris = req.redirect_uris;
            token_auth_method = method;
            created_at = now;
          })
          now) [
            | err e ↦ (s, server_error)
            | ok t ↦ (
              record s { tables = t },
              registered (record {
                client_id = client_id;
                client_secret = secret;
                redirect_uris = req.redirect_uris;
                token_auth_method = method;
              }),
            )
          ]

    -- The id is drawn; the secret of a client that has one is drawn too.
    unfoldable pub enroll : Service → RegisterRequest → Text → Text → ℕ → Handled
    enroll s req client_id method now =
        if text_eq method (codes "client_secret_post")
          || text_eq method (codes "client_secret_basic")
        then with_random s
            (λ s' secret. store_client s' req client_id secret (hash secret) method now)
        else store_client s req client_id [] [] method now

    abbrev method_of : RegisterRequest → Text
    method_of req = if text_eq req.token_auth_method [] then codes "none" else req.token_auth_method

    -- The middle of `handleRegister`, for a body that passes its checks.
    unfoldable pub register_client : Service → RegisterRequest → ℕ → Handled
    register_client s req now =
        with_random s (λ s' x. enroll s' req (codes "mcp-" ++ x) (method_of req) now)

    -- handleRegister; `body` is `none` if it is not JSON
    unfoldable pub handle_register : Service → Bool → Option RegisterRequest → ℕ → Handled
    handle_register s is_post body now =
        if not is_post
        then (s, method_not_allowed)
        else let (reg, admitted) = allow s.reg now in
          let s' = record s { reg = reg } in
          if not admitted
          then (s', oauth_error 429 (codes "temporarily_unavailable"))
          else elim body [
            | none ↦ (s', oauth_error 400 (codes "invalid_client_metadata"))
            | some req ↦
                if check_registration req
                then register_client s' req now
                else (s', oauth_error 400 (codes "invalid_redirect_uri"))
          ]
