-- ===== src/Mcp/Tests.antt =====
-- The theorems about the OAuth server at concrete inputs. Its hash puts a byte before the text, and
-- the challenge of a verifier is the verifier.
use gotifacts.Prelude.{
  ℕ, ◌≤◌, ◌≡◌, ◌≢◌, refl, sym, ap, ◌∙◌, ◌+◌, true, false, List, [], ◌∷◌, arith, Option, none, some,
  ok,
}
use gotifacts.Prelude.Tables.{find_first, remove_if}
use gotifacts.Text.{
  Text, codes, text_eq, split, equal_fold, to_lower, lower_byte, trim, trim_left, trim_right,
  contains_text, joined, join, is_space, trim_space,
}
use gotifacts.Text.Equality.{text_eq_refl}
use gotifacts.Keys.{cap_publish, join_capabilities, parse_capability, is_capability}
use gotifacts.Auth.{Grant, Principal, grant_group, forward_auth_source}
use gotifacts.Auth.Planes.{Config, mcp_user_allowed}
use gotifacts.Store.OAuth.{
  OAuthTables, OAuthClient, AuthCode, Token, create_oauth_client, get_oauth_client,
  create_auth_code, consume_auth_code, create_token, find_token, is_token, delete_token,
  delete_connection,
}
use gotifacts.Store.OAuth.Tokens.{delete_connection_revoked}
use gotifacts.Mcp.Limiter.{new_rate_limiter, allow, allowed, allowed_bounded}
use gotifacts.Mcp.Service.{
  Service, Handled, TokenReply, tokens_issued, with_random, draw, with_token, inserted, form_value,
}
use gotifacts.Router.Label.{is_label}
use gotifacts.Mcp.Authorization.{check_parameters, check_auth_request}
use gotifacts.Mcp.Consent.{
  ConsentRequest, Values, Answer, authorization, csrf_valid, decide, issue_code, draw_code,
  code_stored, code_row, handle_authorize, handle_consent_submit,
}
use gotifacts.Mcp.Consent.Errors.{IsReported, handle_authorize-IsReported}
use gotifacts.Mcp.Consent.Issue.{IsGranted, handle_consent_submit-IsGranted}
use gotifacts.Mcp.Consent.Grants.{
  parse_consent_grants, parse_each_grant, parse_consent_grant, validate_grant_target,
  normalize_target, parse_consent_caps, parse_permissions, offered,
}
use gotifacts.Mcp.Registration.{
  RegisterRequest, Url, check_registration, valid_redirect_uri, store_client, enroll,
  register_client, handle_register,
}
use gotifacts.Mcp.Registration.Uris.{IsAdmitted, handle_register-IsAdmitted}
use gotifacts.Mcp.Token.{
  scope_caps, scope_grants, scope_from_grants, new_token, issue_tokens, refresh_grant, pkce_verify,
  redeem, code_grant,
}
use gotifacts.Mcp.Token.Exchange.{IsRedeemed, code_grant-IsRedeemed}
use gotifacts.Mcp.Token.Rotation.{refresh_grant-once}

abbrev hash_text : Text → Text
hash_text s = b'#' ∷ s

abbrev challenge_text : Text → Text
challenge_text s = s

abbrev app : OAuthClient
app = record {
  client_id = codes "mcp-1";
  secret_hash = [];
  name = codes "App";
  redirect_uris = codes "https://a" ∷ [];
  token_auth_method = codes "none";
  created_at = 1;
}

abbrev publishing : Grant
publishing = record { kind = grant_group; target = codes "team"; permissions = cap_publish ∷ [] }

abbrev waiting_code : AuthCode
waiting_code = record {
  hash = codes "#c";
  client_id = codes "mcp-1";
  user = codes "ann";
  redirect_uri = codes "https://a";
  code_challenge = codes "v";
  code_challenge_method = codes "S256";
  grants = publishing ∷ [];
  expires_at = 100;
}

abbrev old_token : Token
old_token = record {
  hash = codes "#r";
  conn_id = codes "conn";
  kind = codes "refresh";
  client_id = codes "mcp-1";
  user = codes "ann";
  grants = publishing ∷ [];
  expires_at = 100;
  created_at = 1;
  last_used_at = none;
}

abbrev other_token : Token
other_token = record old_token { hash = codes "#q"; conn_id = codes "other" }

abbrev server : Service
server = record {
  tables = record {
    clients = app ∷ [];
    codes = waiting_code ∷ [];
    tokens = old_token ∷ other_token ∷ [];
  };
  reg = new_rate_limiter 2 60;
  random = some (codes "x") ∷ some (codes "y") ∷ some (codes "z") ∷ [];
  access_ttl = 50;
  refresh_ttl = 500;
}

abbrev code_form : List (Text × Text)
code_form =
    (codes "code", codes "c")
    ∷ (codes "code_verifier", codes "v")
    ∷ (codes "redirect_uri", codes "https://a")
    ∷ []

abbrev code_reply : TokenReply
code_reply = record {
  access_token = codes "y";
  refresh_token = codes "z";
  expires_in = 0;
  scope = codes "publish";
}

abbrev redeemed : Service
redeemed = (code_grant hash_text challenge_text server (codes "mcp-1") code_form 10).0

code_grant_runs :
    code_grant hash_text challenge_text server (codes "mcp-1") code_form 10
    ≡ (redeemed, tokens_issued code_reply)
unfolding code_grant redeem pkce_verify issue_tokens with_random draw with_token inserted new_token
    form_value text_eq consume_auth_code create_token find_first remove_if scope_from_grants
    scope_grants scope_caps contains_text join_capabilities join joined
code_grant_runs = refl

code_grant-IsRedeemed_example :
    IsRedeemed hash_text challenge_text server (codes "mcp-1") code_form 10 20 redeemed code_reply
code_grant-IsRedeemed_example =
    code_grant-IsRedeemed hash_text challenge_text server redeemed (codes "mcp-1") code_form 10 20
      code_reply code_grant_runs (omega arith)

abbrev refresh_form : List (Text × Text)
refresh_form = (codes "refresh_token", codes "r") ∷ []

abbrev rotated : Service
rotated = (refresh_grant hash_text server (codes "mcp-1") refresh_form 10).0

abbrev refresh_reply : TokenReply
refresh_reply = record {
  access_token = codes "x";
  refresh_token = codes "y";
  expires_in = 0;
  scope = codes "publish";
}

refresh_grant_runs :
    refresh_grant hash_text server (codes "mcp-1") refresh_form 10
    ≡ (rotated, tokens_issued refresh_reply)
unfolding refresh_grant issue_tokens with_random draw with_token inserted new_token form_value
    text_eq find_token is_token delete_token create_token find_first remove_if scope_from_grants
    scope_grants scope_caps contains_text join_capabilities join joined
refresh_grant_runs = refl

different : (s t : Text) → text_eq s t ≡ false → s ≢ t
different s t h e = absurd (ground (arith, e, text_eq_refl t))

refresh_grant-once_example :
    refresh_grant hash_text rotated (codes "mcp-1") refresh_form 11
    ≢ (rotated, tokens_issued refresh_reply)
unfolding form_value text_eq
refresh_grant-once_example =
    refresh_grant-once hash_text server rotated rotated (codes "mcp-1") (codes "mcp-1") refresh_form
      refresh_form 10 11 refresh_reply refresh_reply refresh_grant_runs refl
      (different (codes "#x") (codes "#r") refl) (different (codes "#y") (codes "#r") refl)

-- What a revocation leaves.
abbrev revoked : OAuthTables
revoked = (delete_connection server.tables (codes "conn")).0

other_found : find_token revoked (codes "refresh") (codes "#q") 10 ≡ ok other_token
unfolding delete_connection find_token is_token text_eq find_first remove_if
other_found = refl

delete_connection_revoked_example : other_token.conn_id ≢ codes "conn"
delete_connection_revoked_example =
    delete_connection_revoked server.tables (codes "conn") (codes "refresh") (codes "#q") 10
      other_token other_found

allowed_bounded_example : allowed (new_rate_limiter 2 60) (70 ∷ 80 ∷ 90 ∷ 130 ∷ []) ≤ 4
unfolding new_rate_limiter
allowed_bounded_example =
    allowed_bounded (new_rate_limiter 2 60) 70 (70 ∷ 80 ∷ 90 ∷ 130 ∷ []) (ground arith)

-- Consent.
abbrev request : ConsentRequest
request = record {
  client_id = codes "mcp-1";
  redirect_uri = codes "https://a";
  code_challenge = codes "v";
  code_challenge_method = codes "S256";
  state = codes "st";
  csrf = codes "#ann";
  action = codes "approve";
  grants =
      record {
        kind = codes "group";
        target = codes "Team/";
        permissions = codes "publish" ∷ codes "publish" ∷ [];
      }
      ∷ [];
  acknowledge_global = false;
}

abbrev parsed : Text → Option Text
parsed s = some s

abbrev no_query : Text → Values
no_query s = []

abbrev printed : Text → Values → Text
printed s q = s

abbrev ann : Principal
ann = record {
  user = codes "ann";
  admin = false;
  grants = [];
  source = forward_auth_source;
  key_id = 0;
}

abbrev cfg : Config Text
cfg = record {
  admin_users = [];
  trusted_proxies = [];
  forward_auth_header = codes "Remote-User";
  mcp_allowed_users = codes "ann" ∷ [];
}

abbrev submitted : Answer
submitted =
    handle_consent_submit parsed no_query printed hash_text hash_text cfg server ann (some request)
      10

codes_grow : List AuthCode → ℕ
codes_grow [] = 0
codes_grow (c ∷ cs) = 1 + codes_grow cs

submitted_codes : codes_grow submitted.0.tables.codes ≡ 2
unfolding handle_consent_submit mcp_user_allowed equal_fold to_lower lower_byte csrf_valid text_eq
    check_auth_request check_parameters get_oauth_client contains_text decide parse_consent_grants
    parse_each_grant parse_consent_grant validate_grant_target normalize_target parse_consent_caps
    parse_permissions offered parse_capability is_capability trim trim_left trim_right trim_space
    is_space split is_label issue_code draw_code code_stored code_row create_auth_code find_first
    codes_grow
submitted_codes = refl

changed : submitted.0.tables ≢ server.tables
unfolding codes_grow
changed e =
    let k : 2 ≡ 1 = sym submitted_codes ∙ ap (λ (t : OAuthTables). codes_grow t.codes) e in
    absurd (omega (arith, k))

handle_consent_submit-IsGranted_example :
    IsGranted parsed no_query printed hash_text hash_text cfg server ann
      (some request)
      10
      20
      submitted
handle_consent_submit-IsGranted_example =
    handle_consent_submit-IsGranted parsed no_query printed hash_text hash_text cfg server ann
      (some request) 10 20 (omega arith) changed

ann-allowed : mcp_user_allowed cfg ann.user ≡ true
unfolding mcp_user_allowed equal_fold to_lower lower_byte text_eq
ann-allowed = refl

handle_authorize-IsReported_example :
    IsReported parsed no_query printed server.tables
      (authorization request)
      (handle_authorize parsed no_query printed cfg server.tables ann (authorization request))
handle_authorize-IsReported_example =
    handle_authorize-IsReported parsed no_query printed cfg server.tables ann
      (authorization request) ann-allowed

-- Registration.
abbrev loopback : Text → Option Url
loopback s = some (record { scheme = codes "http"; hostname = codes "localhost"; fragment = [] })

abbrev registration : RegisterRequest
registration = record {
  redirect_uris = codes "http://localhost/cb" ∷ [];
  client_name = codes "Tool";
  token_auth_method = codes "client_secret_post";
}

abbrev enrolled : Handled
enrolled = handle_register loopback hash_text server true (some registration) 10

clients_grow : List OAuthClient → ℕ
clients_grow [] = 0
clients_grow (c ∷ cs) = 1 + clients_grow cs

enrolled_clients : clients_grow enrolled.0.tables.clients ≡ 2
unfolding handle_register allow new_rate_limiter check_registration valid_redirect_uri
    register_client enroll store_client with_random draw create_oauth_client text_eq clients_grow
enrolled_clients = refl

enrolled_changed : enrolled.0.tables ≢ server.tables
unfolding clients_grow
enrolled_changed e =
    let k : 2 ≡ 1 = sym enrolled_clients ∙ ap (λ (t : OAuthTables). clients_grow t.clients) e in
    absurd (omega (arith, k))

handle_register-IsAdmitted_example :
    IsAdmitted hash_text loopback server (some registration) 10 enrolled
handle_register-IsAdmitted_example =
    handle_register-IsAdmitted hash_text loopback server true (some registration) 10
      (λ e. absurd (cc e), (λ e. absurd (cc e), (λ e. absurd (cc e), tt))) enrolled_changed
