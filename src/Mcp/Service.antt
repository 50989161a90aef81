-- ===== src/Mcp/Service.antt =====
-- internal/mcpserver/oauth.go: the state and the replies of the OAuth server. The random source is
-- an input. A request takes place at one time `now`. The texts that describe an error to a reader,
-- and the types of grants and responses that a registration echoes, are left out of the replies.
use gotifacts.Prelude.{ℕ, Bool, List, [], ◌∷◌, Option, none, some, if◌then◌else◌, Result, ok, err}
use gotifacts.Text.{Text, codes, text_eq}
use gotifacts.Mcp.Limiter.{RateLimiter}
use gotifacts.Store.OAuth.{OAuthTables, TableError, Token, create_token}

-- tokenResponse
pub record TokenReply : Type 0 where
  pub access_token : Text
  pub refresh_token : Text
  pub expires_in : ℕ
  pub scope : Text

-- registerResponse
pub record Registered : Type 0 where
  pub client_id : Text
  pub client_secret : Text
  pub redirect_uris : List Text
  pub token_auth_method : Text

-- What a handler writes.
pub data Reply : Type 0 where
  method_not_allowed : Reply
  oauth_error : ℕ → Text → Reply
  registered : Registered → Reply
  tokens_issued : TokenReply → Reply

-- The state of `Service` that the handlers change. A draw from the random source gives the text
-- that its bytes encode to, or fails.
pub record Service : Type 0 where
  pub tables : OAuthTables
  pub reg : RateLimiter
  pub random : List (Option Text)
  pub access_ttl : ℕ
  pub refresh_ttl : ℕ

abbrev pub Handled : Type 0
Handled = Service × Reply

abbrev pub server_error : Reply
server_error = oauth_error 500 (codes "server_error")

abbrev pub invalid_grant : Reply
invalid_grant = oauth_error 400 (codes "invalid_grant")

abbrev pub invalid_request : Reply
invalid_request = oauth_error 400 (codes "invalid_request")

abbrev pub invalid_client : Reply
invalid_client = oauth_error 401 (codes "invalid_client")

-- rand.Read, and what follows if it succeeds
unfoldable pub draw : Service → (Service → Text → Handled) → List (Option Text) → Handled
draw s next [] = (s, server_error)
draw s next (none ∷ rest) = (record s { random = rest }, server_error)
draw s next (some x ∷ rest) = next (record s { random = rest }) x

unfoldable pub with_random : Service → (Service → Text → Handled) → Handled
with_random s next = draw s next s.random

-- An INSERT, and what follows if it succeeds
unfoldable pub inserted : Service → (Service → Handled) → Result TableError OAuthTables → Handled
inserted s next (err e) = (s, server_error)
inserted s next (ok t) = next (record s { tables = t })

-- CreateToken, and what follows if it succeeds
unfoldable pub with_token : Service → Token → ℕ → (Service → Handled) → Handled
with_token s k now next = inserted s next (create_token s.tables k now)

-- PostForm.Get
unfoldable pub form_value : List (Text × Text) → Text → Text
form_value [] name = []
form_value ((n, v) ∷ fs) name = if text_eq n name then v else form_value fs name

-- A request to the token endpoint: `form` is `none` if ParseForm fails.
pub record TokenRequest : Type 0 where
  pub is_post : Bool
  pub form : Option (List (Text × Text))
  pub basic_auth : Option (Text × Text)
