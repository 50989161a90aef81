-- ===== src/Store/OAuth.antt =====
-- internal/store/oauth.go: the tables of the OAuth clients, codes and tokens of the MCP server.
-- Grants and redirect URIs are the lists that their JSON forms stand for. The rows that an INSERT
-- refuses are those of a primary key that is taken.
pub mod Codes
pub mod Tokens
use gotifacts.Prelude.{
  ℕ, Bool, true, false, not, ◌&&◌, List, [], ◌∷◌, ◌++◌, map, Option, none, some, if◌then◌else◌,
  Result, ok, err, any, ltb,
}
use gotifacts.Prelude.Tables.{find_first, remove_if}
use gotifacts.Text.{Text, codes, text_eq}
use gotifacts.Auth.{Grant}

-- ErrNotFound, and the failure of an INSERT
pub data TableError : Type 0 where
  no_such_row taken : TableError

pub record OAuthClient : Type 0 where
  pub client_id : Text
  pub secret_hash : Text
  pub name : Text
  pub redirect_uris : List Text
  pub token_auth_method : Text
  pub created_at : ℕ

pub record AuthCode : Type 0 where
  pub hash : Text
  pub client_id : Text
  pub user : Text
  pub redirect_uri : Text
  pub code_challenge : Text
  pub code_challenge_method : Text
  pub grants : List Grant
  pub expires_at : ℕ

pub record Token : Type 0 where
  pub hash : Text
  pub conn_id : Text
  pub kind : Text
  pub client_id : Text
  pub user : Text
  pub grants : List Grant
  pub expires_at : ℕ
  pub created_at : ℕ
  pub last_used_at : Option ℕ

pub record OAuthTables : Type 0 where
  pub clients : List OAuthClient
  pub codes : List AuthCode
  pub tokens : List Token

-- CreateOAuthClient
unfoldable pub create_oauth_client : OAuthTables → OAuthClient → ℕ → Result TableError OAuthTables
create_oauth_client t c ts =
    if any (λ d. text_eq d.client_id c.client_id) t.clients
    then err taken
    else let method =
        if text_eq c.token_auth_method [] then codes "none" else c.token_auth_method in
      ok (record t {
        clients = t.clients ++ record c { token_auth_method = method; created_at = ts } ∷ [];
      })

abbrev pub row_or_error {ℓ} : {A : Type ℓ} → Option A → Result TableError A
row_or_error none = err no_such_row
row_or_error (some a) = ok a

-- GetOAuthClient
unfoldable pub get_oauth_client : OAuthTables → Text → Result TableError OAuthClient
get_oauth_client t client_id =
    row_or_error (find_first (λ c. text_eq c.client_id client_id) t.clients)

-- CreateAuthCode
unfoldable pub create_auth_code : OAuthTables → AuthCode → Result TableError OAuthTables
create_auth_code t c =
    if any (λ d. text_eq d.hash c.hash) t.codes
    then err taken
    else ok (record t { codes = t.codes ++ c ∷ [] })

-- DELETE FROM oauth_codes WHERE code_hash=?
abbrev pub without_code : OAuthTables → Text → OAuthTables
without_code t hash = record t { codes = remove_if (λ c. text_eq c.hash hash) t.codes }

-- ConsumeAuthCode, at the time `now`: the code is deleted also when it has expired
unfoldable pub consume_auth_code : OAuthTables → Text → ℕ → OAuthTables × Result TableError AuthCode
consume_auth_code t hash now = elim (find_first (λ c. text_eq c.hash hash) t.codes) [
  | none ↦ (t, err no_such_row)
  | some c ↦ (without_code t hash, if ltb c.expires_at now then err no_such_row else ok c)
]

-- CreateToken
unfoldable pub create_token : OAuthTables → Token → ℕ → Result TableError OAuthTables
create_token t k ts =
    if any (λ d. text_eq d.hash k.hash) t.tokens
    then err taken
    else ok
        (record t { tokens = t.tokens ++ record k { created_at = ts; last_used_at = none } ∷ [] })

-- WHERE token_hash=? AND kind=?
unfoldable pub is_token : Text → Text → Token → Bool
is_token kind hash k = text_eq k.hash hash && text_eq k.kind kind

-- FindToken, at the time `now`
unfoldable pub find_token : OAuthTables → Text → Text → ℕ → Result TableError Token
find_token t kind hash now = elim (find_first (is_token kind hash) t.tokens) [
  | none ↦ err no_such_row
  | some k ↦ if ltb k.expires_at now then err no_such_row else ok k
]

-- TouchToken
unfoldable pub touch_token : OAuthTables → Text → ℕ → OAuthTables
touch_token t hash ts = record t {
  tokens =
      map (λ k. if text_eq k.hash hash then record k { last_used_at = some ts } else k) t.tokens;
}

-- DeleteToken
unfoldable pub delete_token : OAuthTables → Text → OAuthTables
delete_token t hash = record t { tokens = remove_if (λ k. text_eq k.hash hash) t.tokens }

-- DeleteConnection
unfoldable pub delete_connection : OAuthTables → Text → OAuthTables × Result TableError (Unit {0})
delete_connection t conn_id = (
  record t { tokens = remove_if (λ k. text_eq k.conn_id conn_id) t.tokens },
  if any (λ k. text_eq k.conn_id conn_id) t.tokens then ok tt else err no_such_row,
)
