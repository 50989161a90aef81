-- ===== src/Store/ApiKeys.antt =====
-- internal/store/keys.go: the tables of API keys and of their grants. A deleted key takes its grants
-- with it (ON DELETE CASCADE), and the hash of a key is unique.
pub mod Creation
use gotifacts.Prelude.{
  ℕ, ◌+◌, Bool, true, false, not, List, [], ◌∷◌, ◌++◌, map, Option, none, some, if◌then◌else◌,
  Result, ok, err, any, ltb, ◌==◌,
}
use gotifacts.Text.{Text, text_eq}
use gotifacts.Keys.{parse_capabilities, join_capabilities}
use gotifacts.Auth.{Grant, grant_group, parse_grant_kind}

-- ErrNotFound, and the error of a UNIQUE constraint
pub data KeyError : Type 0 where
  no_such_key duplicate_hash : KeyError

-- A row of api_keys
pub record KeyRow : Type 0 where
  pub id : ℕ
  pub name : Text
  pub key_hash : Text
  pub admin : Bool
  pub created_at : ℕ
  pub last_used_at : Option ℕ
  pub expires_at : Option ℕ

-- A row of api_key_grants
pub record GrantRow : Type 0 where
  pub key_id : ℕ
  pub kind : Text
  pub target : Text
  pub permissions : Text

-- Both tables, the rows by id, and the next id of a key.
pub record KeyTables : Type 0 where
  pub keys : List KeyRow
  pub grants : List GrantRow
  pub next_id : ℕ

-- APIKey
pub record ApiKey : Type 0 where
  pub id : ℕ
  pub name : Text
  pub admin : Bool
  pub grants : List Grant
  pub created_at : ℕ
  pub last_used_at : Option ℕ
  pub expires_at : Option ℕ

-- APIKey.Expired
unfoldable pub is_expired : ApiKey → ℕ → Bool
is_expired k now = elim k.expires_at [ none ↦ false | some t ↦ ltb t now ]

-- A grant as it is read; permissions that cannot be parsed grant nothing.
unfoldable pub read_grant : GrantRow → Grant
read_grant g = record {
  kind = parse_grant_kind g.kind;
  target = g.target;
  permissions = elim (parse_capabilities g.permissions) [ err e ↦ [] | ok caps ↦ caps ];
}

-- Store.loadGrants
unfoldable pub load_grants : List GrantRow → ℕ → List Grant
load_grants [] id = []
load_grants (g ∷ gs) id =
    let rest = load_grants gs id in if g.key_id == id then read_grant g ∷ rest else rest

unfoldable pub find_key : (KeyRow → Bool) → List KeyRow → Option KeyRow
find_key p [] = none
find_key p (k ∷ ks) = if p k then some k else find_key p ks

unfoldable pub with_grants : KeyTables → KeyRow → ApiKey
with_grants t k = record {
  id = k.id;
  name = k.name;
  admin = k.admin;
  grants = load_grants t.grants k.id;
  created_at = k.created_at;
  last_used_at = k.last_used_at;
  expires_at = k.expires_at;
}

-- The key of a row that a SELECT may have found
unfoldable pub key_result : KeyTables → Option KeyRow → Result KeyError ApiKey
key_result t none = err no_such_key
key_result t (some k) = ok (with_grants t k)

-- GetKey
unfoldable pub get_key : KeyTables → ℕ → Result KeyError ApiKey
get_key t id = key_result t (find_key (λ k. k.id == id) t.keys)

-- FindKeyByHash
unfoldable pub find_key_by_hash : KeyTables → Text → Result KeyError ApiKey
find_key_by_hash t hash = key_result t (find_key (λ k. text_eq k.key_hash hash) t.keys)

-- The INSERT of a grant
unfoldable pub grant_row : ℕ → Grant → GrantRow
grant_row id g = record {
  key_id = id;
  kind = if text_eq g.kind [] then grant_group else g.kind;
  target = g.target;
  permissions = join_capabilities g.permissions;
}

-- CreateKey, at the time `ts`
unfoldable pub create_key :
    KeyTables → Text → Bool → List Grant → Option ℕ → Text → ℕ → KeyTables × Result KeyError ApiKey
create_key t name admin grants expires_at hash ts =
    if any (λ k. text_eq k.key_hash hash) t.keys
    then (t, err duplicate_hash)
    else let row : KeyRow = record {
      id = t.next_id;
      name = name;
      key_hash = hash;
      admin = admin;
      created_at = ts;
      last_used_at = none;
      expires_at = expires_at;
    } in
      let t' : KeyTables = record {
        keys = t.keys ++ row ∷ [];
        grants = t.grants ++ (if admin then [] else map (grant_row t.next_id) grants);
        next_id = t.next_id + 1;
      } in
      (t', get_key t' t.next_id)

-- TouchKey
unfoldable pub touch_key : KeyTables → ℕ → ℕ → KeyTables
touch_key t id ts = record t {
  keys = map (λ k. if k.id == id then record k { last_used_at = some ts } else k) t.keys;
}

unfoldable pub delete_keys : ℕ → List KeyRow → List KeyRow
delete_keys id [] = []
delete_keys id (k ∷ ks) = let rest = delete_keys id ks in if k.id == id then rest else k ∷ rest

unfoldable pub delete_grants : ℕ → List GrantRow → List GrantRow
delete_grants id [] = []
delete_grants id (g ∷ gs) =
    let rest = delete_grants id gs in if g.key_id == id then rest else g ∷ rest

-- DeleteKey
unfoldable pub delete_key : KeyTables → ℕ → KeyTables × Result KeyError (Unit {0})
delete_key t id =
    if any (λ k. k.id == id) t.keys
    then (record t { keys = delete_keys id t.keys; grants = delete_grants id t.grants }, ok tt)
    else (t, err no_such_key)
