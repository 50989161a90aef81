-- ===== src/Auth/KeyPlane.antt =====
-- internal/auth/auth.go: how the ingest plane gets a principal from the key in a request. The hash
-- of a token is that of the package keys, SHA-256 in hex, and is a parameter.
use gotifacts.Prelude.{
  ℕ, ◌≡◌, ◌≢◌, refl, Bool, false, List, [], Option, none, some, if◌then◌else◌, Bool-cases, inl, inr,
  All, ok, err, any, ltb,
}
use gotifacts.Text.{Text, text_eq}
use gotifacts.Text.Equality.{text_eq_of_ne}
use gotifacts.Auth.{Grant, Principal, api_key_source}
use gotifacts.Auth.Planes.{bearer_token}
use gotifacts.Store.ApiKeys.{KeyTables, ApiKey, is_expired, find_key_by_hash, touch_key, create_key}
use gotifacts.Store.ApiKeys.Creation.{IsStorable, IsSound, created, find_key_by_hash-create_key}

-- The principal of a key.
unfoldable pub key_principal : ApiKey → Principal
key_principal k = record {
  user = k.name;
  admin = k.admin;
  grants = k.grants;
  source = api_key_source;
  key_id = k.id;
}

-- Authenticator.APIKey; `now` is the time of the test of expiry, and `ts` that of TouchKey
unfoldable pub api_key :
    (Text → Text) → KeyTables → List (Text × Text) → ℕ → ℕ → KeyTables × Option Principal
api_key hash t headers now ts =
    let token = bearer_token headers in
    if text_eq token [] then (t, none) else elim (find_key_by_hash t (hash token)) [
      | err e ↦ (t, none)
      | ok k ↦ if is_expired k now then (t, none) else (touch_key t k.id ts, some (key_principal k))
    ]

module _ (hash : Text → Text) (headers : List (Text × Text)) (now ts : ℕ) where
  api_key-found :
      (t : KeyTables) (k : ApiKey)
      → bearer_token headers ≢ []
      → find_key_by_hash t (hash (bearer_token headers)) ≡ ok k
      → (api_key hash t headers now ts).1
        ≡ (if is_expired k now then none else some (key_principal k))
  unfolding api_key
  api_key-found t k ne h = elim (Bool-cases (is_expired k now)) [
    | inl e ↦ rw (text_eq_of_ne (bearer_token headers) [] ne, h, e) refl
    | inr e ↦ rw (text_eq_of_ne (bearer_token headers) [] ne, h, e) refl
  ]

  -- A request that bears the token of a key just created, with a new hash and grants that the
  -- registry keeps as they are, acts with the name, the privilege and the grants that the key was
  -- given, an administrator without grants, unless the key has a time of expiry that has passed;
  -- then it has no principal.
  pub api_key-create_key :
      (t : KeyTables) (name : Text) (admin : Bool) (grants : List Grant) (expires_at : Option ℕ)
      (made : ℕ)
      → IsSound t
      → All IsStorable grants
      → any (λ k. text_eq k.key_hash (hash (bearer_token headers))) t.keys ≡ false
      → bearer_token headers ≢ []
      → (api_key hash
          (create_key t name admin grants expires_at (hash (bearer_token headers)) made).0
          headers
          now
          ts).1
        ≡ (if elim expires_at [ none ↦ false | some e ↦ ltb e now ]
            then none
            else some (record {
              user = name;
              admin = admin;
              grants = if admin then [] else grants;
              source = api_key_source;
              key_id = t.next_id;
            }))
  unfolding is_expired key_principal
  api_key-create_key t name admin grants expires_at made s g h ne =
      api_key-found (create_key t name admin grants expires_at (hash (bearer_token headers)) made).0
        (created t name admin grants expires_at made) ne
        (find_key_by_hash-create_key t name admin grants expires_at (hash (bearer_token headers))
          made s g h).1
