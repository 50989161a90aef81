-- ===== src/Mcp/Registration/Uris.antt =====
-- internal/mcpserver/oauth.go: what a registration that is stored has shown, and that its reply is
-- what the token endpoint then asks for.
use gotifacts.Prelude.{
  ℕ, ◌≡◌, ◌≢◌, refl, sym, ap, ◌∙◌, subst, Bool, true, false, not, ◌&&◌, ◌||◌, List, [], ◌∷◌, ◌++◌,
  Option, none, some, arith, if◌then◌else◌, Bool-cases, Option-cases, inl, inr, ◌⊎◌, Result, ok,
  Result-cases, any, All,
}
use gotifacts.Prelude.Tables.{find_first, find_first-append, find_first-none}
use gotifacts.Text.{Text, codes, text_eq}
use gotifacts.Text.Equality.{Text-cases, text_eq→eq, text_eq_refl, text_eq_of_ne}
use gotifacts.Mcp.Limiter.{allow}
use gotifacts.Store.OAuth.{
  OAuthTables, OAuthClient, TableError, create_oauth_client, get_oauth_client,
}
use gotifacts.Mcp.Service.{Registered, registered, Service, Handled, with_random, draw}
use gotifacts.Mcp.Registration.{
  RegisterRequest, Url, valid_redirect_uri, check_registration, no_uris, store_client, enroll,
  register_client, handle_register,
}
use gotifacts.Mcp.Token.{check_client}

draw-changed :
    (s : Service) (next : Service → Text → Handled) (r : List (Option Text))
    → All (λ o. o ≢ some []) r
    → (draw s next r).0.tables ≢ s.tables
    → (x : Text) × (rest : List (Option Text)) × (x ≢ [])
      × All (λ o. o ≢ some []) rest
      × (draw s next r ≡ next (record s { random = rest }) x)
unfolding draw
draw-changed s next [] n h = absurd (h refl)
draw-changed s next (none ∷ rest) n h = absurd (h refl)
draw-changed s next (some x ∷ rest) (n, ns) h = (x, rest, λ e. n (ap some e), ns, refl)

tables_injective :
    {a b : OAuthTables} → ◌≡◌ {A = Result TableError OAuthTables} (ok a) (ok b) → a ≡ b
tables_injective k = cc

-- The row that is written for a client.
abbrev stored_row : OAuthClient → ℕ → OAuthClient
stored_row c now = record c {
  token_auth_method = if text_eq c.token_auth_method [] then codes "none" else c.token_auth_method;
  created_at = now;
}

-- The scheme and the host that a redirect URI may have.
abbrev pub IsSafeTarget : Url → Type 0
IsSafeTarget u =
    (u.scheme ≡ codes "https")
    ⊎ ((u.scheme ≡ codes "http")
        × ((u.hostname ≡ codes "localhost")
            ⊎ ((u.hostname ≡ codes "127.0.0.1") ⊎ (u.hostname ≡ codes "::1"))))

eq_or :
    (s x y z : Text)
    → (text_eq s x || text_eq s y || text_eq s z) ≡ true
    → (s ≡ x) ⊎ ((s ≡ y) ⊎ (s ≡ z))
eq_or s x y z h = elim (Text-cases s x) [
  | inl e ↦ inl e
  | inr a ↦ elim (Text-cases s y) [
    | inl e ↦ inr (inl e)
    | inr b ↦ inr (inr (text_eq→eq s z (rw (text_eq_of_ne s x a, text_eq_of_ne s y b) at h)))
  ]
]

eq_and : (s x : Text) (b : Bool) → (text_eq s x && b) ≡ true → (s ≡ x) × (b ≡ true)
eq_and s x b h = elim (Bool-cases (text_eq s x)) [
  | inl e ↦ (text_eq→eq s x e, rw e at h)
  | inr e ↦ absurd (cc (rw e at h))
]

scheme_safe :
    (u : Url)
    → (if text_eq u.scheme (codes "https")
        then true
        else text_eq u.scheme (codes "http")
          && (text_eq u.hostname (codes "localhost")
              || text_eq u.hostname (codes "127.0.0.1")
              || text_eq u.hostname (codes "::1")))
      ≡ true
    → IsSafeTarget u
scheme_safe u h = elim (Text-cases u.scheme (codes "https")) [
  | inl e ↦ inl e
  | inr ne ↦
      let (http, hosts) = eq_and u.scheme (codes "http") _ (rw (text_eq_of_ne _ _ ne) at h) in
      inr (http, eq_or u.hostname (codes "localhost") (codes "127.0.0.1") (codes "::1") hosts)
]

module _ (hash : Text → Text) where
  get_of_create :
      (t t' : OAuthTables) (c : OAuthClient) (now : ℕ)
      → create_oauth_client t c now ≡ ok t'
      → (d : OAuthClient) × (get_oauth_client t' c.client_id ≡ ok d)
        × (d.secret_hash ≡ c.secret_hash)
        × (d.redirect_uris ≡ c.redirect_uris)
  unfolding create_oauth_client get_oauth_client
  get_of_create t t' c now h =
      elim (Bool-cases (any (λ (d : OAuthClient). text_eq d.client_id c.client_id) t.clients)) [
        | inl e ↦ absurd (ground arith)
        | inr e ↦
            let row = stored_row c now in
            let same : record t { clients = t.clients ++ row ∷ [] } ≡ t' =
              tables_injective (rw (create_oauth_client, e) at h) in
            let found : find_first (λ (d : OAuthClient). text_eq d.client_id c.client_id)
                  (t.clients ++ row ∷ [])
                ≡ some row =
              find_first-append (λ (d : OAuthClient). text_eq d.client_id c.client_id) t.clients row
              ∙ rw
                  (
                    find_first-none (λ (d : OAuthClient). text_eq d.client_id c.client_id) t.clients
                        e,
                    text_eq_refl c.client_id,
                  )
                  refl in
            (
              row,
              subst (λ x. get_oauth_client x c.client_id ≡ ok row) same
                  (rw (get_oauth_client, found) refl),
              refl,
              refl,
            )
      ]

  -- The secret that goes with a stored hash is accepted.
  check_client_of_row :
      (t : OAuthTables) (client_id secret : Text) (d : OAuthClient)
      → client_id ≢ []
      → get_oauth_client t client_id ≡ ok d
      → (secret ≢ [] × (d.secret_hash ≡ hash secret)) ⊎ (d.secret_hash ≡ [])
      → check_client hash t client_id secret ≡ ok client_id
  unfolding check_client
  check_client_of_row t client_id secret d n g (inl (m, e)) =
      rw
        (
          check_client,
          text_eq_of_ne client_id [] n,
          g,
          e,
          text_eq_of_ne secret [] m,
          text_eq_refl (hash secret),
        )
        (elim (Bool-cases (text_eq (hash secret) [])) [ inl f ↦ rw f refl | inr f ↦ rw f refl ])
  check_client_of_row t client_id secret d n g (inr e) =
      rw (check_client, text_eq_of_ne client_id [] n, g, e, text_eq_refl []) refl

  -- A client was stored with the URIs of the request, and its reply authenticates it.
  pub record IsStored (uris : List Text) (o : Handled) : Type 0 where
    pub reply : Registered
    pub client : OAuthClient
    pub replied : o.1 ≡ registered reply
    pub found : get_oauth_client o.0.tables reply.client_id ≡ ok client
    pub listed : client.redirect_uris ≡ uris
    pub authenticates :
        check_client hash o.0.tables reply.client_id reply.client_secret ≡ ok reply.client_id

  module _ (parse_url : Text → Option Url) where
    store_client-IsStored :
        (s : Service) (req : RegisterRequest) (client_id secret secret_hash method : Text) (now : ℕ)
        → client_id ≢ []
        → (secret ≢ [] × (secret_hash ≡ hash secret)) ⊎ (secret_hash ≡ [])
        → (store_client parse_url hash s req client_id secret secret_hash method now).0.tables
          ≢ s.tables
        → IsStored req.redirect_uris
            (store_client parse_url hash s req client_id secret secret_hash method now)
    unfolding store_client
    store_client-IsStored s req client_id secret secret_hash method now n c h =
        let row : OAuthClient = record {
          client_id = client_id;
          secret_hash = secret_hash;
          name = req.client_name;
          redirect_uris = req.redirect_uris;
          token_auth_method = method;
          created_at = now;
        } in
        elim (Result-cases (create_oauth_client s.tables row now)) [
          | inl (x, k) ↦ absurd (h (rw (store_client, k) refl))
          | inr (t, k) ↦
              let (d, g, a, u) = get_of_create s.tables t row now k in
              rw (store_client, k)
                (record {
                  reply = record {
                    client_id = client_id;
                    client_secret = secret;
                    redirect_uris = req.redirect_uris;
                    token_auth_method = method;
                  };
                  client = d;
                  replied = refl;
                  found = g;
                  listed = u;
                  authenticates =
                      check_client_of_row t client_id secret d n g
                        (subst (λ x. (secret ≢ [] × (x ≡ hash secret)) ⊎ (x ≡ [])) (sym a) c);
                })
        ]

    enroll-IsStored :
        (s : Service) (req : RegisterRequest) (client_id method : Text) (now : ℕ)
        → client_id ≢ []
        → All (λ o. o ≢ some []) s.random
        → (enroll parse_url hash s req client_id method now).0.tables ≢ s.tables
        → IsStored req.redirect_uris (enroll parse_url hash s req client_id method now)
    unfolding enroll with_random
    enroll-IsStored s req client_id method now n ns h =
        elim (Bool-cases (
          text_eq method (codes "client_secret_post")
          || text_eq method (codes "client_secret_basic"))) [
            | inl e ↦
                let (x, rest, m, _, k) =
                  draw-changed s
                    (λ s' secret.
                      store_client parse_url hash s' req client_id secret (hash secret) method now)
                    s.random ns (rw (enroll, e) at h) in
                rw (enroll, e, k)
                  (store_client-IsStored (record s { random = rest }) req client_id x (hash x)
                    method now n (inl (m, refl)) (rw (enroll, e, k) at h))
            | inr e ↦
                rw (enroll, e)
                  (store_client-IsStored s req client_id [] [] method now n (inr refl)
                    (rw (enroll, e) at h))
          ]

    register_client-IsStored :
        (s : Service) (req : RegisterRequest) (now : ℕ)
        → All (λ o. o ≢ some []) s.random
        → (register_client parse_url hash s req now).0.tables ≢ s.tables
        → IsStored req.redirect_uris (register_client parse_url hash s req now)
    unfolding register_client with_random
    register_client-IsStored s req now n h =
        let (x, rest, m, ns, e) = draw-changed s _ s.random n h in
        subst (IsStored req.redirect_uris) (sym e) (
          enroll-IsStored (record s { random = rest }) req _ _ now (λ z. absurd (cc z)) ns
            (λ z. h (ap (λ (o : Handled). o.0.tables) e ∙ z)))

    -- A redirect URI is a URL without a fragment, to https, or to http at the loopback host.
    pub record IsSafeUri (raw : Text) : Type 0 where
      pub url : Url
      pub parsed : parse_url raw ≡ some url
      pub no_fragment : url.fragment ≡ []
      pub target : IsSafeTarget url

    valid_redirect_uri-IsSafeUri :
        (raw : Text) → valid_redirect_uri parse_url raw ≡ true → IsSafeUri raw
    unfolding valid_redirect_uri
    valid_redirect_uri-IsSafeUri raw h = elim (Option-cases (parse_url raw)) [
      | inl e ↦ absurd (cc (rw (e, valid_redirect_uri) at h))
      | inr (u, e) ↦ elim (Text-cases u.fragment []) [
        | inr ne ↦ absurd (cc (rw (e, valid_redirect_uri, text_eq_of_ne u.fragment [] ne) at h))
        | inl f ↦ record {
          url = u;
          parsed = e;
          no_fragment = f;
          target = scheme_safe u (rw (e, valid_redirect_uri, f, text_eq_refl []) at h);
        }
      ]
    ]

    -- What has to hold for a client to be stored, and the client.
    pub record IsAdmitted (s : Service) (body : Option RegisterRequest) (now : ℕ) (o : Handled)
        : Type 0 where
      pub request : RegisterRequest
      pub is_json : body ≡ some request
      pub within_limit : (allow s.reg now).1 ≡ true
      pub given : request.redirect_uris ≢ []
      pub safe : All IsSafeUri request.redirect_uris
      pub enrolled : IsStored request.redirect_uris o

    checked_uris :
        (uris : List Text)
        → any (λ u. not (valid_redirect_uri parse_url u)) uris ≡ false
        → All IsSafeUri uris
    checked_uris [] h = tt
    checked_uris (u ∷ uris) h =
        (valid_redirect_uri-IsSafeUri u (ground arith), checked_uris uris (ground arith))

    given_uris : (uris : List Text) → no_uris uris ≡ false → uris ≢ []
    given_uris [] h e = absurd (cc)
    given_uris (u ∷ uris) h e = absurd (cc)

    -- If no draw of the random source is empty, a registration changes what is stored only if the
    -- limiter admits it and its body has redirect URIs, all URLs without a fragment to https, or to
    -- http at the loopback host. It then stores a client with those URIs, and replies with an id
    -- and a secret that the token endpoint accepts.
    pub handle_register-IsAdmitted :
        (s : Service) (is_post : Bool) (body : Option RegisterRequest) (now : ℕ)
        → All (λ o. o ≢ some []) s.random
        → (handle_register parse_url hash s is_post body now).0.tables ≢ s.tables
        → IsAdmitted s body now (handle_register parse_url hash s is_post body now)
    unfolding handle_register check_registration
    handle_register-IsAdmitted s false body now n h = absurd (h refl)
    handle_register-IsAdmitted s true body now n h = elim (Bool-cases (allow s.reg now).1) [
      | inr e ↦ absurd (h (rw (handle_register, e) refl))
      | inl e ↦ elim (Option-cases body) [
        | inl k ↦ absurd (h (rw (handle_register, e, k) refl))
        | inr (req, k) ↦ elim (Bool-cases (check_registration parse_url req)) [
          | inr c ↦ absurd (h (rw (handle_register, e, k, c) refl))
          | inl c ↦ record {
            request = req;
            is_json = k;
            within_limit = e;
            given = given_uris req.redirect_uris (ground arith);
            safe = checked_uris req.redirect_uris (ground arith);
            enrolled =
                rw (handle_register, e, k, c)
                  (register_client-IsStored (record s { reg = (allow s.reg now).0 }) req now n
                    (rw (handle_register, e, k, c) at h));
          }
        ]
      ]
    ]
