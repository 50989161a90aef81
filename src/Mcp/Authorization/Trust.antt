-- ===== src/Mcp/Authorization/Trust.antt =====
-- internal/mcpserver/oauth.go: what an authorization request that is accepted, or rejected by a
-- redirect, has shown.
use gotifacts.Prelude.{
  ◌≡◌, ◌≢◌, ◌↔◌, refl, sym, ap, ◌∙◌, subst, true, false, [], arith, if◌then◌else◌, Bool-cases, inl,
  inr, Result, ok, err, Result-cases,
}
use gotifacts.Text.{Text, codes, text_eq, contains_text}
use gotifacts.Text.Equality.{text_eq→eq, text_eq_refl, text_eq_of_ne}
use gotifacts.Store.OAuth.{OAuthTables, OAuthClient, get_oauth_client}
use gotifacts.Mcp.Authorization.{
  AuthParams, AuthError, untrusted, trusted, AuthRequest, check_parameters, check_auth_request,
}

-- The redirect URI of a request is registered for its client.
pub record IsRegistered (t : OAuthTables) (r : AuthRequest) : Type 0 where
  pub client : OAuthClient
  pub known : get_oauth_client t r.client_id ≡ ok client
  pub named : r.client_id ≢ []
  pub given : r.redirect_uri ≢ []
  pub listed : contains_text client.redirect_uris r.redirect_uri ≡ true

-- What follows on a registered redirect URI.
pub check_of_IsRegistered :
    (t : OAuthTables) (r : AuthRequest)
    → IsRegistered t r
    → check_auth_request t r ≡ check_parameters r
unfolding check_auth_request
check_of_IsRegistered t r g =
    rw
      (
        check_auth_request,
        text_eq_of_ne r.client_id [] g.named,
        g.known,
        text_eq_of_ne r.redirect_uri [] g.given,
        g.listed,
      )
      refl

eq_of_false : (s : Text) → text_eq s [] ≡ false → s ≢ []
eq_of_false s h e =
    let k : text_eq s [] ≡ true = subst (λ x. text_eq x [] ≡ true) (sym e) (text_eq_refl []) in
    absurd (ground arith)

-- Any reply but the untrusted error is the answer to a registered redirect URI.
pub IsRegistered-or_untrusted :
    (t : OAuthTables) (r : AuthRequest) → check_auth_request t r ≢ err untrusted → IsRegistered t r
unfolding check_auth_request
IsRegistered-or_untrusted t r h = elim (Bool-cases (text_eq r.client_id [])) [
  | inl e ↦ absurd (h (rw (check_auth_request, e) refl))
  | inr e ↦ elim (Result-cases (get_oauth_client t r.client_id)) [
    | inl (x, k) ↦ absurd (h (rw (check_auth_request, e, k) refl))
    | inr (c, k) ↦ elim (Bool-cases (text_eq r.redirect_uri [])) [
      | inl f ↦ absurd (h (rw (check_auth_request, e, k, f) refl))
      | inr f ↦ elim (Bool-cases (contains_text c.redirect_uris r.redirect_uri)) [
        | inr g ↦ absurd (h (rw (check_auth_request, e, k, f, g) refl))
        | inl g ↦ record {
          client = c;
          known = k;
          named = eq_of_false r.client_id e;
          given = eq_of_false r.redirect_uri f;
          listed = g;
        }
      ]
    ]
  ]
]

check_parameters-trusted : (r : AuthRequest) → check_parameters r ≢ err untrusted
unfolding check_parameters
check_parameters-trusted r h = absurd (ground arith)

-- The check of a request ends in another result than the untrusted error exactly when the redirect
-- URI is registered for the client.
pub check_auth_request-trusted :
    (t : OAuthTables) (r : AuthRequest)
    → (check_auth_request t r ≢ err untrusted) ↔ IsRegistered t r
check_auth_request-trusted t r = (
  IsRegistered-or_untrusted t r,
  λ g h. check_parameters-trusted r (sym (check_of_IsRegistered t r g) ∙ h),
)

-- The parameters that a request that is accepted leads to.
pub record IsAccepted (t : OAuthTables) (r : AuthRequest) (p : AuthParams) : Type 0 where
  pub registered : IsRegistered t r
  pub client_id : p.client_id ≡ r.client_id
  pub redirect_uri : p.redirect_uri ≡ r.redirect_uri
  pub state : p.state ≡ r.state
  pub code_challenge : p.code_challenge ≡ r.challenge
  pub challenged : r.challenge ≢ []
  pub method : p.code_challenge_method ≡ codes "S256"
  pub for_code : r.response_type ≡ codes "code"

abbrev method_of : AuthRequest → Text
method_of r = if text_eq r.method [] then codes "S256" else r.method

check_parameters-eq-ok :
    (r : AuthRequest) (p : AuthParams)
    → check_parameters r ≡ ok p
    → (r.response_type ≡ codes "code")
      × (r.challenge ≢ [])
      × (p ≡ record {
        client_id = r.client_id;
        redirect_uri = r.redirect_uri;
        code_challenge = r.challenge;
        code_challenge_method = codes "S256";
        state = r.state;
      })
unfolding check_parameters
check_parameters-eq-ok r p h = elim (Bool-cases (text_eq r.response_type (codes "code"))) [
  | inr e ↦ absurd (ground arith)
  | inl e ↦ elim (Bool-cases (text_eq r.challenge [])) [
    | inl f ↦ absurd (ground arith)
    | inr f ↦ elim (Bool-cases (text_eq (method_of r) (codes "S256"))) [
      | inr g ↦ absurd (
          refused {c = codes "invalid_request"} {d = codes "code_challenge_method must be S256"}
            (sym (rw (check_parameters, e, f, g) refl) ∙ h))
      | inl g ↦ (
        text_eq→eq r.response_type _ e,
        eq_of_false r.challenge f,
        given (
            sym h
            ∙ rw (check_parameters, e, f, g)
                (ap (λ m. ok (with_method m)) (text_eq→eq (method_of r) _ g))),
      )
    ]
  ]
]
  where
    with_method : Text → AuthParams
    with_method m = record {
      client_id = r.client_id;
      redirect_uri = r.redirect_uri;
      code_challenge = r.challenge;
      code_challenge_method = m;
      state = r.state;
    }

    given : {a b : AuthParams} → ◌≡◌ {A = Result AuthError AuthParams} (ok a) (ok b) → a ≡ b
    given k = cc

    refused : {c d : Text} → ◌≡◌ {A = Result AuthError AuthParams} (err (trusted c d)) (ok p) → ⊥
    refused k = absurd (cc)

-- A request is accepted only with a registered redirect URI, for a code, and with a challenge of
-- the method S256; the parameters that are carried on are those of the request.
pub check_auth_request-IsAccepted :
    (t : OAuthTables) (r : AuthRequest) (p : AuthParams)
    → check_auth_request t r ≡ ok p
    → IsAccepted t r p
check_auth_request-IsAccepted t r p h =
    let g = IsRegistered-or_untrusted t r (λ k. clash (sym k ∙ h)) in
    let (c, d, e) = check_parameters-eq-ok r p (sym (check_of_IsRegistered t r g) ∙ h) in
    record {
      registered = g;
      client_id = ap (λ (q : AuthParams). q.client_id) e;
      redirect_uri = ap (λ (q : AuthParams). q.redirect_uri) e;
      state = ap (λ (q : AuthParams). q.state) e;
      code_challenge = ap (λ (q : AuthParams). q.code_challenge) e;
      challenged = d;
      method = ap (λ (q : AuthParams). q.code_challenge_method) e;
      for_code = c;
    }
  where
    clash : ◌≡◌ {A = Result AuthError AuthParams} (err untrusted) (ok p) → ⊥
    clash k = absurd (cc)
