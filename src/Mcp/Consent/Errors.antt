-- ===== src/Mcp/Consent/Errors.antt =====
-- internal/mcpserver/consent.go: where the errors of an authorization request go.
use gotifacts.Prelude.{
  ◌≡◌, refl, sym, ◌∙◌, true, [], ◌∷◌, ◌⊎◌, inl, inr, Option, Result-cases, Result, ok, err,
}
use gotifacts.Text.{Text, codes}
use gotifacts.Auth.{Principal}
use gotifacts.Auth.Planes.{Config, mcp_user_allowed}
use gotifacts.Store.OAuth.{OAuthTables}
use gotifacts.Mcp.Authorization.{
  AuthParams, AuthError, untrusted, trusted, AuthRequest, check_parameters, check_auth_request,
}
use gotifacts.Mcp.Authorization.Trust.{
  IsRegistered, IsAccepted, check_auth_request-trusted, check_of_IsRegistered,
  check_auth_request-IsAccepted,
}
use gotifacts.Mcp.Consent.{
  Values, ConsentReply, consent_error, screen, redirect_reply, redirect_url, error_redirect_url,
  respond_redirect, report, handle_authorize,
}

module _ {U : Type 0} (parse_url : Text → Option U) (query : U → Values)
    (print_with : U → Values → Text) where
  -- An error that is sent to the client is in the query of its redirect URI, with the state.
  abbrev pub IsSentBack : AuthRequest → ConsentReply → Type 0
  IsSentBack q reply =
      (code : Text) × (desc : Text) × (check_parameters q ≡ err (trusted code desc))
      × (reply
          ≡ redirect_reply (
              redirect_url parse_url query print_with q.redirect_uri q.state
                ((codes "error", code ∷ []) ∷ (codes "error_description", desc ∷ []) ∷ [])))

  -- The answer to an authorization request: without a registered redirect URI an error for the
  -- user, and with one the screen for a request that is accepted, or an error for the client.
  abbrev pub IsReported : OAuthTables → AuthRequest → ConsentReply → Type 0
  IsReported t q reply =
      ((¬ IsRegistered t q) × (reply ≡ consent_error 400))
      ⊎ (IsRegistered t q
          × (((reply ≡ screen) × ((p : AuthParams) × IsAccepted t q p)) ⊎ IsSentBack q reply))

  not_registered :
      (t : OAuthTables) (q : AuthRequest)
      → check_auth_request t q ≡ err untrusted
      → ¬ IsRegistered t q
  not_registered t q h g = (check_auth_request-trusted t q).1 g h

  registered :
      (t : OAuthTables) (q : AuthRequest) (code desc : Text)
      → check_auth_request t q ≡ err (trusted code desc)
      → IsRegistered t q
  registered t q code desc h = (check_auth_request-trusted t q).0 (λ k. clash (sym k ∙ h))
    where
      clash : ◌≡◌ {A = Result AuthError AuthParams} (err untrusted) (err (trusted code desc)) → ⊥
      clash k = absurd (cc)

  reported :
      (t : OAuthTables) (q : AuthRequest) (e : AuthError)
      → check_auth_request t q ≡ err e
      → IsReported t q (report parse_url query print_with q.redirect_uri q.state e)
  unfolding report respond_redirect error_redirect_url
  reported t q untrusted h = inl (not_registered t q h, refl)
  reported t q (trusted code desc) h =
      let g = registered t q code desc h in
      inr (g, inr (code, desc, sym (check_of_IsRegistered t q g) ∙ h, refl))

  accepted :
      (t : OAuthTables) (q : AuthRequest) (p : AuthParams)
      → check_auth_request t q ≡ ok p
      → IsReported t q screen
  accepted t q p h =
      let a = check_auth_request-IsAccepted t q p h in inr (a.registered, inl (refl, (p, a)))

  -- For a user who may use the consent screen, an authorization request whose redirect URI is not
  -- registered for its client is answered with an error page and no redirect. One with a registered
  -- URI gets the screen, if it is accepted, or the error of its parameters, which goes with the
  -- request's state to the redirect URI if that is a URL, and else is an error page.
  pub handle_authorize-IsReported :
      {N : Type 0} (cfg : Config N) (t : OAuthTables) (who : Principal) (q : AuthRequest)
      → mcp_user_allowed cfg who.user ≡ true
      → IsReported t q (handle_authorize parse_url query print_with cfg t who q)
  unfolding handle_authorize
  handle_authorize-IsReported cfg t who q may = elim (Result-cases (check_auth_request t q)) [
    | inl (e, h) ↦ rw (may, handle_authorize, h) (reported t q e h)
    | inr (p, h) ↦ rw (may, handle_authorize, h) (accepted t q p h)
  ]
