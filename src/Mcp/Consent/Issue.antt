-- ===== src/Mcp/Consent/Issue.antt =====
-- internal/mcpserver/consent.go: what a change to the stored codes has shown.
use gotifacts.Prelude.{
  ℕ, ◌+◌, ◌≤◌, ◌≡◌, ◌≢◌, refl, ap, ◌∙◌, true, false, not, ◌&&◌, List, [], ◌∷◌, Option, none, some,
  arith, Bool-cases, inl, inr, Result, ok, err, Result-cases, ltb, All,
}
use gotifacts.Text.{Text, codes, text_eq}
use gotifacts.Text.Equality.{text_eq→eq}
use gotifacts.Auth.{Grant, Principal}
use gotifacts.Auth.Planes.{Config, mcp_user_allowed}
use gotifacts.Store.OAuth.{OAuthTables, TableError, consume_auth_code}
use gotifacts.Store.OAuth.Codes.{consume-create}
use gotifacts.Mcp.Service.{Service}
use gotifacts.Mcp.Authorization.{AuthParams, check_auth_request}
use gotifacts.Mcp.Authorization.Trust.{IsAccepted, check_auth_request-IsAccepted}
use gotifacts.Mcp.Consent.{
  ConsentRequest, authorization, Values, Answer, code_ttl, send_code, draw_code, code_stored,
  code_row, issue_code, decide, csrf_valid, handle_consent_submit,
}
use gotifacts.Mcp.Consent.Grants.{parse_consent_grants}
use gotifacts.Mcp.Consent.Grants.Forms.{IsConsented, parse_consent_grants-IsConsented}

module _ {U : Type 0} (parse_url : Text → Option U) (query : U → Values)
    (print_with : U → Values → Text) where
  draw_code-changed :
      (s : Service) (p : AuthParams) (next : Service → Text → Answer) (r : List (Option Text))
      → (draw_code parse_url query print_with s p next r).0.tables ≢ s.tables
      → (x : Text) × (rest : List (Option Text)) × (draw_code parse_url query print_with s p next r
          ≡ next (record s { random = rest }) x)
  unfolding draw_code
  draw_code-changed s p next [] h = absurd (h refl)
  draw_code-changed s p next (none ∷ rest) h = absurd (h refl)
  draw_code-changed s p next (some x ∷ rest) h = (x, rest, refl)

  code_stored-changed :
      (s : Service) (p : AuthParams) (code : Text) (r : Result TableError OAuthTables)
      → (code_stored parse_url query print_with s p code r).0.tables ≢ s.tables
      → (t : OAuthTables) × (r ≡ ok t)
        × (code_stored parse_url query print_with s p code r
            ≡ (record s { tables = t }, send_code parse_url query print_with p code))
  unfolding code_stored
  code_stored-changed s p code (err e) h = absurd (h refl)
  code_stored-changed s p code (ok t) h = (t, refl, refl)

  module _ (hash csrf_token : Text → Text) where
    -- A code was written for the approved grants, is what the browser is sent back with, and is
    -- handed out at the time `later`.
    pub record IsCoded (p : Principal) (params : AuthParams) (grants : List Grant) (now later : ℕ)
        (o : Answer) : Type 0 where
      pub code : Text
      pub sent : o.1 ≡ send_code parse_url query print_with params code
      pub stored :
          (consume_auth_code o.0.tables (hash code) later).1
          ≡ ok (record {
            hash = hash code;
            client_id = params.client_id;
            user = p.user;
            redirect_uri = params.redirect_uri;
            code_challenge = params.code_challenge;
            code_challenge_method = params.code_challenge_method;
            grants = grants;
            expires_at = now + code_ttl;
          })

    issue_code-IsCoded :
        (s : Service) (p : Principal) (params : AuthParams) (grants : List Grant) (now later : ℕ)
        → later ≤ now + code_ttl
        → (issue_code parse_url query print_with hash csrf_token s p params grants now).0.tables
          ≢ s.tables
        → IsCoded p params grants now later
            (issue_code parse_url query print_with hash csrf_token s p params grants now)
    unfolding issue_code code_row
    issue_code-IsCoded s p params grants now later le h =
        let (x, rest, e) = draw_code-changed s params _ s.random h in
        let (t, made, e') =
          code_stored-changed (record s { random = rest }) params x _
            (λ z. h (ap (λ (o : Answer). o.0.tables) e ∙ z)) in
        record {
          code = x;
          sent = ap (λ (o : Answer). o.1) (e ∙ e');
          stored =
              let live : ltb (now + code_ttl) later ≡ false = ground arith in
              ap (λ (o : Answer). (consume_auth_code o.0.tables (hash x) later).1) (e ∙ e')
              ∙ consume-create s.tables t
                  (code_row parse_url query print_with hash csrf_token params p grants x now) later
                  made
              ∙ rw live refl;
        }

    -- What has to hold for a code to be issued, and the code.
    pub record IsGranted {N : Type 0} (cfg : Config N) (s : Service) (p : Principal)
        (body : Option ConsentRequest) (now later : ℕ) (o : Answer) : Type 0 where
      pub request : ConsentRequest
      pub params : AuthParams
      pub grants : List Grant
      pub is_json : body ≡ some request
      pub allowed : mcp_user_allowed cfg p.user ≡ true
      pub same_user : csrf_token p.user ≡ request.csrf
      pub approved : request.action ≡ codes "approve"
      pub accepted : IsAccepted s.tables (authorization request) params
      pub chosen : parse_consent_grants request.grants request.acknowledge_global ≡ ok grants
      pub consented : All (IsConsented request.acknowledge_global) grants
      pub coded : IsCoded p params grants now later o

    decide-changed :
        (s : Service) (p : Principal) (req : ConsentRequest) (params : AuthParams) (now later : ℕ)
        → later ≤ now + code_ttl
        → (decide parse_url query print_with hash csrf_token s p req params now).0.tables ≢ s.tables
        → (text_eq req.action (codes "deny") ≡ false)
          × (grants : List Grant) × (parse_consent_grants req.grants req.acknowledge_global
              ≡ ok grants)
          × IsCoded p params grants now later
              (decide parse_url query print_with hash csrf_token s p req params now)
    unfolding decide
    decide-changed s p req params now later le h =
        elim (Bool-cases (text_eq req.action (codes "deny"))) [
          | inl e ↦ absurd (h (rw (decide, e) refl))
          | inr e ↦ elim (Result-cases (parse_consent_grants req.grants req.acknowledge_global)) [
            | inl (x, k) ↦ absurd (h (rw (decide, e, k) refl))
            | inr (grants, k) ↦ (
              e,
              grants,
              k,
              rw (decide, e, k)
                  (issue_code-IsCoded s p params grants now later le (rw (decide, e, k) at h)),
            )
          ]
        ]

    -- The consent screen's answer changes what is stored only if an allowed user approved, with the
    -- token of the user's own screen, an authorization request that is accepted. It then stores a
    -- code for the client and the redirect URI of that request, with the user and the chosen
    -- grants, sends the browser to the redirect URI with it, and hands it out until it expires.
    pub handle_consent_submit-IsGranted :
        {N : Type 0} (cfg : Config N) (s : Service) (p : Principal) (body : Option ConsentRequest)
        (now later : ℕ)
        → later ≤ now + code_ttl
        → (handle_consent_submit parse_url query print_with hash csrf_token cfg s p body
            now).0.tables
          ≢ s.tables
        → IsGranted cfg s p body now later
            (handle_consent_submit parse_url query print_with hash csrf_token cfg s p body now)
    unfolding handle_consent_submit csrf_valid
    handle_consent_submit-IsGranted cfg s p none now later le h =
        elim (Bool-cases (mcp_user_allowed cfg p.user)) [
          | inl e ↦ absurd (h (rw (handle_consent_submit, e) refl))
          | inr e ↦ absurd (h (rw (handle_consent_submit, e) refl))
        ]
    handle_consent_submit-IsGranted cfg s p (some req) now later le h =
        elim (Bool-cases (mcp_user_allowed cfg p.user)) [
          | inr e ↦ absurd (h (rw (handle_consent_submit, e) refl))
          | inl e ↦ elim (Bool-cases (text_eq (csrf_token p.user) req.csrf)) [
            | inr f ↦ absurd (h (rw (handle_consent_submit, e, f) refl))
            | inl f ↦
                elim (Bool-cases (
                  not (text_eq req.action (codes "approve"))
                  && not (text_eq req.action (codes "deny")))) [
                    | inl g ↦ absurd (h (rw (handle_consent_submit, e, f, g) refl))
                    | inr g ↦
                        elim (Result-cases (check_auth_request s.tables (authorization req))) [
                          | inl (x, k) ↦ absurd (h (rw (handle_consent_submit, e, f, g, k) refl))
                          | inr (params, k) ↦
                              let (deny, grants, chosen, coded) =
                                decide-changed s p req params now later le
                                  (rw (handle_consent_submit, e, f, g, k) at h) in
                              record {
                                request = req;
                                params = params;
                                grants = grants;
                                is_json = refl;
                                allowed = e;
                                same_user = text_eq→eq _ _ f;
                                approved = text_eq→eq req.action _ (ground arith);
                                accepted =
                                    check_auth_request-IsAccepted s.tables (authorization req)
                                      params k;
                                chosen = chosen;
                                consented =
                                    (parse_consent_grants-IsConsented req.grants
                                      req.acknowledge_global grants chosen).0;
                                coded = rw (handle_consent_submit, e, f, g, k) coded;
                              }
                        ]
                  ]
          ]
        ]
