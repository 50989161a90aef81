-- ===== src/Mcp/Token/Exchange.antt =====
-- internal/mcpserver/oauth.go: the exchange of an authorization code for tokens.
use gotifacts.Prelude.{
  ℕ, ◌+◌, ◌≤◌, ◌≡◌, refl, Bool, true, false, not, ◌||◌, List, [], some, arith, Bool-cases, inl, inr,
  ok, Result-cases, tests,
}
use gotifacts.Prelude.Tables.{find_first}
use gotifacts.Text.{Text, codes, text_eq}
use gotifacts.Text.Equality.{text_eq→eq}
use gotifacts.Auth.{api_key_source}
use gotifacts.Store.OAuth.{AuthCode, Token, consume_auth_code}
use gotifacts.Store.OAuth.Codes.{code_of, consume-eq-ok}
use gotifacts.Mcp.Service.{TokenReply, tokens_issued, Service, Handled, form_value}
use gotifacts.Mcp.Token.{issue_tokens, verify_token, redeem, code_grant, pkce_verify}
use gotifacts.Mcp.Token.Issue.{with_random-issued, verify_token-issued}

not-false : (b : Bool) → not b ≡ false → b ≡ true
not-false true h = refl
not-false false h = absurd (cc)

or-false : (a b : Bool) → (a || b) ≡ false → (a ≡ false) × (b ≡ false)
or-false true b h = absurd (cc)
or-false false b h = (refl, h)

module _ (hash challenge_of : Text → Text) where
  -- The row of the code in the table, which was stored for the client and the redirect URI of the
  -- request, has not expired, and whose challenge the request's verifier meets, and the tokens that
  -- stand for its user and grants.
  pub record IsRedeemed (s : Service) (client_id : Text) (form : List (Text × Text)) (now later : ℕ)
      (s' : Service) (rep : TokenReply) : Type 0 where
    pub code : AuthCode
    pub stored :
        find_first (code_of (hash (form_value form (codes "code")))) s.tables.codes ≡ some code
    pub own : code.hash ≡ hash (form_value form (codes "code"))
    pub unexpired : now ≤ code.expires_at
    pub consumed :
        (consume_auth_code s.tables (hash (form_value form (codes "code"))) now).1 ≡ ok code
    pub client : code.client_id ≡ client_id
    pub redirect : code.redirect_uri ≡ form_value form (codes "redirect_uri")
    pub pkce : challenge_of (form_value form (codes "code_verifier")) ≡ code.code_challenge
    pub admitted :
        (verify_token hash s'.tables rep.access_token later).1
        ≡ some (record {
          user = code.user;
          admin = false;
          grants = code.grants;
          source = api_key_source;
          key_id = 0;
        })

  redeem-issued :
      (s s' : Service) (client_id : Text) (form : List (Text × Text)) (verifier : Text)
      (ac : AuthCode) (now later : ℕ) (rep : TokenReply)
      → redeem hash challenge_of s client_id form verifier ac now ≡ (s', tokens_issued rep)
      → later ≤ now + s.access_ttl
      → (ac.client_id ≡ client_id)
        × (ac.redirect_uri ≡ form_value form (codes "redirect_uri"))
        × (challenge_of verifier ≡ ac.code_challenge)
        × ((verify_token hash s'.tables rep.access_token later).1
            ≡ some (record {
              user = ac.user;
              admin = false;
              grants = ac.grants;
              source = api_key_source;
              key_id = 0;
            }))
  unfolding redeem pkce_verify
  redeem-issued s s' client_id form verifier ac now later rep h le =
      elim (Bool-cases (
        not (text_eq ac.client_id client_id)
        || not (text_eq ac.redirect_uri (form_value form (codes "redirect_uri"))))) [
          | inl e ↦ absurd (ground arith)
          | inr e ↦ elim (Bool-cases (text_eq (challenge_of verifier) ac.code_challenge)) [
            | inr f ↦ absurd (ground arith)
            | inl f ↦
                let (c, r) = or-false _ _ e in
                let (conn, rest, issued) =
                  with_random-issued s s'
                    (λ s2 conn_id. issue_tokens hash s2 conn_id client_id ac.user ac.grants now) rep
                    (rw (redeem, e, f) at h) in
                (
                  text_eq→eq ac.client_id client_id (not-false _ c),
                  text_eq→eq ac.redirect_uri _ (not-false _ r),
                  text_eq→eq (challenge_of verifier) ac.code_challenge f,
                  verify_token-issued hash (record s { random = rest }) s' conn client_id ac.user
                      ac.grants now later rep issued le,
                )
          ]
        ]

  -- The token endpoint answers a code with tokens only if the table has a row of its hash, for this
  -- client and redirect URI, that has not expired, and the verifier meets the row's challenge; the
  -- access token then acts as the user of the row, with its grants, until it expires.
  pub code_grant-IsRedeemed :
      (s s' : Service) (client_id : Text) (form : List (Text × Text)) (now later : ℕ)
      (rep : TokenReply)
      → code_grant hash challenge_of s client_id form now ≡ (s', tokens_issued rep)
      → later ≤ now + s.access_ttl
      → IsRedeemed s client_id form now later s' rep
  unfolding code_grant
  code_grant-IsRedeemed s s' client_id form now later rep h le =
      elim (Bool-cases (
        text_eq (form_value form (codes "code")) []
        || text_eq (form_value form (codes "code_verifier")) [])) [
          | inl e ↦ absurd (ground arith)
          | inr e ↦
              elim (Result-cases
                (consume_auth_code s.tables (hash (form_value form (codes "code"))) now).1) [
                  | inl (x, k) ↦ absurd (ground arith)
                  | inr (ac, k) ↦
                      let t =
                        (consume_auth_code s.tables (hash (form_value form (codes "code")))
                          now).0 in
                      let (a, b, c, d) =
                        redeem-issued (record s { tables = t }) s' client_id form
                          (form_value form (codes "code_verifier")) ac now later rep
                          (rw (code_grant, e, k) at h) le in
                      let (found, own, on_time) =
                        consume-eq-ok s.tables (hash (form_value form (codes "code"))) now ac k in
                      record {
                        code = ac;
                        stored = found;
                        own = own;
                        unexpired = grind tests;
                        consumed = k;
                        client = a;
                        redirect = b;
                        pkce = c;
                        admitted = d;
                      }
                ]
        ]

  -- What a handler does to the codes.
  abbrev Leaves : List AuthCode → Handled → Type 0
  Leaves cs o = o.0.tables.codes ≡ cs
