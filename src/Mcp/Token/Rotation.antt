-- ===== src/Mcp/Token/Rotation.antt =====
-- internal/mcpserver/oauth.go: the rotation of refresh tokens.
use gotifacts.Prelude.{
  ℕ, ◌+◌, ◌≤◌, ◌≡◌, ◌≢◌, refl, sym, ◌∙◌, subst, false, List, [], none, some, arith, Bool-cases, inl,
  inr, Result, ok, err, Result-cases,
}
use gotifacts.Prelude.Tables.{find_first, find_first-append}
use gotifacts.Text.{Text, codes, text_eq}
use gotifacts.Text.Equality.{text_eq→eq, text_eq_of_ne}
use gotifacts.Auth.{api_key_source}
use gotifacts.Store.OAuth.{
  OAuthTables, Token, TableError, no_such_row, create_token, find_token, delete_token, is_token,
}
use gotifacts.Store.OAuth.Tokens.{
  stored, create_token-eq-ok, find_token-eq-ok, find_token-missing, delete_token-gone, is_token→eq,
}
use gotifacts.Mcp.Service.{TokenReply, tokens_issued, Service, form_value}
use gotifacts.Mcp.Token.{new_token, verify_token, refresh_grant}
use gotifacts.Mcp.Token.Issue.{IsIssued, issue_tokens-IsIssued, verify_token-issued}

module _ (hash : Text → Text) where
  -- A refresh token of the client, and tokens that stand for its connection, user and grants.
  pub record IsRotated (s : Service) (client_id : Text) (form : List (Text × Text)) (now later : ℕ)
      (s' : Service) (rep : TokenReply) : Type 0 where
    pub old : Token
    pub found :
        find_token s.tables (codes "refresh") (hash (form_value form (codes "refresh_token"))) now
        ≡ ok old
    pub client : old.client_id ≡ client_id
    pub issued :
        IsIssued hash
          (record s { tables = delete_token s.tables old.hash })
          old.conn_id
          client_id
          old.user
          old.grants
          now
          s'
          rep
    pub admitted :
        (verify_token hash s'.tables rep.access_token later).1
        ≡ some (record {
          user = old.user;
          admin = false;
          grants = old.grants;
          source = api_key_source;
          key_id = 0;
        })

  -- The token endpoint answers a refresh token with tokens only if it was issued to this client and
  -- has not expired; the new tokens belong to its connection, and the access token acts as its
  -- user with its grants, no more, until it expires.
  pub refresh_grant-IsRotated :
      (s s' : Service) (client_id : Text) (form : List (Text × Text)) (now later : ℕ)
      (rep : TokenReply)
      → refresh_grant hash s client_id form now ≡ (s', tokens_issued rep)
      → later ≤ now + s.access_ttl
      → IsRotated s client_id form now later s' rep
  unfolding refresh_grant
  refresh_grant-IsRotated s s' client_id form now later rep h le =
      elim (Bool-cases (text_eq (form_value form (codes "refresh_token")) [])) [
        | inl e ↦ absurd (ground arith)
        | inr e ↦
            elim (Result-cases (
              find_token s.tables (codes "refresh") (hash (form_value form (codes "refresh_token")))
                now)) [
                  | inl (x, k) ↦ absurd (ground arith)
                  | inr (old, k) ↦ elim (Bool-cases (text_eq old.client_id client_id)) [
                    | inr f ↦ absurd (ground arith)
                    | inl f ↦
                        let s0 = record s { tables = delete_token s.tables old.hash } in
                        let made = rw (refresh_grant, e, k, f) at h in
                        record {
                          old = old;
                          found = k;
                          client = text_eq→eq old.client_id client_id f;
                          issued =
                              issue_tokens-IsIssued hash s0 s' old.conn_id client_id old.user
                                old.grants now rep made;
                          admitted =
                              verify_token-issued hash s0 s' old.conn_id client_id old.user
                                old.grants now later rep made le;
                        }
                  ]
                ]
      ]

  created-other :
      (t t' : OAuthTables) (k : Token) (ts : ℕ) (kind h : Text)
      → create_token t k ts ≡ ok t'
      → k.hash ≢ h
      → find_first (is_token kind h) t.tokens ≡ none
      → find_first (is_token kind h) t'.tokens ≡ none
  unfolding is_token
  created-other t t' k ts kind h made ne gone =
      let (fresh, same) = create_token-eq-ok t t' k ts made in
      subst (λ (x : OAuthTables). find_first (is_token kind h) x.tokens ≡ none) same
        (find_first-append (is_token kind h) t.tokens (stored k ts)
          ∙ rw (gone, text_eq_of_ne k.hash h ne) refl)

  -- A refresh token that was exchanged is not accepted again, if neither of the new tokens happens
  -- to have its hash.
  pub refresh_grant-once :
      (s s' s'' : Service) (client_id client_id' : Text) (form form' : List (Text × Text))
      (now now' : ℕ) (rep rep' : TokenReply)
      → refresh_grant hash s client_id form now ≡ (s', tokens_issued rep)
      → form_value form' (codes "refresh_token") ≡ form_value form (codes "refresh_token")
      → hash rep.access_token ≢ hash (form_value form (codes "refresh_token"))
      → hash rep.refresh_token ≢ hash (form_value form (codes "refresh_token"))
      → refresh_grant hash s' client_id' form' now' ≢ (s'', tokens_issued rep')
  unfolding new_token
  refresh_grant-once s s' s'' client_id client_id' form form' now now' rep rep' h same na nr h' =
      let old_hash = hash (form_value form (codes "refresh_token")) in
      let r = refresh_grant-IsRotated s s' client_id form now now rep h (omega arith) in
      let r' = refresh_grant-IsRotated s' s'' client_id' form' now' now' rep' h' (omega arith) in
      let (seen, _) = find_token-eq-ok s.tables (codes "refresh") old_hash now r.old r.found in
      let own : r.old.hash ≡ old_hash =
        is_token→eq (codes "refresh") old_hash s.tables r.old seen in
      let gone : find_first (is_token (codes "refresh") old_hash)
            (delete_token s.tables r.old.hash).tokens
          ≡ none =
        subst
          (λ x.
            find_first (is_token (codes "refresh") old_hash) (delete_token s.tables x).tokens
            ≡ none)
          (sym own) (delete_token-gone s.tables (codes "refresh") old_hash) in
      let i = r.issued in
      let gone1 = created-other _ i.between _ now (codes "refresh") old_hash i.access na gone in
      let gone2 =
        created-other i.between s'.tables _ now (codes "refresh") old_hash i.refresh nr gone1 in
      let refused = find_token-missing s'.tables (codes "refresh") old_hash now' gone2 in
      let found' : find_token s'.tables (codes "refresh") old_hash now' ≡ ok r'.old =
        subst (λ x. find_token s'.tables (codes "refresh") (hash x) now' ≡ ok r'.old) same
          r'.found in
      clash r'.old (sym refused ∙ found')
    where
      clash : (k : Token) → ◌≡◌ {A = Result TableError Token} (err no_such_row) (ok k) → ⊥
      clash k e = absurd (cc)
