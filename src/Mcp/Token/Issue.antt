-- ===== src/Mcp/Token/Issue.antt =====
-- internal/mcpserver/oauth.go: what issueTokens stores is what its reply hands out.
use gotifacts.Prelude.{
  ℕ, ◌+◌, ◌≤◌, ◌≡◌, refl, ap, ◌∙◌, subst, false, List, [], ◌∷◌, Option, none, some, arith, Result,
  ok, err, ltb,
}
use gotifacts.Text.{Text, codes}
use gotifacts.Auth.{Grant, api_key_source}
use gotifacts.Store.OAuth.{OAuthTables, Token, TableError, create_token, find_token}
use gotifacts.Store.OAuth.Tokens.{stored, find_token-create_token, find_token-create_other}
use gotifacts.Mcp.Service.{
  TokenReply, tokens_issued, Service, Handled, with_random, with_token, draw, inserted,
}
use gotifacts.Mcp.Token.{new_token, issue_tokens, verify_token}

-- A handler that hands out tokens had its random bytes.
draw-issued :
    (s s' : Service) (next : Service → Text → Handled) (rep : TokenReply) (r : List (Option Text))
    → draw s next r ≡ (s', tokens_issued rep)
    → (x : Text) × (rest : List (Option Text)) × (next (record s { random = rest }) x
        ≡ (s', tokens_issued rep))
unfolding draw
draw-issued s s' next rep [] h = absurd (ground arith)
draw-issued s s' next rep (none ∷ rest) h = absurd (ground arith)
draw-issued s s' next rep (some x ∷ rest) h = (x, rest, h)

pub with_random-issued :
    (s s' : Service) (next : Service → Text → Handled) (rep : TokenReply)
    → with_random s next ≡ (s', tokens_issued rep)
    → (x : Text) × (rest : List (Option Text)) × (next (record s { random = rest }) x
        ≡ (s', tokens_issued rep))
unfolding with_random
with_random-issued s s' next rep h = draw-issued s s' next rep s.random h

inserted-issued :
    (s s' : Service) (next : Service → Handled) (rep : TokenReply)
    (r : Result TableError OAuthTables)
    → inserted s next r ≡ (s', tokens_issued rep)
    → (t : OAuthTables) × (r ≡ ok t) × (next (record s { tables = t }) ≡ (s', tokens_issued rep))
unfolding inserted
inserted-issued s s' next rep (err e) h = absurd (ground arith)
inserted-issued s s' next rep (ok t) h = (t, refl, h)

-- Its tokens were new.
with_token-issued :
    (s s' : Service) (k : Token) (now : ℕ) (next : Service → Handled) (rep : TokenReply)
    → with_token s k now next ≡ (s', tokens_issued rep)
    → (t : OAuthTables) × (create_token s.tables k now ≡ ok t)
      × (next (record s { tables = t }) ≡ (s', tokens_issued rep))
unfolding with_token
with_token-issued s s' k now next rep h =
    inserted-issued s s' next rep (create_token s.tables k now) h

issued-injective :
    (a s' : Service) (r rep : TokenReply)
    → ◌≡◌ {A = Handled} (a, tokens_issued r) (s', tokens_issued rep)
    → (a.tables ≡ s'.tables) × (r ≡ rep)
issued-injective a s' r rep h =
    (ap (λ (p : Handled). p.0.tables) h, cc (ap (λ (p : Handled). p.1) h))

-- What issueTokens does when it succeeds.
pub record IsIssued (hash : Text → Text) (s : Service) (conn_id client_id user : Text)
    (grants : List Grant) (now : ℕ) (s' : Service) (rep : TokenReply) : Type 0 where
  pub between : OAuthTables
  pub access :
      create_token s.tables
        (new_token hash rep.access_token conn_id
          (codes "access")
          client_id
          user
          grants
          (now + s.access_ttl))
        now
      ≡ ok between
  pub refresh :
      create_token between
        (new_token hash rep.refresh_token conn_id
          (codes "refresh")
          client_id
          user
          grants
          (now + s.refresh_ttl))
        now
      ≡ ok s'.tables

module _ (hash : Text → Text) where
  pub issue_tokens-IsIssued :
      (s s' : Service) (conn_id client_id user : Text) (grants : List Grant) (now : ℕ)
      (rep : TokenReply)
      → issue_tokens hash s conn_id client_id user grants now ≡ (s', tokens_issued rep)
      → IsIssued hash s conn_id client_id user grants now s' rep
  unfolding issue_tokens
  issue_tokens-IsIssued s s' conn_id client_id user grants now rep h =
      let (access, rest, h1) = with_random-issued s s' _ rep h in
      let (refresh, rest', h2) = with_random-issued (record s { random = rest }) s' _ rep h1 in
      let (t1, made1, h3) = with_token-issued (record s { random = rest' }) s' _ now _ rep h2 in
      let (t2, made2, h4) =
        with_token-issued (record s { random = rest'; tables = t1 }) s' _ now _ rep h3 in
      let (tables, reply) = issued-injective _ s' _ rep h4 in
      record {
        between = t1;
        access =
            subst
              (λ (x : Text).
                create_token s.tables
                  (new_token hash x conn_id (codes "access") client_id user grants
                    (now + s.access_ttl))
                  now
                ≡ ok t1)
              (ap (λ r. r.access_token) reply) made1;
        refresh =
            subst
              (λ (x : Text).
                create_token t1
                  (new_token hash x conn_id (codes "refresh") client_id user grants
                    (now + s.refresh_ttl))
                  now
                ≡ ok s'.tables)
              (ap (λ r. r.refresh_token) reply) (made2 ∙ ap ok tables);
      }

  -- The access token of a reply is admitted as the user with the grants, until it expires.
  pub verify_token-issued :
      (s s' : Service) (conn_id client_id user : Text) (grants : List Grant) (now later : ℕ)
      (rep : TokenReply)
      → issue_tokens hash s conn_id client_id user grants now ≡ (s', tokens_issued rep)
      → later ≤ now + s.access_ttl
      → (verify_token hash s'.tables rep.access_token later).1
        ≡ some (record {
          user = user;
          admin = false;
          grants = grants;
          source = api_key_source;
          key_id = 0;
        })
  unfolding verify_token
  verify_token-issued s s' conn_id client_id user grants now later rep h le =
      let i = issue_tokens-IsIssued s s' conn_id client_id user grants now rep h in
      let k =
        new_token hash rep.access_token conn_id (codes "access") client_id user grants
          (now + s.access_ttl) in
      let live : ltb (now + s.access_ttl) later ≡ false = ground arith in
      let found : find_token i.between (codes "access") (hash rep.access_token) later
          ≡ ok (stored k now) =
        unfold new_token in
        find_token-create_token s.tables i.between k now later i.access ∙ rw live refl in
      rw
        (
          verify_token,
          find_token-create_other i.between s'.tables _ (stored k now) now later (codes "access")
              (hash rep.access_token) i.refresh found,
        )
        (unfold new_token in refl)
