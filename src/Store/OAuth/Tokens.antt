-- ===== src/Store/OAuth/Tokens.antt =====
-- internal/store/oauth.go: tokens are found until they expire or are revoked.
use gotifacts.Prelude.{
  ℕ, ◌≡◌, ◌≢◌, refl, sym, ap, ◌∙◌, subst, Bool, true, false, List, [], ◌∷◌, ◌++◌, none, some, arith,
  if◌then◌else◌, Bool-cases, Option-cases, inl, inr, Result, ok, err, any, ltb,
}
use gotifacts.Prelude.Tables.{
  find_first, remove_if, find_first-remove_if, find_first-append, find_first-none,
  find_first-eq-some,
}
use gotifacts.Text.{Text, text_eq}
use gotifacts.Text.Equality.{text_eq_refl, text_eq→eq, text_eq_of_ne}
use gotifacts.Store.OAuth.{
  OAuthTables, Token, TableError, no_such_row, create_token, find_token, is_token, delete_token,
  delete_connection,
}

-- A search that a removal does not touch.
pub find_first-kept :
    (p q : Token → Bool) (xs : List Token) (y : Token)
    → find_first q xs ≡ some y
    → p y ≡ false
    → find_first q (remove_if p xs) ≡ some y
unfolding find_first remove_if
find_first-kept p q [] y h k = absurd (cc)
find_first-kept p q (x ∷ xs) y h k = elim (Bool-cases (q x)) [
  | inl e ↦
      let same : x ≡ y = cc (rw e at h) in
      let stays : p x ≡ false = subst (λ z. p z ≡ false) (sym same) k in
      rw stays (rw e (ap some same))
  | inr e ↦ elim (Bool-cases (p x)) [
    | inl g ↦ rw g (find_first-kept p q xs y (rw e at h) k)
    | inr g ↦ rw g (rw e (find_first-kept p q xs y (rw e at h) k))
  ]
]

pub find_first-remaining :
    (p q : Token → Bool) (xs : List Token) (y : Token)
    → find_first q (remove_if p xs) ≡ some y
    → p y ≡ false
unfolding find_first remove_if
find_first-remaining p q [] y h = absurd (cc)
find_first-remaining p q (x ∷ xs) y h = elim (Bool-cases (p x)) [
  | inl g ↦ find_first-remaining p q xs y (rw g at h)
  | inr g ↦ elim (Bool-cases (q x)) [
    | inl e ↦ subst (λ z. p z ≡ false) (cc (rw (g, e) at h)) g
    | inr e ↦ find_first-remaining p q xs y (rw (g, e) at h)
  ]
]

ok-injective : (a b : Token) → ◌≡◌ {A = Result TableError Token} (ok a) (ok b) → a ≡ b
ok-injective a b h = cc

-- What FindToken returns is in the table and has not expired.
pub find_token-eq-ok :
    (t : OAuthTables) (kind hash : Text) (now : ℕ) (k : Token)
    → find_token t kind hash now ≡ ok k
    → (find_first (is_token kind hash) t.tokens ≡ some k) × (ltb k.expires_at now ≡ false)
unfolding find_token
find_token-eq-ok t kind hash now k h =
    elim (Option-cases (find_first (is_token kind hash) t.tokens)) [
      | inl e ↦ absurd (ground arith)
      | inr (d, e) ↦ elim (Bool-cases (ltb d.expires_at now)) [
        | inl l ↦ absurd (ground arith)
        | inr l ↦
            let same : d ≡ k = ok-injective d k (rw (find_token, e, l) at h) in
            (e ∙ ap some same, subst (λ x. ltb x.expires_at now ≡ false) same l)
      ]
    ]

pub find_token_of_row :
    (t : OAuthTables) (kind hash : Text) (now : ℕ) (k : Token)
    → find_first (is_token kind hash) t.tokens ≡ some k
    → find_token t kind hash now ≡ (if ltb k.expires_at now then err no_such_row else ok k)
unfolding find_token
find_token_of_row t kind hash now k h = rw (find_token, h) refl

-- A connection that is revoked has no token left that FindToken returns.
pub delete_connection_revoked :
    (t : OAuthTables) (conn_id kind hash : Text) (now : ℕ) (k : Token)
    → find_token (delete_connection t conn_id).0 kind hash now ≡ ok k
    → k.conn_id ≢ conn_id
unfolding delete_connection
delete_connection_revoked t conn_id kind hash now k h e =
    let (seen, _) = find_token-eq-ok (delete_connection t conn_id).0 kind hash now k h in
    let other =
      find_first-remaining (λ x. text_eq x.conn_id conn_id) (is_token kind hash) t.tokens k seen in
    let own : text_eq k.conn_id conn_id ≡ true = rw e (text_eq_refl conn_id) in
    absurd (ground arith)

-- The tokens of other connections are found as before.
pub delete_connection_kept :
    (t : OAuthTables) (conn_id kind hash : Text) (now : ℕ) (k : Token)
    → find_token t kind hash now ≡ ok k
    → k.conn_id ≢ conn_id
    → find_token (delete_connection t conn_id).0 kind hash now ≡ ok k
unfolding delete_connection
delete_connection_kept t conn_id kind hash now k h ne =
    let (seen, live) = find_token-eq-ok t kind hash now k h in
    find_token_of_row (delete_connection t conn_id).0 kind hash now k (
      find_first-kept (λ x. text_eq x.conn_id conn_id) (is_token kind hash) t.tokens k seen
        (text_eq_of_ne k.conn_id conn_id ne))
    ∙ rw live refl

pub find_token-missing :
    (t : OAuthTables) (kind hash : Text) (now : ℕ)
    → find_first (is_token kind hash) t.tokens ≡ none
    → find_token t kind hash now ≡ err no_such_row
unfolding find_token
find_token-missing t kind hash now h = rw (find_token, h) refl

is_token-hash :
    (kind hash : Text) (x : Token) → is_token kind hash x ≡ true → text_eq x.hash hash ≡ true
unfolding is_token
is_token-hash kind hash x e = elim (Bool-cases (text_eq x.hash hash)) [
  | inl f ↦ f
  | inr f ↦ absurd (ground arith)
]

pub is_token→eq :
    (kind hash : Text) (t : OAuthTables) (k : Token)
    → find_first (is_token kind hash) t.tokens ≡ some k
    → k.hash ≡ hash
is_token→eq kind hash t k h =
    text_eq→eq k.hash hash
      (is_token-hash kind hash k (find_first-eq-some (is_token kind hash) t.tokens k h))

-- A deleted token is not found.
pub delete_token-gone :
    (t : OAuthTables) (kind hash : Text)
    → find_first (is_token kind hash) (delete_token t hash).tokens ≡ none
unfolding delete_token
delete_token-gone t kind hash =
    find_first-remove_if (λ k. text_eq k.hash hash) (is_token kind hash) (is_token-hash kind hash)
      t.tokens

any-is_token :
    (kind hash : Text) (ks : List Token)
    → any (λ d. text_eq d.hash hash) ks ≡ false
    → any (is_token kind hash) ks ≡ false
unfolding is_token
any-is_token kind hash [] h = refl
any-is_token kind hash (k ∷ ks) h = elim (Bool-cases (text_eq k.hash hash)) [
  | inl e ↦ absurd (ground arith)
  | inr e ↦ rw e (any-is_token kind hash ks (rw e at h))
]

-- The table with a created token.
abbrev pub stored : Token → ℕ → Token
stored k ts = record k { created_at = ts; last_used_at = none }

pub create_token-eq-ok :
    (t t' : OAuthTables) (k : Token) (ts : ℕ)
    → create_token t k ts ≡ ok t'
    → (any (λ d. text_eq d.hash k.hash) t.tokens ≡ false)
      × (record t { tokens = t.tokens ++ stored k ts ∷ [] } ≡ t')
unfolding create_token
create_token-eq-ok t t' k ts h = elim (Bool-cases (any (λ d. text_eq d.hash k.hash) t.tokens)) [
  | inl e ↦ absurd (ground arith)
  | inr e ↦ (e, table-injective (rw (create_token, e) at h))
]
  where
    table-injective :
        {a b : OAuthTables} → ◌≡◌ {A = Result TableError OAuthTables} (ok a) (ok b) → a ≡ b
    table-injective q = cc

-- A token that was created is found, by its kind, until it expires.
pub find_token-create_token :
    (t t' : OAuthTables) (k : Token) (ts now : ℕ)
    → create_token t k ts ≡ ok t'
    → find_token t' k.kind k.hash now
      ≡ (if ltb k.expires_at now then err no_such_row else ok (stored k ts))
unfolding is_token
find_token-create_token t t' k ts now h =
    let (fresh, same) = create_token-eq-ok t t' k ts h in
    subst
      (λ x.
        find_token x k.kind k.hash now
        ≡ (if ltb k.expires_at now then err no_such_row else ok (stored k ts)))
      same
      (find_token_of_row (record t { tokens = t.tokens ++ stored k ts ∷ [] }) k.kind k.hash now
        (stored k ts)
        (find_first-append (is_token k.kind k.hash) t.tokens (stored k ts)
          ∙ rw
              (
                find_first-none (is_token k.kind k.hash) t.tokens
                    (any-is_token k.kind k.hash t.tokens fresh),
                text_eq_refl k.hash,
                text_eq_refl k.kind,
              )
              refl))

-- Creating a token leaves those in the table as they are found.
pub find_token-create_other :
    (t t' : OAuthTables) (k j : Token) (ts now : ℕ) (kind hash : Text)
    → create_token t k ts ≡ ok t'
    → find_token t kind hash now ≡ ok j
    → find_token t' kind hash now ≡ ok j
find_token-create_other t t' k j ts now kind hash h f =
    let (fresh, same) = create_token-eq-ok t t' k ts h in
    let (seen, live) = find_token-eq-ok t kind hash now j f in
    subst (λ x. find_token x kind hash now ≡ ok j) same
      (find_token_of_row (record t { tokens = t.tokens ++ stored k ts ∷ [] }) kind hash now j
          (find_first-append (is_token kind hash) t.tokens (stored k ts) ∙ rw seen refl)
        ∙ rw live refl)
