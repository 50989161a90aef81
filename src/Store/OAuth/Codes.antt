-- ===== src/Store/OAuth/Codes.antt =====
-- internal/store/oauth.go: authorization codes are used once.
use gotifacts.Prelude.{
  ℕ, ◌≡◌, refl, sym, ap, ◌∙◌, subst, Bool, false, [], ◌∷◌, ◌++◌, none, some, arith, if◌then◌else◌,
  Bool-cases, Option-cases, inl, inr, Result, ok, err, any, ltb,
}
use gotifacts.Prelude.Tables.{
  find_first, find_first-remove_if, find_first-append, find_first-none, find_first-eq-some,
}
use gotifacts.Text.{Text, text_eq}
use gotifacts.Text.Equality.{text_eq_refl, text_eq→eq}
use gotifacts.Store.OAuth.{
  OAuthTables, AuthCode, TableError, no_such_row, create_auth_code, consume_auth_code,
}

abbrev pub code_of : Text → AuthCode → Bool
code_of hash c = text_eq c.hash hash

pub consume-gone :
    (t : OAuthTables) (hash : Text) (now : ℕ)
    → find_first (code_of hash) (consume_auth_code t hash now).0.codes ≡ none
unfolding consume_auth_code
consume-gone t hash now = elim (Option-cases (find_first (code_of hash) t.codes)) [
  | inl e ↦ rw (consume_auth_code, e) e
  | inr (c, e) ↦
      rw (consume_auth_code, e)
        (find_first-remove_if (code_of hash) (code_of hash) (λ x h. h) t.codes)
]

pub consume-missing :
    (t : OAuthTables) (hash : Text) (now : ℕ)
    → find_first (code_of hash) t.codes ≡ none
    → consume_auth_code t hash now ≡ (t, err no_such_row)
unfolding consume_auth_code
consume-missing t hash now h = rw (consume_auth_code, h) refl

-- A code that was asked for once, whether it was handed out, absent or expired, is never handed
-- out again, at no time and as long as it is not created anew.
pub consume_auth_code-twice :
    (t : OAuthTables) (hash : Text) (now now' : ℕ)
    → consume_auth_code (consume_auth_code t hash now).0 hash now'
      ≡ ((consume_auth_code t hash now).0, err no_such_row)
unfolding consume_auth_code
consume_auth_code-twice t hash now now' =
    consume-missing (consume_auth_code t hash now).0 hash now' (consume-gone t hash now)

pub consume-eq-ok :
    (t : OAuthTables) (hash : Text) (now : ℕ) (c : AuthCode)
    → (consume_auth_code t hash now).1 ≡ ok c
    → (find_first (code_of hash) t.codes ≡ some c)
      × (c.hash ≡ hash)
      × (ltb c.expires_at now ≡ false)
unfolding consume_auth_code
consume-eq-ok t hash now c h = elim (Option-cases (find_first (code_of hash) t.codes)) [
  | inl e ↦ absurd (ground arith)
  | inr (d, e) ↦ elim (Bool-cases (ltb d.expires_at now)) [
    | inl l ↦ absurd (ground arith)
    | inr l ↦
        let same : d ≡ c = ok_injective (rw (consume_auth_code, e, l) at h) in
        let own = text_eq→eq d.hash hash (find_first-eq-some (code_of hash) t.codes d e) in
        (
          e ∙ ap some same,
          sym (ap (λ x. x.hash) same) ∙ own,
          subst (λ x. ltb x.expires_at now ≡ false) same l,
        )
  ]
]
  where
    ok_injective : {a b : AuthCode} → ◌≡◌ {A = Result TableError AuthCode} (ok a) (ok b) → a ≡ b
    ok_injective k = cc

-- A code that was created is handed out as it was written, until it expires.
pub consume-create :
    (t t' : OAuthTables) (c : AuthCode) (now : ℕ)
    → create_auth_code t c ≡ ok t'
    → (consume_auth_code t' c.hash now).1 ≡ (if ltb c.expires_at now then err no_such_row else ok c)
unfolding create_auth_code consume_auth_code
consume-create t t' c now h = elim (Bool-cases (any (code_of c.hash) t.codes)) [
  | inl e ↦ absurd (ground arith)
  | inr e ↦
      let same : record t { codes = t.codes ++ c ∷ [] } ≡ t' =
        ok_injective (rw (create_auth_code, e) at h) in
      subst
        (λ x.
          (consume_auth_code x c.hash now).1
          ≡ (if ltb c.expires_at now then err no_such_row else ok c))
        same (rw (consume_auth_code, found e) refl)
]
  where
    ok_injective :
        {a b : OAuthTables} → ◌≡◌ {A = Result TableError OAuthTables} (ok a) (ok b) → a ≡ b
    ok_injective k = cc

    found :
        any (code_of c.hash) t.codes ≡ false
        → find_first (code_of c.hash) (t.codes ++ c ∷ []) ≡ some c
    found e =
        find_first-append (code_of c.hash) t.codes c
        ∙ rw (find_first-none (code_of c.hash) t.codes e, text_eq_refl c.hash) refl
